-- ===== src/Devices/Edges.antt =====
-- main/trigger/trigger2.c, the source of triggers that is driven by an interrupt. It is not in the build.
use gateway_esp.Prelude.{
  ℕ, zero, suc, ◌+◌, ◌≡◌, refl, ap, ◌∙◌, length, length-append, false, arith, inl, inr,
  Option-cases, Bool, true, List, [], ◌∷◌, ◌++◌, Option, none, some, ℤ, pos, if◌then◌else◌,
}
use gateway_esp.Rtos.{Fifo}
use gateway_esp.Devices.Json.{
  Cjson, number, command, Call, create_object, delete_response, callback, respond, number_of,
  around,
}
use gateway_esp.Devices.Relay.{online}
use gateway_esp.Devices.Trigger.{Trigger, trigger_command, impulse_code}

-- What happens: a falling edge of a pin, which the interrupt handler sees, or a round of the task, with
-- the results of `cJSON_CreateObject` and `cJSON_CreateNumber`.
pub data EdgeEvent : Type 0 where
  edge : ℕ → EdgeEvent
  task_turn : Bool → Bool → EdgeEvent

-- cJSON has memory in every round.
abbrev pub AllMade : List EdgeEvent → Type 0
AllMade [] = Unit
AllMade (edge pin ∷ es) = AllMade es
AllMade (task_turn object made ∷ es) = (object ≡ true) × (made ≡ true) × AllMade es

-- The queue, the static state, and whether the task has not returned.
pub record EdgeTrigger (Q : Type 0) : Type 0 where
  pub input_queue : Q
  pub trigger : Trigger
  pub task_runs : Bool

module _ (fifo : Fifo ℕ) where
  open fifo use {Queue, create, send_to_back, receive, items, items-send_to_back, items-receive}

  -- `initTrigger`.
  unfoldable pub init_edge_trigger : Trigger → EdgeTrigger Queue
  init_edge_trigger t = record {
    input_queue = create 10;
    trigger = record t { trigger_status = online };
    task_runs = true;
  }

  abbrev kept_queue : Queue → Option Queue → Queue
  kept_queue q none = q
  kept_queue q (some q') = q'

  -- `xQueueSendFromISR`, whose result is not looked at.
  unfoldable pub gpio_interrupt_handler : ℕ → EdgeTrigger Queue → EdgeTrigger Queue
  gpio_interrupt_handler pin t = record t {
    input_queue = kept_queue t.input_queue (send_to_back t.input_queue pin);
  }

  module _ (j : Cjson) where
    -- `triggerHandleCommand`.
    unfoldable pub edge_handle_command :
        List ℕ → Bool → Bool → Bool → ℕ → ℤ → EdgeTrigger Queue → List Call
    edge_handle_command str object first second handle fd t =
        let item = j.parse str in
        around j item
          (trigger_command j (number_of j item command) object first second handle fd t.trigger)

    abbrev impulse_call : Bool → Bool → List Call × Bool
    impulse_call object made =
        respond j object (record { made = made; key = command; value = number impulse_code } ∷ [])
          none (pos 4)

    -- One round of `triggerTask`: without a message it waits on. The Boolean tells whether the task goes
    -- on.
    unfoldable pub edge_task_round :
        Bool → Bool → EdgeTrigger Queue → EdgeTrigger Queue × List Call × Bool
    edge_task_round object made t = elim (receive t.input_queue) [
      | none ↦ (t, [], true)
      | some (pin, q') ↦
          let (out, on) = impulse_call object made in
          (
            record t {
              input_queue = q';
              trigger = if on then record (t.trigger) { trigger_stat = true } else t.trigger;
              task_runs = on;
            },
            out,
            on,
          )
    ]

    -- Events in sequence. A task that has returned has no more rounds.
    abbrev pub task_turn_of : Bool → Bool → Bool → EdgeTrigger Queue → EdgeTrigger Queue × List Call
    task_turn_of false object made t = (t, [])
    task_turn_of true object made t = let (t', out, on) = edge_task_round object made t in (t', out)

    unfoldable pub edge_run : List EdgeEvent → EdgeTrigger Queue → EdgeTrigger Queue × List Call
    edge_run [] t = (t, [])
    edge_run (edge pin ∷ es) t = edge_run es (gpio_interrupt_handler pin t)
    edge_run (task_turn object made ∷ es) t =
        let here = task_turn_of t.task_runs object made t in
        let rest = edge_run es here.0 in (rest.0, here.1 ++ rest.1)

    -- How many edges the queue takes.
    abbrev pub accepted_edge : Option Queue → ℕ
    accepted_edge none = 0
    accepted_edge (some q) = 1

    abbrev pub accepted : List EdgeEvent → EdgeTrigger Queue → ℕ
    accepted [] t = 0
    accepted (edge pin ∷ es) t =
        accepted_edge (send_to_back t.input_queue pin) + accepted es (gpio_interrupt_handler pin t)
    accepted (task_turn object made ∷ es) t = accepted es (task_turn_of t.task_runs object made t).0

    -- The calls for a number of impulses.
    abbrev pub impulses_for : ℕ → List Call
    impulses_for zero = []
    impulses_for (suc n) =
        create_object
        ∷ callback (j.print ((command, number 101) ∷ [])) none (pos 4)
        ∷ delete_response
        ∷ impulses_for n

    handler-full :
        (pin : ℕ) (t : EdgeTrigger Queue)
        → send_to_back t.input_queue pin ≡ none
        → gpio_interrupt_handler pin t ≡ t
    unfolding gpio_interrupt_handler
    handler-full pin t full =
        ap (λ (q : Option Queue). record t { input_queue = kept_queue t.input_queue q }) full

    handler-room :
        (pin : ℕ) (t : EdgeTrigger Queue) (q' : Queue)
        → send_to_back t.input_queue pin ≡ some q'
        → gpio_interrupt_handler pin t ≡ record t { input_queue = q' }
    unfolding gpio_interrupt_handler
    handler-room pin t q' room =
        ap (λ (q : Option Queue). record t { input_queue = kept_queue t.input_queue q }) room

    round-idle :
        (t : EdgeTrigger Queue)
        → receive t.input_queue ≡ none
        → edge_task_round true true t ≡ (t, [], true)
    unfolding edge_task_round
    round-idle t idle = rw (idle, edge_task_round) refl

    abbrev after_impulse : EdgeTrigger Queue → Queue → EdgeTrigger Queue
    after_impulse t q' = record {
      input_queue = q';
      trigger = record (t.trigger) { trigger_stat = true };
      task_runs = true;
    }

    round-impulse :
        (t : EdgeTrigger Queue) (pin : ℕ) (q' : Queue)
        → receive t.input_queue ≡ some (pin, q')
        → edge_task_round true true t ≡ (after_impulse t q', impulses_for 1, true)
    unfolding edge_task_round respond
    round-impulse t pin q' e = rw (e, edge_task_round) refl

    turn-idle :
        (t : EdgeTrigger Queue) (on object made : Bool)
        → on ≡ true
        → object ≡ true
        → made ≡ true
        → receive t.input_queue ≡ none
        → task_turn_of on object made t ≡ (t, [])
    turn-idle t on object made runs o m idle =
        rw (runs, o, m)
          (ap (λ (r : EdgeTrigger Queue × List Call × Bool). (r.0, r.1)) (round-idle t idle))

    turn-impulse :
        (t : EdgeTrigger Queue) (on object made : Bool) (pin : ℕ) (q' : Queue)
        → on ≡ true
        → object ≡ true
        → made ≡ true
        → receive t.input_queue ≡ some (pin, q')
        → task_turn_of on object made t ≡ (after_impulse t q', impulses_for 1)
    turn-impulse t on object made pin q' runs o m e =
        rw (runs, o, m)
          (ap (λ (r : EdgeTrigger Queue × List Call × Bool). (r.0, r.1)) (round-impulse t pin q' e))

    -- While cJSON has memory, the task sends one impulse for each edge that the queue took: what it has
    -- sent, with an impulse for each edge that still waits, is as many impulses as edges waited at first
    -- and were taken by the queue since.
    pub edge_run-impulses :
        (es : List EdgeEvent) (t : EdgeTrigger Queue)
        → AllMade es
        → t.task_runs ≡ true
        → let (t', out) = edge_run es t in
          out ++ impulses_for (length (items t'.input_queue))
          ≡ impulses_for (length (items t.input_queue) + accepted es t)
    unfolding edge_run
    edge_run-impulses [] t made runs = ap impulses_for (omega arith)
    edge_run-impulses (edge pin ∷ es) t made runs =
        elim (Option-cases (send_to_back t.input_queue pin)) [
          | inl full ↦
              rw (full, edge_run, handler-full pin t full)
                (edge_run-impulses es t made runs ∙ ap impulses_for (omega arith))
          | inr (q', e) ↦
              rw (e, edge_run, handler-room pin t q' e)
                (edge_run-impulses es (record t { input_queue = q' }) made runs
                  ∙ ap impulses_for (
                      omega (
                        arith,
                        ap (λ l. length l) (items-send_to_back t.input_queue q' pin e),
                        length-append (items t.input_queue) (pin ∷ []),
                      )))
        ]
    edge_run-impulses (task_turn object made ∷ es) t all runs =
        elim (Option-cases (receive t.input_queue)) [
          | inl idle ↦
              rw (edge_run, turn-idle t t.task_runs object made runs all.0 all.1 idle)
                (edge_run-impulses es t all.2 runs)
          | inr ((pin, q'), e) ↦
              let more = accepted es (after_impulse t q') in
              let sizes : suc (length (items q') + more) ≡ length (pin ∷ items q') + more =
                omega arith in
              rw
                (
                  edge_run,
                  turn-impulse t t.task_runs object made pin q' runs all.0 all.1 e,
                  items-receive t.input_queue q' pin e,
                )
                (ap (λ l. impulses_for 1 ++ l)
                    (edge_run-impulses es (after_impulse t q') all.2 refl)
                  ∙ ap impulses_for sizes)
        ]
