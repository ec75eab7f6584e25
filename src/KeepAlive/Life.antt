-- ===== src/KeepAlive/Life.antt =====
-- main/keep_alive.c, keep_alive_task: rounds of the task in sequence, with the times at which they act.
use gateway_esp.Prelude.{ℕ, ℤ, ◌+◌, ◌≤◌, ◌≡◌, refl, ◌⊎◌, true, List, [], ◌∷◌, none, some, Has}
use gateway_esp.Rtos.{Fifo}
use gateway_esp.KeepAlive.Defs.{ClientFdAction, Callback, tick_get_ms, get_max_delay, check_clients}
use gateway_esp.KeepAlive.Engine.{Storage, apply_action, task_round}
use gateway_esp.KeepAlive.Timer.{AllTimes}
use gateway_esp.KeepAlive.Passed.{ActiveAt}
use gateway_esp.KeepAlive.Slots.{apply_action-ActiveAt}
use gateway_esp.KeepAlive.Refine.{IsFresh}

-- What a round does: after a timeout at some time it passes over the clients, or it handles a message.
pub data RoundEvent : Type 0 where
  passed_over : ℕ → List Callback → RoundEvent
  handled : ClientFdAction → List ClientFdAction → RoundEvent

-- A pass that begins at `dead` or later.
abbrev pub PassFrom : ℕ → List RoundEvent → Type 0
PassFrom dead [] = ⊥
PassFrom dead (passed_over t out ∷ es) = (dead ≤ t) ⊎ PassFrom dead es
PassFrom dead (handled a cs ∷ es) = PassFrom dead es

-- A pass that begins by `limit` and makes the callback.
abbrev pub CalledBy : ℕ → Callback → List RoundEvent → Type 0
CalledBy limit cb [] = ⊥
CalledBy limit cb (passed_over t out ∷ es) = ((t ≤ limit) × Has cb out) ⊎ CalledBy limit cb es
CalledBy limit cb (handled a cs ∷ es) = CalledBy limit cb es

abbrev pub IsQuiet : List RoundEvent → Type 0
IsQuiet [] = Unit
IsQuiet (passed_over t out ∷ es) = IsQuiet es
IsQuiet (handled a cs ∷ es) = ⊥

-- Every round handles a message, and none is about the descriptor.
abbrev pub IsBusy : ℤ → List RoundEvent → Type 0
IsBusy fd [] = Unit
IsBusy fd (passed_over t out ∷ es) = ⊥
IsBusy fd (handled a cs ∷ es) = (a.fd ≡ fd → ⊥) × IsBusy fd es

-- Each message that adds a client is about a descriptor that the table does not track.
abbrev pub AllFresh : List RoundEvent → Type 0
AllFresh [] = Unit
AllFresh (passed_over t out ∷ es) = AllFresh es
AllFresh (handled a cs ∷ es) = IsFresh a.type a cs × AllFresh es

module _ (esp_timer : ℕ → ℕ) (fifo : Fifo ClientFdAction) where
  open fifo use {Queue, receive, items}

  -- The reading that follows the wait of a round.
  abbrev pub after_wait : Storage Queue → ℕ → ℕ
  after_wait h n = (get_max_delay esp_timer h.periods h.clients n).1

  -- Rounds from a storage and a reading of the timer. `late` bounds, in milliseconds, how much later
  -- than asked for a wait ends by a timeout, and how long a pass takes. Between two rounds the other
  -- tasks may change the queue.
  pub data Rounds (late : ℕ)
      : Storage Queue → ℕ → List RoundEvent → Storage Queue → ℕ → Type 0 where
    no_round : (h : Storage Queue) (n : ℕ) → Rounds late h n [] h n
    timeout :
        (h : Storage Queue) (n : ℕ) (es : List RoundEvent) (h' : Storage Queue) (n' : ℕ)
        → receive h.q ≡ none
        → tick_get_ms esp_timer (after_wait h n)
          ≤ tick_get_ms esp_timer n + (get_max_delay esp_timer h.periods h.clients n).0 + late
        → tick_get_ms esp_timer (task_round esp_timer fifo h n).3
          ≤ tick_get_ms esp_timer (after_wait h n) + late
        → Rounds late (task_round esp_timer fifo h n).0 (task_round esp_timer fifo h n).3 es h' n'
        → Rounds late h n
            (passed_over (tick_get_ms esp_timer (after_wait h n)) (task_round esp_timer fifo h n).1
              ∷ es)
            h'
            n'
    message :
        (h : Storage Queue) (n : ℕ) (a : ClientFdAction) (q : Queue) (es : List RoundEvent)
        (h' : Storage Queue) (n' : ℕ)
        → receive h.q ≡ some (a, q)
        → (task_round esp_timer fifo h n).2 ≡ true
        → Rounds late (task_round esp_timer fifo h n).0 (task_round esp_timer fifo h n).3 es h' n'
        → Rounds late h n (handled a h.clients ∷ es) h' n'
    others :
        (h : Storage Queue) (n : ℕ) (q : Queue) (es : List RoundEvent) (h' : Storage Queue) (n' : ℕ)
        → AllTimes (items q)
        → Rounds late (record h { q = q }) n es h' n'
        → Rounds late h n es h' n'

  pub round_none :
      (h : Storage Queue) (n : ℕ)
      → receive h.q ≡ none
      → let (cs, out, n') =
          check_clients esp_timer h.periods h.max_clients 0 h.clients (after_wait h n) in
        task_round esp_timer fifo h n ≡ (record h { clients = cs }, out, true, n')
  unfolding task_round
  round_none h n e = rw (e, task_round) refl

  round_some :
      (h : Storage Queue) (n : ℕ) (a : ClientFdAction) (q : Queue)
      → receive h.q ≡ some (a, q)
      → let (cs, run, n') = apply_action esp_timer a.type a h.clients (after_wait h n) in
        task_round esp_timer fifo h n ≡ (record h { clients = cs; q = q }, [], run, n')
  unfolding task_round
  round_some h n a q e = rw (e, task_round) refl

  -- A client keeps its slot, however long it is silent, while every round handles a message, and none
  -- of these is about its descriptor: the task then looks at no client.
  pub busy-ActiveAt :
      (late j : ℕ) (c : ClientFdAction) (h : Storage Queue) (n : ℕ) (es : List RoundEvent)
      (h' : Storage Queue) (n' : ℕ)
      → Rounds late h n es h' n'
      → IsBusy c.fd es
      → ActiveAt h.clients j c
      → ActiveAt h'.clients j c
  busy-ActiveAt late j c _ _ _ _ _ (no_round h n) busy at = at
  busy-ActiveAt late j c _ _ _ _ _ (timeout h n es h' n' e wait short r) busy at = absurd busy
  busy-ActiveAt late j c _ _ _ _ _ (message h n a q es h' n' e goes_on r) busy at =
      busy-ActiveAt late j c _ _ es h' n' r busy.1 (
        rw (round_some h n a q e)
          (apply_action-ActiveAt esp_timer a.type a h.clients (after_wait h n) j c busy.0 at))
  busy-ActiveAt late j c _ _ _ _ _ (others h n q es h' n' times r) busy at =
      busy-ActiveAt late j c (record h { q = q }) n es h' n' r busy at
