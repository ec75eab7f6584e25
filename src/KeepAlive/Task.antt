-- ===== src/KeepAlive/Task.antt =====
-- main/keep_alive.c: what holds of the storage between two rounds of the task, and the way of a
-- client from wss_keep_alive_add_client to the table.
use gateway_esp.Prelude.{
  ap, ℕ, zero, suc, ◌/◌, ◌≡◌, refl, sym, subst, ◌∙◌, inl, inr, Option-cases, Bool, true, false, [],
  ◌∷◌, none, some, replicate, length, length-replicate, ℤ, ==ℤ_refl, arith,
}
use gateway_esp.Esp.{esp_ok, esp_fail}
use gateway_esp.Rtos.{Fifo}
use gateway_esp.KeepAlive.Defs.{
  client_fd_add, ClientFdAction, zeroed, tick_get_ms, add_new_client, get_max_delay, check_clients,
}
use gateway_esp.KeepAlive.Engine.{
  Storage, Config, apply_action, task_round, StartResult, failed, no_queue, kept,
  wss_keep_alive_start, wss_keep_alive_add_client,
}
use gateway_esp.KeepAlive.Table.{
  Unique, Absent, has_free, last_seen_of, add_new_client-last_seen_of,
}
use gateway_esp.KeepAlive.Timer.{IsTimer, IsSmall, AllTimes}
use gateway_esp.KeepAlive.Refine.{IsFresh, apply_action-Unique}
use gateway_esp.KeepAlive.Pass.{check_clients-Unique}
use gateway_esp.KeepAlive.Sizes.{apply_action-AllTimes, length-apply_action, length-check_clients}

module _ (esp_timer : ℕ → ℕ) (timer : IsTimer esp_timer) (fifo : Fifo ClientFdAction) where
  open fifo use {
    Queue, create, send_to_back, receive, items, items-create, items-send_to_back, items-receive,
    receive-none,
  }

  -- The storage between two rounds of the task.
  pub record IsValid (h : Storage Queue) : Type 0 where
    pub unique : Unique h.clients
    pub times : AllTimes h.clients
    pub sized : length h.clients ≡ h.max_clients
    pub small : IsSmall h.periods
    pub messages : AllTimes (items h.q)

  -- A round of the task keeps the storage valid, if an addition that it receives is of a descriptor
  -- that is not tracked.
  pub task_round-IsValid :
      (h : Storage Queue) (n : ℕ)
      → IsValid h
      → ((a : ClientFdAction) (q' : Queue)
          → receive h.q ≡ some (a, q')
          → IsFresh a.type a h.clients)
      → IsValid (task_round esp_timer fifo h n).0
  unfolding task_round
  task_round-IsValid h n v fresh = elim (Option-cases (receive h.q)) [
    | inl e ↦ rw (e, task_round) (passed e)
    | inr ((a, q'), e) ↦ rw (e, task_round) (received a q' e)
  ]
    where
      waited : ℕ
      waited = (get_max_delay esp_timer h.periods h.clients n).1

      passed :
          receive h.q ≡ none
          → IsValid (record h {
            clients = (check_clients esp_timer h.periods h.max_clients 0 h.clients waited).0;
          })
      passed e =
          let kept : (λ (k : ℕ).
            let cs = (check_clients esp_timer h.periods k 0 h.clients waited).0 in
            Unique cs × AllTimes cs)
              h.max_clients =
            subst
              (λ (k : ℕ).
                let cs = (check_clients esp_timer h.periods k 0 h.clients waited).0 in
                Unique cs × AllTimes cs)
              v.sized
              (check_clients-Unique esp_timer timer h.periods v.small h.clients waited v.unique
                v.times) in
          record {
            unique = kept.0;
            times = kept.1;
            sized =
                length-check_clients esp_timer h.periods h.max_clients 0 h.clients waited ∙ v.sized;
            small = v.small;
            messages = v.messages;
          }

      received :
          (a : ClientFdAction) (q' : Queue)
          → receive h.q ≡ some (a, q')
          → IsValid
              (record h { q = q'; clients = (apply_action esp_timer a.type a h.clients waited).0 })
      received a q' e =
          let rest : AllTimes (a ∷ items q') =
            subst AllTimes (items-receive h.q q' a e) v.messages in
          record {
            unique =
                apply_action-Unique esp_timer a.type a h.clients waited v.unique (fresh a q' e);
            times = apply_action-AllTimes esp_timer timer a.type a h.clients waited rest.0 v.times;
            sized = length-apply_action esp_timer a.type a h.clients waited ∙ v.sized;
            small = v.small;
            messages = rest.1;
          }

  replicate-zeroed : (n : ℕ) → Unique (replicate n zeroed) × AllTimes (replicate n zeroed)
  replicate-zeroed zero = (tt, tt)
  replicate-zeroed (suc n) =
      ((λ a. cc, (replicate-zeroed n).0), (omega arith, (replicate-zeroed n).1))

  kept-injective :
      (a b : Storage Queue) → ◌≡◌ {A = StartResult (Storage Queue)} (kept a) (kept b) → a ≡ b
  kept-injective a b e = ap (λ r. elim r [ failed ↦ a | no_queue ↦ a | kept h ↦ h ]) e

  -- A storage that `wss_keep_alive_start` returns is valid and has every slot free.
  pub wss_keep_alive_start-IsValid :
      (config : Config) (allocated queue_made created : Bool)
      → IsSmall config.periods
      → (h : Storage Queue)
      → wss_keep_alive_start esp_timer fifo config allocated queue_made created ≡ kept h
      → IsValid h × (h.clients ≡ replicate config.max_clients zeroed)
  unfolding wss_keep_alive_start
  wss_keep_alive_start-IsValid config false made created s h e = absurd (cc)
  wss_keep_alive_start-IsValid config true false created s h e = absurd (cc)
  wss_keep_alive_start-IsValid config true true false s h e = absurd (cc)
  wss_keep_alive_start-IsValid config true true true s h e =
      subst (λ g. IsValid g × (g.clients ≡ replicate config.max_clients zeroed))
        (kept-injective _ h e)
        (
          record {
            unique = (replicate-zeroed config.max_clients).0;
            times = (replicate-zeroed config.max_clients).1;
            sized = length-replicate config.max_clients zeroed;
            small = s;
            messages = rw (items-create (config.max_clients / 2)) tt;
          },
          refl,
        )

  abbrev addition : ℤ → ClientFdAction
  addition fd = record { type = client_fd_add; fd = fd; last_seen = 0 }

  task_round-add :
      (h : Storage Queue) (fd : ℤ) (n : ℕ)
      → items h.q ≡ addition fd ∷ []
      → Absent fd h.clients
      → has_free h.clients ≡ true
      → let (h', out, run, n') = task_round esp_timer fifo h n in
        (last_seen_of h'.clients fd
          ≡ some (tick_get_ms esp_timer (get_max_delay esp_timer h.periods h.clients n).1))
        × (out ≡ [])
        × (run ≡ true)
        × (items h'.q ≡ [])
  unfolding task_round apply_action
  task_round-add h fd n one absent free = elim (Option-cases (receive h.q)) [
    | inl e ↦ absurd (cc (receive-none h.q e))
    | inr ((a, q'), e) ↦
        let taken : a ∷ items q' ≡ addition fd ∷ [] = sym (items-receive h.q q' a e) ∙ one in
        let same : a ≡ addition fd = cc in
        let rest : items q' ≡ [] = cc in rw (e, task_round) (rw same (added, refl, refl, rest))
  ]
    where
      waited : ℕ
      waited = (get_max_delay esp_timer h.periods h.clients n).1

      added :
          last_seen_of (add_new_client esp_timer h.clients fd waited).0 fd
          ≡ some (tick_get_ms esp_timer waited)
      added =
          ground (
            arith,
            ==ℤ_refl fd,
            add_new_client-last_seen_of esp_timer h.clients fd fd waited absent,
          )

  -- A client whose addition the queue accepts, while no other message waits, is in the table after
  -- the task's next round, seen at the time of that round, if it was not tracked and a slot is free.
  pub add_client-task_round :
      (h : Storage Queue) (fd : ℤ) (n : ℕ)
      → items h.q ≡ []
      → Absent fd h.clients
      → has_free h.clients ≡ true
      → (wss_keep_alive_add_client esp_timer fifo h fd).0 ≡ esp_ok
      → let h' = (wss_keep_alive_add_client esp_timer fifo h fd).1 in
        let (h'', out, run, n') = task_round esp_timer fifo h' n in
        (last_seen_of h''.clients fd
          ≡ some (tick_get_ms esp_timer (get_max_delay esp_timer h.periods h.clients n).1))
        × (out ≡ [])
        × (run ≡ true)
        × (items h''.q ≡ [])
  unfolding wss_keep_alive_add_client
  add_client-task_round h fd n idle absent free sent =
      elim (Option-cases (send_to_back h.q message)) [
        | inl full ↦ cc (rejected full)
        | inr (q', e) ↦ rw e (
            task_round-add (record h { q = q' }) fd n
              (items-send_to_back h.q q' message e ∙ rw idle refl) absent free)
      ]
    where
      message : ClientFdAction
      message = addition fd

      rejected : send_to_back h.q message ≡ none → esp_fail ≡ esp_ok
      rejected full = rw full at sent
