-- ===== src/KeepAlive/Silent.antt =====
-- main/keep_alive.c, keep_alive_task: rounds of the task in sequence keep the storage valid, and a silent
-- client is closed in time.
use gateway_esp.Prelude.{
  ℕ, ◌+◌, ◌*◌, ◌≤◌, ◌≡◌, refl, sym, ap, ◌∙◌, ◌⊎◌, inl, inr, List, none, All-get_elem?, Has, max,
  arith,
}
use native.Mathlib.Decide.{dec_le}
use gateway_esp.Rtos.{Fifo}
use gateway_esp.KeepAlive.Defs.{
  ClientFdAction, client_not_alive_cb, Periods, tick_get_ms, get_max_delay,
}
use gateway_esp.KeepAlive.Engine.{Storage, task_round}
use gateway_esp.KeepAlive.Timer.{IsTimer, AllTimes}
use gateway_esp.KeepAlive.Delay.{WakesFor, get_max_delay-bounds}
use gateway_esp.KeepAlive.Passed.{ActiveAt}
use gateway_esp.KeepAlive.Pass.{check_clients_lem, check_clients-gone}
use gateway_esp.KeepAlive.Task.{IsValid, task_round-IsValid}
use gateway_esp.KeepAlive.Life.{
  RoundEvent, AllFresh, PassFrom, CalledBy, IsQuiet, Rounds, no_round, timeout, message, others,
  after_wait, round_none,
}

module _ (esp_timer : ℕ → ℕ) (fifo : Fifo ClientFdAction) (timer : IsTimer esp_timer) where
  open fifo use {Queue, receive, items}

  -- What a pass does to a client: it is reported if it was dead when the pass began, and unless it
  -- is reported it keeps its slot.
  pass_client :
      (h : Storage Queue) (n j : ℕ) (c : ClientFdAction)
      → IsValid esp_timer timer fifo h
      → receive h.q ≡ none
      → ActiveAt h.clients j c
      → let (h', out, run, n') = task_round esp_timer fifo h n in
        (c.last_seen + h.periods.not_alive_after_ms
            ≤ tick_get_ms esp_timer (after_wait esp_timer fifo h n)
          → Has (client_not_alive_cb c.fd) out)
        × (ActiveAt h'.clients j c ⊎ Has (client_not_alive_cb c.fd) out)
  pass_client h n j c v e at =
      rw (round_none esp_timer fifo h n e, (sym v.sized))
        (
          λ dead.
              ((check_clients_lem esp_timer timer h.periods v.small h.clients
                  (after_wait esp_timer fifo h n) v.unique v.times).0
                j c at dead).0,
          check_clients-gone esp_timer timer h.periods v.small h.clients
              (after_wait esp_timer fifo h n) j c v.unique v.times at,
        )

  -- The time at which a pass after a timeout begins.
  pass_time :
      (h : Storage Queue) (n j late : ℕ) (c : ClientFdAction)
      → IsValid esp_timer timer fifo h
      → ActiveAt h.clients j c
      → tick_get_ms esp_timer (after_wait esp_timer fifo h n)
        ≤ tick_get_ms esp_timer n + (get_max_delay esp_timer h.periods h.clients n).0 + late
      → tick_get_ms esp_timer (after_wait esp_timer fifo h n)
        ≤ max (tick_get_ms esp_timer n + 1000) (c.last_seen + h.periods.keep_alive_period_ms) + late
  pass_time h n j late c v at wait =
      let (shorter, wakes) =
        get_max_delay-bounds esp_timer timer h.periods v.small h.clients n v.times in
      let due : WakesFor h.periods (tick_get_ms esp_timer n)
          (get_max_delay esp_timer h.periods h.clients n).0 c =
        All-get_elem?
          (WakesFor h.periods (tick_get_ms esp_timer n)
            (get_max_delay esp_timer h.periods h.clients n).0)
          h.clients j at.0 wakes in
      omega (arith, wait, due at.1)

  others-IsValid :
      (h : Storage Queue) (q : Queue)
      → AllTimes (items q)
      → IsValid esp_timer timer fifo h
      → IsValid esp_timer timer fifo (record h { q = q })
  others-IsValid h q times v = record {
    unique = v.unique;
    times = v.times;
    sized = v.sized;
    small = v.small;
    messages = times;
  }

  pass-IsValid :
      (h : Storage Queue) (n : ℕ)
      → IsValid esp_timer timer fifo h
      → receive h.q ≡ none
      → IsValid esp_timer timer fifo (task_round esp_timer fifo h n).0
        × ((task_round esp_timer fifo h n).0.periods ≡ h.periods)
  pass-IsValid h n v e = (
    task_round-IsValid esp_timer timer fifo h n v (λ a q' some_there. cc),
    rw (round_none esp_timer fifo h n e) refl,
  )

  -- When no message comes, and a client is active that the task looks at by the time at which it is
  -- silent for `not_alive_after_ms`: as soon as a pass begins after that time, the client has been
  -- reported, by a pass that began at most a second, and the delays of two rounds, after that time.
  pub silent-CalledBy :
      (p : Periods) (late j : ℕ) (c : ClientFdAction) (h : Storage Queue) (n : ℕ)
      (es : List RoundEvent) (h' : Storage Queue) (n' : ℕ)
      → Rounds esp_timer fifo late h n es h' n'
      → IsValid esp_timer timer fifo h
      → h.periods ≡ p
      → IsQuiet es
      → ActiveAt h.clients j c
      → let dead = c.last_seen + p.not_alive_after_ms in
        tick_get_ms esp_timer n ≤ dead + late
        → PassFrom dead es
        → CalledBy (dead + 1000 + 2 * late) (client_not_alive_cb c.fd) es
  silent-CalledBy p late j c _ _ _ _ _ (no_round h n) v same quiet at by from = from
  silent-CalledBy p late j c _ _ _ _ _ (timeout h n es h' n' e wait short r) v same quiet at by
        from =
      let dead = c.last_seen + p.not_alive_after_ms in
      let t = tick_get_ms esp_timer (after_wait esp_timer fifo h n) in
      let limit : h.periods.not_alive_after_ms ≡ p.not_alive_after_ms =
        ap (λ (q : Periods). q.not_alive_after_ms) same in
      let (reports, stays) = pass_client h n j c v e at in
      let (v', kept) = pass-IsValid h n v e in
      let begins : t ≤ dead + 1000 + 2 * late =
        omega (arith, pass_time h n j late c v at wait, v.small.ordered, limit, by) in
      elim (dec_le dead t) [
        | yes passed ↦ inl (begins, reports (omega (arith, limit)))
        | no young ↦ elim stays [
          | inr told ↦ inl (begins, told)
          | inl still ↦ inr (
              silent-CalledBy p late j c (task_round esp_timer fifo h n).0
                (task_round esp_timer fifo h n).3 es h' n' r v' (kept ∙ same) quiet still
                (omega arith) (elim from [ inl early ↦ absurd (young early) | inr later ↦ later ]))
        ]
      ]
  silent-CalledBy p late j c _ _ _ _ _ (message h n a q es h' n' e goes_on r) v same quiet at by
        from =
      absurd quiet
  silent-CalledBy p late j c _ _ _ _ _ (others h n q es h' n' times r) v same quiet at by from =
      silent-CalledBy p late j c (record h { q = q }) n es h' n' r (others-IsValid h q times v) same
        quiet at by from

  -- Rounds keep the storage valid, whatever the other tasks make of the queue between them, if each
  -- message that the rounds handle to add a client is about a descriptor that the table does not track
  -- at that time, and no message in the queue has a time of 2 ^ 54 milliseconds or more.
  pub Rounds-IsValid :
      (late : ℕ) (h : Storage Queue) (n : ℕ) (es : List RoundEvent) (h' : Storage Queue) (n' : ℕ)
      → Rounds esp_timer fifo late h n es h' n'
      → AllFresh es
      → IsValid esp_timer timer fifo h
      → IsValid esp_timer timer fifo h'
  Rounds-IsValid late _ _ _ _ _ (no_round h n) fresh v = v
  Rounds-IsValid late _ _ _ _ _ (timeout h n es h' n' e wait short r) fresh v =
      Rounds-IsValid late _ _ es h' n' r fresh (pass-IsValid h n v e).0
  Rounds-IsValid late _ _ _ _ _ (message h n a q es h' n' e goes_on r) fresh v =
      Rounds-IsValid late _ _ es h' n' r fresh.1 (
        task_round-IsValid esp_timer timer fifo h n v
          (λ b q' e'. let same : b ≡ a = cc in rw same fresh.0))
  Rounds-IsValid late _ _ _ _ _ (others h n q es h' n' times r) fresh v =
      Rounds-IsValid late (record h { q = q }) n es h' n' r fresh (others-IsValid h q times v)
