-- ===== src/KeepAlive/Delay.antt =====
-- main/keep_alive.c, get_max_delay: how long the task may sleep.
use gateway_esp.Prelude.{
  ℕ, suc, ◌+◌, ◌^◌, ◌≤◌, ◌<◌, ◌≡◌, true, List, [], ◌∷◌, All, All-map, arith, max,
}
use gateway_esp.KeepAlive.Defs.{
  ClientFdAction, Periods, is_active, tick_get_ms, delay_round, max_delay_loop, get_max_delay,
}
use gateway_esp.KeepAlive.Timer.{IsTimer, IsSmall, AllTimes, tick-le-suc, tick-lt}

-- A wait of `after` from time `now` ends when the client is due, or else within a second.
abbrev pub WakesFor : Periods → ℕ → ℕ → ClientFdAction → Type 0
WakesFor p now after c =
    is_active c.type ≡ true → now + after ≤ max (now + 1000) (c.last_seen + p.keep_alive_period_ms)

module _ (esp_timer : ℕ → ℕ) (timer : IsTimer esp_timer) (p : Periods) (s : IsSmall p) where
  round-bounds :
      (c : ClientFdAction) (after n : ℕ)
      → after ≤ 30000
      → c.last_seen < 2 ^ 54
      → let (after', n') = delay_round esp_timer p c after n in
        (after' ≤ max 1000 after)
        × (tick_get_ms esp_timer n ≤ tick_get_ms esp_timer n')
        × WakesFor p (tick_get_ms esp_timer n) after' c
  unfolding delay_round
  round-bounds c after n h seen = ground (
    arith,
    s.period,
    tick-le-suc esp_timer timer n,
    tick-le-suc esp_timer timer (suc n),
    tick-lt esp_timer timer n,
    tick-lt esp_timer timer (suc n),
  )

  max_delay_loop-bounds :
      (cs : List ClientFdAction) (after n : ℕ)
      → after ≤ 30000
      → AllTimes cs
      → let d = (max_delay_loop esp_timer p cs after n).0 in
        (d ≤ max 1000 after) × All (WakesFor p (tick_get_ms esp_timer n) d) cs
  unfolding max_delay_loop
  max_delay_loop-bounds [] after n h t = (omega arith, tt)
  max_delay_loop-bounds (c ∷ cs) after n h t =
      let (after', n') = delay_round esp_timer p c after n in
      let (shorter, later, wakes) = round-bounds c after n h t.0 in
      let (bound, rest) = max_delay_loop-bounds cs after' n' (omega arith) t.1 in
      (
        omega arith,
        (
          λ active. omega (arith, wakes active),
          All-map (WakesFor p (tick_get_ms esp_timer n') _) (WakesFor p (tick_get_ms esp_timer n) _)
              cs (λ d w active. omega (arith, w active)) rest,
        ),
      )

  -- The task never sleeps for more than 30 seconds, and no active client waits more than a second
  -- past the time at which its keep-alive period ends.
  pub get_max_delay-bounds :
      (cs : List ClientFdAction) (n : ℕ)
      → AllTimes cs
      → let d = (get_max_delay esp_timer p cs n).0 in
        (d ≤ 30000) × All (WakesFor p (tick_get_ms esp_timer n) d) cs
  unfolding get_max_delay
  get_max_delay-bounds cs n t =
      let (bound, wakes) = max_delay_loop-bounds cs 30000 n (omega arith) t in (omega arith, wakes)
