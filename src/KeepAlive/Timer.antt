-- ===== src/KeepAlive/Timer.antt =====
-- What the keep-alive task relies on from outside: the timer, and numbers that are times.
use gateway_esp.Prelude.{ℕ, suc, ◌^◌, ◌≤◌, ◌<◌, List, All, arith}
use gateway_esp.KeepAlive.Defs.{ClientFdAction, Periods, tick_get_ms}

-- `esp_timer_get_time` counts microseconds since boot in an `int64_t`, and never goes back.
pub record IsTimer (esp_timer : ℕ → ℕ) : Type 0 where
  pub mono : (n : ℕ) → esp_timer n ≤ esp_timer (suc n)
  pub small : (n : ℕ) → esp_timer n < 2 ^ 63

-- The settings are values of `size_t`, 32 bits on the target.
pub record IsSmall (p : Periods) : Type 0 where
  pub period : p.keep_alive_period_ms < 2 ^ 32
  pub not_alive : p.not_alive_after_ms < 2 ^ 32
  pub ordered : p.keep_alive_period_ms ≤ p.not_alive_after_ms

-- The times in the table are readings of the timer.
abbrev pub AllTimes : List ClientFdAction → Type 0
AllTimes = All (λ c. c.last_seen < 2 ^ 54)

module _ (esp_timer : ℕ → ℕ) (timer : IsTimer esp_timer) where
  pub tick-le-suc : (n : ℕ) → tick_get_ms esp_timer n ≤ tick_get_ms esp_timer (suc n)
  tick-le-suc n = omega (arith, timer.mono n)

  pub tick-lt : (n : ℕ) → tick_get_ms esp_timer n < 2 ^ 54
  tick-lt n = omega (arith, timer.small n)
