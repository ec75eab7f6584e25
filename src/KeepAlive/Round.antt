-- ===== src/KeepAlive/Round.antt =====
-- main/keep_alive.c, keep_alive_task: what the loop after a timeout does to one slot.
use gateway_esp.Prelude.{
  ℕ, suc, ◌+◌, ◌≤◌, ◌<◌, ◌^◌, ◌≡◌, refl, inl, inr, Bool-cases, true, List, [], ◌∷◌, some, get_elem?,
  set, All-get_elem?, All-set, leb, leb→le, leb-false→lt, arith,
}
use gateway_esp.Words.{add64}
use gateway_esp.KeepAlive.Defs.{
  ClientFdAction, Callback, client_not_alive_cb, check_client_alive_cb, Periods, is_active,
  tick_get_ms, cleared, check_slot,
}
use gateway_esp.KeepAlive.Table.{Unique}
use gateway_esp.KeepAlive.Unique.{remove_client-eq-set}
use gateway_esp.KeepAlive.Timer.{IsTimer, IsSmall, AllTimes, tick-le-suc}

-- What happens to one client at its round: it stays, is pinged, or is closed.
pub data Outcome (p : Periods) (i : ℕ) (c : ClientFdAction) (cs : List ClientFdAction)
    (now later : ℕ) (cs' : List ClientFdAction) (out : List Callback) : Type 0 where
  kept :
      cs' ≡ cs
      → out ≡ []
      → (is_active c.type ≡ true → now < c.last_seen + p.keep_alive_period_ms)
      → Outcome p i c cs now later cs' out
  pinged :
      cs' ≡ cs
      → out ≡ check_client_alive_cb c.fd ∷ []
      → is_active c.type ≡ true
      → c.last_seen + p.keep_alive_period_ms ≤ later
      → now < c.last_seen + p.not_alive_after_ms
      → Outcome p i c cs now later cs' out
  closed :
      cs' ≡ set cs i (cleared c)
      → out ≡ client_not_alive_cb c.fd ∷ []
      → is_active c.type ≡ true
      → c.last_seen + p.not_alive_after_ms ≤ later
      → Outcome p i c cs now later cs' out

module _ (esp_timer : ℕ → ℕ) (timer : IsTimer esp_timer) (p : Periods) (s : IsSmall p) where
  pub check_slot-Outcome :
      (i : ℕ) (c : ClientFdAction) (cs : List ClientFdAction) (n : ℕ)
      → Unique cs
      → AllTimes cs
      → get_elem? cs i ≡ some c
      → let (cs', out, n') = check_slot esp_timer p c cs n in
        Outcome p i c cs (tick_get_ms esp_timer n) (tick_get_ms esp_timer n') cs' out
        × (tick_get_ms esp_timer n ≤ tick_get_ms esp_timer n')
  unfolding check_slot
  check_slot-Outcome i c cs n u t e =
      let seen = All-get_elem? (λ (d : ClientFdAction). d.last_seen < 2 ^ 54) cs i e t in
      let first = tick-le-suc esp_timer timer n in
      let second = tick-le-suc esp_timer timer (suc n) in
      elim (Bool-cases (is_active c.type)) [
        | inr off ↦ rw off (kept refl refl (λ a. cc), omega arith)
        | inl on ↦ elim (Bool-cases (leb due now)) [
          | inr early ↦ rw on (
              rw early
                (kept refl refl (λ a. omega (arith, s.period, leb-false→lt due now early)), first))
          | inl late ↦ elim (Bool-cases (leb dead (tick_get_ms esp_timer (suc n)))) [
            | inr alive ↦
                rw (on, late)
                  (rw alive (
                    pinged refl refl on (omega (arith, s.period, leb→le due now late))
                        (omega (arith, s.not_alive, leb-false→lt dead _ alive)),
                    omega arith,
                  ))
            | inl gone ↦
                rw (on, late)
                  (rw gone (
                    closed (remove_client-eq-set cs i c u e on) refl on
                        (omega (arith, s.not_alive, leb→le dead _ gone)),
                    omega arith,
                  ))
          ]
        ]
      ]
    where
      due : ℕ
      due = add64 c.last_seen p.keep_alive_period_ms

      dead : ℕ
      dead = add64 c.last_seen p.not_alive_after_ms

      now : ℕ
      now = tick_get_ms esp_timer n

pub Outcome-AllTimes :
    (p : Periods) (i : ℕ) (c : ClientFdAction) (cs : List ClientFdAction) (now later : ℕ)
    {cs' : List ClientFdAction} {out : List Callback}
    → get_elem? cs i ≡ some c
    → AllTimes cs
    → Outcome p i c cs now later cs' out
    → AllTimes cs'
Outcome-AllTimes p i c cs now later e t (kept same quiet young) = rw same t
Outcome-AllTimes p i c cs now later e t (pinged same ping on due alive) = rw same t
Outcome-AllTimes p i c cs now later e t (closed clear call on dead) =
    rw clear (All-set IsTime cs i (cleared c) (All-get_elem? IsTime cs i e t) t)
  where
    IsTime : ClientFdAction → Type 0
    IsTime d = d.last_seen < 2 ^ 54
