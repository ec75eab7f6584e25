-- ===== src/KeepAlive/Pass.antt =====
-- main/keep_alive.c, keep_alive_task: the pass over all clients that follows a timeout.
use gateway_esp.Prelude.{
  ℕ, zero, suc, ◌+◌, ◌≤◌, ◌<◌, ◌⊎◌, inl, inr, Option-cases, List, get_elem?, length,
  lt_of_get_elem?, All, Has, arith,
}
use gateway_esp.KeepAlive.Defs.{
  ClientFdAction, Periods, tick_get_ms, check_slot, check_index, check_clients, client_not_alive_cb,
}
use gateway_esp.KeepAlive.Table.{Unique}
use gateway_esp.KeepAlive.Unique.{remove_client-Unique}
use gateway_esp.KeepAlive.Timer.{IsTimer, IsSmall, AllTimes}
use gateway_esp.KeepAlive.Round.{check_slot-Outcome, Outcome-AllTimes}
use gateway_esp.KeepAlive.Passed.{
  Passed, ActiveAt, Justified, Outcome-Passed, Passed-trans, none-Passed, empty-Passed,
}

module _ (esp_timer : ℕ → ℕ) (timer : IsTimer esp_timer) (p : Periods) (s : IsSmall p) where
  check_slot-Unique :
      (c : ClientFdAction) (cs : List ClientFdAction) (n : ℕ)
      → Unique cs
      → Unique (check_slot esp_timer p c cs n).0
  unfolding check_slot
  check_slot-Unique c cs n u = ground (arith, remove_client-Unique cs c.fd u)

  check_index-Passed :
      (i : ℕ) (cs : List ClientFdAction) (n : ℕ)
      → Unique cs
      → AllTimes cs
      → let (cs', out, n') = check_index esp_timer p i cs n in
        Passed p i 1 cs cs' out (tick_get_ms esp_timer n) (tick_get_ms esp_timer n')
        × (tick_get_ms esp_timer n ≤ tick_get_ms esp_timer n')
        × Unique cs'
        × AllTimes cs'
  check_index-Passed i cs n u t = elim (Option-cases (get_elem? cs i)) [
    | inl e ↦ unfold check_index in rw (e, check_index) (none-Passed p i cs _ e, omega arith, u, t)
    | inr (c, e) ↦
        let (o, le) = check_slot-Outcome esp_timer timer p s i c cs n u t e in
        unfold check_index in
        rw (e, check_index)
          (
            Outcome-Passed p i c cs _ _ s.ordered e o,
            le,
            check_slot-Unique c cs n u,
            Outcome-AllTimes p i c cs _ _ e t o,
          )
  ]

  check_clients-Passed :
      (k i : ℕ) (cs : List ClientFdAction) (n : ℕ)
      → Unique cs
      → AllTimes cs
      → let (cs', out, n') = check_clients esp_timer p k i cs n in
        Passed p i k cs cs' out (tick_get_ms esp_timer n) (tick_get_ms esp_timer n')
        × (tick_get_ms esp_timer n ≤ tick_get_ms esp_timer n')
        × Unique cs'
        × AllTimes cs'
  unfolding check_clients
  check_clients-Passed zero i cs n u t = (empty-Passed p i cs _, omega arith, u, t)
  check_clients-Passed (suc k) i cs n u t =
      let (cs₁, out, n₁) = check_index esp_timer p i cs n in
      let (step, le, u₁, t₁) = check_index-Passed i cs n u t in
      let (rest, le', u₂, t₂) = check_clients-Passed k (suc i) cs₁ n₁ u₁ t₁ in
      (Passed-trans p i k cs cs₁ _ out _ _ _ _ le le' step rest, omega arith, u₂, t₂)

  -- After the pass over all slots, every client that was silent for `not_alive_after_ms` when the
  -- pass began has been reported and is tracked no more; every client that is not silent for so long
  -- when the pass ends is still in its slot; no slot holds a client that was not there before; and
  -- every report and every ping is for an active client whose time had passed by the end.
  pub check_clients_lem :
      (cs : List ClientFdAction) (n : ℕ)
      → Unique cs
      → AllTimes cs
      → let (cs', out, n') = check_clients esp_timer p (length cs) 0 cs n in
        ((j : ℕ) (c : ClientFdAction)
          → ActiveAt cs j c
          → c.last_seen + p.not_alive_after_ms ≤ tick_get_ms esp_timer n
          → Has (client_not_alive_cb c.fd) out × (ActiveAt cs' j c → ⊥))
        × ((j : ℕ) (c : ClientFdAction)
            → ActiveAt cs j c
            → tick_get_ms esp_timer n' < c.last_seen + p.not_alive_after_ms
            → ActiveAt cs' j c)
        × ((j : ℕ) (c : ClientFdAction) → ActiveAt cs' j c → ActiveAt cs j c)
        × All (Justified p cs (tick_get_ms esp_timer n')) out
  check_clients_lem cs n u t =
      let (r, le, u', t') = check_clients-Passed (length cs) 0 cs n u t in
      (
        λ j c at dead.
            let inside : j < length cs = lt_of_get_elem? cs j at.0 in
            (
              r.called j c (omega arith) (omega arith) at dead,
              λ left. omega (arith, r.fresh j c (omega arith) (omega arith) left, dead),
            ),
        r.keeps,
        r.from,
        r.justified,
      )

  -- A client that the pass takes out of its slot is reported.
  pub check_clients-gone :
      (cs : List ClientFdAction) (n j : ℕ) (c : ClientFdAction)
      → Unique cs
      → AllTimes cs
      → ActiveAt cs j c
      → let (cs', out, n') = check_clients esp_timer p (length cs) 0 cs n in
        ActiveAt cs' j c ⊎ Has (client_not_alive_cb c.fd) out
  check_clients-gone cs n j c u t at =
      let (r, le, u', t') = check_clients-Passed (length cs) 0 cs n u t in r.gone j c at

  -- The pass keeps the table in order: no descriptor is tracked twice, and all times are readings.
  pub check_clients-Unique :
      (cs : List ClientFdAction) (n : ℕ)
      → Unique cs
      → AllTimes cs
      → let cs' = (check_clients esp_timer p (length cs) 0 cs n).0 in Unique cs' × AllTimes cs'
  check_clients-Unique cs n u t =
      let (r, le, u', t') = check_clients-Passed (length cs) 0 cs n u t in (u', t')
