-- ===== src/KeepAlive/Refine.antt =====
-- main/keep_alive.c: the table refines a roster, which is a finite map and a count of free places.
use gateway_esp.Prelude.{
  ℕ, suc, ◌+◌, ◌-◌, ◌≡◌, refl, ap, Bool, true, false, List, [], ◌∷◌, Option, none, some,
  if◌then◌else◌, ◌==◌, ℤ, ◌==ℤ◌, ==ℤ_iff, arith,
}
use gateway_esp.KeepAlive.Defs.{
  ActionType, no_client, client_fd_add, client_fd_remove, client_update, client_active, stop_task,
  ClientFdAction, is_free, tick_get_ms, add_new_client, remove_client, update_client,
}
use gateway_esp.KeepAlive.Engine.{apply_action}
use gateway_esp.KeepAlive.Table.{
  Absent, Unique, is_some, has_free, last_seen_of, last_seen_of-Absent, update_client-last_seen_of,
  remove_client-last_seen_of, add_new_client-last_seen_of,
}
use gateway_esp.KeepAlive.Unique.{update_client-Unique, remove_client-Unique, add_new_client-Unique}

-- The abstract table: when each tracked descriptor was last seen, and how many more fit.
pub record Roster : Type 0 where
  pub seen : ℤ → Option ℕ
  pub free : ℕ

abbrev pub put : (ℤ → Option ℕ) → ℤ → Option ℕ → ℤ → Option ℕ
put seen fd v g = if fd ==ℤ g then v else seen g

-- The effect of an action on a roster, at time `now`: the roster, and whether the task goes on.
abbrev pub spec_action : ActionType → ClientFdAction → ℕ → Roster → Roster × Bool
spec_action client_fd_add a now r = (
  if r.free == 0 then r else record { seen = put r.seen a.fd (some now); free = r.free - 1 },
  true,
)
spec_action client_fd_remove a now r = (
  if is_some (r.seen a.fd) then record { seen = put r.seen a.fd none; free = r.free + 1 } else r,
  true,
)
spec_action client_update a now r = (
  if is_some (r.seen a.fd) then record r { seen = put r.seen a.fd (some a.last_seen) } else r,
  true,
)
spec_action stop_task a now r = (r, false)
spec_action _ a now r = (r, true)

abbrev pub free_slots : List ClientFdAction → ℕ
free_slots [] = 0
free_slots (c ∷ cs) = if is_free c.type then suc (free_slots cs) else free_slots cs

-- What the table stands for.
abbrev pub roster : List ClientFdAction → Roster
roster cs = record { seen = last_seen_of cs; free = free_slots cs }

-- A client is added only while its descriptor is not tracked.
abbrev pub IsFresh : ActionType → ClientFdAction → List ClientFdAction → Type 0
IsFresh client_fd_add a cs = Absent a.fd cs
IsFresh _ a cs = Unit

Roster_eq : (r s : Roster) → ((g : ℤ) → r.seen g ≡ s.seen g) → r.free ≡ s.free → r ≡ s
Roster_eq r s h e = λ i. record { seen = λ g. h g i; free = e i }

has_free-free_slots :
    (cs : List ClientFdAction) → has_free cs ≡ (if free_slots cs == 0 then false else true)
has_free-free_slots [] = refl
has_free-free_slots (c ∷ cs) = ground (arith, has_free-free_slots cs)

free_slots-update :
    (cs : List ClientFdAction) (fd : ℤ) (t : ℕ)
    → free_slots (update_client cs fd t).0 ≡ free_slots cs
unfolding update_client
free_slots-update [] fd t = refl
free_slots-update (c ∷ cs) fd t = ground (arith, free_slots-update cs fd t)

free_slots-remove :
    (cs : List ClientFdAction) (fd : ℤ)
    → let (cs', found) = remove_client cs fd in
      free_slots cs' ≡ (if found then free_slots cs + 1 else free_slots cs)
unfolding remove_client
free_slots-remove [] fd = refl
free_slots-remove (c ∷ cs) fd = ground (arith, free_slots-remove cs fd)

free_slots-add :
    (esp_timer : ℕ → ℕ) (cs : List ClientFdAction) (fd : ℤ) (n : ℕ)
    → let (cs', added, n') = add_new_client esp_timer cs fd n in
      free_slots cs ≡ (if added then free_slots cs' + 1 else free_slots cs')
unfolding add_new_client
free_slots-add esp_timer [] fd n = refl
free_slots-add esp_timer (c ∷ cs) fd n = ground (arith, free_slots-add esp_timer cs fd n)

module _ (esp_timer : ℕ → ℕ) where
  -- The task's handling of an action, seen through the roster, is the roster's, if no descriptor
  -- is tracked twice and an added one is not tracked.
  pub apply_action_refines :
      (type : ActionType) (a : ClientFdAction) (cs : List ClientFdAction) (n : ℕ)
      → Unique cs
      → IsFresh type a cs
      → let (cs', run, n') = apply_action esp_timer type a cs n in
        (roster cs', run) ≡ spec_action type a (tick_get_ms esp_timer n) (roster cs)
  unfolding apply_action
  apply_action_refines client_fd_add a cs n u f =
      ap (λ (r : Roster). (r, true))
        (Roster_eq _ _
          (λ g. ground (
            arith,
            ==ℤ_iff a.fd g,
            has_free-free_slots cs,
            last_seen_of-Absent a.fd cs f,
            add_new_client-last_seen_of esp_timer cs a.fd g n f,
          ))
          (ground (
            arith,
            has_free-free_slots cs,
            free_slots-add esp_timer cs a.fd n,
            add_new_client-last_seen_of esp_timer cs a.fd a.fd n f,
          )))
  apply_action_refines client_fd_remove a cs n u f =
      ap (λ (r : Roster). (r, true))
        (Roster_eq _ _ (λ g. ground (arith, ==ℤ_iff a.fd g, remove_client-last_seen_of cs a.fd g u))
          (ground (arith, free_slots-remove cs a.fd, remove_client-last_seen_of cs a.fd a.fd u)))
  apply_action_refines client_update a cs n u f =
      ap (λ (r : Roster). (r, true))
        (Roster_eq _ _
          (λ g. ground (arith, ==ℤ_iff a.fd g, update_client-last_seen_of cs a.fd g a.last_seen))
          (ground (arith, free_slots-update cs a.fd a.last_seen)))
  apply_action_refines stop_task a cs n u f = refl
  apply_action_refines no_client a cs n u f = refl
  apply_action_refines client_active a cs n u f = refl

  pub apply_action-Unique :
      (type : ActionType) (a : ClientFdAction) (cs : List ClientFdAction) (n : ℕ)
      → Unique cs
      → IsFresh type a cs
      → Unique (apply_action esp_timer type a cs n).0
  unfolding apply_action
  apply_action-Unique client_fd_add a cs n u f = add_new_client-Unique esp_timer cs a.fd n f u
  apply_action-Unique client_fd_remove a cs n u f = remove_client-Unique cs a.fd u
  apply_action-Unique client_update a cs n u f = update_client-Unique cs a.fd a.last_seen u
  apply_action-Unique _ a cs n u f = u
