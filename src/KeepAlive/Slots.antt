-- ===== src/KeepAlive/Slots.antt =====
-- main/keep_alive.c: the operations on the table leave alone the slots of other clients.
use gateway_esp.Prelude.{
  ℕ, zero, suc, ℤ, ==ℤ_iff, Bool-cases, ◌≡◌, inl, inr, true, List, [], ◌∷◌, arith,
}
use gateway_esp.KeepAlive.Defs.{
  ActionType, no_client, client_fd_add, client_fd_remove, client_update, client_active, stop_task,
  is_free, is_active, update_client, remove_client, add_new_client, ClientFdAction,
}
use gateway_esp.KeepAlive.Engine.{apply_action}
use gateway_esp.KeepAlive.Passed.{ActiveAt}

free-idle : (type : ActionType) → is_free type ≡ true → is_active type ≡ true → ⊥
free-idle no_client free active = cc
free-idle client_fd_add free active = cc
free-idle client_fd_remove free active = cc
free-idle client_update free active = cc
free-idle client_active free active = cc
free-idle stop_task free active = cc

update_client-ActiveAt :
    (cs : List ClientFdAction) (fd : ℤ) (t j : ℕ) (c : ClientFdAction)
    → (fd ≡ c.fd → ⊥)
    → ActiveAt cs j c
    → ActiveAt (update_client cs fd t).0 j c
unfolding update_client
update_client-ActiveAt [] fd t j c other at = at
update_client-ActiveAt (d ∷ cs) fd t zero c other at = ground (arith, ==ℤ_iff d.fd fd)
update_client-ActiveAt (d ∷ cs) fd t (suc j) c other at =
    ground (arith, update_client-ActiveAt cs fd t j c other at)

remove_client-ActiveAt :
    (cs : List ClientFdAction) (fd : ℤ) (j : ℕ) (c : ClientFdAction)
    → (fd ≡ c.fd → ⊥)
    → ActiveAt cs j c
    → ActiveAt (remove_client cs fd).0 j c
unfolding remove_client
remove_client-ActiveAt [] fd j c other at = at
remove_client-ActiveAt (d ∷ cs) fd zero c other at = ground (arith, ==ℤ_iff d.fd fd)
remove_client-ActiveAt (d ∷ cs) fd (suc j) c other at =
    ground (arith, remove_client-ActiveAt cs fd j c other at)

add_new_client-ActiveAt :
    (esp_timer : ℕ → ℕ) (cs : List ClientFdAction) (fd : ℤ) (n j : ℕ) (c : ClientFdAction)
    → ActiveAt cs j c
    → ActiveAt (add_new_client esp_timer cs fd n).0 j c
unfolding add_new_client
add_new_client-ActiveAt esp_timer [] fd n j c at = at
add_new_client-ActiveAt esp_timer (d ∷ cs) fd n zero c at = elim (Bool-cases (is_free d.type)) [
  | inl free ↦ absurd (free-idle d.type free (ground (arith, at)))
  | inr used ↦ rw used at
]
add_new_client-ActiveAt esp_timer (d ∷ cs) fd n (suc j) c at =
    ground (arith, add_new_client-ActiveAt esp_timer cs fd n j c at)

module _ (esp_timer : ℕ → ℕ) where
  -- An action about another descriptor leaves the slot of a client alone.
  pub apply_action-ActiveAt :
      (type : ActionType) (a : ClientFdAction) (cs : List ClientFdAction) (n j : ℕ)
      (c : ClientFdAction)
      → (a.fd ≡ c.fd → ⊥)
      → ActiveAt cs j c
      → ActiveAt (apply_action esp_timer type a cs n).0 j c
  unfolding apply_action
  apply_action-ActiveAt client_fd_add a cs n j c other at =
      add_new_client-ActiveAt esp_timer cs a.fd n j c at
  apply_action-ActiveAt client_fd_remove a cs n j c other at =
      remove_client-ActiveAt cs a.fd j c other at
  apply_action-ActiveAt client_update a cs n j c other at =
      update_client-ActiveAt cs a.fd a.last_seen j c other at
  apply_action-ActiveAt no_client a cs n j c other at = at
  apply_action-ActiveAt client_active a cs n j c other at = at
  apply_action-ActiveAt stop_task a cs n j c other at = at
