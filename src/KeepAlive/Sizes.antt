-- ===== src/KeepAlive/Sizes.antt =====
-- main/keep_alive.c: the operations keep the number of slots, and the times in them are readings.
use gateway_esp.Prelude.{
  ℕ, zero, suc, ◌^◌, ◌<◌, ◌≡◌, refl, ◌∙◌, inl, inr, Option-cases, List, [], ◌∷◌, get_elem?, length,
  ℤ, arith,
}
use gateway_esp.KeepAlive.Defs.{
  ActionType, client_fd_add, client_fd_remove, client_update, ClientFdAction, Periods,
  add_new_client, remove_client, update_client, check_slot, check_index, check_clients,
}
use gateway_esp.KeepAlive.Engine.{apply_action}
use gateway_esp.KeepAlive.Timer.{IsTimer, AllTimes, tick-lt}

length-update :
    (cs : List ClientFdAction) (fd : ℤ) (t : ℕ) → length (update_client cs fd t).0 ≡ length cs
unfolding update_client
length-update [] fd t = refl
length-update (c ∷ cs) fd t = ground (arith, length-update cs fd t)

length-remove : (cs : List ClientFdAction) (fd : ℤ) → length (remove_client cs fd).0 ≡ length cs
unfolding remove_client
length-remove [] fd = refl
length-remove (c ∷ cs) fd = ground (arith, length-remove cs fd)

AllTimes-update :
    (cs : List ClientFdAction) (fd : ℤ) (t : ℕ)
    → t < 2 ^ 54
    → AllTimes cs
    → AllTimes (update_client cs fd t).0
unfolding update_client
AllTimes-update [] fd t h a = tt
AllTimes-update (c ∷ cs) fd t h a = ground (arith, AllTimes-update cs fd t h a.1)

AllTimes-remove :
    (cs : List ClientFdAction) (fd : ℤ) → AllTimes cs → AllTimes (remove_client cs fd).0
unfolding remove_client
AllTimes-remove [] fd a = tt
AllTimes-remove (c ∷ cs) fd a = ground (arith, AllTimes-remove cs fd a.1)

module _ (esp_timer : ℕ → ℕ) where
  length-add :
      (cs : List ClientFdAction) (fd : ℤ) (n : ℕ)
      → length (add_new_client esp_timer cs fd n).0 ≡ length cs
  unfolding add_new_client
  length-add [] fd n = refl
  length-add (c ∷ cs) fd n = ground (arith, length-add cs fd n)

  AllTimes-add :
      (timer : IsTimer esp_timer) (cs : List ClientFdAction) (fd : ℤ) (n : ℕ)
      → AllTimes cs
      → AllTimes (add_new_client esp_timer cs fd n).0
  unfolding add_new_client
  AllTimes-add timer [] fd n a = tt
  AllTimes-add timer (c ∷ cs) fd n a =
      ground (arith, tick-lt esp_timer timer n, AllTimes-add timer cs fd n a.1)

  pub apply_action-AllTimes :
      (timer : IsTimer esp_timer) (type : ActionType) (a : ClientFdAction)
      (cs : List ClientFdAction) (n : ℕ)
      → a.last_seen < 2 ^ 54
      → AllTimes cs
      → AllTimes (apply_action esp_timer type a cs n).0
  unfolding apply_action
  apply_action-AllTimes timer client_fd_add a cs n h t = AllTimes-add timer cs a.fd n t
  apply_action-AllTimes timer client_fd_remove a cs n h t = AllTimes-remove cs a.fd t
  apply_action-AllTimes timer client_update a cs n h t = AllTimes-update cs a.fd a.last_seen h t
  apply_action-AllTimes timer _ a cs n h t = t

  pub length-apply_action :
      (type : ActionType) (a : ClientFdAction) (cs : List ClientFdAction) (n : ℕ)
      → length (apply_action esp_timer type a cs n).0 ≡ length cs
  unfolding apply_action
  length-apply_action client_fd_add a cs n = length-add cs a.fd n
  length-apply_action client_fd_remove a cs n = length-remove cs a.fd
  length-apply_action client_update a cs n = length-update cs a.fd a.last_seen
  length-apply_action _ a cs n = refl

  length-check_slot :
      (p : Periods) (c : ClientFdAction) (cs : List ClientFdAction) (n : ℕ)
      → length (check_slot esp_timer p c cs n).0 ≡ length cs
  unfolding check_slot
  length-check_slot p c cs n = ground (arith, length-remove cs c.fd)

  length-check_index :
      (p : Periods) (i : ℕ) (cs : List ClientFdAction) (n : ℕ)
      → length (check_index esp_timer p i cs n).0 ≡ length cs
  length-check_index p i cs n = elim (Option-cases (get_elem? cs i)) [
    | inl e ↦ unfold check_index in rw (e, check_index) refl
    | inr (c, e) ↦ unfold check_index in rw (e, check_index) (length-check_slot p c cs n)
  ]

  pub length-check_clients :
      (p : Periods) (k i : ℕ) (cs : List ClientFdAction) (n : ℕ)
      → length (check_clients esp_timer p k i cs n).0 ≡ length cs
  unfolding check_clients
  length-check_clients p zero i cs n = refl
  length-check_clients p (suc k) i cs n =
      let (cs', out, n') = check_index esp_timer p i cs n in
      length-check_clients p k (suc i) cs' n' ∙ length-check_index p i cs n
