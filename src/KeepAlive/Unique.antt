-- ===== src/KeepAlive/Unique.antt =====
-- main/keep_alive.c: no descriptor is tracked twice, and every operation keeps it so.
use gateway_esp.Prelude.{
  ℕ, suc, zero, ◌≡◌, true, false, List, [], ◌∷◌, some, get_elem?, set, All-get_elem?, ℤ, ==ℤ_iff,
  ==ℤ_refl, arith,
}
use gateway_esp.KeepAlive.Defs.{
  ClientFdAction, is_active, tracks, cleared, update_client, remove_client, add_new_client,
}
use gateway_esp.KeepAlive.Table.{Absent, Unique}

Absent-update :
    (g : ℤ) (cs : List ClientFdAction) (fd : ℤ) (t : ℕ)
    → Absent g cs
    → Absent g (update_client cs fd t).0
unfolding update_client
Absent-update g [] fd t a = tt
Absent-update g (c ∷ cs) fd t a = ground (arith, Absent-update g cs fd t a.1)

Absent-remove :
    (g : ℤ) (cs : List ClientFdAction) (fd : ℤ) → Absent g cs → Absent g (remove_client cs fd).0
unfolding remove_client
Absent-remove g [] fd a = tt
Absent-remove g (c ∷ cs) fd a = ground (arith, Absent-remove g cs fd a.1)

Absent-add :
    (esp_timer : ℕ → ℕ) (g : ℤ) (cs : List ClientFdAction) (fd : ℤ) (n : ℕ)
    → (fd ≡ g → ⊥)
    → Absent g cs
    → Absent g (add_new_client esp_timer cs fd n).0
unfolding add_new_client
Absent-add esp_timer g [] fd n ne a = tt
Absent-add esp_timer g (c ∷ cs) fd n ne a =
    ground (arith, ==ℤ_iff fd g, ne, Absent-add esp_timer g cs fd n ne a.1)

pub update_client-Unique :
    (cs : List ClientFdAction) (fd : ℤ) (t : ℕ) → Unique cs → Unique (update_client cs fd t).0
unfolding update_client
update_client-Unique [] fd t u = tt
update_client-Unique (c ∷ cs) fd t u =
    ground (arith, u.0, Absent-update c.fd cs fd t, update_client-Unique cs fd t u.1)

pub remove_client-Unique :
    (cs : List ClientFdAction) (fd : ℤ) → Unique cs → Unique (remove_client cs fd).0
unfolding remove_client
remove_client-Unique [] fd u = tt
remove_client-Unique (c ∷ cs) fd u =
    ground (arith, u.0, Absent-remove c.fd cs fd, remove_client-Unique cs fd u.1)

pub add_new_client-Unique :
    (esp_timer : ℕ → ℕ) (cs : List ClientFdAction) (fd : ℤ) (n : ℕ)
    → Absent fd cs
    → Unique cs
    → Unique (add_new_client esp_timer cs fd n).0
unfolding add_new_client
add_new_client-Unique esp_timer [] fd n a u = tt
add_new_client-Unique esp_timer (c ∷ cs) fd n a u = ground (
  arith,
  u.0,
  ==ℤ_iff c.fd fd,
  Absent-add esp_timer c.fd cs fd n,
  add_new_client-Unique esp_timer cs fd n a.1 u.1,
)

-- In such a table `remove_client` clears the slot that holds the descriptor.
pub remove_client-eq-set :
    (cs : List ClientFdAction) (i : ℕ) (c : ClientFdAction)
    → Unique cs
    → get_elem? cs i ≡ some c
    → is_active c.type ≡ true
    → (remove_client cs c.fd).0 ≡ set cs i (cleared c)
unfolding remove_client
remove_client-eq-set [] i c u e a = cc
remove_client-eq-set (x ∷ cs) zero c u e a = ground (arith, ==ℤ_refl c.fd)
remove_client-eq-set (x ∷ cs) (suc i) c u e a = ground (
  arith,
  ==ℤ_iff x.fd c.fd,
  ==ℤ_refl c.fd,
  u.0,
  λ (h : Absent x.fd cs). All-get_elem? (λ d. tracks d x.fd ≡ false) cs i e h,
  remove_client-eq-set cs i c u.1 e a,
)
