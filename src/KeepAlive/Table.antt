-- ===== src/KeepAlive/Table.antt =====
-- main/keep_alive.c: the client table as a finite map from descriptors to the time last seen.
use gateway_esp.Prelude.{
  ℕ, ◌/◌, ◌≡◌, refl, Bool, true, false, List, [], ◌∷◌, Option, none, some, if◌then◌else◌, All, ℤ,
  ◌==ℤ◌, ==ℤ_iff, arith,
}
use gateway_esp.KeepAlive.Defs.{
  ClientFdAction, is_active, is_free, tracks, update_client, remove_client, add_new_client,
}

-- The time at which a descriptor was last seen, if the table tracks it.
unfoldable pub last_seen_of : List ClientFdAction → ℤ → Option ℕ
last_seen_of [] fd = none
last_seen_of (c ∷ cs) fd = if tracks c fd then some c.last_seen else last_seen_of cs fd

-- No active slot holds the descriptor.
abbrev pub Absent : ℤ → List ClientFdAction → Type 0
Absent fd = All (λ c. tracks c fd ≡ false)

-- No descriptor is held by two active slots.
abbrev pub Unique : List ClientFdAction → Type 0
Unique [] = Unit
Unique (c ∷ cs) = (is_active c.type ≡ true → Absent c.fd cs) × Unique cs

abbrev pub is_some {ℓ} : {A : Type ℓ} → Option A → Bool
is_some none = false
is_some (some a) = true

-- Some slot is free.
abbrev pub has_free : List ClientFdAction → Bool
has_free [] = false
has_free (c ∷ cs) = if is_free c.type then true else has_free cs

pub last_seen_of-Absent :
    (fd : ℤ) (cs : List ClientFdAction) → Absent fd cs → last_seen_of cs fd ≡ none
unfolding last_seen_of
last_seen_of-Absent fd [] h = refl
last_seen_of-Absent fd (c ∷ cs) h = ground (arith, last_seen_of-Absent fd cs h.1)

-- `update_client` succeeds exactly on a tracked descriptor, whose time it replaces, and changes no
-- other descriptor.
pub update_client-last_seen_of :
    (cs : List ClientFdAction) (fd g : ℤ) (t : ℕ)
    → let (cs', found) = update_client cs fd t in
      (found ≡ is_some (last_seen_of cs fd))
      × (last_seen_of cs' g
          ≡ (if fd ==ℤ g then (if found then some t else none) else last_seen_of cs g))
unfolding update_client last_seen_of
update_client-last_seen_of [] fd g t = ground arith
update_client-last_seen_of (c ∷ cs) fd g t =
    ground
      (arith, ==ℤ_iff fd g, ==ℤ_iff c.fd fd, ==ℤ_iff c.fd g, update_client-last_seen_of cs fd g t)

-- `remove_client` succeeds exactly on a tracked descriptor, which it forgets, and changes no other
-- descriptor, if no descriptor is tracked twice.
pub remove_client-last_seen_of :
    (cs : List ClientFdAction) (fd g : ℤ)
    → Unique cs
    → let (cs', found) = remove_client cs fd in
      (found ≡ is_some (last_seen_of cs fd))
      × (last_seen_of cs' g ≡ (if fd ==ℤ g then none else last_seen_of cs g))
unfolding remove_client last_seen_of
remove_client-last_seen_of [] fd g u = ground arith
remove_client-last_seen_of (c ∷ cs) fd g u = ground (
  arith,
  ==ℤ_iff fd g,
  ==ℤ_iff c.fd fd,
  ==ℤ_iff c.fd g,
  u.0,
  last_seen_of-Absent c.fd cs,
  remove_client-last_seen_of cs fd g u.1,
)

-- `add_new_client` succeeds exactly if a slot is free; then the descriptor, which was not tracked,
-- is tracked with the timer's reading, and no other descriptor changes.
pub add_new_client-last_seen_of :
    (esp_timer : ℕ → ℕ) (cs : List ClientFdAction) (fd g : ℤ) (n : ℕ)
    → Absent fd cs
    → let (cs', added, n') = add_new_client esp_timer cs fd n in
      (added ≡ has_free cs)
      × (last_seen_of cs' g ≡ (
          if fd ==ℤ g
          then (if added then some (esp_timer n / 1000) else none)
          else last_seen_of cs g))
unfolding add_new_client last_seen_of
add_new_client-last_seen_of esp_timer [] fd g n a = ground arith
add_new_client-last_seen_of esp_timer (c ∷ cs) fd g n a = ground (
  arith,
  ==ℤ_iff fd g,
  ==ℤ_iff c.fd fd,
  ==ℤ_iff c.fd g,
  a.0,
  last_seen_of-Absent fd cs a.1,
  add_new_client-last_seen_of esp_timer cs fd g n a.1,
)
