-- ===== src/Camera/ListRing.antt =====
-- A byte ring buffer that is a capacity, the waiting bytes and the number of items lent.
use gateway_esp.Prelude.{
  ℕ, zero, suc, ◌+◌, ◌-◌, ◌≤◌, ◌≡◌, refl, ap, List, [], ◌∷◌, ◌++◌, Option, none, some,
  if◌then◌else◌, length, take, ltb, arith,
}
use gateway_esp.Rtos.{ByteRing}

abbrev drop : ℕ → List ℕ → List ℕ
drop zero l = l
drop (suc n) [] = []
drop (suc n) (a ∷ l) = drop n l

take-drop : (n : ℕ) (l : List ℕ) → l ≡ take n l ++ drop n l
take-drop zero l = refl
take-drop (suc n) [] = refl
take-drop (suc n) (a ∷ l) = ap (λ m. a ∷ m) (take-drop n l)

length-take : (n : ℕ) (l : List ℕ) → length (take n l) ≤ n
length-take zero l = omega arith
length-take (suc n) [] = omega arith
length-take (suc n) (a ∷ l) = omega (arith, length-take n l)

pub record BytesLent : Type 0 where
  pub capacity : ℕ
  pub waiting : List ℕ
  pub out : ℕ

abbrev put : BytesLent → List ℕ → Option BytesLent
put r payload =
    if ltb r.capacity (length r.waiting + length payload)
    then none
    else some (record r { waiting = r.waiting ++ payload })

abbrev make : ℕ → Option BytesLent
make n = some (record { capacity = n; waiting = []; out = 0 })

pub make-empty : (n : ℕ) (r : BytesLent) → make n ≡ some r → (r.waiting ≡ []) × (r.out ≡ 0)
make-empty n r e = ground arith

pub put-some :
    (r r' : BytesLent) (payload : List ℕ)
    → put r payload ≡ some r'
    → (r'.waiting ≡ r.waiting ++ payload) × (r'.out ≡ r.out)
put-some r r' payload e = ground arith

abbrev get : ℕ → List ℕ → ℕ → ℕ → Option (List ℕ × BytesLent)
get zero l out capacity = none
get (suc n) [] out capacity = none
get (suc n) (a ∷ l) (suc out) capacity = none
get (suc n) (a ∷ l) zero capacity =
    some (a ∷ take n l, record { capacity = capacity; waiting = drop n l; out = 1 })

pub get-some :
    (n : ℕ) (l : List ℕ) (out capacity : ℕ) (payload : List ℕ) (r' : BytesLent)
    → get n l out capacity ≡ some (payload, r')
    → (l ≡ payload ++ r'.waiting) × (r'.out ≡ suc out) × (1 ≤ length payload) × (length payload ≤ n)
get-some zero l out capacity payload r' e = cc
get-some (suc n) [] out capacity payload r' e = cc
get-some (suc n) (a ∷ l) (suc out) capacity payload r' e = cc
get-some (suc n) (a ∷ l) zero capacity payload r' e = ground (arith, take-drop n l, length-take n l)

pub get-none :
    (n : ℕ) (l : List ℕ) (out capacity : ℕ) → 1 ≤ n → out ≡ 0 → get n l out capacity ≡ none → l ≡ []
get-none zero l out capacity h z e = absurd (omega (arith, h))
get-none (suc n) [] out capacity h z e = refl
get-none (suc n) (a ∷ l) (suc out) capacity h z e = absurd (omega (arith, z))
get-none (suc n) (a ∷ l) zero capacity h z e = cc

abbrev pub list_ring : ByteRing
list_ring = record {
  Ring = BytesLent;
  create = make;
  send = put;
  receive_up_to = λ n r. get n r.waiting r.out r.capacity;
  return_item = λ r payload. record r { out = r.out - 1 };
  bytes = λ r. r.waiting;
  lent = λ r. r.out;
  create-empty = make-empty;
  send-some = put-some;
  receive_up_to-some = λ n r r' payload e. get-some n r.waiting r.out r.capacity payload r' e;
  receive_up_to-none = λ n r h z e. get-none n r.waiting r.out r.capacity h z e;
  return_item_lem = λ r payload. (refl, refl);
}
