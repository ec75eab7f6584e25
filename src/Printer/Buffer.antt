-- ===== src/Printer/Buffer.antt =====
-- main/printer/ESC.c: the transfer buffer and the functions that append bytes to it.
use gateway_esp.Prelude.{
  ℕ, zero, suc, ◌+◌, ◌≤◌, ◌<◌, ◌≡◌, refl, sym, ap, ◌∙◌, Bool, true, ◌||◌, List, [], ◌∷◌, ◌++◌, leb,
  set, take, length, length-set, arith,
}
use native.Mathlib.Decide.{ℕ_discrete}
use mathlib.Core.List.{append_assoc, append-nil}

-- `transfer->data_buffer`, `transfer_index`, and whether an access outside an array has happened,
-- from which on the source's behaviour is undefined.
pub record Transfer : Type 0 where
  pub data_buffer : List ℕ
  pub transfer_index : ℕ
  pub fault : Bool

unfoldable pub write_byte : Transfer → ℕ → Transfer
write_byte t a = record {
  data_buffer = set t.data_buffer t.transfer_index a;
  transfer_index = suc t.transfer_index;
  fault = t.fault || leb (length t.data_buffer) t.transfer_index;
}

abbrev pub write_byte2 : Transfer → ℕ → ℕ → Transfer
write_byte2 t a b = write_byte (write_byte t a) b

abbrev pub write_byte3 : Transfer → ℕ → ℕ → ℕ → Transfer
write_byte3 t a b c = write_byte (write_byte (write_byte t a) b) c

abbrev pub write_bytes : Transfer → ℕ → ℕ → ℕ → ℕ → Transfer
write_bytes t a b c d = write_byte (write_byte (write_byte (write_byte t a) b) c) d

-- `for (i < n) writeByte(…)` over given bytes.
unfoldable pub write_all : Transfer → List ℕ → Transfer
write_all t [] = t
write_all t (a ∷ as') = write_all (write_byte t a) as'

-- What has been written.
abbrev pub written : Transfer → List ℕ
written t = take t.transfer_index t.data_buffer

pub write_all-append :
    (t : Transfer) (as' bs : List ℕ) → write_all t (as' ++ bs) ≡ write_all (write_all t as') bs
unfolding write_all
write_all-append t [] bs = refl
write_all-append t (a ∷ as') bs = write_all-append (write_byte t a) as' bs

take-set :
    (xs : List ℕ) (i a : ℕ) → i < length xs → take (suc i) (set xs i a) ≡ take i xs ++ (a ∷ [])
take-set [] i a h = absurd (omega arith)
take-set (x ∷ xs) zero a h = refl
take-set (x ∷ xs) (suc i) a h = ap (λ l. x ∷ l) (take-set xs i a (omega arith))

write_byte-written :
    (t : Transfer) (a : ℕ)
    → t.transfer_index < length t.data_buffer
    → (written (write_byte t a) ≡ written t ++ (a ∷ [])) × ((write_byte t a).fault ≡ t.fault)
unfolding write_byte
write_byte-written t a h = (take-set t.data_buffer t.transfer_index a h, ground arith)

-- Bytes that fit are appended in order, and nothing is accessed outside the buffer.
pub write_all-written :
    (t : Transfer) (bs : List ℕ)
    → t.transfer_index + length bs ≤ length t.data_buffer
    → (written (write_all t bs) ≡ written t ++ bs) × ((write_all t bs).fault ≡ t.fault)
unfolding write_all write_byte
write_all-written t [] h = (sym (append-nil (written t)), refl)
write_all-written t (b ∷ bs) h =
    let (one, clean) = write_byte-written t b (omega arith) in
    let (rest, clean') =
      write_all-written (write_byte t b) bs
        (omega (arith, length-set t.data_buffer t.transfer_index b)) in
    (rest ∙ ap (λ l. l ++ bs) one ∙ append_assoc (written t) (b ∷ []) bs, clean' ∙ clean)

write_all-fault_sticky :
    (t : Transfer) (bs : List ℕ) → t.fault ≡ true → (write_all t bs).fault ≡ true
unfolding write_all write_byte
write_all-fault_sticky t [] h = h
write_all-fault_sticky t (b ∷ bs) h = write_all-fault_sticky (write_byte t b) bs (rw h refl)

-- Bytes that do not fit are a fault.
pub write_all-fault :
    (t : Transfer) (bs : List ℕ)
    → t.transfer_index ≤ length t.data_buffer
    → length t.data_buffer < t.transfer_index + length bs
    → (write_all t bs).fault ≡ true
unfolding write_all write_byte
write_all-fault t [] h more = absurd (omega arith)
write_all-fault t (b ∷ bs) h more = elim (ℕ_discrete t.transfer_index (length t.data_buffer)) [
  | yes full ↦ write_all-fault_sticky (write_byte t b) bs (ground arith)
  | no room ↦
      write_all-fault (write_byte t b) bs
        (omega (arith, length-set t.data_buffer t.transfer_index b))
        (omega (arith, length-set t.data_buffer t.transfer_index b))
]

pub index-write_all :
    (t : Transfer) (bs : List ℕ) → (write_all t bs).transfer_index ≡ t.transfer_index + length bs
unfolding write_all write_byte
index-write_all t [] = omega arith
index-write_all t (b ∷ bs) = omega (arith, index-write_all (write_byte t b) bs)

pub length-write_all :
    (t : Transfer) (bs : List ℕ) → length (write_all t bs).data_buffer ≡ length t.data_buffer
unfolding write_all write_byte
length-write_all t [] = refl
length-write_all t (b ∷ bs) =
    length-write_all (write_byte t b) bs ∙ length-set t.data_buffer t.transfer_index b
