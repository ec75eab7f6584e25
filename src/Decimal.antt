-- ===== src/Decimal.antt =====
-- Decimal numbers in C strings: `sprintf` with `%lu`, and the digits that `sscanf` reads for `%d`.
use gateway_esp.Prelude.{
  ℕ, zero, suc, ◌+◌, ◌-◌, ◌*◌, ◌/◌, ◌%◌, ◌^◌, ◌<◌, ◌≡◌, refl, sym, Bool, true, false, ◌&&◌, List,
  [], ◌∷◌, ◌++◌, leb, ltb, if◌then◌else◌, arith, Bool-cases, inl, inr,
}

abbrev pub is_digit : ℕ → Bool
is_digit c = leb 48 c && leb c 57

abbrev pub starts_with_digit : List ℕ → Bool
starts_with_digit [] = false
starts_with_digit (c ∷ cs) = is_digit c

-- The digits at the head of the text, read on from `acc`.
unfoldable pub digits_from : ℕ → List ℕ → ℕ
digits_from acc [] = acc
digits_from acc (c ∷ cs) =
    let rest = digits_from (acc * 10 + (c - 48)) cs in if is_digit c then rest else acc

-- At most `k` digits of a number, put before a text.
unfoldable pub decimal_before : ℕ → ℕ → List ℕ → List ℕ
decimal_before zero n text = text
decimal_before (suc k) n text =
    let rest = decimal_before k (n / 10) ((48 + n % 10) ∷ text) in
    if ltb n 10 then (48 + n) ∷ text else rest

-- The text of a number of 32 bits, which has at most ten digits.
unfoldable pub decimal : ℕ → List ℕ
decimal n = decimal_before 10 n []

-- The number has at most `k` digits.
abbrev Fits : ℕ → ℕ → Type 0
Fits zero n = n ≡ 0
Fits (suc k) n = Fits k (n / 10)

digits_from-decimal_before :
    (k n : ℕ) (text : List ℕ)
    → Fits k n
    → digits_from 0 (decimal_before k n text) ≡ digits_from n text
unfolding digits_from decimal_before
digits_from-decimal_before zero n text fits = rw fits refl
digits_from-decimal_before (suc k) n text fits =
    ground (arith, digits_from-decimal_before k (n / 10) ((48 + n % 10) ∷ text) fits)

decimal_before-append :
    (k n : ℕ) (text more : List ℕ)
    → decimal_before k n (text ++ more) ≡ decimal_before k n text ++ more
unfolding decimal_before
decimal_before-append zero n text more = refl
decimal_before-append (suc k) n text more =
    ground (arith, decimal_before-append k (n / 10) ((48 + n % 10) ∷ text) more)

starts_with_digit-decimal_before :
    (k n : ℕ) (text : List ℕ)
    → starts_with_digit text ≡ true
    → starts_with_digit (decimal_before k n text) ≡ true
unfolding decimal_before
starts_with_digit-decimal_before zero n text h = h
starts_with_digit-decimal_before (suc k) n text h =
    ground (arith, starts_with_digit-decimal_before k (n / 10) ((48 + n % 10) ∷ text))

some_digit : (k n : ℕ) (text : List ℕ) → starts_with_digit (decimal_before (suc k) n text) ≡ true
unfolding decimal_before
some_digit k n text = elim (Bool-cases (ltb n 10)) [
  | inl one ↦ rw (decimal_before, one) (ground arith)
  | inr more ↦
      rw (decimal_before, more)
        (starts_with_digit-decimal_before k (n / 10) ((48 + n % 10) ∷ text) (ground arith))
]

decimal-append : (n : ℕ) (rest : List ℕ) → decimal n ++ rest ≡ decimal_before 10 n rest
unfolding decimal
decimal-append n rest = sym (decimal_before-append 10 n [] rest)

pub starts_with_digit-decimal :
    (n : ℕ) (rest : List ℕ) → starts_with_digit (decimal n ++ rest) ≡ true
starts_with_digit-decimal n rest = rw (decimal-append n rest) (some_digit 9 n rest)

read_no_more : (n : ℕ) (rest : List ℕ) → starts_with_digit rest ≡ false → digits_from n rest ≡ n
unfolding digits_from
read_no_more n [] other = refl
read_no_more n (c ∷ cs) other = rw other refl

-- The digits read back are the number.
pub digits_from-decimal :
    (n : ℕ) (rest : List ℕ)
    → n < 2 ^ 32
    → starts_with_digit rest ≡ false
    → digits_from 0 (decimal n ++ rest) ≡ n
digits_from-decimal n rest small other =
    let fits : Fits 10 n = omega (arith, small) in
    rw (decimal-append n rest, digits_from-decimal_before 10 n rest fits)
      (read_no_more n rest other)
