-- ===== src/Server/Uri.antt =====
-- main/main.c, ws_handler: `sscanf(req->uri, "/%d", &deviceNumber)`, over the bytes of the path.
use gateway_esp.Prelude.{
  ℕ, zero, suc, ◌<◌, ◌≡◌, ap, ◌∙◌, ◌++◌, true, ◌^◌, Bool, false, ◌&&◌, ◌||◌, List, [], ◌∷◌, leb,
  ◌==◌, if◌then◌else◌, ℤ, pos, negsuc, minus_one, arith,
}
use gateway_esp.Decimal.{
  is_digit, starts_with_digit, digits_from, decimal, starts_with_digit-decimal, digits_from-decimal,
}

-- `isspace` of the C locale.
abbrev pub is_space : ℕ → Bool
is_space c = c == 32 || (leb 9 c && leb c 13)

abbrev negate : ℕ → ℤ
negate zero = pos 0
negate (suc n) = negsuc n

-- The conversion `%d` after its white space: an optional sign and at least one digit; without one
-- nothing is stored, and the variable keeps its value -1.
abbrev scan_signed : List ℕ → ℤ
scan_signed [] = minus_one
scan_signed (c ∷ cs) =
    if c == b'-'
    then (if starts_with_digit cs then negate (digits_from 0 cs) else minus_one)
    else (if c == b'+'
        then (if starts_with_digit cs then pos (digits_from 0 cs) else minus_one)
        else (if is_digit c then pos (digits_from 0 (c ∷ cs)) else minus_one))

scan_int : List ℕ → ℤ
scan_int [] = minus_one
scan_int (c ∷ cs) = let rest = scan_int cs in if is_space c then rest else scan_signed (c ∷ cs)

-- The `deviceNumber` of a path.
unfoldable pub scan_device : List ℕ → ℤ
unfolding scan_int digits_from
scan_device [] = minus_one
scan_device (c ∷ cs) = if c == b'/' then scan_int cs else minus_one

scan_int_digit :
    (text : List ℕ) → starts_with_digit text ≡ true → scan_int text ≡ pos (digits_from 0 text)
unfolding scan_int
scan_int_digit [] h = cc
scan_int_digit (c ∷ cs) h = ground arith

-- A path of a slash and the decimal text of a number names the device of that number, whatever
-- follows, if it is no digit.
pub scan_device-decimal :
    (n : ℕ) (rest : List ℕ)
    → n < 2 ^ 31
    → starts_with_digit rest ≡ false
    → scan_device (b'/' ∷ (decimal n ++ rest)) ≡ pos n
unfolding scan_device
scan_device-decimal n rest small other =
    scan_int_digit (decimal n ++ rest) (starts_with_digit-decimal n rest)
    ∙ ap pos (digits_from-decimal n rest (omega (arith, small)) other)
