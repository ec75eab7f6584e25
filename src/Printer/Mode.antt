-- ===== src/Printer/Mode.antt =====
-- main/printer/ESC.c: the print mode that a text item leaves.
use gateway_esp.Prelude.{
  ℕ, ap, ◌∙◌, ◌+◌, ◌*◌, ◌<◌, ◌≡◌, refl, Bool, true, false, not, ◌&&◌, ◌||◌, inl, inr, Bool-cases,
  List, if◌then◌else◌, ◌==◌, bit_and, bit_or, each_under, test_of_each_under, ℤ, arith,
}
use gateway_esp.Printer.Commands.{
  Printer, Mode, toupper, set_font, set_size, set_bold, set_print_mode, unset_print_mode,
  adjust_char_values, print_text,
}
use gateway_esp.Printer.Text.{tail-mode}

-- The effect of the three choices on the print mode: font B, size M or L, bold.
abbrev font_value : Bool → ℕ → ℕ
font_value b v = if b then bit_or v 1 else bit_and v 254

abbrev size_value : Bool → Bool → ℕ → ℕ
size_value m l v =
    if m
    then bit_and (bit_or v 16) 223
    else (if l then bit_or (bit_or v 16) 32 else bit_and (bit_and v 223) 239)

abbrev bold_value : Bool → ℕ → ℕ
bold_value w v = if w then bit_or v 8 else bit_and v 247

abbrev item_value : Bool → Bool → Bool → Bool → ℕ → ℕ
item_value b m l w v = bold_value w (size_value m l (font_value b v))

abbrev some_mode : Mode
some_mode = record {
  print_mode = 0;
  prev_byte = 0;
  column = 0;
  max_column = 0;
  char_height = 0;
  line_spacing = 0;
  barcode_height = 0;
}

-- The bits that a text item asks for.
abbrev pub item_bits : Bool → Bool → Bool → Bool → ℕ
item_bits b m l w =
    (if b then 1 else 0) + ((if w then 8 else 0) + (if m then 16 else (if l then 48 else 0)))

-- The width of the page in characters, and the height of one in dots.
abbrev pub item_columns : Bool → Bool → Bool → ℕ
item_columns b m l = if b then (if not m && l then 21 else 42) else (if not m && l then 16 else 32)

abbrev pub item_height : Bool → Bool → Bool → ℕ
item_height b m l = (if b then 17 else 24) * (if m || l then 2 else 1)

unfoldable as_asked : Bool → Bool → Bool → Bool → ℕ → Bool
as_asked b m l w v =
    let x = item_value b m l w v in
    let a = adjust_char_values x some_mode in
    x == bit_and v 198 + item_bits b m l w
    && (a.max_column == item_columns b m l && a.char_height == item_height b m l)

as_asked-all : (b m l w : Bool) → each_under (as_asked b m l w) 256 ≡ true
unfolding each_under as_asked adjust_char_values
as_asked-all true true true true = refl
as_asked-all true true true false = refl
as_asked-all true true false true = refl
as_asked-all true true false false = refl
as_asked-all true false true true = refl
as_asked-all true false true false = refl
as_asked-all true false false true = refl
as_asked-all true false false false = refl
as_asked-all false true true true = refl
as_asked-all false true true false = refl
as_asked-all false true false true = refl
as_asked-all false true false false = refl
as_asked-all false false true true = refl
as_asked-all false false true false = refl
as_asked-all false false false true = refl
as_asked-all false false false false = refl

font-value :
    (p : Printer) (font : ℕ)
    → (set_font p font).mode.print_mode ≡ font_value (toupper font == b'B') p.mode.print_mode
unfolding set_font set_print_mode unset_print_mode adjust_char_values
font-value p font = elim (Bool-cases (toupper font == b'B')) [
  | inl b ↦ rw b refl
  | inr a ↦ rw a refl
]

size-value :
    (p : Printer) (size : ℕ)
    → (set_size p size).mode.print_mode
      ≡ size_value (toupper size == b'M') (toupper size == b'L') p.mode.print_mode
unfolding set_size set_print_mode unset_print_mode adjust_char_values
size-value p size = elim (Bool-cases (toupper size == b'M')) [
  | inl m ↦ rw m refl
  | inr s ↦ elim (Bool-cases (toupper size == b'L')) [
    | inl l ↦ rw (s, l) refl
    | inr d ↦ rw (s, d) refl
  ]
]

bold-value :
    (p : Printer) (w : Bool)
    → let m = (set_bold p w).mode in
      let v = bold_value w p.mode.print_mode in
      let a = adjust_char_values v some_mode in
      (m.print_mode ≡ v) × (m.max_column ≡ a.max_column) × (m.char_height ≡ a.char_height)
unfolding set_bold set_print_mode unset_print_mode adjust_char_values
bold-value p true = (refl, refl, refl)
bold-value p false = (refl, refl, refl)

split_tests :
    (a b c d e f : ℕ) → ((a == b) && ((c == d) && (e == f))) ≡ true → (a ≡ b) × (c ≡ d) × (e ≡ f)
split_tests a b c d e f h = (ground arith, ground arith, ground arith)

as_asked_lem :
    (b m l w : Bool) (v : ℕ)
    → v < 256
    → let x = item_value b m l w v in
      let a = adjust_char_values x some_mode in
      (x ≡ bit_and v 198 + item_bits b m l w)
      × (a.max_column ≡ item_columns b m l)
      × (a.char_height ≡ item_height b m l)
unfolding as_asked
as_asked_lem b m l w v h =
    split_tests _ _ _ _ _ _ (test_of_each_under (as_asked b m l w) 256 v h (as_asked-all b m l w))

-- After a text item the print mode holds exactly the bits that the item asks for among those of
-- font, weight, height and width, and the other bits are as before; the page width and the character
-- height are those of the font and size asked for.
pub print_text-mode :
    (p : Printer) (text : List ℕ) (size : ℕ) (bold underline : Bool) (alignment : ℕ)
    (line_spacing : ℤ) (font : ℕ)
    → p.mode.print_mode < 256
    → let m = (print_text p text size bold underline alignment line_spacing font).mode in
      let is_b = toupper font == b'B' in
      let is_m = toupper size == b'M' in
      let is_l = toupper size == b'L' in
      (m.print_mode ≡ bit_and p.mode.print_mode 198 + item_bits is_b is_m is_l bold)
      × (m.max_column ≡ item_columns is_b is_m is_l)
      × (m.char_height ≡ item_height is_b is_m is_l)
unfolding print_text
print_text-mode p text size bold underline alignment line_spacing font h =
    let p₁ = set_font p font in
    let p₂ = set_size p₁ size in
    let kept = tail-mode (set_bold p₂ bold) underline alignment line_spacing in
    let value_of : bold_value bold p₂.mode.print_mode
        ≡ item_value (toupper font == b'B') (toupper size == b'M') (toupper size == b'L') bold
            p.mode.print_mode =
      rw (size-value p₁ size, font-value p font) refl in
    let (mode, columns, height) = bold-value p₂ bold in
    let (bits, columns', height') =
      as_asked_lem (toupper font == b'B') (toupper size == b'M') (toupper size == b'L') bold
        p.mode.print_mode h in
    let adjusted = ap (λ v. adjust_char_values v some_mode) value_of in
    (
      ap (λ (m : Mode). m.print_mode) kept ∙ mode ∙ value_of ∙ bits,
      ap (λ (m : Mode). m.max_column) kept
          ∙ columns
          ∙ ap (λ (m : Mode). m.max_column) adjusted
          ∙ columns',
      ap (λ (m : Mode). m.char_height) kept
          ∙ height
          ∙ ap (λ (m : Mode). m.char_height) adjusted
          ∙ height',
    )
