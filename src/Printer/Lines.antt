-- ===== src/Printer/Lines.antt =====
-- main/printer/ESC.c, print_text: the bytes of text items in sequence, from a print mode.
use gateway_esp.Prelude.{
  ℕ, ◌+◌, ◌<◌, ◌≡◌, refl, Bool, true, false, List, [], ◌∷◌, ◌++◌, length, length-append, ℤ, ◌==◌,
  ltb, bit_and, each_under, test_of_each_under, arith,
}
use gateway_esp.Printer.Commands.{toupper, newline}
use gateway_esp.Printer.Mode.{item_bits}
use gateway_esp.Printer.Text.{IsModes, length-IsModes, mode_command, text_tail}

-- A text item: the text and its settings, of which `size` and `alignment` are first letters.
pub record TextLine : Type 0 where
  pub text : List ℕ
  pub size : ℕ
  pub bold : Bool
  pub underline : Bool
  pub alignment : ℕ
  pub line_spacing : ℤ

-- The print mode after a text item in font A: the bits of its weight, height and width, and the bits
-- other than these and that of the font as before.
abbrev pub mode_after : ℕ → TextLine → ℕ
mode_after v l =
    bit_and v 198 + item_bits false (toupper l.size == b'M') (toupper l.size == b'L') l.bold

unfoldable mode_is_byte : Bool → Bool → Bool → ℕ → Bool
mode_is_byte m l w v = ltb (bit_and v 198 + item_bits false m l w) 256

mode_is_byte-all : (m l w : Bool) → each_under (mode_is_byte m l w) 256 ≡ true
unfolding each_under mode_is_byte
mode_is_byte-all true true true = refl
mode_is_byte-all true true false = refl
mode_is_byte-all true false true = refl
mode_is_byte-all true false false = refl
mode_is_byte-all false true true = refl
mode_is_byte-all false true false = refl
mode_is_byte-all false false true = refl
mode_is_byte-all false false false = refl

pub mode_after-bound : (v : ℕ) (l : TextLine) → v < 256 → mode_after v l < 256
unfolding mode_is_byte
mode_after-bound v l h =
    let m = toupper l.size == b'M' in
    let large = toupper l.size == b'L' in
    let small =
      test_of_each_under (mode_is_byte m large l.bold) 256 v h (mode_is_byte-all m large l.bold) in
    ground (arith, small)

-- The bytes of a text item after three mode commands: a fourth, which replaces what they set, the
-- commands for the other settings, the text and a newline.
abbrev pub line_bytes : ℕ → TextLine → List ℕ
line_bytes v l =
    mode_command (mode_after v l) ++ text_tail l.underline l.alignment l.line_spacing l.text

-- The bytes of text items, from a print mode.
pub data Receipt : ℕ → List TextLine → List ℕ → Type 0 where
  blank : (v : ℕ) → Receipt v [] []
  line :
      (v : ℕ) (l : TextLine) (ls : List TextLine) (modes bytes : List ℕ)
      → IsModes modes
      → Receipt (mode_after v l) ls bytes
      → Receipt v (l ∷ ls) ((modes ++ line_bytes v l) ++ bytes)

-- The bytes that the texts take.
abbrev pub text_size : List TextLine → ℕ
text_size [] = 0
text_size (l ∷ ls) = length l.text + 22 + text_size ls

pub length-Receipt :
    (v : ℕ) (ls : List TextLine) (bytes : List ℕ) → Receipt v ls bytes → length bytes ≡ text_size ls
length-Receipt _ _ _ (blank v) = refl
length-Receipt _ _ _ (line v l ls modes bytes three r) = omega (
  arith,
  length-IsModes modes three,
  length-Receipt (mode_after v l) ls bytes r,
  length-append {0} (modes ++ line_bytes v l) bytes,
  length-append {0} modes (line_bytes v l),
  length-append {0} l.text (newline ∷ []),
)
