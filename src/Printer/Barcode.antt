-- ===== src/Printer/Barcode.antt =====
-- main/printer/ESC.c: printBarcode.
use gateway_esp.Prelude.{
  ℕ, zero, suc, ◌+◌, ◌%◌, ◌≤◌, ◌<◌, ◌≡◌, ◌≢◌, refl, false, List, [], ◌∷◌, ◌++◌, Option, none, some,
  length, if◌then◌else◌, ◌==◌, All, arith,
}
use gateway_esp.Printer.Buffer.{Transfer, write_byte, write_all}
use gateway_esp.Printer.Commands.{Printer, ascii_gs, newline, emit3, feed}

-- The byte of a C string at an index: its terminator after the last.
abbrev pub char_at : List ℕ → ℕ → ℕ
char_at [] i = 0
char_at (c ∷ cs) zero = c
char_at (c ∷ cs) (suc i) = char_at cs i

-- `do { c = text[i++]; writeByte(c); } while (c);` with an index of 8 bits. `none` is a loop that has
-- not ended after the given rounds.
unfoldable pub barcode_loop : ℕ → Transfer → List ℕ → ℕ → Option Transfer
barcode_loop zero t text i = none
barcode_loop (suc fuel) t text i =
    let c = char_at text i in
    let rest = barcode_loop fuel (write_byte t c) text ((i + 1) % 256) in
    if c == 0 then some (write_byte t c) else rest

abbrev with_transfer : Printer → Option Transfer → Option Printer
with_transfer p none = none
with_transfer p (some t) =
    some (record p { transfer = t; mode = record p.mode { prev_byte = newline } })

unfoldable pub print_barcode : ℕ → Printer → List ℕ → ℕ → Option Printer
print_barcode fuel p text type =
    let p₁ = emit3 (emit3 (emit3 (feed p 1) ascii_gs b'H' 2) ascii_gs b'w' 3) ascii_gs b'k' type in
    with_transfer p₁ (barcode_loop fuel p₁.transfer text 0)

-- A C string has no zero byte.
abbrev pub IsText : List ℕ → Type 0
IsText text = All (λ c. c ≢ 0) text

char_at-IsText : (text : List ℕ) (i : ℕ) → IsText text → i < length text → char_at text i ≢ 0
char_at-IsText [] i h lt = absurd (omega arith)
char_at-IsText (c ∷ cs) zero h lt = h.0
char_at-IsText (c ∷ cs) (suc i) h lt = char_at-IsText cs i h.1 (omega arith)

char_at-end : (text : List ℕ) → char_at text (length text) ≡ 0
char_at-end [] = refl
char_at-end (c ∷ cs) = char_at-end cs

-- The bytes from an index on.
abbrev drop : ℕ → List ℕ → List ℕ
drop zero xs = xs
drop (suc n) [] = []
drop (suc n) (x ∷ xs) = drop n xs

drop-char_at :
    (text : List ℕ) (i : ℕ) → i < length text → drop i text ≡ char_at text i ∷ drop (suc i) text
drop-char_at [] i h = absurd (omega arith)
drop-char_at (c ∷ cs) zero h = refl
drop-char_at (c ∷ cs) (suc i) h = drop-char_at cs i (omega arith)

drop-end : (text : List ℕ) → drop (length text) text ≡ []
drop-end [] = refl
drop-end (c ∷ cs) = drop-end cs

barcode_loop-ends :
    (fuel : ℕ) (t : Transfer) (text : List ℕ) (i k : ℕ)
    → IsText text
    → length text < 256
    → i + k ≡ length text
    → k < fuel
    → barcode_loop fuel t text i ≡ some (write_all t (drop i text ++ (0 ∷ [])))
unfolding barcode_loop write_all
barcode_loop-ends zero t text i k h small at lt = absurd (omega arith)
barcode_loop-ends (suc fuel) t text i zero h small at lt =
    let e : i ≡ length text = omega arith in rw (e, char_at-end text, drop-end text) refl
barcode_loop-ends (suc fuel) t text i (suc k) h small at lt =
    let next : (i + 1) % 256 ≡ suc i = omega arith in
    let ne : (char_at text i == 0) ≡ false =
      let full = char_at-IsText text i h (omega arith) in ground arith in
    rw (ne, next, drop-char_at text i (omega arith))
      (barcode_loop-ends fuel (write_byte t (char_at text i)) text (suc i) k h small (omega arith)
        (omega arith))

barcode_loop-goes_on :
    (fuel : ℕ) (t : Transfer) (text : List ℕ) (i : ℕ)
    → IsText text
    → 256 ≤ length text
    → i < 256
    → barcode_loop fuel t text i ≡ none
unfolding barcode_loop
barcode_loop-goes_on zero t text i h long lt = refl
barcode_loop-goes_on (suc fuel) t text i h long lt =
    let ne : (char_at text i == 0) ≡ false =
      let full = char_at-IsText text i h (omega arith) in ground arith in
    rw ne (
      barcode_loop-goes_on fuel (write_byte t (char_at text i)) text ((i + 1) % 256) h long
        (omega arith))

-- The bytes of a barcode item.
abbrev pub barcode_bytes : List ℕ → ℕ → List ℕ
barcode_bytes text type =
    newline ∷ 29 ∷ b'H' ∷ 2 ∷ 29 ∷ b'w' ∷ 3 ∷ 29 ∷ b'k' ∷ type ∷ (text ++ (0 ∷ []))

-- A text of at most 255 bytes is written with its terminator after the settings, and the loop ends;
-- with a longer text the loop never ends, whatever the rounds given.
pub print_barcode_lem :
    (fuel : ℕ) (p : Printer) (text : List ℕ) (type : ℕ)
    → IsText text
    → (length text ≤ 255
        → length text < fuel
        → print_barcode fuel p text type
          ≡ some (record {
            transfer = write_all p.transfer (barcode_bytes text type);
            mode = record p.mode { prev_byte = newline };
          }))
      × (256 ≤ length text → print_barcode fuel p text type ≡ none)
unfolding print_barcode feed write_all
print_barcode_lem fuel p text type h = (
  λ short enough.
      rw (barcode_loop-ends fuel _ text 0 (length text) h (omega arith) (omega arith) enough) refl,
  λ long. rw (barcode_loop-goes_on fuel _ text 0 h long (omega arith)) refl,
)
