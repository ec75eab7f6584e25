-- ===== src/Printer/Reader.antt =====
-- main/printer/ESC.c: what a printer makes of the bytes of a job, by an independent reading of ESC/POS.
use gateway_esp.Prelude.{
  ltb, ℕ, ◌+◌, ◌-◌, ◌*◌, ◌<◌, ◌≡◌, ◌≢◌, refl, sym, ap, List, [], ◌∷◌, ◌++◌, if◌then◌else◌, ◌==◌,
  All, length, arith,
}
use gateway_esp.Printer.Barcode.{IsText}
use mathlib.Core.List.{append_assoc, append-nil}

-- What comes out of the printer: a line of text, a raster image with the bytes of a row, the rows and
-- the data, and a barcode with its type and its text.
pub data Printed : Type 0 where
  line : List ℕ → Printed
  raster : ℕ → ℕ → List ℕ → Printed
  barcode : ℕ → List ℕ → Printed

-- Where a printer is in its input: at text, after ESC or GS, before the parameter of a command, in the
-- header of GS v, in the data of an image with a number of bytes left, or in a barcode.
pub data Phase : Type 0 where
  at_text after_esc after_gs at_parameter raster_zero raster_mode row_low barcode_type : Phase
  row_high rows_low : ℕ → Phase
  rows_high : ℕ → ℕ → Phase
  raster_data : ℕ → ℕ → ℕ → List ℕ → Phase
  barcode_size : ℕ → Phase
  barcode_data : ℕ → ℕ → List ℕ → Phase
  barcode_text : ℕ → List ℕ → Phase

-- After the header of an image.
abbrev pub start_raster : ℕ → ℕ → List Printed × Phase
start_raster w h =
    if w * h == 0 then (raster w h [] ∷ [], at_text) else ([], raster_data w h (w * h) [])

-- One byte, with the line so far: what is printed, the next phase, and the new line so far. ESC m, the
-- cut, has no parameter; the other commands with ESC, and GS h, GS H and GS w, have one; a barcode of a type below 65 ends with
-- 0, and one of the other types begins with its size.
abbrev pub read_byte : Phase → List ℕ → ℕ → List Printed × Phase × List ℕ
read_byte at_text so_far b =
    if b == 27
    then ([], after_esc, so_far)
    else (if b == 29
        then ([], after_gs, so_far)
        else (if b == 10
            then (line so_far ∷ [], at_text, [])
            else ([], at_text, so_far ++ (b ∷ []))))
read_byte after_esc so_far b =
    if b == b'm' then ([], at_text, so_far) else ([], at_parameter, so_far)
read_byte after_gs so_far b =
    if b == b'v'
    then ([], raster_zero, so_far)
    else (if b == b'k' then ([], barcode_type, so_far) else ([], at_parameter, so_far))
read_byte at_parameter so_far b = ([], at_text, so_far)
read_byte raster_zero so_far b = ([], raster_mode, so_far)
read_byte raster_mode so_far b = ([], row_low, so_far)
read_byte row_low so_far b = ([], row_high b, so_far)
read_byte (row_high low) so_far b = ([], rows_low (low + 256 * b), so_far)
read_byte (rows_low w) so_far b = ([], rows_high w b, so_far)
read_byte (rows_high w low) so_far b = let r = start_raster w (low + 256 * b) in (r.0, r.1, so_far)
read_byte (raster_data w h left bytes) so_far b =
    if left == 1
    then (raster w h (bytes ++ (b ∷ [])) ∷ [], at_text, so_far)
    else ([], raster_data w h (left - 1) (bytes ++ (b ∷ [])), so_far)
read_byte barcode_type so_far b =
    ([], (if ltb b 65 then barcode_text b [] else barcode_size b), so_far)
read_byte (barcode_size type) so_far b =
    if b == 0 then (barcode type [] ∷ [], at_text, so_far) else ([], barcode_data type b [], so_far)
read_byte (barcode_data type left text) so_far b =
    if left == 1
    then (barcode type (text ++ (b ∷ [])) ∷ [], at_text, so_far)
    else ([], barcode_data type (left - 1) (text ++ (b ∷ [])), so_far)
read_byte (barcode_text type text) so_far b =
    if b == 0
    then (barcode type text ∷ [], at_text, so_far)
    else ([], barcode_text type (text ++ (b ∷ [])), so_far)

-- What is printed, from a phase and the line so far.
abbrev pub printed : Phase → List ℕ → List ℕ → List Printed
printed phase so_far [] = []
printed phase so_far (b ∷ bs) = let r = read_byte phase so_far b in r.0 ++ printed r.1 r.2 bs

-- A text without ESC, GS and newline.
abbrev pub IsPlain : List ℕ → Type 0
IsPlain text = All (λ b. (b ≢ 27) × (b ≢ 29) × (b ≢ 10)) text

pub text-printed :
    (text so_far rest : List ℕ)
    → IsPlain text
    → printed at_text so_far (text ++ (10 ∷ rest)) ≡ line (so_far ++ text) ∷ printed at_text [] rest
text-printed [] so_far rest plain =
    ap (λ l. line l ∷ printed at_text [] rest) (sym (append-nil so_far))
text-printed (b ∷ text) so_far rest ((no_esc, no_gs, no_newline), plain) = ground (
  arith,
  no_esc,
  no_gs,
  no_newline,
  text-printed text (so_far ++ (b ∷ [])) rest plain,
  append_assoc so_far (b ∷ []) text,
)

pub barcode-printed :
    (type : ℕ) (text so_far rest : List ℕ)
    → IsText text
    → printed (barcode_text type so_far) [] (text ++ (0 ∷ rest))
      ≡ barcode type (so_far ++ text) ∷ printed at_text [] rest
barcode-printed type [] so_far rest is_text =
    ap (λ l. barcode type l ∷ printed at_text [] rest) (sym (append-nil so_far))
barcode-printed type (b ∷ text) so_far rest (full, is_text) = ground (
  arith,
  full,
  barcode-printed type text (so_far ++ (b ∷ [])) rest is_text,
  append_assoc so_far (b ∷ []) text,
)

pub data-printed :
    (w h : ℕ) (bytes so_far rest : List ℕ)
    → 0 < length bytes
    → printed (raster_data w h (length bytes) so_far) [] (bytes ++ rest)
      ≡ raster w h (so_far ++ bytes) ∷ printed at_text [] rest
data-printed w h [] so_far rest some_bytes = absurd (omega arith)
data-printed w h (b ∷ []) so_far rest some_bytes = refl
data-printed w h (b ∷ c ∷ bytes) so_far rest some_bytes = ground (
  arith,
  data-printed w h (c ∷ bytes) (so_far ++ (b ∷ [])) rest (omega arith),
  append_assoc so_far (b ∷ []) (c ∷ bytes),
)
