-- ===== src/Printer/Shows.antt =====
-- main/printer/ESC.c: what a printer prints from the bytes of each kind of item.
use gateway_esp.Prelude.{
  ltb, ℕ, zero, suc, ◌+◌, ◌*◌, ◌/◌, ◌%◌, ◌≤◌, ◌<◌, ◌≡◌, true, false, refl, sym, ap, ◌∙◌, Bool, List,
  [], ◌∷◌, ◌++◌, ℤ, length, take, replicate, ◌==◌, arith,
}
use mathlib.Core.List.{append_assoc}
use gateway_esp.Printer.Commands.{newline}
use gateway_esp.Printer.Text.{IsModes, mode_command, text_tail}
use gateway_esp.Printer.Image.{image_bytes, length-take}
use gateway_esp.Printer.Barcode.{IsText, barcode_bytes}
use gateway_esp.Printer.Reader.{
  Printed, line, raster, barcode, at_text, start_raster, printed, IsPlain, text-printed,
  barcode-printed, data-printed,
}

-- From the bytes, a printer at the start of a line prints the given things and is at the start of a line.
abbrev pub Shows : List Printed → List ℕ → Type 0
Shows prints bytes =
    (rest : List ℕ) → printed at_text [] (bytes ++ rest) ≡ prints ++ printed at_text [] rest

pub Shows-append :
    (ps qs : List Printed) (bs cs : List ℕ)
    → Shows ps bs
    → Shows qs cs
    → Shows (ps ++ qs) (bs ++ cs)
Shows-append ps qs bs cs s t rest =
    rw (append_assoc bs cs rest, append_assoc ps qs (printed at_text [] rest))
      (s (cs ++ rest) ∙ ap (λ l. ps ++ l) (t rest))

pub text-Shows :
    (text modes : List ℕ) (v : ℕ) (underline : Bool) (alignment : ℕ) (line_spacing : ℤ)
    → IsModes modes
    → IsPlain text
    → Shows
        (line text ∷ [])
        (modes ++ (mode_command v ++ text_tail underline alignment line_spacing text))
text-Shows text modes v underline alignment line_spacing (a, b, c, e) plain rest =
    rw (e, append_assoc text (newline ∷ []) rest) (text-printed text [] rest plain)

-- The data of an image and what follows, after its header.
data-Shows :
    (w h : ℕ) (bytes rest : List ℕ)
    → length bytes ≡ w * h
    → let r = start_raster w h in
      r.0 ++ printed r.1 [] (bytes ++ rest) ≡ raster w h bytes ∷ printed at_text [] rest
data-Shows w h [] rest size_of =
    let empty : (w * h == 0) ≡ true = ground (arith, size_of) in rw empty refl
data-Shows w h (b ∷ bytes) rest size_of =
    let full : (w * h == 0) ≡ false = ground (arith, size_of) in
    rw (full, (sym size_of)) (data-printed w h (b ∷ bytes) [] rest (omega arith))

pub image-Shows :
    (w h alignment : ℕ) (image : List ℕ)
    → w / 8 * h ≤ length image
    → Shows
        (raster (w / 8) h (take (w / 8 * h) image) ∷ line [] ∷ [])
        (image_bytes w h alignment image)
image-Shows w h alignment image enough rest =
    let row : w / 8 % 256 + 256 * (w / 8 / 256) ≡ w / 8 = omega arith in
    let rows : h % 256 + 256 * (h / 256) ≡ h = omega arith in
    rw (append_assoc (take (w / 8 * h) image) (27 ∷ b'3' ∷ 30 ∷ newline ∷ []) rest, row, rows)
      (data-Shows (w / 8) h (take (w / 8 * h) image) (27 ∷ b'3' ∷ 30 ∷ newline ∷ rest)
        (length-take (w / 8 * h) image enough))

pub barcode-Shows :
    (height type : ℕ) (text : List ℕ)
    → type < 65
    → IsText text
    → Shows (line [] ∷ barcode type text ∷ []) (29 ∷ b'h' ∷ height ∷ barcode_bytes text type)
barcode-Shows height type text old is_text rest =
    let older : ltb type 65 ≡ true = ground (arith, old) in
    rw (older, append_assoc text (0 ∷ []) rest)
      (ap (λ l. line [] ∷ l) (barcode-printed type text [] rest is_text))

pub newlines-Shows : (n : ℕ) → Shows (replicate n (line [])) (replicate n newline)
newlines-Shows zero rest = refl
newlines-Shows (suc n) rest = ap (λ l. line [] ∷ l) (newlines-Shows n rest)

-- The cut at the end.
pub cut-Shows : Shows [] (27 ∷ b'm' ∷ [])
cut-Shows rest = refl
