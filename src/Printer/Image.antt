-- ===== src/Printer/Image.antt =====
-- main/printer/ESC.c: printBitmap, print_image and feed.
use gateway_esp.Prelude.{
  ℕ, zero, suc, ◌+◌, ◌*◌, ◌/◌, ◌%◌, ◌≤◌, ◌<◌, ◌≡◌, refl, sym, ap, ◌∙◌, true, List, [], ◌∷◌, ◌++◌,
  take, length, length-append, ℤ, pos, negsuc, u8_of_int, arith,
}
use gateway_esp.Printer.Buffer.{
  Transfer, write_byte, write_bytes, write_all, written, write_all-append, write_all-written,
  index-write_all,
}
use gateway_esp.Printer.Commands.{
  Printer, ascii_gs, newline, justify, justify_pos, toupper, set_line_height, feed,
}

abbrev opposite : ℕ → ℤ
opposite zero = pos 0
opposite (suc n) = negsuc n

-- `w /= 8`, towards zero.
abbrev pub div8 : ℤ → ℤ
div8 (pos n) = pos (n / 8)
div8 (negsuc n) = opposite ((n + 1) / 8)

-- `h >> 8`, towards minus infinity.
abbrev pub shift8 : ℤ → ℤ
shift8 (pos n) = pos (n / 256)
shift8 (negsuc n) = negsuc (n / 256)

-- The rounds of `for(int i = 0; i < w*h; i++)`, for a product within `int`.
abbrev pub rounds : ℤ → ℤ → ℕ
rounds (pos a) (pos b) = a * b
rounds (negsuc a) (negsuc b) = (a + 1) * (b + 1)
rounds _ _ = 0

-- The loop, over the bytes that the image has left. A byte that it does not have is an access outside
-- the array.
unfoldable pub bitmap_loop : Transfer → List ℕ → ℕ → Transfer
bitmap_loop t image zero = t
bitmap_loop t [] (suc k) = bitmap_loop (write_byte (record t { fault = true }) 0) [] k
bitmap_loop t (a ∷ image) (suc k) = bitmap_loop (write_byte t a) image k

-- `h - h_h * 256` is `h` modulo 256.
unfoldable pub print_bitmap : Transfer → ℤ → ℤ → List ℕ → Transfer
print_bitmap t w h from_stream =
    let t₁ = write_bytes t ascii_gs b'v' b'0' 0 in
    let t₂ = write_bytes t₁ (u8_of_int (div8 w)) 0 (u8_of_int h) (u8_of_int (shift8 h)) in
    bitmap_loop t₂ from_stream (rounds (div8 w) h)

unfoldable pub print_image : Printer → ℤ → ℤ → ℕ → List ℕ → Printer
unfolding print_bitmap
print_image p width height alignment image =
    let p₁ = justify p alignment in
    let p₂ = record p₁ { transfer = print_bitmap p₁.transfer width height image } in
    feed (set_line_height p₂ (pos 30)) 1

bitmap_loop-eq :
    (t : Transfer) (image : List ℕ) (k : ℕ)
    → k ≤ length image
    → bitmap_loop t image k ≡ write_all t (take k image)
unfolding bitmap_loop write_all
bitmap_loop-eq t image zero h = refl
bitmap_loop-eq t [] (suc k) h = absurd (omega arith)
bitmap_loop-eq t (a ∷ image) (suc k) h = bitmap_loop-eq (write_byte t a) image k (omega arith)

pub length-take : (k : ℕ) (xs : List ℕ) → k ≤ length xs → length (take k xs) ≡ k
length-take zero xs h = refl
length-take (suc k) [] h = absurd (omega arith)
length-take (suc k) (x ∷ xs) h = omega (arith, length-take k xs (omega arith))

-- The raster command, which announces `width` bytes a row and `height` rows.
abbrev pub raster_command : ℕ → ℕ → List ℕ
raster_command width height =
    29 ∷ b'v' ∷ b'0' ∷ 0 ∷ width % 256 ∷ width / 256 ∷ height % 256 ∷ height / 256 ∷ []

-- The bytes of an image item.
abbrev pub image_bytes : ℕ → ℕ → ℕ → List ℕ → List ℕ
image_bytes w h alignment image =
    27
    ∷ b'a'
    ∷ justify_pos (toupper alignment)
    ∷ (raster_command (w / 8) h ++ (take (w / 8 * h) image ++ (27 ∷ b'3' ∷ 30 ∷ newline ∷ [])))

pub print_image-transfer :
    (p : Printer) (w h alignment : ℕ) (image : List ℕ)
    → w < 2048
    → h < 65536
    → w / 8 * h ≤ length image
    → (print_image p (pos w) (pos h) alignment image).transfer
      ≡ write_all p.transfer (image_bytes w h alignment image)
unfolding print_image print_bitmap justify set_line_height feed write_all
print_image-transfer p w h alignment image narrow low enough =
    let row : w / 8 % 256 ≡ w / 8 = omega arith in
    let no_high : w / 8 / 256 ≡ 0 = omega arith in
    let high : h / 256 % 256 ≡ h / 256 = omega arith in
    rw (row, no_high, high, bitmap_loop-eq _ image (w / 8 * h) enough)
      (sym (write_all-append _ (take (w / 8 * h) image) (27 ∷ b'3' ∷ 30 ∷ newline ∷ [])))

-- An image of `w` by `h` dots, with `w` below 2048 and `h` below 65536, that is not larger than the
-- decoded data and fits into the buffer, appends the alignment, the raster command for `w / 8` bytes a
-- row and `h` rows, exactly as many bytes of the data as that announces, the line spacing and a
-- newline, and accesses nothing outside an array.
pub print_image-written :
    (p : Printer) (w h alignment : ℕ) (image : List ℕ)
    → w < 2048
    → h < 65536
    → w / 8 * h ≤ length image
    → p.transfer.transfer_index + (w / 8 * h + 15) ≤ length p.transfer.data_buffer
    → let p' = print_image p (pos w) (pos h) alignment image in
      (written p'.transfer ≡ written p.transfer ++ image_bytes w h alignment image)
      × (p'.transfer.fault ≡ p.transfer.fault)
      × (p'.transfer.transfer_index ≡ p.transfer.transfer_index + (w / 8 * h + 15))
print_image-written p w h alignment image narrow low enough fits =
    let sent = print_image-transfer p w h alignment image narrow low enough in
    let bytes = image_bytes w h alignment image in
    let data_size = length-take (w / 8 * h) image enough in
    let size_of : length bytes ≡ w / 8 * h + 15 = omega (
      arith,
      data_size,
      length-append {0} (take (w / 8 * h) image) (27 ∷ b'3' ∷ 30 ∷ newline ∷ []),
    ) in
    let (content, clean) = write_all-written p.transfer bytes (omega arith) in
    (
      ap written sent ∙ content,
      ap (λ (t : Transfer). t.fault) sent ∙ clean,
      ap (λ (t : Transfer). t.transfer_index) sent
          ∙ index-write_all p.transfer bytes
          ∙ ap (λ k. p.transfer.transfer_index + k) size_of,
    )
