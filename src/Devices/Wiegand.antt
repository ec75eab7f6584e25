-- ===== src/Devices/Wiegand.antt =====
-- main/barcode_scanner/barcode.c: the number of a card from the bytes of a Wiegand frame.
use gateway_esp.Prelude.{ℕ, ◌+◌, ◌*◌, ◌/◌, ◌%◌, ◌^◌, ◌<◌, ◌≡◌, arith}

-- `ID`, from the first four bytes of the packet: 32-bit words, with `<< 1` losing the top bit.
unfoldable pub wiegand_id : ℕ → ℕ → ℕ → ℕ → ℕ
wiegand_id a b c d =
    let id = (a * 2 ^ 24 + b * 2 ^ 16 + c * 2 ^ 8 + d) % 2 ^ 32 in id * 2 % 2 ^ 32 / 2 ^ 8

-- The frame of a card: a parity bit, 24 bits of data, a parity bit, and six bits unused, as the
-- reader packs them into bytes from the top.
abbrev pub frame_word : ℕ → ℕ → ℕ → ℕ → ℕ
frame_word even bits odd rest = even * 2 ^ 31 + bits * 2 ^ 7 + odd * 2 ^ 6 + rest

-- The number of a card is the 24 bits between the two parity bits of its frame.
pub wiegand_id-frame :
    (even bits odd rest : ℕ)
    → even < 2
    → bits < 2 ^ 24
    → odd < 2
    → rest < 64
    → let w = frame_word even bits odd rest in
      wiegand_id (w / 2 ^ 24) (w / 2 ^ 16 % 256) (w / 2 ^ 8 % 256) (w % 256) ≡ bits
unfolding wiegand_id
wiegand_id-frame even bits odd rest he hb ho hr = omega arith
