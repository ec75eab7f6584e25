-- ===== src/Printer/Commands.antt =====
-- main/printer/ESC.c: the print mode and the commands built on it.
use gateway_esp.Prelude.{
  ℕ, zero, suc, ◌-◌, ◌*◌, ◌/◌, ◌%◌, Bool, not, ◌&&◌, List, leb, ltb, ◌==◌, if◌then◌else◌, bit_and,
  bit_or, ℤ, u8_of_int,
}
use gateway_esp.Printer.Buffer.{Transfer, write_byte, write_byte2, write_byte3, write_all}

-- The mode variables of the file, each a `uint8_t`. `dtrPin` and `maxChunkHeight` are never used.
pub record Mode : Type 0 where
  pub print_mode : ℕ
  pub prev_byte : ℕ
  pub column : ℕ
  pub max_column : ℕ
  pub char_height : ℕ
  pub line_spacing : ℕ
  pub barcode_height : ℕ

pub record Printer : Type 0 where
  pub transfer : Transfer
  pub mode : Mode

abbrev pub ascii_esc : ℕ
ascii_esc = 27

abbrev pub ascii_ff : ℕ
ascii_ff = 12

abbrev pub ascii_gs : ℕ
ascii_gs = 29

abbrev pub font_mask : ℕ
font_mask = 1

abbrev pub bold_mask : ℕ
bold_mask = 8

abbrev pub double_height_mask : ℕ
double_height_mask = 16

abbrev pub double_width_mask : ℕ
double_width_mask = 32

abbrev pub newline : ℕ
newline = 10

abbrev pub emit2 : Printer → ℕ → ℕ → Printer
emit2 p a b = record p { transfer = write_byte2 p.transfer a b }

abbrev pub emit3 : Printer → ℕ → ℕ → ℕ → Printer
emit3 p a b c = record p { transfer = write_byte3 p.transfer a b c }

-- `toupper` of the C locale.
abbrev pub toupper : ℕ → ℕ
toupper c = if leb b'a' c && leb c b'z' then c - 32 else c

unfoldable pub reset : Printer → Printer
reset p = record {
  transfer = write_byte2 p.transfer ascii_esc b'@';
  mode = record p.mode {
    prev_byte = newline;
    column = 0;
    max_column = 32;
    char_height = 24;
    line_spacing = 6;
    barcode_height = 50;
  };
}

unfoldable pub flush : Printer → Printer
flush p = record p { transfer = write_byte p.transfer ascii_ff }

-- The `switch` of `justify`; another letter leaves `pos` at 0.
abbrev pub justify_pos : ℕ → ℕ
justify_pos c = if c == b'C' then 1 else (if c == b'R' then 2 else 0)

unfoldable pub justify : Printer → ℕ → Printer
justify p value = emit3 p ascii_esc b'a' (justify_pos (toupper value))

abbrev pub write_print_mode : Printer → Printer
write_print_mode p = emit3 p ascii_esc b'!' p.mode.print_mode

-- `adjustCharValues`. Halving `maxColumn` has no effect, since it is assigned at the end.
unfoldable pub adjust_char_values : ℕ → Mode → Mode
adjust_char_values print_mode m =
    let font_b = not (bit_and print_mode font_mask == 0) in
    let wide = not (bit_and print_mode double_width_mask == 0) in
    let tall = not (bit_and print_mode double_height_mask == 0) in
    let width = if font_b then 9 else 12 in
    let height = if font_b then 17 else 24 in
    record m {
      char_height = if tall then height * 2 % 256 else height;
      max_column = 384 / (if wide then width * 2 % 256 else width) % 256;
    }

abbrev with_mode : Printer → ℕ → Printer
with_mode p v =
    let q = write_print_mode (record p { mode = record p.mode { print_mode = v } }) in
    record q { mode = adjust_char_values v q.mode }

unfoldable pub set_print_mode : Printer → ℕ → Printer
set_print_mode p mask = with_mode p (bit_or p.mode.print_mode mask)

-- `printMode &= ~mask`, on 8 bits.
unfoldable pub unset_print_mode : Printer → ℕ → Printer
unset_print_mode p mask = with_mode p (bit_and p.mode.print_mode (255 - mask))

unfoldable pub set_font : Printer → ℕ → Printer
set_font p font =
    if toupper font == b'B' then set_print_mode p font_mask else unset_print_mode p font_mask

abbrev pub double_height_on : Printer → Printer
double_height_on p = set_print_mode p double_height_mask

abbrev pub double_height_off : Printer → Printer
double_height_off p = unset_print_mode p double_height_mask

abbrev pub double_width_on : Printer → Printer
double_width_on p = set_print_mode p double_width_mask

abbrev pub double_width_off : Printer → Printer
double_width_off p = unset_print_mode p double_width_mask

abbrev pub bold_on : Printer → Printer
bold_on p = set_print_mode p bold_mask

abbrev pub bold_off : Printer → Printer
bold_off p = unset_print_mode p bold_mask

unfoldable pub set_size : Printer → ℕ → Printer
set_size p value =
    if toupper value == b'M'
    then double_width_off (double_height_on p)
    else (if toupper value == b'L'
        then double_width_on (double_height_on p)
        else double_height_off (double_width_off p))

unfoldable pub set_bold : Printer → Bool → Printer
set_bold p bold = if bold then bold_on p else bold_off p

unfoldable pub underline_on : Printer → ℕ → Printer
underline_on p weight = emit3 p ascii_esc b'-' (if ltb 2 weight then 2 else weight)

unfoldable pub underline_off : Printer → Printer
underline_off p = emit3 p ascii_esc b'-' 0

unfoldable pub set_line_height : Printer → ℤ → Printer
set_line_height p val = emit3 p ascii_esc b'3' (u8_of_int val)

unfoldable pub partial_cut : Printer → Printer
partial_cut p = record {
  transfer = write_byte2 p.transfer ascii_esc b'm';
  mode = record p.mode { prev_byte = newline; column = 0 };
}

-- `while (x--) writeByte('\n')`: the counter is the number of rounds.
unfoldable pub feed : Printer → ℕ → Printer
feed p zero = p
feed p (suc x) = feed (record p { transfer = write_byte p.transfer newline }) x

-- The text is a C string: its bytes without the terminator. `size` and `alignment` are the first
-- characters of their strings.
unfoldable pub print_text : Printer → List ℕ → ℕ → Bool → Bool → ℕ → ℤ → ℕ → Printer
print_text p text size bold underline alignment line_spacing font =
    let p₁ = set_bold (set_size (set_font p font) size) bold in
    let p₂ = if underline then underline_on p₁ 1 else underline_off p₁ in
    let p₃ = set_line_height (justify p₂ alignment) line_spacing in
    record p₃ { transfer = write_byte (write_all p₃.transfer text) newline }

unfoldable pub set_barcode_height : Printer → ℕ → Printer
set_barcode_height p val =
    let v = if ltb val 1 then 1 else val in
    emit3 (record p { mode = record p.mode { barcode_height = v } }) ascii_gs b'h' v
