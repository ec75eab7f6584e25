-- ===== src/Printer/Text.antt =====
-- main/printer/ESC.c, print_text: the bytes that it appends.
use gateway_esp.Prelude.{
  ℕ, ◌+◌, ◌≤◌, ◌≡◌, refl, sym, ap, ◌∙◌, Bool, true, false, inl, inr, Bool-cases, List, [], ◌∷◌,
  ◌++◌, length, length-append, if◌then◌else◌, ◌==◌, ℤ, u8_of_int, arith,
}
use gateway_esp.Printer.Buffer.{
  Transfer, write_byte, write_all, written, write_all-append, write_all-written, index-write_all,
}
use gateway_esp.Printer.Commands.{
  Printer, toupper, justify_pos, newline, set_font, set_size, set_bold, set_print_mode,
  unset_print_mode, adjust_char_values, underline_on, underline_off, justify, set_line_height,
  print_text,
}

-- The command that sends a print mode.
abbrev pub mode_command : ℕ → List ℕ
mode_command v = 27 ∷ b'!' ∷ v ∷ []

-- Three mode commands.
abbrev pub IsModes : List ℕ → Type 0
IsModes modes = (u v w : ℕ) × (modes ≡ mode_command u ++ (mode_command v ++ mode_command w))

pub length-IsModes : (modes : List ℕ) → IsModes modes → length modes ≡ 9
length-IsModes modes (u, v, w, e) = rw e refl

set_font-transfer :
    (p : Printer) (font : ℕ)
    → (set_font p font).transfer
      ≡ write_all p.transfer (mode_command (set_font p font).mode.print_mode)
unfolding set_font set_print_mode unset_print_mode adjust_char_values write_all
set_font-transfer p font = elim (Bool-cases (toupper font == b'B')) [
  | inl b ↦ rw b refl
  | inr a ↦ rw a refl
]

set_bold-transfer :
    (p : Printer) (bold : Bool)
    → (set_bold p bold).transfer
      ≡ write_all p.transfer (mode_command (set_bold p bold).mode.print_mode)
unfolding set_bold set_print_mode unset_print_mode adjust_char_values write_all
set_bold-transfer p true = refl
set_bold-transfer p false = refl

set_size-transfer :
    (p : Printer) (size : ℕ)
    → (v : ℕ) × ((set_size p size).transfer
        ≡ write_all p.transfer (mode_command v ++ mode_command (set_size p size).mode.print_mode))
unfolding set_size set_print_mode unset_print_mode adjust_char_values write_all
set_size-transfer p size = elim (Bool-cases (toupper size == b'M')) [
  | inl m ↦ rw m (_, refl)
  | inr s ↦ elim (Bool-cases (toupper size == b'L')) [
    | inl l ↦ rw (s, l) (_, refl)
    | inr d ↦ rw (s, d) (_, refl)
  ]
]

-- The bytes that follow the mode commands.
abbrev pub text_tail : Bool → ℕ → ℤ → List ℕ → List ℕ
text_tail underline alignment line_spacing text =
    27
    ∷ b'-'
    ∷ (if underline then 1 else 0)
    ∷ 27
    ∷ b'a'
    ∷ justify_pos (toupper alignment)
    ∷ 27
    ∷ b'3'
    ∷ u8_of_int line_spacing
    ∷ (text ++ (newline ∷ []))

tail-transfer :
    (p : Printer) (underline : Bool) (alignment : ℕ) (line_spacing : ℤ) (text : List ℕ)
    → let p₂ = if underline then underline_on p 1 else underline_off p in
      write_byte
        (write_all (set_line_height (justify p₂ alignment) line_spacing).transfer text)
        newline
      ≡ write_all p.transfer (text_tail underline alignment line_spacing text)
unfolding underline_on underline_off justify set_line_height write_all
tail-transfer p true alignment line_spacing text = sym (write_all-append _ text (newline ∷ []))
tail-transfer p false alignment line_spacing text = sym (write_all-append _ text (newline ∷ []))

pub tail-mode :
    (p : Printer) (underline : Bool) (alignment : ℕ) (line_spacing : ℤ)
    → let p₂ = if underline then underline_on p 1 else underline_off p in
      (set_line_height (justify p₂ alignment) line_spacing).mode ≡ p.mode
unfolding underline_on underline_off justify set_line_height
tail-mode p true alignment line_spacing = refl
tail-mode p false alignment line_spacing = refl

pub print_text-transfer :
    (p : Printer) (text : List ℕ) (size : ℕ) (bold underline : Bool) (alignment : ℕ)
    (line_spacing : ℤ) (font : ℕ)
    → let p' = print_text p text size bold underline alignment line_spacing font in
      (modes : List ℕ) × IsModes modes
      × (p'.transfer
          ≡ write_all p.transfer (
              modes
              ++ (mode_command p'.mode.print_mode
                  ++ text_tail underline alignment line_spacing text)))
unfolding print_text write_all
print_text-transfer p text size bold underline alignment line_spacing font =
    let (v, sized) = set_size-transfer p₁ size in
    (
      mode_command p₁.mode.print_mode ++ (mode_command v ++ mode_command p₂.mode.print_mode),
      (p₁.mode.print_mode, v, p₂.mode.print_mode, refl),
      tail-transfer p₃ underline alignment line_spacing text
          ∙ rw
              (
                tail-mode p₃ underline alignment line_spacing,
                set_bold-transfer p₂ bold,
                sized,
                set_font-transfer p font,
              )
              refl,
    )
  where
    p₁ : Printer
    p₁ = set_font p font

    p₂ : Printer
    p₂ = set_size p₁ size

    p₃ : Printer
    p₃ = set_bold p₂ bold

-- A text item whose bytes fit appends four mode commands, for font, size and weight, of which the last
-- sends the mode that the driver then holds, the commands for underline, alignment and line spacing,
-- the text and a newline; that is 22 bytes more than the text, and nothing else is written.
pub print_text-written :
    (p : Printer) (text : List ℕ) (size : ℕ) (bold underline : Bool) (alignment : ℕ)
    (line_spacing : ℤ) (font : ℕ)
    → p.transfer.transfer_index + (length text + 22) ≤ length p.transfer.data_buffer
    → let p' = print_text p text size bold underline alignment line_spacing font in
      (modes : List ℕ) × IsModes modes
      × (written p'.transfer
          ≡ written p.transfer
            ++ (modes
                ++ (mode_command p'.mode.print_mode
                    ++ text_tail underline alignment line_spacing text)))
      × (p'.transfer.fault ≡ p.transfer.fault)
      × (p'.transfer.transfer_index ≡ p.transfer.transfer_index + (length text + 22))
print_text-written p text size bold underline alignment line_spacing font fits =
    let p' = print_text p text size bold underline alignment line_spacing font in
    let (modes, three, sent) =
      print_text-transfer p text size bold underline alignment line_spacing font in
    let bytes =
      modes
      ++ (mode_command p'.mode.print_mode ++ text_tail underline alignment line_spacing text) in
    let size_of : length bytes ≡ length text + 22 = omega (
      arith,
      length-IsModes modes three,
      length-append {0} modes
          (mode_command p'.mode.print_mode ++ text_tail underline alignment line_spacing text),
      length-append {0} text (newline ∷ []),
    ) in
    let (content, clean) = write_all-written p.transfer bytes (omega arith) in
    (
      modes,
      three,
      ap written sent ∙ content,
      ap (λ (t : Transfer). t.fault) sent ∙ clean,
      ap (λ (t : Transfer). t.transfer_index) sent
          ∙ index-write_all p.transfer bytes
          ∙ ap (λ k. p.transfer.transfer_index + k) size_of,
    )
