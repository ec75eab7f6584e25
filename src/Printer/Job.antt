-- ===== src/Printer/Job.antt =====
-- main/printer/ESC.c, escHandleCommand: the items of a print job.
use gateway_esp.Prelude.{
  ℕ, Bool, false, List, [], ◌∷◌, Option, none, some, replicate, if◌then◌else◌, ◌==ℤ◌, ℤ, pos,
  u8_of_int,
}
use gateway_esp.Devices.Json.{
  Cjson, data_key, text_key, alignment_key, size_key, bold_key, underline_key, line_spacing_key,
  feed_key, image_key, width_key, height_key, barcode_key, type_key, number_of, bool_of, string_of,
  get?,
}
use gateway_esp.Printer.Buffer.{Transfer, written}
use gateway_esp.Printer.Commands.{Printer, Mode, print_text, set_barcode_height, feed, partial_cut}
use gateway_esp.Printer.Image.{print_image}
use gateway_esp.Printer.Barcode.{char_at, print_barcode}

-- How the code for an item ends: with a state, in an access through NULL, or not within the rounds
-- given to the barcode loop.
pub data Outcome (A : Type 0) : Type 0 where
  ended : A → Outcome A
  crashed running : Outcome A

abbrev pub or_default {ℓ} : {A : Type ℓ} → A → Option A → A
or_default d none = d
or_default d (some a) = a

abbrev pub followed_by : {A B : Type 0} → Outcome A → (A → Outcome B) → Outcome B
followed_by (ended a) f = f a
followed_by crashed f = crashed
followed_by running f = running

-- The printer, the static buffer `buff`, and `feed_s`.
pub record Job (Item : Type 0) : Type 0 where
  pub printer : Printer
  pub buff : List ℕ
  pub feed_s : Option Item

-- `base64_decode source buffer` is the buffer after `mbedtls_base64_decode`. The `malloc` of a default
-- is taken to succeed.
module _ (j : Cjson) (base64_decode : List ℕ → List ℕ → List ℕ) (fuel : ℕ) where
  abbrev first_of : List ℕ → ℕ
  first_of s = char_at s 0

  abbrev pub alignment_of : j.Item → ℕ
  alignment_of item =
      first_of (or_default (b'l' ∷ b'e' ∷ b'f' ∷ b't' ∷ []) (string_of j (some item) alignment_key))

  abbrev pub line_spacing_of : j.Item → ℤ
  line_spacing_of item = or_default (pos 75) (number_of j (some item) line_spacing_key)

  abbrev pub printed_text : j.Item → Job j.Item → List ℕ → Job j.Item
  printed_text item job text = record job {
    printer =
        print_text job.printer text
          (first_of (or_default (b'S' ∷ []) (string_of j (some item) size_key)))
          (or_default false (bool_of j (some item) bold_key))
          (or_default false (bool_of j (some item) underline_key)) (alignment_of item)
          (line_spacing_of item) b'A';
    feed_s = j.get item feed_key;
  }

  abbrev print_text_of : j.Item → Job j.Item → Option (List ℕ) → Outcome (Job j.Item)
  print_text_of item job none = crashed
  print_text_of item job (some text) = ended (printed_text item job text)

  unfoldable pub text_item : j.Item → Job j.Item → Outcome (Job j.Item)
  text_item item job =
      if j.has item text_key
      then print_text_of item job (string_of j (some item) text_key)
      else ended job

  abbrev print_image_of : j.Item → Job j.Item → Option (List ℕ) → Outcome (Job j.Item)
  print_image_of item job none = crashed
  print_image_of item job (some source) =
      let buff' = base64_decode source job.buff in
      ended (record job {
        printer =
            print_image job.printer (or_default (pos 248) (number_of j (some item) width_key))
              (or_default (pos 248) (number_of j (some item) height_key))
              (first_of (
                or_default (b'c' ∷ b'e' ∷ b'n' ∷ b't' ∷ b'e' ∷ b'r' ∷ [])
                  (string_of j (some item) alignment_key)))
              buff';
        buff = buff';
      })

  unfoldable pub image_item : j.Item → Job j.Item → Outcome (Job j.Item)
  image_item item job =
      if j.has item image_key
      then print_image_of item job (string_of j (some item) image_key)
      else ended job

  abbrev with_printer : Job j.Item → Option Printer → Outcome (Job j.Item)
  with_printer job none = running
  with_printer job (some p) = ended (record job { printer = p })

  abbrev print_barcode_of : j.Item → Job j.Item → Option (List ℕ) → Outcome (Job j.Item)
  print_barcode_of item job none = crashed
  print_barcode_of item job (some text) =
      let p =
        set_barcode_height job.printer
          (u8_of_int (or_default (pos 200) (number_of j (some item) height_key))) in
      with_printer job (
        print_barcode fuel p text
          (u8_of_int (or_default (pos 4) (number_of j (some item) type_key))))

  unfoldable pub barcode_item : j.Item → Job j.Item → Outcome (Job j.Item)
  barcode_item item job =
      if j.has item barcode_key
      then print_barcode_of item job (string_of j (some item) barcode_key)
      else ended job

  -- The loop over the items.
  unfoldable pub job_items : List j.Item → Job j.Item → Outcome (Job j.Item)
  job_items [] job = ended job
  job_items (item ∷ rest) job = followed_by (text_item item job) (λ job₁.
      followed_by (image_item item job₁)
        (λ job₂. followed_by (barcode_item item job₂) (λ job₃. job_items rest job₃)))

  -- The lines to feed after the items.
  abbrev pub last_feed : Option ℤ → Printer → Printer
  last_feed none p = feed p 5
  last_feed (some n) p = if n ==ℤ pos 0 then p else feed p (u8_of_int n)

  abbrev pub number? : Option j.Item → Option ℤ
  number? none = none
  number? (some item) = j.valueint item

  abbrev pub array : Option j.Item → List j.Item
  array none = []
  array (some item) = j.items item

  -- The code of PRINT from `transfer_index = 0` to `partial_cut`, for the parsed message.
  unfoldable pub run_job : Option j.Item → Transfer → Mode → List ℕ → Outcome (Job j.Item)
  run_job message transfer mode buff =
      followed_by
        (job_items (array (get? j message data_key)) (record {
          printer = record { transfer = transfer; mode = mode };
          buff = buff;
          feed_s = none;
        }))
        (λ job.
          ended (record job { printer = partial_cut (last_feed (number? job.feed_s) job.printer) }))

-- The transfer of 20480 zero bytes, whose allocation is taken to succeed.
unfoldable pub fresh_transfer : Transfer
fresh_transfer = record { data_buffer = replicate 20480 0; transfer_index = 0; fault = false }

-- `print`: the bytes that are sent to the device, if `xQueue` holds one (`peeked`) and the transfer is
-- accepted (`submitted`).
unfoldable pub print_transfer : Bool → Bool → Transfer → Option (List ℕ)
print_transfer peeked submitted t =
    if peeked then (if submitted then some (written t) else none) else none
