-- ===== src/Printer/Receipt.antt =====
-- main/printer/ESC.c, escHandleCommand: the bytes of a job of text items.
use gateway_esp.Prelude.{
  ℕ, ◌+◌, ◌≤◌, ◌<◌, ◌≡◌, refl, sym, ap, ◌∙◌, true, false, List, [], ◌∷◌, ◌++◌, none, some, length,
  length-append, length-replicate, pos, arith,
}
use gateway_esp.Devices.Json.{
  Cjson, data_key, text_key, feed_key, image_key, barcode_key, size_key, bold_key, underline_key,
  alignment_key, line_spacing_key, string_of, number_of, bool_of,
}
use gateway_esp.Printer.Buffer.{
  Transfer, write_all, written, write_all-append, write_all-written, index-write_all,
}
use gateway_esp.Printer.Barcode.{char_at}
use gateway_esp.Printer.Commands.{Mode, feed, partial_cut}
use gateway_esp.Printer.Mode.{print_text-mode}
use gateway_esp.Printer.Text.{IsModes, mode_command, text_tail, print_text-transfer}
use gateway_esp.Printer.Lines.{
  TextLine, mode_after, mode_after-bound, line_bytes, Receipt, blank, line, text_size,
  length-Receipt,
}
use gateway_esp.Printer.Job.{
  Outcome, ended, Job, or_default, job_items, printed_text, text_item, image_item, barcode_item,
  run_job, fresh_transfer,
}

-- Five newlines and the cut.
abbrev pub last_bytes : List ℕ
last_bytes = 10 ∷ 10 ∷ 10 ∷ 10 ∷ 10 ∷ 27 ∷ b'm' ∷ []

pub fresh_transfer_lem :
    (written fresh_transfer ≡ [])
    × (fresh_transfer.transfer_index ≡ 0)
    × (length fresh_transfer.data_buffer ≡ 20480)
    × (fresh_transfer.fault ≡ false)
unfolding fresh_transfer
fresh_transfer_lem = (refl, refl, length-replicate {A = ℕ} 20480 0, refl)

module _ (j : Cjson) (base64_decode : List ℕ → List ℕ → List ℕ) (fuel : ℕ) where
  -- A text item as its message has it, with the defaults.
  abbrev pub text_line : j.Item → List ℕ → TextLine
  text_line item text = record {
    text = text;
    size = char_at (or_default (b'S' ∷ []) (string_of j (some item) size_key)) 0;
    bold = or_default false (bool_of j (some item) bold_key);
    underline = or_default false (bool_of j (some item) underline_key);
    alignment =
        char_at
          (or_default (b'l' ∷ b'e' ∷ b'f' ∷ b't' ∷ []) (string_of j (some item) alignment_key)) 0;
    line_spacing = or_default (pos 75) (number_of j (some item) line_spacing_key);
  }

  -- Items that have a text, which is a string, and no image, barcode or feed.
  pub data TextItems : List j.Item → List TextLine → Type 0 where
    no_items : TextItems [] []
    one_more :
        (item : j.Item) (items : List j.Item) (text : List ℕ) (ls : List TextLine)
        → j.has item text_key ≡ true
        → string_of j (some item) text_key ≡ some text
        → j.get item feed_key ≡ none
        → j.has item image_key ≡ false
        → j.has item barcode_key ≡ false
        → TextItems items ls
        → TextItems (item ∷ items) (text_line item text ∷ ls)

  -- What a text item does to the job.
  record Line (l : TextLine) (outcome : Outcome (Job j.Item)) (job : Job j.Item) : Type 0 where
    after : Job j.Item
    ends : outcome ≡ ended after
    modes : List ℕ
    three : IsModes modes
    sent :
        after.printer.transfer
        ≡ write_all job.printer.transfer (modes ++ line_bytes job.printer.mode.print_mode l)
    mode_of : after.printer.mode.print_mode ≡ mode_after job.printer.mode.print_mode l
    no_feed : after.feed_s ≡ none

  text_item-Line :
      (item : j.Item) (text : List ℕ) (job : Job j.Item)
      → job.printer.mode.print_mode < 256
      → j.has item text_key ≡ true
      → string_of j (some item) text_key ≡ some text
      → j.get item feed_key ≡ none
      → Line (text_line item text) (text_item j base64_decode fuel item job) job
  unfolding text_item
  text_item-Line item text job byte has_text is_text no_feed =
      let l = text_line item text in
      let (modes, three, sent) =
        print_text-transfer job.printer text l.size l.bold l.underline l.alignment l.line_spacing
          b'A' in
      let mode_of =
        (print_text-mode job.printer text l.size l.bold l.underline l.alignment l.line_spacing b'A'
          byte).0 in
      record {
        after = printed_text j base64_decode fuel item job text;
        ends = rw (has_text, is_text) refl;
        modes = modes;
        three = three;
        sent =
            sent
            ∙ ap
                (λ v. write_all job.printer.transfer (
                  modes
                  ++ (mode_command v ++ text_tail l.underline l.alignment l.line_spacing text)))
                mode_of;
        mode_of = mode_of;
        no_feed = no_feed;
      }

  job_items-Receipt :
      (items : List j.Item) (ls : List TextLine) (job : Job j.Item) (v : ℕ)
      → TextItems items ls
      → job.printer.mode.print_mode ≡ v
      → v < 256
      → job.feed_s ≡ none
      → (job' : Job j.Item) × (bytes : List ℕ) × (job_items j base64_decode fuel items job
          ≡ ended job')
        × Receipt v ls bytes
        × (job'.printer.transfer ≡ write_all job.printer.transfer bytes)
        × (job'.feed_s ≡ none)
  unfolding job_items image_item barcode_item write_all
  job_items-Receipt _ _ job v no_items at byte none' = (job, [], refl, blank v, refl, none')
  job_items-Receipt _ _ job v
        (one_more item items text ls has_text is_text no_feed no_image no_barcode more) at byte
        none' =
      let l = text_line item text in
      let d = text_item-Line item text job (omega (arith, at)) has_text is_text no_feed in
      let (job', bytes, ends, receipt, sent, fed) =
        job_items-Receipt items ls d.after (mode_after v l) more
          (d.mode_of ∙ ap (λ u. mode_after u l) at) (mode_after-bound v l byte) d.no_feed in
      let first = d.modes ++ line_bytes v l in
      (
        job',
        first ++ bytes,
        rw (d.ends, no_image, no_barcode) ends,
        line v l ls d.modes bytes d.three receipt,
        sent
            ∙ ap (λ (t : Transfer). write_all t bytes)
                (d.sent ∙ ap (λ u. write_all job.printer.transfer (d.modes ++ line_bytes u l)) at)
            ∙ sym (write_all-append job.printer.transfer first bytes),
        fed,
      )

  pub run_job-transfer :
      (message item : j.Item) (items : List j.Item) (ls : List TextLine) (t : Transfer)
      (mode : Mode) (buff : List ℕ)
      → j.get message data_key ≡ some item
      → j.items item ≡ items
      → TextItems items ls
      → mode.print_mode < 256
      → (job : Job j.Item) × (bytes : List ℕ) × (run_job j base64_decode fuel
            (some message)
            t
            mode
            buff
          ≡ ended job)
        × Receipt mode.print_mode ls bytes
        × (job.printer.transfer ≡ write_all t (bytes ++ last_bytes))
  unfolding run_job partial_cut feed write_all
  run_job-transfer message item items ls t mode buff at array_of lines_of byte =
      let start : Job j.Item = record {
        printer = record { transfer = t; mode = mode };
        buff = buff;
        feed_s = none;
      } in
      let (job', bytes, ends, receipt, sent, fed) =
        job_items-Receipt items ls start mode.print_mode lines_of refl byte refl in
      (
        record job' { printer = partial_cut (feed job'.printer 5) },
        bytes,
        rw (at, array_of, ends, fed) refl,
        receipt,
        ap (λ (u : Transfer). write_all u last_bytes) sent
            ∙ sym (write_all-append t bytes last_bytes),
      )

  -- A job of text items whose bytes fit into the transfer, beside the five newlines and the cut that
  -- follow them, ends with exactly these bytes in the transfer, the items' in their order, and accesses
  -- nothing outside an array.
  pub run_job-Receipt :
      (message item : j.Item) (items : List j.Item) (ls : List TextLine) (mode : Mode)
      (buff : List ℕ)
      → j.get message data_key ≡ some item
      → j.items item ≡ items
      → TextItems items ls
      → mode.print_mode < 256
      → text_size ls + 7 ≤ 20480
      → (job : Job j.Item) × (bytes : List ℕ) × (run_job j base64_decode fuel
            (some message)
            fresh_transfer
            mode
            buff
          ≡ ended job)
        × Receipt mode.print_mode ls bytes
        × (written job.printer.transfer ≡ bytes ++ last_bytes)
        × (job.printer.transfer.transfer_index ≡ text_size ls + 7)
        × (job.printer.transfer.fault ≡ false)
  run_job-Receipt message item items ls mode buff at array_of lines_of byte fits =
      let (job, bytes, ends, receipt, sent) =
        run_job-transfer message item items ls fresh_transfer mode buff at array_of lines_of byte in
      let size_of : length (bytes ++ last_bytes) ≡ text_size ls + 7 = omega (
        arith,
        length-append {0} bytes last_bytes,
        length-Receipt mode.print_mode ls bytes receipt,
      ) in
      let (empty, starts, room, clean) = fresh_transfer_lem in
      let (content, kept) = write_all-written fresh_transfer (bytes ++ last_bytes) (omega arith) in
      (
        job,
        bytes,
        ends,
        receipt,
        ap written sent ∙ content ∙ ap (λ l. l ++ (bytes ++ last_bytes)) empty,
        omega (
          arith,
          ap (λ (u : Transfer). u.transfer_index) sent,
          index-write_all fresh_transfer (bytes ++ last_bytes),
        ),
        ap (λ (u : Transfer). u.fault) sent ∙ kept ∙ clean,
      )
