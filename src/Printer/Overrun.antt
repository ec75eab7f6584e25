-- ===== src/Printer/Overrun.antt =====
-- main/printer/ESC.c, escHandleCommand: jobs that are longer than the 20480 bytes of their transfer.
use gateway_esp.Prelude.{
  ℕ, ◌+◌, ◌<◌, ◌≡◌, ◌↔◌, ap, ◌∙◌, true, List, ◌++◌, some, length, length-append, arith,
}
use native.Mathlib.Decide.{dec_le}
use gateway_esp.Devices.Json.{Cjson, data_key}
use gateway_esp.Printer.Buffer.{Transfer, write_all-fault}
use gateway_esp.Printer.Commands.{Mode}
use gateway_esp.Printer.Job.{ended, Job, run_job, fresh_transfer}
use gateway_esp.Printer.Lines.{TextLine, text_size, length-Receipt}
use gateway_esp.Printer.Receipt.{
  TextItems, last_bytes, fresh_transfer_lem, run_job-transfer, run_job-Receipt,
}

module _ (j : Cjson) (base64_decode : List ℕ → List ℕ → List ℕ) (fuel : ℕ) where
  too_long :
      (message item : j.Item) (items : List j.Item) (ls : List TextLine) (mode : Mode)
      (buff : List ℕ)
      → j.get message data_key ≡ some item
      → j.items item ≡ items
      → TextItems j base64_decode fuel items ls
      → mode.print_mode < 256
      → 20480 < text_size ls + 7
      → (job : Job j.Item) × (run_job j base64_decode fuel (some message) fresh_transfer mode buff
          ≡ ended job)
        × (job.printer.transfer.fault ≡ true)
  too_long message item items ls mode buff at array_of lines_of byte more =
      let (job, bytes, ends, receipt, sent) =
        run_job-transfer j base64_decode fuel message item items ls fresh_transfer mode buff at
          array_of lines_of byte in
      let (empty, starts, room, clean) = fresh_transfer_lem in
      let size_of : length (bytes ++ last_bytes) ≡ text_size ls + 7 = omega (
        arith,
        length-append {0} bytes last_bytes,
        length-Receipt mode.print_mode ls bytes receipt,
      ) in
      (
        job,
        ends,
        ap (λ (t : Transfer). t.fault) sent
            ∙ write_all-fault fresh_transfer (bytes ++ last_bytes) (omega arith) (omega arith),
      )

  -- A job of items that have each a string as text, and no image, barcode or feed, is written to its end
  -- from a print mode of one byte, whatever its length, and it writes past the 20480 bytes of its
  -- transfer exactly if its texts, with 22 bytes for each, and the seven bytes after them are more.
  pub run_job-overruns :
      (message item : j.Item) (items : List j.Item) (ls : List TextLine) (mode : Mode)
      (buff : List ℕ)
      → j.get message data_key ≡ some item
      → j.items item ≡ items
      → TextItems j base64_decode fuel items ls
      → mode.print_mode < 256
      → (job : Job j.Item) × (run_job j base64_decode fuel (some message) fresh_transfer mode buff
          ≡ ended job)
        × ((job.printer.transfer.fault ≡ true) ↔ (20480 < text_size ls + 7))
  run_job-overruns message item items ls mode buff at array_of lines_of byte =
      elim (dec_le (text_size ls + 7) 20480) [
        | yes fits ↦
            let (job, bytes, ends, receipt, content, index, clean) =
              run_job-Receipt j base64_decode fuel message item items ls mode buff at array_of
                lines_of byte fits in
            (job, ends, ((λ fault. absurd (cc (fault, clean))), (λ more. absurd (omega arith))))
        | no long ↦
            let more : 20480 < text_size ls + 7 = omega arith in
            let (job, ends, fault) =
              too_long message item items ls mode buff at array_of lines_of byte more in
            (job, ends, ((λ h. more), (λ h. fault)))
      ]
