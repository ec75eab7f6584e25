-- ===== src/Printer/Handler.antt =====
-- main/printer/ESC.c: escHandleCommand.
use gateway_esp.Prelude.{
  ℕ, zero, suc, ◌+◌, ◌≤◌, ◌<◌, ◌≡◌, refl, Bool, true, false, ◌&&◌, List, [], ◌∷◌, ◌++◌, map, Option,
  none, some, if◌then◌else◌, ◌==◌, ℤ, pos,
}
use gateway_esp.Devices.Json.{
  Cjson, number, string_value, command, status, status_text, data_key, Call, parsed, delete_data,
  Member, respond, number_of, parsed_if, delete_if,
}
use gateway_esp.Devices.Relay.{DeviceStatus, degraded, status_number, Made}
use gateway_esp.Printer.Commands.{Mode}
use gateway_esp.Printer.Status.{PrinterStatus, Cause, get_printer_stat}
use gateway_esp.Printer.Job.{
  Outcome, ended, followed_by, Job, run_job, fresh_transfer, print_transfer,
}
use gateway_esp.Printer.Lines.{TextLine, Receipt, text_size}
use gateway_esp.Printer.Receipt.{TextItems, last_bytes, run_job-Receipt}

-- The calls of the handler: of the two semaphores, of cJSON and the callback, and the transfer to the
-- printer. The wait for `callback_sem` ends after 90 ticks in any case; the Boolean is the result, which
-- is not looked at.
pub data EscCall : Type 0 where
  take_printing_queue give_callback give_printing_queue : EscCall
  take_callback : Bool → EscCall
  json_call : Call → EscCall
  usb_send : List ℕ → EscCall

-- The static state: the mode, `buff`, and the printer's status.
pub record Esc : Type 0 where
  pub mode : Mode
  pub buff : List ℕ
  pub status_of : PrinterStatus

-- What the surroundings do: whether `callback_sem` is there in time, which calls of `cJSON_Create…`
-- succeed, what `getPrinterStat` gets, and whether `print` finds a printer and can submit the transfer.
pub record Surroundings : Type 0 where
  pub callback_taken : Bool
  pub made : Made
  pub out_done : Bool
  pub answer : Option ℕ
  pub peeked : Bool
  pub submitted : Bool

abbrev pub made_all : Made → Bool
made_all made = made.object && (made.first && made.second)

abbrev pub is_degraded : DeviceStatus → Bool
is_degraded degraded = true
is_degraded _ = false

abbrev pub sent_calls : Option (List ℕ) → List EscCall
sent_calls none = []
sent_calls (some bytes) = usb_send bytes ∷ []

-- How the handler, and each round of the status task, begin and end.
abbrev pub entry_calls : Bool → List EscCall
entry_calls taken = take_printing_queue ∷ take_callback taken ∷ []

abbrev pub exit_calls : List EscCall
exit_calls = give_callback ∷ give_printing_queue ∷ []

-- `cause_text` are the texts of the causes; a `status_text` that cannot be made is left out.
module _ (j : Cjson) (base64_decode : List ℕ → List ℕ → List ℕ) (fuel : ℕ)
    (cause_text : Cause → List ℕ) where
  abbrev text_member : Bool → Option Cause → List Member
  text_member made none = []
  text_member made (some c) =
      if made
      then record { made = true; key = status_text; value = string_value (cause_text c) } ∷ []
      else []

  abbrev esc_members : Made → PrinterStatus → List Member
  esc_members made s =
      record { made = made.first; key = command; value = number 100 }
      ∷ record { made = made.second; key = status; value = number (status_number s.printer_status) }
      ∷ (if is_degraded s.printer_status
          then text_member made.third s.printer_status_string
          else [])

  -- The case GET_STATUS.
  unfoldable pub esc_get_status : Made → PrinterStatus → ℕ → ℤ → List Call × Bool
  esc_get_status made s handle fd = respond j made.object (esc_members made s) (some handle) fd

  -- The case PRINT: without the status code 22 the job is dropped.
  unfoldable pub esc_print : Surroundings → Option j.Item → Esc → Outcome (Esc × List EscCall)
  esc_print w item e =
      let (code, status_code) = get_printer_stat w.out_done w.answer in
      let s = record e.status_of { status_code = status_code } in
      let e₁ = record e { status_of = s } in
      if code == 22
      then followed_by (run_job j base64_decode fuel item fresh_transfer e.mode e.buff)
          (λ (job : Job j.Item). ended (
            record { mode = job.printer.mode; buff = job.buff; status_of = s },
            sent_calls (print_transfer w.peeked w.submitted job.printer.transfer),
          ))
      else ended (e₁, [])

  -- What stands around the `switch`; the Boolean `on` tells whether its case goes on.
  abbrev pub wrapped : Bool → Option j.Item → List EscCall → Bool → List EscCall
  wrapped taken item calls on =
      entry_calls taken
      ++ (map json_call (parsed_if j item)
          ++ (calls ++ (if on then map json_call (delete_if j item) ++ exit_calls else [])))

  abbrev pub esc_command :
      Option ℤ → Surroundings → Option j.Item → ℕ → ℤ → Esc → Outcome (Esc × List EscCall)
  esc_command (some (pos zero)) w item handle fd e =
      let (calls, on) = esc_get_status w.made e.status_of handle fd in
      ended (e, wrapped w.callback_taken item (map json_call calls) on)
  esc_command (some (pos (suc zero))) w item handle fd e =
      followed_by (esc_print w item e)
        (λ out. ended (out.0, wrapped w.callback_taken item out.1 true))
  esc_command _ w item handle fd e = ended (e, wrapped w.callback_taken item [] true)

  unfoldable pub esc_handle_command :
      List ℕ → Surroundings → ℕ → ℤ → Esc → Outcome (Esc × List EscCall)
  esc_handle_command str w handle fd e =
      let item = j.parse str in esc_command (number_of j item command) w item handle fd e

  -- PRINT with items that have each a string as text, and no image, barcode or feed, and whose bytes fit
  -- into the transfer with the five newlines and the cut, from a print mode of one byte: while the
  -- printer answers with status code 22 and is on the queue, and the USB host takes the transfer, the job
  -- is sent whole, in one transfer of these bytes and no others. The bytes of an item are three mode
  -- commands, a fourth that sets the size and weight of the item in font A, the commands for its
  -- underline, alignment and line spacing, its text and a newline. `printingQueue_sem` is taken before
  -- and both semaphores are given after it, whether or not `callback_sem` was there in time.
  pub esc_handle_command-text :
      (str : List ℕ) (w : Surroundings) (handle : ℕ) (fd : ℤ) (e : Esc) (message item : j.Item)
      (items : List j.Item) (ls : List TextLine)
      → j.parse str ≡ some message
      → number_of j (some message) command ≡ some (pos 1)
      → j.get message data_key ≡ some item
      → j.items item ≡ items
      → TextItems j base64_decode fuel items ls
      → e.mode.print_mode < 256
      → text_size ls + 7 ≤ 20480
      → get_printer_stat w.out_done w.answer ≡ (22, 22)
      → w.peeked ≡ true
      → w.submitted ≡ true
      → (e' : Esc) × (bytes : List ℕ) × (esc_handle_command str w handle fd e
          ≡ ended (
            e',
            take_printing_queue
                ∷ take_callback w.callback_taken
                ∷ json_call parsed
                ∷ usb_send (bytes ++ last_bytes)
                ∷ json_call delete_data
                ∷ give_callback
                ∷ give_printing_queue
                ∷ [],
          ))
        × Receipt e.mode.print_mode ls bytes
  unfolding esc_handle_command esc_print print_transfer
  esc_handle_command-text str w handle fd e message item items ls p c at array_of lines_of byte fits
        code peeked submitted =
      let (job, bytes, ends, receipt, content, n, clean) =
        run_job-Receipt j base64_decode fuel message item items ls e.mode e.buff at array_of
          lines_of byte fits in
      (
        record {
          mode = job.printer.mode;
          buff = job.buff;
          status_of = record e.status_of { status_code = 22 };
        },
        bytes,
        rw (p, c, code, ends, peeked, submitted, content) refl,
        receipt,
      )
