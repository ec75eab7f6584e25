-- ===== src/Printer/Tests.antt =====
-- The printer at concrete inputs.
use gateway_esp.Prelude.{
  ℕ, ◌+◌, ◌≤◌, ◌<◌, ◌≡◌, ◌↔◌, refl, true, false, List, [], ◌∷◌, ◌++◌, none, some, replicate, pos,
  bit_and, arith,
}
use gateway_esp.Devices.Json.{parsed, create_object, respond, delete_data, number_of, command}
use gateway_esp.Devices.Sample.{
  SampleItem, sample, order, array_item, text_item, ask_text, order_text,
}
use gateway_esp.Printer.Buffer.{Transfer, write_all}
use gateway_esp.Printer.Commands.{Printer, newline, print_text}
use gateway_esp.Printer.Mode.{item_bits, item_columns, item_height, print_text-mode}
use gateway_esp.Printer.Barcode.{print_barcode, barcode_bytes, print_barcode_lem}
use gateway_esp.Printer.Status.{get_printer_stat}
use gateway_esp.Printer.Lending.{
  Lending, initial_lending, new_transfer, print_submit, print_end, transfer_cb, memb, Reached,
  nothing_sent, job, reached-safe, late_callback_lem,
}
use gateway_esp.Printer.Job.{ended, Job, run_job, fresh_transfer}
use gateway_esp.Printer.Overrun.{run_job-overruns}
use gateway_esp.Printer.Lines.{Receipt}
use gateway_esp.Printer.Receipt.{text_line, TextItems, no_items, one_more, last_bytes}
use gateway_esp.Printer.Handler.{
  EscCall, take_printing_queue, take_callback, give_callback, give_printing_queue, json_call,
  usb_send, Esc, Surroundings, esc_get_status, esc_handle_command, esc_handle_command-text,
}
use gateway_esp.Printer.Exclusion.{
  Shared, Place, outside, inside, Exclusive, Moves, stays, moves, handler_takes, handler_leaves_lem,
}
use gateway_esp.Printer.Semaphores.{aborts}
use gateway_esp.Printer.Sample.{mode, no_decode, esc_state, all_well, cause_text}

abbrev transfer : Transfer
transfer = record { data_buffer = replicate 64 0; transfer_index = 0; fault = false }

abbrev blank_printer : Printer
blank_printer = record { transfer = transfer; mode = mode }

abbrev hi : List ℕ
hi = 72 ∷ 105 ∷ []

print_text-mode_example :
    let m = (print_text blank_printer hi b'L' true false b'c' (pos 75) b'A').mode in
    (m.print_mode ≡ bit_and 0 198 + item_bits false false true true)
    × (m.max_column ≡ item_columns false false true)
    × (m.char_height ≡ item_height false false true)
print_text-mode_example =
    print_text-mode blank_printer hi b'L' true false b'c' (pos 75) b'A' (omega arith)

print_barcode_lem_example :
    (2 ≤ 255
      → 2 < 3
      → print_barcode 3 blank_printer hi 4
        ≡ some (record {
          transfer = write_all transfer (barcode_bytes hi 4);
          mode = record mode { prev_byte = newline };
        }))
    × (256 ≤ 2 → print_barcode 3 blank_printer hi 4 ≡ none)
print_barcode_lem_example = print_barcode_lem 3 blank_printer hi 4 ((λ e. cc), ((λ e. cc), tt))

one_text :
    TextItems sample no_decode 0 (text_item ∷ []) (text_line sample no_decode 0 text_item hi ∷ [])
one_text = one_more text_item [] hi [] refl refl refl refl refl no_items

esc_handle_command-text_example :
    (e' : Esc) × (bytes : List ℕ) × (esc_handle_command sample no_decode 0 cause_text order_text
        all_well 1
        (pos 54)
        esc_state
      ≡ ended (
        e',
        take_printing_queue
            ∷ take_callback true
            ∷ json_call parsed
            ∷ usb_send (bytes ++ last_bytes)
            ∷ json_call delete_data
            ∷ give_callback
            ∷ give_printing_queue
            ∷ [],
      ))
    × Receipt 0 (text_line sample no_decode 0 text_item hi ∷ []) bytes
unfolding get_printer_stat
esc_handle_command-text_example =
    esc_handle_command-text sample no_decode 0 cause_text order_text all_well 1 (pos 54) esc_state
      order array_item (text_item ∷ []) (text_line sample no_decode 0 text_item hi ∷ []) refl refl
      refl refl one_text (omega arith) (omega arith) refl refl refl

run_job-overruns_example :
    (made : Job SampleItem) × (run_job sample no_decode 0 (some order) fresh_transfer mode []
      ≡ ended made)
    × ((made.printer.transfer.fault ≡ true) ↔ (20480 < 2 + 22 + 0 + 7))
run_job-overruns_example =
    run_job-overruns sample no_decode 0 order array_item (text_item ∷ [])
      (text_line sample no_decode 0 text_item hi ∷ []) mode [] refl refl one_text (omega arith)

abbrev no_memory : Surroundings
no_memory = record all_well {
  made = record { object = true; first = true; second = false; third = true };
}

abbrev kept_calls : List EscCall
kept_calls =
    take_printing_queue ∷ take_callback true ∷ json_call parsed ∷ json_call create_object ∷ []

-- Nobody is inside, and the handler is inside.
abbrev apart : Shared
apart = record { printing_queue = true; handler = outside; status_task = outside; esc = esc_state }

abbrev entered : Shared
entered = record apart { printing_queue = false; handler = inside }

apart-Exclusive : Exclusive sample no_decode 0 cause_text apart
apart-Exclusive = ((λ h. (refl, refl)), λ h k. cc)

one_move : Moves sample no_decode 0 cause_text apart entered
one_move = moves apart apart entered (stays apart) (handler_takes apart true (λ h. refl) refl)

handler_leaves_lem_example :
    let t : Shared = record entered { printing_queue = false; handler = outside } in
    let aborted = aborts (number_of sample (sample.parse ask_text) command) no_memory.made in
    (◌≡◌ {A = Place} outside outside)
    × (aborted ≡ false → t.printing_queue ≡ true)
    × (aborted ≡ true → (u : Shared) → Moves sample no_decode 0 cause_text t u → u ≡ t)
unfolding esc_handle_command esc_get_status respond
handler_leaves_lem_example =
    handler_leaves_lem sample no_decode 0 cause_text apart entered ask_text no_memory 1 (pos 54)
      esc_state kept_calls apart-Exclusive one_move refl refl

abbrev first_sent : Lending
first_sent = record {
  made = 1;
  allocated = 0 ∷ [];
  lent = 0 ∷ [];
  transfer = 0;
  transfer_cb_sem = false;
  waiting = true;
  fault = false;
}

first_sent-Reached : Reached false first_sent
unfolding print_submit new_transfer
first_sent-Reached = job false initial_lending true true refl nothing_sent

reached-safe_example :
    (first_sent.fault ≡ false)
    × ((t : ℕ)
        → memb t first_sent.lent ≡ true
        → (memb t first_sent.allocated ≡ true) × (first_sent.waiting ≡ true))
    × (first_sent.transfer_cb_sem ≡ true → first_sent.waiting ≡ true)
reached-safe_example = reached-safe first_sent first_sent-Reached

late_callback_lem_example :
    let late = transfer_cb 0 (print_submit true true (new_transfer (print_end first_sent))) in
    let ended = print_end late in
    Reached true ended
    × (late.fault ≡ true)
    × (ended.lent ≡ 1 ∷ [])
    × (memb 1 ended.allocated ≡ false)
late_callback_lem_example = late_callback_lem first_sent first_sent-Reached refl refl
