-- ===== src/Printer/Sample.antt =====
-- A printer that works, and its surroundings.
use gateway_esp.Prelude.{ℕ, true, List, [], none, some}
use gateway_esp.Devices.Relay.{offline}
use gateway_esp.Printer.Commands.{Mode}
use gateway_esp.Printer.Status.{PrinterStatus, Cause}
use gateway_esp.Printer.Handler.{Esc, Surroundings}

abbrev pub mode : Mode
mode = record {
  print_mode = 0;
  prev_byte = 10;
  column = 0;
  max_column = 32;
  char_height = 24;
  line_spacing = 6;
  barcode_height = 50;
}

abbrev pub fresh_status : PrinterStatus
fresh_status = record { status_code = 0; printer_status = offline; printer_status_string = none }

-- A decoder that leaves the buffer as it is.
abbrev pub no_decode : List ℕ → List ℕ → List ℕ
no_decode source before = before

abbrev pub esc_state : Esc
esc_state = record { mode = mode; buff = []; status_of = fresh_status }

abbrev pub all_well : Surroundings
all_well = record {
  callback_taken = true;
  made = record { object = true; first = true; second = true; third = true };
  out_done = true;
  answer = some 22;
  peeked = true;
  submitted = true;
}

abbrev pub cause_text : Cause → List ℕ
cause_text c = []
