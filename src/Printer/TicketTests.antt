-- ===== src/Printer/TicketTests.antt =====
-- A job with a text, an image and a barcode.
use gateway_esp.Prelude.{
  ℕ, ◌+◌, ◌≡◌, refl, Bool, true, false, List, [], ◌∷◌, ◌++◌, Option, none, some, ℤ, ◌==ℤ◌, pos,
  arith,
}
use gateway_esp.Devices.Json.{
  Cjson, Key, data_key, text_key, feed_key, image_key, width_key, height_key, barcode_key,
}
use gateway_esp.Printer.Buffer.{written}
use gateway_esp.Printer.Job.{Job, ended, run_job, fresh_transfer}
use gateway_esp.Printer.Reader.{Printed, line, raster, barcode, at_text, printed}
use gateway_esp.Printer.Ticket.{a_text, an_image, a_barcode}
use gateway_esp.Printer.Decode.{Ticket, no_items, one_more, run_job-printed}
use gateway_esp.Printer.Sample.{mode}

-- `{"data": [{"text": "Hi", "feed": 2, "image": "…", "width": 16, "height": 2, "barcode": "12"}]}`
data TicketItem : Type 0 where
  message items_of mixed hi_item feed_item image_item width_item height_item barcode_item :
      TicketItem

abbrev ticket_get : TicketItem → Key → Option TicketItem
ticket_get message data_key = some items_of
ticket_get mixed text_key = some hi_item
ticket_get mixed feed_key = some feed_item
ticket_get mixed image_key = some image_item
ticket_get mixed width_key = some width_item
ticket_get mixed height_key = some height_item
ticket_get mixed barcode_key = some barcode_item
ticket_get _ _ = none

abbrev ticket_valueint : TicketItem → Option ℤ
ticket_valueint feed_item = some (pos 2)
ticket_valueint width_item = some (pos 16)
ticket_valueint height_item = some (pos 2)
ticket_valueint _ = none

abbrev ticket_string : TicketItem → Option (List ℕ)
ticket_string hi_item = some (b'H' ∷ b'i' ∷ [])
ticket_string image_item = some (b'q' ∷ [])
ticket_string barcode_item = some (b'1' ∷ b'2' ∷ [])
ticket_string _ = none

abbrev ticket_has : TicketItem → Key → Bool
ticket_has mixed text_key = true
ticket_has mixed image_key = true
ticket_has mixed barcode_key = true
ticket_has _ _ = false

abbrev ticket_items : TicketItem → List TicketItem
ticket_items items_of = mixed ∷ []
ticket_items _ = []

abbrev ticket_json : Cjson
ticket_json = record {
  Item = TicketItem;
  parse = λ text. some message;
  get = ticket_get;
  valueint = ticket_valueint;
  is_true = λ item. none;
  string = ticket_string;
  has = ticket_has;
  items = ticket_items;
  print = λ members. none;
}

-- Four bytes of data, some of which are commands elsewhere.
abbrev dots : List ℕ
dots = 27 ∷ 10 ∷ 29 ∷ 0 ∷ []

abbrev decode : List ℕ → List ℕ → List ℕ
decode source before = dots

abbrev prints : List Printed
prints =
    line (b'H' ∷ b'i' ∷ [])
    ∷ raster 2 2 dots
    ∷ line []
    ∷ line []
    ∷ barcode 4 (b'1' ∷ b'2' ∷ [])
    ∷ []

mixed-Ticket :
    Ticket ticket_json decode 9
      (mixed ∷ [])
      none
      []
      (some feed_item)
      dots
      prints
      (24 + (19 + (16 + 0)))
mixed-Ticket =
    one_more mixed [] none (some feed_item) (some feed_item) [] dots dots
      (line (b'H' ∷ b'i' ∷ []) ∷ []) (raster 2 2 dots ∷ line [] ∷ [])
      (line [] ∷ barcode 4 (b'1' ∷ b'2' ∷ []) ∷ []) [] 24 19 16 0
      (a_text (b'H' ∷ b'i' ∷ []) refl refl (
        ((λ e. omega arith), (λ e. omega arith), (λ e. omega arith)),
        (((λ e. omega arith), (λ e. omega arith), (λ e. omega arith)), tt),
      ))
      (an_image (b'q' ∷ []) 16 2 refl refl refl refl (omega arith) (omega arith) (omega arith))
      (a_barcode (b'1' ∷ b'2' ∷ []) 4 refl refl refl (omega arith)
        ((λ e. omega arith), ((λ e. omega arith), tt)) (omega arith) (omega arith))
      (no_items (some feed_item) dots)

run_job-printed_example :
    (job : Job TicketItem) × (run_job ticket_json decode 9 (some message) fresh_transfer mode []
      ≡ ended job)
    × (printed at_text [] (written job.printer.transfer) ≡ prints ++ (line [] ∷ line [] ∷ []))
    × (job.printer.transfer.transfer_index ≡ 63)
    × (job.printer.transfer.fault ≡ false)
unfolding ◌==ℤ◌
run_job-printed_example =
    run_job-printed ticket_json decode 9 message items_of (mixed ∷ []) mode [] dots (some feed_item)
      prints 59 refl refl mixed-Ticket (omega arith)
