-- ===== src/Devices/Reader.antt =====
-- main/barcode_scanner/barcode.c in a build with Wiegand: reader_callback, its queue, and the task.
use gateway_esp.Prelude.{
  ℕ, zero, suc, ◌<◌, ◌^◌, ◌/◌, ◌%◌, ◌≡◌, refl, sym, ◌∙◌, Bool, true, false, List, [], ◌∷◌, ◌++◌,
  Option, none, some, pos, if◌then◌else◌, ◌==◌, map, length, All, Option-cases, ◌⊎◌, inl, inr,
}
use gateway_esp.Rtos.{Fifo}
use gateway_esp.Decimal.{decimal}
use gateway_esp.Devices.Json.{
  Cjson, number, string_value, command, data_key, Call, create_object, callback, delete_response,
  create_task, respond,
}
use gateway_esp.Devices.Relay.{DeviceStatus, online}
use gateway_esp.Devices.Scanner.{barcode_code}
use gateway_esp.Devices.Wiegand.{wiegand_id, frame_word, wiegand_id-frame}

-- `data_packet_t`.
pub record DataPacket : Type 0 where
  pub packet_data : List ℕ
  pub bits : ℕ

-- `ID`; `none` is a read beyond a buffer of less than four bytes.
abbrev pub card_id : List ℕ → Option ℕ
card_id (a ∷ b ∷ c ∷ d ∷ rest) = some (wiegand_id a b c d)
card_id _ = none

-- `initBarcodeScanner`: `made` is the queue, if there is memory, and `reader_ok` tells whether
-- `wiegand_reader_init` succeeds; otherwise ESP_ERROR_CHECK aborts.
abbrev reader_started : {Q : Type 0} → Bool → Option Q → Option (DeviceStatus × Q × List Call)
reader_started reader_ok none = none
reader_started reader_ok (some q) = if reader_ok then some (online, q, create_task ∷ []) else none

unfoldable pub init_wiegand_scanner :
    {Q : Type 0} → Option Q → Bool → Option (DeviceStatus × Q × List Call)
init_wiegand_scanner made reader_ok = reader_started reader_ok made

-- What a round of the task comes to: it waits, reads out of bounds, or has made calls, after which
-- it goes on or has returned.
pub data Scan (Q : Type 0) : Type 0 where
  waits out_of_bounds : Scan Q
  made_calls : Q → List Call → Bool → Scan Q

abbrev before : {Q : Type 0} → List Call → Scan Q → Scan Q
before calls waits = waits
before calls out_of_bounds = out_of_bounds
before calls (made_calls q more on) = made_calls q (calls ++ more) on

-- A card, as its frame of 26 bits has it, with the six bits that fill up the last byte.
pub record Card : Type 0 where
  pub even : ℕ
  pub card_number : ℕ
  pub odd : ℕ
  pub unused : ℕ

abbrev pub IsCard : Card → Type 0
IsCard c = (c.even < 2) × (c.card_number < 2 ^ 24) × (c.odd < 2) × (c.unused < 64)

abbrev pub packet_of : Card → DataPacket
packet_of c =
    let w = frame_word c.even c.card_number c.odd c.unused in
    record {
      packet_data = w / 2 ^ 24 ∷ w / 2 ^ 16 % 256 ∷ w / 2 ^ 8 % 256 ∷ w % 256 ∷ [];
      bits = 26;
    }

module _ (fifo : Fifo DataPacket) where
  abbrev queue_after : fifo.Queue → Option fifo.Queue → fifo.Queue
  queue_after q none = q
  queue_after q (some q') = q'

  -- A packet for which the queue has no room is lost.
  unfoldable pub reader_callback : List ℕ → ℕ → fifo.Queue → fifo.Queue
  reader_callback buf bits q =
      queue_after q (fifo.send_to_back q (record { packet_data = buf; bits = bits }))

  -- The callback of the reader adds its packet at the end of the queue, or leaves the queue as it is.
  reader_callback-items :
      (buf : List ℕ) (n : ℕ) (q : fifo.Queue)
      → let p : DataPacket = record { packet_data = buf; bits = n } in
        (fifo.items (reader_callback buf n q) ≡ fifo.items q ++ (p ∷ []))
        ⊎ (reader_callback buf n q ≡ q)
  unfolding reader_callback
  reader_callback-items buf n q =
      let p : DataPacket = record { packet_data = buf; bits = n } in
      elim (Option-cases (fifo.send_to_back q p)) [
        | inl e ↦ inr (rw (reader_callback, e) refl)
        | inr (q', e) ↦ inl (rw (reader_callback, e) (fifo.items-send_to_back q q' p e))
      ]

  module _ (j : Cjson) where
    -- The body of the loop after `xQueueReceive`. `object`, `first` and `second` tell which calls of
    -- `cJSON_Create…` succeed.
    abbrev announce : Option ℕ → ℕ → Bool → Bool → Bool → fifo.Queue → Scan fifo.Queue
    announce none len object first second q = out_of_bounds
    announce (some id) len object first second q =
        let (calls, on) =
          respond j object
            (record { made = first; key = command; value = number barcode_code }
              ∷ record { made = second; key = data_key; value = string_value (decimal id) }
              ∷ [])
            none (pos 2) in
        if len == 0 then made_calls q [] true else made_calls q calls on

    abbrev received : Option (DataPacket × fifo.Queue) → Bool → Bool → Bool → Scan fifo.Queue
    received none object first second = waits
    received (some (p, q)) object first second =
        announce (card_id p.packet_data) (p.bits / 8) object first second q

    -- One round of `barcodeScannerTask`.
    unfoldable pub wiegand_round : Bool → Bool → Bool → fifo.Queue → Scan fifo.Queue
    wiegand_round object first second q = received (fifo.receive q) object first second

    -- The first `k` rounds, while cJSON has memory.
    unfoldable pub wiegand_rounds : ℕ → fifo.Queue → Scan fifo.Queue
    wiegand_rounds zero q = made_calls q [] true
    wiegand_rounds (suc k) q = elim (wiegand_round true true true q) [
      | waits ↦ waits
      | out_of_bounds ↦ out_of_bounds
      | made_calls q' calls on ↦
          if on then before calls (wiegand_rounds k q') else made_calls q' calls false
    ]

    -- One message for each card, with the decimal text of its number.
    abbrev pub announcements : List Card → List Call
    announcements [] = []
    announcements (c ∷ cs) =
        create_object
        ∷ callback
            (j.print
              ((command, number 101) ∷ (data_key, string_value (decimal c.card_number)) ∷ []))
            none (pos 2)
        ∷ delete_response
        ∷ announcements cs

    wiegand_round-card :
        (c : Card) (ps : List DataPacket) (q : fifo.Queue)
        → IsCard c
        → fifo.items q ≡ packet_of c ∷ ps
        → (q' : fifo.Queue) × (wiegand_round true true true q
            ≡ made_calls q' (announcements (c ∷ [])) true)
          × (fifo.items q' ≡ ps)
    unfolding wiegand_round respond
    wiegand_round-card c ps q (he, hn, ho, hu) waiting = elim (Option-cases (fifo.receive q)) [
      | inl e ↦ cc (waiting, fifo.receive-none q e)
      | inr ((p, q'), e) ↦
          let got : packet_of c ∷ ps ≡ p ∷ fifo.items q' =
            sym waiting ∙ fifo.items-receive q q' p e in
          let same : p ≡ packet_of c = cc got in
          (
            q',
            rw
                (
                  wiegand_round,
                  e,
                  same,
                  wiegand_id-frame c.even c.card_number c.odd c.unused he hn ho hu,
                )
                refl,
            cc got,
          )
    ]

    -- While cJSON has memory, as many rounds of the task as cards wait in the queue send to the
    -- scanner's clients one message for each card, in order, with the decimal text of the card's
    -- number, and leave the queue empty.
    pub wiegand_rounds-cards :
        (cs : List Card) (q : fifo.Queue)
        → All IsCard cs
        → fifo.items q ≡ map packet_of cs
        → (q' : fifo.Queue) × (wiegand_rounds (length cs) q ≡ made_calls q' (announcements cs) true)
          × (fifo.items q' ≡ [])
    unfolding wiegand_rounds
    wiegand_rounds-cards [] q valid waiting = (q, refl, waiting)
    wiegand_rounds-cards (c ∷ cs) q (here, valid) waiting =
        let (q₁, first, left) = wiegand_round-card c (map packet_of cs) q here waiting in
        let (q₂, rest, empty) = wiegand_rounds-cards cs q₁ valid left in
        (q₂, rw (wiegand_rounds, first, rest) refl, empty)
