-- ===== src/Devices/Scanner.antt =====
-- main/barcode_scanner/barcode.c: the command handler and the task.
use gateway_esp.Prelude.{
  Bool-cases, inl, inr, ℕ, zero, ◌≡◌, ◌↔◌, ◌≢◌, refl, Bool, true, List, [], ◌∷◌, Option, none, some,
  ℤ, pos, ◌==ℤ◌, ==ℤ_iff, minus_one, Has, if◌then◌else◌, arith,
}
use gateway_esp.Devices.Json.{
  Cjson, number, string_value, command, status, data_key, Call, callback, uart_flush, create_task,
  status_code, respond, number_of, around,
}
use gateway_esp.Devices.Relay.{DeviceStatus, online, status_number}

abbrev pub barcode_code : ℕ
barcode_code = 101

-- `initBarcodeScanner` in a build without Wiegand. `installed` tells whether the calls that set up the
-- UART driver succeed; if not, ESP_ERROR_CHECK aborts.
unfoldable pub init_barcode_scanner : Bool → Option (DeviceStatus × List Call)
init_barcode_scanner installed = if installed then some (online, create_task ∷ []) else none

module _ (j : Cjson) where
  abbrev pub barcode_command :
      Option ℤ → Bool → Bool → Bool → ℕ → ℤ → DeviceStatus → List Call × Bool
  barcode_command (some (pos zero)) object first second handle fd s =
      respond j object
        (record { made = first; key = command; value = number status_code }
          ∷ record { made = second; key = status; value = number (status_number s) }
          ∷ [])
        (some handle) fd
  barcode_command _ object first second handle fd s = ([], true)

  unfoldable pub barcode_handle_command :
      List ℕ → Bool → Bool → Bool → ℕ → ℤ → DeviceStatus → List Call
  barcode_handle_command str object first second handle fd s =
      let item = j.parse str in
      around j item (barcode_command (number_of j item command) object first second handle fd s)

  -- One round of `barcodeScannerTask` in a build without Wiegand: `len` is what `uart_read_bytes`
  -- returns, and `bytes` the C string that the cleared buffer then holds. The Boolean tells whether the
  -- task goes on.
  unfoldable pub scanner_round : ℤ → List ℕ → Bool → Bool → Bool → List Call × Bool
  scanner_round len bytes object first second =
      if len ==ℤ pos 0
      then (if len ==ℤ minus_one then uart_flush ∷ [] else [], true)
      else respond j object
          (record { made = first; key = command; value = number barcode_code }
            ∷ record { made = second; key = data_key; value = string_value bytes }
            ∷ [])
          none (pos 2)

  -- While cJSON has memory, a round sends what was read to the scanner's clients exactly if
  -- `uart_read_bytes` does not return 0: its error result -1 is sent too, and no round flushes the
  -- port.
  pub scanner_round_lem :
      (len : ℤ) (bytes : List ℕ)
      → let (out, on) = scanner_round len bytes true true true in
        (Has
            (callback
              (j.print ((command, number 101) ∷ (data_key, string_value bytes) ∷ []))
              none
              (pos 2))
            out
          ↔ (len ≢ pos 0))
        × (Has uart_flush out → ⊥)
        × (on ≡ true)
  unfolding scanner_round respond ◌==ℤ◌
  scanner_round_lem len bytes = elim (Bool-cases (len ==ℤ pos 0)) [
    | inl z ↦
        let e : len ≡ pos 0 = (==ℤ_iff len (pos 0)).0 z in
        rw e ((λ h. elim h [ ], λ h. absurd (h refl)), (λ h. elim h [ ]), refl)
    | inr n ↦
        let ne : len ≢ pos 0 = λ e. ground (arith, ==ℤ_iff len (pos 0)) in
        rw n ((λ h. ne, λ h. inr (inl refl)), (λ h. ground arith), refl)
  ]
