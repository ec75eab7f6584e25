-- ===== src/Printer/Status.antt =====
-- main/printer/ESC.c: getPrinterStat, and a round of getPrinterStatTask.
use gateway_esp.Prelude.{
  ℕ, ◌≡◌, ◌≢◌, ◌↔◌, Bool, true, false, List, [], ◌∷◌, Option, none, some, if◌then◌else◌, ◌==◌,
  bit_and, arith,
}
use gateway_esp.Devices.Relay.{DeviceStatus, online, degraded}

-- The texts that `printerStatusString` may point to.
pub data Cause : Type 0 where
  platen_is_open no_paper feed_button_pressed mechanical_error auto_cutter_error unrecoverable_error
        auto_recoverable_error :
      Cause

pub record PrinterStatus : Type 0 where
  pub status_code : ℕ
  pub printer_status : DeviceStatus
  pub printer_status_string : Option Cause

-- The result and the new `statusCode` of `getPrinterStat`: `out_done` tells whether the callback of the
-- OUT transfer gave the semaphore in time, and `answer` is the first byte that the IN transfer's
-- callback stored, if it gave the semaphore in time.
unfoldable pub get_printer_stat : Bool → Option ℕ → ℕ × ℕ
get_printer_stat false answer = (0, 0)
get_printer_stat true none = (0, 0)
get_printer_stat true (some byte) = (byte, byte)

-- One `if … printerStatusString = …`.
abbrev when : Bool → Cause → Option Cause → Option Cause
when b c t = if b then some c else t

abbrev pub has_bit : ℕ → ℕ → Bool
has_bit code mask = bit_and code mask == mask

-- The codes of the three requests, and the decision of the task.
unfoldable pub status_round : ℕ → ℕ → ℕ → PrinterStatus → PrinterStatus
status_round code offline_status error_status s =
    if code == 22
    then record s { printer_status = online }
    else (let t₀ = s.printer_status_string in
        let t₁ =
          if offline_status == 54
          then some platen_is_open
          else (if offline_status == 50 then some no_paper else t₀) in
        let t₂ = when (offline_status == 26) feed_button_pressed t₁ in
        let t₃ = when (has_bit error_status 4) mechanical_error t₂ in
        let t₄ = when (has_bit error_status 8) auto_cutter_error t₃ in
        let t₅ = when (has_bit error_status 32) unrecoverable_error t₄ in
        let t₆ = when (has_bit error_status 64) auto_recoverable_error t₅ in
        record s { printer_status = degraded; printer_status_string = t₆ })

-- What the codes show, the most urgent first.
abbrev pub shown : ℕ → ℕ → List (Bool × Cause)
shown offline_status error_status =
    (has_bit error_status 64, auto_recoverable_error)
    ∷ (has_bit error_status 32, unrecoverable_error)
    ∷ (has_bit error_status 8, auto_cutter_error)
    ∷ (has_bit error_status 4, mechanical_error)
    ∷ (offline_status == 26, feed_button_pressed)
    ∷ (offline_status == 50, no_paper)
    ∷ (offline_status == 54, platen_is_open)
    ∷ []

abbrev pub most_urgent : List (Bool × Cause) → Option Cause
most_urgent [] = none
most_urgent ((b, c) ∷ cs) = if b then some c else most_urgent cs

abbrev pub or_else : Option Cause → Option Cause → Option Cause
or_else none d = d
or_else (some c) d = some c

-- The printer counts as online exactly if its status code is 22, and as degraded otherwise; the text is
-- then the most urgent cause that the other two codes show, or, if they show none, the text of before,
-- which online rounds keep.
pub status_round_lem :
    (code offline_status error_status : ℕ) (s : PrinterStatus)
    → let s' = status_round code offline_status error_status s in
      ((s'.printer_status ≡ online) ↔ (code ≡ 22))
      × (code ≢ 22
          → (s'.printer_status ≡ degraded)
            × (s'.printer_status_string
                ≡ or_else
                    (most_urgent (shown offline_status error_status))
                    s.printer_status_string))
      × (code ≡ 22 → s'.printer_status_string ≡ s.printer_status_string)
unfolding status_round
status_round_lem code offline_status error_status s = ground arith
