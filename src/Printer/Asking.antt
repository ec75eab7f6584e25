-- ===== src/Printer/Asking.antt =====
-- main/printer/ESC.c: getPrinterStat, which asks the printer by two transfers and waits for each by the
-- semaphore `callback_sem`, and getStatus_cb, which the USB host calls when it is done with one.
use gateway_esp.Prelude.{
  ℕ, ◌+◌, ◌-◌, ◌<◌, ◌≡◌, refl, subst, Bool, true, false, ◌&&◌, List, [], ◌∷◌, if◌then◌else◌, arith,
}

pub data Endpoint : Type 0 where
  out_endpoint in_endpoint : Endpoint

-- Where `getPrinterStat` is: not called, or in its first or second wait.
pub data Wait : Type 0 where
  no_wait first_wait second_wait : Wait

-- How many transfers of each endpoint the USB host has, the semaphore, and `statusCode`.
pub record Asking : Type 0 where
  pub out_pending : ℕ
  pub in_pending : ℕ
  pub callback_sem : Bool
  pub status_code : ℕ
  pub wait : Wait

-- `getStat`. Without a printer in the queue, or if the host does not accept the transfer, nothing is
-- under way.
unfoldable pub get_stat : Endpoint → Bool → Bool → Asking → Asking
get_stat out_endpoint found accepted s =
    if found && accepted then record s { out_pending = s.out_pending + 1 } else s
get_stat in_endpoint found accepted s =
    if found && accepted then record s { in_pending = s.in_pending + 1 } else s

-- `getStatus_cb`, with the first byte of the transfer's data.
unfoldable pub get_status_cb : Endpoint → ℕ → Asking → Asking
get_status_cb out_endpoint byte s = record s {
  out_pending = s.out_pending - 1;
  callback_sem = true;
}
get_status_cb in_endpoint byte s = record s {
  in_pending = s.in_pending - 1;
  callback_sem = true;
  status_code = byte;
}

-- `getPrinterStat` up to its first wait, between its waits, and when a wait ends without the semaphore.
unfoldable pub ask : Bool → Bool → Asking → Asking
unfolding get_stat
ask found accepted s = record (get_stat out_endpoint found accepted s) { wait = first_wait }

unfoldable pub ask_again : Bool → Bool → Asking → Asking
unfolding get_stat
ask_again found accepted s =
    record (get_stat in_endpoint found accepted (record s { callback_sem = false })) {
      wait = second_wait;
    }

unfoldable pub give_up : Asking → Asking
give_up s = record s { status_code = 0; wait = no_wait }

unfoldable pub answered : Asking → Asking
answered s = record s { callback_sem = false; wait = no_wait }

-- The states of a thread that has taken `callback_sem` and asks one time after the other, with the bytes
-- that came from the printer and the codes that `getPrinterStat` returned, the last ones first. The
-- Boolean tells whether a wait has ended without the semaphore.
pub data Asked : Bool → Asking → List ℕ → List ℕ → Type 0 where
  not_asked :
      (code : ℕ)
      → Asked false
          (record {
            out_pending = 0;
            in_pending = 0;
            callback_sem = false;
            status_code = code;
            wait = no_wait;
          })
          []
          []
  asks :
      (b : Bool) (s : Asking) (bytes codes : List ℕ) (found accepted : Bool)
      → s.wait ≡ no_wait
      → Asked b s bytes codes
      → Asked b (ask found accepted s) bytes codes
  asks_again :
      (b : Bool) (s : Asking) (bytes codes : List ℕ) (found accepted : Bool)
      → s.wait ≡ first_wait
      → s.callback_sem ≡ true
      → Asked b s bytes codes
      → Asked b (ask_again found accepted s) bytes codes
  returns :
      (b : Bool) (s : Asking) (bytes codes : List ℕ)
      → s.wait ≡ second_wait
      → s.callback_sem ≡ true
      → Asked b s bytes codes
      → Asked b (answered s) bytes (s.status_code ∷ codes)
  gives_up :
      (b : Bool) (s : Asking) (bytes codes : List ℕ)
      → (s.wait ≡ no_wait → ⊥)
      → s.callback_sem ≡ false
      → Asked b s bytes codes
      → Asked true (give_up s) bytes (0 ∷ codes)
  out_done :
      (b : Bool) (s : Asking) (bytes codes : List ℕ) (byte : ℕ)
      → 0 < s.out_pending
      → Asked b s bytes codes
      → Asked b (get_status_cb out_endpoint byte s) bytes codes
  in_done :
      (b : Bool) (s : Asking) (bytes codes : List ℕ) (byte : ℕ)
      → 0 < s.in_pending
      → Asked b s bytes codes
      → Asked b (get_status_cb in_endpoint byte s) (byte ∷ bytes) codes

-- What holds at a wait while no wait has lapsed.
abbrev InStep : Wait → Asking → List ℕ → List ℕ → Type 0
InStep no_wait s bytes codes =
    (s.out_pending ≡ 0) × (s.in_pending ≡ 0) × (s.callback_sem ≡ false) × (bytes ≡ codes)
InStep first_wait s bytes codes =
    (s.in_pending ≡ 0) × (s.out_pending + (if s.callback_sem then 1 else 0) < 2) × (bytes ≡ codes)
InStep second_wait s bytes codes =
    (s.out_pending ≡ 0)
    × (s.in_pending + (if s.callback_sem then 1 else 0) < 2)
    × (if s.callback_sem then bytes ≡ s.status_code ∷ codes else (bytes ≡ codes))

out_done-InStep :
    (w : Wait) (s : Asking) (bytes codes : List ℕ)
    → 0 < s.out_pending
    → InStep w s bytes codes
    → InStep w (record s { out_pending = s.out_pending - 1; callback_sem = true }) bytes codes
out_done-InStep no_wait s bytes codes pending i = absurd (omega arith)
out_done-InStep first_wait s bytes codes pending i = ground (arith, i)
out_done-InStep second_wait s bytes codes pending i = absurd (omega arith)

in_done-InStep :
    (w : Wait) (s : Asking) (bytes codes : List ℕ) (byte : ℕ)
    → 0 < s.in_pending
    → InStep w s bytes codes
    → InStep w
        (record s { in_pending = s.in_pending - 1; callback_sem = true; status_code = byte })
        (byte ∷ bytes)
        codes
in_done-InStep no_wait s bytes codes byte pending i = absurd (omega arith)
in_done-InStep first_wait s bytes codes byte pending i = absurd (omega arith)
in_done-InStep second_wait s bytes codes byte pending i = ground (arith, i)

in_step :
    (b : Bool) (s : Asking) (bytes codes : List ℕ)
    → b ≡ false
    → Asked b s bytes codes
    → InStep s.wait s bytes codes
unfolding ask ask_again give_up answered get_stat get_status_cb
in_step _ _ _ _ none_lapsed (not_asked code) = (refl, refl, refl, refl)
in_step _ _ _ _ none_lapsed (asks b s bytes codes found accepted at r) =
    let i : InStep no_wait s bytes codes =
      subst (λ w. InStep w s bytes codes) at (in_step b s bytes codes none_lapsed r) in
    ground (arith, i)
in_step _ _ _ _ none_lapsed (asks_again b s bytes codes found accepted at given r) =
    let i : InStep first_wait s bytes codes =
      subst (λ w. InStep w s bytes codes) at (in_step b s bytes codes none_lapsed r) in
    ground (arith, i)
in_step _ _ _ _ none_lapsed (returns b s bytes codes at given r) =
    let i : InStep second_wait s bytes codes =
      subst (λ w. InStep w s bytes codes) at (in_step b s bytes codes none_lapsed r) in
    ground (arith, i)
in_step _ _ _ _ none_lapsed (gives_up b s bytes codes at empty r) = absurd (cc)
in_step _ _ _ _ none_lapsed (out_done b s bytes codes byte pending r) =
    out_done-InStep s.wait s bytes codes pending (in_step b s bytes codes none_lapsed r)
in_step _ _ _ _ none_lapsed (in_done b s bytes codes byte pending r) =
    in_done-InStep s.wait s bytes codes byte pending (in_step b s bytes codes none_lapsed r)

-- While no wait of getPrinterStat has ended without the semaphore: whenever it is not being called,
-- the codes that it has returned are the bytes that the printer sent, one for each call and in their
-- order, and no transfer is under way.
pub Asked-answers :
    (s : Asking) (bytes codes : List ℕ)
    → Asked false s bytes codes
    → s.wait ≡ no_wait
    → (bytes ≡ codes) × (s.out_pending ≡ 0) × (s.in_pending ≡ 0) × (s.callback_sem ≡ false)
Asked-answers s bytes codes r idle =
    let i : InStep no_wait s bytes codes =
      subst (λ w. InStep w s bytes codes) idle (in_step false s bytes codes refl r) in
    (i.3, i.0, i.1, i.2)

-- A call that finds the semaphore given, and whose two transfers are accepted.
abbrev pub early_call : Asking → Asking
early_call s = answered (get_status_cb out_endpoint 0 (ask_again true true (ask true true s)))

-- It may return what `statusCode` was before.
early_call-Asked :
    (b : Bool) (s : Asking) (bytes codes : List ℕ)
    → s.wait ≡ no_wait
    → s.callback_sem ≡ true
    → Asked b s bytes codes
    → Asked b (early_call s) bytes (s.status_code ∷ codes)
unfolding ask ask_again answered get_stat get_status_cb
early_call-Asked b s bytes codes idle given r =
    let first = asks b s bytes codes true true idle r in
    let again = asks_again b (ask true true s) bytes codes true true refl given first in
    let done =
      out_done b (ask_again true true (ask true true s)) bytes codes 0 (omega arith) again in
    returns b (get_status_cb out_endpoint 0 (ask_again true true (ask true true s))) bytes codes
      refl refl done

-- The state after a lapsed first wait and the late callback of its transfer; after a call that follows;
-- and after the answer to that call and one call more.
abbrev pub late : Asking → Asking
late s = get_status_cb out_endpoint 0 (give_up s)

abbrev pub second : Asking → Asking
second s = early_call (late s)

abbrev pub third : Asking → ℕ → Asking
third s byte = early_call (get_status_cb in_endpoint byte (second s))

module _ (s : Asking) (bytes codes : List ℕ) (r : Asked false s bytes codes)
    (waits : s.wait ≡ first_wait) (empty : s.callback_sem ≡ false)
    (under_way : 0 < s.out_pending) where
  -- When the first wait of a call ends without the semaphore, and the transfer comes back late: the
  -- next call may return 0 before the printer has answered, and the call after that the answer to it.
  pub late_answers :
      (byte : ℕ)
      → Asked true (second s) bytes (0 ∷ 0 ∷ codes)
        × Asked true (third s byte) (byte ∷ bytes) (byte ∷ 0 ∷ 0 ∷ codes)
        × ((third s byte).in_pending ≡ 1)
  unfolding ask ask_again give_up answered get_stat get_status_cb
  late_answers byte =
      let i : InStep first_wait s bytes codes =
        subst (λ w. InStep w s bytes codes) waits (in_step false s bytes codes refl r) in
      let gave_up = gives_up false s bytes codes (λ e. cc (e, waits)) empty r in
      let came : Asked true (late s) bytes (0 ∷ codes) =
        out_done true (give_up s) bytes (0 ∷ codes) 0 under_way gave_up in
      let next : Asked true (second s) bytes (0 ∷ 0 ∷ codes) =
        early_call-Asked true (late s) bytes (0 ∷ codes) refl refl came in
      let answer : Asked true (get_status_cb in_endpoint byte (second s)) (byte ∷ bytes)
          (0 ∷ 0 ∷ codes) =
        in_done true (second s) bytes (0 ∷ 0 ∷ codes) byte (omega arith) next in
      (
        next,
        early_call-Asked true (get_status_cb in_endpoint byte (second s)) (byte ∷ bytes)
            (0 ∷ 0 ∷ codes) refl refl answer,
        omega (arith, i.0),
      )
