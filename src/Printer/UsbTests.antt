-- ===== src/Printer/UsbTests.antt =====
-- The tasks at the USB host, and the questions to the printer, at concrete inputs.
use gateway_esp.Prelude.{ℕ, ◌≡◌, refl, true, false, List, [], ◌∷◌, arith}
use gateway_esp.Printer.Startup.{UsbHost, init_esc, giving, taking}
use gateway_esp.Printer.Asking.{
  Asking, first_wait, no_wait, out_endpoint, in_endpoint, get_stat, get_status_cb, ask, ask_again,
  answered, Asked, not_asked, asks, asks_again, returns, out_done, in_done, Asked-answers, second,
  third, late_answers,
}

-- The driver has made its queue before the daemon installs the library.
abbrev met : UsbHost
met = record init_esc { queues = true; driver = taking; installed = true; daemon = giving }

abbrev quiet : Asking
quiet = record {
  out_pending = 0;
  in_pending = 0;
  callback_sem = false;
  status_code = 0;
  wait = no_wait;
}

-- One question, which the printer answers with 22.
abbrev told : Asking
told = answered (
    get_status_cb in_endpoint 22
      (ask_again true true (get_status_cb out_endpoint 0 (ask true true quiet))))

told-Asked : Asked false told (22 ∷ []) (22 ∷ [])
unfolding ask ask_again answered get_stat get_status_cb
told-Asked =
    let first = asks false quiet [] [] true true refl (not_asked 0) in
    let given = out_done false (ask true true quiet) [] [] 0 (omega arith) first in
    let again =
      asks_again false (get_status_cb out_endpoint 0 (ask true true quiet)) [] [] true true refl
        refl given in
    let answer =
      in_done false (ask_again true true (get_status_cb out_endpoint 0 (ask true true quiet))) [] []
        22 (omega arith) again in
    returns false
      (get_status_cb in_endpoint 22
        (ask_again true true (get_status_cb out_endpoint 0 (ask true true quiet))))
      (22 ∷ []) [] refl refl answer

Asked-answers_example :
    (◌≡◌ {A = List ℕ} (22 ∷ []) (22 ∷ []))
    × (told.out_pending ≡ 0)
    × (told.in_pending ≡ 0)
    × (told.callback_sem ≡ false)
unfolding answered
Asked-answers_example = Asked-answers told (22 ∷ []) (22 ∷ []) told-Asked refl

abbrev asked : Asking
asked = record quiet { out_pending = 1; wait = first_wait }

asked-Asked : Asked false asked [] []
unfolding ask get_stat
asked-Asked = asks false quiet [] [] true true refl (not_asked 0)

late_answers_example :
    Asked true (second asked) [] (0 ∷ 0 ∷ [])
    × Asked true (third asked 22) (22 ∷ []) (22 ∷ 0 ∷ 0 ∷ [])
    × ((third asked 22).in_pending ≡ 1)
late_answers_example = late_answers asked [] [] asked-Asked refl refl (omega arith) 22
