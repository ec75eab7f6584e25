-- ===== src/Camera/Loop.antt =====
-- main/camera/usb_camera.c: main_loop, which opens the camera and streams until it is disconnected.
use gateway_esp.Prelude.{
  ℕ, zero, suc, Bool, true, false, List, [], ◌∷◌, ◌++◌, Option, none, some, if◌then◌else◌, ℤ, pos,
  negsuc, ◌==ℤ◌,
}

-- The calls of libuvc, with what they return, and the end of the program by `assert`.
pub data UvcCall : Type 0 where
  wait_connected wait_disconnected : UvcCall
  find_device open_device : ℤ → UvcCall
  set_button_callback : UvcCall
  get_format : ℤ → UvcCall
  sleep_second : UvcCall
  start_streaming : ℤ → ℕ → UvcCall
  stop_streaming close_device abort : UvcCall

-- What libuvc returns in one round of the loop; `format_errs` are the answers to the negotiations.
pub record UvcAnswers : Type 0 where
  pub find_err : ℤ
  pub open_err : ℤ
  pub format_errs : ℕ → ℤ
  pub start_err : ℤ

-- UVC_CHECK: a negative result ends the program. The Boolean is whether the program goes on.
abbrev pub uvc_check : ℤ → Option (List UvcCall × Bool) → Option (List UvcCall × Bool)
uvc_check (pos n) next = next
uvc_check (negsuc n) next = some (abort ∷ [], false)

abbrev pub after : List UvcCall → Option (List UvcCall × Bool) → Option (List UvcCall × Bool)
after calls none = none
after calls (some (more, goes_on)) = some (calls ++ more, goes_on)

-- The loop that negotiates again after the answer `res`; `i` negotiations have been made, and `none`
-- means that the fuel ran out.
unfoldable pub negotiate_again : ℕ → ℕ → ℤ → (ℕ → ℤ) → Option (List UvcCall × Bool)
negotiate_again zero i res errs = if res ==ℤ pos 0 then some ([], true) else none
negotiate_again (suc fuel) i res errs =
    let rest = negotiate_again fuel (suc i) (errs i) errs in
    if res ==ℤ pos 0 then some ([], true) else after (get_format (errs i) ∷ sleep_second ∷ []) rest

abbrev pub negotiate : ℕ → (ℕ → ℤ) → Option (List UvcCall × Bool)
negotiate fuel errs = after (get_format (errs 0) ∷ []) (negotiate_again fuel 1 (errs 0) errs)

abbrev pub streaming : UvcAnswers → Option (List UvcCall × Bool)
streaming a =
    after (start_streaming a.start_err 512 ∷ [])
      (uvc_check a.start_err (some (wait_disconnected ∷ stop_streaming ∷ close_device ∷ [], true)))

abbrev pub and_then :
    Option (List UvcCall × Bool) → Option (List UvcCall × Bool) → Option (List UvcCall × Bool)
and_then none next = none
and_then (some (calls, false)) next = some (calls, false)
and_then (some (calls, true)) next = after calls next

-- One round of the loop.
unfoldable pub main_loop_round : ℕ → UvcAnswers → Option (List UvcCall × Bool)
main_loop_round fuel a = after (wait_connected ∷ find_device a.find_err ∷ []) (
    uvc_check a.find_err (
      after (open_device a.open_err ∷ []) (
        uvc_check a.open_err (
          after (set_button_callback ∷ [])
            (and_then (negotiate fuel a.format_errs) (streaming a))))))

-- The rounds for a list of answers, up to an end of the program.
unfoldable pub main_loop : ℕ → List UvcAnswers → Option (List UvcCall × Bool)
main_loop fuel [] = some ([], true)
main_loop fuel (a ∷ rounds) =
    let rest = main_loop fuel rounds in and_then (main_loop_round fuel a) rest
