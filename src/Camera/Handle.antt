-- ===== src/Camera/Handle.antt =====
-- main/camera/usb_camera.c: main_loop's use of the device handle, in the order of libuvc.
use gateway_esp.Prelude.{
  ℕ, zero, suc, ◌+◌, ◌≤◌, ◌≡◌, refl, ap, ◌∙◌, Bool-cases, inl, inr, ==ℤ_refl, ==ℤ_iff, ◌≢◌, Bool,
  true, false, List, [], ◌∷◌, ◌++◌, Option, none, some, if◌then◌else◌, ℤ, pos, negsuc, ◌==ℤ◌, arith,
  All,
}
use gateway_esp.Camera.Loop.{
  UvcCall, wait_connected, wait_disconnected, find_device, open_device, set_button_callback,
  get_format, sleep_second, start_streaming, stop_streaming, close_device, abort, UvcAnswers,
  uvc_check, after, negotiate_again, negotiate, streaming, and_then, main_loop_round, main_loop,
}

-- The life of a device handle, as libuvc asks for it.
pub data Handle : Type 0 where
  closed opened formatted playing ended : Handle

abbrev negative : ℤ → Bool
negative (pos n) = false
negative (negsuc n) = true

-- Where a call takes the handle, or `none` for a call that is not allowed there.
abbrev pub use_handle : Handle → UvcCall → Option Handle
use_handle closed wait_connected = some closed
use_handle closed (find_device e) = some closed
use_handle closed (open_device e) = if negative e then some closed else some opened
use_handle closed abort = some ended
use_handle opened set_button_callback = some opened
use_handle opened (get_format e) = if e ==ℤ pos 0 then some formatted else some opened
use_handle opened sleep_second = some opened
use_handle formatted sleep_second = some formatted
use_handle formatted (start_streaming e size) = if negative e then some formatted else some playing
use_handle formatted abort = some ended
use_handle playing wait_disconnected = some playing
use_handle playing stop_streaming = some opened
use_handle opened close_device = some closed
use_handle h c = none

abbrev use_from : Option Handle → UvcCall → Option Handle
use_from none c = none
use_from (some h) c = use_handle h c

abbrev pub use_all : Option Handle → List UvcCall → Option Handle
use_all h [] = h
use_all h (c ∷ cs) = use_all (use_from h c) cs

-- The outcome takes the handle from one state to another, or ends the program; it is not `none`.
abbrev pub Takes : Handle → Handle → Option (List UvcCall × Bool) → Type 0
Takes h h' none = ⊥
Takes h h' (some (calls, goes_on)) = use_all (some h) calls ≡ some (if goes_on then h' else ended)

use_all-append :
    (h : Option Handle) (cs ds : List UvcCall) → use_all h (cs ++ ds) ≡ use_all (use_all h cs) ds
use_all-append h [] ds = refl
use_all-append h (c ∷ cs) ds = use_all-append (use_from h c) cs ds

after-Takes :
    (h m h' : Handle) (calls : List UvcCall) (next : Option (List UvcCall × Bool))
    → use_all (some h) calls ≡ some m
    → Takes m h' next
    → Takes h h' (after calls next)
after-Takes h m h' calls none e t = elim t [ ]
after-Takes h m h' calls (some (more, goes_on)) e t = rw (use_all-append (some h) calls more, e) t

and_then-Takes :
    (h m h' : Handle) (first next : Option (List UvcCall × Bool))
    → Takes h m first
    → Takes m h' next
    → Takes h h' (and_then first next)
and_then-Takes h m h' none next t u = elim t [ ]
and_then-Takes h m h' (some (calls, false)) next t u = t
and_then-Takes h m h' (some (calls, true)) next t u = after-Takes h m h' calls next t u

-- The state of the handle after a negotiation.
abbrev negotiated : ℤ → Handle
negotiated e = if e ==ℤ pos 0 then formatted else opened

get_format-negotiated : (e : ℤ) → use_handle opened (get_format e) ≡ some (negotiated e)
get_format-negotiated e = ground arith

sleep-negotiated :
    (e : ℤ) → use_all (some opened) (get_format e ∷ sleep_second ∷ []) ≡ some (negotiated e)
sleep-negotiated e = ground arith

below : (m k : ℕ) (errs : ℕ → ℤ) → m ≤ k → (errs m ==ℤ pos 0) ≡ false → errs k ≡ pos 0 → suc m ≤ k
below m k errs low fails ok =
    let differ : m ≢ k = λ e. cc (fails, (==ℤ_iff (errs m) (pos 0)).1 (ap errs e ∙ ok)) in
    omega (arith, low, differ)

negotiate_again-Takes :
    (fuel m k : ℕ) (errs : ℕ → ℤ)
    → m ≤ k
    → k ≤ m + fuel
    → errs k ≡ pos 0
    → Takes (negotiated (errs m)) formatted (negotiate_again fuel (suc m) (errs m) errs)
unfolding negotiate_again
negotiate_again-Takes zero m k errs low high ok =
    let same : m ≡ k = omega (arith, low, high) in
    let success : errs m ≡ pos 0 = ap errs same ∙ ok in rw (success, ==ℤ_refl (pos 0)) refl
negotiate_again-Takes (suc fuel) m k errs low high ok = elim (Bool-cases (errs m ==ℤ pos 0)) [
  | inl yes' ↦ rw yes' refl
  | inr no' ↦
      let more : suc m ≤ k = below m k errs low no' ok in
      let rest = negotiate_again-Takes fuel (suc m) k errs more (omega (arith, high)) ok in
      rw no' (
        after-Takes opened (negotiated (errs (suc m))) formatted
          (get_format (errs (suc m)) ∷ sleep_second ∷ []) _ (sleep-negotiated (errs (suc m))) rest)
]

negotiate-Takes :
    (fuel k : ℕ) (errs : ℕ → ℤ)
    → k ≤ fuel
    → errs k ≡ pos 0
    → Takes opened formatted (negotiate fuel errs)
negotiate-Takes fuel k errs high ok =
    after-Takes opened (negotiated (errs 0)) formatted (get_format (errs 0) ∷ []) _
      (get_format-negotiated (errs 0))
      (negotiate_again-Takes fuel 0 k errs (omega arith) (omega (arith, high)) ok)

-- A check after calls that take the handle to `m` exactly if it does not fail.
uvc_check-Takes :
    (e : ℤ) (h m h' : Handle) (calls : List UvcCall) (next : Option (List UvcCall × Bool))
    → use_all (some h) calls ≡ some (if negative e then h else m)
    → use_handle h abort ≡ some ended
    → Takes m h' next
    → Takes h h' (after calls (uvc_check e next))
uvc_check-Takes (pos n) h m h' calls next step end t = after-Takes h m h' calls next step t
uvc_check-Takes (negsuc n) h m h' calls next step end t =
    rw (use_all-append (some h) calls (abort ∷ []), step, end) refl

found :
    (e : ℤ)
    → use_all (some closed) (wait_connected ∷ find_device e ∷ [])
      ≡ some (if negative e then closed else closed)
found (pos n) = refl
found (negsuc n) = refl

-- One of the first `fuel + 1` negotiations succeeds.
abbrev pub Negotiates : ℕ → UvcAnswers → Type 0
Negotiates fuel a = (k : ℕ) × (k ≤ fuel) × (a.format_errs k ≡ pos 0)

main_loop_round-Takes :
    (fuel : ℕ) (a : UvcAnswers) → Negotiates fuel a → Takes closed closed (main_loop_round fuel a)
unfolding main_loop_round
main_loop_round-Takes fuel a (k, high, ok) =
    uvc_check-Takes a.find_err closed closed closed (wait_connected ∷ find_device a.find_err ∷ []) _
      (found a.find_err) refl
      (uvc_check-Takes a.open_err closed opened closed (open_device a.open_err ∷ []) _
        (ground arith) refl
        (after-Takes opened opened closed (set_button_callback ∷ []) _ refl (
          and_then-Takes opened formatted closed _ (streaming a)
            (negotiate-Takes fuel k a.format_errs high ok)
            (uvc_check-Takes a.start_err formatted playing closed
              (start_streaming a.start_err 512 ∷ []) _ (ground arith) refl refl))))

-- While the negotiation of each round succeeds in the end, every run of the loop comes to the end of
-- its rounds or of the program, having used the device handle in the order of libuvc: opened, given
-- a format, started, stopped and closed. It comes to the end of its rounds with the handle closed.
pub main_loop-Takes :
    (fuel : ℕ) (rounds : List UvcAnswers)
    → All (Negotiates fuel) rounds
    → Takes closed closed (main_loop fuel rounds)
unfolding main_loop
main_loop-Takes fuel [] h = refl
main_loop-Takes fuel (a ∷ rounds) (here, h) =
    and_then-Takes closed closed closed (main_loop_round fuel a) (main_loop fuel rounds)
      (main_loop_round-Takes fuel a here) (main_loop-Takes fuel rounds h)
