-- ===== src/Camera/Start.antt =====
-- main/camera/usb_camera.c: initCamera.
use gateway_esp.Prelude.{
  ℕ, ◌≡◌, Bool, true, false, List, [], ◌∷◌, ◌++◌, if◌then◌else◌, ◌↔◌, ℤ, pos, negsuc, arith,
}
use gateway_esp.Esp.{EspErr, esp_ok}
use gateway_esp.Camera.Usb.{HostCall, HostAnswers, initialize_usb_host_lib}

-- The calls of `initCamera`, with what they return.
pub data StartCall : Type 0 where
  create_event_group : Bool → StartCall
  gpio_config : EspErr → StartCall
  host : HostCall → StartCall
  adapter_set_config : StartCall
  uvc_init : ℤ → StartCall
  ring_create : ℕ → Bool → StartCall
  create_sender_task create_main_loop : Bool → StartCall

pub record StartAnswers : Type 0 where
  pub event_group : Bool
  pub gpio_err : EspErr
  pub host_answers : HostAnswers
  pub init_err : ℤ
  pub ring_made : Bool
  pub sender_made : Bool
  pub main_loop_made : Bool

abbrev host_calls : List HostCall → List StartCall
host_calls [] = []
host_calls (c ∷ cs) = host c ∷ host_calls cs

-- Calls, and then others; the Boolean is whether the program goes on.
abbrev calls_then : List StartCall → List StartCall × Bool → List StartCall × Bool
calls_then calls next = (calls ++ next.0, next.1)

-- ESP_ERROR_CHECK, and UVC_CHECK.
abbrev esp_error_check : EspErr → List StartCall × Bool → List StartCall × Bool
esp_error_check esp_ok next = next
esp_error_check _ next = ([], false)

abbrev uvc_error_check : ℤ → List StartCall × Bool → List StartCall × Bool
uvc_error_check (pos n) next = next
uvc_error_check (negsuc n) next = ([], false)

-- A ring buffer or a task that is not made is logged, and nothing else.
abbrev start_tasks : StartAnswers → List StartCall
start_tasks a =
    ring_create 100000 a.ring_made
    ∷ create_sender_task a.sender_made
    ∷ create_main_loop a.main_loop_made
    ∷ []

unfoldable pub init_camera : StartAnswers → List StartCall × Bool
init_camera a =
    let (err, calls) = initialize_usb_host_lib a.host_answers in
    let uvc =
      calls_then (adapter_set_config ∷ uvc_init a.init_err ∷ [])
        (uvc_error_check a.init_err (start_tasks a, true)) in
    let hosted = calls_then (host_calls calls) (esp_error_check err uvc) in
    let pins = calls_then (gpio_config a.gpio_err ∷ []) (esp_error_check a.gpio_err hosted) in
    calls_then (create_event_group a.event_group ∷ []) (if a.event_group then pins else ([], false))

abbrev pub negative : ℤ → Bool
negative (pos n) = false
negative (negsuc n) = true

-- The calls create the two tasks.
abbrev pub StartsTasks : List StartCall → Type 0
StartsTasks [] = ⊥
StartsTasks (create_sender_task m ∷ create_main_loop n ∷ []) = Unit
StartsTasks (c ∷ cs) = StartsTasks cs

-- The camera's start goes on exactly if the event group is made and the pin, the USB host and libuvc
-- start without an error, and creates its two tasks exactly then, whether or not the ring buffer
-- was made.
pub init_camera-StartsTasks :
    (a : StartAnswers)
    → let (calls, goes_on) = init_camera a in
      ((goes_on ≡ true) ↔ (
        (a.event_group ≡ true)
        × (a.gpio_err ≡ esp_ok)
        × ((initialize_usb_host_lib a.host_answers).0 ≡ esp_ok)
        × (negative a.init_err ≡ false)))
      × (StartsTasks calls ↔ (goes_on ≡ true))
unfolding init_camera initialize_usb_host_lib
init_camera-StartsTasks a = ground arith
