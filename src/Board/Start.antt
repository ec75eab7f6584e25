-- ===== src/Board/Start.antt =====
-- main/main.c, app_main: the start of the program.
use gateway_esp.Prelude.{
  ℕ, Bool, true, false, List, [], ◌∷◌, ◌++◌, Option, none, some, if◌then◌else◌, ◌&&◌,
}
use gateway_esp.Rtos.{Fifo}
use gateway_esp.KeepAlive.Defs.{ClientFdAction}
use gateway_esp.KeepAlive.Engine.{Storage}
use gateway_esp.Clients.Defs.{trigger, Clients, Device, barcode_scanner, relay, led, init_clients}
use gateway_esp.Server.Defs.{Features}
use gateway_esp.Server.Start.{Started, start_webserver}
use gateway_esp.Devices.Json.{Call}
use gateway_esp.Devices.Relay.{DeviceStatus, Relay, RelayConfig, init_relay}
use gateway_esp.Devices.Trigger.{Trigger, init_trigger}
use gateway_esp.Devices.Scanner.{init_barcode_scanner}
use gateway_esp.Devices.Led.{init_led_device}
use gateway_esp.Printer.Handler.{Esc}
use gateway_esp.Camera.Start.{StartCall, StartAnswers, init_camera}
use gateway_esp.Board.Machine.{Board}

-- The network that the configuration chooses.
pub data Network : Type 0 where
  wifi ethernet : Network

-- What `nvs_flash_init` returns: ESP_OK, one of the two errors after which the flash is erased, or
-- another error.
pub data NvsErr : Type 0 where
  nvs_ok nvs_no_free_pages nvs_new_version nvs_fail : NvsErr

-- The calls of `app_main`, with those of the devices' `init…` functions.
pub data StartupCall : Type 0 where
  reset_pin_config : StartupCall
  gpio_set_level : ℕ → ℕ → StartupCall
  create_soft_wd create_restart_daily : StartupCall
  device_init : Device → Call → StartupCall
  create_printer_tasks : StartupCall
  nvs_flash_init nvs_flash_erase : StartupCall
  wifi_init_sta ethernet_connect : StartupCall
  camera_init : StartCall → StartupCall

-- What the calls come to. `network_up` tells whether the set-up of the network ends, with no error that
-- is checked.
pub record StartupAnswers : Type 0 where
  pub uart_installed : Bool
  pub led_installed : Bool
  pub nvs : NvsErr
  pub erased : Bool
  pub nvs_again : NvsErr
  pub network_up : Bool
  pub allocated : Bool
  pub queue_made : Bool
  pub task_created : Bool
  pub http_started : Option ℕ
  pub camera : StartAnswers

-- The static variables.
pub record Statics : Type 0 where
  pub clients : Clients
  pub esc : Esc
  pub relay_of : Relay
  pub trigger_of : Trigger
  pub barcode_status : DeviceStatus
  pub led_status : DeviceStatus

-- How `app_main` ends: in an abort or a wait in one of its calls, in an access through NULL or at
-- a NULL queue, with no HTTP server, or with one.
pub data Startup (Q : Type 0) : Type 0 where
  stopped crashed : Startup Q
  no_server : Statics → List StartupCall → Startup Q
  up : Board Q → ℕ → List StartupCall → Startup Q

-- The variables and calls so far, or none after an abort.
abbrev pub Progress : Type 0
Progress = Option (Statics × List StartupCall)

abbrev pub then_do : Progress → (Statics → Progress) → Progress
then_do none f = none
then_do (some (s, calls)) f = elim (f s) [
  | none ↦ none
  | some (s', more) ↦ some (s', calls ++ more)
]

abbrev pub device_calls : Device → List Call → List StartupCall
device_calls d [] = []
device_calls d (c ∷ cs) = device_init d c ∷ device_calls d cs

abbrev pub with_barcode : Statics → Option (DeviceStatus × List Call) → Progress
with_barcode s none = none
with_barcode s (some (status, calls)) =
    some (record s { barcode_status = status }, device_calls barcode_scanner calls)

abbrev pub with_led : Statics → Option (DeviceStatus × List Call) → Progress
with_led s none = none
with_led s (some (status, calls)) = some (record s { led_status = status }, device_calls led calls)

abbrev pub start_scanner : Features → StartupAnswers → Statics → Progress
start_scanner f a s =
    if f.barcode then with_barcode s (init_barcode_scanner a.uart_installed) else some (s, [])

abbrev pub start_printer : Features → Statics → Progress
start_printer f s = some (s, (if f.esc_printer then create_printer_tasks ∷ [] else []))

abbrev pub start_trigger : Features → Statics → Progress
start_trigger f s =
    let (t, calls) = init_trigger s.trigger_of in
    some (if f.trigger then (record s { trigger_of = t }, device_calls trigger calls) else (s, []))

abbrev pub start_relay : Features → RelayConfig → Statics → Progress
start_relay f cfg s =
    let r = init_relay cfg s.relay_of in
    if f.relay then some (record s { relay_of = r.0 }, device_calls relay r.1) else some (s, [])

abbrev pub start_led : Features → StartupAnswers → Statics → Progress
start_led f a s =
    if f.led_matrix then with_led s (init_led_device a.led_installed) else some (s, [])

-- The devices of the build, in the order of the source; the scanner is that of a build without Wiegand.
unfoldable pub init_devices : Features → RelayConfig → StartupAnswers → Statics → Progress
init_devices f cfg a s =
    then_do
      (then_do (then_do (then_do (start_scanner f a s) (start_printer f)) (start_trigger f))
        (start_relay f cfg))
      (start_led f a)

-- `nvs_flash_init`, once more after an erasure: the calls, and whether the program goes on.
unfoldable pub init_nvs : NvsErr → Bool → NvsErr → List StartupCall × Bool
init_nvs nvs_ok erased again = (nvs_flash_init ∷ [], true)
init_nvs nvs_fail erased again = (nvs_flash_init ∷ [], false)
init_nvs _ false again = (nvs_flash_init ∷ nvs_flash_erase ∷ [], false)
init_nvs _ true nvs_ok = (nvs_flash_init ∷ nvs_flash_erase ∷ nvs_flash_init ∷ [], true)
init_nvs _ true again = (nvs_flash_init ∷ nvs_flash_erase ∷ nvs_flash_init ∷ [], false)

-- With Ethernet the first error ends the program.
unfoldable pub init_network : Network → StartupAnswers → Statics → Progress
init_network wifi a s =
    let (calls, ready) = init_nvs a.nvs a.erased a.nvs_again in
    if ready && a.network_up then some (s, calls ++ (wifi_init_sta ∷ [])) else none
init_network ethernet a s = elim a.nvs [
  | nvs_ok ↦ if a.network_up then some (s, nvs_flash_init ∷ ethernet_connect ∷ []) else none
  | _ ↦ none
]

abbrev pub first_calls : List StartupCall
first_calls = reset_pin_config ∷ gpio_set_level 46 1 ∷ create_soft_wd ∷ []

abbrev pub fill_tables : Statics → Progress
fill_tables s = some (record s { clients = init_clients s.clients }, [])

-- `app_main` up to `start_webserver`.
unfoldable pub before_server :
    Features → RelayConfig → Network → StartupAnswers → Statics → Progress
before_server f cfg network a s =
    then_do (then_do (then_do (some (s, first_calls)) (init_devices f cfg a)) fill_tables)
      (init_network network a)

abbrev camera_calls : List StartCall → List StartupCall
camera_calls [] = []
camera_calls (c ∷ cs) = camera_init c ∷ camera_calls cs

-- What follows `start_webserver`: the task, and the camera if the build has one.
abbrev pub after_server : Bool → StartAnswers → List StartupCall × Bool
after_server has_camera a =
    let (calls, goes_on) = init_camera a in
    if has_camera
    then (create_restart_daily ∷ camera_calls calls, goes_on)
    else (create_restart_daily ∷ [], true)

abbrev pub board_of : {Q : Type 0} → Statics → Storage Q → Board Q
board_of s h = record {
  gateway = record { clients = s.clients; keep_alive = h };
  esc = s.esc;
  relay_state_of = s.relay_of;
  trigger_of = s.trigger_of;
  barcode_status = s.barcode_status;
  led_status_of = s.led_status;
}

abbrev with_server :
    {Q : Type 0} → Statics → List StartupCall → Option ℕ → Option (Storage Q) → Startup Q
with_server s calls none keep_alive = no_server s calls
with_server s calls (some server) none = crashed
with_server s calls (some server) (some h) = up (board_of s h) server calls

abbrev pub started_with :
    {Q : Type 0}
    → Statics
    → List StartupCall
    → List StartupCall × Bool
    → Option (Started Q)
    → Startup Q
started_with s calls rest none = crashed
started_with s calls rest (some st) =
    if rest.1 then with_server s (calls ++ rest.0) st.server st.keep_alive else stopped

module _ (esp_timer : ℕ → ℕ) (fifo : Fifo ClientFdAction) where
  open fifo use {Queue}

  abbrev pub serve : Bool → StartupAnswers → Progress → Startup Queue
  serve has_camera a none = stopped
  serve has_camera a (some (s, calls)) =
      started_with s calls (after_server has_camera a.camera)
        (start_webserver esp_timer fifo a.allocated a.queue_made a.task_created a.http_started)

  unfoldable pub app_main :
      Features → RelayConfig → Network → Bool → StartupAnswers → Statics → Startup Queue
  app_main f cfg network has_camera a s = serve has_camera a (before_server f cfg network a s)
