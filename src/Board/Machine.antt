-- ===== src/Board/Machine.antt =====
-- main/main.c with the devices: what a request, a round of a device's task, a round of the keep-alive
-- task, and the opening or closing of a socket do to the board.
use gateway_esp.Prelude.{ℕ, Bool, List, [], ◌∷◌, ◌++◌, map, Option, none, some, ℤ}
use gateway_esp.Rtos.{Fifo}
use gateway_esp.KeepAlive.Defs.{ClientFdAction, Callback}
use gateway_esp.KeepAlive.Engine.{Storage, task_round}
use gateway_esp.Clients.Defs.{
  Clients, Device, camera, printer, barcode_scanner, trigger, relay, led,
}
use gateway_esp.Server.Defs.{Gateway, Features, Request, Received, Effect, handle_command}
use gateway_esp.Server.Handler.{ws_handler, wss_open_fd, wss_close_fd, callback_effects}
use gateway_esp.Server.Broadcast.{device_cb}
use gateway_esp.Devices.Json.{Cjson, Call, callback}
use gateway_esp.Devices.Relay.{DeviceStatus, Relay, RelayConfig, relay_handle_command}
use gateway_esp.Devices.Trigger.{Trigger, trigger_handle_command, trigger_round}
use gateway_esp.Devices.Scanner.{barcode_handle_command, scanner_round}
use gateway_esp.Devices.Led.{led_handle_command}
use gateway_esp.Printer.Status.{Cause}
use gateway_esp.Printer.Job.{Outcome, ended, crashed, followed_by}
use gateway_esp.Printer.Handler.{EscCall, json_call, Esc, Surroundings, esc_handle_command}

-- The static state of the program: the server's tables and keep-alive storage, and the devices'.
pub record Board (Q : Type 0) : Type 0 where
  pub gateway : Gateway Q
  pub esc : Esc
  pub relay_state_of : Relay
  pub trigger_of : Trigger
  pub barcode_status : DeviceStatus
  pub led_status_of : DeviceStatus

-- What the board does: calls of the server, of a device's libraries and drivers, and of the printer.
pub data Action : Type 0 where
  server : Effect → Action
  device : Device → Call → Action
  printer_call : EscCall → Action

abbrev pub and_actions : List Action → Outcome (List Action) → Outcome (List Action)
and_actions first rest = followed_by rest (λ more. ended (first ++ more))

-- A call of a device. The callback is `device_cb`, which takes the length of its message first and so
-- reads through NULL if `cJSON_Print` had no memory.
abbrev pub call_actions : Clients → Device → Call → Outcome (List Action)
call_actions g d (callback none handle fd) = crashed
call_actions g d (callback (some mes) handle fd) = ended (map server (device_cb g mes handle fd))
call_actions g d c = ended (device d c ∷ [])

unfoldable pub perform_calls : Clients → Device → List Call → Outcome (List Action)
perform_calls g d [] = ended []
perform_calls g d (c ∷ cs) =
    let rest = perform_calls g d cs in
    followed_by (call_actions g d c) (λ now. and_actions now rest)

abbrev pub esc_call_actions : Clients → EscCall → Outcome (List Action)
esc_call_actions g (json_call c) = call_actions g printer c
esc_call_actions g c = ended (printer_call c ∷ [])

unfoldable pub perform_esc_calls : Clients → List EscCall → Outcome (List Action)
perform_esc_calls g [] = ended []
perform_esc_calls g (c ∷ cs) =
    let rest = perform_esc_calls g cs in
    followed_by (esc_call_actions g c) (λ now. and_actions now rest)

-- A text that is NULL: `cJSON_Parse` makes nothing of it, as of the empty text.
abbrev pub text_of : Option (List ℕ) → List ℕ
text_of none = []
text_of (some text) = text

module _ (esp_timer : ℕ → ℕ) (fifo : Fifo ClientFdAction) (f : Features) (j : Cjson)
    (base64_decode : List ℕ → List ℕ → List ℕ) (fuel : ℕ) (cause_text : Cause → List ℕ)
    (cfg : RelayConfig) where
  open fifo use {Queue}

  -- A command handler, called by `ws_handler`. `w` tells what cJSON and the printer do.
  unfoldable pub device_command :
      Device
      → Option (List ℕ)
      → ℕ
      → ℤ
      → Surroundings
      → Board Queue
      → Outcome (Board Queue × List Action)
  device_command camera payload handle fd w b = ended (b, [])
  device_command printer payload handle fd w b =
      followed_by
        (esc_handle_command j base64_decode fuel cause_text (text_of payload) w handle fd b.esc)
        (λ out.
          followed_by (perform_esc_calls b.gateway.clients out.1)
            (λ actions. ended (record b { esc = out.0 }, actions)))
  device_command barcode_scanner payload handle fd w b =
      followed_by
        (perform_calls b.gateway.clients barcode_scanner (
          barcode_handle_command j (text_of payload) w.made.object w.made.first w.made.second handle
            fd b.barcode_status))
        (λ actions. ended (b, actions))
  device_command trigger payload handle fd w b =
      followed_by
        (perform_calls b.gateway.clients trigger (
          trigger_handle_command j (text_of payload) w.made.object w.made.first w.made.second handle
            fd b.trigger_of))
        (λ actions. ended (b, actions))
  device_command relay payload handle fd w b =
      let (r, calls) =
        relay_handle_command j cfg (text_of payload) w.made handle fd b.relay_state_of in
      followed_by (perform_calls b.gateway.clients relay calls)
        (λ actions. ended (record b { relay_state_of = r }, actions))
  device_command led payload handle fd w b =
      followed_by
        (perform_calls b.gateway.clients led (
          led_handle_command j (text_of payload) w.made.object w.made.first w.made.second handle fd
            b.led_status_of))
        (λ actions. ended (b, actions))

  abbrev pub effect_actions :
      Effect → Surroundings → Board Queue → Outcome (Board Queue × List Action)
  effect_actions (handle_command d payload handle fd) w b = device_command d payload handle fd w b
  effect_actions e w b = ended (b, server e ∷ [])

  -- The calls of a handler of the server, in order.
  unfoldable pub perform_effects :
      List Effect → Surroundings → Board Queue → Outcome (Board Queue × List Action)
  perform_effects [] w b = ended (b, [])
  perform_effects (e ∷ es) w b =
      followed_by (effect_actions e w b)
        (λ now. followed_by (perform_effects es w now.0) (λ rest. ended (rest.0, now.1 ++ rest.1)))

  unfoldable pub board_request :
      Request → Received → Surroundings → ℕ → Board Queue → Outcome (Board Queue × List Action)
  board_request req r w n b =
      let (err, g, out) = ws_handler esp_timer fifo f req r b.gateway n in
      perform_effects out w (record b { gateway = g })

  -- A round of `triggerTask`; the Boolean of `trigger_round` tells whether the task goes on.
  unfoldable pub board_trigger :
      Bool → Bool → Bool → Bool → Board Queue → Outcome (Board Queue × List Action)
  board_trigger level again object made b =
      let (t, calls, on) = trigger_round j level again object made b.trigger_of in
      followed_by (perform_calls b.gateway.clients trigger calls)
        (λ actions. ended (record b { trigger_of = t }, actions))

  -- A round of `barcodeScannerTask`.
  unfoldable pub board_scanner :
      ℤ → List ℕ → Bool → Bool → Bool → Board Queue → Outcome (Board Queue × List Action)
  board_scanner len bytes object first second b =
      let (calls, on) = scanner_round j len bytes object first second in
      followed_by (perform_calls b.gateway.clients barcode_scanner calls)
        (λ actions. ended (b, actions))

  abbrev callbacks_actions : Storage Queue → Bool → List Callback → List Action
  callbacks_actions h queued [] = []
  callbacks_actions h queued (c ∷ cs) =
      map server (callback_effects h queued c) ++ callbacks_actions h queued cs

  -- A round of `keep_alive_task`; `queued` tells whether the server takes the pings.
  unfoldable pub board_keep_alive : Bool → ℕ → Board Queue → Board Queue × List Action
  board_keep_alive queued n b =
      let (h, callbacks, on, n') = task_round esp_timer fifo b.gateway.keep_alive n in
      (
        record b { gateway = record (b.gateway) { keep_alive = h } },
        callbacks_actions h queued callbacks,
      )

  unfoldable pub board_open : ℤ → Board Queue → Board Queue
  board_open fd b = record b { gateway = (wss_open_fd esp_timer fifo f fd b.gateway).1 }

  unfoldable pub board_close : ℤ → Board Queue → Board Queue × List Action
  board_close fd b =
      let (g, out) = wss_close_fd esp_timer fifo f fd b.gateway in
      (record b { gateway = g }, map server out)
