-- ===== src/Server/Handler.antt =====
-- main/main.c: ws_handler, and the functions that the HTTP server calls when a socket opens or
-- closes and that the keep-alive task calls.
use gateway_esp.Prelude.{
  ℕ, Bool, false, List, [], ◌∷◌, ◌++◌, Option, none, some, ◌&&◌, ◌==◌, if◌then◌else◌, ℤ, pos,
  negsuc,
}
use gateway_esp.Rtos.{Fifo}
use gateway_esp.Esp.{EspErr, esp_ok, esp_err_no_mem, FrameType, text, close, ping, pong}
use gateway_esp.KeepAlive.Defs.{
  ClientFdAction, Callback, client_not_alive_cb, check_client_alive_cb,
}
use gateway_esp.KeepAlive.Engine.{
  Storage, wss_keep_alive_add_client, wss_keep_alive_remove_client, wss_keep_alive_client_is_active,
  wss_keep_alive_get_user_ctx,
}
use gateway_esp.Clients.Defs.{
  Device, camera, printer, barcode_scanner, trigger, relay, led, Clients, table, put_table,
  max_client_num, value_in_array, take_slot, close_loop, close_fd_order, close_frame_order,
}
use gateway_esp.Server.Uri.{scan_device}
use gateway_esp.Server.Defs.{
  Gateway, Features, Request, Received, Effect, calloc_buf, free_buf, handle_command, send_pong,
  close_socket, trigger_close, send_ping,
}

-- The `switch (deviceNumber)` of a handshake.
abbrev pub device_of_number : ℤ → Option Device
device_of_number (negsuc n) = none
device_of_number (pos n) =
    if n == 1
    then some printer
    else (if n == 2
        then some barcode_scanner
        else (if n == 3
            then some led
            else (if n == 4 then some trigger else (if n == 5 then some relay else none))))

abbrev pub register : Option Device → ℕ → ℤ → Clients → Clients
register none handle sockfd g = g
register (some d) handle sockfd g = put_table g d (take_slot (table g d) handle sockfd).0

unfoldable pub handshake : Request → Clients → Clients
handshake req g = register (device_of_number (scan_device req.uri)) req.handle req.sockfd g

abbrev pub has_device : Features → Device → Bool
has_device f camera = false
has_device f printer = f.esc_printer
has_device f barcode_scanner = f.barcode
has_device f led = f.led_matrix
has_device f trigger = f.trigger
has_device f relay = f.relay

-- One `if(valueinarray(…)) …HandleCommand(…)` of a text frame.
unfoldable pub text_command : Features → Clients → Request → Option (List ℕ) → Device → List Effect
text_command f g req payload d =
    if has_device f d && value_in_array req.sockfd (table g d) 0 max_client_num
    then handle_command d payload req.handle req.sockfd ∷ []
    else []

unfoldable pub text_commands : Features → Clients → Request → Option (List ℕ) → List Effect
text_commands f g req payload =
    text_command f g req payload printer
    ++ (text_command f g req payload barcode_scanner
        ++ (text_command f g req payload led
            ++ (text_command f g req payload trigger ++ text_command f g req payload relay)))

-- `free(buf)`: freeing NULL does nothing.
abbrev pub free_if : Option (List ℕ) → List Effect
free_if none = []
free_if (some payload) = free_buf ∷ []

module _ (esp_timer : ℕ → ℕ) (fifo : Fifo ClientFdAction) (f : Features) where
  open fifo use {Queue}

  -- The `switch (ws_pkt.type)`; `buf` is what was read, or NULL.
  unfoldable pub handle_frame :
      FrameType
      → Request
      → Received
      → Option (List ℕ)
      → Gateway Queue
      → ℕ
      → EspErr × Gateway Queue × List Effect
  handle_frame close req r buf g n = (
    esp_ok,
    record g { clients = close_loop close_frame_order max_client_num 0 req.sockfd g.clients },
    free_if buf,
  )
  handle_frame text req r buf g n = (esp_ok, g, text_commands f g.clients req buf ++ free_if buf)
  handle_frame ping req r buf g n = (esp_ok, g, send_pong r.final r.fragmented ∷ free_if buf)
  handle_frame pong req r buf g n =
      let (err, h) = wss_keep_alive_client_is_active esp_timer fifo g.keep_alive req.sockfd n in
      (err, record g { keep_alive = h }, free_if buf)
  handle_frame _ req r buf g n = (esp_ok, g, free_if buf)

  abbrev after_payload :
      EspErr → Request → Received → Gateway Queue → ℕ → EspErr × Gateway Queue × List Effect
  after_payload esp_ok req r g n =
      let (err, g', out) = handle_frame r.type req r (some r.payload) g n in
      (err, g', calloc_buf ∷ out)
  after_payload e req r g n = (e, g, calloc_buf ∷ free_buf ∷ [])

  abbrev after_length :
      EspErr → Request → Received → Gateway Queue → ℕ → EspErr × Gateway Queue × List Effect
  after_length esp_ok req r g n =
      if r.len == 0
      then handle_frame r.type req r none g n
      else (if r.allocated then after_payload r.payload_err req r g n else (esp_err_no_mem, g, []))
  after_length e req r g n = (e, g, [])

  unfoldable pub ws_handler :
      Request → Received → Gateway Queue → ℕ → EspErr × Gateway Queue × List Effect
  ws_handler req r g n =
      if req.is_get
      then (esp_ok, record g { clients = handshake req g.clients }, [])
      else after_length r.len_err req r g n

  unfoldable pub wss_open_fd : ℤ → Gateway Queue → EspErr × Gateway Queue
  wss_open_fd sockfd g =
      let (err, h) = wss_keep_alive_add_client esp_timer fifo g.keep_alive sockfd in
      (err, record g { keep_alive = h })

  -- The result of `wss_keep_alive_remove_client` is not looked at.
  unfoldable pub wss_close_fd : ℤ → Gateway Queue → Gateway Queue × List Effect
  wss_close_fd sockfd g =
      let (err, h) = wss_keep_alive_remove_client esp_timer fifo g.keep_alive sockfd in
      (
        record g {
          clients = close_loop close_fd_order max_client_num 0 sockfd g.clients;
          keep_alive = h;
        },
        close_socket sockfd ∷ [],
      )

-- `client_not_alive_cb`, and `check_client_alive_cb` with the `send_ping` that it queues, if the
-- server takes the work (`queued`).
unfoldable pub callback_effects : {Q : Type 0} → Storage Q → Bool → Callback → List Effect
callback_effects h queued (client_not_alive_cb fd) =
    trigger_close (wss_keep_alive_get_user_ctx h) fd ∷ []
callback_effects h queued (check_client_alive_cb fd) =
    if queued then send_ping (wss_keep_alive_get_user_ctx h) fd ∷ [] else []
