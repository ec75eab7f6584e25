-- ===== src/Camera/Stream.antt =====
-- main/camera/usb_camera.c: ws_send, frame_callback and sender_task, which carry the frames of the
-- camera through a ring buffer to the clients.
use gateway_esp.Prelude.{
  ℕ, zero, suc, ◌+◌, ◌%◌, ◌^◌, Bool, true, false, not, List, [], ◌∷◌, ◌++◌, Option, none, some,
  get_elem?, length, if◌then◌else◌, ltb, ◌==◌, ℤ, minus_one, ◌==ℤ◌,
}
use gateway_esp.Esp.{EspErr, esp_ok, esp_fail}
use gateway_esp.Rtos.{ByteRing}
use gateway_esp.Clients.Defs.{ConnectedClient}

-- The calls: `xRingbufferSend` with its result, the log line of the counters,
-- `httpd_ws_send_data`, and `vRingbufferReturnItem`.
pub data StreamCall : Type 0 where
  ring_send : List ℕ → Bool → StreamCall
  log_rate : ℕ → ℕ → StreamCall
  ws_send_data : Option ℕ → ℤ → List ℕ → StreamCall
  ring_return : List ℕ → StreamCall

-- `clients[i].fd != -1`.
abbrev pub is_connected : Option ConnectedClient → Bool
is_connected none = false
is_connected (some c) = not (c.fd ==ℤ minus_one)

-- The static variables of `frame_callback`, and the ring buffer.
pub record Camera (Ring : Type 0) : Type 0 where
  pub frame_buffer : Ring
  pub fps : ℕ
  pub bytes_per_second : ℕ
  pub start_time : ℕ

-- The counters are of type `size_t`, 32 bits wide.
abbrev pub add32 : ℕ → ℕ → ℕ
add32 a b = (a + b) % 2 ^ 32

abbrev start_window : ℕ → ℕ → ℕ
start_window now start = if start == 0 then now else start

-- One event of the two tasks: a frame that arrives at a time, or a round of `sender_task`, each
-- with the table of clients at that moment.
pub data StreamEvent : Type 0 where
  frame : ℕ → List ℕ → List ConnectedClient → StreamEvent
  sender : List ConnectedClient → StreamEvent

-- The loop of `sender_task` over the clients, from entry `i`, with `k` left.
unfoldable pub send_frames : List ConnectedClient → List ℕ → ℕ → ℕ → List StreamCall
send_frames clients payload zero i = []
send_frames clients payload (suc k) i =
    let rest = send_frames clients payload k (suc i) in
    elim (get_elem? clients i) [
      | some c ↦ if c.fd ==ℤ minus_one then rest else ws_send_data c.hd c.fd payload ∷ rest
      | none ↦ rest
    ]

-- The table of clients at the moment of an event.
abbrev pub clients_of : StreamEvent → List ConnectedClient
clients_of (frame now payload clients) = clients
clients_of (sender clients) = clients

module _ (b : ByteRing) where
  abbrev pub ring_sent : b.Ring → List ℕ → Option b.Ring → EspErr × b.Ring × List StreamCall
  ring_sent ring payload none = (esp_fail, ring, ring_send payload false ∷ [])
  ring_sent ring payload (some ring') = (esp_ok, ring', ring_send payload true ∷ [])

  -- The loop of `ws_send` from entry `i`, with `k` left.
  unfoldable pub ws_send_loop :
      List ConnectedClient → List ℕ → b.Ring → ℕ → ℕ → EspErr × b.Ring × List StreamCall
  ws_send_loop clients payload ring zero i = (esp_ok, ring, [])
  ws_send_loop clients payload ring (suc k) i =
      let rest = ws_send_loop clients payload ring k (suc i) in
      if is_connected (get_elem? clients i)
      then ring_sent ring payload (b.send ring payload)
      else rest

  unfoldable pub ws_send :
      List ConnectedClient → List ℕ → b.Ring → EspErr × b.Ring × List StreamCall
  ws_send clients payload ring = ws_send_loop clients payload ring 3 0

  -- The counters at a frame of `size` bytes, and the log line at the end of a second.
  unfoldable pub count_frame : ℕ → ℕ → Camera b.Ring → Camera b.Ring × List StreamCall
  count_frame now size c =
      let bytes = add32 c.bytes_per_second size in
      let frames = add32 c.fps 1 in
      let start = start_window now c.start_time in
      if ltb (start + 1000000) now
      then (
        record c { start_time = now; bytes_per_second = 0; fps = 0 },
        log_rate frames bytes ∷ [],
      )
      else (record c { start_time = start; bytes_per_second = bytes; fps = frames }, [])

  unfoldable pub frame_callback :
      ℕ → List ℕ → List ConnectedClient → Camera b.Ring → Camera b.Ring × List StreamCall
  frame_callback now payload clients c =
      let counted = count_frame now (length payload) c in
      let sent = ws_send clients payload c.frame_buffer in
      (record (counted.0) { frame_buffer = sent.1 }, counted.1 ++ sent.2)

  abbrev forward :
      List ConnectedClient → b.Ring → Option (List ℕ × b.Ring) → b.Ring × List StreamCall
  forward clients ring none = (ring, [])
  forward clients ring (some (payload, ring')) =
      (b.return_item ring' payload, send_frames clients payload 3 0 ++ (ring_return payload ∷ []))

  -- One round of the loop of `sender_task`.
  unfoldable pub sender_round : List ConnectedClient → b.Ring → b.Ring × List StreamCall
  sender_round clients ring = forward clients ring (b.receive_up_to 20000 ring)

  unfoldable pub stream_step : StreamEvent → Camera b.Ring → Camera b.Ring × List StreamCall
  stream_step (frame now payload clients) c = frame_callback now payload clients c
  stream_step (sender clients) c =
      let round = sender_round clients c.frame_buffer in
      (record c { frame_buffer = round.0 }, round.1)

  -- The two tasks, in any interleaving.
  unfoldable pub stream_run : List StreamEvent → Camera b.Ring → Camera b.Ring × List StreamCall
  stream_run [] c = (c, [])
  stream_run (e ∷ es) c =
      let first = stream_step e c in let rest = stream_run es first.0 in (rest.0, first.1 ++ rest.1)
