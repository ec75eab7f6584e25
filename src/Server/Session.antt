-- ===== src/Server/Session.antt =====
-- main/main.c: what a client of the server can rely on from handshake to close.
use gateway_esp.Prelude.{
  ℕ, suc, ◌≤◌, ◌≡◌, refl, true, false, List, [], ◌∷◌, ◌++◌, some, if◌then◌else◌, ◌≢◌, ap, ◌∙◌, ◌==◌,
  map, Has, ℤ, minus_one, arith,
}
use gateway_esp.Clients.Defs.{
  Clients, Device, camera, table, put_table, take_slot, value_in_array, close_loop,
  close_frame_order, close_fd_order,
}
use gateway_esp.Clients.Register.{count_fd, value_in_array-six}
use gateway_esp.Clients.Close.{HeldOnce, forget, close_loop_lem}
use gateway_esp.Clients.Held.{
  SixEach, HeldNowhere, held_by_device, held_by_no_other, count-forget, length-forget,
}
use gateway_esp.Server.Uri.{scan_device}
use gateway_esp.Rtos.{Fifo}
use gateway_esp.Esp.{EspErr, esp_ok, FrameType, text, close}
use gateway_esp.KeepAlive.Defs.{ClientFdAction}
use gateway_esp.KeepAlive.Engine.{wss_keep_alive_remove_client}
use gateway_esp.Server.Defs.{
  Gateway, Features, Request, Received, Effect, calloc_buf, free_buf, handle_command, close_socket,
}
use gateway_esp.Server.Commands.{text_commands-none, text_commands-one, device_of_number-ne-camera}
use gateway_esp.Server.Handler.{
  ws_handler, handshake, device_of_number, has_device, wss_close_fd, handle_frame, text_command,
  text_commands,
}

-- How many of the calls allocate, and how many free, the buffer.
abbrev pub callocs : List Effect → ℕ
callocs [] = 0
callocs (calloc_buf ∷ es) = suc (callocs es)
callocs (e ∷ es) = callocs es

abbrev pub frees : List Effect → ℕ
frees [] = 0
frees (free_buf ∷ es) = suc (frees es)
frees (e ∷ es) = frees es

-- A frame that is read whole, with a payload.
pub record IsRead (r : Received) (t : FrameType) : Type 0 where
  pub type : r.type ≡ t
  pub length_ok : r.len_err ≡ esp_ok
  pub nonempty : r.len ≢ 0
  pub allocated : r.allocated ≡ true
  pub payload_ok : r.payload_err ≡ esp_ok

module _ (esp_timer : ℕ → ℕ) (fifo : Fifo ClientFdAction) (f : Features) where
  open fifo use {Queue}

  -- Every path through the handler frees the buffer as often as it allocates it, at most once.
  pub ws_handler-frees :
      (req : Request) (r : Received) (g : Gateway Queue) (n : ℕ)
      → let out = (ws_handler esp_timer fifo f req r g n).2 in
        (frees out ≡ callocs out) × (callocs out ≤ 1)
  unfolding ws_handler handle_frame text_commands text_command
  ws_handler-frees req r g n = ground arith

  -- A text frame that is read whole is handed to the commands of the tables that hold its socket,
  -- between the allocation and the release of the buffer, and changes nothing.
  pub text_frame :
      (req : Request) (r : Received) (g : Gateway Queue) (n : ℕ)
      → req.is_get ≡ false
      → IsRead r text
      → ws_handler esp_timer fifo f req r g n ≡ (
        esp_ok,
        g,
        calloc_buf ∷ (text_commands f g.clients req (some r.payload) ++ (free_buf ∷ [])),
      )
  unfolding ws_handler handle_frame
  text_frame req r g n frame read = ground arith

  pub handshake_state :
      (req : Request) (r : Received) (g : Gateway Queue) (n : ℕ) (d : Device)
      → req.is_get ≡ true
      → device_of_number (scan_device req.uri) ≡ some d
      → (ws_handler esp_timer fifo f req r g n).1 ≡ record g {
        clients = put_table g.clients d (take_slot (table g.clients d) req.handle req.sockfd).0;
      }
  unfolding ws_handler handshake
  handshake_state req r g n d get path = rw (get, path) refl

  close_state :
      (req : Request) (r : Received) (g : Gateway Queue) (n : ℕ)
      → req.is_get ≡ false
      → IsRead r close
      → (ws_handler esp_timer fifo f req r g n).1
        ≡ record g { clients = close_loop close_frame_order 6 0 req.sockfd g.clients }
  unfolding ws_handler handle_frame
  close_state req r g n frame read = ground arith

  -- After a handshake for the path of a device, while that device has a free slot and no table holds
  -- the socket, a text frame from the socket is handed, whole and once, to the command handler of
  -- that device and of no other, if the build has the device.
  pub handshake-text :
      (req₀ req : Request) (r₀ r : Received) (g : Gateway Queue) (n₀ n : ℕ) (d : Device)
      → SixEach g.clients
      → req.sockfd ≢ minus_one
      → HeldNowhere g.clients req.sockfd
      → req₀.is_get ≡ true
      → req₀.sockfd ≡ req.sockfd
      → device_of_number (scan_device req₀.uri) ≡ some d
      → count_fd minus_one (table g.clients d) ≢ 0
      → req.is_get ≡ false
      → IsRead r text
      → let g' = (ws_handler esp_timer fifo f req₀ r₀ g n₀).1 in
        (ws_handler esp_timer fifo f req r g' n).2
        ≡ calloc_buf
          ∷ ((if has_device f d
                then handle_command d (some r.payload) req.handle req.sockfd ∷ []
                else [])
              ++ (free_buf ∷ []))
  handshake-text req₀ req r₀ r g n₀ n d six real new get same path free frame read =
      let fd = req.sockfd in
      let ne : d ≢ camera = device_of_number-ne-camera (scan_device req₀.uri) d path in
      rw (handshake_state req₀ r₀ g n₀ d get path, same)
        (ap (λ (t : EspErr × Gateway Queue × List Effect). t.2) (text_frame req r _ n frame read)
          ∙ ap (λ (l : List Effect). calloc_buf ∷ (l ++ (free_buf ∷ [])))
              (text_commands-one f
                (put_table g.clients d (take_slot (table g.clients d) req₀.handle fd).0) req
                (some r.payload) d ne (held_by_device g.clients d req₀.handle fd six real new free)
                (held_by_no_other g.clients d req₀.handle fd six real new)))

  -- After a close frame from a socket that at most one entry holds, that entry is reset and all others
  -- of the five device tables are as before, and a text frame from the socket is handed to no command
  -- handler.
  pub close-text :
      (req₀ req : Request) (r₀ r : Received) (g : Gateway Queue) (n₀ n : ℕ)
      → SixEach g.clients
      → req.sockfd ≢ minus_one
      → HeldOnce g.clients req.sockfd
      → req₀.is_get ≡ false
      → req₀.sockfd ≡ req.sockfd
      → IsRead r₀ close
      → req.is_get ≡ false
      → IsRead r text
      → let g' = (ws_handler esp_timer fifo f req₀ r₀ g n₀).1 in
        ((d : Device)
          → d ≢ camera
          → table g'.clients d ≡ map (forget req.sockfd) (table g.clients d))
        × ((ws_handler esp_timer fifo f req r g' n).2 ≡ calloc_buf ∷ free_buf ∷ [])
  close-text req₀ req r₀ r g n₀ n six real once frame₀ same read₀ frame read =
      rw (close_state req₀ r₀ g n₀ frame₀ read₀, same)
        (
          forgotten,
          ap (λ (t : EspErr × Gateway Queue × List Effect). t.2) (text_frame req r _ n frame read)
              ∙ ap (λ (l : List Effect). calloc_buf ∷ (l ++ (free_buf ∷ [])))
                  (text_commands-none f closed req (some r.payload) silent),
        )
    where
      closed : Clients
      closed = close_loop close_frame_order 6 0 req.sockfd g.clients

      visited : (d : Device) → d ≢ camera → Has d close_frame_order
      visited d ne = ground arith

      forgotten :
          (d : Device) → d ≢ camera → table closed d ≡ map (forget req.sockfd) (table g.clients d)
      forgotten d ne =
          close_loop_lem close_frame_order g.clients req.sockfd d once six (visited d ne)

      silent : (d : Device) → d ≢ camera → value_in_array req.sockfd (table closed d) 0 6 ≡ false
      silent d ne = rw (forgotten d ne) (
          value_in_array-six (map (forget req.sockfd) (table g.clients d)) req.sockfd
            (length-forget req.sockfd (table g.clients d) ∙ six d)
          ∙ ap (λ k. if k == 0 then false else true)
              (count-forget req.sockfd (table g.clients d) real))

  -- When the server closes a socket that at most one entry of the six tables holds, that entry is
  -- reset and all others are as before, its removal is queued for the keep-alive task, and the socket
  -- is closed.
  pub wss_close_fd_lem :
      (g : Gateway Queue) (fd : ℤ)
      → SixEach g.clients
      → HeldOnce g.clients fd
      → let (g', out) = wss_close_fd esp_timer fifo f fd g in
        ((d : Device) → table g'.clients d ≡ map (forget fd) (table g.clients d))
        × (g'.keep_alive ≡ (wss_keep_alive_remove_client esp_timer fifo g.keep_alive fd).1)
        × (out ≡ close_socket fd ∷ [])
  unfolding wss_close_fd
  wss_close_fd_lem g fd six once =
      (λ d. close_loop_lem close_fd_order g.clients fd d once six (visited d), refl, refl)
    where
      visited : (d : Device) → Has d close_fd_order
      visited d = ground arith
