-- ===== src/Board/Session.antt =====
-- main/main.c with the relay: a client from its handshake to an answer.
use gateway_esp.Prelude.{
  ℕ, ◌≡◌, refl, ◌≢◌, sym, ap, subst, ◌∙◌, Bool, true, false, List, [], ◌∷◌, ◌++◌, Option, some, ℤ,
  pos, minus_one, arith,
}
use gateway_esp.Rtos.{Fifo}
use gateway_esp.Esp.{EspErr, text}
use gateway_esp.KeepAlive.Defs.{ClientFdAction}
use gateway_esp.Clients.Defs.{Clients, relay, table}
use gateway_esp.Clients.Register.{count_fd}
use gateway_esp.Clients.Held.{SixEach, HeldNowhere}
use gateway_esp.Server.Defs.{
  Gateway, Features, Request, Received, Effect, calloc_buf, free_buf, handle_command, send_text,
  free_mes,
}
use gateway_esp.Server.Uri.{scan_device}
use gateway_esp.Server.Handler.{ws_handler, device_of_number}
use gateway_esp.Server.Session.{IsRead, handshake-text, text_frame}
use gateway_esp.Server.Broadcast.{device_cb}
use gateway_esp.Devices.Json.{
  Cjson, Call, number, bool, command, status, state, parsed, delete_data, create_object,
  delete_response, callback, set_level, respond, number_of, bool_of,
}
use gateway_esp.Devices.Relay.{
  Relay, RelayConfig, Made, level_of, status_number, relay_handle_command,
}
use gateway_esp.Printer.Status.{Cause}
use gateway_esp.Printer.Job.{ended}
use gateway_esp.Printer.Handler.{Surroundings}
use gateway_esp.Board.Machine.{
  Board, Action, server, device, perform_calls, device_command, perform_effects, board_request,
}

module _ (esp_timer : ℕ → ℕ) (fifo : Fifo ClientFdAction) (f : Features) (j : Cjson)
    (base64_decode : List ℕ → List ℕ → List ℕ) (fuel : ℕ) (cause_text : Cause → List ℕ)
    (cfg : RelayConfig) where
  open fifo use {Queue}

  abbrev pub all_made : Made
  all_made = record { object = true; first = true; second = true; third = true }

  -- A request whose calls hand one text to the relay.
  relay_request :
      (req : Request) (r : Received) (w : Surroundings) (n : ℕ) (b : Board Queue) (payload : List ℕ)
      (relay' : Relay) (calls : List Call) (actions : List Action)
      → (ws_handler esp_timer fifo f req r b.gateway n).1 ≡ b.gateway
      → (ws_handler esp_timer fifo f req r b.gateway n).2
        ≡ calloc_buf ∷ handle_command relay (some payload) req.handle req.sockfd ∷ free_buf ∷ []
      → relay_handle_command j cfg payload w.made req.handle req.sockfd b.relay_state_of
        ≡ (relay', calls)
      → perform_calls b.gateway.clients relay calls ≡ ended actions
      → board_request esp_timer fifo f j base64_decode fuel cause_text cfg req r w n b
        ≡ ended (
          record b { relay_state_of = relay' },
          server calloc_buf ∷ (actions ++ (server free_buf ∷ [])),
        )
  unfolding board_request perform_effects device_command
  relay_request req r w n b payload relay' calls actions same out made done =
      rw (board_request, out, same) (rw (made, done) refl)

  -- After the handshake, a text of the socket reaches the relay, and leaves the server as it is.
  relay_texts :
      (req₀ : Request) (r₀ : Received) (g : Gateway Queue) (n₀ : ℕ)
      → f.relay ≡ true
      → SixEach g.clients
      → req₀.sockfd ≢ minus_one
      → HeldNowhere g.clients req₀.sockfd
      → count_fd minus_one (table g.clients relay) ≢ 0
      → req₀.is_get ≡ true
      → device_of_number (scan_device req₀.uri) ≡ some relay
      → let g' = (ws_handler esp_timer fifo f req₀ r₀ g n₀).1 in
        (req : Request) (r : Received) (n : ℕ)
        → req.is_get ≡ false
        → req.sockfd ≡ req₀.sockfd
        → IsRead r text
        → ((ws_handler esp_timer fifo f req r g' n).1 ≡ g')
          × ((ws_handler esp_timer fifo f req r g' n).2
              ≡ calloc_buf
                ∷ handle_command relay (some r.payload) req.handle req.sockfd
                ∷ free_buf
                ∷ [])
  relay_texts req₀ r₀ g n₀ has six real new free get path req r n frame same read =
      let g' = (ws_handler esp_timer fifo f req₀ r₀ g n₀).1 in
      (
        ap (λ (t : EspErr × Gateway Queue × List Effect). t.1)
            (text_frame esp_timer fifo f req r g' n frame read),
        handshake-text esp_timer fifo f req₀ req r₀ r g n₀ n relay six
              (subst (λ fd. fd ≢ minus_one) (sym same) real)
              (subst (λ fd. HeldNowhere g.clients fd) (sym same) new) get (sym same) path free frame
              read
            ∙ rw has refl,
      )

  set_state_lem :
      (req : Request) (str : List ℕ) (made : Made) (r : Relay) (on : Bool) (item : j.Item)
      → j.parse str ≡ some item
      → number_of j (some item) command ≡ some (pos 1)
      → bool_of j (some item) state ≡ some on
      → relay_handle_command j cfg str made req.handle req.sockfd r ≡ (
        record r { relay_state = on },
        parsed ∷ set_level cfg.pin (level_of cfg on) ∷ delete_data ∷ [],
      )
  unfolding relay_handle_command
  set_state_lem req str made r on item p c s = rw (p, c, s) refl

  get_status_lem :
      (req : Request) (str : List ℕ) (made : Made) (r : Relay) (item : j.Item)
      → j.parse str ≡ some item
      → number_of j (some item) command ≡ some (pos 0)
      → made ≡ all_made
      → relay_handle_command j cfg str made req.handle req.sockfd r ≡ (
        r,
        parsed
            ∷ create_object
            ∷ callback
                (j.print (
                  (command, number 100)
                  ∷ (status, number (status_number r.relay_status))
                  ∷ (state, bool r.relay_state)
                  ∷ []))
                (some req.handle)
                req.sockfd
            ∷ delete_response
            ∷ delete_data
            ∷ [],
      )
  unfolding relay_handle_command respond
  get_status_lem req str made r item p c all = rw (p, c, all) refl

  handshake_lem :
      (req : Request) (r : Received) (w : Surroundings) (n : ℕ) (b : Board Queue)
      → req.is_get ≡ true
      → board_request esp_timer fifo f j base64_decode fuel cause_text cfg req r w n b
        ≡ ended (record b { gateway = (ws_handler esp_timer fifo f req r b.gateway n).1 }, [])
  unfolding board_request ws_handler perform_effects
  handshake_lem req r w n b get = ground (arith, get)

  set_state-actions :
      (g : Clients) (pin level : ℕ)
      → perform_calls g relay (parsed ∷ set_level pin level ∷ delete_data ∷ [])
        ≡ ended (
            device relay parsed
            ∷ device relay (set_level pin level)
            ∷ device relay delete_data
            ∷ [])
  unfolding perform_calls
  set_state-actions g pin level = refl

  get_status-actions :
      (g : Clients) (printed : Option (List ℕ)) (handle : ℕ) (fd to : ℤ) (answer : List ℕ)
      → printed ≡ some answer
      → fd ≡ to
      → perform_calls g relay (
          parsed
          ∷ create_object
          ∷ callback printed (some handle) fd
          ∷ delete_response
          ∷ delete_data
          ∷ [])
        ≡ ended (
            device relay parsed
            ∷ device relay create_object
            ∷ server (send_text (some handle) to answer)
            ∷ server free_mes
            ∷ device relay delete_response
            ∷ device relay delete_data
            ∷ [])
  unfolding perform_calls device_cb
  get_status-actions g printed handle fd to answer e same = rw (e, same) refl

  -- A client makes its handshake for the relay's path, while the relay's table has a free entry and no
  -- table holds its socket, sends SET_STATE with state `on`, and then GET_STATUS, for which cJSON has
  -- memory. All three requests are handled to the end: the second drives the relay's pin to the level
  -- for `on`, and the third sends to the client's socket, and to no other, one message, the text that
  -- cJSON prints for the relay's status and `on`; all that was allocated is released.
  pub relay-session :
      (req₀ req₁ req₂ : Request) (r₀ r₁ r₂ : Received) (w₀ w₁ w₂ : Surroundings) (n₀ n₁ n₂ : ℕ)
      (b : Board Queue) (on : Bool) (item₁ item₂ : j.Item) (answer : List ℕ)
      → f.relay ≡ true
      → SixEach b.gateway.clients
      → req₀.sockfd ≢ minus_one
      → HeldNowhere b.gateway.clients req₀.sockfd
      → count_fd minus_one (table b.gateway.clients relay) ≢ 0
      → req₀.is_get ≡ true
      → device_of_number (scan_device req₀.uri) ≡ some relay
      → req₁.is_get ≡ false
      → req₁.sockfd ≡ req₀.sockfd
      → IsRead r₁ text
      → j.parse r₁.payload ≡ some item₁
      → number_of j (some item₁) command ≡ some (pos 1)
      → bool_of j (some item₁) state ≡ some on
      → req₂.is_get ≡ false
      → req₂.sockfd ≡ req₀.sockfd
      → IsRead r₂ text
      → j.parse r₂.payload ≡ some item₂
      → number_of j (some item₂) command ≡ some (pos 0)
      → w₂.made ≡ all_made
      → j.print (
          (command, number 100)
          ∷ (status, number (status_number b.relay_state_of.relay_status))
          ∷ (state, bool on)
          ∷ [])
        ≡ some answer
      → let request = board_request esp_timer fifo f j base64_decode fuel cause_text cfg in
        (b₁ b₂ b₃ : Board Queue) × (request req₀ r₀ w₀ n₀ b ≡ ended (b₁, []))
        × (request req₁ r₁ w₁ n₁ b₁
            ≡ ended (
              b₂,
              server calloc_buf
                  ∷ device relay parsed
                  ∷ device relay (set_level cfg.pin (level_of cfg on))
                  ∷ device relay delete_data
                  ∷ server free_buf
                  ∷ [],
            ))
        × (request req₂ r₂ w₂ n₂ b₂
            ≡ ended (
              b₃,
              server calloc_buf
                  ∷ device relay parsed
                  ∷ device relay create_object
                  ∷ server (send_text (some req₂.handle) req₀.sockfd answer)
                  ∷ server free_mes
                  ∷ device relay delete_response
                  ∷ device relay delete_data
                  ∷ server free_buf
                  ∷ [],
            ))
  relay-session req₀ req₁ req₂ r₀ r₁ r₂ w₀ w₁ w₂ n₀ n₁ n₂ b on item₁ item₂ answer has six real new
        free get path frame₁ same₁ read₁ p₁ c₁ s₁ frame₂ same₂ read₂ p₂ c₂ all printed =
      let g = (ws_handler esp_timer fifo f req₀ r₀ b.gateway n₀).1 in
      let b₁ = record b { gateway = g } in
      let on_relay = record b.relay_state_of { relay_state = on } in
      let b₂ = record b₁ { relay_state_of = on_relay } in
      let texts = relay_texts req₀ r₀ b.gateway n₀ has six real new free get path in
      (
        b₁,
        b₂,
        b₂,
        handshake_lem req₀ r₀ w₀ n₀ b get,
        relay_request req₁ r₁ w₁ n₁ b₁ r₁.payload on_relay _ _
            (texts req₁ r₁ n₁ frame₁ same₁ read₁).0 (texts req₁ r₁ n₁ frame₁ same₁ read₁).1
            (set_state_lem req₁ r₁.payload w₁.made b.relay_state_of on item₁ p₁ c₁ s₁)
            (set_state-actions g.clients cfg.pin (level_of cfg on)),
        relay_request req₂ r₂ w₂ n₂ b₂ r₂.payload on_relay _ _
            (texts req₂ r₂ n₂ frame₂ same₂ read₂).0 (texts req₂ r₂ n₂ frame₂ same₂ read₂).1
            (get_status_lem req₂ r₂.payload w₂.made on_relay item₂ p₂ c₂ all)
            (get_status-actions g.clients _ req₂.handle req₂.sockfd req₀.sockfd answer printed
              same₂),
      )
