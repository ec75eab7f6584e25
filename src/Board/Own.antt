-- ===== src/Board/Own.antt =====
-- main/main.c with the devices: a request is answered on its own socket only.
use gateway_esp.Prelude.{ℕ, ◌≡◌, refl, ◌∙◌, List, [], ◌∷◌, Option, ℤ, All, All-append, arith}
use gateway_esp.Rtos.{Fifo}
use gateway_esp.KeepAlive.Defs.{ClientFdAction}
use gateway_esp.Clients.Defs.{Device, camera, printer, barcode_scanner, trigger, relay, led}
use gateway_esp.Server.Defs.{
  Gateway, Features, Request, Received, Effect, handle_command, send_text,
}
use gateway_esp.Server.Handler.{ws_handler, handle_frame, text_commands, text_command}
use gateway_esp.Devices.Json.{Cjson, Call}
use gateway_esp.Devices.Relay.{RelayConfig, relay_handle_command}
use gateway_esp.Printer.Status.{Cause}
use gateway_esp.Printer.Job.{ended, followed_by}
use gateway_esp.Printer.Handler.{Surroundings, esc_handle_command}
use gateway_esp.Board.Machine.{
  Board, Action, perform_calls, perform_esc_calls, text_of, device_command, effect_actions,
  perform_effects, board_request,
}
use gateway_esp.Board.Ends.{
  Ends, Ends-followed_by, IsOwn, EffectIsOwn, CallIsOwn, EscCallIsOwn, perform_calls-IsOwn,
  perform_esc_calls-IsOwn,
}
use gateway_esp.Board.Calls.{relay-IsOwn, trigger-IsOwn, barcode-IsOwn, led-IsOwn, esc-IsOwn}

-- What a command leaves as it is: the server's state, and the states of the devices that no command
-- changes.
abbrev pub Keeps : {Q : Type 0} → Board Q → Board Q → Type 0
Keeps b b' =
    (b'.gateway ≡ b.gateway)
    × (b'.trigger_of ≡ b.trigger_of)
    × (b'.barcode_status ≡ b.barcode_status)
    × (b'.led_status_of ≡ b.led_status_of)

abbrev pub Answers : {Q : Type 0} → ℕ → ℤ → Board Q → Board Q × List Action → Type 0
Answers handle fd b (b', actions) = Keeps b b' × All (IsOwn handle fd) actions

module _ (esp_timer : ℕ → ℕ) (fifo : Fifo ClientFdAction) (f : Features) where
  open fifo use {Queue}

  -- A request hands commands only the server and the socket that it came from, and sends no text
  -- itself.
  ws_handler-IsOwn :
      (req : Request) (r : Received) (g : Gateway Queue) (n : ℕ)
      → All (EffectIsOwn req.handle req.sockfd) (ws_handler esp_timer fifo f req r g n).2
  unfolding ws_handler handle_frame text_commands text_command
  ws_handler-IsOwn req r g n = ground arith

  module _ (j : Cjson) (base64_decode : List ℕ → List ℕ → List ℕ) (fuel : ℕ)
      (cause_text : Cause → List ℕ) (cfg : RelayConfig) where
    calls-Answers :
        (handle : ℕ) (fd : ℤ) (d : Device) (calls : List Call) (b b' : Board Queue)
        → Keeps b b'
        → All (CallIsOwn handle fd) calls
        → Ends
            (Answers handle fd b)
            (followed_by (perform_calls b.gateway.clients d calls) (λ actions. ended (b', actions)))
    calls-Answers handle fd d calls b b' kept own =
        Ends-followed_by (All (IsOwn handle fd)) (Answers handle fd b)
          (perform_calls b.gateway.clients d calls) (λ actions. ended (b', actions))
          (perform_calls-IsOwn handle fd b.gateway.clients d calls own)
          (λ actions sent. (kept, sent))

    device_command-Answers :
        (d : Device) (payload : Option (List ℕ)) (handle : ℕ) (fd : ℤ) (w : Surroundings)
        (b : Board Queue)
        → Ends (Answers handle fd b) (
            device_command esp_timer fifo f j base64_decode fuel cause_text cfg d payload handle fd
              w b)
    unfolding device_command
    device_command-Answers camera payload handle fd w b = ((refl, refl, refl, refl), tt)
    device_command-Answers printer payload handle fd w b =
        Ends-followed_by (λ out. All (EscCallIsOwn handle fd) out.1) (Answers handle fd b)
          (esc_handle_command j base64_decode fuel cause_text (text_of payload) w handle fd b.esc) _
          (esc-IsOwn handle fd j base64_decode fuel cause_text (text_of payload) w b.esc)
          (λ out own.
            Ends-followed_by (All (IsOwn handle fd)) (Answers handle fd b)
              (perform_esc_calls b.gateway.clients out.1) _
              (perform_esc_calls-IsOwn handle fd b.gateway.clients out.1 own)
              (λ actions sent. ((refl, refl, refl, refl), sent)))
    device_command-Answers barcode_scanner payload handle fd w b =
        calls-Answers handle fd barcode_scanner _ b b (refl, refl, refl, refl)
          (barcode-IsOwn handle fd j (text_of payload) w.made.object w.made.first w.made.second
            b.barcode_status)
    device_command-Answers trigger payload handle fd w b =
        calls-Answers handle fd trigger _ b b (refl, refl, refl, refl)
          (trigger-IsOwn handle fd j (text_of payload) w.made.object w.made.first w.made.second
            b.trigger_of)
    device_command-Answers relay payload handle fd w b =
        let (r, calls) =
          relay_handle_command j cfg (text_of payload) w.made handle fd b.relay_state_of in
        calls-Answers handle fd relay calls b (record b { relay_state_of = r })
          (refl, refl, refl, refl)
          (relay-IsOwn handle fd j cfg (text_of payload) w.made b.relay_state_of)
    device_command-Answers led payload handle fd w b =
        calls-Answers handle fd led _ b b (refl, refl, refl, refl)
          (led-IsOwn handle fd j (text_of payload) w.made.object w.made.first w.made.second
            b.led_status_of)

    effect_actions-Answers :
        (handle : ℕ) (fd : ℤ) (e : Effect) (w : Surroundings) (b : Board Queue)
        → EffectIsOwn handle fd e
        → Ends
            (Answers handle fd b)
            (effect_actions esp_timer fifo f j base64_decode fuel cause_text cfg e w b)
    effect_actions-Answers handle fd (handle_command d payload hd to) w b (same, same') =
        rw (same, same') (device_command-Answers d payload handle fd w b)
    effect_actions-Answers handle fd (send_text hd to mes) w b own =
        ((refl, refl, refl, refl), (own, tt))
    effect_actions-Answers handle fd e w b own = ground arith

    perform_effects-Answers :
        (handle : ℕ) (fd : ℤ) (es : List Effect) (w : Surroundings) (b : Board Queue)
        → All (EffectIsOwn handle fd) es
        → Ends
            (Answers handle fd b)
            (perform_effects esp_timer fifo f j base64_decode fuel cause_text cfg es w b)
    unfolding perform_effects
    perform_effects-Answers handle fd [] w b own = ((refl, refl, refl, refl), tt)
    perform_effects-Answers handle fd (e ∷ es) w b (here, own) =
        Ends-followed_by (Answers handle fd b) (Answers handle fd b)
          (effect_actions esp_timer fifo f j base64_decode fuel cause_text cfg e w b) _
          (effect_actions-Answers handle fd e w b here)
          (λ now (kept, sent).
            Ends-followed_by (Answers handle fd now.0) (Answers handle fd b)
              (perform_effects esp_timer fifo f j base64_decode fuel cause_text cfg es w now.0) _
              (perform_effects-Answers handle fd es w now.0 own)
              (λ rest (kept', sent'). (
                (kept'.0 ∙ kept.0, kept'.1 ∙ kept.1, kept'.2 ∙ kept.2, kept'.3 ∙ kept.3),
                All-append (IsOwn handle fd) now.1 rest.1 sent sent',
              )))

    -- What a request has the server send, if its handling ends, goes to the socket that the request
    -- came from, and to no other; and a request changes no state but the server's as `ws_handler` does,
    -- the printer's and the relay's.
    pub board_request-Answers :
        (req : Request) (r : Received) (w : Surroundings) (n : ℕ) (b : Board Queue)
        → let b₁ = record b { gateway = (ws_handler esp_timer fifo f req r b.gateway n).1 } in
          Ends
            (Answers req.handle req.sockfd b₁)
            (board_request esp_timer fifo f j base64_decode fuel cause_text cfg req r w n b)
    unfolding board_request
    board_request-Answers req r w n b =
        let (err, g, out) = ws_handler esp_timer fifo f req r b.gateway n in
        perform_effects-Answers req.handle req.sockfd out w (record b { gateway = g })
          (ws_handler-IsOwn req r b.gateway n)
