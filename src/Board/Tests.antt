-- ===== src/Board/Tests.antt =====
-- The whole gateway at concrete inputs.
use gateway_esp.Prelude.{◌≡◌, refl, true, false, [], ◌∷◌, some, pos, ◌==ℤ◌}
use gateway_esp.KeepAlive.Defs.{ClientFdAction}
use gateway_esp.Rtos.ListFifo.{ListQueue, list_fifo}
use gateway_esp.Clients.Defs.{relay}
use gateway_esp.Clients.Sample.{busy_clients-SixEach}
use gateway_esp.Server.Defs.{Received, calloc_buf, free_buf, send_text, free_mes}
use gateway_esp.Server.Uri.{scan_device}
use gateway_esp.Server.Handler.{ws_handler}
use gateway_esp.Server.Session.{IsRead}
use gateway_esp.Esp.{text}
use gateway_esp.Server.Sample.{
  clock, gateway, features, handshake_request, frame_request, text_frame, new_socket,
}
use gateway_esp.Devices.Json.{parsed, delete_data, create_object, delete_response, set_level}
use gateway_esp.Devices.Sample.{sample, order, ask, order_text, ask_text}
use gateway_esp.Devices.Relay.{online, RelayConfig, level_of}
use gateway_esp.Printer.Job.{ended}
use gateway_esp.Printer.Sample.{no_decode, cause_text, esc_state, all_well}
use gateway_esp.Board.Machine.{Board, server, device, board_request}
use gateway_esp.Board.Ends.{Ends}
use gateway_esp.Board.Own.{Answers, board_request-Answers}
use gateway_esp.Board.Session.{relay-session}

abbrev pin_7 : RelayConfig
pin_7 = record { pin = 7; inverse = false }

abbrev board : Board (ListQueue ClientFdAction)
board = record {
  gateway = gateway;
  esc = esc_state;
  relay_state_of = record { relay_status = online; relay_state = false };
  trigger_of = record { trigger_status = online; trigger_stat = false };
  barcode_status = online;
  led_status_of = online;
}

abbrev order_frame : Received
order_frame = record text_frame { payload = order_text }

abbrev ask_frame : Received
ask_frame = record text_frame { payload = ask_text }

order_frame-IsRead : IsRead order_frame text
order_frame-IsRead = record {
  type = refl;
  length_ok = refl;
  nonempty = λ e. cc;
  allocated = refl;
  payload_ok = refl;
}

ask_frame-IsRead : IsRead ask_frame text
ask_frame-IsRead = record {
  type = refl;
  length_ok = refl;
  nonempty = λ e. cc;
  allocated = refl;
  payload_ok = refl;
}

relay-session_example :
    let request =
      board_request clock (list_fifo ClientFdAction) features sample no_decode 0 cause_text pin_7 in
    (b₁ b₂ b₃ : Board (ListQueue ClientFdAction)) × (request
        (handshake_request (pos 60))
        text_frame
        all_well
        0
        board
      ≡ ended (b₁, []))
    × (request (frame_request (pos 60)) order_frame all_well 0 b₁
        ≡ ended (
          b₂,
          server calloc_buf
              ∷ device relay parsed
              ∷ device relay (set_level 7 (level_of pin_7 true))
              ∷ device relay delete_data
              ∷ server free_buf
              ∷ [],
        ))
    × (request (frame_request (pos 60)) ask_frame all_well 0 b₂
        ≡ ended (
          b₃,
          server calloc_buf
              ∷ device relay parsed
              ∷ device relay create_object
              ∷ server (send_text (some 1) (pos 60) (b'{' ∷ b'}' ∷ []))
              ∷ server free_mes
              ∷ device relay delete_response
              ∷ device relay delete_data
              ∷ server free_buf
              ∷ [],
        ))
unfolding scan_device ◌==ℤ◌
relay-session_example =
    relay-session clock (list_fifo ClientFdAction) features sample no_decode 0 cause_text pin_7
      (handshake_request (pos 60)) (frame_request (pos 60)) (frame_request (pos 60)) text_frame
      order_frame ask_frame all_well all_well all_well 0 0 0 board true order ask (b'{' ∷ b'}' ∷ [])
      refl busy_clients-SixEach (λ e. cc) new_socket (λ e. cc) refl refl refl refl
      order_frame-IsRead refl refl refl refl refl ask_frame-IsRead refl refl refl refl

board_request-Answers_example :
    let b₁ = record board {
      gateway =
          (ws_handler clock
            (list_fifo ClientFdAction)
            features
            (frame_request (pos 54))
            order_frame
            gateway
            0).1;
    } in
    Ends (Answers 1 (pos 54) b₁) (
      board_request clock
        (list_fifo ClientFdAction)
        features
        sample
        no_decode
        0
        cause_text
        pin_7
        (frame_request (pos 54))
        order_frame
        all_well
        0
        board)
board_request-Answers_example =
    board_request-Answers clock (list_fifo ClientFdAction) features sample no_decode 0 cause_text
      pin_7 (frame_request (pos 54)) order_frame all_well 0 board
