-- ===== src/Server/Sample.antt =====
-- A server with a client of the printer, and requests of sockets.
use gateway_esp.Prelude.{ℕ, refl, true, false, [], ◌∷◌, some, replicate, ℤ, pos, ◌==ℤ◌}
use gateway_esp.Esp.{esp_ok, text, close}
use gateway_esp.Clients.Defs.{camera, printer, barcode_scanner, trigger, relay, led}
use gateway_esp.Clients.Held.{HeldNowhere}
use gateway_esp.Clients.Sample.{busy_clients}
use gateway_esp.KeepAlive.Defs.{ClientFdAction, zeroed}
use gateway_esp.KeepAlive.Engine.{Storage}
use gateway_esp.Rtos.ListFifo.{ListQueue}
use gateway_esp.Server.Defs.{Gateway, Features, Request, Received}
use gateway_esp.Server.Session.{IsRead}

-- A clock that stands at 60 seconds.
abbrev pub clock : ℕ → ℕ
clock n = 60_000_000

abbrev pub storage : Storage (ListQueue ClientFdAction)
storage = record {
  max_clients = 6;
  periods = record { keep_alive_period_ms = 15000; not_alive_after_ms = 20000 };
  user_ctx = some 1;
  q = (3, []);
  clients = replicate 6 zeroed;
  spare = replicate 3 zeroed;
}

abbrev pub gateway : Gateway (ListQueue ClientFdAction)
gateway = record { clients = busy_clients; keep_alive = storage }

abbrev pub features : Features
features = record {
  esc_printer = true;
  barcode = true;
  led_matrix = false;
  trigger = true;
  relay = true;
}

-- A handshake for the relay, and a frame, of a socket.
abbrev pub handshake_request : ℤ → Request
handshake_request fd = record { is_get = true; uri = b'/' ∷ b'5' ∷ []; handle = 1; sockfd = fd }

abbrev pub frame_request : ℤ → Request
frame_request fd = record { is_get = false; uri = []; handle = 1; sockfd = fd }

abbrev pub text_frame : Received
text_frame = record {
  len_err = esp_ok;
  type = text;
  final = true;
  fragmented = false;
  len = 2;
  allocated = true;
  payload_err = esp_ok;
  payload = 72 ∷ 105 ∷ [];
}

abbrev pub close_frame : Received
close_frame = record text_frame { type = close }

pub text_frame-IsRead : IsRead text_frame text
text_frame-IsRead = record {
  type = refl;
  length_ok = refl;
  nonempty = λ e. cc;
  allocated = refl;
  payload_ok = refl;
}

pub close_frame-IsRead : IsRead close_frame close
close_frame-IsRead = record {
  type = refl;
  length_ok = refl;
  nonempty = λ e. cc;
  allocated = refl;
  payload_ok = refl;
}

pub new_socket : HeldNowhere busy_clients (pos 60)
unfolding ◌==ℤ◌
new_socket camera = refl
new_socket printer = refl
new_socket barcode_scanner = refl
new_socket trigger = refl
new_socket relay = refl
new_socket led = refl
