-- ===== src/Server/Defs.antt =====
-- main/main.c: the server's state, and what a call of a handler takes from and asks of the server.
use gateway_esp.Prelude.{ℕ, Bool, List, Option, ℤ}
use gateway_esp.Esp.{EspErr, FrameType}
use gateway_esp.KeepAlive.Engine.{Storage}
use gateway_esp.Clients.Defs.{Clients, Device}

pub record Gateway (Q : Type 0) : Type 0 where
  pub clients : Clients
  pub keep_alive : Storage Q

-- The devices that the build has (CONFIG_ESC_PRINTER, CONFIG_BARCODE_SCANNER, CONFIG_LED_MATRIX,
-- CONFIG_TRIGGER, CONFIG_RELAY).
pub record Features : Type 0 where
  pub esc_printer : Bool
  pub barcode : Bool
  pub led_matrix : Bool
  pub trigger : Bool
  pub relay : Bool

-- `httpd_req_t`: whether it is the handshake, its path, the server's handle, and its socket.
pub record Request : Type 0 where
  pub is_get : Bool
  pub uri : List ℕ
  pub handle : ℕ
  pub sockfd : ℤ

-- What the two calls of `httpd_ws_recv_frame` and `calloc` give.
pub record Received : Type 0 where
  pub len_err : EspErr
  pub type : FrameType
  pub final : Bool
  pub fragmented : Bool
  pub len : ℕ
  pub allocated : Bool
  pub payload_err : EspErr
  pub payload : List ℕ

-- The calls that a handler makes, in order. A payload of `none` is NULL.
pub data Effect : Type 0 where
  calloc_buf free_buf : Effect
  handle_command : Device → Option (List ℕ) → ℕ → ℤ → Effect
  send_pong : Bool → Bool → Effect
  send_text : Option ℕ → ℤ → List ℕ → Effect
  send_ping : Option ℕ → ℤ → Effect
  free_mes : Effect
  close_socket : ℤ → Effect
  trigger_close : Option ℕ → ℤ → Effect
  gpio_set_level : ℕ → ℕ → Effect
  delay : ℕ → Effect
  disconnect connect restart stop_server : Effect
