-- ===== src/Esp.antt =====
-- The parts of ESP-IDF that the program's values come from: error codes, and WebSocket frame types.
use gateway_esp.Prelude.{ℕ}

-- `esp_err_t`: the codes that the program names, and any other.
pub data EspErr : Type 0 where
  esp_ok esp_fail esp_err_no_mem : EspErr
  esp_err : ℕ → EspErr

-- `httpd_ws_type_t`.
pub data FrameType : Type 0 where
  continuation text binary close ping pong : FrameType
