-- ===== src/Server/Camera.antt =====
-- main/main.c: camera_client, the handler of the camera's path.
use gateway_esp.Prelude.{
  ℕ, suc, ◌≤◌, ◌≡◌, ◌↔◌, Bool, true, false, ◌&&◌, List, [], ◌∷◌, ◌++◌, Option, none, some,
  if◌then◌else◌, ◌==◌, ℤ, arith,
}
use gateway_esp.Esp.{EspErr, esp_ok, esp_err_no_mem, FrameType, text, close}
use gateway_esp.Clients.Defs.{
  Clients, camera, table, put_table, take_slot, close_loop, max_client_num,
}
use gateway_esp.Server.Defs.{Request, Received}

-- The calls: of the allocator, `httpd_ws_send_frame` of the frame that was read, and
-- `httpd_queue_work` of an answer to a socket.
pub data CameraCall : Type 0 where
  calloc_buf free_buf : CameraCall
  send_frame : FrameType → Option (List ℕ) → CameraCall
  queue_work : ℕ → ℤ → CameraCall

-- `strcmp` with a C string: the bytes up to the first zero.
abbrev pub string_is : List ℕ → List ℕ → Bool
string_is [] [] = true
string_is [] (c ∷ s) = false
string_is (b ∷ bs) [] = b == 0
string_is (b ∷ bs) (c ∷ s) = let rest = string_is bs s in if b == c then rest else false

abbrev pub trigger_async : List ℕ
trigger_async =
    b'T' ∷ b'r' ∷ b'i' ∷ b'g' ∷ b'g' ∷ b'e' ∷ b'r' ∷ b' ' ∷ b'a' ∷ b's' ∷ b'y' ∷ b'n' ∷ b'c' ∷ []

-- What the server returns for a frame that it sends, and for work that it is given.
pub record Replies : Type 0 where
  pub send_err : EspErr
  pub queue_err : EspErr

abbrev is_text : FrameType → Bool
is_text text = true
is_text _ = false

abbrev is_close : FrameType → Bool
is_close close = true
is_close _ = false

-- The payload of a text frame without bytes is NULL, which `strcmp` reads through: `none`.
abbrev text_answer :
    FrameType → Request → Replies → Option (List ℕ) → Option (EspErr × List CameraCall)
text_answer type req s none =
    if is_text type then none else some (s.send_err, send_frame type none ∷ [])
text_answer type req s (some payload) =
    if is_text type && string_is payload trigger_async
    then some (s.queue_err, free_buf ∷ queue_work req.handle req.sockfd ∷ [])
    else some (s.send_err, send_frame type (some payload) ∷ free_buf ∷ [])

abbrev after_close : FrameType → Request → Clients → Clients
after_close type req g =
    if is_close type then close_loop (camera ∷ []) max_client_num 0 req.sockfd g else g

abbrev with_clients :
    Clients
    → List CameraCall
    → Option (EspErr × List CameraCall)
    → Option (EspErr × Clients × List CameraCall)
with_clients g before none = none
with_clients g before (some (err, calls)) = some (err, g, before ++ calls)

abbrev camera_payload :
    EspErr → Request → Received → Replies → Clients → Option (EspErr × Clients × List CameraCall)
camera_payload esp_ok req r s g =
    with_clients (after_close r.type req g) (calloc_buf ∷ [])
      (text_answer r.type req s (some r.payload))
camera_payload e req r s g = some (e, g, calloc_buf ∷ free_buf ∷ [])

abbrev camera_length :
    EspErr → Request → Received → Replies → Clients → Option (EspErr × Clients × List CameraCall)
camera_length esp_ok req r s g =
    if r.len == 0
    then with_clients (after_close r.type req g) [] (text_answer r.type req s none)
    else (if r.allocated
        then camera_payload r.payload_err req r s g
        else some (esp_err_no_mem, g, []))
camera_length e req r s g = some (e, g, [])

unfoldable pub camera_client :
    Request → Received → Replies → Clients → Option (EspErr × Clients × List CameraCall)
camera_client req r s g =
    if req.is_get
    then some (esp_ok, put_table g camera (take_slot (table g camera) req.handle req.sockfd).0, [])
    else camera_length r.len_err req r s g

-- How many calls free the buffer, and how many allocate it.
abbrev pub frees : List CameraCall → ℕ
frees [] = 0
frees (free_buf ∷ cs) = suc (frees cs)
frees (c ∷ cs) = frees cs

abbrev pub callocs : List CameraCall → ℕ
callocs [] = 0
callocs (calloc_buf ∷ cs) = suc (callocs cs)
callocs (c ∷ cs) = callocs cs

abbrev pub Balanced : Option (EspErr × Clients × List CameraCall) → Type 0
Balanced none = Unit
Balanced (some (err, g, calls)) = (frees calls ≡ callocs calls) × (callocs calls ≤ 1)

-- The handler reads through NULL exactly on a text frame without bytes whose length was read; in all
-- other cases it returns, and has then freed the buffer as often as it allocated it, at most once.
pub camera_client-none :
    (req : Request) (r : Received) (s : Replies) (g : Clients)
    → ((camera_client req r s g ≡ none)
        ↔ ((req.is_get ≡ false) × (r.len_err ≡ esp_ok) × (r.len ≡ 0) × (r.type ≡ text)))
      × Balanced (camera_client req r s g)
unfolding camera_client
camera_client-none req r s g = ground arith
