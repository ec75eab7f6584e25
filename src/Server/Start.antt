-- ===== src/Server/Start.antt =====
-- main/main.c: start_webserver, with the paths that it registers.
use gateway_esp.Prelude.{
  ℕ, ◌≡◌, ◌≢◌, ◌↔◌, refl, Bool, true, false, not, ◌⊎◌, ◌&&◌, List, [], ◌∷◌, Option, none, some, All,
  Has, inl, inr, replicate, arith,
}
use gateway_esp.Rtos.{Fifo}
use gateway_esp.KeepAlive.Defs.{ClientFdAction, zeroed}
use gateway_esp.KeepAlive.Engine.{
  Storage, Config, StartResult, failed, no_queue, kept, wss_keep_alive_start,
  wss_keep_alive_set_user_ctx,
}
use gateway_esp.KeepAlive.Timer.{IsTimer}
use gateway_esp.KeepAlive.Task.{IsValid, wss_keep_alive_start-IsValid}
use gateway_esp.Clients.Defs.{
  Device, camera, printer, barcode_scanner, led, trigger, relay, max_client_num,
}
use gateway_esp.Server.Uri.{scan_device}
use gateway_esp.Server.Handler.{device_of_number}

-- `keep_alive_config`, whose user context is NULL at first.
abbrev pub keep_alive_config : Config
keep_alive_config = record {
  max_clients = max_client_num;
  periods = record { keep_alive_period_ms = 15000; not_alive_after_ms = 20000 };
  user_ctx = none;
}

-- The paths of the handlers, in the order in which they are registered.
abbrev pub registered_uris : List (List ℕ)
registered_uris =
    (b'/' ∷ b'1' ∷ [])
    ∷ (b'/' ∷ b'2' ∷ [])
    ∷ (b'/' ∷ b'4' ∷ [])
    ∷ (b'/' ∷ b'5' ∷ [])
    ∷ (b'/' ∷ b'3' ∷ [])
    ∷ []

-- What `httpd_start` is given of the configuration, and what stands after the function: the server's
-- handle, or NULL, the keep-alive storage, or NULL, and the registered paths.
pub record Started (Q : Type 0) : Type 0 where
  pub server : Option ℕ
  pub max_open_sockets : ℕ
  pub keep_alive : Option (Storage Q)
  pub uris : List (List ℕ)

abbrev pub with_user_ctx : {Q : Type 0} → ℕ → Option (Storage Q) → Option (Started Q)
with_user_ctx server none = none
with_user_ctx server (some h) = some (record {
  server = some server;
  max_open_sockets = max_client_num;
  keep_alive = some (wss_keep_alive_set_user_ctx h (some server));
  uris = registered_uris;
})

abbrev pub server_started : {Q : Type 0} → Option ℕ → Option (Storage Q) → Option (Started Q)
server_started none keep_alive = some (record {
  server = none;
  max_open_sockets = max_client_num;
  keep_alive = keep_alive;
  uris = [];
})
server_started (some server) keep_alive = with_user_ctx server keep_alive

abbrev pub with_keep_alive : {Q : Type 0} → Option ℕ → StartResult (Storage Q) → Option (Started Q)
with_keep_alive started failed = server_started started none
with_keep_alive started no_queue = none
with_keep_alive started (kept h) = server_started started (some h)

-- The path names a device that `ws_handler` serves.
abbrev pub Names : Device → List ℕ → Type 0
Names d uri = (d ≢ camera) × (device_of_number (scan_device uri) ≡ some d)

uri_of : (d : Device) → d ≢ camera → (uri : List ℕ) × Has uri registered_uris × Names d uri
unfolding scan_device
uri_of camera ne = absurd (ne refl)
uri_of printer ne = (b'/' ∷ b'1' ∷ [], inl refl, (ne, refl))
uri_of barcode_scanner ne = (b'/' ∷ b'2' ∷ [], inr (inl refl), (ne, refl))
uri_of trigger ne = (b'/' ∷ b'4' ∷ [], inr (inr (inl refl)), (ne, refl))
uri_of relay ne = (b'/' ∷ b'5' ∷ [], inr (inr (inr (inl refl))), (ne, refl))
uri_of led ne = (b'/' ∷ b'3' ∷ [], inr (inr (inr (inr (inl refl)))), (ne, refl))

uris-Names : All (λ uri. (d : Device) × Names d uri) registered_uris
unfolding scan_device
uris-Names = (
  (printer, (λ e. cc, refl)),
  (
    (barcode_scanner, (λ e. cc, refl)),
    ((trigger, (λ e. cc, refl)), ((relay, (λ e. cc, refl)), ((led, (λ e. cc, refl)), tt))),
  ),
)

both : (a c : Bool) → (a && c) ≡ true → (a ≡ true) × (c ≡ true)
both a c h = ground arith

module _ (esp_timer : ℕ → ℕ) (fifo : Fifo ClientFdAction) where
  open fifo use {Queue}

  -- `allocated`, `queue_made` and `created` are whether `wss_keep_alive_start` gets memory, a queue and a
  -- task, and `started` the handle that `httpd_start` makes. The result is `none` where the user context
  -- is written through a keep-alive handle that is NULL, and where the queue is NULL.
  unfoldable pub start_webserver : Bool → Bool → Bool → Option ℕ → Option (Started Queue)
  start_webserver allocated queue_made created started =
      with_keep_alive started
        (wss_keep_alive_start esp_timer fifo keep_alive_config allocated queue_made created)

  abbrev fresh : Storage Queue
  fresh = record {
    max_clients = 6;
    periods = record { keep_alive_period_ms = 15000; not_alive_after_ms = 20000 };
    user_ctx = none;
    q = fifo.create 3;
    clients = replicate 6 zeroed;
    spare = replicate 3 zeroed;
  }

  fresh-IsValid :
      (timer : IsTimer esp_timer) (server : ℕ)
      → IsValid esp_timer timer fifo (record fresh { user_ctx = some server })
  unfolding wss_keep_alive_start
  fresh-IsValid timer server =
      let (valid, clients) =
        wss_keep_alive_start-IsValid esp_timer timer fifo keep_alive_config true true true
          (omega arith) fresh refl in
      record {
        unique = valid.unique;
        times = valid.times;
        sized = valid.sized;
        small = valid.small;
        messages = valid.messages;
      }

  -- The server starts with a valid keep-alive storage of free entries whose user context is the
  -- server, and with paths of which each names a device other than the camera, and each such device
  -- has one, if the engine and the HTTP server start. If the HTTP server starts and the engine's memory
  -- or task cannot be made, the function writes through NULL, and if its memory is there and its queue
  -- cannot be made, FreeRTOS stops the program; and it fails in no other case.
  pub start_webserver-IsValid :
      (timer : IsTimer esp_timer) (allocated queue_made created : Bool) (started : Option ℕ)
      → ((server : ℕ)
          → started ≡ some server
          → (allocated && (queue_made && created)) ≡ true
          → (h : Storage Queue) × (start_webserver allocated queue_made created started
              ≡ some (record {
                server = some server;
                max_open_sockets = 6;
                keep_alive = some h;
                uris = registered_uris;
              }))
            × IsValid esp_timer timer fifo h
            × (h.clients ≡ replicate 6 zeroed)
            × (h.user_ctx ≡ some server))
        × ((d : Device) → d ≢ camera → (uri : List ℕ) × Has uri registered_uris × Names d uri)
        × All (λ uri. (d : Device) × Names d uri) registered_uris
        × ((start_webserver allocated queue_made created started ≡ none) ↔ (
            ((allocated && not queue_made) ≡ true)
            ⊎ ((started ≢ none) × ((allocated && created) ≡ false))))
  unfolding start_webserver wss_keep_alive_start wss_keep_alive_set_user_ctx
  start_webserver-IsValid timer allocated queue_made created started = (
    λ server is_started ok.
        let (all, rest) = both allocated (queue_made && created) ok in
        let (queued, made) = both queue_made created rest in
        rw (is_started, all, queued, made)
          (record fresh { user_ctx = some server }, refl, fresh-IsValid timer server, refl, refl),
    uri_of,
    uris-Names,
    ground arith,
  )
