-- ===== src/Server/Tests.antt =====
-- The server at concrete inputs: socket 54 is a client of the printer, and socket 60 is new.
use gateway_esp.Prelude.{
  not, ◌⊎◌, Option, arith, ℕ, ◌≡◌, ◌≢◌, ◌↔◌, ◌&&◌, refl, true, false, List, [], ◌∷◌, ◌++◌, none,
  some, replicate, length, ◌+◌, pos, minus_one, ◌==ℤ◌, ==ℤ_iff, Has, All, inl, inr,
}
use gateway_esp.Esp.{esp_ok, esp_fail}
use gateway_esp.Clients.Defs.{init_clients, Device, camera, printer, relay, table}
use gateway_esp.Clients.Sample.{busy_clients, busy_clients-SixEach}
use gateway_esp.KeepAlive.Defs.{ClientFdAction}
use gateway_esp.KeepAlive.Defs.{zeroed}
use gateway_esp.KeepAlive.Engine.{Storage}
use gateway_esp.Rtos.ListFifo.{ListQueue, list_fifo}
use gateway_esp.Server.Uri.{scan_device}
use gateway_esp.Server.Defs.{Gateway, free_mes, restart, send_text}
use gateway_esp.Server.Handler.{ws_handler, wss_close_fd}
use gateway_esp.Server.Broadcast.{
  device_cb, IsLinked, messages, null_sends, device_cb-messages, device_cb-camera,
}
use gateway_esp.Server.Camera.{Replies}
use gateway_esp.Server.Async.{
  AsyncEvent, asks, turn, Async, async_run, answers, async_data, async_run-answers,
}
use gateway_esp.Server.Invariant.{IsSound}
use gateway_esp.Server.Tidy.{with_live, Tidy}
use gateway_esp.Server.Live.{Run, started, shaken, closed, run-Tidy, IsForLive, run-IsForLive}
use gateway_esp.Server.Watchdog.{soft_wd, soft_wd_iff}
use gateway_esp.Server.Capacity.{handshake-total}
use gateway_esp.Server.Start.{start_webserver, registered_uris, Names, start_webserver-IsValid}
use gateway_esp.Clients.Register.{count_fd}
use gateway_esp.Clients.Total.{total}
use gateway_esp.KeepAlive.Timer.{IsTimer}
use gateway_esp.KeepAlive.Task.{IsValid}
use gateway_esp.Server.Uri.{scan_device}
use gateway_esp.Server.Sample.{clock, gateway, features, handshake_request, text_frame}

printer_clients-IsLinked : All IsLinked busy_clients.printer_clients
unfolding ◌==ℤ◌
printer_clients-IsLinked = (refl, (refl, (refl, (refl, (refl, (refl, tt))))))

device_cb-messages_example :
    device_cb busy_clients (72 ∷ []) none (pos 1)
    ≡ messages busy_clients.printer_clients (72 ∷ []) ++ (free_mes ∷ [])
device_cb-messages_example =
    device_cb-messages busy_clients (72 ∷ []) (pos 1) printer busy_clients-SixEach
      printer_clients-IsLinked refl

device_cb-camera_example :
    device_cb busy_clients (72 ∷ []) none (pos 0)
    ≡ null_sends busy_clients.printer_clients (72 ∷ []) ++ (free_mes ∷ [])
device_cb-camera_example =
    device_cb-camera busy_clients (72 ∷ []) refl printer_clients-IsLinked refl

soft_wd_iff_example :
    Has restart (soft_wd true false 7 busy_clients)
    ↔ ((d : Device) → d ≢ camera → All (λ c. c.fd ≡ minus_one) (table busy_clients d))
soft_wd_iff_example = soft_wd_iff true false 7 busy_clients busy_clients-SixEach

abbrev replies : Replies
replies = record { send_err = esp_ok; queue_err = esp_ok }

-- A handshake of socket 60 for the relay.
abbrev after_handshake : Gateway (ListQueue ClientFdAction)
after_handshake =
    (ws_handler clock (list_fifo ClientFdAction) features (handshake_request (pos 60)) text_frame
      (record gateway { clients = init_clients busy_clients }) 0).1

-- The server after that handshake, and after the closing.
run_shaken :
    Run clock
      (list_fifo ClientFdAction)
      features
      after_handshake
      (with_live (pos 60) true (λ fd. false))
run_shaken =
    shaken (record gateway { clients = init_clients busy_clients }) (λ fd. false)
      (handshake_request (pos 60)) text_frame 0 refl (λ e. cc) refl
      (started gateway busy_clients-SixEach)

run-Tidy_example :
    let g = (wss_close_fd clock (list_fifo ClientFdAction) features (pos 60) after_handshake).0 in
    IsSound g.clients
    × Tidy g.clients (with_live (pos 60) false (with_live (pos 60) true (λ fd. false)))
run-Tidy_example =
    run-Tidy clock (list_fifo ClientFdAction) features
      (wss_close_fd clock (list_fifo ClientFdAction) features (pos 60) after_handshake).0
      (with_live (pos 60) false (with_live (pos 60) true (λ fd. false)))
      (closed after_handshake (with_live (pos 60) true (λ fd. false)) (pos 60) (λ e. cc) run_shaken)

run-IsForLive_example :
    All
      (IsForLive (with_live (pos 60) true (λ fd. false)))
      (device_cb after_handshake.clients (72 ∷ []) none (pos 5))
run-IsForLive_example =
    run-IsForLive clock (list_fifo ClientFdAction) features after_handshake
      (with_live (pos 60) true (λ fd. false)) (72 ∷ []) 5 relay run_shaken refl

handshake-total_example :
    let g' =
      (ws_handler clock
        (list_fifo ClientFdAction)
        features
        (handshake_request (pos 61))
        text_frame
        after_handshake
        0).1.clients in
    (count_fd (pos 61) (table g' relay) ≡ 1) × (total (pos 61) g' ≡ 1)
unfolding scan_device ◌==ℤ◌
handshake-total_example =
    handshake-total clock (list_fifo ClientFdAction) features after_handshake
      (with_live (pos 60) true (λ fd. false)) (pos 60 ∷ []) relay (handshake_request (pos 61))
      text_frame 0 run_shaken (λ fd alive. inl (ground (arith, ==ℤ_iff fd (pos 60))))
      (λ fd m. elim m [ inl e ↦ rw e (λ q. cc) | inr n ↦ absurd n ]) (omega arith) refl (λ e. cc)
      refl refl

clock-IsTimer : IsTimer clock
clock-IsTimer = record { small = λ n. omega arith; mono = λ n. omega arith }

start_webserver-IsValid_example :
    ((server : ℕ)
      → some 1 ≡ some server
      → (true && (true && true)) ≡ true
      → (h : Storage (ListQueue ClientFdAction)) × (start_webserver clock
            (list_fifo ClientFdAction)
            true
            true
            true
            (some 1)
          ≡ some (record {
            server = some server;
            max_open_sockets = 6;
            keep_alive = some h;
            uris = registered_uris;
          }))
        × IsValid clock clock-IsTimer (list_fifo ClientFdAction) h
        × (h.clients ≡ replicate 6 zeroed)
        × (h.user_ctx ≡ some server))
    × ((d : Device) → d ≢ camera → (uri : List ℕ) × Has uri registered_uris × Names d uri)
    × All (λ uri. (d : Device) × Names d uri) registered_uris
    × ((start_webserver clock (list_fifo ClientFdAction) true true true (some 1) ≡ none) ↔ (
        ((true && not true) ≡ true)
        ⊎ ((◌≢◌ {A = Option ℕ} (some 1) none) × ((true && true) ≡ false))))
start_webserver-IsValid_example =
    start_webserver-IsValid clock (list_fifo ClientFdAction) clock-IsTimer true true true (some 1)

-- Socket 54's request is queued, that of socket 60 is not, and the server then runs what is queued.
abbrev two_requests : List AsyncEvent
two_requests =
    asks esp_ok (record { hd = some 1; fd = pos 54 })
    ∷ asks esp_fail (record { hd = some 1; fd = pos 60 })
    ∷ turn
    ∷ []

abbrev nothing_queued : Async
nothing_queued = record { args = 0; queued = [] }

async_run-answers_example :
    let (s', sent) = async_run two_requests nothing_queued in
    (sent ++ answers s'.queued ≡ send_text (some 1) (pos 54) async_data ∷ [])
    × (s'.args ≡ length s'.queued + (0 + 1))
async_run-answers_example = async_run-answers two_requests nothing_queued 0 refl
