-- ===== src/Board/Up.antt =====
-- main/main.c, app_main: what holds when the program has started.
use gateway_esp.Prelude.{
  ℕ, ◌≡◌, refl, sym, subst, inl, inr, Bool-cases, Bool, true, false, List, ◌++◌, none, some, ◌&&◌,
}
use gateway_esp.Rtos.{Fifo}
use gateway_esp.KeepAlive.Defs.{ClientFdAction}
use gateway_esp.KeepAlive.Engine.{Storage}
use gateway_esp.KeepAlive.Timer.{IsTimer}
use gateway_esp.KeepAlive.Task.{IsValid}
use gateway_esp.Clients.Defs.{Clients, init_clients}
use gateway_esp.Clients.Held.{SixEach}
use gateway_esp.Server.Defs.{Features}
use gateway_esp.Server.Start.{start_webserver-IsValid}
use gateway_esp.Server.Live.{Run, started}
use gateway_esp.Devices.Relay.{online, RelayConfig, init_relay}
use gateway_esp.Devices.Trigger.{init_trigger}
use gateway_esp.Devices.Scanner.{init_barcode_scanner}
use gateway_esp.Devices.Led.{init_led_device}
use gateway_esp.Camera.Start.{init_camera}
use gateway_esp.Board.Machine.{Board}
use gateway_esp.Board.Start.{
  Network, wifi, ethernet, nvs_ok, StartupCall, StartupAnswers, Statics, Progress, then_do,
  start_scanner, start_printer, start_trigger, start_relay, start_led, init_devices, init_nvs,
  init_network, before_server, serve, app_main, up, first_calls, fill_tables, board_of,
  after_server,
}

-- The start goes on, with variables of which `P` holds.
abbrev Goes : (Statics → Type 0) → Progress → Type 0
Goes P none = ⊥
Goes P (some (s, calls)) = P s

then_do-Goes :
    (P Q : Statics → Type 0) (p : Progress) (f : Statics → Progress)
    → Goes P p
    → ((s : Statics) → P s → Goes Q (f s))
    → Goes Q (then_do p f)
then_do-Goes P Q none f g next = g
then_do-Goes P Q (some (s, calls)) f g next = more (f s) (next s g)
  where
    more :
        (q : Progress)
        → Goes Q q
        → Goes Q
            (elim q as (λ x. Progress) [ none ↦ none | some (s', rest) ↦ some (s', calls ++ rest) ])
    more none h = h
    more (some (s', rest)) h = h

-- The tables have six entries each, and the given devices are online.
abbrev Ready : Bool → Bool → Bool → Bool → Statics → Type 0
Ready barcode trigger relay led s =
    SixEach s.clients
    × (barcode ≡ true → s.barcode_status ≡ online)
    × (trigger ≡ true → s.trigger_of.trigger_status ≡ online)
    × (relay ≡ true → s.relay_of.relay_status ≡ online)
    × (led ≡ true → s.led_status ≡ online)

module _ (f : Features) (cfg : RelayConfig) (a : StartupAnswers) (uart : a.uart_installed ≡ true)
    (display : a.led_installed ≡ true) where
  scanner-Ready :
      (s : Statics)
      → SixEach s.clients
      → Goes (Ready f.barcode false false false) (start_scanner f a s)
  unfolding init_barcode_scanner
  scanner-Ready s six = elim (Bool-cases f.barcode) [
    | inl has ↦ rw (has, uart) (six, (λ e. refl), (λ e. cc), (λ e. cc), (λ e. cc))
    | inr lacks ↦ rw lacks (six, (λ e. cc), (λ e. cc), (λ e. cc), (λ e. cc))
  ]

  trigger-Ready :
      (s : Statics)
      → Ready f.barcode false false false s
      → Goes (Ready f.barcode f.trigger false false) (start_trigger f s)
  unfolding init_trigger
  trigger-Ready s (six, b, t, r, l) = elim (Bool-cases f.trigger) [
    | inl has ↦ rw has (six, b, (λ e. refl), r, l)
    | inr lacks ↦ rw lacks (six, b, (λ e. cc), r, l)
  ]

  relay-Ready :
      (s : Statics)
      → Ready f.barcode f.trigger false false s
      → Goes (Ready f.barcode f.trigger f.relay false) (start_relay f cfg s)
  unfolding init_relay
  relay-Ready s (six, b, t, r, l) = elim (Bool-cases f.relay) [
    | inl has ↦ rw has (six, b, t, (λ e. refl), l)
    | inr lacks ↦ rw lacks (six, b, t, (λ e. cc), l)
  ]

  led-Ready :
      (s : Statics)
      → Ready f.barcode f.trigger f.relay false s
      → Goes (Ready f.barcode f.trigger f.relay f.led_matrix) (start_led f a s)
  unfolding init_led_device
  led-Ready s (six, b, t, r, l) = elim (Bool-cases f.led_matrix) [
    | inl has ↦ rw (has, display) (six, b, t, r, (λ e. refl))
    | inr lacks ↦ rw lacks (six, b, t, r, (λ e. cc))
  ]

  init_devices-Ready :
      (s : Statics)
      → SixEach s.clients
      → Goes (Ready f.barcode f.trigger f.relay f.led_matrix) (init_devices f cfg a s)
  unfolding init_devices
  init_devices-Ready s six =
      let after_scanner = Ready f.barcode false false false in
      let after_trigger = Ready f.barcode f.trigger false false in
      let after_relay = Ready f.barcode f.trigger f.relay false in
      let first =
        then_do-Goes after_scanner after_scanner (start_scanner f a s) (start_printer f)
          (scanner-Ready s six) (λ s₁ r. r) in
      let second =
        then_do-Goes after_scanner after_trigger _ (start_trigger f) first trigger-Ready in
      let third = then_do-Goes after_trigger after_relay _ (start_relay f cfg) second relay-Ready in
      then_do-Goes after_relay (Ready f.barcode f.trigger f.relay f.led_matrix) _ (start_led f a)
        third led-Ready

-- The network comes up.
abbrev pub ComesUp : Network → StartupAnswers → Type 0
ComesUp wifi a = ((init_nvs a.nvs a.erased a.nvs_again).1 ≡ true) × (a.network_up ≡ true)
ComesUp ethernet a = (a.nvs ≡ nvs_ok) × (a.network_up ≡ true)

init_network-Goes :
    (P : Statics → Type 0) (network : Network) (a : StartupAnswers) (s : Statics)
    → ComesUp network a
    → P s
    → Goes P (init_network network a s)
unfolding init_network
init_network-Goes P wifi a s (ready, there) p = rw (ready, there) p
init_network-Goes P ethernet a s (ready, there) p = rw (ready, init_network, there) p

-- The tables are filled, and the devices of the build are online.
abbrev Filled : Features → Statics → Type 0
Filled f s =
    (c : Clients) × SixEach c
    × (s.clients ≡ init_clients c)
    × (f.barcode ≡ true → s.barcode_status ≡ online)
    × (f.trigger ≡ true → s.trigger_of.trigger_status ≡ online)
    × (f.relay ≡ true → s.relay_of.relay_status ≡ online)
    × (f.led_matrix ≡ true → s.led_status ≡ online)

before_server-Filled :
    (f : Features) (cfg : RelayConfig) (network : Network) (a : StartupAnswers) (s : Statics)
    → a.uart_installed ≡ true
    → a.led_installed ≡ true
    → ComesUp network a
    → SixEach s.clients
    → Goes (Filled f) (before_server f cfg network a s)
unfolding before_server
before_server-Filled f cfg network a s uart display there six =
    let first : Statics → Type 0 = λ t. SixEach t.clients in
    let devices = Ready f.barcode f.trigger f.relay f.led_matrix in
    let started_devices =
      then_do-Goes first devices (some (s, first_calls)) (init_devices f cfg a) six
        (init_devices-Ready f cfg a uart display) in
    let filled =
      then_do-Goes devices (Filled f) _ fill_tables started_devices
        (λ t (six', b, tr, r, l). (t.clients, six', refl, b, tr, r, l)) in
    then_do-Goes (Filled f) (Filled f) _ (init_network network a) filled
      (λ t p. init_network-Goes (Filled f) network a t there p)

module _ (esp_timer : ℕ → ℕ) (timer : IsTimer esp_timer) (fifo : Fifo ClientFdAction) where
  open fifo use {Queue}

  -- The program is up: the server's state is one from which its events start, with no live socket, the
  -- keep-alive storage is valid and has the server, and the devices of the build are online.
  pub record IsUp (f : Features) (server : ℕ) (b : Board Queue) : Type 0 where
    pub runs : Run esp_timer fifo f b.gateway (λ fd. false)
    pub valid : IsValid esp_timer timer fifo b.gateway.keep_alive
    pub has_server : b.gateway.keep_alive.user_ctx ≡ some server
    pub barcode_online : f.barcode ≡ true → b.barcode_status ≡ online
    pub trigger_online : f.trigger ≡ true → b.trigger_of.trigger_status ≡ online
    pub relay_online : f.relay ≡ true → b.relay_state_of.relay_status ≡ online
    pub led_online : f.led_matrix ≡ true → b.led_status_of ≡ online

  Filled-IsUp :
      (f : Features) (server : ℕ) (s : Statics) (h : Storage Queue)
      → Filled f s
      → IsValid esp_timer timer fifo h
      → h.user_ctx ≡ some server
      → IsUp f server (board_of s h)
  Filled-IsUp f server s h (c, six, filled, b, t, r, l) valid ctx = record {
    runs =
        subst (λ cs. Run esp_timer fifo f (record { clients = cs; keep_alive = h }) (λ fd. false))
          (sym filled) (started (record { clients = c; keep_alive = h }) six);
    valid = valid;
    has_server = ctx;
    barcode_online = b;
    trigger_online = t;
    relay_online = r;
    led_online = l;
  }

  serve-IsUp :
      (f : Features) (has_camera : Bool) (a : StartupAnswers) (server : ℕ) (p : Progress)
      → a.http_started ≡ some server
      → (a.allocated && (a.queue_made && a.task_created)) ≡ true
      → (has_camera ≡ true → (init_camera a.camera).1 ≡ true)
      → Goes (Filled f) p
      → (b : Board Queue) × (calls : List StartupCall) × (serve esp_timer fifo has_camera a p
          ≡ up b server calls)
        × IsUp f server b
  serve-IsUp f has_camera a server none http engine camera p = absurd p
  serve-IsUp f has_camera a server (some (s, calls)) http engine camera p =
      let (h, starts, valid, free, ctx) =
        (start_webserver-IsValid esp_timer fifo timer a.allocated a.queue_made a.task_created
            a.http_started).0
          server http engine in
      (
        board_of s h,
        calls ++ (after_server has_camera a.camera).0,
        rw (starts, goes_on has_camera camera) refl,
        Filled-IsUp f server s h p valid ctx,
      )
    where
      goes_on :
          (has : Bool)
          → (has ≡ true → (init_camera a.camera).1 ≡ true)
          → (after_server has a.camera).1 ≡ true
      goes_on true ok = ok refl
      goes_on false ok = refl

  -- When the drivers of scanner and display can be installed, the network comes up, the keep-alive
  -- engine and the HTTP server start, and the camera, if there is one, starts: app_main ends with the
  -- program up.
  pub app_main-IsUp :
      (f : Features) (cfg : RelayConfig) (network : Network) (has_camera : Bool)
      (a : StartupAnswers) (s : Statics) (server : ℕ)
      → a.uart_installed ≡ true
      → a.led_installed ≡ true
      → ComesUp network a
      → a.http_started ≡ some server
      → (a.allocated && (a.queue_made && a.task_created)) ≡ true
      → (has_camera ≡ true → (init_camera a.camera).1 ≡ true)
      → SixEach s.clients
      → (b : Board Queue) × (calls : List StartupCall) × (app_main esp_timer fifo f cfg network
            has_camera a s
          ≡ up b server calls)
        × IsUp f server b
  unfolding app_main
  app_main-IsUp f cfg network has_camera a s server uart display there http engine camera six =
      serve-IsUp f has_camera a server (before_server f cfg network a s) http engine camera
        (before_server-Filled f cfg network a s uart display there six)
