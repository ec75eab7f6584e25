-- ===== src/Server/Live.antt =====
-- main/main.c: a socket stands in the tables only between its handshake and its closing, and in one
-- entry only.
use gateway_esp.Prelude.{
  ℕ, ◌≡◌, ◌≢◌, ◌⊎◌, refl, sym, subst, ◌∙◌, inl, inr, Bool-cases, true, false, List, [], ◌∷◌, none,
  some, ℤ, pos, minus_one, ◌==ℤ◌, ==ℤ_iff, ==ℤ_refl, arith, All, All-append,
}
use gateway_esp.Rtos.{Fifo}
use gateway_esp.Esp.{EspErr}
use gateway_esp.KeepAlive.Defs.{ClientFdAction}
use gateway_esp.Clients.Defs.{
  ConnectedClient, Clients, Device, camera, table, put_table, take_slot, close_loop, close_fd_order,
  close_frame_order, init_clients,
}
use gateway_esp.Clients.Register.{count_fd, length-take_slot}
use gateway_esp.Clients.Held.{SixEach}
use gateway_esp.Clients.Total.{one_table}
use gateway_esp.Server.Defs.{Gateway, Features, Request, Received, Effect, send_text, free_mes}
use gateway_esp.Server.Handler.{ws_handler, handle_frame, wss_open_fd, wss_close_fd, handshake}
use gateway_esp.Server.Camera.{Replies, CameraCall, camera_client}
use gateway_esp.Server.Broadcast.{
  device_cb, broadcast_tables, messages, device_cb-table, take_slot-IsLinked,
}
use gateway_esp.Server.Invariant.{
  IsSound, init_clients-IsSound, ws_handler-IsSound, close_loop-IsSound, put_table-IsSound,
}
use gateway_esp.Server.Tidy.{
  Live, with_live, Tidy, init_clients-Tidy, take_slot-Tidy, close_loop-Tidy, close_fd-Tidy,
  handshake-Tidy,
}

-- The message is for a live socket.
abbrev pub IsForLive : Live → Effect → Type 0
IsForLive live (send_text hd fd mes) = live fd ≡ true
IsForLive live e = Unit

messages-IsForLive :
    (cs : List ConnectedClient) (live : Live) (mes : List ℕ)
    → ((fd : ℤ) → fd ≢ minus_one → live fd ≡ false → count_fd fd cs ≡ 0)
    → All (IsForLive live) (messages cs mes)
messages-IsForLive [] live mes h = tt
messages-IsForLive (c ∷ cs) live mes h =
    let rest = messages-IsForLive cs live mes (λ fd real dead. ground (arith, h fd real dead)) in
    elim (Bool-cases (c.fd ==ℤ minus_one)) [
      | inl free ↦ rw free rest
      | inr taken ↦ rw taken (
        elim (Bool-cases (live c.fd)) [
          | inl alive ↦ alive
          | inr dead ↦
              let real : c.fd ≢ minus_one = λ e. cc (taken, (==ℤ_iff c.fd minus_one).1 e) in
              ground (arith, h c.fd real dead, ==ℤ_refl c.fd)
        ],
        rest,
      )
    ]

module _ (esp_timer : ℕ → ℕ) (fifo : Fifo ClientFdAction) (f : Features) where
  open fifo use {Queue}

  -- The states after the start and any events, with the sockets that are live: a socket is opened,
  -- makes its handshake, which it does once, sends frames, and is closed, in which the HTTP server
  -- calls the handler of its path, `ws_handler` or `camera_client`.
  pub data Run : Gateway Queue → Live → Type 0 where
    started :
        (g : Gateway Queue)
        → SixEach g.clients
        → Run (record g { clients = init_clients g.clients }) (λ fd. false)
    opened :
        (g : Gateway Queue) (live : Live) (fd : ℤ)
        → Run g live
        → Run (wss_open_fd esp_timer fifo f fd g).1 live
    shaken :
        (g : Gateway Queue) (live : Live) (req : Request) (r : Received) (n : ℕ)
        → req.is_get ≡ true
        → req.sockfd ≢ minus_one
        → live req.sockfd ≡ false
        → Run g live
        → Run (ws_handler esp_timer fifo f req r g n).1 (with_live req.sockfd true live)
    framed :
        (g : Gateway Queue) (live : Live) (req : Request) (r : Received) (n : ℕ)
        → req.is_get ≡ false
        → req.sockfd ≢ minus_one
        → Run g live
        → Run (ws_handler esp_timer fifo f req r g n).1 live
    camera_shaken :
        (g : Gateway Queue) (live : Live) (req : Request) (r : Received) (s : Replies)
        (err : EspErr) (g' : Clients) (calls : List CameraCall)
        → req.is_get ≡ true
        → req.sockfd ≢ minus_one
        → live req.sockfd ≡ false
        → camera_client req r s g.clients ≡ some (err, g', calls)
        → Run g live
        → Run (record g { clients = g' }) (with_live req.sockfd true live)
    camera_framed :
        (g : Gateway Queue) (live : Live) (req : Request) (r : Received) (s : Replies)
        (err : EspErr) (g' : Clients) (calls : List CameraCall)
        → req.is_get ≡ false
        → camera_client req r s g.clients ≡ some (err, g', calls)
        → Run g live
        → Run (record g { clients = g' }) live
    closed :
        (g : Gateway Queue) (live : Live) (fd : ℤ)
        → fd ≢ minus_one
        → Run g live
        → Run (wss_close_fd esp_timer fifo f fd g).0 (with_live fd false live)

  shaken-clients :
      (g : Gateway Queue) (req : Request) (r : Received) (n : ℕ)
      → req.is_get ≡ true
      → (ws_handler esp_timer fifo f req r g n).1.clients ≡ handshake req g.clients
  unfolding ws_handler
  shaken-clients g req r n get = rw (get, ws_handler) refl

  framed-clients :
      (g : Gateway Queue) (req : Request) (r : Received) (n : ℕ)
      → req.is_get ≡ false
      → let g' = (ws_handler esp_timer fifo f req r g n).1.clients in
        (g' ≡ close_loop close_frame_order 6 0 req.sockfd g.clients) ⊎ (g' ≡ g.clients)
  unfolding ws_handler handle_frame
  framed-clients g req r n get = ground arith

  camera_shaken-clients :
      (g g' : Clients) (req : Request) (r : Received) (s : Replies) (err : EspErr)
      (calls : List CameraCall)
      → req.is_get ≡ true
      → camera_client req r s g ≡ some (err, g', calls)
      → g' ≡ put_table g camera (take_slot (table g camera) req.handle req.sockfd).0
  unfolding camera_client
  camera_shaken-clients g g' req r s err calls get e = ground arith

  camera_framed-clients :
      (g g' : Clients) (req : Request) (r : Received) (s : Replies) (err : EspErr)
      (calls : List CameraCall)
      → req.is_get ≡ false
      → camera_client req r s g ≡ some (err, g', calls)
      → (g' ≡ close_loop (camera ∷ []) 6 0 req.sockfd g) ⊎ (g' ≡ g)
  unfolding camera_client
  camera_framed-clients g g' req r s err calls get e = ground arith

  -- In every state of the server, each table has six entries, of which each has a handle exactly if it
  -- has a socket; a live socket stands in one entry of all tables at most, and any other socket in
  -- none.
  pub run-Tidy :
      (g : Gateway Queue) (live : Live) → Run g live → IsSound g.clients × Tidy g.clients live
  unfolding wss_open_fd wss_close_fd
  run-Tidy _ _ (started g six) =
      (init_clients-IsSound g.clients six, init_clients-Tidy g.clients six)
  run-Tidy _ _ (opened g live fd h) = run-Tidy g live h
  run-Tidy _ _ (shaken g live req r n get real new h) =
      let (sound, tidy) = run-Tidy g live h in
      (
        ws_handler-IsSound esp_timer fifo f g req r n real sound,
        subst (λ c. Tidy c (with_live req.sockfd true live)) (sym (shaken-clients g req r n get))
            (handshake-Tidy req g.clients live real new tidy),
      )
  run-Tidy _ _ (framed g live req r n get real h) =
      let (sound, tidy) = run-Tidy g live h in
      (
        ws_handler-IsSound esp_timer fifo f g req r n real sound,
        elim (framed-clients g req r n get) [
          | inl e ↦
              subst (λ c. Tidy c live) (sym e)
                (close_loop-Tidy close_frame_order g.clients live req.sockfd tidy)
          | inr e ↦ subst (λ c. Tidy c live) (sym e) tidy
        ],
      )
  run-Tidy _ _ (camera_shaken g live req r s err g' calls get real new e h) =
      let (sound, tidy) = run-Tidy g live h in
      let same = camera_shaken-clients g.clients g' req r s err calls get e in
      rw same (
        put_table-IsSound g.clients camera
            (take_slot (table g.clients camera) req.handle req.sockfd).0 sound
            (length-take_slot (table g.clients camera) req.handle req.sockfd ∙ (sound camera).0)
            (take_slot-IsLinked (table g.clients camera) req.handle req.sockfd real
              (sound camera).1),
        take_slot-Tidy g.clients live camera req.handle req.sockfd real new tidy,
      )
  run-Tidy _ _ (camera_framed g live req r s err g' calls get e h) =
      let (sound, tidy) = run-Tidy g live h in
      elim (camera_framed-clients g.clients g' req r s err calls get e) [
        | inl same ↦ rw same (
          close_loop-IsSound (camera ∷ []) 6 0 req.sockfd g.clients sound,
          close_loop-Tidy (camera ∷ []) g.clients live req.sockfd tidy,
        )
        | inr same ↦ rw same (sound, tidy)
      ]
  run-Tidy _ _ (closed g live fd real h) =
      let (sound, tidy) = run-Tidy g live h in
      (
        close_loop-IsSound close_fd_order 6 0 fd g.clients sound,
        close_fd-Tidy g.clients live fd real (λ d. (sound d).0) tidy,
      )

  -- In every state of the server, what a device other than the camera sends to its clients goes to
  -- live sockets only: to none that is closed, and has not made its handshake again.
  pub run-IsForLive :
      (g : Gateway Queue) (live : Live) (mes : List ℕ) (n : ℕ) (d : Device)
      → Run g live
      → broadcast_tables n ≡ some (d, d)
      → All (IsForLive live) (device_cb g.clients mes none (pos n))
  run-IsForLive g live mes n d h which =
      let (sound, tidy) = run-Tidy g live h in
      let none_held : (fd : ℤ)
          → fd ≢ minus_one
          → live fd ≡ false
          → count_fd fd (table g.clients d) ≡ 0 =
        λ fd real dead. omega (arith, one_table fd g.clients d, (tidy fd real).1 dead) in
      rw (device_cb-table g.clients mes n d (λ e. (sound e).0) (sound d).1 which) (
        All-append (IsForLive live) (messages (table g.clients d) mes) (free_mes ∷ [])
          (messages-IsForLive (table g.clients d) live mes none_held) (tt, tt))
