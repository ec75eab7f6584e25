-- ===== src/Camera/Sent.antt =====
-- main/camera/usb_camera.c: which bytes of the camera's frames reach which client.
use gateway_esp.Prelude.{
  ℕ, zero, suc, ◌≤◌, ◌≡◌, refl, sym, ◌∙◌, ◌≢◌, List, [], ◌∷◌, ◌++◌, get_elem?, length, ℤ, minus_one,
  ◌==ℤ◌, ==ℤ_iff, arith, All, Bool-cases, Option-cases, inl, inr,
}
use mathlib.Core.List.{append-nil}
use gateway_esp.Rtos.{ByteRing}
use gateway_esp.Clients.Defs.{ConnectedClient}
use gateway_esp.Camera.Stream.{
  ring_return, Camera, StreamEvent, frame, sender, clients_of, send_frames, ring_sent, ws_send_loop,
  ws_send, count_frame, frame_callback, sender_round, stream_step, stream_run,
}
use gateway_esp.Camera.Received.{
  taken, offered, received_by, frames_of, frames_of-cons, chain, holders, taken-append,
  offered-append, received_by-append, send_frames-received_by,
}

module _ (b : ByteRing) where
  ring_sent_lem :
      (fd : ℤ) (n : ℕ) (payload : List ℕ) (ring : b.Ring)
      → let sent = ring_sent b ring payload (b.send ring payload) in
        (b.bytes ring ++ taken sent.2 ≡ b.bytes sent.1)
        × (b.lent sent.1 ≡ b.lent ring)
        × (received_by fd sent.2 ≡ [])
        × (1 ≤ n → offered sent.2 ≡ payload ∷ [])
  ring_sent_lem fd n payload ring = elim (Option-cases (b.send ring payload)) [
    | inl e ↦ rw e (append-nil (b.bytes ring), refl, refl, λ le. refl)
    | inr (ring', e) ↦
        let (more, same) = b.send-some ring ring' payload e in
        rw (e, append-nil payload) (sym more, same, refl, λ le. refl)
  ]

  -- `ws_send` offers the frame once if one of the entries is connected, and sends nothing itself.
  ws_send_loop-taken :
      (fd : ℤ) (clients : List ConnectedClient) (payload : List ℕ) (ring : b.Ring) (k i : ℕ)
      → fd ≢ minus_one
      → let sent = ws_send_loop b clients payload ring k i in
        (b.bytes ring ++ taken sent.2 ≡ b.bytes sent.1)
        × (b.lent sent.1 ≡ b.lent ring)
        × (received_by fd sent.2 ≡ [])
        × (1 ≤ holders fd clients k i → offered sent.2 ≡ payload ∷ [])
  unfolding ws_send_loop
  ws_send_loop-taken fd clients payload ring zero i h =
      (append-nil (b.bytes ring), refl, refl, λ e. absurd (omega (arith, e)))
  ws_send_loop-taken fd clients payload ring (suc k) i h =
      let rest = ws_send_loop-taken fd clients payload ring k (suc i) h in
      elim (Option-cases (get_elem? clients i)) [
        | inl e ↦ rw (ws_send_loop, e) rest
        | inr (c, e) ↦ elim (Bool-cases (c.fd ==ℤ minus_one)) [
          | inl off ↦
              rw (ws_send_loop, e, off)
                (
                  rest.0,
                  rest.1,
                  rest.2,
                  ground (arith, rest.3, ==ℤ_iff c.fd minus_one, ==ℤ_iff c.fd fd),
                )
          | inr on ↦ rw (ws_send_loop, e, on) (ring_sent_lem fd _ payload ring)
        ]
      ]

  -- A round of the sender gives a socket each byte that it takes from the ring buffer once for each
  -- entry that holds the socket, and returns the item.
  sender_round-received_by :
      (fd : ℤ) (clients : List ConnectedClient) (ring : b.Ring)
      → fd ≢ minus_one
      → holders fd clients 3 0 ≡ 1
      → b.lent ring ≡ 0
      → let round = sender_round b clients ring in
        (b.bytes ring ≡ received_by fd round.1 ++ b.bytes round.0)
        × (b.lent round.0 ≡ 0)
        × (taken round.1 ≡ [])
        × (offered round.1 ≡ [])
  unfolding sender_round
  sender_round-received_by fd clients ring h one idle =
      elim (Option-cases (b.receive_up_to 20000 ring)) [
        | inl e ↦ rw (sender_round, e) (refl, idle, refl, refl)
        | inr ((payload, ring'), e) ↦
            let got = b.receive_up_to-some 20000 ring ring' payload e in
            let back = b.return_item_lem ring' payload in
            let sent = send_frames-received_by fd clients payload 3 0 h in
            let calls = send_frames clients payload 3 0 in
            rw
              (
                sender_round,
                e,
                received_by-append fd calls (ring_return payload ∷ []),
                taken-append calls (ring_return payload ∷ []),
                offered-append calls (ring_return payload ∷ []),
                sent.0,
                sent.1,
                sent.2,
                one,
                back.0,
                back.1,
                got.0,
                append-nil payload,
                append-nil payload,
              )
              (refl, omega (arith, got.1, idle), refl, refl)
      ]

  count_frame-quiet :
      (fd : ℤ) (now size : ℕ) (c : Camera b.Ring)
      → let calls = (count_frame b now size c).1 in
        (taken calls ≡ []) × (offered calls ≡ []) × (received_by fd calls ≡ [])
  unfolding count_frame
  count_frame-quiet fd now size c = ground arith

  -- What one event does to the ring buffer and to what a socket has received.
  stream_step-received_by :
      (fd : ℤ) (e : StreamEvent) (c : Camera b.Ring)
      → fd ≢ minus_one
      → holders fd (clients_of e) 3 0 ≡ 1
      → b.lent c.frame_buffer ≡ 0
      → let (c', calls) = stream_step b e c in
        (b.bytes c.frame_buffer ++ taken calls ≡ received_by fd calls ++ b.bytes c'.frame_buffer)
        × (b.lent c'.frame_buffer ≡ 0)
        × (offered calls ≡ frames_of (e ∷ []))
  unfolding stream_step frame_callback count_frame ws_send
  stream_step-received_by fd (sender clients) c h one idle =
      let (got, back, none_taken, none_offered) =
        sender_round-received_by fd clients c.frame_buffer h one idle in
      rw (none_taken, none_offered, append-nil (b.bytes c.frame_buffer)) (got, back, refl)
  stream_step-received_by fd (frame now payload clients) c h one idle =
      let sent = ws_send_loop-taken fd clients payload c.frame_buffer 3 0 h in
      let count = (count_frame b now (length payload) c).1 in
      let quiet = count_frame-quiet fd now (length payload) c in
      let calls = (ws_send b clients payload c.frame_buffer).2 in
      rw
        (
          taken-append count calls,
          offered-append count calls,
          received_by-append fd count calls,
          quiet.0,
          quiet.1,
          quiet.2,
          sent.2,
        )
        (sent.0, sent.1 ∙ idle, sent.3 (omega (arith, one)))

  -- While a socket stands in exactly one of the first three entries, `ws_send` offers each frame to
  -- the ring buffer once, in order, whatever the interleaving of the tasks and the other clients; and
  -- what waited in the ring buffer, followed by what it took, is what the socket received, followed
  -- by what then waits.
  pub stream_run-received_by :
      (fd : ℤ) (es : List StreamEvent) (c : Camera b.Ring)
      → fd ≢ minus_one
      → All (λ e. holders fd (clients_of e) 3 0 ≡ 1) es
      → b.lent c.frame_buffer ≡ 0
      → let (c', calls) = stream_run b es c in
        (b.bytes c.frame_buffer ++ taken calls ≡ received_by fd calls ++ b.bytes c'.frame_buffer)
        × (offered calls ≡ frames_of es)
        × (b.lent c'.frame_buffer ≡ 0)
  unfolding stream_run
  stream_run-received_by fd [] c h one idle = (append-nil (b.bytes c.frame_buffer), refl, idle)
  stream_run-received_by fd (e ∷ es) c h (here, one) idle =
      let first = stream_step b e c in
      let rest = stream_run b es first.0 in
      let (moved, still, offers) = stream_step-received_by fd e c h here idle in
      let (moved', offers', still') = stream_run-received_by fd es first.0 h one still in
      rw
        (
          taken-append first.1 rest.1,
          offered-append first.1 rest.1,
          received_by-append fd first.1 rest.1,
          offers,
          offers',
        )
        (
          chain (b.bytes c.frame_buffer) (taken first.1) (received_by fd first.1)
              (b.bytes first.0.frame_buffer) (taken rest.1) (received_by fd rest.1)
              (b.bytes rest.0.frame_buffer) moved moved',
          frames_of-cons e es,
          still',
        )

  stream_step-unserved :
      (fd : ℤ) (e : StreamEvent) (c : Camera b.Ring)
      → fd ≢ minus_one
      → holders fd (clients_of e) 3 0 ≡ 0
      → received_by fd (stream_step b e c).1 ≡ []
  unfolding stream_step frame_callback sender_round ws_send
  stream_step-unserved fd (sender clients) c h absent =
      elim (Option-cases (b.receive_up_to 20000 c.frame_buffer)) [
        | inl e ↦ rw (stream_step, sender_round, e) refl
        | inr ((payload, ring'), e) ↦
            let calls = send_frames clients payload 3 0 in
            rw
              (
                stream_step,
                sender_round,
                e,
                received_by-append fd calls (ring_return payload ∷ []),
                (send_frames-received_by fd clients payload 3 0 h).0,
                absent,
              )
              refl
      ]
  stream_step-unserved fd (frame now payload clients) c h absent =
      let count = (count_frame b now (length payload) c).1 in
      let calls = (ws_send b clients payload c.frame_buffer).2 in
      rw
        (
          received_by-append fd count calls,
          (count_frame-quiet fd now (length payload) c).2,
          (ws_send_loop-taken fd clients payload c.frame_buffer 3 0 h).2,
        )
        refl

  -- A socket that stands in none of the first three entries receives nothing, although the table has
  -- six entries.
  pub stream_run-unserved :
      (fd : ℤ) (es : List StreamEvent) (c : Camera b.Ring)
      → fd ≢ minus_one
      → All (λ e. holders fd (clients_of e) 3 0 ≡ 0) es
      → received_by fd (stream_run b es c).1 ≡ []
  unfolding stream_run
  stream_run-unserved fd [] c h absent = refl
  stream_run-unserved fd (e ∷ es) c h (here, absent) =
      let first = stream_step b e c in
      rw
        (
          received_by-append fd first.1 (stream_run b es first.0).1,
          stream_step-unserved fd e c h here,
          stream_run-unserved fd es first.0 h absent,
        )
        refl
