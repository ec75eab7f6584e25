-- ===== src/Camera/Drain.antt =====
-- main/camera/usb_camera.c: sender_task empties the ring buffer.
use gateway_esp.Prelude.{
  ℕ, zero, suc, ◌≤◌, ◌≡◌, refl, ap, List, [], ◌∷◌, length, length-append, replicate, arith,
  Option-cases, inl, inr, ◌∙◌,
}
use gateway_esp.Rtos.{ByteRing}
use gateway_esp.Clients.Defs.{ConnectedClient}
use gateway_esp.Camera.Stream.{Camera, sender, sender_round, stream_step, stream_run}

nil_of_length : (l : List ℕ) → length l ≤ 0 → l ≡ []
nil_of_length [] h = refl
nil_of_length (a ∷ l) h = absurd (omega (arith, h))

module _ (b : ByteRing) where
  sender_round-shrinks :
      (clients : List ConnectedClient) (ring : b.Ring) (k : ℕ)
      → b.lent ring ≡ 0
      → length (b.bytes ring) ≤ suc k
      → let round = sender_round b clients ring in
        (length (b.bytes round.0) ≤ k) × (b.lent round.0 ≡ 0)
  unfolding sender_round
  sender_round-shrinks clients ring k idle small =
      elim (Option-cases (b.receive_up_to 20000 ring)) [
        | inl e ↦
            let empty = b.receive_up_to-none 20000 ring (omega arith) idle e in
            rw (sender_round, e, empty) (omega arith, idle)
        | inr ((payload, ring'), e) ↦
            let got = b.receive_up_to-some 20000 ring ring' payload e in
            let back = b.return_item_lem ring' payload in
            rw (sender_round, e, back.0, back.1)
              (
                omega
                    (arith, small, ap length got.0 ∙ length-append payload (b.bytes ring'), got.2),
                omega (arith, got.1, idle),
              )
      ]

  -- With no frame arriving, as many rounds of the sender as there are bytes in the ring buffer leave
  -- it empty, whoever is connected, and no item remains unreturned.
  pub stream_run-drains :
      (clients : List ConnectedClient) (k : ℕ) (c : Camera b.Ring)
      → b.lent c.frame_buffer ≡ 0
      → length (b.bytes c.frame_buffer) ≤ k
      → let c' = (stream_run b (replicate k (sender clients)) c).0 in
        (b.bytes c'.frame_buffer ≡ []) × (b.lent c'.frame_buffer ≡ 0)
  unfolding stream_run stream_step
  stream_run-drains clients zero c idle small = (nil_of_length (b.bytes c.frame_buffer) small, idle)
  stream_run-drains clients (suc k) c idle small =
      let (less, back) = sender_round-shrinks clients c.frame_buffer k idle small in
      stream_run-drains clients k (stream_step b (sender clients) c).0 back less
