-- ===== src/Camera/Received.antt =====
-- main/camera/usb_camera.c: the bytes of frames, and how often a loop over the clients sends them.
use gateway_esp.Prelude.{
  ℕ, zero, suc, ◌≡◌, refl, sym, ◌∙◌, ap, ◌≢◌, true, false, List, [], ◌∷◌, ◌++◌, get_elem?,
  if◌then◌else◌, ℤ, minus_one, ◌==ℤ◌, ==ℤ_iff, arith, Option-cases, inl, inr,
}
use mathlib.Core.List.{append_assoc}
use gateway_esp.Clients.Defs.{ConnectedClient, holds}
use gateway_esp.Camera.Stream.{
  StreamCall, ring_send, log_rate, ws_send_data, ring_return, StreamEvent, frame, sender,
  send_frames,
}

-- The bytes that the ring buffer took, in order.
abbrev pub taken : List StreamCall → List ℕ
taken [] = []
taken (ring_send payload ok ∷ cs) = if ok then payload ++ taken cs else taken cs
taken (log_rate fps bytes ∷ cs) = taken cs
taken (ws_send_data hd fd payload ∷ cs) = taken cs
taken (ring_return payload ∷ cs) = taken cs

-- The frames that were offered to the ring buffer, in order.
abbrev pub offered : List StreamCall → List (List ℕ)
offered [] = []
offered (ring_send payload ok ∷ cs) = payload ∷ offered cs
offered (log_rate fps bytes ∷ cs) = offered cs
offered (ws_send_data hd fd payload ∷ cs) = offered cs
offered (ring_return payload ∷ cs) = offered cs

-- The bytes that were sent to a socket, in order.
abbrev pub received_by : ℤ → List StreamCall → List ℕ
received_by fd [] = []
received_by fd (ring_send payload ok ∷ cs) = received_by fd cs
received_by fd (log_rate fps bytes ∷ cs) = received_by fd cs
received_by fd (ws_send_data hd to payload ∷ cs) =
    if to ==ℤ fd then payload ++ received_by fd cs else received_by fd cs
received_by fd (ring_return payload ∷ cs) = received_by fd cs

-- The frames among the events.
abbrev pub frames_of : List StreamEvent → List (List ℕ)
frames_of [] = []
frames_of (frame now payload clients ∷ es) = payload ∷ frames_of es
frames_of (sender clients ∷ es) = frames_of es

pub frames_of-cons :
    (e : StreamEvent) (es : List StreamEvent)
    → frames_of (e ∷ []) ++ frames_of es ≡ frames_of (e ∷ es)
frames_of-cons (frame now payload clients) es = refl
frames_of-cons (sender clients) es = refl

pub chain :
    (was took got mid took' got' left : List ℕ)
    → was ++ took ≡ got ++ mid
    → mid ++ took' ≡ got' ++ left
    → was ++ (took ++ took') ≡ (got ++ got') ++ left
chain was took got mid took' got' left h h' =
    sym (append_assoc was took took')
    ∙ ap (λ l. l ++ took') h
    ∙ append_assoc got mid took'
    ∙ ap (λ l. got ++ l) h'
    ∙ sym (append_assoc got got' left)

-- How many of the `k` entries from `i` hold the socket.
abbrev pub holders : ℤ → List ConnectedClient → ℕ → ℕ → ℕ
holders fd clients zero i = 0
holders fd clients (suc k) i =
    if holds (get_elem? clients i) fd
    then suc (holders fd clients k (suc i))
    else holders fd clients k (suc i)

abbrev times : ℕ → List ℕ → List ℕ
times zero payload = []
times (suc n) payload = payload ++ times n payload

pub taken-append : (cs ds : List StreamCall) → taken (cs ++ ds) ≡ taken cs ++ taken ds
taken-append [] ds = refl
taken-append (ring_send payload true ∷ cs) ds =
    rw (taken-append cs ds) (sym (append_assoc payload (taken cs) (taken ds)))
taken-append (ring_send payload false ∷ cs) ds = taken-append cs ds
taken-append (log_rate fps bytes ∷ cs) ds = taken-append cs ds
taken-append (ws_send_data hd fd payload ∷ cs) ds = taken-append cs ds
taken-append (ring_return payload ∷ cs) ds = taken-append cs ds

pub offered-append : (cs ds : List StreamCall) → offered (cs ++ ds) ≡ offered cs ++ offered ds
offered-append [] ds = refl
offered-append (ring_send payload ok ∷ cs) ds = ap (λ l. payload ∷ l) (offered-append cs ds)
offered-append (log_rate fps bytes ∷ cs) ds = offered-append cs ds
offered-append (ws_send_data hd fd payload ∷ cs) ds = offered-append cs ds
offered-append (ring_return payload ∷ cs) ds = offered-append cs ds

pub received_by-append :
    (fd : ℤ) (cs ds : List StreamCall)
    → received_by fd (cs ++ ds) ≡ received_by fd cs ++ received_by fd ds
received_by-append fd [] ds = refl
received_by-append fd (ring_send payload ok ∷ cs) ds = received_by-append fd cs ds
received_by-append fd (log_rate fps bytes ∷ cs) ds = received_by-append fd cs ds
received_by-append fd (ws_send_data hd to payload ∷ cs) ds = ground (
  arith,
  received_by-append fd cs ds,
  append_assoc payload (received_by fd cs) (received_by fd ds),
)
received_by-append fd (ring_return payload ∷ cs) ds = received_by-append fd cs ds

-- The loop of the sender gives a socket the payload once for each entry that holds it, and offers
-- nothing to the ring buffer.
pub send_frames-received_by :
    (fd : ℤ) (clients : List ConnectedClient) (payload : List ℕ) (k i : ℕ)
    → fd ≢ minus_one
    → (received_by fd (send_frames clients payload k i) ≡ times (holders fd clients k i) payload)
      × (taken (send_frames clients payload k i) ≡ [])
      × (offered (send_frames clients payload k i) ≡ [])
unfolding send_frames
send_frames-received_by fd clients payload zero i h = (refl, refl, refl)
send_frames-received_by fd clients payload (suc k) i h =
    let rest = send_frames-received_by fd clients payload k (suc i) h in
    elim (Option-cases (get_elem? clients i)) [
      | inl e ↦ rw (send_frames, e) rest
      | inr (c, e) ↦
          rw (send_frames, e) (ground (arith, ==ℤ_iff c.fd minus_one, ==ℤ_iff c.fd fd, rest))
    ]
