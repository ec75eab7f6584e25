-- ===== src/Server/Broadcast.antt =====
-- main/main.c, device_cb: messages of the devices to their clients.
use mathlib.Core.Option.{some-injective}
use gateway_esp.Prelude.{
  ℕ, zero, suc, ◌≡◌, refl, ap, subst, ◌≢◌, Bool, true, false, not, List, [], ◌∷◌, ◌++◌, Option,
  none, some, get_elem?, length, ◌<◌, replicate, All, if◌then◌else◌, ◌==◌, ℤ, minus_one, ◌==ℤ◌,
  ==ℤ_iff, arith, ◌+◌,
}
use gateway_esp.Clients.Defs.{
  ConnectedClient, Clients, Device, camera, printer, barcode_scanner, led, trigger, relay, table,
  max_client_num, take_slot, resp_arg_defaults,
}
use gateway_esp.Clients.Held.{SixEach}
use gateway_esp.Server.Handler.{device_of_number}
use gateway_esp.Server.Defs.{Effect, send_text, free_mes}

abbrev pub has_handle : Option ℕ → Bool
has_handle none = false
has_handle (some h) = true

-- `if(gate[i].hd != NULL) httpd_ws_send_frame_async(to[i].hd, to[i].fd, …)`.
abbrev pub send_if : Option ConnectedClient → Option ConnectedClient → List ℕ → List Effect
send_if none to mes = []
send_if (some c) none mes = []
send_if (some c) (some d) mes = if has_handle c.hd then send_text d.hd d.fd mes ∷ [] else []

-- The `switch (device)`: the table that is tested, and the table that is sent to.
abbrev pub broadcast_tables : ℕ → Option (Device × Device)
broadcast_tables n =
    if n == 0
    then some (printer, camera)
    else (if n == 1
        then some (printer, printer)
        else (if n == 2
            then some (barcode_scanner, barcode_scanner)
            else (if n == 3
                then some (led, led)
                else (if n == 4
                    then some (trigger, trigger)
                    else (if n == 5 then some (relay, relay) else none)))))

-- The loop from entry `i`, with `k` entries left.
unfoldable pub send_loop :
    List ConnectedClient → List ConnectedClient → ℕ → ℕ → List ℕ → List Effect
send_loop gate to zero i mes = []
send_loop gate to (suc k) i mes =
    send_if (get_elem? gate i) (get_elem? to i) mes ++ send_loop gate to k (suc i) mes

abbrev pub broadcast : Option (Device × Device) → Clients → List ℕ → List Effect
broadcast none g mes = []
broadcast (some (gate, to)) g mes = send_loop (table g gate) (table g to) max_client_num 0 mes

-- With no handle the message goes to the clients of the device; with a handle `device` is a socket.
-- A negative device number has no case.
unfoldable pub device_cb : Clients → List ℕ → Option ℕ → ℤ → List Effect
device_cb g mes (some handle) device = send_text (some handle) device mes ∷ free_mes ∷ []
device_cb g mes none (ℤ.pos n) = broadcast (broadcast_tables n) g mes ++ (free_mes ∷ [])
device_cb g mes none (ℤ.negsuc n) = free_mes ∷ []

-- An entry has a handle exactly if it has a socket.
abbrev pub IsLinked : ConnectedClient → Type 0
IsLinked c = has_handle c.hd ≡ not (c.fd ==ℤ minus_one)

-- A handshake of a socket keeps the entries linked.
pub take_slot-IsLinked :
    (cs : List ConnectedClient) (handle : ℕ) (fd : ℤ)
    → fd ≢ minus_one
    → All IsLinked cs
    → All IsLinked (take_slot cs handle fd).0
unfolding take_slot
take_slot-IsLinked [] handle fd h a = tt
take_slot-IsLinked (c ∷ cs) handle fd h a =
    ground (arith, ==ℤ_iff fd minus_one, take_slot-IsLinked cs handle fd h a.1)

-- One message for each entry that has a socket, in order.
abbrev pub messages : List ConnectedClient → List ℕ → List Effect
messages [] mes = []
messages (c ∷ cs) mes =
    if c.fd ==ℤ minus_one then messages cs mes else send_text c.hd c.fd mes ∷ messages cs mes

send_loop-messages :
    (cs arr : List ConnectedClient) (i : ℕ) (mes : List ℕ)
    → All IsLinked cs
    → ((j m : ℕ) → m ≡ i + j → get_elem? arr m ≡ get_elem? cs j)
    → send_loop arr arr (length cs) i mes ≡ messages cs mes
unfolding send_loop
send_loop-messages [] arr i mes a h = refl
send_loop-messages (c ∷ cs) arr i mes a h = rw (h 0 i (omega arith)) (
    ground
      (arith, a.0, send_loop-messages cs arr (suc i) mes a.1 (λ j m e. h (suc j) m (omega arith))))

pub device_cb-table :
    (g : Clients) (mes : List ℕ) (n : ℕ) (d : Device)
    → SixEach g
    → All IsLinked (table g d)
    → broadcast_tables n ≡ some (d, d)
    → device_cb g mes none (ℤ.pos n) ≡ messages (table g d) mes ++ (free_mes ∷ [])
unfolding device_cb
device_cb-table g mes n d six linked which = rw which (
    ap (λ l. l ++ (free_mes ∷ []))
      (subst (λ k. send_loop (table g d) (table g d) k 0 mes ≡ messages (table g d) mes) (six d)
        (send_loop-messages (table g d) (table g d) 0 mes linked
          (λ j m e. let e' : m ≡ j = omega arith in rw e' refl))))

-- The number of a device in the path of a handshake is its number for messages.
broadcast_tables-device :
    (n : ℕ) (d : Device) → device_of_number (ℤ.pos n) ≡ some d → broadcast_tables n ≡ some (d, d)
broadcast_tables-device zero d e = absurd (cc)
broadcast_tables-device (suc zero) d e = rw (some-injective _ d e) refl
broadcast_tables-device (suc (suc zero)) d e = rw (some-injective _ d e) refl
broadcast_tables-device (suc (suc (suc zero))) d e = rw (some-injective _ d e) refl
broadcast_tables-device (suc (suc (suc (suc zero)))) d e = rw (some-injective _ d e) refl
broadcast_tables-device (suc (suc (suc (suc (suc zero))))) d e = rw (some-injective _ d e) refl
broadcast_tables-device (suc (suc (suc (suc (suc (suc n)))))) d e = ground arith

-- For a number `n` for which a handshake for the path `/n` enters a client into the table of a device,
-- which the camera's 0 is not: while each table has six entries, and each entry of this one has a handle
-- exactly if it has a socket, a message for device `n` with no handle is sent once to each client in
-- this table, in the order of the table, to nobody else, and is then freed.
pub device_cb-messages :
    (g : Clients) (mes : List ℕ) (n : ℤ) (d : Device)
    → SixEach g
    → All IsLinked (table g d)
    → device_of_number n ≡ some d
    → device_cb g mes none n ≡ messages (table g d) mes ++ (free_mes ∷ [])
device_cb-messages g mes (ℤ.pos n) d six linked which =
    device_cb-table g mes n d six linked (broadcast_tables-device n d which)
device_cb-messages g mes (ℤ.negsuc n) d six linked which = absurd (cc)

-- One send to nowhere for each entry that has a socket.
abbrev pub null_sends : List ConnectedClient → List ℕ → List Effect
null_sends [] mes = []
null_sends (c ∷ cs) mes =
    if c.fd ==ℤ minus_one
    then null_sends cs mes
    else send_text none minus_one mes ∷ null_sends cs mes

send_loop-null :
    (cs gate to : List ConnectedClient) (i : ℕ) (mes : List ℕ)
    → All IsLinked cs
    → ((j m : ℕ) → m ≡ i + j → get_elem? gate m ≡ get_elem? cs j)
    → ((j m : ℕ) → j < length cs → m ≡ i + j → get_elem? to m ≡ some resp_arg_defaults)
    → send_loop gate to (length cs) i mes ≡ null_sends cs mes
unfolding send_loop
send_loop-null [] gate to i mes a h none' = refl
send_loop-null (c ∷ cs) gate to i mes a h none' =
    rw (h 0 i (omega arith), none' 0 i (omega arith) (omega arith))
      (ground (
        arith,
        a.0,
        send_loop-null cs gate to (suc i) mes a.1 (λ j m e. h (suc j) m (omega arith))
            (λ j m lt e. none' (suc j) m (omega arith) (omega arith)),
      ))

default_at : (m : ℕ) → m < 6 → get_elem? (replicate 6 resp_arg_defaults) m ≡ some resp_arg_defaults
default_at zero h = refl
default_at (suc zero) h = refl
default_at (suc (suc zero)) h = refl
default_at (suc (suc (suc zero))) h = refl
default_at (suc (suc (suc (suc zero)))) h = refl
default_at (suc (suc (suc (suc (suc zero))))) h = refl
default_at (suc (suc (suc (suc (suc (suc m)))))) h = absurd (omega arith)

-- A message for device 0, the camera, is gated by the printer's entries: while no camera client is
-- connected, each connected printer client makes one send to a NULL handle and socket -1.
pub device_cb-camera :
    (g : Clients) (mes : List ℕ)
    → length g.printer_clients ≡ 6
    → All IsLinked g.printer_clients
    → g.camera_clients ≡ replicate 6 resp_arg_defaults
    → device_cb g mes none (ℤ.pos 0) ≡ null_sends g.printer_clients mes ++ (free_mes ∷ [])
unfolding device_cb
device_cb-camera g mes six linked empty = rw empty (
    ap (λ l. l ++ (free_mes ∷ []))
      (subst
        (λ k.
          send_loop g.printer_clients (replicate 6 resp_arg_defaults) k 0 mes
          ≡ null_sends g.printer_clients mes)
        six
        (send_loop-null g.printer_clients g.printer_clients (replicate 6 resp_arg_defaults) 0 mes
          linked (λ j m e. let e' : m ≡ j = omega arith in rw e' refl)
          (λ j m lt e. default_at m (omega arith)))))
