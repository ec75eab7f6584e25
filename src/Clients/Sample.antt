-- ===== src/Clients/Sample.antt =====
-- Tables in which socket 54 is a client of the printer, and nothing else is connected.
use gateway_esp.Prelude.{
  ℕ, zero, suc, ◌≡◌, refl, false, List, ◌∷◌, some, get_elem?, replicate, pos, ◌==ℤ◌, arith,
}
use gateway_esp.Clients.Defs.{
  ConnectedClient, Clients, Device, camera, printer, barcode_scanner, trigger, relay, led,
  resp_arg_defaults, holds,
}
use gateway_esp.Clients.Close.{HoldsAt, HeldOnce}
use gateway_esp.Clients.Held.{SixEach}

abbrev pub free : List ConnectedClient
free = replicate 6 resp_arg_defaults

abbrev pub busy_clients : Clients
busy_clients = record {
  camera_clients = free;
  printer_clients = record { hd = some 1; fd = pos 54 } ∷ replicate 5 resp_arg_defaults;
  barcode_scanner_clients = free;
  trigger_clients = free;
  relay_clients = free;
  led_clients = free;
}

pub busy_clients-SixEach : SixEach busy_clients
busy_clients-SixEach camera = refl
busy_clients-SixEach printer = refl
busy_clients-SixEach barcode_scanner = refl
busy_clients-SixEach trigger = refl
busy_clients-SixEach relay = refl
busy_clients-SixEach led = refl

free-holds : (k i : ℕ) → holds (get_elem? (replicate k resp_arg_defaults) i) (pos 54) ≡ false
unfolding ◌==ℤ◌
free-holds zero i = refl
free-holds (suc k) zero = refl
free-holds (suc k) (suc i) = free-holds k i

held_at : (d : Device) (i : ℕ) → HoldsAt busy_clients (pos 54) d i → (d ≡ printer) × (i ≡ 0)
held_at camera i h = ground (arith, free-holds 6 i)
held_at printer zero h = (refl, refl)
held_at printer (suc i) h = ground (arith, free-holds 5 i)
held_at barcode_scanner i h = ground (arith, free-holds 6 i)
held_at trigger i h = ground (arith, free-holds 6 i)
held_at relay i h = ground (arith, free-holds 6 i)
held_at led i h = ground (arith, free-holds 6 i)

pub busy_clients-HeldOnce : HeldOnce busy_clients (pos 54)
busy_clients-HeldOnce d e i j h k =
    let (hd, hi) = held_at d i h in let (kd, ki) = held_at e j k in (cc, omega arith)
