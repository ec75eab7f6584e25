-- ===== src/Clients/Defs.antt =====
-- main/main.c: the six tables of connected clients, and the loops over them.
use gateway_esp.Prelude.{
  ℕ, zero, suc, Bool, true, false, List, [], ◌∷◌, Option, none, some, get_elem?, set, if◌then◌else◌,
  ℤ, minus_one, ◌==ℤ◌,
}

pub data Device : Type 0 where
  camera printer barcode_scanner trigger relay led : Device

-- `struct async_resp_arg`: a server handle, or NULL, and a socket.
pub record ConnectedClient : Type 0 where
  pub hd : Option ℕ
  pub fd : ℤ

abbrev pub resp_arg_defaults : ConnectedClient
resp_arg_defaults = record { hd = none; fd = minus_one }

abbrev pub max_client_num : ℕ
max_client_num = 6

pub record Clients : Type 0 where
  pub camera_clients : List ConnectedClient
  pub printer_clients : List ConnectedClient
  pub barcode_scanner_clients : List ConnectedClient
  pub trigger_clients : List ConnectedClient
  pub relay_clients : List ConnectedClient
  pub led_clients : List ConnectedClient

-- The table of a device.
abbrev pub table : Clients → Device → List ConnectedClient
table g camera = g.camera_clients
table g printer = g.printer_clients
table g barcode_scanner = g.barcode_scanner_clients
table g trigger = g.trigger_clients
table g relay = g.relay_clients
table g led = g.led_clients

abbrev pub put_table : Clients → Device → List ConnectedClient → Clients
put_table g camera l = record g { camera_clients = l }
put_table g printer l = record g { printer_clients = l }
put_table g barcode_scanner l = record g { barcode_scanner_clients = l }
put_table g trigger l = record g { trigger_clients = l }
put_table g relay l = record g { relay_clients = l }
put_table g led l = record g { led_clients = l }

-- The loop of `fillArray` from entry `i`, with `k` entries left.
unfoldable pub fill_loop : ℕ → ℕ → List ConnectedClient → ConnectedClient → List ConnectedClient
fill_loop zero i array v = array
fill_loop (suc k) i array v = fill_loop k (suc i) (set array i v) v

unfoldable pub fill_array : List ConnectedClient → ConnectedClient → List ConnectedClient
unfolding fill_loop
fill_array array default_value = fill_loop max_client_num 0 array default_value

-- `app_main` fills the six tables.
unfoldable pub init_clients : Clients → Clients
unfolding fill_array
init_clients g = record {
  camera_clients = fill_array g.camera_clients resp_arg_defaults;
  printer_clients = fill_array g.printer_clients resp_arg_defaults;
  barcode_scanner_clients = fill_array g.barcode_scanner_clients resp_arg_defaults;
  trigger_clients = fill_array g.trigger_clients resp_arg_defaults;
  relay_clients = fill_array g.relay_clients resp_arg_defaults;
  led_clients = fill_array g.led_clients resp_arg_defaults;
}

-- `arr[i].fd == val`; an entry that the array does not have holds nothing.
abbrev pub holds : Option ConnectedClient → ℤ → Bool
holds none val = false
holds (some c) val = c.fd ==ℤ val

-- `valueinarray` over the entries from `i`, with `k` left.
unfoldable pub value_in_array : ℤ → List ConnectedClient → ℕ → ℕ → Bool
value_in_array val arr i zero = false
value_in_array val arr i (suc k) =
    let rest = value_in_array val arr (suc i) k in
    if holds (get_elem? arr i) val then true else rest

-- The loop of a handshake in `ws_handler` and `camera_client`: the first entry whose socket is -1
-- is taken. The Boolean tells whether there was one, which the source does not look at.
unfoldable pub take_slot : List ConnectedClient → ℕ → ℤ → List ConnectedClient × Bool
take_slot [] handle sockfd = ([], false)
take_slot (c ∷ cs) handle sockfd =
    let rest = take_slot cs handle sockfd in
    if c.fd ==ℤ minus_one
    then (record { hd = some handle; fd = sockfd } ∷ cs, true)
    else (c ∷ rest.0, rest.1)

-- The chain of `if`s in one round of a closing loop: the first table, in the order given, whose
-- entry `i` holds the socket has that entry reset, and the loop breaks (`some`).
unfoldable pub close_round : List Device → ℕ → ℤ → Clients → Option Clients
close_round [] i sockfd g = none
close_round (d ∷ ds) i sockfd g =
    let rest = close_round ds i sockfd g in
    if holds (get_elem? (table g d) i) sockfd
    then some (put_table g d (set (table g d) i resp_arg_defaults))
    else rest

-- The loop from entry `i`, with `k` entries left.
unfoldable pub close_loop : List Device → ℕ → ℕ → ℤ → Clients → Clients
close_loop ds zero i sockfd g = g
close_loop ds (suc k) i sockfd g =
    let rest = close_loop ds k (suc i) sockfd g in
    elim (close_round ds i sockfd g) [ some g' ↦ g' | none ↦ rest ]

-- The orders of the two closing loops.
abbrev pub close_fd_order : List Device
close_fd_order = camera ∷ printer ∷ barcode_scanner ∷ trigger ∷ relay ∷ led ∷ []

abbrev pub close_frame_order : List Device
close_frame_order = printer ∷ barcode_scanner ∷ led ∷ trigger ∷ relay ∷ []
