-- ===== src/Server/Invariant.antt =====
-- main/main.c: what holds of the tables after any sequence of the server's events.
use gateway_esp.Prelude.{
  ◌⊎◌, subst, sym, ℕ, zero, suc, ◌≡◌, ◌≢◌, refl, ◌∙◌, inl, inr, Bool-cases, List, [], ◌∷◌, Option,
  none, some, get_elem?, set, length, length-set, All, All-set, ℤ, minus_one, ◌==ℤ◌, arith,
}
use gateway_esp.Rtos.{Fifo}
use gateway_esp.KeepAlive.Defs.{ClientFdAction}
use gateway_esp.Clients.Defs.{
  ConnectedClient, resp_arg_defaults, Clients, Device, table, put_table, holds, take_slot,
  close_round, close_loop, close_frame_order, init_clients,
}
use gateway_esp.Clients.Register.{length-take_slot, init_clients-free}
use gateway_esp.Clients.Close.{Device-discrete, table-put_self, table-put_ne}
use gateway_esp.Clients.Held.{SixEach}
use gateway_esp.Server.Defs.{Gateway, Features, Request, Received}
use gateway_esp.Server.Uri.{scan_device}
use gateway_esp.Server.Handler.{ws_handler, handshake, register, device_of_number, handle_frame}
use gateway_esp.Server.Broadcast.{IsLinked, take_slot-IsLinked}

-- Each table has six entries, and each entry has a handle exactly if it has a socket.
abbrev pub IsSound : Clients → Type 0
IsSound g = (d : Device) → (length (table g d) ≡ 6) × All IsLinked (table g d)

pub put_table-IsSound :
    (g : Clients) (d : Device) (l : List ConnectedClient)
    → IsSound g
    → length l ≡ 6
    → All IsLinked l
    → IsSound (put_table g d l)
put_table-IsSound g d l s six linked e = elim (Device-discrete d e) [
  | yes same ↦ rw (← same, table-put_self) (six, linked)
  | no other ↦ rw (table-put_ne g d e l other) (s e)
]

default-IsLinked : IsLinked resp_arg_defaults
unfolding ◌==ℤ◌
default-IsLinked = refl

abbrev IsSoundIf : Option Clients → Type 0
IsSoundIf none = Unit
IsSoundIf (some g) = IsSound g

close_round-IsSoundIf :
    (ds : List Device) (i : ℕ) (fd : ℤ) (g : Clients)
    → IsSound g
    → IsSoundIf (close_round ds i fd g)
unfolding close_round
close_round-IsSoundIf [] i fd g s = tt
close_round-IsSoundIf (d ∷ ds) i fd g s = elim (Bool-cases (holds (get_elem? (table g d) i) fd)) [
  | inl yes' ↦ rw yes' (
      put_table-IsSound g d (set (table g d) i resp_arg_defaults) s
        (length-set (table g d) i resp_arg_defaults ∙ (s d).0)
        (All-set IsLinked (table g d) i resp_arg_defaults default-IsLinked (s d).1))
  | inr no' ↦ rw no' (close_round-IsSoundIf ds i fd g s)
]

pub close_loop-IsSound :
    (ds : List Device) (k i : ℕ) (fd : ℤ) (g : Clients)
    → IsSound g
    → IsSound (close_loop ds k i fd g)
unfolding close_loop
close_loop-IsSound ds zero i fd g s = s
close_loop-IsSound ds (suc k) i fd g s =
    next (close_round ds i fd g) (close_round-IsSoundIf ds i fd g s)
      (close_loop-IsSound ds k (suc i) fd g s)
  where
    next :
        (o : Option Clients)
        → IsSoundIf o
        → IsSound (close_loop ds k (suc i) fd g)
        → IsSound (elim o [ some g' ↦ g' | none ↦ close_loop ds k (suc i) fd g ])
    next none h rest = rest
    next (some g') h rest = h

pub handshake-IsSound :
    (req : Request) (g : Clients) → req.sockfd ≢ minus_one → IsSound g → IsSound (handshake req g)
unfolding handshake
handshake-IsSound req g real s = by_device (device_of_number (scan_device req.uri))
  where
    by_device : (o : Option Device) → IsSound (register o req.handle req.sockfd g)
    by_device none = s
    by_device (some d) =
        put_table-IsSound g d (take_slot (table g d) req.handle req.sockfd).0 s
          (length-take_slot (table g d) req.handle req.sockfd ∙ (s d).0)
          (take_slot-IsLinked (table g d) req.handle req.sockfd real (s d).1)

pub init_clients-IsSound : (g : Clients) → SixEach g → IsSound (init_clients g)
init_clients-IsSound g six d = rw (init_clients-free g d six) (
  refl,
  (
    default-IsLinked,
    (
      default-IsLinked,
      (default-IsLinked, (default-IsLinked, (default-IsLinked, (default-IsLinked, tt)))),
    ),
  ),
)

module _ (esp_timer : ℕ → ℕ) (fifo : Fifo ClientFdAction) (f : Features) where
  open fifo use {Queue}

  -- What a request can make of the tables.
  pub ws_handler-clients :
      (g : Gateway Queue) (req : Request) (r : Received) (n : ℕ)
      → let g' = (ws_handler esp_timer fifo f req r g n).1.clients in
        (g' ≡ handshake req g.clients)
        ⊎ ((g' ≡ close_loop close_frame_order 6 0 req.sockfd g.clients) ⊎ (g' ≡ g.clients))
  unfolding ws_handler handle_frame
  ws_handler-clients g req r n = ground arith

  pub ws_handler-IsSound :
      (g : Gateway Queue) (req : Request) (r : Received) (n : ℕ)
      → req.sockfd ≢ minus_one
      → IsSound g.clients
      → IsSound (ws_handler esp_timer fifo f req r g n).1.clients
  ws_handler-IsSound g req r n real s = elim (ws_handler-clients g req r n) [
    | inl e ↦ subst IsSound (sym e) (handshake-IsSound req g.clients real s)
    | inr other ↦ elim other [
      | inl e ↦
          subst IsSound (sym e) (close_loop-IsSound close_frame_order 6 0 req.sockfd g.clients s)
      | inr e ↦ subst IsSound (sym e) s
    ]
  ]
