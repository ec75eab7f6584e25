-- ===== src/Server/Tidy.antt =====
-- main/main.c: a table entry for each live socket at most, under the operations on the tables.
use gateway_esp.Prelude.{
  ℕ, ◌≤◌, ◌≡◌, ◌≢◌, ap, ◌∙◌, inl, inr, Bool, Bool-cases, true, false, List, Option, none, some, ℤ,
  minus_one, ◌==ℤ◌, ==ℤ_iff, arith, if◌then◌else◌,
}
use gateway_esp.Clients.Defs.{
  Clients, Device, camera, printer, barcode_scanner, trigger, relay, led, table, put_table,
  take_slot, close_loop, close_fd_order, init_clients,
}
use gateway_esp.Clients.Register.{count_fd, init_clients-free}
use gateway_esp.Clients.Held.{SixEach}
use gateway_esp.Clients.Total.{total, close_loop-total, close_fd-total, take_slot-total}
use gateway_esp.Server.Uri.{scan_device}
use gateway_esp.Server.Defs.{Request}
use gateway_esp.Server.Handler.{handshake, register, device_of_number}

-- Which sockets have made their handshake and are not closed yet.
abbrev pub Live : Type 0
Live = ℤ → Bool

abbrev pub with_live : ℤ → Bool → Live → Live
with_live fd b live x = if x ==ℤ fd then b else live x

-- A live socket stands in one entry at most, and any other in none.
abbrev pub Tidy : Clients → Live → Type 0
Tidy g live = (fd : ℤ) → fd ≢ minus_one → (total fd g ≤ 1) × (live fd ≡ false → total fd g ≡ 0)

pub init_clients-Tidy : (g : Clients) → SixEach g → Tidy (init_clients g) (λ fd. false)
init_clients-Tidy g six fd real =
    let none_held : (d : Device) → count_fd fd (table (init_clients g) d) ≡ 0 =
      λ d. rw (init_clients-free g d six) (ground (arith, ==ℤ_iff minus_one fd)) in
    ground (
      arith,
      none_held camera,
      none_held printer,
      none_held barcode_scanner,
      none_held trigger,
      none_held relay,
      none_held led,
    )

pub take_slot-Tidy :
    (g : Clients) (live : Live) (d : Device) (handle : ℕ) (sockfd : ℤ)
    → sockfd ≢ minus_one
    → live sockfd ≡ false
    → Tidy g live
    → Tidy (put_table g d (take_slot (table g d) handle sockfd).0) (with_live sockfd true live)
take_slot-Tidy g live d handle sockfd real new tidy fd real' =
    let (few, same) = take_slot-total fd g d handle sockfd real' real in
    elim (Bool-cases (fd ==ℤ sockfd)) [
      | inl own ↦
          let e : fd ≡ sockfd = (==ℤ_iff fd sockfd).0 own in
          let none_yet : total fd g ≡ 0 = (tidy fd real').1 (ap live e ∙ new) in
          rw own (omega (arith, few, none_yet), λ h. cc)
      | inr other ↦
          let ne : fd ≢ sockfd = λ e. cc (other, (==ℤ_iff fd sockfd).1 e) in
          rw (other, same ne) (tidy fd real')
    ]

-- A handshake that takes no entry keeps the tables tidy too.
pub idle-Tidy :
    (g : Clients) (live : Live) (sockfd : ℤ)
    → live sockfd ≡ false
    → Tidy g live
    → Tidy g (with_live sockfd true live)
idle-Tidy g live sockfd new tidy fd real =
    let (few, gone) = tidy fd real in (few, ground (arith, gone))

pub close_loop-Tidy :
    (ds : List Device) (g : Clients) (live : Live) (sockfd : ℤ)
    → Tidy g live
    → Tidy (close_loop ds 6 0 sockfd g) live
close_loop-Tidy ds g live sockfd tidy fd real =
    let less = close_loop-total ds 6 0 fd sockfd g real in
    let (few, gone) = tidy fd real in (omega (arith, less, few), λ h. omega (arith, less, gone h))

pub close_fd-Tidy :
    (g : Clients) (live : Live) (sockfd : ℤ)
    → sockfd ≢ minus_one
    → SixEach g
    → Tidy g live
    → Tidy (close_loop close_fd_order 6 0 sockfd g) (with_live sockfd false live)
close_fd-Tidy g live sockfd real six tidy fd real' =
    let (few, gone) = close_loop-Tidy close_fd_order g live sockfd tidy fd real' in
    elim (Bool-cases (fd ==ℤ sockfd)) [
      | inl own ↦
          let e : fd ≡ sockfd = (==ℤ_iff fd sockfd).0 own in rw (own, e) (few', λ h. cleared)
      | inr other ↦ rw other (few, gone)
    ]
  where
    cleared : total sockfd (close_loop close_fd_order 6 0 sockfd g) ≡ 0
    cleared = close_fd-total sockfd g real six (tidy sockfd real).0

    few' : total sockfd (close_loop close_fd_order 6 0 sockfd g) ≤ 1
    few' = omega (arith, cleared)

pub handshake-Tidy :
    (req : Request) (g : Clients) (live : Live)
    → req.sockfd ≢ minus_one
    → live req.sockfd ≡ false
    → Tidy g live
    → Tidy (handshake req g) (with_live req.sockfd true live)
unfolding handshake
handshake-Tidy req g live real new tidy = by_device (device_of_number (scan_device req.uri))
  where
    by_device :
        (o : Option Device)
        → Tidy (register o req.handle req.sockfd g) (with_live req.sockfd true live)
    by_device none = idle-Tidy g live req.sockfd new tidy
    by_device (some d) = take_slot-Tidy g live d req.handle req.sockfd real new tidy
