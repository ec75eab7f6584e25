-- ===== src/Clients/Total.antt =====
-- main/main.c: how many entries of all six tables hold a socket.
use gateway_esp.Prelude.{
  ℕ, zero, suc, ◌+◌, ◌≤◌, ◌≡◌, ◌≢◌, refl, ap, ◌∙◌, inl, inr, Bool-cases, true, List, [], ◌∷◌,
  Option, none, some, get_elem?, set, ℤ, minus_one, ◌==ℤ◌, ==ℤ_iff, arith, Has,
}
use native.Mathlib.Decide.{ℕ_discrete}
use gateway_esp.Clients.Defs.{
  ConnectedClient, resp_arg_defaults, Clients, Device, camera, printer, barcode_scanner, trigger,
  relay, led, table, put_table, holds, take_slot, close_round, close_loop, close_fd_order,
}
use gateway_esp.Clients.Register.{count_fd, take_slot_lem}
use gateway_esp.Clients.Close.{HeldOnce, close_loop_lem, Device-discrete}
use gateway_esp.Clients.Held.{SixEach, HeldNowhere, count-forget}

-- How many entries of the six tables hold the socket.
abbrev pub total : ℤ → Clients → ℕ
total fd g =
    count_fd fd g.camera_clients
    + count_fd fd g.printer_clients
    + count_fd fd g.barcode_scanner_clients
    + count_fd fd g.trigger_clients
    + count_fd fd g.relay_clients
    + count_fd fd g.led_clients

total-put_table :
    (fd : ℤ) (g : Clients) (d : Device) (l : List ConnectedClient)
    → total fd (put_table g d l) + count_fd fd (table g d) ≡ total fd g + count_fd fd l
total-put_table fd g d l = ground arith

two_tables :
    (fd : ℤ) (g : Clients) (d e : Device)
    → d ≢ e
    → count_fd fd (table g d) + count_fd fd (table g e) ≤ total fd g
two_tables fd g d e ne = ground arith

pub one_table : (fd : ℤ) (g : Clients) (d : Device) → count_fd fd (table g d) ≤ total fd g
one_table fd g d = ground arith

count_one :
    (fd : ℤ) (cs : List ConnectedClient) (i : ℕ)
    → holds (get_elem? cs i) fd ≡ true
    → 1 ≤ count_fd fd cs
count_one fd [] i h = cc
count_one fd (c ∷ cs) zero h = ground arith
count_one fd (c ∷ cs) (suc i) h = ground (arith, count_one fd cs i h)

count_two :
    (fd : ℤ) (cs : List ConnectedClient) (i j : ℕ)
    → holds (get_elem? cs i) fd ≡ true
    → holds (get_elem? cs j) fd ≡ true
    → i ≢ j
    → 2 ≤ count_fd fd cs
count_two fd [] i j h k ne = cc
count_two fd (c ∷ cs) zero zero h k ne = absurd (ne refl)
count_two fd (c ∷ cs) zero (suc j) h k ne = ground (arith, count_one fd cs j k)
count_two fd (c ∷ cs) (suc i) zero h k ne = ground (arith, count_one fd cs i h)
count_two fd (c ∷ cs) (suc i) (suc j) h k ne =
    ground (arith, count_two fd cs i j h k (λ e. ne (ap suc e)))

-- A socket that stands in one entry at most stands nowhere twice.
total-HeldOnce : (fd : ℤ) (g : Clients) → total fd g ≤ 1 → HeldOnce g fd
total-HeldOnce fd g small d e i j h k = elim (Device-discrete d e) [
  | no other ↦ absurd (
      omega (
        arith,
        small,
        two_tables fd g d e other,
        count_one fd (table g d) i h,
        count_one fd (table g e) j k,
      ))
  | yes same ↦ elim (ℕ_discrete i j) [
    | yes same' ↦ (same, same')
    | no other' ↦
        absurd (
          omega (arith, small, one_table fd g d, count_two fd (table g d) i j h (rw same k) other'))
  ]
]

count-set :
    (fd : ℤ) (cs : List ConnectedClient) (i : ℕ)
    → fd ≢ minus_one
    → count_fd fd (set cs i resp_arg_defaults) ≤ count_fd fd cs
count-set fd [] i h = omega arith
count-set fd (c ∷ cs) zero h = ground (arith, ==ℤ_iff minus_one fd)
count-set fd (c ∷ cs) (suc i) h = ground (arith, count-set fd cs i h)

abbrev AtMost : ℤ → ℕ → Option Clients → Type 0
AtMost fd n none = Unit
AtMost fd n (some g) = total fd g ≤ n

close_round-AtMost :
    (ds : List Device) (i : ℕ) (fd fd' : ℤ) (g : Clients)
    → fd ≢ minus_one
    → AtMost fd (total fd g) (close_round ds i fd' g)
unfolding close_round
close_round-AtMost [] i fd fd' g h = tt
close_round-AtMost (d ∷ ds) i fd fd' g h = elim (Bool-cases (holds (get_elem? (table g d) i) fd')) [
  | inl found ↦ rw found (
      omega (
        arith,
        total-put_table fd g d (set (table g d) i resp_arg_defaults),
        count-set fd (table g d) i h,
      ))
  | inr passed ↦ rw passed (close_round-AtMost ds i fd fd' g h)
]

-- A closing loop puts no socket into the tables.
pub close_loop-total :
    (ds : List Device) (k i : ℕ) (fd fd' : ℤ) (g : Clients)
    → fd ≢ minus_one
    → total fd (close_loop ds k i fd' g) ≤ total fd g
unfolding close_loop
close_loop-total ds zero i fd fd' g h = omega arith
close_loop-total ds (suc k) i fd fd' g h =
    next (close_round ds i fd' g) (close_round-AtMost ds i fd fd' g h)
      (close_loop-total ds k (suc i) fd fd' g h)
  where
    next :
        (o : Option Clients)
        → AtMost fd (total fd g) o
        → total fd (close_loop ds k (suc i) fd' g) ≤ total fd g
        → total fd (elim o [ some g' ↦ g' | none ↦ close_loop ds k (suc i) fd' g ]) ≤ total fd g
    next none small rest = rest
    next (some g') small rest = small

-- The loop of `wss_close_fd` takes the socket out of the tables, if it stands in one entry at most.
pub close_fd-total :
    (fd : ℤ) (g : Clients)
    → fd ≢ minus_one
    → SixEach g
    → total fd g ≤ 1
    → total fd (close_loop close_fd_order 6 0 fd g) ≡ 0
close_fd-total fd g h six small =
    let gone : HeldNowhere (close_loop close_fd_order 6 0 fd g) fd = λ d.
      ap (count_fd fd)
        (close_loop_lem close_fd_order g fd d (total-HeldOnce fd g small) six (visited d))
      ∙ count-forget fd (table g d) h in
    rw (gone camera, gone printer, gone barcode_scanner, gone trigger, gone relay, gone led) refl
  where
    visited : (d : Device) → Has d close_fd_order
    visited d = ground arith

take_slot-count :
    (fd : ℤ) (cs : List ConnectedClient) (handle : ℕ) (sockfd : ℤ)
    → fd ≢ minus_one
    → sockfd ≢ minus_one
    → let cs' = (take_slot cs handle sockfd).0 in
      (count_fd fd cs' ≤ suc (count_fd fd cs)) × (fd ≢ sockfd → count_fd fd cs' ≡ count_fd fd cs)
take_slot-count fd cs handle sockfd h h' =
    let facts = take_slot_lem cs handle sockfd fd h' in
    elim (Bool-cases (fd ==ℤ sockfd)) [
      | inl same ↦
          let e : fd ≡ sockfd = (==ℤ_iff fd sockfd).0 same in
          rw e (ground (arith, facts.0), λ ne. absurd (ne refl))
      | inr other ↦
          let ne : fd ≢ sockfd = λ e. cc (other, (==ℤ_iff fd sockfd).1 e) in
          let kept = facts.2 ne h in (omega (arith, kept), λ ne'. kept)
    ]

-- A handshake adds its own socket, at most once, and no other.
pub take_slot-total :
    (fd : ℤ) (g : Clients) (d : Device) (handle : ℕ) (sockfd : ℤ)
    → fd ≢ minus_one
    → sockfd ≢ minus_one
    → let g' = put_table g d (take_slot (table g d) handle sockfd).0 in
      (total fd g' ≤ suc (total fd g)) × (fd ≢ sockfd → total fd g' ≡ total fd g)
take_slot-total fd g d handle sockfd h h' =
    let (few, same) = take_slot-count fd (table g d) handle sockfd h h' in
    let moved = total-put_table fd g d (take_slot (table g d) handle sockfd).0 in
    (omega (arith, few, moved), λ ne. omega (arith, same ne, moved))
