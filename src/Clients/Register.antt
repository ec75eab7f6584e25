-- ===== src/Clients/Register.antt =====
-- main/main.c: filling the tables, and taking a slot at a handshake.
use gateway_esp.Prelude.{
  ℕ, suc, ◌+◌, ◌≡◌, refl, subst, Bool, true, false, List, [], ◌∷◌, get_elem?, replicate, length,
  if◌then◌else◌, ◌≢◌, ℤ, minus_one, ◌==ℤ◌, ◌==◌, ==ℤ_iff, ==ℤ_refl, arith,
}
use gateway_esp.Clients.Defs.{
  ConnectedClient, resp_arg_defaults, Clients, Device, camera, printer, barcode_scanner, trigger,
  relay, led, table, fill_array, init_clients, value_in_array, take_slot,
}

fill_array-eq-replicate :
    (xs : List ConnectedClient) (v : ConnectedClient)
    → length xs ≡ 6
    → fill_array xs v ≡ replicate 6 v
unfolding fill_array
fill_array-eq-replicate (a ∷ b ∷ c ∷ d ∷ e ∷ f ∷ []) v h = refl
fill_array-eq-replicate (a ∷ b ∷ c ∷ d ∷ e ∷ f ∷ g ∷ r) v h = absurd (omega arith)
fill_array-eq-replicate (a ∷ b ∷ c ∷ d ∷ e ∷ []) v h = absurd (omega arith)
fill_array-eq-replicate (a ∷ b ∷ c ∷ d ∷ []) v h = absurd (omega arith)
fill_array-eq-replicate (a ∷ b ∷ c ∷ []) v h = absurd (omega arith)
fill_array-eq-replicate (a ∷ b ∷ []) v h = absurd (omega arith)
fill_array-eq-replicate (a ∷ []) v h = absurd (omega arith)
fill_array-eq-replicate [] v h = absurd (omega arith)

-- Whatever six entries each table held, `init_clients` leaves it with six free ones.
pub init_clients-free :
    (g : Clients) (d : Device)
    → ((e : Device) → length (table g e) ≡ 6)
    → table (init_clients g) d ≡ replicate 6 resp_arg_defaults
unfolding init_clients
init_clients-free g camera six = fill_array-eq-replicate g.camera_clients _ (six camera)
init_clients-free g printer six = fill_array-eq-replicate g.printer_clients _ (six printer)
init_clients-free g barcode_scanner six =
    fill_array-eq-replicate g.barcode_scanner_clients _ (six barcode_scanner)
init_clients-free g trigger six = fill_array-eq-replicate g.trigger_clients _ (six trigger)
init_clients-free g relay six = fill_array-eq-replicate g.relay_clients _ (six relay)
init_clients-free g led six = fill_array-eq-replicate g.led_clients _ (six led)

-- How many entries hold the socket.
abbrev pub count_fd : ℤ → List ConnectedClient → ℕ
count_fd fd [] = 0
count_fd fd (c ∷ cs) = if c.fd ==ℤ fd then suc (count_fd fd cs) else count_fd fd cs

abbrev pub as_number : Bool → ℕ
as_number false = 0
as_number true = 1

-- A handshake of socket `sockfd` either takes a free slot, so that one more entry holds the socket
-- and one fewer is free, or finds none free and changes nothing; every other socket is held as often
-- as before.
pub take_slot_lem :
    (cs : List ConnectedClient) (handle : ℕ) (sockfd g : ℤ)
    → sockfd ≢ minus_one
    → let (cs', taken) = take_slot cs handle sockfd in
      (count_fd sockfd cs' ≡ count_fd sockfd cs + as_number taken)
      × (count_fd minus_one cs ≡ count_fd minus_one cs' + as_number taken)
      × (g ≢ sockfd → g ≢ minus_one → count_fd g cs' ≡ count_fd g cs)
      × (taken ≡ false → (cs' ≡ cs) × (count_fd minus_one cs ≡ 0))
unfolding take_slot
take_slot_lem [] handle sockfd g h = (omega arith, omega arith, λ a b. refl, λ e. (refl, refl))
take_slot_lem (c ∷ cs) handle sockfd g h = ground (
  arith,
  ==ℤ_refl sockfd,
  ==ℤ_iff c.fd minus_one,
  ==ℤ_iff c.fd sockfd,
  ==ℤ_iff c.fd g,
  ==ℤ_iff sockfd g,
  ==ℤ_iff sockfd minus_one,
  take_slot_lem cs handle sockfd g h,
)

value_in_array-from :
    (cs arr : List ConnectedClient) (i : ℕ) (val : ℤ)
    → ((j m : ℕ) → m ≡ i + j → get_elem? arr m ≡ get_elem? cs j)
    → value_in_array val arr i (length cs) ≡ (if count_fd val cs == 0 then false else true)
unfolding value_in_array
value_in_array-from [] arr i val h = refl
value_in_array-from (c ∷ cs) arr i val h =
    rw (h 0 i (omega arith))
      (ground (arith, value_in_array-from cs arr (suc i) val (λ j m e. h (suc j) m (omega arith))))

-- `valueinarray` over a whole table tells whether some entry holds the socket.
pub value_in_array_lem :
    (cs : List ConnectedClient) (val : ℤ)
    → value_in_array val cs 0 (length cs) ≡ (if count_fd val cs == 0 then false else true)
value_in_array_lem cs val =
    value_in_array-from cs cs 0 val (λ j m e. let e' : m ≡ j = omega arith in rw e' refl)

pub value_in_array-six :
    (cs : List ConnectedClient) (val : ℤ)
    → length cs ≡ 6
    → value_in_array val cs 0 6 ≡ (if count_fd val cs == 0 then false else true)
value_in_array-six cs val six =
    subst (λ n. value_in_array val cs 0 n ≡ (if count_fd val cs == 0 then false else true)) six
      (value_in_array_lem cs val)

pub length-take_slot :
    (cs : List ConnectedClient) (handle : ℕ) (sockfd : ℤ)
    → length (take_slot cs handle sockfd).0 ≡ length cs
unfolding take_slot
length-take_slot [] handle sockfd = refl
length-take_slot (c ∷ cs) handle sockfd = ground (arith, length-take_slot cs handle sockfd)
