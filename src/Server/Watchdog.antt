-- ===== src/Server/Watchdog.antt =====
-- main/main.c: softWD, restartDaily, and the reactions to a lost or a new link.
use gateway_esp.Prelude.{
  ℕ, zero, suc, ◌+◌, ◌≤◌, ◌<◌, ◌≡◌, refl, ◌≢◌, ◌↔◌, inl, inr, Bool, true, false, not, ◌||◌, List,
  [], ◌∷◌, ◌++◌, Option, none, some, get_elem?, length, All, Has, if◌then◌else◌, ◌==◌, minus_one,
  ==ℤ_iff, arith,
}
use native.Mathlib.Decide.{ℕ_discrete}
use gateway_esp.Clients.Defs.{
  ConnectedClient, Clients, Device, camera, printer, barcode_scanner, led, trigger, relay, table,
  max_client_num, holds,
}
use gateway_esp.Clients.Held.{SixEach}
use gateway_esp.Server.Defs.{
  Effect, gpio_set_level, delay, disconnect, connect, restart, stop_server,
}

-- `…_clients[i].fd != -1`.
abbrev pub busy : List ConnectedClient → ℕ → Bool
busy cs i = not (holds (get_elem? cs i) minus_one)

-- Whether the `for` loop of `softWD` restarts, from entry `i` with `k` entries left.
unfoldable pub restart_loop : Clients → ℕ → ℕ → Bool
restart_loop g zero i = false
restart_loop g (suc k) i =
    let rest = restart_loop g k (suc i) in
    if busy g.printer_clients i
      || (busy g.barcode_scanner_clients i
          || (busy g.trigger_clients i || (busy g.relay_clients i || busy g.led_clients i)))
    then false
    else (if i == 5 then true else rest)

-- Cutting the network and resetting the two Ethernet chips before `esp_restart`.
abbrev pub shutdown : List Effect
shutdown =
    disconnect
    ∷ gpio_set_level 5 1
    ∷ delay 100
    ∷ gpio_set_level 5 0
    ∷ delay 100
    ∷ gpio_set_level 46 0
    ∷ delay 200
    ∷ restart
    ∷ []

-- One round of `softWD`, in a build with or without a relay on pin `relay_pin`, driven inversely or
-- not.
unfoldable pub soft_wd : Bool → Bool → ℕ → Clients → List Effect
soft_wd has_relay inverse relay_pin g =
    delay 3000
    ∷ ((if has_relay then gpio_set_level relay_pin (if inverse then 1 else 0) ∷ [] else [])
        ++ (if restart_loop g max_client_num 0 then shutdown else []))

-- One round of `restartDaily`.
unfoldable pub restart_daily : List Effect
restart_daily = delay 8640000 ∷ shutdown

-- `disconnect_handler`: the server handle afterwards, and the calls; `stopped` tells whether
-- `httpd_stop` succeeds.
unfoldable pub disconnect_handler : Option ℕ → Bool → Option ℕ × List Effect
disconnect_handler none stopped = (none, [])
disconnect_handler (some server) stopped =
    (if stopped then none else some server, disconnect ∷ delay 80 ∷ connect ∷ stop_server ∷ [])

-- The entry is free in the five tables that the loop looks at.
abbrev pub FreeAt : Clients → ℕ → Type 0
FreeAt g j = (d : Device) → d ≢ camera → holds (get_elem? (table g d) j) minus_one ≡ true

abbrev row_busy : Clients → ℕ → Bool
row_busy g i =
    busy g.printer_clients i
    || (busy g.barcode_scanner_clients i
        || (busy g.trigger_clients i || (busy g.relay_clients i || busy g.led_clients i)))

row_free : (g : Clients) (i : ℕ) → row_busy g i ≡ false → FreeAt g i
row_free g i h camera ne = absurd (ne refl)
row_free g i h printer ne = ground arith
row_free g i h barcode_scanner ne = ground arith
row_free g i h trigger ne = ground arith
row_free g i h relay ne = ground arith
row_free g i h led ne = ground arith

free_row : (g : Clients) (i : ℕ) → FreeAt g i → row_busy g i ≡ false
free_row g i h = ground (
  arith,
  h printer (λ q. cc),
  h barcode_scanner (λ q. cc),
  h trigger (λ q. cc),
  h relay (λ q. cc),
  h led (λ q. cc),
)

restart_loop-FreeAt :
    (g : Clients) (k i : ℕ)
    → i + k ≡ 6
    → restart_loop g k i ≡ true
    → (j : ℕ) → i ≤ j
    → j < 6
    → FreeAt g j
unfolding restart_loop
restart_loop-FreeAt g zero i h r j lo hi = cc
restart_loop-FreeAt g (suc k) i h r j lo hi = elim (ℕ_discrete i j) [
  | yes same ↦ rw (← same) (row_free g i (ground arith))
  | no other ↦ restart_loop-FreeAt g k (suc i) (omega arith) (ground arith) j (omega arith) hi
]

FreeAt-restart_loop :
    (g : Clients) (k i : ℕ)
    → i + k ≡ 6
    → i < 6
    → ((j : ℕ) → i ≤ j → j < 6 → FreeAt g j)
    → restart_loop g k i ≡ true
unfolding restart_loop
FreeAt-restart_loop g zero i h lt free = absurd (omega arith)
FreeAt-restart_loop g (suc k) i h lt free = elim (ℕ_discrete i 5) [
  | yes last ↦ ground (arith, free_row g i (free i (omega arith) lt))
  | no more ↦ ground (
    arith,
    free_row g i (free i (omega arith) lt),
    FreeAt-restart_loop g k (suc i) (omega arith) (omega arith)
        (λ j lo hi. free j (omega arith) hi),
  )
]

All-free :
    (cs : List ConnectedClient)
    → ((j : ℕ) → j < length cs → holds (get_elem? cs j) minus_one ≡ true)
    → All (λ c. c.fd ≡ minus_one) cs
All-free [] h = tt
All-free (c ∷ cs) h =
    ((==ℤ_iff c.fd minus_one).0 (h 0 (omega arith)), All-free cs (λ j lt. h (suc j) (omega arith)))

free_of_All :
    (cs : List ConnectedClient) (j : ℕ)
    → j < length cs
    → All (λ c. c.fd ≡ minus_one) cs
    → holds (get_elem? cs j) minus_one ≡ true
free_of_All [] j lt a = absurd (omega arith)
free_of_All (c ∷ cs) zero lt a = (==ℤ_iff c.fd minus_one).1 a.0
free_of_All (c ∷ cs) (suc j) lt a = free_of_All cs j (omega arith) a.1

-- The watch task restarts the gateway exactly if no client of the printer, the scanner, the trigger,
-- the relay or the display is connected; camera clients do not count.
pub soft_wd_iff :
    (has_relay inverse : Bool) (relay_pin : ℕ) (g : Clients)
    → SixEach g
    → Has restart (soft_wd has_relay inverse relay_pin g)
      ↔ ((d : Device) → d ≢ camera → All (λ c. c.fd ≡ minus_one) (table g d))
unfolding soft_wd
soft_wd_iff has_relay inverse relay_pin g six = (
  λ at d ne. All-free (table g d) (λ j lt.
      restart_loop-FreeAt g 6 0 (omega arith) (looped at) j (omega arith) (omega (arith, six d)) d
        ne),
  λ free.
      let idle : restart_loop g 6 0 ≡ true =
        FreeAt-restart_loop g 6 0 (omega arith) (omega arith)
          (λ j lo hi d ne. free_of_All (table g d) j (omega (arith, six d)) (free d ne)) in
      rw idle (restarts has_relay),
)
  where
    restarts :
        (b : Bool)
        → Has restart (
            delay 3000
            ∷ ((if b then gpio_set_level relay_pin (if inverse then 1 else 0) ∷ [] else [])
                ++ shutdown))
    restarts true = inr (inr (inr (inr (inr (inr (inr (inr (inr (inl refl)))))))))
    restarts false = inr (inr (inr (inr (inr (inr (inr (inr (inl refl))))))))

    looped : Has restart (soft_wd has_relay inverse relay_pin g) → restart_loop g 6 0 ≡ true
    looped at = ground arith
