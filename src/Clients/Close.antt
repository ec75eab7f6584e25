-- ===== src/Clients/Close.antt =====
-- main/main.c: the two loops that forget a closed socket.
use native.Mathlib.Decide.{ℕ_discrete}
use gateway_esp.Prelude.{
  ℕ, zero, suc, ◌+◌, ◌≤◌, ◌<◌, ◌≡◌, refl, sym, ap, ◌≢◌, inl, inr, Bool-cases, true, false, List, [],
  ◌∷◌, none, some, Option, get_elem?, set, length, map, if◌then◌else◌, Has, ℤ, ◌==ℤ◌, arith,
}
use gateway_esp.Clients.Defs.{
  ConnectedClient, resp_arg_defaults, Clients, Device, table, put_table, holds, close_round,
  close_loop,
}

-- The entry `i` of the table of `d` holds the socket.
abbrev pub HoldsAt : Clients → ℤ → Device → ℕ → Type 0
HoldsAt g fd d i = holds (get_elem? (table g d) i) fd ≡ true

-- No two entries, of one table or of two, hold the socket.
abbrev pub HeldOnce : Clients → ℤ → Type 0
HeldOnce g fd = (d e : Device) (i j : ℕ) → HoldsAt g fd d i → HoldsAt g fd e j → (d ≡ e) × (i ≡ j)

-- What a closing loop does: it finds no entry, or resets the one that it finds.
data Closing (ds : List Device) (from to : ℕ) (fd : ℤ) (g g' : Clients) : Type 0 where
  missed :
      g' ≡ g
      → ((d : Device) (i : ℕ)
          → Has d ds
          → from ≤ i
          → i < to
          → holds (get_elem? (table g d) i) fd ≡ false)
      → Closing ds from to fd g g'
  reset :
      (d : Device) (i : ℕ)
      → HoldsAt g fd d i
      → g' ≡ put_table g d (set (table g d) i resp_arg_defaults)
      → Closing ds from to fd g g'

data Round (ds : List Device) (i : ℕ) (fd : ℤ) (g : Clients) : Option Clients → Type 0 where
  passed :
      ((d : Device) → Has d ds → holds (get_elem? (table g d) i) fd ≡ false) → Round ds i fd g none
  broke :
      (d : Device)
      → HoldsAt g fd d i
      → Round ds i fd g (some (put_table g d (set (table g d) i resp_arg_defaults)))

close_round-Round :
    (ds : List Device) (i : ℕ) (fd : ℤ) (g : Clients) → Round ds i fd g (close_round ds i fd g)
unfolding close_round
close_round-Round [] i fd g = passed (λ d h. elim h [ ])
close_round-Round (d ∷ ds) i fd g = elim (Bool-cases (holds (get_elem? (table g d) i) fd)) [
  | inl yes' ↦ rw yes' (broke d yes')
  | inr no' ↦ rw no' (later no' (close_round ds i fd g) (close_round-Round ds i fd g))
]
  where
    later :
        holds (get_elem? (table g d) i) fd ≡ false
        → (o : Option Clients) → Round ds i fd g o
        → Round (d ∷ ds) i fd g o
    later no' none (passed h) = passed (λ e m. elim m [ inl q ↦ rw q no' | inr r ↦ h e r ])
    later no' (some g') (broke e h) = broke e h

close_loop-Closing :
    (ds : List Device) (k i : ℕ) (fd : ℤ) (g : Clients)
    → Closing ds i (i + k) fd g (close_loop ds k i fd g)
unfolding close_loop
close_loop-Closing ds zero i fd g = missed refl (λ d j m lo hi. absurd (omega arith))
close_loop-Closing ds (suc k) i fd g =
    next (close_round ds i fd g) (close_round-Round ds i fd g)
      (close_loop-Closing ds k (suc i) fd g)
  where
    next :
        (o : Option Clients)
        → Round ds i fd g o
        → Closing ds (suc i) (suc i + k) fd g (close_loop ds k (suc i) fd g)
        → Closing ds i
            (i + suc k)
            fd
            g
            (elim o [ some g' ↦ g' | none ↦ close_loop ds k (suc i) fd g ])
    next (some g') (broke d h) rest = reset d i h refl
    next none (passed h) (reset d j at e) = reset d j at e
    next none (passed h) (missed e all) = missed e (λ d j m lo hi. elim (ℕ_discrete j i) [
      | yes same ↦ rw same (h d m)
      | no other ↦ all d j m (omega arith) (omega arith)
    ])

-- A table entry after the socket is closed.
abbrev pub forget : ℤ → ConnectedClient → ConnectedClient
forget fd c = if c.fd ==ℤ fd then resp_arg_defaults else c

map-forget-none :
    (fd : ℤ) (xs : List ConnectedClient)
    → ((i : ℕ) → i < length xs → holds (get_elem? xs i) fd ≡ false)
    → map (forget fd) xs ≡ xs
map-forget-none fd [] h = refl
map-forget-none fd (x ∷ xs) h =
    ground (arith, h 0 (omega arith), map-forget-none fd xs (λ i lt. h (suc i) (omega arith)))

map-forget-one :
    (fd : ℤ) (xs : List ConnectedClient) (i : ℕ)
    → holds (get_elem? xs i) fd ≡ true
    → ((j : ℕ) → holds (get_elem? xs j) fd ≡ true → j ≡ i)
    → set xs i resp_arg_defaults ≡ map (forget fd) xs
map-forget-one fd [] i h once = cc
map-forget-one fd (x ∷ xs) zero h once = ground (
  arith,
  h,
  map-forget-none fd xs (λ j lt. elim (Bool-cases (holds (get_elem? xs j) fd)) [
    | inl at ↦ absurd (omega (arith, once (suc j) at))
    | inr out ↦ out
  ]),
)
map-forget-one fd (x ∷ xs) (suc i) h once = elim (Bool-cases (x.fd ==ℤ fd)) [
  | inl at ↦ absurd (omega (arith, once 0 at))
  | inr out ↦
      rw out (ap (λ l. x ∷ l) (map-forget-one fd xs i h (λ j at. omega (arith, once (suc j) at))))
]

pub Device-discrete : Discrete Device
Device-discrete = hlevel

pub table-put_self :
    (g : Clients) (d : Device) (l : List ConnectedClient) → table (put_table g d l) d ≡ l
table-put_self g d l = ground arith

pub table-put_ne :
    (g : Clients) (d e : Device) (l : List ConnectedClient)
    → d ≢ e
    → table (put_table g d l) e ≡ table g e
table-put_ne g d e l ne = ground arith

-- A closing loop over tables of six entries, of which at most one holds the socket, resets that
-- entry in every table that it visits, and leaves all other entries of these tables as they were.
pub close_loop_lem :
    (ds : List Device) (g : Clients) (fd : ℤ) (d : Device)
    → HeldOnce g fd
    → ((e : Device) → length (table g e) ≡ 6)
    → Has d ds
    → table (close_loop ds 6 0 fd g) d ≡ map (forget fd) (table g d)
close_loop_lem ds g fd d once six m = done (close_loop ds 6 0 fd g) (close_loop-Closing ds 6 0 fd g)
  where
    done : (g' : Clients) → Closing ds 0 6 fd g g' → table g' d ≡ map (forget fd) (table g d)
    done g' (missed e all) = rw e (
        sym
          (map-forget-none fd (table g d) (λ i lt. all d i m (omega arith) (omega (arith, six d)))))
    done g' (reset c i at e) = elim (Device-discrete c d) [
      | yes same ↦
          rw (e, same, table-put_self)
            (map-forget-one fd (table g d) i (rw same at at) (λ j at'. (once d c j i at' at).1))
      | no other ↦
          rw (e, table-put_ne g c d _ other)
            (sym (
              map-forget-none fd (table g d) (λ j lt.
                elim (Bool-cases (holds (get_elem? (table g d) j) fd)) [
                  | inl at' ↦ absurd (other (once c d i j at at').0)
                  | inr out ↦ out
                ])))
    ]
