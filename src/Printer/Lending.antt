-- ===== src/Printer/Lending.antt =====
-- main/printer/ESC.c: `print`, which hands the transfer to the USB host and frees it, and `transfer_cb`,
-- which the host calls when it is done with a transfer.
use gateway_esp.Prelude.{
  ℕ, ◌+◌, ◌<◌, ◌≡◌, refl, Bool, true, false, not, ◌||◌, List, [], ◌∷◌, ◌==◌, if◌then◌else◌, arith,
}

abbrev pub memb : ℕ → List ℕ → Bool
memb t [] = false
memb t (x ∷ xs) = (t == x) || memb t xs

abbrev pub without : ℕ → List ℕ → List ℕ
without t [] = []
without t (x ∷ xs) = let rest = without t xs in if t == x then rest else x ∷ rest

-- Each transfer has a number of its own; `made` are given. `allocated` are the transfers that are not
-- freed, `lent` those that the USB host has, `waiting` tells whether `print` waits for the semaphore, and
-- `fault` whether the callback has read a transfer that was freed.
pub record Lending : Type 0 where
  pub made : ℕ
  pub allocated : List ℕ
  pub lent : List ℕ
  pub transfer : ℕ
  pub transfer_cb_sem : Bool
  pub waiting : Bool
  pub fault : Bool

-- `usb_host_transfer_alloc` in `escHandleCommand`; `transfer` is overwritten.
unfoldable pub new_transfer : Lending → Lending
new_transfer s = record s { made = s.made + 1; allocated = s.made ∷ s.allocated; transfer = s.made }

abbrev pub free_transfer : Lending → Lending
free_transfer s = record s { allocated = without s.transfer s.allocated }

-- `print` up to its wait: nothing without a printer in the queue; a transfer that the host does not
-- accept is freed.
unfoldable pub print_submit : Bool → Bool → Lending → Lending
print_submit found accepted s =
    if found
    then (if accepted
        then record s { lent = s.transfer ∷ s.lent; waiting = true }
        else free_transfer s)
    else s

-- The rest of `print`, after the semaphore was taken, or after 200 ticks without it.
unfoldable pub print_end : Lending → Lending
print_end s = free_transfer (record s { transfer_cb_sem = false; waiting = false })

-- The USB host gives a transfer back.
unfoldable pub transfer_cb : ℕ → Lending → Lending
transfer_cb t s = record s {
  lent = without t s.lent;
  transfer_cb_sem = true;
  fault = s.fault || not (memb t s.allocated);
}

-- `initESC` makes the semaphore, gives it and takes it again.
abbrev pub initial_lending : Lending
initial_lending = record {
  made = 0;
  allocated = [];
  lent = [];
  transfer = 0;
  transfer_cb_sem = false;
  waiting = false;
  fault = false;
}

-- The states that jobs and the USB host lead to; jobs come one after the other. The Boolean tells
-- whether a wait of `print` has ended without the semaphore.
pub data Reached : Bool → Lending → Type 0 where
  nothing_sent : Reached false initial_lending
  job :
      (b : Bool) (s : Lending) (found accepted : Bool)
      → s.waiting ≡ false
      → Reached b s
      → Reached b (print_submit found accepted (new_transfer s))
  given_back :
      (b : Bool) (s : Lending) (t : ℕ)
      → memb t s.lent ≡ true
      → Reached b s
      → Reached b (transfer_cb t s)
  taken :
      (b : Bool) (s : Lending)
      → s.waiting ≡ true
      → s.transfer_cb_sem ≡ true
      → Reached b s
      → Reached b (print_end s)
  lapsed :
      (b : Bool) (s : Lending)
      → s.waiting ≡ true
      → s.transfer_cb_sem ≡ false
      → Reached b s
      → Reached true (print_end s)

-- Where a transfer is while no wait has lapsed: nowhere outside, or with the host, or given back.
data Orderly : Lending → Type 0 where
  at_rest :
      (m : ℕ) (held : List ℕ) (t : ℕ)
      → Orderly record {
        made = m;
        allocated = held;
        lent = [];
        transfer = t;
        transfer_cb_sem = false;
        waiting = false;
        fault = false;
      }
  with_host :
      (m : ℕ) (held : List ℕ) (t : ℕ)
      → t < m
      → memb t held ≡ true
      → Orderly record {
        made = m;
        allocated = held;
        lent = t ∷ [];
        transfer = t;
        transfer_cb_sem = false;
        waiting = true;
        fault = false;
      }
  back :
      (m : ℕ) (held : List ℕ) (t : ℕ)
      → Orderly record {
        made = m;
        allocated = held;
        lent = [];
        transfer = t;
        transfer_cb_sem = true;
        waiting = true;
        fault = false;
      }

job-Orderly :
    (s : Lending) (found accepted : Bool)
    → s.waiting ≡ false
    → Orderly s
    → Orderly (print_submit found accepted (new_transfer s))
unfolding print_submit new_transfer
job-Orderly _ true true e (at_rest m held t) =
    with_host (m + 1) (m ∷ held) m (omega arith) (ground arith)
job-Orderly _ true false e (at_rest m held t) = at_rest (m + 1) (without m (m ∷ held)) m
job-Orderly _ false accepted e (at_rest m held t) = at_rest (m + 1) (m ∷ held) m
job-Orderly _ found accepted e (with_host m held t below at) = cc
job-Orderly _ found accepted e (back m held t) = cc

given_back-Orderly :
    (s : Lending) (t : ℕ) → memb t s.lent ≡ true → Orderly s → Orderly (transfer_cb t s)
unfolding transfer_cb
given_back-Orderly _ t e (at_rest m held u) = cc
given_back-Orderly _ t e (with_host m held u below at) =
    let given : (t == u) ≡ true = ground arith in
    let held_still : memb t held ≡ true = ground (arith, at) in
    rw (given, held_still) (back m held u)
given_back-Orderly _ t e (back m held u) = cc

taken-Orderly : (s : Lending) → s.transfer_cb_sem ≡ true → Orderly s → Orderly (print_end s)
unfolding print_end
taken-Orderly _ e (at_rest m held t) = cc
taken-Orderly _ e (with_host m held t below at) = cc
taken-Orderly _ e (back m held t) = at_rest m (without t held) t

reached-Orderly : (b : Bool) (s : Lending) → b ≡ false → Reached b s → Orderly s
reached-Orderly _ _ none_lapsed nothing_sent = at_rest 0 [] 0
reached-Orderly _ _ none_lapsed (job b s found accepted idle r) =
    job-Orderly s found accepted idle (reached-Orderly b s none_lapsed r)
reached-Orderly _ _ none_lapsed (given_back b s t has r) =
    given_back-Orderly s t has (reached-Orderly b s none_lapsed r)
reached-Orderly _ _ none_lapsed (taken b s waits given r) =
    taken-Orderly s given (reached-Orderly b s none_lapsed r)
reached-Orderly _ _ none_lapsed (lapsed b s waits empty r) = cc

Orderly-lent :
    (s : Lending)
    → Orderly s
    → (s.fault ≡ false)
      × ((t : ℕ) → memb t s.lent ≡ true → (memb t s.allocated ≡ true) × (s.waiting ≡ true))
      × (s.transfer_cb_sem ≡ true → s.waiting ≡ true)
Orderly-lent _ (at_rest m held t) = (refl, (λ u e. cc), λ e. cc)
Orderly-lent _ (with_host m held t below at) =
    (refl, (λ u e. (let same : u ≡ t = ground arith in rw same at, refl)), λ e. refl)
Orderly-lent _ (back m held t) = (refl, (λ u e. cc), λ e. refl)

-- While no wait of print has ended without the semaphore, the callback has read no freed transfer, each
-- transfer that the USB host has is allocated and print waits for it, and the semaphore is only there
-- to be taken while print waits.
pub reached-safe :
    (s : Lending)
    → Reached false s
    → (s.fault ≡ false)
      × ((t : ℕ) → memb t s.lent ≡ true → (memb t s.allocated ≡ true) × (s.waiting ≡ true))
      × (s.transfer_cb_sem ≡ true → s.waiting ≡ true)
reached-safe s r = Orderly-lent s (reached-Orderly false s refl r)

memb-without : (t : ℕ) (xs : List ℕ) → memb t (without t xs) ≡ false
memb-without t [] = refl
memb-without t (x ∷ xs) = ground (arith, memb-without t xs)

waiting-with_host :
    (s : Lending)
    → s.waiting ≡ true
    → s.transfer_cb_sem ≡ false
    → Orderly s
    → (s.lent ≡ s.transfer ∷ []) × (s.transfer < s.made)
waiting-with_host _ waits empty (at_rest m held t) = cc
waiting-with_host _ waits empty (with_host m held t below at) = (refl, below)
waiting-with_host _ waits empty (back m held t) = cc

late-fault :
    (s : Lending)
    → s.lent ≡ s.transfer ∷ []
    → s.transfer < s.made
    → let late = transfer_cb s.transfer (print_submit true true (new_transfer (print_end s))) in
      (late.fault ≡ true)
      × (late.lent ≡ s.made ∷ [])
      × (memb s.made (print_end late).allocated ≡ false)
unfolding print_submit new_transfer print_end transfer_cb
late-fault s lent_of below =
    let differ : (s.transfer == s.made) ≡ false = ground (arith, below) in
    let gone = memb-without s.transfer s.allocated in
    let left : without s.transfer s.lent ≡ [] = rw lent_of (ground arith) in
    (
      ground (arith, differ, gone),
      rw (differ, left) refl,
      memb-without s.made (s.made ∷ without s.transfer s.allocated),
    )

late-Reached :
    (s : Lending)
    → Reached false s
    → s.waiting ≡ true
    → s.transfer_cb_sem ≡ false
    → s.lent ≡ s.transfer ∷ []
    → Reached true
        (print_end (transfer_cb s.transfer (print_submit true true (new_transfer (print_end s)))))
unfolding print_submit new_transfer print_end transfer_cb
late-Reached s r waits empty lent_of =
    let second = print_submit true true (new_transfer (print_end s)) in
    let has : memb s.transfer second.lent ≡ true = rw lent_of (ground arith) in
    let r₂ : Reached true second =
      job true (print_end s) true true refl (lapsed false s waits empty r) in
    taken true (transfer_cb s.transfer second) refl refl (given_back true second s.transfer has r₂)

-- When no wait of print has ended without the semaphore so far, and print waits for it: if this wait
-- ends without it, and the transfer comes back after the next job has handed over its own, then the
-- callback reads a freed transfer, and the second print may end at once and free its transfer while the
-- USB host has it.
pub late_callback_lem :
    (s : Lending)
    → Reached false s
    → s.waiting ≡ true
    → s.transfer_cb_sem ≡ false
    → let late = transfer_cb s.transfer (print_submit true true (new_transfer (print_end s))) in
      let ended = print_end late in
      Reached true ended
      × (late.fault ≡ true)
      × (ended.lent ≡ s.made ∷ [])
      × (memb s.made ended.allocated ≡ false)
unfolding print_end transfer_cb
late_callback_lem s r waits empty =
    let (lent_of, below) = waiting-with_host s waits empty (reached-Orderly false s refl r) in
    let (read_freed, lent_still, freed) = late-fault s lent_of below in
    (late-Reached s r waits empty lent_of, read_freed, lent_still, freed)
