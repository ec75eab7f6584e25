-- ===== src/KeepAlive/Defs.antt =====
-- main/keep_alive.c: data, the operations on the client table, and the two loops over it.
use gateway_esp.Prelude.{
  ℕ, zero, suc, ◌/◌, ◌^◌, Bool, true, false, ◌&&◌, List, [], ◌∷◌, ◌++◌, none, some, ltb, leb,
  if◌then◌else◌, get_elem?, ℤ, minus_one, ◌==ℤ◌,
}
use gateway_esp.Words.{add64, sub64}

pub data ActionType : Type 0 where
  no_client client_fd_add client_fd_remove client_update client_active stop_task : ActionType

abbrev pub is_active : ActionType → Bool
is_active client_active = true
is_active _ = false

abbrev pub is_free : ActionType → Bool
is_free no_client = true
is_free _ = false

pub record ClientFdAction : Type 0 where
  pub type : ActionType
  pub fd : ℤ
  pub last_seen : ℕ

-- What `calloc` leaves in a slot.
abbrev pub zeroed : ClientFdAction
zeroed = record { type = no_client; fd = ℤ.pos 0; last_seen = 0 }

-- The slot after `remove_client`.
abbrev pub cleared : ClientFdAction → ClientFdAction
cleared c = record c { type = no_client; fd = minus_one }

-- The test of the `if` in `update_client` and `remove_client`.
abbrev pub tracks : ClientFdAction → ℤ → Bool
tracks c sockfd = is_active c.type && c.fd ==ℤ sockfd

unfoldable pub update_client : List ClientFdAction → ℤ → ℕ → List ClientFdAction × Bool
update_client [] sockfd timestamp = ([], false)
update_client (c ∷ cs) sockfd timestamp =
    let rest = update_client cs sockfd timestamp in
    if tracks c sockfd
    then (record c { last_seen = timestamp } ∷ cs, true)
    else (c ∷ rest.0, rest.1)

unfoldable pub remove_client : List ClientFdAction → ℤ → List ClientFdAction × Bool
remove_client [] sockfd = ([], false)
remove_client (c ∷ cs) sockfd =
    let rest = remove_client cs sockfd in
    if tracks c sockfd then (cleared c ∷ cs, true) else (c ∷ rest.0, rest.1)

-- What the task asks the server to do, through the two function pointers of the storage.
pub data Callback : Type 0 where
  client_not_alive_cb : ℤ → Callback
  check_client_alive_cb : ℤ → Callback

-- The settings that the loops read.
pub record Periods : Type 0 where
  pub keep_alive_period_ms : ℕ
  pub not_alive_after_ms : ℕ

module _ (esp_timer : ℕ → ℕ) where
  -- `_tick_get_ms`, at the `n`-th reading.
  abbrev pub tick_get_ms : ℕ → ℕ
  tick_get_ms n = esp_timer n / 1000

  -- The third part is the number of readings after the call: only a free slot takes one.
  unfoldable pub add_new_client : List ClientFdAction → ℤ → ℕ → List ClientFdAction × Bool × ℕ
  add_new_client [] sockfd n = ([], false, n)
  add_new_client (c ∷ cs) sockfd n =
      let rest = add_new_client cs sockfd n in
      if is_free c.type
      then (
        record c { type = client_active; fd = sockfd; last_seen = tick_get_ms n } ∷ cs,
        true,
        suc n,
      )
      else (c ∷ rest.0, rest.1, rest.2)

  -- One round of the loop of `get_max_delay`: the new `check_after_ms`, and the readings taken. An
  -- `int64_t` that is negative is a word of at least 2 ^ 63; it is replaced by 1000.
  unfoldable pub delay_round : Periods → ClientFdAction → ℕ → ℕ → ℕ × ℕ
  delay_round p c after n =
      let check_at = add64 c.last_seen p.keep_alive_period_ms in
      let left = sub64 check_at (tick_get_ms (suc n)) in
      if is_active c.type
      then (if ltb check_at (add64 after (tick_get_ms n))
          then (if leb (2 ^ 63) left then 1000 else left, suc (suc n))
          else (after, suc n))
      else (after, n)

  unfoldable pub max_delay_loop : Periods → List ClientFdAction → ℕ → ℕ → ℕ × ℕ
  max_delay_loop p [] after n = (after, n)
  max_delay_loop p (c ∷ cs) after n = let r = delay_round p c after n in max_delay_loop p cs r.0 r.1

  unfoldable pub get_max_delay : Periods → List ClientFdAction → ℕ → ℕ × ℕ
  unfolding max_delay_loop
  get_max_delay p cs n = max_delay_loop p cs 30000 n

  -- The body of the loop that follows a timeout, at slot `c` of the table `cs`.
  unfoldable pub check_slot :
      Periods → ClientFdAction → List ClientFdAction → ℕ → List ClientFdAction × List Callback × ℕ
  check_slot p c cs n =
      if is_active c.type
      then (if leb (add64 c.last_seen p.keep_alive_period_ms) (tick_get_ms n)
          then (if leb (add64 c.last_seen p.not_alive_after_ms) (tick_get_ms (suc n))
              then ((remove_client cs c.fd).0, client_not_alive_cb c.fd ∷ [], suc (suc n))
              else (cs, check_client_alive_cb c.fd ∷ [], suc (suc n)))
          else (cs, [], suc n))
      else (cs, [], n)

  unfoldable pub check_index :
      Periods → ℕ → List ClientFdAction → ℕ → List ClientFdAction × List Callback × ℕ
  check_index p i cs n = elim (get_elem? cs i) [ none ↦ (cs, [], n) | some c ↦ check_slot p c cs n ]

  -- `for (i = i; i < i + k; ++i)`: the loop from slot `i`, with `k` slots left.
  unfoldable pub check_clients :
      Periods → ℕ → ℕ → List ClientFdAction → ℕ → List ClientFdAction × List Callback × ℕ
  check_clients p zero i cs n = (cs, [], n)
  check_clients p (suc k) i cs n =
      let here = check_index p i cs n in
      let rest = check_clients p k (suc i) here.0 here.2 in (rest.0, here.1 ++ rest.1, rest.2)
