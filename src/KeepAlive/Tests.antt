-- ===== src/KeepAlive/Tests.antt =====
-- The keep-alive engine at concrete inputs.
use gateway_esp.Prelude.{
  inl, ℕ, ◌+◌, ◌<◌, ◌≤◌, ◌≡◌, refl, List, [], ◌∷◌, none, replicate, All, Has, pos, negsuc, ◌==ℤ◌,
  arith,
}
use gateway_esp.KeepAlive.Defs.{
  ClientFdAction, client_active, client_update, client_fd_add, no_client, zeroed, Periods,
  client_not_alive_cb, check_client_alive_cb, remove_client, tick_get_ms, check_index, check_slot,
  check_clients,
}
use gateway_esp.Rtos.ListFifo.{ListQueue, list_fifo}
use gateway_esp.KeepAlive.Engine.{Storage, Config, task_round, apply_action}
use gateway_esp.KeepAlive.Table.{Unique}
use gateway_esp.KeepAlive.Timer.{IsTimer, IsSmall}
use gateway_esp.KeepAlive.Passed.{ActiveAt, Justified}
use gateway_esp.KeepAlive.Pass.{check_clients_lem}
use gateway_esp.KeepAlive.Refine.{roster, spec_action, apply_action_refines}
use gateway_esp.KeepAlive.Life.{
  Rounds, RoundEvent, no_round, timeout, message, passed_over, handled, CalledBy, busy-ActiveAt,
}
use gateway_esp.KeepAlive.Silent.{silent-CalledBy, Rounds-IsValid}
use gateway_esp.KeepAlive.Task.{IsValid}

-- A clock that stands at 60 seconds.
abbrev clock : ℕ → ℕ
clock n = 60_000_000

clock-IsTimer : IsTimer clock
clock-IsTimer = omega arith

abbrev periods : Periods
periods = record { keep_alive_period_ms = 15000; not_alive_after_ms = 20000 }

periods-IsSmall : IsSmall periods
periods-IsSmall = omega arith

abbrev client : ℕ → ℕ → ClientFdAction
client fd seen = record { type = client_active; fd = pos fd; last_seen = seen }

-- Descriptors 54, 55 and 56: silent for 30, 16 and 5 seconds; then a free slot.
abbrev table : List ClientFdAction
table = client 54 30000 ∷ client 55 44000 ∷ client 56 55000 ∷ zeroed ∷ []

table-Unique : Unique table
unfolding ◌==ℤ◌
table-Unique =
    (λ e. (refl, (refl, (refl, tt))), (λ e. (refl, (refl, tt)), (λ e. (refl, tt), (λ e. tt, tt))))

pass_runs : check_clients clock periods 4 0 table 0 ≡ (
  record { type = no_client; fd = negsuc 0; last_seen = 30000 }
      ∷ client 55 44000
      ∷ client 56 55000
      ∷ zeroed
      ∷ [],
  client_not_alive_cb (pos 54) ∷ check_client_alive_cb (pos 55) ∷ [],
  5,
)
unfolding check_clients check_index check_slot remove_client ◌==ℤ◌
pass_runs = refl

check_clients_lem_example :
    let (cs', out, n') = check_clients clock periods 4 0 table 0 in
    ((j : ℕ) (c : ClientFdAction)
      → ActiveAt table j c
      → c.last_seen + 20000 ≤ tick_get_ms clock 0
      → Has (client_not_alive_cb c.fd) out × (ActiveAt cs' j c → ⊥))
    × ((j : ℕ) (c : ClientFdAction)
        → ActiveAt table j c
        → tick_get_ms clock n' < c.last_seen + 20000
        → ActiveAt cs' j c)
    × ((j : ℕ) (c : ClientFdAction) → ActiveAt cs' j c → ActiveAt table j c)
    × All (Justified periods table (tick_get_ms clock n')) out
check_clients_lem_example =
    check_clients_lem clock clock-IsTimer periods periods-IsSmall table 0 table-Unique (omega arith)

apply_action_refines_example :
    let a : ClientFdAction = record { type = client_fd_add; fd = pos 57; last_seen = 0 } in
    let (cs', run, n') = apply_action clock client_fd_add a table 0 in
    (roster cs', run) ≡ spec_action client_fd_add a (tick_get_ms clock 0) (roster table)
unfolding ◌==ℤ◌
apply_action_refines_example =
    apply_action_refines clock client_fd_add
      (record { type = client_fd_add; fd = pos 57; last_seen = 0 }) table 0 table-Unique
      (refl, (refl, (refl, (refl, tt))))

abbrev storage : Storage (ListQueue ClientFdAction)
storage = record {
  max_clients = 4;
  periods = periods;
  user_ctx = none;
  q = (2, []);
  clients = table;
  spare = zeroed ∷ zeroed ∷ [];
}

storage-IsValid : IsValid clock clock-IsTimer (list_fifo ClientFdAction) storage
storage-IsValid = record {
  unique = table-Unique;
  times = omega arith;
  sized = refl;
  small = periods-IsSmall;
  messages = tt;
}

-- A round that ends by a timeout, which closes descriptor 54 and pings 55.
abbrev after_pass : Storage (ListQueue ClientFdAction)
after_pass = (task_round clock (list_fifo ClientFdAction) storage 0).0

abbrev pass_event : RoundEvent
pass_event = passed_over 60000 (task_round clock (list_fifo ClientFdAction) storage 0).1

storage-Rounds :
    Rounds clock
      (list_fifo ClientFdAction)
      10000
      storage
      0
      (pass_event ∷ [])
      after_pass
      (task_round clock (list_fifo ClientFdAction) storage 0).3
storage-Rounds =
    timeout storage 0 [] after_pass _ refl (omega arith) (omega arith) (no_round after_pass _)

silent-CalledBy_example : CalledBy 71000 (client_not_alive_cb (pos 54)) (pass_event ∷ [])
silent-CalledBy_example =
    silent-CalledBy clock (list_fifo ClientFdAction) clock-IsTimer periods 10000 0 (client 54 30000)
      storage 0 (pass_event ∷ []) after_pass _ storage-Rounds storage-IsValid refl tt (refl, refl)
      (omega arith) (inl (omega arith))

Rounds-IsValid_example : IsValid clock clock-IsTimer (list_fifo ClientFdAction) after_pass
Rounds-IsValid_example =
    Rounds-IsValid clock (list_fifo ClientFdAction) clock-IsTimer 10000 storage 0 (pass_event ∷ [])
      after_pass _ storage-Rounds tt storage-IsValid

-- A sign of life of descriptor 56 waits.
abbrev sign_of_life : ClientFdAction
sign_of_life = record { type = client_update; fd = pos 56; last_seen = 60000 }

abbrev busy_storage : Storage (ListQueue ClientFdAction)
busy_storage = record storage { q = (2, sign_of_life ∷ []) }

abbrev after_message : Storage (ListQueue ClientFdAction)
after_message = (task_round clock (list_fifo ClientFdAction) busy_storage 0).0

busy-ActiveAt_example : ActiveAt after_message.clients 0 (client 54 30000)
unfolding task_round apply_action
busy-ActiveAt_example =
    busy-ActiveAt clock (list_fifo ClientFdAction) 0 0 (client 54 30000) busy_storage 0
      (handled sign_of_life storage.clients ∷ []) after_message _
      (message busy_storage 0 sign_of_life (2, []) [] after_message _ refl refl
        (no_round after_message _))
      ((λ e. ground arith), tt) (refl, refl)

abbrev config : Config
config = record { max_clients = 6; periods = periods; user_ctx = none }

abbrev started : Storage (ListQueue ClientFdAction)
started = record {
  max_clients = 6;
  periods = periods;
  user_ctx = none;
  q = (3, []);
  clients = replicate 6 zeroed;
  spare = replicate 3 zeroed;
}
