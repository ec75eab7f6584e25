-- ===== src/KeepAlive/Engine.antt =====
-- main/keep_alive.c: the storage, the calls of the interface, and the task that owns the table.
use gateway_esp.Prelude.{ℕ, ◌/◌, Bool, true, false, List, [], Option, none, some, replicate, ℤ}
use gateway_esp.Esp.{EspErr, esp_ok, esp_fail}
use gateway_esp.Rtos.{Fifo}
use gateway_esp.KeepAlive.Defs.{
  ActionType, client_fd_add, client_fd_remove, client_update, stop_task, ClientFdAction, Callback,
  Periods, zeroed, tick_get_ms, add_new_client, remove_client, update_client, get_max_delay,
  check_clients,
}

-- How `wss_keep_alive_start` ends: with NULL; with a queue that is NULL, on which FreeRTOS stops the program
-- in the first call of the task, or in that of `wss_keep_alive_stop` without a task; or with a storage.
pub data StartResult (S : Type 0) : Type 0 where
  failed no_queue : StartResult S
  kept : S → StartResult S

-- `wss_keep_alive_storage_t`. `clients` are the first `max_clients` entries of the array, which the
-- loops visit; `spare` are the further `queue_size` entries that `wss_keep_alive_start` allocates.
-- The user context is a handle, or NULL.
pub record Storage (Q : Type 0) : Type 0 where
  pub max_clients : ℕ
  pub periods : Periods
  pub user_ctx : Option ℕ
  pub q : Q
  pub clients : List ClientFdAction
  pub spare : List ClientFdAction

pub record Config : Type 0 where
  pub max_clients : ℕ
  pub periods : Periods
  pub user_ctx : Option ℕ

-- `ESP_OK` if the queue took the message.
abbrev pub sent_to : {Q : Type 0} → Storage Q → Option Q → EspErr × Storage Q
sent_to h none = (esp_fail, h)
sent_to h (some q') = (esp_ok, record h { q = q' })

module _ (esp_timer : ℕ → ℕ) where
  -- The `switch` of the task on a received action: the new table, whether the task goes on, and
  -- the readings taken.
  unfoldable pub apply_action :
      ActionType → ClientFdAction → List ClientFdAction → ℕ → List ClientFdAction × Bool × ℕ
  apply_action client_fd_add a cs n =
      let (cs', added, n') = add_new_client esp_timer cs a.fd n in (cs', true, n')
  apply_action client_fd_remove a cs n = ((remove_client cs a.fd).0, true, n)
  apply_action client_update a cs n = ((update_client cs a.fd a.last_seen).0, true, n)
  apply_action stop_task a cs n = (cs, false, n)
  apply_action _ a cs n = (cs, true, n)

  module _ (fifo : Fifo ClientFdAction) where
    open fifo use {Queue, create, send_to_back, receive}

    -- One round of `while (run_task)`: the new storage, the callbacks, whether to go on, and the
    -- readings taken. The wait that `get_max_delay` allows ends in `receive`.
    unfoldable pub task_round : Storage Queue → ℕ → Storage Queue × List Callback × Bool × ℕ
    task_round h n =
        let waited = get_max_delay esp_timer h.periods h.clients n in
        elim (receive h.q) [
          | some (a, q') ↦
              let (cs, run, n') = apply_action a.type a h.clients waited.1 in
              (record h { clients = cs; q = q' }, [], run, n')
          | none ↦
              let (cs, out, n') =
                check_clients esp_timer h.periods h.max_clients 0 h.clients waited.1 in
              (record h { clients = cs }, out, true, n')
        ]

    -- `calloc` zeroes the array. The Booleans are whether there is memory, and what `xQueueCreate`, whose
    -- result the code does not look at, and `xTaskCreate` return.
    unfoldable pub wss_keep_alive_start : Config → Bool → Bool → Bool → StartResult (Storage Queue)
    wss_keep_alive_start config false queue_made task_created = failed
    wss_keep_alive_start config true false task_created = no_queue
    wss_keep_alive_start config true true false = failed
    wss_keep_alive_start config true true true = kept (record {
      max_clients = config.max_clients;
      periods = config.periods;
      user_ctx = config.user_ctx;
      q = create (config.max_clients / 2);
      clients = replicate config.max_clients zeroed;
      spare = replicate (config.max_clients / 2) zeroed;
    })

    unfoldable pub wss_keep_alive_stop : Storage Queue → Storage Queue
    wss_keep_alive_stop h = (sent_to h (send_to_back h.q (record zeroed { type = stop_task }))).1

    unfoldable pub wss_keep_alive_add_client : Storage Queue → ℤ → EspErr × Storage Queue
    wss_keep_alive_add_client h fd =
        sent_to h (send_to_back h.q (record { type = client_fd_add; fd = fd; last_seen = 0 }))

    unfoldable pub wss_keep_alive_remove_client : Storage Queue → ℤ → EspErr × Storage Queue
    wss_keep_alive_remove_client h fd =
        sent_to h (send_to_back h.q (record { type = client_fd_remove; fd = fd; last_seen = 0 }))

    -- Takes reading `n` of the timer.
    unfoldable pub wss_keep_alive_client_is_active : Storage Queue → ℤ → ℕ → EspErr × Storage Queue
    wss_keep_alive_client_is_active h fd n = sent_to h (
        send_to_back h.q
          (record { type = client_update; fd = fd; last_seen = tick_get_ms esp_timer n }))

unfoldable pub wss_keep_alive_set_user_ctx : {Q : Type 0} → Storage Q → Option ℕ → Storage Q
wss_keep_alive_set_user_ctx h ctx = record h { user_ctx = ctx }

unfoldable pub wss_keep_alive_get_user_ctx : {Q : Type 0} → Storage Q → Option ℕ
wss_keep_alive_get_user_ctx h = h.user_ctx
