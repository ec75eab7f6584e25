-- ===== src/Board/Impulse.antt =====
-- main/main.c with the trigger: from the pin to the clients.
use gateway_esp.Prelude.{
  ℕ, ◌≡◌, refl, Bool, true, false, not, ◌&&◌, List, [], ◌∷◌, ◌++◌, map, Option, none, some, pos,
  All, if◌then◌else◌, Bool-cases, inl, inr,
}
use gateway_esp.Rtos.{Fifo}
use gateway_esp.KeepAlive.Defs.{ClientFdAction}
use gateway_esp.Clients.Defs.{Clients, trigger, table}
use gateway_esp.Clients.Held.{SixEach}
use gateway_esp.Server.Defs.{Features, free_mes}
use gateway_esp.Server.Broadcast.{IsLinked, messages, device_cb-table}
use gateway_esp.Devices.Json.{
  Cjson, number, command, create_object, delete_response, callback, respond,
}
use gateway_esp.Devices.Relay.{RelayConfig}
use gateway_esp.Devices.Trigger.{Trigger, trigger_round}
use gateway_esp.Printer.Status.{Cause}
use gateway_esp.Printer.Job.{ended}
use gateway_esp.Board.Machine.{Board, server, device, perform_calls, board_trigger}

module _ (esp_timer : ℕ → ℕ) (fifo : Fifo ClientFdAction) (f : Features) (j : Cjson)
    (base64_decode : List ℕ → List ℕ → List ℕ) (fuel : ℕ) (cause_text : Cause → List ℕ)
    (cfg : RelayConfig) where
  open fifo use {Queue}

  perform_calls-nil : (g : Clients) → perform_calls g trigger [] ≡ ended []
  unfolding perform_calls
  perform_calls-nil g = refl

  -- The calls of a message that cJSON could print, to the trigger's clients.
  impulse-actions :
      (g : Clients) (printed : Option (List ℕ)) (mes : List ℕ)
      → printed ≡ some mes
      → SixEach g
      → All IsLinked (table g trigger)
      → perform_calls g trigger
          (create_object ∷ callback printed none (pos 4) ∷ delete_response ∷ [])
        ≡ ended (
            device trigger create_object
            ∷ (map server (messages (table g trigger) mes ++ (free_mes ∷ []))
                ++ (device trigger delete_response ∷ [])))
  unfolding perform_calls
  impulse-actions g printed mes e six linked =
      rw (e, device_cb-table g mes 4 trigger six linked refl) refl

  -- A round of the trigger's task, while cJSON has memory, sends its message to each client in the
  -- trigger's table once, in the table's order, and to nobody else, if the pin is low and no impulse
  -- was sent since it was high; otherwise it sends nothing. It changes no state but the trigger's.
  pub board_trigger-impulse :
      (level again : Bool) (b : Board Queue) (mes : List ℕ)
      → SixEach b.gateway.clients
      → All IsLinked (table b.gateway.clients trigger)
      → j.print ((command, number 101) ∷ []) ≡ some mes
      → (t : Trigger) × (board_trigger esp_timer fifo f j base64_decode fuel cause_text cfg level
            again true true b
          ≡ ended (
            record b { trigger_of = t },
            if not level && not b.trigger_of.trigger_stat
                then device trigger create_object
                  ∷ (map server (messages (table b.gateway.clients trigger) mes ++ (free_mes ∷ []))
                      ++ (device trigger delete_response ∷ []))
                else [],
          ))
  unfolding board_trigger trigger_round respond
  board_trigger-impulse level again b mes six linked printed =
      let t = b.trigger_of in
      elim (Bool-cases (not level && not t.trigger_stat)) [
        | inl falls ↦ (
          record t { trigger_stat = true },
          rw (board_trigger, trigger_round, falls)
              (rw (impulse-actions b.gateway.clients _ mes printed six linked) refl),
        )
        | inr stays ↦ (
          if again then record t { trigger_stat = false } else t,
          rw (board_trigger, trigger_round, stays) (rw (perform_calls-nil b.gateway.clients) refl),
        )
      ]
