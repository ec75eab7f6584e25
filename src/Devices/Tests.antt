-- ===== src/Devices/Tests.antt =====
-- The devices at concrete inputs.
use gateway_esp.Prelude.{
  ℕ, length, ◌+◌, ◌++◌, ◌≡◌, refl, Bool, true, false, not, List, [], ◌∷◌, arith,
}
use gateway_esp.Devices.Sample.{sample}
use gateway_esp.Devices.Relay.{online, Relay, RelayConfig, Made}
use gateway_esp.Devices.Trigger.{Trigger, steady, trigger_rounds, impulses, trigger_rounds-impulses}
use gateway_esp.Devices.Edges.{
  EdgeEvent, edge, task_turn, EdgeTrigger, edge_run, impulses_for, accepted, edge_run-impulses,
}
use gateway_esp.Rtos.ListFifo.{ListQueue, list_fifo}
use gateway_esp.Devices.Reader.{
  DataPacket, Card, packet_of, reader_callback, made_calls, announcements, wiegand_rounds,
  wiegand_rounds-cards,
}

abbrev config : RelayConfig
config = record { pin = 7; inverse = false }

abbrev released : Relay
released = record { relay_status = online; relay_state = false }

abbrev all_made : Made
all_made = record { object = true; first = true; second = true; third = true }

-- The pin falls, stays low, rises, and falls again.
abbrev levels : List Bool
levels = true ∷ false ∷ false ∷ true ∷ false ∷ []

abbrev idle_trigger : Trigger
idle_trigger = record { trigger_status = online; trigger_stat = false }

trigger_rounds-impulses_example :
    (trigger_rounds sample (steady levels) idle_trigger).1 ≡ impulses sample (not false) levels
trigger_rounds-impulses_example = trigger_rounds-impulses sample levels idle_trigger

-- Cards 7 and 70000, the second of which the reader adds to the queue.
abbrev seven : Card
seven = record { even = 0; card_number = 7; odd = 1; unused = 0 }

abbrev seventy_thousand : Card
seventy_thousand = record { even = 1; card_number = 70000; odd = 0; unused = 0 }

abbrev two_cards : ListQueue DataPacket
two_cards =
    let packet = packet_of seventy_thousand in
    reader_callback (list_fifo DataPacket) packet.packet_data packet.bits (5, packet_of seven ∷ [])

wiegand_rounds-cards_example :
    (q' : ListQueue DataPacket) × (wiegand_rounds (list_fifo DataPacket) sample 2 two_cards
      ≡ made_calls q'
          (announcements (list_fifo DataPacket) sample (seven ∷ seventy_thousand ∷ []))
          true)
    × (q'.1 ≡ [])
unfolding reader_callback
wiegand_rounds-cards_example =
    wiegand_rounds-cards (list_fifo DataPacket) sample (seven ∷ seventy_thousand ∷ []) two_cards
      (
        (omega arith, omega arith, omega arith, omega arith),
        ((omega arith, omega arith, omega arith, omega arith), tt),
      )
      refl

-- Three edges, a round, and an edge.
abbrev edges : List EdgeEvent
edges = edge 4 ∷ edge 4 ∷ edge 4 ∷ task_turn true true ∷ edge 4 ∷ []

abbrev idle_edges : EdgeTrigger (ListQueue ℕ)
idle_edges = record { input_queue = (2, []); trigger = idle_trigger; task_runs = true }

edge_run-impulses_example :
    let (t', out) = edge_run (list_fifo ℕ) sample edges idle_edges in
    out ++ impulses_for (list_fifo ℕ) sample (length (t'.input_queue.1))
    ≡ impulses_for (list_fifo ℕ) sample (0 + accepted (list_fifo ℕ) sample edges idle_edges)
edge_run-impulses_example =
    edge_run-impulses (list_fifo ℕ) sample edges idle_edges (refl, refl, tt) refl
