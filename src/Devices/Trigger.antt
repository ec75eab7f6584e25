-- ===== src/Devices/Trigger.antt =====
-- main/trigger/trigger.c.
use gateway_esp.Prelude.{
  ℕ, zero, suc, replicate, ◌≡◌, refl, Bool, true, false, not, ◌&&◌, List, [], ◌∷◌, ◌++◌, Option,
  none, some, ℤ, pos, if◌then◌else◌, arith,
}
use gateway_esp.Devices.Json.{
  Cjson, number, command, status, Call, create_task, create_object, delete_response, callback,
  status_code, respond, number_of, around,
}
use gateway_esp.Devices.Relay.{DeviceStatus, online, status_number}

pub record Trigger : Type 0 where
  pub trigger_status : DeviceStatus
  pub trigger_stat : Bool

-- A round of the task: the two readings of the pin, and whether cJSON makes the object and the number.
pub record Round : Type 0 where
  pub level : Bool
  pub again : Bool
  pub object : Bool
  pub made : Bool

-- Rounds with memory, in each of which the pin keeps its level.
abbrev pub steady : List Bool → List Round
steady [] = []
steady (l ∷ ls) = record { level = l; again = l; object = true; made = true } ∷ steady ls

abbrev pub impulse_code : ℕ
impulse_code = 101

-- `initTrigger`, after the set-up of the pin.
unfoldable pub init_trigger : Trigger → Trigger × List Call
init_trigger t = (record t { trigger_status = online }, create_task ∷ [])

module _ (j : Cjson) where
  abbrev pub trigger_command : Option ℤ → Bool → Bool → Bool → ℕ → ℤ → Trigger → List Call × Bool
  trigger_command (some (pos zero)) object first second handle fd t =
      respond j object
        (record { made = first; key = command; value = number status_code }
          ∷ record { made = second; key = status; value = number (status_number t.trigger_status) }
          ∷ [])
        (some handle) fd
  trigger_command _ object first second handle fd t = ([], true)

  -- `object`, `first` and `second` tell which calls of `cJSON_Create…` succeed.
  unfoldable pub trigger_handle_command : List ℕ → Bool → Bool → Bool → ℕ → ℤ → Trigger → List Call
  trigger_handle_command str object first second handle fd t =
      let item = j.parse str in
      around j item (trigger_command (number_of j item command) object first second handle fd t)

  -- One round of `triggerTask`. `level` is the first reading of the pin; `again` is the reading that
  -- is taken if no impulse is sent. `object` and `made` tell whether cJSON makes the object and the
  -- number; if not, the task returns (`false`).
  unfoldable pub trigger_round : Bool → Bool → Bool → Bool → Trigger → Trigger × List Call × Bool
  trigger_round level again object made t =
      if not level && not t.trigger_stat
      then (let (out, on) =
            respond j object
              (record { made = made; key = command; value = number impulse_code } ∷ []) none
              (pos 4) in
          (if on then record t { trigger_stat = true } else t, out, on))
      else ((if again then record t { trigger_stat = false } else t), [], true)

  -- The rounds of the task, which end when it returns.
  unfoldable pub trigger_rounds : List Round → Trigger → Trigger × List Call
  trigger_rounds [] t = (t, [])
  trigger_rounds (r ∷ rs) t =
      let (t', out, on) = trigger_round r.level r.again r.object r.made t in
      let rest = trigger_rounds rs t' in if on then (rest.0, out ++ rest.1) else (t', out)

  -- The falling edges of the levels after `before`, each with the calls for one impulse.
  abbrev pub impulses : Bool → List Bool → List Call
  impulses before [] = []
  impulses before (level ∷ levels) =
      if before && not level
      then create_object
        ∷ callback (j.print ((command, number 101) ∷ [])) none (pos 4)
        ∷ delete_response
        ∷ impulses level levels
      else impulses level levels

  -- When cJSON has memory and the pin does not change between the readings of one round: the task sends
  -- to the trigger's clients one impulse for each round that finds the pin low while the round before
  -- found it high, and none else; before the first round the pin counts as high unless an impulse was
  -- sent for it.
  pub trigger_rounds-impulses :
      (levels : List Bool) (t : Trigger)
      → (trigger_rounds (steady levels) t).1 ≡ impulses (not t.trigger_stat) levels
  unfolding trigger_rounds trigger_round respond
  trigger_rounds-impulses [] t = refl
  trigger_rounds-impulses (true ∷ levels) t =
      ground (arith, trigger_rounds-impulses levels (record t { trigger_stat = false }))
  trigger_rounds-impulses (false ∷ levels) t = ground (
    arith,
    trigger_rounds-impulses levels (record t { trigger_stat = true }),
    trigger_rounds-impulses levels t,
  )

  -- An impulse was sent.
  abbrev pub sent : DeviceStatus → Trigger
  sent st = record { trigger_status = st; trigger_stat = true }

  low-nothing :
      (k : ℕ) (st : DeviceStatus) → (trigger_rounds (steady (replicate k false)) (sent st)).1 ≡ []
  unfolding trigger_rounds trigger_round
  low-nothing zero st = refl
  low-nothing (suc k) st = low-nothing k st

  -- After an impulse, when the pin is high at the first reading of a round and has fallen at the second:
  -- the task sends nothing for this falling edge, in this round and all that find the pin low after it.
  pub missed_edge :
      (object made : Bool) (k : ℕ) (st : DeviceStatus)
      → (trigger_rounds
          (record { level = true; again = false; object = object; made = made }
            ∷ steady (replicate k false))
          (sent st)).1
        ≡ []
  unfolding trigger_rounds trigger_round
  missed_edge object made k st = low-nothing k st
