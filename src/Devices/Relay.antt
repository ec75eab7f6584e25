-- ===== src/Devices/Relay.antt =====
-- main/relay/relay.c.
use gateway_esp.Prelude.{
  ℕ, zero, suc, Bool, true, false, List, [], ◌∷◌, Option, none, some, ℤ, pos, if◌then◌else◌,
}
use gateway_esp.Devices.Json.{
  Cjson, number, bool, command, status, state, Call, set_level, Member, status_code, respond,
  number_of, bool_of, around,
}

pub data DeviceStatus : Type 0 where
  online degraded offline : DeviceStatus

-- The numbers of the enumeration.
abbrev pub status_number : DeviceStatus → ℕ
status_number online = 0
status_number degraded = 1
status_number offline = 2

pub record Relay : Type 0 where
  pub relay_status : DeviceStatus
  pub relay_state : Bool

-- The board's pin, and whether it drives the relay inversely.
pub record RelayConfig : Type 0 where
  pub pin : ℕ
  pub inverse : Bool

abbrev pub level_of : RelayConfig → Bool → ℕ
level_of cfg on = if cfg.inverse then (if on then 0 else 1) else (if on then 1 else 0)

unfoldable pub init_relay : RelayConfig → Relay → Relay × List Call
init_relay cfg r =
    (record r { relay_status = online }, set_level cfg.pin (if cfg.inverse then 1 else 0) ∷ [])

-- Which of the calls of `cJSON_Create…` succeed.
pub record Made : Type 0 where
  pub object : Bool
  pub first : Bool
  pub second : Bool
  pub third : Bool

abbrev pub relay_members : Made → Relay → List Member
relay_members made r =
    record { made = made.first; key = command; value = number status_code }
    ∷ record { made = made.second; key = status; value = number (status_number r.relay_status) }
    ∷ record { made = made.third; key = state; value = bool r.relay_state }
    ∷ []

-- The new state that SET_STATE asks for; without a Boolean the relay is released.
abbrev pub asked_state : Option Bool → Bool
asked_state none = false
asked_state (some b) = b

module _ (j : Cjson) (cfg : RelayConfig) where
  -- The `switch`.
  abbrev pub relay_command :
      Option ℤ → Option j.Item → Made → ℕ → ℤ → Relay → Relay × (List Call × Bool)
  relay_command (some (pos zero)) item made handle fd r =
      (r, respond j made.object (relay_members made r) (some handle) fd)
  relay_command (some (pos (suc zero))) item made handle fd r =
      let on = asked_state (bool_of j item state) in
      (record r { relay_state = on }, (set_level cfg.pin (level_of cfg on) ∷ [], true))
  relay_command _ item made handle fd r = (r, ([], true))

  unfoldable pub relay_handle_command : List ℕ → Made → ℕ → ℤ → Relay → Relay × List Call
  relay_handle_command str made handle fd r =
      let item = j.parse str in
      let (r', out) = relay_command (number_of j item command) item made handle fd r in
      (r', around j item out)
