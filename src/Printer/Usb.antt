-- ===== src/Printer/Usb.antt =====
-- main/printer/ESC.c: client_event_cb and class_driver_task, which follow the printer on the USB port.
use gateway_esp.Prelude.{
  inl, inr, ◌⊎◌, ℕ, ◌+◌, ◌-◌, ◌≡◌, refl, Bool, true, false, not, List, [], ◌∷◌, ◌++◌, ltb,
  if◌then◌else◌, ◌==◌, bit_and,
}
use gateway_esp.Devices.Relay.{DeviceStatus, online, offline}

-- `USB_HOST_CLIENT_EVENT_…`: a new device with its address, a device that is gone, and any other.
pub data UsbEvent : Type 0 where
  new_dev : ℕ → UsbEvent
  dev_gone other_event : UsbEvent

-- The calls of the USB host library.
pub data UsbCall : Type 0 where
  device_open : ℕ → UsbCall
  interface_claim interface_release device_close : UsbCall

-- The driver object, the number of pointers in `xQueue`, which holds two, and `printerStatus`.
pub record Driver : Type 0 where
  pub actions : ℕ
  pub dev_addr : ℕ
  pub waiting : ℕ
  pub printer_status : DeviceStatus

abbrev pub action_open_dev : ℕ
action_open_dev = 1

abbrev pub action_close_dev : ℕ
action_close_dev = 4

unfoldable pub client_event_cb : UsbEvent → Driver → Driver
client_event_cb (new_dev address) d = record d {
  actions = action_open_dev;
  dev_addr = address;
  printer_status = online;
}
client_event_cb dev_gone d = record d { actions = action_close_dev; printer_status = offline }
client_event_cb other_event d = d

-- `usb_host_client_handle_events` calls the callback for each event that waits.
abbrev pub handle_events : List UsbEvent → Driver → Driver
handle_events [] d = d
handle_events (e ∷ es) d = handle_events es (client_event_cb e d)

abbrev pub wants : ℕ → ℕ → Bool
wants actions mask = not (bit_and actions mask == 0)

-- What follows an OPEN_DEV action. The results of the calls are not looked at.
abbrev pub open_dev : Driver → Driver × List UsbCall
open_dev d =
    if wants d.actions action_open_dev
    then (
      record d { actions = 128; waiting = if ltb d.waiting 2 then d.waiting + 1 else d.waiting },
      device_open d.dev_addr ∷ interface_claim ∷ [],
    )
    else (d, [])

-- What follows a CLOSE_DEV action, which stays pending.
abbrev pub close_dev : Driver → Driver × List UsbCall
close_dev d =
    if wants d.actions action_close_dev
    then (record d { waiting = d.waiting - 1 }, interface_release ∷ device_close ∷ [])
    else (d, [])

-- One round of the event loop.
unfoldable pub class_driver_round : List UsbEvent → Driver → Driver × List UsbCall
class_driver_round es d =
    let (d₁, out₁) = open_dev (handle_events es d) in
    let (d₂, out₂) = close_dev d₁ in (d₂, out₁ ++ out₂)

abbrev pub initial_driver : Driver
initial_driver = record { actions = 0; dev_addr = 0; waiting = 0; printer_status = offline }

-- The states of the driver after events that come one in a round, with a device attached only while
-- there is none; the Boolean tells whether there is one.
pub data Reachable : Driver → Bool → Type 0 where
  started : Reachable initial_driver false
  attached :
      (d : Driver) (address : ℕ)
      → Reachable d false
      → Reachable (class_driver_round (new_dev address ∷ []) d).0 true
  detached :
      (d : Driver) → Reachable d true → Reachable (class_driver_round (dev_gone ∷ []) d).0 false
  went_on :
      (d : Driver) (b : Bool)
      → Reachable d b
      → Reachable (class_driver_round (other_event ∷ []) d).0 b

-- What holds of each state.
record Follows (d : Driver) (b : Bool) : Type 0 where
  waiting_of : d.waiting ≡ (if b then 1 else 0)
  status_of : d.printer_status ≡ (if b then online else offline)
  actions_of : if b then d.actions ≡ 128 else ((d.actions ≡ 0) ⊎ (d.actions ≡ 4))

attach-Follows :
    (d : Driver) (address : ℕ)
    → Follows d false
    → Follows (class_driver_round (new_dev address ∷ []) d).0 true
unfolding class_driver_round client_event_cb
attach-Follows d address f = record {
  waiting_of = rw f.waiting_of refl;
  status_of = refl;
  actions_of = refl;
}

detach-Follows :
    (d : Driver) → Follows d true → Follows (class_driver_round (dev_gone ∷ []) d).0 false
unfolding class_driver_round client_event_cb
detach-Follows d f = record {
  waiting_of = rw f.waiting_of refl;
  status_of = refl;
  actions_of = inr refl;
}

other-Follows :
    (d : Driver) (b : Bool) → Follows d b → Follows (class_driver_round (other_event ∷ []) d).0 b
unfolding class_driver_round client_event_cb
other-Follows d true f = record {
  waiting_of = rw f.actions_of f.waiting_of;
  status_of = rw f.actions_of f.status_of;
  actions_of = rw f.actions_of refl;
}
other-Follows d false f = elim f.actions_of [
  | inl none' ↦ record {
    waiting_of = rw none' f.waiting_of;
    status_of = rw none' f.status_of;
    actions_of = rw none' (inl refl);
  }
  | inr again ↦ record {
    waiting_of = rw (again, f.waiting_of) refl;
    status_of = rw again f.status_of;
    actions_of = rw again (inr refl);
  }
]

reachable-Follows : (d : Driver) (b : Bool) → Reachable d b → Follows d b
reachable-Follows _ _ started = record {
  waiting_of = refl;
  status_of = refl;
  actions_of = inl refl;
}
reachable-Follows _ _ (attached d address r) =
    attach-Follows d address (reachable-Follows d false r)
reachable-Follows _ _ (detached d r) = detach-Follows d (reachable-Follows d true r)
reachable-Follows _ _ (went_on d b r) = other-Follows d b (reachable-Follows d b r)

-- In every state that devices attached and detached in turn lead to, with other events between, the
-- queue that the printing functions look at holds one pointer if a printer is attached and none
-- otherwise, and the status that the events set is online or offline accordingly.
pub reachable-waiting :
    (d : Driver) (b : Bool)
    → Reachable d b
    → (d.waiting ≡ (if b then 1 else 0)) × (d.printer_status ≡ (if b then online else offline))
reachable-waiting d b r = let f = reachable-Follows d b r in (f.waiting_of, f.status_of)
