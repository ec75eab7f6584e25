-- ===== src/Board/Ends.antt =====
-- main/main.c with the devices: where the messages of a list of calls go.
use gateway_esp.Prelude.{ℕ, ◌≡◌, refl, List, [], ◌∷◌, ◌++◌, none, some, ℤ, All, All-append, arith}
use gateway_esp.Clients.Defs.{Clients, Device, printer}
use gateway_esp.Server.Defs.{Effect, handle_command, send_text}
use gateway_esp.Server.Broadcast.{device_cb}
use gateway_esp.Devices.Json.{Call, callback}
use gateway_esp.Printer.Job.{Outcome, ended, crashed, running, followed_by}
use gateway_esp.Printer.Handler.{EscCall, json_call}
use gateway_esp.Board.Machine.{
  Action, server, device, printer_call, call_actions, perform_calls, esc_call_actions,
  perform_esc_calls, and_actions,
}

-- What is said of the result, if there is one.
abbrev pub Ends : {A : Type 0} → (A → Type 0) → Outcome A → Type 0
Ends P (ended a) = P a
Ends P crashed = Unit
Ends P running = Unit

pub Ends-any : {A : Type 0} → (out : Outcome A) → Ends (λ a. Unit) out
Ends-any (ended a) = tt
Ends-any crashed = tt
Ends-any running = tt

pub Ends-followed_by :
    {A B : Type 0} (P : A → Type 0) (Q : B → Type 0) (out : Outcome A) (next : A → Outcome B)
    → Ends P out
    → ((a : A) → P a → Ends Q (next a))
    → Ends Q (followed_by out next)
Ends-followed_by P Q (ended a) next h k = k a h
Ends-followed_by P Q crashed next h k = tt
Ends-followed_by P Q running next h k = tt

module _ (handle : ℕ) (fd : ℤ) where
  -- A message that is sent goes to the socket `fd` of the server `handle`.
  abbrev pub IsOwn : Action → Type 0
  IsOwn (server (send_text hd to mes)) = (hd ≡ some handle) × (to ≡ fd)
  IsOwn (server e) = Unit
  IsOwn (device d c) = Unit
  IsOwn (printer_call c) = Unit

  abbrev pub CallIsOwn : Call → Type 0
  CallIsOwn (callback mes hd to) = (hd ≡ some handle) × (to ≡ fd)
  CallIsOwn c = Unit

  abbrev pub EscCallIsOwn : EscCall → Type 0
  EscCallIsOwn (json_call c) = CallIsOwn c
  EscCallIsOwn c = Unit

  abbrev pub EffectIsOwn : Effect → Type 0
  EffectIsOwn (handle_command d payload hd to) = (hd ≡ handle) × (to ≡ fd)
  EffectIsOwn (send_text hd to mes) = (hd ≡ some handle) × (to ≡ fd)
  EffectIsOwn e = Unit

  pub call_actions-IsOwn :
      (g : Clients) (d : Device) (c : Call) → CallIsOwn c → Ends (All IsOwn) (call_actions g d c)
  unfolding device_cb
  call_actions-IsOwn g d (callback none hd to) own = tt
  call_actions-IsOwn g d (callback (some mes) hd to) (same, same') =
      rw (same, same') ((refl, refl), (tt, tt))
  call_actions-IsOwn g d c own = ground arith

  pub perform_calls-IsOwn :
      (g : Clients) (d : Device) (cs : List Call)
      → All CallIsOwn cs
      → Ends (All IsOwn) (perform_calls g d cs)
  unfolding perform_calls
  perform_calls-IsOwn g d [] own = tt
  perform_calls-IsOwn g d (c ∷ cs) (here, own) =
      Ends-followed_by (All IsOwn) (All IsOwn) (call_actions g d c)
        (λ now. and_actions now (perform_calls g d cs)) (call_actions-IsOwn g d c here)
        (λ now a.
          Ends-followed_by (All IsOwn) (All IsOwn) (perform_calls g d cs)
            (λ more. ended (now ++ more)) (perform_calls-IsOwn g d cs own)
            (λ more b. All-append IsOwn now more a b))

  pub esc_call_actions-IsOwn :
      (g : Clients) (c : EscCall) → EscCallIsOwn c → Ends (All IsOwn) (esc_call_actions g c)
  esc_call_actions-IsOwn g (json_call c) own = call_actions-IsOwn g printer c own
  esc_call_actions-IsOwn g c own = ground arith

  pub perform_esc_calls-IsOwn :
      (g : Clients) (cs : List EscCall)
      → All EscCallIsOwn cs
      → Ends (All IsOwn) (perform_esc_calls g cs)
  unfolding perform_esc_calls
  perform_esc_calls-IsOwn g [] own = tt
  perform_esc_calls-IsOwn g (c ∷ cs) (here, own) =
      Ends-followed_by (All IsOwn) (All IsOwn) (esc_call_actions g c)
        (λ now. and_actions now (perform_esc_calls g cs)) (esc_call_actions-IsOwn g c here)
        (λ now a.
          Ends-followed_by (All IsOwn) (All IsOwn) (perform_esc_calls g cs)
            (λ more. ended (now ++ more)) (perform_esc_calls-IsOwn g cs own)
            (λ more b. All-append IsOwn now more a b))
