-- ===== src/Board/Calls.antt =====
-- main/main.c with the devices: which calls of a command handler send where.
use gateway_esp.Prelude.{
  ℕ, zero, suc, refl, Bool, true, false, List, [], ◌∷◌, ◌++◌, map, Option, none, some, ℤ, pos,
  negsuc, All, All-append, if◌then◌else◌, Option-cases, Bool-cases, ◌==◌, inl, inr,
}
use gateway_esp.Devices.Json.{
  parsed_if, delete_if, command, Cjson, Call, respond, Member, members, number_of, around,
}
use gateway_esp.Devices.Relay.{
  DeviceStatus, Relay, RelayConfig, Made, relay_members, relay_command, relay_handle_command,
}
use gateway_esp.Devices.Trigger.{Trigger, trigger_command, trigger_handle_command}
use gateway_esp.Devices.Scanner.{barcode_command, barcode_handle_command}
use gateway_esp.Devices.Led.{led_command, led_status_answer, led_handle_command}
use gateway_esp.Printer.Status.{Cause, get_printer_stat}
use gateway_esp.Printer.Job.{run_job, fresh_transfer, print_transfer}
use gateway_esp.Printer.Handler.{
  EscCall, give_callback, give_printing_queue, wrapped, esc_command, sent_calls, json_call, Esc,
  Surroundings, esc_handle_command, esc_get_status, esc_print,
}
use gateway_esp.Board.Ends.{Ends, Ends-any, Ends-followed_by, CallIsOwn, EscCallIsOwn}

module _ (handle : ℕ) (fd : ℤ) (j : Cjson) where
  respond-IsOwn :
      (object : Bool) (ms : List Member)
      → All (CallIsOwn handle fd) (respond j object ms (some handle) fd).0
  unfolding respond
  respond-IsOwn false ms = tt
  respond-IsOwn true ms = elim (Option-cases (members ms)) [
    | inl e ↦ rw (respond, e) (tt, tt)
    | inr (l, e) ↦ rw (respond, e) (tt, ((refl, refl), (tt, tt)))
  ]

  parsed-IsOwn : (i : Option j.Item) → All (CallIsOwn handle fd) (parsed_if j i)
  parsed-IsOwn none = tt
  parsed-IsOwn (some i) = (tt, tt)

  deleted-IsOwn :
      (i : Option j.Item) (on : Bool) → All (CallIsOwn handle fd) (if on then delete_if j i else [])
  deleted-IsOwn none true = tt
  deleted-IsOwn (some i) true = (tt, tt)
  deleted-IsOwn i false = tt

  around-IsOwn :
      (item : Option j.Item) (calls : List Call) (on : Bool)
      → All (CallIsOwn handle fd) calls
      → All (CallIsOwn handle fd) (around j item (calls, on))
  around-IsOwn item calls on own =
      All-append (CallIsOwn handle fd) (parsed_if j item)
        (calls ++ (if on then delete_if j item else [])) (parsed-IsOwn item)
        (All-append (CallIsOwn handle fd) calls (if on then delete_if j item else []) own
          (deleted-IsOwn item on))

  relay_command-IsOwn :
      (cfg : RelayConfig) (n : Option ℤ) (item : Option j.Item) (made : Made) (r : Relay)
      → All (CallIsOwn handle fd) (relay_command j cfg n item made handle fd r).1.0
  relay_command-IsOwn cfg none item made r = tt
  relay_command-IsOwn cfg (some (negsuc k)) item made r = tt
  relay_command-IsOwn cfg (some (pos zero)) item made r =
      respond-IsOwn made.object (relay_members made r)
  relay_command-IsOwn cfg (some (pos (suc zero))) item made r = (tt, tt)
  relay_command-IsOwn cfg (some (pos (suc (suc k)))) item made r = tt

  pub relay-IsOwn :
      (cfg : RelayConfig) (str : List ℕ) (made : Made) (r : Relay)
      → All (CallIsOwn handle fd) (relay_handle_command j cfg str made handle fd r).1
  unfolding relay_handle_command
  relay-IsOwn cfg str made r =
      let item = j.parse str in
      let out = (relay_command j cfg (number_of j item command) item made handle fd r).1 in
      around-IsOwn item out.0 out.1 (relay_command-IsOwn cfg (number_of j item command) item made r)

  trigger_command-IsOwn :
      (n : Option ℤ) (object first second : Bool) (t : Trigger)
      → All (CallIsOwn handle fd) (trigger_command j n object first second handle fd t).0
  trigger_command-IsOwn none object first second t = tt
  trigger_command-IsOwn (some (negsuc k)) object first second t = tt
  trigger_command-IsOwn (some (pos zero)) object first second t = respond-IsOwn object _
  trigger_command-IsOwn (some (pos (suc k))) object first second t = tt

  pub trigger-IsOwn :
      (str : List ℕ) (object first second : Bool) (t : Trigger)
      → All (CallIsOwn handle fd) (trigger_handle_command j str object first second handle fd t)
  unfolding trigger_handle_command
  trigger-IsOwn str object first second t =
      let item = j.parse str in
      let out = trigger_command j (number_of j item command) object first second handle fd t in
      around-IsOwn item out.0 out.1
        (trigger_command-IsOwn (number_of j item command) object first second t)

  barcode_command-IsOwn :
      (n : Option ℤ) (object first second : Bool) (s : DeviceStatus)
      → All (CallIsOwn handle fd) (barcode_command j n object first second handle fd s).0
  barcode_command-IsOwn none object first second s = tt
  barcode_command-IsOwn (some (negsuc k)) object first second s = tt
  barcode_command-IsOwn (some (pos zero)) object first second s = respond-IsOwn object _
  barcode_command-IsOwn (some (pos (suc k))) object first second s = tt

  pub barcode-IsOwn :
      (str : List ℕ) (object first second : Bool) (s : DeviceStatus)
      → All (CallIsOwn handle fd) (barcode_handle_command j str object first second handle fd s)
  unfolding barcode_handle_command
  barcode-IsOwn str object first second s =
      let item = j.parse str in
      let out = barcode_command j (number_of j item command) object first second handle fd s in
      around-IsOwn item out.0 out.1
        (barcode_command-IsOwn (number_of j item command) object first second s)

  led_status_answer-IsOwn :
      (object first second : Bool) (s : DeviceStatus)
      → All (CallIsOwn handle fd) (led_status_answer j object first second handle fd s)
  led_status_answer-IsOwn false first second s = tt
  led_status_answer-IsOwn true false second s = (tt, tt)
  led_status_answer-IsOwn true true false s = (tt, tt)
  led_status_answer-IsOwn true true true s = (tt, ((refl, refl), tt))

  led_command-IsOwn :
      (n : Option ℤ) (str : List ℕ) (object first second : Bool) (s : DeviceStatus)
      → All (CallIsOwn handle fd) (led_command j n str object first second handle fd s)
  led_command-IsOwn none str object first second s = tt
  led_command-IsOwn (some (negsuc k)) str object first second s = tt
  led_command-IsOwn (some (pos zero)) str object first second s =
      led_status_answer-IsOwn object first second s
  led_command-IsOwn (some (pos (suc zero))) str object first second s = (tt, (tt, (tt, (tt, tt))))
  led_command-IsOwn (some (pos (suc (suc k)))) str object first second s = tt

  pub led-IsOwn :
      (str : List ℕ) (object first second : Bool) (s : DeviceStatus)
      → All (CallIsOwn handle fd) (led_handle_command j str object first second handle fd s)
  unfolding led_handle_command
  led-IsOwn str object first second s =
      let item = j.parse str in
      All-append (CallIsOwn handle fd) (parsed_if j item)
        (led_command j (number_of j item command) str object first second handle fd s)
        (parsed-IsOwn item) (led_command-IsOwn (number_of j item command) str object first second s)

  sent-IsOwn : (o : Option (List ℕ)) → All (EscCallIsOwn handle fd) (sent_calls o)
  sent-IsOwn none = tt
  sent-IsOwn (some bytes) = (tt, tt)

  json_calls-IsOwn :
      (cs : List Call)
      → All (CallIsOwn handle fd) cs
      → All (EscCallIsOwn handle fd) (map json_call cs)
  json_calls-IsOwn [] own = tt
  json_calls-IsOwn (c ∷ cs) own = (own.0, json_calls-IsOwn cs own.1)

  module _ (base64_decode : List ℕ → List ℕ → List ℕ) (fuel : ℕ) (cause_text : Cause → List ℕ) where
    wrapped-IsOwn :
        (taken : Bool) (item : Option j.Item) (calls : List EscCall) (on : Bool)
        → All (EscCallIsOwn handle fd) calls
        → All (EscCallIsOwn handle fd) (wrapped j base64_decode fuel cause_text taken item calls on)
    wrapped-IsOwn taken item calls on own = (
      tt,
      (
        tt,
        All-append (EscCallIsOwn handle fd) (map json_call (parsed_if j item)) _
            (json_calls-IsOwn (parsed_if j item) (parsed-IsOwn item))
            (All-append (EscCallIsOwn handle fd) calls _ own (last item on)),
      ),
    )
      where
        last :
            (i : Option j.Item) (b : Bool)
            → All (EscCallIsOwn handle fd) (
                if b
                then map json_call (delete_if j i) ++ (give_callback ∷ give_printing_queue ∷ [])
                else [])
        last none true = (tt, (tt, tt))
        last (some i) true = (tt, (tt, (tt, tt)))
        last i false = tt

    esc_print-IsOwn :
        (w : Surroundings) (item : Option j.Item) (e : Esc)
        → Ends
            (λ out. All (EscCallIsOwn handle fd) out.1)
            (esc_print j base64_decode fuel cause_text w item e)
    unfolding esc_print
    esc_print-IsOwn w item e = elim (Bool-cases ((get_printer_stat w.out_done w.answer).0 == 22)) [
      | inl ready ↦
          rw (esc_print, ready)
            (Ends-followed_by (λ job. Unit) (λ out. All (EscCallIsOwn handle fd) out.1)
              (run_job j base64_decode fuel item fresh_transfer e.mode e.buff) _
              (Ends-any (run_job j base64_decode fuel item fresh_transfer e.mode e.buff))
              (λ job h. sent-IsOwn (print_transfer w.peeked w.submitted job.printer.transfer)))
      | inr busy ↦ rw (esc_print, busy) tt
    ]

    esc_command-IsOwn :
        (n : Option ℤ) (w : Surroundings) (item : Option j.Item) (e : Esc)
        → Ends
            (λ out. All (EscCallIsOwn handle fd) out.1)
            (esc_command j base64_decode fuel cause_text n w item handle fd e)
    unfolding esc_get_status
    esc_command-IsOwn none w item e = wrapped-IsOwn w.callback_taken item [] true tt
    esc_command-IsOwn (some (negsuc k)) w item e = wrapped-IsOwn w.callback_taken item [] true tt
    esc_command-IsOwn (some (pos zero)) w item e =
        let (calls, on) =
          esc_get_status j base64_decode fuel cause_text w.made e.status_of handle fd in
        wrapped-IsOwn w.callback_taken item (map json_call calls) on
          (json_calls-IsOwn calls (respond-IsOwn w.made.object _))
    esc_command-IsOwn (some (pos (suc zero))) w item e =
        Ends-followed_by (λ out. All (EscCallIsOwn handle fd) out.1)
          (λ out. All (EscCallIsOwn handle fd) out.1)
          (esc_print j base64_decode fuel cause_text w item e) _ (esc_print-IsOwn w item e)
          (λ out h. wrapped-IsOwn w.callback_taken item out.1 true h)
    esc_command-IsOwn (some (pos (suc (suc k)))) w item e =
        wrapped-IsOwn w.callback_taken item [] true tt

    pub esc-IsOwn :
        (str : List ℕ) (w : Surroundings) (e : Esc)
        → Ends
            (λ out. All (EscCallIsOwn handle fd) out.1)
            (esc_handle_command j base64_decode fuel cause_text str w handle fd e)
    unfolding esc_handle_command
    esc-IsOwn str w e =
        let item = j.parse str in esc_command-IsOwn (number_of j item command) w item e
