-- ===== src/Printer/Semaphores.antt =====
-- main/printer/ESC.c, escHandleCommand: the two semaphores that it takes.
use gateway_esp.Prelude.{
  ℕ, zero, suc, ◌+◌, ◌≡◌, refl, Bool-cases, ap, sym, ◌∙◌, not, Bool, true, false, List, [], ◌∷◌,
  ◌++◌, map, Option, none, some, if◌then◌else◌, ◌==◌, ℤ, pos, negsuc, inl, inr, arith,
}
use gateway_esp.Devices.Json.{Cjson, command, Call, delete_data, respond, number_of}
use gateway_esp.Devices.Relay.{Made}
use gateway_esp.Printer.Status.{PrinterStatus, Cause, get_printer_stat}
use gateway_esp.Printer.Job.{
  Outcome, ended, crashed, running, followed_by, Job, run_job, fresh_transfer, print_transfer,
}
use gateway_esp.Printer.Handler.{
  EscCall, json_call, give_callback, give_printing_queue, Esc, Surroundings, made_all, sent_calls,
  esc_get_status, esc_print, esc_command, esc_handle_command, wrapped,
}

-- The two semaphores.
pub data Sem : Type 0 where
  callback_sem printing_queue_sem : Sem

-- How often a semaphore is given.
abbrev pub gives : Sem → List EscCall → ℕ
gives sem [] = 0
gives callback_sem (give_callback ∷ cs) = suc (gives callback_sem cs)
gives printing_queue_sem (give_printing_queue ∷ cs) = suc (gives printing_queue_sem cs)
gives sem (c ∷ cs) = gives sem cs

gives-append :
    (sem : Sem) (xs ys : List EscCall) → gives sem (xs ++ ys) ≡ gives sem xs + gives sem ys
gives-append sem [] ys = omega arith
gives-append sem (x ∷ xs) ys = ground (arith, gives-append sem xs ys)

gives-json : (sem : Sem) (cs : List Call) → gives sem (map json_call cs) ≡ 0
gives-json sem [] = refl
gives-json sem (c ∷ cs) = ground (arith, gives-json sem cs)

gives-sent : (sem : Sem) (o : Option (List ℕ)) → gives sem (sent_calls o) ≡ 0
gives-sent sem none = ground arith
gives-sent sem (some bytes) = ground arith

abbrev calls_of : Outcome (Esc × List EscCall) → List EscCall
calls_of (ended (e, calls)) = calls
calls_of crashed = []
calls_of running = []

-- The message is GET_STATUS, and cJSON has no memory for the answer.
abbrev pub aborts : Option ℤ → Made → Bool
aborts (some (pos zero)) made = not (made_all made)
aborts _ made = false

module _ (j : Cjson) (base64_decode : List ℕ → List ℕ → List ℕ) (fuel : ℕ)
    (cause_text : Cause → List ℕ) (sem : Sem) where
  wrapped-gives :
      (taken : Bool) (item : Option j.Item) (calls : List EscCall) (on : Bool)
      → gives sem calls ≡ 0
      → gives sem (wrapped j base64_decode fuel cause_text taken item calls on)
        ≡ (if on then 1 else 0)
  wrapped-gives taken none calls true h =
      ground (arith, h, gives-append sem calls (give_callback ∷ give_printing_queue ∷ []))
  wrapped-gives taken none calls false h = ground (arith, h, gives-append sem calls [])
  wrapped-gives taken (some i) calls true h = ground (
    arith,
    h,
    gives-append sem calls (json_call delete_data ∷ give_callback ∷ give_printing_queue ∷ []),
  )
  wrapped-gives taken (some i) calls false h = ground (arith, h, gives-append sem calls [])

  esc_get_status-on :
      (made : Made) (s : PrinterStatus) (handle : ℕ) (fd : ℤ)
      → (esc_get_status j base64_decode fuel cause_text made s handle fd).1 ≡ made_all made
  unfolding esc_get_status respond
  esc_get_status-on made s handle fd = ground arith

  esc_print-gives :
      (w : Surroundings) (item : Option j.Item) (e : Esc)
      → gives sem (calls_of (esc_print j base64_decode fuel cause_text w item e)) ≡ 0
  unfolding esc_print
  esc_print-gives w item e = elim (Bool-cases ((get_printer_stat w.out_done w.answer).0 == 22)) [
    | inl online' ↦
        rw online' (of_job (run_job j base64_decode fuel item fresh_transfer e.mode e.buff))
    | inr down ↦ rw down refl
  ]
    where
      of_job :
          (o : Outcome (Job j.Item))
          → gives sem (
              calls_of (
                followed_by o (λ (job : Job j.Item). ended (
                  record {
                    mode = job.printer.mode;
                    buff = job.buff;
                    status_of = record e.status_of {
                      status_code = (get_printer_stat w.out_done w.answer).1;
                    };
                  },
                  sent_calls (print_transfer w.peeked w.submitted job.printer.transfer),
                ))))
            ≡ 0
      of_job (ended job) = gives-sent sem (print_transfer w.peeked w.submitted job.printer.transfer)
      of_job crashed = refl
      of_job running = refl

  -- Whatever the message, if the handler returns, it has given each of its two semaphores back
  -- once, except after GET_STATUS without memory for the answer, when it keeps both.
  pub esc_handle_command-gives :
      (str : List ℕ) (w : Surroundings) (handle : ℕ) (fd : ℤ) (e e' : Esc) (calls : List EscCall)
      → esc_handle_command j base64_decode fuel cause_text str w handle fd e ≡ ended (e', calls)
      → gives sem calls ≡ (if aborts (number_of j (j.parse str) command) w.made then 0 else 1)
  unfolding esc_handle_command
  esc_handle_command-gives str w handle fd e e' calls h =
      by_command (number_of j (j.parse str) command) h
    where
      found :
          {o : Outcome (Esc × List EscCall)}
          → o ≡ ended (e', calls)
          → gives sem calls ≡ gives sem (calls_of o)
      found q = sym (ap (λ o. gives sem (calls_of o)) q)

      printed :
          (o : Outcome (Esc × List EscCall))
          → gives sem (calls_of o) ≡ 0
          → followed_by {B = Esc × List EscCall} o (λ out. ended (
            out.0,
            wrapped j base64_decode fuel cause_text w.callback_taken (j.parse str) out.1 true,
          ))
            ≡ ended (e', calls)
          → gives sem calls ≡ 1
      printed (ended (e₁, calls₁)) none' q =
          found q ∙ wrapped-gives w.callback_taken (j.parse str) calls₁ true none'
      printed crashed none' q = cc
      printed running none' q = cc

      by_command :
          (n : Option ℤ)
          → esc_command j base64_decode fuel cause_text n w (j.parse str) handle fd e
            ≡ ended (e', calls)
          → gives sem calls ≡ (if aborts n w.made then 0 else 1)
      by_command none q = found q ∙ wrapped-gives w.callback_taken (j.parse str) [] true refl
      by_command (some (pos zero)) q =
          found q
          ∙ wrapped-gives w.callback_taken (j.parse str)
              (map json_call
                (esc_get_status j base64_decode fuel cause_text w.made e.status_of handle fd).0)
              (esc_get_status j base64_decode fuel cause_text w.made e.status_of handle fd).1
              (gives-json sem
                (esc_get_status j base64_decode fuel cause_text w.made e.status_of handle fd).0)
          ∙ ap (λ b. if b then 1 else 0) (esc_get_status-on w.made e.status_of handle fd)
          ∙ elim (Bool-cases (made_all w.made)) [ inl all ↦ rw all refl | inr few ↦ rw few refl ]
      by_command (some (pos (suc zero))) q =
          printed (esc_print j base64_decode fuel cause_text w (j.parse str) e)
            (esc_print-gives w (j.parse str) e) q
      by_command (some (pos (suc (suc n)))) q =
          found q ∙ wrapped-gives w.callback_taken (j.parse str) [] true refl
      by_command (some (negsuc n)) q =
          found q ∙ wrapped-gives w.callback_taken (j.parse str) [] true refl
