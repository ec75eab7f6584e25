-- ===== src/Printer/Exclusion.antt =====
-- main/printer/ESC.c: the command handler and the status task, which take turns at the printer by the
-- semaphore `printingQueue_sem`.
use gateway_esp.Prelude.{
  ℕ, ◌≡◌, refl, sym, subst, Bool, true, false, ◌||◌, ◌&&◌, List, [], ◌∷◌, ℤ, ◌==◌, not, arith,
}
use gateway_esp.Devices.Json.{Cjson, command, number_of}
use gateway_esp.Printer.Status.{Cause, status_round}
use gateway_esp.Printer.Job.{ended}
use gateway_esp.Printer.Handler.{
  EscCall, take_printing_queue, entry_calls, exit_calls, Esc, Surroundings, esc_handle_command,
}
use gateway_esp.Printer.Semaphores.{printing_queue_sem, gives, aborts, esc_handle_command-gives}

-- Where a thread is: before its `xSemaphoreTake`, or after it and before its `xSemaphoreGive`.
pub data Place : Type 0 where
  outside inside : Place

-- What the two threads share, and where they are. `printing_queue` tells whether the semaphore can be
-- taken.
pub record Shared : Type 0 where
  pub printing_queue : Bool
  pub handler : Place
  pub status_task : Place
  pub esc : Esc

abbrev pub given : List EscCall → Bool
given calls = not (gives printing_queue_sem calls == 0)

-- The calls take `printingQueue_sem`.
abbrev pub takes_queue : List EscCall → Bool
takes_queue [] = false
takes_queue (take_printing_queue ∷ cs) = true
takes_queue (c ∷ cs) = takes_queue cs

-- A thread gets past calls that take the semaphore when it can be taken.
abbrev pub Passes : List EscCall → Bool → Type 0
Passes calls free = takes_queue calls ≡ true → free ≡ true

module _ (j : Cjson) (base64_decode : List ℕ → List ℕ → List ℕ) (fuel : ℕ)
    (cause_text : Cause → List ℕ) where
  -- The moves of the two threads. A thread that finds the semaphore taken waits, which is no move. Each
  -- enters by the calls that its code begins with, the handler leaves by those that `escHandleCommand`
  -- makes on a message, and the status task, after its round on the codes that the printer answers, by
  -- those that its code ends with.
  pub data Move : Shared → Shared → Type 0 where
    handler_takes :
        (s : Shared) (taken : Bool)
        → Passes (entry_calls taken) s.printing_queue
        → s.handler ≡ outside
        → Move s (record s {
          printing_queue = s.printing_queue && not (takes_queue (entry_calls taken));
          handler = inside;
        })
    handler_leaves :
        (s : Shared) (str : List ℕ) (w : Surroundings) (handle : ℕ) (fd : ℤ) (e : Esc)
        (calls : List EscCall)
        → s.handler ≡ inside
        → esc_handle_command j base64_decode fuel cause_text str w handle fd s.esc
          ≡ ended (e, calls)
        → Move s (record s {
          printing_queue = s.printing_queue || given calls;
          handler = outside;
          esc = e;
        })
    status_takes :
        (s : Shared) (taken : Bool)
        → Passes (entry_calls taken) s.printing_queue
        → s.status_task ≡ outside
        → Move s (record s {
          printing_queue = s.printing_queue && not (takes_queue (entry_calls taken));
          status_task = inside;
        })
    status_leaves :
        (s : Shared) (code offline_status error_status : ℕ)
        → s.status_task ≡ inside
        → Move s (record s {
          printing_queue = s.printing_queue || given exit_calls;
          status_task = outside;
          esc = record s.esc {
            status_of = status_round code offline_status error_status s.esc.status_of;
          };
        })

  pub data Moves : Shared → Shared → Type 0 where
    stays : (s : Shared) → Moves s s
    moves : (s t u : Shared) → Moves s t → Move t u → Moves s u

  -- While the semaphore can be taken, no thread is inside; and not both are inside.
  abbrev pub Exclusive : Shared → Type 0
  Exclusive s =
      (s.printing_queue ≡ true → (s.handler ≡ outside) × (s.status_task ≡ outside))
      × (s.handler ≡ inside → s.status_task ≡ inside → ⊥)

  Move-Exclusive : (s t : Shared) → Exclusive s → Move s t → Exclusive t
  Move-Exclusive s _ h (handler_takes _ taken pass out) = ground (arith, h, pass refl)
  Move-Exclusive s _ h (handler_leaves _ str w handle fd e calls at run) = ground (arith, h.1 at)
  Move-Exclusive s _ h (status_takes _ taken pass out) = ground (arith, h, pass refl)
  Move-Exclusive s _ h (status_leaves _ a b c at) = ground (arith, h.1)

  pub Moves-Exclusive : (s t : Shared) → Exclusive s → Moves s t → Exclusive t
  Moves-Exclusive s _ h (stays _) = h
  Moves-Exclusive s _ h (moves _ t u before m) = Move-Exclusive t u (Moves-Exclusive s t h before) m

  -- Nobody is inside, and the semaphore cannot be taken: there is no move.
  abbrev pub Stuck : Shared → Type 0
  Stuck s = (s.printing_queue ≡ false) × (s.handler ≡ outside) × (s.status_task ≡ outside)

  Stuck-Move : (s t : Shared) → Stuck s → Move s t → ⊥
  Stuck-Move s _ h (handler_takes _ taken pass out) = cc (h.0, pass refl)
  Stuck-Move s _ h (handler_leaves _ str w handle fd e calls at run) = cc (h.1, at)
  Stuck-Move s _ h (status_takes _ taken pass out) = cc (h.0, pass refl)
  Stuck-Move s _ h (status_leaves _ a b c at) = cc (h.2, at)

  Stuck-Moves : (s t : Shared) → Stuck s → Moves s t → t ≡ s
  Stuck-Moves s _ h (stays _) = refl
  Stuck-Moves s _ h (moves _ t u before m) =
      absurd (Stuck-Move t u (subst Stuck (sym (Stuck-Moves s t h before)) h) m)

  -- Whenever the handler leaves, in a state that the two threads have reached from one in which
  -- nobody was inside, the status task is outside. After a message other than GET_STATUS without
  -- memory for the answer, the semaphore can be taken again; after that one it cannot, and no thread
  -- ever moves again.
  pub handler_leaves_lem :
      (s₀ s : Shared) (str : List ℕ) (w : Surroundings) (handle : ℕ) (fd : ℤ) (e : Esc)
      (calls : List EscCall)
      → Exclusive s₀
      → Moves s₀ s
      → s.handler ≡ inside
      → esc_handle_command j base64_decode fuel cause_text str w handle fd s.esc ≡ ended (e, calls)
      → let t = record s {
        printing_queue = s.printing_queue || given calls;
        handler = outside;
        esc = e;
      } in
        let aborted = aborts (number_of j (j.parse str) command) w.made in
        (s.status_task ≡ outside)
        × (aborted ≡ false → t.printing_queue ≡ true)
        × (aborted ≡ true → (u : Shared) → Moves t u → u ≡ t)
  handler_leaves_lem s₀ s str w handle fd e calls start run at done =
      let h = Moves-Exclusive s₀ s start run in
      let count =
        esc_handle_command-gives j base64_decode fuel cause_text printing_queue_sem str w handle fd
          s.esc e calls done in
      let apart : s.status_task ≡ outside = ground (arith, h.1 at) in
      let taken : s.printing_queue ≡ false = ground (arith, h.0) in
      (
        apart,
        λ fine. ground (arith, count),
        λ aborted u. Stuck-Moves _ u (ground (arith, count, taken), refl, apart),
      )
