-- ===== src/Devices/SharedLine.antt =====
-- main/led_matrix/led_device.c: the tasks that read the answers to texts take no semaphore.
use gateway_esp.Prelude.{
  ℕ, ◌+◌, ◌-◌, ◌≡◌, refl, true, false, List, [], ◌∷◌, some, ltb, ℤ, pos, ◌==ℤ◌, arith,
}
use gateway_esp.Devices.Json.{Cjson}
use gateway_esp.Devices.Relay.{DeviceStatus}
use gateway_esp.Devices.Led.{led_request, led_told, led_cb_task}
use gateway_esp.Devices.Display.{
  no_text, task_from, resting, requesting, awaiting, releasing, LineEvent, request, text,
  status_read, text_read, Display, text_step, task_step, reader_step, Displayed, text_came,
  text_ran, task_ran, reader_ran,
}

module _ (j : Cjson) where
  -- The display at rest, and after a text whose answer is not read and a request of LEDMatrixTask.
  abbrev at_rest : DeviceStatus → ℕ → List LineEvent → Display
  at_rest s n l = record {
    task_sem = true;
    status = s;
    readers = n;
    handler = no_text;
    task = resting;
    line = l;
  }

  abbrev text_written : List ℕ → DeviceStatus → ℕ → List LineEvent → Display
  text_written str s n l = at_rest s (n + 1) (text str ∷ l)

  text_written-Displayed :
      (str : List ℕ) (s : DeviceStatus) (n : ℕ) (l : List LineEvent)
      → Displayed j (at_rest s n l)
      → Displayed j (text_written str s n l)
  unfolding text_step
  text_written-Displayed str s n l d = text_ran _ _ true refl (
      text_ran _ _ true refl
        (text_ran _ _ true refl (text_ran _ _ true refl (text_came (at_rest s n l) str refl d))))

  abbrev asked_after_text : List ℕ → List ℕ → DeviceStatus → ℕ → List LineEvent → Display
  asked_after_text str r s n l = record (text_written str s n l) {
    task_sem = false;
    task = awaiting;
    line = request r ∷ text str ∷ l;
  }

  asked_after_text-Displayed :
      (str r : List ℕ) (s : DeviceStatus) (n : ℕ) (l : List LineEvent)
      → led_request j true true ≡ some r
      → Displayed j (at_rest s n l)
      → Displayed j (asked_after_text str r s n l)
  unfolding task_step
  asked_after_text-Displayed str r s n l printed d =
      let taken = record (text_written str s n l) { task_sem = false; task = requesting } in
      let asks : task_step j true true (pos 0) [] taken ≡ some (asked_after_text str r s n l) =
        rw (printed, task_step, task_from) refl in
      task_ran taken (asked_after_text str r s n l) true true (pos 0) [] asks (
        task_ran (text_written str s n l) taken true true (pos 0) [] refl
          (text_written-Displayed str s n l d))

  abbrev pub text_answered :
      List ℕ → List ℕ → ℤ → List ℕ → DeviceStatus → ℕ → List LineEvent → Display
  text_answered str r len answer s n l = record (asked_after_text str r s n l) {
    status = (led_cb_task j len answer s).0;
    readers = n;
    line = text_read len answer ∷ request r ∷ text str ∷ l;
  }

  text_answered-Displayed :
      (str r answer : List ℕ) (len : ℤ) (s : DeviceStatus) (n : ℕ) (l : List LineEvent)
      → led_request j true true ≡ some r
      → Displayed j (at_rest s n l)
      → Displayed j (text_answered str r len answer s n l)
  unfolding reader_step
  text_answered-Displayed str r answer len s n l printed d =
      let waits : ltb 0 (n + 1) ≡ true = ground arith in
      let one_less : n + 1 - 1 ≡ n = omega arith in
      reader_ran (asked_after_text str r s n l) (text_answered str r len answer s n l) len answer
        (rw (waits, one_less) refl) (asked_after_text-Displayed str r s n l printed d)

  -- While the request can be printed, after a text that is written from rest: LEDMatrixTask may
  -- write its request before the task that PRINT_TEXT created has read. What the display sends next,
  -- `answer`, may then be read by that task, while LEDMatrixTask waits; or it may be read by
  -- LEDMatrixTask, when the read of that task has ended without bytes.
  pub shared_line :
      (str r answer : List ℕ) (len : ℤ) (s : DeviceStatus) (n : ℕ) (l : List LineEvent)
      → led_request j true true ≡ some r
      → Displayed j (at_rest s n l)
      → Displayed j (text_answered str r len answer s n l)
        × Displayed j (record (text_answered str r (pos 0) [] s n l) {
          status = led_told j len answer s;
          task = releasing;
          line = status_read len answer ∷ text_read (pos 0) [] ∷ request r ∷ text str ∷ l;
        })
  unfolding task_step led_cb_task ◌==ℤ◌
  shared_line str r answer len s n l printed d = (
    text_answered-Displayed str r answer len s n l printed d,
    task_ran _ _ true true len answer refl
        (text_answered-Displayed str r [] (pos 0) s n l printed d),
  )
