-- ===== src/Devices/LineTests.antt =====
-- The line to the display at concrete inputs.
use gateway_esp.Prelude.{◌≡◌, ◌≢◌, ◌⊎◌, refl, true, false, none, some, ℕ, List, [], ◌∷◌, pos}
use gateway_esp.Devices.Sample.{sample, answer_text}
use gateway_esp.Devices.Relay.{online}
use gateway_esp.Devices.Led.{led_told}
use gateway_esp.Devices.Display.{
  Display, text_step, task_step, Displayed, at_first, task_ran, first_display, line_state, request,
  text, status_read, text_read, releasing, awaiting,
}
use gateway_esp.Devices.Turns.{Displayed-in_turn}
use gateway_esp.Devices.SharedLine.{text_answered, shared_line}

-- The request of `LEDMatrixTask`.
abbrev asked : List ℕ
asked = b'{' ∷ b'}' ∷ []

-- LEDMatrixTask has taken the semaphore and written its request.
abbrev waiting : Display
waiting = record first_display { task_sem = false; task = awaiting; line = request asked ∷ [] }

waiting-Displayed : Displayed sample waiting
unfolding task_step
waiting-Displayed =
    task_ran _ _ true true (pos 0) [] refl (task_ran _ _ true true (pos 0) [] refl at_first)

Displayed-in_turn_example :
    (line_state (request asked ∷ []) ≡ some true)
    × ((text_step true waiting ≢ none)
        ⊎ (task_step sample true true (pos 3) answer_text waiting ≢ none))
Displayed-in_turn_example =
    Displayed-in_turn sample waiting true true true (pos 3) answer_text asked refl waiting-Displayed

shared_line_example :
    Displayed sample (text_answered sample (72 ∷ []) asked (pos 3) answer_text online 0 [])
    × Displayed sample (record (text_answered sample (72 ∷ []) asked (pos 0) [] online 0 []) {
      status = led_told sample (pos 3) answer_text online;
      task = releasing;
      line =
          status_read (pos 3) answer_text
          ∷ text_read (pos 0) []
          ∷ request asked
          ∷ text (72 ∷ [])
          ∷ [];
    })
shared_line_example =
    shared_line sample (72 ∷ []) asked answer_text (pos 3) online 0 [] refl at_first
