-- ===== src/Devices/Display.antt =====
-- main/led_matrix/led_device.c: PRINT_TEXT of LEDHandleCommand, LEDMatrixTask and the tasks that
-- PRINT_TEXT creates, which share the line to the display, as interleaved steps on `task_sem`.
use gateway_esp.Prelude.{
  ℕ, ◌+◌, ◌-◌, ◌≡◌, Bool, true, false, List, [], ◌∷◌, Option, none, some, ltb, ℤ, if◌then◌else◌,
}
use gateway_esp.Devices.Json.{Cjson}
use gateway_esp.Devices.Relay.{DeviceStatus, online}
use gateway_esp.Devices.Led.{led_request, led_told, led_cb_task}

-- Where `LEDHandleCommand` is: not with a text, or with one before it takes the semaphore, before it
-- writes it, before it creates a task for the answer, and before it gives the semaphore.
pub data HandlerPlace : Type 0 where
  no_text creating giving : HandlerPlace
  taking writing : List ℕ → HandlerPlace

-- Where `LEDMatrixTask` is: before it takes the semaphore, before it writes its request, before it reads
-- the answer, and before it gives the semaphore.
pub data TaskPlace : Type 0 where
  resting requesting awaiting releasing : TaskPlace

-- What is written to the display, and what is read.
pub data LineEvent : Type 0 where
  request text : List ℕ → LineEvent
  status_read text_read : ℤ → List ℕ → LineEvent

-- `readers` counts the tasks of `LEDMatrixCbTask` that have not read; `line` has the last event first.
pub record Display : Type 0 where
  pub task_sem : Bool
  pub status : DeviceStatus
  pub readers : ℕ
  pub handler : HandlerPlace
  pub task : TaskPlace
  pub line : List LineEvent

-- After `initLEDDevice`.
abbrev pub first_display : Display
first_display = record {
  task_sem = true;
  status = online;
  readers = 0;
  handler = no_text;
  task = resting;
  line = [];
}

-- PRINT_TEXT. `created` tells whether `xTaskCreate` succeeds, which the code does not look at. `none` is a
-- wait.
abbrev pub text_from : HandlerPlace → Bool → Display → Option Display
text_from no_text created s = none
text_from (taking str) created s =
    if s.task_sem then some (record s { task_sem = false; handler = writing str }) else none
text_from (writing str) created s = some (record s { line = text str ∷ s.line; handler = creating })
text_from creating created s =
    some (record s { readers = s.readers + (if created then 1 else 0); handler = giving })
text_from giving created s = some (record s { task_sem = true; handler = no_text })

unfoldable pub text_step : Bool → Display → Option Display
text_step created s = text_from s.handler created s

module _ (j : Cjson) where
  -- A step of `LEDMatrixTask` with the answer that it reads; without memory for its request it does not
  -- go on.
  abbrev pub task_from : TaskPlace → Bool → Bool → ℤ → List ℕ → Display → Option Display
  task_from resting object made len str s =
      if s.task_sem then some (record s { task_sem = false; task = requesting }) else none
  task_from requesting object made len str s = elim (led_request j object made) [
    | none ↦ none
    | some r ↦ some (record s { line = request r ∷ s.line; task = awaiting })
  ]
  task_from awaiting object made len str s = some (record s {
    status = led_told j len str s.status;
    line = status_read len str ∷ s.line;
    task = releasing;
  })
  task_from releasing object made len str s = some (record s { task_sem = true; task = resting })

  unfoldable pub task_step : Bool → Bool → ℤ → List ℕ → Display → Option Display
  task_step object made len str s = task_from s.task object made len str s

  -- One of the tasks of `LEDMatrixCbTask`, which takes no semaphore.
  unfoldable pub reader_step : ℤ → List ℕ → Display → Option Display
  reader_step len str s =
      if ltb 0 s.readers
      then some (record s {
        readers = s.readers - 1;
        status = (led_cb_task j len str s.status).0;
        line = text_read len str ∷ s.line;
      })
      else none

  -- The states that the commands and the tasks lead to. The HTTP server runs one command at a time.
  pub data Displayed : Display → Type 0 where
    at_first : Displayed first_display
    text_came :
        (s : Display) (str : List ℕ)
        → s.handler ≡ no_text
        → Displayed s
        → Displayed (record s { handler = taking str })
    text_ran :
        (s t : Display) (created : Bool) → text_step created s ≡ some t → Displayed s → Displayed t
    task_ran :
        (s t : Display) (object made : Bool) (len : ℤ) (str : List ℕ)
        → task_step object made len str s ≡ some t
        → Displayed s
        → Displayed t
    reader_ran :
        (s t : Display) (len : ℤ) (str : List ℕ)
        → reader_step len str s ≡ some t
        → Displayed s
        → Displayed t

-- The exchange on the line, without the answers to texts: whether a request waits for its answer. `none`
-- tells that something came between a request and the read of its answer, or that an answer was read
-- without a request.
abbrev pub next_state : LineEvent → Option Bool → Option Bool
next_state (request r) (some false) = some true
next_state (text str) (some false) = some false
next_state (status_read len str) (some true) = some false
next_state (text_read len str) b = b
next_state _ _ = none

abbrev pub line_state : List LineEvent → Option Bool
line_state [] = some false
line_state (e ∷ l) = next_state e (line_state l)

abbrev pub awaits : TaskPlace → Bool
awaits awaiting = true
awaits _ = false
