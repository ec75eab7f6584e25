-- ===== src/Devices/Turns.antt =====
-- main/led_matrix/led_device.c: what `task_sem` keeps apart on the line to the display, and what it does
-- not.
use mathlib.Core.Option.{some-injective}
use gateway_esp.Prelude.{
  ℕ, ◌+◌, ◌-◌, ◌≡◌, ◌≢◌, ◌⊎◌, inl, inr, subst, refl, Bool, Bool-cases, true, false, List, [], ◌∷◌,
  Option, none, some, ltb, ℤ, if◌then◌else◌,
}
use gateway_esp.Devices.Json.{Cjson}
use gateway_esp.Devices.Relay.{DeviceStatus, online}
use gateway_esp.Devices.Led.{led_request, led_told, led_cb_task}
use gateway_esp.Devices.Display.{
  HandlerPlace, no_text, creating, giving, taking, writing, task_from, resting, requesting,
  awaiting, releasing, LineEvent, request, text, status_read, text_read, Display, text_step,
  task_step, reader_step, Displayed, at_first, text_came, text_ran, task_ran, reader_ran,
  line_state, awaits,
}

-- `LEDHandleCommand` without the semaphore.
abbrev outside : Option (List ℕ) → HandlerPlace
outside none = no_text
outside (some str) = taking str

-- Who has the semaphore.
data Turn : Display → Type 0 where
  free :
      (s : DeviceStatus) (n : ℕ) (l : List LineEvent) (o : Option (List ℕ))
      → line_state l ≡ some false
      → Turn (record {
        task_sem = true;
        status = s;
        readers = n;
        handler = outside o;
        task = resting;
        line = l;
      })
  writes :
      (s : DeviceStatus) (n : ℕ) (l : List LineEvent) (str : List ℕ)
      → line_state l ≡ some false
      → Turn (record {
        task_sem = false;
        status = s;
        readers = n;
        handler = writing str;
        task = resting;
        line = l;
      })
  creates :
      (s : DeviceStatus) (n : ℕ) (l : List LineEvent)
      → line_state l ≡ some false
      → Turn (record {
        task_sem = false;
        status = s;
        readers = n;
        handler = creating;
        task = resting;
        line = l;
      })
  gives :
      (s : DeviceStatus) (n : ℕ) (l : List LineEvent)
      → line_state l ≡ some false
      → Turn (record {
        task_sem = false;
        status = s;
        readers = n;
        handler = giving;
        task = resting;
        line = l;
      })
  requests :
      (s : DeviceStatus) (n : ℕ) (l : List LineEvent) (o : Option (List ℕ))
      → line_state l ≡ some false
      → Turn (record {
        task_sem = false;
        status = s;
        readers = n;
        handler = outside o;
        task = requesting;
        line = l;
      })
  reads :
      (s : DeviceStatus) (n : ℕ) (l : List LineEvent) (o : Option (List ℕ))
      → line_state l ≡ some true
      → Turn (record {
        task_sem = false;
        status = s;
        readers = n;
        handler = outside o;
        task = awaiting;
        line = l;
      })
  releases :
      (s : DeviceStatus) (n : ℕ) (l : List LineEvent) (o : Option (List ℕ))
      → line_state l ≡ some false
      → Turn (record {
        task_sem = false;
        status = s;
        readers = n;
        handler = outside o;
        task = releasing;
        line = l;
      })

came-Turn :
    (s : Display) (str : List ℕ)
    → s.handler ≡ no_text
    → Turn s
    → Turn (record s { handler = taking str })
came-Turn _ str e (free s n l o i) = free s n l (some str) i
came-Turn _ str e (writes s n l str' i) = absurd (cc)
came-Turn _ str e (creates s n l i) = absurd (cc)
came-Turn _ str e (gives s n l i) = absurd (cc)
came-Turn _ str e (requests s n l o i) = requests s n l (some str) i
came-Turn _ str e (reads s n l o i) = reads s n l (some str) i
came-Turn _ str e (releases s n l o i) = releases s n l (some str) i

text-Turn : (s t : Display) (created : Bool) → text_step created s ≡ some t → Turn s → Turn t
unfolding text_step
text-Turn _ t created e (free s n l none i) = absurd (cc)
text-Turn _ t created e (free s n l (some str) i) =
    subst Turn (some-injective _ t e) (writes s n l str i)
text-Turn _ t created e (writes s n l str i) =
    subst Turn (some-injective _ t e) (creates s n (text str ∷ l) (rw i refl))
text-Turn _ t created e (creates s n l i) =
    subst Turn (some-injective _ t e) (gives s (n + (if created then 1 else 0)) l i)
text-Turn _ t created e (gives s n l i) = subst Turn (some-injective _ t e) (free s n l none i)
text-Turn _ t created e (requests s n l none i) = absurd (cc)
text-Turn _ t created e (requests s n l (some str) i) = absurd (cc)
text-Turn _ t created e (reads s n l none i) = absurd (cc)
text-Turn _ t created e (reads s n l (some str) i) = absurd (cc)
text-Turn _ t created e (releases s n l none i) = absurd (cc)
text-Turn _ t created e (releases s n l (some str) i) = absurd (cc)

read-Turn :
    (s : Display) (status' : DeviceStatus) (n' : ℕ) (len : ℤ) (str : List ℕ)
    → Turn s
    → Turn (record s { readers = n'; status = status'; line = text_read len str ∷ s.line })
read-Turn _ status' n' len str (free s n l o i) = free status' n' (text_read len str ∷ l) o i
read-Turn _ status' n' len str (writes s n l str' i) =
    writes status' n' (text_read len str ∷ l) str' i
read-Turn _ status' n' len str (creates s n l i) = creates status' n' (text_read len str ∷ l) i
read-Turn _ status' n' len str (gives s n l i) = gives status' n' (text_read len str ∷ l) i
read-Turn _ status' n' len str (requests s n l o i) =
    requests status' n' (text_read len str ∷ l) o i
read-Turn _ status' n' len str (reads s n l o i) = reads status' n' (text_read len str ∷ l) o i
read-Turn _ status' n' len str (releases s n l o i) =
    releases status' n' (text_read len str ∷ l) o i

module _ (j : Cjson) where
  asked-Turn :
      (s : DeviceStatus) (n : ℕ) (l : List LineEvent) (o : Option (List ℕ))
      (answer : Option (List ℕ)) (t : Display)
      → line_state l ≡ some false
      → elim answer [
        | none ↦ none
        | some r ↦ some (record {
          task_sem = false;
          status = s;
          readers = n;
          handler = outside o;
          task = awaiting;
          line = request r ∷ l;
        })
      ]
        ≡ some t
      → Turn t
  asked-Turn s n l o none t i e = absurd (cc)
  asked-Turn s n l o (some r) t i e =
      subst Turn (some-injective _ t e) (reads s n (request r ∷ l) o (rw i refl))

  task-Turn :
      (s t : Display) (object made : Bool) (len : ℤ) (str : List ℕ)
      → task_step j object made len str s ≡ some t
      → Turn s
      → Turn t
  unfolding task_step
  task-Turn _ t object made len str e (free s n l o i) =
      subst Turn (some-injective _ t e) (requests s n l o i)
  task-Turn _ t object made len str e (writes s n l str' i) = absurd (cc)
  task-Turn _ t object made len str e (creates s n l i) = absurd (cc)
  task-Turn _ t object made len str e (gives s n l i) = absurd (cc)
  task-Turn _ t object made len str e (requests s n l o i) =
      asked-Turn s n l o (led_request j object made) t i e
  task-Turn _ t object made len str e (reads s n l o i) =
      subst Turn (some-injective _ t e)
        (releases (led_told j len str s) n (status_read len str ∷ l) o (rw i refl))
  task-Turn _ t object made len str e (releases s n l o i) =
      subst Turn (some-injective _ t e) (free s n l o i)

  reader-Turn :
      (s t : Display) (len : ℤ) (str : List ℕ) → reader_step j len str s ≡ some t → Turn s → Turn t
  unfolding reader_step
  reader-Turn s t len str e i = elim (Bool-cases (ltb 0 s.readers)) [
    | inl y ↦
        subst Turn (some-injective _ t (rw (y) at e))
          (read-Turn s (led_cb_task j len str s.status).0 (s.readers - 1) len str i)
    | inr n ↦ absurd (cc (e, n))
  ]

  Displayed-Turn : (s : Display) → Displayed j s → Turn s
  Displayed-Turn _ at_first = free online 0 [] none refl
  Displayed-Turn _ (text_came s str e r) = came-Turn s str e (Displayed-Turn s r)
  Displayed-Turn _ (text_ran s t created e r) = text-Turn s t created e (Displayed-Turn s r)
  Displayed-Turn _ (task_ran s t object made len str e r) =
      task-Turn s t object made len str e (Displayed-Turn s r)
  Displayed-Turn _ (reader_ran s t len str e r) = reader-Turn s t len str e (Displayed-Turn s r)

  asked-goes :
      (s : DeviceStatus) (n : ℕ) (l : List LineEvent) (o : Option (List ℕ)) (object made : Bool)
      (len : ℤ) (str r : List ℕ)
      → led_request j object made ≡ some r
      → task_step j object made len str (record {
        task_sem = false;
        status = s;
        readers = n;
        handler = outside o;
        task = requesting;
        line = l;
      })
        ≢ none
  unfolding task_step
  asked-goes s n l o object made len str r printed = rw (printed, task_step, task_from) (λ e. cc)

  Turn-goes :
      (s : Display) (object made created : Bool) (len : ℤ) (str r : List ℕ)
      → led_request j object made ≡ some r
      → Turn s
      → (line_state s.line ≡ some (awaits s.task))
        × ((text_step created s ≢ none) ⊎ (task_step j object made len str s ≢ none))
  unfolding text_step task_step
  Turn-goes _ object made created len str r printed (free s n l o i) = (i, inr (λ e. cc))
  Turn-goes _ object made created len str r printed (writes s n l str' i) = (i, inl (λ e. cc))
  Turn-goes _ object made created len str r printed (creates s n l i) = (i, inl (λ e. cc))
  Turn-goes _ object made created len str r printed (gives s n l i) = (i, inl (λ e. cc))
  Turn-goes _ object made created len str r printed (requests s n l o i) =
      (i, inr (asked-goes s n l o object made len str r printed))
  Turn-goes _ object made created len str r printed (reads s n l o i) = (i, inr (λ e. cc))
  Turn-goes _ object made created len str r printed (releases s n l o i) = (i, inr (λ e. cc))

  -- In every order of the texts, the status task and the tasks that read the answers to texts: on the
  -- line no text and no second request comes between a request and the read of LEDMatrixTask that
  -- follows it, which waits exactly while that task is before its read. While the request can be
  -- printed, PRINT_TEXT or LEDMatrixTask can always go on, so that the semaphore is not lost.
  pub Displayed-in_turn :
      (s : Display) (object made created : Bool) (len : ℤ) (str r : List ℕ)
      → led_request j object made ≡ some r
      → Displayed j s
      → (line_state s.line ≡ some (awaits s.task))
        × ((text_step created s ≢ none) ⊎ (task_step j object made len str s ≢ none))
  Displayed-in_turn s object made created len str r printed d =
      Turn-goes s object made created len str r printed (Displayed-Turn s d)
