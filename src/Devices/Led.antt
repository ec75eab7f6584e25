-- ===== src/Devices/Led.antt =====
-- main/led_matrix/led_device.c.
use gateway_esp.Prelude.{
  ℕ, zero, suc, ◌≡◌, refl, ◌↔◌, ◌⊎◌, inl, inr, Bool-cases, Bool, true, false, ◌||◌, List, [], ◌∷◌,
  ◌++◌, Option, none, some, ltb, ℤ, pos, negsuc, ◌==ℤ◌, ==ℤ_iff, if◌then◌else◌, arith,
}
use gateway_esp.Devices.Json.{
  Cjson, number, command, status, status_text, Call, create_object, callback, uart_write,
  create_task, take_task_sem, give_task_sem, members, status_code, number_of, parsed_if, get?,
}
use gateway_esp.Devices.Relay.{DeviceStatus, online, offline, status_number}

-- Whether a length is more than the `n` bytes of a buffer; -1 writes nothing.
abbrev pub overruns : ℤ → ℕ → Bool
overruns (pos len) n = ltb n len
overruns (negsuc k) n = false

abbrev pub is_none {ℓ} : {A : Type ℓ} → Option A → Bool
is_none none = true
is_none (some a) = false

-- `initLEDDevice`. `installed` tells whether the calls that set up the UART driver succeed; if not,
-- ESP_ERROR_CHECK aborts.
unfoldable pub init_led_device : Bool → Option (DeviceStatus × List Call)
init_led_device installed =
    if installed then some (online, give_task_sem ∷ create_task ∷ []) else none

module _ (j : Cjson) where
  -- The answer to GET_STATUS, in which nothing is released.
  abbrev pub led_status_answer : Bool → Bool → Bool → ℕ → ℤ → DeviceStatus → List Call
  led_status_answer false first second handle fd s = []
  led_status_answer true first second handle fd s =
      create_object
      ∷ elim (members (
          record { made = first; key = command; value = number status_code }
          ∷ record { made = second; key = status; value = number (status_number s) }
          ∷ [])) [ none ↦ [] | some l ↦ callback (j.print l) (some handle) fd ∷ [] ]

  -- The `switch`. PRINT_TEXT passes the whole message on to the display.
  abbrev pub led_command : Option ℤ → List ℕ → Bool → Bool → Bool → ℕ → ℤ → DeviceStatus → List Call
  led_command (some (pos zero)) str object first second handle fd s =
      led_status_answer object first second handle fd s
  led_command (some (pos (suc zero))) str object first second handle fd s =
      take_task_sem ∷ uart_write str ∷ create_task ∷ give_task_sem ∷ []
  led_command _ str object first second handle fd s = []

  unfoldable pub led_handle_command : List ℕ → Bool → Bool → Bool → ℕ → ℤ → DeviceStatus → List Call
  led_handle_command str object first second handle fd s =
      let item = j.parse str in
      parsed_if j item ++ led_command (number_of j item command) str object first second handle fd s

  -- The `switch (status->valueint)` of `LEDMatrixCbTask`; `text` is the member `status_text`, which is
  -- read through without a look at NULL (the Boolean).
  abbrev cb_status : Option ℤ → Option j.Item → DeviceStatus → DeviceStatus × Bool
  cb_status (some (pos zero)) text s = (online, false)
  cb_status (some (pos (suc zero))) text s = (online, is_none text)
  cb_status _ text s = (s, false)

  abbrev cb_command : Option ℤ → Option j.Item → DeviceStatus → DeviceStatus × Bool
  cb_command none item s = (s, false)
  cb_command (some n) item s =
      if n ==ℤ pos status_code
      then cb_status (number_of j item status) (get? j item status_text) s
      else (s, false)

  -- `LEDMatrixCbTask`: `len` is what `uart_read_bytes` returns, which may be up to 511 for a buffer of
  -- 128 bytes, and `str` the C string that it read. The Boolean tells of an access outside an object.
  unfoldable pub led_cb_task : ℤ → List ℕ → DeviceStatus → DeviceStatus × Bool
  led_cb_task len str s =
      if len ==ℤ pos 0
      then (s, false)
      else (let (s', bad) = cb_command (number_of j (j.parse str) command) (j.parse str) s in
          (s', overruns len 128 || bad))

  -- The `switch`es of `LEDMatrixTask`.
  abbrev led_status : Option ℤ → DeviceStatus → DeviceStatus
  led_status (some (pos zero)) s = online
  led_status _ s = s

  abbrev led_answer : Option ℤ → Option ℤ → DeviceStatus → DeviceStatus
  led_answer none st s = s
  led_answer (some n) st s = if n ==ℤ pos status_code then led_status st s else offline

  -- What a read of `LEDMatrixTask` makes of the status.
  abbrev pub led_told : ℤ → List ℕ → DeviceStatus → DeviceStatus
  led_told len str s =
      if len ==ℤ pos 0
      then offline
      else led_answer (number_of j (j.parse str) command) (number_of j (j.parse str) status) s

  -- The text of the request; without memory for the object there is none.
  abbrev pub led_request : Bool → Bool → Option (List ℕ)
  led_request object made =
      if object then j.print (if made then (command, number 0) ∷ [] else []) else none

  -- One round of `LEDMatrixTask`. A request that has no text is an access through NULL.
  unfoldable pub led_round :
      Bool → Bool → ℤ → List ℕ → DeviceStatus → DeviceStatus × Bool × List Call
  led_round object made len str s = elim (led_request object made) [
    | none ↦ (s, true, take_task_sem ∷ [])
    | some request ↦ (
      led_told len str s,
      false,
      take_task_sem ∷ create_object ∷ uart_write request ∷ give_task_sem ∷ [],
    )
  ]

  -- When an answer leaves the display online.
  abbrev pub KeepsOnline : Option ℤ → Option ℤ → DeviceStatus → Type 0
  KeepsOnline asked told s =
      ((asked ≡ some (pos 100)) × (told ≡ some (pos 0)))
      ⊎ ((s ≡ online) × ((asked ≡ none) ⊎ (asked ≡ some (pos 100))))

  led_status_iff :
      (told : Option ℤ) (s : DeviceStatus)
      → (led_status told s ≡ online) ↔ ((told ≡ some (pos 0)) ⊎ (s ≡ online))
  led_status_iff none s = ((λ h. inr h), (λ h. elim h [ inl e ↦ cc | inr e ↦ e ]))
  led_status_iff (some (pos zero)) s = ((λ h. inl refl), (λ h. refl))
  led_status_iff (some (pos (suc n))) s = ((λ h. inr h), (λ h. elim h [ inl e ↦ cc | inr e ↦ e ]))
  led_status_iff (some (negsuc n)) s = ((λ h. inr h), (λ h. elim h [ inl e ↦ cc | inr e ↦ e ]))

  led_answer_iff :
      (asked told : Option ℤ) (s : DeviceStatus)
      → (led_answer asked told s ≡ online) ↔ KeepsOnline asked told s
  led_answer_iff none told s = ground arith
  led_answer_iff (some n) told s = elim (Bool-cases (n ==ℤ pos 100)) [
    | inl y ↦
        let e : n ≡ pos 100 = (==ℤ_iff n (pos 100)).0 y in
        rw (y, e) (ground (arith, led_status_iff told s))
    | inr d ↦ rw d (ground (arith, ==ℤ_iff n (pos 100)))
  ]

  -- After a round whose request could be printed, the display counts as online exactly if it answered
  -- and either answered STATUS with 0, or was online before and its answer has no number as command or
  -- is STATUS; the round accesses nothing outside an object.
  pub led_round-online :
      (object made : Bool) (len : ℤ) (str request : List ℕ) (s : DeviceStatus)
      → led_request object made ≡ some request
      → let (s', fault, out) = led_round object made len str s in
        let item = j.parse str in
        (fault ≡ false)
        × ((s' ≡ online) ↔ (
            (len ≡ pos 0 → ⊥) × KeepsOnline (number_of j item command) (number_of j item status) s))
  unfolding led_round
  led_round-online object made len str request s r =
      rw (r, led_round)
        (
          refl,
          elim (Bool-cases (len ==ℤ pos 0)) [
            | inl z ↦ rw z ((λ h. cc), (λ h. absurd (h.0 ((==ℤ_iff len (pos 0)).0 z))))
            | inr n ↦
                let answered : len ≡ pos 0 → ⊥ = λ e. ground (arith, ==ℤ_iff len (pos 0)) in
                let item = j.parse str in
                let (to, from) =
                  led_answer_iff (number_of j item command) (number_of j item status) s in
                rw n ((λ h. (answered, to h)), (λ h. from h.1))
          ],
        )
