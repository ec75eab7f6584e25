-- ===== src/Devices/Json.antt =====
-- What the devices take from cJSON, as a parameter, and the answer to a status request, which their
-- command handlers share.
use gateway_esp.Prelude.{
  ℕ, Bool, true, false, List, [], ◌∷◌, ◌++◌, Option, none, some, ℤ, if◌then◌else◌,
}

-- A value that a device puts into an object.
pub data Value : Type 0 where
  number : ℕ → Value
  bool : Bool → Value
  string_value : List ℕ → Value

-- The keys that the devices use.
pub data Key : Type 0 where
  command status state status_text data_key : Key
  text_key alignment_key size_key bold_key underline_key line_spacing_key feed_key : Key
  image_key width_key height_key barcode_key type_key : Key

-- The library. `parse` is `cJSON_Parse`, and `none` its NULL; `get` is
-- `cJSON_GetObjectItemCaseSensitive` of an object; `valueint` is the number of an item for which
-- `cJSON_IsNumber` holds, and `is_true` the value of one for which `cJSON_IsBool` does; `string` is
-- `valuestring`, which is NULL unless `cJSON_IsString` holds; `has` is `cJSON_HasObjectItem`, which
-- does not look at the case of letters; `items` are the items of an array; `print` is `cJSON_Print`
-- of the object with the given members.
pub record Cjson : Type 1 where
  pub Item : Type 0
  pub parse : List ℕ → Option Item
  pub get : Item → Key → Option Item
  pub valueint : Item → Option ℤ
  pub is_true : Item → Option Bool
  pub string : Item → Option (List ℕ)
  pub has : Item → Key → Bool
  pub items : Item → List Item
  pub print : List (Key × Value) → Option (List ℕ)

-- The calls that a device makes, in order: of cJSON, of its callback, and of the drivers.
pub data Call : Type 0 where
  create_object delete_response parsed delete_data : Call
  callback : Option (List ℕ) → Option ℕ → ℤ → Call
  set_level : ℕ → ℕ → Call
  uart_write : List ℕ → Call
  uart_flush create_task take_task_sem give_task_sem : Call

-- A member to be added, and whether `cJSON_Create…` makes its value.
pub record Member : Type 0 where
  pub made : Bool
  pub key : Key
  pub value : Value

-- The members that are added one by one; `none` is the `return` on a value that is not made.
abbrev pub members : List Member → Option (List (Key × Value))
members [] = some []
members (m ∷ ms) =
    if m.made
    then elim (members ms) [ none ↦ none | some l ↦ some ((m.key, m.value) ∷ l) ]
    else none

abbrev pub status_code : ℕ
status_code = 100

module _ (j : Cjson) where
  -- The code of `cJSON_CreateObject` to `cJSON_Delete(response)`. The Boolean tells whether the
  -- function goes on; otherwise it has returned, with what it made not released.
  unfoldable pub respond : Bool → List Member → Option ℕ → ℤ → List Call × Bool
  respond false ms handle fd = ([], false)
  respond true ms handle fd = elim (members ms) [
    | none ↦ (create_object ∷ [], false)
    | some l ↦ (create_object ∷ callback (j.print l) handle fd ∷ delete_response ∷ [], true)
  ]

  abbrev pub get? : Option j.Item → Key → Option j.Item
  get? none k = none
  get? (some i) k = j.get i k

  abbrev valueint? : Option j.Item → Option ℤ
  valueint? none = none
  valueint? (some i) = j.valueint i

  abbrev is_true? : Option j.Item → Option Bool
  is_true? none = none
  is_true? (some i) = j.is_true i

  -- `cJSON_IsNumber(member)` and its `valueint`.
  abbrev pub number_of : Option j.Item → Key → Option ℤ
  number_of item k = valueint? (get? item k)

  -- `cJSON_IsBool(member)` and its `valueint`.
  abbrev pub bool_of : Option j.Item → Key → Option Bool
  bool_of item k = is_true? (get? item k)

  abbrev string? : Option j.Item → Option (List ℕ)
  string? none = none
  string? (some i) = j.string i

  abbrev pub string_of : Option j.Item → Key → Option (List ℕ)
  string_of item k = string? (get? item k)

  -- `cJSON_Parse` made an object, or NULL.
  abbrev pub parsed_if : Option j.Item → List Call
  parsed_if none = []
  parsed_if (some i) = parsed ∷ []

  -- `cJSON_Delete(data_json)` at the end of a handler, which does nothing with NULL.
  abbrev pub delete_if : Option j.Item → List Call
  delete_if none = []
  delete_if (some i) = delete_data ∷ []

  -- What a handler does around its `switch`, whose calls and way out are given.
  abbrev pub around : Option j.Item → List Call × Bool → List Call
  around item (calls, on) = parsed_if item ++ (calls ++ (if on then delete_if item else []))
