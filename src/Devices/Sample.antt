-- ===== src/Devices/Sample.antt =====
-- A concrete cJSON: the values of a few messages, by name.
use gateway_esp.Prelude.{ℕ, Bool, true, false, List, [], ◌∷◌, Option, none, some, ℤ, pos}
use gateway_esp.Devices.Json.{Cjson, Key, command, status, state, data_key, text_key}

-- `{"command": 0}`, `{"command": 1, "state": true, "data": [{"text": "Hi"}]}`,
-- `{"command": 100, "status": 0}`, and their parts.
pub data SampleItem : Type 0 where
  ask order answer zero_item one_item hundred_item true_item array_item text_item hi_item :
      SampleItem

abbrev pub sample_parse : List ℕ → Option SampleItem
sample_parse [] = none
sample_parse (a ∷ []) = some ask
sample_parse (a ∷ b ∷ []) = some order
sample_parse (a ∷ b ∷ c ∷ l) = some answer

abbrev pub sample_get : SampleItem → Key → Option SampleItem
sample_get ask command = some zero_item
sample_get order command = some one_item
sample_get order state = some true_item
sample_get order data_key = some array_item
sample_get answer command = some hundred_item
sample_get answer status = some zero_item
sample_get text_item text_key = some hi_item
sample_get _ _ = none

abbrev pub sample_valueint : SampleItem → Option ℤ
sample_valueint zero_item = some (pos 0)
sample_valueint one_item = some (pos 1)
sample_valueint hundred_item = some (pos 100)
sample_valueint _ = none

abbrev pub sample_is_true : SampleItem → Option Bool
sample_is_true true_item = some true
sample_is_true _ = none

abbrev pub sample_string : SampleItem → Option (List ℕ)
sample_string hi_item = some (72 ∷ 105 ∷ [])
sample_string _ = none

abbrev pub sample_has : SampleItem → Key → Bool
sample_has text_item text_key = true
sample_has _ _ = false

abbrev pub sample_items : SampleItem → List SampleItem
sample_items array_item = text_item ∷ []
sample_items _ = []

abbrev pub sample : Cjson
sample = record {
  Item = SampleItem;
  parse = sample_parse;
  get = sample_get;
  valueint = sample_valueint;
  is_true = sample_is_true;
  string = sample_string;
  has = sample_has;
  items = sample_items;
  print = λ members. some (b'{' ∷ b'}' ∷ []);
}

-- The three messages.
abbrev pub ask_text : List ℕ
ask_text = b'a' ∷ []

abbrev pub order_text : List ℕ
order_text = b'o' ∷ b'o' ∷ []

abbrev pub answer_text : List ℕ
answer_text = b'x' ∷ b'x' ∷ b'x' ∷ []
