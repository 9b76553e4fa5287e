-- ===== src/Foreign/Cjson.antt =====
-- cJSON: parsed items, and the queries that the program makes. An item that is not there is a null
-- pointer, for which each type test answers no.
use modbus_server.Prelude.{ℕ, ◌≡◌, Bool, true, false, List, Option, none, some}
use modbus_server.Prelude.Int.{ℤ}

pub record Cjson (Item Double : Type 0) : Type 0 where
  -- `cJSON_Parse`
  pub parse : List ℕ → Option Item
  -- `cJSON_GetObjectItem` and `cJSON_GetObjectItemCaseSensitive`
  pub object_item : Item → List ℕ → Option Item
  pub object_item_case_sensitive : Item → List ℕ → Option Item
  -- `cJSON_IsString` and the like, on an item that is there
  pub is_string : Item → Bool
  pub is_number : Item → Bool
  pub is_object : Item → Bool
  pub is_array : Item → Bool
  -- the fields of an item
  pub valuestring : Item → Option (List ℕ)
  pub valueint : Item → ℤ
  pub valuedouble : Item → Double
  pub child : Item → Option Item
  pub next : Item → Option Item
  -- the bit pattern of `(float)x`
  pub float_bits : Double → ℕ

-- cJSON gives a text to every item that is a string.
abbrev pub HasTexts : {Item Double : Type 0} → Cjson Item Double → Type 0
HasTexts {Item} c = (i : Item) → c.is_string i ≡ true → (t : List ℕ) × (c.valuestring i ≡ some t)

module _ {Item Double : Type 0} (c : Cjson Item Double) where
  -- A type test on a pointer that may be null.
  abbrev pub test : (Item → Bool) → Option Item → Bool
  test p none = false
  test p (some i) = p i
