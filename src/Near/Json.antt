-- ===== src/Near/Json.antt =====
-- `serde_json`, a parameter: the values that the contracts build, and the printing and parsing of
-- them. A number is a `u64`; `u64_text` and `u128_text` are the SDK's `U64` and `U128`, which stand
-- for their decimal text, and a `NearToken` is the text of its yoctoNEAR.
use hos_treasury.Common.{ℕ, String, Option, none, some, List, ◌≡◌}

pub record SerdeJson : Type 1 where
  pub Value : Type 0
  pub null : Value
  pub number : ℕ → Value
  pub string : String → Value
  pub u64_text : ℕ → Value
  pub u128_text : ℕ → Value
  pub near_token : ℕ → Value
  pub array : List Value → Value
  -- an object with its fields in order
  pub object : List (String × Value) → Value
  pub to_string : Value → String
  pub from_str : String → Option Value
  -- the bytes of a text, `String::into_bytes`
  pub into_bytes : String → List ℕ
  -- `serde_json::to_vec`: the bytes, or an error
  pub to_vec : Value → Option (List ℕ)
  -- a JSON value can always be written: its keys are texts
  pub to_vec-into_bytes : (v : Value) → to_vec v ≡ some (into_bytes (to_string v))

-- `json!` of an `Option<u64>`
unfoldable pub optional_number_of : (json : SerdeJson) → Option ℕ → SerdeJson.Value json
optional_number_of json none = json.null
optional_number_of json (some n) = json.number n
