-- ===== src/Near/Sample.antt =====
-- Values of the interfaces, which show that their laws can be met, for tests and witnesses: JSON
-- values that are their own text, and the saturating units.
use Prim.Native.Char.{code}
use hos_treasury.Common.{
  ℕ, ◌*◌, ◌^◌, refl, String, List, [], ◌∷◌, some, min, u64_max, u128_max, saturating_add,
  str_append,
}
use hos_treasury.Near.Json.{SerdeJson}
use hos_treasury.Near.Amounts.{Units}

abbrev codes : String → List ℕ
codes String.[] = []
codes (String.◌∷◌ c s) = code c ∷ codes s

abbrev pub joined : List String → String
joined [] = ""
joined (s ∷ l) = str_append s (str_append ";" (joined l))

abbrev pub fields : List (String × String) → String
fields [] = ""
fields ((k, v) ∷ l) = str_append k (str_append "=" (str_append v (str_append ";" (fields l))))

abbrev pub sample_json : SerdeJson
sample_json = record {
  Value = String;
  null = "null";
  number = λ n. "number";
  string = λ s. s;
  u64_text = λ n. "u64";
  u128_text = λ n. "u128";
  near_token = λ n. "near";
  array = joined;
  object = fields;
  to_string = λ v. v;
  from_str = λ s. some s;
  into_bytes = codes;
  to_vec = λ v. some (codes v);
  to_vec-into_bytes = λ v. refl;
}

abbrev pub sample_units : Units
sample_units = record {
  token_saturating_add = saturating_add u128_max;
  gas_saturating_add = saturating_add u64_max;
  gas_saturating_mul = λ a b. min (a * b) u64_max;
  from_tgas = λ n. n * 10 ^ 12;
  from_ggas = λ n. n * 10 ^ 9;
  token_saturating_add_lem = λ a b. refl;
  gas_saturating_add_lem = λ a b. refl;
  gas_saturating_mul_lem = λ a b. refl;
  from_tgas_lem = λ n h. refl;
  from_ggas_lem = λ n h. refl;
}
