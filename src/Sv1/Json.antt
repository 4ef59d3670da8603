-- ===== src/Sv1/Json.antt =====
-- The interface of `serde_json` that the messages use.
use Prim.Native.Char.{code}
use Prim.Native.String.{String}
use solo_pool_rs.Prelude.{ℕ, ◌≡◌, ◌^◌, ◌<◌, Bool, Option, some, List, [], ◌∷◌}
use solo_pool_rs.Prelude.Bytes.{Bytes}
use solo_pool_rs.Vardiff.{F64}

-- The bytes of an ASCII text.
abbrev pub text : String → Bytes
text String.[] = []
text (String.◌∷◌ c s) = code c ∷ text s

-- `Value`, its constructors as `json!` applies them, its accessors, `Map::get`, and
-- `from_str::<StratumRequest>`: the id, the method and the parameters, `null` where they are left
-- out.
pub record Json (f : F64) : Type 1 where
  pub Value : Type 0
  pub null : Value
  pub bool : Bool → Value
  pub number : ℕ → Value
  pub string : Bytes → Value
  pub array : List Value → Value
  pub object : List (Bytes × Value) → Value
  pub as_array : Value → Option (List Value)
  pub as_str : Value → Option Bytes
  pub as_u64 : Value → Option ℕ
  pub as_f64 : Value → Option f.Carrier
  pub as_object : Value → Option (Bytes → Option Value)
  pub parse_request : Bytes → Option (Value × Bytes × Value)

-- Accessors give back what the constructors were given.
pub record JsonLaws (f : F64) (json : Json f) : Type 0 where
  pub as_array-array : (vs : List json.Value) → json.as_array (json.array vs) ≡ some vs
  pub as_str-string : (s : Bytes) → json.as_str (json.string s) ≡ some s
  pub as_u64-number : (n : ℕ) → n < 2 ^ 64 → json.as_u64 (json.number n) ≡ some n
