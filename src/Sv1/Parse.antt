-- ===== src/Sv1/Parse.antt =====
-- `StratumRequest`, `ClientMessage` and the parameters of each request.
pub mod RoundTrip
pub mod Total
use solo_pool_rs.Prelude.{
  ℕ, ◌%◌, ◌^◌, Bool, true, false, ◌||◌, not, Option, none, some, List, [], ◌∷◌, get_elem?,
  if◌then◌else◌,
}
use Prim.Native.String.{String}
use solo_pool_rs.Prelude.Bytes.{Bytes, bytes_eq}
use solo_pool_rs.Prelude.Words.{u32_from_hex}
use solo_pool_rs.Error.{Result, ok, err, parse, invalid_params, ◌>>=◌}
use solo_pool_rs.Template.PrevHash.{Hex}
use solo_pool_rs.Vardiff.{F64}
use solo_pool_rs.Sv1.Json.{Json, text}

pub record SubscribeParams : Type 0 where
  pub user_agent : Option Bytes
  pub session_id : Option Bytes

pub record AuthorizeParams : Type 0 where
  pub worker : Bytes
  pub password : Option Bytes

pub record SubmitParams : Type 0 where
  pub worker : Bytes
  pub job_id : Bytes
  pub extranonce2 : Bytes
  pub ntime : ℕ
  pub nonce : ℕ
  pub version_bits : Option ℕ

pub record ConfigureParams : Type 0 where
  pub version_rolling : Bool
  pub version_rolling_mask : Option ℕ
  pub version_rolling_min_bit_count : Option ℕ
  pub minimum_difficulty : Option ℕ
  pub subscribe_extranonce : Bool

pub record SuggestDifficultyParams : Type 0 where
  pub difficulty : ℕ

pub data ClientMessage : Type 0 where
  subscribe : SubscribeParams → ClientMessage
  authorize : AuthorizeParams → ClientMessage
  submit : SubmitParams → ClientMessage
  configure : ConfigureParams → ClientMessage
  suggest_difficulty : SuggestDifficultyParams → ClientMessage
  unknown : Bytes → ClientMessage

infixl 5 ◌and_then◌
abbrev pub ◌and_then◌ {ℓ κ} : {A : Type ℓ} {B : Type κ} → Option A → (A → Option B) → Option B
none and_then g = none
some a and_then g = g a

-- `.ok_or_else(..)` with the parameters' error.
abbrev pub or_invalid {ℓ} : {A : Type ℓ} → Option A → String → Result A
or_invalid none method = err (invalid_params method)
or_invalid (some a) method = ok a

abbrev unwrap_or {ℓ} : {A : Type ℓ} → Option A → A → A
unwrap_or none d = d
unwrap_or (some a) d = a

module _ (f : F64) (json : Json f) where
  open json use {Value, as_array, as_str, as_u64, as_f64, as_object}

  pub record StratumRequest : Type 0 where
    pub id : Value
    pub method : Bytes
    pub params : Value

  unfoldable pub parse_line : Bytes → Result StratumRequest
  parse_line line = elim (json.parse_request line) [
    | none ↦ err parse
    | some r ↦ ok (record { id = r.0; method = r.1; params = r.2 })
  ]

  -- `arr.get(i).and_then(|v| v.as_str())`.
  abbrev pub str_of : List Value → ℕ → Option Bytes
  str_of arr i = get_elem? arr i and_then as_str

  unfoldable pub parse_subscribe : Value → SubscribeParams
  parse_subscribe params = record {
    user_agent = as_array params and_then λ arr. str_of arr 0;
    session_id = as_array params and_then λ arr. str_of arr 1;
  }

  unfoldable pub parse_authorize : Value → Result AuthorizeParams
  parse_authorize params = do
    arr ← or_invalid (as_array params) "mining.authorize"
    worker ← or_invalid (str_of arr 0) "mining.authorize"
    ok (record { worker = worker; password = str_of arr 1 })

  abbrev pub str_at : List Value → ℕ → Result Bytes
  str_at arr i = or_invalid (str_of arr i) "mining.submit"

  unfoldable pub parse_submit : Hex → Value → Result SubmitParams
  parse_submit hex params = do
    arr ← or_invalid (as_array params) "mining.submit"
    worker ← str_at arr 0
    job_id ← str_at arr 1
    en2_hex ← str_at arr 2
    ntime_hex ← str_at arr 3
    nonce_hex ← str_at arr 4
    extranonce2 ← or_invalid (hex.decode en2_hex) "mining.submit"
    ntime ← or_invalid (u32_from_hex ntime_hex) "mining.submit"
    nonce ← or_invalid (u32_from_hex nonce_hex) "mining.submit"
    ok (record {
      worker = worker;
      job_id = job_id;
      extranonce2 = extranonce2;
      ntime = ntime;
      nonce = nonce;
      version_bits = str_of arr 5 and_then u32_from_hex;
    })

  -- The match on one extension's name.
  unfoldable pub apply_extension :
      (Bytes → Option Value) → Value → ConfigureParams → ConfigureParams
  apply_extension ext_params ext result = elim (as_str ext) [
    | none ↦ result
    | some name ↦
        if bytes_eq name (text "version-rolling")
        then record result {
          version_rolling = true;
          version_rolling_mask = elim (ext_params (text "version-rolling.mask") and_then as_str) [
            | none ↦ result.version_rolling_mask
            | some mask_str ↦ u32_from_hex mask_str
          ];
          version_rolling_min_bit_count =
              elim (ext_params (text "version-rolling.min-bit-count") and_then as_u64) [
                | none ↦ result.version_rolling_min_bit_count
                | some min_bits ↦ some (min_bits % 2 ^ 32)
              ];
        }
        else if bytes_eq name (text "minimum-difficulty")
        then record result {
          minimum_difficulty = ext_params (text "minimum-difficulty.value") and_then as_u64;
        }
        else if bytes_eq name (text "subscribe-extranonce")
        then record result { subscribe_extranonce = true }
        else result
  ]

  unfoldable pub apply_extensions :
      (Bytes → Option Value) → List Value → ConfigureParams → ConfigureParams
  unfolding apply_extension
  apply_extensions ext_params [] result = result
  apply_extensions ext_params (ext ∷ exts) result =
      apply_extensions ext_params exts (apply_extension ext_params ext result)

  abbrev pub default_configure : ConfigureParams
  default_configure = record {
    version_rolling = false;
    version_rolling_mask = none;
    version_rolling_min_bit_count = none;
    minimum_difficulty = none;
    subscribe_extranonce = false;
  }

  unfoldable pub parse_configure : Value → ConfigureParams
  unfolding apply_extensions
  parse_configure params =
      let arr = as_array params in
      let extensions : List Value =
        unwrap_or (arr and_then λ a. get_elem? a 0 and_then as_array) [] in
      let ext_params : Bytes → Option Value =
        unwrap_or (arr and_then λ a. get_elem? a 1 and_then as_object) (λ _. none) in
      apply_extensions ext_params extensions default_configure

  -- `.and_then(|a| a.first()).or(Some(params))`.
  unfoldable pub parse_suggest_difficulty : Value → Result SuggestDifficultyParams
  parse_suggest_difficulty params = do
    d ←
        or_invalid (as_f64 (unwrap_or (as_array params and_then λ a. get_elem? a 0) params))
          "mining.suggest_difficulty"
    if not (f.is_finite d) || f.lt d (f.of_u64 1)
        then err (invalid_params "mining.suggest_difficulty")
        else ok (record { difficulty = f.trunc_u64 d })

  unfoldable pub from_request : Hex → StratumRequest → Result ClientMessage
  unfolding parse_subscribe parse_authorize parse_submit parse_configure parse_suggest_difficulty
  from_request hex req =
      if bytes_eq req.method (text "mining.subscribe")
      then ok (subscribe (parse_subscribe req.params))
      else if bytes_eq req.method (text "mining.authorize")
      then (parse_authorize req.params >>= λ p. ok (authorize p))
      else if bytes_eq req.method (text "mining.submit")
      then (parse_submit hex req.params >>= λ p. ok (submit p))
      else if bytes_eq req.method (text "mining.configure")
      then ok (configure (parse_configure req.params))
      else if bytes_eq req.method (text "mining.suggest_difficulty")
      then (parse_suggest_difficulty req.params >>= λ p. ok (suggest_difficulty p))
      else ok (unknown req.method)
