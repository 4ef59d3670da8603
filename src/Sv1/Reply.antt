-- ===== src/Sv1/Reply.antt =====
-- `ResponseBuilder` and `to_stratum_error`'s JSON. A reply is the JSON value that is printed.
use solo_pool_rs.Prelude.{
  ℕ, Bool, true, Option, none, some, List, [], ◌∷◌, ◌++◌, map, if◌then◌else◌,
}
use solo_pool_rs.Prelude.Bytes.{Bytes}
use solo_pool_rs.Prelude.HexText.{format_hex}
use solo_pool_rs.Error.{StratumError, fixed, wrong_extranonce2_size}
use solo_pool_rs.Vardiff.{F64}
use solo_pool_rs.Sv1.Json.{Json, text}

module _ (f : F64) (json : Json f) where
  open json use {Value, null, bool, number, string, array, object}

  unfoldable pub ok_reply : Value → Value → Value
  ok_reply id result =
      object ((text "id", id) ∷ (text "result", result) ∷ (text "error", null) ∷ [])

  unfoldable pub err_reply : Value → Value → Value
  err_reply id error = object ((text "id", id) ∷ (text "result", null) ∷ (text "error", error) ∷ [])

  -- `size_text` is the display text of the error that names the two sizes.
  unfoldable pub error_value : (ℕ → ℕ → Bytes) → StratumError → Value
  error_value size_text e = array (
      number e.code
      ∷ string (elim e.text [
        | fixed s ↦ text s
        | wrong_extranonce2_size got expected ↦ size_text got expected
      ])
      ∷ null
      ∷ [])

  unfoldable pub subscribe_reply : Value → Bytes → Bytes → ℕ → Value
  unfolding ok_reply
  subscribe_reply id session_id extranonce1_hex extranonce2_size = ok_reply id (
      array (
        array (
          array (string (text "mining.set_difficulty") ∷ string session_id ∷ [])
          ∷ array (string (text "mining.notify") ∷ string session_id ∷ [])
          ∷ [])
        ∷ string extranonce1_hex
        ∷ number extranonce2_size
        ∷ []))

  -- The fields of the `mining.configure` response.
  unfoldable pub configure_fields : Bool → ℕ → Option ℕ → Bool → List (Bytes × Value)
  configure_fields version_rolling our_mask min_difficulty subscribe_extranonce =
      (if version_rolling
        then ((text "version-rolling", bool true)
            ∷ (text "version-rolling.mask", string (format_hex 8 our_mask))
            ∷ [])
        else [])
      ++ (elim min_difficulty [
        | none ↦ []
        | some md ↦
            (text "minimum-difficulty", bool true)
            ∷ (text "minimum-difficulty.value", number md)
            ∷ []
      ]
          ++ (if subscribe_extranonce then ((text "subscribe-extranonce", bool true) ∷ []) else []))

  unfoldable pub configure_reply : Value → Bool → ℕ → Option ℕ → Bool → Value
  unfolding ok_reply configure_fields
  configure_reply id version_rolling our_mask min_difficulty subscribe_extranonce =
      ok_reply id
        (object (configure_fields version_rolling our_mask min_difficulty subscribe_extranonce))

  -- A notification: no id, a method and its parameters.
  unfoldable pub notification : Bytes → List Value → Value
  notification method params =
      object
        ((text "id", null) ∷ (text "method", string method) ∷ (text "params", array params) ∷ [])

  unfoldable pub set_difficulty : ℕ → Value
  unfolding notification
  set_difficulty difficulty = notification (text "mining.set_difficulty") (number difficulty ∷ [])

  unfoldable pub notify_params :
      Bytes → Bytes → Bytes → Bytes → List Bytes → ℕ → Bytes → ℕ → Bool → List Value
  notify_params job_id prev_hash coinbase1 coinbase2 merkle_branch version bits ntime clean_jobs =
      string job_id
      ∷ string prev_hash
      ∷ string coinbase1
      ∷ string coinbase2
      ∷ array (map string merkle_branch)
      ∷ string (format_hex 8 version)
      ∷ string bits
      ∷ string (format_hex 8 ntime)
      ∷ bool clean_jobs
      ∷ []

  unfoldable pub notify : Bytes → Bytes → Bytes → Bytes → List Bytes → ℕ → Bytes → ℕ → Bool → Value
  unfolding notification notify_params
  notify job_id prev_hash coinbase1 coinbase2 merkle_branch version bits ntime clean_jobs =
      notification (text "mining.notify") (
        notify_params job_id prev_hash coinbase1 coinbase2 merkle_branch version bits ntime
          clean_jobs)

  unfoldable pub set_extranonce : Bytes → ℕ → Value
  unfolding notification
  set_extranonce extranonce1_hex extranonce2_size =
      notification (text "mining.set_extranonce")
        (string extranonce1_hex ∷ number extranonce2_size ∷ [])
