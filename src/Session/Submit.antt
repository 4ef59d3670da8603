-- ===== src/Session/Submit.antt =====
-- `mining.submit`.
pub mod Settled
pub mod Credited
pub mod Disconnects
use Prim.Native.String.{String}
use solo_pool_rs.Prelude.{
  ℕ, ◌+◌, Bool, true, false, not, Option, none, some, List, [], ◌∷◌, ◌++◌, length, reverse, ◌==◌,
  if◌then◌else◌,
}
use solo_pool_rs.Prelude.Bytes.{Bytes}
use solo_pool_rs.Error.{
  Result, ok, err, panic, PoolError, not_authorized, bad_extranonce_size, stale_job, low_difficulty,
  duplicate_share,
}
use solo_pool_rs.Template.PrevHash.{Hex}
use solo_pool_rs.Validator.{
  ShareParams, ShareResult, JobEntry, valid, block, validate_share_no_dedup,
}
use solo_pool_rs.Validator.Shares.{dedup}
use solo_pool_rs.Security.Guard.{record_invalid}
use solo_pool_rs.Vardiff.{F64, credit_for, record_share}
use solo_pool_rs.Engine.{TemplateEngine, find_job, submit_found_block}
use solo_pool_rs.Sv1.Json.{Json}
use solo_pool_rs.Sv1.Parse.{SubmitParams}
use solo_pool_rs.Sv1.Reply.{ok_reply}
use solo_pool_rs.Session.State.{
  StatCall, HandleResult, messages, disconnect, Session, Handled, share_rejected,
  worker_share_rejected, log_share, share_accepted, worker_share_accepted, mark_worker_submit,
  block_found,
}
use solo_pool_rs.Session.Setup.{refuse}

-- `session.worker.clone().unwrap_or_else(|| "?".to_string())`.
unfoldable pub worker_or_unknown : Option Bytes → Bytes
worker_or_unknown none = b'?' ∷ []
worker_or_unknown (some worker) = worker

unfoldable pub reject_reason : PoolError → String
reject_reason (stale_job id) = "stale"
reject_reason PoolError.duplicate_share = "duplicate"
reject_reason low_difficulty = "low_difficulty"
reject_reason _ = "invalid"

unfoldable pub is_malicious : PoolError → Bool
is_malicious low_difficulty = false
is_malicious (stale_job id) = false
is_malicious _ = true

unfoldable pub hash_display_hex : Hex → Bytes → Bytes
hash_display_hex hex hash = hex.encode (reverse hash)

-- What `handle_submit` meets: the engine's state, the clock in `record_share`, and the node's
-- answers to the submissions of a found block.
pub record SubmitInput : Type 0 where
  pub engine : TemplateEngine
  pub now : ℕ
  pub answers : ℕ → Result (Unit {0})

module _ (f : F64) where
  -- `shares_accepted += 1`, `credit_for` and `record_share`.
  unfoldable pub credit : ℕ → ℕ → Session f → Session f
  unfolding credit_for record_share
  credit now hash_difficulty s = record s {
    shares_accepted = s.shares_accepted + 1;
    vardiff = record_share f (credit_for f s.vardiff hash_difficulty) now s.vardiff;
  }

  -- The statistics of an accepted share.
  unfoldable pub accepted_calls : Bytes → ℕ → ℕ → List (StatCall f)
  accepted_calls worker hash_difficulty credited =
      log_share worker credited
      ∷ share_accepted hash_difficulty credited
      ∷ worker_share_accepted worker hash_difficulty
      ∷ mark_worker_submit worker
      ∷ []

  unfoldable pub share_params : SubmitParams → Session f → ShareParams
  unfolding worker_or_unknown
  share_params params s = record {
    worker = worker_or_unknown s.worker;
    job_id = params.job_id;
    extranonce2 = params.extranonce2;
    ntime = params.ntime;
    nonce = params.nonce;
    version_bits = if s.version_rolling_enabled then params.version_bits else none;
    version_rolling_mask = if s.version_rolling_enabled then some s.version_rolling_mask else none;
  }

module _ (f : F64) (hex : Hex) (sha256 : Bytes → Bytes) where
  -- The validation that the blocking task runs.
  unfoldable pub validate : SubmitParams → JobEntry → Session f → Result ShareResult
  unfolding validate_share_no_dedup share_params
  validate params entry s =
      validate_share_no_dedup sha256 hex (share_params f params s) entry.job entry s.extranonce1
        s.vardiff_cfg.min_difficulty

module _ (f : F64) (json : Json f) where
  open json use {Value, bool}

  unfoldable pub accept : ℕ → Value → Bytes → ℕ → List (StatCall f) → Session f → Handled f Value
  unfolding ok_reply credit accepted_calls credit_for
  accept now id worker hash_difficulty calls s = record {
    answer = messages (ok_reply f json id (bool true) ∷ []);
    session = credit f now hash_difficulty s;
    calls =
        calls ++ accepted_calls f worker hash_difficulty (credit_for f s.vardiff hash_difficulty);
  }

module _ (f : F64) (json : Json f) (size_text : ℕ → ℕ → Bytes) where
  open json use {Value}

  -- A counted invalid share: the error reply, or the disconnection at the limit.
  unfoldable pub count_invalid : Value → PoolError → List (StatCall f) → Session f → Handled f Value
  unfolding record_invalid
  count_invalid id e calls s =
      let (limit, counter) = record_invalid s.guard.invalid_shares in
      record {
        answer =
            if limit then disconnect "too many invalid shares" else refuse f json size_text id e;
        session = record s { guard = record s.guard { invalid_shares = counter } };
        calls = calls;
      }

  -- The arm of a share that the validation or the deduplication refused.
  unfoldable pub reject : Value → Bytes → PoolError → Session f → Handled f Value
  unfolding count_invalid is_malicious reject_reason
  reject id worker e s =
      let calls = share_rejected ∷ worker_share_rejected worker (reject_reason e) ∷ [] in
      let counted = record s { shares_rejected = s.shares_rejected + 1 } in
      if is_malicious e
      then count_invalid id e calls counted
      else record { answer = refuse f json size_text id e; session = counted; calls = calls }

module _ (f : F64) (json : Json f) (hex : Hex) (size_text : ℕ → ℕ → Bytes) where
  open json use {Value}

  -- The arm of a found block, by what `submit_found_block` returned.
  unfoldable pub settle_block :
      SubmitInput
      → Value
      → Bytes
      → ℕ
      → ℕ
      → Bytes
      → Result (Unit {0})
      → Session f
      → Result (Handled f Value)
  unfolding accept hash_display_hex
  settle_block input id worker height hash_difficulty hash (ok _) s = ok (
      accept f json input.now id worker hash_difficulty
        (block_found worker (hash_display_hex hex hash) height ∷ []) s)
  settle_block input id worker height hash_difficulty hash (err e) s =
      ok (record { answer = refuse f json size_text id e; session = s; calls = [] })
  settle_block input id worker height hash_difficulty hash panic s = panic

  -- The match on the deduplicated result.
  unfoldable pub settle :
      SubmitInput → Value → Bytes → ℕ → Result ShareResult → Session f → Result (Handled f Value)
  unfolding accept settle_block reject submit_found_block
  settle input id worker height (ok (valid assigned_difficulty hash_difficulty hash)) s =
      ok (accept f json input.now id worker hash_difficulty [] s)
  settle input id worker height (ok (block hash_difficulty block_hex hash)) s =
      settle_block input id worker height hash_difficulty hash
        (submit_found_block input.answers).returned s
  settle input id worker height (err e) s = ok (reject f json size_text id worker e s)
  settle input id worker height panic s =
      ok (record { answer = disconnect "internal error"; session = s; calls = [] })

  -- A panic of the validation is caught before the deduplication, which leaves it as it is.
  unfoldable pub conclude :
      SubmitInput → Value → Bytes → ℕ → Result ShareResult → Session f → Result (Handled f Value)
  unfolding settle dedup
  conclude input id worker height validation s =
      let (result, share_set) = dedup s.share_set validation in
      settle input id worker height result (record s { share_set = share_set })

  module _ (sha256 : Bytes → Bytes) where
    -- The handler, once the job is looked up.
    unfoldable pub submit_on :
        SubmitInput → Value → SubmitParams → Option JobEntry → Session f → Result (Handled f Value)
    unfolding validate conclude worker_or_unknown
    submit_on input id params none s = ok (record {
      answer = refuse f json size_text id (stale_job params.job_id);
      session = s;
      calls =
          share_rejected ∷ worker_share_rejected (worker_or_unknown s.worker) "job_not_found" ∷ [];
    })
    submit_on input id params (some entry) s =
        conclude input id (worker_or_unknown s.worker) entry.job.height
          (validate f hex sha256 params entry s) s

    unfoldable pub handle_submit :
        SubmitInput → Value → SubmitParams → Session f → Result (Handled f Value)
    unfolding submit_on count_invalid worker_or_unknown find_job
    handle_submit input id params s =
        let worker = worker_or_unknown s.worker in
        if not s.authorized
        then ok (record {
          answer = refuse f json size_text id not_authorized;
          session = s;
          calls = share_rejected ∷ [];
        })
        else if not (length params.extranonce2 == s.extranonce2_size)
        then ok (
            count_invalid f json size_text id
              (bad_extranonce_size (length params.extranonce2) s.extranonce2_size)
              (share_rejected ∷ worker_share_rejected worker "bad_extranonce" ∷ []) s)
        else submit_on input id params (find_job params.job_id input.engine) s
