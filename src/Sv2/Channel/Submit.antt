-- ===== src/Sv2/Channel/Submit.antt =====
-- `handle_submit` of src/protocol/sv2/mod.rs. The reasons, the credit's calls and the hash's display
-- are those of the SV1 session.
pub mod Settled
pub mod Credited
use Prim.Native.String.{String}
use solo_pool_rs.Prelude.{
  ℕ, ◌+◌, not, Option, none, some, List, [], ◌∷◌, bit_and, length, ◌==◌, if◌then◌else◌,
}
use solo_pool_rs.Prelude.Bytes.{Bytes}
use solo_pool_rs.Error.{Result, ok, err, panic, PoolError}
use solo_pool_rs.Template.PrevHash.{Hex}
use solo_pool_rs.Validator.{
  ShareParams, ShareResult, JobEntry, valid, block, version_rolling_mask, validate_share_no_dedup,
}
use solo_pool_rs.Validator.Shares.{dedup}
use solo_pool_rs.Security.Guard.{record_invalid}
use solo_pool_rs.Vardiff.{F64, credit_for, record_share}
use solo_pool_rs.Engine.{find_job, submit_found_block}
use solo_pool_rs.Session.State.{StatCall, share_rejected, worker_share_rejected, block_found}
use solo_pool_rs.Session.Submit.{
  SubmitInput, worker_or_unknown, reject_reason, is_malicious, hash_display_hex, accepted_calls,
}
use solo_pool_rs.Sv2.Frame.{SubmitExtended, Wire, submit_shares_success, submit_shares_error}
use solo_pool_rs.Sv2.JobIds.{engine_job_id}
use solo_pool_rs.Sv2.Channel.{disconnect, Sv2Session, Handled, drop_session, emit}

module _ (f : F64) where
  -- `session.shares_accepted += 1`, `credit_for` and `record_share`.
  unfoldable pub credit : ℕ → ℕ → Sv2Session f → Sv2Session f
  unfolding credit_for record_share
  credit now hash_difficulty s = record s {
    shares_accepted = s.shares_accepted + 1;
    vardiff = record_share f (credit_for f s.vardiff hash_difficulty) now s.vardiff;
  }

  unfoldable pub share_params : SubmitExtended → JobEntry → Sv2Session f → ShareParams
  unfolding worker_or_unknown
  share_params submit entry s = record {
    worker = worker_or_unknown s.worker;
    job_id = entry.job.job_id;
    extranonce2 = submit.extranonce;
    ntime = submit.ntime;
    nonce = submit.nonce;
    version_bits = some (bit_and submit.version version_rolling_mask);
    version_rolling_mask = some version_rolling_mask;
  }

module _ (f : F64) (hex : Hex) (sha256 : Bytes → Bytes) where
  unfoldable pub validate : SubmitExtended → JobEntry → Sv2Session f → Result ShareResult
  unfolding validate_share_no_dedup share_params
  validate submit entry s =
      validate_share_no_dedup sha256 hex (share_params f submit entry s) entry.job entry
        s.extranonce_prefix s.vardiff_cfg.min_difficulty

module _ (f : F64) (wire : Wire) where
  -- `accept` and `reject`, with the session and the calls before them.
  unfoldable pub accept : ℕ → List (StatCall f) → Sv2Session f → Handled f
  unfolding emit
  accept seq calls s =
      let (flow, sent) =
        emit wire (submit_shares_success s.channel_id seq s.difficulty)
          "encode SubmitSharesSuccess" in
      record { flow = flow; session = s; sent = sent; calls = calls }

  unfoldable pub reject : ℕ → String → List (StatCall f) → Sv2Session f → Handled f
  unfolding emit
  reject seq code calls s =
      let (flow, sent) =
        emit wire (submit_shares_error s.channel_id seq code) "encode SubmitSharesError" in
      record { flow = flow; session = s; sent = sent; calls = calls }

  -- A counted invalid share: the error reply, or the disconnection at the limit.
  unfoldable pub count_invalid : ℕ → String → List (StatCall f) → Sv2Session f → Handled f
  unfolding record_invalid reject
  count_invalid seq code calls s =
      let (limit, counter) = record_invalid s.guard.invalid_shares in
      let counted = record s { guard = record s.guard { invalid_shares = counter } } in
      if limit
      then record {
        flow = disconnect "too many invalid shares";
        session = counted;
        sent = [];
        calls = calls;
      }
      else reject seq code calls counted

  -- The arm of a share that the validation or the deduplication refused.
  unfoldable pub refuse : ℕ → Bytes → PoolError → Sv2Session f → Handled f
  unfolding count_invalid is_malicious reject_reason
  refuse seq worker e s =
      let reason = reject_reason e in
      let calls = share_rejected ∷ worker_share_rejected worker reason ∷ [] in
      let counted = record s { shares_rejected = s.shares_rejected + 1 } in
      if is_malicious e
      then count_invalid seq reason calls counted
      else reject seq reason calls counted

  module _ (hex : Hex) where
    -- The arms of an accepted share, and of a found block by what its submission returned.
    unfoldable pub settle_block :
        SubmitInput
        → ℕ
        → Bytes
        → ℕ
        → ℕ
        → Bytes
        → Result (Unit {0})
        → Sv2Session f
        → Result (Handled f)
    unfolding accept credit accepted_calls credit_for hash_display_hex reject
    settle_block input seq worker height hash_difficulty hash (ok _) s = ok (
        accept seq
          (block_found worker (hash_display_hex hex hash) height
            ∷ accepted_calls f worker hash_difficulty (credit_for f s.vardiff hash_difficulty))
          (credit f input.now hash_difficulty s))
    settle_block input seq worker height hash_difficulty hash (err e) s =
        ok (reject seq "block-submit-failed" [] s)
    settle_block input seq worker height hash_difficulty hash panic s = panic

    unfoldable pub settle :
        SubmitInput → ℕ → Bytes → ℕ → Result ShareResult → Sv2Session f → Result (Handled f)
    unfolding accept credit accepted_calls credit_for settle_block refuse submit_found_block
    settle input seq worker height (ok (valid assigned_difficulty hash_difficulty hash)) s = ok (
        accept seq
          (accepted_calls f worker hash_difficulty (credit_for f s.vardiff hash_difficulty))
          (credit f input.now hash_difficulty s))
    settle input seq worker height (ok (block hash_difficulty block_hex hash)) s =
        settle_block input seq worker height hash_difficulty hash
          (submit_found_block input.answers).returned s
    settle input seq worker height (err e) s = ok (refuse seq worker e s)
    settle input seq worker height panic s = ok (drop_session f "internal error" s)

    module _ (sha256 : Bytes → Bytes) where
      -- The engine's entry of the job that the device names.
      unfoldable pub named_entry : SubmitInput → SubmitExtended → Sv2Session f → Option JobEntry
      unfolding engine_job_id find_job
      named_entry input submit s = elim (engine_job_id s.ids submit.job_id) [
        | none ↦ none
        | some engine_id ↦ find_job engine_id input.engine
      ]

      unfoldable pub submit_on :
          SubmitInput → SubmitExtended → Option JobEntry → Sv2Session f → Result (Handled f)
      unfolding validate dedup settle worker_or_unknown reject
      submit_on input submit none s = ok (
          reject submit.sequence_number "stale-job"
            (share_rejected
              ∷ worker_share_rejected (worker_or_unknown s.worker) "job_not_found"
              ∷ [])
            s)
      submit_on input submit (some entry) s =
          let (result, share_set) = dedup s.share_set (validate f hex sha256 submit entry s) in
          settle input submit.sequence_number (worker_or_unknown s.worker) entry.job.height result
            (record s { share_set = share_set })

      -- The argument is the decoded payload, if it can be decoded.
      unfoldable pub handle_submit :
          SubmitInput → Option SubmitExtended → Sv2Session f → Result (Handled f)
      unfolding named_entry submit_on count_invalid worker_or_unknown
      handle_submit input decoded s =
          if not s.channel_open
          then ok (drop_session f "SubmitShares before channel open" s)
          else (elim decoded [
            | none ↦ ok (drop_session f "bad SubmitSharesExtended" s)
            | some submit ↦
                if not (length submit.extranonce == s.extranonce_size)
                then ok (
                    count_invalid submit.sequence_number "bad-extranonce-size"
                      (share_rejected
                        ∷ worker_share_rejected (worker_or_unknown s.worker) "bad_extranonce"
                        ∷ [])
                      s)
                else submit_on input submit (named_entry input submit s) s
          ])
