-- ===== src/Session/Setup.antt =====
-- The requests that set a session up: `mining.configure`, `mining.suggest_difficulty`,
-- `mining.subscribe` and `mining.authorize`.
use solo_pool_rs.Prelude.{
  ℕ, zero, suc, ◌+◌, ◌/◌, ◌%◌, Bool, true, not, ◌&&◌, Option, none, some, List, [], ◌∷◌, ◌++◌,
  bit_and, leb, ◌==◌, if◌then◌else◌,
}
use solo_pool_rs.Prelude.Bytes.{Bytes, bytes_eq}
use solo_pool_rs.Prelude.Utf8.{chars}
use solo_pool_rs.Error.{Result, ok, err, panic, ◌>>=◌, PoolError, not_subscribed, to_stratum_error}
use solo_pool_rs.Template.Job.{StratumJob}
use solo_pool_rs.Template.PrevHash.{Hex}
use solo_pool_rs.Security.Guard.{check_worker_name, record_new_authorization}
use solo_pool_rs.Vardiff.{F64, ShareHistory}
use solo_pool_rs.Vardiff as Vardiff
use solo_pool_rs.Sv1.Json.{Json}
use solo_pool_rs.Sv1.Parse.{
  ConfigureParams, SuggestDifficultyParams, SubscribeParams, AuthorizeParams,
}
use solo_pool_rs.Sv1.Reply.{
  ok_reply, err_reply, error_value, subscribe_reply, configure_reply, set_difficulty, notify,
}
use solo_pool_rs.Session.State.{
  StatCall, HandleResult, messages, disconnect, Session, Handled, unchanged, mark_worker_offline,
  stash_share_history, mark_worker_online, set_worker_protocol, take_share_history,
}

-- `u32::count_ones`: the sum of the lowest `n` bits.
unfoldable pub count_bits : ℕ → ℕ → ℕ
count_bits zero x = 0
count_bits (suc n) x = x % 2 + count_bits n (x / 2)

-- `params.version_rolling_mask.map(|m| m & mask).unwrap_or(mask)`.
unfoldable pub negotiate_mask : Option ℕ → ℕ → ℕ
negotiate_mask none mask = mask
negotiate_mask (some m) mask = bit_and m mask

unfoldable pub min_bits_ok : Option ℕ → ℕ → Bool
unfolding count_bits
min_bits_ok none negotiated = true
min_bits_ok (some min_bits) negotiated = leb min_bits (count_bits 32 negotiated)

-- `session.worker.as_deref() != Some(params.worker.as_str())`.
unfoldable pub is_new_identity : Option Bytes → Bytes → Bool
is_new_identity none worker = true
is_new_identity (some current) worker = not (bytes_eq current worker)

-- The clock in `handle_authorize`, when the old worker's history is taken and when the new one's
-- is restored, what `PoolStats::take_share_history` gives for a name, and the engine's job.
pub record AuthorizeInput : Type 0 where
  pub taken_at : ℕ
  pub restored_at : ℕ
  pub stashed : Bytes → Option ShareHistory
  pub engine_job : Option StratumJob

-- `session.current_job`, or else the engine's.
unfoldable pub job_at_hand : Option StratumJob → Option StratumJob → Option StratumJob
job_at_hand none engine_job = engine_job
job_at_hand (some job) engine_job = some job

module _ (f : F64) where
  -- The negotiation of version rolling.
  unfoldable pub negotiate : ConfigureParams → Session f → Session f
  unfolding negotiate_mask min_bits_ok
  negotiate params s =
      let negotiated = negotiate_mask params.version_rolling_mask s.version_rolling_mask in
      if params.version_rolling
      then record s {
        version_rolling_enabled =
            min_bits_ok params.version_rolling_min_bit_count negotiated && not (negotiated == 0);
        version_rolling_mask = negotiated;
        version_rolling_min_bit_count = params.version_rolling_min_bit_count;
      }
      else s

  -- `if let Some(prev) = session.worker.take()`.
  unfoldable pub leave_worker : AuthorizeInput → Session f → Session f × List (StatCall f)
  unfolding Vardiff.take_share_history
  leave_worker input s = elim s.worker [
    | none ↦ (s, [])
    | some prev ↦
        (let (history, vardiff) = Vardiff.take_share_history f input.taken_at s.vardiff in
          (
            record s { worker = none; vardiff = vardiff },
            mark_worker_offline prev ∷ stash_share_history prev history ∷ [],
          ))
  ]

  unfoldable pub restore_history : AuthorizeInput → Bytes → Session f → Session f
  unfolding Vardiff.restore_share_history
  restore_history input worker s = elim (input.stashed worker) [
    | none ↦ s
    | some history ↦ record s {
      vardiff = Vardiff.restore_share_history f history input.restored_at s.vardiff;
    }
  ]

  -- The switch to a new identity that the guard lets pass.
  unfoldable pub switch_worker : AuthorizeInput → Bytes → Session f → Session f × List (StatCall f)
  unfolding leave_worker restore_history
  switch_worker input worker s =
      let (left, calls) = leave_worker input s in
      (
        restore_history input worker left,
        calls
            ++ (mark_worker_online worker left.difficulty
                ∷ set_worker_protocol worker "sv1"
                ∷ take_share_history worker
                ∷ []),
      )

module _ (f : F64) (json : Json f) where
  open json use {Value, bool}

  unfoldable pub handle_configure : Value → ConfigureParams → Session f → Handled f Value
  unfolding negotiate configure_reply
  handle_configure id params s =
      let negotiated = negotiate f params s in
      unchanged f
        (messages (
          configure_reply f json id negotiated.version_rolling_enabled
            negotiated.version_rolling_mask (some negotiated.difficulty) params.subscribe_extranonce
          ∷ []))
        negotiated

  -- `now` is the clock's reading in `Vardiff::suggest`.
  unfoldable pub handle_suggest_difficulty :
      ℕ → Value → SuggestDifficultyParams → Session f → Result (Handled f Value)
  unfolding Vardiff.suggest ok_reply set_difficulty
  handle_suggest_difficulty now id params s = do
    (applied, vardiff) ← Vardiff.suggest f params.difficulty now s.vardiff
    ok (
        unchanged f
          (messages (
            ok_reply f json id (bool true)
            ∷ (if s.subscribed then set_difficulty f json applied ∷ [] else [])))
          (record s { vardiff = vardiff; difficulty = applied }))

module _ (f : F64) (json : Json f) (hex : Hex) where
  open json use {Value, bool}

  unfoldable pub build_notify : StratumJob → Bool → Value
  unfolding notify
  build_notify job clean =
      notify f json job.job_id job.prev_hash (hex.encode job.coinbase1) (hex.encode job.coinbase2)
        job.merkle_branch job.version job.bits job.cur_time clean

  unfoldable pub handle_subscribe : Value → SubscribeParams → Session f → Handled f Value
  unfolding subscribe_reply
  handle_subscribe id params s =
      unchanged f
        (messages (
          subscribe_reply f json id s.session_id (hex.encode s.extranonce1) s.extranonce2_size
          ∷ []))
        (record s { subscribed = true; user_agent = params.user_agent })

  -- From `session.authorized = true` on.
  unfoldable pub welcome :
      AuthorizeInput → Value → AuthorizeParams → Session f × List (StatCall f) → Handled f Value
  unfolding ok_reply set_difficulty job_at_hand build_notify
  welcome input id params (s, calls) =
      let job = job_at_hand s.current_job input.engine_job in
      record {
        answer = messages (
            ok_reply f json id (bool true)
            ∷ set_difficulty f json s.difficulty
            ∷ elim job [ none ↦ [] | some j ↦ build_notify j true ∷ [] ]);
        session = record s { authorized = true; worker = some params.worker; current_job = job };
        calls = calls;
      }

  -- A worker name that the guard accepted.
  unfoldable pub admit : AuthorizeInput → Value → AuthorizeParams → Session f → Handled f Value
  unfolding is_new_identity record_new_authorization switch_worker welcome
  admit input id params s =
      let (allowed, guard) = record_new_authorization s.guard in
      let counted = record s { guard = guard } in
      if is_new_identity s.worker params.worker
      then (if allowed
          then welcome input id params (switch_worker f input params.worker counted)
          else unchanged f (disconnect "too many worker identities") counted)
      else welcome input id params (s, [])

module _ (f : F64) (json : Json f) (size_text : ℕ → ℕ → Bytes) where
  open json use {Value}

  -- `ResponseBuilder::err(&req.id, e.to_stratum_error())` as the only message.
  abbrev pub refuse : Value → PoolError → HandleResult Value
  refuse id e =
      messages (err_reply f json id (error_value f json size_text (to_stratum_error e)) ∷ [])

module _ (f : F64) (json : Json f) (hex : Hex) (size_text : ℕ → ℕ → Bytes) where
  open json use {Value}

  unfoldable pub handle_authorize :
      AuthorizeInput → Value → AuthorizeParams → Session f → Handled f Value
  unfolding check_worker_name chars err_reply error_value to_stratum_error admit
  handle_authorize input id params s =
      if not s.subscribed
      then unchanged f (refuse f json size_text id not_subscribed) s
      else (elim (check_worker_name s.guard (chars params.worker)) [
        | ok _ ↦ admit f json hex input id params s
        | err e ↦ unchanged f (refuse f json size_text id e) s
        | panic ↦ admit f json hex input id params s
      ])
