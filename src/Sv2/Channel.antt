-- ===== src/Sv2/Channel.antt =====
-- src/protocol/sv2/mod.rs: the state of a Stratum V2 session, and its set-up.
pub mod Submit
pub mod Dispatch
pub mod Target
pub mod Device
pub mod Sound
pub mod Send
pub mod Open
pub mod Events
pub mod Tally
use Prim.Native.String.{String}
use solo_pool_rs.Prelude.{
  ℕ, ◌+◌, ◌-◌, ◌%◌, ◌^◌, Bool, true, false, not, ◌||◌, Option, none, some, List, [], ◌∷◌, ◌++◌, max,
  bit_and, ltb, ◌==◌, if◌then◌else◌,
}
use solo_pool_rs.Prelude.Bytes.{Bytes}
use solo_pool_rs.Prelude.Utf8.{chars}
use solo_pool_rs.Error.{Result, ok, err, panic}
use solo_pool_rs.Template.Job.{StratumJob}
use solo_pool_rs.Template.PrevHash.{Hex}
use solo_pool_rs.Validator.Shares as Shares
use solo_pool_rs.Validator.Shares.{ShareSet}
use solo_pool_rs.Security.Guard.{SessionGuard, check_worker_name, record_new_authorization}
use solo_pool_rs.Security.ShareRate.{ShareRateLimiter}
use solo_pool_rs.Vardiff as Vardiff
use solo_pool_rs.Vardiff.{F64, ShareHistory, VardiffConfig}
use solo_pool_rs.Session.Extranonce.{sized}
use solo_pool_rs.Session.Setup.{is_new_identity}
use solo_pool_rs.Session.State.{
  StatCall, mark_worker_offline, stash_share_history, mark_worker_online, set_worker_protocol,
  take_share_history,
}
use solo_pool_rs.Sv2.Frame.{
  SetupConn, OpenExtended, Outbound, Wire, unsupported_setup_flags, setup_connection_success,
  setup_connection_error, open_channel_error_extranonce, open_extended_success,
  new_extended_mining_job, set_new_prev_hash,
}
use solo_pool_rs.Sv2.Job.{
  WireTypes, difficulty_to_sv2_target, sv2_target_le, build_new_extended_job,
  build_set_new_prev_hash,
}
use solo_pool_rs.Sv2.JobIds.{JobIds, new_ids, assign_job_id}

abbrev pub sv2_protocol_version : ℕ
sv2_protocol_version = 2

-- `Flow`; of a reason that ends in an error's text, the part before it.
pub data Flow : Type 0 where
  continue : Flow
  disconnect : String → Flow

module _ (f : F64) where
  pub record Sv2Session : Type 0 where
    pub worker : Option Bytes
    pub setup_done : Bool
    pub channel_open : Bool
    pub channel_id : ℕ
    pub extranonce_prefix : Bytes
    pub extranonce_size : ℕ
    pub extranonce_total : ℕ
    pub difficulty : ℕ
    pub vardiff : Vardiff.Vardiff f
    pub vardiff_cfg : VardiffConfig f
    pub share_set : ShareSet
    pub guard : SessionGuard
    pub share_rate : ShareRateLimiter f
    pub ids : JobIds
    pub pending_job : Option StratumJob
    pub shares_accepted : ℕ
    pub shares_rejected : ℕ

  -- `Sv2Session::new`, given the prefix, the configured sizes and the guards.
  unfoldable pub new :
      Bytes → ℕ → ℕ → ℕ → VardiffConfig f → SessionGuard → ShareRateLimiter f → ℕ → ℕ → Sv2Session
  unfolding Vardiff.new Shares.new new_ids
  new extranonce_prefix extranonce1_size extranonce2_size initial_diff vardiff_cfg guard share_rate
        now later =
      record {
        worker = none;
        setup_done = false;
        channel_open = false;
        channel_id = 0;
        extranonce_prefix = extranonce_prefix;
        extranonce_size = extranonce2_size;
        extranonce_total = extranonce1_size + extranonce2_size;
        difficulty = initial_diff;
        vardiff = Vardiff.new f vardiff_cfg initial_diff now later;
        vardiff_cfg = vardiff_cfg;
        share_set = Shares.new;
        guard = guard;
        share_rate = share_rate;
        ids = new_ids;
        pending_job = none;
        shares_accepted = 0;
        shares_rejected = 0;
      }

  -- What a handler leaves: how the loop goes on, the session, the messages sent, and the calls of
  -- the statistics.
  pub record Handled : Type 0 where
    pub flow : Flow
    pub session : Sv2Session
    pub sent : List Outbound
    pub calls : List (StatCall f)

  abbrev pub drop_session : String → Sv2Session → Handled
  drop_session reason s = record { flow = disconnect reason; session = s; sent = []; calls = [] }

-- A message that is encoded and written, or what ends the session.
unfoldable pub emit : Wire → Outbound → String → Flow × List Outbound
emit wire message failure = elim (wire.encode message) [
  | none ↦ (disconnect failure, [])
  | some payload ↦ if wire.send message then (continue, message ∷ []) else (disconnect "write", [])
]

-- `setup_error`: the reply is best-effort.
unfoldable pub setup_error : Wire → String → ℕ → List Outbound
unfolding emit
setup_error wire code flags = (emit wire (setup_connection_error code flags) "").1

-- The three checks of a `SetupConnection`, in order: the error's code, flags and reason.
unfoldable pub refuse_setup : SetupConn → Option (String × ℕ × String)
refuse_setup setup =
    if not setup.is_mining_protocol
    then some ("unsupported-protocol", 0, "unsupported sub-protocol")
    else if ltb sv2_protocol_version setup.min_version || ltb setup.max_version sv2_protocol_version
    then some ("protocol-version-mismatch", 0, "unsupported SV2 version range")
    else if not (bit_and setup.flags unsupported_setup_flags == 0)
    then some ("unsupported-feature-flags", unsupported_setup_flags, "unsupported feature flags")
    else none

-- What `handle_open_extended` meets: the channel counter, the extranonce counter, the clock when
-- histories are taken and restored, and the stored history of a name.
pub record OpenInput : Type 0 where
  pub channel_id : ℕ
  pub extranonce_counter : ℕ
  pub taken_at : ℕ
  pub restored_at : ℕ
  pub stashed : Bytes → Option ShareHistory

-- `usize::max(requested, 1)`.
abbrev pub granted : OpenExtended → ℕ
granted open_ = max open_.min_extranonce_size 1

-- The target from the difficulty, no easier than the device's.
unfoldable pub open_target : OpenExtended → ℕ → Bytes
unfolding difficulty_to_sv2_target sv2_target_le
open_target open_ difficulty =
    let target = difficulty_to_sv2_target difficulty in
    if sv2_target_le target open_.max_target then target else open_.max_target

module _ (f : F64) where
  -- The new identity's old worker goes offline.
  unfoldable pub leave_worker : OpenInput → Sv2Session f → Sv2Session f × List (StatCall f)
  unfolding Vardiff.take_share_history
  leave_worker input s = elim s.worker [
    | none ↦ (s, [])
    | some prev ↦
        (let (history, vardiff) = Vardiff.take_share_history f input.taken_at s.vardiff in
          (
            record s { worker = none; vardiff = vardiff },
            mark_worker_offline prev ∷ stash_share_history prev history ∷ [],
          ))
  ]

  -- The new identity comes online, with its stored shares.
  unfoldable pub join_worker : OpenInput → Bytes → Sv2Session f → Sv2Session f × List (StatCall f)
  unfolding Vardiff.restore_share_history
  join_worker input worker s = (
    elim (input.stashed worker) [
      | none ↦ s
      | some history ↦ record s {
        vardiff = Vardiff.restore_share_history f history input.restored_at s.vardiff;
      }
    ],
    mark_worker_online worker s.difficulty
        ∷ set_worker_protocol worker "sv2"
        ∷ take_share_history worker
        ∷ [],
  )

  -- The channel's own state: the split of the extranonce, the channel id and the worker.
  unfoldable pub split_extranonce : OpenInput → OpenExtended → Sv2Session f → Sv2Session f
  unfolding sized
  split_extranonce input open_ s = record s {
    extranonce_size = granted open_;
    extranonce_prefix = sized (s.extranonce_total - granted open_) input.extranonce_counter;
    channel_id = input.channel_id;
    worker = some open_.user_identity;
  }

  -- The split subtracts the granted size from the total, which fails where the total is 0.
  unfoldable pub checked : Sv2Session f → Handled f → Result (Handled f)
  checked s h = if s.extranonce_total == 0 then panic else ok h

module _ (f : F64) (wire : Wire) where
  -- The argument is the decoded payload, if it can be decoded.
  unfoldable pub handle_setup_connection : Option SetupConn → Sv2Session f → Handled f
  unfolding setup_error refuse_setup emit
  handle_setup_connection none s = drop_session f "bad SetupConnection" s
  handle_setup_connection (some setup) s = elim (refuse_setup setup) [
    | some (code, flags, reason) ↦ record {
      flow = disconnect reason;
      session = s;
      sent = setup_error wire code flags;
      calls = [];
    }
    | none ↦
        (let (flow, sent) =
            emit wire (setup_connection_success sv2_protocol_version)
              "encode SetupConnectionSuccess" in
          record { flow = flow; session = record s { setup_done = true }; sent = sent; calls = [] })
  ]

  module _ (types : WireTypes) (hex : Hex) where
    -- The second message of a future job.
    unfoldable pub send_prev_hash : StratumJob → ℕ → ℕ → Bool × List Outbound
    unfolding build_set_new_prev_hash emit
    send_prev_hash job channel_id sv2_job_id =
        elim (build_set_new_prev_hash hex job channel_id sv2_job_id) [
          | none ↦ (false, [])
          | some snph ↦
              (let (flow, sent) = emit wire (set_new_prev_hash snph) "" in
                (elim flow [ continue ↦ true | disconnect _ ↦ false ], sent))
        ]

    unfoldable pub send_job : StratumJob → Bool → Sv2Session f → Bool × Sv2Session f × List Outbound
    unfolding assign_job_id build_new_extended_job send_prev_hash emit
    send_job job future s =
        let (sv2_job_id, ids) = assign_job_id job.job_id s.ids in
        let assigned = record s { ids = ids } in
        elim (build_new_extended_job types job s.channel_id sv2_job_id future) [
          | none ↦ (false, assigned, [])
          | some new_job ↦
              (let (flow, sent) = emit wire (new_extended_mining_job new_job) "" in
                let (fine, second) = send_prev_hash job s.channel_id sv2_job_id in
                elim flow [
                  | disconnect _ ↦ (false, assigned, sent)
                  | continue ↦
                      if future then (fine, assigned, sent ++ second) else (true, assigned, sent)
                ])
        ]

    -- The end of `handle_open_extended`: the current job, at once.
    unfoldable pub push_job : List Outbound → List (StatCall f) → Sv2Session f → Handled f
    unfolding send_job
    push_job sent calls s = elim s.pending_job [
      | none ↦ record { flow = continue; session = s; sent = sent; calls = calls }
      | some job ↦
          (let (fine, after, more) = send_job job true s in
            record {
              flow = if fine then continue else disconnect "write";
              session = after;
              sent = sent ++ more;
              calls = calls;
            })
    ]

    -- What follows the reply, by whether it went out.
    unfoldable pub after_reply : List (StatCall f) → Sv2Session f → Flow × List Outbound → Handled f
    unfolding push_job
    after_reply calls s (disconnect reason, sent) = record {
      flow = disconnect reason;
      session = s;
      sent = sent;
      calls = calls;
    }
    after_reply calls s (continue, sent) = push_job sent calls (record s { channel_open = true })

    -- The reply, and the job after it.
    unfoldable pub confirm : OpenExtended → List (StatCall f) → Sv2Session f → Bytes → Handled f
    unfolding emit after_reply
    confirm open_ calls s target = after_reply calls s (
        emit wire
          (open_extended_success open_.request_id s.channel_id target (s.extranonce_size % 2 ^ 16)
            s.extranonce_prefix)
          "encode OpenExtendedMiningChannelSuccess")

    -- An accepted open, from the identity on.
    unfoldable pub open_channel : OpenInput → OpenExtended → Sv2Session f → Result (Handled f)
    unfolding record_new_authorization is_new_identity leave_worker split_extranonce join_worker
        open_target confirm checked
    open_channel input open_ s =
        let (allowed, guard) = record_new_authorization s.guard in
        let counted = record s { guard = guard } in
        let (left, gone) = leave_worker f input counted in
        let split = split_extranonce f input open_ left in
        let (joined, came) = join_worker f input open_.user_identity split in
        let target = open_target open_ s.difficulty in
        if is_new_identity s.worker open_.user_identity
        then (if allowed
            then checked f s (confirm open_ (gone ++ came) joined target)
            else ok (drop_session f "too many worker identities" counted))
        else checked f s (confirm open_ [] (split_extranonce f input open_ s) target)

    unfoldable pub handle_open_extended :
        OpenInput → Option OpenExtended → Sv2Session f → Result (Handled f)
    unfolding check_worker_name chars emit open_channel
    handle_open_extended input opened s =
        if not s.setup_done
        then ok (drop_session f "OpenExtendedMiningChannel before SetupConnection" s)
        else (elim opened [
          | none ↦ ok (drop_session f "bad OpenExtendedMiningChannel" s)
          | some open_ ↦ elim (check_worker_name s.guard (chars open_.user_identity)) [
            | err e ↦ ok (drop_session f "invalid user_identity" s)
            | panic ↦ panic
            | ok _ ↦
                if ltb s.extranonce_total open_.min_extranonce_size
                then ok (record {
                  flow = continue;
                  session = s;
                  sent = (emit wire (open_channel_error_extranonce open_.request_id) "").1;
                  calls = [];
                })
                else open_channel input open_ s
          ]
        ])
