-- ===== src/Session/State.antt =====
-- `Session`, what a handler answers, and the calls of the pool's statistics that it makes. Metrics
-- and log lines are left out.
use solo_pool_rs.Prelude.{ℕ, Bool, false, Option, none, List, []}
use Prim.Native.String.{String}
use solo_pool_rs.Prelude.Bytes.{Bytes}
use solo_pool_rs.Template.Job.{StratumJob}
use solo_pool_rs.Validator.{version_rolling_mask}
use solo_pool_rs.Validator.Shares as Shares
use solo_pool_rs.Validator.Shares.{ShareSet}
use solo_pool_rs.Security.Guard.{SessionGuard}
use solo_pool_rs.Security.ShareRate.{ShareRateLimiter}
use solo_pool_rs.Vardiff as Vardiff
use solo_pool_rs.Vardiff.{F64, ShareHistory, VardiffConfig}

-- A call of `PoolStats` by a session.
pub data StatCall (f : F64) : Type 0 where
  share_rejected : StatCall f
  worker_share_rejected : Bytes → String → StatCall f
  log_share : Bytes → ℕ → StatCall f
  share_accepted : ℕ → ℕ → StatCall f
  worker_share_accepted : Bytes → ℕ → StatCall f
  mark_worker_submit : Bytes → StatCall f
  block_found : Bytes → Bytes → ℕ → StatCall f
  mark_worker_offline : Bytes → StatCall f
  stash_share_history : Bytes → ShareHistory → StatCall f
  mark_worker_online : Bytes → ℕ → StatCall f
  set_worker_protocol : Bytes → String → StatCall f
  take_share_history : Bytes → StatCall f
  update_worker_vardiff : Bytes → ℕ → StatCall f
  update_worker_hashrate : Bytes → List f.Carrier → StatCall f

-- `HandleResult`; the messages are the JSON values that are printed.
pub data HandleResult (Value : Type 0) : Type 0 where
  messages : List Value → HandleResult Value
  disconnect : String → HandleResult Value

module _ (f : F64) where
  -- The fields of `Session` that some handler reads or writes; the share limiter of the guard is a
  -- field of its own.
  pub record Session : Type 0 where
    pub worker : Option Bytes
    pub user_agent : Option Bytes
    pub session_id : Bytes
    pub subscribed : Bool
    pub authorized : Bool
    pub version_rolling_enabled : Bool
    pub version_rolling_mask : ℕ
    pub version_rolling_min_bit_count : Option ℕ
    pub extranonce1 : Bytes
    pub extranonce2_size : ℕ
    pub current_job : Option StratumJob
    pub difficulty : ℕ
    pub vardiff : Vardiff.Vardiff f
    pub vardiff_cfg : VardiffConfig f
    pub share_set : ShareSet
    pub guard : SessionGuard
    pub share_rate : ShareRateLimiter f
    pub shares_accepted : ℕ
    pub shares_rejected : ℕ

  -- `Session::new`, given its random id and the guards that `SessionGuard::new` makes.
  unfoldable pub new :
      Bytes → Bytes → ℕ → ℕ → VardiffConfig f → SessionGuard → ShareRateLimiter f → ℕ → ℕ → Session
  unfolding Vardiff.new Shares.new
  new session_id extranonce1 extranonce2_size initial_diff vardiff_cfg guard share_rate now later =
      record {
        worker = none;
        user_agent = none;
        session_id = session_id;
        subscribed = false;
        authorized = false;
        version_rolling_enabled = false;
        version_rolling_mask = version_rolling_mask;
        version_rolling_min_bit_count = none;
        extranonce1 = extranonce1;
        extranonce2_size = extranonce2_size;
        current_job = none;
        difficulty = initial_diff;
        vardiff = Vardiff.new f vardiff_cfg initial_diff now later;
        vardiff_cfg = vardiff_cfg;
        share_set = Shares.new;
        guard = guard;
        share_rate = share_rate;
        shares_accepted = 0;
        shares_rejected = 0;
      }

  -- What a handler leaves: its answer, the session, and the calls of the statistics in order.
  pub record Handled (Value : Type 0) : Type 0 where
    pub answer : HandleResult Value
    pub session : Session
    pub calls : List (StatCall f)

  -- An answer that changes nothing.
  abbrev pub unchanged : {Value : Type 0} → HandleResult Value → Session → Handled Value
  unchanged answer s = record { answer = answer; session = s; calls = [] }
