-- ===== src/Sv2/Job.antt =====
-- src/protocol/sv2/job.rs: targets, and a job's two messages.
pub mod Target
pub mod Announced
use solo_pool_rs.Prelude.{
  ℕ, Bool, true, Option, none, some, List, [], ◌∷◌, reverse, length, ◌==◌, not, ◌||◌, if◌then◌else◌,
}
use solo_pool_rs.Prelude.Bytes.{Bytes, bytes_le}
use solo_pool_rs.Prelude.Words.{u32_from_hex}
use solo_pool_rs.Template.Job.{StratumJob}
use solo_pool_rs.Template.Target.{difficulty_to_target}
use solo_pool_rs.Template.PrevHash.{Hex, swap_words}

unfoldable pub difficulty_to_sv2_target : ℕ → Bytes
difficulty_to_sv2_target difficulty = reverse (difficulty_to_target difficulty)

unfoldable pub sv2_target_le : Bytes → Bytes → Bool
sv2_target_le a b = bytes_le (reverse a) (reverse b)

unfoldable pub stratum_prevhash_to_internal : Hex → Bytes → Option Bytes
stratum_prevhash_to_internal hex stratum_hex = elim (hex.decode stratum_hex) [
  | none ↦ none
  | some bytes ↦ if length bytes == 32 then some (swap_words bytes) else none
]

-- `NewExtendedMiningJob`; `min_ntime` is absent in a future job.
pub record NewExtendedMiningJob : Type 0 where
  pub channel_id : ℕ
  pub job_id : ℕ
  pub min_ntime : Option ℕ
  pub version : ℕ
  pub version_rolling_allowed : Bool
  pub merkle_path : List Bytes
  pub coinbase_tx_prefix : Bytes
  pub coinbase_tx_suffix : Bytes

pub record SetNewPrevHash : Type 0 where
  pub channel_id : ℕ
  pub job_id : ℕ
  pub prev_hash : Bytes
  pub min_ntime : ℕ
  pub nbits : ℕ

-- What the wire types of `binary_sv2` take: `Seq0255Owned::new` and `B064KOwned::try_from`.
pub record WireTypes : Type 0 where
  pub seq0255 : List Bytes → Bool
  pub b064k : Bytes → Bool

unfoldable pub build_new_extended_job :
    WireTypes → StratumJob → ℕ → ℕ → Bool → Option NewExtendedMiningJob
build_new_extended_job types job channel_id job_id future =
    if not (types.seq0255 job.merkle_branch_raw)
      || not (types.b064k job.coinbase1)
      || not (types.b064k job.coinbase2)
    then none
    else some (record {
      channel_id = channel_id;
      job_id = job_id;
      min_ntime = if future then none else some job.cur_time;
      version = job.version;
      version_rolling_allowed = true;
      merkle_path = job.merkle_branch_raw;
      coinbase_tx_prefix = job.coinbase1;
      coinbase_tx_suffix = job.coinbase2;
    })

unfoldable pub build_set_new_prev_hash : Hex → StratumJob → ℕ → ℕ → Option SetNewPrevHash
build_set_new_prev_hash hex job channel_id job_id =
    elim (stratum_prevhash_to_internal hex job.prev_hash) [
      | none ↦ none
      | some prev ↦ elim (u32_from_hex job.bits) [
        | none ↦ none
        | some nbits ↦ some (record {
          channel_id = channel_id;
          job_id = job_id;
          prev_hash = prev;
          min_ntime = job.cur_time;
          nbits = nbits;
        })
      ]
    ]
