-- ===== src/Template/Build.antt =====
-- `build_job` and the job ids.
pub mod Split
use solo_pool_rs.Prelude.{
  ℕ, zero, suc, ◌+◌, ◌-◌, ◌*◌, ◌/◌, ◌%◌, ◌^◌, Option, none, some, List, [], ◌∷◌, ◌++◌, map, reverse,
  length, take, drop, bit_and, bit_or, ltb, leb, ◌==◌, if◌then◌else◌,
}
use solo_pool_rs.Prelude.Bytes.{Bytes}
use solo_pool_rs.Prelude.HexText.{format_hex}
use solo_pool_rs.Error.{Result, ok, err, panic, ◌>>=◌, other}
use solo_pool_rs.Template.PrevHash.{Hex, stratum_prev_hash}
use solo_pool_rs.Template.Coinbase.{BitcoinCrate, build_coinbase}
use solo_pool_rs.Template.Merkle.{compute_merkle_branch_raw}
use solo_pool_rs.Template.Target.{bits_to_target}
use solo_pool_rs.Template.Job.{StratumJob}

-- `GbtTransaction` and `GbtResult`, by the fields that a job is built from.
pub record GbtTransaction : Type 0 where
  pub payload : Bytes
  pub txid : Bytes

pub record GbtResult : Type 0 where
  pub version : ℕ
  pub prev_hash : Bytes
  pub transactions : List GbtTransaction
  pub coinbase_value : ℕ
  pub bits : Bytes
  pub height : ℕ
  pub cur_time : ℕ
  pub min_time : ℕ
  pub default_witness_commitment : Option Bytes

-- `job_epoch` at the first call's clock, in milliseconds.
unfoldable pub job_epoch : ℕ → ℕ
job_epoch millis = bit_and millis 0xffff_ffff * 2 ^ 32

-- `next_job_id` at a value of the counter, which the call raises by 1.
unfoldable pub next_job_id : ℕ → ℕ → Bytes × ℕ
next_job_id epoch counter =
    (format_hex 16 (bit_or epoch (bit_and counter 0xffff_ffff)), (counter + 1) % 2 ^ 64)

module _ (sha256 : Bytes → Bytes) (hex : Hex) (bitcoin : BitcoinCrate) where
  txid_bytes : GbtTransaction → Result Bytes
  txid_bytes tx = elim (hex.decode tx.txid) [
    | none ↦ err other
    | some b ↦ if length b == 32 then ok (reverse b) else err other
  ]

  -- `.map(..).collect::<Result<Vec<_>, _>>()`.
  unfoldable pub all_txids : List GbtTransaction → Result (List Bytes)
  unfolding txid_bytes
  all_txids [] = ok []
  all_txids (tx ∷ txs) = do id ← txid_bytes tx; ids ← all_txids txs; ok (id ∷ ids)

  -- `coinbase_bytes[at..].to_vec()` panics past the end.
  slice_from : ℕ → Bytes → Result Bytes
  slice_from at bytes = if leb at (length bytes) then ok (drop at bytes) else panic

  unfoldable pub build_job : Bytes → GbtResult → Bytes → Bytes → ℕ → ℕ → Result StratumJob
  unfolding slice_from
  build_job job_id gbt coinbase_address coinbase_tag extranonce1_len extranonce2_len = do
    (coinbase_bytes, extranonce_offset) ←
        build_coinbase hex bitcoin gbt.height gbt.coinbase_value coinbase_address coinbase_tag
          extranonce1_len extranonce2_len gbt.default_witness_commitment
    coinbase2 ← slice_from (extranonce_offset + (extranonce1_len + extranonce2_len)) coinbase_bytes
    tx_txids ← all_txids gbt.transactions
    prev_hash_stratum ← stratum_prev_hash hex gbt.prev_hash
    network_target ← bits_to_target gbt.bits
    let merkle_branch_raw = compute_merkle_branch_raw sha256 tx_txids
    ok (record {
      job_id = job_id;
      prev_hash = prev_hash_stratum;
      coinbase1 = take extranonce_offset coinbase_bytes;
      coinbase2 = coinbase2;
      merkle_branch = map hex.encode merkle_branch_raw;
      merkle_branch_raw = merkle_branch_raw;
      version = gbt.version;
      bits = gbt.bits;
      cur_time = gbt.cur_time;
      min_time = gbt.min_time;
      height = gbt.height;
      network_target = network_target;
      coinbase_template = coinbase_bytes;
      extranonce_offset = extranonce_offset;
      extranonce1_len = extranonce1_len;
      extranonce2_len = extranonce2_len;
      transactions = map (λ tx. tx.payload) gbt.transactions;
      coinbase_value = gbt.coinbase_value;
    })
