-- ===== src/Validator.antt =====
-- src/mining/validator.rs: the checks of a submitted share, the block header and the found block.
pub mod Version
pub mod Varint
pub mod Header
pub mod Verdict
pub mod Sound
pub mod Panic
pub mod Shares
use solo_pool_rs.Prelude.{
  ℕ, ◌+◌, ◌-◌, ◌^◌, ◌%◌, ◌/◌, Bool, true, false, ◌||◌, Option, none, some, List, [], ◌∷◌, ◌++◌,
  length, reverse, bit_and, bit_or, ltb, leb, ◌==◌, if◌then◌else◌,
}
use solo_pool_rs.Prelude.Bits.{not32}
use solo_pool_rs.Prelude.Bytes.{Bytes, bytes_le, to_le_bytes}
use solo_pool_rs.Prelude.Words.{saturating_add_u32, u32_from_hex}
use solo_pool_rs.Error.{
  Result, ok, err, panic, ◌>>=◌, ◌>>◌, invalid_params, invalid_header, stale_job, low_difficulty,
}
use solo_pool_rs.Template.Job.{StratumJob, assemble_coinbase, double_sha256, merkle_root}
use solo_pool_rs.Template.Target.{difficulty_to_target, hash_to_difficulty}
use solo_pool_rs.Template.PrevHash.{Hex, swap_words}

-- `VERSION_ROLLING_MASK`.
abbrev pub version_rolling_mask : ℕ
version_rolling_mask = 0x1fff_e000

pub record ShareParams : Type 0 where
  pub worker : Bytes
  pub job_id : Bytes
  pub extranonce2 : Bytes
  pub ntime : ℕ
  pub nonce : ℕ
  pub version_bits : Option ℕ
  pub version_rolling_mask : Option ℕ

-- `JobEntry` of mining/engine.rs, less its creation time, which nothing reads.
pub record JobEntry : Type 0 where
  pub job : StratumJob
  pub clean : Bool
  pub superseded_by_clean : Bool

-- `ShareResult`: assigned difficulty, hash difficulty and hash; hash difficulty, block hex and hash.
pub data ShareResult : Type 0 where
  valid : ℕ → ℕ → Bytes → ShareResult
  block : ℕ → Bytes → Bytes → ShareResult

unfoldable pub hash : ShareResult → Bytes
hash (valid assigned difficulty h) = h
hash (block difficulty block_hex h) = h

unfoldable pub check_ntime : ℕ → ℕ → ℕ → Result (Unit {0})
check_ntime ntime min_time cur_time =
    if ltb ntime min_time || ltb (saturating_add_u32 cur_time 7200) ntime
    then err (invalid_params "mining.submit")
    else ok tt

-- `negotiated_mask.unwrap_or(VERSION_ROLLING_MASK)`.
unfoldable pub mask_or_default : Option ℕ → ℕ
mask_or_default none = version_rolling_mask
mask_or_default (some mask) = mask

unfoldable pub resolve_version : ℕ → Option ℕ → Option ℕ → Result ℕ
unfolding mask_or_default
resolve_version base_version none negotiated_mask = ok base_version
resolve_version base_version (some bits) negotiated_mask =
    let mask = mask_or_default negotiated_mask in
    if bit_and bits (not32 mask) == 0
    then ok (bit_or (bit_and base_version (not32 mask)) (bit_and bits mask))
    else err (invalid_params "mining.submit")

unfoldable pub meets_target : Bytes → Bytes → Bool
meets_target h target = bytes_le (reverse h) target

unfoldable pub encode_varint : ℕ → Bytes
encode_varint n =
    if ltb n 0xfd
    then (n % 256) ∷ []
    else if leb n 0xffff
    then 0xfd ∷ to_le_bytes 2 (n % 2 ^ 16)
    else if leb n 0xffff_ffff
    then 0xfe ∷ to_le_bytes 4 (n % 2 ^ 32)
    else 0xff ∷ to_le_bytes 8 n

-- `block.extend_from_slice(tx)` for each transaction.
unfoldable pub concat : List Bytes → Bytes
concat [] = []
concat (tx ∷ txs) = tx ++ concat txs

module _ (hex : Hex) where
  -- `header[4..36].copy_from_slice(..)` panics unless there are 32 bytes.
  unfoldable pub build_header : ℕ → Bytes → Bytes → ℕ → Bytes → ℕ → Result Bytes
  build_header version stratum_prev_hash root ntime bits_hex nonce =
      elim (hex.decode stratum_prev_hash) [
        | none ↦ err invalid_header
        | some prev_bytes ↦
            (if length prev_bytes == 32
              then (elim (u32_from_hex bits_hex) [
                | none ↦ err invalid_header
                | some bits ↦ ok (
                    to_le_bytes 4 version
                    ++ (swap_words prev_bytes
                        ++ (root
                            ++ (to_le_bytes 4 ntime
                                ++ (to_le_bytes 4 bits ++ to_le_bytes 4 nonce)))))
              ])
              else panic)
      ]

  -- The block's bytes; the count is a `usize`, cast to u64.
  unfoldable pub block_bytes : Bytes → Bytes → List Bytes → Bytes
  block_bytes header coinbase transactions =
      header ++ (encode_varint (1 + length transactions) ++ (coinbase ++ concat transactions))

  unfoldable pub assemble_block_hex : Bytes → Bytes → List Bytes → Bytes
  unfolding block_bytes
  assemble_block_hex header coinbase transactions =
      hex.encode (block_bytes header coinbase transactions)

module _ (sha256 : Bytes → Bytes) (hex : Hex) where
  -- The header that the share's parameters stand for, with the coinbase inside it.
  unfoldable pub share_header : ShareParams → StratumJob → Bytes → Result (Bytes × Bytes)
  share_header params job extranonce1 = do
    coinbase ← assemble_coinbase job extranonce1 params.extranonce2
    let root = merkle_root sha256 job coinbase
    version ← resolve_version job.version params.version_bits params.version_rolling_mask
    header ← build_header hex version job.prev_hash root params.ntime job.bits params.nonce
    ok (header, coinbase)

  -- Steps 8 to 10: the network target first, then the share target.
  unfoldable pub judge : Bytes → Bytes → StratumJob → ℕ → Result ShareResult
  judge header coinbase job session_difficulty =
      let h = double_sha256 sha256 header in
      let difficulty = hash_to_difficulty h in
      if meets_target h job.network_target
      then ok (block difficulty (assemble_block_hex hex header coinbase job.transactions) h)
      else if meets_target h (difficulty_to_target session_difficulty)
      then ok (valid session_difficulty difficulty h)
      else err low_difficulty

  unfoldable pub validate_share_no_dedup :
      ShareParams → StratumJob → JobEntry → Bytes → ℕ → Result ShareResult
  validate_share_no_dedup params job job_entry extranonce1 session_difficulty =
      if job_entry.superseded_by_clean then err (stale_job params.job_id) else (do
        check_ntime params.ntime job.min_time job.cur_time
        (header, coinbase) ← share_header params job extranonce1
        judge header coinbase job session_difficulty)
