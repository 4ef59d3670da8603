-- ===== src/Template/Job.antt =====
-- `StratumJob`, the coinbase that a share completes, and the merkle root over it.
-- SHA-256 (crate `sha2`) is a parameter of what hashes.
pub mod Splice
use solo_pool_rs.Prelude.{
  ℕ, ◌+◌, ◌≡◌, Bool, List, [], ◌∷◌, ◌++◌, length, take, drop, leb, ◌==◌, if◌then◌else◌,
}
use solo_pool_rs.Prelude.Bytes.{Bytes}
use solo_pool_rs.Error.{Result, ok, err, panic, ◌>>=◌}

-- A hash array `[u8; 32]` is its bytes, first byte first; texts are their UTF-8 bytes.
pub record StratumJob : Type 0 where
  pub job_id : Bytes
  pub prev_hash : Bytes
  pub coinbase1 : Bytes
  pub coinbase2 : Bytes
  pub merkle_branch : List Bytes
  pub merkle_branch_raw : List Bytes
  pub version : ℕ
  pub bits : Bytes
  pub cur_time : ℕ
  pub min_time : ℕ
  pub height : ℕ
  pub network_target : Bytes
  pub coinbase_template : Bytes
  pub extranonce_offset : ℕ
  pub extranonce1_len : ℕ
  pub extranonce2_len : ℕ
  pub transactions : List Bytes
  pub coinbase_value : ℕ

-- `dst[at..at + src.len()].copy_from_slice(src)`; a range past the end panics.
unfoldable pub copy_into : Bytes → ℕ → Bytes → Result Bytes
copy_into dst at src =
    if leb (at + length src) (length dst)
    then ok (take at dst ++ (src ++ drop (at + length src) dst))
    else panic

unfoldable pub assemble_coinbase : StratumJob → Bytes → Bytes → Result Bytes
assemble_coinbase job extranonce1 extranonce2 =
    let off = job.extranonce_offset in
    let total = job.extranonce1_len + job.extranonce2_len in
    let p = length extranonce1 in
    let m = length extranonce2 in
    if p + m == total
    then (copy_into job.coinbase_template off extranonce1 >>= λ cb.
        copy_into cb (off + p) extranonce2)
    else ok job.coinbase_template

module _ (sha256 : Bytes → Bytes) where
  unfoldable pub double_sha256 : Bytes → Bytes
  double_sha256 input = sha256 (sha256 input)

  -- `merkle_root`'s loop over the branch.
  unfoldable pub fold_branch : Bytes → List Bytes → Bytes
  fold_branch hash [] = hash
  fold_branch hash (branch ∷ rest) = fold_branch (double_sha256 (hash ++ branch)) rest

  unfoldable pub merkle_root : StratumJob → Bytes → Bytes
  merkle_root job coinbase = fold_branch (double_sha256 coinbase) job.merkle_branch_raw
