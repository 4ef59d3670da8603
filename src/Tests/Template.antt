-- ===== src/Tests/Template.antt =====
-- The theorems on jobs, at concrete inputs.
use solo_pool_rs.Prelude.{
  ℕ, ◌+◌, ◌*◌, ◌/◌, ◌^◌, ◌<◌, ◌≤◌, ◌≡◌, ◌≢◌, ◌⊎◌, refl, max, none, some, List, [], ◌∷◌, ◌++◌,
  length, replicate, arith, if◌then◌else◌, ◌==◌,
}
use solo_pool_rs.Prelude.Bytes.{Bytes, IsByte, value_be}
use solo_pool_rs.Prelude.All.{All}
use solo_pool_rs.Error.{ok, err, other, Safe}
use solo_pool_rs.Template.Job.{StratumJob, assemble_coinbase, double_sha256, merkle_root}
use solo_pool_rs.Template.Job.Splice.{IsSplit, assemble_coinbase_lem}
use solo_pool_rs.Template.Merkle.{compute_merkle_branch_raw}
use solo_pool_rs.Template.Merkle.Root.{MerkleRoot, merkle_root-MerkleRoot}
use solo_pool_rs.Template.Target.{difficulty_to_target, compact_to_target}
use solo_pool_rs.Template.Target.Division.{diff1, value_be-difficulty_to_target}
use solo_pool_rs.Template.Target.Compact.{compact_to_target_lem}
use solo_pool_rs.Template.Coinbase.{encode_bip34_height, build_coinbase}
use solo_pool_rs.Template.Coinbase.Height.{read_height, read_height-encode}
use solo_pool_rs.Template.Coinbase.Sentinel.{HasRegion, build_coinbase-Safe}
use solo_pool_rs.Template.Build.{GbtResult, build_job}
use solo_pool_rs.Template.Build.Split.{IsBuilt, build_job-IsBuilt}
use solo_pool_rs.Tests.Doubles.{length_digest, plain_hex, plain_bitcoin, plain_bitcoin-EmbedsScript}

abbrev ids : List Bytes
ids = replicate 32 1 ∷ replicate 32 2 ∷ []

-- Two bytes before a region of 1 + 2 bytes, and one after it.
abbrev pub small_job : StratumJob
small_job = record {
  job_id = b'1' ∷ [];
  prev_hash = replicate 32 7;
  coinbase1 = 1 ∷ 2 ∷ [];
  coinbase2 = 9 ∷ [];
  merkle_branch = compute_merkle_branch_raw length_digest ids;
  merkle_branch_raw = compute_merkle_branch_raw length_digest ids;
  version = 0x2000_0000;
  bits = b'1' ∷ b'd' ∷ b'0' ∷ b'0' ∷ b'f' ∷ b'f' ∷ b'f' ∷ b'f' ∷ [];
  cur_time = 1_000;
  min_time = 900;
  height = 17;
  network_target = replicate 32 3;
  coinbase_template = 1 ∷ 2 ∷ 0 ∷ 0 ∷ 0 ∷ 9 ∷ [];
  extranonce_offset = 2;
  extranonce1_len = 1;
  extranonce2_len = 2;
  transactions = [];
  coinbase_value = 5_000_000_000;
}

small_job-IsSplit : IsSplit small_job
small_job-IsSplit = record {
  reserved = 0 ∷ 0 ∷ 0 ∷ [];
  template = refl;
  offset = refl;
  width = refl;
}

assemble_coinbase_lem_example : assemble_coinbase small_job (5 ∷ []) (6 ∷ 7 ∷ []) ≡ (
    if length {A = ℕ} (5 ∷ []) + length {A = ℕ} (6 ∷ 7 ∷ [])
      == small_job.extranonce1_len + small_job.extranonce2_len
    then ok (small_job.coinbase1 ++ ((5 ∷ []) ++ ((6 ∷ 7 ∷ []) ++ small_job.coinbase2)))
    else ok small_job.coinbase_template)
assemble_coinbase_lem_example =
    assemble_coinbase_lem small_job (5 ∷ []) (6 ∷ 7 ∷ []) small_job-IsSplit

merkle_root-MerkleRoot_example :
    MerkleRoot length_digest
      (double_sha256 length_digest (1 ∷ 2 ∷ []) ∷ ids)
      (merkle_root length_digest small_job (1 ∷ 2 ∷ []))
merkle_root-MerkleRoot_example =
    merkle_root-MerkleRoot length_digest small_job (1 ∷ 2 ∷ []) ids refl

value_be-difficulty_to_target_example :
    (value_be (difficulty_to_target 4_096) ≡ diff1 / max 4_096 1)
    × All IsByte (difficulty_to_target 4_096)
    × (length (difficulty_to_target 4_096) ≡ 32)
value_be-difficulty_to_target_example = value_be-difficulty_to_target 4_096 (omega arith)

compact_to_target_lem_example :
    (◌≢◌ {A = ℕ} 0xffff 0 × (32 < 0x1d) × (compact_to_target 0x1d00_ffff ≡ err other))
    ⊎ ((target : Bytes) × (compact_to_target 0x1d00_ffff ≡ ok target)
        × ((◌≡◌ {A = ℕ} 0xffff 0) ⊎ (0x1d ≤ 32))
        × (length target ≡ 32)
        × (value_be target ≡ 0xffff * 256 ^ 0x1d / 256 ^ 3))
compact_to_target_lem_example = compact_to_target_lem 0x1d00_ffff (omega arith)

read_height-encode_example :
    read_height (encode_bip34_height 840_000 ++ (1 ∷ [])) ≡ some (840_000, 1 ∷ [])
read_height-encode_example = read_height-encode 840_000 (1 ∷ []) (omega arith)

build_coinbase-Safe_example :
    Safe
      (HasRegion plain_hex plain_bitcoin plain_bitcoin-EmbedsScript 12)
      (build_coinbase plain_hex plain_bitcoin 840_000 50 (7 ∷ []) (b'/' ∷ []) 4 8 none)
build_coinbase-Safe_example =
    build_coinbase-Safe plain_hex plain_bitcoin plain_bitcoin-EmbedsScript 840_000 50 (7 ∷ [])
      (b'/' ∷ []) 4 8 none

abbrev pub template : GbtResult
template = record {
  version = 0x2000_0000;
  prev_hash = replicate 32 7;
  transactions = record { payload = 4 ∷ 5 ∷ []; txid = replicate 32 9 } ∷ [];
  coinbase_value = 5_000_000_000;
  bits = b'1' ∷ b'd' ∷ b'0' ∷ b'0' ∷ b'f' ∷ b'f' ∷ b'f' ∷ b'f' ∷ [];
  height = 17;
  cur_time = 1_000;
  min_time = 900;
  default_witness_commitment = none;
}

build_job-IsBuilt_example :
    Safe (IsBuilt length_digest plain_hex plain_bitcoin template 4 8) (
      build_job length_digest plain_hex plain_bitcoin (b'1' ∷ []) template (7 ∷ []) (b'/' ∷ []) 4 8)
build_job-IsBuilt_example =
    build_job-IsBuilt length_digest plain_hex plain_bitcoin plain_bitcoin-EmbedsScript (b'1' ∷ [])
      template (7 ∷ []) (b'/' ∷ []) 4 8
