-- ===== src/Tests/Validator.antt =====
-- The theorems on shares, at concrete inputs.
use solo_pool_rs.Prelude.{
  ℕ, ◌*◌, ◌^◌, ◌<◌, ◌≤◌, ◌≡◌, ◌⊎◌, refl, max, true, false, none, some, List, [], ◌∷◌, ◌++◌, length,
  take, drop, reverse, replicate, arith,
}
use solo_pool_rs.Prelude.Bytes.{Bytes, value_le, value_be}
use solo_pool_rs.Error.{ok, err, invalid_params, low_difficulty}
use solo_pool_rs.Prelude.Words.{u32_from_hex}
use solo_pool_rs.Template.PrevHash.{swap_words, stratum_prev_hash}
use solo_pool_rs.Template.Job.{StratumJob, double_sha256}
use solo_pool_rs.Template.Target.{hash_to_difficulty}
use solo_pool_rs.Template.Target.Division.{diff1}
use solo_pool_rs.Template.Target.{bits_to_target}
use solo_pool_rs.Template.Merkle.{compute_merkle_branch_raw}
use solo_pool_rs.Template.Build.{GbtResult, all_txids}
use solo_pool_rs.Template.Build.Split.{IsBuilt}
use solo_pool_rs.Tests.Doubles.{plain_bitcoin}
use solo_pool_rs.Template.Job.{assemble_coinbase, merkle_root, copy_into, fold_branch}
use solo_pool_rs.Prelude.Bytes.{bytes_le, to_le_bytes}
use solo_pool_rs.Prelude.Words.{u64_max}
use solo_pool_rs.Validator.{share_header}
use solo_pool_rs.Validator.{
  ShareParams, JobEntry, ShareResult, valid, block, check_ntime, mask_or_default, resolve_version,
  meets_target, encode_varint, concat, build_header, block_bytes, assemble_block_hex, judge,
  validate_share_no_dedup,
}
use solo_pool_rs.Validator.Version.{HasBitOutside, IsRolled, resolve_version_lem}
use solo_pool_rs.Validator.Varint.{read_varint, block_bytes_lem}
use solo_pool_rs.Validator.Header.{HasFields, build_header_lem}
use solo_pool_rs.Validator.Verdict.{judge_lem}
use solo_pool_rs.Validator.Sound.{IsAccepted, validate-IsAccepted}
use solo_pool_rs.Validator.Panic.{validate-NoPanic}
use solo_pool_rs.Error.{NoPanic}
use solo_pool_rs.Validator.Shares.{new, clear}
use solo_pool_rs.Validator.Shares.Invariant.{new-IsValid}
use solo_pool_rs.Validator.Shares.History.{outcomes, firsts, outcomes-clear}
use solo_pool_rs.Tests.Doubles.{
  length_digest, length_digest-Sha256Laws, plain_hex, all_bytes, plain_hex-HexLaws,
}
use solo_pool_rs.Tests.Template.{small_job}

resolve_version_lem_example :
    (resolve_version 0x2000_0000 none none ≡ ok 0x2000_0000)
    × ((HasBitOutside 0x2000 (mask_or_default none)
          × (resolve_version 0x2000_0000 (some 0x2000) none ≡ err (invalid_params "mining.submit")))
        ⊎ (¬ HasBitOutside 0x2000 (mask_or_default none)
            × ((v : ℕ) × (resolve_version 0x2000_0000 (some 0x2000) none ≡ ok v)
                × (v < 2 ^ 32)
                × IsRolled 0x2000_0000 0x2000 (mask_or_default none) v)))
resolve_version_lem_example =
    resolve_version_lem 0x2000_0000 0x2000 none (omega arith) (omega arith)
      (unfold mask_or_default in omega arith)

abbrev txs : List Bytes
txs = (4 ∷ 5 ∷ []) ∷ []

block_bytes_lem_example :
    (take 80 (block_bytes plain_hex (replicate 80 1) (2 ∷ []) txs) ≡ replicate 80 1)
    × (read_varint (drop 80 (block_bytes plain_hex (replicate 80 1) (2 ∷ []) txs))
        ≡ some (2, (2 ∷ []) ++ concat txs))
block_bytes_lem_example = block_bytes_lem plain_hex (replicate 80 1) (2 ∷ []) txs refl (omega arith)

abbrev a_share : ShareResult
a_share = valid 512 600 (replicate 32 1)

decodes : plain_hex.decode (replicate 32 7) ≡ some (replicate 32 7)
unfolding all_bytes
decodes = refl

pub prev_decodes : stratum_prev_hash plain_hex (replicate 32 7) ≡ ok (replicate 32 7)
unfolding all_bytes stratum_prev_hash swap_words
prev_decodes = refl

bits_read : u32_from_hex small_job.bits ≡ some 0x1d00_ffff
unfolding u32_from_hex
bits_read = refl

build_header_lem_example :
    (header : Bytes) × (build_header plain_hex 1
        (replicate 32 7)
        (replicate 32 5)
        950
        small_job.bits
        3
      ≡ ok header)
    × HasFields 1 (reverse (replicate 32 7)) (replicate 32 5) 950 0x1d00_ffff 3 header
    × (length header ≡ 80)
build_header_lem_example =
    build_header_lem plain_hex plain_hex-HexLaws 1 (replicate 32 7) (replicate 32 7)
      (replicate 32 7) (replicate 32 5) 950 small_job.bits 0x1d00_ffff 3 decodes prev_decodes
      bits_read refl

judge_lem_example :
    let h = double_sha256 length_digest (1 ∷ []) in
    let verdict = judge length_digest plain_hex (1 ∷ []) (2 ∷ []) small_job 512 in
    ((value_le h ≤ value_be small_job.network_target)
      × (verdict
          ≡ ok (
              block
                (hash_to_difficulty h)
                (assemble_block_hex plain_hex (1 ∷ []) (2 ∷ []) small_job.transactions)
                h)))
    ⊎ ((value_be small_job.network_target < value_le h)
        × (value_le h * max 512 1 ≤ diff1)
        × (verdict ≡ ok (valid 512 (hash_to_difficulty h) h)))
    ⊎ ((value_be small_job.network_target < value_le h)
        × (diff1 < value_le h * max 512 1)
        × (verdict ≡ err low_difficulty))
judge_lem_example =
    judge_lem length_digest length_digest-Sha256Laws plain_hex (1 ∷ []) (2 ∷ []) small_job 512
      (omega arith) (omega arith)

outcomes-clear_example :
    outcomes (clear new) (a_share ∷ a_share ∷ []) ≡ firsts [] (a_share ∷ a_share ∷ [])
unfolding new
outcomes-clear_example = outcomes-clear new (a_share ∷ a_share ∷ []) new-IsValid (omega arith)

-- A template with no transactions, and the job that goes with it.
abbrev pub gbt : GbtResult
gbt = record {
  version = 0x2000_0000;
  prev_hash = replicate 32 7;
  transactions = [];
  coinbase_value = 5_000_000_000;
  bits = small_job.bits;
  height = 17;
  cur_time = 1_000;
  min_time = 900;
  default_witness_commitment = none;
}

abbrev pub tip_job : StratumJob
tip_job = record small_job {
  merkle_branch = [];
  merkle_branch_raw = [];
  network_target = replicate 3 0 ++ (0 ∷ 0xff ∷ 0xff ∷ replicate 26 0);
}

target_read : bits_to_target small_job.bits ≡ ok tip_job.network_target
unfolding bits_to_target u32_from_hex
target_read = refl

pub tip_job-IsBuilt : IsBuilt length_digest plain_hex plain_bitcoin gbt 1 2 tip_job
unfolding all_txids compute_merkle_branch_raw
tip_job-IsBuilt = record {
  split = record { reserved = 0 ∷ 0 ∷ 0 ∷ []; template = refl; offset = refl; width = refl };
  lengths = (refl, refl);
  txids = [];
  decoded = refl;
  branch = refl;
  prev = prev_decodes;
  target = target_read;
  same_bits = refl;
  times = (refl, refl);
}

abbrev pub params : ShareParams
params = record {
  worker = b'w' ∷ [];
  job_id = b'1' ∷ [];
  extranonce2 = 6 ∷ 7 ∷ [];
  ntime = 950;
  nonce = 3;
  version_bits = none;
  version_rolling_mask = none;
}

abbrev pub entry : JobEntry
entry = record { job = tip_job; clean = true; superseded_by_clean = false }

abbrev found_header : Bytes
found_header =
    (0 ∷ 0 ∷ 0 ∷ 32 ∷ [])
    ++ (replicate 32 7
        ++ ((32 ∷ replicate 31 0) ++ (182 ∷ 3 ∷ 0 ∷ 0 ∷ 255 ∷ 255 ∷ 0 ∷ 29 ∷ 3 ∷ 0 ∷ 0 ∷ 0 ∷ [])))

-- The stand-in digest of every header is 32, and so meets the network target.
abbrev found : ShareResult
found =
    block u64_max (found_header ++ (1 ∷ 1 ∷ 2 ∷ 5 ∷ 6 ∷ 7 ∷ 9 ∷ []))
      (length_digest (replicate 32 0))

found_lem :
    validate_share_no_dedup length_digest plain_hex params tip_job entry (5 ∷ []) 512 ≡ ok found
unfolding validate_share_no_dedup check_ntime share_header assemble_coinbase merkle_root
    resolve_version build_header all_bytes judge copy_into double_sha256 fold_branch u32_from_hex
    meets_target bytes_le to_le_bytes swap_words assemble_block_hex hash_to_difficulty encode_varint
    concat block_bytes
found_lem = refl

validate-IsAccepted_example :
    (entry.superseded_by_clean ≡ false)
    × IsAccepted length_digest length_digest-Sha256Laws plain_hex plain_hex-HexLaws plain_bitcoin
        gbt tip_job params
        (5 ∷ [])
        found
validate-IsAccepted_example =
    validate-IsAccepted length_digest length_digest-Sha256Laws plain_hex plain_hex-HexLaws
      plain_bitcoin gbt 1 2 params tip_job entry (5 ∷ []) 512 found tip_job-IsBuilt found_lem

validate-NoPanic_example :
    NoPanic (validate_share_no_dedup length_digest plain_hex params tip_job entry (5 ∷ []) 512)
validate-NoPanic_example =
    validate-NoPanic length_digest plain_hex plain_hex-HexLaws plain_bitcoin gbt 1 2 params tip_job
      entry (5 ∷ []) 512 tip_job-IsBuilt
