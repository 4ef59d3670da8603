-- ===== src/Tests/Engine.antt =====
-- The theorems on the engine, at a run of one refresh and at a node that is down once.
use solo_pool_rs.Prelude.{ℕ, ◌≡◌, refl, true, false, some, [], ◌∷◌, ◌==◌, if◌then◌else◌}
use solo_pool_rs.Prelude.Bytes.{Bytes, bytes_eq}
use solo_pool_rs.Prelude.Words.{u32_from_hex}
use solo_pool_rs.Error.{Result, ok, err, panic, other}
use solo_pool_rs.Template.Job.{StratumJob}
use solo_pool_rs.Template.Merkle.{compute_merkle_branch_raw}
use solo_pool_rs.Template.PrevHash.{stratum_prev_hash, swap_words}
use solo_pool_rs.Template.Target.{bits_to_target}
use solo_pool_rs.Template.Coinbase.{
  build_coinbase, find_bytes, encode_bip34_height, script_sig, blank,
}
use solo_pool_rs.Template.Build.{build_job, all_txids}
use solo_pool_rs.Validator.{JobEntry}
use solo_pool_rs.Engine.{RefreshInput, PoolConfig, new, find_job, run, submit_found_block}
use solo_pool_rs.Engine.Tip.{IsValid, initial-IsValid, run-IsValid, find_job_on_tip}
use solo_pool_rs.Engine.Submission.{Ending, submit_found_block-Ending}
use solo_pool_rs.Tests.Doubles.{length_digest, plain_hex, plain_bitcoin, all_bytes}
use solo_pool_rs.Tests.Template.{template, small_job}

abbrev pub cfg : PoolConfig
cfg = record { coinbase_tag = b'/' ∷ []; extranonce1_size = 4; extranonce2_size = 8 }

abbrev pub job_id : Bytes
job_id = b'1' ∷ []

abbrev pub tick : RefreshInput
tick = record {
  clean_jobs = false;
  coinbase_address = some (7 ∷ []);
  template = ok template;
  job_id = job_id;
  now = 42;
}

run-IsValid_example : IsValid (run length_digest plain_hex plain_bitcoin cfg (tick ∷ tick ∷ []) new)
run-IsValid_example =
    run-IsValid length_digest plain_hex plain_bitcoin cfg (tick ∷ tick ∷ []) new initial-IsValid

abbrev job_or : StratumJob → Result StratumJob → StratumJob
job_or default (ok job) = job
job_or default (err e) = default
job_or default panic = default

abbrev pub built_job : StratumJob
built_job =
    job_or small_job
      (build_job length_digest plain_hex plain_bitcoin job_id template (7 ∷ []) (b'/' ∷ []) 4 8)

abbrev first_entry : JobEntry
first_entry = record { job = built_job; clean = true; superseded_by_clean = false }

found_first :
    find_job job_id (run length_digest plain_hex plain_bitcoin cfg (tick ∷ []) new)
    ≡ some first_entry
unfolding find_job run new build_job build_coinbase find_bytes encode_bip34_height script_sig blank
    all_txids all_bytes compute_merkle_branch_raw stratum_prev_hash swap_words bits_to_target
    u32_from_hex bytes_eq
found_first = refl

find_job_on_tip_example :
    (built_job.job_id ≡ job_id)
    × ((current : StratumJob) × ((run length_digest plain_hex plain_bitcoin cfg
            (tick ∷ [])
            new).current_job
          ≡ some current)
        × (built_job.prev_hash ≡ current.prev_hash))
find_job_on_tip_example =
    find_job_on_tip length_digest plain_hex plain_bitcoin cfg (tick ∷ []) job_id first_entry
      found_first refl

-- A node that is down at the first attempt only.
abbrev answers : ℕ → Result (Unit {0})
answers k = if k == 1 then err other else ok tt

submit_found_block-Ending_example : Ending answers (submit_found_block answers)
submit_found_block-Ending_example = submit_found_block-Ending answers
