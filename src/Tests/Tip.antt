-- ===== src/Tests/Tip.antt =====
-- A share that a session counts on the job of an engine's first refresh.
use solo_pool_rs.Prelude.{◌+◌, ◌≡◌, ◌⊎◌, refl, none, some, [], ◌∷◌}
use solo_pool_rs.Prelude.Bytes.{bytes_eq, bytes_le, to_le_bytes}
use solo_pool_rs.Prelude.Words.{u32_from_hex}
use solo_pool_rs.Error.{Result, ok, err, panic, Returns}
use solo_pool_rs.Template.Job.{
  StratumJob, assemble_coinbase, copy_into, double_sha256, fold_branch, merkle_root,
}
use solo_pool_rs.Template.Merkle.{compute_merkle_branch_raw}
use solo_pool_rs.Template.PrevHash.{stratum_prev_hash, swap_words}
use solo_pool_rs.Template.Target.{bits_to_target, hash_to_difficulty}
use solo_pool_rs.Template.Coinbase.{
  build_coinbase, find_bytes, encode_bip34_height, script_sig, blank,
}
use solo_pool_rs.Template.Build.{build_job, all_txids}
use solo_pool_rs.Validator.{
  JobEntry, validate_share_no_dedup, check_ntime, share_header, resolve_version, build_header,
  judge, meets_target, assemble_block_hex, encode_varint, concat, block_bytes,
}
use solo_pool_rs.Validator.Shares.{member}
use solo_pool_rs.Engine as Engine
use solo_pool_rs.Engine.{find_job, run}
use solo_pool_rs.Session.State.{Session, Handled, unchanged, messages, new}
use solo_pool_rs.Session.Submit.{SubmitInput, handle_submit}
use solo_pool_rs.Session.Submit.Credited.{IsCredited, submit-IsCredited, credited-on_tip}
use solo_pool_rs.Session.Submit.Settled.{IsUncounted}
use solo_pool_rs.Sv1.Parse.{SubmitParams}
use solo_pool_rs.Tests.Doubles.{fixed, length_digest, plain_hex, plain_bitcoin, all_bytes}
use solo_pool_rs.Tests.Engine.{cfg, tick, job_id, built_job}
use solo_pool_rs.Tests.Handlers.{mining}
use solo_pool_rs.Tests.Json.{plain_json, sizes, Tree}

abbrev pub input : SubmitInput
input = record {
  engine = Engine.run length_digest plain_hex plain_bitcoin cfg (tick ∷ []) Engine.new;
  now = 3;
  answers = λ k. ok tt;
}

abbrev submitted : SubmitParams
submitted = record {
  worker = b'w' ∷ [];
  job_id = job_id;
  extranonce2 = 1 ∷ 2 ∷ 3 ∷ 4 ∷ 5 ∷ 6 ∷ 7 ∷ 8 ∷ [];
  ntime = built_job.cur_time;
  nonce = 7;
  version_bits = none;
}

abbrev miner : Session fixed
miner = record mining { extranonce1 = 0 ∷ 0 ∷ 0 ∷ 1 ∷ []; extranonce2_size = 8 }

abbrev handled_or : Handled fixed Tree → Result (Handled fixed Tree) → Handled fixed Tree
handled_or default (ok h) = h
handled_or default (err e) = default
handled_or default panic = default

abbrev outcome : Handled fixed Tree
outcome = handled_or (unchanged fixed (messages []) miner) (
    handle_submit fixed plain_json plain_hex sizes length_digest input (plain_json.number 1)
      submitted miner)

answered :
    handle_submit fixed plain_json plain_hex sizes length_digest input
      (plain_json.number 1)
      submitted
      miner
    ≡ ok outcome
unfolding handle_submit find_job run Engine.new build_job build_coinbase find_bytes
    encode_bip34_height script_sig blank all_txids all_bytes compute_merkle_branch_raw
    stratum_prev_hash swap_words bits_to_target u32_from_hex bytes_eq validate_share_no_dedup
    check_ntime share_header assemble_coinbase merkle_root resolve_version build_header judge
    copy_into double_sha256 fold_branch meets_target bytes_le to_le_bytes assemble_block_hex
    hash_to_difficulty encode_varint concat block_bytes new member
answered = refl

counted : outcome.session.shares_accepted ≡ miner.shares_accepted + 1
unfolding handle_submit find_job run Engine.new build_job build_coinbase find_bytes
    encode_bip34_height script_sig blank all_txids all_bytes compute_merkle_branch_raw
    stratum_prev_hash swap_words bits_to_target u32_from_hex bytes_eq validate_share_no_dedup
    check_ntime share_header assemble_coinbase merkle_root resolve_version build_header judge
    copy_into double_sha256 fold_branch meets_target bytes_le to_le_bytes assemble_block_hex
    hash_to_difficulty encode_varint concat block_bytes new member
counted = refl

credited-on_tip_example :
    (entry : JobEntry) × (current : StratumJob) × (find_job job_id input.engine ≡ some entry)
    × (entry.job.job_id ≡ job_id)
    × (input.engine.current_job ≡ some current)
    × (entry.job.prev_hash ≡ current.prev_hash)
credited-on_tip_example =
    credited-on_tip fixed plain_json plain_hex sizes length_digest plain_bitcoin cfg (tick ∷ [])
      input (plain_json.number 1) submitted miner outcome refl answered counted

submit-IsCredited_example :
    Returns
      (λ h.
        IsCredited fixed plain_json plain_hex sizes length_digest input
          (plain_json.number 1)
          submitted
          miner
          h
        ⊎ IsUncounted fixed plain_json sizes (plain_json.number 1) miner h)
      (handle_submit fixed plain_json plain_hex sizes length_digest input
        (plain_json.number 1)
        submitted
        miner)
submit-IsCredited_example =
    submit-IsCredited fixed plain_json plain_hex sizes length_digest input (plain_json.number 1)
      submitted miner
