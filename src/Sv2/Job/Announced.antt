-- ===== src/Sv2/Job/Announced.antt =====
-- What an SV2 device is told of a job is what the pool checks its shares against.
use solo_pool_rs.Prelude.{
  ℕ, ◌+◌, ◌≡◌, ◌∙◌, refl, ap, ap₂, sym, Bool, true, some, ◌++◌, reverse, length, ◌==◌, arith,
  Option-cases, inl, inr, length-reverse, ==_iff,
}
use solo_pool_rs.Prelude.Bytes.{Bytes, to_le_bytes, reverse-IsByte}
use solo_pool_rs.Prelude.Words.{u32_from_hex}
use solo_pool_rs.Error.{ok}
use solo_pool_rs.Template.Job.{
  StratumJob, assemble_coinbase, double_sha256, fold_branch, merkle_root,
}
use solo_pool_rs.Template.Job.Splice.{IsSplit, assemble_coinbase_lem}
use solo_pool_rs.Template.PrevHash.{Hex, stratum_prev_hash, swap_words}
use solo_pool_rs.Template.PrevHash.Swap.{
  HexLaws, swap_words-swap_words, length-swap_words, swap_words-IsByte,
}
use solo_pool_rs.Validator.{ShareParams, share_header, resolve_version}
use solo_pool_rs.Validator.Header.{stratum_prev_hash-encodes, build_header_lem}
use solo_pool_rs.Validator.Verdict.{Sha256Laws}
use solo_pool_rs.Validator.Sound.{length-merkle_root}
use solo_pool_rs.Sv2.Job.{
  NewExtendedMiningJob, SetNewPrevHash, WireTypes, build_new_extended_job,
  stratum_prevhash_to_internal, build_set_new_prev_hash,
}

-- The header that a device hashes, made of the two messages of a job and of the channel's prefix,
-- with an extranonce, a version, a time and a nonce of its own.
unfoldable pub device_coinbase : NewExtendedMiningJob → Bytes → Bytes → Bytes
device_coinbase job prefix extranonce =
    job.coinbase_tx_prefix ++ (prefix ++ (extranonce ++ job.coinbase_tx_suffix))

unfoldable pub device_header :
    (Bytes → Bytes) → NewExtendedMiningJob → SetNewPrevHash → Bytes → Bytes → ℕ → ℕ → ℕ → Bytes
unfolding device_coinbase fold_branch double_sha256
device_header sha256 job tip prefix extranonce version ntime nonce =
    to_le_bytes 4 version
    ++ (tip.prev_hash
        ++ (fold_branch sha256 (double_sha256 sha256 (device_coinbase job prefix extranonce))
              job.merkle_path
            ++ (to_le_bytes 4 ntime ++ (to_le_bytes 4 tip.nbits ++ to_le_bytes 4 nonce))))

module _ (sha256 : Bytes → Bytes) (sha_laws : Sha256Laws sha256) (hex : Hex)
    (laws : HexLaws hex) where
  internal-prev_hash :
      (core_hex p b : Bytes)
      → hex.decode core_hex ≡ some b
      → stratum_prev_hash hex core_hex ≡ ok p
      → stratum_prevhash_to_internal hex p ≡ some (reverse b)
  unfolding stratum_prevhash_to_internal
  internal-prev_hash core_hex p b d e =
      rw (stored, stratum_prevhash_to_internal, swapped, swap_words-swap_words (reverse b)) refl
    where
      known : (length b ≡ 32) × (p ≡ hex.encode (swap_words (reverse b)))
      known = stratum_prev_hash-encodes hex core_hex p b d e

      stored : hex.decode p ≡ some (swap_words (reverse b))
      stored =
          ap hex.decode known.1
          ∙ laws.decode-encode (swap_words (reverse b))
              (swap_words-IsByte (reverse b) (reverse-IsByte b (laws.decode-IsByte core_hex b d)))

      swapped : (length (swap_words (reverse b)) == 32) ≡ true
      swapped =
          (==_iff (length (swap_words (reverse b))) 32).1
            (length-swap_words (reverse b) ∙ length-reverse b ∙ known.0)

  -- What the two messages of a job carry.
  messages-carry :
      (types : WireTypes) (job : StratumJob) (channel_id job_id : ℕ) (future : Bool)
      (nj : NewExtendedMiningJob)
      → build_new_extended_job types job channel_id job_id future ≡ some nj
      → (nj.merkle_path ≡ job.merkle_branch_raw)
        × (nj.coinbase_tx_prefix ≡ job.coinbase1)
        × (nj.coinbase_tx_suffix ≡ job.coinbase2)
  unfolding build_new_extended_job
  messages-carry types job channel_id job_id future nj e = ground arith

  prev_hash-carries :
      (job : StratumJob) (channel_id job_id : ℕ) (tip : SetNewPrevHash) (prev : Bytes)
      → stratum_prevhash_to_internal hex job.prev_hash ≡ some prev
      → build_set_new_prev_hash hex job channel_id job_id ≡ some tip
      → (tip.prev_hash ≡ prev) × (u32_from_hex job.bits ≡ some tip.nbits)
  unfolding build_set_new_prev_hash
  prev_hash-carries job channel_id job_id tip prev e f =
      elim (Option-cases (u32_from_hex job.bits)) [
        | inl absent ↦ absurd (ground (arith, e, absent))
        | inr (nbits, present) ↦ ground (arith, e, present)
      ]

  -- The fields of the pool's header are those of the device's.
  same_header :
      (job : StratumJob) (nj : NewExtendedMiningJob) (tip : SetNewPrevHash)
      (prefix extranonce prev : Bytes) (version ntime nonce : ℕ)
      → nj.merkle_path ≡ job.merkle_branch_raw
      → tip.prev_hash ≡ prev
      → to_le_bytes 4 version
          ++ (prev
              ++ (merkle_root sha256 job (device_coinbase nj prefix extranonce)
                  ++ (to_le_bytes 4 ntime ++ (to_le_bytes 4 tip.nbits ++ to_le_bytes 4 nonce))))
        ≡ device_header sha256 nj tip prefix extranonce version ntime nonce
  unfolding device_header merkle_root
  same_header job nj tip prefix extranonce prev version ntime nonce path same =
      ap₂
        (λ branch hash.
          to_le_bytes 4 version
          ++ (hash
              ++ (fold_branch sha256 (double_sha256 sha256 (device_coinbase nj prefix extranonce))
                    branch
                  ++ (to_le_bytes 4 ntime ++ (to_le_bytes 4 tip.nbits ++ to_le_bytes 4 nonce)))))
        (sym path) (sym same)

  -- A device's coinbase is the one that the pool assembles.
  device_coinbase-assembled :
      (job : StratumJob) (nj : NewExtendedMiningJob) (prefix extranonce : Bytes)
      → IsSplit job
      → length prefix + length extranonce ≡ job.extranonce1_len + job.extranonce2_len
      → nj.coinbase_tx_prefix ≡ job.coinbase1
      → nj.coinbase_tx_suffix ≡ job.coinbase2
      → assemble_coinbase job prefix extranonce ≡ ok (device_coinbase nj prefix extranonce)
  unfolding device_coinbase
  device_coinbase-assembled job nj prefix extranonce split fits front back =
      assemble_coinbase_lem job prefix extranonce split ∙ rw (front, back) (ground (arith, fits))

  -- An SV2 device that hashes a header of the job's two messages, of its channel's prefix and of an
  -- extranonce which together fill the reserved region, hashes the header that the pool judges the
  -- share by, whatever the nonce and the time are, where it rolls only version bits that the mask
  -- lets it roll.
  pub device_header-share_header :
      (types : WireTypes) (job : StratumJob) (core_hex b : Bytes) (channel_id job_id : ℕ)
      (future : Bool) (nj : NewExtendedMiningJob) (tip : SetNewPrevHash) (prefix : Bytes)
      (params : ShareParams) (version : ℕ)
      → hex.decode core_hex ≡ some b
      → stratum_prev_hash hex core_hex ≡ ok job.prev_hash
      → IsSplit job
      → build_new_extended_job types job channel_id job_id future ≡ some nj
      → build_set_new_prev_hash hex job channel_id job_id ≡ some tip
      → length prefix + length params.extranonce2 ≡ job.extranonce1_len + job.extranonce2_len
      → resolve_version job.version params.version_bits params.version_rolling_mask ≡ ok version
      → share_header sha256 hex params job prefix
        ≡ ok (
          device_header sha256 nj tip prefix params.extranonce2 version params.ntime params.nonce,
          device_coinbase nj prefix params.extranonce2,
        )
  unfolding share_header device_header
  device_header-share_header types job core_hex b channel_id job_id future nj tip prefix params
        version decoded announced split made told fits rolled =
      let (path, front, back) = messages-carry types job channel_id job_id future nj made in
      let internal = internal-prev_hash core_hex job.prev_hash b decoded announced in
      let (prev, bits) = prev_hash-carries job channel_id job_id tip (reverse b) internal told in
      let coinbase = device_coinbase nj prefix params.extranonce2 in
      let (header, built, fields, _) =
        build_header_lem hex laws version core_hex job.prev_hash b (merkle_root sha256 job coinbase)
          params.ntime job.bits tip.nbits params.nonce decoded announced bits
          (length-merkle_root sha256 sha_laws job coinbase) in
      rw
        (
          share_header,
          device_coinbase-assembled job nj prefix params.extranonce2 split fits front back,
          rolled,
          built,
        )
        (ap (λ x. ok (x, coinbase))
          (fields
            ∙ same_header job nj tip prefix params.extranonce2 (reverse b) version params.ntime
                params.nonce path prev))
