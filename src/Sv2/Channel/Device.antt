-- ===== src/Sv2/Channel/Device.antt =====
-- What an SV2 device hashes for a share that it submits is what the pool judges the share by.
use solo_pool_rs.Prelude.{
  Bool, ℕ, ◌+◌, ◌^◌, ◌<◌, ◌≤◌, ◌≡◌, ◌⊎◌, ◌∙◌, ap, inl, inr, some, arith, bit_and, bit_or, length,
}
use solo_pool_rs.Prelude.Bytes.{Bytes}
use solo_pool_rs.Prelude.Bits.{
  bit, not32, bit-le-one, bit-bit_and, bit-not32, bit_and-lt, bit_or-lt, zero_of_bits, eq_of_bits,
}
use solo_pool_rs.Error.{ok}
use solo_pool_rs.Template.Job.Splice.{IsSplit}
use solo_pool_rs.Template.PrevHash.{Hex, stratum_prev_hash}
use solo_pool_rs.Template.PrevHash.Swap.{HexLaws}
use solo_pool_rs.Validator.{JobEntry, version_rolling_mask, share_header, resolve_version}
use solo_pool_rs.Validator.Version.{rolled}
use solo_pool_rs.Validator.Verdict.{Sha256Laws}
use solo_pool_rs.Vardiff.{F64}
use solo_pool_rs.Sv2.Frame.{SubmitExtended}
use solo_pool_rs.Sv2.Job.{
  NewExtendedMiningJob, SetNewPrevHash, WireTypes, build_new_extended_job, build_set_new_prev_hash,
}
use solo_pool_rs.Sv2.Job.Announced.{device_header, device_coinbase, device_header-share_header}
use solo_pool_rs.Sv2.Channel.{Sv2Session}
use solo_pool_rs.Sv2.Channel.Submit.{share_params}

-- `version` differs from `base` only in bits of the mask.
abbrev pub RollsOnly : ℕ → ℕ → ℕ → Type 0
RollsOnly mask base version = (n : ℕ) → n < 32 → bit n mask ≡ 0 → bit n version ≡ bit n base

masked_inside :
    (version mask : ℕ)
    → version < 2 ^ 32
    → mask < 2 ^ 32
    → bit_and (bit_and version mask) (not32 mask) ≡ 0
masked_inside version mask hv hm =
    zero_of_bits (bit_and (bit_and version mask) (not32 mask))
      (bit_and-lt (bit_and version mask) (not32 mask) (bit_and-lt version mask hv))
      (λ n lt. omega (
        arith,
        bit-bit_and n (bit_and version mask) (not32 mask),
        bit-bit_and n version mask,
        bit-not32 n mask lt hm,
        bit-le-one n mask,
      ))

masked_version :
    (base version mask : ℕ)
    → base < 2 ^ 32
    → version < 2 ^ 32
    → mask < 2 ^ 32
    → RollsOnly mask base version
    → bit_or (bit_and base (not32 mask)) (bit_and (bit_and version mask) mask) ≡ version
masked_version base version mask hb hv hm only =
    eq_of_bits 32 _ version
      (bit_or-lt (bit_and base (not32 mask)) (bit_and (bit_and version mask) mask)
        (bit_and-lt base (not32 mask) hb)
        (bit_and-lt (bit_and version mask) mask (bit_and-lt version mask hv)))
      hv same
  where
    zero_or_one : (x : ℕ) → x ≤ 1 → (x ≡ 0) ⊎ (x ≡ 1)
    zero_or_one x h = ground arith

    same :
        (n : ℕ)
        → n < 32
        → bit n (bit_or (bit_and base (not32 mask)) (bit_and (bit_and version mask) mask))
          ≡ bit n version
    same n lt =
        let r = rolled base (bit_and version mask) mask hm n lt in
        elim (zero_or_one (bit n mask) (bit-le-one n mask)) [
          | inl clear ↦ r.1 clear ∙ omega (arith, only n lt clear)
          | inr set ↦ r.0 set ∙ omega (arith, bit-bit_and n version mask, set, bit-le-one n version)
        ]

-- A device that sends its whole version, of which the pool passes on the masked bits, gets that
-- version back.
resolve_version-masked :
    (base version mask : ℕ)
    → base < 2 ^ 32
    → version < 2 ^ 32
    → mask < 2 ^ 32
    → RollsOnly mask base version
    → resolve_version base (some (bit_and version mask)) (some mask) ≡ ok version
unfolding resolve_version
resolve_version-masked base version mask hb hv hm only =
    rw (masked_inside version mask hv hm) (ap ok (masked_version base version mask hb hv hm only))

module _ (sha256 : Bytes → Bytes) (sha_laws : Sha256Laws sha256) (hex : Hex) (laws : HexLaws hex)
    (f : F64) where
  -- An SV2 device hashes a header made of the two messages of a job, of its channel's prefix, and of
  -- the extranonce, the version, the time and the nonce that it then submits. Where prefix and
  -- extranonce fill the reserved region, and the version differs from the job's only in bits that the
  -- mask lets it roll, the pool makes that same header, and its coinbase, of the submission's
  -- parameters, and so judges the share by the hash that the device computed.
  pub device_header-share_params :
      (types : WireTypes) (entry : JobEntry) (core_hex b : Bytes) (channel_id job_id : ℕ)
      (future : Bool) (nj : NewExtendedMiningJob) (tip : SetNewPrevHash) (submit : SubmitExtended)
      (s : Sv2Session f)
      → hex.decode core_hex ≡ some b
      → stratum_prev_hash hex core_hex ≡ ok entry.job.prev_hash
      → IsSplit entry.job
      → build_new_extended_job types entry.job channel_id job_id future ≡ some nj
      → build_set_new_prev_hash hex entry.job channel_id job_id ≡ some tip
      → length s.extranonce_prefix + length submit.extranonce
        ≡ entry.job.extranonce1_len + entry.job.extranonce2_len
      → entry.job.version < 2 ^ 32
      → submit.version < 2 ^ 32
      → RollsOnly version_rolling_mask entry.job.version submit.version
      → share_header sha256 hex (share_params f submit entry s) entry.job s.extranonce_prefix
        ≡ ok (
          device_header sha256 nj tip s.extranonce_prefix submit.extranonce submit.version
              submit.ntime submit.nonce,
          device_coinbase nj s.extranonce_prefix submit.extranonce,
        )
  unfolding share_params
  device_header-share_params types entry core_hex b channel_id job_id future nj tip submit s decoded
        announced split made told fits job_word word only =
      device_header-share_header sha256 sha_laws hex laws types entry.job core_hex b channel_id
        job_id future nj tip s.extranonce_prefix (share_params f submit entry s) submit.version
        decoded announced split made told fits
        (resolve_version-masked entry.job.version submit.version version_rolling_mask job_word word
          (omega arith) only)
