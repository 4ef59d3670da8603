-- ===== src/Validator/Panic.antt =====
-- No share makes the validation panic.
use solo_pool_rs.Prelude.{
  ℕ, ◌≡◌, ◌∙◌, ap, sym, Option, none, some, length, reverse, arith, Bool-cases, Option-cases, inl,
  inr, ◌==◌, length-reverse,
}
use solo_pool_rs.Prelude.Bytes.{Bytes, reverse-IsByte}
use solo_pool_rs.Error.{ok, NoPanic, Safe->>=}
use solo_pool_rs.Template.Job.{StratumJob, assemble_coinbase, merkle_root}
use solo_pool_rs.Template.Job.Splice.{IsSplit, assemble_coinbase_lem}
use solo_pool_rs.Template.PrevHash.{Hex, swap_words, stratum_prev_hash}
use solo_pool_rs.Template.PrevHash.Swap.{HexLaws, length-swap_words, swap_words-IsByte}
use solo_pool_rs.Template.Coinbase.{BitcoinCrate}
use solo_pool_rs.Template.Build.{GbtResult}
use solo_pool_rs.Template.Build.Split.{IsBuilt}
use solo_pool_rs.Validator.{
  ShareParams, JobEntry, check_ntime, resolve_version, build_header, share_header, judge,
  validate_share_no_dedup,
}

-- The text that a job announces decodes to 32 bytes.
announced_width :
    (hex : Hex) (laws : HexLaws hex) (core_hex p : Bytes)
    → stratum_prev_hash hex core_hex ≡ ok p
    → (b : Bytes) × (hex.decode p ≡ some b) × (length b ≡ 32)
unfolding stratum_prev_hash
announced_width hex laws core_hex p e = elim (Option-cases (hex.decode core_hex)) [
  | inl absent ↦ absurd (ground (arith, absent, e))
  | inr (b, present) ↦ elim (Bool-cases (length b == 32)) [
    | inl wide ↦
        (let same : hex.encode (swap_words (reverse b)) ≡ p = ground (arith, present, wide, e) in
          (
            swap_words (reverse b),
            ap hex.decode (sym same)
                ∙ laws.decode-encode (swap_words (reverse b)) (
                    swap_words-IsByte (reverse b)
                      (reverse-IsByte b (laws.decode-IsByte core_hex b present))),
            length-swap_words (reverse b) ∙ length-reverse b ∙ ground (arith, wide),
          ))
    | inr other_width ↦ absurd (ground (arith, present, other_width, e))
  ]
]

build_header-NoPanic :
    (hex : Hex) (version : ℕ) (p b root : Bytes) (ntime : ℕ) (bits_hex : Bytes) (nonce : ℕ)
    → hex.decode p ≡ some b
    → length b ≡ 32
    → NoPanic (build_header hex version p root ntime bits_hex nonce)
unfolding build_header
build_header-NoPanic hex version p b root ntime bits_hex nonce e wide = ground (arith, e, wide)

check_ntime-NoPanic : (ntime min_time cur_time : ℕ) → NoPanic (check_ntime ntime min_time cur_time)
unfolding check_ntime
check_ntime-NoPanic ntime min_time cur_time = ground arith

resolve_version-NoPanic :
    (base : ℕ) (bits negotiated : Option ℕ) → NoPanic (resolve_version base bits negotiated)
unfolding resolve_version
resolve_version-NoPanic base none negotiated = tt
resolve_version-NoPanic base (some bits) negotiated = ground arith

assemble_coinbase-NoPanic :
    (job : StratumJob) (extranonce1 extranonce2 : Bytes)
    → IsSplit job
    → NoPanic (assemble_coinbase job extranonce1 extranonce2)
assemble_coinbase-NoPanic job extranonce1 extranonce2 split =
    rw (assemble_coinbase_lem job extranonce1 extranonce2 split) (ground arith)

module _ (sha256 : Bytes → Bytes) (hex : Hex) (hex_laws : HexLaws hex)
    (bitcoin : BitcoinCrate) where
  judge-NoPanic :
      (header coinbase : Bytes) (job : StratumJob) (d : ℕ)
      → NoPanic (judge sha256 hex header coinbase job d)
  unfolding judge
  judge-NoPanic header coinbase job d = ground arith

  share_header-NoPanic :
      (gbt : GbtResult) (len1 len2 : ℕ) (params : ShareParams) (job : StratumJob)
      (extranonce1 : Bytes)
      → IsBuilt sha256 hex bitcoin gbt len1 len2 job
      → NoPanic (share_header sha256 hex params job extranonce1)
  unfolding share_header
  share_header-NoPanic gbt len1 len2 params job extranonce1 from =
      let (b, decoded, wide) = announced_width hex hex_laws gbt.prev_hash job.prev_hash from.prev in
      Safe->>= (λ _. Unit {0}) (λ _. Unit {0})
        (assemble_coinbase job extranonce1 params.extranonce2) _
        (assemble_coinbase-NoPanic job extranonce1 params.extranonce2 from.split)
        (λ coinbase _.
          Safe->>= (λ _. Unit {0}) (λ _. Unit {0})
            (resolve_version job.version params.version_bits params.version_rolling_mask) _
            (resolve_version-NoPanic job.version params.version_bits params.version_rolling_mask)
            (λ version _.
              Safe->>= (λ _. Unit {0}) (λ _. Unit {0})
                (build_header hex version job.prev_hash (merkle_root sha256 job coinbase)
                  params.ntime job.bits params.nonce)
                _
                (build_header-NoPanic hex version job.prev_hash b (merkle_root sha256 job coinbase)
                  params.ntime job.bits params.nonce decoded wide)
                (λ header _. tt)))

  -- On a job that `build_job` made from a template, no share makes the validation panic, whatever
  -- its extranonces, time, nonce and version bits are and however long they are.
  pub validate-NoPanic :
      (gbt : GbtResult) (len1 len2 : ℕ) (params : ShareParams) (job : StratumJob)
      (job_entry : JobEntry) (extranonce1 : Bytes) (difficulty : ℕ)
      → IsBuilt sha256 hex bitcoin gbt len1 len2 job
      → NoPanic (validate_share_no_dedup sha256 hex params job job_entry extranonce1 difficulty)
  unfolding validate_share_no_dedup
  validate-NoPanic gbt len1 len2 params job job_entry extranonce1 difficulty from =
      elim (Bool-cases job_entry.superseded_by_clean) [
        | inl stale ↦ rw stale tt
        | inr live ↦ rw live (
            Safe->>= (λ _. Unit {0}) (λ _. Unit {0})
              (check_ntime params.ntime job.min_time job.cur_time) _
              (check_ntime-NoPanic params.ntime job.min_time job.cur_time)
              (λ _ _.
                Safe->>= (λ _. Unit {0}) (λ _. Unit {0})
                  (share_header sha256 hex params job extranonce1) _
                  (share_header-NoPanic gbt len1 len2 params job extranonce1 from)
                  (λ made _. judge-NoPanic made.0 made.1 job difficulty)))
      ]
