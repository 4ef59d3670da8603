-- ===== src/Validator/Verdict.antt =====
-- What the verdict on a share means.
use solo_pool_rs.Prelude.{
  ℕ, ◌*◌, ◌/◌, ◌^◌, ◌≤◌, ◌<◌, ◌≡◌, ◌↔◌, ◌⊎◌, ◌∙◌, sym, subst, inl, inr, true, false, length,
  reverse, arith, max, Bool-cases, length-reverse,
}
use solo_pool_rs.Prelude.All.{All}
use solo_pool_rs.Prelude.Bytes.{
  Bytes, IsByte, value_le, value_be, bytes_le, bytes_le_iff, value_be-reverse, reverse-IsByte,
}
use solo_pool_rs.Error.{ok, err, low_difficulty}
use solo_pool_rs.Template.Job.{StratumJob, double_sha256}
use solo_pool_rs.Template.Target.{difficulty_to_target, hash_to_difficulty}
use solo_pool_rs.Template.Target.Division.{diff1, value_be-difficulty_to_target}
use solo_pool_rs.Template.PrevHash.{Hex}
use solo_pool_rs.Validator.{valid, block, meets_target, judge, assemble_block_hex}
use native.Mathlib.Nat.{div-lt_iff_lt-mul}

abbrev pub IsHash : Bytes → Type 0
IsHash h = (length h ≡ 32) × All IsByte h

-- What the pool relies on of SHA-256: a digest has 32 bytes.
pub record Sha256Laws (sha256 : Bytes → Bytes) : Type 0 where
  pub digest : (b : Bytes) → IsHash (sha256 b)

-- A hash meets a target exactly if, read as a little-endian number, it is at most the target, read
-- as a big-endian one.
pub meets_target_iff :
    (h target : Bytes)
    → IsHash h
    → IsHash target
    → (meets_target h target ≡ true) ↔ (value_le h ≤ value_be target)
unfolding meets_target
meets_target_iff h target hh ht =
    subst (λ v. (bytes_le (reverse h) target ≡ true) ↔ (v ≤ value_be target)) (value_be-reverse h)
      (bytes_le_iff (reverse h) target (length-reverse h ∙ hh.0 ∙ sym ht.0) (reverse-IsByte h hh.1)
        ht.1)

le-div_iff : (x n d : ℕ) → 0 < d → (x ≤ n / d) ↔ (x * d ≤ n)
le-div_iff x n d pos = ground (arith, div-lt_iff_lt-mul {k = d} {x = n} {y = x} pos)

-- A hash meets the share target of difficulty `d` exactly if it is at most the difficulty-1 target
-- divided by `d`: `hash * max d 1 ≤ 0xffff * 2 ^ 208`.
pub meets_share_target_iff :
    (h : Bytes) (d : ℕ)
    → IsHash h
    → d < 2 ^ 64
    → (meets_target h (difficulty_to_target d) ≡ true) ↔ (value_le h * max d 1 ≤ diff1)
meets_share_target_iff h d hh small =
    let (v, bytes, len) = value_be-difficulty_to_target d small in
    let m = meets_target_iff h (difficulty_to_target d) hh (len, bytes) in
    let l = le-div_iff (value_le h) diff1 (max d 1) (omega arith) in
    (
      (λ e. l.0 (subst (λ t. value_le h ≤ t) v (m.0 e))),
      (λ k. m.1 (subst (λ t. value_le h ≤ t) (sym v) (l.1 k))),
    )

module _ (sha256 : Bytes → Bytes) (laws : Sha256Laws sha256) (hex : Hex) where
  -- The verdict depends on the header's hash `h` alone. It is a block exactly if `h` is at most the
  -- network target, whatever the share difficulty; else it is a valid share of the session's
  -- difficulty exactly if `h * max d 1` is at most the difficulty-1 target; else it is refused as of
  -- low difficulty.
  pub judge_lem :
      (header coinbase : Bytes) (job : StratumJob) (d : ℕ)
      → IsHash job.network_target
      → d < 2 ^ 64
      → let h = double_sha256 sha256 header in
        let verdict = judge sha256 hex header coinbase job d in
        ((value_le h ≤ value_be job.network_target)
          × (verdict
              ≡ ok (
                  block
                    (hash_to_difficulty h)
                    (assemble_block_hex hex header coinbase job.transactions)
                    h)))
        ⊎ ((value_be job.network_target < value_le h)
            × (value_le h * max d 1 ≤ diff1)
            × (verdict ≡ ok (valid d (hash_to_difficulty h) h)))
        ⊎ ((value_be job.network_target < value_le h)
            × (diff1 < value_le h * max d 1)
            × (verdict ≡ err low_difficulty))
  unfolding judge
  judge_lem header coinbase job d target small =
      elim (Bool-cases (meets_target h job.network_target)) [
        | inl net ↦ inl (network.0 net, rw net)
        | inr net ↦ inr (elim (Bool-cases (meets_target h (difficulty_to_target d))) [
          | inl s ↦ inl (above net, share.0 s, rw (net, s))
          | inr s ↦ inr (above net, below s, rw (net, s))
        ])
      ]
    where
      h : Bytes
      h = double_sha256 sha256 header

      digest : IsHash h
      digest = unfold double_sha256 in laws.digest (sha256 header)

      network :
          (meets_target h job.network_target ≡ true) ↔ (value_le h ≤ value_be job.network_target)
      network = meets_target_iff h job.network_target digest target

      share : (meets_target h (difficulty_to_target d) ≡ true) ↔ (value_le h * max d 1 ≤ diff1)
      share = meets_share_target_iff h d digest small

      above : meets_target h job.network_target ≡ false → value_be job.network_target < value_le h
      above e = ground (arith, network)

      below : meets_target h (difficulty_to_target d) ≡ false → diff1 < value_le h * max d 1
      below e = ground (arith, share)
