-- ===== src/Sv2/Job/Target.antt =====
-- The targets of Stratum V2, which are little-endian, order as the numbers they spell.
use solo_pool_rs.Prelude.{
  ℕ, ◌/◌, ◌^◌, ◌≤◌, ◌<◌, ◌≡◌, ◌↔◌, ◌∙◌, sym, ap, true, reverse, arith, max, length-reverse,
}
use solo_pool_rs.Prelude.Bytes.{
  Bytes, value_le, value_be, bytes_le_iff, value_be-reverse, reverse-IsByte, bytes_le,
}
use mathlib.Core.List.{reverse-reverse}
use native.Mathlib.Nat.{le-div_iff_mul-le, mul-le-mul_left, div-mul-le_self}
use solo_pool_rs.Template.Target.{difficulty_to_target}
use solo_pool_rs.Template.Target.Division.{diff1, value_be-difficulty_to_target}
use solo_pool_rs.Validator.Verdict.{IsHash}
use solo_pool_rs.Validator.{meets_target}
use solo_pool_rs.Sv2.Job.{difficulty_to_sv2_target, sv2_target_le}

-- Two targets compare as the little-endian numbers that they spell.
pub sv2_target_le_iff :
    (a b : Bytes) → IsHash a → IsHash b → (sv2_target_le a b ≡ true) ↔ (value_le a ≤ value_le b)
unfolding sv2_target_le
sv2_target_le_iff a b ha hb =
    let i =
      bytes_le_iff (reverse a) (reverse b)
        (length-reverse a ∙ ha.0 ∙ sym hb.0 ∙ sym (length-reverse b)) (reverse-IsByte a ha.1)
        (reverse-IsByte b hb.1) in
    (
      λ e. omega (arith, i.0 e, value_be-reverse a, value_be-reverse b),
      λ h. i.1 (omega (arith, h, value_be-reverse a, value_be-reverse b)),
    )

pub difficulty_to_sv2_target-value :
    (d : ℕ)
    → d < 2 ^ 64
    → (value_le (difficulty_to_sv2_target d) ≡ diff1 / max d 1)
      × IsHash (difficulty_to_sv2_target d)
unfolding difficulty_to_sv2_target
difficulty_to_sv2_target-value d small =
    let (v, bytes, len) = value_be-difficulty_to_target d small in
    (
      sym (value_be-reverse (reverse (difficulty_to_target d)))
          ∙ ap value_be (reverse-reverse (difficulty_to_target d))
          ∙ v,
      (
        length-reverse (difficulty_to_target d) ∙ len,
        reverse-IsByte (difficulty_to_target d) bytes,
      ),
    )

-- A hash meets the target that an SV2 device was told exactly if the validator's test of the share
-- difficulty accepts it.
pub sv2_target-meets_target :
    (h : Bytes) (d : ℕ)
    → sv2_target_le h (difficulty_to_sv2_target d) ≡ meets_target h (difficulty_to_target d)
unfolding sv2_target_le difficulty_to_sv2_target meets_target
sv2_target-meets_target h d = ap (bytes_le (reverse h)) (reverse-reverse (difficulty_to_target d))

quotient-antitone : (n d e : ℕ) → 0 < d → d ≤ e → n / e ≤ n / d
quotient-antitone n d e pos le =
    (le-div_iff_mul-le {k = d} {x = n / e} {y = n} pos).1
      (omega (arith, mul-le-mul_left {m = d} {n = e} (n / e) le, div-mul-le_self n e))

-- A higher difficulty has a target that is no easier.
pub sv2_target-monotone :
    (d e : ℕ)
    → d ≤ e
    → e < 2 ^ 64
    → sv2_target_le (difficulty_to_sv2_target e) (difficulty_to_sv2_target d) ≡ true
sv2_target-monotone d e le small =
    let a = difficulty_to_sv2_target-value e small in
    let b = difficulty_to_sv2_target-value d (omega (arith, le, small)) in
    (sv2_target_le_iff (difficulty_to_sv2_target e) (difficulty_to_sv2_target d) a.1 b.1).1 (
      omega
        (arith, a.0, b.0, quotient-antitone diff1 (max d 1) (max e 1) (omega arith) (omega arith)))
