-- ===== src/Template/Target/Compact.antt =====
-- The target that compact bits stand for.
use solo_pool_rs.Prelude.{
  ℕ, zero, suc, ◌+◌, ◌-◌, ◌*◌, ◌/◌, ◌%◌, ◌^◌, ◌≤◌, ◌<◌, ◌≡◌, ◌≢◌, refl, ap, ◌∙◌, sym, ◌++◌, length,
  replicate, arith, length-append, length-replicate, ◌⊎◌, bit_and, ltb, leb, ◌==◌, Bool-cases, inl,
  inr,
}
use solo_pool_rs.Prelude.Bytes.{Bytes, value_be, value_be-append}
use solo_pool_rs.Prelude.Bits.{bit_and_low}
use solo_pool_rs.Error.{ok, err, other}
use solo_pool_rs.Template.Target.{mantissa_bytes, to_be_bytes4, compact_to_target}
use native.Mathlib.Nat.{pow-suc, div-le_self, div-eq_of_eq-mul_left}

value_be-zeros : (n : ℕ) → value_be (replicate n 0) ≡ 0
unfolding value_be
value_be-zeros zero = refl
value_be-zeros (suc n) = omega (arith, value_be-zeros n)

leading_zeros : (n : ℕ) (b : Bytes) → value_be (replicate n 0 ++ b) ≡ value_be b
leading_zeros n b = omega (
  arith,
  value_be-append (replicate n 0) b,
  ap (λ (t : ℕ). t * 256 ^ length b) (value_be-zeros n),
)

mantissa_value : (m : ℕ) → m < 2 ^ 24 → value_be (mantissa_bytes m) ≡ m
unfolding mantissa_bytes value_be
mantissa_value m h =
    rw (bit_and_low 8 m, bit_and_low 8 (m / 2 ^ 8), bit_and_low 8 (m / 2 ^ 16)) (omega arith)

word_value : (v : ℕ) → v < 2 ^ 32 → value_be (to_be_bytes4 v) ≡ v
unfolding to_be_bytes4 value_be
word_value v h = omega arith

small_exponent : (m e : ℕ) → e ≤ 3 → m / 2 ^ (8 * (3 - e)) ≡ m * 256 ^ e / 256 ^ 3
small_exponent m zero h = omega arith
small_exponent m (suc zero) h = omega arith
small_exponent m (suc (suc zero)) h = omega arith
small_exponent m (suc (suc (suc zero))) h = omega arith
small_exponent m (suc (suc (suc (suc e)))) h = absurd (omega arith)

large_exponent : (m k : ℕ) → m * 256 ^ k ≡ m * 256 ^ (3 + k) / 256 ^ 3
large_exponent m k = sym (
    div-eq_of_eq-mul_left {n = 256 ^ 3} {m = m * 256 ^ (3 + k)} {k = m * 256 ^ k} (omega arith)
      (omega (arith, ap (λ (t : ℕ). m * t) shifted)))
  where
    shifted : 256 ^ (3 + k) ≡ 256 ^ k * 256 ^ 3
    shifted =
        ap (λ (n : ℕ). 256 ^ n) three
        ∙ omega (arith, pow-suc 256 k, pow-suc 256 (suc k), pow-suc 256 (suc (suc k)))
      where
        three : 3 + k ≡ suc (suc (suc k))
        three = omega arith

placed :
    (m before after : ℕ)
    → m < 2 ^ 24
    → let target = replicate before 0 ++ (mantissa_bytes m ++ replicate after 0) in
      (length target ≡ before + (3 + after)) × (value_be target ≡ m * 256 ^ after)
placed m before after h = (widths, values)
  where
    trailing : Bytes
    trailing = mantissa_bytes m ++ replicate after 0

    three : length (mantissa_bytes m) ≡ 3
    three = unfold mantissa_bytes in refl

    widths : length (replicate before 0 ++ trailing) ≡ before + (3 + after)
    widths = omega (
      arith,
      length-append (replicate before 0) trailing,
      length-append (mantissa_bytes m) (replicate after 0),
      length-replicate {A = ℕ} before 0,
      length-replicate {A = ℕ} after 0,
      three,
    )

    values : value_be (replicate before 0 ++ trailing) ≡ m * 256 ^ after
    values = omega (
      arith,
      leading_zeros before trailing,
      value_be-append (mantissa_bytes m) (replicate after 0),
      value_be-zeros after,
      ap (λ (n : ℕ). value_be (mantissa_bytes m) * 256 ^ n) (length-replicate {A = ℕ} after 0),
      ap (λ (t : ℕ). t * 256 ^ after) (mantissa_value m h),
    )

-- What `compact_to_target` makes of exponent and mantissa.
record IsScaled (m e : ℕ) (target : Bytes) : Type 0 where
  pub width : length target ≡ 32
  pub value : value_be target ≡ m * 256 ^ e / 256 ^ 3

zero-IsScaled : (m e : ℕ) → m ≡ 0 → IsScaled m e (replicate 32 0)
zero-IsScaled m e h = record {
  width = refl;
  value = value_be-zeros 32 ∙ omega (arith, ap (λ (t : ℕ). t * 256 ^ e) h);
}

low-IsScaled :
    (m e : ℕ)
    → m < 2 ^ 24
    → e ≤ 3
    → IsScaled m e (replicate 28 0 ++ to_be_bytes4 (m / 2 ^ (8 * (3 - e))))
low-IsScaled m e h le = record {
  width = unfold to_be_bytes4 in refl;
  value =
      leading_zeros 28 (to_be_bytes4 (m / 2 ^ (8 * (3 - e))))
      ∙ word_value (m / 2 ^ (8 * (3 - e))) (omega (arith, div-le_self m (2 ^ (8 * (3 - e)))))
      ∙ small_exponent m e le;
}

high-IsScaled :
    (m e : ℕ)
    → m < 2 ^ 24
    → 3 < e
    → e ≤ 32
    → IsScaled m e
        (replicate (29 - (e - 3)) 0 ++ (mantissa_bytes m ++ replicate (29 - (29 - (e - 3))) 0))
high-IsScaled m e h lo hi =
    let (w, v) = placed m (29 - (e - 3)) (29 - (29 - (e - 3))) h in
    record {
      width = w ∙ omega arith;
      value =
          v
          ∙ ap (λ (n : ℕ). m * 256 ^ n) (omega arith)
          ∙ large_exponent m (e - 3)
          ∙ ap (λ (n : ℕ). m * 256 ^ n / 256 ^ 3) (omega arith);
    }

-- Compact bits with exponent `e` and mantissa `m` stand for `m * 256 ^ (e - 3)`, rounded down, as
-- 32 bytes; they are refused exactly if `e` is above 32 and the mantissa is not 0, also where the
-- number would still fit.
pub compact_to_target_lem :
    (bits : ℕ)
    → bits < 2 ^ 32
    → let e = bits / 2 ^ 24 in
      let m = bits % 2 ^ 23 in
      ((m ≢ 0) × (32 < e) × (compact_to_target bits ≡ err other))
      ⊎ ((target : Bytes) × (compact_to_target bits ≡ ok target)
          × ((m ≡ 0) ⊎ (e ≤ 32))
          × (length target ≡ 32)
          × (value_be target ≡ m * 256 ^ e / 256 ^ 3))
unfolding compact_to_target
compact_to_target_lem bits h = elim (Bool-cases (m == 0)) [
  | inl z ↦ inr (
      holds (replicate 32 0) (rw (exponent, mantissa, z)) (inl (ground arith))
        (zero-IsScaled m e (ground arith)))
  | inr z ↦ elim (Bool-cases (leb e 3)) [
    | inl s ↦ inr (
        holds (replicate 28 0 ++ to_be_bytes4 (m / 2 ^ (8 * (3 - e))))
          (rw (exponent, mantissa, z, s)) (inr (ground arith))
          (low-IsScaled m e (omega arith) (ground arith)))
    | inr s ↦ elim (Bool-cases (ltb 29 (e - 3))) [
      | inl w ↦ inl (ground arith, ground arith, rw (exponent, mantissa, z, s, w))
      | inr w ↦ inr (
          holds
            (replicate (29 - (e - 3)) 0 ++ (mantissa_bytes m ++ replicate (29 - (29 - (e - 3))) 0))
            (rw (exponent, mantissa, z, s, w)) (inr (ground arith))
            (high-IsScaled m e (omega arith) (ground arith) (ground arith)))
    ]
  ]
]
  where
    e : ℕ
    e = bits / 2 ^ 24

    m : ℕ
    m = bits % 2 ^ 23

    exponent : bit_and (bits / 2 ^ 24) 0xff ≡ bits / 2 ^ 24
    exponent = bit_and_low 8 (bits / 2 ^ 24) ∙ omega arith

    mantissa : bit_and bits 0x7f_ffff ≡ bits % 2 ^ 23
    mantissa = bit_and_low 23 bits

    holds :
        (t : Bytes)
        → compact_to_target bits ≡ ok t
        → (m ≡ 0) ⊎ (e ≤ 32)
        → IsScaled m e t
        → (t : Bytes) × (compact_to_target bits ≡ ok t)
          × ((m ≡ 0) ⊎ (e ≤ 32))
          × (length t ≡ 32)
          × (value_be t ≡ m * 256 ^ e / 256 ^ 3)
    holds t r c s = (t, r, c, s.width, s.value)
