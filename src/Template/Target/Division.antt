-- ===== src/Template/Target/Division.antt =====
-- `div_be_u256_by_u64` divides.
use solo_pool_rs.Prelude.{
  ℕ, suc, ◌+◌, ◌*◌, ◌/◌, ◌%◌, ◌^◌, ◌≤◌, ◌<◌, ◌≡◌, refl, ap, ◌∙◌, sym, [], ◌∷◌, length, arith,
  bit_or, max, leb, Bool-cases, inl, inr,
}
use solo_pool_rs.Prelude.Bytes.{Bytes, IsByte, value_be}
use solo_pool_rs.Prelude.All.{All}
use solo_pool_rs.Prelude.Bits.{bit_or_sum}
use solo_pool_rs.Template.Target.{div_loop, div_be_u256_by_u64, difficulty_to_target, diff1_target}
use native.Mathlib.Nat.{
  pow-suc, div-add-mod, mod-lt, mod-eq_of_lt, div-eq_of_lt-le, div-lt_iff_lt-mul, div-one,
}

-- What is left over when the loop ends.
remainder : ℕ → ℕ → Bytes → ℕ
remainder d rem [] = rem
remainder d rem (b ∷ bs) = remainder d ((rem * 256 + b) % d) bs

module _ (d : ℕ) (pos : 0 < d) (small : d < 2 ^ 64) where
  accum_sum : (rem b : ℕ) → rem < d → b < 256 → bit_or (rem * 256 % 2 ^ 128) b ≡ rem * 256 + b
  accum_sum rem b h k = ap (λ x. bit_or x b) (omega arith) ∙ bit_or_sum 8 rem b k

  quotient-IsByte : (rem b : ℕ) → rem < d → b < 256 → (rem * 256 + b) / d < 256
  quotient-IsByte rem b h k = (div-lt_iff_lt-mul {x = rem * 256 + b} {y = 256} pos).1 (omega arith)

  remainder-lt : (rem : ℕ) (bs : Bytes) → rem < d → remainder d rem bs < d
  unfolding remainder
  remainder-lt rem [] h = h
  remainder-lt rem (b ∷ bs) h = remainder-lt ((rem * 256 + b) % d) bs (mod-lt (rem * 256 + b) pos)

  length-div_loop : (rem : ℕ) (bs : Bytes) → length (div_loop d rem bs) ≡ length bs
  unfolding div_loop
  length-div_loop rem [] = refl
  length-div_loop rem (b ∷ bs) = ap suc (length-div_loop (bit_or (rem * 256 % 2 ^ 128) b % d) bs)

  div_loop-IsByte : (rem : ℕ) (bs : Bytes) → All IsByte (div_loop d rem bs)
  unfolding div_loop
  div_loop-IsByte rem [] = tt
  div_loop-IsByte rem (b ∷ bs) =
      (omega arith, div_loop-IsByte (bit_or (rem * 256 % 2 ^ 128) b % d) bs)

  -- Quotient times divisor, and the remainder, make up what has been read.
  div_loop_lem :
      (rem : ℕ) (bs : Bytes)
      → rem < d
      → All IsByte bs
      → value_be (div_loop d rem bs) * d + remainder d rem bs ≡ rem * 256 ^ length bs + value_be bs
  unfolding div_loop remainder value_be
  div_loop_lem rem [] h bytes = omega arith
  div_loop_lem rem (b ∷ bs) h bytes =
      let acc : ℕ = rem * 256 + b in
      rw
        (
          accum_sum rem b h bytes.0,
          mod-eq_of_lt (quotient-IsByte rem b h bytes.0),
          length-div_loop (acc % d) bs,
        )
        (omega (
          arith,
          div_loop_lem (acc % d) bs (mod-lt acc pos) bytes.1,
          ap (λ (t : ℕ). t * 256 ^ length bs) (div-add-mod acc d),
          ap (λ (t : ℕ). rem * t) (pow-suc 256 (length bs)),
        ))

-- The quotient as a number: `div_be_u256_by_u64` is division, of any string of bytes by any
-- divisor from 1 to 2 ^ 64 - 1, and its result has the bytes of a number of that width.
pub value_be-div_be :
    (v : Bytes) (d : ℕ)
    → 0 < d
    → d < 2 ^ 64
    → All IsByte v
    → (value_be (div_be_u256_by_u64 v d) ≡ value_be v / d)
      × All IsByte (div_be_u256_by_u64 v d)
      × (length (div_be_u256_by_u64 v d) ≡ length v)
unfolding div_be_u256_by_u64
value_be-div_be v d pos small bytes = (
  sym (
      div-eq_of_lt-le d {m = value_be v} (omega (arith, whole))
        (omega (arith, whole, remainder-lt d pos small 0 v pos))),
  div_loop-IsByte d pos small 0 v,
  length-div_loop d pos small 0 v,
)
  where
    whole : value_be (div_loop d 0 v) * d + remainder d 0 v ≡ 0 * 256 ^ length v + value_be v
    whole = div_loop_lem d pos small 0 v pos bytes

-- The difficulty-1 target.
pub diff1 : ℕ
diff1 = 0xffff * 2 ^ 208

diff1_target-value : value_be diff1_target ≡ diff1
unfolding value_be diff1
diff1_target-value = refl

diff1_target-IsByte : All IsByte diff1_target
diff1_target-IsByte = omega arith

-- For every u64 difficulty the target is the difficulty-1 target divided by it, rounded down
-- (a difficulty of 0 counts as 1), as 32 bytes.
pub value_be-difficulty_to_target :
    (d : ℕ)
    → d < 2 ^ 64
    → (value_be (difficulty_to_target d) ≡ diff1 / max d 1)
      × All IsByte (difficulty_to_target d)
      × (length (difficulty_to_target d) ≡ 32)
unfolding difficulty_to_target
value_be-difficulty_to_target d small = elim (Bool-cases (leb d 1)) [
  | inl e ↦ rw e (easy (ground arith), diff1_target-IsByte, refl)
  | inr e ↦ rw e (hard (ground arith))
]
  where
    easy : d ≤ 1 → value_be diff1_target ≡ diff1 / max d 1
    easy h = diff1_target-value ∙ sym (div-one diff1) ∙ ap (λ t. diff1 / t) (omega arith)

    hard :
        1 < d
        → (value_be (div_be_u256_by_u64 diff1_target d) ≡ diff1 / max d 1)
          × All IsByte (div_be_u256_by_u64 diff1_target d)
          × (length (div_be_u256_by_u64 diff1_target d) ≡ 32)
    hard h =
        let r = value_be-div_be diff1_target d (omega arith) small diff1_target-IsByte in
        (r.0 ∙ ap (λ t. t / d) diff1_target-value ∙ ap (λ t. diff1 / t) (omega arith), r.1, r.2)
