-- ===== src/Prelude/Bits.antt =====
-- `&`, `|` and `!` on words, one bit at a time.
use Prim.Native.Nat.{
  ℕ, zero, suc, ◌+◌, ◌-◌, ◌*◌, ◌/◌, ◌%◌, ◌^◌, ◌≤◌, ◌<◌, min, max, digits, bitwise, bit_and, bit_or,
  bit_and-bitwise, bit_or-bitwise,
}
use mathlib.Core.Path.{◌≡◌, refl, sym, ◌∙◌, ap}
use native.Mathlib.Nat.{pow-suc, one-le-pow, div-add-mod, div-div-eq-div-mul}
use native.Mathlib.Decide.{dec_lt}
use native.Mathlib.Omega.{arith}

-- Bit `n` of `x`, as 0 or 1.
pub bit : ℕ → ℕ → ℕ
bit zero x = x % 2
bit (suc n) x = bit n (x / 2)

-- `!m` on u32.
abbrev pub not32 : ℕ → ℕ
not32 m = 0xffff_ffff - m

module _ (z : ℕ → ℕ) (f : ℕ → ℕ → ℕ) where
  enough_fuel : (n m a b : ℕ) → a ≤ n → a ≤ m → digits z f n a b ≡ digits z f m a b
  enough_fuel zero zero a b p q = refl
  enough_fuel zero (suc m) zero b p q = refl
  enough_fuel zero (suc m) (suc a) b p q = absurd (omega arith)
  enough_fuel (suc n) zero zero b p q = refl
  enough_fuel (suc n) zero (suc a) b p q = absurd (omega arith)
  enough_fuel (suc n) (suc m) zero b p q = refl
  enough_fuel (suc n) (suc m) (suc a) b p q =
      rw (enough_fuel n m (suc a / 2) (b / 2) (omega arith) (omega arith))

  lowest_digit :
      (a b : ℕ)
      → bitwise z f (suc a) b ≡ bitwise z f (suc a / 2) (b / 2) * 2 + f (suc a % 2) (b % 2)
  lowest_digit a b =
      omega (arith, enough_fuel a (suc a / 2) (suc a / 2) (b / 2) (omega arith) (omega arith))

bit_and_halves : (a b : ℕ) → bit_and a b ≡ bit_and (a / 2) (b / 2) * 2 + min (a % 2) (b % 2)
bit_and_halves zero b = simp bit_and-bitwise (omega arith)
bit_and_halves (suc a) b = simp bit_and-bitwise (lowest_digit (λ y. 0) min a b)

bit_or_halves : (a b : ℕ) → bit_or a b ≡ bit_or (a / 2) (b / 2) * 2 + max (a % 2) (b % 2)
bit_or_halves zero b = simp bit_or-bitwise (omega arith)
bit_or_halves (suc a) b = simp bit_or-bitwise (lowest_digit (λ y. y) max a b)

pub bit-le-one : (n x : ℕ) → bit n x ≤ 1
unfolding bit
bit-le-one zero x = omega arith
bit-le-one (suc n) x = bit-le-one n (x / 2)

pub bit-bit_and : (n a b : ℕ) → bit n (bit_and a b) ≡ min (bit n a) (bit n b)
unfolding bit
bit-bit_and zero a b = omega (arith, bit_and_halves a b)
bit-bit_and (suc n) a b = half ∙ bit-bit_and n (a / 2) (b / 2)
  where
    half : bit n (bit_and a b / 2) ≡ bit n (bit_and (a / 2) (b / 2))
    half = ap (bit n) (omega (arith, bit_and_halves a b))

pub bit-bit_or : (n a b : ℕ) → bit n (bit_or a b) ≡ max (bit n a) (bit n b)
unfolding bit
bit-bit_or zero a b = omega (arith, bit_or_halves a b)
bit-bit_or (suc n) a b = half ∙ bit-bit_or n (a / 2) (b / 2)
  where
    half : bit n (bit_or a b / 2) ≡ bit n (bit_or (a / 2) (b / 2))
    half = ap (bit n) (omega (arith, bit_or_halves a b))

-- The complement in `k` bits flips each of them.
flip_bit : (k n m : ℕ) → n < k → m < 2 ^ k → bit n (2 ^ k - 1 - m) ≡ 1 - bit n m
unfolding bit
flip_bit zero n m h b = elim h [ ]
flip_bit (suc k) zero m h b = omega (arith, pow-suc 2 k)
flip_bit (suc k) (suc n) m h b = half ∙ flip_bit k n (m / 2) (omega arith) below
  where
    below : m / 2 < 2 ^ k
    below = omega (arith, pow-suc 2 k)

    half : bit n ((2 ^ suc k - 1 - m) / 2) ≡ bit n (2 ^ k - 1 - m / 2)
    half = ap (bit n) (omega (arith, pow-suc 2 k))

pub bit-not32 : (n m : ℕ) → n < 32 → m < 2 ^ 32 → bit n (not32 m) ≡ 1 - bit n m
bit-not32 n m h b = flip_bit 32 n m h b

bit_and-lt_pow : (k a b : ℕ) → a < 2 ^ k → bit_and a b < 2 ^ k
bit_and-lt_pow zero a b h = omega (arith, bit_and_halves a b, nothing)
  where
    nothing : bit_and (a / 2) (b / 2) ≡ 0
    nothing = ap (λ x. bit_and x (b / 2)) (omega arith) ∙ bit_and-bitwise 0 (b / 2)
bit_and-lt_pow (suc k) a b h = omega (
  arith,
  bit_and_halves a b,
  bit_and-lt_pow k (a / 2) (b / 2) (omega (arith, pow-suc 2 k)),
  pow-suc 2 k,
)

pub bit_and-lt : (a b : ℕ) → a < 2 ^ 32 → bit_and a b < 2 ^ 32
bit_and-lt a b h = bit_and-lt_pow 32 a b h

bit_and-zero : (n a : ℕ) → a ≤ n → bit_and a 0 ≡ 0
bit_and-zero n zero h = bit_and-bitwise 0 0
bit_and-zero zero (suc a) h = absurd (omega arith)
bit_and-zero (suc n) (suc a) h =
    omega (arith, bit_and_halves (suc a) 0, bit_and-zero n (suc a / 2) (omega arith))

bit_and-lt_pow_right : (k a b : ℕ) → b < 2 ^ k → bit_and a b < 2 ^ k
bit_and-lt_pow_right zero a b h =
    omega (arith, ap (bit_and a) none_left, bit_and-zero a a (omega arith))
  where
    none_left : b ≡ 0
    none_left = omega arith
bit_and-lt_pow_right (suc k) a b h = omega (
  arith,
  bit_and_halves a b,
  bit_and-lt_pow_right k (a / 2) (b / 2) (omega (arith, pow-suc 2 k)),
  pow-suc 2 k,
)

pub bit_and-lt_right : (a b : ℕ) → b < 2 ^ 32 → bit_and a b < 2 ^ 32
bit_and-lt_right a b h = bit_and-lt_pow_right 32 a b h

zero_of_bits_pow : (k x : ℕ) → x < 2 ^ k → ((n : ℕ) → n < k → bit n x ≡ 0) → x ≡ 0
unfolding bit
zero_of_bits_pow zero x h z = omega arith
zero_of_bits_pow (suc k) x h z = omega (
  arith,
  z 0 (omega arith),
  zero_of_bits_pow k (x / 2) (omega (arith, pow-suc 2 k)) (λ n p. z (suc n) (omega arith)),
)

-- A word whose bits are all 0 is 0.
pub zero_of_bits : (x : ℕ) → x < 2 ^ 32 → ((n : ℕ) → n < 32 → bit n x ≡ 0) → x ≡ 0
zero_of_bits = zero_of_bits_pow 32

pub bit-zero : (n : ℕ) → bit n 0 ≡ 0
unfolding bit
bit-zero zero = refl
bit-zero (suc n) = bit-zero n

-- Words with the same bits are equal.
pub eq_of_bits : (k x y : ℕ) → x < 2 ^ k → y < 2 ^ k → ((n : ℕ) → n < k → bit n x ≡ bit n y) → x ≡ y
unfolding bit
eq_of_bits zero x y h g z = omega arith
eq_of_bits (suc k) x y h g z = omega (
  arith,
  z 0 (omega arith),
  eq_of_bits k (x / 2) (y / 2) (omega (arith, pow-suc 2 k)) (omega (arith, pow-suc 2 k))
      (λ n p. z (suc n) (omega arith)),
)

bit_or_zero_fuel : (n a : ℕ) → a ≤ n → bit_or a 0 ≡ a
bit_or_zero_fuel n zero h = bit_or-bitwise 0 0
bit_or_zero_fuel zero (suc a) h = absurd (omega arith)
bit_or_zero_fuel (suc n) (suc a) h =
    omega (arith, bit_or_halves (suc a) 0, bit_or_zero_fuel n (suc a / 2) (omega arith))

-- `(q << k) | r` is a sum when `r` fits into `k` bits.
pub bit_or_sum : (k q r : ℕ) → r < 2 ^ k → bit_or (q * 2 ^ k) r ≡ q * 2 ^ k + r
bit_or_sum zero q r h =
    ap (bit_or (q * 1)) nil ∙ bit_or_zero_fuel (q * 1) _ (omega arith) ∙ omega arith
  where
    nil : r ≡ 0
    nil = omega arith
bit_or_sum (suc k) q r h =
    bit_or_halves (q * 2 ^ suc k) r
    ∙ ap (λ t. bit_or t (r / 2) * 2 + max (q * 2 ^ suc k % 2) (r % 2)) half
    ∙ omega (arith, even, bit_or_sum k q (r / 2) (omega (arith, pow-suc 2 k)))
  where
    even : q * 2 ^ suc k ≡ 2 * (q * 2 ^ k)
    even = omega (arith, ap (λ (t : ℕ). q * t) (pow-suc 2 k))

    half : q * 2 ^ suc k / 2 ≡ q * 2 ^ k
    half = omega (arith, even)

bit_and_zero_fuel : (n a : ℕ) → a ≤ n → bit_and a 0 ≡ 0
bit_and_zero_fuel n zero h = bit_and-bitwise 0 0
bit_and_zero_fuel zero (suc a) h = absurd (omega arith)
bit_and_zero_fuel (suc n) (suc a) h =
    omega (arith, bit_and_halves (suc a) 0, bit_and_zero_fuel n (suc a / 2) (omega arith))

-- `x & (2^k - 1)` is the remainder.
pub bit_and_low : (k x : ℕ) → bit_and x (2 ^ k - 1) ≡ x % 2 ^ k
bit_and_low zero x = bit_and_zero_fuel x x (omega arith) ∙ omega arith
bit_and_low (suc k) x =
    bit_and_halves x (2 ^ suc k - 1)
    ∙ ap (λ t. bit_and (x / 2) t * 2 + min (x % 2) ((2 ^ suc k - 1) % 2)) half
    ∙ omega (arith, bit_and_low k (x / 2), split, pow-suc 2 k, one-le-pow k 2)
  where
    half : (2 ^ suc k - 1) / 2 ≡ 2 ^ k - 1
    half = omega (arith, pow-suc 2 k)

    quotient : x / 2 ^ suc k ≡ x / 2 / 2 ^ k
    quotient =
        ap (λ (t : ℕ). x / t) (omega (arith, pow-suc 2 k)) ∙ sym (div-div-eq-div-mul x 2 (2 ^ k))

    split : x % 2 ^ suc k ≡ x / 2 % 2 ^ k * 2 + x % 2
    split = omega (
      arith,
      div-add-mod x (2 ^ suc k),
      div-add-mod (x / 2) (2 ^ k),
      ap (λ (t : ℕ). 2 ^ suc k * t) quotient,
      ap (λ (t : ℕ). t * (x / 2 / 2 ^ k)) (pow-suc 2 k),
    )

-- Masking out the top bit of a number of `k + 1` bits.
bit_and_pow : (k b : ℕ) → b < 2 ^ suc k → bit_and b (2 ^ k) ≡ b / 2 ^ k * 2 ^ k
bit_and_pow zero b h =
    omega (arith, bit_and_halves b 1, bit_and_zero_fuel (b / 2) (b / 2) (omega arith))
bit_and_pow (suc k) b h =
    bit_and_halves b (2 ^ suc k)
    ∙ ap (λ t. bit_and (b / 2) t * 2 + min (b % 2) (2 ^ suc k % 2)) half
    ∙ omega (
      arith,
      bit_and_pow k (b / 2) (omega (arith, pow-suc 2 (suc k))),
      ap (λ (t : ℕ). t * 2 ^ suc k) quotient,
      ap (λ (t : ℕ). b / 2 / 2 ^ k * t) (pow-suc 2 k),
      pow-suc 2 k,
    )
  where
    half : 2 ^ suc k / 2 ≡ 2 ^ k
    half = omega (arith, pow-suc 2 k)

    quotient : b / 2 ^ suc k ≡ b / 2 / 2 ^ k
    quotient =
        ap (λ (t : ℕ). b / t) (omega (arith, pow-suc 2 k)) ∙ sym (div-div-eq-div-mul b 2 (2 ^ k))

-- Whether the top bit of a byte is set.
pub bit_and_top : (b : ℕ) → b < 256 → bit_and b 0x80 ≡ b / 128 * 128
bit_and_top = bit_and_pow 7

bit_or-lt_pow : (k a b : ℕ) → a < 2 ^ k → b < 2 ^ k → bit_or a b < 2 ^ k
bit_or-lt_pow zero a b h g = omega (arith, ap (bit_or a) zeros, bit_or_zero_fuel a a (omega arith))
  where
    zeros : b ≡ 0
    zeros = omega arith
bit_or-lt_pow (suc k) a b h g = omega (
  arith,
  bit_or_halves a b,
  bit_or-lt_pow k (a / 2) (b / 2) (omega (arith, pow-suc 2 k)) (omega (arith, pow-suc 2 k)),
  pow-suc 2 k,
)

pub bit_or-lt : (a b : ℕ) → a < 2 ^ 32 → b < 2 ^ 32 → bit_or a b < 2 ^ 32
bit_or-lt a b h g = bit_or-lt_pow 32 a b h g

set_bit_pow : (k x : ℕ) → x < 2 ^ k → 0 < x → (n : ℕ) × (n < k) × (bit n x ≡ 1)
unfolding bit
set_bit_pow zero x h pos = absurd (omega arith)
set_bit_pow (suc k) x h pos = elim (dec_lt 0 (x / 2)) [
  | yes more ↦
      (let r = set_bit_pow k (x / 2) (omega (arith, pow-suc 2 k)) more in
        (suc r.0, omega (arith, r.1), r.2))
  | no last ↦ (0, omega arith, omega arith)
]

-- A word that is not 0 has a bit that is set.
pub set_bit : (x : ℕ) → x < 2 ^ 32 → 0 < x → (n : ℕ) × (n < 32) × (bit n x ≡ 1)
set_bit = set_bit_pow 32
