-- ===== src/Template/Target.antt =====
-- Targets and difficulties: `difficulty_to_target`, `compact_to_target`, `hash_to_difficulty`.
-- A target is 32 bytes, highest first; a hash is 32 bytes, lowest first.
pub mod Division
pub mod Compact
use solo_pool_rs.Prelude.{
  ℕ, zero, suc, ◌+◌, ◌-◌, ◌*◌, ◌/◌, ◌%◌, ◌^◌, ◌≡◌, refl, Bool, Option, none, some, List, [], ◌∷◌,
  ◌++◌, length, reverse, take, drop, replicate, bit_and, bit_or, min, ltb, leb, ◌==◌, if◌then◌else◌,
}
use solo_pool_rs.Prelude.Bytes.{Bytes}
use solo_pool_rs.Prelude.Words.{u64_max, u32_from_hex}
use solo_pool_rs.Error.{Result, ok, err, other}

-- `DIFF1_TARGET`.
abbrev pub diff1_target : Bytes
diff1_target = 0 ∷ 0 ∷ 0 ∷ 0 ∷ 0xff ∷ 0xff ∷ replicate 26 0

-- The loop of `div_be_u256_by_u64`: `rem` is a u128, and each quotient digit is cut to a byte.
unfoldable pub div_loop : ℕ → ℕ → Bytes → Bytes
div_loop divisor rem [] = []
div_loop divisor rem (byte ∷ rest) =
    let accum = bit_or (rem * 256 % 2 ^ 128) byte in
    (accum / divisor % 256) ∷ div_loop divisor (accum % divisor) rest

unfoldable pub div_be_u256_by_u64 : Bytes → ℕ → Bytes
unfolding div_loop
div_be_u256_by_u64 value divisor = div_loop divisor 0 value

unfoldable pub difficulty_to_target : ℕ → Bytes
unfolding div_be_u256_by_u64
difficulty_to_target difficulty =
    if leb difficulty 1 then diff1_target else div_be_u256_by_u64 diff1_target difficulty

-- `[(mantissa >> 16) & 0xff, (mantissa >> 8) & 0xff, mantissa & 0xff]`.
mantissa_bytes : ℕ → Bytes
mantissa_bytes mantissa =
    bit_and (mantissa / 2 ^ 16) 0xff ∷ bit_and (mantissa / 2 ^ 8) 0xff ∷ bit_and mantissa 0xff ∷ []

-- `value.to_be_bytes()` of a u32.
to_be_bytes4 : ℕ → Bytes
to_be_bytes4 v = (v / 2 ^ 24 % 256) ∷ (v / 2 ^ 16 % 256) ∷ (v / 2 ^ 8 % 256) ∷ (v % 256) ∷ []

unfoldable pub compact_to_target : ℕ → Result Bytes
unfolding mantissa_bytes to_be_bytes4
compact_to_target bits =
    let exponent = bit_and (bits / 2 ^ 24) 0xff in
    let mantissa = bit_and bits 0x7f_ffff in
    if mantissa == 0
    then ok (replicate 32 0)
    else if leb exponent 3
    then ok (replicate 28 0 ++ to_be_bytes4 (mantissa / 2 ^ (8 * (3 - exponent))))
    else if ltb 29 (exponent - 3)
    then err other
    else (let offset = 29 - (exponent - 3) in
        ok (replicate offset 0 ++ (mantissa_bytes mantissa ++ replicate (29 - offset) 0)))

unfoldable pub bits_to_target : Bytes → Result Bytes
unfolding compact_to_target
bits_to_target bits_hex = elim (u32_from_hex bits_hex) [
  | none ↦ err other
  | some bits ↦ compact_to_target bits
]

-- `hash_be.iter().position(|&b| b != 0).unwrap_or(31)`, from index `i` on.
first_nonzero : Bytes → ℕ → ℕ
first_nonzero [] i = 31
first_nonzero (b ∷ bs) i = let later = first_nonzero bs (i + 1) in if b == 0 then later else i

-- `hash_sig = (hash_sig << 8) | byte` for each byte, on u64.
significant : ℕ → Bytes → ℕ
significant sig [] = sig
significant sig (b ∷ bs) = significant (bit_or (sig * 2 ^ 8 % 2 ^ 64) b) bs

-- Up to eight bytes of the hash from its first that is not 0, left-aligned in a u64.
hash_sig : Bytes → ℕ
unfolding first_nonzero significant
hash_sig hash_be =
    let nz = first_nonzero hash_be 0 in
    let n = min 8 (32 - nz) in significant 0 (take n (drop nz hash_be)) * 2 ^ ((8 - n) * 8) % 2 ^ 64

-- `DIFF1_SIG`.
abbrev diff1_sig : ℕ
diff1_sig = 0xffff_0000_0000_0000

-- The scaling of `ratio` by `exp = (nz - 4) * 8`, which may be negative.
scale : ℕ → ℕ → ℕ
scale ratio nz =
    if leb 12 nz
    then u64_max
    else if leb 4 nz
    then (let exp = (nz - 4) * 8 in
        if ltb (u64_max / 2 ^ exp) ratio then u64_max else ratio * 2 ^ exp)
    else ratio / 2 ^ ((4 - nz) * 8)

unfoldable pub hash_to_difficulty : Bytes → ℕ
unfolding hash_sig scale
hash_to_difficulty hash_le =
    let hash_be = reverse hash_le in
    let sig = hash_sig hash_be in
    if sig == 0 then u64_max else scale (diff1_sig / sig) (first_nonzero hash_be 0)
