-- ===== src/Template/Coinbase/Height.antt =====
-- The height push of the coinbase, read back as Bitcoin's script rules read it.
use solo_pool_rs.Prelude.{
  ℕ, zero, suc, ◌+◌, ◌-◌, ◌/◌, ◌%◌, ◌^◌, ◌≤◌, ◌<◌, ◌≡◌, refl, ap, ◌∙◌, Bool, true, false, ◌&&◌,
  Option, none, some, [], ◌∷◌, ◌++◌, length, take, drop, arith, bit_and, ltb, leb, ◌==◌,
  if◌then◌else◌, take_append, drop_append, dec_lt,
}
use solo_pool_rs.Prelude.Bytes.{Bytes, value_le}
use solo_pool_rs.Prelude.Bits.{bit_and_low, bit_and_top}
use solo_pool_rs.Template.Coinbase.{height_bytes, with_sign, encode_bip34_height}
use native.Mathlib.Nat.{pow-suc, mod-eq_of_lt}

-- A script number that is positive and minimal: its last byte has the sign bit clear, and is 0 only
-- to keep the bit of the byte before it from being the sign.
pub ends_well : Bytes → Bool
ends_well [] = false
ends_well (b ∷ []) = ltb 0 b && ltb b 0x80
ends_well (b ∷ c ∷ []) = if c == 0 then leb 0x80 b else ltb c 0x80
ends_well (b ∷ c ∷ d ∷ rest) = ends_well (c ∷ d ∷ rest)

-- OP_0, OP_1 to OP_16, or a push of at most 75 bytes that hold a positive minimal number.
pub read_height : Bytes → Option (ℕ × Bytes)
unfolding ends_well
read_height [] = none
read_height (op ∷ rest) =
    if op == 0
    then some (0, rest)
    else if leb 0x51 op && leb op 0x60
    then some (op - 0x50, rest)
    else if leb op 75 && ends_well (take op rest)
    then some (value_le (take op rest), drop op rest)
    else none

-- Bytes, the last of which is not 0.
EndsPos : Bytes → Type 0
EndsPos [] = ⊥
EndsPos (b ∷ []) = (0 < b) × (b < 256)
EndsPos (b ∷ c ∷ rest) = (b < 256) × EndsPos (c ∷ rest)

EndsPos-cons : (b : ℕ) (bs : Bytes) → b < 256 → EndsPos bs → EndsPos (b ∷ bs)
unfolding EndsPos
EndsPos-cons b [] h e = absurd e
EndsPos-cons b (c ∷ bs) h e = (h, e)

height_bytes-zero : (fuel : ℕ) → height_bytes fuel 0 ≡ []
unfolding height_bytes
height_bytes-zero zero = refl
height_bytes-zero (suc fuel) = refl

height_bytes_step :
    (fuel n : ℕ) → 0 < n → height_bytes (suc fuel) n ≡ bit_and n 0xff ∷ height_bytes fuel (n / 256)
unfolding height_bytes
height_bytes_step fuel n pos = ground arith

height_bytes_lem :
    (fuel n : ℕ)
    → n < 256 ^ fuel
    → 0 < n
    → EndsPos (height_bytes fuel n)
      × (value_le (height_bytes fuel n) ≡ n)
      × (length (height_bytes fuel n) ≤ fuel)
unfolding EndsPos value_le
height_bytes_lem zero n h pos = absurd (omega arith)
height_bytes_lem (suc fuel) n h pos = elim (dec_lt n 256) [
  | yes small ↦ rw (height_bytes_step fuel n pos, last small, bit_and_low 8 n) (omega arith)
  | no large ↦
      (let rest = height_bytes_lem fuel (n / 256) (omega (arith, pow-suc 256 fuel)) (omega arith) in
        rw (height_bytes_step fuel n pos, bit_and_low 8 n)
          (
            EndsPos-cons (n % 256) (height_bytes fuel (n / 256)) (omega arith) rest.0,
            omega arith,
            omega arith,
          ))
]
  where
    last : n < 256 → height_bytes fuel (n / 256) ≡ []
    last small = ap (height_bytes fuel) (omega arith) ∙ height_bytes-zero fuel

ends_well_cons :
    (b c : ℕ) (bs : Bytes) → 1 ≤ length bs → ends_well (b ∷ c ∷ bs) ≡ ends_well (c ∷ bs)
unfolding ends_well
ends_well_cons b c [] h = absurd (omega arith)
ends_well_cons b c (d ∷ bs) h = refl

with_sign_lem :
    (bs : Bytes)
    → EndsPos bs
    → (ends_well (with_sign bs) ≡ true)
      × (value_le (with_sign bs) ≡ value_le bs)
      × (length (with_sign bs) ≤ length bs + 1)
      × (1 ≤ length (with_sign bs))
unfolding with_sign EndsPos value_le ends_well
with_sign_lem [] h = absurd h
with_sign_lem (b ∷ []) h = ground (arith, bit_and_top b)
with_sign_lem (b ∷ c ∷ []) h = ground (arith, bit_and_top c)
with_sign_lem (b ∷ c ∷ d ∷ bs) h =
    let rest = with_sign_lem (c ∷ d ∷ bs) h.1 in
    (
      ends_well_cons b c (with_sign (d ∷ bs)) (omega (arith, with_sign_lem (d ∷ bs) h.1.1))
          ∙ rest.0,
      omega (arith, rest.1),
      omega (arith, rest.2),
      omega arith,
    )

read_push :
    (bs rest : Bytes)
    → ends_well bs ≡ true
    → 1 ≤ length bs
    → length bs ≤ 75
    → read_height (length bs % 256 ∷ (bs ++ rest)) ≡ some (value_le bs, rest)
unfolding read_height
read_push bs rest well lo hi =
    rw (mod-eq_of_lt {n = length bs} {m = 256} (omega arith))
      (ground (arith, take_append bs rest, drop_append bs rest, well))

encode_op : (h : ℕ) → h ≤ 16 → encode_bip34_height h ≡ (if h == 0 then 0 else 0x50 + h) ∷ []
unfolding encode_bip34_height
encode_op h few = ground arith

encode_push :
    (h : ℕ)
    → 16 < h
    → let bs = with_sign (height_bytes 8 h) in encode_bip34_height h ≡ length bs % 256 ∷ bs
unfolding encode_bip34_height
encode_push h many = rw (ltb-false_of h many, not_zero h many)
  where
    ltb-false_of : (n : ℕ) → 16 < n → leb n 16 ≡ false
    ltb-false_of n k = ground arith

    not_zero : (n : ℕ) → 16 < n → (n == 0) ≡ false
    not_zero n k = ground arith

read_op :
    (h : ℕ) (rest : Bytes)
    → h ≤ 16
    → read_height ((if h == 0 then 0 else 0x50 + h) ∷ rest) ≡ some (h, rest)
unfolding read_height
read_op h rest few = ground arith

-- For every u64 height, what `encode_bip34_height` writes reads back, whatever follows it, as that
-- height: by OP_0, OP_1 to OP_16, or a push of a positive minimal script number.
pub read_height-encode :
    (h : ℕ) (rest : Bytes)
    → h < 2 ^ 64
    → read_height (encode_bip34_height h ++ rest) ≡ some (h, rest)
read_height-encode h rest small = elim (dec_lt 16 h) [
  | no few ↦ rw (encode_op h (omega arith)) (read_op h rest (omega arith))
  | yes many ↦
      (let raw = height_bytes_lem 8 h (omega arith) (omega arith) in
        let signed = with_sign_lem (height_bytes 8 h) raw.0 in
        rw (encode_push h many) (
          read_push (with_sign (height_bytes 8 h)) rest signed.0 signed.3
            (omega (arith, signed.2, raw.2))
          ∙ ap (λ (n : ℕ). some (n, rest)) (signed.1 ∙ raw.1)))
]
