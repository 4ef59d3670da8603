-- ===== src/Validator/Varint.antt =====
-- The transaction count of a block, read back.
use solo_pool_rs.Prelude.{
  ℕ, ◌+◌, ◌^◌, ◌<◌, ◌≡◌, ◌∙◌, ap, sym, ◌&&◌, Option, none, some, List, [], ◌∷◌, ◌++◌, length, take,
  drop, arith, ltb, leb, ◌==◌, if◌then◌else◌, dec_lt, take_append, drop_append, length-append,
}
use solo_pool_rs.Prelude.Bytes.{
  Bytes, value_le, to_le_bytes, value_le-to_le_bytes, length-to_le_bytes,
}
use solo_pool_rs.Validator.{encode_varint, concat, block_bytes}
use solo_pool_rs.Template.PrevHash.{Hex}
use native.Mathlib.Nat.{mod-eq_of_lt}

-- A number of `n` bytes, lowest first, that is above `limit`: smaller ones have a shorter form.
pub read_int : ℕ → ℕ → Bytes → Option (ℕ × Bytes)
read_int n limit bytes =
    if leb n (length bytes) && ltb limit (value_le (take n bytes))
    then some (value_le (take n bytes), drop n bytes)
    else none

-- Bitcoin's CompactSize, in its one canonical form.
pub read_varint : Bytes → Option (ℕ × Bytes)
read_varint [] = none
read_varint (b ∷ rest) =
    if ltb b 0xfd
    then some (b, rest)
    else if b == 0xfd
    then read_int 2 0xfc rest
    else if b == 0xfe
    then read_int 4 0xffff rest
    else read_int 8 0xffff_ffff rest

read_int-to_le_bytes :
    (n limit x : ℕ) (rest : Bytes)
    → x < 256 ^ n
    → limit < x
    → read_int n limit (to_le_bytes n x ++ rest) ≡ some (x, rest)
unfolding read_int
read_int-to_le_bytes n limit x rest h lo = ground (
  arith,
  head_bytes,
  dropped,
  length-append (to_le_bytes n x) rest,
  length-to_le_bytes n x,
  value_le-to_le_bytes n x h,
)
  where
    head_bytes : take n (to_le_bytes n x ++ rest) ≡ to_le_bytes n x
    head_bytes =
        ap (λ k. take k (to_le_bytes n x ++ rest)) (sym (length-to_le_bytes n x))
        ∙ take_append (to_le_bytes n x) rest

    dropped : drop n (to_le_bytes n x ++ rest) ≡ rest
    dropped =
        ap (λ k. drop k (to_le_bytes n x ++ rest)) (sym (length-to_le_bytes n x))
        ∙ drop_append (to_le_bytes n x) rest

-- Every u64 that `encode_varint` writes reads back, whatever follows it, and in the shortest form.
pub read_varint-encode :
    (n : ℕ) (rest : Bytes) → n < 2 ^ 64 → read_varint (encode_varint n ++ rest) ≡ some (n, rest)
unfolding encode_varint read_varint
read_varint-encode n rest h = elim (dec_lt n 0xfd) [
  | yes one ↦ ground arith
  | no more ↦ elim (dec_lt 0xffff n) [
    | no two ↦
        ground (
          arith,
          read_int-to_le_bytes 2 0xfc n rest,
          mod-eq_of_lt {n = n} {m = 2 ^ 16} (omega arith),
        )
    | yes more ↦ elim (dec_lt 0xffff_ffff n) [
      | no four ↦ ground (
        arith,
        read_int-to_le_bytes 4 0xffff n rest,
        mod-eq_of_lt {n = n} {m = 2 ^ 32} (omega arith),
      )
      | yes eight ↦ ground (arith, read_int-to_le_bytes 8 0xffff_ffff n rest)
    ]
  ]
]

-- A found block is its header, then the canonical count of its transactions, the coinbase among
-- them, then the coinbase and the template's transactions in order.
pub block_bytes_lem :
    (hex : Hex) (header coinbase : Bytes) (transactions : List Bytes)
    → length header ≡ 80
    → 1 + length transactions < 2 ^ 64
    → let block = block_bytes hex header coinbase transactions in
      (take 80 block ≡ header)
      × (read_varint (drop 80 block)
          ≡ some (1 + length transactions, coinbase ++ concat transactions))
unfolding block_bytes
block_bytes_lem hex header coinbase transactions e h = (
  ap (λ n. take n (header ++ rest)) (sym e) ∙ take_append header rest,
  ap (λ n. read_varint (drop n (header ++ rest))) (sym e)
      ∙ ap read_varint (drop_append header rest)
      ∙ read_varint-encode (1 + length transactions) (coinbase ++ concat transactions) h,
)
  where
    rest : Bytes
    rest = encode_varint (1 + length transactions) ++ (coinbase ++ concat transactions)
