-- ===== src/Validator/Header.antt =====
-- The block header, field by field.
use solo_pool_rs.Prelude.{
  ℕ, ◌≡◌, ◌∙◌, ap, refl, some, ◌++◌, length, reverse, arith, ◌==◌, ==_iff, true, length-append,
  length-reverse,
}
use solo_pool_rs.Prelude.Bytes.{Bytes, to_le_bytes, length-to_le_bytes, reverse-IsByte}
use solo_pool_rs.Prelude.Words.{u32_from_hex}
use solo_pool_rs.Error.{ok}
use solo_pool_rs.Validator.{build_header}
use solo_pool_rs.Template.PrevHash.{Hex, swap_words, stratum_prev_hash}
use solo_pool_rs.Template.PrevHash.Swap.{
  HexLaws, swap_words-swap_words, swap_words-IsByte, length-swap_words,
}

-- The six fields of a header, as Bitcoin lays them out.
abbrev pub HasFields : ℕ → Bytes → Bytes → ℕ → ℕ → ℕ → Bytes → Type 0
HasFields version prev root ntime bits nonce header =
    header
    ≡ to_le_bytes 4 version
      ++ (prev ++ (root ++ (to_le_bytes 4 ntime ++ (to_le_bytes 4 bits ++ to_le_bytes 4 nonce))))

pub stratum_prev_hash-encodes :
    (hex : Hex) (core_hex p b : Bytes)
    → hex.decode core_hex ≡ some b
    → stratum_prev_hash hex core_hex ≡ ok p
    → (length b ≡ 32) × (p ≡ hex.encode (swap_words (reverse b)))
unfolding stratum_prev_hash
stratum_prev_hash-encodes hex core_hex p b d e = ground arith

-- From the previous hash that `stratum_prev_hash` announces, bits that are a number and a root of 32
-- bytes, `build_header` makes a header that carries the previous block's hash in internal byte
-- order, the display form that the node gave read backwards: the swaps of the two functions cancel.
-- The other fields are the share's and the job's, and the header has 80 bytes.
pub build_header_lem :
    (hex : Hex) (laws : HexLaws hex) (version : ℕ) (core_hex p b root : Bytes) (ntime : ℕ)
    (bits_hex : Bytes) (bits nonce : ℕ)
    → hex.decode core_hex ≡ some b
    → stratum_prev_hash hex core_hex ≡ ok p
    → u32_from_hex bits_hex ≡ some bits
    → length root ≡ 32
    → (header : Bytes) × (build_header hex version p root ntime bits_hex nonce ≡ ok header)
      × HasFields version (reverse b) root ntime bits nonce header
      × (length header ≡ 80)
unfolding build_header
build_header_lem hex laws version core_hex p b root ntime bits_hex bits nonce d e f g =
    (fields, rw (stored, build_header, swapped, f, swap_words-swap_words (reverse b)), refl, eighty)
  where
    known : (length b ≡ 32) × (p ≡ hex.encode (swap_words (reverse b)))
    known = stratum_prev_hash-encodes hex core_hex p b d e

    fields : Bytes
    fields =
        to_le_bytes 4 version
        ++ (reverse b
            ++ (root ++ (to_le_bytes 4 ntime ++ (to_le_bytes 4 bits ++ to_le_bytes 4 nonce))))

    stored : hex.decode p ≡ some (swap_words (reverse b))
    stored =
        ap hex.decode known.1
        ∙ laws.decode-encode (swap_words (reverse b))
            (swap_words-IsByte (reverse b) (reverse-IsByte b (laws.decode-IsByte core_hex b d)))

    swapped : (length (swap_words (reverse b)) == 32) ≡ true
    swapped =
        (==_iff (length (swap_words (reverse b))) 32).1
          (length-swap_words (reverse b) ∙ length-reverse b ∙ known.0)

    eighty : length fields ≡ 80
    eighty = omega (
      arith,
      length-append (to_le_bytes 4 version) (
          reverse b
          ++ (root ++ (to_le_bytes 4 ntime ++ (to_le_bytes 4 bits ++ to_le_bytes 4 nonce)))),
      length-append (reverse b)
          (root ++ (to_le_bytes 4 ntime ++ (to_le_bytes 4 bits ++ to_le_bytes 4 nonce))),
      length-append root (to_le_bytes 4 ntime ++ (to_le_bytes 4 bits ++ to_le_bytes 4 nonce)),
      length-append (to_le_bytes 4 ntime) (to_le_bytes 4 bits ++ to_le_bytes 4 nonce),
      length-append (to_le_bytes 4 bits) (to_le_bytes 4 nonce),
      length-to_le_bytes 4 version,
      length-to_le_bytes 4 ntime,
      length-to_le_bytes 4 bits,
      length-to_le_bytes 4 nonce,
      length-reverse b,
      known.0,
    )
