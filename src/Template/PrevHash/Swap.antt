-- ===== src/Template/PrevHash/Swap.antt =====
-- Swapping twice is no change.
use solo_pool_rs.Prelude.{◌≡◌, refl, ap, [], ◌∷◌, length, some, arith}
use solo_pool_rs.Prelude.Bytes.{Bytes, IsByte}
use solo_pool_rs.Prelude.All.{All}
use solo_pool_rs.Template.PrevHash.{Hex, swap_words}

-- What the pool relies on: decoding gives back the bytes that were encoded.
pub record HexLaws (hex : Hex) : Type 0 where
  pub decode-encode : (b : Bytes) → All IsByte b → hex.decode (hex.encode b) ≡ some b
  pub decode-IsByte : (text b : Bytes) → hex.decode text ≡ some b → All IsByte b

pub swap_words-swap_words : (b : Bytes) → swap_words (swap_words b) ≡ b
unfolding swap_words
swap_words-swap_words [] = refl
swap_words-swap_words (a ∷ []) = refl
swap_words-swap_words (a ∷ b ∷ []) = refl
swap_words-swap_words (a ∷ b ∷ c ∷ []) = refl
swap_words-swap_words (a ∷ b ∷ c ∷ d ∷ rest) =
    ap (λ (r : Bytes). a ∷ b ∷ c ∷ d ∷ r) (swap_words-swap_words rest)

pub length-swap_words : (b : Bytes) → length (swap_words b) ≡ length b
unfolding swap_words
length-swap_words [] = refl
length-swap_words (a ∷ []) = refl
length-swap_words (a ∷ b ∷ []) = refl
length-swap_words (a ∷ b ∷ c ∷ []) = refl
length-swap_words (a ∷ b ∷ c ∷ d ∷ rest) = omega (arith, length-swap_words rest)

pub swap_words-IsByte : (b : Bytes) → All IsByte b → All IsByte (swap_words b)
unfolding swap_words
swap_words-IsByte [] h = h
swap_words-IsByte (a ∷ []) h = h
swap_words-IsByte (a ∷ b ∷ []) h = (h.1.0, (h.0, tt))
swap_words-IsByte (a ∷ b ∷ c ∷ []) h = (h.1.1.0, (h.1.0, (h.0, tt)))
swap_words-IsByte (a ∷ b ∷ c ∷ d ∷ rest) h =
    (h.1.1.1.0, (h.1.1.0, (h.1.0, (h.0, swap_words-IsByte rest h.1.1.1.1))))
