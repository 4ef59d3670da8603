-- ===== src/Template/PrevHash.antt =====
-- `stratum_prev_hash`, and the swap of bytes in 4-byte words that it shares with the header.
-- Hexadecimal text (crate `hex`) is a parameter.
pub mod Swap
use solo_pool_rs.Prelude.{
  ℕ, Option, none, some, List, [], ◌∷◌, reverse, length, ◌==◌, if◌then◌else◌,
}
use solo_pool_rs.Prelude.Bytes.{Bytes}
use solo_pool_rs.Error.{Result, ok, err, other}

-- `for chunk in bytes.chunks_mut(4) { chunk.reverse() }`; the last chunk may be shorter.
unfoldable pub swap_words : Bytes → Bytes
swap_words [] = []
swap_words (a ∷ []) = a ∷ []
swap_words (a ∷ b ∷ []) = b ∷ a ∷ []
swap_words (a ∷ b ∷ c ∷ []) = c ∷ b ∷ a ∷ []
swap_words (a ∷ b ∷ c ∷ d ∷ rest) = d ∷ c ∷ b ∷ a ∷ swap_words rest

-- `hex::encode` and `hex::decode`.
pub record Hex : Type 0 where
  pub encode : Bytes → Bytes
  pub decode : Bytes → Option Bytes

unfoldable pub stratum_prev_hash : Hex → Bytes → Result Bytes
stratum_prev_hash hex core_hex = elim (hex.decode core_hex) [
  | none ↦ err other
  | some bytes ↦
      if length bytes == 32 then ok (hex.encode (swap_words (reverse bytes))) else err other
]
