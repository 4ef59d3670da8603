-- ===== src/Template/Coinbase.antt =====
-- `build_coinbase` and what it calls. The `bitcoin` crate's address parser and transaction
-- serializer are parameters.
pub mod Height
pub mod Sentinel
use solo_pool_rs.Prelude.{
  ℕ, zero, suc, ◌+◌, ◌-◌, ◌*◌, ◌/◌, ◌%◌, ◌^◌, Bool, true, false, ◌&&◌, Option, none, some, List, [],
  ◌∷◌, ◌++◌, length, take, drop, replicate, bit_and, min, leb, ◌==◌, if◌then◌else◌,
}
use solo_pool_rs.Prelude.Bytes.{Bytes}
use solo_pool_rs.Error.{Result, ok, err, panic, ◌>>=◌, other}
use solo_pool_rs.Template.PrevHash.{Hex}

-- `serialize(&tx)` of the version-1 transaction with lock time 0 and one input that spends the null
-- outpoint, with the given scriptSig and the outputs' values and scripts; `Address::from_str` and
-- `script_pubkey`.
pub record BitcoinCrate : Type 0 where
  pub serialize : Bytes → List (ℕ × Bytes) → Bytes
  pub script_pubkey : Bytes → Option Bytes

-- The `while n > 0` loop, on fuel: each round drops a byte of the u64, so 8 rounds are enough.
height_bytes : ℕ → ℕ → Bytes
height_bytes zero n = []
height_bytes (suc fuel) n =
    let rest = bit_and n 0xff ∷ height_bytes fuel (n / 2 ^ 8) in if n == 0 then [] else rest

-- `if bytes.last().is_some_and(|b| b & 0x80 != 0) { bytes.push(0x00) }`.
with_sign : Bytes → Bytes
with_sign [] = []
with_sign (b ∷ []) = if bit_and b 0x80 == 0 then b ∷ [] else b ∷ 0 ∷ []
with_sign (b ∷ c ∷ bs) = b ∷ with_sign (c ∷ bs)

unfoldable pub encode_bip34_height : ℕ → Bytes
unfolding height_bytes with_sign
encode_bip34_height height =
    if height == 0
    then 0x00 ∷ []
    else if leb height 16
    then (0x50 + height) ∷ []
    else (let bytes = with_sign (height_bytes 8 height) in (length bytes % 256) ∷ bytes)

-- `w == needle` for the window at the front.
has_prefix : Bytes → Bytes → Bool
has_prefix [] hay = true
has_prefix (n ∷ needle) [] = false
has_prefix (n ∷ needle) (h ∷ hay) = n == h && has_prefix needle hay

-- `haystack.windows(needle.len()).position(|w| w == needle)`.
unfoldable pub find_bytes : Bytes → Bytes → Option ℕ
unfolding has_prefix
find_bytes needle [] = none
find_bytes needle (h ∷ hay) =
    let later : Option ℕ = elim (find_bytes needle hay) [ none ↦ none | some i ↦ some (suc i) ] in
    if has_prefix needle (h ∷ hay) then some 0 else later

abbrev pub sentinel : Bytes
sentinel = 0xde ∷ 0xad ∷ 0xbe ∷ 0xef ∷ []

-- The scriptSig with the sentinel in the extranonce's place.
unfoldable pub script_sig : ℕ → Bytes → ℕ → Bytes
script_sig height tag en_total =
    encode_bip34_height height ++ (tag ++ (sentinel ++ replicate (en_total - 4) 0))

-- `for i in offset..offset + en_total.min(final_bytes.len() - offset) { final_bytes[i] = 0 }`.
unfoldable pub blank : ℕ → ℕ → Bytes → Bytes
blank offset en_total bytes =
    let n = min en_total (length bytes - offset) in
    take offset bytes ++ (replicate n 0 ++ drop (offset + n) bytes)

module _ (hex : Hex) (bitcoin : BitcoinCrate) where
  witness_outputs : Option Bytes → Result (List (ℕ × Bytes))
  witness_outputs none = ok []
  witness_outputs (some wc_hex) = elim (hex.decode wc_hex) [
    | none ↦ err other
    | some script ↦ ok ((0, script) ∷ [])
  ]

  reward_script : Bytes → Result Bytes
  reward_script address = elim (bitcoin.script_pubkey address) [
    | none ↦ err other
    | some script ↦ ok script
  ]

  locate : ℕ → Bytes → Result (Bytes × ℕ)
  locate en_total serialized = elim (find_bytes sentinel serialized) [
    | none ↦ err other
    | some offset ↦ ok (blank offset en_total serialized, offset)
  ]

  unfoldable pub build_coinbase : ℕ → ℕ → Bytes → Bytes → ℕ → ℕ → Option Bytes → Result (Bytes × ℕ)
  unfolding witness_outputs reward_script locate
  build_coinbase height reward address tag extranonce1_len extranonce2_len witness_commitment = do
    let en_total = extranonce1_len + extranonce2_len
    script ← reward_script address
    witness ← witness_outputs witness_commitment
    locate en_total
        (bitcoin.serialize (script_sig height tag en_total) ((reward, script) ∷ witness))
