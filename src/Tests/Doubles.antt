-- ===== src/Tests/Doubles.antt =====
-- Concrete functions for the crates that the model takes as parameters, and inputs.
use solo_pool_rs.Prelude.{
  leb, min, ◌+◌, ◌-◌, ◌*◌, ◌/◌, ℕ, zero, suc, ◌%◌, ◌<◌, ◌≡◌, refl, Bool, true, ◌&&◌, none, some,
  List, [], ◌∷◌, ◌++◌, length, replicate, arith, ltb, if◌then◌else◌, Bool-cases, ltb→lt,
}
use solo_pool_rs.Prelude.Bytes.{Bytes, IsByte}
use solo_pool_rs.Prelude.All.{All}
use solo_pool_rs.Template.PrevHash.{Hex}
use solo_pool_rs.Template.PrevHash.Swap.{HexLaws}
use solo_pool_rs.Template.Coinbase.{BitcoinCrate}
use solo_pool_rs.Template.Coinbase.Sentinel.{EmbedsScript}
use solo_pool_rs.Vardiff.{F64}
use solo_pool_rs.Validator.Verdict.{Sha256Laws}

-- A digest of 32 bytes that depends on the input's length alone.
abbrev pub length_digest : Bytes → Bytes
length_digest b = (length b % 256) ∷ replicate 31 0

pub length_digest-Sha256Laws : Sha256Laws length_digest
length_digest-Sha256Laws = record { digest = λ b. (refl, (below (length b), zero_bytes 31)) }
  where
    below : (n : ℕ) → n % 256 < 256
    below n = omega arith

    zero_bytes : (n : ℕ) → All IsByte (replicate n 0)
    zero_bytes zero = tt
    zero_bytes (suc n) = (omega arith, zero_bytes n)

unfoldable pub all_bytes : Bytes → Bool
all_bytes [] = true
all_bytes (x ∷ xs) = ltb x 256 && all_bytes xs

-- A codec that leaves the bytes as they are, and refuses what is not a byte.
abbrev pub plain_hex : Hex
plain_hex = record { encode = λ b. b; decode = λ t. if all_bytes t then some t else none }

all_bytes-All : (t : Bytes) → all_bytes t ≡ true → All IsByte t
unfolding all_bytes
all_bytes-All [] e = tt
all_bytes-All (x ∷ t) e = ground (arith, Bool-cases (ltb x 256), ltb→lt x 256, all_bytes-All t)

All-all_bytes : (t : Bytes) → All IsByte t → all_bytes t ≡ true
unfolding all_bytes
All-all_bytes [] h = refl
All-all_bytes (x ∷ t) h = ground (arith, All-all_bytes t h.1, h.0)

pub plain_hex-HexLaws : HexLaws plain_hex
plain_hex-HexLaws = record {
  decode-encode = λ b h. rw (All-all_bytes b h) refl;
  decode-IsByte = λ t b e. ground (arith, all_bytes-All t);
}

-- A transaction of one byte, the script, and the outputs' values.
abbrev pub plain_serialize : Bytes → List (ℕ × Bytes) → Bytes
plain_serialize script outputs = 0x01 ∷ (script ++ (0xff ∷ []))

abbrev pub plain_bitcoin : BitcoinCrate
plain_bitcoin = record { serialize = plain_serialize; script_pubkey = λ address. some address }

pub plain_bitcoin-EmbedsScript : EmbedsScript plain_bitcoin
plain_bitcoin-EmbedsScript = record {
  front = λ script outputs. 0x01 ∷ [];
  back = λ script outputs. 0xff ∷ [];
  embeds = λ script outputs. refl;
}

-- Fixed-point numbers of 1/1000 in the place of `f64`.
abbrev pub fixed : F64
fixed = record {
  Carrier = ℕ;
  of_u64 = λ n. n * 1_000;
  as_secs = λ t. t / 1_000_000;
  one_and_half = 1_500;
  div = λ a b. a * 1_000 / b;
  mul = λ a b. a * b / 1_000;
  add = λ a b. a + b;
  sub = λ a b. a - b;
  fmin = min;
  le = leb;
  lt = ltb;
  sqrt = λ a. a;
  is_finite = λ a. true;
  round_u64 = λ a. (a + 500) / 1_000;
  trunc_u64 = λ a. a / 1_000;
}
