-- ===== src/Sv1/Parse/RoundTrip.antt =====
-- The pool reads back what a miner writes in `mining.submit`.
use solo_pool_rs.Prelude.{
  ℕ, ◌^◌, ◌<◌, ◌≡◌, refl, ap, Option, none, some, List, [], ◌∷◌, get_elem?, arith,
}
use solo_pool_rs.Prelude.All.{All}
use solo_pool_rs.Prelude.Bytes.{IsByte}
use solo_pool_rs.Prelude.Words.{u32_from_hex}
use solo_pool_rs.Prelude.HexText.{format_hex, u32_from_hex-format_hex}
use solo_pool_rs.Error.{ok}
use solo_pool_rs.Template.PrevHash.{Hex}
use solo_pool_rs.Template.PrevHash.Swap.{HexLaws}
use solo_pool_rs.Vardiff.{F64}
use solo_pool_rs.Sv1.Json.{Json, JsonLaws}
use solo_pool_rs.Sv1.Parse.{SubmitParams, parse_submit, ◌and_then◌}

-- Eight hexadecimal digits carry a u32.
pub eight_digits : (x : ℕ) → x < 2 ^ 32 → u32_from_hex (format_hex 8 x) ≡ some x
eight_digits x h = u32_from_hex-format_hex 7 x h (omega arith)

module _ (f : F64) (json : Json f) where
  -- The rolled version bits, if the miner sends any.
  abbrev pub bits_field : Option ℕ → List json.Value
  bits_field none = []
  bits_field (some bits) = json.string (format_hex 8 bits) ∷ []

  -- A miner's `mining.submit` parameters.
  abbrev pub submit_value : Hex → SubmitParams → json.Value
  submit_value hex p = json.array (
      json.string p.worker
      ∷ json.string p.job_id
      ∷ json.string (hex.encode p.extranonce2)
      ∷ json.string (format_hex 8 p.ntime)
      ∷ json.string (format_hex 8 p.nonce)
      ∷ bits_field p.version_bits)

  abbrev pub IsU32 : Option ℕ → Type 0
  IsU32 none = Unit {0}
  IsU32 (some bits) = bits < 2 ^ 32

  bits-read :
      (laws : JsonLaws f json) (bits : Option ℕ)
      → IsU32 bits
      → (get_elem? (bits_field bits) 0 and_then json.as_str and_then u32_from_hex) ≡ bits
  bits-read laws none h = refl
  bits-read laws (some bits) h = rw (laws.as_str-string, eight_digits bits h) refl

  -- The parameters that a miner writes, the extranonce in hexadecimal and the time, the nonce and
  -- the version bits as eight hexadecimal digits, are read back as they were, with version bits or
  -- without.
  pub parse_submit-submit_value :
      (laws : JsonLaws f json) (hex : Hex) (hex_laws : HexLaws hex) (p : SubmitParams)
      → All IsByte p.extranonce2
      → p.ntime < 2 ^ 32
      → p.nonce < 2 ^ 32
      → IsU32 p.version_bits
      → parse_submit f json hex (submit_value hex p) ≡ ok p
  unfolding parse_submit
  parse_submit-submit_value laws hex hex_laws p bytes time nonce bits =
      let rest = bits_field p.version_bits in
      rw
        (
          parse_submit,
          laws.as_array-array,
          laws.as_str-string p.worker,
          laws.as_str-string p.job_id,
          laws.as_str-string (hex.encode p.extranonce2),
          laws.as_str-string (format_hex 8 p.ntime),
          laws.as_str-string (format_hex 8 p.nonce),
          hex_laws.decode-encode p.extranonce2 bytes,
          eight_digits p.ntime time,
          eight_digits p.nonce nonce,
        )
        (ap
          (λ b. ok (record {
            worker = p.worker;
            job_id = p.job_id;
            extranonce2 = p.extranonce2;
            ntime = p.ntime;
            nonce = p.nonce;
            version_bits = b;
          }))
          (bits-read laws p.version_bits bits))
