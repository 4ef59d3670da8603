-- ===== src/Validator/Version.antt =====
-- `resolve_version` and `check_ntime`, on every input.
use solo_pool_rs.Prelude.{
  ℕ, ◌+◌, ◌-◌, ◌^◌, ◌≤◌, ◌<◌, ◌≡◌, ◌⊎◌, ap, inl, inr, refl, Option, none, some, arith, bit_and,
  bit_or, min, dec_lt, ◌==◌, Bool-cases,
}
use solo_pool_rs.Prelude.Bits.{
  bit, not32, bit-le-one, bit-bit_and, bit-bit_or, bit-not32, bit_and-lt, bit_or-lt, set_bit,
  bit-zero,
}
use solo_pool_rs.Error.{ok, err, invalid_params}
use solo_pool_rs.Validator.{mask_or_default, resolve_version, check_ntime}

-- A bit that is set in `bits` and not in `mask`.
abbrev pub HasBitOutside : ℕ → ℕ → Type 0
HasBitOutside bits mask = (n : ℕ) × (n < 32) × (bit n bits ≡ 1) × (bit n mask ≡ 0)

-- `v` takes the bits of the mask from `bits` and all others from `base`.
abbrev pub IsRolled : ℕ → ℕ → ℕ → ℕ → Type 0
IsRolled base bits mask v =
    (n : ℕ)
    → n < 32
    → (bit n mask ≡ 1 → bit n v ≡ bit n bits) × (bit n mask ≡ 0 → bit n v ≡ bit n base)

pub rolled :
    (base bits mask : ℕ)
    → mask < 2 ^ 32
    → IsRolled base bits mask (bit_or (bit_and base (not32 mask)) (bit_and bits mask))
rolled base bits mask h n lt =
    rw
      (
        bit-bit_or n (bit_and base (not32 mask)) (bit_and bits mask),
        bit-bit_and n base (not32 mask),
        bit-bit_and n bits mask,
        bit-not32 n mask lt h,
      )
      (λ e. omega (arith, bit-le-one n bits), λ e. omega (arith, bit-le-one n base))

outside :
    (bits mask : ℕ)
    → bits < 2 ^ 32
    → mask < 2 ^ 32
    → 0 < bit_and bits (not32 mask)
    → HasBitOutside bits mask
outside bits mask hb hm pos =
    let (n, lt, e) = set_bit (bit_and bits (not32 mask)) (bit_and-lt bits (not32 mask) hb) pos in
    (
      n,
      lt,
      omega (arith, e, bit-bit_and n bits (not32 mask), bit-le-one n bits),
      omega (arith, e, bit-bit_and n bits (not32 mask), bit-not32 n mask lt hm, bit-le-one n mask),
    )

inside :
    (bits mask n : ℕ)
    → mask < 2 ^ 32
    → n < 32
    → bit_and bits (not32 mask) ≡ 0
    → bit n bits ≤ bit n mask
inside bits mask n hm lt e = omega (
  arith,
  bit-bit_and n bits (not32 mask),
  ap (bit n) e,
  bit-zero n,
  bit-not32 n mask lt hm,
  bit-le-one n bits,
  bit-le-one n mask,
)

-- A share that rolls version bits is refused exactly if it sets a bit outside the mask in force;
-- else the version has the mask's bits from the share and every other bit from the job. A share
-- that rolls none gets the job's version.
pub resolve_version_lem :
    (base bits : ℕ) (negotiated : Option ℕ)
    → base < 2 ^ 32
    → bits < 2 ^ 32
    → mask_or_default negotiated < 2 ^ 32
    → let mask = mask_or_default negotiated in
      (resolve_version base none negotiated ≡ ok base)
      × ((HasBitOutside bits mask
            × (resolve_version base (some bits) negotiated ≡ err (invalid_params "mining.submit")))
          ⊎ (¬ HasBitOutside bits mask
              × ((v : ℕ) × (resolve_version base (some bits) negotiated ≡ ok v)
                  × (v < 2 ^ 32)
                  × IsRolled base bits mask v)))
unfolding resolve_version
resolve_version_lem base bits negotiated hbase hbits hmask = (
  refl,
  elim (Bool-cases (bit_and bits (not32 (mask_or_default negotiated)) == 0)) [
    | inl e ↦ inr (
      (λ (n, lt, set, clear).
          omega (arith, inside bits (mask_or_default negotiated) n hmask lt (ground arith))),
      (
        bit_or (bit_and base (not32 (mask_or_default negotiated)))
            (bit_and bits (mask_or_default negotiated)),
        rw e,
        bit_or-lt (bit_and base (not32 (mask_or_default negotiated)))
            (bit_and bits (mask_or_default negotiated))
            (bit_and-lt base (not32 (mask_or_default negotiated)) hbase)
            (bit_and-lt bits (mask_or_default negotiated) hbits),
        rolled base bits (mask_or_default negotiated) hmask,
      ),
    )
    | inr e ↦ inl (outside bits (mask_or_default negotiated) hbits hmask (ground arith), rw e)
  ],
)

-- A share's time is accepted exactly from the template's `mintime` to two hours past its
-- `curtime`, cut off at the largest u32; any other is refused as bad parameters.
pub check_ntime_lem :
    (ntime min_time cur_time : ℕ)
    → ((min_time ≤ ntime)
        × (ntime ≤ min (cur_time + 7200) (2 ^ 32 - 1))
        × (check_ntime ntime min_time cur_time ≡ ok tt))
      ⊎ (((ntime < min_time) ⊎ (min (cur_time + 7200) (2 ^ 32 - 1) < ntime))
          × (check_ntime ntime min_time cur_time ≡ err (invalid_params "mining.submit")))
unfolding check_ntime
check_ntime_lem ntime min_time cur_time = elim (dec_lt ntime min_time) [
  | yes early ↦ inr (inl early, ground arith)
  | no on_time ↦ elim (dec_lt (min (cur_time + 7200) (2 ^ 32 - 1)) ntime) [
    | yes late ↦ inr (inr late, ground arith)
    | no soon ↦ inl (omega arith, omega arith, ground arith)
  ]
]
