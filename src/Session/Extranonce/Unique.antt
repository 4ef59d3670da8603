-- ===== src/Session/Extranonce/Unique.antt =====
-- The extranonces of different sessions.
use solo_pool_rs.Prelude.{
  ℕ, zero, suc, ◌+◌, ◌-◌, ◌*◌, ◌/◌, ◌%◌, ◌^◌, ◌≤◌, ◌<◌, ◌≡◌, ◌≢◌, ◌∙◌, ap, refl, sym, true, ◌∷◌,
  ◌++◌, reverse, length, drop, replicate, leb, arith, Bool-cases, inl, inr, drop_append,
  length-append, length-reverse, length-replicate,
}
use mathlib.Core.List.{reverse-append}
use solo_pool_rs.Prelude.Bytes.{
  Bytes, value_be, to_le_bytes, length-to_le_bytes, value_le-to_le_bytes, value_be-reverse,
  value_be-append,
}
use solo_pool_rs.Session.Extranonce.{sized, generate_extranonce1}

-- The low bytes of a number stand at the front of a wider writing of it.
to_le_bytes-cut :
    (n k c : ℕ)
    → n ≤ k
    → (rest : Bytes) × (to_le_bytes k c ≡ to_le_bytes n c ++ rest) × (length rest ≡ k - n)
unfolding to_le_bytes
to_le_bytes-cut zero k c h = (to_le_bytes k c, refl, length-to_le_bytes k c ∙ omega arith)
to_le_bytes-cut (suc n) zero c h = absurd (omega (arith, h))
to_le_bytes-cut (suc n) (suc k) c h =
    let (rest, e, len) = to_le_bytes-cut n k (c / 256) (omega (arith, h)) in
    (rest, ap (λ bs. c % 256 ∷ bs) e, omega (arith, len))

sized-short : (size c : ℕ) → size ≤ 8 → sized size c ≡ reverse (to_le_bytes size c)
unfolding sized
sized-short size c h =
    let (rest, e, len) = to_le_bytes-cut size 8 c h in
    let front : length (reverse rest) ≡ 8 - size = length-reverse rest ∙ len in
    rw (sized, leb_true size h)
      (ap (λ bs. drop (8 - size) (reverse bs)) e
        ∙ ap (drop (8 - size)) (reverse-append (to_le_bytes size c) rest)
        ∙ ap (λ n. drop n (reverse rest ++ reverse (to_le_bytes size c))) (sym front)
        ∙ drop_append (reverse rest) (reverse (to_le_bytes size c)))
  where
    leb_true : (n : ℕ) → n ≤ 8 → leb n 8 ≡ true
    leb_true n le = ground arith

value_be-zeros : (n : ℕ) → value_be (replicate n 0) ≡ 0
unfolding value_be
value_be-zeros zero = refl
value_be-zeros (suc n) = omega (arith, value_be-zeros n)

value_be-sized :
    (size c : ℕ)
    → c < 2 ^ 64
    → c < 256 ^ size
    → (value_be (sized size c) ≡ c) × (length (sized size c) ≡ size)
unfolding sized
value_be-sized size c word small = elim (Bool-cases (leb size 8)) [
  | inl short ↦
      (let e = sized-short size c (ground (arith, short)) in
        (
          ap value_be e ∙ value_be-reverse (to_le_bytes size c) ∙ value_le-to_le_bytes size c small,
          ap length e ∙ length-reverse (to_le_bytes size c) ∙ length-to_le_bytes size c,
        ))
  | inr long ↦
      rw (sized, long)
        (let bytes = reverse (to_le_bytes 8 c) in
          let wide : 8 < size = ground (arith, long) in
          (
            value_be-append (replicate (size - 8) 0) bytes
                ∙ ap (λ z. z * 256 ^ length bytes + value_be bytes) (value_be-zeros (size - 8))
                ∙ omega (
                  arith,
                  value_be-reverse (to_le_bytes 8 c),
                  value_le-to_le_bytes 8 c (omega (arith, word)),
                ),
            length-append (replicate (size - 8) 0) bytes
                ∙ omega (
                  arith,
                  length-replicate {A = ℕ} (size - 8) 0,
                  length-reverse (to_le_bytes 8 c),
                  length-to_le_bytes 8 c,
                  wide,
                ),
          ))
]

-- The counter after `n` calls, of the sizes given, from its first value 1. All sessions of the
-- process share it: an SV1 session calls once, an SV2 session when it starts and at each open, then
-- with a size that its device chooses.
unfoldable pub counter_after : (ℕ → ℕ) → ℕ → ℕ
counter_after sizes zero = 1
counter_after sizes (suc n) = (generate_extranonce1 (sizes n) (counter_after sizes n)).1

counter_after-eq : (sizes : ℕ → ℕ) (n : ℕ) → n + 1 < 2 ^ 64 → counter_after sizes n ≡ n + 1
unfolding counter_after generate_extranonce1
counter_after-eq sizes zero h = refl
counter_after-eq sizes (suc n) h = omega (arith, counter_after-eq sizes n (omega (arith, h)), h)

-- The extranonce of the call that `n` others precede.
abbrev pub nth_extranonce : (ℕ → ℕ) → ℕ → Bytes
nth_extranonce sizes n = (generate_extranonce1 (sizes n) (counter_after sizes n)).0

-- Of all calls of `generate_extranonce1` in a process, whatever the size of each, no two give the
-- same extranonce, and each has the size asked for, as long as the counter is in the range of 64 bits
-- and below 256 to the power of the size at both. An SV2 device that leaves the pool a prefix too
-- short for the counter, or none, is not covered.
pub nth_extranonce_distinct :
    (sizes : ℕ → ℕ) (i j : ℕ)
    → i + 1 < 2 ^ 64
    → i + 1 < 256 ^ sizes i
    → j + 1 < 2 ^ 64
    → j + 1 < 256 ^ sizes j
    → i ≢ j
    → (nth_extranonce sizes i ≢ nth_extranonce sizes j)
      × (length (nth_extranonce sizes i) ≡ sizes i)
      × (length (nth_extranonce sizes j) ≡ sizes j)
unfolding generate_extranonce1
nth_extranonce_distinct sizes i j wi si wj sj ne =
    let ci = counter_after-eq sizes i wi in
    let cj = counter_after-eq sizes j wj in
    let vi = value_be-sized (sizes i) (i + 1) wi si in
    let vj = value_be-sized (sizes j) (j + 1) wj sj in
    let ei : nth_extranonce sizes i ≡ sized (sizes i) (i + 1) = ap (sized (sizes i)) ci in
    let ej : nth_extranonce sizes j ≡ sized (sizes j) (j + 1) = ap (sized (sizes j)) cj in
    (
      λ e.
          let same : i + 1 ≡ j + 1 = sym vi.0 ∙ ap value_be (sym ei ∙ e ∙ ej) ∙ vj.0 in
          ne (omega (arith, same)),
      ap length ei ∙ vi.1,
      ap length ej ∙ vj.1,
    )
