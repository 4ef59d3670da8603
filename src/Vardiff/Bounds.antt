-- ===== src/Vardiff/Bounds.antt =====
-- The difficulties of a session, and what a share is credited with.
use solo_pool_rs.Prelude.{
  ℕ, ◌≤◌, ◌≡◌, ◌≢◌, ◌⊎◌, ◌∙◌, ap, refl, true, Option, none, some, ltb, ◌==◌, arith, if◌then◌else◌,
  Bool-cases, inl, inr,
}
use solo_pool_rs.Error.{Result, ok, ◌>>=◌}
use solo_pool_rs.Vardiff.{
  F64, Vardiff, clamp, set_current, grant, suggest, credit_for, stepped, observed_ratio, in_band,
  retarget, clamp_f64,
}

pub clamp-bounds : (lo hi x : ℕ) → lo ≤ hi → (y : ℕ) × (clamp lo hi x ≡ ok y) × (lo ≤ y) × (y ≤ hi)
unfolding clamp
clamp-bounds lo hi x h = elim (Bool-cases (ltb x lo)) [
  | inl low ↦ (lo, ground (arith, low), omega arith, h)
  | inr above ↦ elim (Bool-cases (ltb hi x)) [
    | inl high ↦ (hi, ground (arith, above, high), h, omega arith)
    | inr inside ↦ (x, ground (arith, above, inside), ground (arith, above), ground (arith, inside))
  ]
]

module _ (f : F64) where
  -- Both assignments lie between the configured bounds.
  pub record IsInRange (v : Vardiff f) : Type 0 where
    pub current_low : v.cfg.min_difficulty ≤ v.current
    pub current_high : v.current ≤ v.cfg.max_difficulty
    pub previous_low : v.cfg.min_difficulty ≤ v.previous
    pub previous_high : v.previous ≤ v.cfg.max_difficulty

  pub set_current-IsInRange :
      (d : ℕ) (v : Vardiff f)
      → v.cfg.min_difficulty ≤ d
      → d ≤ v.cfg.max_difficulty
      → IsInRange v
      → IsInRange (set_current f d v)
  unfolding set_current
  set_current-IsInRange d v lo hi r = elim (Bool-cases (d == v.current)) [
    | inl same ↦ rw (same, set_current) r
    | inr other ↦
        rw (other, set_current)
          (record {
            current_low = lo;
            current_high = hi;
            previous_low = r.current_low;
            previous_high = r.current_high;
          })
  ]

  credit_for-bounds :
      (v : Vardiff f) (hash_difficulty : ℕ)
      → IsInRange v
      → v.cfg.min_difficulty ≤ hash_difficulty
      → (credit_for f v hash_difficulty ≤ hash_difficulty)
        × (v.cfg.min_difficulty ≤ credit_for f v hash_difficulty)
        × (credit_for f v hash_difficulty ≤ v.cfg.max_difficulty)
  unfolding credit_for
  credit_for-bounds v h r le =
      ground (arith, r.current_low, r.current_high, r.previous_low, r.previous_high)

  pub set_current-current :
      (d : ℕ) (v : Vardiff f)
      → ((set_current f d v).current ≡ d)
        × ((d ≡ v.current) ⊎ ((set_current f d v).previous ≡ v.current))
        × ((set_current f d v).last_retarget ≡ v.last_retarget)
        × ((set_current f d v).cfg ≡ v.cfg)
        × ((set_current f d v).suggest_applied ≡ v.suggest_applied)
  unfolding set_current
  set_current-current d v = elim (Bool-cases (d == v.current)) [
    | inl same ↦
        rw (same, set_current) (ground (arith, same), inl (ground (arith, same)), refl, refl, refl)
    | inr other ↦ rw (other, set_current) (refl, inr refl, refl, refl, refl)
  ]

  pub grant-current :
      (now : ℕ) (v : Vardiff f)
      → ((grant f now v).current ≡ v.current)
        × ((grant f now v).previous ≡ v.previous)
        × ((grant f now v).cfg ≡ v.cfg)
  unfolding grant
  grant-current now v = elim (Bool-cases v.suggest_applied) [
    | inl e ↦ rw (e, grant) (refl, refl, refl)
    | inr e ↦ rw (e, grant) (refl, refl, refl)
  ]

  pub grant-IsInRange : (now : ℕ) (v : Vardiff f) → IsInRange v → IsInRange (grant f now v)
  grant-IsInRange now v r =
      let kept = grant-current now v in
      record {
        current_low = ground (arith, r.current_low, kept, ap (λ c. c.min_difficulty) kept.2);
        current_high = ground (arith, r.current_high, kept, ap (λ c. c.max_difficulty) kept.2);
        previous_low = ground (arith, r.previous_low, kept, ap (λ c. c.min_difficulty) kept.2);
        previous_high = ground (arith, r.previous_high, kept, ap (λ c. c.max_difficulty) kept.2);
      }

  pub suggest_ok :
      (difficulty now c : ℕ) (v : Vardiff f)
      → clamp v.cfg.min_difficulty v.cfg.max_difficulty difficulty ≡ ok c
      → suggest f difficulty now v ≡ ok (c, grant f now (set_current f c v))
  unfolding suggest
  suggest_ok difficulty now c v e =
      ap (λ r. r >>= λ clamped. ok (clamped, grant f now (set_current f clamped v))) e

  -- In a session whose current and previous difficulty lie between the configured bounds, a
  -- suggestion never panics, leaves the session at the value it reports, keeps a different
  -- assignment before it as the previous one, and leaves both between the bounds.
  pub suggest-IsInRange :
      (difficulty now : ℕ) (v : Vardiff f)
      → IsInRange v
      → (c : ℕ) × (v' : Vardiff f) × (suggest f difficulty now v ≡ ok (c, v'))
        × (v'.current ≡ c)
        × ((c ≡ v.current) ⊎ (v'.previous ≡ v.current))
        × IsInRange v'
  suggest-IsInRange difficulty now v r =
      let (c, e, lo, hi) =
        clamp-bounds v.cfg.min_difficulty v.cfg.max_difficulty difficulty
          (omega (arith, r.current_low, r.current_high)) in
      let moved = set_current-current c v in
      let granted = grant-current now (set_current f c v) in
      (
        c,
        grant f now (set_current f c v),
        suggest_ok difficulty now c v e,
        granted.0 ∙ moved.0,
        elim moved.1 [ inl same ↦ inl same | inr kept ↦ inr (granted.1 ∙ kept) ],
        grant-IsInRange now (set_current f c v) (set_current-IsInRange c v lo hi r),
      )

  -- What a retarget may do: nothing, or move the difficulty to another one between the bounds and
  -- keep the old one for shares in flight.
  abbrev pub IsRetargeted : Vardiff f → Option ℕ × Vardiff f → Type 0
  IsRetargeted v (none, v') = (v'.current ≡ v.current) × (v'.previous ≡ v.previous)
  IsRetargeted v (some d, v') = (v'.current ≡ d) × (v'.previous ≡ v.current) × (d ≢ v.current)

  stepped-bounds :
      (v : Vardiff f) (ratio : f.Carrier)
      → IsInRange v
      → f.le (f.div (f.of_u64 1) v.cfg.max_retarget_factor) v.cfg.max_retarget_factor ≡ true
      → (d : ℕ) × (stepped f v ratio ≡ ok d)
        × (v.cfg.min_difficulty ≤ d)
        × (d ≤ v.cfg.max_difficulty)
  unfolding stepped clamp_f64
  stepped-bounds v ratio r band =
      rw (band, stepped, clamp_f64)
        (clamp-bounds v.cfg.min_difficulty v.cfg.max_difficulty _
          (omega (arith, r.current_low, r.current_high)))

  -- A retarget's outcome: a session in range whose last retarget is the one it came with.
  abbrev pub Retargets : Vardiff f → Result (Option ℕ × Vardiff f) → Type 0
  Retargets v outcome =
      (r : Option ℕ × Vardiff f) × (outcome ≡ ok r)
      × IsRetargeted v r
      × IsInRange r.1
      × (r.1.last_retarget ≡ v.last_retarget)
      × (r.1.cfg ≡ v.cfg)

  moved :
      (v : Vardiff f) (d : ℕ)
      → IsInRange v
      → v.cfg.min_difficulty ≤ d
      → d ≤ v.cfg.max_difficulty
      → Retargets v (if d == v.current then ok (none, v) else ok (some d, set_current f d v))
  moved v d r lo hi = elim (Bool-cases (d == v.current)) [
    | inl same ↦ rw same ((none, v), refl, (refl, refl), r, refl, refl)
    | inr other ↦
        (let c = set_current-current d v in
          let differs : d ≢ v.current = λ e. absurd (ground (arith, e, other)) in
          rw other (
            (some d, set_current f d v),
            refl,
            (c.0, elim c.1 [ inl same ↦ absurd (differs same) | inr kept ↦ kept ], differs),
            set_current-IsInRange d v lo hi r,
            c.2,
            c.3,
          ))
  ]

  pub retarget-Retargets :
      (v : Vardiff f) (work observed : ℕ)
      → IsInRange v
      → f.le (f.div (f.of_u64 1) v.cfg.max_retarget_factor) v.cfg.max_retarget_factor ≡ true
      → Retargets v (retarget f v work observed)
  unfolding retarget
  retarget-Retargets v work observed r band =
      let ratio = observed_ratio f v work observed in
      let (d, e, lo, hi) = stepped-bounds v ratio r band in
      elim (Bool-cases (f.le (f.as_secs observed) (f.of_u64 0))) [
        | inl none_yet ↦ rw (none_yet, retarget) ((none, v), refl, (refl, refl), r, refl, refl)
        | inr some_time ↦ elim (Bool-cases (in_band f f.one_and_half ratio)) [
          | inl quiet ↦
              rw (some_time, quiet, retarget) ((none, v), refl, (refl, refl), r, refl, refl)
          | inr drifted ↦ rw (some_time, drifted, e, retarget) (moved v d r lo hi)
        ]
      ]
