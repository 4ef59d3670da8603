-- ===== src/Vardiff/Schedule.antt =====
-- When the difficulty of a session is judged.
use solo_pool_rs.Prelude.{
  ℕ, ◌+◌, ◌-◌, ◌≤◌, ◌<◌, ◌≡◌, ◌⊎◌, ◌∙◌, refl, true, false, Option, none, List, [], ◌∷◌, ltb, max,
  ◌==◌, arith, if◌then◌else◌, Bool-cases, inl, inr,
}
use solo_pool_rs.Error.{Result, ok, ◌>>=◌}
use solo_pool_rs.Vardiff.{
  F64, Vardiff, set_current, grant, suggest, retarget_interval, retarget_due, work_in_window,
  from_secs, saturating_mul_u64, retarget_window_shares, check_retarget,
}
use solo_pool_rs.Vardiff.Bounds.{
  clamp-bounds, IsInRange, IsRetargeted, set_current-IsInRange, grant-IsInRange, suggest_ok,
  retarget-Retargets,
}

module _ (f : F64) where
  -- The session as it is judged, and the window that it is judged over.
  abbrev reset_to : ℕ → Vardiff f → Vardiff f
  reset_to reset_at v = record v { last_retarget = reset_at }

  abbrev evidence : ℕ → ℕ → Vardiff f → ℕ × ℕ
  evidence reset_at later v =
      work_in_window f
        (max (from_secs (saturating_mul_u64 v.cfg.target_share_time_secs retarget_window_shares))
          (retarget_interval f v))
        later (reset_to reset_at v)

  -- Whenever it is called, `check_retarget` gives a result that keeps the bounds and the configuration.
  pub check_retarget-Keeps :
      (now reset_at later : ℕ) (v : Vardiff f)
      → IsInRange f v
      → f.le (f.div (f.of_u64 1) v.cfg.max_retarget_factor) v.cfg.max_retarget_factor ≡ true
      → (r : Option ℕ × Vardiff f) × (check_retarget f now reset_at later v ≡ ok r)
        × IsRetargeted f v r
        × IsInRange f r.1
        × (r.1.cfg ≡ v.cfg)
  unfolding check_retarget
  check_retarget-Keeps now reset_at later v r band =
      elim (Bool-cases (ltb (now - v.last_retarget) (retarget_interval f v))) [
        | inl early ↦ ((none, v), rw (early, check_retarget) refl, (refl, refl), r, refl)
        | inr due ↦
            (let e = evidence reset_at later v in
              let in_range : IsInRange f (reset_to reset_at v) = record {
                current_low = r.current_low;
                current_high = r.current_high;
                previous_low = r.previous_low;
                previous_high = r.previous_high;
              } in
              let (out, runs, moves, bounds, _, cfg) =
                retarget-Retargets f (reset_to reset_at v) e.0 e.1 in_range band in
              (out, rw (due, check_retarget) runs, moves, bounds, cfg))
      ]

  -- In a session whose difficulties lie between the configured bounds, on a clock that does not run
  -- backwards, and with a factor not below its inverse, `check_retarget` does nothing before
  -- `retarget_due`. From then on it always restarts the interval, never fails, and
  -- either leaves the difficulty or moves it to another one between the bounds, which it reports,
  -- and keeps the old one for shares in flight.
  pub check_retarget_lem :
      (now reset_at later : ℕ) (v : Vardiff f)
      → IsInRange f v
      → f.le (f.div (f.of_u64 1) v.cfg.max_retarget_factor) v.cfg.max_retarget_factor ≡ true
      → v.last_retarget ≤ now
      → ((now < retarget_due f v) × (check_retarget f now reset_at later v ≡ ok (none, v)))
        ⊎ ((retarget_due f v ≤ now)
            × ((r : Option ℕ × Vardiff f) × (check_retarget f now reset_at later v ≡ ok r)
                × IsRetargeted f v r
                × IsInRange f r.1
                × (r.1.last_retarget ≡ reset_at)))
  unfolding check_retarget retarget_due
  check_retarget_lem now reset_at later v r band clock =
      elim (Bool-cases (ltb (now - v.last_retarget) (retarget_interval f v))) [
        | inl early ↦ inl (ground (arith, early), rw (early, check_retarget) refl)
        | inr due ↦
            (let e = evidence reset_at later v in
              let in_range : IsInRange f (reset_to reset_at v) = record {
                current_low = r.current_low;
                current_high = r.current_high;
                previous_low = r.previous_low;
                previous_high = r.previous_high;
              } in
              let (out, runs, moves, bounds, last, _) =
                retarget-Retargets f (reset_to reset_at v) e.0 e.1 in_range band in
              inr (ground (arith, due), (out, rw (due, check_retarget) runs, moves, bounds, last)))
      ]

  -- A run of suggestions, each with its time.
  unfoldable pub suggestions : List (ℕ × ℕ) → Vardiff f → Result (Vardiff f)
  suggestions [] v = ok v
  suggestions ((difficulty, now) ∷ ds) v = suggest f difficulty now v >>= λ r. suggestions ds r.1

  grant-due :
      (now : ℕ) (v : Vardiff f)
      → ((grant f now v).suggest_applied ≡ true)
        × (retarget_due f (grant f now v)
            ≡ (if v.suggest_applied then retarget_due f v else now + retarget_interval f v))
  unfolding grant retarget_due
  grant-due now v = elim (Bool-cases v.suggest_applied) [
    | inl e ↦ (ground (arith, e), ground (arith, e))
    | inr e ↦ (ground (arith, e), ground (arith, e))
  ]

  set_current-due :
      (d now : ℕ) (v : Vardiff f)
      → (let w = set_current f d v in
          if w.suggest_applied then retarget_due f w else now + retarget_interval f w)
        ≡ (if v.suggest_applied then retarget_due f v else now + retarget_interval f v)
  unfolding set_current retarget_due
  set_current-due d now v = elim (Bool-cases (d == v.current)) [
    | inl e ↦ rw (e, set_current) refl
    | inr e ↦ rw (e, set_current) refl
  ]

  suggest-due :
      (difficulty now : ℕ) (v : Vardiff f)
      → IsInRange f v
      → (c : ℕ) × (v' : Vardiff f) × (suggest f difficulty now v ≡ ok (c, v'))
        × IsInRange f v'
        × (v'.suggest_applied ≡ true)
        × (retarget_due f v'
            ≡ (if v.suggest_applied then retarget_due f v else now + retarget_interval f v))
  suggest-due difficulty now v r =
      let (c, e, lo, hi) =
        clamp-bounds v.cfg.min_difficulty v.cfg.max_difficulty difficulty
          (omega (arith, r.current_low, r.current_high)) in
      let granted = grant-due now (set_current f c v) in
      (
        c,
        grant f now (set_current f c v),
        suggest_ok f difficulty now c v e,
        grant-IsInRange f now (set_current f c v) (set_current-IsInRange f c v lo hi r),
        granted.0,
        granted.1 ∙ set_current-due c now v,
      )

  suggestions-due :
      (ds : List (ℕ × ℕ)) (v : Vardiff f)
      → IsInRange f v
      → v.suggest_applied ≡ true
      → (v' : Vardiff f) × (suggestions ds v ≡ ok v') × (retarget_due f v' ≡ retarget_due f v)
  unfolding suggestions
  suggestions-due [] v r applied = (v, refl, refl)
  suggestions-due ((difficulty, now) ∷ ds) v r applied =
      let (c, v1, e, r1, applied1, due) = suggest-due difficulty now v r in
      let (v', e', due') = suggestions-due ds v1 r1 applied1 in
      (v', rw (suggestions, e) e', due' ∙ due ∙ rw applied refl)

  -- In a session whose difficulties lie between the configured bounds and that has no suggestion
  -- yet, however many a client sends, and however fast, only its first suggestion moves
  -- the next retarget, to one interval after it; the client cannot put the retarget off by
  -- suggesting again. No suggestion fails.
  pub suggestions_due_once :
      (difficulty now : ℕ) (ds : List (ℕ × ℕ)) (v : Vardiff f)
      → IsInRange f v
      → v.suggest_applied ≡ false
      → (v' : Vardiff f) × (suggestions ((difficulty, now) ∷ ds) v ≡ ok v')
        × (retarget_due f v' ≡ now + retarget_interval f v)
  unfolding suggestions
  suggestions_due_once difficulty now ds v r fresh =
      let (c, v1, e, r1, applied1, due) = suggest-due difficulty now v r in
      let (v', e', due') = suggestions-due ds v1 r1 applied1 in
      (v', rw (suggestions, e) e', due' ∙ due ∙ rw fresh refl)
