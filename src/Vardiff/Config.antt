-- ===== src/Vardiff/Config.antt =====
-- What a suggestion leaves, its configuration included.
use solo_pool_rs.Prelude.{ℕ, ◌≡◌, ◌∙◌, arith}
use solo_pool_rs.Error.{ok}
use solo_pool_rs.Vardiff.{F64, Vardiff, suggest, set_current, grant}
use solo_pool_rs.Vardiff.Bounds.{
  IsInRange, clamp-bounds, set_current-current, grant-current, suggest_ok, grant-IsInRange,
  set_current-IsInRange,
}

module _ (f : F64) where
  -- A suggestion that a session in range takes.
  pub record Assigns (difficulty now : ℕ) (v : Vardiff f) : Type 0 where
    pub applied : ℕ
    pub after : Vardiff f
    pub suggested : suggest f difficulty now v ≡ ok (applied, after)
    pub assigned : after.current ≡ applied
    pub range : IsInRange f after
    pub same_cfg : after.cfg ≡ v.cfg

  pub suggest-Assigns :
      (difficulty now : ℕ) (v : Vardiff f) → IsInRange f v → Assigns difficulty now v
  suggest-Assigns difficulty now v r =
      let (c, e, lo, hi) =
        clamp-bounds v.cfg.min_difficulty v.cfg.max_difficulty difficulty
          (omega (arith, r.current_low, r.current_high)) in
      let moved = set_current-current f c v in
      let granted = grant-current f now (set_current f c v) in
      record {
        applied = c;
        after = grant f now (set_current f c v);
        suggested = suggest_ok f difficulty now c v e;
        assigned = granted.0 ∙ moved.0;
        range = grant-IsInRange f now (set_current f c v) (set_current-IsInRange f c v lo hi r);
        same_cfg = granted.2 ∙ moved.3;
      }
