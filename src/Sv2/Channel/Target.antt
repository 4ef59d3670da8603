-- ===== src/Sv2/Channel/Target.antt =====
-- The target that a channel opens with.
use solo_pool_rs.Prelude.{ℕ, ◌/◌, ◌^◌, ◌≤◌, ◌<◌, ◌≡◌, ◌↔◌, true, false, max, min, arith, if_elim}
use solo_pool_rs.Prelude.Bytes.{value_le}
use solo_pool_rs.Template.Target.Division.{diff1}
use solo_pool_rs.Validator.Verdict.{IsHash}
use solo_pool_rs.Sv2.Frame.{OpenExtended}
use solo_pool_rs.Sv2.Job.{difficulty_to_sv2_target, sv2_target_le}
use solo_pool_rs.Sv2.Job.Target.{sv2_target_le_iff, difficulty_to_sv2_target-value}
use solo_pool_rs.Sv2.Channel.{open_target}

-- The target that a channel opens with is the lower of the difficulty's own and the device's
-- maximum, so it is never easier than the device accepts.
pub open_target-min :
    (open_ : OpenExtended) (d : ℕ)
    → IsHash open_.max_target
    → d < 2 ^ 64
    → (value_le (open_target open_ d) ≡ min (diff1 / max d 1) (value_le open_.max_target))
      × (sv2_target_le (open_target open_ d) open_.max_target ≡ true)
unfolding open_target
open_target-min open_ d width small =
    let target = difficulty_to_sv2_target d in
    let (value, hash) = difficulty_to_sv2_target-value d small in
    let same = sv2_target_le_iff target open_.max_target hash width in
    let own = sv2_target_le_iff open_.max_target open_.max_target width width in
    if_elim
      (λ t.
        (value_le t ≡ min (diff1 / max d 1) (value_le open_.max_target))
        × (sv2_target_le t open_.max_target ≡ true))
      (sv2_target_le target open_.max_target) _ _ (λ e. (omega (arith, value, same.0 e), e))
      (λ e. (harder value same e, own.1 (omega arith)))
  where
    harder :
        value_le (difficulty_to_sv2_target d) ≡ diff1 / max d 1
        → (sv2_target_le (difficulty_to_sv2_target d) open_.max_target ≡ true)
          ↔ (value_le (difficulty_to_sv2_target d) ≤ value_le open_.max_target)
        → sv2_target_le (difficulty_to_sv2_target d) open_.max_target ≡ false
        → value_le open_.max_target ≡ min (diff1 / max d 1) (value_le open_.max_target)
    harder value same e = ground (arith, value, same)
