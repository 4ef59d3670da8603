-- ===== src/Vardiff.antt =====
-- src/mining/vardiff.rs: the variable difficulty of a session. Instants and durations are numbers of
-- nanoseconds, each reading of the clock is an argument, and `duration_since` stops at 0. The
-- operations of `f64` are a parameter.
pub mod Bounds
pub mod Schedule
pub mod Window
pub mod Config
use solo_pool_rs.Prelude.{
  ℕ, ◌+◌, ◌-◌, ◌*◌, Bool, true, false, ◌&&◌, not, Option, none, some, List, [], ◌∷◌, ◌++◌, keep,
  min, max, ltb, leb, ◌==◌, if◌then◌else◌,
}
use solo_pool_rs.Prelude.Words.{saturating_add_u64, u64_max}
use solo_pool_rs.Error.{Result, ok, panic, ◌>>=◌}

-- The operations of `f64` that the code uses: `as f64` of a u64, `as_secs_f64` of a duration, the
-- literal 1.5, arithmetic, comparison, `min`, `sqrt`, `is_finite`, `round() as u64` and `as u64`.
pub record F64 : Type 1 where
  pub Carrier : Type 0
  pub of_u64 : ℕ → Carrier
  pub as_secs : ℕ → Carrier
  pub one_and_half : Carrier
  pub div : Carrier → Carrier → Carrier
  pub mul : Carrier → Carrier → Carrier
  pub add : Carrier → Carrier → Carrier
  pub sub : Carrier → Carrier → Carrier
  pub fmin : Carrier → Carrier → Carrier
  pub le : Carrier → Carrier → Bool
  pub lt : Carrier → Carrier → Bool
  pub sqrt : Carrier → Carrier
  pub is_finite : Carrier → Bool
  pub round_u64 : Carrier → ℕ
  pub trunc_u64 : Carrier → ℕ

abbrev pub from_secs : ℕ → ℕ
from_secs secs = secs * 1_000_000_000

-- `SHARE_RETENTION`, `MIN_OBSERVATION`, `RETARGET_WINDOW_SHARES`.
abbrev pub share_retention : ℕ
share_retention = from_secs 86_400

abbrev pub min_observation : ℕ
min_observation = from_secs 30

abbrev pub retarget_window_shares : ℕ
retarget_window_shares = 20

abbrev pub saturating_mul_u64 : ℕ → ℕ → ℕ
saturating_mul_u64 a b = min (a * b) u64_max

-- `u64::clamp`, which panics on an empty range.
unfoldable pub clamp : ℕ → ℕ → ℕ → Result ℕ
clamp lo hi x =
    if ltb hi lo then panic else ok (if ltb x lo then lo else if ltb hi x then hi else x)

-- The arrival time and credited difficulty of a share.
abbrev pub Share : Type 0
Share = ℕ × ℕ

pub record ShareHistory : Type 0 where
  pub share_times : List Share
  pub started_at : ℕ

module _ (f : F64) where
  pub record VardiffConfig : Type 0 where
    pub min_difficulty : ℕ
    pub max_difficulty : ℕ
    pub target_share_time_secs : ℕ
    pub retarget_interval_secs : ℕ
    pub max_retarget_factor : f.Carrier

  pub record Vardiff : Type 0 where
    pub cfg : VardiffConfig
    pub share_times : List Share
    pub last_retarget : ℕ
    pub current : ℕ
    pub previous : ℕ
    pub started_at : ℕ
    pub suggest_applied : Bool

  unfoldable pub new : VardiffConfig → ℕ → ℕ → ℕ → Vardiff
  new cfg initial_difficulty now later = record {
    cfg = cfg;
    share_times = [];
    last_retarget = now;
    current = initial_difficulty;
    previous = initial_difficulty;
    started_at = later;
    suggest_applied = false;
  }

  unfoldable pub set_current : ℕ → Vardiff → Vardiff
  set_current difficulty v =
      if difficulty == v.current then v else record v { previous = v.current; current = difficulty }

  -- The fresh retarget window, granted once.
  unfoldable pub grant : ℕ → Vardiff → Vardiff
  grant now v =
      if v.suggest_applied then v else record v { suggest_applied = true; last_retarget = now }

  unfoldable pub suggest : ℕ → ℕ → Vardiff → Result (ℕ × Vardiff)
  unfolding set_current clamp grant
  suggest difficulty now v = do
    clamped ← clamp v.cfg.min_difficulty v.cfg.max_difficulty difficulty
    ok (clamped, grant now (set_current clamped v))

  unfoldable pub credit_for : Vardiff → ℕ → ℕ
  credit_for v hash_difficulty =
      if leb v.current hash_difficulty
      then v.current
      else if leb v.previous hash_difficulty
      then v.previous
      else v.cfg.min_difficulty

  -- `pop_front` while the front is older than the retention.
  unfoldable pub drop_old : ℕ → List Share → List Share
  drop_old now [] = []
  drop_old now ((t, d) ∷ shares) =
      let rest = drop_old now shares in
      if ltb share_retention (now - t) then rest else (t, d) ∷ shares

  unfoldable pub record_share : ℕ → ℕ → Vardiff → Vardiff
  unfolding drop_old
  record_share assigned_difficulty now v = record v {
    share_times = drop_old now (v.share_times ++ ((now, assigned_difficulty) ∷ []));
  }

  unfoldable pub take_share_history : ℕ → Vardiff → ShareHistory × Vardiff
  take_share_history now v = (
    record { share_times = v.share_times; started_at = v.started_at },
    record v { share_times = []; started_at = now },
  )

  -- `now.duration_since(t) <= window`.
  abbrev pub is_within : ℕ → ℕ → Share → Bool
  is_within window now share = leb (now - share.0) window

  unfoldable pub restore_share_history : ShareHistory → ℕ → Vardiff → Vardiff
  restore_share_history history now v = record v {
    share_times = keep (is_within share_retention now) history.share_times ++ v.share_times;
    started_at = min v.started_at history.started_at;
  }

  abbrev pub retarget_interval : Vardiff → ℕ
  retarget_interval v = from_secs v.cfg.retarget_interval_secs

  unfoldable pub retarget_due : Vardiff → ℕ
  retarget_due v = v.last_retarget + retarget_interval v

  -- `.fold(0u64, |sum, &(_, diff)| sum.saturating_add(diff))`.
  unfoldable pub sum_work : ℕ → List Share → ℕ
  sum_work sum [] = sum
  sum_work sum ((t, diff) ∷ shares) = sum_work (saturating_add_u64 sum diff) shares

  unfoldable pub work_in_window : ℕ → ℕ → Vardiff → ℕ × ℕ
  unfolding sum_work
  work_in_window window now v =
      (sum_work 0 (keep (is_within window now) v.share_times), min (now - v.started_at) window)

  -- `(1.0 / bound..=bound).contains(&ratio)`.
  abbrev pub in_band : f.Carrier → f.Carrier → Bool
  in_band bound ratio = f.le (f.div (f.of_u64 1) bound) ratio && f.le ratio bound

  -- `f64::clamp`, which panics unless `lo <= hi`.
  unfoldable pub clamp_f64 : f.Carrier → f.Carrier → f.Carrier → Result f.Carrier
  clamp_f64 lo hi x =
      if f.le lo hi
      then ok (let y = if f.lt x lo then lo else x in if f.lt hi y then hi else y)
      else panic

  -- The observed rate over the target rate.
  unfoldable pub observed_ratio : Vardiff → ℕ → ℕ → f.Carrier
  observed_ratio v work observed =
      let proven = if work == 0 then f.of_u64 v.current else f.of_u64 work in
      let ideal =
        f.div (f.mul proven (f.of_u64 v.cfg.target_share_time_secs)) (f.as_secs observed) in
      f.div ideal (f.of_u64 v.current)

  -- The difficulty that a ratio outside the band asks for.
  unfoldable pub stepped : Vardiff → f.Carrier → Result ℕ
  unfolding clamp_f64 clamp
  stepped v ratio = do
    let step = if in_band (f.of_u64 3) ratio then f.sqrt ratio else ratio
    let factor = v.cfg.max_retarget_factor
    clamped ← clamp_f64 (f.div (f.of_u64 1) factor) factor step
    clamp v.cfg.min_difficulty v.cfg.max_difficulty
        (f.round_u64 (f.mul (f.of_u64 v.current) clamped))

  unfoldable pub retarget : Vardiff → ℕ → ℕ → Result (Option ℕ × Vardiff)
  unfolding observed_ratio stepped set_current
  retarget v work observed =
      let ratio = observed_ratio v work observed in
      if f.le (f.as_secs observed) (f.of_u64 0)
      then ok (none, v)
      else if in_band f.one_and_half ratio
      then ok (none, v)
      else (stepped v ratio >>= λ new_diff.
          if new_diff == v.current
          then ok (none, v)
          else ok (some new_diff, set_current new_diff v))

  -- `check_retarget`; the clock is read to see whether a retarget is due, for its own time, and for
  -- the window.
  unfoldable pub check_retarget : ℕ → ℕ → ℕ → Vardiff → Result (Option ℕ × Vardiff)
  unfolding work_in_window retarget
  check_retarget now reset_at later v =
      let reset = record v { last_retarget = reset_at } in
      let lookback =
        max (from_secs (saturating_mul_u64 v.cfg.target_share_time_secs retarget_window_shares))
          (retarget_interval v) in
      let (work, observed) = work_in_window lookback later reset in
      if ltb (now - v.last_retarget) (retarget_interval v)
      then ok (none, v)
      else retarget reset work observed

  unfoldable pub estimated_hashrate_in_window : ℕ → ℕ → Vardiff → f.Carrier
  unfolding work_in_window
  estimated_hashrate_in_window window now v =
      let (sum_diff, observed) = work_in_window window now v in
      if ltb observed (min min_observation window)
      then f.of_u64 0
      else if sum_diff == 0
      then f.of_u64 0
      else f.div (f.mul (f.of_u64 sum_diff) (f.of_u64 4_294_967_296)) (f.as_secs observed)
