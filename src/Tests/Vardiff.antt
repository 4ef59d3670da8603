-- ===== src/Tests/Vardiff.antt =====
-- The theorems on the difficulty of a session, at a concrete session and concrete numbers for `f64`.
use solo_pool_rs.Prelude.{ℕ, ◌+◌, ◌≤◌, ◌<◌, ◌≡◌, ◌⊎◌, refl, false, Option, none, [], ◌∷◌, arith}
use solo_pool_rs.Error.{ok}
use solo_pool_rs.Tests.Doubles.{fixed}
use solo_pool_rs.Vardiff.{
  Vardiff, take_share_history, restore_share_history, retarget_interval, retarget_due,
  work_in_window, check_retarget,
}
use solo_pool_rs.Vardiff.Bounds.{IsInRange, IsRetargeted}
use solo_pool_rs.Vardiff.Schedule.{check_retarget_lem, suggestions, suggestions_due_once}
use solo_pool_rs.Vardiff.Window.{work_in_window_handoff}

abbrev session : Vardiff fixed
session = record {
  cfg = record {
    min_difficulty = 16;
    max_difficulty = 4_096;
    target_share_time_secs = 15;
    retarget_interval_secs = 90;
    max_retarget_factor = 4_000;
  };
  share_times = (1_000, 64) ∷ [];
  last_retarget = 0;
  current = 64;
  previous = 32;
  started_at = 500;
  suggest_applied = false;
}

session-IsInRange : IsInRange fixed session
session-IsInRange = record {
  current_low = omega arith;
  current_high = omega arith;
  previous_low = omega arith;
  previous_high = omega arith;
}

check_retarget_lem_example :
    ((100_000_000_000 < retarget_due fixed session)
      × (check_retarget fixed 100_000_000_000 100_000_000_001 100_000_000_002 session
          ≡ ok (none, session)))
    ⊎ ((retarget_due fixed session ≤ 100_000_000_000)
        × ((r : Option ℕ × Vardiff fixed) × (check_retarget fixed 100_000_000_000 100_000_000_001
                100_000_000_002 session
              ≡ ok r)
            × IsRetargeted fixed session r
            × IsInRange fixed r.1
            × (r.1.last_retarget ≡ 100_000_000_001)))
check_retarget_lem_example =
    check_retarget_lem fixed 100_000_000_000 100_000_000_001 100_000_000_002 session
      session-IsInRange refl (omega arith)

suggestions_due_once_example :
    (v' : Vardiff fixed) × (suggestions fixed ((8, 70) ∷ (9, 80) ∷ []) session ≡ ok v')
    × (retarget_due fixed v' ≡ 70 + retarget_interval fixed session)
suggestions_due_once_example =
    suggestions_due_once fixed 8 70 ((9, 80) ∷ []) session session-IsInRange refl

abbrev later_session : Vardiff fixed
later_session = record session { share_times = []; started_at = 9_000 }

work_in_window_handoff_example :
    work_in_window fixed 10_000 9_900
      (restore_share_history fixed (take_share_history fixed 8_000 session).0 9_500 later_session)
    ≡ work_in_window fixed 10_000 9_900 session
work_in_window_handoff_example =
    work_in_window_handoff fixed 10_000 9_900 9_500 8_000 session later_session (omega arith)
      (omega arith) refl (omega arith)
