-- ===== src/Session/Tally/Close.antt =====
-- Over a whole session, from its start to what follows the loop, the statistics balance.
use solo_pool_rs.Prelude.{
  ℕ, ◌≡◌, ◌≢◌, refl, ap, ◌&&◌, Option, none, some, List, [], ◌∷◌, ◌++◌, length, ◌≤◌, arith, if_elim,
  Option-cases, inl, inr,
}
use solo_pool_rs.Prelude.Bytes.{Bytes}
use solo_pool_rs.Template.Job.{StratumJob}
use solo_pool_rs.Template.PrevHash.{Hex}
use solo_pool_rs.Security.Guard.{SecurityConfig, new_guard}
use solo_pool_rs.Security.ShareRate.{ShareRateLimiter}
use solo_pool_rs.Vardiff.{F64, VardiffConfig, check_retarget}
use solo_pool_rs.Sv1.Json.{Json}
use solo_pool_rs.Session.State.{Session, new}
use solo_pool_rs.Session.Dispatch.{handle_line}
use solo_pool_rs.Session.Events.{
  Event, line_read, retarget_due, job_sent, lagged, too_long, read_ended, Loop, on_job, step, run,
  panicked, is_going, start, close,
}
use solo_pool_rs.Session.Invariant.{HasBand}
use solo_pool_rs.Session.Invariant.Run.{ValidLoop, step-IsValid, run-IsValid}
use solo_pool_rs.Session.Invariant.Start.{new-IsValid, start-IsValid}
use solo_pool_rs.Session.Submit.Settled.{credits}
use solo_pool_rs.Session.Tally.{online, offline, here}
use solo_pool_rs.Session.Tally.{online-append, offline-append}
use solo_pool_rs.Session.Tally.Run.{
  Balanced, line-Accounted, after_line-Balanced, after_retarget-Balanced,
}
use solo_pool_rs.Session.Invariant.Run.{StepsWell}

module _ (f : F64) (json : Json f) (hex : Hex) (size_text : ℕ → ℕ → Bytes)
    (sha256 : Bytes → Bytes) where
  step-Balanced :
      (event : Event) (l : Loop f json)
      → ValidLoop f json l
      → Balanced f json l
      → Balanced f json (step f json hex size_text sha256 event l)
  unfolding step on_job
  step-Balanced (line_read input measured_at line) l v b =
      after_line-Balanced f json measured_at
        (handle_line f json hex size_text sha256 input line l.session) l b
        (line-Accounted f json hex size_text sha256 input line l.session v)
  step-Balanced (retarget_due now reset_at later) l v b =
      if_elim (Balanced f json) (l.session.subscribed && l.session.authorized) _ _
        (λ _.
          after_retarget-Balanced f json (check_retarget f now reset_at later l.session.vardiff) l
            b)
        (λ _. b)
  step-Balanced (job_sent broadcast) l v b = b
  step-Balanced lagged l v b = b
  step-Balanced too_long l v b = b
  step-Balanced read_ended l v b = b

  run-Balanced :
      (events : List Event) (l : Loop f json)
      → StepsWell f json hex size_text sha256 l
      → Balanced f json l
      → Balanced f json (run f json hex size_text sha256 events l)
  unfolding run
  run-Balanced [] l v b = b
  run-Balanced (event ∷ events) l v b =
      if_elim (Balanced f json) (is_going l.next) _ _
        (λ _.
          run-Balanced events (step f json hex size_text sha256 event l)
            (step-IsValid f json hex size_text sha256 event l v) (step-Balanced event l v.0 b))
        (λ _. b)

  start-Balanced :
      (job : Option StratumJob) (s : Session f)
      → s.worker ≡ none
      → s.shares_accepted ≡ 0
      → Balanced f json (start f json job s)
  unfolding start online offline credits
  start-Balanced none s worker count = record {
    balance = λ w. omega (arith, ap (here w) worker);
    count = omega (arith, count);
  }
  start-Balanced (some job) s worker count = record {
    balance = λ w. omega (arith, ap (here w) worker);
    count = omega (arith, count);
  }

  closes :
      (now : ℕ) (s : Session f) (w : Bytes)
      → (online f w (close f now s) ≡ 0) × (offline f w (close f now s) ≡ here w s.worker)
  unfolding close online offline
  closes now s w = elim (Option-cases s.worker) [
    | inl e ↦ rw (close, e) (refl, refl)
    | inr (worker, e) ↦ rw (close, e) (refl, omega arith)
  ]

  -- Over a whole session whose first difficulty lies between the configured bounds, and with a
  -- retarget factor not below its inverse, whatever lines, jobs and retargets it meets and however
  -- the loop ends, it does not panic; every worker name is marked offline exactly as often as it was marked online, once the loop has
  -- ended; and as many shares are logged as the session counts as accepted.
  pub session-Balanced :
      (session_id extranonce1 : Bytes) (extranonce2_size initial_diff : ℕ) (cfg : VardiffConfig f)
      (security : SecurityConfig) (share_rate : ShareRateLimiter f) (now later : ℕ)
      (job : Option StratumJob) (events : List Event) (closed_at : ℕ) (w : Bytes)
      → cfg.min_difficulty ≤ initial_diff
      → initial_diff ≤ cfg.max_difficulty
      → HasBand f cfg
      → let s =
          new f session_id extranonce1 extranonce2_size initial_diff cfg
            (new_guard security)
            share_rate
            now
            later in
        let l = run f json hex size_text sha256 events (start f json job s) in
        let calls = l.calls ++ close f closed_at l.session in
        (l.next ≢ panicked)
        × (online f w calls ≡ offline f w calls)
        × (length (credits f l.calls) ≡ l.session.shares_accepted)
  unfolding new
  session-Balanced session_id extranonce1 extranonce2_size initial_diff cfg security share_rate now
        later job events closed_at w low high band =
      let s =
        new f session_id extranonce1 extranonce2_size initial_diff cfg (new_guard security)
          share_rate now later in
      let l = run f json hex size_text sha256 events (start f json job s) in
      let valid = start-IsValid f json job s (
        new-IsValid f session_id extranonce1 extranonce2_size initial_diff cfg security share_rate
          now later low high band) in
      let b = run-Balanced events (start f json job s) valid (start-Balanced job s refl refl) in
      let ended = closes closed_at l.session w in
      (
        (run-IsValid f json hex size_text sha256 events (start f json job s) valid).1,
        omega (
          arith,
          online-append f w l.calls (close f closed_at l.session),
          offline-append f w l.calls (close f closed_at l.session),
          b.balance w,
          ended.0,
          ended.1,
        ),
        omega (arith, b.count),
      )
