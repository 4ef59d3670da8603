-- ===== src/Sv2/Channel/Tally/Run.antt =====
-- Over a whole SV2 session, from its start to what follows the loop, the statistics balance.
use solo_pool_rs.Prelude.{
  ℕ, ◌+◌, ◌<◌, ◌≤◌, ◌≡◌, ◌≢◌, refl, ap, Bool, not, ◌&&◌, ltb, Option, none, some, List, [], ◌∷◌,
  ◌++◌, length, arith, if_elim, if◌then◌else◌, Option-cases, Bool-cases, inl, inr,
}
use solo_pool_rs.Prelude.Bytes.{Bytes}
use solo_pool_rs.Error.{Result, ok, err, panic}
use solo_pool_rs.Template.Job.{StratumJob}
use solo_pool_rs.Template.PrevHash.{Hex}
use solo_pool_rs.Security.Guard.{SessionGuard, check_message_size}
use solo_pool_rs.Security.ShareRate.{ShareRateLimiter, try_consume}
use solo_pool_rs.Vardiff.{F64, Vardiff, VardiffConfig, check_retarget}
use solo_pool_rs.Session.Events.{is_going, panicked, report_vardiff}
use solo_pool_rs.Session.Submit.Settled.{credits}
use solo_pool_rs.Session.Tally.{online, offline, here, Accounts, online-append, offline-append}
use solo_pool_rs.Sv2.Frame.{Wire}
use solo_pool_rs.Sv2.Job.{WireTypes}
use solo_pool_rs.Sv2.Channel.{Sv2Session, Handled, new, send_job}
use solo_pool_rs.Sv2.Channel.Dispatch.{
  Inbound, setup_connection, open_extended_mining_channel, submit_shares_extended, unhandled,
  MessageInput, dispatch, handle_message, retargeted, on_retarget, on_job,
}
use solo_pool_rs.Sv2.JobIds.{JobIds}
use solo_pool_rs.Validator.Shares.{clear}
use solo_pool_rs.Sv2.Channel.Send.{send_job-keeps}
use solo_pool_rs.Sv2.Channel.Events.{
  Event, message_read, retarget_due, job_sent, lagged, read_ended, Loop, report_hashrates, taken,
  after_message, on_message, step, run, start, close,
}
use solo_pool_rs.Session.Invariant.{HasBand}
use solo_pool_rs.Sv2.Channel.Sound.Run.{run-no_panic}
use solo_pool_rs.Sv2.Channel.Tally.{
  Whenever, Accounted, chain, silent, setup-Accounted, open-Accounted, submit-Accounted,
}

module _ (f : F64) (wire : Wire) (types : WireTypes) (hex : Hex) (sha256 : Bytes → Bytes) where
  dispatch-Accounted :
      (input : MessageInput) (msg : Inbound) (s : Sv2Session f)
      → Whenever (Accounted f s) (dispatch f wire types hex sha256 input msg s)
  unfolding dispatch
  dispatch-Accounted input (setup_connection setup) s = setup-Accounted f wire setup s
  dispatch-Accounted input (open_extended_mining_channel open_) s =
      open-Accounted f wire types hex input.opening open_ s
  dispatch-Accounted input (submit_shares_extended submit) s =
      submit-Accounted f wire types hex sha256 input.submitting submit s
  dispatch-Accounted input unhandled s = silent f s.worker s.shares_accepted

  message-Accounted :
      (input : MessageInput) (msg : Inbound) (s : Sv2Session f)
      → Whenever (Accounted f s) (handle_message f wire types hex sha256 input msg s)
  unfolding handle_message
  message-Accounted input msg s =
      let limited = try_consume f input.limited_at input.refilled_at s.share_rate in
      if_elim (Whenever (Accounted f s)) (not limited.0) _ _
        (λ _. silent f s.worker s.shares_accepted)
        (λ _. dispatch-Accounted input msg (record s { share_rate = limited.1 }))

  retargeted-Accounted :
      (r : Option ℕ × Vardiff f) (s : Sv2Session f)
      → Accounted f s (retargeted f wire types hex sha256 r s)
  unfolding retargeted
  retargeted-Accounted (none, vardiff) s = silent f s.worker s.shares_accepted
  retargeted-Accounted (some new_diff, vardiff) s = reported s.worker
    where
      reported :
          (o : Option Bytes)
          → Accounts f o s.shares_accepted o s.shares_accepted (report_vardiff f new_diff o)
      reported none = unfold report_vardiff in silent f none s.shares_accepted
      reported (some worker) =
          unfold report_vardiff online offline credits in
          record { balance = λ w. refl; count = omega arith }

  retarget-Accounted :
      (now reset_at later : ℕ) (s : Sv2Session f)
      → Whenever (Accounted f s) (on_retarget f wire types hex sha256 now reset_at later s)
  unfolding on_retarget
  retarget-Accounted now reset_at later s =
      if_elim (Whenever (Accounted f s)) s.channel_open _ _
        (λ _. retargets (check_retarget f now reset_at later s.vardiff))
        (λ _. silent f s.worker s.shares_accepted)
    where
      retargets :
          (r : Result (Option ℕ × Vardiff f))
          → Whenever (Accounted f s) (elim r [
            | ok r ↦ ok (retargeted f wire types hex sha256 r s)
            | err e ↦ err e
            | panic ↦ panic
          ])
      retargets (ok r) = retargeted-Accounted r s
      retargets (err e) = tt
      retargets panic = tt

  job-Accounted :
      (job : StratumJob) (clean : Bool) (s : Sv2Session f)
      → Accounted f s (on_job f wire types hex sha256 job clean s)
  unfolding on_job
  job-Accounted job clean s =
      let cleared : Sv2Session f = record s {
        share_set = if clean then clear s.share_set else s.share_set;
      } in
      let after = send_job f wire types hex job clean cleared in
      if_elim {A = Handled f} (Accounted f s) s.channel_open _ _
        (λ _.
          if_elim {A = Sv2Session f} Kept after.0 _ _
            (λ _. kept after.1 (send_job-keeps f wire types hex job clean cleared))
            (λ _. kept after.1 (send_job-keeps f wire types hex job clean cleared)))
        (λ _. silent f s.worker s.shares_accepted)
    where
      Kept : Sv2Session f → Type 0
      Kept t = Accounts f s.worker s.shares_accepted t.worker t.shares_accepted []

      kept :
          (t : Sv2Session f) {ids : JobIds}
          → t ≡ record s { share_set = if clean then clear s.share_set else s.share_set; ids = ids }
          → Kept t
      kept t same =
          unfold online offline credits in
          record {
            balance = λ w. omega (arith, ap (λ x. here w x.worker) same);
            count = omega (arith, ap (λ x. x.shares_accepted) same);
          }

module _ (f : F64) where
  -- All calls since the start account for the session.
  abbrev Balanced : Loop f → Type 0
  Balanced l = Accounts f none 0 l.session.worker l.session.shares_accepted l.calls

  taken-Balanced :
      (r : Result (Handled f)) (l : Loop f)
      → Balanced l
      → Whenever (Accounted f l.session) r
      → Balanced (taken f r l)
  unfolding taken
  taken-Balanced (ok h) l b a =
      chain f none l.session.worker h.session.worker 0 l.session.shares_accepted
        h.session.shares_accepted l.calls h.calls b a
  taken-Balanced (err e) l b a = b
  taken-Balanced panic l b a = b

  hashrates-Accounts :
      (now : ℕ) (s : Sv2Session f)
      → Accounts f s.worker s.shares_accepted s.worker s.shares_accepted (report_hashrates f now s)
  unfolding report_hashrates online offline credits
  hashrates-Accounts now s = elim (Option-cases s.worker) [
    | inl e ↦ rw (report_hashrates, e) (record { balance = λ w. refl; count = omega arith })
    | inr (worker, e) ↦
        rw (report_hashrates, e) (record { balance = λ w. refl; count = omega arith })
  ]

  after_message-Balanced :
      (now : ℕ) (r : Result (Handled f)) (l : Loop f)
      → Balanced l
      → Whenever (Accounted f l.session) r
      → Balanced (after_message f now r l)
  unfolding after_message
  after_message-Balanced now r l b a =
      let m = taken f r l in
      let balanced = taken-Balanced r l b a in
      if_elim Balanced (is_going m.next && m.session.channel_open) _ _
        (λ _.
          chain f none m.session.worker m.session.worker 0 m.session.shares_accepted
            m.session.shares_accepted m.calls (report_hashrates f now m.session) balanced
            (hashrates-Accounts now m.session))
        (λ _. balanced)

module _ (f : F64) (wire : Wire) (types : WireTypes) (hex : Hex) (sha256 : Bytes → Bytes) where
  message-Balanced :
      (input : MessageInput) (measured_at size : ℕ) (msg : Inbound) (l : Loop f)
      → Balanced f l
      → Balanced f (on_message f wire types hex sha256 input measured_at size msg l)
  unfolding on_message check_message_size
  message-Balanced input measured_at size msg l b =
      elim (Bool-cases (ltb l.session.guard.max_message_bytes size)) [
        | inl long ↦ rw (on_message, long) b
        | inr short ↦
            rw (on_message, short)
              (after_message-Balanced f measured_at
                (handle_message f wire types hex sha256 input msg l.session) l b
                (message-Accounted f wire types hex sha256 input msg l.session))
      ]

  step-Balanced :
      (event : Event) (l : Loop f)
      → Balanced f l
      → Balanced f (step f wire types hex sha256 event l)
  unfolding step
  step-Balanced (message_read input measured_at size msg) l b =
      message-Balanced input measured_at size msg l b
  step-Balanced (retarget_due now reset_at later) l b =
      taken-Balanced f (on_retarget f wire types hex sha256 now reset_at later l.session) l b
        (retarget-Accounted f wire types hex sha256 now reset_at later l.session)
  step-Balanced (job_sent broadcast) l b =
      taken-Balanced f (ok (on_job f wire types hex sha256 broadcast.job broadcast.clean l.session))
        l b (job-Accounted f wire types hex sha256 broadcast.job broadcast.clean l.session)
  step-Balanced lagged l b = b
  step-Balanced read_ended l b = b

  run-Balanced :
      (events : List Event) (l : Loop f)
      → Balanced f l
      → Balanced f (run f wire types hex sha256 events l)
  unfolding run
  run-Balanced [] l b = b
  run-Balanced (event ∷ events) l b =
      if_elim (Balanced f) (is_going l.next) _ _
        (λ _. run-Balanced events (step f wire types hex sha256 event l) (step-Balanced event l b))
        (λ _. b)

  start-Balanced :
      (job : Option StratumJob) (s : Sv2Session f)
      → s.worker ≡ none
      → s.shares_accepted ≡ 0
      → Balanced f (start f job s)
  unfolding start online offline credits
  start-Balanced none s worker count = record {
    balance = λ w. omega (arith, ap (here w) worker);
    count = omega (arith, count);
  }
  start-Balanced (some job) s worker count = record {
    balance = λ w. omega (arith, ap (here w) worker);
    count = omega (arith, count);
  }

  closes :
      (now : ℕ) (s : Sv2Session f) (w : Bytes)
      → (online f w (close f now s) ≡ 0) × (offline f w (close f now s) ≡ here w s.worker)
  unfolding close online offline
  closes now s w = elim (Option-cases s.worker) [
    | inl e ↦ rw (close, e) (refl, refl)
    | inr (worker, e) ↦ rw (close, e) (refl, omega arith)
  ]

  -- Over a whole SV2 session that reserves some extranonce, with a first difficulty between the
  -- configured bounds and a retarget factor not below its inverse, whatever messages, jobs and
  -- retargets it meets, no handler panics; every worker name is marked offline exactly as often as it
  -- was marked online, once the loop has ended; and as many shares are logged as the session counts
  -- as accepted.
  pub sv2_session-Balanced :
      (prefix : Bytes) (extranonce1_size extranonce2_size initial_diff : ℕ) (cfg : VardiffConfig f)
      (guard : SessionGuard) (share_rate : ShareRateLimiter f) (now later : ℕ)
      (job : Option StratumJob) (events : List Event) (closed_at : ℕ) (w : Bytes)
      → 0 < extranonce1_size + extranonce2_size
      → cfg.min_difficulty ≤ initial_diff
      → initial_diff ≤ cfg.max_difficulty
      → HasBand f cfg
      → let s =
          new f prefix extranonce1_size extranonce2_size initial_diff cfg guard share_rate now
            later in
        let l = run f wire types hex sha256 events (start f job s) in
        let calls = l.calls ++ close f closed_at l.session in
        (l.next ≢ panicked)
        × (online f w calls ≡ offline f w calls)
        × (length (credits f l.calls) ≡ l.session.shares_accepted)
  unfolding new
  sv2_session-Balanced prefix extranonce1_size extranonce2_size initial_diff cfg guard share_rate
        now later job events closed_at w pos low high band =
      let s =
        new f prefix extranonce1_size extranonce2_size initial_diff cfg guard share_rate now
          later in
      let l = run f wire types hex sha256 events (start f job s) in
      let b = run-Balanced events (start f job s) (start-Balanced job s refl refl) in
      let ended = closes closed_at l.session w in
      (
        run-no_panic f wire types hex sha256 prefix extranonce1_size extranonce2_size initial_diff
            cfg guard share_rate now later job events pos low high band,
        omega (
          arith,
          online-append f w l.calls (close f closed_at l.session),
          offline-append f w l.calls (close f closed_at l.session),
          b.balance w,
          ended.0,
          ended.1,
        ),
        omega (arith, b.count),
      )
