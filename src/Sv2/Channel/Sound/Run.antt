-- ===== src/Sv2/Channel/Sound/Run.antt =====
-- The loop of an SV2 session: no event makes it panic.
use solo_pool_rs.Prelude.{
  ℕ, ◌+◌, ◌<◌, ◌≤◌, ◌≢◌, Bool, not, Option, none, some, List, [], ◌∷◌, ◌&&◌, ltb, if◌then◌else◌,
  if_elim, Bool-cases, inl, inr,
}
use solo_pool_rs.Prelude.Bytes.{Bytes}
use solo_pool_rs.Error.{Result, ok, err, panic, Returns}
use solo_pool_rs.Template.Job.{StratumJob}
use solo_pool_rs.Template.PrevHash.{Hex}
use solo_pool_rs.Validator.Shares.{clear}
use solo_pool_rs.Security.Guard.{SessionGuard, check_message_size}
use solo_pool_rs.Security.ShareRate.{ShareRateLimiter, try_consume}
use solo_pool_rs.Vardiff as Vardiff
use solo_pool_rs.Vardiff.{F64, Vardiff, VardiffConfig, check_retarget}
use solo_pool_rs.Vardiff.Bounds.{IsInRange}
use solo_pool_rs.Vardiff.Schedule.{check_retarget-Keeps}
use solo_pool_rs.Session.Events.{panicked, is_going}
use solo_pool_rs.Session.Invariant.{HasBand}
use solo_pool_rs.Sv2.Frame.{Wire}
use solo_pool_rs.Sv2.Job.{WireTypes}
use solo_pool_rs.Sv2.Channel.{Flow, continue, disconnect, Sv2Session, Handled, new, send_job}
use solo_pool_rs.Sv2.Channel.Send.{send_job-keeps}
use solo_pool_rs.Sv2.Channel.Dispatch.{
  Inbound, setup_connection, open_extended_mining_channel, submit_shares_extended, unhandled,
  MessageInput, dispatch, handle_message, retargeted, on_retarget, on_job,
}
use solo_pool_rs.Sv2.Channel.Events.{
  Event, message_read, retarget_due, job_sent, lagged, read_ended, Loop, flow_next, taken,
  after_message, on_message, step, run, start,
}
use solo_pool_rs.Sv2.Channel.Sound.{IsSound, Keeps, setup-IsSound, open-IsSound, submit-IsSound}

module _ (f : F64) (wire : Wire) (types : WireTypes) (hex : Hex) (sha256 : Bytes → Bytes) where
  dispatch-IsSound :
      (input : MessageInput) (msg : Inbound) (s : Sv2Session f)
      → IsSound f s
      → Returns (Keeps f) (dispatch f wire types hex sha256 input msg s)
  unfolding dispatch
  dispatch-IsSound input (setup_connection setup) s v = setup-IsSound f wire setup s v
  dispatch-IsSound input (open_extended_mining_channel open_) s v =
      open-IsSound f wire types hex input.opening open_ s v
  dispatch-IsSound input (submit_shares_extended submit) s v =
      submit-IsSound f wire types hex sha256 input.submitting submit s v
  dispatch-IsSound input unhandled s v = v

  message-IsSound :
      (input : MessageInput) (msg : Inbound) (s : Sv2Session f)
      → IsSound f s
      → Returns (Keeps f) (handle_message f wire types hex sha256 input msg s)
  unfolding handle_message
  message-IsSound input msg s v =
      let limited = try_consume f input.limited_at input.refilled_at s.share_rate in
      let consumed : IsSound f (record s { share_rate = limited.1 }) = record {
        reserved = v.reserved;
        range = v.range;
        band = v.band;
      } in
      if_elim (Returns (Keeps f)) (not limited.0) _ _ (λ _. consumed)
        (λ _. dispatch-IsSound input msg (record s { share_rate = limited.1 }) consumed)

  retargeted-IsSound :
      (r : Option ℕ × Vardiff f) (s : Sv2Session f)
      → 0 < s.extranonce_total
      → IsInRange f r.1
      → HasBand f r.1.cfg
      → Keeps f (retargeted f wire types hex sha256 r s)
  unfolding retargeted
  retargeted-IsSound (none, vardiff) s pos range band = record {
    reserved = pos;
    range = range;
    band = band;
  }
  retargeted-IsSound (some new_diff, vardiff) s pos range band = record {
    reserved = pos;
    range = range;
    band = band;
  }

  retarget-IsSound :
      (now reset_at later : ℕ) (s : Sv2Session f)
      → IsSound f s
      → Returns (Keeps f) (on_retarget f wire types hex sha256 now reset_at later s)
  unfolding on_retarget
  retarget-IsSound now reset_at later s v =
      let (r, e, moves, range, same) =
        check_retarget-Keeps f now reset_at later s.vardiff v.range v.band in
      if_elim (Returns (Keeps f)) s.channel_open _ _
        (λ _. rw e (retargeted-IsSound r s v.reserved range (rw same v.band))) (λ _. v)

  job-IsSound :
      (job : StratumJob) (clean : Bool) (s : Sv2Session f)
      → IsSound f s
      → Keeps f (on_job f wire types hex sha256 job clean s)
  unfolding on_job
  job-IsSound job clean s v =
      let cleared : Sv2Session f = record s {
        share_set = if clean then clear s.share_set else s.share_set;
      } in
      let after = send_job f wire types hex job clean cleared in
      let sent : IsSound f after.1 =
        rw (send_job-keeps f wire types hex job clean cleared)
          (record { reserved = v.reserved; range = v.range; band = v.band }) in
      if_elim {A = Handled f} (Keeps f) s.channel_open _ _
        (λ _.
          if_elim {A = Sv2Session f} (IsSound f) after.0 _ _
            (λ _. record { reserved = sent.reserved; range = sent.range; band = sent.band })
            (λ _. sent))
        (λ _. record { reserved = v.reserved; range = v.range; band = v.band })

module _ (f : F64) where
  -- The session is sound and no handler has panicked.
  abbrev RunsOn : Loop f → Type 0
  RunsOn l = IsSound f l.session × (l.next ≢ panicked)

  flow_next-no_panic : (flow : Flow) → flow_next flow ≢ panicked
  unfolding flow_next
  flow_next-no_panic continue = λ e. cc
  flow_next-no_panic (disconnect reason) = λ e. cc

  taken-RunsOn : (r : Result (Handled f)) (l : Loop f) → Returns (Keeps f) r → RunsOn (taken f r l)
  unfolding taken
  taken-RunsOn (ok h) l v = (v, flow_next-no_panic h.flow)
  taken-RunsOn (err e) l v = absurd v
  taken-RunsOn panic l v = absurd v

  after_message-RunsOn :
      (now : ℕ) (r : Result (Handled f)) (l : Loop f)
      → Returns (Keeps f) r
      → RunsOn (after_message f now r l)
  unfolding after_message
  after_message-RunsOn now r l v =
      let m = taken f r l in
      if_elim RunsOn (is_going m.next && m.session.channel_open) _ _ (λ _. taken-RunsOn r l v)
        (λ _. taken-RunsOn r l v)

module _ (f : F64) (wire : Wire) (types : WireTypes) (hex : Hex) (sha256 : Bytes → Bytes) where
  message-RunsOn :
      (input : MessageInput) (measured_at size : ℕ) (msg : Inbound) (l : Loop f)
      → RunsOn f l
      → RunsOn f (on_message f wire types hex sha256 input measured_at size msg l)
  unfolding on_message check_message_size
  message-RunsOn input measured_at size msg l (v, alive) =
      elim (Bool-cases (ltb l.session.guard.max_message_bytes size)) [
        | inl long ↦ rw (on_message, long) (v, λ e. cc)
        | inr short ↦
            rw (on_message, short)
              (after_message-RunsOn f measured_at
                (handle_message f wire types hex sha256 input msg l.session) l
                (message-IsSound f wire types hex sha256 input msg l.session v))
      ]

  step-RunsOn :
      (event : Event) (l : Loop f) → RunsOn f l → RunsOn f (step f wire types hex sha256 event l)
  unfolding step
  step-RunsOn (message_read input measured_at size msg) l v =
      message-RunsOn input measured_at size msg l v
  step-RunsOn (retarget_due now reset_at later) l (v, alive) =
      taken-RunsOn f (on_retarget f wire types hex sha256 now reset_at later l.session) l
        (retarget-IsSound f wire types hex sha256 now reset_at later l.session v)
  step-RunsOn (job_sent broadcast) l (v, alive) =
      taken-RunsOn f (ok (on_job f wire types hex sha256 broadcast.job broadcast.clean l.session)) l
        (job-IsSound f wire types hex sha256 broadcast.job broadcast.clean l.session v)
  step-RunsOn lagged l (v, alive) = (v, alive)
  step-RunsOn read_ended l (v, alive) = (v, λ e. cc)

  run-RunsOn :
      (events : List Event) (l : Loop f)
      → RunsOn f l
      → RunsOn f (run f wire types hex sha256 events l)
  unfolding run
  run-RunsOn [] l v = v
  run-RunsOn (event ∷ events) l v =
      if_elim (RunsOn f) (is_going l.next) _ _
        (λ _. run-RunsOn events (step f wire types hex sha256 event l) (step-RunsOn event l v))
        (λ _. v)

  start-RunsOn :
      (job : Option StratumJob) (s : Sv2Session f) → IsSound f s → RunsOn f (start f job s)
  unfolding start
  start-RunsOn none s v = (v, λ e. cc)
  start-RunsOn (some job) s v =
      (record { reserved = v.reserved; range = v.range; band = v.band }, λ e. cc)

  -- A session that reserves some extranonce, with a first difficulty between the configured bounds
  -- and a retarget factor not below its inverse, never panics.
  pub run-no_panic :
      (prefix : Bytes) (extranonce1_size extranonce2_size initial_diff : ℕ) (cfg : VardiffConfig f)
      (guard : SessionGuard) (share_rate : ShareRateLimiter f) (now later : ℕ)
      (job : Option StratumJob) (events : List Event)
      → 0 < extranonce1_size + extranonce2_size
      → cfg.min_difficulty ≤ initial_diff
      → initial_diff ≤ cfg.max_difficulty
      → HasBand f cfg
      → (run f wire types hex sha256 events (
          start f job (
            new f prefix extranonce1_size extranonce2_size initial_diff cfg guard share_rate now
              later))).next
        ≢ panicked
  unfolding new Vardiff.new
  run-no_panic prefix extranonce1_size extranonce2_size initial_diff cfg guard share_rate now later
        job events pos low high band =
      (run-RunsOn events _ (
        start-RunsOn job
          (new f prefix extranonce1_size extranonce2_size initial_diff cfg guard share_rate now
            later)
          (record {
            reserved = pos;
            range = record {
              current_low = low;
              current_high = high;
              previous_low = low;
              previous_high = high;
            };
            band = band;
          }))).1
