-- ===== src/Session/Told/Run.antt =====
-- The difficulty that the miner was told last, over the lines and the events of the loop.
use solo_pool_rs.Prelude.{
  ℕ, ◌≡◌, refl, subst, Bool, false, not, ◌&&◌, Option, none, some, List, [], ◌∷◌, ◌++◌, if_elim,
  inl, inr, arith,
}
use solo_pool_rs.Prelude.Bytes.{Bytes}
use solo_pool_rs.Error.{Result, ok, err, panic, Returns, NoPanic, NoPanic-cases}
use solo_pool_rs.Template.Job.{StratumJob}
use solo_pool_rs.Template.PrevHash.{Hex}
use solo_pool_rs.Security.ShareRate.{try_consume}
use solo_pool_rs.Vardiff as Vardiff
use solo_pool_rs.Vardiff.{F64, check_retarget}
use solo_pool_rs.Sv1.Json.{Json}
use solo_pool_rs.Sv1.Parse.{
  ClientMessage, subscribe, authorize, submit, configure, suggest_difficulty, unknown,
  StratumRequest, parse_line, from_request,
}
use solo_pool_rs.Sv1.Parse.Total.{parse_line-NoPanic, from_request-NoPanic}
use solo_pool_rs.Sv1.Reply.{notify}
use solo_pool_rs.Session.State.{HandleResult, messages, disconnect, Session, Handled}
use solo_pool_rs.Session.Setup.{build_notify}
use solo_pool_rs.Session.Dispatch.{LineInput, is_blank, dispatch, handle_request, handle_line}
use solo_pool_rs.Session.Events.{
  Event, line_read, retarget_due, job_sent, lagged, too_long, read_ended, Loop, after_line,
  after_retarget, on_job, start, step, run, is_going,
}
use solo_pool_rs.Session.Invariant.{IsValid}
use solo_pool_rs.Session.Invariant.Run.{StepsWell, step-IsValid}
use solo_pool_rs.Session.Told.{
  Tells, done, sets, says, job_of, error_of, Tells-append, IsTold, Hears, Informs, sent_by,
  Hears-nothing, Hears-other, configure-Informs, subscribe-Informs, suggest-Informs,
  authorize-Informs, submit-Informs,
}

module _ (f : F64) (json : Json f) (hex : Hex) (size_text : ℕ → ℕ → Bytes)
    (sha256 : Bytes → Bytes) where
  dispatch-Informs :
      (input : LineInput) (id : json.Value) (msg : ClientMessage) (s : Session f)
      → IsValid f s
      → Returns (Informs f json s) (dispatch f json hex size_text sha256 input id msg s)
  unfolding dispatch
  dispatch-Informs input id (configure params) s v = configure-Informs f json id params s
  dispatch-Informs input id (subscribe params) s v = subscribe-Informs f json hex id params s
  dispatch-Informs input id (authorize params) s v =
      authorize-Informs f json hex size_text input.authorizing id params s
  dispatch-Informs input id (submit params) s v =
      submit-Informs f json hex size_text sha256 input.submitting id params s
  dispatch-Informs input id (suggest_difficulty params) s v =
      suggest-Informs f json input.suggested_at id params s v
  dispatch-Informs input id (unknown method) s v =
      Hears-other f json s s _ (error_of id _) refl refl

  request-Informs :
      (input : LineInput) (r : Result (StratumRequest f json)) (s : Session f)
      → NoPanic r
      → IsValid f s
      → Returns (Informs f json s) (handle_request f json hex size_text sha256 input r s)
  unfolding handle_request
  request-Informs input (ok req) s h v =
      elim (NoPanic-cases (from_request f json hex req) (from_request-NoPanic f json hex req)) [
        | inl (msg, e) ↦ rw (handle_request, e) (dispatch-Informs input req.id msg s v)
        | inr (er, e) ↦
            rw (handle_request, e) (Hears-other f json s s _ (error_of req.id _) refl refl)
      ]
  request-Informs input (err e) s h v = Hears-nothing f json s s refl refl
  request-Informs input panic s h v = h

  pub line-Informs :
      (input : LineInput) (line : Bytes) (s : Session f)
      → IsValid f s
      → Returns (Informs f json s) (handle_line f json hex size_text sha256 input line s)
  unfolding handle_line
  line-Informs input line s v =
      let limited = try_consume f input.limited_at input.refilled_at s.share_rate in
      if_elim (Returns (Informs f json s)) (is_blank line) _ _
        (λ _. Hears-nothing f json s s refl refl)
        (λ _.
          if_elim (Returns (Informs f json s)) (not limited.0) _ _
            (λ _. Hears-nothing f json s (record s { share_rate = limited.1 }) refl refl)
            (λ _.
              request-Informs input (parse_line f json line) (record s { share_rate = limited.1 })
                (parse_line-NoPanic f json line)
                (record { set_up = v.set_up; named = v.named; sound = v.sound })))

module _ (f : F64) (json : Json f) where
  -- What was sent since the start tells an authorized miner the session's difficulty last.
  abbrev pub Informed : Loop f json → Type 0
  Informed l = (d : Option ℕ) × Tells f json none l.sent d × IsTold f json l.session d

  heard :
      (sent msgs : List json.Value) (s t : Session f)
      → (d : Option ℕ) × Tells f json none sent d × IsTold f json s d
      → Hears f json s msgs t
      → (d : Option ℕ) × Tells f json none (sent ++ msgs) d × IsTold f json t d
  heard sent msgs s t (d, tells, told) hears =
      let (e, more, last) = hears d told in (e, Tells-append f json tells more, last)

  silent :
      {c d e : Option ℕ} {sent : List json.Value}
      → Tells f json d [] e
      → Tells f json c sent d
      → Tells f json c sent e
  silent done t = t

  after_line-Informed :
      (now : ℕ) (r : Result (Handled f json.Value)) (l : Loop f json)
      → Informed l
      → Returns (Informs f json l.session) r
      → Informed (after_line f json now r l)
  unfolding after_line
  after_line-Informed now (ok h) l i hears = answered h.answer refl
    where
      answered :
          (a : HandleResult json.Value) → h.answer ≡ a → Informed (after_line f json now (ok h) l)
      answered (messages msgs) e =
          rw (after_line, e)
            (heard l.sent msgs l.session h.session i
              (subst (λ a. Hears f json l.session (sent_by f json a) h.session) e hears))
      answered (disconnect reason) e =
          rw (after_line, e)
            (let (d, more, last) =
                subst (λ a. Hears f json l.session (sent_by f json a) h.session) e hears i.0 i.2 in
              (d, silent more i.1, last))
  after_line-Informed now (err e) l i hears = absurd hears
  after_line-Informed now panic l i hears = absurd hears

  after_retarget-Informed :
      (r : Result (Option ℕ × Vardiff.Vardiff f)) (l : Loop f json)
      → Informed l
      → Informed (after_retarget f json r l)
  unfolding after_retarget
  after_retarget-Informed (ok (none, vardiff)) l i = i
  after_retarget-Informed (ok (some new_diff, vardiff)) l (d, tells, told) =
      (some new_diff, Tells-append f json tells (sets new_diff done), λ e. refl)
  after_retarget-Informed (err e) l i = i
  after_retarget-Informed panic l i = i

  on_job-Informed :
      (hex : Hex) (job : StratumJob) (clean : Bool) (l : Loop f json)
      → Informed l
      → Informed (on_job f json hex job clean l)
  unfolding on_job build_notify notify
  on_job-Informed hex job clean l i =
      if_elim (λ sent. (d : Option ℕ) × Tells f json none sent d × IsTold f json l.session d)
        (l.session.subscribed && l.session.authorized) _ _
        (λ _. (
          some l.session.difficulty,
          Tells-append f json i.1 (sets l.session.difficulty (says (job_of _) done)),
          λ e. refl,
        ))
        (λ _. i)

  pub start-Informed :
      (job : Option StratumJob) (s : Session f)
      → s.authorized ≡ false
      → Informed (start f json job s)
  unfolding start
  start-Informed none s fresh = (none, done, λ e. absurd (ground (arith, fresh, e)))
  start-Informed (some job) s fresh = (none, done, λ e. absurd (ground (arith, fresh, e)))

module _ (f : F64) (json : Json f) (hex : Hex) (size_text : ℕ → ℕ → Bytes)
    (sha256 : Bytes → Bytes) where
  step-Informed :
      (event : Event) (l : Loop f json)
      → IsValid f l.session
      → Informed f json l
      → Informed f json (step f json hex size_text sha256 event l)
  unfolding step
  step-Informed (line_read input measured_at line) l v i =
      after_line-Informed f json measured_at
        (handle_line f json hex size_text sha256 input line l.session) l i
        (line-Informs f json hex size_text sha256 input line l.session v)
  step-Informed (retarget_due now reset_at later) l v i =
      if_elim (Informed f json) (l.session.subscribed && l.session.authorized) _ _
        (λ _.
          after_retarget-Informed f json (check_retarget f now reset_at later l.session.vardiff) l
            i)
        (λ _. i)
  step-Informed (job_sent broadcast) l v i =
      on_job-Informed f json hex broadcast.job broadcast.clean l i
  step-Informed lagged l v i = i
  step-Informed too_long l v i = i
  step-Informed read_ended l v i = i

  pub run-Informed :
      (events : List Event) (l : Loop f json)
      → StepsWell f json hex size_text sha256 l
      → Informed f json l
      → Informed f json (run f json hex size_text sha256 events l)
  unfolding run
  run-Informed [] l v i = i
  run-Informed (event ∷ events) l v i =
      if_elim (Informed f json) (is_going l.next) _ _
        (λ _.
          run-Informed events (step f json hex size_text sha256 event l)
            (step-IsValid f json hex size_text sha256 event l v) (step-Informed event l v.0 i))
        (λ _. i)
