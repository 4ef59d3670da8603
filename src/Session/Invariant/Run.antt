-- ===== src/Session/Invariant/Run.antt =====
-- Every line and every event of the loop keeps the invariant, and every line is answered.
use solo_pool_rs.Prelude.{
  ℕ, ◌≡◌, ◌≢◌, ◌∙◌, sym, refl, Bool, not, ◌&&◌, Option, none, some, List, [], ◌∷◌, if_elim, inl,
  inr,
}
use solo_pool_rs.Prelude.Bytes.{Bytes}
use solo_pool_rs.Error.{Result, ok, err, panic, Returns, NoPanic, NoPanic-cases}
use solo_pool_rs.Template.Job.{StratumJob}
use solo_pool_rs.Template.PrevHash.{Hex}
use solo_pool_rs.Validator.Shares.Invariant as SharesInvariant
use solo_pool_rs.Security.ShareRate.{try_consume}
use solo_pool_rs.Vardiff as Vardiff
use solo_pool_rs.Vardiff.{F64, check_retarget}
use solo_pool_rs.Vardiff.Bounds.{IsInRange, IsRetargeted}
use solo_pool_rs.Vardiff.Schedule.{check_retarget-Keeps}
use solo_pool_rs.Sv1.Json.{Json}
use solo_pool_rs.Sv1.Parse.{
  ClientMessage, subscribe, authorize, submit, configure, suggest_difficulty, unknown,
  StratumRequest, parse_line, from_request,
}
use solo_pool_rs.Sv1.Parse.Total.{parse_line-NoPanic, from_request-NoPanic}
use solo_pool_rs.Session.State.{HandleResult, messages, disconnect, Session, Handled}
use solo_pool_rs.Session.Setup.{handle_configure}
use solo_pool_rs.Session.Dispatch.{LineInput, is_blank, dispatch, handle_request, handle_line}
use solo_pool_rs.Session.Events.{
  Event, panicked, line_read, retarget_due, job_sent, lagged, too_long, read_ended, Loop,
  after_line, after_retarget, on_job, step, run, is_going,
}
use solo_pool_rs.Session.Invariant.{
  IsValid, negotiate-IsValid, suggest-IsValid, subscribe-IsValid, vardiff_sound,
}
use solo_pool_rs.Session.Invariant.Authorize.{authorize-IsValid}
use solo_pool_rs.Session.Invariant.Submit.{Keeps, submit-IsValid}

module _ (f : F64) (json : Json f) (hex : Hex) (size_text : ℕ → ℕ → Bytes)
    (sha256 : Bytes → Bytes) where
  dispatch-IsValid :
      (input : LineInput) (id : json.Value) (msg : ClientMessage) (s : Session f)
      → IsValid f s
      → Returns (Keeps f json) (dispatch f json hex size_text sha256 input id msg s)
  unfolding dispatch handle_configure
  dispatch-IsValid input id (configure params) s v = negotiate-IsValid f params s v
  dispatch-IsValid input id (subscribe params) s v = subscribe-IsValid f json hex id params s v
  dispatch-IsValid input id (authorize params) s v =
      authorize-IsValid f json hex size_text input.authorizing id params s v
  dispatch-IsValid input id (submit params) s v =
      submit-IsValid f json hex size_text sha256 input.submitting id params s v
  dispatch-IsValid input id (suggest_difficulty params) s v =
      suggest-IsValid f json input.suggested_at id params s v
  dispatch-IsValid input id (unknown method) s v = v

  request-IsValid :
      (input : LineInput) (r : Result (StratumRequest f json)) (s : Session f)
      → NoPanic r
      → IsValid f s
      → Returns (Keeps f json) (handle_request f json hex size_text sha256 input r s)
  unfolding handle_request
  request-IsValid input (ok req) s h v =
      elim (NoPanic-cases (from_request f json hex req) (from_request-NoPanic f json hex req)) [
        | inl (msg, e) ↦ rw (handle_request, e) (dispatch-IsValid input req.id msg s v)
        | inr (er, e) ↦ rw (handle_request, e) v
      ]
  request-IsValid input (err e) s h v = v
  request-IsValid input panic s h v = h

  -- Every line of a valid session is answered, by messages or a disconnection and never by a panic,
  -- whatever its bytes are, and leaves a valid session.
  pub handle_line-IsValid :
      (input : LineInput) (line : Bytes) (s : Session f)
      → IsValid f s
      → Returns (Keeps f json) (handle_line f json hex size_text sha256 input line s)
  unfolding handle_line
  handle_line-IsValid input line s v =
      if_elim (Returns (Keeps f json)) (is_blank line) _ _ (λ _. v)
        (λ _.
          if_elim (Returns (Keeps f json))
            (not (try_consume f input.limited_at input.refilled_at s.share_rate).0) _ _
            (λ _. consumed)
            (λ _.
              request-IsValid input (parse_line f json line)
                (record s {
                  share_rate = (try_consume f input.limited_at input.refilled_at s.share_rate).1;
                })
                (parse_line-NoPanic f json line) consumed))
    where
      consumed : IsValid f (record s {
        share_rate = (try_consume f input.limited_at input.refilled_at s.share_rate).1;
      })
      consumed = record { set_up = v.set_up; named = v.named; sound = v.sound }

module _ (f : F64) (json : Json f) where
  -- A loop whose session is valid.
  abbrev pub ValidLoop : Loop f json → Type 0
  ValidLoop l = IsValid f l.session

  after_line-IsValid :
      (now : ℕ) (r : Result (Handled f json.Value)) (l : Loop f json)
      → Returns (Keeps f json) r
      → ValidLoop (after_line f json now r l) × ((after_line f json now r l).next ≢ panicked)
  unfolding after_line
  after_line-IsValid now (ok h) l v = answered h.answer refl
    where
      answered :
          (a : HandleResult json.Value)
          → h.answer ≡ a
          → ValidLoop (after_line f json now (ok h) l)
            × ((after_line f json now (ok h) l).next ≢ panicked)
      answered (messages msgs) e = rw (after_line, e) (v, λ x. cc)
      answered (disconnect reason) e = rw (after_line, e) (v, λ x. cc)
  after_line-IsValid now (err e) l v = absurd v
  after_line-IsValid now panic l v = absurd v

  after_retarget-IsValid :
      (r : Option ℕ × Vardiff.Vardiff f) (l : Loop f json)
      → ValidLoop l
      → l.next ≢ panicked
      → IsRetargeted f l.session.vardiff r
      → IsInRange f r.1
      → r.1.cfg ≡ l.session.vardiff.cfg
      → ValidLoop (after_retarget f json (ok r) l)
        × ((after_retarget f json (ok r) l).next ≢ panicked)
  unfolding after_retarget
  after_retarget-IsValid (none, vardiff) l v alive moves range same = (
    record {
      set_up = v.set_up;
      named = v.named;
      sound =
          vardiff_sound f l.session vardiff l.session.difficulty v.sound range
            (v.sound.assigned ∙ sym moves.0) same;
    },
    alive,
  )
  after_retarget-IsValid (some new_diff, vardiff) l v alive moves range same = (
    record {
      set_up = v.set_up;
      named = v.named;
      sound = vardiff_sound f l.session vardiff new_diff v.sound range (sym moves.0) same;
    },
    alive,
  )

  on_job-IsValid :
      (hex : Hex) (job : StratumJob) (clean : Bool) (l : Loop f json)
      → ValidLoop l
      → ValidLoop (on_job f json hex job clean l)
  unfolding on_job
  on_job-IsValid hex job clean l v = record {
    set_up = v.set_up;
    named = v.named;
    sound = record {
      narrowed = v.sound.narrowed;
      rolling = v.sound.rolling;
      range = v.sound.range;
      band = v.sound.band;
      assigned = v.sound.assigned;
      same_cfg = v.sound.same_cfg;
      deduplicates =
          if_elim SharesInvariant.IsValid clean _ _
            (λ _. SharesInvariant.clear-IsValid l.session.share_set v.sound.deduplicates)
            (λ _. v.sound.deduplicates);
    };
  }

module _ (f : F64) (json : Json f) (hex : Hex) (size_text : ℕ → ℕ → Bytes)
    (sha256 : Bytes → Bytes) where
  abbrev pub StepsWell : Loop f json → Type 0
  StepsWell l = ValidLoop f json l × (l.next ≢ panicked)

  pub step-IsValid :
      (event : Event) (l : Loop f json)
      → StepsWell l
      → StepsWell (step f json hex size_text sha256 event l)
  unfolding step
  step-IsValid (line_read input measured_at line) l (v, alive) =
      after_line-IsValid f json measured_at
        (handle_line f json hex size_text sha256 input line l.session) l
        (handle_line-IsValid f json hex size_text sha256 input line l.session v)
  step-IsValid (retarget_due now reset_at later) l (v, alive) =
      let (r, e, moves, range, same) =
        check_retarget-Keeps f now reset_at later l.session.vardiff v.sound.range v.sound.band in
      if_elim StepsWell (l.session.subscribed && l.session.authorized) _ _
        (λ _. rw e (after_retarget-IsValid f json r l v alive moves range same)) (λ _. (v, alive))
  step-IsValid (job_sent broadcast) l (v, alive) =
      (on_job-IsValid f json hex broadcast.job broadcast.clean l v, alive)
  step-IsValid lagged l (v, alive) = (v, alive)
  step-IsValid too_long l (v, alive) = (v, λ e. cc)
  step-IsValid read_ended l (v, alive) = (v, λ e. cc)

  pub run-IsValid :
      (events : List Event) (l : Loop f json)
      → StepsWell l
      → StepsWell (run f json hex size_text sha256 events l)
  unfolding run
  run-IsValid [] l v = v
  run-IsValid (event ∷ events) l v =
      if_elim StepsWell (is_going l.next) _ _
        (λ _.
          run-IsValid events (step f json hex size_text sha256 event l) (step-IsValid event l v))
        (λ _. v)
