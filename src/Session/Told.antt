-- ===== src/Session/Told.antt =====
-- Which of the messages that the handlers send tell the miner a difficulty.
pub mod Run
use solo_pool_rs.Prelude.{
  ℕ, ◌≡◌, ◌∙◌, refl, sym, subst, Bool, true, false, not, Option, none, some, List, [], ◌∷◌, ◌++◌,
  if◌then◌else◌, arith, if_elim, inl, inr, Bool-cases, Option-cases,
}
use solo_pool_rs.Prelude.Bytes.{Bytes}
use solo_pool_rs.Error.{Result, ok, err, panic, Returns, Returns-map}
use solo_pool_rs.Template.Job.{StratumJob}
use solo_pool_rs.Template.PrevHash.{Hex}
use solo_pool_rs.Security.Guard.{record_new_authorization}
use solo_pool_rs.Vardiff.{F64}
use solo_pool_rs.Vardiff.Config.{suggest-Assigns}
use solo_pool_rs.Sv1.Json.{Json, text}
use solo_pool_rs.Sv1.Parse.{
  ConfigureParams, SubscribeParams, SuggestDifficultyParams, AuthorizeParams, SubmitParams,
}
use solo_pool_rs.Sv1.Reply.{
  ok_reply, err_reply, notification, set_difficulty, notify, subscribe_reply, configure_reply,
}
use solo_pool_rs.Session.State.{
  StatCall, HandleResult, messages, disconnect, Session, Handled, unchanged,
}
use solo_pool_rs.Session.Setup.{
  AuthorizeInput, negotiate, handle_configure, handle_subscribe, handle_suggest_difficulty,
  job_at_hand, build_notify, welcome, switch_worker, admit, is_new_identity, handle_authorize,
}
use solo_pool_rs.Session.Submit.{SubmitInput, handle_submit}
use solo_pool_rs.Session.Submit.Settled.{IsRefusal, ended, error_told, IsUncounted}
use solo_pool_rs.Session.Submit.Credited.{IsCredited, submit-IsCredited}
use solo_pool_rs.Session.Invariant.{IsValid}
use solo_pool_rs.Session.Invariant.Authorize.{check_worker_name-cases}

module _ (f : F64) (json : Json f) where
  -- A message that is not of the difficulty: a reply, or a job.
  pub data IsOther : json.Value → Type 0 where
    result_of : (id result : json.Value) → IsOther (ok_reply f json id result)
    error_of : (id error : json.Value) → IsOther (err_reply f json id error)
    job_of :
        (params : List json.Value) → IsOther (notification f json (text "mining.notify") params)

  -- The difficulty told last, before some messages and after them.
  pub data Tells : Option ℕ → List json.Value → Option ℕ → Type 0 where
    done : {d : Option ℕ} → Tells d [] d
    sets :
        {d e : Option ℕ} {vs : List json.Value} (n : ℕ)
        → Tells (some n) vs e
        → Tells d (set_difficulty f json n ∷ vs) e
    says :
        {d e : Option ℕ} {v : json.Value} {vs : List json.Value}
        → IsOther v
        → Tells d vs e
        → Tells d (v ∷ vs) e

  pub Tells-append :
      {c d e : Option ℕ} {xs ys : List json.Value}
      → Tells c xs d
      → Tells d ys e
      → Tells c (xs ++ ys) e
  Tells-append done t = t
  Tells-append (sets n s) t = sets n (Tells-append s t)
  Tells-append (says o s) t = says o (Tells-append s t)

  -- An authorized miner was told the session's difficulty last.
  abbrev pub IsTold : Session f → Option ℕ → Type 0
  IsTold s d = s.authorized ≡ true → d ≡ some s.difficulty

  -- Messages after which a miner that was told the difficulty of `s` is told that of `t`.
  abbrev pub Hears : Session f → List json.Value → Session f → Type 0
  Hears s vs t = (d : Option ℕ) → IsTold s d → (e : Option ℕ) × Tells d vs e × IsTold t e

  -- What an answer sends; a disconnection sends nothing.
  abbrev pub sent_by : HandleResult json.Value → List json.Value
  sent_by (messages vs) = vs
  sent_by (disconnect reason) = []

  abbrev pub Informs : Session f → Handled f json.Value → Type 0
  Informs s h = Hears s (sent_by h.answer) h.session

  still-IsTold :
      (s t : Session f) (d : Option ℕ)
      → t.authorized ≡ s.authorized
      → t.difficulty ≡ s.difficulty
      → IsTold s d
      → IsTold t d
  still-IsTold s t d same_authorized same_difficulty told =
      λ e. rw same_difficulty (told (sym same_authorized ∙ e))

  pub Hears-nothing :
      (s t : Session f) → t.authorized ≡ s.authorized → t.difficulty ≡ s.difficulty → Hears s [] t
  Hears-nothing s t a b d told = (d, done, still-IsTold s t d a b told)

  pub Hears-other :
      (s t : Session f) (v : json.Value)
      → IsOther v
      → t.authorized ≡ s.authorized
      → t.difficulty ≡ s.difficulty
      → Hears s (v ∷ []) t
  Hears-other s t v o a b d told = (d, says o done, still-IsTold s t d a b told)

  pub configure-Informs :
      (id : json.Value) (params : ConfigureParams) (s : Session f)
      → Informs s (handle_configure f json id params s)
  unfolding handle_configure configure_reply negotiate
  configure-Informs id params s =
      let kept =
        if_elim {A = Session f} (λ t. (t.authorized ≡ s.authorized) × (t.difficulty ≡ s.difficulty))
          params.version_rolling _ _ (λ _. (refl, refl)) (λ _. (refl, refl)) in
      Hears-other s (negotiate f params s) _ (result_of id _) kept.0 kept.1

  pub subscribe-Informs :
      (hex : Hex) (id : json.Value) (params : SubscribeParams) (s : Session f)
      → Informs s (handle_subscribe f json hex id params s)
  unfolding handle_subscribe subscribe_reply
  subscribe-Informs hex id params s =
      Hears-other s (record s { subscribed = true; user_agent = params.user_agent }) _
        (result_of id _) refl refl

  -- A new difficulty, told at once to a miner that subscribed.
  suggested-Hears :
      (id : json.Value) (s t : Session f)
      → (t.authorized ≡ true → s.subscribed ≡ true)
      → Hears s
          (ok_reply f json id (json.bool true)
            ∷ (if s.subscribed then set_difficulty f json t.difficulty ∷ [] else []))
          t
  suggested-Hears id s t set_up d told = elim (Bool-cases s.subscribed) [
    | inl e ↦ rw e (some t.difficulty, says (result_of id _) (sets t.difficulty done), λ a. refl)
    | inr e ↦ rw e (d, says (result_of id _) done, λ a. absurd (ground (arith, set_up a, e)))
  ]

  pub suggest-Informs :
      (now : ℕ) (id : json.Value) (params : SuggestDifficultyParams) (s : Session f)
      → IsValid f s
      → Returns (Informs s) (handle_suggest_difficulty f json now id params s)
  unfolding handle_suggest_difficulty
  suggest-Informs now id params s v =
      let a = suggest-Assigns f params.difficulty now s.vardiff v.sound.range in
      rw (a.suggested, handle_suggest_difficulty)
        (suggested-Hears id s (record s { vardiff = a.after; difficulty = a.applied })
          (λ e. (v.set_up e).0))

  welcome-Informs :
      (hex : Hex) (input : AuthorizeInput) (id : json.Value) (params : AuthorizeParams)
      (s t : Session f) (calls : List (StatCall f))
      → Informs s (welcome f json hex input id params (t, calls))
  unfolding welcome build_notify notify
  welcome-Informs hex input id params s t calls d told =
      elim (Option-cases (job_at_hand t.current_job input.engine_job)) [
        | inl e ↦
            rw (welcome, e)
              (some t.difficulty, says (result_of id _) (sets t.difficulty done), λ a. refl)
        | inr (job, e) ↦
            rw (welcome, e)
              (
                some t.difficulty,
                says (result_of id _) (sets t.difficulty (says (job_of _) done)),
                λ a. refl,
              )
      ]

  admit-Informs :
      (hex : Hex) (input : AuthorizeInput) (id : json.Value) (params : AuthorizeParams)
      (s : Session f)
      → Informs s (admit f json hex input id params s)
  unfolding admit
  admit-Informs hex input id params s =
      let counted : Session f = record s { guard = (record_new_authorization s.guard).1 } in
      let switched = switch_worker f input params.worker counted in
      if_elim {A = Handled f json.Value} (Informs s) (is_new_identity s.worker params.worker) _ _
        (λ _.
          if_elim {A = Handled f json.Value} (Informs s) (record_new_authorization s.guard).0 _ _
            (λ _. welcome-Informs hex input id params s switched.0 switched.1)
            (λ _. Hears-nothing s counted refl refl))
        (λ _. welcome-Informs hex input id params s s [])

  pub authorize-Informs :
      (hex : Hex) (size_text : ℕ → ℕ → Bytes) (input : AuthorizeInput) (id : json.Value)
      (params : AuthorizeParams) (s : Session f)
      → Informs s (handle_authorize f json hex size_text input id params s)
  unfolding handle_authorize
  authorize-Informs hex size_text input id params s =
      if_elim {A = Handled f json.Value} (Informs s) (not s.subscribed) _ _
        (λ _. Hears-other s s _ (error_of id _) refl refl)
        (λ _. elim (check_worker_name-cases f s.guard params.worker) [
          | inl named ↦ rw named (admit-Informs hex input id params s)
          | inr (e, refused) ↦ rw refused (Hears-other s s _ (error_of id _) refl refl)
        ])

  refusal-Hears :
      (size_text : ℕ → ℕ → Bytes) (id : json.Value) (a : HandleResult json.Value) (s t : Session f)
      → IsRefusal f json size_text id a
      → t.authorized ≡ s.authorized
      → t.difficulty ≡ s.difficulty
      → Hears s (sent_by a) t
  refusal-Hears size_text id _ s t (ended reason) p q = Hears-nothing s t p q
  refusal-Hears size_text id _ s t (error_told e) p q = Hears-other s t _ (error_of id _) p q

  pub submit-Informs :
      (hex : Hex) (size_text : ℕ → ℕ → Bytes) (sha256 : Bytes → Bytes) (input : SubmitInput)
      (id : json.Value) (params : SubmitParams) (s : Session f)
      → Returns (Informs s) (handle_submit f json hex size_text sha256 input id params s)
  submit-Informs hex size_text sha256 input id params s =
      Returns-map
        (λ h. λ x. elim x [
          | inl c ↦
              subst (λ a. Hears s (sent_by a) h.session) (sym c.counted.told)
                (Hears-other s h.session _ (result_of id _) c.counted.same_authorized
                  c.counted.same_difficulty)
          | inr r ↦
              refusal-Hears size_text id h.answer s h.session r.untold r.same_authorized
                r.same_difficulty
        ])
        (handle_submit f json hex size_text sha256 input id params s)
        (submit-IsCredited f json hex size_text sha256 input id params s)
