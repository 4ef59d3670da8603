-- ===== src/Session/Tally/Run.antt =====
-- Over a whole session the statistics balance.
use solo_pool_rs.Prelude.{
  ℕ, ◌≡◌, refl, ap, not, Option, none, some, List, [], ◌++◌, arith, if_elim, Option-cases, inl, inr,
}
use solo_pool_rs.Prelude.Bytes.{Bytes}
use solo_pool_rs.Error.{Result, ok, err, panic, Returns, NoPanic, NoPanic-cases}
use solo_pool_rs.Template.PrevHash.{Hex}
use solo_pool_rs.Security.ShareRate.{try_consume}
use solo_pool_rs.Vardiff as Vardiff
use solo_pool_rs.Vardiff.{F64, VardiffConfig, suggest, check_retarget}
use solo_pool_rs.Sv1.Json.{Json}
use solo_pool_rs.Sv1.Parse.{
  ClientMessage, subscribe, authorize, submit, configure, suggest_difficulty, unknown,
  ConfigureParams, StratumRequest, parse_line, from_request,
}
use solo_pool_rs.Sv1.Parse.Total.{parse_line-NoPanic, from_request-NoPanic}
use solo_pool_rs.Session.State.{HandleResult, messages, disconnect, StatCall, Session, Handled}
use solo_pool_rs.Session.Setup.{
  negotiate, handle_configure, handle_subscribe, handle_suggest_difficulty,
}
use solo_pool_rs.Session.Dispatch.{LineInput, is_blank, dispatch, handle_request, handle_line}
use solo_pool_rs.Session.Events.{Loop, report_hashrates, report_vardiff, after_line, after_retarget}
use solo_pool_rs.Vardiff.Config.{suggest-Assigns}
use solo_pool_rs.Session.Invariant.{IsValid}
use solo_pool_rs.Session.Submit.Settled.{credits}
use solo_pool_rs.Session.Tally.{
  online, offline, here, Accounts, AccountsFor, Accounted, Accounts-append, silent-Accounts,
  authorize-Accounted,
}
use solo_pool_rs.Session.Tally.Submit.{submit-Accounted}

module _ (f : F64) where
  -- `s`, with other values in what no statistics depend on.
  abbrev Alike : Session f → Session f → Type 0
  Alike s t = (t.worker ≡ s.worker) × (t.shares_accepted ≡ s.shares_accepted)

  negotiate-Alike : (params : ConfigureParams) (s : Session f) → Alike s (negotiate f params s)
  unfolding negotiate
  negotiate-Alike params s =
      if_elim (Alike s) params.version_rolling _ _ (λ _. (refl, refl)) (λ _. (refl, refl))

  Alike-Accounts : (s t : Session f) → Alike s t → AccountsFor f s t []
  unfolding online offline credits
  Alike-Accounts s t (worker, count) = record {
    balance = λ w. omega (arith, ap (here w) worker);
    count = omega (arith, count);
  }

module _ (f : F64) (json : Json f) (hex : Hex) (size_text : ℕ → ℕ → Bytes)
    (sha256 : Bytes → Bytes) where
  dispatch-Accounted :
      (input : LineInput) (id : json.Value) (msg : ClientMessage) (s : Session f)
      → IsValid f s
      → Returns (Accounted f s) (dispatch f json hex size_text sha256 input id msg s)
  unfolding dispatch handle_configure handle_subscribe handle_suggest_difficulty
  dispatch-Accounted input id (configure params) s v =
      Alike-Accounts f s (negotiate f params s) (negotiate-Alike f params s)
  dispatch-Accounted input id (subscribe params) s v = silent-Accounts f s
  dispatch-Accounted input id (authorize params) s v =
      authorize-Accounted f json hex size_text input.authorizing id params s
  dispatch-Accounted input id (submit params) s v =
      submit-Accounted f json hex size_text sha256 input.submitting id params s
  dispatch-Accounted input id (suggest_difficulty params) s v =
      let a = suggest-Assigns f params.difficulty input.suggested_at s.vardiff v.sound.range in
      rw (a.suggested, handle_suggest_difficulty) (silent-Accounts f s)
  dispatch-Accounted input id (unknown method) s v = silent-Accounts f s

  request-Accounted :
      (input : LineInput) (r : Result (StratumRequest f json)) (s : Session f)
      → NoPanic r
      → IsValid f s
      → Returns (Accounted f s) (handle_request f json hex size_text sha256 input r s)
  unfolding handle_request
  request-Accounted input (ok req) s h v =
      elim (NoPanic-cases (from_request f json hex req) (from_request-NoPanic f json hex req)) [
        | inl (msg, e) ↦ rw (handle_request, e) (dispatch-Accounted input req.id msg s v)
        | inr (er, e) ↦ rw (handle_request, e) (silent-Accounts f s)
      ]
  request-Accounted input (err e) s h v = silent-Accounts f s
  request-Accounted input panic s h v = h

  pub line-Accounted :
      (input : LineInput) (line : Bytes) (s : Session f)
      → IsValid f s
      → Returns (Accounted f s) (handle_line f json hex size_text sha256 input line s)
  unfolding handle_line
  line-Accounted input line s v =
      let limited = try_consume f input.limited_at input.refilled_at s.share_rate in
      if_elim (Returns (Accounted f s)) (is_blank line) _ _ (λ _. silent-Accounts f s)
        (λ _.
          if_elim (Returns (Accounted f s)) (not limited.0) _ _ (λ _. silent-Accounts f s)
            (λ _.
              request-Accounted input (parse_line f json line) (record s { share_rate = limited.1 })
                (parse_line-NoPanic f json line)
                (record { set_up = v.set_up; named = v.named; sound = v.sound })))

module _ (f : F64) (json : Json f) where
  -- All calls since the start account for the session.
  abbrev pub Balanced : Loop f json → Type 0
  Balanced l = Accounts f none 0 l.session.worker l.session.shares_accepted l.calls

  hashrates-Accounts : (now : ℕ) (s : Session f) → AccountsFor f s s (report_hashrates f now s)
  unfolding report_hashrates online offline credits
  hashrates-Accounts now s = elim (Option-cases s.worker) [
    | inl e ↦ rw (report_hashrates, e) (record { balance = λ w. refl; count = omega arith })
    | inr (worker, e) ↦
        rw (report_hashrates, e) (record { balance = λ w. refl; count = omega arith })
  ]

  vardiff-Accounts :
      (new_diff : ℕ) (s t : Session f) (worker : Option Bytes)
      → Alike f s t
      → AccountsFor f s t (report_vardiff f new_diff worker)
  unfolding report_vardiff online offline credits
  vardiff-Accounts new_diff s t none a = Alike-Accounts f s t a
  vardiff-Accounts new_diff s t (some worker) a = record {
    balance = λ w. omega (arith, ap (here w) a.0);
    count = omega (arith, a.1);
  }

  appended :
      (l : Loop f json) (t : Session f) (calls : List (StatCall f))
      → Balanced l
      → AccountsFor f l.session t calls
      → Accounts f none 0 t.worker t.shares_accepted (l.calls ++ calls)
  appended l t calls b a =
      Accounts-append f (record l.session { worker = none; shares_accepted = 0 }) l.session t
        l.calls calls b a

  pub after_line-Balanced :
      (now : ℕ) (r : Result (Handled f json.Value)) (l : Loop f json)
      → Balanced l
      → Returns (Accounted f l.session) r
      → Balanced (after_line f json now r l)
  unfolding after_line
  after_line-Balanced now (ok h) l b a = answered h.answer refl
    where
      answered :
          (x : HandleResult json.Value) → h.answer ≡ x → Balanced (after_line f json now (ok h) l)
      answered (messages msgs) e =
          rw (after_line, e)
            (appended l h.session (h.calls ++ report_hashrates f now h.session) b (
              Accounts-append f l.session h.session h.session h.calls
                (report_hashrates f now h.session) a (hashrates-Accounts now h.session)))
      answered (disconnect reason) e = rw (after_line, e) (appended l h.session h.calls b a)
  after_line-Balanced now (err e) l b a = b
  after_line-Balanced now panic l b a = b

  pub after_retarget-Balanced :
      (r : Result (Option ℕ × Vardiff.Vardiff f)) (l : Loop f json)
      → Balanced l
      → Balanced (after_retarget f json r l)
  unfolding after_retarget
  after_retarget-Balanced (ok (none, vardiff)) l b = b
  after_retarget-Balanced (ok (some new_diff, vardiff)) l b =
      let t : Session f = record l.session { vardiff = vardiff; difficulty = new_diff } in
      appended l t (report_vardiff f new_diff l.session.worker) b
        (vardiff-Accounts new_diff l.session t l.session.worker (refl, refl))
  after_retarget-Balanced (err e) l b = b
  after_retarget-Balanced panic l b = b
