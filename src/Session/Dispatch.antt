-- ===== src/Session/Dispatch.antt =====
-- `handle_line`: one line of the miner.
use solo_pool_rs.Prelude.{ℕ, Bool, not, [], any, if◌then◌else◌}
use solo_pool_rs.Prelude.Bytes.{Bytes}
use solo_pool_rs.Prelude.Utf8.{chars}
use solo_pool_rs.Error.{Result, ok, err, panic, unknown_method}
use solo_pool_rs.Template.PrevHash.{Hex}
use solo_pool_rs.Security.Guard.{is_whitespace}
use solo_pool_rs.Security.ShareRate.{try_consume}
use solo_pool_rs.Vardiff.{F64}
use solo_pool_rs.Sv1.Json.{Json}
use solo_pool_rs.Sv1.Parse.{
  ClientMessage, subscribe, authorize, submit, configure, suggest_difficulty, unknown,
  StratumRequest, parse_line, from_request,
}
use solo_pool_rs.Session.State.{messages, disconnect, Session, Handled, unchanged}
use solo_pool_rs.Session.Setup.{
  AuthorizeInput, refuse, handle_configure, handle_suggest_difficulty, handle_subscribe,
  handle_authorize,
}
use solo_pool_rs.Session.Submit.{SubmitInput, handle_submit}

-- `line.trim().is_empty()`.
unfoldable pub is_blank : Bytes → Bool
unfolding chars
is_blank line = not (any (λ c. not (is_whitespace c)) (chars line))

-- What one line meets: the clock in `try_consume` and in `suggest`, and what the two handlers that
-- leave the session meet.
pub record LineInput : Type 0 where
  pub limited_at : ℕ
  pub refilled_at : ℕ
  pub suggested_at : ℕ
  pub authorizing : AuthorizeInput
  pub submitting : SubmitInput

module _ (f : F64) (json : Json f) (hex : Hex) (size_text : ℕ → ℕ → Bytes)
    (sha256 : Bytes → Bytes) where
  open json use {Value}

  unfoldable pub dispatch : LineInput → Value → ClientMessage → Session f → Result (Handled f Value)
  unfolding handle_configure handle_suggest_difficulty handle_subscribe handle_authorize
      handle_submit
  dispatch input id (configure params) s = ok (handle_configure f json id params s)
  dispatch input id (subscribe params) s = ok (handle_subscribe f json hex id params s)
  dispatch input id (authorize params) s =
      ok (handle_authorize f json hex size_text input.authorizing id params s)
  dispatch input id (submit params) s =
      handle_submit f json hex size_text sha256 input.submitting id params s
  dispatch input id (suggest_difficulty params) s =
      handle_suggest_difficulty f json input.suggested_at id params s
  dispatch input id (unknown method) s =
      ok (unchanged f (refuse f json size_text id (unknown_method method)) s)

  -- The match on `ClientMessage::from_request`.
  unfoldable pub handle_request :
      LineInput → Result (StratumRequest f json) → Session f → Result (Handled f Value)
  unfolding dispatch
  handle_request input (ok req) s = elim (from_request f json hex req) [
    | ok msg ↦ dispatch input req.id msg s
    | err e ↦ ok (unchanged f (refuse f json size_text req.id e) s)
    | panic ↦ panic
  ]
  handle_request input (err e) s = ok (unchanged f (disconnect "parse error") s)
  handle_request input panic s = panic

  unfoldable pub handle_line : LineInput → Bytes → Session f → Result (Handled f Value)
  unfolding is_blank try_consume handle_request parse_line
  handle_line input line s =
      let (pass, share_rate) = try_consume f input.limited_at input.refilled_at s.share_rate in
      let consumed = record s { share_rate = share_rate } in
      let handled = handle_request input (parse_line f json line) consumed in
      if is_blank line
      then ok (unchanged f (messages []) s)
      else if not pass
      then ok (unchanged f (disconnect "rate limited") consumed)
      else handled
