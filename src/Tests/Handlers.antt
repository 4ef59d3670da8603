-- ===== src/Tests/Handlers.antt =====
-- The theorems on the SV1 session and its messages, at concrete sessions and lines.
use solo_pool_rs.Prelude.{◌≡◌, ◌≢◌, refl, true, none, some, List, [], ◌∷◌, ◌++◌, length, arith}
use solo_pool_rs.Error.{Returns, ok}
use solo_pool_rs.Security.Guard.{SecurityConfig, new_guard}
use solo_pool_rs.Session.Submit.{count_invalid}
use solo_pool_rs.Security.Guard.{record_invalid}
use solo_pool_rs.Security.ShareRate.{ShareRateLimiter}
use solo_pool_rs.Vardiff.{VardiffConfig}
use solo_pool_rs.Engine as Engine
use solo_pool_rs.Sv1.Json.{text}
use solo_pool_rs.Sv1.Parse.{SubmitParams, parse_submit}
use solo_pool_rs.Sv1.Parse.RoundTrip.{parse_submit-submit_value, submit_value}
use solo_pool_rs.Session.State.{Session, new}
use solo_pool_rs.Session.Setup.{AuthorizeInput}
use solo_pool_rs.Session.Submit.{SubmitInput, handle_submit}
use solo_pool_rs.Session.Dispatch.{LineInput, handle_line}
use solo_pool_rs.Session.Events.{
  Event, line_read, retarget_due, lagged, read_ended, panicked, run, start, close,
}
use solo_pool_rs.Session.Invariant.{IsValid}
use solo_pool_rs.Session.Invariant.Submit.{Keeps}
use solo_pool_rs.Session.Invariant.Run.{handle_line-IsValid}
use solo_pool_rs.Session.Told.Run.{Informed}
use solo_pool_rs.Session.Invariant.Start.{new-IsValid, session-IsValid}
use solo_pool_rs.Session.Submit.Settled.{credits}
use solo_pool_rs.Session.Submit.Disconnects.{Ends, submit-Ends}
use solo_pool_rs.Session.Tally.{online, offline}
use solo_pool_rs.Session.Tally.Close.{session-Balanced}
use solo_pool_rs.Tests.Doubles.{fixed, length_digest, plain_hex, plain_hex-HexLaws}
use solo_pool_rs.Tests.Json.{plain_json, plain_json-JsonLaws, sizes}

abbrev pub vardiff_cfg : VardiffConfig fixed
vardiff_cfg = record {
  min_difficulty = 1;
  max_difficulty = 1_000;
  target_share_time_secs = 15;
  retarget_interval_secs = 60;
  max_retarget_factor = 4_000;
}

abbrev pub security : SecurityConfig
security = record {
  max_invalid_shares = 5;
  max_message_bytes = 1_000;
  max_worker_name_len = 64;
  max_authorizations_per_session = 2;
}

abbrev pub rate : ShareRateLimiter fixed
rate = record { tokens = 10_000; max_per_sec = 10_000; last_refill = 0 }

abbrev fresh : Session fixed
fresh = new fixed (text "s") (1 ∷ 2 ∷ []) 2 8 vardiff_cfg (new_guard security) rate 0 0

abbrev authorizing : AuthorizeInput
authorizing = record { taken_at = 1; restored_at = 2; stashed = λ worker. none; engine_job = none }

abbrev submitting : SubmitInput
submitting = record { engine = Engine.new; now = 3; answers = λ k. ok tt }

abbrev line_input : LineInput
line_input = record {
  limited_at = 1;
  refilled_at = 1;
  suggested_at = 1;
  authorizing = authorizing;
  submitting = submitting;
}

abbrev events : List Event
events =
    line_read line_input 4 (text "subscribe")
    ∷ retarget_due 5 6 7
    ∷ lagged
    ∷ line_read line_input 8 (text " ")
    ∷ read_ended
    ∷ []

session-IsValid_example :
    let l =
      run fixed plain_json plain_hex sizes length_digest events
        (start fixed plain_json none fresh) in
    IsValid fixed l.session × (l.next ≢ panicked) × Informed fixed plain_json l
session-IsValid_example =
    session-IsValid fixed plain_json plain_hex sizes length_digest (text "s") (1 ∷ 2 ∷ []) 2 8
      vardiff_cfg security rate 0 0 none events (omega arith) (omega arith) refl

session-Balanced_example :
    let l =
      run fixed plain_json plain_hex sizes length_digest events
        (start fixed plain_json none fresh) in
    (l.next ≢ panicked)
    × (online fixed (text "w") (l.calls ++ close fixed 9 l.session)
        ≡ offline fixed (text "w") (l.calls ++ close fixed 9 l.session))
    × (length (credits fixed l.calls) ≡ l.session.shares_accepted)
session-Balanced_example =
    session-Balanced fixed plain_json plain_hex sizes length_digest (text "s") (1 ∷ 2 ∷ []) 2 8
      vardiff_cfg security rate 0 0 none events 9 (text "w") (omega arith) (omega arith) refl

fresh-IsValid : IsValid fixed fresh
fresh-IsValid =
    new-IsValid fixed (text "s") (1 ∷ 2 ∷ []) 2 8 vardiff_cfg security rate 0 0 (omega arith)
      (omega arith) refl

handle_line-IsValid_example :
    Returns (Keeps fixed plain_json) (
      handle_line fixed plain_json plain_hex sizes length_digest line_input
        (text "subscribe")
        fresh)
handle_line-IsValid_example =
    handle_line-IsValid fixed plain_json plain_hex sizes length_digest line_input (text "subscribe")
      fresh fresh-IsValid

abbrev submitted : SubmitParams
submitted = record {
  worker = text "w";
  job_id = text "1";
  extranonce2 = 3 ∷ 4 ∷ [];
  ntime = 1_700_000_000;
  nonce = 7;
  version_bits = some 0x2000;
}

abbrev pub mining : Session fixed
mining = record fresh { subscribed = true; authorized = true; worker = some (text "w") }

-- A miner that is one invalid share from the limit, and a share of a wrong width.
abbrev struggling : Session fixed
struggling = record mining {
  guard = record mining.guard { invalid_shares = record { count = 4; max = 5 } };
}

abbrev wide_share : SubmitParams
wide_share = record submitted { extranonce2 = 3 ∷ 4 ∷ 5 ∷ [] }

submit-Ends_example :
    Ends fixed plain_json plain_hex sizes length_digest submitting wide_share struggling
unfolding handle_submit new new_guard record_invalid count_invalid
submit-Ends_example =
    submit-Ends fixed plain_json plain_hex sizes length_digest submitting (plain_json.number 1)
      wide_share struggling ("too many invalid shares", refl)

parse_submit-submit_value_example :
    parse_submit fixed plain_json plain_hex (submit_value fixed plain_json plain_hex submitted)
    ≡ ok submitted
parse_submit-submit_value_example =
    parse_submit-submit_value fixed plain_json plain_json-JsonLaws plain_hex plain_hex-HexLaws
      submitted (omega arith, (omega arith, tt)) (omega arith) (omega arith) (omega arith)
