-- ===== src/Session/Events.antt =====
-- The arms of `run`'s loop and what follows it. The order in which `select!` takes them is the order
-- of the events.
use Prim.Native.String.{String}
use solo_pool_rs.Prelude.{
  ℕ, Bool, true, false, ◌&&◌, Option, none, some, List, [], ◌∷◌, ◌++◌, map, if◌then◌else◌,
}
use solo_pool_rs.Prelude.Bytes.{Bytes}
use solo_pool_rs.Error.{Result, ok, err, panic}
use solo_pool_rs.Template.Job.{StratumJob}
use solo_pool_rs.Template.PrevHash.{Hex}
use solo_pool_rs.Validator.Shares.{clear}
use solo_pool_rs.Vardiff as Vardiff
use solo_pool_rs.Vardiff.{F64, from_secs, estimated_hashrate_in_window, check_retarget}
use solo_pool_rs.Engine.{JobBroadcast}
use solo_pool_rs.Sv1.Json.{Json}
use solo_pool_rs.Sv1.Reply.{set_difficulty}
use solo_pool_rs.Session.State.{
  StatCall, messages, disconnect, Session, Handled, update_worker_vardiff, update_worker_hashrate,
  mark_worker_offline, stash_share_history,
}
use solo_pool_rs.Session.Setup.{build_notify}
use solo_pool_rs.Session.Dispatch.{LineInput, handle_line}

-- What the loop wakes up for: a line, the timer of the retarget with the clock's readings, a job, a
-- lagged broadcast, a line past the limit, or an end of the reading (a deadline, an end of file, an
-- I/O error, a line that is not UTF-8, a closed broadcast).
pub data Event : Type 0 where
  line_read : LineInput → ℕ → Bytes → Event
  retarget_due : ℕ → ℕ → ℕ → Event
  job_sent : JobBroadcast → Event
  lagged : Event
  too_long : Event
  read_ended : Event

-- How an event leaves the loop: going on, or out of it.
pub data Next : Type 0 where
  going : Next
  dropped : String → Next
  banned : Next
  closed : Next
  panicked : Next

unfoldable pub is_going : Next → Bool
is_going going = true
is_going _ = false

module _ (f : F64) where
  -- The hash rates of 60 seconds, 10 minutes, 3 hours and 24 hours.
  unfoldable pub hashrates : ℕ → Session f → List f.Carrier
  unfolding estimated_hashrate_in_window
  hashrates now s =
      map (λ w. estimated_hashrate_in_window f (from_secs w) now s.vardiff)
        (60 ∷ 600 ∷ 10_800 ∷ 86_400 ∷ [])

  unfoldable pub report_hashrates : ℕ → Session f → List (StatCall f)
  unfolding hashrates
  report_hashrates now s = elim s.worker [
    | none ↦ []
    | some worker ↦ update_worker_hashrate worker (hashrates now s) ∷ []
  ]

  unfoldable pub report_vardiff : ℕ → Option Bytes → List (StatCall f)
  report_vardiff new_diff none = []
  report_vardiff new_diff (some worker) = update_worker_vardiff worker new_diff ∷ []

  -- After the loop.
  unfoldable pub close : ℕ → Session f → List (StatCall f)
  unfolding Vardiff.take_share_history
  close now s = elim s.worker [
    | none ↦ []
    | some worker ↦
        mark_worker_offline worker
        ∷ stash_share_history worker (Vardiff.take_share_history f now s.vardiff).0
        ∷ []
  ]

module _ (f : F64) (json : Json f) where
  open json use {Value}

  -- The state of the loop: the session, what was sent, and the calls of the statistics.
  pub record Loop : Type 0 where
    pub session : Session f
    pub sent : List Value
    pub calls : List (StatCall f)
    pub next : Next

  -- The arm of a line, by what `handle_line` gave.
  unfoldable pub after_line : ℕ → Result (Handled f Value) → Loop → Loop
  unfolding report_hashrates
  after_line now (ok h) l = elim h.answer [
    | messages msgs ↦ record {
      session = h.session;
      sent = l.sent ++ msgs;
      calls = l.calls ++ (h.calls ++ report_hashrates f now h.session);
      next = going;
    }
    | disconnect reason ↦ record {
      session = h.session;
      sent = l.sent;
      calls = l.calls ++ h.calls;
      next = dropped reason;
    }
  ]
  after_line now (err e) l = record l { next = panicked }
  after_line now panic l = record l { next = panicked }

  -- The arm of the timer, by what `check_retarget` gave.
  unfoldable pub after_retarget : Result (Option ℕ × Vardiff.Vardiff f) → Loop → Loop
  unfolding set_difficulty report_vardiff
  after_retarget (ok (none, vardiff)) l = record l {
    session = record l.session { vardiff = vardiff };
  }
  after_retarget (ok (some new_diff, vardiff)) l = record l {
    session = record l.session { vardiff = vardiff; difficulty = new_diff };
    sent = l.sent ++ (set_difficulty f json new_diff ∷ []);
    calls = l.calls ++ report_vardiff f new_diff l.session.worker;
  }
  after_retarget (err e) l = record l { next = panicked }
  after_retarget panic l = record l { next = panicked }

  -- The loop at its start: nothing is sent, and the engine's job is kept for later.
  unfoldable pub start : Option StratumJob → Session f → Loop
  start engine_job s = record {
    session = elim engine_job [ none ↦ s | some job ↦ record s { current_job = some job } ];
    sent = [];
    calls = [];
    next = going;
  }

module _ (f : F64) (json : Json f) (hex : Hex) where
  -- The arm of a broadcast job.
  unfoldable pub on_job : StratumJob → Bool → Loop f json → Loop f json
  unfolding clear set_difficulty build_notify
  on_job job clean l =
      let s = l.session in
      let tracked = record s {
        share_set = if clean then clear s.share_set else s.share_set;
        current_job = some job;
      } in
      record l {
        session = tracked;
        sent =
            if s.subscribed && s.authorized
            then l.sent
              ++ (set_difficulty f json s.difficulty ∷ build_notify f json hex job clean ∷ [])
            else l.sent;
      }

module _ (f : F64) (json : Json f) (hex : Hex) (size_text : ℕ → ℕ → Bytes)
    (sha256 : Bytes → Bytes) where
  unfoldable pub step : Event → Loop f json → Loop f json
  unfolding after_line after_retarget on_job
  step (line_read input measured_at line) l =
      after_line f json measured_at (handle_line f json hex size_text sha256 input line l.session) l
  step (retarget_due now reset_at later) l =
      if l.session.subscribed && l.session.authorized
      then after_retarget f json (check_retarget f now reset_at later l.session.vardiff) l
      else l
  step (job_sent broadcast) l = on_job f json hex broadcast.job broadcast.clean l
  step lagged l = l
  step too_long l = record l { next = banned }
  step read_ended l = record l { next = closed }

  -- The loop, on the events in order, until one leaves it.
  unfoldable pub run : List Event → Loop f json → Loop f json
  unfolding step is_going
  run [] l = l
  run (event ∷ events) l =
      let rest = run events (step event l) in if is_going l.next then rest else l
