-- ===== src/Sv2/Channel/Events.antt =====
-- The arms of `run`'s loop of src/protocol/sv2/mod.rs, what precedes it once the handshake is done,
-- and what follows it. The order in which `select!` takes the arms is the order of the events.
use solo_pool_rs.Prelude.{ℕ, ◌&&◌, Option, none, some, List, [], ◌∷◌, ◌++◌, map, if◌then◌else◌}
use solo_pool_rs.Prelude.Bytes.{Bytes}
use solo_pool_rs.Error.{Result, ok, err, panic}
use solo_pool_rs.Template.Job.{StratumJob}
use solo_pool_rs.Template.PrevHash.{Hex}
use solo_pool_rs.Security.Guard.{check_message_size}
use solo_pool_rs.Vardiff as Vardiff
use solo_pool_rs.Vardiff.{F64, from_secs, estimated_hashrate_in_window}
use solo_pool_rs.Engine.{JobBroadcast}
use solo_pool_rs.Session.State.{
  StatCall, update_worker_hashrate, mark_worker_offline, stash_share_history,
}
use solo_pool_rs.Session.Events.{Next, going, dropped, banned, closed, panicked, is_going}
use solo_pool_rs.Sv2.Frame.{Outbound, Wire}
use solo_pool_rs.Sv2.Job.{WireTypes}
use solo_pool_rs.Sv2.Channel.{Flow, continue, disconnect, Sv2Session, Handled}
use solo_pool_rs.Sv2.Channel.Dispatch.{Inbound, MessageInput, handle_message, on_retarget, on_job}

-- What the loop wakes up for: a message with its length, the timer of the retarget with the clock's
-- readings, a job, a lagged broadcast, or an end of the reading (a deadline, a closed reader, a
-- closed broadcast).
pub data Event : Type 0 where
  message_read : MessageInput → ℕ → ℕ → Inbound → Event
  retarget_due : ℕ → ℕ → ℕ → Event
  job_sent : JobBroadcast → Event
  lagged : Event
  read_ended : Event

unfoldable pub flow_next : Flow → Next
flow_next continue = going
flow_next (disconnect reason) = dropped reason

module _ (f : F64) where
  -- The hash rates of 60 seconds, 10 minutes, 3 hours and 24 hours, of an open channel's worker.
  unfoldable pub report_hashrates : ℕ → Sv2Session f → List (StatCall f)
  unfolding estimated_hashrate_in_window
  report_hashrates now s = elim s.worker [
    | none ↦ []
    | some worker ↦
        update_worker_hashrate worker (
          map (λ w. estimated_hashrate_in_window f (from_secs w) now s.vardiff)
            (60 ∷ 600 ∷ 10_800 ∷ 86_400 ∷ []))
        ∷ []
  ]

  -- After the loop.
  unfoldable pub close : ℕ → Sv2Session f → List (StatCall f)
  unfolding Vardiff.take_share_history
  close now s = elim s.worker [
    | none ↦ []
    | some worker ↦
        mark_worker_offline worker
        ∷ stash_share_history worker (Vardiff.take_share_history f now s.vardiff).0
        ∷ []
  ]

  -- The state of the loop: the session, what was sent, and the calls of the statistics.
  pub record Loop : Type 0 where
    pub session : Sv2Session f
    pub sent : List Outbound
    pub calls : List (StatCall f)
    pub next : Next

  -- The loop at its start: the engine's job is kept until the channel opens.
  unfoldable pub start : Option StratumJob → Sv2Session f → Loop
  start engine_job s = record {
    session = elim engine_job [ none ↦ s | some job ↦ record s { pending_job = some job } ];
    sent = [];
    calls = [];
    next = going;
  }

  -- What a handler left, taken into the loop.
  unfoldable pub taken : Result (Handled f) → Loop → Loop
  unfolding flow_next
  taken (ok h) l = record {
    session = h.session;
    sent = l.sent ++ h.sent;
    calls = l.calls ++ h.calls;
    next = flow_next h.flow;
  }
  taken (err e) l = record l { next = panicked }
  taken panic l = record l { next = panicked }

  -- The arm of a message, by what `handle_message` gave.
  unfoldable pub after_message : ℕ → Result (Handled f) → Loop → Loop
  unfolding taken is_going report_hashrates
  after_message now r l =
      let m = taken r l in
      if is_going m.next && m.session.channel_open
      then record m { calls = m.calls ++ report_hashrates now m.session }
      else m

module _ (f : F64) (wire : Wire) (types : WireTypes) (hex : Hex) (sha256 : Bytes → Bytes) where
  -- The arm of a message: the check of its length, then its handler.
  unfoldable pub on_message : MessageInput → ℕ → ℕ → Inbound → Loop f → Loop f
  unfolding check_message_size handle_message after_message
  on_message input measured_at size msg l = elim (check_message_size l.session.guard size) [
    | ok _ ↦
        after_message f measured_at (handle_message f wire types hex sha256 input msg l.session) l
    | err e ↦ record l { next = banned }
    | panic ↦ record l { next = panicked }
  ]

  unfoldable pub step : Event → Loop f → Loop f
  unfolding on_message taken on_retarget on_job
  step (message_read input measured_at size msg) l = on_message input measured_at size msg l
  step (retarget_due now reset_at later) l =
      taken f (on_retarget f wire types hex sha256 now reset_at later l.session) l
  step (job_sent broadcast) l =
      taken f (ok (on_job f wire types hex sha256 broadcast.job broadcast.clean l.session)) l
  step lagged l = l
  step read_ended l = record l { next = closed }

  -- The loop, on the events in order, until one leaves it.
  unfoldable pub run : List Event → Loop f → Loop f
  unfolding step is_going
  run [] l = l
  run (event ∷ events) l =
      let rest = run events (step event l) in if is_going l.next then rest else l
