-- ===== src/Sv2/Channel/Dispatch.antt =====
-- `handle_message` of src/protocol/sv2/mod.rs, and the loop's arms of a retarget and of a job.
use solo_pool_rs.Prelude.{ℕ, Bool, not, Option, none, some, [], if◌then◌else◌}
use solo_pool_rs.Prelude.Bytes.{Bytes}
use solo_pool_rs.Error.{Result, ok, err, panic}
use solo_pool_rs.Template.Job.{StratumJob}
use solo_pool_rs.Template.PrevHash.{Hex}
use solo_pool_rs.Validator.Shares.{clear}
use solo_pool_rs.Security.ShareRate.{try_consume}
use solo_pool_rs.Vardiff.{F64, Vardiff, check_retarget}
use solo_pool_rs.Session.Events.{report_vardiff}
use solo_pool_rs.Session.Submit.{SubmitInput}
use solo_pool_rs.Sv2.Frame.{SetupConn, OpenExtended, SubmitExtended, Wire, set_target}
use solo_pool_rs.Sv2.Job.{WireTypes, difficulty_to_sv2_target}
use solo_pool_rs.Sv2.Channel.{
  continue, disconnect, Sv2Session, Handled, OpenInput, drop_session, emit, send_job,
  handle_setup_connection, handle_open_extended,
}
use solo_pool_rs.Sv2.Channel.Submit.{handle_submit}

-- A message by its type, with the decoded payload, if it can be decoded.
pub data Inbound : Type 0 where
  setup_connection : Option SetupConn → Inbound
  open_extended_mining_channel : Option OpenExtended → Inbound
  submit_shares_extended : Option SubmitExtended → Inbound
  unhandled : Inbound

-- What one message meets: the clock in `try_consume`, and what the handlers meet.
pub record MessageInput : Type 0 where
  pub limited_at : ℕ
  pub refilled_at : ℕ
  pub opening : OpenInput
  pub submitting : SubmitInput

module _ (f : F64) (wire : Wire) (types : WireTypes) (hex : Hex) (sha256 : Bytes → Bytes) where
  unfoldable pub dispatch : MessageInput → Inbound → Sv2Session f → Result (Handled f)
  unfolding handle_setup_connection handle_open_extended handle_submit
  dispatch input (setup_connection setup) s = ok (handle_setup_connection f wire setup s)
  dispatch input (open_extended_mining_channel open_) s =
      handle_open_extended f wire types hex input.opening open_ s
  dispatch input (submit_shares_extended submit) s =
      handle_submit f wire hex sha256 input.submitting submit s
  dispatch input unhandled s = ok (record { flow = continue; session = s; sent = []; calls = [] })

  unfoldable pub handle_message : MessageInput → Inbound → Sv2Session f → Result (Handled f)
  unfolding try_consume dispatch
  handle_message input msg s =
      let (pass, share_rate) = try_consume f input.limited_at input.refilled_at s.share_rate in
      let consumed = record s { share_rate = share_rate } in
      let handled = dispatch input msg consumed in
      if not pass then ok (drop_session f "rate limited" consumed) else handled

  -- The retarget's new difficulty, as the session keeps and sends it.
  unfoldable pub retargeted : Option ℕ × Vardiff f → Sv2Session f → Handled f
  unfolding report_vardiff difficulty_to_sv2_target emit
  retargeted (none, vardiff) s = record {
    flow = continue;
    session = record s { vardiff = vardiff };
    sent = [];
    calls = [];
  }
  retargeted (some new_diff, vardiff) s =
      let (flow, sent) =
        emit wire (set_target s.channel_id (difficulty_to_sv2_target new_diff))
          "encode set_target" in
      record {
        flow = flow;
        session = record s { vardiff = vardiff; difficulty = new_diff };
        sent = sent;
        calls = report_vardiff f new_diff s.worker;
      }

  -- The arm of the timer, which only an open channel has.
  unfoldable pub on_retarget : ℕ → ℕ → ℕ → Sv2Session f → Result (Handled f)
  unfolding check_retarget retargeted
  on_retarget now reset_at later s =
      if s.channel_open
      then (elim (check_retarget f now reset_at later s.vardiff) [
        | ok r ↦ ok (retargeted r s)
        | err e ↦ err e
        | panic ↦ panic
      ])
      else ok (record { flow = continue; session = s; sent = []; calls = [] })

  -- The arm of a broadcast job; a job that cannot be sent ends the session before it is kept.
  unfoldable pub on_job : StratumJob → Bool → Sv2Session f → Handled f
  unfolding clear send_job
  on_job job clean s =
      let cleared = record s { share_set = if clean then clear s.share_set else s.share_set } in
      let (fine, after, sent) = send_job f wire types hex job clean cleared in
      if s.channel_open
      then record {
        flow = if fine then continue else disconnect "write";
        session = if fine then record after { pending_job = some job } else after;
        sent = sent;
        calls = [];
      }
      else record {
        flow = continue;
        session = record cleared { pending_job = some job };
        sent = [];
        calls = [];
      }
