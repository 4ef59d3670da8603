-- ===== src/Tests/Sv2.antt =====
-- The theorems on Stratum V2, at a concrete session, frame and job.
use solo_pool_rs.Prelude.{
  List, ◌≢◌, ◌++◌, ◌^◌, bit_and, bit_or, length, ◌⊎◌, ℕ, zero, suc, ◌<◌, ◌≡◌, refl, true, none,
  some, [], ◌∷◌, take, drop, get_elem?, replicate, arith,
}
use solo_pool_rs.Prelude.Bytes.{IsByte, value_le}
use solo_pool_rs.Prelude.All.{All}
use solo_pool_rs.Error.{Returns, ok}
use solo_pool_rs.Security.Guard.{new_guard}
use solo_pool_rs.Sv1.Json.{text}
use solo_pool_rs.Sv2.Frame.{OpenExtended, SubmitExtended, frame_bytes, channel_msg_bit}
use solo_pool_rs.Sv2.Frame.RoundTrip.{frame_bytes-reads}
use solo_pool_rs.Prelude.Words.{u32_from_hex}
use solo_pool_rs.Template.PrevHash.{swap_words}
use solo_pool_rs.Validator.{share_header, version_rolling_mask}
use solo_pool_rs.Sv2.Job.{
  NewExtendedMiningJob, SetNewPrevHash, build_new_extended_job, build_set_new_prev_hash,
  stratum_prevhash_to_internal,
}
use solo_pool_rs.Sv2.Job.Announced.{device_header, device_coinbase}
use solo_pool_rs.Sv2.Channel.Device.{device_header-share_params}
use solo_pool_rs.Validator.Version.{rolled}
use solo_pool_rs.Prelude.Bits.{not32, bit_and-lt, bit_or-lt}
use solo_pool_rs.Tests.Validator.{entry, tip_job, tip_job-IsBuilt, prev_decodes}
use solo_pool_rs.Sv2.JobIds.{new_ids, assign_job_id, engine_job_id}
use solo_pool_rs.Sv2.JobIds.Recent.{assign_all, new_ids-IsValid, assign-engine_job_id}
use solo_pool_rs.Sv2.Channel.{Sv2Session, new, OpenInput, handle_open_extended}
use solo_pool_rs.Sv2.Channel.Open.{GoesOn, open_extended-GoesOn}
use solo_pool_rs.Tests.Doubles.{
  fixed, plain_hex, plain_hex-HexLaws, length_digest, length_digest-Sha256Laws, all_bytes,
}
use solo_pool_rs.Tests.Json.{open_wire, any_types}
use solo_pool_rs.Tests.Handlers.{vardiff_cfg, security, rate}
use solo_pool_rs.Tests.Tip.{input}
use solo_pool_rs.Tests.Engine.{job_id, built_job}
use solo_pool_rs.Sv2.Channel.Submit.{share_params, handle_submit}
use solo_pool_rs.Sv2.Channel.Dispatch.{
  setup_connection, open_extended_mining_channel, submit_shares_extended, MessageInput,
}
use solo_pool_rs.Sv2.Channel.Events.{Event, message_read, job_sent, read_ended, run, start, close}
use solo_pool_rs.Session.Events.{panicked}
use solo_pool_rs.Sv2.Channel.Tally.Run.{sv2_session-Balanced}
use solo_pool_rs.Session.Tally.{online, offline}
use solo_pool_rs.Session.Submit.Settled.{credits}
use solo_pool_rs.Sv2.Channel.Submit.Settled.{IsUncounted}
use solo_pool_rs.Sv2.Channel.Submit.Credited.{IsCredited, sv2_submit-IsCredited}

frame_bytes-reads_example :
    let frame = frame_bytes 0x1f true (1 ∷ 2 ∷ 3 ∷ []) in
    (value_le (take 2 frame) ≡ channel_msg_bit)
    × (get_elem? frame 2 ≡ some 0x1f)
    × (value_le (take 3 (drop 3 frame)) ≡ 3)
    × (drop 6 frame ≡ 1 ∷ 2 ∷ 3 ∷ [])
frame_bytes-reads_example = frame_bytes-reads 0x1f true (1 ∷ 2 ∷ 3 ∷ []) (omega arith)

assign-engine_job_id_example :
    engine_job_id
      (assign_all (text "b" ∷ text "c" ∷ []) (assign_job_id (text "a") new_ids).1)
      (assign_job_id (text "a") new_ids).0
    ≡ some (text "a")
assign-engine_job_id_example =
    assign-engine_job_id (text "a") new_ids (text "b" ∷ text "c" ∷ []) new_ids-IsValid (omega arith)

abbrev opening : OpenExtended
opening = record {
  request_id = 1;
  user_identity = text "w";
  max_target = replicate 32 255;
  min_extranonce_size = 6;
}

All-255 : (n : ℕ) → All IsByte (replicate n 255)
All-255 zero = tt
All-255 (suc n) = (omega arith, All-255 n)

abbrev channel : Sv2Session fixed
channel = record (new fixed (1 ∷ []) 4 8 8 vardiff_cfg (new_guard security) rate 0 0) {
  setup_done = true;
}

abbrev open_input : OpenInput
open_input = record {
  channel_id = 1;
  extranonce_counter = 2;
  taken_at = 3;
  restored_at = 4;
  stashed = λ worker. none;
}

open_extended-GoesOn_example :
    Returns
      (GoesOn fixed open_wire any_types plain_hex (some opening) channel)
      (handle_open_extended fixed open_wire any_types plain_hex open_input (some opening) channel)
open_extended-GoesOn_example =
    open_extended-GoesOn fixed open_wire any_types plain_hex open_input (some opening) channel
      twelve
  where
    twelve : 0 < channel.extranonce_total
    twelve = unfold new in omega arith

abbrev job_message : NewExtendedMiningJob
job_message = record {
  channel_id = 1;
  job_id = 2;
  min_ntime = none;
  version = tip_job.version;
  version_rolling_allowed = true;
  merkle_path = [];
  coinbase_tx_prefix = tip_job.coinbase1;
  coinbase_tx_suffix = tip_job.coinbase2;
}

abbrev tip_message : SetNewPrevHash
tip_message = record {
  channel_id = 1;
  job_id = 2;
  prev_hash = replicate 32 7;
  min_ntime = tip_job.cur_time;
  nbits = 0x1d00_ffff;
}

job_made : build_new_extended_job any_types tip_job 1 2 true ≡ some job_message
unfolding build_new_extended_job
job_made = refl

tip_made : build_set_new_prev_hash plain_hex tip_job 1 2 ≡ some tip_message
unfolding build_set_new_prev_hash stratum_prevhash_to_internal all_bytes swap_words u32_from_hex
tip_made = refl

tip_decodes : plain_hex.decode (replicate 32 7) ≡ some (replicate 32 7)
unfolding all_bytes
tip_decodes = refl

-- A share on that job that rolls a bit of the version.
abbrev rolled_share : SubmitExtended
rolled_share = record {
  sequence_number = 1;
  job_id = 2;
  nonce = 3;
  ntime = 950;
  version =
      bit_or (bit_and tip_job.version (not32 version_rolling_mask))
        (bit_and 0x2000 version_rolling_mask);
  extranonce = 6 ∷ 7 ∷ [];
}

rolled_word : rolled_share.version < 2 ^ 32
rolled_word =
    bit_or-lt (bit_and tip_job.version (not32 version_rolling_mask))
      (bit_and 0x2000 version_rolling_mask)
      (bit_and-lt tip_job.version (not32 version_rolling_mask) (omega arith))
      (bit_and-lt 0x2000 version_rolling_mask (omega arith))

abbrev told_device : Sv2Session fixed
told_device = record channel { extranonce_prefix = 5 ∷ [] }

device_header-share_params_example :
    share_header length_digest plain_hex
      (share_params fixed rolled_share entry told_device)
      tip_job
      (5 ∷ [])
    ≡ ok (
      device_header length_digest job_message tip_message
          (5 ∷ [])
          (6 ∷ 7 ∷ [])
          rolled_share.version
          950
          3,
      device_coinbase job_message (5 ∷ []) (6 ∷ 7 ∷ []),
    )
device_header-share_params_example =
    device_header-share_params length_digest length_digest-Sha256Laws plain_hex plain_hex-HexLaws
      fixed any_types entry (replicate 32 7) (replicate 32 7) 1 2 true job_message tip_message
      rolled_share told_device tip_decodes prev_decodes tip_job-IsBuilt.split job_made tip_made refl
      (omega arith) rolled_word
      (λ n lt clear.
        (rolled tip_job.version 0x2000 version_rolling_mask (omega arith) n lt).1 clear)

-- A device that was sent the engine's first job, and its share.
abbrev device : Sv2Session fixed
device = record channel {
  worker = some (text "w");
  channel_open = true;
  extranonce_prefix = 0 ∷ 0 ∷ 0 ∷ 1 ∷ [];
  extranonce_size = 8;
  ids = (assign_job_id job_id new_ids).1;
}

abbrev sent_share : SubmitExtended
sent_share = record {
  sequence_number = 1;
  job_id = 1;
  nonce = 5;
  ntime = built_job.cur_time;
  version = 0x2000_0000;
  extranonce = replicate 8 2;
}

sv2_submit-IsCredited_example :
    Returns
      (λ h.
        IsCredited fixed open_wire plain_hex length_digest input (some sent_share) device h
        ⊎ IsUncounted fixed open_wire 1 device h)
      (handle_submit fixed open_wire plain_hex length_digest input (some sent_share) device)
sv2_submit-IsCredited_example =
    sv2_submit-IsCredited fixed open_wire plain_hex length_digest input (some sent_share) device

abbrev at : MessageInput
at = record { limited_at = 1; refilled_at = 2; opening = open_input; submitting = input }

-- A device sets up, opens a channel, is sent a job, submits a share and leaves.
abbrev visit : List Event
visit =
    message_read at 10 40 (
      setup_connection
        (some (record { is_mining_protocol = true; min_version = 2; max_version = 2; flags = 0 })))
    ∷ message_read at 20 60 (open_extended_mining_channel (some opening))
    ∷ job_sent (record { job = built_job; clean = true })
    ∷ message_read at 30 40 (submit_shares_extended (some sent_share))
    ∷ read_ended
    ∷ []

abbrev fresh : Sv2Session fixed
fresh = new fixed (1 ∷ []) 4 8 8 vardiff_cfg (new_guard security) rate 0 0

sv2_session-Balanced_example :
    let l =
      run fixed open_wire any_types plain_hex length_digest visit
        (start fixed (some built_job) fresh) in
    let calls = l.calls ++ close fixed 50 l.session in
    (l.next ≢ panicked)
    × (online fixed (text "w") calls ≡ offline fixed (text "w") calls)
    × (length (credits fixed l.calls) ≡ l.session.shares_accepted)
sv2_session-Balanced_example =
    sv2_session-Balanced fixed open_wire any_types plain_hex length_digest (1 ∷ []) 4 8 8
      vardiff_cfg (new_guard security) rate 0 0 (some built_job) visit 50 (text "w") (omega arith)
      (omega arith) (omega arith) refl
