-- ===== src/Sv2/Frame.antt =====
-- src/protocol/sv2/messages.rs: the frame of a message, and the messages that the pool sends and
-- reads. The encoding of a message's payload (crate `binary_sv2`) is a parameter.
pub mod RoundTrip
use Prim.Native.String.{String}
use solo_pool_rs.Prelude.{
  ℕ, ◌+◌, ◌%◌, ◌^◌, Bool, Option, none, some, List, [], ◌∷◌, ◌++◌, length, take, if◌then◌else◌,
}
use solo_pool_rs.Prelude.Bytes.{Bytes, to_le_bytes}
use solo_pool_rs.Sv2.Job.{NewExtendedMiningJob, SetNewPrevHash}

-- `EXT_TYPE` is 0.
abbrev pub channel_msg_bit : ℕ
channel_msg_bit = 0x8000

unfoldable pub frame_bytes : ℕ → Bool → Bytes → Bytes
frame_bytes msg_type channel_msg payload =
    let ext = if channel_msg then channel_msg_bit else 0 in
    to_le_bytes 2 ext ++ (msg_type ∷ (take 3 (to_le_bytes 4 (length payload % 2 ^ 32)) ++ payload))

-- `FLAG_REQUIRES_STANDARD_JOBS | FLAG_REQUIRES_WORK_SELECTION`.
abbrev pub unsupported_setup_flags : ℕ
unsupported_setup_flags = 3

-- `SetupConn`; of the protocol the pool asks whether it is the mining protocol.
pub record SetupConn : Type 0 where
  pub is_mining_protocol : Bool
  pub min_version : ℕ
  pub max_version : ℕ
  pub flags : ℕ

-- `OpenExtended`, less the nominal hash rate, which nothing reads.
pub record OpenExtended : Type 0 where
  pub request_id : ℕ
  pub user_identity : Bytes
  pub max_target : Bytes
  pub min_extranonce_size : ℕ

-- `SubmitExtended`, less the channel id, which nothing reads.
pub record SubmitExtended : Type 0 where
  pub sequence_number : ℕ
  pub job_id : ℕ
  pub nonce : ℕ
  pub ntime : ℕ
  pub version : ℕ
  pub extranonce : Bytes

-- What the pool sends, with what each constructor function of messages.rs is given.
pub data Outbound : Type 0 where
  setup_connection_success : ℕ → Outbound
  setup_connection_error : String → ℕ → Outbound
  open_channel_error_extranonce : ℕ → Outbound
  open_extended_success : ℕ → ℕ → Bytes → ℕ → Bytes → Outbound
  set_target : ℕ → Bytes → Outbound
  new_extended_mining_job : NewExtendedMiningJob → Outbound
  set_new_prev_hash : SetNewPrevHash → Outbound
  submit_shares_success : ℕ → ℕ → ℕ → Outbound
  submit_shares_error : ℕ → ℕ → String → Outbound

-- The encoding of a message, which may fail, and whether the writer gets it out.
pub record Wire : Type 0 where
  pub encode : Outbound → Option Bytes
  pub send : Outbound → Bool
