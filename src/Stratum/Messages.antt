-- ===== src/Stratum/Messages.antt =====
-- The messages of open/protocols/stratum/src/v2/messages.rs and their types. A text or a byte string
-- is its bytes, a float its bits.
pub mod Encode
pub mod Layout
pub mod Decode
pub mod Dispatch
pub mod Valid
pub mod Shapes
pub mod RoundTrip
mod Tests
use bic_os.Base.{ℕ, Bool, true, false, Option, none, some, List, [], ◌∷◌, ◌==◌, if◌then◌else◌}

-- `MessageType`, with its codes below.
pub data MessageType : Type 0 where
  setup_connection setup_connection_success setup_connection_error : MessageType
  channel_endpoint_changed : MessageType
  open_standard_mining_channel open_standard_mining_channel_success : MessageType
  open_standard_mining_channel_error open_extended_mining_channel : MessageType
  open_extended_mining_channel_success open_extended_mining_channel_error : MessageType
  update_channel update_channel_error close_channel set_extranonce_prefix : MessageType
  submit_shares_standard submit_shares_extended submit_shares_success : MessageType
  submit_shares_error new_mining_job new_extended_mining_job set_new_prev_hash : MessageType
  set_target set_custom_mining_job set_custom_mining_job_success : MessageType
  set_custom_mining_error reconnect set_group_channel : MessageType

unfoldable pub code : MessageType → ℕ
code MessageType.setup_connection = 0x0
code MessageType.setup_connection_success = 0x1
code MessageType.setup_connection_error = 0x2
code MessageType.channel_endpoint_changed = 0x3
code MessageType.open_standard_mining_channel = 0x10
code MessageType.open_standard_mining_channel_success = 0x11
code MessageType.open_standard_mining_channel_error = 0x12
code MessageType.open_extended_mining_channel = 0x13
code MessageType.open_extended_mining_channel_success = 0x14
code MessageType.open_extended_mining_channel_error = 0x15
code MessageType.update_channel = 0x16
code MessageType.update_channel_error = 0x17
code MessageType.close_channel = 0x18
code MessageType.set_extranonce_prefix = 0x19
code MessageType.submit_shares_standard = 0x1a
code MessageType.submit_shares_extended = 0x1b
code MessageType.submit_shares_success = 0x1c
code MessageType.submit_shares_error = 0x1d
code MessageType.new_mining_job = 0x1e
code MessageType.new_extended_mining_job = 0x1f
code MessageType.set_new_prev_hash = 0x20
code MessageType.set_target = 0x21
code MessageType.set_custom_mining_job = 0x22
code MessageType.set_custom_mining_job_success = 0x23
code MessageType.set_custom_mining_error = 0x24
code MessageType.reconnect = 0x25
code MessageType.set_group_channel = 0x26

abbrev all_types : List MessageType
all_types =
    MessageType.setup_connection ∷ MessageType.setup_connection_success
    ∷ MessageType.setup_connection_error ∷ MessageType.channel_endpoint_changed
    ∷ MessageType.open_standard_mining_channel ∷ MessageType.open_standard_mining_channel_success
    ∷ MessageType.open_standard_mining_channel_error ∷ MessageType.open_extended_mining_channel
    ∷ MessageType.open_extended_mining_channel_success
    ∷ MessageType.open_extended_mining_channel_error ∷ MessageType.update_channel
    ∷ MessageType.update_channel_error ∷ MessageType.close_channel
    ∷ MessageType.set_extranonce_prefix ∷ MessageType.submit_shares_standard
    ∷ MessageType.submit_shares_extended ∷ MessageType.submit_shares_success
    ∷ MessageType.submit_shares_error ∷ MessageType.new_mining_job
    ∷ MessageType.new_extended_mining_job ∷ MessageType.set_new_prev_hash ∷ MessageType.set_target
    ∷ MessageType.set_custom_mining_job ∷ MessageType.set_custom_mining_job_success
    ∷ MessageType.set_custom_mining_error ∷ MessageType.reconnect ∷ MessageType.set_group_channel
    ∷ []

find_code : ℕ → List MessageType → Option MessageType
find_code n [] = none
find_code n (t ∷ ts) = if code t == n then some t else find_code n ts

-- The derived `from_primitive`.
unfoldable pub from_primitive : ℕ → Option MessageType
unfolding find_code code
from_primitive n = find_code n all_types

pub record DeviceInfo : Type 0 where
  pub vendor : List ℕ
  pub hw_rev : List ℕ
  pub fw_ver : List ℕ
  pub dev_id : List ℕ

pub record SetupConnection : Type 0 where
  pub protocol : ℕ
  pub min_version : ℕ
  pub max_version : ℕ
  pub flags : ℕ
  pub endpoint_host : List ℕ
  pub endpoint_port : ℕ
  pub device : DeviceInfo

pub record SetupConnectionSuccess : Type 0 where
  pub used_version : ℕ
  pub flags : ℕ

pub record SetupConnectionError : Type 0 where
  pub flags : ℕ
  pub code : List ℕ

pub record OpenStandardMiningChannel : Type 0 where
  pub req_id : ℕ
  pub user : List ℕ
  pub nominal_hashrate : ℕ
  pub max_target : List ℕ

pub record OpenStandardMiningChannelSuccess : Type 0 where
  pub req_id : ℕ
  pub channel_id : ℕ
  pub target : List ℕ
  pub extranonce_prefix : List ℕ
  pub group_channel_id : ℕ

pub record OpenStandardMiningChannelError : Type 0 where
  pub req_id : ℕ
  pub code : List ℕ

pub record SubmitSharesStandard : Type 0 where
  pub channel_id : ℕ
  pub seq_num : ℕ
  pub job_id : ℕ
  pub nonce : ℕ
  pub ntime : ℕ
  pub version : ℕ

pub record SubmitSharesSuccess : Type 0 where
  pub channel_id : ℕ
  pub last_seq_num : ℕ
  pub new_submits_accepted_count : ℕ
  pub new_shares_sum : ℕ

pub record SubmitSharesError : Type 0 where
  pub channel_id : ℕ
  pub seq_num : ℕ
  pub code : List ℕ

pub record NewMiningJob : Type 0 where
  pub channel_id : ℕ
  pub job_id : ℕ
  pub future_job : Bool
  pub version : ℕ
  pub merkle_root : List ℕ

pub record SetNewPrevHash : Type 0 where
  pub channel_id : ℕ
  pub job_id : ℕ
  pub prev_hash : List ℕ
  pub min_ntime : ℕ
  pub nbits : ℕ

pub record SetTarget : Type 0 where
  pub channel_id : ℕ
  pub max_target : List ℕ

-- What a frame carries: a value of one of the message types, behind `AnyPayload`.
pub data Message : Type 0 where
  setup_connection : SetupConnection → Message
  setup_connection_success : SetupConnectionSuccess → Message
  setup_connection_error : SetupConnectionError → Message
  open_standard_mining_channel : OpenStandardMiningChannel → Message
  open_standard_mining_channel_success : OpenStandardMiningChannelSuccess → Message
  open_standard_mining_channel_error : OpenStandardMiningChannelError → Message
  submit_shares_standard : SubmitSharesStandard → Message
  submit_shares_success : SubmitSharesSuccess → Message
  submit_shares_error : SubmitSharesError → Message
  new_mining_job : NewMiningJob → Message
  set_new_prev_hash : SetNewPrevHash → Message
  set_target : SetTarget → Message
  update_channel update_channel_error : Message

abbrev pub type_of : Message → MessageType
type_of (Message.setup_connection _) = MessageType.setup_connection
type_of (Message.setup_connection_success _) = MessageType.setup_connection_success
type_of (Message.setup_connection_error _) = MessageType.setup_connection_error
type_of (Message.open_standard_mining_channel _) = MessageType.open_standard_mining_channel
type_of (Message.open_standard_mining_channel_success _) =
    MessageType.open_standard_mining_channel_success
type_of (Message.open_standard_mining_channel_error _) =
    MessageType.open_standard_mining_channel_error
type_of (Message.submit_shares_standard _) = MessageType.submit_shares_standard
type_of (Message.submit_shares_success _) = MessageType.submit_shares_success
type_of (Message.submit_shares_error _) = MessageType.submit_shares_error
type_of (Message.new_mining_job _) = MessageType.new_mining_job
type_of (Message.set_new_prev_hash _) = MessageType.set_new_prev_hash
type_of (Message.set_target _) = MessageType.set_target
type_of Message.update_channel = MessageType.update_channel
type_of Message.update_channel_error = MessageType.update_channel_error

-- The flag of `impl_base_message_conversion!`.
abbrev pub is_channel_message : Message → Bool
is_channel_message (Message.setup_connection _) = false
is_channel_message (Message.setup_connection_success _) = false
is_channel_message (Message.setup_connection_error _) = false
is_channel_message (Message.open_standard_mining_channel _) = false
is_channel_message (Message.open_standard_mining_channel_success _) = false
is_channel_message (Message.open_standard_mining_channel_error _) = false
is_channel_message (Message.submit_shares_standard _) = true
is_channel_message (Message.submit_shares_success _) = true
is_channel_message (Message.submit_shares_error _) = true
is_channel_message (Message.new_mining_job _) = true
is_channel_message (Message.set_new_prev_hash _) = true
is_channel_message (Message.set_target _) = true
is_channel_message Message.update_channel = true
is_channel_message Message.update_channel_error = true
