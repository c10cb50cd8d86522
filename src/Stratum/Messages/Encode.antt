-- ===== src/Stratum/Messages/Encode.antt =====
-- `Serialize` of the messages: each is a struct, whose fields are written in order.
use bic_os.Base.{ℕ, List, [], ◌∷◌}
use bic_os.Stratum.Serialization.{Width, Value, Values, str0_32, str0_255, str1_255, bytes0_32}
use bic_os.Stratum.Types.{text, byte_box, uint256}
use bic_os.Stratum.Messages.{DeviceInfo, Message}

abbrev values : List Value → Values
values [] = Values.nil
values (v ∷ vs) = Values.cons v (values vs)

abbrev pub struct : List Value → Value
struct vs = Value.tuple (values vs)

abbrev u8 : ℕ → Value
u8 n = Value.unsigned Width.w8 n

abbrev u16 : ℕ → Value
u16 n = Value.unsigned Width.w16 n

abbrev u32 : ℕ → Value
u32 n = Value.unsigned Width.w32 n

abbrev pub device_info : DeviceInfo → Value
device_info d = struct (
    text str0_255 d.vendor
    ∷ text str0_255 d.hw_rev
    ∷ text str0_255 d.fw_ver
    ∷ text str0_255 d.dev_id
    ∷ [])

abbrev pub to_value : Message → Value
to_value (Message.setup_connection m) = struct (
    u8 m.protocol
    ∷ u16 m.min_version
    ∷ u16 m.max_version
    ∷ u32 m.flags
    ∷ text str0_255 m.endpoint_host
    ∷ u16 m.endpoint_port
    ∷ device_info m.device
    ∷ [])
to_value (Message.setup_connection_success m) = struct (u16 m.used_version ∷ u32 m.flags ∷ [])
to_value (Message.setup_connection_error m) = struct (u32 m.flags ∷ text str0_255 m.code ∷ [])
to_value (Message.open_standard_mining_channel m) =
    struct (
      u32 m.req_id
      ∷ text str1_255 m.user
      ∷ Value.f32 m.nominal_hashrate
      ∷ uint256 m.max_target
      ∷ [])
to_value (Message.open_standard_mining_channel_success m) = struct (
    u32 m.req_id
    ∷ u32 m.channel_id
    ∷ uint256 m.target
    ∷ byte_box bytes0_32 m.extranonce_prefix
    ∷ u32 m.group_channel_id
    ∷ [])
to_value (Message.open_standard_mining_channel_error m) =
    struct (u32 m.req_id ∷ text str0_32 m.code ∷ [])
to_value (Message.submit_shares_standard m) = struct (
    u32 m.channel_id
    ∷ u32 m.seq_num
    ∷ u32 m.job_id
    ∷ u32 m.nonce
    ∷ u32 m.ntime
    ∷ u32 m.version
    ∷ [])
to_value (Message.submit_shares_success m) = struct (
    u32 m.channel_id
    ∷ u32 m.last_seq_num
    ∷ u32 m.new_submits_accepted_count
    ∷ u32 m.new_shares_sum
    ∷ [])
to_value (Message.submit_shares_error m) =
    struct (u32 m.channel_id ∷ u32 m.seq_num ∷ text str0_32 m.code ∷ [])
to_value (Message.new_mining_job m) = struct (
    u32 m.channel_id
    ∷ u32 m.job_id
    ∷ Value.bool m.future_job
    ∷ u32 m.version
    ∷ uint256 m.merkle_root
    ∷ [])
to_value (Message.set_new_prev_hash m) =
    struct
      (u32 m.channel_id ∷ u32 m.job_id ∷ uint256 m.prev_hash ∷ u32 m.min_ntime ∷ u32 m.nbits ∷ [])
to_value (Message.set_target m) = struct (u32 m.channel_id ∷ uint256 m.max_target ∷ [])
to_value Message.update_channel = Value.unit
to_value Message.update_channel_error = Value.unit
