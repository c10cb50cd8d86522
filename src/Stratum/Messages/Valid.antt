-- ===== src/Stratum/Messages/Valid.antt =====
-- Messages that the types of the source can hold: the range of each integer, and the length of each
-- sized type.
use bic_os.Base.{ℕ, ◌<◌, ◌≡◌, Bool, true, some, List, length, All, IsByte}
use bic_os.Stratum.Serialization.{Width, patterns, Name, str0_32, str0_255, str1_255, bytes0_32}
use bic_os.Stratum.Types.{text, byte_box, try_from_string, try_from_bytes}
use bic_os.Stratum.Messages.{
  DeviceInfo, SetupConnection, SetupConnectionSuccess, SetupConnectionError,
  OpenStandardMiningChannel, OpenStandardMiningChannelSuccess, OpenStandardMiningChannelError,
  SubmitSharesStandard, SubmitSharesSuccess, SubmitSharesError, NewMiningJob, SetNewPrevHash,
  SetTarget, Message,
}

abbrev pub IsUint256 : List ℕ → Type 0
IsUint256 bs = All IsByte bs × (length bs ≡ 32)

abbrev pub IsByteBox : Name → List ℕ → Type 0
IsByteBox n bs = All IsByte bs × (try_from_bytes n bs ≡ some (byte_box n bs))

module _ (utf8 : List ℕ → Bool) where
  abbrev pub IsText : Name → List ℕ → Type 0
  IsText n s = (utf8 s ≡ true) × (try_from_string n s ≡ some (text n s))

  pub record IsDeviceInfo (m : DeviceInfo) : Type 0 where
    pub vendor_ok : IsText str0_255 m.vendor
    pub hw_rev_ok : IsText str0_255 m.hw_rev
    pub fw_ver_ok : IsText str0_255 m.fw_ver
    pub dev_id_ok : IsText str0_255 m.dev_id

  pub record IsSetupConnection (m : SetupConnection) : Type 0 where
    pub protocol_ok : m.protocol < patterns Width.w8
    pub min_version_ok : m.min_version < patterns Width.w16
    pub max_version_ok : m.max_version < patterns Width.w16
    pub flags_ok : m.flags < patterns Width.w32
    pub endpoint_host_ok : IsText str0_255 m.endpoint_host
    pub endpoint_port_ok : m.endpoint_port < patterns Width.w16
    pub device_ok : IsDeviceInfo m.device

  pub record IsSetupConnectionSuccess (m : SetupConnectionSuccess) : Type 0 where
    pub used_version_ok : m.used_version < patterns Width.w16
    pub flags_ok : m.flags < patterns Width.w32

  pub record IsSetupConnectionError (m : SetupConnectionError) : Type 0 where
    pub flags_ok : m.flags < patterns Width.w32
    pub code_ok : IsText str0_255 m.code

  pub record IsOpenStandardMiningChannel (m : OpenStandardMiningChannel) : Type 0 where
    pub req_id_ok : m.req_id < patterns Width.w32
    pub user_ok : IsText str1_255 m.user
    pub nominal_hashrate_ok : m.nominal_hashrate < patterns Width.w32
    pub max_target_ok : IsUint256 m.max_target

  pub record IsOpenStandardMiningChannelSuccess (m : OpenStandardMiningChannelSuccess)
      : Type 0 where
    pub req_id_ok : m.req_id < patterns Width.w32
    pub channel_id_ok : m.channel_id < patterns Width.w32
    pub target_ok : IsUint256 m.target
    pub extranonce_prefix_ok : IsByteBox bytes0_32 m.extranonce_prefix
    pub group_channel_id_ok : m.group_channel_id < patterns Width.w32

  pub record IsOpenStandardMiningChannelError (m : OpenStandardMiningChannelError) : Type 0 where
    pub req_id_ok : m.req_id < patterns Width.w32
    pub code_ok : IsText str0_32 m.code

  pub record IsSubmitSharesStandard (m : SubmitSharesStandard) : Type 0 where
    pub channel_id_ok : m.channel_id < patterns Width.w32
    pub seq_num_ok : m.seq_num < patterns Width.w32
    pub job_id_ok : m.job_id < patterns Width.w32
    pub nonce_ok : m.nonce < patterns Width.w32
    pub ntime_ok : m.ntime < patterns Width.w32
    pub version_ok : m.version < patterns Width.w32

  pub record IsSubmitSharesSuccess (m : SubmitSharesSuccess) : Type 0 where
    pub channel_id_ok : m.channel_id < patterns Width.w32
    pub last_seq_num_ok : m.last_seq_num < patterns Width.w32
    pub new_submits_accepted_count_ok : m.new_submits_accepted_count < patterns Width.w32
    pub new_shares_sum_ok : m.new_shares_sum < patterns Width.w32

  pub record IsSubmitSharesError (m : SubmitSharesError) : Type 0 where
    pub channel_id_ok : m.channel_id < patterns Width.w32
    pub seq_num_ok : m.seq_num < patterns Width.w32
    pub code_ok : IsText str0_32 m.code

  pub record IsNewMiningJob (m : NewMiningJob) : Type 0 where
    pub channel_id_ok : m.channel_id < patterns Width.w32
    pub job_id_ok : m.job_id < patterns Width.w32
    pub version_ok : m.version < patterns Width.w32
    pub merkle_root_ok : IsUint256 m.merkle_root

  pub record IsSetNewPrevHash (m : SetNewPrevHash) : Type 0 where
    pub channel_id_ok : m.channel_id < patterns Width.w32
    pub job_id_ok : m.job_id < patterns Width.w32
    pub prev_hash_ok : IsUint256 m.prev_hash
    pub min_ntime_ok : m.min_ntime < patterns Width.w32
    pub nbits_ok : m.nbits < patterns Width.w32

  pub record IsSetTarget (m : SetTarget) : Type 0 where
    pub channel_id_ok : m.channel_id < patterns Width.w32
    pub max_target_ok : IsUint256 m.max_target

  abbrev pub IsMessage : Message → Type 0
  IsMessage (Message.setup_connection m) = IsSetupConnection m
  IsMessage (Message.setup_connection_success m) = IsSetupConnectionSuccess m
  IsMessage (Message.setup_connection_error m) = IsSetupConnectionError m
  IsMessage (Message.open_standard_mining_channel m) = IsOpenStandardMiningChannel m
  IsMessage (Message.open_standard_mining_channel_success m) = IsOpenStandardMiningChannelSuccess m
  IsMessage (Message.open_standard_mining_channel_error m) = IsOpenStandardMiningChannelError m
  IsMessage (Message.submit_shares_standard m) = IsSubmitSharesStandard m
  IsMessage (Message.submit_shares_success m) = IsSubmitSharesSuccess m
  IsMessage (Message.submit_shares_error m) = IsSubmitSharesError m
  IsMessage (Message.new_mining_job m) = IsNewMiningJob m
  IsMessage (Message.set_new_prev_hash m) = IsSetNewPrevHash m
  IsMessage (Message.set_target m) = IsSetTarget m
  IsMessage Message.update_channel = Unit {0}
  IsMessage Message.update_channel_error = Unit {0}
