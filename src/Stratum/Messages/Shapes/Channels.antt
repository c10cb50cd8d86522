-- ===== src/Stratum/Messages/Shapes/Channels.antt =====
-- The messages that set up a connection and open channels fit the shapes of their types.
use bic_os.Base.{ℕ, Bool, List, [], ◌∷◌}
use bic_os.Stratum.Serialization.{Width, Shape, str0_32, str0_255, str1_255, bytes0_32}
use bic_os.Stratum.Serialization.Fits.{Fits, FitsAll}
use bic_os.Stratum.Types.{uint256_shape}
use bic_os.Stratum.Types.Checks.{text-Fits, byte_box-Fits, uint256-Fits}
use bic_os.Stratum.Messages.{
  DeviceInfo, Message, SetupConnection, SetupConnectionSuccess, SetupConnectionError,
  OpenStandardMiningChannel, OpenStandardMiningChannelSuccess, OpenStandardMiningChannelError,
}
use bic_os.Stratum.Messages.Encode.{to_value, device_info}
use bic_os.Stratum.Messages.Layout.{device_info_shape, struct_shape, text_shape, bytes_shape}
use bic_os.Stratum.Messages.Valid.{
  IsDeviceInfo, IsSetupConnection, IsSetupConnectionSuccess, IsSetupConnectionError,
  IsOpenStandardMiningChannel, IsOpenStandardMiningChannelSuccess, IsOpenStandardMiningChannelError,
}

module _ (utf8 : List ℕ → Bool) where
  pub device_info-Fits :
      (m : DeviceInfo) → IsDeviceInfo utf8 m → Fits utf8 device_info_shape (device_info m)
  device_info-Fits m h = Fits.tuple (
      FitsAll.field (text-Fits utf8 str0_255 m.vendor _ tt h.vendor_ok.0 h.vendor_ok.1) (
        FitsAll.field (text-Fits utf8 str0_255 m.hw_rev _ tt h.hw_rev_ok.0 h.hw_rev_ok.1) (
          FitsAll.field (text-Fits utf8 str0_255 m.fw_ver _ tt h.fw_ver_ok.0 h.fw_ver_ok.1) (
            FitsAll.field (text-Fits utf8 str0_255 m.dev_id _ tt h.dev_id_ok.0 h.dev_id_ok.1)
              (FitsAll.no_fields)))))

  pub setup_connection-Fits :
      (m : SetupConnection)
      → IsSetupConnection utf8 m
      → Fits utf8
          (struct_shape (
            Shape.unsigned Width.w8
            ∷ Shape.unsigned Width.w16
            ∷ Shape.unsigned Width.w16
            ∷ Shape.unsigned Width.w32
            ∷ text_shape str0_255
            ∷ Shape.unsigned Width.w16
            ∷ device_info_shape
            ∷ []))
          (to_value (Message.setup_connection m))
  setup_connection-Fits m h = Fits.tuple (
      FitsAll.field (Fits.unsigned Width.w8 m.protocol h.protocol_ok) (
        FitsAll.field (Fits.unsigned Width.w16 m.min_version h.min_version_ok) (
          FitsAll.field (Fits.unsigned Width.w16 m.max_version h.max_version_ok) (
            FitsAll.field (Fits.unsigned Width.w32 m.flags h.flags_ok) (
              FitsAll.field
                (text-Fits utf8 str0_255 m.endpoint_host _ tt h.endpoint_host_ok.0
                  h.endpoint_host_ok.1)
                (FitsAll.field (Fits.unsigned Width.w16 m.endpoint_port h.endpoint_port_ok)
                  (FitsAll.field (device_info-Fits m.device h.device_ok) (FitsAll.no_fields))))))))

  pub setup_connection_success-Fits :
      (m : SetupConnectionSuccess)
      → IsSetupConnectionSuccess utf8 m
      → Fits utf8
          (struct_shape (Shape.unsigned Width.w16 ∷ Shape.unsigned Width.w32 ∷ []))
          (to_value (Message.setup_connection_success m))
  setup_connection_success-Fits m h = Fits.tuple (
      FitsAll.field (Fits.unsigned Width.w16 m.used_version h.used_version_ok)
        (FitsAll.field (Fits.unsigned Width.w32 m.flags h.flags_ok) (FitsAll.no_fields)))

  pub setup_connection_error-Fits :
      (m : SetupConnectionError)
      → IsSetupConnectionError utf8 m
      → Fits utf8
          (struct_shape (Shape.unsigned Width.w32 ∷ text_shape str0_255 ∷ []))
          (to_value (Message.setup_connection_error m))
  setup_connection_error-Fits m h = Fits.tuple (
      FitsAll.field (Fits.unsigned Width.w32 m.flags h.flags_ok) (
        FitsAll.field (text-Fits utf8 str0_255 m.code _ tt h.code_ok.0 h.code_ok.1)
          (FitsAll.no_fields)))

  pub open_standard_mining_channel-Fits :
      (m : OpenStandardMiningChannel)
      → IsOpenStandardMiningChannel utf8 m
      → Fits utf8
          (struct_shape
            (Shape.unsigned Width.w32 ∷ text_shape str1_255 ∷ Shape.f32 ∷ uint256_shape ∷ []))
          (to_value (Message.open_standard_mining_channel m))
  open_standard_mining_channel-Fits m h = Fits.tuple (
      FitsAll.field (Fits.unsigned Width.w32 m.req_id h.req_id_ok) (
        FitsAll.field (text-Fits utf8 str1_255 m.user _ tt h.user_ok.0 h.user_ok.1) (
          FitsAll.field (Fits.f32 m.nominal_hashrate h.nominal_hashrate_ok) (
            FitsAll.field (uint256-Fits utf8 m.max_target h.max_target_ok.0 h.max_target_ok.1)
              (FitsAll.no_fields)))))

  pub open_standard_mining_channel_success-Fits :
      (m : OpenStandardMiningChannelSuccess)
      → IsOpenStandardMiningChannelSuccess utf8 m
      → Fits utf8
          (struct_shape (
            Shape.unsigned Width.w32
            ∷ Shape.unsigned Width.w32
            ∷ uint256_shape
            ∷ bytes_shape bytes0_32
            ∷ Shape.unsigned Width.w32
            ∷ []))
          (to_value (Message.open_standard_mining_channel_success m))
  open_standard_mining_channel_success-Fits m h = Fits.tuple (
      FitsAll.field (Fits.unsigned Width.w32 m.req_id h.req_id_ok) (
        FitsAll.field (Fits.unsigned Width.w32 m.channel_id h.channel_id_ok) (
          FitsAll.field (uint256-Fits utf8 m.target h.target_ok.0 h.target_ok.1) (
            FitsAll.field
              (byte_box-Fits utf8 bytes0_32 m.extranonce_prefix _ tt h.extranonce_prefix_ok.0
                h.extranonce_prefix_ok.1)
              (FitsAll.field (Fits.unsigned Width.w32 m.group_channel_id h.group_channel_id_ok)
                (FitsAll.no_fields))))))

  pub open_standard_mining_channel_error-Fits :
      (m : OpenStandardMiningChannelError)
      → IsOpenStandardMiningChannelError utf8 m
      → Fits utf8
          (struct_shape (Shape.unsigned Width.w32 ∷ text_shape str0_32 ∷ []))
          (to_value (Message.open_standard_mining_channel_error m))
  open_standard_mining_channel_error-Fits m h = Fits.tuple (
      FitsAll.field (Fits.unsigned Width.w32 m.req_id h.req_id_ok) (
        FitsAll.field (text-Fits utf8 str0_32 m.code _ tt h.code_ok.0 h.code_ok.1)
          (FitsAll.no_fields)))
