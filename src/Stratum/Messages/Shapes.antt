-- ===== src/Stratum/Messages/Shapes.antt =====
-- A valid message fits the shape of its type, and is rebuilt from its own value.
mod Channels
mod Mining
use mathlib.Core.Path.{subst}
use mathlib.Core.Option.{some-injective}
use bic_os.Base.{ℕ, ◌≡◌, refl, Bool, some, List, [], ◌∷◌}
use bic_os.Stratum.Serialization.{Width, Shape, str0_32, str0_255, str1_255, bytes0_32}
use bic_os.Stratum.Serialization.Fits.{Fits, FitsAll}
use bic_os.Stratum.Types.{u8_values, uint256_shape}
use bic_os.Stratum.Types.Checks.{text-Fits, byte_box-Fits, uint256-Fits}
use bic_os.Stratum.Messages.{
  DeviceInfo, Message, type_of, SetupConnection, SetupConnectionSuccess, SetupConnectionError,
  OpenStandardMiningChannel, OpenStandardMiningChannelSuccess, OpenStandardMiningChannelError,
  SubmitSharesStandard, SubmitSharesSuccess, SubmitSharesError, NewMiningJob, SetNewPrevHash,
  SetTarget,
}
use bic_os.Stratum.Messages.Encode.{to_value, device_info}
use bic_os.Stratum.Messages.Layout.{
  shape_of, device_info_shape, struct_shape, text_shape, bytes_shape,
}
use bic_os.Stratum.Messages.Decode.{of_value, as_u8s}
use bic_os.Stratum.Messages.Valid.{
  IsMessage, IsDeviceInfo, IsSetupConnection, IsSetupConnectionSuccess, IsSetupConnectionError,
  IsOpenStandardMiningChannel, IsOpenStandardMiningChannelSuccess, IsOpenStandardMiningChannelError,
  IsSubmitSharesStandard, IsSubmitSharesSuccess, IsSubmitSharesError, IsNewMiningJob,
  IsSetNewPrevHash, IsSetTarget,
}
use bic_os.Stratum.Messages.Shapes.Channels.{
  device_info-Fits, setup_connection-Fits, setup_connection_success-Fits,
  setup_connection_error-Fits, open_standard_mining_channel-Fits,
  open_standard_mining_channel_success-Fits, open_standard_mining_channel_error-Fits,
}
use bic_os.Stratum.Messages.Shapes.Mining.{
  submit_shares_standard-Fits, submit_shares_success-Fits, submit_shares_error-Fits,
  new_mining_job-Fits, set_new_prev_hash-Fits, set_target-Fits,
}

as_u8s-u8_values : (bs : List ℕ) → as_u8s (u8_values bs) ≡ some bs
unfolding as_u8s
as_u8s-u8_values [] = refl
as_u8s-u8_values (b ∷ bs) = rw (as_u8s-u8_values bs)

module _ (utf8 : List ℕ → Bool) where
  -- The shape of a valid message's type, where it has one, is the shape of its value.
  pub to_value-Fits :
      (m : Message) (s : Shape)
      → IsMessage utf8 m
      → shape_of (type_of m) ≡ some s
      → Fits utf8 s (to_value m)
  to_value-Fits (Message.setup_connection m) s h e =
      subst (λ s. Fits utf8 s (to_value (Message.setup_connection m))) (some-injective _ _ e)
        (setup_connection-Fits utf8 m h)
  to_value-Fits (Message.setup_connection_success m) s h e =
      subst (λ s. Fits utf8 s (to_value (Message.setup_connection_success m)))
        (some-injective _ _ e) (setup_connection_success-Fits utf8 m h)
  to_value-Fits (Message.setup_connection_error m) s h e =
      subst (λ s. Fits utf8 s (to_value (Message.setup_connection_error m))) (some-injective _ _ e)
        (setup_connection_error-Fits utf8 m h)
  to_value-Fits (Message.open_standard_mining_channel m) s h e =
      subst (λ s. Fits utf8 s (to_value (Message.open_standard_mining_channel m)))
        (some-injective _ _ e) (open_standard_mining_channel-Fits utf8 m h)
  to_value-Fits (Message.open_standard_mining_channel_success m) s h e =
      subst (λ s. Fits utf8 s (to_value (Message.open_standard_mining_channel_success m)))
        (some-injective _ _ e) (open_standard_mining_channel_success-Fits utf8 m h)
  to_value-Fits (Message.open_standard_mining_channel_error m) s h e =
      subst (λ s. Fits utf8 s (to_value (Message.open_standard_mining_channel_error m)))
        (some-injective _ _ e) (open_standard_mining_channel_error-Fits utf8 m h)
  to_value-Fits (Message.submit_shares_standard m) s h e =
      subst (λ s. Fits utf8 s (to_value (Message.submit_shares_standard m))) (some-injective _ _ e)
        (submit_shares_standard-Fits utf8 m h)
  to_value-Fits (Message.submit_shares_success m) s h e =
      subst (λ s. Fits utf8 s (to_value (Message.submit_shares_success m))) (some-injective _ _ e)
        (submit_shares_success-Fits utf8 m h)
  to_value-Fits (Message.submit_shares_error m) s h e =
      subst (λ s. Fits utf8 s (to_value (Message.submit_shares_error m))) (some-injective _ _ e)
        (submit_shares_error-Fits utf8 m h)
  to_value-Fits (Message.new_mining_job m) s h e =
      subst (λ s. Fits utf8 s (to_value (Message.new_mining_job m))) (some-injective _ _ e)
        (new_mining_job-Fits utf8 m h)
  to_value-Fits (Message.set_new_prev_hash m) s h e =
      subst (λ s. Fits utf8 s (to_value (Message.set_new_prev_hash m))) (some-injective _ _ e)
        (set_new_prev_hash-Fits utf8 m h)
  to_value-Fits (Message.set_target m) s h e =
      subst (λ s. Fits utf8 s (to_value (Message.set_target m))) (some-injective _ _ e)
        (set_target-Fits utf8 m h)
  to_value-Fits Message.update_channel s h e = cc
  to_value-Fits Message.update_channel_error s h e = cc

-- A message of a type with a shape is rebuilt from its own value.
pub of_value-to_value :
    (m : Message) (s : Shape)
    → shape_of (type_of m) ≡ some s
    → of_value (type_of m) (to_value m) ≡ some m
unfolding of_value
of_value-to_value (Message.setup_connection m) s e = refl
of_value-to_value (Message.setup_connection_success m) s e = refl
of_value-to_value (Message.setup_connection_error m) s e = refl
of_value-to_value (Message.open_standard_mining_channel m) s e = rw (as_u8s-u8_values m.max_target)
of_value-to_value (Message.open_standard_mining_channel_success m) s e =
    rw (as_u8s-u8_values m.target, as_u8s-u8_values m.extranonce_prefix)
of_value-to_value (Message.open_standard_mining_channel_error m) s e = refl
of_value-to_value (Message.submit_shares_standard m) s e = refl
of_value-to_value (Message.submit_shares_success m) s e = refl
of_value-to_value (Message.submit_shares_error m) s e = refl
of_value-to_value (Message.new_mining_job m) s e = rw (as_u8s-u8_values m.merkle_root)
of_value-to_value (Message.set_new_prev_hash m) s e = rw (as_u8s-u8_values m.prev_hash)
of_value-to_value (Message.set_target m) s e = rw (as_u8s-u8_values m.max_target)
of_value-to_value Message.update_channel s e = cc
of_value-to_value Message.update_channel_error s e = cc
