-- ===== src/Stratum/Messages/Shapes/Mining.antt =====
-- The messages of mining fit the shapes of their types.
use bic_os.Base.{ℕ, Bool, List, [], ◌∷◌}
use bic_os.Stratum.Serialization.{Width, Shape, str0_32}
use bic_os.Stratum.Serialization.Fits.{Fits, FitsAll}
use bic_os.Stratum.Types.{uint256_shape}
use bic_os.Stratum.Types.Checks.{text-Fits, uint256-Fits}
use bic_os.Stratum.Messages.{
  Message, SubmitSharesStandard, SubmitSharesSuccess, SubmitSharesError, NewMiningJob,
  SetNewPrevHash, SetTarget,
}
use bic_os.Stratum.Messages.Encode.{to_value}
use bic_os.Stratum.Messages.Layout.{struct_shape, text_shape}
use bic_os.Stratum.Messages.Valid.{
  IsSubmitSharesStandard, IsSubmitSharesSuccess, IsSubmitSharesError, IsNewMiningJob,
  IsSetNewPrevHash, IsSetTarget,
}

module _ (utf8 : List ℕ → Bool) where
  pub submit_shares_standard-Fits :
      (m : SubmitSharesStandard)
      → IsSubmitSharesStandard utf8 m
      → Fits utf8
          (struct_shape (
            Shape.unsigned Width.w32
            ∷ Shape.unsigned Width.w32
            ∷ Shape.unsigned Width.w32
            ∷ Shape.unsigned Width.w32
            ∷ Shape.unsigned Width.w32
            ∷ Shape.unsigned Width.w32
            ∷ []))
          (to_value (Message.submit_shares_standard m))
  submit_shares_standard-Fits m h = Fits.tuple (
      FitsAll.field (Fits.unsigned Width.w32 m.channel_id h.channel_id_ok) (
        FitsAll.field (Fits.unsigned Width.w32 m.seq_num h.seq_num_ok) (
          FitsAll.field (Fits.unsigned Width.w32 m.job_id h.job_id_ok) (
            FitsAll.field (Fits.unsigned Width.w32 m.nonce h.nonce_ok) (
              FitsAll.field (Fits.unsigned Width.w32 m.ntime h.ntime_ok) (
                FitsAll.field (Fits.unsigned Width.w32 m.version h.version_ok)
                  (FitsAll.no_fields)))))))

  pub submit_shares_success-Fits :
      (m : SubmitSharesSuccess)
      → IsSubmitSharesSuccess utf8 m
      → Fits utf8
          (struct_shape (
            Shape.unsigned Width.w32
            ∷ Shape.unsigned Width.w32
            ∷ Shape.unsigned Width.w32
            ∷ Shape.unsigned Width.w32
            ∷ []))
          (to_value (Message.submit_shares_success m))
  submit_shares_success-Fits m h = Fits.tuple (
      FitsAll.field (Fits.unsigned Width.w32 m.channel_id h.channel_id_ok) (
        FitsAll.field (Fits.unsigned Width.w32 m.last_seq_num h.last_seq_num_ok) (
          FitsAll.field
            (Fits.unsigned Width.w32 m.new_submits_accepted_count h.new_submits_accepted_count_ok)
            (FitsAll.field (Fits.unsigned Width.w32 m.new_shares_sum h.new_shares_sum_ok)
              (FitsAll.no_fields)))))

  pub submit_shares_error-Fits :
      (m : SubmitSharesError)
      → IsSubmitSharesError utf8 m
      → Fits utf8
          (struct_shape
            (Shape.unsigned Width.w32 ∷ Shape.unsigned Width.w32 ∷ text_shape str0_32 ∷ []))
          (to_value (Message.submit_shares_error m))
  submit_shares_error-Fits m h = Fits.tuple (
      FitsAll.field (Fits.unsigned Width.w32 m.channel_id h.channel_id_ok) (
        FitsAll.field (Fits.unsigned Width.w32 m.seq_num h.seq_num_ok) (
          FitsAll.field (text-Fits utf8 str0_32 m.code _ tt h.code_ok.0 h.code_ok.1)
            (FitsAll.no_fields))))

  pub new_mining_job-Fits :
      (m : NewMiningJob)
      → IsNewMiningJob utf8 m
      → Fits utf8
          (struct_shape (
            Shape.unsigned Width.w32
            ∷ Shape.unsigned Width.w32
            ∷ Shape.bool
            ∷ Shape.unsigned Width.w32
            ∷ uint256_shape
            ∷ []))
          (to_value (Message.new_mining_job m))
  new_mining_job-Fits m h = Fits.tuple (
      FitsAll.field (Fits.unsigned Width.w32 m.channel_id h.channel_id_ok) (
        FitsAll.field (Fits.unsigned Width.w32 m.job_id h.job_id_ok) (
          FitsAll.field (Fits.bool m.future_job) (
            FitsAll.field (Fits.unsigned Width.w32 m.version h.version_ok) (
              FitsAll.field (uint256-Fits utf8 m.merkle_root h.merkle_root_ok.0 h.merkle_root_ok.1)
                (FitsAll.no_fields))))))

  pub set_new_prev_hash-Fits :
      (m : SetNewPrevHash)
      → IsSetNewPrevHash utf8 m
      → Fits utf8
          (struct_shape (
            Shape.unsigned Width.w32
            ∷ Shape.unsigned Width.w32
            ∷ uint256_shape
            ∷ Shape.unsigned Width.w32
            ∷ Shape.unsigned Width.w32
            ∷ []))
          (to_value (Message.set_new_prev_hash m))
  set_new_prev_hash-Fits m h = Fits.tuple (
      FitsAll.field (Fits.unsigned Width.w32 m.channel_id h.channel_id_ok) (
        FitsAll.field (Fits.unsigned Width.w32 m.job_id h.job_id_ok) (
          FitsAll.field (uint256-Fits utf8 m.prev_hash h.prev_hash_ok.0 h.prev_hash_ok.1) (
            FitsAll.field (Fits.unsigned Width.w32 m.min_ntime h.min_ntime_ok)
              (FitsAll.field (Fits.unsigned Width.w32 m.nbits h.nbits_ok) (FitsAll.no_fields))))))

  pub set_target-Fits :
      (m : SetTarget)
      → IsSetTarget utf8 m
      → Fits utf8
          (struct_shape (Shape.unsigned Width.w32 ∷ uint256_shape ∷ []))
          (to_value (Message.set_target m))
  set_target-Fits m h = Fits.tuple (
      FitsAll.field (Fits.unsigned Width.w32 m.channel_id h.channel_id_ok) (
        FitsAll.field (uint256-Fits utf8 m.max_target h.max_target_ok.0 h.max_target_ok.1)
          (FitsAll.no_fields)))
