-- ===== src/Stratum/Messages/Tests.antt =====
-- Messages over the wire.
use bic_os.Base.{ℕ, Bool, true, some, List, ◌≡◌, refl, ok, replicate, arith}
use bic_os.Stratum.Messages.{NewMiningJob, Message}
use bic_os.Stratum.Messages.Valid.{IsNewMiningJob}
use bic_os.Stratum.Messages.Dispatch.{over_the_wire}
use bic_os.Stratum.Messages.RoundTrip.{header_of, over_the_wire_lem}

abbrev any_text : List ℕ → Bool
any_text s = true

abbrev job : NewMiningJob
job = record {
  channel_id = 7;
  job_id = 513;
  future_job = true;
  version = 536870912;
  merkle_root = replicate 32 255;
}

job-IsNewMiningJob : IsNewMiningJob any_text job
job-IsNewMiningJob = record {
  channel_id_ok = omega arith;
  job_id_ok = omega arith;
  version_ok = omega arith;
  merkle_root_ok = ground arith;
}

over_the_wire_lem_example :
    (n : ℕ) × (over_the_wire any_text (Message.new_mining_job job)
      ≡ ok (header_of (Message.new_mining_job job) (some n), Message.new_mining_job job))
over_the_wire_lem_example =
    over_the_wire_lem any_text (Message.new_mining_job job) _ job-IsNewMiningJob refl
