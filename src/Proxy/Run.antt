-- ===== src/Proxy/Run.antt =====
-- A translation that handles one message after another, from the pool and from the client.
use bic_os.Base.{ℕ, Option, List, [], ◌∷◌}
use bic_os.Stratum.Messages.{SetupConnection, OpenStandardMiningChannel, SubmitSharesStandard}
use bic_os.Proxy.{Notify, Action, Env, pure, ◌>>◌}
use bic_os.Proxy.Upstream.{
  visit_stratum_result, visit_stratum_error, visit_set_difficulty, visit_set_extranonce,
  visit_notify, visit_set_version_mask,
}
use bic_os.Proxy.Downstream.{
  visit_setup_connection, visit_open_standard_mining_channel, visit_submit_shares_standard,
}

-- The messages that have a visitor.
pub data Event (V E : Type 0) : Type 0 where
  stratum_result : Option ℕ → V → Event V E
  stratum_error : Option ℕ → E → Event V E
  set_difficulty : ℕ → Event V E
  set_extranonce : List ℕ → ℕ → Event V E
  notify : Notify → Event V E
  set_version_mask : ℕ → Event V E
  setup_connection : SetupConnection → Event V E
  open_standard_mining_channel : OpenStandardMiningChannel → Event V E
  submit_shares_standard : SubmitSharesStandard → Event V E

module _ {V E : Type 0} (env : Env V E) where
  -- `accept`: the visitor of a message.
  unfoldable pub visit : Event V E → Action (Unit {0})
  unfolding visit_stratum_result visit_stratum_error visit_set_difficulty visit_set_extranonce
      visit_notify visit_set_version_mask visit_setup_connection visit_open_standard_mining_channel
      visit_submit_shares_standard
  visit (stratum_result id payload) = visit_stratum_result env id payload
  visit (stratum_error id payload) = visit_stratum_error env id payload
  visit (set_difficulty value) = visit_set_difficulty env value
  visit (set_extranonce nonce size) = visit_set_extranonce env nonce size
  visit (notify payload) = visit_notify env payload
  visit (set_version_mask mask) = visit_set_version_mask env mask
  visit (setup_connection payload) = visit_setup_connection env payload
  visit (open_standard_mining_channel payload) = visit_open_standard_mining_channel env payload
  visit (submit_shares_standard payload) = visit_submit_shares_standard env payload

  unfoldable pub visit_all : List (Event V E) → Action (Unit {0})
  unfolding visit
  visit_all [] = pure tt
  visit_all (e ∷ es) = visit e >> visit_all es
