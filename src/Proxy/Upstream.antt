-- ===== src/Proxy/Upstream.antt =====
-- What the proxy does with the messages of the pool, in open/stratum-proxy/src/translation.rs: the
-- handlers of the responses to its requests, and the visitors of the V1 protocol.
use bic_os.Base.{ℕ, ◌/◌, Bool, true, false, ◌&&◌, Option, some, List, ◌++◌, ◌==◌, if◌then◌else◌}
use bic_os.Stratum.Messages.{Message}
use bic_os.Proxy.{
  Phase, Notify, Handler, Action, Env, pure, fail, crash, gets, modify, ◌>>=◌, ◌>>◌, or_fail,
  or_crash, on_error, logged, parse, refused, no_channel, zero_difficulty, missing_id, invalid_id,
  configured, subscribed, extranonce_subscribed, authorized, submitted,
}
use bic_os.Proxy.Text.{ascii}
use bic_os.Proxy.Sending.{submit_v2, lookup, erase}
use bic_os.Proxy.Channel.{
  channel, diff1_target, is_some, perform_notify, finalize_open_channel, send_set_target,
  abort_open_channel, slice, log_session_details,
}

abbrev pub bip320_n_version_mask : ℕ
bip320_n_version_mask = 0x1fffe000

-- Equality of the phases that the code tests for.
abbrev pub is_operational : Phase → Bool
is_operational Phase.operational = true
is_operational _ = false

abbrev pub is_pending : Phase → Bool
is_pending Phase.open_standard_mining_channel_pending = true
is_pending _ = false

abbrev pub is_failed : Phase → Bool
is_failed Phase.v1_subscribe_or_authorize_fail = true
is_failed _ = false

-- `== Some(true)`.
abbrev pub is_true : Option Bool → Bool
is_true (some true) = true
is_true _ = false

module _ {V E : Type 0} (env : Env V E) where
  abbrev pub reject_configure : Action (Unit {0})
  reject_configure = submit_v2 env (
      Message.setup_connection_error
        (record { flags = 0; code = ascii "Cannot negotiate upstream V1 version mask" }))

  abbrev pub accept_configure : Action (Unit {0})
  accept_configure = do
    modify (λ t. record t { phase = Phase.connection_setup })
    submit_v2 env (Message.setup_connection_success (record { used_version = 0; flags = 0 }))

  -- `handle_configure_result`.
  unfoldable pub handle_configure_result : V → Action (Unit {0})
  unfolding submit_v2
  handle_configure_result payload = do
    mask ← or_fail (env.version_rolling_mask payload) parse
    let negotiated = is_true (env.version_rolling payload) && mask == bip320_n_version_mask
    if negotiated then accept_configure else reject_configure

  -- `handle_configure_error`.
  unfoldable pub handle_configure_error : E → Action (Unit {0})
  unfolding submit_v2
  handle_configure_error payload = reject_configure

  -- `handle_extranonce_subscribe_result`.
  unfoldable pub handle_extranonce_subscribe_result : V → Action (Unit {0})
  handle_extranonce_subscribe_result payload = do
    enabled ← or_fail (env.as_boolean payload) parse
    modify (λ t. record t { v1_xnsub_enabled = enabled })

  -- `handle_extranonce_subscribe_error`.
  unfoldable pub handle_extranonce_subscribe_error : E → Action (Unit {0})
  handle_extranonce_subscribe_error payload = modify (λ t. record t { v1_xnsub_enabled = false })

  abbrev pub set_extranonce : List ℕ → ℕ → Action (Unit {0})
  set_extranonce nonce size =
      modify λ t. record t { v1_extra_nonce1 = some nonce; v1_extra_nonce2_size = size }

  -- The channel is opened once there are an authorization, a subscription and a difficulty.
  unfoldable pub handle_subscribe_result : V → Action (Unit {0})
  unfolding finalize_open_channel abort_open_channel
  handle_subscribe_result payload = do
    let failed = abort_open_channel env (ascii "Upstream subscribe failed")
    (nonce, size) ← on_error (or_fail (env.as_subscribe payload) parse) failed
    set_extranonce nonce size
    t ← gets (λ t. t)
    let opened = on_error (finalize_open_channel env) failed
    if t.v1_authorized && is_some t.v2_target then opened else pure tt

  -- The part of `handle_authorize_result` before the error is handled.
  unfoldable pub authorize : V → Action (Unit {0})
  unfolding finalize_open_channel
  authorize payload = do
    granted ← or_fail (env.as_boolean payload) parse
    modify (λ t. record t { v1_authorized = granted })
    t ← gets (λ t. t)
    let ready = is_some t.v1_extra_nonce1 && is_some t.v2_target
    let opened = if ready then finalize_open_channel env else pure tt
    if granted then opened else fail refused

  -- `handle_authorize_result`.
  unfoldable pub handle_authorize_result : V → Action (Unit {0})
  unfolding authorize abort_open_channel
  handle_authorize_result payload =
      on_error (authorize payload) (abort_open_channel env (ascii "Not authorized"))

  -- `handle_authorize_or_subscribe_error`: only the first failure closes the channel.
  unfoldable pub handle_authorize_or_subscribe_error : E → Action (Unit {0})
  unfolding abort_open_channel
  handle_authorize_or_subscribe_error payload = do
    phase ← gets (λ t. t.phase)
    let first_failure = abort_open_channel env (ascii "Service not ready") >> fail refused
    if is_failed phase then pure tt else first_failure

  abbrev pub accept_share : Action (Unit {0})
  accept_share = do
    log_session_details env
    submit_v2 env (
        Message.submit_shares_success (record {
          channel_id = channel;
          last_seq_num = 0;
          new_submits_accepted_count = 1;
          new_shares_sum = 1;
        }))

  abbrev pub reject_share : List ℕ → Action (Unit {0})
  reject_share debug = do
    code ← slice env (ascii "ShareRjct:" ++ debug)
    submit_v2 env
        (Message.submit_shares_error (record { channel_id = channel; seq_num = 0; code = code }))

  -- `handle_submit_result`.
  unfoldable pub handle_submit_result : V → Action (Unit {0})
  unfolding log_session_details submit_v2 slice
  handle_submit_result payload = do
    accepted ← or_fail (env.as_boolean payload) parse
    details ← gets (λ t. t.v2_channel_details)
    or_crash details no_channel
    if accepted then accept_share else reject_share (env.debug_result payload)

  -- `handle_submit_error`.
  unfoldable pub handle_submit_error : E → Action (Unit {0})
  unfolding submit_v2 slice
  handle_submit_error payload = reject_share (env.debug_error payload)

  -- The handlers that a request was registered with: the first of the pair, and the second.
  unfoldable pub handle_result : Handler → V → Action (Unit {0})
  unfolding handle_configure_result handle_subscribe_result handle_extranonce_subscribe_result
      handle_authorize_result handle_submit_result
  handle_result configured = handle_configure_result
  handle_result subscribed = handle_subscribe_result
  handle_result extranonce_subscribed = handle_extranonce_subscribe_result
  handle_result authorized = handle_authorize_result
  handle_result submitted = handle_submit_result

  unfoldable pub handle_error : Handler → E → Action (Unit {0})
  unfolding handle_configure_error handle_authorize_or_subscribe_error
      handle_extranonce_subscribe_error handle_submit_error
  handle_error configured = handle_configure_error
  handle_error subscribed = handle_authorize_or_subscribe_error
  handle_error extranonce_subscribed = handle_extranonce_subscribe_error
  handle_error authorized = handle_authorize_or_subscribe_error
  handle_error submitted = handle_submit_error

  -- The handlers of an id, which are removed from the map.
  unfoldable pub take_handler : Option ℕ → Action Handler
  unfolding lookup erase
  take_handler id = do
    n ← or_fail id missing_id
    pending ← gets (λ t. t.v1_req_map)
    modify (λ t. record t { v1_req_map = erase n pending })
    or_fail (lookup n pending) invalid_id

  -- `visit_stratum_result` and `visit_stratum_error`.
  unfoldable pub visit_stratum_result : Option ℕ → V → Action (Unit {0})
  unfolding take_handler handle_result
  visit_stratum_result id payload = logged (take_handler id >>= λ h. handle_result h payload)

  unfoldable pub visit_stratum_error : Option ℕ → E → Action (Unit {0})
  unfolding take_handler handle_error
  visit_stratum_error id payload = logged (take_handler id >>= λ h. handle_error h payload)

  -- The target of a difficulty: a division by zero panics.
  abbrev pub target_of : ℕ → Action ℕ
  target_of difficulty =
      if difficulty == 0 then crash zero_difficulty else pure (diff1_target / difficulty)

  -- `visit_set_difficulty`, of the bits of a float.
  unfoldable pub visit_set_difficulty : ℕ → Action (Unit {0})
  unfolding finalize_open_channel send_set_target
  visit_set_difficulty value = do
    target ← target_of (env.as_u32 value)
    modify (λ t. record t { v2_target = some target })
    t ← gets (λ t. t)
    let announce = if is_pending t.phase then finalize_open_channel env else send_set_target env
    if t.v1_authorized && is_some t.v1_extra_nonce1 then logged announce else pure tt

  -- `visit_set_extranonce`.
  unfoldable pub visit_set_extranonce : List ℕ → ℕ → Action (Unit {0})
  visit_set_extranonce nonce size = set_extranonce nonce size

  -- `visit_notify`.
  unfoldable pub visit_notify : Notify → Action (Unit {0})
  unfolding perform_notify
  visit_notify payload = do
    phase ← gets (λ t. t.phase)
    let deferred = modify λ t. record t { v1_deferred_notify = some payload }
    if is_operational phase then logged (perform_notify env payload) else deferred

  -- `visit_set_version_mask` does nothing.
  unfoldable pub visit_set_version_mask : ℕ → Action (Unit {0})
  visit_set_version_mask mask = pure tt
