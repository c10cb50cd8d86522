-- ===== src/Proxy/Downstream.antt =====
-- What the proxy does with the messages of the client: the visitors of the V2 protocol in
-- open/stratum-proxy/src/translation.rs.
use Prim.Native.Nat.{bit_and}
use bic_os.Base.{ℕ, Bool, true, false, ◌||◌, none, some, List, ◌++◌, ◌==◌, if◌then◌else◌}
use bic_os.Stratum.Messages.{
  Message, SetupConnection, OpenStandardMiningChannel, SubmitSharesStandard,
}
use bic_os.Proxy.{
  Phase, SubmitTemplate, Submit, Method, Handler, Action, Env, pure, gets, modify, ◌>>=◌, ◌>>◌,
  or_crash, or_return, logged, no_channel, configured, subscribed, extranonce_subscribed,
  authorized, submitted,
}
use bic_os.Proxy.Text.{ascii, decimal}
use bic_os.Proxy.Sending.{submit_v1, submit_v2, str0_32, lookup, v1_method_into_message}
use bic_os.Proxy.Channel.{channel, channel_to_extra_nonce2_bytes, reject_shares}
use bic_os.Proxy.Upstream.{bip320_n_version_mask, is_failed}

abbrev pub bip320_n_version_max_bits : ℕ
bip320_n_version_max_bits = 16

abbrev pub is_init : Phase → Bool
is_init Phase.init = true
is_init _ = false

abbrev pub is_connection_setup : Phase → Bool
is_connection_setup Phase.connection_setup = true
is_connection_setup _ = false

-- The texts of the two errors that a share is rejected with.
unfoldable pub missing_job : ℕ → List ℕ
missing_job id =
    ascii "General error: V2 Job ID not present " ++ (decimal id ++ ascii " in registry")

unfoldable pub unrecognized_channel : ℕ → List ℕ
unrecognized_channel id = ascii "Unrecognized channel ID " ++ decimal id

module _ {V E : Type 0} (env : Env V E) where
  -- A request is numbered and sent.
  unfoldable pub request : Method → Handler → Action (Unit {0})
  unfolding v1_method_into_message submit_v1
  request method handler = do message ← v1_method_into_message method handler; submit_v1 env message

  abbrev pub refuse_setup : SetupConnection → Action (Unit {0})
  refuse_setup payload = submit_v2 env (
      Message.setup_connection_error
        (record { flags = payload.flags; code = ascii "Connection can be setup only once" }))

  -- `visit_setup_connection`: a repeated setup is answered with an error, and then carried out.
  unfoldable pub visit_setup_connection : SetupConnection → Action (Unit {0})
  unfolding request submit_v2
  visit_setup_connection payload = do
    phase ← gets (λ t. t.phase)
    let repeated = if is_init phase then pure tt else refuse_setup payload
    let configure = Method.configure bip320_n_version_mask bip320_n_version_max_bits
    let asked = do
      modify (λ t. record t { v2_conn_details = some payload })
      or_return (request configure configured) (modify λ t. record t { phase = Phase.v1_configure })
    or_return repeated asked

  -- `format!("{}:{}", ..)`.
  abbrev pub hostname_port : SetupConnection → List ℕ
  hostname_port c = c.endpoint_host ++ (ascii ":" ++ decimal c.endpoint_port)

  -- The text is too long for the code of the message.
  abbrev pub refuse_channel : OpenStandardMiningChannel → Action (Unit {0})
  refuse_channel payload = do
    code ← str0_32 (ascii "Out of sequence OpenStandardMiningChannel msg")
    submit_v2 env (
        Message.open_standard_mining_channel_error
          (record { req_id = payload.req_id; code = code }))

  abbrev pub ask_xnsub : Bool → Action (Unit {0})
  ask_xnsub true = request Method.extranonce_subscribe extranonce_subscribed
  ask_xnsub false = pure tt

  -- The requests that open a channel, in their order; a full channel ends them.
  unfoldable pub ask_channel : OpenStandardMiningChannel → SetupConnection → Action (Unit {0})
  unfolding request
  ask_channel payload connection = do
    modify λ t. record t {
      v2_channel_details = some payload;
      phase = Phase.open_standard_mining_channel_pending;
    }
    let subscribe = Method.subscribe connection.device.fw_ver (hostname_port connection)
    let authorize = Method.authorize payload.user (ascii "")
    xnsub ← gets (λ t. t.try_enable_xnsub)
    let last = logged (request authorize authorized)
    or_return (request subscribe subscribed) (or_return (ask_xnsub xnsub) last)

  -- `visit_open_standard_mining_channel`.
  unfoldable pub visit_open_standard_mining_channel : OpenStandardMiningChannel → Action (Unit {0})
  unfolding ask_channel submit_v2 str0_32
  visit_open_standard_mining_channel payload = do
    t ← gets (λ t. t)
    let in_sequence = is_connection_setup t.phase || is_failed t.phase
    let out_of_sequence = if in_sequence then pure tt else refuse_channel payload
    let opened : Action (Unit {0}) = elim t.v2_conn_details [
      | none ↦ pure tt
      | some c ↦ ask_channel payload c
    ]
    or_return out_of_sequence opened

  abbrev pub submit_of :
      OpenStandardMiningChannel → SubmitTemplate → List ℕ → SubmitSharesStandard → Submit
  submit_of details template extra_nonce_2 payload = record {
    user_name = details.user;
    job_id = template.job_id;
    extra_nonce_2 = extra_nonce_2;
    time = payload.ntime;
    nonce = payload.nonce;
    version = bit_and payload.version bip320_n_version_mask;
  }

  -- A share for the channel: it goes to the pool under the name that the pool gave to its job.
  unfoldable pub submit_share : SubmitSharesStandard → Action (Unit {0})
  unfolding channel_to_extra_nonce2_bytes reject_shares request lookup missing_job
  submit_share payload = do
    t ← gets (λ t. t)
    details ← or_crash t.v2_channel_details no_channel
    let size = t.v1_extra_nonce2_size
    let translated = λ (template : SubmitTemplate).
        channel_to_extra_nonce2_bytes env channel size >>= λ nonce.
        logged (request (Method.submit (submit_of details template nonce payload)) submitted)
    let job = lookup payload.job_id t.v2_to_v1_job_map
    elim job [
      | none ↦ reject_shares env payload (missing_job payload.job_id)
      | some template ↦ translated template
    ]

  -- `visit_submit_shares_standard`.
  unfoldable pub visit_submit_shares_standard : SubmitSharesStandard → Action (Unit {0})
  unfolding reject_shares submit_share unrecognized_channel
  visit_submit_shares_standard payload =
      if payload.channel_id == channel
      then submit_share payload
      else reject_shares env payload (unrecognized_channel payload.channel_id)
