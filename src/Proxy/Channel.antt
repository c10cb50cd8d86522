-- ===== src/Proxy/Channel.antt =====
-- Opening, closing and using the channel to the client, in open/stratum-proxy/src/translation.rs.
use bic_os.Base.{
  ℕ, ◌+◌, ◌-◌, ◌*◌, ◌%◌, ◌^◌, Bool, ◌||◌, Option, none, some, List, [], ◌∷◌, ◌++◌, ◌==◌, ltb,
  length, take, replicate, le_bytes, if◌then◌else◌,
}
use bic_os.Stratum.Messages.{
  Message, NewMiningJob, SetNewPrevHash, SubmitSharesStandard, OpenStandardMiningChannel,
}
use bic_os.Proxy.{
  Translation, Phase, Notify, SubmitTemplate, Action, Env, pure, fail, crash, gets, modify, ◌>>=◌,
  ◌>>◌, or_fail, or_crash, logged, channel_not_operational, missing_extra_nonce1, bad_hash,
  no_target, no_connection, no_channel, short_text, v2_id_exists, capacity_overflow, out_of_memory,
}
use bic_os.Proxy.Text.{first_32}
use bic_os.Proxy.Sending.{submit_v2, str0_32, next_id, lookup}

abbrev pub channel : ℕ
channel = 0

abbrev pub default_group_channel_id : ℕ
default_group_channel_id = 0

-- `DIFF1_TARGET`.
abbrev pub diff1_target : ℕ
diff1_target = 0xffff0000 * 2 ^ 192

-- The bytes of `extra_nonce2`: the number of the channel, cut off or filled up with zeros; that a
-- channel does not fit is only logged.
unfoldable pub extra_nonce2_bytes : ℕ → ℕ → List ℕ
extra_nonce2_bytes channel_id size =
    if ltb size 4
    then take size (le_bytes 4 channel_id)
    else le_bytes 4 channel_id ++ replicate (size - 4) 0

-- `map.is_empty()`.
abbrev pub is_empty : {A : Type 0} → List A → Bool
is_empty [] = Bool.true
is_empty (_ ∷ _) = Bool.false

-- `is_some()`.
abbrev pub is_some : {A : Type 0} → Option A → Bool
is_some none = Bool.false
is_some (some _) = Bool.true

-- The hash of the coinbase transaction, joined with the hashes of the branch in turn.
unfoldable pub merkle_fold : (List ℕ → List ℕ) → List ℕ → List (List ℕ) → List ℕ
merkle_fold sha root [] = root
merkle_fold sha root (tx ∷ branch) = merkle_fold sha (sha (root ++ tx)) branch

unfoldable pub coin_base : Notify → List ℕ → List ℕ → List ℕ
coin_base payload extra_nonce1 extra_nonce2 =
    payload.coin_base_1 ++ (extra_nonce1 ++ (extra_nonce2 ++ payload.coin_base_2))

-- What `coin_base` is allocated with, a sum of `usize`, which has 64 bits; a release build wraps.
unfoldable pub coin_base_capacity : Notify → List ℕ → ℕ → ℕ
coin_base_capacity payload extra_nonce1 size =
    (length payload.coin_base_1 + length extra_nonce1 + size + length payload.coin_base_2) % 2 ^ 64

module _ {V E : Type 0} (env : Env V E) where
  -- `BytesMut::with_capacity` and `vec![0; n]`: a capacity above `isize::MAX` panics.
  unfoldable pub with_capacity : ℕ → Action (Unit {0})
  with_capacity n =
      let allocated = if env.memory n then pure tt else crash out_of_memory in
      if ltb n (2 ^ 63) then allocated else crash capacity_overflow

  -- `channel_to_extra_nonce2_bytes`. The padding is a vector of its own.
  unfoldable pub channel_to_extra_nonce2_bytes : ℕ → ℕ → Action (List ℕ)
  unfolding with_capacity extra_nonce2_bytes
  channel_to_extra_nonce2_bytes channel_id size = do
    with_capacity size
    let padding = if ltb size 4 then pure tt else with_capacity (size - 4)
    padding
    pure (extra_nonce2_bytes channel_id size)

  -- `calculate_merkle_root`.
  unfoldable pub calculate_merkle_root : Notify → Action (List ℕ)
  unfolding coin_base merkle_fold coin_base_capacity with_capacity channel_to_extra_nonce2_bytes
  calculate_merkle_root payload = do
    extra_nonce1 ← gets (λ t. t.v1_extra_nonce1)
    nonce ← or_fail extra_nonce1 missing_extra_nonce1
    size ← gets (λ t. t.v1_extra_nonce2_size)
    with_capacity (coin_base_capacity payload nonce size)
    extra_nonce2 ← channel_to_extra_nonce2_bytes channel size
    let root = env.sha256d (coin_base payload nonce extra_nonce2)
    pure (merkle_fold env.sha256d root payload.merkle_branch)

  -- `build_set_new_prev_hash`.
  unfoldable pub build_set_new_prev_hash : ℕ → Notify → Action SetNewPrevHash
  build_set_new_prev_hash job_id payload =
      if length payload.prev_hash == 32
      then pure (record {
        channel_id = channel;
        job_id = job_id;
        prev_hash = payload.prev_hash;
        min_ntime = payload.time;
        nbits = payload.bits;
      })
      else fail bad_hash

  -- The first part of `perform_notify` after the merkle root: the number of the job is taken.
  unfoldable pub new_job : Notify → List ℕ → Action NewMiningJob
  new_job payload root = do
    t ← gets (λ t. t)
    modify (λ t. record t { v2_job_id = next_id t.v2_job_id })
    pure (record {
      channel_id = channel;
      job_id = t.v2_job_id;
      future_job = is_empty t.v2_to_v1_job_map || payload.clean_jobs || t.v1_force_future_jobs;
      version = payload.version;
      merkle_root = root;
    })

  -- A future job drops the older jobs and is announced with its previous hash.
  unfoldable pub maybe_set_new_prev_hash : NewMiningJob → Notify → Action (Option SetNewPrevHash)
  unfolding build_set_new_prev_hash
  maybe_set_new_prev_hash job payload =
      let future = do
        modify (λ t. record t { v2_to_v1_job_map = [] })
        prev_hash ← build_set_new_prev_hash job.job_id payload
        pure (some prev_hash)
      in if job.future_job then future else pure none

  abbrev pub template_of : Notify → SubmitTemplate
  template_of payload = record {
    job_id = payload.job_id;
    time = payload.time;
    version = payload.version;
  }

  -- The job goes into the map from V2 to V1.
  unfoldable pub register_job : NewMiningJob → Notify → Action (Unit {0})
  unfolding lookup
  register_job job payload = do
    jobs ← gets (λ t. t.v2_to_v1_job_map)
    let fresh = modify λ t. record t { v2_to_v1_job_map = (job.job_id, template_of payload) ∷ jobs }
    elim (lookup job.job_id jobs) [ none ↦ fresh | some old ↦ crash v2_id_exists ]

  abbrev pub submit_prev_hash : Option SetNewPrevHash → Action (Unit {0})
  submit_prev_hash none = pure tt
  submit_prev_hash (some h) = submit_v2 env (Message.set_new_prev_hash h)

  -- `perform_notify`.
  unfoldable pub perform_notify : Notify → Action (Unit {0})
  unfolding calculate_merkle_root new_job maybe_set_new_prev_hash register_job submit_v2
  perform_notify payload = do
    root ← calculate_merkle_root payload
    job ← new_job payload root
    prev_hash ← maybe_set_new_prev_hash job payload
    register_job job payload
    submit_v2 env (Message.new_mining_job job)
    submit_prev_hash prev_hash

  -- The deferred `mining.notify` of `finalize_open_channel`, which is taken out first.
  unfoldable pub deferred_notify : Action (Unit {0})
  unfolding perform_notify
  deferred_notify = do
    waiting ← gets (λ t. t.v1_deferred_notify)
    modify (λ t. record t { v1_deferred_notify = none })
    elim waiting [ none ↦ pure tt | some payload ↦ perform_notify payload ]

  -- `finalize_open_channel`.
  unfoldable pub finalize_open_channel : Action (Unit {0})
  unfolding submit_v2 deferred_notify
  finalize_open_channel = do
    v2_target ← gets (λ t. t.v2_target)
    target ← or_crash v2_target no_target
    v2_channel_details ← gets (λ t. t.v2_channel_details)
    details ← or_fail v2_channel_details channel_not_operational
    modify (λ t. record t { phase = Phase.operational })
    submit_v2 env (
        Message.open_standard_mining_channel_success (record {
          req_id = details.req_id;
          channel_id = channel;
          target = le_bytes 32 target;
          extranonce_prefix = [];
          group_channel_id = default_group_channel_id;
        }))
    deferred_notify

  -- `send_set_target`.
  unfoldable pub send_set_target : Action (Unit {0})
  unfolding submit_v2
  send_set_target = do
    v2_target ← gets (λ t. t.v2_target)
    target ← or_crash v2_target no_target
    submit_v2 env
        (Message.set_target (record { channel_id = channel; max_target = le_bytes 32 target }))

  abbrev pub close : Translation → Translation
  close t = record t {
    phase = Phase.v1_subscribe_or_authorize_fail;
    v1_authorized = Bool.false;
    v1_extra_nonce1 = none;
    v1_extra_nonce2_size = 0;
  }

  -- The details of the channel are dropped and the client is told.
  unfoldable pub drop_channel : List ℕ → Option OpenStandardMiningChannel → Action (Unit {0})
  unfolding submit_v2 str0_32
  drop_channel err_msg none = pure tt
  drop_channel err_msg (some details) = do
    code ← str0_32 err_msg
    modify (λ t. record t { v2_channel_details = none })
    logged (
        submit_v2 env (
          Message.open_standard_mining_channel_error
            (record { req_id = details.req_id; code = code })))

  -- `abort_open_channel`.
  unfoldable pub abort_open_channel : List ℕ → Action (Unit {0})
  unfolding drop_channel
  abort_open_channel err_msg = do
    modify close
    v2_channel_details ← gets (λ t. t.v2_channel_details)
    drop_channel err_msg v2_channel_details

  -- The slice of an error text; its 32 bytes fit the text type of the message.
  unfoldable pub slice : List ℕ → Action (List ℕ)
  unfolding first_32
  slice text = or_crash (first_32 text) short_text

  -- `reject_shares`.
  unfoldable pub reject_shares : SubmitSharesStandard → List ℕ → Action (Unit {0})
  unfolding submit_v2 slice
  reject_shares payload err_msg = do
    code ← slice err_msg
    logged (
        submit_v2 env (
          Message.submit_shares_error
            (record { channel_id = payload.channel_id; seq_num = payload.seq_num; code = code })))

  -- `log_session_details`: what it expects to be there.
  unfoldable pub log_session_details : Action (Unit {0})
  log_session_details = do
    details ← gets (λ t. t.v2_channel_details)
    or_crash details no_channel
    connection ← gets (λ t. t.v2_conn_details)
    or_crash connection no_connection
    pure tt
