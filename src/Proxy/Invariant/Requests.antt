-- ===== src/Proxy/Invariant/Requests.antt =====
-- The messages of the client keep the invariant of a translation, in
-- open/stratum-proxy/src/translation.rs: the id of each request is free.
use bic_os.Base.{
  ℕ, ◌+◌, ◌≤◌, ◌≡◌, refl, ap, ◌∙◌, Bool, true, false, ◌||◌, Option, none, some, List, ◌==◌, arith,
  if◌then◌else◌,
}
use bic_os.Stratum.Messages.{SetupConnection, OpenStandardMiningChannel, SubmitSharesStandard}
use bic_os.Proxy.{
  Translation, Method, Handler, Env, Phase, Panic, no_channel, pure, or_crash, or_return, modify,
  configured, subscribed,
}
use bic_os.Proxy.Text.{first_32}
use bic_os.Proxy.Sending.{lookup, str0_32, v1_method_into_message}
use bic_os.Proxy.Channel.{channel, channel_to_extra_nonce2_bytes, is_some, reject_shares, slice}
use bic_os.Proxy.Upstream.{bip320_n_version_mask, is_failed}
use bic_os.Proxy.Downstream.{
  request, missing_job, unrecognized_channel, hostname_port, bip320_n_version_max_bits,
  visit_setup_connection, ask_channel, ask_xnsub, visit_open_standard_mining_channel, submit_share,
  visit_submit_shares_standard, refuse_setup, refuse_channel, is_init, is_connection_setup,
}
use bic_os.Proxy.Logic.{
  Ensures, bind, bind_logged, bind_return, returned, panicking, or_crash-Ensures, if-Ensures,
  option-Ensures,
}
use bic_os.Proxy.Invariant.{
  Sound, IsKnown, Keeps, send, Connected, Sound-mono, lookup-Below, Below-mono, erase-Below,
  next_id_lem, submit_v1-Ensures, submit_v2-Ensures,
}
use bic_os.Proxy.Invariant.Jobs.{channel_to_extra_nonce2_bytes-Ensures}

Connected-new : (d : Option OpenStandardMiningChannel) (c : SetupConnection) → Connected d (some c)
Connected-new none c = tt
Connected-new (some d) c = refl

module _ {V E : Type 0} (env : Env V E) (j n : ℕ) where
  -- A request takes an id, which is free.
  v1_method_into_message-Ensures :
      (k : ℕ) (method : Method) (handler : Handler) (t : Translation)
      → Sound j (1 + k) t
      → let r = v1_method_into_message method handler t in
        Ensures (Sound j n) IsKnown (λ _. Sound j k) r.0 r.1
  unfolding v1_method_into_message
  v1_method_into_message-Ensures k method handler t (jobs, requests, js, rs, linked, stage) =
      let free = lookup-Below t.v1_req_id t.v1_req_map requests in
      let next = next_id_lem t.v1_req_id k rs in
      rw (free, v1_method_into_message)
        (returned (
          rw next (
            jobs,
            (
              omega arith,
              Below-mono _ _ _ (omega arith) (erase-Below _ t.v1_req_id t.v1_req_map requests),
            ),
            js,
            omega arith,
            linked,
            stage,
          )))

  request-Ensures :
      (k : ℕ) (method : Method) (handler : Handler) (t : Translation)
      → n ≤ k
      → Sound j (1 + k) t
      → let r = request env method handler t in Ensures (Sound j n) IsKnown (λ _. Sound j k) r.0 r.1
  unfolding request
  request-Ensures k method handler t le s =
      bind (λ _. Sound j k) (v1_method_into_message-Ensures k method handler t s)
        λ message s1.
          let t1 = (v1_method_into_message method handler t).1 in
          let fewer = Sound-mono j n j k t1 (omega arith) le s1 in
          submit_v1-Ensures env (Sound j n) IsKnown (Sound j k) message t1 (λ tx. fewer) (λ tx. s1)

  ask_configure-Ensures :
      (payload : SetupConnection) (t : Translation)
      → Sound j (1 + n) t
      → let first =
          request env
            (Method.configure bip320_n_version_mask bip320_n_version_max_bits)
            configured in
        let rest = modify λ t. record t { phase = Phase.v1_configure } in
        Keeps j n (or_return first rest (record t { v2_conn_details = some payload }))
  ask_configure-Ensures payload t (jobs, requests, js, rs, linked, stage) =
      let t1 = record t { v2_conn_details = some payload } in
      let connected = Connected-new t.v2_channel_details payload in
      bind_return
        (request-Ensures n _ _ t1 (omega arith) (jobs, requests, js, rs, connected, stage))
        λ (jobs1, requests1, js1, rs1, linked1, stage1).
          returned (jobs1, requests1, js1, rs1, linked1, tt)

  pub visit_setup_connection-Ensures :
      (payload : SetupConnection) (t : Translation)
      → Sound j (1 + n) t
      → Keeps j n (visit_setup_connection env payload t)
  unfolding visit_setup_connection
  visit_setup_connection-Ensures payload t s =
      let fewer = Sound-mono j n j (1 + n) t (omega arith) (omega arith) s in
      let repeated = if is_init t.phase then pure tt else refuse_setup env payload in
      bind_return
        (if-Ensures (is_init t.phase) (pure tt) (refuse_setup env payload) t (λ e. returned s)
          (λ e.
            submit_v2-Ensures env (Sound j n) IsKnown (Sound j (1 + n)) _ t (λ tx. fewer)
              (λ tx. s)))
        λ s1. ask_configure-Ensures payload (repeated t).1 s1

  ask_xnsub-Ensures :
      (x : Bool) (t : Translation)
      → Sound j (1 + (1 + n)) t
      → let r = ask_xnsub env x t in Ensures (Sound j n) IsKnown (λ _. Sound j (1 + n)) r.0 r.1
  ask_xnsub-Ensures true t s = request-Ensures (1 + n) _ _ t (omega arith) s
  ask_xnsub-Ensures false t s =
      returned (Sound-mono j (1 + n) j (1 + (1 + n)) t (omega arith) (omega arith) s)

  ask_channel-Ensures :
      (payload : OpenStandardMiningChannel) (connection : SetupConnection) (t : Translation)
      → t.v2_conn_details ≡ some connection
      → Sound j (1 + (1 + (1 + n))) t
      → Keeps j n (ask_channel env payload connection t)
  unfolding ask_channel
  ask_channel-Ensures payload connection t connected (jobs, requests, js, rs, linked, stage) =
      let t1 = record t {
        v2_channel_details = some payload;
        phase = Phase.open_standard_mining_channel_pending;
      } in
      let subscribe = Method.subscribe connection.device.fw_ver (hostname_port env connection) in
      let s1 : Sound j (1 + (1 + (1 + n))) t1 =
        (jobs, requests, js, rs, ap is_some connected, tt) in
      let t2 = (request env subscribe subscribed t1).1 in
      let t3 = (ask_xnsub env t1.try_enable_xnsub t2).1 in
      bind_return (request-Ensures (1 + (1 + n)) subscribe subscribed t1 (omega arith) s1) λ s2.
        bind_return (ask_xnsub-Ensures t1.try_enable_xnsub t2 s2)
          λ s3. bind_logged (request-Ensures n _ _ t3 (omega arith) s3)

  pub visit_open_standard_mining_channel-Ensures :
      (payload : OpenStandardMiningChannel) (t : Translation)
      → Sound j (1 + (1 + (1 + n))) t
      → Keeps j n (visit_open_standard_mining_channel env payload t)
  unfolding visit_open_standard_mining_channel str0_32
  visit_open_standard_mining_channel-Ensures payload t s =
      let in_sequence = is_connection_setup t.phase || is_failed t.phase in
      let refused = if in_sequence then pure tt else refuse_channel env payload in
      let t1 = (refused t).1 in
      bind_return
        {after = λ u. Sound j (1 + (1 + (1 + n))) u × (u.v2_conn_details ≡ t.v2_conn_details)}
        (if-Ensures in_sequence (pure tt) (refuse_channel env payload) t (λ e. returned (s, refl))
          (λ e. panicking tt))
        λ (s1, same).
          option-Ensures t.v2_conn_details (pure tt) (ask_channel env payload) t1
            (λ e. returned (Sound-mono j n j (1 + (1 + (1 + n))) t1 (omega arith) (omega arith) s1))
            (λ c e. ask_channel-Ensures payload c t1 (same ∙ e) s1)

  -- An error text may be too short to be cut off.
  reject_shares-Ensures :
      (payload : SubmitSharesStandard) (text : List ℕ) (t : Translation)
      → Sound j n t
      → Keeps j n (reject_shares env payload text t)
  unfolding reject_shares slice
  reject_shares-Ensures payload text t s =
      bind (λ _. Sound j n) (or_crash-Ensures (first_32 text) _ t (λ e. tt) (λ a e. s))
        λ code s1. bind_logged (send env j n _ (or_crash (first_32 text) Panic.short_text t).1 s1)

  submit_share-Ensures :
      (payload : SubmitSharesStandard) (t : Translation)
      → Sound j (1 + n) t
      → Keeps j n (submit_share env payload t)
  unfolding submit_share
  submit_share-Ensures payload t s =
      bind (λ _. Sound j (1 + n))
        (or_crash-Ensures t.v2_channel_details no_channel t (λ e. tt) (λ a e. s))
        λ details s1.
          let t1 = (or_crash t.v2_channel_details no_channel t).1 in
          let fewer = Sound-mono j n j (1 + n) t1 (omega arith) (omega arith) s1 in
          option-Ensures (lookup payload.job_id t.v2_to_v1_job_map) _ _ t1
            (λ e. reject_shares-Ensures payload (missing_job payload.job_id) t1 fewer)
            (λ template e.
              let size = t.v1_extra_nonce2_size in
              bind (λ _. Sound j (1 + n))
                (channel_to_extra_nonce2_bytes-Ensures env (Sound j n) tt tt (Sound j (1 + n))
                  channel size t1 (λ _. s1))
                λ nonce s2.
                  let t2 = (channel_to_extra_nonce2_bytes env channel size t1).1 in
                  bind_logged (request-Ensures n _ _ t2 (omega arith) s2))

  pub visit_submit_shares_standard-Ensures :
      (payload : SubmitSharesStandard) (t : Translation)
      → Sound j (1 + n) t
      → Keeps j n (visit_submit_shares_standard env payload t)
  unfolding visit_submit_shares_standard
  visit_submit_shares_standard-Ensures payload t s =
      if-Ensures (payload.channel_id == channel) _ _ t (λ e. submit_share-Ensures payload t s)
        (λ e.
          reject_shares-Ensures payload (unrecognized_channel payload.channel_id) t
            (Sound-mono j n j (1 + n) t (omega arith) (omega arith) s))
