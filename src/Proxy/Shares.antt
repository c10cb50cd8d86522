-- ===== src/Proxy/Shares.antt =====
-- A job on its way to the client and a share on its way back, in
-- open/stratum-proxy/src/translation.rs.
use Prim.Native.Nat.{bit_and}
use mathlib.Core.Path.{subst}
use mathlib.Core.Option.{some-injective}
use bic_os.Base.{
  ℕ, ◌≡◌, refl, sym, ap, ◌∙◌, true, Option, none, some, List, [], ◌∷◌, ◌++◌, ◌==◌, arith, ==_iff,
}
use bic_os.Stratum.Messages.{
  Message, NewMiningJob, SetNewPrevHash, SubmitSharesStandard, OpenStandardMiningChannel,
}
use bic_os.Proxy.{
  Translation, Notify, SubmitTemplate, Method, Request, Env, submitted, no_channel, or_crash, ok,
  Action, logged, ◌>>=◌, ◌>>◌,
}
use bic_os.Proxy.Sending.{lookup, submit_v1, submit_v2, v1_method_into_message}
use bic_os.Proxy.Channel.{
  channel, extra_nonce2_bytes, channel_to_extra_nonce2_bytes, calculate_merkle_root, new_job,
  maybe_set_new_prev_hash, register_job, submit_prev_hash, perform_notify, template_of,
}
use bic_os.Proxy.Upstream.{bip320_n_version_mask}
use bic_os.Proxy.Downstream.{submit_of, request, submit_share, visit_submit_shares_standard}
use bic_os.Proxy.Logic.{
  Ensures, always, bind, bind_logged, returned, panicking, or_crash-Ensures, if-Ensures,
  option-Ensures,
}
use bic_os.Proxy.Invariant.{Below, Sound, lookup-Below, submit_v2-Ensures}
use bic_os.Proxy.Invariant.Jobs.{
  Affordable, channel_to_extra_nonce2_bytes-Affordable, calculate_merkle_root-Ensures,
  build_set_new_prev_hash-Ensures,
}

abbrev Any : {A : Type 0} → A → Type 0
Any a = Unit

module _ {V E : Type 0} (env : Env V E) (payload : Notify) (id : ℕ) where
  -- The job is found under its number.
  abbrev Registered : Translation → Type 0
  Registered t =
      (lookup id t.v2_to_v1_job_map ≡ some (template_of env payload))
      × Affordable env t.v1_extra_nonce2_size

  -- A job that has its number, and an extranonce that was made before.
  abbrev Numbered : NewMiningJob → Translation → Type 0
  Numbered job t = (job.job_id ≡ id) × Affordable env t.v1_extra_nonce2_size

  maybe_set_new_prev_hash-Any :
      (job : NewMiningJob) (t : Translation)
      → Numbered job t
      → let r = maybe_set_new_prev_hash env job payload t in
        Ensures Any Any (λ _. Numbered job) r.0 r.1
  unfolding maybe_set_new_prev_hash
  maybe_set_new_prev_hash-Any job t same =
      if-Ensures job.future_job _ _ t
        (λ e.
          bind (λ _. Numbered job)
            (build_set_new_prev_hash-Ensures env Any (Numbered job) job.job_id payload _ tt same)
            (λ h s. returned s))
        (λ e. returned same)

  register_job-Registered :
      (job : NewMiningJob) (t : Translation)
      → Numbered job t
      → let r = register_job env job payload t in Ensures Any Any (λ _. Registered) r.0 r.1
  unfolding register_job lookup
  register_job-Registered job t (same, paid) =
      option-Ensures (lookup job.job_id t.v2_to_v1_job_map) _ _ t
        (λ e. returned (ground (arith, same, ==_iff job.job_id id), paid)) (λ old e. panicking tt)

  submit_prev_hash-Registered :
      (h : Option SetNewPrevHash) (t : Translation)
      → Registered t
      → let r = submit_prev_hash env h t in Ensures Any Any (λ _. Registered) r.0 r.1
  submit_prev_hash-Registered none t s = returned s
  submit_prev_hash-Registered (some h) t s =
      submit_v2-Ensures env Any Any Registered (Message.set_new_prev_hash h) t (λ tx. tt) (λ tx. s)

  announce-Registered :
      (job : NewMiningJob) (h : Option SetNewPrevHash) (t : Translation)
      → Registered t
      → let m = submit_v2 env (Message.new_mining_job job) >> submit_prev_hash env h in
        Ensures Any Any (λ _. Registered) (m t).0 (m t).1
  announce-Registered job h t s =
      let message = Message.new_mining_job job in
      bind (λ _. Registered)
        (submit_v2-Ensures env Any Any Registered message t (λ tx. tt) (λ tx. s))
        λ _ sent. submit_prev_hash-Registered h (submit_v2 env message t).1 sent

  new_job-Any :
      (root : List ℕ) (t : Translation)
      → (t.v2_job_id ≡ id) × Affordable env t.v1_extra_nonce2_size
      → let r = new_job env payload root t in Ensures Any Any Numbered r.0 r.1
  unfolding new_job
  new_job-Any root t same = returned same

  perform_notify-Registered :
      (t : Translation)
      → t.v2_job_id ≡ id
      → let r = perform_notify env payload t in Ensures Any Any (λ _. Registered) r.0 r.1
  unfolding perform_notify
  perform_notify-Registered t same =
      bind (λ _ u. (u.v2_job_id ≡ id) × Affordable env u.v1_extra_nonce2_size)
        (calculate_merkle_root-Ensures env Any
          (λ u. (u.v2_job_id ≡ id) × Affordable env u.v1_extra_nonce2_size) payload t tt tt tt
          (λ paid. (same, paid)))
        λ root h1.
          let t1 = (calculate_merkle_root env payload t).1 in
          bind Numbered (new_job-Any root t1 h1) λ job h2.
            let t2 = (new_job env payload root t1).1 in
            bind (λ _. Numbered job) (maybe_set_new_prev_hash-Any job t2 h2)
              λ h h3.
                let t3 = (maybe_set_new_prev_hash env job payload t2).1 in
                bind (λ _. Registered) (register_job-Registered job t3 h3)
                  λ _ h4. announce-Registered job h (register_job env job payload t3).1 h4

module _ {V E : Type 0} (env : Env V E) (share : SubmitSharesStandard) where
  -- What the pool is sent for a share of a job.
  abbrev pub request_for : OpenStandardMiningChannel → SubmitTemplate → Translation → Request
  request_for details template t = record {
    id = t.v1_req_id;
    method = Method.submit (record {
      user_name = details.user;
      job_id = template.job_id;
      extra_nonce_2 = extra_nonce2_bytes channel t.v1_extra_nonce2_size;
      time = share.ntime;
      nonce = share.nonce;
      version = bit_and share.version bip320_n_version_mask;
    });
  }

  module _ (t : Translation) (message : Request) where
    abbrev Sent : Translation → Type 0
    Sent u = u.v1_tx.sent ≡ t.v1_tx.sent ++ (message ∷ [])

    submit_v1-Sent :
        (m : Request) (u : Translation)
        → m ≡ message
        → u.v1_tx ≡ t.v1_tx
        → env.v1_room t.v1_tx.tries ≡ true
        → let r = submit_v1 env m u in Ensures Sent (λ _. ⊥) (λ _. Sent) r.0 r.1
    unfolding submit_v1
    submit_v1-Sent m u e same room =
        let free : env.v1_room u.v1_tx.tries ≡ true = ap (λ tx. env.v1_room tx.tries) same ∙ room in
        rw free (returned (cc (e, same)))

  request-Sent :
      (details : OpenStandardMiningChannel) (template : SubmitTemplate) (t : Translation)
      → Below t.v1_req_id t.v1_req_map
      → env.v1_room t.v1_tx.tries ≡ true
      → let message = request_for details template t in
        let r = request env message.method submitted t in
        Ensures (Sent t message) (λ _. ⊥) (λ _. Sent t message) r.0 r.1
  unfolding request v1_method_into_message
  request-Sent details template t fresh room =
      let message = request_for details template t in
      let free = lookup-Below t.v1_req_id t.v1_req_map fresh in
      bind (λ m u. (m ≡ message) × (u.v1_tx ≡ t.v1_tx))
        (rw (free, v1_method_into_message) (returned (refl, refl)))
        λ m (e, same).
          submit_v1-Sent t message m (v1_method_into_message message.method submitted t).1 e same
            room

  abbrev translated : OpenStandardMiningChannel → SubmitTemplate → ℕ → Action (Unit {0})
  translated details template size = channel_to_extra_nonce2_bytes env channel size >>= λ nonce.
      logged (request env (Method.submit (submit_of env details template nonce share)) submitted)

  translated-Sent :
      (details : OpenStandardMiningChannel) (template : SubmitTemplate) (t : Translation)
      → Below t.v1_req_id t.v1_req_map
      → Affordable env t.v1_extra_nonce2_size
      → env.v1_room t.v1_tx.tries ≡ true
      → let message = request_for details template t in
        let r = translated details template t.v1_extra_nonce2_size t in
        Ensures (Sent t message) (λ _. ⊥) (λ _. Sent t message) r.0 r.1
  translated-Sent details template t fresh paid room =
      let size = t.v1_extra_nonce2_size in
      let message = request_for details template t in
      bind (λ bytes u. (bytes ≡ extra_nonce2_bytes channel size) × (u ≡ t))
        (rw (channel_to_extra_nonce2_bytes-Affordable env channel size t paid)
          (returned (refl, refl)))
        λ bytes (same, still).
          subst
            (λ u.
              let m = submit_of env details template bytes share in
              let r = logged (request env (Method.submit m) submitted) u in
              Ensures (Sent t message) (λ _. ⊥) (λ _. Sent t message) r.0 r.1)
            (sym still) (rw same (bind_logged (request-Sent details template t fresh room)))

  submit_share-Sent :
      (details : OpenStandardMiningChannel) (template : SubmitTemplate) (t : Translation)
      → t.v2_channel_details ≡ some details
      → lookup share.job_id t.v2_to_v1_job_map ≡ some template
      → Below t.v1_req_id t.v1_req_map
      → Affordable env t.v1_extra_nonce2_size
      → env.v1_room t.v1_tx.tries ≡ true
      → let r = submit_share env share t in
        Ensures
          (Sent t (request_for details template t))
          (λ _. ⊥)
          (λ _. Sent t (request_for details template t))
          r.0
          r.1
  unfolding submit_share
  submit_share-Sent details template t opened known fresh paid room =
      bind (λ d u. (d ≡ details) × (u ≡ t))
        (or_crash-Ensures t.v2_channel_details no_channel t (λ e. cc (e, opened))
          (λ a e. (cc (e, opened), refl)))
        λ d (same, still).
          let t1 = (or_crash t.v2_channel_details no_channel t).1 in
          option-Ensures (lookup share.job_id t.v2_to_v1_job_map) _ _ t1
            (λ e. absurd (cc (e, known)))
            (λ job e.
              subst
                (λ u.
                  let r = translated d job t.v1_extra_nonce2_size u in
                  Ensures (Sent t (request_for details template t)) (λ _. ⊥)
                    (λ _. Sent t (request_for details template t)) r.0 r.1)
                (sym still)
                (rw (same, some-injective _ _ (sym e ∙ known))
                  (translated-Sent details template t fresh paid room)))

  -- A share for a job that the pool was told to the client with goes back to the pool under the name
  -- that the pool gave to the job: after a notification that was passed on, a share with the number of
  -- that job becomes one request, with that name, the time and the nonce of the share, and its version
  -- cut to the bits that may be rolled. The channel to the pool must have room, and the channel to the
  -- client must be open.
  pub perform_notify-visit_submit_shares_standard :
      (payload : Notify) (details : OpenStandardMiningChannel) (t u : Translation)
      → perform_notify env payload t ≡ (ok tt, u)
      → Sound 0 0 u
      → u.v2_channel_details ≡ some details
      → share.channel_id ≡ channel
      → share.job_id ≡ t.v2_job_id
      → env.v1_room u.v1_tx.tries ≡ true
      → let (reply, v) = visit_submit_shares_standard env share u in
        v.v1_tx.sent ≡ u.v1_tx.sent ++ (request_for details (template_of env payload) u ∷ [])
  unfolding visit_submit_shares_standard
  perform_notify-visit_submit_shares_standard payload details t u notified s opened here same room =
      let registered = perform_notify-Registered env payload t.v2_job_id t refl in
      let known = (rw notified at registered).holds in
      let fresh = s.1 in
      let template = template_of env payload in
      let sent =
        submit_share-Sent details template u opened
          (ap (λ id. lookup id u.v2_to_v1_job_map) same ∙ known.0) fresh known.1 room in
      let this : (share.channel_id == channel) ≡ true = (==_iff share.channel_id channel).1 here in
      rw this (always (Sent u (request_for details template u)) sent)
