-- ===== src/Proxy/Invariant/Jobs.antt =====
-- A new job keeps the invariant of a translation, in open/stratum-proxy/src/translation.rs: its number is
-- free.
use mathlib.Core.Path.{subst}
use bic_os.Base.{
  ℕ, ◌+◌, ◌-◌, ◌^◌, ◌<◌, ◌≡◌, refl, sym, true, false, inl, inr, Option, none, some, List, [], ◌==◌,
  arith, length, ltb, Bool-cases,
}
use bic_os.Stratum.Messages.{Message, NewMiningJob, SetNewPrevHash}
use bic_os.Proxy.{
  Translation, Notify, Env, Panic, ok, or_fail, ◌>>◌, capacity_overflow, out_of_memory,
  missing_extra_nonce1,
}
use bic_os.Proxy.Sending.{lookup, submit_v2}
use bic_os.Proxy.Channel.{
  channel, coin_base_capacity, with_capacity, channel_to_extra_nonce2_bytes, extra_nonce2_bytes,
  calculate_merkle_root, build_set_new_prev_hash, new_job, maybe_set_new_prev_hash, register_job,
  submit_prev_hash, perform_notify,
}
use bic_os.Proxy.Logic.{
  Ensures, bind, returned, failing, panicking, or_fail-Ensures, if-Ensures, option-Ensures,
}
use bic_os.Proxy.Invariant.{
  Below, Sound, IsKnown, Sound-mono, lookup-Below, Below-mono, next_id_lem, submit_v2-Ensures,
}

module _ {V E : Type 0} (env : Env V E) where
  -- A buffer that can be had.
  abbrev pub Fits : ℕ → Type 0
  Fits n = (ltb n (2 ^ 63) ≡ true) × (env.memory n ≡ true)

  -- Buffers for an extranonce of this size can be had.
  abbrev pub Affordable : ℕ → Type 0
  Affordable size = Fits size × (ltb size 4 ≡ false → Fits (size - 4))

  pub channel_to_extra_nonce2_bytes-Affordable :
      (id size : ℕ) (t : Translation)
      → Affordable size
      → channel_to_extra_nonce2_bytes env id size t ≡ (ok (extra_nonce2_bytes id size), t)
  unfolding channel_to_extra_nonce2_bytes with_capacity
  channel_to_extra_nonce2_bytes-Affordable id size t ((below, enough), rest) = rw below (
      rw enough (elim (Bool-cases (ltb size 4)) [
        | inl small ↦ rw small refl
        | inr large ↦ rw large (rw (rest large).0 (rw (rest large).1 refl))
      ]))

  module _ {known : Panic → Type 0} (failed : Translation → Type 0)
      (too_large : known capacity_overflow) (no_memory : known out_of_memory) where
    with_capacity-Ensures :
        (after : Translation → Type 0) (n : ℕ) (t : Translation)
        → (Fits n → after t)
        → let r = with_capacity env n t in Ensures failed known (λ _. after) r.0 r.1
    unfolding with_capacity
    with_capacity-Ensures after n t ha =
        if-Ensures (ltb n (2 ^ 63)) _ _ t
          (λ below.
            if-Ensures (env.memory n) _ _ t (λ enough. returned (ha (below, enough)))
              (λ e. panicking no_memory))
          (λ e. panicking too_large)

    -- The extranonce leaves the state as it is.
    pub channel_to_extra_nonce2_bytes-Ensures :
        (after : Translation → Type 0) (id size : ℕ) (t : Translation)
        → (Affordable size → after t)
        → let r = channel_to_extra_nonce2_bytes env id size t in
          Ensures failed known (λ _. after) r.0 r.1
    unfolding channel_to_extra_nonce2_bytes
    channel_to_extra_nonce2_bytes-Ensures after id size t ha =
        bind (λ _ u. Fits size × (u ≡ t))
          (with_capacity-Ensures (λ u. Fits size × (u ≡ t)) size t (λ all. (all, refl)))
          λ _ (all, same).
            let u = (with_capacity env size t).1 in
            let back = λ (rest : ltb size 4 ≡ false → Fits (size - 4)).
              subst after (sym same) (ha (all, rest)) in
            bind (λ _. after)
              (if-Ensures (ltb size 4) _ _ u
                (λ small. returned (back (λ large. absurd (cc (small, large)))))
                (λ large. with_capacity-Ensures after (size - 4) u λ rest. back (λ _. rest)))
              (λ _ h. returned h)

  -- The merkle root leaves the state as it is.
  pub calculate_merkle_root-Ensures :
      {known : Panic → Type 0} (failed after : Translation → Type 0) (payload : Notify)
      (t : Translation)
      → known capacity_overflow
      → known out_of_memory
      → failed t
      → (Affordable t.v1_extra_nonce2_size → after t)
      → let r = calculate_merkle_root env payload t in Ensures failed known (λ _. after) r.0 r.1
  unfolding calculate_merkle_root
  calculate_merkle_root-Ensures failed after payload t too_large no_memory hf ha =
      bind (λ _ u. u ≡ t) (or_fail-Ensures t.v1_extra_nonce1 _ t hf (λ a e. refl))
        λ nonce same.
          let t1 = (or_fail t.v1_extra_nonce1 missing_extra_nonce1 t).1 in
          let capacity = coin_base_capacity payload nonce t1.v1_extra_nonce2_size in
          bind (λ _ u. u ≡ t)
            (with_capacity-Ensures failed too_large no_memory (λ u. u ≡ t) capacity t1 (λ _. same))
            λ _ same1.
              let t2 = (with_capacity env capacity t1).1 in
              let size = t1.v1_extra_nonce2_size in
              bind (λ _. after)
                (channel_to_extra_nonce2_bytes-Ensures failed too_large no_memory after channel size
                  t2
                  λ paid.
                    subst after (sym same1)
                      (ha (subst (λ u. Affordable u.v1_extra_nonce2_size) same paid)))
                (λ _ h. returned h)

  pub build_set_new_prev_hash-Ensures :
      {known : Panic → Type 0} (failed after : Translation → Type 0) (job_id : ℕ) (payload : Notify)
      (t : Translation)
      → failed t
      → after t
      → let r = build_set_new_prev_hash env job_id payload t in
        Ensures failed known (λ _. after) r.0 r.1
  unfolding build_set_new_prev_hash
  build_set_new_prev_hash-Ensures failed after job_id payload t hf ha =
      if-Ensures (length payload.prev_hash == 32) _ _ t (λ e. returned ha) (λ e. failing hf)

  module _ (j n : ℕ) where
    -- A job that has its number and is not in the map.
    abbrev Taken : NewMiningJob → Translation → Type 0
    Taken job t = Below job.job_id t.v2_to_v1_job_map × (job.job_id < t.v2_job_id) × Sound j n t

    new_job-Ensures :
        (payload : Notify) (root : List ℕ) (t : Translation)
        → Sound (1 + j) n t
        → let r = new_job env payload root t in Ensures (Sound j n) IsKnown Taken r.0 r.1
    unfolding new_job
    new_job-Ensures payload root t (jobs, requests, js, rs, linked, stage) = returned (
        rw (next_id_lem t.v2_job_id j js) (
          jobs,
          omega arith,
          (Below-mono _ _ _ (omega arith) jobs, requests, omega arith, rs, linked, stage),
        ))

    maybe_set_new_prev_hash-Ensures :
        (job : NewMiningJob) (payload : Notify) (t : Translation)
        → Taken job t
        → let r = maybe_set_new_prev_hash env job payload t in
          Ensures (Sound j n) IsKnown (λ _. Taken job) r.0 r.1
    unfolding maybe_set_new_prev_hash
    maybe_set_new_prev_hash-Ensures job payload t (fresh, taken, s) =
        let (jobs, requests, js, rs, linked, stage) = s in
        let cleared : Sound j n (record t { v2_to_v1_job_map = [] }) =
          (tt, requests, js, rs, linked, stage) in
        if-Ensures job.future_job _ _ t
          (λ e.
            bind (λ _. Taken job)
              (build_set_new_prev_hash-Ensures (Sound j n) (Taken job) job.job_id payload _ cleared
                (tt, taken, cleared))
              (λ h s. returned s))
          (λ e. returned (fresh, taken, s))

    register_job-Ensures :
        (job : NewMiningJob) (payload : Notify) (t : Translation)
        → Taken job t
        → let r = register_job env job payload t in
          Ensures (Sound j n) IsKnown (λ _. Sound j n) r.0 r.1
    unfolding register_job
    register_job-Ensures job payload t (fresh, taken, s) =
        let (jobs, requests, js, rs, linked, stage) = s in
        let none_yet = lookup-Below job.job_id t.v2_to_v1_job_map fresh in
        option-Ensures (lookup job.job_id t.v2_to_v1_job_map) _ _ t
          (λ e. returned ((taken, jobs), requests, js, rs, linked, stage))
          (λ old e. absurd (cc (none_yet, e)))

    submit_prev_hash-Ensures :
        (h : Option SetNewPrevHash) (t : Translation)
        → Sound j n t
        → let r = submit_prev_hash env h t in Ensures (Sound j n) IsKnown (λ _. Sound j n) r.0 r.1
    submit_prev_hash-Ensures none t s = returned s
    submit_prev_hash-Ensures (some h) t s =
        submit_v2-Ensures env (Sound j n) IsKnown (Sound j n) (Message.set_new_prev_hash h) t
          (λ tx. s) (λ tx. s)

    announce :
        (job : NewMiningJob) (h : Option SetNewPrevHash) (t : Translation)
        → Sound j n t
        → let m = submit_v2 env (Message.new_mining_job job) >> submit_prev_hash env h in
          Ensures (Sound j n) IsKnown (λ _. Sound j n) (m t).0 (m t).1
    announce job h t s =
        let message = Message.new_mining_job job in
        bind (λ _. Sound j n)
          (submit_v2-Ensures env (Sound j n) IsKnown (Sound j n) message t (λ tx. s) (λ tx. s))
          λ _ sent. submit_prev_hash-Ensures h (submit_v2 env message t).1 sent

    pub perform_notify-Ensures :
        (payload : Notify) (t : Translation)
        → Sound (1 + j) n t
        → let r = perform_notify env payload t in
          Ensures (Sound j n) IsKnown (λ _. Sound j n) r.0 r.1
    unfolding perform_notify
    perform_notify-Ensures payload t s =
        let less = Sound-mono j n (1 + j) n t (omega arith) (omega arith) s in
        bind (λ _. Sound (1 + j) n)
          (calculate_merkle_root-Ensures (Sound j n) (Sound (1 + j) n) payload t tt tt less λ _. s)
          λ root h1.
            let t1 = (calculate_merkle_root env payload t).1 in
            bind Taken (new_job-Ensures payload root t1 h1) λ job h2.
              let t2 = (new_job env payload root t1).1 in
              bind (λ _. Taken job) (maybe_set_new_prev_hash-Ensures job payload t2 h2)
                λ h h3.
                  let t3 = (maybe_set_new_prev_hash env job payload t2).1 in
                  bind (λ _. Sound j n) (register_job-Ensures job payload t3 h3)
                    λ _ h4. let t4 = (register_job env job payload t3).1 in announce job h t4 h4
