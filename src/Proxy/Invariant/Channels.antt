-- ===== src/Proxy/Invariant/Channels.antt =====
-- Opening and closing the channel to the client keep the invariant of a translation, in
-- open/stratum-proxy/src/translation.rs: an open channel lacks nothing.
use bic_os.Base.{ℕ, ◌+◌, ◌≡◌, ap, true, Option, none, some, List, arith, length, leb, ◌≢◌}
use bic_os.Stratum.Messages.{Message, OpenStandardMiningChannel}
use bic_os.Proxy.{
  Translation, Env, ◌>>◌, Phase, or_crash, or_fail, channel_not_operational, no_target,
}
use bic_os.Proxy.Sending.{submit_v2, str0_32}
use bic_os.Proxy.Channel.{
  is_some, deferred_notify, finalize_open_channel, send_set_target, abort_open_channel,
  drop_channel, close,
}
use bic_os.Proxy.Logic.{
  Ensures, bind, bind_logged, returned, panicking, Stage-other, or_fail-Ensures, or_crash-Ensures,
  if-Ensures, option-Ensures,
}
use bic_os.Proxy.Invariant.{Sound, Loose, IsKnown, Sound-mono, is_some-none, submit_v2-Ensures}
use bic_os.Proxy.Invariant.Jobs.{perform_notify-Ensures}

module _ {V E : Type 0} (env : Env V E) where
  module _ (j n : ℕ) where
    deferred_notify-Ensures :
        (t : Translation)
        → Sound (1 + j) n t
        → let r = deferred_notify env t in Ensures (Sound j n) IsKnown (λ _. Sound j n) r.0 r.1
    unfolding deferred_notify
    deferred_notify-Ensures t s =
        option-Ensures t.v1_deferred_notify _ _ _
          (λ e. returned (Sound-mono j n (1 + j) n t (omega arith) (omega arith) s))
          (λ payload e. perform_notify-Ensures env j n payload _ s)

    abbrev Opening : Translation → Type 0
    Opening t =
        Sound (1 + j) n t
        × (t.v1_authorized ≡ true)
        × (is_some t.v1_extra_nonce1 ≡ true)
        × (is_some t.v2_target ≡ true)

    open_now :
        (t : Translation)
        → Opening t
        → is_some t.v2_channel_details ≡ true
        → Sound (1 + j) n (record t { phase = Phase.operational })
    open_now t (s, authorized, nonce, target) chan =
        let (jobs, requests, js, rs, linked, stage) = s in
        (jobs, requests, js, rs, linked, (chan, authorized, nonce, target))

    finish :
        (t : Translation) (message : Message)
        → Sound (1 + j) n t
        → let m = submit_v2 env message >> deferred_notify env in
          Ensures (Sound j n) IsKnown (λ _. Sound j n) (m t).0 (m t).1
    finish t message s =
        let less = Sound-mono j n (1 + j) n t (omega arith) (omega arith) s in
        bind (λ _. Sound (1 + j) n)
          (submit_v2-Ensures env (Sound j n) IsKnown (Sound (1 + j) n) message t (λ tx. less)
            (λ tx. s))
          λ _ sent. deferred_notify-Ensures (submit_v2 env message t).1 sent

    -- Finalizing needs a target, an authorization and a subscription.
    pub finalize_open_channel-Ensures :
        (t : Translation)
        → Sound (1 + j) n t
        → t.v1_authorized ≡ true
        → is_some t.v1_extra_nonce1 ≡ true
        → is_some t.v2_target ≡ true
        → let r = finalize_open_channel env t in
          Ensures (Sound j n) IsKnown (λ _. Sound j n) r.0 r.1
    unfolding finalize_open_channel
    finalize_open_channel-Ensures t s authorized nonce target =
        bind (λ _. Opening)
          (or_crash-Ensures t.v2_target no_target t
            (λ e. absurd (is_some-none t.v2_target target e))
            (λ _ _. (s, authorized, nonce, target)))
          λ v h1.
            let t1 = (or_crash t.v2_target no_target t).1 in
            let less = Sound-mono j n (1 + j) n t1 (omega arith) (omega arith) h1.0 in
            bind (λ _ u. Opening u × (is_some u.v2_channel_details ≡ true))
              (or_fail-Ensures t1.v2_channel_details channel_not_operational t1 less
                (λ a e. (h1, ap is_some e)))
              λ details (h2, chan).
                let t2 = (or_fail t1.v2_channel_details channel_not_operational t1).1 in
                finish (record t2 { phase = Phase.operational }) _ (open_now t2 h2 chan)

    pub send_set_target-Ensures :
        (t : Translation)
        → Sound j n t
        → is_some t.v2_target ≡ true
        → let r = send_set_target env t in Ensures (Sound j n) IsKnown (λ _. Sound j n) r.0 r.1
    unfolding send_set_target
    send_set_target-Ensures t s target =
        bind (λ _. Sound j n)
          (or_crash-Ensures t.v2_target no_target t
            (λ e. absurd (is_some-none t.v2_target target e)) (λ _ _. s))
          λ v h1.
            submit_v2-Ensures env (Sound j n) IsKnown (Sound j n) _
              (or_crash t.v2_target no_target t).1 (λ tx. h1) (λ tx. h1)

    abbrev error_of : OpenStandardMiningChannel → List ℕ → Message
    error_of details code =
        Message.open_standard_mining_channel_error (record { req_id = details.req_id; code = code })

    drop_channel-Ensures :
        (err_msg : List ℕ) (details : Option OpenStandardMiningChannel) (t : Translation)
        → Sound j n t
        → t.phase ≢ Phase.operational
        → let r = drop_channel env err_msg details t in
          Ensures (Sound j n) IsKnown (λ _. Sound j n) r.0 r.1
    unfolding drop_channel str0_32
    drop_channel-Ensures err_msg none t s failed = returned s
    drop_channel-Ensures err_msg (some details) t s failed =
        bind (λ _ u. Sound j n u × (u.phase ≢ Phase.operational))
          (if-Ensures (leb (length err_msg) 32) _ _ t (λ e. returned (s, failed))
            (λ e. panicking tt))
          λ code h.
            let t1 = (str0_32 err_msg t).1 in
            let t2 = record t1 { v2_channel_details = none } in
            let message = error_of details code in
            let (s1, other) = h in
            let (jobs, requests, js, rs, linked, stage) = s1 in
            let dropped : Sound j n t2 =
              (jobs, requests, js, rs, tt, Stage-other t1.phase _ other) in
            bind_logged (
              submit_v2-Ensures env (Sound j n) IsKnown (Sound j n) message t2 (λ tx. dropped)
                (λ tx. dropped))

    -- Closing the channel is always possible.
    pub abort_open_channel-Ensures :
        (err_msg : List ℕ) (t : Translation)
        → Loose j n t
        → let r = abort_open_channel env err_msg t in
          Ensures (Sound j n) IsKnown (λ _. Sound j n) r.0 r.1
    unfolding abort_open_channel
    abort_open_channel-Ensures err_msg t (jobs, requests, js, rs, linked) =
        drop_channel-Ensures err_msg t.v2_channel_details (close env t)
          (jobs, requests, js, rs, linked, tt) (λ e. cc)
