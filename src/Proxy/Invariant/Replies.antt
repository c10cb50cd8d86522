-- ===== src/Proxy/Invariant/Replies.antt =====
-- The responses that open a channel keep the invariant of a translation, in
-- open/stratum-proxy/src/translation.rs.
use bic_os.Base.{ℕ, ◌+◌, ◌≡◌, refl, Bool, true, false, ◌&&◌, some, List, ◌==◌}
use bic_os.Proxy.{Translation, on_error, Env, Phase, parse, or_fail}
use bic_os.Proxy.Text.{ascii}
use bic_os.Proxy.Channel.{is_some, finalize_open_channel, abort_open_channel}
use bic_os.Proxy.Upstream
use bic_os.Proxy.Upstream.{
  handle_configure_result, handle_configure_error, handle_extranonce_subscribe_result,
  handle_extranonce_subscribe_error, handle_subscribe_result, handle_authorize_result,
  handle_authorize_or_subscribe_error, handle_submit_result, handle_submit_error, handle_result,
  handle_error, take_handler, visit_stratum_result, visit_stratum_error, reject_configure,
  accept_configure, accept_share, reject_share, is_true, bip320_n_version_mask, is_failed,
  set_extranonce,
}
use bic_os.Proxy.Logic.{
  Ensures, weaken, bind, bind_on_error, returned, failing, Stage-map, or_fail-Ensures, if-Ensures,
}
use bic_os.Proxy.Invariant.{Sound, Loose, Loose-Sound, Keeps, More, send, less, IsKnown}
use bic_os.Proxy.Invariant.Channels.{finalize_open_channel-Ensures, abort_open_channel-Ensures}

pub and-true : (a b : Bool) → (a && b) ≡ true → (a ≡ true) × (b ≡ true)
and-true true b h = (refl, h)
and-true false b h = cc

pub new_extranonce :
    (j n : ℕ) (t : Translation) (nonce : List ℕ) (size : ℕ)
    → Sound j n t
    → Sound j n (record t { v1_extra_nonce1 = some nonce; v1_extra_nonce2_size = size })
new_extranonce j n t nonce size (jobs, requests, js, rs, linked, stage) =
    (jobs, requests, js, rs, linked, Stage-map t.phase (λ (a, b, c, d). (a, b, refl, d)) stage)

module _ {V E : Type 0} (env : Env V E) (j n : ℕ) where
  pub handle_configure_result-Ensures :
      (payload : V) (t : Translation)
      → Sound j n t
      → Keeps j n (handle_configure_result env payload t)
  unfolding handle_configure_result
  handle_configure_result-Ensures payload t s =
      bind (λ _. Sound j n)
        (or_fail-Ensures (env.version_rolling_mask payload) parse t s (λ a e. s))
        λ mask s1.
          let t1 = (or_fail (env.version_rolling_mask payload) parse t).1 in
          let (jobs, requests, js, rs, linked, stage) = s1 in
          if-Ensures (is_true (env.version_rolling payload) && mask == bip320_n_version_mask)
            (accept_configure env) (reject_configure env) t1
            (λ e.
              send env j n _ (record t1 { phase = Phase.connection_setup })
                (jobs, requests, js, rs, linked, tt))
            (λ e. send env j n _ t1 s1)

  pub handle_extranonce_subscribe_result-Ensures :
      (payload : V) (t : Translation)
      → Sound j n t
      → Keeps j n (handle_extranonce_subscribe_result env payload t)
  unfolding handle_extranonce_subscribe_result
  handle_extranonce_subscribe_result-Ensures payload t s =
      bind (λ _. Sound j n) (or_fail-Ensures (env.as_boolean payload) parse t s (λ a e. s))
        λ enabled s1. returned s1

  abort :
      (text : List ℕ) (t : Translation) → Sound j n t → Keeps j n (abort_open_channel env text t)
  abort text t s = abort_open_channel-Ensures env j n text t (Loose-Sound j n t s)

  pub handle_subscribe_result-Ensures :
      (payload : V) (t : Translation)
      → More j n t
      → Keeps j n (handle_subscribe_result env payload t)
  unfolding handle_subscribe_result
  handle_subscribe_result-Ensures payload t s =
      let text = ascii "Upstream subscribe failed" in
      bind (λ _. More j n)
        (bind_on_error (Sound j n)
          (or_fail-Ensures (env.as_subscribe payload) parse t (less j n t s) (λ a e. s))
          (abort text (or_fail (env.as_subscribe payload) parse t).1))
        λ (nonce, size) s1.
          let failed = abort_open_channel env text in
          let t1 = (on_error (or_fail (env.as_subscribe payload) parse) failed t).1 in
          let t2 = record t1 { v1_extra_nonce1 = some nonce; v1_extra_nonce2_size = size } in
          let s2 = new_extranonce (1 + j) n t1 nonce size s1 in
          if-Ensures (t2.v1_authorized && is_some t2.v2_target) _ _ t2
            (λ e.
              let (granted, target) = and-true t2.v1_authorized _ e in
              bind_on_error (Sound j n)
                (finalize_open_channel-Ensures env j n t2 s2 granted refl target)
                (abort text (finalize_open_channel env t2).1))
            (λ e. returned (less j n t2 s2))

  authorize-Ensures :
      (payload : V) (t : Translation)
      → More j n t
      → let r = Upstream.authorize env payload t in
        Ensures (Loose j n) IsKnown (λ _. Sound j n) r.0 r.1
  unfolding Upstream.authorize
  authorize-Ensures payload t s =
      bind (λ _. More j n)
        (or_fail-Ensures (env.as_boolean payload) parse t (Loose-Sound j n t (less j n t s))
          (λ a e. s))
        λ granted s1.
          let t1 = (or_fail (env.as_boolean payload) parse t).1 in
          let t2 = record t1 { v1_authorized = granted } in
          let (jobs, requests, js, rs, linked, stage) = s1 in
          let (l0, l1, l2, l3, l4) = Loose-Sound j n t1 (less j n t1 s1) in
          if-Ensures granted _ _ t2
            (λ e.
              let s2 : More j n t2 = (
                jobs,
                requests,
                js,
                rs,
                linked,
                Stage-map t1.phase (λ (a, b, c, d). (a, e, c, d)) stage,
              ) in
              if-Ensures (is_some t2.v1_extra_nonce1 && is_some t2.v2_target) _ _ t2
                (λ ready.
                  let (nonce, target) = and-true (is_some t2.v1_extra_nonce1) _ ready in
                  weaken (Loose j n) (Loose-Sound j n)
                    (finalize_open_channel-Ensures env j n t2 s2 e nonce target))
                (λ _. returned (less j n t2 s2)))
            (λ e. failing (l0, l1, l2, l3, l4))

  pub handle_authorize_result-Ensures :
      (payload : V) (t : Translation)
      → More j n t
      → Keeps j n (handle_authorize_result env payload t)
  unfolding handle_authorize_result
  handle_authorize_result-Ensures payload t s =
      bind_on_error (Loose j n) (authorize-Ensures payload t s) (
        abort_open_channel-Ensures env j n (ascii "Not authorized")
          (Upstream.authorize env payload t).1)

  pub handle_authorize_or_subscribe_error-Ensures :
      (payload : E) (t : Translation)
      → Sound j n t
      → Keeps j n (handle_authorize_or_subscribe_error env payload t)
  unfolding handle_authorize_or_subscribe_error
  handle_authorize_or_subscribe_error-Ensures payload t s =
      if-Ensures (is_failed t.phase) _ _ t (λ e. returned s)
        (λ e.
          bind (λ _. Sound j n)
            (abort_open_channel-Ensures env j n (ascii "Service not ready") t (Loose-Sound j n t s))
            (λ _ s1. failing s1))
