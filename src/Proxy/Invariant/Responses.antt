-- ===== src/Proxy/Invariant/Responses.antt =====
-- The responses of the pool keep the invariant of a translation, in
-- open/stratum-proxy/src/translation.rs: the answers to shares, and the choice of the handler.
use bic_os.Base.{ℕ, ◌≡◌, ap, true, Option, none, some, List, ◌++◌}
use bic_os.Proxy.{
  Translation, Handler, Env, no_channel, no_connection, missing_id, invalid_id, parse, or_fail,
  or_crash, configured, subscribed, extranonce_subscribed, authorized, submitted,
}
use bic_os.Proxy.Text.{ascii, first_32}
use bic_os.Proxy.Sending.{lookup, erase}
use bic_os.Proxy.Channel.{is_some, slice, log_session_details}
use bic_os.Proxy.Upstream.{
  handle_configure_error, handle_extranonce_subscribe_error, handle_submit_result,
  handle_submit_error, handle_result, handle_error, take_handler, visit_stratum_result,
  visit_stratum_error, accept_share, reject_share,
}
use bic_os.Proxy.Logic.{
  Ensures, bind, bind_logged, returned, or_fail-Ensures, or_crash-Ensures, if-Ensures,
}
use bic_os.Proxy.Invariant.{
  Sound, Keeps, More, send, less, IsKnown, erase-Below, is_some-none, Connected,
}
use bic_os.Proxy.Invariant.Replies.{
  handle_configure_result-Ensures, handle_extranonce_subscribe_result-Ensures,
  handle_subscribe_result-Ensures, handle_authorize_result-Ensures,
  handle_authorize_or_subscribe_error-Ensures,
}

pub Connected-some :
    (t : Translation)
    → (j n : ℕ) → Sound j n t
    → is_some t.v2_channel_details ≡ true
    → is_some t.v2_conn_details ≡ true
Connected-some t j n (jobs, requests, js, rs, linked, stage) chan =
    go t.v2_channel_details t.v2_conn_details linked chan
  where
    go : (d : _) (c : _) → Connected d c → is_some d ≡ true → is_some c ≡ true
    go none c l h = cc
    go (some d) c l h = l

module _ {V E : Type 0} (env : Env V E) (j n : ℕ) where
  reject_share-Ensures :
      (debug : List ℕ) (t : Translation) → Sound j n t → Keeps j n (reject_share env debug t)
  unfolding slice
  reject_share-Ensures debug t s =
      bind (λ _. Sound j n)
        (or_crash-Ensures (first_32 (ascii "ShareRjct:" ++ debug)) _ t (λ e. tt) (λ a e. s))
        λ code s1. send env j n _ (slice env (ascii "ShareRjct:" ++ debug) t).1 s1

  log_session_details-Ensures :
      (t : Translation)
      → Sound j n t
      → is_some t.v2_channel_details ≡ true
      → Keeps j n (log_session_details env t)
  unfolding log_session_details
  log_session_details-Ensures t s chan =
      bind (λ _ u. Sound j n u × (is_some u.v2_channel_details ≡ true))
        (or_crash-Ensures t.v2_channel_details no_channel t (λ e. tt) (λ _ _. (s, chan)))
        λ _ (s1, chan1).
          let t1 = (or_crash t.v2_channel_details no_channel t).1 in
          let connection = Connected-some t1 j n s1 chan1 in
          bind (λ _. Sound j n)
            (or_crash-Ensures t1.v2_conn_details no_connection t1
              (λ e. absurd (is_some-none t1.v2_conn_details connection e)) (λ _ _. s1))
            λ _ s2. returned s2

  accept_share-Ensures :
      (t : Translation)
      → Sound j n t
      → is_some t.v2_channel_details ≡ true
      → Keeps j n (accept_share env t)
  unfolding log_session_details
  accept_share-Ensures t s chan =
      bind (λ _. Sound j n) (log_session_details-Ensures t s chan)
        λ _ s1. send env j n _ (log_session_details env t).1 s1

  handle_submit_result-Ensures :
      (payload : V) (t : Translation) → Sound j n t → Keeps j n (handle_submit_result env payload t)
  unfolding handle_submit_result
  handle_submit_result-Ensures payload t s =
      bind (λ _. Sound j n) (or_fail-Ensures (env.as_boolean payload) parse t s (λ a e. s))
        λ accepted s1.
          let t1 = (or_fail (env.as_boolean payload) parse t).1 in
          bind (λ _ u. Sound j n u × (is_some u.v2_channel_details ≡ true))
            (or_crash-Ensures t1.v2_channel_details no_channel t1 (λ e. tt)
              (λ a e. (s1, ap is_some e)))
            λ details (s2, chan).
              let t2 = (or_crash t1.v2_channel_details no_channel t1).1 in
              if-Ensures accepted _ _ t2 (λ e. accept_share-Ensures t2 s2 chan)
                (λ e. reject_share-Ensures (env.debug_result payload) t2 s2)

  -- The handlers of a response; a result may announce the job that was deferred.
  handle_result-Ensures :
      (h : Handler) (payload : V) (t : Translation)
      → More j n t
      → Keeps j n (handle_result env h payload t)
  unfolding handle_result
  handle_result-Ensures configured payload t s =
      handle_configure_result-Ensures env j n payload t (less j n t s)
  handle_result-Ensures subscribed payload t s = handle_subscribe_result-Ensures env j n payload t s
  handle_result-Ensures extranonce_subscribed payload t s =
      handle_extranonce_subscribe_result-Ensures env j n payload t (less j n t s)
  handle_result-Ensures authorized payload t s = handle_authorize_result-Ensures env j n payload t s
  handle_result-Ensures submitted payload t s =
      handle_submit_result-Ensures payload t (less j n t s)

  handle_error-Ensures :
      (h : Handler) (payload : E) (t : Translation)
      → Sound j n t
      → Keeps j n (handle_error env h payload t)
  unfolding handle_error handle_configure_error handle_extranonce_subscribe_error
      handle_submit_error
  handle_error-Ensures configured payload t s = send env j n _ t s
  handle_error-Ensures subscribed payload t s =
      handle_authorize_or_subscribe_error-Ensures env j n payload t s
  handle_error-Ensures extranonce_subscribed payload t s = returned s
  handle_error-Ensures authorized payload t s =
      handle_authorize_or_subscribe_error-Ensures env j n payload t s
  handle_error-Ensures submitted payload t s = reject_share-Ensures (env.debug_error payload) t s

  take_handler-Ensures :
      (id : Option ℕ) (t : Translation)
      → More j n t
      → let r = take_handler env id t in Ensures (Sound j n) IsKnown (λ _. More j n) r.0 r.1
  unfolding take_handler
  take_handler-Ensures id t s =
      bind (λ _. More j n) (or_fail-Ensures id missing_id t (less j n t s) (λ a e. s))
        λ k s1.
          let t1 = (or_fail id missing_id t).1 in
          let (jobs, requests, js, rs, linked, stage) = s1 in
          let t2 = record t1 { v1_req_map = erase k t1.v1_req_map } in
          let s2 : More j n t2 =
            (jobs, erase-Below _ k t1.v1_req_map requests, js, rs, linked, stage) in
          or_fail-Ensures (lookup k t1.v1_req_map) invalid_id t2 (less j n t2 s2) (λ a e. s2)

  pub visit_stratum_result-Ensures :
      (id : Option ℕ) (payload : V) (t : Translation)
      → More j n t
      → Keeps j n (visit_stratum_result env id payload t)
  unfolding visit_stratum_result
  visit_stratum_result-Ensures id payload t s = bind_logged (
      bind (λ _. More j n) (take_handler-Ensures id t s)
        λ h s1. handle_result-Ensures h payload (take_handler env id t).1 s1)

  pub visit_stratum_error-Ensures :
      (id : Option ℕ) (payload : E) (t : Translation)
      → More j n t
      → Keeps j n (visit_stratum_error env id payload t)
  unfolding visit_stratum_error
  visit_stratum_error-Ensures id payload t s = bind_logged (
      bind (λ _. More j n) (take_handler-Ensures id t s)
        λ h s1.
          let t1 = (take_handler env id t).1 in handle_error-Ensures h payload t1 (less j n t1 s1))
