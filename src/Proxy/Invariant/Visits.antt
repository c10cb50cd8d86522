-- ===== src/Proxy/Invariant/Visits.antt =====
-- Every message keeps the invariant of a translation, in open/stratum-proxy/src/translation.rs. It
-- takes one job number and three request ids at most.
use bic_os.Base.{ℕ, ◌+◌, ◌*◌, ◌^◌, ◌<◌, refl, Bool, ◌&&◌, some, List, [], ◌∷◌, ◌==◌, arith, length}
use bic_os.Proxy.{Translation, Notify, Env, new}
use bic_os.Proxy.Channel.{is_some}
use bic_os.Proxy.Upstream.{
  visit_set_difficulty, visit_set_extranonce, visit_notify, visit_set_version_mask, target_of,
  is_operational, is_pending,
}
use bic_os.Proxy.Run
use bic_os.Proxy.Run.{Event, visit, visit_all}
use bic_os.Proxy.Logic.{
  Ensures, After, weaken, bind, bind_logged, returned, panicking, Stage-map, if-Ensures,
}
use bic_os.Proxy.Invariant.{Sound, IsKnown, Keeps, More, less, Sound-mono}
use bic_os.Proxy.Invariant.Jobs.{perform_notify-Ensures}
use bic_os.Proxy.Invariant.Channels.{finalize_open_channel-Ensures, send_set_target-Ensures}
use bic_os.Proxy.Invariant.Replies.{and-true, new_extranonce}
use bic_os.Proxy.Invariant.Responses.{visit_stratum_result-Ensures, visit_stratum_error-Ensures}
use bic_os.Proxy.Invariant.Requests.{
  visit_setup_connection-Ensures, visit_open_standard_mining_channel-Ensures,
  visit_submit_shares_standard-Ensures,
}

module _ {V E : Type 0} (env : Env V E) (j n : ℕ) where
  -- A difficulty: the channel is opened, or is told the new target.
  visit_set_difficulty-Ensures :
      (value : ℕ) (t : Translation) → More j n t → Keeps j n (visit_set_difficulty env value t)
  unfolding visit_set_difficulty
  visit_set_difficulty-Ensures value t s =
      bind (λ _. More j n)
        (if-Ensures (env.as_u32 value == 0) _ _ t (λ e. panicking tt) (λ e. returned s))
        λ target s1.
          let t1 = (target_of env (env.as_u32 value) t).1 in
          let (jobs, requests, js, rs, linked, stage) = s1 in
          let t2 = record t1 { v2_target = some target } in
          let s2 : More j n t2 = (
            jobs,
            requests,
            js,
            rs,
            linked,
            Stage-map t1.phase (λ (a, b, c, d). (a, b, c, refl)) stage,
          ) in
          if-Ensures (t2.v1_authorized && is_some t2.v1_extra_nonce1) _ _ t2
            (λ ready.
              let (granted, nonce) = and-true t2.v1_authorized _ ready in
              bind_logged (
                if-Ensures (is_pending t2.phase) _ _ t2
                  (λ e. finalize_open_channel-Ensures env j n t2 s2 granted nonce refl)
                  (λ e. send_set_target-Ensures env j n t2 (less j n t2 s2) refl)))
            (λ e. returned (less j n t2 s2))

  visit_notify-Ensures :
      (payload : Notify) (t : Translation) → More j n t → Keeps j n (visit_notify env payload t)
  unfolding visit_notify
  visit_notify-Ensures payload t s =
      if-Ensures (is_operational t.phase) _ _ t
        (λ e. bind_logged (perform_notify-Ensures env j n payload t s))
        (λ e. returned (less j n t s))

  -- A message takes a job number and three request ids at most.
  visit-Ensures :
      (event : Event V E) (t : Translation)
      → Sound (1 + j) (1 + (1 + (1 + n))) t
      → Keeps j n (visit env event t)
  unfolding visit visit_set_extranonce visit_set_version_mask
  visit-Ensures event t s =
      let one : Sound (1 + j) n t = Sound-mono _ _ _ _ t (omega arith) (omega arith) s in
      let none : Sound j n t = Sound-mono _ _ _ _ t (omega arith) (omega arith) s in
      let request : Sound j (1 + n) t = Sound-mono _ _ _ _ t (omega arith) (omega arith) s in
      let requests : Sound j (1 + (1 + (1 + n))) t =
        Sound-mono _ _ _ _ t (omega arith) (omega arith) s in
      by_event event one none request requests
    where
      by_event :
          (event : Event V E)
          → Sound (1 + j) n t
          → Sound j n t
          → Sound j (1 + n) t
          → Sound j (1 + (1 + (1 + n))) t
          → Keeps j n (visit env event t)
      by_event (Run.stratum_result id payload) s0 s1 s2 s3 =
          visit_stratum_result-Ensures env j n id payload t s0
      by_event (Run.stratum_error id payload) s0 s1 s2 s3 =
          visit_stratum_error-Ensures env j n id payload t s0
      by_event (Run.set_difficulty value) s0 s1 s2 s3 = visit_set_difficulty-Ensures value t s0
      by_event (Run.set_extranonce nonce size) s0 s1 s2 s3 =
          returned (new_extranonce j n t nonce size s1)
      by_event (Run.notify payload) s0 s1 s2 s3 = visit_notify-Ensures payload t s0
      by_event (Run.set_version_mask mask) s0 s1 s2 s3 = returned s1
      by_event (Run.setup_connection payload) s0 s1 s2 s3 =
          visit_setup_connection-Ensures env j n payload t s2
      by_event (Run.open_standard_mining_channel payload) s0 s1 s2 s3 =
          visit_open_standard_mining_channel-Ensures env j n payload t s3
      by_event (Run.submit_shares_standard payload) s0 s1 s2 s3 =
          visit_submit_shares_standard-Ensures env j n payload t s2

module _ {V E : Type 0} (env : Env V E) where
  pub visit_all-Ensures :
      (events : List (Event V E)) (t : Translation)
      → Sound (length events) (3 * length events) t
      → let r = visit_all env events t in Ensures (Sound 0 0) IsKnown (λ _. Sound 0 0) r.0 r.1
  unfolding visit_all
  visit_all-Ensures [] t s = returned s
  visit_all-Ensures (event ∷ events) t s =
      let j = length events in
      let n = 3 * length events in
      let start : Sound (1 + j) (1 + (1 + (1 + n))) t =
        Sound-mono _ _ _ _ t (omega arith) (omega arith) s in
      bind (λ _. Sound j n)
        (weaken (Sound 0 0) (λ u h. Sound-mono 0 0 j n u (omega arith) (omega arith) h)
          (visit-Ensures env j n event t start))
        λ _ s1. visit_all-Ensures events (visit env event t).1 s1

  pub visit_all-Sound :
      (xnsub : Bool) (events : List (Event V E))
      → 3 * length events < 2 ^ 32
      → let (reply, t) = visit_all env events (new xnsub) in
        After (Sound 0 0) IsKnown (λ _. Sound 0 0) reply t
  visit_all-Sound xnsub events few =
      (visit_all-Ensures events (new xnsub) (tt, tt, omega arith, omega arith, tt, tt)).holds
