-- ===== src/Proxy/Opening/Orders.antt =====
-- The answers to the requests of the proxy and the difficulty may come in any order, in
-- open/stratum-proxy/src/translation.rs.
use mathlib.Core.Path.{subst}
use bic_os.Base.{
  ℕ, ◌≡◌, refl, sym, ap, ◌∙◌, Bool, true, false, ◌&&◌, some, List, [], ◌∷◌, ◌==◌, All,
}
use bic_os.Stratum.Messages.{OpenStandardMiningChannel}
use bic_os.Proxy.{Translation, Env, Action, on_error, or_fail, pure, parse, ◌>>◌}
use bic_os.Proxy.Text.{ascii}
use bic_os.Proxy.Channel.{is_some, abort_open_channel}
use bic_os.Proxy.Upstream
use bic_os.Proxy.Upstream.{
  handle_subscribe_result, handle_authorize_result, visit_set_difficulty, target_of, is_pending,
}
use bic_os.Proxy.Invariant.Replies.{and-true}
use bic_os.Proxy.Logic.{
  Ensures, After, bind, bind_on_error, bind_logged_never, returned, if-Ensures, or_fail-some,
}
use bic_os.Proxy.Opening.{
  Never, Answer, Given, nothing, mark, orders, complete, State, Pending, Opened, Progress,
  finalize_open_channel-Opened,
}

last_target : (a b : Bool) → (b && a) ≡ (a && (b && true))
last_target true true = refl
last_target true false = refl
last_target false true = refl
last_target false false = refl

module _ (details : OpenStandardMiningChannel) where
  module _ {V E : Type 0} (env : Env V E) (room : (n : ℕ) → env.v2_room n ≡ true) where
    -- An answer, as the handlers and the visitor take it.
    module _ (v w : V) (nonce : List ℕ) (size value : ℕ)
        (subs : env.as_subscribe v ≡ some (nonce, size)) (granted : env.as_boolean w ≡ some true)
        (given : (env.as_u32 value == 0) ≡ false) where
      subscription-Progress :
          (g : Given) (t : Translation)
          → Pending details g t
          → let r = handle_subscribe_result env v t in
            Ensures Never Never (λ _. Progress details (mark Answer.subscription g)) r.0 r.1
      unfolding handle_subscribe_result
      subscription-Progress g t (phase, chan, n, a, d, empty) =
          bind (λ r u. Pending details g u)
            (bind_on_error Never
              (or_fail-some (λ _. Pending details g) (env.as_subscribe v) (nonce, size) parse t subs
                (phase, chan, n, a, d, empty))
              (λ never. absurd never))
            λ (nonce1, size1) h1.
              let failed = abort_open_channel env (ascii "Upstream subscribe failed") in
              let t1 = (on_error (or_fail (env.as_subscribe v) parse) failed t).1 in
              let t2 = record t1 { v1_extra_nonce1 = some nonce1; v1_extra_nonce2_size = size1 } in
              let (phase1, chan1, n1, a1, d1, empty1) = h1 in
              let same : (t2.v1_authorized && is_some t2.v2_target) ≡ (g.grant && g.target) =
                cc (a1, d1) in
              if-Ensures (t2.v1_authorized && is_some t2.v2_target) _ _ t2
                (λ e.
                  let (x, y) = and-true t2.v1_authorized (is_some t2.v2_target) e in
                  rw (sym same ∙ e) (
                    bind_on_error Never
                      (finalize_open_channel-Opened details env room t2
                        (phase1, chan1, refl, x, y, empty1))
                      (λ never. absurd never)))
                (λ e. rw (sym same ∙ e) (returned (phase1, chan1, refl, a1, d1, empty1)))

      authorization-Progress :
          (g : Given) (t : Translation)
          → Pending details g t
          → let r = handle_authorize_result env w t in
            Ensures Never Never (λ _. Progress details (mark Answer.authorization g)) r.0 r.1
      unfolding handle_authorize_result Upstream.authorize
      authorization-Progress g t h =
          bind_on_error Never
            (bind (λ b u. (b ≡ true) × Pending details g u)
              (or_fail-some (λ b u. (b ≡ true) × Pending details g u) (env.as_boolean w) true parse
                t granted (refl, h))
              λ b h1.
                let t1 = (or_fail (env.as_boolean w) parse t).1 in
                let t2 = record t1 { v1_authorized = b } in
                let (yes_granted, pending) = h1 in
                let (phase1, chan1, n1, a1, d1, empty1) = pending in
                let same : (is_some t2.v1_extra_nonce1 && is_some t2.v2_target)
                    ≡ (g.nonce && g.target) =
                  cc (n1, d1) in
                if-Ensures b _ _ t2
                  (λ _.
                    if-Ensures (is_some t2.v1_extra_nonce1 && is_some t2.v2_target) _ _ t2
                      (λ e.
                        let (x, y) =
                          and-true (is_some t2.v1_extra_nonce1) (is_some t2.v2_target) e in
                        rw (sym same ∙ e) (
                          finalize_open_channel-Opened details env room t2
                            (phase1, chan1, x, yes_granted, y, empty1)))
                      (λ e.
                        rw (sym same ∙ e) (returned (phase1, chan1, n1, yes_granted, d1, empty1))))
                  (λ refused. absurd (cc (yes_granted, refused))))
            (λ never. absurd never)

      difficulty-Progress :
          (g : Given) (t : Translation)
          → Pending details g t
          → let r = visit_set_difficulty env value t in
            Ensures Never Never (λ _. Progress details (mark Answer.difficulty g)) r.0 r.1
      unfolding visit_set_difficulty
      difficulty-Progress g t h =
          bind (λ _. Pending details g)
            (if-Ensures (env.as_u32 value == 0) _ _ t (λ e. absurd (cc (e, given)))
              (λ e. returned h))
            λ target h1.
              let t1 = (target_of env (env.as_u32 value) t).1 in
              let t2 = record t1 { v2_target = some target } in
              let (phase1, chan1, n1, a1, d1, empty1) = h1 in
              let same : (t2.v1_authorized && is_some t2.v1_extra_nonce1)
                  ≡ (g.nonce && (g.grant && true)) =
                cc (a1, n1, last_target g.nonce g.grant) in
              if-Ensures (t2.v1_authorized && is_some t2.v1_extra_nonce1) _ _ t2
                (λ e.
                  let (x, y) = and-true t2.v1_authorized (is_some t2.v1_extra_nonce1) e in
                  let pending : is_pending t2.phase ≡ true = ap is_pending phase1 in
                  rw (sym same ∙ e) (
                    bind_logged_never (
                      if-Ensures (is_pending t2.phase) _ _ t2
                        (λ _.
                          finalize_open_channel-Opened details env room t2
                            (phase1, chan1, y, x, refl, empty1))
                        (λ other. absurd (cc (pending, other))))))
                (λ e. rw (sym same ∙ e) (returned (phase1, chan1, n1, a1, refl, empty1)))

      abbrev pub take_answer : Answer → Action (Unit {0})
      take_answer Answer.subscription = handle_subscribe_result env v
      take_answer Answer.authorization = handle_authorize_result env w
      take_answer Answer.difficulty = visit_set_difficulty env value

      abbrev pub take_answers : List Answer → Action (Unit {0})
      take_answers [] = pure tt
      take_answers (a ∷ as_they_come) = take_answer a >> take_answers as_they_come

      take_answer-Progress :
          (a : Answer) (g : Given) (t : Translation)
          → Pending details g t
          → let r = take_answer a t in
            Ensures Never Never (λ _. Progress details (mark a g)) r.0 r.1
      take_answer-Progress Answer.subscription g t h = subscription-Progress g t h
      take_answer-Progress Answer.authorization g t h = authorization-Progress g t h
      take_answer-Progress Answer.difficulty g t h = difficulty-Progress g t h

      in_order :
          (a b c : Answer) (t : Translation)
          → complete (mark a nothing) ≡ false
          → complete (mark b (mark a nothing)) ≡ false
          → complete (mark c (mark b (mark a nothing))) ≡ true
          → Pending details nothing t
          → let r = take_answers (a ∷ b ∷ c ∷ []) t in
            Ensures Never Never (λ _. Opened details) r.0 r.1
      in_order a b c t one two all h =
          let ga = mark a nothing in
          let gb = mark b ga in
          let gc = mark c gb in
          let (r1, t1) = take_answer a t in
          let (r2, t2) = take_answer b t1 in
          let (r3, t3) = take_answer c t2 in
          bind (λ _. Pending details ga)
            (subst (λ s. Ensures Never Never (λ _. State details s ga) r1 t1) one
              (take_answer-Progress a nothing t h))
            λ _ h1.
              bind (λ _. Pending details gb)
                (subst (λ s. Ensures Never Never (λ _. State details s gb) r2 t2) two
                  (take_answer-Progress b ga t1 h1))
                λ _ h2.
                  bind (λ _. Opened details)
                    (subst (λ s. Ensures Never Never (λ _. State details s gc) r3 t3) all
                      (take_answer-Progress c gb t2 h2))
                    λ _ h3. returned h3

      -- Once a channel has been asked for, and nothing that it needs is there yet, a subscription, an
      -- authorization and a difficulty that is not zero open it in whatever order they come in, if the
      -- channel to the client has room and no job is waiting: none of the calls fails or panics, and in the
      -- end the state is operational and the last message to the client says that its channel is open.
      pub take_answers-Opened :
          (t : Translation)
          → Pending details nothing t
          → All
              (λ answers.
                let r = take_answers answers t in After Never Never (λ _. Opened details) r.0 r.1)
              orders
      take_answers-Opened t h =
          let s = Answer.subscription in
          let a = Answer.authorization in
          let d = Answer.difficulty in
          (
            (in_order s a d t refl refl refl h).holds,
            (
              (in_order s d a t refl refl refl h).holds,
              (
                (in_order a s d t refl refl refl h).holds,
                (
                  (in_order a d s t refl refl refl h).holds,
                  (
                    (in_order d s a t refl refl refl h).holds,
                    ((in_order d a s t refl refl refl h).holds, tt),
                  ),
                ),
              ),
            ),
          )
