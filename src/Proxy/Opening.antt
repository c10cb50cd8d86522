-- ===== src/Proxy/Opening.antt =====
-- How a channel is opened, in open/stratum-proxy/src/translation.rs: what is there while it is pending,
-- and what opening it leaves.
pub mod Orders
use Prim.Native.String.{String}
use mathlib.Core.Path.{subst}
use bic_os.Base.{
  ℕ, ◌+◌, ◌≡◌, ◌≢◌, refl, sym, ap, ◌∙◌, Bool, true, false, ◌&&◌, ◌||◌, Option, none, some, List, [],
  ◌∷◌, ◌++◌, ◌==◌, All, arith, le_bytes,
}
use bic_os.Stratum.Messages.{Message, OpenStandardMiningChannel, OpenStandardMiningChannelSuccess}
use bic_os.Proxy.{
  Translation, Sender, Reply, Handler, Phase, Env, Action, Panic, on_error, or_fail, or_crash, pure,
  parse, subscribed, authorized, no_target, channel_not_operational, ◌>>=◌, ◌>>◌,
}
use bic_os.Proxy.Text.{ascii}
use bic_os.Proxy.Sending.{submit_v2, try_send}
use bic_os.Proxy.Channel.{
  channel, is_some, finalize_open_channel, deferred_notify, abort_open_channel, perform_notify,
}
use bic_os.Proxy.Upstream
use bic_os.Proxy.Upstream.{
  handle_subscribe_result, handle_authorize_result, visit_set_difficulty, target_of, is_pending,
}
use bic_os.Proxy.Invariant.Replies.{and-true}
use bic_os.Proxy.Logic.{
  Ensures, After, bind, bind_on_error, bind_logged_never, returned, or_fail-Ensures,
  or_crash-Ensures, if-Ensures, option-Ensures, or_fail-some,
}

abbrev pub Never : {A : Type 0} → A → Type 0
Never a = ⊥

-- What opens a channel: a subscription, an authorization and a difficulty.
pub data Answer : Type 0 where
  subscription authorization difficulty : Answer

-- Which of them are there.
pub record Given : Type 0 where
  pub nonce : Bool
  pub grant : Bool
  pub target : Bool

abbrev pub nothing : Given
nothing = record { nonce = false; grant = false; target = false }

abbrev pub mark : Answer → Given → Given
mark Answer.subscription g = record g { nonce = true }
mark Answer.authorization g = record g { grant = true }
mark Answer.difficulty g = record g { target = true }

-- The orders in which the three can come.
abbrev pub orders : List (List Answer)
orders =
    let s = Answer.subscription in
    let a = Answer.authorization in
    let d = Answer.difficulty in
    (s ∷ a ∷ d ∷ [])
    ∷ (s ∷ d ∷ a ∷ [])
    ∷ (a ∷ s ∷ d ∷ [])
    ∷ (a ∷ d ∷ s ∷ [])
    ∷ (d ∷ s ∷ a ∷ [])
    ∷ (d ∷ a ∷ s ∷ [])
    ∷ []

abbrev pub complete : Given → Bool
complete g = g.nonce && (g.grant && g.target)

module _ (details : OpenStandardMiningChannel) where
  -- The channel was asked for, and so much of what it needs is there.
  abbrev pub Pending : Given → Translation → Type 0
  Pending g t =
      (t.phase ≡ Phase.open_standard_mining_channel_pending)
      × (t.v2_channel_details ≡ some details)
      × (is_some t.v1_extra_nonce1 ≡ g.nonce)
      × (t.v1_authorized ≡ g.grant)
      × (is_some t.v2_target ≡ g.target)
      × (t.v1_deferred_notify ≡ none)

  abbrev success : OpenStandardMiningChannel → ℕ → Message
  success d target = Message.open_standard_mining_channel_success (record {
    req_id = d.req_id;
    channel_id = channel;
    target = le_bytes 32 target;
    extranonce_prefix = [];
    group_channel_id = 0;
  })

  -- The channel is open, and the last message to the client says so.
  abbrev pub Opened : Translation → Type 0
  Opened t =
      (t.phase ≡ Phase.operational)
      × ((before : List Message) × ((target : ℕ) × (t.v2_tx.sent
              ≡ before ++ (success details target ∷ []))))

  abbrev pub State : Bool → Given → Translation → Type 0
  State true g = Opened
  State false g = Pending g

  abbrev pub Progress : Given → Translation → Type 0
  Progress g = State (complete g) g

  module _ {V E : Type 0} (env : Env V E) (room : (n : ℕ) → env.v2_room n ≡ true) where
    submit_v2-sent :
        (after : Translation → Type 0) (m : Message) (t : Translation)
        → after (record t {
          v2_tx = record { sent = t.v2_tx.sent ++ (m ∷ []); tries = t.v2_tx.tries + 1 };
        })
        → let r = submit_v2 env m t in Ensures Never Never (λ _. after) r.0 r.1
    unfolding submit_v2
    submit_v2-sent after m t h = rw (room t.v2_tx.tries) (returned h)

    deferred_notify-Opened :
        (t : Translation)
        → Opened t
        → t.v1_deferred_notify ≡ none
        → let r = deferred_notify env t in Ensures Never Never (λ _. Opened) r.0 r.1
    unfolding deferred_notify
    deferred_notify-Opened t h empty =
        option-Ensures t.v1_deferred_notify _ (perform_notify env) _ (λ e. returned h)
          (λ payload e. absurd (cc (e, empty)))

    pub finalize_open_channel-Opened :
        (t : Translation)
        → Pending (record { nonce = true; grant = true; target = true }) t
        → let r = finalize_open_channel env t in Ensures Never Never (λ _. Opened) r.0 r.1
    unfolding finalize_open_channel
    finalize_open_channel-Opened t (phase, chan, nonce, grant, target, empty) =
        bind (λ _ u. (u.v2_channel_details ≡ some details) × (u.v1_deferred_notify ≡ none))
          (or_crash-Ensures t.v2_target no_target t (λ e. cc (ap is_some e, target))
            (λ _ _. (chan, empty)))
          λ v h1.
            let t1 = (or_crash t.v2_target no_target t).1 in
            bind (λ d u. (d ≡ details) × (u.v1_deferred_notify ≡ none))
              (or_fail-some (λ d u. (d ≡ details) × (u.v1_deferred_notify ≡ none))
                t1.v2_channel_details details channel_not_operational t1 h1.0 (refl, h1.1))
              λ d h2.
                let t2 = record (or_fail t1.v2_channel_details channel_not_operational t1).1 {
                  phase = Phase.operational;
                } in
                let message = success d v in
                bind (λ _ u. Opened u × (u.v1_deferred_notify ≡ none))
                  (submit_v2-sent (λ u. Opened u × (u.v1_deferred_notify ≡ none)) message t2
                    (
                      (
                        refl,
                        (t2.v2_tx.sent, (v, ap (λ x. t2.v2_tx.sent ++ (success x v ∷ [])) h2.0)),
                      ),
                      h2.1,
                    ))
                  λ _ h3. deferred_notify-Opened (submit_v2 env message t2).1 h3.0 h3.1
