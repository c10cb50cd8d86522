-- ===== src/Proxy/Logic.antt =====
-- Reasoning about actions: what holds of the state after a call that returns, that fails or that
-- panics, put together from what holds after its parts.
use mathlib.Core.Path.{subst}
use mathlib.Core.Option.{some-injective}
use bic_os.Base.{sym, ◌≡◌, ◌≢◌, refl, Bool, true, false, Option, none, some, if◌then◌else◌}
use bic_os.Proxy.{
  Translation, Phase, Error, Panic, Reply, ok, err, panic, Action, or_fail, or_crash,
}

-- `failed` holds after an error, `known` of a panic, and the last predicate after a return.
abbrev pub After :
    {A : Type 0}
    → (Translation → Type 0)
    → (Panic → Type 0)
    → (A → Translation → Type 0)
    → Reply A
    → Translation
    → Type 0
After failed known after (ok a) t = after a t
After failed known after (err e) t = failed t
After failed known after (panic p) t = known p

pub record Ensures {A : Type 0} (failed : Translation → Type 0) (known : Panic → Type 0)
    (after : A → Translation → Type 0) (r : Reply A) (t : Translation) : Type 0 where
  pub holds : After failed known after r t

-- A statement about the operational phase only.
abbrev pub Stage : Phase → Type 0 → Type 0
Stage Phase.operational R = R
Stage _ R = Unit

pub Stage-map : (p : Phase) {R S : Type 0} → (R → S) → Stage p R → Stage p S
Stage-map Phase.init f r = tt
Stage-map Phase.v1_configure f r = tt
Stage-map Phase.connection_setup f r = tt
Stage-map Phase.open_standard_mining_channel_pending f r = tt
Stage-map Phase.v1_subscribe_or_authorize_fail f r = tt
Stage-map Phase.operational f r = f r

pub Stage-other : (p : Phase) (R : Type 0) → p ≢ Phase.operational → Stage p R
Stage-other Phase.init R other = tt
Stage-other Phase.v1_configure R other = tt
Stage-other Phase.connection_setup R other = tt
Stage-other Phase.open_standard_mining_channel_pending R other = tt
Stage-other Phase.v1_subscribe_or_authorize_fail R other = tt
Stage-other Phase.operational R other = absurd (other refl)

module _ {failed : Translation → Type 0} {known : Panic → Type 0} where
  pub returned :
      {A : Type 0} {after : A → Translation → Type 0} {a : A} {t : Translation}
      → after a t
      → Ensures failed known after (ok a) t
  returned h = record { holds = h }

  pub failing :
      {A : Type 0} {after : A → Translation → Type 0} {e : Error} {t : Translation}
      → failed t
      → Ensures failed known after (err e) t
  failing h = record { holds = h }

  pub panicking :
      {A : Type 0} {after : A → Translation → Type 0} {p : Panic} {t : Translation}
      → known p
      → Ensures failed known after (panic p) t
  panicking h = record { holds = h }

  -- The parts of a call, in their order: what is after the first is before the second.
  pub bind :
      {A B : Type 0} (after : A → Translation → Type 0) {later : B → Translation → Type 0}
      {r : Reply A} {t : Translation} {k : A → Reply B × Translation}
      → Ensures failed known after r t
      → ((a : A) → after a t → Ensures failed known later (k a).0 (k a).1)
      → let result = elim r as (λ _. Reply B × Translation) [
        | ok a ↦ k a
        | err e ↦ (err e, t)
        | panic p ↦ (panic p, t)
      ] in
        Ensures failed known later result.0 result.1
  bind after {r = ok a} h next = next a h.holds
  bind after {r = err e} h next = failing h.holds
  bind after {r = panic p} h next = panicking h.holds

  pub weaken :
      {A : Type 0} {after : A → Translation → Type 0} (broken : Translation → Type 0) {r : Reply A}
      {t : Translation}
      → ((u : Translation) → failed u → broken u)
      → Ensures failed known after r t
      → Ensures broken known after r t
  weaken broken {r = ok a} f h = record { holds = h.holds }
  weaken broken {r = err e} {t = t} f h = record { holds = f t h.holds }
  weaken broken {r = panic p} f h = record { holds = h.holds }

  -- What the cleanup starts from may be less than what it leaves.
  pub bind_on_error :
      {A : Type 0} {after : A → Translation → Type 0} (broken : Translation → Type 0) {r : Reply A}
      {t : Translation} {cleanup : Reply (Unit {0}) × Translation}
      → Ensures broken known after r t
      → (broken t → Ensures failed known (λ _. failed) cleanup.0 cleanup.1)
      → let result = elim r as (λ _. Reply A × Translation) [
        | ok a ↦ (ok a, t)
        | err e ↦ elim cleanup.0 as (λ _. Reply A × Translation) [
          | ok _ ↦ (err e, cleanup.1)
          | err d ↦ (err d, cleanup.1)
          | panic p ↦ (panic p, cleanup.1)
        ]
        | panic p ↦ (panic p, t)
      ] in
        Ensures failed known after result.0 result.1
  bind_on_error broken {r = ok a} h next = returned h.holds
  bind_on_error broken {r = err e} {cleanup = (ok _, u)} h next = failing (next h.holds).holds
  bind_on_error broken {r = err e} {cleanup = (err _, u)} h next = failing (next h.holds).holds
  bind_on_error broken {r = err e} {cleanup = (panic _, u)} h next = panicking (next h.holds).holds
  bind_on_error broken {r = panic p} h next = panicking h.holds

  pub bind_logged :
      {r : Reply (Unit {0})} {t : Translation}
      → Ensures failed known (λ _. failed) r t
      → let result = elim r as (λ _. Reply (Unit {0}) × Translation) [
        | ok a ↦ (ok tt, t)
        | err e ↦ (ok tt, t)
        | panic p ↦ (panic p, t)
      ] in
        Ensures failed known (λ _. failed) result.0 result.1
  bind_logged {r = ok a} h = h
  bind_logged {r = err e} h = returned h.holds
  bind_logged {r = panic p} h = panicking h.holds

  pub bind_return :
      {after : Translation → Type 0} {r : Reply (Unit {0})} {t : Translation}
      {k : Reply (Unit {0}) × Translation}
      → Ensures failed known (λ _. after) r t
      → (after t → Ensures failed known (λ _. failed) k.0 k.1)
      → let result = elim r as (λ _. Reply (Unit {0}) × Translation) [
        | ok a ↦ k
        | err e ↦ (ok tt, t)
        | panic p ↦ (panic p, t)
      ] in
        Ensures failed known (λ _. failed) result.0 result.1
  bind_return {r = ok a} h next = next h.holds
  bind_return {r = err e} h next = returned h.holds
  bind_return {r = panic p} h next = panicking h.holds

  module _ {A : Type 0} {after : A → Translation → Type 0} where
    pub or_fail-Ensures :
        (o : Option A) (e : Error) (t : Translation)
        → failed t
        → ((a : A) → o ≡ some a → after a t)
        → Ensures failed known after (or_fail o e t).0 (or_fail o e t).1
    or_fail-Ensures none e t hf ha = failing hf
    or_fail-Ensures (some a) e t hf ha = returned (ha a refl)

    pub or_crash-Ensures :
        (o : Option A) (p : Panic) (t : Translation)
        → (o ≡ none → known p)
        → ((a : A) → o ≡ some a → after a t)
        → Ensures failed known after (or_crash o p t).0 (or_crash o p t).1
    or_crash-Ensures none p t hk ha = panicking (hk refl)
    or_crash-Ensures (some a) p t hk ha = returned (ha a refl)

    pub if-Ensures :
        (b : Bool) (x y : Action A) (t : Translation)
        → (b ≡ true → Ensures failed known after (x t).0 (x t).1)
        → (b ≡ false → Ensures failed known after (y t).0 (y t).1)
        → let r = (if b then x else y) t in Ensures failed known after r.0 r.1
    if-Ensures true x y t hx hy = hx refl
    if-Ensures false x y t hx hy = hy refl

    pub option-Ensures :
        {B : Type 0} (o : Option B) (x : Action A) (f : B → Action A) (t : Translation)
        → (o ≡ none → Ensures failed known after (x t).0 (x t).1)
        → ((b : B) → o ≡ some b → Ensures failed known after (f b t).0 (f b t).1)
        → let r = (elim o as (λ _. Action A) [ none ↦ x | some b ↦ f b ]) t in
          Ensures failed known after r.0 r.1
    option-Ensures none x f t hx hf = hx refl
    option-Ensures (some b) x f t hx hf = hf b refl

pub always :
    {A : Type 0} (P : Translation → Type 0) {r : Reply A} {t : Translation}
    → Ensures P (λ _. ⊥) (λ _. P) r t
    → P t
always P {r = ok a} h = h.holds
always P {r = err e} h = h.holds
always P {r = panic p} h = absurd h.holds

module _ {failed : Translation → Type 0} {known : Panic → Type 0} {A : Type 0} where
  pub or_fail-some :
      (after : A → Translation → Type 0) (o : Option A) (a : A) (e : Error) (t : Translation)
      → o ≡ some a
      → after a t
      → Ensures failed known after (or_fail o e t).0 (or_fail o e t).1
  or_fail-some after none a e t eq h = cc
  or_fail-some after (some b) a e t eq h =
      returned (subst (λ c. after c t) (sym (some-injective _ _ eq)) h)

-- A call that never fails passes on what it ensures.
pub bind_logged_never :
    {after : Translation → Type 0} {r : Reply (Unit {0})} {t : Translation}
    → Ensures (λ _. ⊥) (λ _. ⊥) (λ _. after) r t
    → let result = elim r as (λ _. Reply (Unit {0}) × Translation) [
      | ok a ↦ (ok tt, t)
      | err e ↦ (ok tt, t)
      | panic p ↦ (panic p, t)
    ] in
      Ensures (λ _. ⊥) (λ _. ⊥) (λ _. after) result.0 result.1
bind_logged_never {r = ok a} h = returned h.holds
bind_logged_never {r = err e} h = absurd h.holds
bind_logged_never {r = panic p} h = absurd h.holds
