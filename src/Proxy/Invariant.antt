-- ===== src/Proxy/Invariant.antt =====
-- What holds of the state of a translation between two messages, in
-- open/stratum-proxy/src/translation.rs: ids in use lie below the next one, and an open channel has
-- everything that a job needs.
pub mod Jobs
pub mod Channels
pub mod Replies
pub mod Responses
pub mod Requests
pub mod Visits
use native.Mathlib.Nat.{mod-eq_of_lt}
use bic_os.Base.{
  ℕ, ◌+◌, ◌*◌, ◌%◌, ◌^◌, ◌<◌, ◌≤◌, ◌≡◌, ◌≢◌, refl, inl, inr, Bool, true, false, Option, none, some,
  List, [], ◌∷◌, ◌++◌, ◌==◌, arith, All, if◌then◌else◌, eq-cases, Bool-cases,
}
use bic_os.Stratum.Messages.{Message, SetupConnection, OpenStandardMiningChannel}
use bic_os.Proxy.{
  Translation, Panic, Env, Reply, Action, Sender, Request, Phase, no_channel, long_text, short_text,
  zero_difficulty, capacity_overflow, out_of_memory, no_connection, no_target, v1_id_exists,
  v2_id_exists,
}
use bic_os.Proxy.Sending.{lookup, erase, next_id, submit_v2, submit_v1, try_send}
use bic_os.Proxy.Channel.{is_some}
use bic_os.Proxy.Logic.{Ensures, Stage, returned, failing}

abbrev pub Below : {A : Type 0} → ℕ → List (ℕ × A) → Type 0
Below n m = All (λ e. e.0 < n) m

-- What an open channel has.
abbrev pub Ready : Translation → Type 0
Ready t =
    (is_some t.v2_channel_details ≡ true)
    × (t.v1_authorized ≡ true)
    × (is_some t.v1_extra_nonce1 ≡ true)
    × (is_some t.v2_target ≡ true)

-- A channel stands on a connection.
abbrev pub Connected : Option OpenStandardMiningChannel → Option SetupConnection → Type 0
Connected none connection = Unit
Connected (some details) connection = is_some connection ≡ true

-- The invariant, with numbers left for so many more jobs and requests.
abbrev pub Sound : ℕ → ℕ → Translation → Type 0
Sound jobs requests t =
    Below t.v2_job_id t.v2_to_v1_job_map
    × Below t.v1_req_id t.v1_req_map
    × (t.v2_job_id + jobs < 2 ^ 32)
    × (t.v1_req_id + requests < 2 ^ 32)
    × Connected t.v2_channel_details t.v2_conn_details
    × Stage t.phase (Ready t)

-- The same without the open channel, which is what closing it needs.
abbrev pub Loose : ℕ → ℕ → Translation → Type 0
Loose jobs requests t =
    Below t.v2_job_id t.v2_to_v1_job_map
    × Below t.v1_req_id t.v1_req_map
    × (t.v2_job_id + jobs < 2 ^ 32)
    × (t.v1_req_id + requests < 2 ^ 32)
    × Connected t.v2_channel_details t.v2_conn_details

pub Loose-Sound : (j n : ℕ) (t : Translation) → Sound j n t → Loose j n t
Loose-Sound j n t (jobs, requests, js, rs, linked, stage) = (jobs, requests, js, rs, linked)

-- The panics that a message can cause. The others stand for bugs in the code.
abbrev pub IsKnown : Panic → Type 0
IsKnown no_channel = Unit
IsKnown long_text = Unit
IsKnown short_text = Unit
IsKnown zero_difficulty = Unit
IsKnown capacity_overflow = Unit
IsKnown out_of_memory = Unit
IsKnown v1_id_exists = ⊥
IsKnown v2_id_exists = ⊥
IsKnown no_target = ⊥
IsKnown no_connection = ⊥

pub Sound-mono : (a b c d : ℕ) (t : Translation) → a ≤ c → b ≤ d → Sound c d t → Sound a b t
Sound-mono a b c d t ac bd (jobs, requests, js, rs, linked, stage) =
    (jobs, requests, omega arith, omega arith, linked, stage)

module _ {A : Type 0} where
  pub is_some-none : (o : Option A) → is_some o ≡ true → o ≢ none
  is_some-none none h e = cc
  is_some-none (some a) h e = cc

  pub lookup-Below : (n : ℕ) (m : List (ℕ × A)) → Below n m → lookup n m ≡ none
  unfolding lookup
  lookup-Below n [] h = refl
  lookup-Below n ((k, a) ∷ m) (lt, h) = ground (arith, lookup-Below n m h)

  pub Below-mono : (n k : ℕ) (m : List (ℕ × A)) → n ≤ k → Below n m → Below k m
  Below-mono n k [] le h = tt
  Below-mono n k (e ∷ m) le (lt, h) = (omega arith, Below-mono n k m le h)

  pub erase-Below : (n k : ℕ) (m : List (ℕ × A)) → Below n m → Below n (erase k m)
  unfolding erase
  erase-Below n k [] h = tt
  erase-Below n k ((i, a) ∷ m) (lt, h) =
      let later = erase-Below n k m h in
      elim (Bool-cases (i == k)) [ inl e ↦ rw e later | inr e ↦ rw e (lt, later) ]

pub next_id_lem : (n k : ℕ) → n + (1 + k) < 2 ^ 32 → next_id n ≡ n + 1
next_id_lem n k room = mod-eq_of_lt (omega arith)

module _ {V E : Type 0} (env : Env V E) where
  -- Sending changes the channel only.
  pub submit_v2-Ensures :
      (failed : Translation → Type 0) (known : Panic → Type 0) (after : Translation → Type 0)
      (m : Message) (t : Translation)
      → ((tx : Sender Message) → failed (record t { v2_tx = tx }))
      → ((tx : Sender Message) → after (record t { v2_tx = tx }))
      → let r = submit_v2 env m t in Ensures failed known (λ _. after) r.0 r.1
  unfolding submit_v2
  submit_v2-Ensures failed known after m t hf ha = elim (Bool-cases (env.v2_room t.v2_tx.tries)) [
    | inl e ↦
        rw e (returned (ha (record { sent = t.v2_tx.sent ++ (m ∷ []); tries = t.v2_tx.tries + 1 })))
    | inr e ↦ rw e (failing (hf (record { sent = t.v2_tx.sent; tries = t.v2_tx.tries + 1 })))
  ]

  pub submit_v1-Ensures :
      (failed : Translation → Type 0) (known : Panic → Type 0) (after : Translation → Type 0)
      (m : Request) (t : Translation)
      → ((tx : Sender Request) → failed (record t { v1_tx = tx }))
      → ((tx : Sender Request) → after (record t { v1_tx = tx }))
      → let r = submit_v1 env m t in Ensures failed known (λ _. after) r.0 r.1
  unfolding submit_v1
  submit_v1-Ensures failed known after m t hf ha = elim (Bool-cases (env.v1_room t.v1_tx.tries)) [
    | inl e ↦
        rw e (returned (ha (record { sent = t.v1_tx.sent ++ (m ∷ []); tries = t.v1_tx.tries + 1 })))
    | inr e ↦ rw e (failing (hf (record { sent = t.v1_tx.sent; tries = t.v1_tx.tries + 1 })))
  ]

module _ (j n : ℕ) where
  abbrev pub Keeps : Reply (Unit {0}) × Translation → Type 0
  Keeps r = Ensures (Sound j n) IsKnown (λ _. Sound j n) r.0 r.1

  -- What is between two steps, with a job left that the step may announce.
  abbrev pub More : Translation → Type 0
  More = Sound (1 + j) n

  pub less : (t : Translation) → More t → Sound j n t
  less t s = Sound-mono j n (1 + j) n t (omega arith) (omega arith) s

pub send :
    {V E : Type 0} (env : Env V E) (j n : ℕ) (m : Message) (t : Translation)
    → Sound j n t
    → Keeps j n (submit_v2 env m t)
send env j n m t s = submit_v2-Ensures env (Sound j n) IsKnown (Sound j n) m t (λ tx. s) (λ tx. s)
