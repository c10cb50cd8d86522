-- ===== src/Client/Scheduler/Switching.antt =====
-- Whoever is active holds the channel.
use bic_os.Base.{
  ℕ, ◌≡◌, refl, ap, true, false, Option, none, some, ok, ==_iff, Bool-cases, inl, inr, arith,
  if◌then◌else◌,
}
use bic_os.Client.Scheduler.{
  Sender, initial, of_client, same, ActiveClient, no_client, active_client, get_engine_sender,
  is_client, JobDispatcher, job_dispatcher, swap_sender, switch_client,
}

same_self : (s : Sender) → same s s ≡ true
unfolding same
same_self initial = refl
same_self (of_client c) = (==_iff c c).1 refl

same-eq : (a b : Sender) → same a b ≡ true → a ≡ b
unfolding same
same-eq initial initial e = refl
same-eq initial (of_client c) e = absurd (cc)
same-eq (of_client c) initial e = absurd (cc)
same-eq (of_client c) (of_client d) e = ap of_client ((==_iff c d).0 e)

-- The sender of the active client holds the channel, the others hold none.
pub record Holds (channel : ℕ) (d : JobDispatcher) : Type 0 where
  pub mine : d.senders (get_engine_sender d.active) ≡ some channel
  pub others : (s : Sender) → same s (get_engine_sender d.active) ≡ false → d.senders s ≡ none

-- The sender without a client is the first one.
abbrev pub Attached : ActiveClient → Type 0
Attached (no_client s) = s ≡ initial
Attached (active_client c) = Unit {0}

pub job_dispatcher-Holds : (channel : ℕ) → Holds channel (job_dispatcher channel)
unfolding get_engine_sender same
job_dispatcher-Holds channel = record { mine = refl; others = λ s e. only s e }
  where
    only : (s : Sender) → same s initial ≡ false → (job_dispatcher channel).senders s ≡ none
    only initial e = absurd (cc)
    only (of_client c) e = refl

is_client-eq : (a : ActiveClient) (c : ℕ) → is_client a c ≡ true → a ≡ active_client c
unfolding is_client
is_client-eq (no_client s) c e = absurd (cc)
is_client-eq (active_client d) c e = ap active_client ((==_iff d c).0 e)

sender-ne :
    (a : ActiveClient) (c : ℕ)
    → Attached a
    → is_client a c ≡ false
    → same (of_client c) (get_engine_sender a) ≡ false
unfolding is_client same get_engine_sender
sender-ne (no_client s) c attached e = rw attached refl
sender-ne (active_client d) c attached e = ground (arith, e)

module _ (channel : ℕ) where
  -- A swap hands the channel over.
  swap_sender-Holds :
      (senders : Sender → Option ℕ) (from to : Sender)
      → same to from ≡ false
      → senders from ≡ some channel
      → ((s : Sender) → same s from ≡ false → senders s ≡ none)
      → (after : Sender → Option ℕ) × (swap_sender senders to from ≡ ok after)
        × (after to ≡ some channel)
        × ((s : Sender) → same s to ≡ false → after s ≡ none)
  unfolding swap_sender
  swap_sender-Holds senders from to other mine others = (
    (λ s. if same s to then senders from else if same s from then senders to else senders s),
    rw other refl,
    rw (same_self to) mine,
    λ s e. elim (Bool-cases (same s from)) [
      | inl here ↦ rw (e, here) (others to other)
      | inr there ↦ rw (e, there) (others s there)
    ],
  )

  pub switch_client-Holds :
      (d : JobDispatcher) (next : ℕ)
      → Holds channel d
      → Attached d.active
      → (d' : JobDispatcher) × (switch_client d (some next) ≡ ok d')
        × Holds channel d'
        × (d'.active ≡ active_client next)
  unfolding switch_client get_engine_sender
  switch_client-Holds d next holds attached = elim (Bool-cases (is_client d.active next)) [
    | inl current ↦ (d, rw current refl, holds, is_client-eq d.active next current)
    | inr other ↦
        let apart = sender-ne d.active next attached other in
        let (after, run, mine, others) =
          swap_sender-Holds d.senders (get_engine_sender d.active) (of_client next) apart holds.mine
            holds.others in
        (
          record { active = active_client next; senders = after },
          rw other (rw run refl),
          record { mine = mine; others = others },
          refl,
        )
  ]
