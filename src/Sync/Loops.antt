-- ===== src/Sync/Loops.antt =====
-- The loops of open/bosminer/bosminer/src/sync.rs end when the other tasks leave the status alone, and do
-- what one atomic step does.
use bic_os.Base.{
  ℕ, zero, suc, ◌<◌, ◌≡◌, ◌⊎◌, refl, sym, ◌∙◌, inl, inr, ap, Bool, false, Option, none, some, List,
  [], ◌∷◌, ◌==◌, arith, length, Bool-cases, if◌then◌else◌,
}
use bic_os.Sync.{
  Status, StatusMonitor, Attempt, leave, bug, swap, Return, answer, panic, put, interfere, loop,
  call, atomically, number,
}

-- A status that was there at some time: the first one, or one that another task put.
abbrev Present : Status → List Status → Type 0
Present s [] = ⊥
Present s (first ∷ others) = (s ≡ first) ⊎ Present s others

abbrev at : Status → StatusMonitor → StatusMonitor
at s m = record m { status = s }

-- The call has the answer of an atomic step from a status that was there; what it leaves is what that
-- step leaves, or it has changed nothing since.
abbrev pub Linear :
    (Status → Attempt) → List Status → StatusMonitor → Option (Return × StatusMonitor) → Type 0
Linear decide others m none = ⊥
Linear decide others m (some (r, after)) =
    (s : Status) × Present s (m.status ∷ others)
    × ((atomically decide (at s m)).0 ≡ r)
    × ((after ≡ (atomically decide (at s m)).1) ⊎ (atomically decide (at s m) ≡ (r, at s m)))

module _ (decide : Status → Attempt) where
  atomically-eq :
      (m : StatusMonitor) (d : Attempt)
      → decide m.status ≡ d
      → atomically decide m ≡ (elim d as (λ _. Return × StatusMonitor) [
        | leave a ↦ (answer a, m)
        | bug ↦ (panic, m)
        | swap status notify a ↦ (answer a, put status notify m)
      ])
  unfolding atomically
  atomically-eq m d e = rw (e, atomically) refl

  put-interfere :
      (others : List Status) (m : StatusMonitor) (status : Status) (notify : Bool)
      → put status notify (interfere others m) ≡ put status notify m
  put-interfere [] m status notify = refl
  put-interfere (other ∷ others) m status notify = refl

  -- One round, from what the status that was read decides: it ends, or the status has changed.
  round :
      (d : Attempt) (others : List Status) (m : StatusMonitor)
      (again : Option (Return × StatusMonitor))
      → decide m.status ≡ d
      → ((number m.status == number (interfere others m).status) ≡ false
          → Linear decide others m again)
      → Linear decide others m (elim d as (λ _. Option (Return × StatusMonitor)) [
        | leave a ↦ some (answer a, m)
        | bug ↦ some (panic, m)
        | swap status notify a ↦
            if number m.status == number (interfere others m).status
            then some (answer a, put status notify (interfere others m))
            else again
      ])
  round (leave a) others m again e next =
      let step = atomically-eq m (leave a) e in (m.status, inl refl, ap (λ r. r.0) step, inr step)
  round bug others m again e next =
      let step = atomically-eq m bug e in (m.status, inl refl, ap (λ r. r.0) step, inr step)
  round (swap status notify a) others m again e next =
      let step = atomically-eq m (swap status notify a) e in
      elim (Bool-cases (number m.status == number (interfere others m).status)) [
        | inl same ↦ rw same (
          m.status,
          inl refl,
          ap (λ r. r.0) step,
          inl (put-interfere others m status notify ∙ sym (ap (λ r. r.1) step)),
        )
        | inr changed ↦ rw changed (next changed)
      ]

  -- What is said of the rest of the loop holds of the whole.
  further :
      (other : Status) (others : List Status) (m : StatusMonitor)
      (result : Option (Return × StatusMonitor))
      → Linear decide others (at other m) result
      → Linear decide (other ∷ others) m result
  further other others m none h = h
  further other others m (some (r, after)) (s, present, same, ends) = (s, inr present, same, ends)

  loop-Linear :
      (fuel : ℕ) (others : List Status) (m : StatusMonitor)
      → length others < fuel
      → Linear decide others m (loop decide fuel others m.status m)
  unfolding loop
  loop-Linear zero others m le = absurd (omega arith)
  loop-Linear (suc fuel) [] m le =
      round (decide m.status) [] m _ refl (λ changed. absurd (ground (arith, changed)))
  loop-Linear (suc fuel) (other ∷ others) m le =
      let rest = loop-Linear fuel others (at other m) (omega arith) in
      round (decide m.status) (other ∷ others) m _ refl
        (λ _. further other others m (loop decide fuel others other (at other m)) rest)

  -- However many statuses other tasks put while a method tries, one round for each of them and one more
  -- is enough for it to end. Its answer is that of one atomic step from a status that was there at some
  -- time, and the status that it leaves is the one that this step leaves, or this step changes nothing.
  pub call-Linear :
      (fuel : ℕ) (others : List Status) (m : StatusMonitor)
      → length others < fuel
      → Linear decide others m (call decide fuel others m)
  unfolding call
  call-Linear fuel others m enough = loop-Linear fuel others m enough
