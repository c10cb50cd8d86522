-- ===== src/Antminer/Pll/Loops.antt =====
-- Loops that do not panic, keep an invariant, keep a property once it holds, and reach it at a step.
use bic_os.Base.{ℕ, zero, suc, ◌+◌, ◌<◌, ◌≤◌, ◌≡◌, refl, sym, Result, ok, arith, eq-cases, inl, inr}
use bic_os.Antminer.Pll.{Panic, for_range}

module _ {S : Type 0} (Inv Goal : S → Type 0) where
  abbrev pub Keeps : (S → Result Panic S) → Type 0
  Keeps f = (s : S) → Inv s → (t : S) × (f s ≡ ok t) × Inv t × (Goal s → Goal t)

  abbrev pub Reaches : (S → Result Panic S) → Type 0
  Reaches f = (s : S) → Inv s → (t : S) × (f s ≡ ok t) × Inv t × Goal t

  pub for_range-Keeps :
      (body : ℕ → S → Result Panic S) (n first : ℕ)
      → ((i : ℕ) → first ≤ i → i < first + n → Keeps (body i))
      → Keeps (for_range first n body)
  unfolding for_range
  for_range-Keeps body zero first each s inv = (s, refl, inv, λ g. g)
  for_range-Keeps body (suc n) first each s inv =
      let (t, run, inv', keep) = each first (omega arith) (omega arith) s inv in
      let (u, run', inv'', keep') =
        for_range-Keeps body n (suc first) (λ i le lt. each i (omega arith) (omega arith)) t inv' in
      (u, rw run run', inv'', λ g. keep' (keep g))

  pub for_range-Reaches :
      (body : ℕ → S → Result Panic S) (n first at : ℕ)
      → first ≤ at
      → at < first + n
      → ((i : ℕ) → first ≤ i → i < first + n → Keeps (body i))
      → Reaches (body at)
      → Reaches (for_range first n body)
  unfolding for_range
  for_range-Reaches body zero first at le lt each here s inv = absurd (omega arith)
  for_range-Reaches body (suc n) first at le lt each here s inv = elim (eq-cases first at) [
    | inl same ↦
        let (t, run, inv', goal) = here s inv in
        let (u, run', inv'', keep') =
          for_range-Keeps body n (suc first) (λ i le lt. each i (omega arith) (omega arith)) t
            inv' in
        let run_first = rw (sym same) at run in (u, rw run_first run', inv'', keep' goal)
    | inr other ↦
        let (t, run, inv', keep) = each first (omega arith) (omega arith) s inv in
        let (u, run', inv'', goal) =
          for_range-Reaches body n (suc first) at (omega arith) (omega arith)
            (λ i le lt. each i (omega arith) (omega arith)) here t inv' in
        (u, rw run run', inv'', goal)
  ]
