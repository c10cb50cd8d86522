-- ===== src/Antminer/Monitor/Decision/Maximum.antt =====
-- The temperature of the miner is as dangerous as that of any chain.
use mathlib.Core.Option.{some-injective}
use bic_os.Base.{
  ℕ, zero, suc, ◌≡◌, refl, ◌⊎◌, inl, inr, true, Option, none, some, List, [], ◌∷◌, get_elem?,
  Option-cases,
}
use bic_os.Antminer.Monitor.{Floats, TempControlConfig}
use bic_os.Antminer.Monitor.Chain.{ChainTemperature, unknown, failed, known}
use bic_os.Antminer.Monitor.Decision.{calc_result, collect, fold_max, aggregate}
use bic_os.Antminer.Monitor.Decision.Safety.{Dangerous, lost, hot}

-- What `f32::max` does to a comparison: the larger of two numbers reaches what either reaches, and a
-- number that is compared successfully is no NaN.
pub record IsFloats {F : Type 0} (f : Floats F) : Type 0 where
  pub max_left : (a b d : F) → f.ge a d ≡ true → f.ge (f.max a b) d ≡ true
  pub max_right : (a b d : F) → f.ge b d ≡ true → f.ge (f.max a b) d ≡ true

module _ {F : Type 0} (f : Floats F) (laws : IsFloats f) where
  fold_max-ge : (ts : List F) (a d : F) → f.ge a d ≡ true → f.ge (fold_max f a ts) d ≡ true
  unfolding fold_max
  fold_max-ge [] a d h = h
  fold_max-ge (t ∷ ts) a d h = fold_max-ge ts (f.max a t) d (laws.max_left a t d h)

  fold_max-member :
      (ts : List F) (a d x : F) (k : ℕ)
      → get_elem? ts k ≡ some x
      → f.ge x d ≡ true
      → f.ge (fold_max f a ts) d ≡ true
  unfolding fold_max
  fold_max-member [] a d x k e h = absurd (cc)
  fold_max-member (t ∷ ts) a d x zero e h =
      fold_max-ge ts (f.max a t) d (laws.max_right a t d (rw (some-injective _ _ e) h))
  fold_max-member (t ∷ ts) a d x (suc k) e h = fold_max-member ts (f.max a t) d x k e h

  collect-failed :
      (temps : List (ChainTemperature F)) (i : ℕ)
      → get_elem? temps i ≡ some failed
      → collect f temps ≡ none
  unfolding collect
  collect-failed [] i e = cc
  collect-failed (failed ∷ temps) i e = refl
  collect-failed (unknown ∷ temps) zero e = cc
  collect-failed (unknown ∷ temps) (suc i) e = collect-failed temps i e
  collect-failed (known t ∷ temps) zero e = cc
  collect-failed (known t ∷ temps) (suc i) e = rw (collect-failed temps i e)

  -- A measurement is collected, unless a chain failed.
  abbrev Has : Option (List F) → F → Type 0
  Has o x = (o ≡ none) ⊎ ((ts : List F) × (k : ℕ) × (o ≡ some ts) × (get_elem? ts k ≡ some x))

  more-Has :
      (t x : F) (temps : List (ChainTemperature F))
      → Has (collect f temps) x
      → Has (collect f (known t ∷ temps)) x
  unfolding collect
  more-Has t x temps (inl none_left) = inl (rw none_left)
  more-Has t x temps (inr (ts, k, e, at)) = inr (t ∷ ts, suc k, rw e, at)

  first-Has : (t : F) (temps : List (ChainTemperature F)) → Has (collect f (known t ∷ temps)) t
  unfolding collect
  first-Has t temps = elim (Option-cases (collect f temps)) [
    | inl none_left ↦ inl (rw none_left)
    | inr (ts, e) ↦ inr (t ∷ ts, 0, rw e, refl)
  ]

  collect-known :
      (temps : List (ChainTemperature F)) (i : ℕ) (x : F)
      → get_elem? temps i ≡ some (known x)
      → Has (collect f temps) x
  unfolding collect
  collect-known [] i x e = absurd (cc)
  collect-known (failed ∷ temps) i x e = inl refl
  collect-known (unknown ∷ temps) zero x e = absurd (cc)
  collect-known (unknown ∷ temps) (suc i) x e = collect-known temps i x e
  collect-known (known t ∷ temps) zero x e =
      let same : t ≡ x = cc in rw (← same) (first-Has t temps)
  collect-known (known t ∷ temps) (suc i) x e = more-Has t x temps (collect-known temps i x e)

  -- A dangerous temperature of one chain makes the temperature of the miner dangerous.
  pub calc_result-Dangerous :
      (c : TempControlConfig F) (temps : List (ChainTemperature F)) (i : ℕ) (t : ChainTemperature F)
      → get_elem? temps i ≡ some t
      → Dangerous f c t
      → Dangerous f c (calc_result f temps)
  unfolding calc_result aggregate
  calc_result-Dangerous c temps i t e lost = rw (collect-failed temps i e) lost
  calc_result-Dangerous c temps i t e (hot x h) = elim (collect-known temps i x e) [
    | inl none_left ↦ rw none_left lost
    | inr ([], k, es, at) ↦ absurd (cc)
    | inr (y ∷ ts, k, es, at) ↦
        rw es (hot _ (fold_max-member (y ∷ ts) f.zero c.dangerous_temp x k at h))
  ]
