-- ===== src/Antminer/Counters/Sums.antt =====
-- Sums of a figure over a list, and changes of one element.
use bic_os.Base.{
  ℕ, zero, suc, ◌+◌, ◌%◌, ◌^◌, ◌<◌, ◌≡◌, refl, List, [], ◌∷◌, Result, ok, arith, length, replicate,
  All,
}
use bic_os.Antminer.Counters.{Panic, change}

-- The sum of a figure over a list.
unfoldable pub total : {A : Type 0} → (A → ℕ) → List A → ℕ
total f [] = 0
total f (a ∷ xs) = f a + total f xs

-- A change that adds to one figure and leaves another: both sums, modulo the size of a word.
pub record Added {A : Type 0} (f g : A → ℕ) (d : ℕ) (xs ys : List A) : Type 0 where
  pub same_length : length ys ≡ length xs
  pub more : total f ys % 2 ^ 32 ≡ (total f xs + d) % 2 ^ 32
  pub same : total g ys % 2 ^ 32 ≡ total g xs % 2 ^ 32

module _ {A : Type 0} (f g : A → ℕ) (d : ℕ) (P : A → Type 0) (step : A → Result Panic A)
    (good : (a : A)
      → P a
      → (b : A) × (step a ≡ ok b) × P b × (f b ≡ (f a + d) % 2 ^ 32) × (g b ≡ g a)) where
  pub change-Added :
      (xs : List A) (i : ℕ)
      → All P xs
      → i < length xs
      → (ys : List A) × (change xs i step ≡ ok ys) × All P ys × Added f g d xs ys
  unfolding change total
  change-Added [] i h lt = absurd (omega arith)
  change-Added (x ∷ xs) zero h lt =
      let (b, e, p, fb, gb) = good x h.0 in
      (
        b ∷ xs,
        rw e,
        (p, h.1),
        record { same_length = refl; more = omega (arith, fb); same = omega (arith, gb) },
      )
  change-Added (x ∷ xs) (suc i) h lt =
      let (ys, e, ps, added) = change-Added xs i h.1 (omega arith) in
      (
        x ∷ ys,
        rw e,
        (h.0, ps),
        record {
          same_length = omega (arith, added.same_length);
          more = omega (arith, added.more);
          same = omega (arith, added.same);
        },
      )

abbrev pub Any : {A : Type 0} → A → Type 0
Any a = Unit {0}

pub All-Any : {A : Type 0} (xs : List A) → All Any xs
All-Any [] = tt
All-Any (x ∷ xs) = (tt, All-Any xs)

pub total-replicate :
    {A : Type 0} (f : A → ℕ) (n : ℕ) (a : A) → f a ≡ 0 → total f (replicate n a) ≡ 0
unfolding total
total-replicate f zero a e = refl
total-replicate f (suc n) a e = omega (arith, total-replicate f n a e)

pub All-replicate : {A : Type 0} (P : A → Type 0) (n : ℕ) (a : A) → P a → All P (replicate n a)
All-replicate P zero a p = tt
All-replicate P (suc n) a p = (p, All-replicate P n a p)
