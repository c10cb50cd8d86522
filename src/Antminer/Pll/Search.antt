-- ===== src/Antminer/Pll/Search.antt =====
-- What is used of the binary search of the standard library, and of ascending tables.
use mathlib.Core.Option.{some-injective}
use bic_os.Base.{
  ℕ, zero, suc, ◌<◌, ◌≤◌, ◌≡◌, refl, sym, ap, ◌∙◌, some, List, [], ◌∷◌, length, get_elem?, All,
  arith,
}
use bic_os.Antminer.Pll.{PllFrequency, Found, found, insert}
use bic_os.Antminer.Pll.Order.{Ascending}

-- What is documented of the binary search in a sorted slice: it returns the index of a match, or,
-- if there is none, the index where one could be inserted so that the order is kept.
pub record IsBinarySearch (search : List PllFrequency → ℕ → Found) : Type 0 where
  pub of_match :
      (plls : List PllFrequency) (target i : ℕ)
      → Ascending plls
      → search plls target ≡ found i
      → (p : PllFrequency) × (get_elem? plls i ≡ some p) × (p.frequency ≡ target)
  pub bound :
      (plls : List PllFrequency) (target i : ℕ)
      → Ascending plls
      → search plls target ≡ insert i
      → i ≤ length plls
  pub before :
      (plls : List PllFrequency) (target i j : ℕ) (p : PllFrequency)
      → Ascending plls
      → search plls target ≡ insert i
      → get_elem? plls j ≡ some p
      → j < i
      → p.frequency < target
  pub after :
      (plls : List PllFrequency) (target i j : ℕ) (p : PllFrequency)
      → Ascending plls
      → search plls target ≡ insert i
      → get_elem? plls j ≡ some p
      → i ≤ j
      → target < p.frequency

pub All-get_elem? :
    (P : PllFrequency → Type 0) (ps : List PllFrequency) (i : ℕ) (p : PllFrequency)
    → All P ps
    → get_elem? ps i ≡ some p
    → P p
All-get_elem? P [] i p all at = absurd (cc)
All-get_elem? P (q ∷ ps) zero p (here, rest) at = rw (some-injective _ _ (sym at)) here
All-get_elem? P (q ∷ ps) (suc i) p (here, rest) at = All-get_elem? P ps i p rest at

pub Ascending-le :
    (ps : List PllFrequency) (i j : ℕ) (p q : PllFrequency)
    → Ascending ps
    → get_elem? ps i ≡ some p
    → get_elem? ps j ≡ some q
    → i ≤ j
    → p.frequency ≤ q.frequency
Ascending-le [] i j p q asc at_i at_j le = absurd (cc)
Ascending-le (x ∷ ps) zero zero p q asc at_i at_j le =
    let same : p ≡ q = some-injective _ _ (sym at_i ∙ at_j) in
    let equal = ap (λ r. r.frequency) same in omega arith
Ascending-le (x ∷ ps) zero (suc j) p q (above, asc) at_i at_j le =
    let same : x ≡ p = some-injective _ _ at_i in
    let lt = All-get_elem? (λ r. x.frequency < r.frequency) ps j q above at_j in
    let equal = ap (λ r. r.frequency) same in omega arith
Ascending-le (x ∷ ps) (suc i) zero p q asc at_i at_j le = absurd (omega arith)
Ascending-le (x ∷ ps) (suc i) (suc j) p q (above, asc) at_i at_j le =
    Ascending-le ps i j p q asc at_i at_j (omega arith)

pub get_elem?-All :
    (P : PllFrequency → Type 0) (ps : List PllFrequency)
    → ((j : ℕ) (q : PllFrequency) → get_elem? ps j ≡ some q → P q)
    → All P ps
get_elem?-All P [] each = tt
get_elem?-All P (q ∷ ps) each = (each 0 q refl, get_elem?-All P ps (λ j r at. each (suc j) r at))
