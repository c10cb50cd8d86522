-- ===== src/Antminer/Pll/Tests.antt =====
-- A search that meets the documentation, and a table of three frequencies.
use mathlib.Core.Option.{some-injective}
use mathlib.Core.Path.{subst}
use bic_os.Base.{
  ℕ, zero, suc, ◌*◌, ◌<◌, ◌≤◌, ◌≡◌, ◌⊎◌, ◌↔◌, ◌==◌, ==_iff, refl, ap, Bool-cases, inl, inr, some,
  List, [], ◌∷◌, length, get_elem?, All, ok, err, ltb, ltb→lt, arith, if◌then◌else◌,
}
use bic_os.Antminer.Pll.{
  PllReg, PllFrequency, divide, calc, distance, bin_of, divider, precompute_pll_table, Found, found,
  insert, LookupError, index, closer, pick, lookup_freq,
}
use bic_os.Antminer.Pll.Order.{
  Ascending, Given, precompute_pll_table-Ascending, precompute_pll_table-best,
}
use bic_os.Antminer.Pll.Search.{IsBinarySearch, All-get_elem?}
use bic_os.Antminer.Pll.Lookup.{Nearest, lookup_freq-Nearest, lookup_freq-err_iff}

abbrev bump : Found → Found
bump (found i) = found (suc i)
bump (insert i) = insert (suc i)

abbrev linear : List PllFrequency → ℕ → Found
linear [] target = insert 0
linear (p ∷ ps) target =
    let rest = linear ps target in
    if p.frequency == target
    then found 0
    else if ltb target p.frequency
    then insert 0
    else bump rest

-- What has to hold of a result.
abbrev Position : List PllFrequency → ℕ → Found → Type 0
Position plls target (found i) =
    (p : PllFrequency) × (get_elem? plls i ≡ some p) × (p.frequency ≡ target)
Position plls target (insert i) =
    (i ≤ length plls)
    × ((j : ℕ) (p : PllFrequency) → get_elem? plls j ≡ some p → j < i → p.frequency < target)
    × ((j : ℕ) (p : PllFrequency) → get_elem? plls j ≡ some p → i ≤ j → target < p.frequency)

bump-Position :
    (p : PllFrequency) (ps : List PllFrequency) (target : ℕ) (f : Found)
    → p.frequency < target
    → Position ps target f
    → Position (p ∷ ps) target (bump f)
bump-Position p ps target (found i) lt position = position
bump-Position p ps target (insert i) lt (bound, before, after) = (omega arith, before', after')
  where
    before' :
        (j : ℕ) (q : PllFrequency)
        → get_elem? (p ∷ ps) j ≡ some q
        → j < suc i
        → q.frequency < target
    before' zero q at le =
        let same : p.frequency ≡ q.frequency = ap (λ r. r.frequency) (some-injective _ _ at) in
        omega arith
    before' (suc j) q at le = before j q at (omega arith)

    after' :
        (j : ℕ) (q : PllFrequency)
        → get_elem? (p ∷ ps) j ≡ some q
        → suc i ≤ j
        → target < q.frequency
    after' zero q at le = absurd (omega arith)
    after' (suc j) q at le = after j q at (omega arith)

linear-Position :
    (plls : List PllFrequency) (target : ℕ)
    → Ascending plls
    → Position plls target (linear plls target)
linear-Position [] target asc =
    (omega arith, λ j p at lt. absurd (omega arith), λ j p at le. absurd (cc))
linear-Position (p ∷ ps) target (above, asc) = elim (Bool-cases (p.frequency == target)) [
  | inl same ↦ rw same (p, refl, (==_iff _ _).0 same)
  | inr other ↦ elim (Bool-cases (ltb target p.frequency)) [
    | inl lt ↦
        rw (other, lt) (omega arith, λ j q at le. absurd (omega arith), beyond (ltb→lt _ _ lt))
    | inr ge ↦
        rw (other, ge)
          (bump-Position p ps target (linear ps target) (ground (arith, other, ge))
            (linear-Position ps target asc))
  ]
]
  where
    beyond :
        target < p.frequency
        → (j : ℕ) (q : PllFrequency) → get_elem? (p ∷ ps) j ≡ some q
        → 0 ≤ j
        → target < q.frequency
    beyond lt zero q at le =
        let same : p.frequency ≡ q.frequency = ap (λ r. r.frequency) (some-injective _ _ at) in
        omega arith
    beyond lt (suc j) q at le =
        let more = All-get_elem? (λ r. p.frequency < r.frequency) ps j q above at in omega arith

linear-IsBinarySearch : IsBinarySearch linear
linear-IsBinarySearch = record {
  of_match =
      λ plls target i asc e. subst (Position plls target) e (linear-Position plls target asc);
  bound =
      λ plls target i asc e. (subst (Position plls target) e (linear-Position plls target asc)).0;
  before = λ plls target i j p asc e at lt.
      (subst (Position plls target) e (linear-Position plls target asc)).1 j p at lt;
  after = λ plls target i j p asc e at le.
      (subst (Position plls target) e (linear-Position plls target asc)).2 j p at le;
}

abbrev pll : ℕ → PllReg → PllFrequency
pll frequency reg = record { frequency = frequency; reg = reg }

abbrev pll650 : PllFrequency
pll650 = pll 650000000 (divider 1 2 1 52)

abbrev three : List PllFrequency
three = pll 100000000 (divider 1 25 1 100) ∷ pll650 ∷ pll 1200000000 (divider 1 2 1 96) ∷ []

three-Ascending : Ascending three
three-Ascending = ((omega arith, (omega arith, tt)), ((omega arith, tt), (tt, tt)))

found650 : lookup_freq linear three 651000000 ≡ ok pll650
unfolding lookup_freq pick index closer distance
found650 = refl

lookup_freq-Nearest_example :
    Nearest three 651000000 pll650 × (i : ℕ) × (get_elem? three i ≡ some pll650)
lookup_freq-Nearest_example =
    lookup_freq-Nearest linear linear-IsBinarySearch three three-Ascending 651000000 pll650 found650

lookup_freq-err_iff_example :
    ((e : LookupError) × (lookup_freq linear three 99000000 ≡ err e))
    ↔ (All (λ q. 99000000 < q.frequency) three ⊎ All (λ q. q.frequency < 99000000) three)
lookup_freq-err_iff_example =
    lookup_freq-err_iff linear linear-IsBinarySearch three three-Ascending 99000000

-- The oscillator of the chips.
precompute_pll_table-Ascending_example :
    (table : List PllFrequency) × (precompute_pll_table 25000000 ≡ ok table)
    × Ascending table
    × All (Given 25000000) table
precompute_pll_table-Ascending_example = precompute_pll_table-Ascending 25000000

abbrev table : List PllFrequency
table = (precompute_pll_table-Ascending 25000000).0

calc650 : calc (divider 1 2 1 52) 25000000 ≡ ok 650000000
unfolding calc divide
calc650 = refl

bin650 : bin_of 650000000 ≡ 650
unfolding bin_of
bin650 = refl

precompute_pll_table-best_example :
    (i : ℕ) × (p : PllFrequency) × (get_elem? table i ≡ some p)
    × (bin_of p.frequency ≡ bin_of 650000000)
    × (distance (bin_of 650000000 * 1000000) p.frequency
        ≤ distance (bin_of 650000000 * 1000000) 650000000)
precompute_pll_table-best_example =
    precompute_pll_table-best 25000000 table (divider 1 2 1 52) 650000000
      (precompute_pll_table-Ascending 25000000).1
      (
        omega arith,
        omega arith,
        omega arith,
        omega arith,
        omega arith,
        omega arith,
        omega arith,
        omega arith,
      )
      calc650 (omega (arith, bin650)) (omega (arith, bin650))
