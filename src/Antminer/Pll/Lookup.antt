-- ===== src/Antminer/Pll/Lookup.antt =====
-- What `lookup_freq` finds in an ascending table.
use bic_os.Base.{
  ℕ, zero, suc, ◌-◌, ◌<◌, ◌≤◌, ◌≡◌, ◌⊎◌, ◌↔◌, false, refl, sym, ap, ◌∙◌, some, List, length,
  get_elem?, All, Result, ok, err, ok-injective, arith, leb, ltb, ◌==◌, get_elem?-lt, lt-get_elem?,
  le→leb, ltb→lt, Bool-cases, inl, inr,
}
use bic_os.Antminer.Pll.{
  PllFrequency, distance, Found, found, insert, LookupError, out_of_range, index, closer, pick,
  lookup_freq,
}
use bic_os.Antminer.Pll.Order.{Ascending}
use bic_os.Antminer.Pll.Search.{IsBinarySearch, All-get_elem?, Ascending-le, get_elem?-All}

-- Nothing in a list is nearer to a frequency.
abbrev pub Nearest : List PllFrequency → ℕ → PllFrequency → Type 0
Nearest plls target p = All (λ q. distance p.frequency target ≤ distance q.frequency target) plls

closer-le :
    (low high q : PllFrequency) (target : ℕ)
    → low.frequency < target
    → target < high.frequency
    → (q.frequency ≤ low.frequency) ⊎ (high.frequency ≤ q.frequency)
    → distance (closer low high target).frequency target ≤ distance q.frequency target
unfolding closer distance
closer-le low high q target lt gt (inl le) = ground (arith, lt, gt, le)
closer-le low high q target lt gt (inr ge) = ground (arith, lt, gt, ge)

closer-cases :
    (low high : PllFrequency) (target : ℕ)
    → (closer low high target ≡ low) ⊎ (closer low high target ≡ high)
unfolding closer
closer-cases low high target =
    elim (Bool-cases (leb (distance low.frequency target) (distance high.frequency target))) [
      | inl near ↦ inl (rw near refl)
      | inr far ↦ inr (rw far refl)
    ]

module _ (search : List PllFrequency → ℕ → Found) (searches : IsBinarySearch search)
    (plls : List PllFrequency) (ascending : Ascending plls) (target : ℕ) where
  found-ok :
      (i : ℕ)
      → search plls target ≡ found i
      → (p : PllFrequency) × (pick plls target (found i) ≡ ok p)
        × (get_elem? plls i ≡ some p)
        × (p.frequency ≡ target)
  unfolding pick index
  found-ok i where_is =
      let (p, at, match) = searches.of_match plls target i ascending where_is in
      (p, rw at refl, at, match)

  insert-first : pick plls target (insert 0) ≡ err out_of_range
  unfolding pick
  insert-first = refl

  insert-out : (i : ℕ) → length plls ≤ suc i → pick plls target (insert (suc i)) ≡ err out_of_range
  unfolding pick
  insert-out i le =
      let out = le→leb (length plls) (suc i) le in
      let positive : suc i == 0 ≡ false = ground arith in rw (positive, out) refl

  insert-in :
      (i : ℕ)
      → suc i < length plls
      → (low : PllFrequency) × (high : PllFrequency) × (get_elem? plls i ≡ some low)
        × (get_elem? plls (suc i) ≡ some high)
        × (pick plls target (insert (suc i)) ≡ ok (closer low high target))
  unfolding pick index
  insert-in i lt =
      let (low, at_low) = get_elem?-lt plls i (omega arith) in
      let (high, at_high) = get_elem?-lt plls (suc i) lt in
      let inside : leb (length plls) (suc i) ≡ false = ground (arith, lt) in
      let back : suc i - 1 ≡ i = omega arith in
      let positive : suc i == 0 ≡ false = ground arith in
      (low, high, at_low, at_high, rw (positive, inside, back) (rw (at_low, at_high) refl))

  -- The cases of a lookup: a match, two neighbours, or everything on one side.
  data Outcome (r : Result LookupError PllFrequency) : Type 0 where
    exact :
        (p : PllFrequency) (i : ℕ)
        → r ≡ ok p
        → get_elem? plls i ≡ some p
        → p.frequency ≡ target
        → Outcome r
    between :
        (low high : PllFrequency) (i : ℕ)
        → r ≡ ok (closer low high target)
        → get_elem? plls i ≡ some low
        → get_elem? plls (suc i) ≡ some high
        → low.frequency < target
        → target < high.frequency
        → Outcome r
    under : r ≡ err out_of_range → All (λ q. target < q.frequency) plls → Outcome r
    over : r ≡ err out_of_range → All (λ q. q.frequency < target) plls → Outcome r

  pick-Outcome : (f : Found) → search plls target ≡ f → Outcome (pick plls target f)
  pick-Outcome (found i) where_is =
      let (p, run, at, match) = found-ok i where_is in exact p i run at match
  pick-Outcome (insert zero) where_to = under insert-first (
      get_elem?-All _ plls
        λ j q at. searches.after plls target 0 j q ascending where_to at (omega arith))
  pick-Outcome (insert (suc i)) where_to = elim (Bool-cases (ltb (suc i) (length plls))) [
    | inl inside ↦
        let (low, high, at_low, at_high, run) = insert-in i (ltb→lt _ _ inside) in
        between low high i run at_low at_high
          (searches.before plls target (suc i) i low ascending where_to at_low (omega arith))
          (searches.after plls target (suc i) (suc i) high ascending where_to at_high (omega arith))
    | inr outside ↦
        let le : length plls ≤ suc i = ground (arith, outside) in
        over (insert-out i le) (
          get_elem?-All _ plls λ j q at.
            let lt = lt-get_elem? plls j q at in
            searches.before plls target (suc i) j q ascending where_to at (omega arith))
  ]

  lookup_freq-Outcome : Outcome (lookup_freq search plls target)
  unfolding lookup_freq
  lookup_freq-Outcome = pick-Outcome (search plls target) refl

  Outcome-Nearest :
      (r : Result LookupError PllFrequency) (p : PllFrequency)
      → Outcome r
      → r ≡ ok p
      → Nearest plls target p × (i : ℕ) × (get_elem? plls i ≡ some p)
  unfolding distance
  Outcome-Nearest r p (exact q i run at match) e =
      let same : q ≡ p = ok-injective _ _ (sym run ∙ e) in
      let at' = rw same at at in
      let match' = ap (λ x. x.frequency) same in
      (get_elem?-All _ plls λ j x at_x. ground (arith, match, match'), i, at')
  Outcome-Nearest r p (between low high i run at_low at_high lt gt) e =
      let same : closer low high target ≡ p = ok-injective _ _ (sym run ∙ e) in
      let in_table : (j : ℕ) × (get_elem? plls j ≡ some (closer low high target)) =
        elim (closer-cases low high target) [
          | inl low_one ↦ (i, rw low_one at_low)
          | inr high_one ↦ (suc i, rw high_one at_high)
        ] in
      rw (sym same) (
        get_elem?-All _ plls λ j q at. elim (Bool-cases (leb j i)) [
          | inl below ↦
              let le = Ascending-le plls j i q low ascending at at_low (ground (arith, below)) in
              closer-le low high q target lt gt (inl le)
          | inr beyond ↦
              let ge =
                Ascending-le plls (suc i) j high q ascending at_high at (ground (arith, beyond)) in
              closer-le low high q target lt gt (inr ge)
        ],
        in_table.0,
        in_table.1,
      )
  Outcome-Nearest r p (under run all) e = absurd (let clash = sym run ∙ e in cc)
  Outcome-Nearest r p (over run all) e = absurd (let clash = sym run ∙ e in cc)

  Outcome-err :
      (r : Result LookupError PllFrequency)
      → Outcome r
      → ((e : LookupError) × (r ≡ err e))
        ↔ (All (λ q. target < q.frequency) plls ⊎ All (λ q. q.frequency < target) plls)
  Outcome-err r (exact p i run at match) = (
    λ (e, fails). absurd (let clash = sym run ∙ fails in cc),
    λ all. elim all [
      | inl above ↦ let gt = All-get_elem? _ plls i p above at in absurd (omega (arith, gt, match))
      | inr below ↦ let lt = All-get_elem? _ plls i p below at in absurd (omega (arith, lt, match))
    ],
  )
  Outcome-err r (between low high i run at_low at_high lt gt) = (
    λ (e, fails). absurd (let clash = sym run ∙ fails in cc),
    λ all. elim all [
      | inl above ↦ let a = All-get_elem? _ plls i low above at_low in absurd (omega (arith, a, lt))
      | inr below ↦
          let b = All-get_elem? _ plls (suc i) high below at_high in absurd (omega (arith, b, gt))
    ],
  )
  Outcome-err r (under run all) = (λ fails. inl all, λ out. (out_of_range, run))
  Outcome-err r (over run all) = (λ fails. inr all, λ out. (out_of_range, run))

module _ (search : List PllFrequency → ℕ → Found) (searches : IsBinarySearch search)
    (table : List PllFrequency) (ascending : Ascending table) where
  -- Where the binary search is as documented, what `lookup_freq` returns from an ascending table
  -- stands in the table, and nothing in the table is nearer to the frequency.
  pub lookup_freq-Nearest :
      (target : ℕ) (p : PllFrequency)
      → lookup_freq search table target ≡ ok p
      → Nearest table target p × (i : ℕ) × (get_elem? table i ≡ some p)
  lookup_freq-Nearest target p e =
      Outcome-Nearest search searches table ascending target _ p
        (lookup_freq-Outcome search searches table ascending target) e

  -- Where the binary search is as documented, `lookup_freq` in an ascending table fails if and only
  -- if the frequency is below all those of the table or above all of them.
  pub lookup_freq-err_iff :
      (target : ℕ)
      → ((e : LookupError) × (lookup_freq search table target ≡ err e))
        ↔ (All (λ q. target < q.frequency) table ⊎ All (λ q. q.frequency < target) table)
  lookup_freq-err_iff target =
      Outcome-err search searches table ascending target _
        (lookup_freq-Outcome search searches table ascending target)
