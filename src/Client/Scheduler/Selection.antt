-- ===== src/Client/Scheduler/Selection.antt =====
-- Which client is selected.
use bic_os.Base.{
  ℕ, suc, ◌≡◌, ◌⊎◌, refl, sym, ap, ◌∙◌, Bool, true, false, Option, none, some, List, [], ◌∷◌, All,
  get_elem?, ok, >>=-eq-ok, ok-injective, Bool-cases, inl, inr,
}
use bic_os.Client.Scheduler.{
  World, GroupHandle, Updated, update_all, next_error, better, next_client, client_of,
  select_client,
}

-- What is documented of the order of numbers that are not NaN.
pub record IsOrder {F : Type 0} (ge : F → F → Bool) : Type 0 where
  pub trans : (a b c : F) → ge a b ≡ true → ge b c ≡ true → ge a c ≡ true
  pub total : (a b : F) → ge a b ≡ false → ge b a ≡ true

-- What a group puts up: its active client with the error of its share.
abbrev pub offer : {F : Type 0} → Option ℕ → F → Option (ℕ × F)
offer none e = none
offer (some c) e = some (c, e)

module _ {F : Type 0} (ge : F → F → Bool) where
  -- The second one is at least as good: its error is not greater. Anything is better than nothing.
  abbrev pub Under : Option (ℕ × F) → Option (ℕ × F) → Type 0
  Under none b = Unit {0}
  Under (some (c, e)) none = ⊥
  Under (some (c, e)) (some (d, f)) = ge e f ≡ true

  abbrev pub offered : (F → ℕ → ℕ → F) → ℕ → ℕ → GroupHandle F → Option (ℕ × F)
  offered error_of total delta g = offer g.active (next_error error_of ge total delta g)

  module _ (order : IsOrder ge) where
    ge_refl : (e : F) → ge e e ≡ true
    ge_refl e = elim (Bool-cases (ge e e)) [
      | inl yes_it ↦ yes_it
      | inr no_it ↦ order.total e e no_it
    ]

    Under-refl : (a : Option (ℕ × F)) → Under a a
    Under-refl none = tt
    Under-refl (some (c, e)) = ge_refl e

    Under-trans : (a b c : Option (ℕ × F)) → Under a b → Under b c → Under a c
    Under-trans none b c p q = tt
    Under-trans (some a) none c p q = absurd p
    Under-trans (some a) (some b) none p q = absurd q
    Under-trans (some (a, e)) (some (b, f)) (some (c, g)) p q = order.trans e f g p q

    better-lem :
        (error_of : F → ℕ → ℕ → F) (found : Option (ℕ × F)) (active : Option ℕ) (e : F)
        → Under found (better error_of ge found active e)
          × Under (offer active e) (better error_of ge found active e)
          × ((better error_of ge found active e ≡ found)
              ⊎ (better error_of ge found active e ≡ offer active e))
    unfolding better
    better-lem error_of none none e = (tt, tt, inl refl)
    better-lem error_of (some (c, f)) none e = (ge_refl f, tt, inl refl)
    better-lem error_of none (some c) e = (tt, ge_refl e, inr refl)
    better-lem error_of (some (b, f)) (some c) e = elim (Bool-cases (ge f e)) [
      | inl less ↦ rw less (less, ge_refl e, inr refl)
      | inr more ↦ rw more (ge_refl f, order.total f e more, inl refl)
    ]

    module _ (error_of : F → ℕ → ℕ → F) (total delta : ℕ) where
      -- The loop ends in what it began with or in an offer, and no offer is better.
      next_client-lem :
          (gs : List (GroupHandle F)) (found : Option (ℕ × F))
          → Under found (next_client error_of ge total delta gs found)
            × All
                (λ g.
                  Under
                    (offered error_of total delta g)
                    (next_client error_of ge total delta gs found))
                gs
            × ((next_client error_of ge total delta gs found ≡ found)
                ⊎ ((i : ℕ) × (g : GroupHandle F) × (get_elem? gs i ≡ some g)
                    × (next_client error_of ge total delta gs found
                        ≡ offered error_of total delta g)))
      unfolding next_client
      next_client-lem [] found = (Under-refl found, tt, inl refl)
      next_client-lem (g ∷ gs) found =
          let e = next_error error_of ge total delta g in
          let (kept, gained, one) = better-lem error_of found g.active e in
          let (over, all, which) = next_client-lem gs (better error_of ge found g.active e) in
          (
            Under-trans found _ _ kept over,
            (Under-trans (offered error_of total delta g) _ _ gained over, all),
            elim which [
              | inl same ↦ elim one [
                | inl before ↦ inl (same ∙ before)
                | inr here ↦ inr (0, g, refl, same ∙ here)
              ]
              | inr later ↦ inr (suc later.0, later.1, later.2, later.3)
            ],
          )

    -- Where the order of the errors is as documented (none is NaN): `select_client` returns the client
    -- of a best offer. Every group that has an active client offers it with the error of its share;
    -- the best offer is one of these, and no error is smaller. If there is none, no group has an
    -- active client.
    pub select_client-Under :
        (error_of : F → ℕ → ℕ → F) (w : World) (gs : List (GroupHandle F)) (delta : ℕ)
        → (next : Option ℕ) (all : Updated F)
        → select_client error_of ge w gs delta ≡ ok (next, all)
        → (best : Option (ℕ × F)) × (next ≡ client_of best)
          × All (λ g. Under (offered error_of all.total delta g) best) all.groups
          × ((best ≡ none)
              ⊎ ((i : ℕ) × (g : GroupHandle F) × (get_elem? all.groups i ≡ some g)
                  × (best ≡ offered error_of all.total delta g)))
    unfolding select_client
    select_client-Under error_of w gs delta next all e =
        let (all', run, last) = >>=-eq-ok (update_all w gs) _ e in
        let same = ok-injective _ _ last in
        let groups : all' ≡ all = ap (λ r. r.1) same in
        let selected = ap (λ r. r.0) same in
        let selected' = rw groups at selected in
        let (over, each, which) = next_client-lem error_of all.total delta all.groups none in
        (next_client error_of ge all.total delta all.groups none, sym selected', each, which)
