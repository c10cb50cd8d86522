-- ===== src/Antminer/Registry/History.antt =====
-- The registry as its users see it: what `find_work` answers after any stores.
use native.Mathlib.Nat.{mod-lt}
use bic_os.Base.{
  ℕ, ◌%◌, ◌≤◌, ◌<◌, ◌≡◌, ◌≢◌, ap, ◌∙◌, Bool, true, false, some, none, List, [], ok, err, ltb,
  lt→ltb, arith, length, get_elem?,
}
use bic_os.Antminer.Registry.{WorkRegistry, bad_id, new, fresh, find_work, store_all}
use bic_os.Antminer.Registry.Lifetime.{Live, Holds, new-Holds, store_all-Holds}

-- What users find: the live work under its id, nothing under any other id, and a panic beyond.
pub record Answers {W : Type 0} (n : ℕ) (h : List (W × Bool)) (r : WorkRegistry W) : Type 0 where
  pub found :
      (j : ℕ) (w : W) (initial : Bool)
      → Live n (length h) j
      → get_elem? h j ≡ some (w, initial)
      → find_work r (j % n) ≡ ok (some (fresh w initial))
  pub nothing :
      (i : ℕ) → i < n → ((j : ℕ) → Live n (length h) j → j % n ≢ i) → find_work r i ≡ ok none
  pub refused : (i : ℕ) → n ≤ i → find_work r i ≡ err bad_id

module _ {W : Type 0} where
  Holds-Answers :
      (n : ℕ) (h : List (W × Bool)) (r : WorkRegistry W) → 0 < n → Holds n h r → Answers n h r
  unfolding find_work
  Holds-Answers n h r pos holds = record {
    found = λ j w initial live e.
        let inside : ltb (j % n) r.registry_size ≡ true =
          lt→ltb _ _ (rw holds.size (mod-lt j pos)) in
        rw inside (rw (holds.held j w initial live e));
    nothing = λ i lt none_due.
        let inside : ltb i r.registry_size ≡ true = lt→ltb _ _ (rw holds.size lt) in
        rw inside (rw (holds.free i lt none_due));
    refused = λ i le.
        let outside : ltb i r.registry_size ≡ false = ground (arith, holds.size) in rw outside;
  }

  -- Any work stored in a new registry of at least one slot gets the ids from 0 on, modulo the size,
  -- without a panic; afterwards `find_work` gives each work that is still live, with no solutions
  -- yet, gives nothing for an id of the range where no live work is due, and panics beyond it.
  pub find_work-store_all :
      (n : ℕ) (ws : List (W × Bool))
      → 0 < n
      → (ids : List ℕ) × (r : WorkRegistry W) × (store_all (new n) ws ≡ ok (ids, r))
        × ((i : ℕ) → i < length ws → get_elem? ids i ≡ some (i % n))
        × Answers n ws r
  find_work-store_all n ws pos =
      let (ids, r, run, holds, places) = store_all-Holds n ws [] (new n) pos (new-Holds n pos) in
      (
        ids,
        r,
        run,
        λ i lt. places i lt ∙ ap (λ m. some (m % n)) (omega arith),
        Holds-Answers n ws r pos holds,
      )
