-- ===== src/Antminer/Registry/Duplicates.antt =====
-- No nonce is kept twice for the same work.
use mathlib.Core.Option.{some-injective}
use bic_os.Base.{
  ℕ, ◌≡◌, refl, ap, zero, suc, append-nil, append_assoc, get_elem?, take, Bool, true, false, some,
  List, [], ◌∷◌, ◌++◌, ◌==◌, Bool-cases, inl, inr, arith, if◌then◌else◌,
}
use bic_os.Antminer.Registry.{
  Solution, WorkRegistryItem, has_nonce, insert_solution, insert_all, fresh,
}

-- No solution has the nonce of a later one.
abbrev pub IsDistinct : List Solution → Type 0
IsDistinct [] = Unit {0}
IsDistinct (s ∷ ss) = (has_nonce s.nonce ss ≡ false) × IsDistinct ss

has_nonce-append :
    (n : ℕ) (ss : List Solution) (s : Solution)
    → has_nonce n (ss ++ (s ∷ [])) ≡ (if has_nonce n ss then true else s.nonce == n)
unfolding has_nonce
has_nonce-append n [] s = ground arith
has_nonce-append n (x ∷ ss) s = ground (arith, has_nonce-append n ss s)

has_nonce-equal : (n m : ℕ) (ss : List Solution) → n ≡ m → has_nonce n ss ≡ has_nonce m ss
has_nonce-equal n m ss e = ap (λ k. has_nonce k ss) e

pub append-IsDistinct :
    (ss : List Solution) (s : Solution)
    → IsDistinct ss
    → has_nonce s.nonce ss ≡ false
    → IsDistinct (ss ++ (s ∷ []))
unfolding has_nonce
append-IsDistinct [] s d h = (refl, tt)
append-IsDistinct (x ∷ ss) s d h =
    (ground (arith, has_nonce-append x.nonce ss s), append-IsDistinct ss s d.1 (ground arith))

-- An item after solutions were inserted: it keeps one for each nonce among them, and no other.
pub record Keeps {W : Type 0} (h : List Solution) (item : WorkRegistryItem W) : Type 0 where
  pub distinct : IsDistinct item.solutions
  pub same_nonces : (n : ℕ) → has_nonce n item.solutions ≡ has_nonce n h

module _ {W : Type 0} where
  insert_solution-Keeps :
      (item : WorkRegistryItem W) (h : List Solution) (s : Solution)
      → Keeps h item
      → Keeps (h ++ (s ∷ [])) (insert_solution item s).0
  unfolding insert_solution
  insert_solution-Keeps item h s old = elim (Bool-cases (has_nonce s.nonce item.solutions)) [
    | inl known ↦ record {
      distinct = rw known old.distinct;
      same_nonces = λ n. rw known (
          ground (
            arith,
            old.same_nonces n,
            old.same_nonces s.nonce,
            has_nonce-append n h s,
            has_nonce-equal n s.nonce h,
          ));
    }
    | inr unknown ↦ record {
      distinct = rw unknown (append-IsDistinct item.solutions s old.distinct unknown);
      same_nonces = λ n.
          rw (
            unknown,
            has_nonce-append n item.solutions s,
            has_nonce-append n h s,
            old.same_nonces n,
          );
    }
  ]

  insert_all-Keeps :
      (ss h : List Solution) (item : WorkRegistryItem W)
      → Keeps h item
      → Keeps (h ++ ss) (insert_all item ss).0
  unfolding insert_all
  insert_all-Keeps [] h item old = rw append-nil old
  insert_all-Keeps (x ∷ ss) h item old =
      let kept =
        insert_all-Keeps ss (h ++ (x ∷ [])) (insert_solution item x).0
          (insert_solution-Keeps item h x old) in
      rw append_assoc at kept

  insert_all_flags :
      (ss h : List Solution) (item : WorkRegistryItem W)
      → Keeps h item
      → (i : ℕ) (s : Solution) → get_elem? ss i ≡ some s
      → get_elem? (insert_all item ss).1 i ≡ some (has_nonce s.nonce (h ++ take i ss))
  unfolding insert_all insert_solution
  insert_all_flags [] h item old i s e = cc
  insert_all_flags (x ∷ ss) h item old zero s e =
      rw (append-nil, ← some-injective _ _ e) (ap some (old.same_nonces x.nonce))
  insert_all_flags (x ∷ ss) h item old (suc i) s e =
      let rest =
        insert_all_flags ss (h ++ (x ∷ [])) (insert_solution item x).0
          (insert_solution-Keeps item h x old) i s e in
      rw append_assoc at rest

  -- Of any solutions inserted into a new item one after the other, the item keeps one for each nonce
  -- among them and no other, none twice, and reports as duplicates exactly those whose nonce an
  -- earlier one had.
  pub insert_all_lem :
      (w : W) (initial : Bool) (ss : List Solution)
      → Keeps ss (insert_all (fresh w initial) ss).0
        × ((i : ℕ) (s : Solution)
            → get_elem? ss i ≡ some s
            → get_elem? (insert_all (fresh w initial) ss).1 i
              ≡ some (has_nonce s.nonce (take i ss)))
  insert_all_lem w initial ss =
      let start : Keeps [] (fresh w initial) = record { distinct = tt; same_nonces = λ n. refl } in
      (
        insert_all-Keeps ss [] (fresh w initial) start,
        insert_all_flags ss [] (fresh w initial) start,
      )
