-- ===== src/Antminer/Registry/Lifetime.antt =====
-- What the registry promises: which work it holds after any number of stores.
use mathlib.Core.Option.{some-injective}
use native.Mathlib.Nat.{mod-lt, mod-add-mod, add-mod_right, mod-eq_of_lt}
use bic_os.Base.{
  ℕ, zero, suc, ◌+◌, ◌-◌, ◌/◌, ◌%◌, ◌≤◌, ◌<◌, ◌≡◌, ◌≢◌, refl, ap, sym, ◌∙◌, inl, inr, Bool, true,
  false, Option, none, some, List, [], ◌∷◌, ◌++◌, ok, ltb, arith, length, get_elem?, set,
  length-set, length-replicate, lt→ltb, get_elem?-append_left, get_elem?-append_end,
  get_elem?-replicate, length-append, append-nil, append_assoc, ◌==◌, eq-cases,
}
use bic_os.Antminer.Registry.Slots.{ahead_ne, stored, stored-kept, stored-new, stored-retired}
use bic_os.Antminer.Registry.{
  WorkRegistry, WorkRegistryItem, new, alloc_next_work_id, fresh, store_work, store_all,
}

-- Work number `j` is held when `k` were stored: it came, and fewer than half the slots, rounded up,
-- were filled after it.
pub record Live (n k j : ℕ) : Type 0 where
  pub came : j < k
  pub recent : k ≤ j + (n - n / 2)

-- The registry after work was stored: each slot holds the live work that is due there, and no other.
pub record Holds {W : Type 0} (n : ℕ) (h : List (W × Bool)) (r : WorkRegistry W) : Type 0 where
  pub size : r.registry_size ≡ n
  pub next : r.next_work_id ≡ length h % n
  pub slots : length (r.pending_work_list) ≡ n
  pub held :
      (j : ℕ) (w : W) (initial : Bool)
      → Live n (length h) j
      → get_elem? h j ≡ some (w, initial)
      → get_elem? r.pending_work_list (j % n) ≡ some (some (fresh w initial))
  pub free :
      (i : ℕ)
      → i < n
      → ((j : ℕ) → Live n (length h) j → j % n ≢ i)
      → get_elem? r.pending_work_list i ≡ some none

-- Work that is live after a store and is not the stored one was live before.
still_Live : (n k j : ℕ) → Live n (suc k) j → j ≢ k → Live n k j
still_Live n k j live other = record {
  came = omega (arith, live.came);
  recent = omega (arith, live.recent);
}

-- Work that stops being live with a store is the work whose slot the store clears.
due_ne :
    (n k i : ℕ)
    → ((j : ℕ) → Live n (suc k) j → j % n ≢ i)
    → (k + n / 2) % n ≢ i
    → (j : ℕ) → Live n k j
    → j % n ≢ i
due_ne n k i none_due away j live = elim (eq-cases (j + n) (k + n / 2)) [
  | inl turn ↦ rw (← turn, add-mod_right) at away
  | inr earlier ↦
      none_due j (record { came = omega (arith, live.came); recent = omega (arith, live.recent) })
]

module _ {W : Type 0} where
  abbrev after : WorkRegistry W → W → Bool → WorkRegistry W
  after r w initial = record r {
    next_work_id = (r.next_work_id + 1) % r.registry_size;
    pending_work_list =
        set
          (set r.pending_work_list ((r.next_work_id + r.registry_size / 2) % r.registry_size) none)
          r.next_work_id (some (fresh w initial));
  }

  store_work-after :
      (r : WorkRegistry W) (w : W) (initial : Bool)
      → 0 < r.registry_size
      → r.next_work_id < r.registry_size
      → length r.pending_work_list ≡ r.registry_size
      → store_work r w initial ≡ ok (r.next_work_id, after r w initial)
  unfolding store_work alloc_next_work_id
  store_work-after r w initial pos lt len =
      let nonzero : (r.registry_size == 0) ≡ false = ground arith in
      let retire = (r.next_work_id + r.registry_size / 2) % r.registry_size in
      let in_list : ltb retire (length r.pending_work_list) ≡ true =
        rw len (lt→ltb _ _ (mod-lt _ pos)) in
      let still : length (set r.pending_work_list retire none) ≡ r.registry_size =
        length-set r.pending_work_list retire none ∙ len in
      let in_rest : ltb r.next_work_id (length (set r.pending_work_list retire none)) ≡ true =
        rw still (lt→ltb _ _ lt) in
      rw nonzero (rw in_list (rw in_rest))

  pub new-Holds : (n : ℕ) → 0 < n → Holds n [] (new {W = W} n)
  unfolding new
  new-Holds n pos = record {
    size = refl;
    next = sym (mod-eq_of_lt pos);
    slots = length-replicate n none;
    held = λ j w initial live e. absurd (omega (arith, live.came));
    free = λ i lt none_due. get_elem?-replicate n none i lt;
  }

  -- What is live after a store stands in the list that the store makes.
  held-stored :
      (n : ℕ) (h : List (W × Bool)) (r : WorkRegistry W) (w : W) (initial : Bool)
      → 0 < n
      → Holds n h r
      → (j : ℕ) (x : W) (b : Bool) → Live n (suc (length h)) j
      → get_elem? (h ++ ((w, initial) ∷ [])) j ≡ some (x, b)
      → get_elem? (stored n (length h) r.pending_work_list (some (fresh w initial))) (j % n)
        ≡ some (some (fresh x b))
  held-stored n h r w initial pos old j x b live e =
      let k = length h in
      elim (eq-cases j k) [
        | inl at ↦
            let there : some (w, initial) ≡ some (x, b) =
              sym (get_elem?-append_end h (w, initial)) ∙ rw at at e in
            let same : (w, initial) ≡ (x, b) = some-injective _ _ there in
            rw (at, ← ap (λ p. p.0) same, ← ap (λ p. p.1) same)
              (stored-new n k r.pending_work_list _ pos old.slots)
        | inr other ↦
            let before : Live n k j = still_Live n k j live other in
            let lt : j < k = before.came in
            let kept =
              stored-kept n k r.pending_work_list (some (fresh w initial)) (j % n)
                (ahead_ne j (k + n / 2) n (omega arith) (omega (arith, live.recent)))
                (ahead_ne j k n lt (omega (arith, before.recent))) in
            kept ∙ old.held j x b before (sym (get_elem?-append_left h _ j lt) ∙ e)
      ]

  -- A slot that no live work is due in is empty in the list that the store makes.
  free-stored :
      (n : ℕ) (h : List (W × Bool)) (r : WorkRegistry W) (v : Option (WorkRegistryItem W))
      → 0 < n
      → Holds n h r
      → (i : ℕ) → i < n
      → ((j : ℕ) → Live n (suc (length h)) j → j % n ≢ i)
      → get_elem? (stored n (length h) r.pending_work_list v) i ≡ some none
  free-stored n h r v pos old i lt none_due =
      let k = length h in
      let other : k % n ≢ i = none_due k (record { came = omega arith; recent = omega arith }) in
      elim (eq-cases ((k + n / 2) % n) i) [
        | inl at ↦ rw at at (stored-retired n k r.pending_work_list v pos old.slots (rw at other))
        | inr away ↦
            stored-kept n k r.pending_work_list v i away other
            ∙ old.free i lt (due_ne n k i none_due away)
      ]

  place :
      (n : ℕ) (h : List (W × Bool)) (w : W) (b : Bool) (ids : List ℕ) (ws : List (W × Bool))
      (id : ℕ)
      → id ≡ length h % n
      → ((i : ℕ) → i < length ws → get_elem? ids i ≡ some ((length (h ++ ((w, b) ∷ [])) + i) % n))
      → (i : ℕ) → i < length ((w, b) ∷ ws)
      → get_elem? (id ∷ ids) i ≡ some ((length h + i) % n)
  place n h w b ids ws id e places zero lt = ap some (e ∙ ap (λ m. m % n) (omega arith))
  place n h w b ids ws id e places (suc i) lt =
      places i (omega arith) ∙ ap (λ m. some (m % n)) (omega (arith, length-append h ((w, b) ∷ [])))

  after-Holds :
      (n : ℕ) (h : List (W × Bool)) (r : WorkRegistry W) (w : W) (initial : Bool)
      → 0 < n
      → Holds n h r
      → Holds n (h ++ ((w, initial) ∷ [])) (after r w initial)
  after-Holds n h r w initial pos old =
      let k = length h in
      let more : length (h ++ ((w, initial) ∷ [])) ≡ suc k =
        omega (arith, length-append h ((w, initial) ∷ [])) in
      let list : (after r w initial).pending_work_list
          ≡ stored n k r.pending_work_list (some (fresh w initial)) =
        rw (old.size, old.next) in
      record {
        size = old.size;
        next = rw (old.size, old.next, more) (mod-add-mod k n 1 ∙ ap (λ m. m % n) (omega arith));
        slots = rw list (
            length-set _ (k % n) _
            ∙ length-set r.pending_work_list ((k % n + n / 2) % n) none
            ∙ old.slots);
        held = rw (more, list) (held-stored n h r w initial pos old);
        free = rw (more, list) (free-stored n h r (some (fresh w initial)) pos old);
      }

  -- Storing work, one after the other, goes on from what the registry holds.
  pub store_all-Holds :
      (n : ℕ) (ws h : List (W × Bool)) (r : WorkRegistry W)
      → 0 < n
      → Holds n h r
      → (ids : List ℕ) × (r' : WorkRegistry W) × (store_all r ws ≡ ok (ids, r'))
        × Holds n (h ++ ws) r'
        × ((i : ℕ) → i < length ws → get_elem? ids i ≡ some ((length h + i) % n))
  unfolding store_all
  store_all-Holds n [] h r pos old = ([], r, refl, rw append-nil old, λ i lt. absurd (omega arith))
  store_all-Holds n ((w, b) ∷ ws) h r pos old =
      let k = length h in
      let one : store_work r w b ≡ ok (r.next_work_id, after r w b) =
        store_work-after r w b (rw old.size pos) (rw (old.size, old.next) (mod-lt k pos))
          (rw old.size old.slots) in
      let (ids, r', run, now, places) =
        store_all-Holds n ws (h ++ ((w, b) ∷ [])) (after r w b) pos
          (after-Holds n h r w b pos old) in
      (
        r.next_work_id ∷ ids,
        r',
        rw one (rw run),
        rw append_assoc at now,
        place n h w b ids ws r.next_work_id old.next places,
      )
