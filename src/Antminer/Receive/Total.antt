-- ===== src/Antminer/Receive/Total.antt =====
-- The receiver never panics, its counters stay sums, and what it sends comes from what happened.
use mathlib.Core.Option.{some-injective}
use mathlib.Core.Path.{subst}
use native.Mathlib.Nat.{mod-lt}
use bic_os.Base.{
  ℕ, ◌+◌, ◌/◌, ◌%◌, ◌<◌, ◌≡◌, refl, ◌∙◌, Bool, true, false, Option, none, some, List, [], ◌∷◌, ◌++◌,
  set, length, get_elem?, All, ok, ltb, lt→ltb, ◌==◌, Bool-cases, inl, inr, arith, get_elem?-lt,
  length-set, append-All,
}
use bic_os.Bitcoin.Header
use bic_os.Bitcoin.Header.{BlockHeader}
use bic_os.Bitcoin.Target.{meets}
use bic_os.Work.Rolling.{Assignment}
use bic_os.Antminer.Registry
use bic_os.Antminer.Counters
use bic_os.Antminer.Address.{core_address}
use bic_os.Antminer.Registry.{
  Solution, WorkRegistry, WorkRegistryItem, WorkSolution, has_nonce, insert_solution,
  alloc_next_work_id, store_work, find_work, fresh,
}
use bic_os.Antminer.Counters.{HashChain, add_valid, add_error, core_adr_space_size}
use bic_os.Antminer.Counters.Totals.{IsHashChain}
use bic_os.Antminer.Receive.{
  Receiver, Event, stored, found, add_error_if, version, get_block_header, hash, count_hash, send,
  count_unique, handle_status, handle_work, receive, happen, happen_all,
}
use bic_os.Antminer.Receive.Steps.{skip, set-Items, counted}
use bic_os.Antminer.Receive.Invariant.{
  after, IsWork, IsExpected, IsKnown, IsItem, IsReceiver, insert_solution-IsItem, start-IsReceiver,
  after-IsReceiver,
}

module _ {M : Type 0} (P : Assignment M → Type 0) (Q : Solution → Type 0) (n k : ℕ) where
  module _ (double_sha : List ℕ → List ℕ) (takes : ℕ → Bool)
      (taken : (i : ℕ) → takes i ≡ true) where
    -- The midstate of a solution is there, so that it has a hash, and it is counted and sent.
    count_unique-IsKnown :
        (h : HashChain) (sent : List (WorkSolution (Assignment M))) (nonce : ℕ)
        (u : WorkSolution (Assignment M))
        → IsHashChain h
        → All (IsKnown P Q n k) sent
        → IsWork P Q n k u.work
        → Q u.solution
        → u.solution.midstate_idx < k
        → (h' : HashChain) × (count_unique double_sha takes h sent
              (core_address nonce)
              (some u)
              false
            ≡ ok (h', sent ++ (u ∷ [])))
          × IsHashChain h'
          × All (IsKnown P Q n k) (sent ++ (u ∷ []))
    unfolding count_unique hash get_block_header version count_hash send
    count_unique-IsKnown h sent nonce u sums known (p, enough) q index =
        let (m, at) =
          get_elem?-lt u.work.midstates u.solution.midstate_idx (omega (arith, enough, index)) in
        let header : BlockHeader = record {
          version = m.version;
          previous_hash = u.work.job.previous_hash;
          merkle_root = u.work.job.merkle_root;
          time = u.work.ntime;
          bits = u.work.job.bits;
          nonce = u.solution.nonce;
        } in
        let valid = meets (Header.hash double_sha header) u.solution.target in
        let (h', run, sums') = counted valid h nonce sums in
        (
          h',
          rw at (rw run (rw (taken (length sent)) refl)),
          sums',
          append-All (IsKnown P Q n k) sent (u ∷ []) known ((p, q), tt),
        )

    handle_status-IsReceiver :
        (r : Receiver M) (work_id nonce : ℕ) (item : WorkRegistryItem (Assignment M))
        (duplicate : Bool) (u : WorkSolution (Assignment M))
        → IsReceiver P Q n k r
        → (IsItem P Q n k) item
        → IsWork P Q n k u.work
        → Q u.solution
        → u.solution.midstate_idx < k
        → (r' : Receiver M) × (handle_status double_sha takes r work_id
              (core_address nonce)
              item
              (record { mismatched_nonce = false; duplicate = duplicate; unique_solution = some u })
            ≡ ok r')
          × IsReceiver P Q n k r'
    unfolding handle_status count_unique add_error_if
    handle_status-IsReceiver r work_id nonce item true u inv ok_item work q index =
        let (h, run, sums) = counted false r.counter nonce inv.sums in
        (
          after r work_id item h r.sent,
          rw run refl,
          after-IsReceiver P Q n k r work_id item h r.sent inv ok_item sums inv.sent,
        )
    handle_status-IsReceiver r work_id nonce item false u inv ok_item work q index =
        let (h, run, sums, known) =
          count_unique-IsKnown r.counter r.sent nonce u inv.sums inv.sent work q index in
        (
          after r work_id item h (r.sent ++ (u ∷ [])),
          rw run refl,
          after-IsReceiver P Q n k r work_id item h (r.sent ++ (u ∷ [])) inv ok_item sums known,
        )

    handle_work-IsReceiver :
        (r : Receiver M) (work_id : ℕ) (s : Solution)
        (slot : Option (WorkRegistryItem (Assignment M)))
        → IsReceiver P Q n k r
        → Q s
        → s.midstate_idx < k
        → get_elem? r.work_registry.pending_work_list work_id ≡ some slot
        → (r' : Receiver M) × (handle_work double_sha takes r work_id s slot ≡ ok r')
          × IsReceiver P Q n k r'
    unfolding handle_work insert_solution
    handle_work-IsReceiver r work_id s none inv q index at = (r, refl, inv)
    handle_work-IsReceiver r work_id s (some item) inv q index at =
        elim (Bool-cases item.initial_work) [
          | inl initial ↦ (r, rw initial refl, inv)
          | inr real ↦
              let old = inv.items work_id item at in
              let (r', run, inv') =
                handle_status-IsReceiver r work_id s.nonce (insert_solution item s).0
                  (has_nonce s.nonce item.solutions) (record { work = item.work; solution = s }) inv
                  (insert_solution-IsItem P Q n k item s old) (old.known real) q index in
              (r', skip _ _ _ real ∙ run, inv')
        ]

    receive-IsReceiver :
        (r : Receiver M) (work_id : ℕ) (s : Solution)
        → IsReceiver P Q n k r
        → Q s
        → s.midstate_idx < k
        → work_id < n
        → (r' : Receiver M) × (receive double_sha takes r work_id s ≡ ok r') × IsReceiver P Q n k r'
    unfolding receive find_work
    receive-IsReceiver r work_id s inv q index lt =
        let inside : ltb work_id r.work_registry.registry_size ≡ true =
          lt→ltb _ _ (omega (arith, lt, inv.size)) in
        let (slot, at) =
          get_elem?-lt r.work_registry.pending_work_list work_id (omega (arith, lt, inv.slots)) in
        let (r', run, inv') = handle_work-IsReceiver r work_id s slot inv q index at in
        (r', rw inside (rw at run), inv')

    store-IsReceiver :
        (r : Receiver M) (w : Assignment M) (initial : Bool)
        → IsReceiver P Q n k r
        → (initial ≡ false → IsWork P Q n k w)
        → (r' : Receiver M) × (happen double_sha takes r (stored w initial) ≡ ok r')
          × IsReceiver P Q n k r'
    unfolding happen store_work alloc_next_work_id
    store-IsReceiver r w initial inv p =
        let reg = r.work_registry in
        let size = reg.registry_size in
        let list = reg.pending_work_list in
        let pos : 0 < size = omega (arith, inv.size, inv.next) in
        let some_size : size == 0 ≡ false = ground (arith, pos) in
        let retired = (reg.next_work_id + size / 2) % size in
        let bound : retired < size = mod-lt (reg.next_work_id + size / 2) pos in
        let inside : ltb retired (length list) ≡ true =
          lt→ltb _ _ (omega (arith, bound, inv.size, inv.slots)) in
        let length1 = length-set list retired none in
        let inside' : ltb reg.next_work_id (length (set list retired none)) ≡ true =
          lt→ltb _ _ (omega (arith, inv.next, inv.slots, length1)) in
        let length2 =
          length-set (set list retired none) reg.next_work_id (some (fresh w initial)) in
        let items1 =
          set-Items (IsItem P Q n k) list retired none inv.items λ one clash. absurd (cc) in
        let items2 =
          set-Items (IsItem P Q n k) (set list retired none) reg.next_work_id
            (some (fresh w initial)) items1
            λ one same.
              subst (IsItem P Q n k) (some-injective _ _ same)
                (record { distinct = tt; known = p }) in
        let advanced : (reg.next_work_id + 1) % size < n =
          omega (arith, inv.size, mod-lt (reg.next_work_id + 1) pos) in
        (
          record r {
            work_registry = record reg {
              next_work_id = (reg.next_work_id + 1) % size;
              pending_work_list =
                  set (set list retired none) reg.next_work_id (some (fresh w initial));
            };
          },
          rw some_size (rw inside (rw inside' refl)),
          record {
            size = inv.size;
            slots = length2 ∙ length1 ∙ inv.slots;
            next = advanced;
            items = items2;
            sums = inv.sums;
            sent = inv.sent;
          },
        )

    happen-IsReceiver :
        (r : Receiver M) (e : Event M)
        → IsReceiver P Q n k r
        → (IsExpected P Q n k) e
        → (r' : Receiver M) × (happen double_sha takes r e ≡ ok r') × IsReceiver P Q n k r'
    unfolding happen
    happen-IsReceiver r (stored w true) inv expected =
        store-IsReceiver r w true inv (λ clash. absurd (cc))
    happen-IsReceiver r (stored w false) inv expected =
        store-IsReceiver r w false inv (λ e. expected)
    happen-IsReceiver r (found work_id s) inv (lt, q, index) =
        receive-IsReceiver r work_id s inv q index lt

    happen_all-IsReceiver :
        (es : List (Event M)) (r : Receiver M)
        → IsReceiver P Q n k r
        → All (IsExpected P Q n k) es
        → (r' : Receiver M) × (happen_all double_sha takes r es ≡ ok r') × IsReceiver P Q n k r'
    unfolding happen_all
    happen_all-IsReceiver [] r inv expected = (r, refl, inv)
    happen_all-IsReceiver (e ∷ es) r inv (now, later) =
        let (r', run, inv') = happen-IsReceiver r e inv now in
        let (r'', run', inv'') = happen_all-IsReceiver es r' inv' later in (r'', rw run run', inv'')

    -- Whatever work is stored in a new registry of at least one slot and whatever solutions come in
    -- for ids of the registry, in any order, where the midstates of solutions are counted below k,
    -- work that is not initial has k midstates at least, and the frontend takes what it is sent:
    -- nothing panics, neither the registry and the counters nor the hash of a solution. The totals of
    -- the counters stay the sums of their parts, no work has a nonce twice, and only solutions that
    -- came in are sent, for work that was stored as not initial: any property of all such solutions
    -- and of all such work holds of those that are sent.
    pub happen_all-new :
        (chips difficulty : ℕ) (es : List (Event M))
        → 0 < n
        → All (IsExpected P Q n k) es
        → (r : Receiver M) × (happen_all double_sha takes
              (record {
                work_registry = Registry.new n;
                counter = Counters.new chips difficulty;
                sent = [];
              })
              es
            ≡ ok r)
          × IsReceiver P Q n k r
    happen_all-new chips difficulty es pos expected =
        happen_all-IsReceiver es
          (record {
            work_registry = Registry.new n;
            counter = Counters.new chips difficulty;
            sent = [];
          })
          (start-IsReceiver P Q n k chips difficulty pos) expected
