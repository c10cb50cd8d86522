-- ===== src/Antminer/Receive/Invariant.antt =====
-- What holds of the receiver of solutions, `solution_rx_task` of
-- open/bosminer/bosminer-am1-s9/src/lib.rs, between two arrivals.
use mathlib.Core.Option.{some-injective}
use mathlib.Core.Path.{subst}
use bic_os.Base.{
  ℕ, ◌<◌, ◌≤◌, ◌≡◌, refl, ◌∙◌, true, false, Option, none, some, List, [], set, length, get_elem?,
  All, Bool-cases, inl, inr, length-set, length-replicate,
}
use bic_os.Work.Rolling.{Assignment}
use bic_os.Antminer.Registry
use bic_os.Antminer.Counters
use bic_os.Antminer.Registry.{
  Solution, WorkRegistry, WorkRegistryItem, WorkSolution, has_nonce, insert_solution,
  alloc_next_work_id, store_work, find_work, fresh,
}
use bic_os.Antminer.Registry.Duplicates.{IsDistinct, append-IsDistinct}
use bic_os.Antminer.Counters.{HashChain, add_valid, add_error, core_adr_space_size}
use bic_os.Antminer.Counters.Totals.{IsHashChain, new-IsHashChain}
use bic_os.Antminer.Receive.{Receiver, Event, stored, found}
use bic_os.Antminer.Receive.Steps.{set-Items, empty}

module _ {M : Type 0} where
  -- The receiver with an item written back, other counters, and more sent.
  abbrev pub after :
      Receiver M
      → ℕ
      → WorkRegistryItem (Assignment M)
      → HashChain
      → List (WorkSolution (Assignment M))
      → Receiver M
  after r work_id item h more = record {
    work_registry = record r.work_registry {
      pending_work_list = set r.work_registry.pending_work_list work_id (some item);
    };
    counter = h;
    sent = more;
  }

module _ {M : Type 0} (P : Assignment M → Type 0) (Q : Solution → Type 0) (n k : ℕ) where
  -- Work that is not initial has the first property and so many midstates at least.
  abbrev pub IsWork : Assignment M → Type 0
  IsWork w = P w × (k ≤ length w.midstates)

  -- Solutions have the second property, an id of the range, and the index of one of the midstates.
  abbrev pub IsExpected : Event M → Type 0
  IsExpected (stored w true) = Unit {0}
  IsExpected (stored w false) = IsWork w
  IsExpected (found work_id solution) = (work_id < n) × Q solution × (solution.midstate_idx < k)

  abbrev pub IsKnown : WorkSolution (Assignment M) → Type 0
  IsKnown s = P s.work × Q s.solution

  -- Items have no nonce twice, and their work has the property if it is not initial.
  pub record IsItem (item : WorkRegistryItem (Assignment M)) : Type 0 where
    pub distinct : IsDistinct item.solutions
    pub known : item.initial_work ≡ false → IsWork item.work

  pub record IsReceiver (r : Receiver M) : Type 0 where
    pub size : r.work_registry.registry_size ≡ n
    pub slots : length r.work_registry.pending_work_list ≡ n
    pub next : r.work_registry.next_work_id < n
    pub items :
        (i : ℕ) (item : WorkRegistryItem (Assignment M))
        → get_elem? r.work_registry.pending_work_list i ≡ some (some item)
        → IsItem item
    pub sums : IsHashChain r.counter
    pub sent : All IsKnown r.sent

  pub insert_solution-IsItem :
      (item : WorkRegistryItem (Assignment M)) (s : Solution)
      → IsItem item
      → IsItem (insert_solution item s).0
  unfolding insert_solution
  insert_solution-IsItem item s ok_item = elim (Bool-cases (has_nonce s.nonce item.solutions)) [
    | inl again ↦ record { distinct = rw again ok_item.distinct; known = ok_item.known }
    | inr first ↦ record {
      distinct = rw first (append-IsDistinct item.solutions s ok_item.distinct first);
      known = ok_item.known;
    }
  ]

  pub start-IsReceiver :
      (chips difficulty : ℕ)
      → 0 < n
      → IsReceiver (record {
        work_registry = Registry.new n;
        counter = Counters.new chips difficulty;
        sent = [];
      })
  unfolding Registry.new
  start-IsReceiver chips difficulty pos = record {
    size = refl;
    slots = length-replicate {A = Option (WorkRegistryItem (Assignment M))} n none;
    next = pos;
    items = λ i item at. absurd (empty n i item at);
    sums = new-IsHashChain chips difficulty;
    sent = tt;
  }

  pub after-IsReceiver :
      (r : Receiver M) (work_id : ℕ) (item : WorkRegistryItem (Assignment M)) (h : HashChain)
      → (more : List (WorkSolution (Assignment M))) → IsReceiver r
      → IsItem item
      → IsHashChain h
      → All IsKnown more
      → IsReceiver (after r work_id item h more)
  after-IsReceiver r work_id item h more inv ok_item sums known = record {
    size = inv.size;
    slots = length-set r.work_registry.pending_work_list work_id (some item) ∙ inv.slots;
    next = inv.next;
    items =
        set-Items IsItem r.work_registry.pending_work_list work_id (some item) inv.items
          λ one same. subst IsItem (some-injective _ _ same) ok_item;
    sums = sums;
    sent = known;
  }
