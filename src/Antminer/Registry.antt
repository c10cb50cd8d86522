-- ===== src/Antminer/Registry.antt =====
-- open/bosminer/bosminer-am1-s9/src/registry.rs: the work registry. The type of the work is a
-- parameter: the registry only keeps it. What panics in the source is an error here.
pub mod Slots
pub mod Lifetime
pub mod History
pub mod Duplicates
mod Tests
use bic_os.Base.{
  ℕ, ◌+◌, ◌/◌, ◌%◌, Bool, true, false, Option, none, some, List, [], ◌∷◌, ◌++◌, Result, ok, err,
  ◌>>=◌, ◌>>◌, guard, ltb, not, length, get_elem?, set, replicate, ◌==◌, if◌then◌else◌,
}

-- `crate::Solution`: a nonce with its place, as the hardware reports it.
pub record Solution : Type 0 where
  pub nonce : ℕ
  pub midstate_idx : ℕ
  pub solution_idx : ℕ
  pub target : ℕ

-- What panics: a remainder by a registry size of 0, a failed `assert!`, an index out of bounds.
pub data Panic : Type 0 where
  zero_size bad_id out_of_bounds : Panic

pub record WorkRegistryItem (W : Type 0) : Type 0 where
  pub work : W
  pub solutions : List Solution
  pub initial_work : Bool

-- `work::Solution`: the work with a solution of it.
pub record WorkSolution (W : Type 0) : Type 0 where
  pub work : W
  pub solution : Solution

pub record InsertSolutionStatus (W : Type 0) : Type 0 where
  pub mismatched_nonce : Bool
  pub duplicate : Bool
  pub unique_solution : Option (WorkSolution W)

pub record WorkRegistry (W : Type 0) : Type 0 where
  pub registry_size : ℕ
  pub next_work_id : ℕ
  pub pending_work_list : List (Option (WorkRegistryItem W))

-- Whether `iter().find` has a match among the solutions.
unfoldable pub has_nonce : ℕ → List Solution → Bool
has_nonce n [] = false
has_nonce n (s ∷ ss) = if s.nonce == n then true else has_nonce n ss

-- `list[i] = v`.
abbrev pub write : {A : Type 0} → List A → ℕ → A → Result Panic (List A)
write xs i v = if ltb i (length xs) then ok (set xs i v) else err out_of_bounds

-- `list[i]`.
abbrev pub read : {A : Type 0} → Option A → Result Panic A
read none = err out_of_bounds
read (some a) = ok a

module _ {W : Type 0} where
  -- The item after the insertion, and the status.
  unfoldable pub insert_solution :
      WorkRegistryItem W → Solution → WorkRegistryItem W × InsertSolutionStatus W
  insert_solution item new =
      let found = has_nonce new.nonce item.solutions in
      (
        record item { solutions = if found then item.solutions else item.solutions ++ (new ∷ []) },
        record {
          mismatched_nonce = false;
          duplicate = found;
          unique_solution = some (record { work = item.work; solution = new });
        },
      )

  -- Solutions inserted one after the other: the item, and which of them were duplicates.
  unfoldable pub insert_all : WorkRegistryItem W → List Solution → WorkRegistryItem W × List Bool
  insert_all item [] = (item, [])
  insert_all item (s ∷ ss) =
      let (item', status) = insert_solution item s in
      let (last, flags) = insert_all item' ss in (last, status.duplicate ∷ flags)

  unfoldable pub new : ℕ → WorkRegistry W
  new size = record {
    registry_size = size;
    next_work_id = 0;
    pending_work_list = replicate size none;
  }

  unfoldable pub alloc_next_work_id : WorkRegistry W → Result Panic (ℕ × WorkRegistry W)
  alloc_next_work_id r = do
    guard (not (r.registry_size == 0)) zero_size
    ok (r.next_work_id, record r { next_work_id = (r.next_work_id + 1) % r.registry_size })

  abbrev pub fresh : W → Bool → WorkRegistryItem W
  fresh w initial = record { work = w; solutions = []; initial_work = initial }

  unfoldable pub store_work : WorkRegistry W → W → Bool → Result Panic (ℕ × WorkRegistry W)
  store_work r w initial = do
    (work_id, r') ← alloc_next_work_id r
    retired ← write r'.pending_work_list ((work_id + r'.registry_size / 2) % r'.registry_size) none
    stored ← write retired work_id (some (fresh w initial))
    ok (work_id, record r' { pending_work_list = stored })

  unfoldable pub find_work : WorkRegistry W → ℕ → Result Panic (Option (WorkRegistryItem W))
  find_work r work_id = do
    guard (ltb work_id r.registry_size) bad_id
    read (get_elem? r.pending_work_list work_id)

  -- Work and its flag, stored one after the other: the ids they get, and the registry.
  unfoldable pub store_all :
      WorkRegistry W → List (W × Bool) → Result Panic (List ℕ × WorkRegistry W)
  store_all r [] = ok ([], r)
  store_all r ((w, initial) ∷ ws) = do
    (work_id, r') ← store_work r w initial
    (ids, r'') ← store_all r' ws
    ok (work_id ∷ ids, r'')
