-- ===== src/Antminer/Receive.antt =====
-- `solution_rx_task` of open/bosminer/bosminer-am1-s9/src/lib.rs: what becomes of the solutions that
-- the hardware finds, while work is stored in between; and the hash of a solution, `Solution` of
-- open/bosminer/bosminer/src/work.rs. The double hash of SHA256 is a parameter, and so is whether the
-- frontend still takes solutions.
pub mod Steps
pub mod Invariant
pub mod Total
mod Tests
use bic_os.Base.{
  ℕ, Bool, true, false, Option, none, some, List, [], ◌∷◌, ◌++◌, set, get_elem?, length, Result, ok,
  err, ◌>>=◌, if◌then◌else◌,
}
use bic_os.Bitcoin.Header
use bic_os.Bitcoin.Header.{BlockHeader}
use bic_os.Bitcoin.Target.{meets}
use bic_os.Work.Rolling.{Assignment, Midstate}
use bic_os.Antminer.Address.{CoreAddress, core_address}
use bic_os.Antminer.Registry.{
  Solution, WorkRegistry, WorkRegistryItem, WorkSolution, InsertSolutionStatus, insert_solution,
  store_work, find_work,
}
use bic_os.Antminer.Counters.{HashChain, add_valid, add_error}

pub data Panic : Type 0 where
  bad_midstate frontend_gone : Panic
  registry_panic : bic_os.Antminer.Registry.Panic → Panic
  counter_panic : bic_os.Antminer.Counters.Panic → Panic

-- The registry, the counters, and what was sent to the frontend, the latest last.
pub record Receiver (M : Type 0) : Type 0 where
  pub work_registry : WorkRegistry (Assignment M)
  pub counter : HashChain
  pub sent : List (WorkSolution (Assignment M))

abbrev pub from_registry : {A : Type 0} → Result bic_os.Antminer.Registry.Panic A → Result Panic A
from_registry (ok a) = ok a
from_registry (err e) = err (registry_panic e)

abbrev pub from_counter : Result bic_os.Antminer.Counters.Panic HashChain → Result Panic HashChain
from_counter (ok h) = ok h
from_counter (err e) = err (counter_panic e)

-- What happens to the miner: work is stored, or a solution comes in.
pub data Event (M : Type 0) : Type 0 where
  stored : Assignment M → Bool → Event M
  found : ℕ → Solution → Event M

unfoldable pub add_error_if : Bool → HashChain → CoreAddress → Result Panic HashChain
add_error_if true h addr = from_counter (add_error h addr)
add_error_if false h addr = ok h

-- `work.midstates[i].version`.
abbrev pub version_at : {M : Type 0} → Option (Midstate M) → Result Panic ℕ
version_at none = err bad_midstate
version_at (some m) = ok m.version

module _ {M : Type 0} where
  unfoldable pub version : WorkSolution (Assignment M) → Result Panic ℕ
  version s = version_at (get_elem? s.work.midstates s.solution.midstate_idx)

  unfoldable pub get_block_header : WorkSolution (Assignment M) → Result Panic BlockHeader
  unfolding version
  get_block_header s = do
    version ← version s
    ok (record {
      version = version;
      previous_hash = s.work.job.previous_hash;
      merkle_root = s.work.job.merkle_root;
      time = s.work.ntime;
      bits = s.work.job.bits;
      nonce = s.solution.nonce;
    })

  module _ (double_sha : List ℕ → List ℕ) where
    unfoldable pub hash : WorkSolution (Assignment M) → Result Panic (List ℕ)
    unfolding get_block_header
    hash s = do header ← get_block_header s; ok (Header.hash double_sha header)

-- The counter that a hash goes to, by the target of the backend.
unfoldable pub count_hash : HashChain → CoreAddress → List ℕ → ℕ → Result Panic HashChain
count_hash h addr digest target =
    from_counter (if meets digest target then add_valid h addr else add_error h addr)

-- `SolutionSender::send`: whether the frontend takes a solution after so many that it was sent.
unfoldable pub send : {S : Type 0} → (ℕ → Bool) → List S → S → Result Panic (List S)
send takes sent solution =
    if takes (length sent) then ok (sent ++ (solution ∷ [])) else err frontend_gone

module _ {M : Type 0} (double_sha : List ℕ → List ℕ) (takes : ℕ → Bool) where
  -- `if let Some(unique_solution)`: the counters and what was sent.
  unfoldable pub count_unique :
      HashChain
      → List (WorkSolution (Assignment M))
      → CoreAddress
      → Option (WorkSolution (Assignment M))
      → Bool
      → Result Panic (HashChain × List (WorkSolution (Assignment M)))
  unfolding hash count_hash send
  count_unique h sent addr none duplicate = ok (h, sent)
  count_unique h sent addr (some solution) true = ok (h, sent)
  count_unique h sent addr (some solution) false = do
    digest ← hash double_sha solution
    counted ← count_hash h addr digest solution.solution.target
    more ← send takes sent solution
    ok (counted, more)

  unfoldable pub handle_status :
      Receiver M
      → ℕ
      → CoreAddress
      → WorkRegistryItem (Assignment M)
      → InsertSolutionStatus (Assignment M)
      → Result Panic (Receiver M)
  unfolding count_unique add_error_if
  handle_status r work_id addr item status = do
    unique ← count_unique r.counter r.sent addr status.unique_solution status.duplicate
    once ← add_error_if status.duplicate unique.0 addr
    twice ← add_error_if status.mismatched_nonce once addr
    ok (record {
      work_registry = record r.work_registry {
        pending_work_list = set r.work_registry.pending_work_list work_id (some item);
      };
      counter = twice;
      sent = unique.1;
    })

  -- Solutions of initial work are ignored, as are those without work.
  unfoldable pub handle_work :
      Receiver M
      → ℕ
      → Solution
      → Option (WorkRegistryItem (Assignment M))
      → Result Panic (Receiver M)
  handle_work r work_id solution none = ok r
  handle_work r work_id solution (some item) =
      let inserted = insert_solution item solution in
      let handled = handle_status r work_id (core_address solution.nonce) inserted.0 inserted.1 in
      if item.initial_work then ok r else handled

  unfoldable pub receive : Receiver M → ℕ → Solution → Result Panic (Receiver M)
  receive r work_id solution = do
    work ← from_registry (find_work r.work_registry work_id)
    handle_work r work_id solution work

  unfoldable pub happen : Receiver M → Event M → Result Panic (Receiver M)
  happen r (stored w initial) = do
    next ← from_registry (store_work r.work_registry w initial)
    ok (record r { work_registry = next.1 })
  happen r (found work_id solution) = receive r work_id solution

  unfoldable pub happen_all : Receiver M → List (Event M) → Result Panic (Receiver M)
  happen_all r [] = ok r
  happen_all r (e ∷ es) = do next ← happen r e; happen_all next es
