-- ===== src/Work/Engine.antt =====
-- `AtomicRange` of open/bosminer/bosminer/src/work/engine.rs, shared by tasks that run at the same
-- time: each load and each compare-and-swap of `curr_index` is a step of its own.
pub mod Interleaving
mod Tests
use bic_os.Base.{
  ℕ, ◌+◌, ◌%◌, ◌^◌, ◌<◌, ◌≤◌, ◌≡◌, ◌≢◌, Option, none, some, List, [], ◌∷◌, Result, ok, err, ◌>>=◌,
  ◌>>◌, guard, leb, ltb, ◌==◌, if◌then◌else◌,
}

pub record AtomicRange : Type 0 where
  pub max_index : ℕ
  pub step_size : ℕ
  pub curr_index : ℕ

pub data Panic : Type 0 where
  start_above_max no_step leftover division_by_zero large_version large_ntime range_len
        mixed_ntime :
      Panic

unfoldable pub atomic_range : ℕ → ℕ → ℕ → Result Panic AtomicRange
atomic_range start_index max_index step_size = do
  guard (leb start_index max_index) start_above_max
  guard (ltb 0 step_size) no_step
  ok (record { max_index = max_index; step_size = step_size; curr_index = start_index })

-- `checked_add` of the type `u32`, then the filter.
unfoldable pub checked_add : AtomicRange → ℕ → ℕ → Option ℕ
checked_add r current count =
    let sum = current + count in
    if ltb sum (2 ^ 32) then (if leb sum r.max_index then some sum else none) else none

unfoldable pub terminate : AtomicRange → AtomicRange
terminate r = record r { curr_index = (r.max_index + 1) % 2 ^ 32 }

-- `next` up to the load, with the value that it loaded, and after it returned.
pub data Task : Type 0 where
  looping : Task
  loaded : ℕ → Task
  returned : Option (ℕ × ℕ) → Task

-- The range, the tasks, and the ranges that were returned, the latest first.
pub record System : Type 0 where
  pub range : AtomicRange
  pub tasks : ℕ → Task
  pub given : List (ℕ × ℕ)

unfoldable pub set_task : (ℕ → Task) → ℕ → Task → ℕ → Task
set_task tasks i t j = if j == i then t else tasks j

pub data Step : System → System → Type 0 where
  -- `get_current`.
  load :
      (r : AtomicRange) (ts : ℕ → Task) (g : List (ℕ × ℕ)) (i : ℕ)
      → ts i ≡ looping
      → Step
          (record { range = r; tasks = ts; given = g })
          (record { range = r; tasks = set_task ts i (loaded r.curr_index); given = g })
  -- No room for one more step: `None`.
  exhaust :
      (r : AtomicRange) (ts : ℕ → Task) (g : List (ℕ × ℕ)) (i c : ℕ)
      → ts i ≡ loaded c
      → checked_add r c r.step_size ≡ none
      → Step
          (record { range = r; tasks = ts; given = g })
          (record { range = r; tasks = set_task ts i (returned none); given = g })
  -- The swap finds the value that was loaded: the range is returned.
  swap :
      (r : AtomicRange) (ts : ℕ → Task) (g : List (ℕ × ℕ)) (i c n : ℕ)
      → ts i ≡ loaded c
      → checked_add r c r.step_size ≡ some n
      → r.curr_index ≡ c
      → Step
          (record { range = r; tasks = ts; given = g })
          (record {
            range = record r { curr_index = n };
            tasks = set_task ts i (returned (some (c, n)));
            given = (c, n) ∷ g;
          })
  -- The swap finds another value: `continue`.
  retry :
      (r : AtomicRange) (ts : ℕ → Task) (g : List (ℕ × ℕ)) (i c n : ℕ)
      → ts i ≡ loaded c
      → checked_add r c r.step_size ≡ some n
      → r.curr_index ≢ c
      → Step
          (record { range = r; tasks = ts; given = g })
          (record { range = r; tasks = set_task ts i looping; given = g })
  -- A task that has returned calls `next` again.
  call :
      (r : AtomicRange) (ts : ℕ → Task) (g : List (ℕ × ℕ)) (i : ℕ) (o : Option (ℕ × ℕ))
      → ts i ≡ returned o
      → Step
          (record { range = r; tasks = ts; given = g })
          (record { range = r; tasks = set_task ts i looping; given = g })
  stop :
      (r : AtomicRange) (ts : ℕ → Task) (g : List (ℕ × ℕ))
      → Step
          (record { range = r; tasks = ts; given = g })
          (record { range = terminate r; tasks = ts; given = g })

-- Any number of steps.
pub data Run : System → System → Type 0 where
  none_yet : (s : System) → Run s s
  more : {s t u : System} → Run s t → Step t u → Run s u

abbrev pub start : AtomicRange → System
start r = record { range = r; tasks = λ i. looping; given = [] }
