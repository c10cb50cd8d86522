-- ===== src/Work/Engine/Tests.antt =====
-- Two tasks that race for the first range.
use bic_os.Base.{ℕ, ◌+◌, ◌≤◌, ◌≡◌, refl, some, [], ◌∷◌, ok, arith}
use bic_os.Work.Engine.{
  AtomicRange, atomic_range, checked_add, Task, looping, loaded, returned, set_task, System, Step,
  Run, none_yet, more, start,
}
use bic_os.Work.Engine.Interleaving.{Run-disjoint}

abbrev range : AtomicRange
range = record { max_index = 8; step_size = 4; curr_index = 0 }

range-made : atomic_range 0 8 4 ≡ ok range
unfolding atomic_range
range-made = refl

abbrev at : ℕ → AtomicRange
at c = record range { curr_index = c }

abbrev t0 : ℕ → Task
t0 i = looping

abbrev t1 : ℕ → Task
t1 = set_task t0 0 (loaded 0)

abbrev t2 : ℕ → Task
t2 = set_task t1 1 (loaded 0)

abbrev t3 : ℕ → Task
t3 = set_task t2 0 (returned (some (0, 4)))

abbrev t4 : ℕ → Task
t4 = set_task t3 1 looping

abbrev t5 : ℕ → Task
t5 = set_task t4 1 (loaded 4)

abbrev t6 : ℕ → Task
t6 = set_task t5 1 (returned (some (4, 8)))

abbrev last : System
last = record { range = at 8; tasks = t6; given = (4, 8) ∷ (0, 4) ∷ [] }

-- Both load, the first one wins, the second one tries again.
race : Run (start range) last
unfolding set_task checked_add
race =
    more
      (more
        (more
          (more
            (more (more (none_yet (start range)) (Step.load (at 0) t0 [] 0 refl))
              (Step.load (at 0) t1 [] 1 refl))
            (Step.swap (at 0) t2 [] 0 0 4 refl refl refl))
          (Step.retry (at 4) t3 ((0, 4) ∷ []) 1 0 4 refl refl (λ e. cc)))
        (Step.load (at 4) t4 ((0, 4) ∷ []) 1 refl))
      (Step.swap (at 4) t5 ((0, 4) ∷ []) 1 4 8 refl refl refl)

Run-disjoint_example : (0 ≤ 0) × (0 + 4 ≡ 4) × (4 ≤ 4) × (4 + 4 ≡ 8) × (8 ≤ 8)
Run-disjoint_example =
    Run-disjoint 0 8 4 range last range-made (omega arith) race 0 1 4 8 0 4 (omega arith) refl refl
