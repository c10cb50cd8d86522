-- ===== src/Antminer/Registry/Tests.antt =====
-- A registry of four slots, and solutions of one piece of work.
use bic_os.Base.{
  ℕ, ◌%◌, ◌<◌, ◌≡◌, Bool, true, false, some, List, [], ◌∷◌, ok, arith, length, get_elem?, take,
}
use bic_os.Antminer.Registry.{Solution, WorkRegistry, has_nonce, fresh, insert_all, new, store_all}
use bic_os.Antminer.Registry.History.{Answers, find_work-store_all}
use bic_os.Antminer.Registry.Duplicates.{Keeps, insert_all_lem}

-- Work is a number.
abbrev work : List (ℕ × Bool)
work = (10, true) ∷ (11, false) ∷ (12, false) ∷ (13, false) ∷ (14, false) ∷ []

find_work-store_all_example :
    (ids : List ℕ) × (r : WorkRegistry ℕ) × (store_all (new 4) work ≡ ok (ids, r))
    × ((i : ℕ) → i < length work → get_elem? ids i ≡ some (i % 4))
    × Answers 4 work r
find_work-store_all_example = find_work-store_all 4 work (omega arith)

abbrev solution : ℕ → ℕ → Solution
solution n idx = record { nonce = n; midstate_idx = 0; solution_idx = idx; target = 65535 }

abbrev solutions : List Solution
solutions = solution 7 0 ∷ solution 9 1 ∷ solution 7 2 ∷ []

insert_all_lem_example :
    Keeps {W = ℕ} solutions (insert_all (fresh {W = ℕ} 10 false) solutions).0
    × ((i : ℕ) (s : Solution)
        → get_elem? solutions i ≡ some s
        → get_elem? (insert_all (fresh {W = ℕ} 10 false) solutions).1 i
          ≡ some (has_nonce s.nonce (take i solutions)))
insert_all_lem_example = insert_all_lem 10 false solutions
