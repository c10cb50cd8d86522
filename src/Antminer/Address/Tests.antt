-- ===== src/Antminer/Address/Tests.antt =====
-- Two midstates: fifteen bits for the work.
use bic_os.Base.{ℕ, ◌≡◌, refl, Bool, false, some, List, [], ◌∷◌, ok, ◌>>=◌, arith, get_elem?}
use bic_os.Antminer.Registry.{WorkRegistry, new, store_all}
use bic_os.Antminer.Address.{MidstateCount, midstate_count, get_work_id_count, from_hw, to_hw}
use bic_os.Antminer.Address.WorkIds.{from_hw-to_hw-store_all}

abbrev two_midstates : MidstateCount
two_midstates = record { log2 = 1 }

two_midstates-new : midstate_count 2 ≡ ok two_midstates
unfolding midstate_count
two_midstates-new = refl

abbrev work : List (ℕ × Bool)
work = (10, false) ∷ (11, false) ∷ []

from_hw-to_hw-store_all_example :
    (ids : List ℕ) × (r : WorkRegistry ℕ) × (store_all (new (get_work_id_count two_midstates)) work
      ≡ ok (ids, r))
    × (id : ℕ) × (get_elem? ids 1 ≡ some id)
    × ((to_hw two_midstates (record { work_id = id; midstate_idx = 1 }) >>= from_hw two_midstates)
        ≡ ok (record { work_id = id; midstate_idx = 1 }))
from_hw-to_hw-store_all_example =
    from_hw-to_hw-store_all 2 two_midstates work 1 1 two_midstates-new (omega arith) (omega arith)
