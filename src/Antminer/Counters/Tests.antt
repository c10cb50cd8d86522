-- ===== src/Antminer/Counters/Tests.antt =====
-- Two nonces of a chain of two chips, one of them of a chip that is not there.
use bic_os.Base.{ℕ, Bool, true, false, List, [], ◌∷◌}

abbrev nonces : List (Bool × ℕ)
nonces = (true, 0x500_0004) ∷ (false, 0x500_0004) ∷ (true, 0xff) ∷ []
