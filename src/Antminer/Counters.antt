-- ===== src/Antminer/Counters.antt =====
-- open/bosminer/bosminer-am1-s9/src/counters.rs: the counters of a hash chain. A `usize` of the
-- miner's processor has 32 bits, and sums wrap around. An index out of bounds is an error here. The
-- times of the start and of the snapshot are not kept.
pub mod Sums
pub mod Totals
mod Tests
use bic_os.Base.{
  ℕ, zero, suc, ◌+◌, ◌%◌, ◌^◌, Bool, true, false, List, [], ◌∷◌, Result, ok, err, ◌>>=◌, leb,
  length, map, replicate, if◌then◌else◌,
}
use bic_os.Antminer.Address.{CoreAddress, core_address}

pub data Panic : Type 0 where
  out_of_bounds : Panic

pub record Core : Type 0 where
  pub valid : ℕ
  pub errors : ℕ

pub record Chip : Type 0 where
  pub core : List Core
  pub valid : ℕ
  pub errors : ℕ

pub record HashChain : Type 0 where
  pub chip : List Chip
  pub valid : ℕ
  pub errors : ℕ
  pub asic_difficulty : ℕ

abbrev pub core_adr_space_size : ℕ
core_adr_space_size = 128

-- `+=` on a `usize`.
abbrev pub plus : ℕ → ℕ → ℕ
plus a b = (a + b) % 2 ^ 32

abbrev pub new_core : Core
new_core = record { valid = 0; errors = 0 }

abbrev pub new_chip : Chip
new_chip = record { core = replicate core_adr_space_size new_core; valid = 0; errors = 0 }

unfoldable pub new : ℕ → ℕ → HashChain
new chip_count asic_difficulty = record {
  chip = replicate chip_count new_chip;
  valid = 0;
  errors = 0;
  asic_difficulty = asic_difficulty;
}

abbrev pub reset_core : Core → Core
reset_core c = record c { valid = 0; errors = 0 }

abbrev pub reset_chip : Chip → Chip
reset_chip c = record c { core = map reset_core c.core; valid = 0; errors = 0 }

unfoldable pub reset : HashChain → HashChain
reset h = record h { chip = map reset_chip h.chip; valid = 0; errors = 0 }

-- A change of the element at an index.
unfoldable pub change : {A : Type 0} → List A → ℕ → (A → Result Panic A) → Result Panic (List A)
change [] i f = err out_of_bounds
change (a ∷ xs) zero f = do b ← f a; ok (b ∷ xs)
change (a ∷ xs) (suc i) f = do bs ← change xs i f; ok (a ∷ bs)

abbrev pub valid_core : ℕ → Core → Result Panic Core
valid_core d c = ok (record c { valid = plus c.valid d })

abbrev pub valid_chip : ℕ → ℕ → Chip → Result Panic Chip
valid_chip d i c = do
  cores ← change c.core i (valid_core d)
  ok (record c { core = cores; valid = plus c.valid d })

unfoldable pub add_valid : HashChain → CoreAddress → Result Panic HashChain
add_valid h addr =
    let chips = change h.chip addr.chip (valid_chip h.asic_difficulty addr.core) in
    if leb (length h.chip) addr.chip
    then ok h
    else do cs ← chips; ok (record h { chip = cs; valid = plus h.valid h.asic_difficulty })

abbrev pub error_core : Core → Result Panic Core
error_core c = ok (record c { errors = plus c.errors 1 })

abbrev pub error_chip : ℕ → Chip → Result Panic Chip
error_chip i c = do
  cores ← change c.core i error_core
  ok (record c { core = cores; errors = plus c.errors 1 })

unfoldable pub add_error : HashChain → CoreAddress → Result Panic HashChain
add_error h addr =
    let chips = change h.chip addr.chip (error_chip addr.core) in
    if leb (length h.chip) addr.chip
    then ok h
    else do cs ← chips; ok (record h { chip = cs; errors = plus h.errors 1 })

-- Nonces that are counted one after the other, as valid or as errors, at the core that they name.
unfoldable pub count_nonces : HashChain → List (Bool × ℕ) → Result Panic HashChain
count_nonces h [] = ok h
count_nonces h ((good, nonce) ∷ ns) = do
  h' ← if good then add_valid h (core_address nonce) else add_error h (core_address nonce)
  count_nonces h' ns
