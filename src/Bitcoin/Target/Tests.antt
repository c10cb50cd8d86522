-- ===== src/Bitcoin/Target/Tests.antt =====
-- The target of difficulty 1, and the difficulty of a pool.
use bic_os.Base.{ℕ, ◌+◌, ◌-◌, ◌*◌, ◌%◌, ◌^◌, ◌≤◌, ◌≡◌, refl, from_le, [], ◌∷◌, true, ok, arith}
use bic_os.Bitcoin.Target.{
  difficulty_1_target, from_compact, into_compact, from_pool_difficulty, digit_count, shares,
  account_solution, meets,
}
use bic_os.Bitcoin.Target.Compact.{from_compact-into_compact}
use bic_os.Bitcoin.Target.Difficulty.{account_solution-from_pool_difficulty}

compact_1 : into_compact difficulty_1_target ≡ 0x1d00ffff
unfolding into_compact digit_count
compact_1 = refl

from_compact-into_compact_example :
    (read : ℕ) × (from_compact (into_compact difficulty_1_target) ≡ ok read)
    × (read ≤ difficulty_1_target)
    × (32768 * (difficulty_1_target - read) ≤ difficulty_1_target)
from_compact-into_compact_example = from_compact-into_compact difficulty_1_target (omega arith)

account_solution-from_pool_difficulty_example :
    (target : ℕ) × (from_pool_difficulty 1024 ≡ ok target)
    × (shares (2 ^ 32) target ≡ ok 1024)
    × (account_solution (2 ^ 32) 7 target ≡ ok ((7 + 1024) % 2 ^ 64))
account_solution-from_pool_difficulty_example =
    account_solution-from_pool_difficulty (2 ^ 32) 1024 7 (omega arith) (omega arith) (omega arith)

target_1024 : from_pool_difficulty 1024 ≡ ok (65535 * 2 ^ 198)
unfolding from_pool_difficulty
target_1024 = refl

target_512 : from_pool_difficulty 512 ≡ ok (65535 * 2 ^ 199)
unfolding from_pool_difficulty
target_512 = refl

met_1024 : meets (3 ∷ []) (65535 * 2 ^ 198) ≡ true
unfolding meets from_le
met_1024 = refl
