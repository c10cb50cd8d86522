-- ===== src/Bitcoin/Target.antt =====
-- `Target`, `MeetsTarget` and `Shares` of open/coins/bitcoin/src/lib.rs. A `U256` is a number below
-- 2 ^ 256: a shift to the left drops what does not fit. The size of a `usize` is a parameter.
pub mod Bits
pub mod Compact
pub mod Difficulty
mod Tests
use Prim.Native.Nat.{bit_and, bit_or}
use bic_os.Base.{
  ℕ, zero, suc, ◌+◌, ◌-◌, ◌*◌, ◌/◌, ◌%◌, ◌^◌, Bool, true, false, not, List, Result, ok, err, ◌>>=◌,
  ◌>>◌, guard, leb, ltb, ◌==◌, if◌then◌else◌, le_bytes, from_le,
}

-- `largest legal value for mantissa has been exceeded`, and the panic of a division.
pub data Error : Type 0 where
  mantissa_exceeded division_by_zero : Error

-- 0xffff followed by 26 bytes of zeros.
abbrev pub difficulty_1_target : ℕ
difficulty_1_target = 65535 * 2 ^ 208

unfoldable pub from_pool_difficulty : ℕ → Result Error ℕ
from_pool_difficulty difficulty =
    if difficulty == 0 then err division_by_zero else ok (difficulty_1_target / difficulty)

abbrev pub compact_value : ℕ → ℕ → ℕ
compact_value mantissa exponent =
    if leb exponent 3
    then mantissa / 2 ^ (8 * (3 - exponent))
    else mantissa * 2 ^ (8 * (exponent - 3)) % 2 ^ 256

unfoldable pub from_compact : ℕ → Result Error ℕ
from_compact bits =
    let mantissa = bit_and bits 0xffffff in
    let exponent = bits / 2 ^ 24 in
    do guard (leb mantissa 0x7fffff) mantissa_exceeded; ok (compact_value mantissa exponent)

unfoldable pub get_difficulty : ℕ → ℕ → Result Error ℕ
get_difficulty usize target =
    if target == 0 then err division_by_zero else ok (difficulty_1_target / target % 2 ^ 64 % usize)

-- The number of binary digits of a number that has at most so many.
unfoldable pub digit_count : ℕ → ℕ → ℕ
digit_count zero n = 0
digit_count (suc most) n = let rest = digit_count most (n / 2) in if n == 0 then 0 else suc rest

abbrev pub bits : ℕ → ℕ
bits n = digit_count 256 n

abbrev pub full_mantissa : ℕ → ℕ → ℕ
full_mantissa target exponent =
    if leb exponent 3
    then target % 2 ^ 64 * 2 ^ (8 * (3 - exponent)) % 2 ^ 64 % 2 ^ 32
    else target / 2 ^ (8 * (exponent - 3)) % 2 ^ 32

-- The mantissa is signed, so its highest digit stays free.
abbrev pub pack : ℕ → ℕ → ℕ
pack mantissa exponent =
    if not (bit_and mantissa 0x00800000 == 0)
    then bit_or (mantissa / 2 ^ 8) ((exponent + 1) * 2 ^ 24 % 2 ^ 32)
    else bit_or mantissa (exponent * 2 ^ 24 % 2 ^ 32)

unfoldable pub into_compact : ℕ → ℕ
into_compact target =
    let exponent = (bits target + 7) / 8 in pack (full_mantissa target exponent) exponent

abbrev pub is_greater_or_equal : ℕ → ℕ → Bool
is_greater_or_equal target other = leb other target

abbrev pub to_sha256_array : ℕ → List ℕ
to_sha256_array target = le_bytes 32 target

abbrev pub from_sha256_array : List ℕ → ℕ
from_sha256_array bytes = from_le bytes

unfoldable pub meets : List ℕ → ℕ → Bool
meets hash target = is_greater_or_equal target (from_sha256_array hash)

-- `Shares` is the number in it.
unfoldable pub shares : ℕ → ℕ → Result Error ℕ
shares usize target = do difficulty ← get_difficulty usize target; ok (difficulty % 2 ^ 64)

unfoldable pub account_solution : ℕ → ℕ → ℕ → Result Error ℕ
account_solution usize value target = do
  difficulty ← get_difficulty usize target
  ok ((value + difficulty % 2 ^ 64) % 2 ^ 64)
