-- ===== src/Antminer/Address.antt =====
-- Addresses: `MidstateCount`, `ChipAddress` and `CoreAddress` of
-- open/bosminer/bosminer-am1-s9/src/bm1387.rs, and `ExtWorkId` of io/ext_work_id.rs there. A shift
-- is written as a product or a quotient by a power of two; a `usize` that is shifted to the left
-- here is below 2 ^ 16, by the assertion before it.
pub mod WorkIds
pub mod Cores
mod Tests
use Prim.Native.Nat.{bit_and, bit_or}
use bic_os.Base.{
  ℕ, ◌-◌, ◌*◌, ◌/◌, ◌%◌, ◌^◌, Bool, true, false, Result, ok, err, ◌>>=◌, ◌>>◌, guard, ltb, ◌==◌,
  if◌then◌else◌,
}

-- The panics of the source.
pub data Panic : Type 0 where
  midstate_count_unsupported midstate_log2_invalid : Panic
  ext_id_too_large work_id_too_large midstate_idx_too_large : Panic
  chip_address_too_large : Panic

pub record MidstateCount : Type 0 where
  pub log2 : ℕ

-- `MIDSTATE_CNT_A`.
pub data MidstateCnt : Type 0 where
  one two four : MidstateCnt

unfoldable pub midstate_count : ℕ → Result Panic MidstateCount
midstate_count count =
    if count == 1
    then ok (record { log2 = 0 })
    else if count == 2
    then ok (record { log2 = 1 })
    else if count == 4
    then ok (record { log2 = 2 })
    else err midstate_count_unsupported

unfoldable pub to_reg : MidstateCount → Result Panic MidstateCnt
to_reg c =
    if c.log2 == 0
    then ok one
    else if c.log2 == 1
    then ok two
    else if c.log2 == 2
    then ok four
    else err midstate_log2_invalid

abbrev pub to_count : MidstateCount → ℕ
to_count c = 2 ^ c.log2

abbrev pub to_bits : MidstateCount → ℕ
to_bits c = c.log2

abbrev pub to_mask : MidstateCount → ℕ
to_mask c = 2 ^ c.log2 - 1

pub record ExtWorkId : Type 0 where
  pub work_id : ℕ
  pub midstate_idx : ℕ

abbrev pub ext_work_id_count : ℕ
ext_work_id_count = 65536

abbrev pub get_work_id_count : MidstateCount → ℕ
get_work_id_count c = ext_work_id_count / 2 ^ to_bits c

unfoldable pub from_hw : MidstateCount → ℕ → Result Panic ExtWorkId
from_hw c ext_id = do
  guard (ltb ext_id ext_work_id_count) ext_id_too_large
  ok (record { work_id = ext_id / 2 ^ to_bits c; midstate_idx = bit_and ext_id (to_mask c) })

unfoldable pub to_hw : MidstateCount → ExtWorkId → Result Panic ℕ
to_hw c x = do
  guard (ltb x.work_id (get_work_id_count c)) work_id_too_large
  guard (ltb x.midstate_idx (to_count c)) midstate_idx_too_large
  ok (bit_or (x.work_id * 2 ^ to_bits c) x.midstate_idx % 2 ^ 32)

pub data ChipAddress : Type 0 where
  all : ChipAddress
  one_chip : ℕ → ChipAddress

abbrev pub is_broadcast : ChipAddress → Bool
is_broadcast all = true
is_broadcast (one_chip x) = false

unfoldable pub to_hw_addr : ChipAddress → Result Panic ℕ
to_hw_addr all = ok 0
to_hw_addr (one_chip x) = do guard (ltb (x * 4) 256) chip_address_too_large; ok (x * 4)

pub record CoreAddress : Type 0 where
  pub chip : ℕ
  pub core : ℕ

-- `CoreAddress::new`.
unfoldable pub core_address : ℕ → CoreAddress
core_address nonce = record { chip = bit_and (nonce / 4) 63; core = bit_and (nonce / 2 ^ 24) 127 }
