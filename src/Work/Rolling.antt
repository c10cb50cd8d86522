-- ===== src/Work/Rolling.antt =====
-- `VersionRolling` of open/bosminer/bosminer/src/work/engine.rs, and `LoopState`, `Midstate` and
-- `Assignment` of open/bosminer/bosminer/src/work.rs. `next` is the call of one task that no other
-- interrupts. The state of SHA256 after an input is a parameter.
use Prim.Native.Nat.{bit_and, bit_or}
use bic_os.Base.{
  ℕ, zero, suc, ◌+◌, ◌-◌, ◌*◌, ◌/◌, ◌%◌, ◌^◌, Bool, true, false, Option, none, some, List, [], ◌∷◌,
  length, Result, ok, err, ◌>>=◌, ◌>>◌, guard, leb, ltb, ◌==◌, if◌then◌else◌,
}
use bic_os.Bitcoin.Header.{BlockHeader, default, midstate}
use bic_os.Work.Engine.{
  AtomicRange, Panic, leftover, division_by_zero, large_version, large_ntime, range_len,
  mixed_ntime, atomic_range, checked_add, terminate,
}
mod Next
mod Exhaustion
mod Distinct
mod Tests

pub data LoopState (T : Type 0) : Type 0 where
  exhausted : LoopState T
  break continue : T → LoopState T

-- `none` where the source panics.
unfoldable pub unwrap : {T : Type 0} → LoopState T → Option T
unwrap exhausted = none
unwrap (break value) = some value
unwrap (continue value) = some value

-- What a job says of itself.
pub record Job : Type 0 where
  pub version : ℕ
  pub previous_hash : List ℕ
  pub merkle_root : List ℕ
  pub time : ℕ
  pub bits : ℕ

pub record Midstate (M : Type 0) : Type 0 where
  pub version : ℕ
  pub state : M

pub record Assignment (M : Type 0) : Type 0 where
  pub job : Job
  pub midstates : List (Midstate M)
  pub ntime : ℕ

pub record VersionRolling : Type 0 where
  pub job : Job
  pub midstate_count : ℕ
  pub curr_range : AtomicRange
  pub base_version : ℕ

abbrev pub bip320_version_mask : ℕ
bip320_version_mask = 0x1fffe000

abbrev pub bip320_version_shift : ℕ
bip320_version_shift = 13

abbrev pub bip320_version_max : ℕ
bip320_version_max = 65535

abbrev pub bip320_upper_bound_exclusive_index : ℕ
bip320_upper_bound_exclusive_index = bip320_version_max + 1

abbrev pub roll_ntime_seconds : ℕ
roll_ntime_seconds = 256

-- `!` of a `u32` flips all its digits.
abbrev pub base_version_of : Job → ℕ
base_version_of job = bit_and job.version (2 ^ 32 - 1 - bip320_version_mask)

unfoldable pub version_rolling : Job → ℕ → Result Panic VersionRolling
version_rolling job midstate_count = do
  guard (ltb 0 (midstate_count % 2 ^ 32)) division_by_zero
  guard (bip320_upper_bound_exclusive_index % (midstate_count % 2 ^ 32) == 0) leftover
  range ←
      atomic_range 0 (bip320_upper_bound_exclusive_index * roll_ntime_seconds)
        (midstate_count % 2 ^ 32)
  ok (record {
    job = job;
    midstate_count = midstate_count;
    curr_range = range;
    base_version = base_version_of job;
  })

unfoldable pub get_block_version : VersionRolling → ℕ → Result Panic ℕ
get_block_version v index =
    let version = index % bip320_upper_bound_exclusive_index in
    do
      guard (leb version bip320_version_max) large_version
      ok (bit_or v.base_version (version * 2 ^ bip320_version_shift % 2 ^ 32))

unfoldable pub get_ntime_offset : VersionRolling → ℕ → Result Panic ℕ
get_ntime_offset v index =
    let ntime_offset = index / bip320_upper_bound_exclusive_index in
    do guard (ltb ntime_offset roll_ntime_seconds) large_ntime; ok ntime_offset

-- The range and the range of indexes.
abbrev pub next_of : AtomicRange → Option ℕ → Option (ℕ × ℕ) × AtomicRange
next_of r none = (none, r)
next_of r (some next) = (some (r.curr_index, next), record r { curr_index = next })

unfoldable pub next : AtomicRange → Option (ℕ × ℕ) × AtomicRange
next r = next_of r (checked_add r r.curr_index r.step_size)

abbrev pub is_none : {A : Type 0} → Option A → Bool
is_none none = true
is_none (some a) = false

-- Of a range, from the index that is given.
unfoldable pub is_exhausted_from : AtomicRange → ℕ → Bool
is_exhausted_from r current = is_none (checked_add r current r.step_size)

unfoldable pub is_exhausted : VersionRolling → Bool
is_exhausted v = is_exhausted_from v.curr_range v.curr_range.curr_index

abbrev pub terminate_rolling : VersionRolling → VersionRolling
terminate_rolling v = record v { curr_range = terminate v.curr_range }

module _ {M : Type 0} (engine : List ℕ → M) where
  -- The first chunk of the header, with all invariants.
  abbrev pub block_chunk1 : Job → ℕ → BlockHeader
  block_chunk1 job version = record default {
    version = version;
    previous_hash = job.previous_hash;
    merkle_root = job.merkle_root;
  }

  -- From an index on, as many as there are.
  unfoldable pub midstates_from : VersionRolling → ℕ → ℕ → Result Panic (List (Midstate M))
  midstates_from v index zero = ok []
  midstates_from v index (suc n) = do
    version ← get_block_version v index
    rest ← midstates_from v (suc index) n
    ok (record { version = version; state = midstate engine (block_chunk1 v.job version) } ∷ rest)

  unfoldable pub generate :
      VersionRolling → ℕ → ℕ → AtomicRange → Result Panic (LoopState (Assignment M))
  generate v current next range = do
    guard (v.midstate_count == next - current) range_len
    midstates ← midstates_from v current (next - current)
    ntime_offset ← get_ntime_offset v current
    last_offset ← get_ntime_offset v (next - 1)
    guard (ntime_offset == last_offset) mixed_ntime
    let work : Assignment M = record {
      job = v.job;
      midstates = midstates;
      ntime = (v.job.time + ntime_offset) % 2 ^ 32;
    }
    ok (if is_exhausted_from range next then break work else continue work)

  unfoldable pub next_work_of :
      VersionRolling
      → Option (ℕ × ℕ) × AtomicRange
      → Result Panic (LoopState (Assignment M) × VersionRolling)
  next_work_of v (none, range) = ok (exhausted, v)
  next_work_of v (some (current, next), range) = do
    state ← generate v current next range
    ok (state, record v { curr_range = range })

  unfoldable pub next_work :
      VersionRolling → Result Panic (LoopState (Assignment M) × VersionRolling)
  next_work v = next_work_of v (next v.curr_range)
