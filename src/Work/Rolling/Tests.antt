-- ===== src/Work/Rolling/Tests.antt =====
-- An engine for works of two midstates, where the state of SHA256 is the sum of the input.
use Prim.Native.Nat.{bit_and}
use bic_os.Base.{
  ℕ, ◌+◌, ◌%◌, ◌^◌, ◌<◌, ◌≤◌, ◌-◌, ◌≡◌, ◌↔◌, refl, List, [], ◌∷◌, ok, some, replicate, arith, true,
  le_bytes,
}
use bic_os.Bitcoin.Header.{into_bytes, midstate}
use bic_os.Work.Engine.{atomic_range, checked_add}
use bic_os.Work.Rolling.{
  LoopState, exhausted, continue, Job, Midstate, Assignment, VersionRolling, version_rolling,
  terminate_rolling, next_work, next_work_of, next, generate, midstates_from, get_block_version,
  get_ntime_offset, is_exhausted, is_exhausted_from, bip320_version_mask, unwrap, block_chunk1,
}
use bic_os.Work.Rolling.Next.{at}
use bic_os.Work.Rolling.Exhaustion.{
  calls, states, calls-version_rolling, is_exhausted-calls, calls-terminate,
}
use bic_os.Work.Rolling.Distinct.{calls-distinct, calls-version}

abbrev sum : List ℕ → ℕ
sum [] = 0
sum (b ∷ bs) = b + sum bs

abbrev job : Job
job = record {
  version = 0x3fffe005;
  previous_hash = replicate 32 1;
  merkle_root = replicate 32 2;
  time = 1000;
  bits = 0x1d00ffff;
}

abbrev engine : VersionRolling
engine = record {
  job = job;
  midstate_count = 2;
  curr_range = record { max_index = 16777216; step_size = 2; curr_index = 0 };
  base_version = 0x20000005;
}

engine-made : version_rolling job 2 ≡ ok engine
unfolding version_rolling atomic_range
engine-made = refl

-- The sum of the bytes of the version, 32 ones and 28 twos.
abbrev midstate_at : ℕ → ℕ → Midstate ℕ
midstate_at version state = record { version = version; state = state }

abbrev work0 : Assignment ℕ
work0 = record {
  job = job;
  midstates = midstate_at 0x20000005 125 ∷ midstate_at 0x20002005 157 ∷ [];
  ntime = 1000;
}

abbrev work1 : Assignment ℕ
work1 = record {
  job = job;
  midstates = midstate_at 0x20004005 189 ∷ midstate_at 0x20006005 221 ∷ [];
  ntime = 1000;
}

abbrev engine2 : VersionRolling
engine2 = record engine {
  curr_range = record { max_index = 16777216; step_size = 2; curr_index = 4 };
}

abbrev returned : List (LoopState (Assignment ℕ)) × VersionRolling
returned = (continue work0 ∷ continue work1 ∷ [], engine2)

called : calls sum 2 engine ≡ ok returned
unfolding next_work next_work_of next checked_add generate midstates_from get_block_version
    get_ntime_offset is_exhausted_from le_bytes into_bytes midstate
called = refl

unwrapped0 : unwrap (continue work0) ≡ some work0
unfolding unwrap
unwrapped0 = refl

unwrapped1 : unwrap (continue work1) ≡ some work1
unfolding unwrap
unwrapped1 = refl

calls-version_rolling_example :
    calls sum 2 engine ≡ ok (states sum job 2 0 2, at job 2 (Prim.Native.Nat.min 2 8388608))
calls-version_rolling_example =
    calls-version_rolling sum job 2 engine (omega arith) (omega arith) engine-made 2

is_exhausted-calls_example : (is_exhausted engine2 ≡ true) ↔ (8388608 ≤ 2)
is_exhausted-calls_example =
    is_exhausted-calls sum job 2 engine (omega arith) (omega arith) engine-made 2 returned called

calls-terminate_example :
    calls sum 3 (terminate_rolling engine2) ≡ ok (replicate 3 exhausted, terminate_rolling engine2)
calls-terminate_example = calls-terminate sum engine2 (omega arith) (omega arith) 3

abbrev index1 : ℕ
index1 = 1

abbrev index0 : ℕ
index0 = 0

calls-distinct_example : (index1 ≡ index1) × (index0 ≡ index0)
calls-distinct_example =
    calls-distinct sum job 2 engine (omega arith) (omega arith) engine-made 2 returned called 1 1 0
      0 (continue work1) (continue work1) work1 work1 (midstate_at 0x20004005 189)
      (midstate_at 0x20004005 189) refl refl unwrapped1 unwrapped1 refl refl refl refl

calls-version_example :
    (221 ≡ midstate sum (block_chunk1 sum job 0x20006005))
    × (0x20006005 < 2 ^ 32)
    × (bit_and 0x20006005 (2 ^ 32 - 1 - bip320_version_mask)
        ≡ bit_and job.version (2 ^ 32 - 1 - bip320_version_mask))
    × (o : ℕ) × (o < 256)
    × (1000 ≡ (job.time + o) % 2 ^ 32)
calls-version_example =
    calls-version sum job 2 engine (omega arith) (omega arith) engine-made 2 returned called 1 1
      (continue work1) work1 (midstate_at 0x20006005 221) refl unwrapped1 refl
