-- ===== src/Work/Rolling/Exhaustion.antt =====
-- Any number of calls of `next_work`, one after the other.
use Prim.Native.Nat.{min}
use native.Mathlib.Nat.{mod-eq_of_lt, div-add-mod', zero-mul}
use bic_os.Base.{
  ℕ, zero, suc, ◌+◌, ◌*◌, ◌/◌, ◌%◌, ◌^◌, ◌<◌, ◌≤◌, ◌≡◌, ◌↔◌, refl, sym, ap, ◌∙◌, true, false,
  replicate, none, List, [], ◌∷◌, Result, ok, ◌>>=◌, ltb, ◌==◌, Bool-cases, inl, inr, arith, ltb→lt,
  ok-injective, ==_iff,
}
use bic_os.Work.Engine.{AtomicRange, Panic, atomic_range, checked_add, terminate}
use bic_os.Work.Rolling.{
  LoopState, exhausted, Job, Assignment, VersionRolling, version_rolling, terminate_rolling,
  next_work, next_work_of, next, is_exhausted,
}
use bic_os.Work.Rolling.Next.{at, state_of, next_work-at, next_work-end, is_exhausted-at}

-- A count that the constructor accepts divides the space, and the engine starts with no work given.
pub version_rolling-eq-ok :
    (job : Job) (m : ℕ) (v : VersionRolling)
    → m < 2 ^ 32
    → version_rolling job m ≡ ok v
    → (0 < m) × (65536 / m * m ≡ 65536) × (v ≡ at job m 0)
unfolding version_rolling atomic_range
version_rolling-eq-ok job m v word made =
    let same : m % 2 ^ 32 ≡ m = mod-eq_of_lt word in
    let made' = rw same at made in
    elim (Bool-cases (ltb 0 m)) [
      | inr zero_count ↦ absurd (let e = rw zero_count at made' in cc)
      | inl pos ↦
          let made'' = rw pos at made' in
          elim (Bool-cases (65536 % m == 0)) [
            | inr left ↦ absurd (let e = rw left at made'' in cc)
            | inl whole ↦
                let made_of = rw whole at made'' in
                let no_rest : 65536 % m ≡ 0 = (==_iff _ _).0 whole in
                let split : 65536 / m * m + 65536 % m ≡ 65536 = div-add-mod' 65536 m in
                (
                  ltb→lt 0 m pos,
                  omega (arith, no_rest, split),
                  rw (zero-mul m) (sym (ok-injective _ _ made_of)),
                )
          ]
    ]

checked_add-over : (r : AtomicRange) (c k : ℕ) → r.max_index < c + k → checked_add r c k ≡ none
unfolding checked_add
checked_add-over r c k lt = ground arith

module _ {M : Type 0} (engine : List ℕ → M) where
  -- What so many calls return, and the engine after them.
  abbrev pub calls :
      ℕ → VersionRolling → Result Panic (List (LoopState (Assignment M)) × VersionRolling)
  calls zero v = ok ([], v)
  calls (suc n) v = do
    now ← next_work engine v
    later ← calls n now.1
    ok (now.0 ∷ later.0, later.1)

  abbrev pub states : Job → ℕ → ℕ → ℕ → List (LoopState (Assignment M))
  states job m j zero = []
  states job m j (suc n) = state_of engine job m (65536 / m) j ∷ states job m (suc j) n

  module _ (job : Job) (m : ℕ) (word : job.version < 2 ^ 32) (pos : 0 < m)
      (whole : 65536 / m * m ≡ 65536) where
    -- Nothing is left after the last work.
    states-end :
        (n j k : ℕ)
        → 256 * (65536 / m) ≤ j
        → 256 * (65536 / m) ≤ k
        → states job m j n ≡ states job m k n
    states-end zero j k le le' = refl
    states-end (suc n) j k le le' =
        let a : ltb j (256 * (65536 / m)) ≡ false = ground (arith, le) in
        let b : ltb (suc j) (256 * (65536 / m)) ≡ false = ground (arith, le) in
        let c : ltb k (256 * (65536 / m)) ≡ false = ground (arith, le') in
        let d : ltb (suc k) (256 * (65536 / m)) ≡ false = ground (arith, le') in
        rw (a, b, c, d)
          (ap (λ rest. exhausted ∷ rest) (states-end n (suc j) (suc k) (omega arith) (omega arith)))

    calls-at :
        (n j : ℕ)
        → j ≤ 256 * (65536 / m)
        → calls n (at job m j) ≡ ok (states job m j n, at job m (min (j + n) (256 * (65536 / m))))
    calls-at zero j le =
        let same : min (j + 0) (256 * (65536 / m)) ≡ j = omega arith in rw same refl
    calls-at (suc n) j le = elim (Bool-cases (ltb j (256 * (65536 / m)))) [
      | inl lt ↦
          let less = ltb→lt j (256 * (65536 / m)) lt in
          let shift : suc j + n ≡ j + suc n = omega arith in
          let later = calls-at n (suc j) less in
          let rest = rw shift at later in
          rw (next_work-at engine job m (65536 / m) word pos whole j less) (rw rest refl)
      | inr done ↦
          let end : 256 * (65536 / m) ≤ j = ground (arith, done) in
          let shift : min (j + n) (256 * (65536 / m)) ≡ min (j + suc n) (256 * (65536 / m)) =
            omega arith in
          let later = calls-at n j le in
          let rest = rw shift at later in
          rw (next_work-end engine job m (65536 / m) word pos whole j end)
            (rw (rest, states-end n j (suc j) end (omega arith)) refl)
    ]

  -- Any number of calls on a new engine: with `m` midstates a work there are 256 * (65536 / m)
  -- works, in order. Each but the last one comes as `Continue`, the last one as `Break`, and
  -- `Exhausted` comes from then on. Work number `j` has the versions for the next `m` numbers of
  -- BIP320 and the time of the job plus `j` over the number of works in the space of versions.
  pub calls-version_rolling :
      (job : Job) (m : ℕ) (v : VersionRolling)
      → job.version < 2 ^ 32
      → m < 2 ^ 32
      → version_rolling job m ≡ ok v
      → (n : ℕ) → calls n v ≡ ok (states job m 0 n, at job m (min n (256 * (65536 / m))))
  calls-version_rolling job m v word word' made n =
      let (pos, whole, same) = version_rolling-eq-ok job m v word' made in
      let count : 0 + n ≡ n = omega arith in
      let all = calls-at job m word pos whole n 0 (omega arith) in
      let all' = rw count at all in rw same all'

  -- A new engine is exhausted after 256 * (65536 / m) calls of `next_work`, and not before.
  pub is_exhausted-calls :
      (job : Job) (m : ℕ) (v : VersionRolling)
      → job.version < 2 ^ 32
      → m < 2 ^ 32
      → version_rolling job m ≡ ok v
      → (n : ℕ) → (later : List (LoopState (Assignment M)) × VersionRolling) → calls n v ≡ ok later
      → (is_exhausted (later.1) ≡ true) ↔ (256 * (65536 / m) ≤ n)
  is_exhausted-calls job m v word word' made n later e =
      let (pos, whole, same) = version_rolling-eq-ok job m v word' made in
      let all = calls-version_rolling job m v word word' made n in
      let after : at job m (min n (256 * (65536 / m))) ≡ later.1 =
        ap (λ r. r.1) (ok-injective _ _ (sym all ∙ e)) in
      let test =
        is_exhausted-at engine job m (65536 / m) word pos whole (min n (256 * (65536 / m))) in
      let test' = rw after at test in
      (λ yes_now. ground (arith, yes_now, test'), λ ge. ground (arith, ge, test'))

  next_work-terminate :
      (v : VersionRolling)
      → 0 < v.curr_range.step_size
      → v.curr_range.max_index + 1 < 2 ^ 32
      → next_work engine (terminate_rolling v) ≡ ok (exhausted, terminate_rolling v)
  unfolding next_work next_work_of next terminate
  next_work-terminate v pos room =
      let r = v.curr_range in
      let over =
        checked_add-over (record r { curr_index = (r.max_index + 1) % 2 ^ 32 })
          ((r.max_index + 1) % 2 ^ 32) r.step_size (omega arith) in
      rw over refl

  -- A terminated engine is exhausted for good: if its range leaves room for one more index and has
  -- a step, any number of calls return `Exhausted` and change nothing.
  pub calls-terminate :
      (v : VersionRolling)
      → 0 < v.curr_range.step_size
      → v.curr_range.max_index + 1 < 2 ^ 32
      → (n : ℕ) → calls n (terminate_rolling v) ≡ ok (replicate n exhausted, terminate_rolling v)
  calls-terminate v pos room zero = refl
  calls-terminate v pos room (suc n) =
      let rest = calls-terminate v pos room n in rw (next_work-terminate v pos room) (rw rest refl)
