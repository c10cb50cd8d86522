-- ===== src/Work/Rolling/Next.antt =====
-- One call of `next_work`: what it returns and what it leaves.
use Prim.Native.Nat.{bit_and}
use native.Mathlib.Nat.{
  mul-le-mul_right, mul_assoc, mul_comm, suc-mul, mul-add-div_right, div-eq_of_lt,
  div-div-eq-div-mul,
}
use bic_os.Base.{
  ℕ, zero, suc, ◌+◌, ◌-◌, ◌*◌, ◌/◌, ◌%◌, ◌^◌, ◌<◌, ◌≤◌, ◌≡◌, refl, sym, ap, ◌∙◌, Bool, true, false,
  none, some, List, [], ◌∷◌, ok, ltb, leb, ◌==◌, if◌then◌else◌, le→leb, lt→ltb, arith, ==_iff,
  or_middle, and_outer, Bool-cases, ltb→lt, not, inl, inr,
}
use bic_os.Work.Engine.{checked_add}
use bic_os.Work.Rolling.{
  LoopState, exhausted, break, continue, Job, Midstate, Assignment, VersionRolling, base_version_of,
  get_block_version, get_ntime_offset, next, is_exhausted_from, is_exhausted, is_none,
  midstates_from, generate, next_work, next_work_of, block_chunk1,
}
use bic_os.Bitcoin.Header.{midstate}

-- The version of the job with the digits of BIP320 set to a number.
abbrev pub rolled : Job → ℕ → ℕ
rolled job x = job.version % 8192 + 8192 * (65536 * (job.version / 536870912) + x)

-- The engine after so many works.
abbrev pub at : Job → ℕ → ℕ → VersionRolling
at job m j = record {
  job = job;
  midstate_count = m;
  curr_range = record { max_index = 16777216; step_size = m; curr_index = j * m };
  base_version = base_version_of job;
}

get_block_version-at :
    (job : Job) (m j index : ℕ)
    → job.version < 2 ^ 32
    → get_block_version (at job m j) index ≡ ok (rolled job (index % 65536))
unfolding get_block_version
get_block_version-at job m j index word =
    let x = index % 65536 in
    let small : x < 65536 = omega arith in
    let fits : x * 8192 % 4294967296 ≡ 8192 * x = omega arith in
    let base : bit_and job.version 3758104575
        ≡ job.version % 8192 + 8192 * (65536 * (job.version / 536870912)) =
      omega (arith, and_outer job.version) in
    let middle = or_middle (job.version % 8192) (job.version / 536870912) x (omega arith) small in
    rw (le→leb x 65535 (omega arith), fits, base) (ap ok middle)

-- A count of midstates that divides the space of versions, and the works that the engine has.
module _ (m q : ℕ) (pos : 0 < m) (whole : q * m ≡ 65536) where
  room : (j : ℕ) → j < 256 * q → j * m + m ≤ 16777216
  room j lt =
      let le : suc j * m ≤ 256 * q * m = mul-le-mul_right m lt in
      let group : 256 * q * m ≡ 256 * 65536 = mul_assoc 256 q m ∙ ap (λ x. 256 * x) whole in
      let step : suc j * m ≡ j * m + m = suc-mul j m in omega (arith, le, group, step)

  -- All the indexes of a range have the same offset of the time.
  pub offset_of : (j a : ℕ) → a < m → (j * m + a) / 65536 ≡ j / q
  offset_of j a lt =
      let at_m : (j * m + a) / m ≡ j + a / m = mul-add-div_right pos j a in
      let none : a / m ≡ 0 = div-eq_of_lt lt in
      let at_j : (j * m + a) / m ≡ j = omega (arith, at_m, none) in
      let both : (j * m + a) / m / q ≡ (j * m + a) / (m * q) = div-div-eq-div-mul _ m q in
      ap (λ x. (j * m + a) / x) (sym whole ∙ mul_comm q m) ∙ sym both ∙ ap (λ x. x / q) at_j

  pub offset_small : (j : ℕ) → j < 256 * q → j / q < 256
  offset_small j lt =
      let le = room j lt in
      let same : (j * m + 0) / 65536 ≡ j / q = offset_of j 0 pos in omega (arith, le, same)

  get_ntime_offset-at :
      (v : VersionRolling) (j a : ℕ)
      → j < 256 * q
      → a < m
      → get_ntime_offset v (j * m + a) ≡ ok (j / q)
  unfolding get_ntime_offset
  get_ntime_offset-at v j a lt lt' =
      rw (offset_of j a lt', lt→ltb (j / q) 256 (offset_small j lt)) refl

  checked_add-at :
      (job : Job) (j c : ℕ)
      → checked_add (at job m j).curr_range c m
        ≡ (if leb (c + m) 16777216 then some (c + m) else none)
  unfolding checked_add
  checked_add-at job j c = ground arith

none_iff : {A : Type 0} (b : Bool) (a : A) → is_none (if b then some a else none) ≡ not b
none_iff true a = refl
none_iff false a = refl

last_or_not :
    {A : Type 0} (more : Bool) (w : A) (other : LoopState A)
    → (if not more then break w else continue w)
      ≡ (if more then continue w else if true then break w else other)
last_or_not true w other = refl
last_or_not false w other = refl

module _ {M : Type 0} (engine : List ℕ → M) where
  -- The midstates for the versions of so many indexes from one on.
  abbrev pub midstates_of : Job → ℕ → ℕ → List (Midstate M)
  midstates_of job index zero = []
  midstates_of job index (suc n) =
      let version = rolled job (index % 65536) in
      record { version = version; state = midstate engine (block_chunk1 engine job version) }
      ∷ midstates_of job (suc index) n

  -- The work for a range, the first one being number 0.
  abbrev pub work : Job → ℕ → ℕ → ℕ → Assignment M
  work job m q j = record {
    job = job;
    midstates = midstates_of job (j * m) m;
    ntime = (job.time + j / q) % 2 ^ 32;
  }

  abbrev pub state_of : Job → ℕ → ℕ → ℕ → LoopState (Assignment M)
  state_of job m q j =
      if ltb (suc j) (256 * q)
      then continue (work job m q j)
      else if ltb j (256 * q)
      then break (work job m q j)
      else exhausted

  midstates_from-at :
      (job : Job) (m j index n : ℕ)
      → job.version < 2 ^ 32
      → midstates_from engine (at job m j) index n ≡ ok (midstates_of job index n)
  unfolding midstates_from
  midstates_from-at job m j index zero word = refl
  midstates_from-at job m j index (suc n) word =
      rw (get_block_version-at job m j index word)
        (rw (midstates_from-at job m j (suc index) n word) refl)

  module _ (job : Job) (m q : ℕ) (word : job.version < 2 ^ 32) (pos : 0 < m)
      (whole : q * m ≡ 65536) where
    -- One more range fits as long as there is one more work.
    fits_iff : (j : ℕ) → leb (j * m + m) 16777216 ≡ ltb j (256 * q)
    fits_iff j =
        let all : 256 * q * m ≡ 256 * 65536 = mul_assoc 256 q m ∙ ap (λ x. 256 * x) whole in
        elim (Bool-cases (ltb j (256 * q))) [
          | inl more ↦ le→leb _ _ (room m q pos whole j (ltb→lt _ _ more)) ∙ sym more
          | inr done ↦
              let ge : 256 * q ≤ j = ground (arith, done) in
              let le : 256 * q * m ≤ j * m = mul-le-mul_right m ge in
              ground (arith, done, all, le, pos)
        ]

    pub is_exhausted-at : (j : ℕ) → is_exhausted (at job m j) ≡ not (ltb j (256 * q))
    unfolding is_exhausted is_exhausted_from
    is_exhausted-at j =
        rw (checked_add-at m q pos whole job j (j * m), fits_iff j) (none_iff _ (j * m + m))

    is_exhausted_from-at :
        (j : ℕ)
        → j < 256 * q
        → is_exhausted_from (at job m (suc j)).curr_range (j * m + m) ≡ not (ltb (suc j) (256 * q))
    unfolding is_exhausted_from
    is_exhausted_from-at j lt =
        let product : suc j * m ≡ j * m + m = suc-mul j m in
        let fits = rw product at (fits_iff (suc j)) in
        rw (checked_add-at m q pos whole job (suc j) (j * m + m), fits) (none_iff _ (j * m + m + m))

    generate-at :
        (j : ℕ)
        → j < 256 * q
        → generate engine (at job m j) (j * m) (j * m + m) (at job m (suc j)).curr_range
          ≡ ok (state_of job m q j)
    unfolding generate
    generate-at j lt =
        let long : j * m + m - j * m ≡ m = omega arith in
        let same : m == m ≡ true = (==_iff m m).1 refl in
        let last : j * m + m - 1 ≡ j * m + (m - 1) = omega arith in
        let zero_th : j * m + 0 ≡ j * m = omega arith in
        let first : get_ntime_offset (at job m j) (j * m) ≡ ok (j / q) =
          rw zero_th at (get_ntime_offset-at m q pos whole (at job m j) j 0 lt pos) in
        let final = get_ntime_offset-at m q pos whole (at job m j) j (m - 1) lt (omega arith) in
        let same_offset : j / q == j / q ≡ true = (==_iff _ _).1 refl in
        let exact = is_exhausted_from-at j lt in
        rw (long, same)
          (rw (midstates_from-at job m j (j * m) m word) (
            rw (last, first)
              (rw final (
                rw (same_offset, exact)
                  (rw (lt→ltb j (256 * q) lt) (ap ok (last_or_not _ _ exhausted)))))))

    next-at :
        (j : ℕ)
        → j < 256 * q
        → next (at job m j).curr_range ≡ (some (j * m, j * m + m), (at job m (suc j)).curr_range)
    unfolding next
    next-at j lt =
        let product : suc j * m ≡ j * m + m = suc-mul j m in
        let fits : leb (j * m + m) 16777216 ≡ true = le→leb _ _ (room m q pos whole j lt) in
        rw (checked_add-at m q pos whole job j (j * m), fits, product) refl

    pub next_work-at :
        (j : ℕ)
        → j < 256 * q
        → next_work engine (at job m j) ≡ ok (state_of job m q j, at job m (suc j))
    unfolding next_work next_work_of
    next_work-at j lt = rw (next-at j lt) (rw (generate-at j lt) refl)

    pub next_work-end :
        (j : ℕ) → 256 * q ≤ j → next_work engine (at job m j) ≡ ok (state_of job m q j, at job m j)
    unfolding next_work next_work_of next
    next_work-end j ge =
        let all : 256 * q * m ≡ 256 * 65536 = mul_assoc 256 q m ∙ ap (λ x. 256 * x) whole in
        let le : 256 * q * m ≤ j * m = mul-le-mul_right m ge in
        let over : leb (j * m + m) 16777216 ≡ false = ground (arith, all, le, pos) in
        let none_now : ltb j (256 * q) ≡ false = ground (arith, ge) in
        let none_after : ltb (suc j) (256 * q) ≡ false = ground (arith, ge) in
        rw (none_now, none_after) (rw (checked_add-at m q pos whole job j (j * m), over) refl)
