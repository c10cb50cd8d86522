-- ===== src/Work/Rolling/Distinct.antt =====
-- What the works of one engine look for: versions that the job allows, and no header twice.
use Prim.Native.Nat.{bit_and}
use mathlib.Core.Option.{some-injective}
use native.Mathlib.Nat.{mul-add-div_right, div-eq_of_lt}
use bic_os.Base.{
  ℕ, zero, suc, ◌+◌, ◌-◌, ◌*◌, ◌/◌, ◌%◌, ◌^◌, ◌<◌, ◌≡◌, refl, sym, ap, ◌∙◌, some, List, ok,
  get_elem?, ltb, Bool-cases, inl, inr, arith, ltb→lt, ok-injective, and_outer,
}
use bic_os.Bitcoin.Header.{midstate}
use bic_os.Work.Rolling.{
  LoopState, Job, Assignment, VersionRolling, version_rolling, unwrap, Midstate, block_chunk1,
  bip320_version_mask,
}
use bic_os.Work.Rolling.Next.{work, state_of, rolled, midstates_of, offset_of, offset_small}
use bic_os.Work.Rolling.Exhaustion.{calls, states, calls-version_rolling, version_rolling-eq-ok}

module _ {M : Type 0} (engine : List ℕ → M) where
  get_elem?-midstates_of :
      (job : Job) (index n a : ℕ) (s : Midstate M)
      → get_elem? (midstates_of engine job index n) a ≡ some s
      → (a < n)
        × (s.version ≡ rolled job ((index + a) % 65536))
        × (s.state ≡ midstate engine (block_chunk1 engine job s.version))
  get_elem?-midstates_of job index zero a s e = absurd (cc)
  get_elem?-midstates_of job index (suc n) zero s e =
      let same = some-injective _ _ e in
      let here : index + 0 ≡ index = omega arith in
      rw here (omega arith, sym (ap (λ x. x.version) same), rw (sym same) refl)
  get_elem?-midstates_of job index (suc n) (suc a) s e =
      let (lt, version, state) = get_elem?-midstates_of job (suc index) n a s e in
      let shift : suc index + a ≡ index + suc a = omega arith in
      (omega arith, rw shift at version, state)

  get_elem?-states :
      (job : Job) (m j n i : ℕ) (x : LoopState (Assignment M))
      → get_elem? (states engine job m j n) i ≡ some x
      → x ≡ state_of engine job m (65536 / m) (j + i)
  get_elem?-states job m j zero i x e = absurd (cc)
  get_elem?-states job m j (suc n) zero x e =
      let here : j + 0 ≡ j = omega arith in rw here (sym (some-injective _ _ e))
  get_elem?-states job m j (suc n) (suc i) x e =
      let shift : suc j + i ≡ j + suc i = omega arith in
      let rest = get_elem?-states job m (suc j) n i x e in rw shift at rest

  unwrap-state_of :
      (job : Job) (m q j : ℕ) (w : Assignment M)
      → unwrap (state_of engine job m q j) ≡ some w
      → (j < 256 * q) × (w ≡ work engine job m q j)
  unfolding unwrap
  unwrap-state_of job m q j w e = elim (Bool-cases (ltb (suc j) (256 * q))) [
    | inl more ↦
        let found = rw more at e in
        let lt = ltb→lt _ _ more in (omega arith, sym (some-injective _ _ found))
    | inr no_more ↦
        let other = rw no_more at e in
        elim (Bool-cases (ltb j (256 * q))) [
          | inl last ↦
              let found = rw last at other in (ltb→lt _ _ last, sym (some-injective _ _ found))
          | inr done ↦ absurd (let nothing = rw done at other in cc)
        ]
  ]

  -- A midstate of a work that a call returned.
  pub record Given (job : Job) (m : ℕ) (w : Assignment M) (s : Midstate M) (j a : ℕ) : Type 0 where
    pub existing : j < 256 * (65536 / m)
    pub below : a < m
    pub version : s.version ≡ rolled job ((j * m + a) % 65536)
    pub state : s.state ≡ midstate engine (block_chunk1 engine job s.version)
    pub ntime : w.ntime ≡ (job.time + j / (65536 / m)) % 2 ^ 32

  module _ (job : Job) (m : ℕ) (v : VersionRolling) (word : job.version < 2 ^ 32)
      (word' : m < 2 ^ 32) (made : version_rolling job m ≡ ok v) (n : ℕ)
      (returned : List (LoopState (Assignment M)) × VersionRolling)
      (called : calls engine n v ≡ ok returned) where
    given :
        (j a : ℕ) (x : LoopState (Assignment M)) (w : Assignment M) (s : Midstate M)
        → get_elem? returned.0 j ≡ some x
        → unwrap x ≡ some w
        → get_elem? w.midstates a ≡ some s
        → Given job m w s j a
    given j a x w s at_j value at_a =
        let all = calls-version_rolling engine job m v word word' made n in
        let list : returned.0 ≡ states engine job m 0 n =
          ap (λ r. r.0) (ok-injective _ _ (sym called ∙ all)) in
        let zero_th : 0 + j ≡ j = omega arith in
        let at_j' = rw list at at_j in
        let x_is' = get_elem?-states job m 0 n j x at_j' in
        let x_is = rw zero_th at x_is' in
        let value' = rw x_is at value in
        let (lt, w_is) = unwrap-state_of job m (65536 / m) j w value' in
        let at_a' = rw w_is at at_a in
        let (lt', version, state) = get_elem?-midstates_of job (j * m) m a s at_a' in
        record {
          existing = lt;
          below = lt';
          version = version;
          state = state;
          ntime = ap (λ y. y.ntime) w_is;
        }

    -- Of all the works that any number of calls on a new engine return, no two midstates have the
    -- same version and the same time.
    pub calls-distinct :
        (j k a b : ℕ) (x y : LoopState (Assignment M)) (w u : Assignment M) (s t : Midstate M)
        → get_elem? returned.0 j ≡ some x
        → get_elem? returned.0 k ≡ some y
        → unwrap x ≡ some w
        → unwrap y ≡ some u
        → get_elem? w.midstates a ≡ some s
        → get_elem? u.midstates b ≡ some t
        → s.version ≡ t.version
        → w.ntime ≡ u.ntime
        → (j ≡ k) × (a ≡ b)
    calls-distinct j k a b x y w u s t at_j at_k is_w is_u at_a at_b same_version same_time =
        let (pos, whole, start) = version_rolling-eq-ok job m v word' made in
        let q = 65536 / m in
        let g = given j a x w s at_j is_w at_a in
        let h = given k b y u t at_k is_u at_b in
        let early = offset_small m q pos whole j g.existing in
        let early' = offset_small m q pos whole k h.existing in
        let quotient : (j * m + a) / 65536 ≡ j / q = offset_of m q pos whole j a g.below in
        let quotient' : (k * m + b) / 65536 ≡ k / q = offset_of m q pos whole k b h.below in
        let turn : (job.time + j / q) % 2 ^ 32 ≡ (job.time + k / q) % 2 ^ 32 =
          sym g.ntime ∙ same_time ∙ h.ntime in
        let versions : rolled job ((j * m + a) % 65536) ≡ rolled job ((k * m + b) % 65536) =
          sym g.version ∙ same_version ∙ h.version in
        let offsets : j / q ≡ k / q = omega (arith, turn, early, early') in
        let rest : (j * m + a) % 65536 ≡ (k * m + b) % 65536 = omega (arith, versions) in
        let index : j * m + a ≡ k * m + b = omega (arith, quotient, quotient', offsets, rest) in
        let at_m : (j * m + a) / m ≡ j + a / m = mul-add-div_right pos j a in
        let at_m' : (k * m + b) / m ≡ k + b / m = mul-add-div_right pos k b in
        let none_a : a / m ≡ 0 = div-eq_of_lt g.below in
        let none_b : b / m ≡ 0 = div-eq_of_lt h.below in
        let works : j ≡ k = omega (arith, at_m, at_m', none_a, none_b, ap (λ i. i / m) index) in
        let index' = rw works at index in (works, omega (arith, index'))

    -- Each midstate of a work that a call on a new engine returns is that of the header with the
    -- hashes of the job and the version of the midstate. That version is a word, and outside the
    -- mask of BIP320 it is the version of the job. The time of the work is less than 256 seconds
    -- after that of the job.
    pub calls-version :
        (j a : ℕ) (x : LoopState (Assignment M)) (w : Assignment M) (s : Midstate M)
        → get_elem? returned.0 j ≡ some x
        → unwrap x ≡ some w
        → get_elem? w.midstates a ≡ some s
        → (s.state ≡ midstate engine (block_chunk1 engine job s.version))
          × (s.version < 2 ^ 32)
          × (bit_and s.version (2 ^ 32 - 1 - bip320_version_mask)
              ≡ bit_and job.version (2 ^ 32 - 1 - bip320_version_mask))
          × (o : ℕ) × (o < 256)
          × (w.ntime ≡ (job.time + o) % 2 ^ 32)
    calls-version j a x w s at_j is_w at_a =
        let (pos, whole, start) = version_rolling-eq-ok job m v word' made in
        let g = given j a x w s at_j is_w at_a in
        let outer = and_outer s.version in
        let outer' = and_outer job.version in
        let version = g.version in
        (
          g.state,
          omega (arith, version, word),
          omega (arith, outer, outer', version, word),
          j / (65536 / m),
          offset_small m (65536 / m) pos whole j g.existing,
          g.ntime,
        )
