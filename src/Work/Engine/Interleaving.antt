-- ===== src/Work/Engine/Interleaving.antt =====
-- However the calls interleave, no index is returned twice.
use mathlib.Core.Option.{some-injective}
use bic_os.Base.{
  ℕ, zero, suc, ◌+◌, ◌%◌, ◌^◌, ◌<◌, ◌≤◌, ◌≡◌, ap, some, List, [], ◌∷◌, ok, arith, get_elem?,
}
use bic_os.Work.Engine.{
  AtomicRange, atomic_range, checked_add, terminate, System, Step, load, exhaust, swap, retry, call,
  stop, Run, none_yet, more, start,
}

-- Returned ranges, the latest first: each is one step long, ends where the next may begin or before,
-- and lies between the first and the last index.
abbrev pub Stacked : ℕ → ℕ → ℕ → ℕ → List (ℕ × ℕ) → Type 0
Stacked first last step top [] = first ≤ top
Stacked first last step top ((a, b) ∷ rs) =
    (b ≤ top) × (a + step ≡ b) × (b ≤ last) × Stacked first last step a rs

Stacked-low :
    (first last step top : ℕ) (rs : List (ℕ × ℕ)) → Stacked first last step top rs → first ≤ top
Stacked-low first last step top [] h = h
Stacked-low first last step top ((a, b) ∷ rs) (under, len, bound, rest) =
    let low = Stacked-low first last step a rs rest in omega arith

-- The current index is above all, except that it may stand past the end.
pub record Inv (first last step : ℕ) (s : System) : Type 0 where
  pub last_same : s.range.max_index ≡ last
  pub step_same : s.range.step_size ≡ step
  pub stacked : Stacked first last step s.range.curr_index s.given

checked_add-some :
    (r : AtomicRange) (c k n : ℕ) → checked_add r c k ≡ some n → (c + k ≡ n) × (n ≤ r.max_index)
unfolding checked_add
checked_add-some r c k n e = (ground arith, ground arith)

Stacked-first :
    (first last step top : ℕ) (rs : List (ℕ × ℕ))
    → first ≤ last
    → Stacked first last step top rs
    → Stacked first last step (last + 1) rs
Stacked-first first last step top [] le h = omega arith
Stacked-first first last step top ((a, b) ∷ rs) le (under, len, bound, rest) =
    (omega arith, len, bound, rest)

module _ (first last step : ℕ) (ordered : first ≤ last) (room : last + 1 < 2 ^ 32) where
  Step-Inv : {s t : System} → Step s t → Inv first last step s → Inv first last step t
  unfolding terminate
  Step-Inv (load r ts g i e) inv = record {
    last_same = inv.last_same;
    step_same = inv.step_same;
    stacked = inv.stacked;
  }
  Step-Inv (exhaust r ts g i c e no_room) inv = record {
    last_same = inv.last_same;
    step_same = inv.step_same;
    stacked = inv.stacked;
  }
  Step-Inv (swap r ts g i c n e add same) inv =
      let (sum, bound) = checked_add-some r c r.step_size n add in
      record {
        last_same = inv.last_same;
        step_same = inv.step_same;
        stacked = (
          omega arith,
          omega (arith, inv.step_same),
          omega (arith, inv.last_same),
          rw same at inv.stacked,
        );
      }
  Step-Inv (retry r ts g i c n e add other) inv = record {
    last_same = inv.last_same;
    step_same = inv.step_same;
    stacked = inv.stacked;
  }
  Step-Inv (call r ts g i o e) inv = record {
    last_same = inv.last_same;
    step_same = inv.step_same;
    stacked = inv.stacked;
  }
  Step-Inv (stop r ts g) inv =
      let past_end : (r.max_index + 1) % 2 ^ 32 ≡ last + 1 = omega (arith, inv.last_same) in
      record {
        last_same = inv.last_same;
        step_same = inv.step_same;
        stacked = rw past_end (Stacked-first first last step r.curr_index g ordered inv.stacked);
      }

  Run-Inv : {s t : System} → Run s t → Inv first last step s → Inv first last step t
  Run-Inv (none_yet s) inv = inv
  Run-Inv (more run one) inv = Step-Inv one (Run-Inv run inv)

-- A range that was returned lies where it has to, and below the top.
Stacked-elem :
    (first last step top : ℕ) (rs : List (ℕ × ℕ)) (i a b : ℕ)
    → Stacked first last step top rs
    → get_elem? rs i ≡ some (a, b)
    → (first ≤ a) × (a + step ≡ b) × (b ≤ last) × (b ≤ top)
Stacked-elem first last step top [] i a b h e = absurd (cc)
Stacked-elem first last step top ((x, y) ∷ rs) zero a b (under, len, bound, rest) e =
    let same = some-injective _ _ e in
    let low : first ≤ x = Stacked-low first last step x rs rest in
    let at_a : x ≡ a = ap (λ p. p.0) same in
    let at_b : y ≡ b = ap (λ p. p.1) same in (omega arith, omega arith, omega arith, omega arith)
Stacked-elem first last step top ((x, y) ∷ rs) (suc i) a b (under, len, bound, rest) e =
    let (low, long, high, below) = Stacked-elem first last step x rs i a b rest e in
    (low, long, high, omega arith)

Stacked-disjoint :
    (first last step top : ℕ) (rs : List (ℕ × ℕ)) (i j a b c d : ℕ)
    → Stacked first last step top rs
    → i < j
    → get_elem? rs i ≡ some (a, b)
    → get_elem? rs j ≡ some (c, d)
    → d ≤ a
Stacked-disjoint first last step top [] i j a b c d h lt e e' = absurd (cc)
Stacked-disjoint first last step top (r ∷ rs) i zero a b c d h lt e e' = absurd (omega arith)
Stacked-disjoint first last step top ((x, y) ∷ rs) zero (suc j) a b c d (under, len, bound, rest) lt
      e e' =
    let same = some-injective _ _ e in
    let at_a : x ≡ a = ap (λ p. p.0) same in
    let (low, long, high, below) = Stacked-elem first last step x rs j c d rest e' in omega arith
Stacked-disjoint first last step top ((x, y) ∷ rs) (suc i) (suc j) a b c d (under, len, bound, rest)
      lt e e' =
    Stacked-disjoint first last step x rs i j a b c d rest (omega arith) e e'

start-Inv :
    (first last step : ℕ) (r : AtomicRange)
    → atomic_range first last step ≡ ok r
    → (first ≤ last) × Inv first last step (start r)
unfolding atomic_range
start-Inv first last step r e = (
  ground arith,
  record { last_same = ground arith; step_same = ground arith; stacked = ground arith },
)

-- However the calls of `next` by any number of tasks interleave, and whenever the range is
-- terminated, each returned range is one step long and lies between the first and the last index,
-- and a range that was returned before another ends where the other begins, or before: no index is
-- handed out twice. The last index leaves room for the one that `terminate` stores.
pub Run-disjoint :
    (first last step : ℕ) (r : AtomicRange) (s : System)
    → atomic_range first last step ≡ ok r
    → last + 1 < 2 ^ 32
    → Run (start r) s
    → (i j a b c d : ℕ) → i < j
    → get_elem? s.given i ≡ some (a, b)
    → get_elem? s.given j ≡ some (c, d)
    → (first ≤ c) × (c + step ≡ d) × (d ≤ a) × (a + step ≡ b) × (b ≤ last)
Run-disjoint first last step r s made room run i j a b c d lt e e' =
    let (ordered, begin) = start-Inv first last step r made in
    let inv = Run-Inv first last step ordered room run begin in
    let (low, long, high, under) =
      Stacked-elem first last step s.range.curr_index s.given j c d inv.stacked e' in
    let (low', long', high', under') =
      Stacked-elem first last step s.range.curr_index s.given i a b inv.stacked e in
    (
      low,
      long,
      Stacked-disjoint first last step s.range.curr_index s.given i j a b c d inv.stacked lt e e',
      long',
      high',
    )
