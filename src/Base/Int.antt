-- ===== src/Base/Int.antt =====
-- Signed integers, and their two's complement patterns of `m` values, `m` a power of two.
use Prim.Native.Nat.{ℕ, ◌-◌, ◌*◌, ◌/◌, ◌%◌, ◌<◌}
use mathlib.Core.Path.{◌≡◌}
use mathlib.Core.Logic.{inl, inr}
use native.Mathlib.Nat.{mod-eq_of_lt}
use native.Mathlib.Omega.{arith}
use bic_os.Base.Tests.{if◌then◌else◌, ltb, lt→ltb, Bool-cases}

-- `negsuc n` is -(n + 1).
pub data ℤ : Type 0 where
  pos : ℕ → ℤ
  negsuc : ℕ → ℤ

-- `v as uN`: the pattern of `v` among `m` values.
unfoldable pub to_pattern : ℕ → ℤ → ℕ
to_pattern m (pos n) = n % m
to_pattern m (negsuc n) = m - 1 - n % m

-- `u as iN`.
unfoldable pub from_pattern : ℕ → ℕ → ℤ
from_pattern m u = if ltb u (m / 2) then pos u else negsuc (m - 1 - u)

-- The values of a signed type of `m` patterns.
abbrev pub InSigned : ℕ → ℤ → Type 0
InSigned m (pos n) = n < m / 2
InSigned m (negsuc n) = n < m / 2

pub from_pattern-to_pattern :
    (h : ℕ) (v : ℤ) → InSigned (2 * h) v → from_pattern (2 * h) (to_pattern (2 * h) v) ≡ v
unfolding from_pattern to_pattern
from_pattern-to_pattern h (pos n) r =
    let e : n % (2 * h) ≡ n = mod-eq_of_lt (omega arith) in
    rw (e, lt→ltb n (2 * h / 2) (omega arith))
from_pattern-to_pattern h (negsuc n) r =
    let e : n % (2 * h) ≡ n = mod-eq_of_lt (omega arith) in rw e (ground arith)

-- Every pattern is that of the number which it stands for.
pub to_pattern-from_pattern : (m u : ℕ) → u < m → to_pattern m (from_pattern m u) ≡ u
unfolding to_pattern from_pattern
to_pattern-from_pattern m u h = elim (Bool-cases (ltb u (m / 2))) [
  | inl low ↦ rw low (mod-eq_of_lt h)
  | inr high ↦
      let e : (m - 1 - u) % m ≡ m - 1 - u = mod-eq_of_lt (omega arith) in rw (high, e) (omega arith)
]

pub to_pattern-lt : (m : ℕ) (v : ℤ) → 0 < m → to_pattern m v < m
unfolding to_pattern
to_pattern-lt m (pos n) h = omega arith
to_pattern-lt m (negsuc n) h = omega arith
