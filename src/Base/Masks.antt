-- ===== src/Base/Masks.antt =====
-- The low digits of a number of any size, from the definition of the native conjunction.
use Prim.Native.Nat.{ℕ, zero, suc, ◌+◌, ◌*◌, ◌/◌, ◌%◌, ◌≤◌, min, bit_and, digits, bit_and-bitwise}
use mathlib.Core.Path.{◌≡◌, refl}
use native.Mathlib.Omega.{arith}

-- Fuel for at least as many digits as the first number has makes no difference.
enough :
    (x y fuel more : ℕ)
    → x ≤ fuel
    → x ≤ more
    → digits (λ d. zero) min fuel x y ≡ digits (λ d. zero) min more x y
enough zero y zero zero p q = refl
enough zero y zero (suc more) p q = refl
enough zero y (suc fuel) zero p q = refl
enough zero y (suc fuel) (suc more) p q = refl
enough (suc x) y zero more p q = absurd (omega arith)
enough (suc x) y (suc fuel) zero p q = absurd (omega arith)
enough (suc x) y (suc fuel) (suc more) p q =
    let rest = enough (suc x / 2) (y / 2) fuel more (omega arith) (omega arith) in
    omega (arith, rest)

pub last_digit : (x y : ℕ) → bit_and x y ≡ min (x % 2) (y % 2) + 2 * bit_and (x / 2) (y / 2)
last_digit zero y =
    let none = bit_and-bitwise 0 y in
    let half = bit_and-bitwise 0 (y / 2) in omega (arith, none, half)
last_digit (suc x) y =
    let all = bit_and-bitwise (suc x) y in
    let half = bit_and-bitwise (suc x / 2) (y / 2) in
    let same = enough (suc x / 2) (y / 2) x (suc x / 2) (omega arith) (omega arith) in
    omega (arith, all, half, same)

pub no_digits : (bound x : ℕ) → x ≤ bound → bit_and x 0 ≡ 0
no_digits bound zero p = refl
no_digits zero (suc x) p = absurd (omega arith)
no_digits (suc bound) (suc x) p =
    let rest = no_digits bound (suc x / 2) (omega arith) in
    omega (arith, rest, last_digit (suc x) 0)

pub low_digits3 : (x : ℕ) → bit_and x 7 ≡ x % 8
low_digits3 x =
    let none = no_digits (x / 2 / 2 / 2) (x / 2 / 2 / 2) (omega arith) in
    let d0 = last_digit x 7 in
    let d1 = last_digit (x / 2) 3 in
    let d2 = last_digit (x / 2 / 2) 1 in omega (arith, d0, d1, d2, none)

pub low_digits6 : (x : ℕ) → bit_and x 63 ≡ x % 64
low_digits6 x =
    let d0 = last_digit x 63 in
    let d1 = last_digit (x / 2) 31 in
    let d2 = last_digit (x / 2 / 2) 15 in
    let high = low_digits3 (x / 2 / 2 / 2) in omega (arith, d0, d1, d2, high)

pub low_digits7 : (x : ℕ) → bit_and x 127 ≡ x % 128
low_digits7 x = let high = low_digits6 (x / 2) in omega (arith, last_digit x 127, high)
