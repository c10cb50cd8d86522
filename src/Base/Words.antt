-- ===== src/Base/Words.antt =====
-- Words put together from their digits, from the definitions of the native connectives.
use Prim.Native.Nat.{
  ℕ, zero, suc, ◌+◌, ◌*◌, ◌/◌, ◌%◌, ◌<◌, ◌≤◌, max, bit_and, bit_or, digits, bit_or-bitwise,
}
use mathlib.Core.Path.{◌≡◌, refl}
use native.Mathlib.Omega.{arith}
use bic_os.Base.Masks.{last_digit, low_digits3, no_digits}

-- Fuel for at least as many digits as the first number has makes no difference.
or_enough :
    (x y fuel more : ℕ)
    → x ≤ fuel
    → x ≤ more
    → digits (λ d. d) max fuel x y ≡ digits (λ d. d) max more x y
or_enough zero y zero zero p q = refl
or_enough zero y zero (suc more) p q = refl
or_enough zero y (suc fuel) zero p q = refl
or_enough zero y (suc fuel) (suc more) p q = refl
or_enough (suc x) y zero more p q = absurd (omega arith)
or_enough (suc x) y (suc fuel) zero p q = absurd (omega arith)
or_enough (suc x) y (suc fuel) (suc more) p q =
    let rest = or_enough (suc x / 2) (y / 2) fuel more (omega arith) (omega arith) in
    omega (arith, rest)

or_zero_left : (y : ℕ) → bit_or 0 y ≡ y
or_zero_left y = bit_or-bitwise 0 y

or_digit : (x y : ℕ) → bit_or x y ≡ max (x % 2) (y % 2) + 2 * bit_or (x / 2) (y / 2)
or_digit zero y = let a = or_zero_left y in let b = or_zero_left (y / 2) in omega (arith, a, b)
or_digit (suc x) y =
    let all = bit_or-bitwise (suc x) y in
    let half = bit_or-bitwise (suc x / 2) (y / 2) in
    let same = or_enough (suc x / 2) (y / 2) x (suc x / 2) (omega arith) (omega arith) in
    omega (arith, all, half, same)

or_zero_right : (x : ℕ) → (bound : ℕ) → x ≤ bound → bit_or x 0 ≡ x
or_zero_right zero bound p = or_zero_left 0
or_zero_right (suc x) zero p = absurd (omega arith)
or_zero_right (suc x) (suc bound) p =
    let rest = or_zero_right (suc x / 2) bound (omega arith) in
    omega (arith, rest, or_digit (suc x) 0)

-- The last four digits, where one of the words has none there.
or_right4 : (x y z : ℕ) → z ≡ 16 * y → bit_or x z ≡ x % 16 + 16 * bit_or (x / 2 / 2 / 2 / 2) y
or_right4 x y z e =
    let d0 = or_digit x z in
    let d1 = or_digit (x / 2) (z / 2) in
    let d2 = or_digit (x / 2 / 2) (z / 2 / 2) in
    let d3 = or_digit (x / 2 / 2 / 2) (z / 2 / 2 / 2) in
    let last : z / 2 / 2 / 2 / 2 ≡ y = omega arith in
    let d3' = rw last at d3 in omega (arith, d0, d1, d2, d3')

or_left4 : (x y z : ℕ) → z ≡ 16 * y → bit_or z x ≡ x % 16 + 16 * bit_or y (x / 2 / 2 / 2 / 2)
or_left4 x y z e =
    let d0 = or_digit z x in
    let d1 = or_digit (z / 2) (x / 2) in
    let d2 = or_digit (z / 2 / 2) (x / 2 / 2) in
    let d3 = or_digit (z / 2 / 2 / 2) (x / 2 / 2 / 2) in
    let last : z / 2 / 2 / 2 / 2 ≡ y = omega arith in
    let d3' = rw last at d3 in omega (arith, d0, d1, d2, d3')

or_left16 : (x y : ℕ) → x < 65536 → bit_or (65536 * y) x ≡ 65536 * y + x
or_left16 x y lt =
    let a = or_left4 x (4096 * y) (65536 * y) (omega arith) in
    let b = or_left4 (x / 2 / 2 / 2 / 2) (256 * y) (4096 * y) (omega arith) in
    let c = or_left4 (x / 2 / 2 / 2 / 2 / 2 / 2 / 2 / 2) (16 * y) (256 * y) (omega arith) in
    let d = or_left4 (x / 2 / 2 / 2 / 2 / 2 / 2 / 2 / 2 / 2 / 2 / 2 / 2) y (16 * y) (omega arith) in
    let none : x / 2 / 2 / 2 / 2 / 2 / 2 / 2 / 2 / 2 / 2 / 2 / 2 / 2 / 2 / 2 / 2 ≡ 0 =
      omega arith in
    let d' = rw (none, or_zero_right y y (omega arith)) at d in omega (arith, a, b, c, d')

-- Sixteen digits put above the lowest thirteen, where the other word has none.
pub or_middle :
    (low high x : ℕ)
    → low < 8192
    → x < 65536
    → bit_or (low + 8192 * (65536 * high)) (8192 * x) ≡ low + 8192 * (65536 * high + x)
or_middle low high x lt lt' =
    let b = low + 8192 * (65536 * high) in
    let d0 = or_right4 b (512 * x) (8192 * x) (omega arith) in
    let d1 = or_right4 (b / 2 / 2 / 2 / 2) (32 * x) (512 * x) (omega arith) in
    let d2 = or_right4 (b / 2 / 2 / 2 / 2 / 2 / 2 / 2 / 2) (2 * x) (32 * x) (omega arith) in
    let d3 = or_digit (b / 2 / 2 / 2 / 2 / 2 / 2 / 2 / 2 / 2 / 2 / 2 / 2) (2 * x) in
    let left : b / 2 / 2 / 2 / 2 / 2 / 2 / 2 / 2 / 2 / 2 / 2 / 2 / 2 ≡ 65536 * high = omega arith in
    let right : 2 * x / 2 ≡ x = omega arith in
    let d3' = rw (left, right, or_left16 x high lt') at d3 in omega (arith, d0, d1, d2, d3')

and_ones4 : (x y : ℕ) → bit_and x (16 * y + 15) ≡ x % 16 + 16 * bit_and (x / 2 / 2 / 2 / 2) y
and_ones4 x y =
    let z = 16 * y + 15 in
    let d0 = last_digit x z in
    let d1 = last_digit (x / 2) (z / 2) in
    let d2 = last_digit (x / 2 / 2) (z / 2 / 2) in
    let d3 = last_digit (x / 2 / 2 / 2) (z / 2 / 2 / 2) in
    let last : z / 2 / 2 / 2 / 2 ≡ y = omega arith in
    let d3' = rw last at d3 in omega (arith, d0, d1, d2, d3')

and_zeros4 : (x y : ℕ) → bit_and x (16 * y) ≡ 16 * bit_and (x / 2 / 2 / 2 / 2) y
and_zeros4 x y =
    let z = 16 * y in
    let d0 = last_digit x z in
    let d1 = last_digit (x / 2) (z / 2) in
    let d2 = last_digit (x / 2 / 2) (z / 2 / 2) in
    let d3 = last_digit (x / 2 / 2 / 2) (z / 2 / 2 / 2) in
    let last : z / 2 / 2 / 2 / 2 ≡ y = omega arith in
    let d3' = rw last at d3 in omega (arith, d0, d1, d2, d3')

-- The lowest thirteen digits and those from the thirtieth on.
pub and_outer : (x : ℕ) → bit_and x 3758104575 ≡ x % 8192 + 536870912 * (x / 536870912 % 8)
and_outer x =
    let x4 = x / 2 / 2 / 2 / 2 in
    let x8 = x4 / 2 / 2 / 2 / 2 in
    let x12 = x8 / 2 / 2 / 2 / 2 in
    let x13 = x12 / 2 in
    let x17 = x13 / 2 / 2 / 2 / 2 in
    let x21 = x17 / 2 / 2 / 2 / 2 in
    let x25 = x21 / 2 / 2 / 2 / 2 in
    let x29 = x25 / 2 / 2 / 2 / 2 in
    let a0 = and_ones4 x 234881535 in
    let a1 = and_ones4 x4 14680095 in
    let a2 = and_ones4 x8 917505 in
    let a3 = last_digit x12 917505 in
    let a4 = and_zeros4 x13 28672 in
    let a5 = and_zeros4 x17 1792 in
    let a6 = and_zeros4 x21 112 in
    let a7 = and_zeros4 x25 7 in
    let a8 = low_digits3 x29 in omega (arith, a0, a1, a2, a3, a4, a5, a6, a7, a8)

low_digits4 : (x : ℕ) → bit_and x 15 ≡ x % 16
low_digits4 x = let high = low_digits3 (x / 2) in omega (arith, last_digit x 15, high)

-- The lowest twenty-four digits.
pub low_digits24 : (x : ℕ) → bit_and x 16777215 ≡ x % 16777216
low_digits24 x =
    let x4 = x / 2 / 2 / 2 / 2 in
    let x8 = x4 / 2 / 2 / 2 / 2 in
    let x12 = x8 / 2 / 2 / 2 / 2 in
    let x16 = x12 / 2 / 2 / 2 / 2 in
    let x20 = x16 / 2 / 2 / 2 / 2 in
    let a0 = and_ones4 x 1048575 in
    let a1 = and_ones4 x4 65535 in
    let a2 = and_ones4 x8 4095 in
    let a3 = and_ones4 x12 255 in
    let a4 = and_ones4 x16 15 in let a5 = low_digits4 x20 in omega (arith, a0, a1, a2, a3, a4, a5)

and_bit3 : (x : ℕ) → bit_and x 8 ≡ 8 * (x / 8 % 2)
and_bit3 x =
    let d0 = last_digit x 8 in
    let d1 = last_digit (x / 2) 4 in
    let d2 = last_digit (x / 2 / 2) 2 in
    let d3 = last_digit (x / 2 / 2 / 2) 1 in
    let none = no_digits (x / 2 / 2 / 2 / 2) (x / 2 / 2 / 2 / 2) (omega arith) in
    omega (arith, d0, d1, d2, d3, none)

-- The twenty-fourth digit alone.
pub and_bit23 : (x : ℕ) → bit_and x 8388608 ≡ 8388608 * (x / 8388608 % 2)
and_bit23 x =
    let x4 = x / 2 / 2 / 2 / 2 in
    let x8 = x4 / 2 / 2 / 2 / 2 in
    let x12 = x8 / 2 / 2 / 2 / 2 in
    let x16 = x12 / 2 / 2 / 2 / 2 in
    let x20 = x16 / 2 / 2 / 2 / 2 in
    let a0 = and_zeros4 x 524288 in
    let a1 = and_zeros4 x4 32768 in
    let a2 = and_zeros4 x8 2048 in
    let a3 = and_zeros4 x12 128 in
    let a4 = and_zeros4 x16 8 in let a5 = and_bit3 x20 in omega (arith, a0, a1, a2, a3, a4, a5)

-- A byte put above twenty-four digits.
pub or_byte24 : (x y : ℕ) → x < 16777216 → bit_or x (16777216 * y) ≡ x + 16777216 * y
or_byte24 x y lt =
    let x4 = x / 2 / 2 / 2 / 2 in
    let x8 = x4 / 2 / 2 / 2 / 2 in
    let x12 = x8 / 2 / 2 / 2 / 2 in
    let x16 = x12 / 2 / 2 / 2 / 2 in
    let x20 = x16 / 2 / 2 / 2 / 2 in
    let a0 = or_right4 x (1048576 * y) (16777216 * y) (omega arith) in
    let a1 = or_right4 x4 (65536 * y) (1048576 * y) (omega arith) in
    let a2 = or_right4 x8 (4096 * y) (65536 * y) (omega arith) in
    let a3 = or_right4 x12 (256 * y) (4096 * y) (omega arith) in
    let a4 = or_right4 x16 (16 * y) (256 * y) (omega arith) in
    let a5 = or_right4 x20 y (16 * y) (omega arith) in
    let none : x20 / 2 / 2 / 2 / 2 ≡ 0 = omega arith in
    let a5' = rw (none, or_zero_left y) at a5 in omega (arith, a0, a1, a2, a3, a4, a5')
