-- ===== src/Bitcoin/Target/Bits.antt =====
-- The length of a number in binary digits and in bytes.
use native.Mathlib.Nat.{pow-suc, pow-le-pow_right}
use bic_os.Base.{
  ℕ, zero, suc, ◌+◌, ◌-◌, ◌*◌, ◌/◌, ◌^◌, ◌<◌, ◌≤◌, ◌≡◌, ◌==◌, refl, false, inl, inr, arith,
  eq-cases,
}
use bic_os.Bitcoin.Target.{digit_count, bits}

digit_count-zero : (most : ℕ) → digit_count most 0 ≡ 0
unfolding digit_count
digit_count-zero zero = refl
digit_count-zero (suc most) = refl

-- One digit more than half of the number.
double_above : (c h n : ℕ) → n / 2 ≡ h → 0 < h → h < 2 ^ c → 2 ^ (c - 1) ≤ h → 2 ^ c ≤ n
double_above zero h n half pos below above = absurd (omega arith)
double_above (suc c) h n half pos below above =
    let double = pow-suc 2 c in
    let back : suc c - 1 ≡ c = omega arith in
    let above' = rw back at above in omega (arith, double, above', half)

pub digit_count-bounds :
    (most n : ℕ)
    → 0 < n
    → n < 2 ^ most
    → (n < 2 ^ digit_count most n)
      × (digit_count most n ≤ most)
      × (2 ^ (digit_count most n - 1) ≤ n)
unfolding digit_count
digit_count-bounds zero n pos lt = absurd (omega arith)
digit_count-bounds (suc most) n pos lt =
    let nonzero : n == 0 ≡ false = ground (arith, pos) in
    let double = pow-suc 2 most in
    let double' = pow-suc 2 (digit_count most (n / 2)) in
    let back : suc (digit_count most (n / 2)) - 1 ≡ digit_count most (n / 2) = omega arith in
    elim (eq-cases (n / 2) 0) [
      | inl none ↦
          let no_count = digit_count-zero most in
          let one : n ≡ 1 = omega (arith, none, pos) in
          rw (nonzero, none, no_count) (omega arith, omega arith, omega arith)
      | inr some_left ↦
          let half_pos : 0 < n / 2 = omega (arith, some_left) in
          let (below, long, above) =
            digit_count-bounds most (n / 2) half_pos (omega (arith, double)) in
          rw (nonzero, back)
            (
              omega (arith, double', below),
              omega (arith, long),
              double_above (digit_count most (n / 2)) (n / 2) n refl half_pos below above,
            )
    ]

-- A number has its length in bytes, and no less.
pub bytes-bounds :
    (n : ℕ)
    → 0 < n
    → n < 2 ^ 256
    → (n < 2 ^ (8 * ((bits n + 7) / 8)))
      × (2 ^ (8 * ((bits n + 7) / 8 - 1)) ≤ n)
      × (1 ≤ (bits n + 7) / 8)
      × ((bits n + 7) / 8 ≤ 32)
bytes-bounds n pos lt =
    let (below, long, above) = digit_count-bounds 256 n pos lt in
    let some_bits : 1 ≤ bits n = elim (eq-cases (bits n) 0) [
      | inl none ↦ let none' = rw none at below in absurd (omega (arith, none', pos))
      | inr more ↦ omega (arith, more)
    ] in
    let up : 2 ^ bits n ≤ 2 ^ (8 * ((bits n + 7) / 8)) =
      pow-le-pow_right (omega arith) (omega arith) in
    let down : 2 ^ (8 * ((bits n + 7) / 8 - 1)) ≤ 2 ^ (bits n - 1) =
      pow-le-pow_right (omega arith) (omega arith) in
    (omega (arith, below, up), omega (arith, above, down), omega arith, omega (arith, long))
