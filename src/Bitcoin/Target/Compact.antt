-- ===== src/Bitcoin/Target/Compact.antt =====
-- The compact form of a target, read back.
use Prim.Native.Nat.{bit_and, bit_or}
use mathlib.Core.Path.{subst}
use native.Mathlib.Nat.{
  pow-suc, one-le-pow, div-add-mod', mod-lt, mul-le-mul_right, mod-eq_of_lt, div-lt_iff_lt-mul,
  le-div_iff_mul-le, div-div-eq-div-mul,
}
use bic_os.Base.{
  ℕ, zero, suc, ◌+◌, ◌-◌, ◌*◌, ◌/◌, ◌%◌, ◌^◌, ◌<◌, ◌≤◌, ◌≡◌, ◌==◌, refl, sym, Bool-cases, inl, inr,
  arith, eq-cases, true, false, ok, leb, ltb, le→leb, if◌then◌else◌, low_digits24, and_bit23,
  or_byte24,
}
use bic_os.Bitcoin.Target.{
  digit_count, from_compact, compact_value, bits, full_mantissa, pack, into_compact,
}
use bic_os.Bitcoin.Target.Bits.{bytes-bounds}

-- What is read is no more than what was written, and less by at most one part in 2 ^ 15.
abbrev pub Kept : ℕ → ℕ → Type 0
Kept target read = (read ≤ target) × (32768 * (target - read) ≤ target)

from_compact-bit_or :
    (mantissa exponent : ℕ)
    → mantissa < 8388608
    → exponent < 256
    → from_compact (bit_or mantissa (exponent * 2 ^ 24 % 2 ^ 32))
      ≡ ok (compact_value mantissa exponent)
unfolding from_compact
from_compact-bit_or mantissa exponent lt byte =
    let shifted : exponent * 16777216 % 4294967296 ≡ 16777216 * exponent = omega arith in
    let both = or_byte24 mantissa exponent (omega arith) in
    let low = low_digits24 (mantissa + 16777216 * exponent) in
    let same : bit_and (mantissa + 16777216 * exponent) 16777215 ≡ mantissa = omega (arith, low) in
    let high : (mantissa + 16777216 * exponent) / 16777216 ≡ exponent = omega arith in
    let legal : leb mantissa 8388607 ≡ true = le→leb _ _ (omega arith) in
    rw (shifted, both, same, high) (rw legal refl)

-- What stands in the compact form.
abbrev packed : ℕ → ℕ → ℕ
packed mantissa exponent =
    if ltb mantissa 8388608
    then compact_value mantissa exponent
    else compact_value (mantissa / 256) (exponent + 1)

from_compact-pack :
    (mantissa exponent : ℕ)
    → mantissa < 16777216
    → exponent < 255
    → from_compact (pack mantissa exponent) ≡ ok (packed mantissa exponent)
from_compact-pack mantissa exponent lt byte =
    let digit = and_bit23 mantissa in
    elim (Bool-cases (ltb mantissa 8388608)) [
      | inl small ↦
          let free : bit_and mantissa 8388608 == 0 ≡ true = ground (arith, digit, small) in
          rw (small, free)
            (from_compact-bit_or mantissa exponent (ground (arith, small)) (omega arith))
      | inr large ↦
          let used : bit_and mantissa 8388608 == 0 ≡ false = ground (arith, digit, large, lt) in
          rw (large, used)
            (from_compact-bit_or (mantissa / 256) (exponent + 1) (omega arith) (omega arith))
    ]

short-mantissa :
    (target factor : ℕ)
    → target * factor < 16777216
    → target < 16777216
    → target % 2 ^ 64 * factor % 2 ^ 64 % 2 ^ 32 ≡ target * factor
short-mantissa target factor lt lt' =
    let word : target % 2 ^ 64 ≡ target = omega arith in
    rw word (let x = target * factor in omega (arith, lt))

short-Kept :
    (target exponent : ℕ)
    → 1 ≤ exponent
    → exponent ≤ 3
    → target < 2 ^ (8 * exponent)
    → (full_mantissa target exponent < 16777216)
      × Kept target (packed (full_mantissa target exponent) exponent)
short-Kept target zero pos le lt = absurd (omega arith)
short-Kept target (suc zero) pos le lt =
    rw (short-mantissa target 65536 (omega (arith, lt)) (omega (arith, lt)))
      (omega (arith, lt), (ground (arith, lt), ground (arith, lt)))
short-Kept target (suc (suc zero)) pos le lt =
    rw (short-mantissa target 256 (omega (arith, lt)) (omega (arith, lt)))
      (omega (arith, lt), (ground (arith, lt), ground (arith, lt)))
short-Kept target (suc (suc (suc zero))) pos le lt =
    rw (short-mantissa target 1 (omega (arith, lt)) (omega (arith, lt)))
      (omega (arith, lt), (ground (arith, lt), ground (arith, lt)))
short-Kept target (suc (suc (suc (suc e)))) pos le lt = absurd (omega arith)

div-Kept : (target unit : ℕ) → 0 < unit → 32768 ≤ target / unit → Kept target (target / unit * unit)
div-Kept target unit pos long =
    let split : target / unit * unit + target % unit ≡ target = div-add-mod' target unit in
    let rest : target % unit < unit = mod-lt target pos in
    let whole : 32768 * unit ≤ target / unit * unit = mul-le-mul_right unit long in
    (omega (arith, split), omega (arith, split, rest, whole))

pow-add8 : (x : ℕ) → 2 ^ (x + 8) ≡ 2 ^ x * 256
pow-add8 x =
    let a = pow-suc 2 x in
    let b = pow-suc 2 (suc x) in
    let c = pow-suc 2 (suc (suc x)) in
    let d = pow-suc 2 (suc (suc (suc x))) in
    let e = pow-suc 2 (suc (suc (suc (suc x)))) in
    let f = pow-suc 2 (suc (suc (suc (suc (suc x))))) in
    let g = pow-suc 2 (suc (suc (suc (suc (suc (suc x)))))) in
    let h = pow-suc 2 (suc (suc (suc (suc (suc (suc (suc x))))))) in
    let all : suc (suc (suc (suc (suc (suc (suc (suc x))))))) ≡ x + 8 = omega arith in
    let h' = rw all at h in omega (arith, a, b, c, d, e, f, g, h')

-- One byte more.
byte : (k : ℕ) → 2 ^ (8 * (k + 1)) ≡ 2 ^ (8 * k) * 256
byte k = let next : 8 * (k + 1) ≡ 8 * k + 8 = omega arith in rw next (pow-add8 (8 * k))

long-Kept :
    (target k : ℕ)
    → 1 ≤ k
    → target < 2 ^ 256
    → target < 2 ^ (8 * (k + 3))
    → 2 ^ (8 * (k + 2)) ≤ target
    → (full_mantissa target (k + 3) < 16777216)
      × Kept target (packed (full_mantissa target (k + 3)) (k + 3))
long-Kept target k pos word lt ge =
    let unit = 2 ^ (8 * k) in
    let unit_pos : 0 < unit = one-le-pow (8 * k) 2 (omega arith) in
    let b0 = byte k in
    let b1 = byte (k + 1) in
    let b2 = byte (k + 2) in
    let a1 : k + 1 + 1 ≡ k + 2 = omega arith in
    let a2 : k + 2 + 1 ≡ k + 3 = omega arith in
    let b1' = rw a1 at b1 in
    let b2' = rw a2 at b2 in
    let high : target / unit < 16777216 =
      (div-lt_iff_lt-mul unit_pos).1 (omega (arith, lt, b0, b1', b2')) in
    let low : 65536 ≤ target / unit = (le-div_iff_mul-le unit_pos).1 (omega (arith, ge, b0, b1')) in
    let word_mantissa : target / unit % 4294967296 ≡ target / unit =
      mod-eq_of_lt (omega (arith, high)) in
    let back : k + 3 - 3 ≡ k = omega arith in
    let long_one : leb (k + 3) 3 ≡ false = ground (arith, pos) in
    let long_two : leb (k + 3 + 1) 3 ≡ false = ground (arith, pos) in
    let back' : k + 3 + 1 - 3 ≡ k + 1 = omega arith in
    let shorter : target / unit / 256 ≡ target / (unit * 256) =
      div-div-eq-div-mul target unit 256 in
    let all = div-Kept target unit unit_pos (omega (arith, low)) in
    let fits : target / unit * unit % 2 ^ 256 ≡ target / unit * unit =
      mod-eq_of_lt (omega (arith, all, word)) in
    rw (long_one, back, word_mantissa, long_two, back', b0, shorter, fits)
      (
        omega (arith, high),
        elim (Bool-cases (ltb (target / unit) 8388608)) [
          | inl small ↦ rw small all
          | inr large ↦
              let many : 8388608 ≤ target / unit = ground (arith, large) in
              let most =
                div-Kept target (unit * 256) (omega (arith, unit_pos))
                  (omega (arith, shorter, many)) in
              let fits' : target / (unit * 256) * (unit * 256) % 2 ^ 256
                  ≡ target / (unit * 256) * (unit * 256) =
                mod-eq_of_lt (omega (arith, most, word)) in
              rw (large, fits') most
        ],
      )

any-Kept :
    (target exponent : ℕ)
    → 1 ≤ exponent
    → target < 2 ^ 256
    → target < 2 ^ (8 * exponent)
    → 2 ^ (8 * (exponent - 1)) ≤ target
    → (full_mantissa target exponent < 16777216)
      × Kept target (packed (full_mantissa target exponent) exponent)
any-Kept target exponent pos word lt ge = elim (Bool-cases (leb exponent 3)) [
  | inl short ↦ short-Kept target exponent pos (ground (arith, short)) lt
  | inr long ↦
      let more : 4 ≤ exponent = ground (arith, long) in
      let same : exponent ≡ exponent - 3 + 3 = omega (arith, more) in
      let before : exponent - 1 ≡ exponent - 3 + 2 = omega (arith, more) in
      let lt' = subst (λ e. target < 2 ^ (8 * e)) same lt in
      let ge' = subst (λ e. 2 ^ (8 * e) ≤ target) before ge in
      subst
        (λ e. (full_mantissa target e < 16777216) × Kept target (packed (full_mantissa target e) e))
        (sym same) (long-Kept target (exponent - 3) (omega (arith, more)) word lt' ge')
]

compact-zero : from_compact (into_compact 0) ≡ ok 0
unfolding from_compact into_compact digit_count
compact-zero = refl

-- Any target below 2 ^ 256 has a compact form that is read back, as a target that is not above it
-- and that falls short of it by at most one part in 2 ^ 15.
pub from_compact-into_compact :
    (target : ℕ)
    → target < 2 ^ 256
    → (read : ℕ) × (from_compact (into_compact target) ≡ ok read)
      × (read ≤ target)
      × (32768 * (target - read) ≤ target)
unfolding into_compact
from_compact-into_compact target word = elim (eq-cases target 0) [
  | inl nothing ↦ (0, rw nothing compact-zero, omega arith, omega arith)
  | inr some_target ↦
      let pos : 0 < target = omega (arith, some_target) in
      let (lt, ge, least, most) = bytes-bounds target pos word in
      let (short, kept) = any-Kept target ((bits target + 7) / 8) least word lt ge in
      (
        packed (full_mantissa target ((bits target + 7) / 8)) ((bits target + 7) / 8),
        from_compact-pack _ ((bits target + 7) / 8) short (omega (arith, most)),
        kept.0,
        kept.1,
      )
]
