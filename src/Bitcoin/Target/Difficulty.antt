-- ===== src/Bitcoin/Target/Difficulty.antt =====
-- Difficulties of pools, and targets as bytes.
use native.Mathlib.Nat.{
  mul-le-mul, mul-le-mul_left, div-mul-le_self, mul_comm, div-add-mod', mod-lt, mod-eq_of_lt,
  div-eq_of_lt-le, le-div_iff_mul-le, add-mul, one-mul,
}
use bic_os.Base.{
  ℕ, ◌+◌, ◌*◌, ◌/◌, ◌%◌, ◌^◌, ◌<◌, ◌≤◌, ◌≡◌, zero, suc, ◌==◌, refl, ap, ◌∙◌, arith, true, false, ok,
  le→leb, ok-injective, List,
}
use bic_os.Bitcoin.Target.{
  difficulty_1_target, from_pool_difficulty, get_difficulty, meets, account_solution, shares,
}

-- Dividing by the quotient gives back a divisor that is not above the quotient.
div-div_self : (n d : ℕ) → 0 < d → d * d ≤ n → n / (n / d) ≡ d
div-div_self n d pos square =
    let split : n / d * d + n % d ≡ n = div-add-mod' n d in
    let rest : n % d < d = mod-lt n pos in
    let long : d ≤ n / d = (le-div_iff_mul-le pos).1 square in
    let swap : d * (n / d) ≡ n / d * d = mul_comm d (n / d) in
    let more : (d + 1) * (n / d) ≡ d * (n / d) + n / d =
      add-mul d 1 (n / d) ∙ ap (λ x. d * (n / d) + x) (one-mul (n / d)) in
    div-eq_of_lt-le (n / d) (omega (arith, split, swap))
      (omega (arith, split, swap, more, rest, long))

get_difficulty-from_pool_difficulty :
    (usize d : ℕ)
    → usize ≤ 2 ^ 64
    → 0 < d
    → d < usize
    → (target : ℕ) × (from_pool_difficulty d ≡ ok target) × (get_difficulty usize target ≡ ok d)
unfolding from_pool_difficulty get_difficulty
get_difficulty-from_pool_difficulty usize d word pos lt =
    let small : d ≤ 2 ^ 64 = omega (arith, word, lt) in
    let square' : d * d ≤ 2 ^ 64 * 2 ^ 64 = mul-le-mul small small in
    let square : d * d ≤ difficulty_1_target = omega (arith, square') in
    let back : difficulty_1_target / (difficulty_1_target / d) ≡ d =
      div-div_self difficulty_1_target d pos square in
    let long : d ≤ difficulty_1_target / d = (le-div_iff_mul-le pos).1 square in
    let nonzero : d == 0 ≡ false = ground (arith, pos) in
    let nonzero' : difficulty_1_target / d == 0 ≡ false = ground (arith, pos, long) in
    let fits : d % 2 ^ 64 % usize ≡ d =
      let word_fits : d % 2 ^ 64 ≡ d = mod-eq_of_lt (omega (arith, word, lt)) in
      rw word_fits (mod-eq_of_lt lt) in
    (difficulty_1_target / d, rw nonzero refl, rw (nonzero', back) (ap ok fits))

-- A solution for the target of a pool's difficulty counts as that difficulty: for any difficulty
-- but 0 that a `usize` of at most 64 bits holds, it is added to the shares, modulo 2 ^ 64.
pub account_solution-from_pool_difficulty :
    (usize d value : ℕ)
    → usize ≤ 2 ^ 64
    → 0 < d
    → d < usize
    → (target : ℕ) × (from_pool_difficulty d ≡ ok target)
      × (shares usize target ≡ ok d)
      × (account_solution usize value target ≡ ok ((value + d) % 2 ^ 64))
unfolding shares account_solution
account_solution-from_pool_difficulty usize d value word pos lt =
    let (target, made, same) = get_difficulty-from_pool_difficulty usize d word pos lt in
    let fits : d % 2 ^ 64 ≡ d = mod-eq_of_lt (omega (arith, word, lt)) in
    (target, made, rw same (ap ok fits), rw same (ap (λ x. ok ((value + x) % 2 ^ 64)) fits))

from_pool_difficulty-eq-ok :
    (d target : ℕ)
    → from_pool_difficulty d ≡ ok target
    → (0 < d) × (difficulty_1_target / d ≡ target)
unfolding from_pool_difficulty
from_pool_difficulty-eq-ok zero target e = absurd (cc)
from_pool_difficulty-eq-ok (suc d) target e =
    let nonzero : suc d == 0 ≡ false = ground arith in
    let e' = rw nonzero at e in (omega arith, ok-injective _ _ e')

-- A hash that meets the target of a pool's difficulty meets that of any lower difficulty but 0.
pub meets-from_pool_difficulty :
    (hash : List ℕ) (hard easy high low : ℕ)
    → from_pool_difficulty hard ≡ ok low
    → from_pool_difficulty easy ≡ ok high
    → easy ≤ hard
    → meets hash low ≡ true
    → meets hash high ≡ true
unfolding meets
meets-from_pool_difficulty hash hard easy high low made made' le met =
    let (pos, low_is) = from_pool_difficulty-eq-ok hard low made in
    let (pos', high_is) = from_pool_difficulty-eq-ok easy high made' in
    let product : difficulty_1_target / hard * easy ≤ difficulty_1_target / hard * hard =
      mul-le-mul_left (difficulty_1_target / hard) le in
    let below : difficulty_1_target / hard * hard ≤ difficulty_1_target =
      div-mul-le_self difficulty_1_target hard in
    let order : difficulty_1_target / hard ≤ difficulty_1_target / easy =
      (le-div_iff_mul-le pos').1 (omega (arith, product, below)) in
    le→leb _ _ (ground (arith, met, order, low_is, high_is))
