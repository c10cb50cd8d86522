-- ===== src/Antminer/Registers/TicketMask.antt =====
-- The mask of a difficulty.
use native.Mathlib.Nat.{pow-suc}
use bic_os.Base.{
  ℕ, zero, suc, ◌+◌, ◌-◌, ◌*◌, ◌/◌, ◌%◌, ◌^◌, ◌<◌, ◌≡◌, ◌↔◌, ◌==◌, refl, ap, sym, ◌∙◌, Bool, true,
  false, not, Result, ok, err, arith, eq-cases, Bool-cases, inl, inr, ==_iff, ok-injective, table,
  table_lem, >>=-eq-ok, guard,
}
use bic_os.Antminer.Registers.{
  Error, zero_difficulty, reverse_digits, is_power_of_two, ticket_mask_reg,
}

-- As many ones as there are, from the highest digit of the lowest byte on: whole bytes first.
abbrev pub mask_of : ℕ → ℕ
mask_of ones = 256 ^ (ones / 8) * (256 - 2 ^ (8 - ones % 8)) + (256 ^ (ones / 8) - 1)

ok_is : Result Error ℕ → ℕ → Bool
ok_is (ok a) b = a == b
ok_is (err e) b = false

check : ℕ → Bool
check ones = ok_is (ticket_mask_reg (2 ^ ones)) (mask_of ones)

ok_is-eq : (r : Result Error ℕ) (b : ℕ) → ok_is r b ≡ true → r ≡ ok b
unfolding ok_is
ok_is-eq (ok a) b e = ap ok ((==_iff a b).0 e)
ok_is-eq (err e) b clash = absurd (cc)

ticket_mask_reg-pow : (ones : ℕ) → ones < 32 → ticket_mask_reg (2 ^ ones) ≡ ok (mask_of ones)
unfolding table check ok_is ticket_mask_reg is_power_of_two reverse_digits
ticket_mask_reg-pow ones lt =
    ok_is-eq (ticket_mask_reg (2 ^ ones)) (mask_of ones) (table_lem check 32 refl ones lt)

is_power_of_two-pow :
    (digits n : ℕ) → is_power_of_two digits n ≡ true → (k : ℕ) × (k < digits) × (n ≡ 2 ^ k)
unfolding is_power_of_two
is_power_of_two-pow zero n e = absurd (cc)
is_power_of_two-pow (suc digits) n e = elim (eq-cases n 1) [
  | inl one ↦ (0, omega arith, one)
  | inr more ↦
      let half : is_power_of_two digits (n / 2) ≡ true = ground (arith, e, more) in
      let even : n % 2 ≡ 0 = ground (arith, e, more) in
      let (k, lt, same) = is_power_of_two-pow digits (n / 2) half in
      let double = pow-suc 2 k in (suc k, omega (arith, lt), omega (arith, same, even, double))
]

made-pow :
    (difficulty mask : ℕ)
    → ticket_mask_reg difficulty ≡ ok mask
    → (k : ℕ) × (k < 32) × (difficulty ≡ 2 ^ k)
unfolding ticket_mask_reg
made-pow difficulty mask made =
    let (one, nonzero, rest) = >>=-eq-ok (guard (not (difficulty == 0)) zero_difficulty) _ made in
    elim (Bool-cases (is_power_of_two 32 difficulty)) [
      | inl power ↦ is_power_of_two-pow 32 difficulty power
      | inr other ↦ absurd (let clash = rw other at rest in cc)
    ]

-- A ticket mask is made for the powers of two below 2 ^ 32 and for nothing else. Of 2 ^ k it has k
-- ones, byte by byte from the lowest one, and in the last of these from the highest digit on.
pub ticket_mask_reg-eq-ok :
    (difficulty mask : ℕ)
    → (ticket_mask_reg difficulty ≡ ok mask)
      ↔ ((k : ℕ) × (k < 32) × (difficulty ≡ 2 ^ k) × (mask ≡ mask_of k))
ticket_mask_reg-eq-ok difficulty mask = (
  λ made.
      let (k, lt, same) = made-pow difficulty mask made in
      let of_pow = rw same at made in
      (k, lt, same, ok-injective _ _ (sym of_pow ∙ ticket_mask_reg-pow k lt)),
  λ (k, lt, same, is_mask). rw (same, is_mask) (ticket_mask_reg-pow k lt),
)
