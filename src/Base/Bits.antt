-- ===== src/Base/Bits.antt =====
-- Masks as arithmetic, for words of at most 16 bits: each is a table, checked by evaluation.
use Prim.Native.Nat.{ℕ, zero, suc, ◌+◌, ◌*◌, ◌/◌, ◌%◌, ◌^◌, ◌-◌, ◌<◌, ◌≤◌, bit_and, bit_or}
use mathlib.Core.Path.{◌≡◌, refl}
use mathlib.Core.Bool.{Bool, true, ◌&&◌}
use native.Mathlib.Omega.{arith}
use bic_os.Base.Tests.{◌==◌, ==_iff}

-- Whether a test holds of every number below the bound.
unfoldable pub table : (ℕ → Bool) → ℕ → Bool
table test zero = true
table test (suc last) = test last && table test last

pub table_lem :
    (test : ℕ → Bool) (bound : ℕ) → table test bound ≡ true → (i : ℕ) → i < bound → test i ≡ true
unfolding table
table_lem test zero all i lt = absurd (omega arith)
table_lem test (suc last) all i lt = ground (arith, table_lem test last _ i)

-- Two functions that agree on a table agree.
agree_below : (n : ℕ) (f g : ℕ → ℕ) → table (λ x. f x == g x) n ≡ true → (x : ℕ) → x < n → f x ≡ g x
agree_below n f g h x lt = (==_iff (f x) (g x)).0 (table_lem (λ x. f x == g x) n h x lt)

pub or_zero15 : (x : ℕ) → x < 32768 → bit_or x 0 ≡ x
unfolding table
or_zero15 = agree_below 32768 (λ x. bit_or x 0) (λ x. x) refl

pub or_bit15 : (x : ℕ) → x < 32768 → bit_or x 32768 ≡ x + 32768
unfolding table
or_bit15 = agree_below 32768 (λ x. bit_or x 32768) (λ x. x + 32768) refl

pub and_bit15 : (x : ℕ) → x < 65536 → bit_and x 32768 ≡ x / 32768 * 32768
unfolding table
and_bit15 = agree_below 65536 (λ x. bit_and x 32768) (λ x. x / 32768 * 32768) refl

pub and_low15 : (x : ℕ) → x < 65536 → bit_and x 32767 ≡ x % 32768
unfolding table
and_low15 = agree_below 65536 (λ x. bit_and x 32767) (λ x. x % 32768) refl

-- A mask of up to two ones, and a number put together from what is above and below it.
pub and_mask : (b x : ℕ) → b ≤ 2 → x < 65536 → bit_and x (2 ^ b - 1) ≡ x % 2 ^ b
unfolding table
and_mask zero x h = agree_below 65536 (λ x. bit_and x (2 ^ 0 - 1)) (λ x. x % 2 ^ 0) refl x
and_mask (suc zero) x h = agree_below 65536 (λ x. bit_and x (2 ^ 1 - 1)) (λ x. x % 2 ^ 1) refl x
and_mask (suc (suc zero)) x h =
    agree_below 65536 (λ x. bit_and x (2 ^ 2 - 1)) (λ x. x % 2 ^ 2) refl x
and_mask (suc (suc (suc b))) x h = absurd (omega arith)

pub or_mask : (b x : ℕ) → b ≤ 2 → x < 65536 → bit_or (x / 2 ^ b * 2 ^ b) (x % 2 ^ b) ≡ x
unfolding table
or_mask zero x h = agree_below 65536 (λ x. bit_or (x / 2 ^ 0 * 2 ^ 0) (x % 2 ^ 0)) (λ x. x) refl x
or_mask (suc zero) x h =
    agree_below 65536 (λ x. bit_or (x / 2 ^ 1 * 2 ^ 1) (x % 2 ^ 1)) (λ x. x) refl x
or_mask (suc (suc zero)) x h =
    agree_below 65536 (λ x. bit_or (x / 2 ^ 2 * 2 ^ 2) (x % 2 ^ 2)) (λ x. x) refl x
or_mask (suc (suc (suc b))) x h = absurd (omega arith)
