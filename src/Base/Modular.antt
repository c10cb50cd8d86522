-- ===== src/Base/Modular.antt =====
-- Numbers on a circle.
use Prim.Native.Nat.{ℕ, ◌+◌, ◌-◌, ◌%◌, ◌<◌, ◌≤◌}
use mathlib.Core.Path.{◌≡◌}
use mathlib.Core.Logic.{◌≢◌, inl, inr}
use native.Mathlib.Nat.{add-mod, mod-eq_of_lt, mod-eq-sub-mod, mod-lt}
use native.Mathlib.Omega.{arith}
use bic_os.Base.Tests.{ltb, ltb→lt, Bool-cases}

-- Less than a whole turn does not lead back.
pub add-mod_ne : (a d n : ℕ) → 0 < d → d < n → (a + d) % n ≢ a % n
add-mod_ne a d n pos short =
    let split : (a + d) % n ≡ (a % n + d % n) % n = add-mod a d n in
    let small : d % n ≡ d = mod-eq_of_lt short in
    let start : a % n < n = mod-lt a (omega arith) in
    let whole : (a + d) % n ≡ (a % n + d) % n = rw small at split in
    elim (Bool-cases (ltb (a % n + d) n)) [
      | inl lt ↦
          let stays : (a % n + d) % n ≡ a % n + d = mod-eq_of_lt (ltb→lt _ _ lt) in
          λ e. absurd (omega arith)
      | inr ge ↦
          let over : n ≤ a % n + d = ground arith in
          let wraps : (a % n + d) % n ≡ (a % n + d - n) % n = mod-eq-sub-mod over in
          let rest : (a % n + d - n) % n ≡ a % n + d - n = mod-eq_of_lt (omega arith) in
          λ e. absurd (omega arith)
    ]
