-- ===== src/Antminer/Registry/Slots.antt =====
-- The slots of the registry's list, when work number `k` is stored in one and another is cleared.
use native.Mathlib.Nat.{mod-lt, mod-add-mod}
use bic_os.Base.{
  ℕ, ◌+◌, ◌-◌, ◌/◌, ◌%◌, ◌<◌, ◌≡◌, ◌≢◌, ◌∙◌, Option, none, some, List, arith, length, get_elem?,
  set, length-set, get_elem?-set_self, get_elem?-set_ne, add-mod_ne,
}

-- Later numbers within one turn stand on other slots.
pub ahead_ne : (j m n : ℕ) → j < m → m < j + n → m % n ≢ j % n
ahead_ne j m n lt near =
    let e : j + (m - j) ≡ m = omega arith in
    rw e at (add-mod_ne j (m - j) n (omega arith) (omega arith))

pub retire_slot : (k n : ℕ) → (k % n + n / 2) % n ≡ (k + n / 2) % n
retire_slot k n = mod-add-mod k n (n / 2)

module _ {A : Type 0} where
  abbrev pub stored : ℕ → ℕ → List (Option A) → Option A → List (Option A)
  stored n k p v = set (set p ((k % n + n / 2) % n) none) (k % n) v

  pub stored-kept :
      (n k : ℕ) (p : List (Option A)) (v : Option A) (i : ℕ)
      → (k + n / 2) % n ≢ i
      → k % n ≢ i
      → get_elem? (stored n k p v) i ≡ get_elem? p i
  stored-kept n k p v i away other =
      get_elem?-set_ne _ (k % n) i v other
      ∙ get_elem?-set_ne p ((k % n + n / 2) % n) i none (rw (retire_slot k n) away)

  pub stored-new :
      (n k : ℕ) (p : List (Option A)) (v : Option A)
      → 0 < n
      → length p ≡ n
      → get_elem? (stored n k p v) (k % n) ≡ some v
  stored-new n k p v pos len =
      get_elem?-set_self (set p ((k % n + n / 2) % n) none) (k % n) v
        (rw (length-set p ((k % n + n / 2) % n) none, len) (mod-lt k pos))

  pub stored-retired :
      (n k : ℕ) (p : List (Option A)) (v : Option A)
      → 0 < n
      → length p ≡ n
      → k % n ≢ (k + n / 2) % n
      → get_elem? (stored n k p v) ((k + n / 2) % n) ≡ some none
  stored-retired n k p v pos len other =
      get_elem?-set_ne _ (k % n) ((k + n / 2) % n) v other
      ∙ rw (retire_slot k n)
          (get_elem?-set_self p ((k + n / 2) % n) none (rw len (mod-lt (k + n / 2) pos)))
