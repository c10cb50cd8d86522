-- ===== src/Antminer/Receive/Steps.antt =====
-- Writes to the slots of the registry, and the counters.
use mathlib.Core.Option.{some-injective}
use bic_os.Base.{
  ℕ, zero, suc, ◌≡◌, refl, sym, ◌∙◌, Bool, true, false, Option, none, some, List, set, get_elem?,
  replicate, ok, eq-cases, inl, inr, arith, lt-get_elem?, get_elem?-set_self, get_elem?-set_ne,
  length-set, if◌then◌else◌,
}
use bic_os.Antminer.Address.{core_address}
use bic_os.Antminer.Address.Cores.{core_address-bounds}
use bic_os.Antminer.Registry.{WorkRegistryItem}
use bic_os.Antminer.Counters.{HashChain, add_valid, add_error}
use bic_os.Antminer.Counters.Totals.{IsHashChain, add_valid-IsHashChain, add_error-IsHashChain}
use bic_os.Antminer.Receive.{from_counter}

pub skip : {A : Type 0} (b : Bool) (x y : A) → b ≡ false → (if b then x else y) ≡ y
skip b x y e = rw e refl

module _ {W : Type 0} (I : WorkRegistryItem W → Type 0) where
  -- Every item in the slots has a property.
  abbrev pub Items : List (Option (WorkRegistryItem W)) → Type 0
  Items xs = (i : ℕ) (item : WorkRegistryItem W) → get_elem? xs i ≡ some (some item) → I item

  pub set-Items :
      (xs : List (Option (WorkRegistryItem W))) (j : ℕ) (slot : Option (WorkRegistryItem W))
      → Items xs
      → ((item : WorkRegistryItem W) → slot ≡ some item → I item)
      → Items (set xs j slot)
  set-Items xs j slot items new_one i item at = elim (eq-cases j i) [
    | inl same ↦
        let bound = lt-get_elem? (set xs j slot) i (some item) at in
        let here =
          get_elem?-set_self xs j slot (omega (arith, same, bound, length-set xs j slot)) in
        let at_j = rw (sym same) at at in new_one item (some-injective _ _ (sym here ∙ at_j))
    | inr other ↦ items i item (sym (get_elem?-set_ne xs j i slot other) ∙ at)
  ]

pub empty :
    {W : Type 0} (size i : ℕ) (item : WorkRegistryItem W)
    → get_elem? (replicate size none) i ≡ some (some item)
    → ⊥
empty zero i item at = cc
empty (suc size) zero item at = cc
empty (suc size) (suc i) item at = empty size i item at

pub counted :
    (b : Bool) (h : HashChain) (nonce : ℕ)
    → IsHashChain h
    → (h' : HashChain) × (from_counter
          (if b then add_valid h (core_address nonce) else add_error h (core_address nonce))
        ≡ ok h')
      × IsHashChain h'
counted true h nonce sums =
    let (h', run, sums') =
      add_valid-IsHashChain h (core_address nonce) (core_address-bounds nonce).1 sums in
    (h', rw run refl, sums')
counted false h nonce sums =
    let (h', run, sums') =
      add_error-IsHashChain h (core_address nonce) (core_address-bounds nonce).1 sums in
    (h', rw run refl, sums')
