-- ===== src/Antminer/Counters/Totals.antt =====
-- The totals are the sums of their parts.
use bic_os.Base.{
  ℕ, ◌+◌, ◌%◌, ◌^◌, ◌<◌, ◌≡◌, refl, ◌∙◌, inl, inr, Bool, true, false, List, [], ◌∷◌, ok, arith, leb,
  length, All, Bool-cases, length-replicate,
}
use bic_os.Antminer.Address.{CoreAddress, core_address}
use bic_os.Antminer.Address.Cores.{core_address-bounds}
use bic_os.Antminer.Counters.Sums.{
  total, change-Added, Any, All-Any, total-replicate, All-replicate,
}
use bic_os.Antminer.Counters.{
  Chip, HashChain, core_adr_space_size, plus, new_core, new_chip, new, valid_core, valid_chip,
  error_core, error_chip, add_valid, add_error, count_nonces,
}

-- A chip whose totals are the sums over its cores, of which it has as many as a nonce can name.
pub record IsChip (c : Chip) : Type 0 where
  pub cores : length c.core ≡ core_adr_space_size
  pub valid_sum : c.valid ≡ total (λ x. x.valid) c.core % 2 ^ 32
  pub errors_sum : c.errors ≡ total (λ x. x.errors) c.core % 2 ^ 32

-- A hash chain whose totals are the sums over its chips.
pub record IsHashChain (h : HashChain) : Type 0 where
  pub chips : All IsChip h.chip
  pub valid_sum : h.valid ≡ total (λ x. x.valid) h.chip % 2 ^ 32
  pub errors_sum : h.errors ≡ total (λ x. x.errors) h.chip % 2 ^ 32

valid_chip-IsChip :
    (d i : ℕ) (c : Chip)
    → i < core_adr_space_size
    → IsChip c
    → (b : Chip) × (valid_chip d i c ≡ ok b)
      × IsChip b
      × (b.valid ≡ (c.valid + d) % 2 ^ 32)
      × (b.errors ≡ c.errors)
valid_chip-IsChip d i c lt valid =
    let (cores, e, any, added) =
      change-Added (λ x. x.valid) (λ x. x.errors) d Any (valid_core d)
        (λ x h. (_, refl, tt, refl, refl)) c.core i (All-Any c.core) (omega (arith, valid.cores)) in
    (
      record c { core = cores; valid = plus c.valid d },
      rw e,
      record {
        cores = added.same_length ∙ valid.cores;
        valid_sum = omega (arith, valid.valid_sum, added.more);
        errors_sum = omega (arith, valid.errors_sum, added.same);
      },
      refl,
      refl,
    )

error_chip-IsChip :
    (i : ℕ) (c : Chip)
    → i < core_adr_space_size
    → IsChip c
    → (b : Chip) × (error_chip i c ≡ ok b)
      × IsChip b
      × (b.errors ≡ (c.errors + 1) % 2 ^ 32)
      × (b.valid ≡ c.valid)
error_chip-IsChip i c lt valid =
    let (cores, e, any, added) =
      change-Added (λ x. x.errors) (λ x. x.valid) 1 Any error_core
        (λ x h. (_, refl, tt, refl, refl)) c.core i (All-Any c.core) (omega (arith, valid.cores)) in
    (
      record c { core = cores; errors = plus c.errors 1 },
      rw e,
      record {
        cores = added.same_length ∙ valid.cores;
        valid_sum = omega (arith, valid.valid_sum, added.same);
        errors_sum = omega (arith, valid.errors_sum, added.more);
      },
      refl,
      refl,
    )

-- A counted nonce goes to chips and cores that exist, or is dropped, and the sums stay right.
pub add_valid-IsHashChain :
    (h : HashChain) (a : CoreAddress)
    → a.core < core_adr_space_size
    → IsHashChain h
    → (h' : HashChain) × (add_valid h a ≡ ok h') × IsHashChain h'
unfolding add_valid
add_valid-IsHashChain h a lt inv = elim (Bool-cases (leb (length h.chip) a.chip)) [
  | inl beyond ↦ (h, rw beyond, inv)
  | inr inside ↦
      let d = h.asic_difficulty in
      let (cs, e, chips, added) =
        change-Added (λ x. x.valid) (λ x. x.errors) d IsChip (valid_chip d a.core)
          (λ c v. valid_chip-IsChip d a.core c lt v) h.chip a.chip inv.chips
          (ground (arith, inside)) in
      (
        record h { chip = cs; valid = plus h.valid d },
        rw inside (rw e),
        record {
          chips = chips;
          valid_sum = omega (arith, inv.valid_sum, added.more);
          errors_sum = omega (arith, inv.errors_sum, added.same);
        },
      )
]

pub add_error-IsHashChain :
    (h : HashChain) (a : CoreAddress)
    → a.core < core_adr_space_size
    → IsHashChain h
    → (h' : HashChain) × (add_error h a ≡ ok h') × IsHashChain h'
unfolding add_error
add_error-IsHashChain h a lt inv = elim (Bool-cases (leb (length h.chip) a.chip)) [
  | inl beyond ↦ (h, rw beyond, inv)
  | inr inside ↦
      let (cs, e, chips, added) =
        change-Added (λ x. x.errors) (λ x. x.valid) 1 IsChip (error_chip a.core)
          (λ c v. error_chip-IsChip a.core c lt v) h.chip a.chip inv.chips
          (ground (arith, inside)) in
      (
        record h { chip = cs; errors = plus h.errors 1 },
        rw inside (rw e),
        record {
          chips = chips;
          valid_sum = omega (arith, inv.valid_sum, added.same);
          errors_sum = omega (arith, inv.errors_sum, added.more);
        },
      )
]

count_nonces-IsHashChain :
    (ns : List (Bool × ℕ)) (h : HashChain)
    → IsHashChain h
    → (h' : HashChain) × (count_nonces h ns ≡ ok h') × IsHashChain h'
unfolding count_nonces
count_nonces-IsHashChain [] h inv = (h, refl, inv)
count_nonces-IsHashChain ((true, nonce) ∷ ns) h inv =
    let (h', e, inv') =
      add_valid-IsHashChain h (core_address nonce) (core_address-bounds nonce).1 inv in
    let (h'', e', inv'') = count_nonces-IsHashChain ns h' inv' in (h'', rw e e', inv'')
count_nonces-IsHashChain ((false, nonce) ∷ ns) h inv =
    let (h', e, inv') =
      add_error-IsHashChain h (core_address nonce) (core_address-bounds nonce).1 inv in
    let (h'', e', inv'') = count_nonces-IsHashChain ns h' inv' in (h'', rw e e', inv'')

new_chip-IsChip : IsChip new_chip
new_chip-IsChip = record {
  cores = length-replicate 128 new_core;
  valid_sum = omega (arith, total-replicate (λ x. x.valid) 128 new_core refl);
  errors_sum = omega (arith, total-replicate (λ x. x.errors) 128 new_core refl);
}

pub new-IsHashChain : (n d : ℕ) → IsHashChain (new n d)
unfolding new
new-IsHashChain n d = record {
  chips = All-replicate IsChip n new_chip new_chip-IsChip;
  valid_sum = omega (arith, total-replicate (λ x. x.valid) n new_chip refl);
  errors_sum = omega (arith, total-replicate (λ x. x.errors) n new_chip refl);
}

-- Any nonces counted on a new hash chain, each as valid or as an error at the core that it names,
-- are counted without a panic, and leave the totals of the chain the sums over its chips, and those
-- of each chip the sums over its cores, modulo the size of a word.
pub count_nonces-new :
    (n d : ℕ) (ns : List (Bool × ℕ))
    → (h : HashChain) × (count_nonces (new n d) ns ≡ ok h) × IsHashChain h
count_nonces-new n d ns = count_nonces-IsHashChain ns (new n d) (new-IsHashChain n d)
