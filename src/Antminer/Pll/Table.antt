-- ===== src/Antminer/Pll/Table.antt =====
-- The table that is computed: what stands in it, and that nothing better is left out.
use mathlib.Core.Option.{some-injective}
use bic_os.Base.{
  ℕ, zero, suc, ◌*◌, ◌/◌, ◌%◌, ◌^◌, ◌<◌, ◌≤◌, ◌≡◌, refl, sym, ◌∙◌, true, false, Option, none, some,
  length, get_elem?, set, ok, arith, eq-cases, Bool-cases, inl, inr, get_elem?-lt, lt-get_elem?,
  get_elem?-set_self, get_elem?-set_ne, length-set,
}
use bic_os.Antminer.Pll.{
  PllReg, PllFrequency, divide, calc, distance, bin_of, as_good, Bins, improve_bin,
}

divide-pos : (a b : ℕ) → 0 < b → divide a b ≡ ok (a / b)
unfolding divide
divide-pos a zero pos = absurd (omega arith)
divide-pos a (suc b) pos = ground arith

-- A divider in use divides by no zero.
abbrev pub Usable : PllReg → Type 0
Usable reg = (0 < reg.refdiv) × (0 < reg.postdiv1) × (0 < reg.postdiv2)

pub calc-ok : (reg : PllReg) (xtal : ℕ) → Usable reg → (f : ℕ) × (calc reg xtal ≡ ok f)
unfolding calc
calc-ok reg xtal (pos, pos', pos'') = (
  xtal * reg.fbdiv % 2 ^ 64 / reg.refdiv / reg.postdiv1 / reg.postdiv2 % 2 ^ 32,
  rw (divide-pos (xtal * reg.fbdiv % 2 ^ 64) reg.refdiv pos)
      (rw (divide-pos _ reg.postdiv1 pos') (rw (divide-pos _ reg.postdiv2 pos'') refl)),
)

module _ (xtal : ℕ) where
  -- An entry is what its divider gives, and stands in the bin of its frequency.
  pub record Entry (b : ℕ) (p : PllFrequency) : Type 0 where
    pub calculated : calc p.reg xtal ≡ ok p.frequency
    pub bin : bin_of p.frequency ≡ b
    pub high : 100 ≤ b

  pub record Inv (bins : Bins) : Type 0 where
    pub size : length bins ≡ 1201
    pub entries : (b : ℕ) (p : PllFrequency) → get_elem? bins b ≡ some (some p) → Entry b p

  -- A bin holds something as near to its frequency as what is given.
  abbrev pub Near : ℕ → ℕ → Bins → Type 0
  Near b f bins =
      (p : PllFrequency) × (get_elem? bins b ≡ some (some p))
      × (distance (b * 1000000) p.frequency ≤ distance (b * 1000000) f)

  set-Inv :
      (bins : Bins) (b : ℕ) (p : PllFrequency) → Inv bins → Entry b p → Inv (set bins b (some p))
  set-Inv bins b p inv entry = record {
    size = length-set bins b (some p) ∙ inv.size;
    entries = λ c q at. elim (eq-cases b c) [
      | inr other ↦
          let before = get_elem?-set_ne bins b c (some p) other in inv.entries c q (sym before ∙ at)
      | inl same ↦
          let bound = lt-get_elem? (set bins b (some p)) c (some q) at in
          let here =
            get_elem?-set_self bins b (some p) (omega (arith, length-set bins b (some p))) in
          let at_b = rw (sym same) at at in
          let p_is_q : p ≡ q = some-injective _ _ (some-injective _ _ (sym here ∙ at_b)) in
          rw (sym same, sym p_is_q) entry
    ];
  }

  -- One step improves a bin or leaves all as they are; what is near stays near.
  pub record Improved (bins after : Bins) (b f : ℕ) : Type 0 where
    pub inv : Inv after
    pub near : Near b f after
    pub keeps : (c g : ℕ) → Near c g bins → Near c g after

  improve_bin-as_good :
      (bins : Bins) (new : PllFrequency) (b : ℕ) (bin : Option PllFrequency)
      → Inv bins
      → get_elem? bins b ≡ some bin
      → as_good (b * 1000000) bin new.frequency ≡ true
      → Improved bins bins b new.frequency
  unfolding as_good
  improve_bin-as_good bins new b none inv at good = absurd (cc)
  improve_bin-as_good bins new b (some old) inv at good = record {
    inv = inv;
    near = (old, at, ground (arith, good));
    keeps = λ c g near. near;
  }

  nearer :
      (bin_freq : ℕ) (old new : PllFrequency) (g : ℕ)
      → as_good bin_freq (some old) new.frequency ≡ false
      → distance bin_freq old.frequency ≤ distance bin_freq g
      → distance bin_freq new.frequency ≤ distance bin_freq g
  unfolding as_good
  nearer bin_freq old new g worse le = ground (arith, worse, le)

  improve_bin-better :
      (bins : Bins) (new : PllFrequency) (b : ℕ) (bin : Option PllFrequency)
      → Inv bins
      → Entry b new
      → get_elem? bins b ≡ some bin
      → as_good (b * 1000000) bin new.frequency ≡ false
      → Improved bins (set bins b (some new)) b new.frequency
  improve_bin-better bins new b bin inv entry at worse =
      let here = get_elem?-set_self bins b (some new) (lt-get_elem? bins b bin at) in
      record {
        inv = set-Inv bins b new inv entry;
        near = (new, here, omega arith);
        keeps = λ c g (p, at_c, le). elim (eq-cases b c) [
          | inr other ↦ (p, get_elem?-set_ne bins b c (some new) other ∙ at_c, le)
          | inl same ↦
              let at_b = rw (sym same) at at_c in
              let bin_is : bin ≡ some p = some-injective _ _ (sym at ∙ at_b) in
              let worse' = rw bin_is at worse in
              let le' = rw (sym same) at le in
              rw (sym same) (new, here, nearer (b * 1000000) p new g worse' le')
        ];
      }

  pub improve_bin-Improved :
      (bins : Bins) (new : PllFrequency) (b : ℕ)
      → Inv bins
      → Entry b new
      → b ≤ 1200
      → (after : Bins) × (improve_bin bins b (get_elem? bins b) new ≡ ok after)
        × Improved bins after b new.frequency
  unfolding improve_bin
  improve_bin-Improved bins new b inv entry le =
      let (bin, at) = get_elem?-lt bins b (omega (arith, inv.size)) in
      elim (Bool-cases (as_good (b * 1000000) bin new.frequency)) [
        | inl good ↦ (bins, rw at (rw good refl), improve_bin-as_good bins new b bin inv at good)
        | inr worse ↦ (
          set bins b (some new),
          rw at (rw worse refl),
          improve_bin-better bins new b bin inv entry at worse,
        )
      ]
