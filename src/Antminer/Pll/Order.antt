-- ===== src/Antminer/Pll/Order.antt =====
-- The table is sorted, and as good as the dividers allow.
use mathlib.Core.Option.{some-injective}
use bic_os.Base.{
  ℕ, zero, suc, ◌+◌, ◌*◌, ◌%◌, ◌^◌, ◌<◌, ◌≤◌, ◌≡◌, refl, ap, Option, none, some, List, [], ◌∷◌,
  get_elem?, replicate, All, ok, >>=-eq-ok, ok-injective, arith, length-replicate,
}
use bic_os.Antminer.Pll.{
  PllReg, PllFrequency, divide, calc, distance, bin_of, Bins, filled, precompute_pll_table,
}
use bic_os.Antminer.Pll.Table.{Entry, Inv}
use bic_os.Antminer.Pll.Best.{Tried, all_dividers-Keeps, all_dividers-Reaches}

abbrev pub Ascending : List PllFrequency → Type 0
Ascending [] = Unit {0}
Ascending (p ∷ ps) = All (λ q. p.frequency < q.frequency) ps × Ascending ps

-- An entry is a frequency that its divider gives.
abbrev pub Given : ℕ → PllFrequency → Type 0
Given xtal p = calc p.reg xtal ≡ ok p.frequency

calc-lt : (reg : PllReg) (xtal f : ℕ) → calc reg xtal ≡ ok f → f < 2 ^ 32
unfolding calc
calc-lt reg xtal f e =
    let (a, e1, rest) = >>=-eq-ok (divide (xtal * reg.fbdiv % 2 ^ 64) reg.refdiv) _ e in
    let (b, e2, rest') = >>=-eq-ok (divide a reg.postdiv1) _ rest in
    let (c, e3, rest'') = >>=-eq-ok (divide b reg.postdiv2) _ rest' in
    let same : c % 2 ^ 32 ≡ f = ok-injective _ _ rest'' in omega (arith, same)

bin_of-lt : (f g : ℕ) → f < 2 ^ 32 → g < 2 ^ 32 → 100 ≤ bin_of f → bin_of f < bin_of g → f < g
unfolding bin_of
bin_of-lt f g f_word g_word high lt = omega arith

filled-from :
    (bins : Bins) (i : ℕ) (p : PllFrequency)
    → get_elem? (filled bins) i ≡ some p
    → (b : ℕ) × (get_elem? bins b ≡ some (some p))
unfolding filled
filled-from [] i p e = absurd (cc)
filled-from (none ∷ bins) i p e = let (b, at) = filled-from bins i p e in (suc b, at)
filled-from (some q ∷ bins) zero p e = (0, ap some e)
filled-from (some q ∷ bins) (suc i) p e = let (b, at) = filled-from bins i p e in (suc b, at)

filled-to :
    (bins : Bins) (b : ℕ) (p : PllFrequency)
    → get_elem? bins b ≡ some (some p)
    → (i : ℕ) × (get_elem? (filled bins) i ≡ some p)
unfolding filled
filled-to [] b p e = absurd (cc)
filled-to (none ∷ bins) zero p e = absurd (cc)
filled-to (none ∷ bins) (suc b) p e = filled-to bins b p e
filled-to (some q ∷ bins) zero p e = (0, some-injective _ _ e)
filled-to (some q ∷ bins) (suc b) p e = let (i, at) = filled-to bins b p e in (suc i, at)

nothing : (n b : ℕ) (p : PllFrequency) → get_elem? (replicate n none) b ≡ some (some p) → ⊥
nothing zero b p at = cc
nothing (suc n) zero p at = cc
nothing (suc n) (suc b) p at = nothing n b p at

module _ (xtal : ℕ) where
  -- The rest of the bins, from a number on.
  abbrev From : ℕ → Bins → Type 0
  From k bins = (b : ℕ) (p : PllFrequency) → get_elem? bins b ≡ some (some p) → Entry xtal (k + b) p

  From-tail :
      (k : ℕ) (bin : Option PllFrequency) (bins : Bins) → From k (bin ∷ bins) → From (suc k) bins
  From-tail k bin bins from b p at =
      let shift : k + suc b ≡ suc k + b = omega arith in
      let entry = from (suc b) p at in rw shift at entry

  above :
      (bins : Bins) (k : ℕ) (p : PllFrequency) (b : ℕ)
      → Entry xtal b p
      → b < k
      → From k bins
      → All (λ q. p.frequency < q.frequency) (filled bins)
  unfolding filled
  above [] k p b entry lt from = tt
  above (none ∷ bins) k p b entry lt from =
      above bins (suc k) p b entry (omega arith) (From-tail k none bins from)
  above (some q ∷ bins) k p b entry lt from =
      let other = from 0 q refl in
      let order =
        bin_of-lt p.frequency q.frequency (calc-lt p.reg xtal p.frequency entry.calculated)
          (calc-lt q.reg xtal q.frequency other.calculated) (omega (arith, entry.bin, entry.high))
          (omega (arith, entry.bin, other.bin)) in
      (order, above bins (suc k) p b entry (omega arith) (From-tail k (some q) bins from))

  filled-Ascending : (bins : Bins) (k : ℕ) → From k bins → Ascending (filled bins)
  unfolding filled
  filled-Ascending [] k from = tt
  filled-Ascending (none ∷ bins) k from = filled-Ascending bins (suc k) (From-tail k none bins from)
  filled-Ascending (some p ∷ bins) k from =
      let tail = From-tail k (some p) bins from in
      (
        above bins (suc k) p (k + 0) (from 0 p refl) (omega arith) tail,
        filled-Ascending bins (suc k) tail,
      )

  filled-Given : (bins : Bins) (k : ℕ) → From k bins → All (Given xtal) (filled bins)
  unfolding filled
  filled-Given [] k from = tt
  filled-Given (none ∷ bins) k from = filled-Given bins (suc k) (From-tail k none bins from)
  filled-Given (some p ∷ bins) k from =
      let here = from 0 p refl in
      (here.calculated, filled-Given bins (suc k) (From-tail k (some p) bins from))

  entries_of : (bins : Bins) → Inv xtal bins → From 0 bins
  entries_of bins inv b p at =
      let zero_th : 0 + b ≡ b = omega arith in rw zero_th (inv.entries b p at)

  empty-Inv : Inv xtal (replicate 1201 none)
  empty-Inv = record {
    size = length-replicate {A = Option PllFrequency} 1201 none;
    entries = λ b p at. absurd (nothing 1201 b p at);
  }

  -- For any oscillator the table is computed without a panic. Its frequencies ascend, and each is
  -- what the divider that stands with it gives.
  pub precompute_pll_table-Ascending :
      (table : List PllFrequency) × (precompute_pll_table xtal ≡ ok table)
      × Ascending table
      × All (Given xtal) table
  unfolding precompute_pll_table
  precompute_pll_table-Ascending =
      let (bins, run, inv, keep) = all_dividers-Keeps xtal 0 0 (replicate 1201 none) empty-Inv in
      let from = entries_of bins inv in
      (filled bins, rw run refl, filled-Ascending bins 0 from, filled-Given bins 0 from)

  -- Whatever divider the loops try, if its frequency is in the range of the bins then the table has
  -- an entry in the bin of that frequency that is at least as near to the frequency of the bin.
  pub precompute_pll_table-best :
      (table : List PllFrequency) (reg : PllReg) (f : ℕ)
      → precompute_pll_table xtal ≡ ok table
      → Tried xtal reg
      → calc reg xtal ≡ ok f
      → 100 ≤ bin_of f
      → bin_of f ≤ 1200
      → (i : ℕ) × (p : PllFrequency) × (get_elem? table i ≡ some p)
        × (bin_of p.frequency ≡ bin_of f)
        × (distance (bin_of f * 1000000) p.frequency ≤ distance (bin_of f * 1000000) f)
  unfolding precompute_pll_table
  precompute_pll_table-best table reg f made tried calculated high low =
      let (bins, run, inv, (p, at, near)) =
        all_dividers-Reaches xtal f reg calculated high low tried (replicate 1201 none) empty-Inv in
      let made' = rw run at made in
      let same : filled bins ≡ table = ok-injective _ _ made' in
      let (i, at') = filled-to bins (bin_of f) p at in
      let in_table = rw same at at' in (i, p, in_table, (inv.entries (bin_of f) p at).bin, near)
