-- ===== src/Antminer/Pll/Best.antt =====
-- The loops over all dividers, and the table that they leave.
use bic_os.Base.{ℕ, ◌<◌, ◌≤◌, ◌≡◌, refl, false, ◌||◌, ok, ltb, arith, Bool-cases, inl, inr}
use bic_os.Antminer.Pll.{
  PllReg, PllFrequency, calc, bin_of, improve_unless, improve, divider, all_fbdivs, all_postdivs2,
  all_refdivs, all_dividers,
}
use bic_os.Antminer.Pll.Loops.{Keeps, Reaches, for_range-Keeps, for_range-Reaches}
use bic_os.Antminer.Pll.Table.{Usable, calc-ok, Inv, Near, improve_bin-Improved}

module _ (xtal : ℕ) where
  improve-Keeps :
      (b g : ℕ) (reg : PllReg)
      → Usable reg
      → Keeps (Inv xtal) (Near xtal b g) (λ bins. improve xtal bins reg)
  unfolding improve improve_unless
  improve-Keeps b g reg usable bins inv =
      let (f, calculated) = calc-ok reg xtal usable in
      elim (Bool-cases (ltb (bin_of f) 100 || ltb 1200 (bin_of f))) [
        | inl out ↦ (bins, rw calculated (rw out refl), inv, λ near. near)
        | inr inside ↦
            let high : 100 ≤ bin_of f = ground (arith, inside) in
            let low : bin_of f ≤ 1200 = ground (arith, inside) in
            let new : PllFrequency = record { frequency = f; reg = reg } in
            let (after, run, better) =
              improve_bin-Improved xtal bins new (bin_of f) inv
                (record { calculated = calculated; bin = refl; high = high }) low in
            (after, rw calculated (rw inside run), better.inv, better.keeps b g)
      ]

  improve-Reaches :
      (f : ℕ) (reg : PllReg)
      → calc reg xtal ≡ ok f
      → 100 ≤ bin_of f
      → bin_of f ≤ 1200
      → Reaches (Inv xtal) (Near xtal (bin_of f) f) (λ bins. improve xtal bins reg)
  unfolding improve improve_unless
  improve-Reaches f reg calculated high low bins inv =
      let inside : (ltb (bin_of f) 100 || ltb 1200 (bin_of f)) ≡ false =
        ground (arith, high, low) in
      let new : PllFrequency = record { frequency = f; reg = reg } in
      let (after, run, better) =
        improve_bin-Improved xtal bins new (bin_of f) inv
          (record { calculated = calculated; bin = refl; high = high }) low in
      (after, rw calculated (rw inside run), better.inv, better.near)

  module _ (b g : ℕ) where
    fbdivs-Keeps :
        (postdiv1 refdiv postdiv2 : ℕ)
        → 0 < postdiv1
        → 0 < refdiv
        → 0 < postdiv2
        → Keeps (Inv xtal) (Near xtal b g) (all_fbdivs xtal postdiv1 refdiv postdiv2)
    fbdivs-Keeps postdiv1 refdiv postdiv2 p r p' =
        for_range-Keeps _ _ _ 96 32
          λ fbdiv le lt. improve-Keeps b g (divider postdiv1 refdiv postdiv2 fbdiv) (r, p, p')

    postdivs2-Keeps :
        (postdiv1 refdiv : ℕ)
        → 0 < postdiv1
        → 0 < refdiv
        → Keeps (Inv xtal) (Near xtal b g) (all_postdivs2 xtal postdiv1 refdiv)
    postdivs2-Keeps postdiv1 refdiv p r =
        for_range-Keeps _ _ _ postdiv1 1
          λ postdiv2 le lt. fbdivs-Keeps postdiv1 refdiv postdiv2 p r (omega arith)

    refdivs-Keeps :
        (postdiv1 : ℕ) → 0 < postdiv1 → Keeps (Inv xtal) (Near xtal b g) (all_refdivs xtal postdiv1)
    refdivs-Keeps postdiv1 p =
        for_range-Keeps _ _ _ 63 1 λ refdiv le lt. postdivs2-Keeps postdiv1 refdiv p (omega arith)

    pub all_dividers-Keeps : Keeps (Inv xtal) (Near xtal b g) (all_dividers xtal)
    unfolding all_dividers
    all_dividers-Keeps =
        for_range-Keeps _ _ _ 7 1 λ postdiv1 le lt. refdivs-Keeps postdiv1 (omega arith)

  -- What the loops go through.
  abbrev pub Tried : PllReg → Type 0
  Tried reg =
      (1 ≤ reg.postdiv1)
      × (reg.postdiv1 ≤ 7)
      × (1 ≤ reg.refdiv)
      × (reg.refdiv ≤ 63)
      × (1 ≤ reg.postdiv2)
      × (reg.postdiv2 ≤ reg.postdiv1)
      × (32 ≤ reg.fbdiv)
      × (reg.fbdiv < 128)

  pub all_dividers-Reaches :
      (f : ℕ) (reg : PllReg)
      → calc reg xtal ≡ ok f
      → 100 ≤ bin_of f
      → bin_of f ≤ 1200
      → Tried reg
      → Reaches (Inv xtal) (Near xtal (bin_of f) f) (all_dividers xtal)
  unfolding all_dividers
  all_dividers-Reaches f reg calculated high low (p, p7, r, r63, q, qp, f32, f128) =
      let b = bin_of f in
      for_range-Reaches _ _ _ 7 1 reg.postdiv1 p (omega arith)
        (λ postdiv1 le lt. refdivs-Keeps b f postdiv1 (omega arith))
        (for_range-Reaches _ _ _ 63 1 reg.refdiv r (omega arith)
          (λ refdiv le lt. postdivs2-Keeps b f reg.postdiv1 refdiv p (omega arith))
          (for_range-Reaches _ _ _ reg.postdiv1 1 reg.postdiv2 q (omega arith)
            (λ postdiv2 le lt. fbdivs-Keeps b f reg.postdiv1 reg.refdiv postdiv2 p r (omega arith))
            (for_range-Reaches _ _ _ 96 32 reg.fbdiv f32 (omega arith)
              (λ fbdiv le lt.
                improve-Keeps b f (divider reg.postdiv1 reg.refdiv reg.postdiv2 fbdiv) (r, p, q))
              (improve-Reaches f reg calculated high low))))
