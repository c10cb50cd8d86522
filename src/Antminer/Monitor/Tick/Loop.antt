-- ===== src/Antminer/Monitor/Tick/Loop.antt =====
-- The loop of `do_tick` over the chains.
use mathlib.Core.Option.{some-injective}
use bic_os.Base.{
  ◌∙◌, ℕ, zero, suc, ◌+◌, ◌-◌, ◌*◌, ◌≤◌, ◌≡◌, refl, ◌⊎◌, inl, inr, Bool, true, false, All, some,
  List, [], ◌∷◌, Result, ok, arith, leb, le→leb, if◌then◌else◌, get_elem?, Bool-cases,
}
use bic_os.Antminer.Monitor.{
  Panic, Floats, duration_since, warm_up_period, start_timeout, run_update_timeout,
}
use bic_os.Antminer.Monitor.Chain.{
  ChainTemperature, ChainState, on_since, running_since, is_off, broken, tick, is_warming_up,
  get_temperature, Chain,
}
use bic_os.Antminer.Monitor.Chain.Protocol.{IsBroken}
use bic_os.Antminer.Monitor.Tick.{Sweep, sweep, after_tick, stop_sweep, add_chain}

module _ {F : Type 0} where
  -- No time that a state remembers is later than `now`.
  abbrev pub IsPast : ChainState F → ℕ → Type 0
  IsPast (on_since a) now = a ≤ now
  IsPast (running_since a b t) now = (a ≤ now) × (b ≤ now)
  IsPast _ now = Unit {0}

  -- What a tick leaves of a state, with no panic.
  unfoldable pub ticked : ChainState F → ℕ → ChainState F
  ticked (on_since a) now =
      if leb start_timeout (now - a) then broken "took too long to start" else on_since a
  ticked (running_since a b t) now =
      if leb run_update_timeout (now - b)
      then broken "failed to set update in time"
      else running_since a b t
  ticked s now = s

  tick-ticked : (s : ChainState F) (now : ℕ) → IsPast s now → tick s now ≡ ok (ticked s now)
  unfolding tick ticked duration_since
  tick-ticked (on_since a) now p =
      rw (le→leb a now p) (elim (Bool-cases (leb start_timeout (now - a))) [
        | inl late ↦ rw late
        | inr soon ↦ rw soon
      ])
  tick-ticked (running_since a b t) now p =
      rw (le→leb b now p.1) (elim (Bool-cases (leb run_update_timeout (now - b))) [
        | inl late ↦ rw late
        | inr soon ↦ rw soon
      ])
  tick-ticked is_off now p = refl
  tick-ticked (broken w) now p = refl

  warming-total :
      (s : ChainState F) (now : ℕ) → IsPast s now → (b : Bool) × (is_warming_up s now ≡ ok b)
  unfolding is_warming_up duration_since
  warming-total (on_since a) now p = (_, refl)
  warming-total (running_since a b t) now p = (leb (now - a) warm_up_period, rw (le→leb a now p.0))
  warming-total is_off now p = (_, refl)
  warming-total (broken w) now p = (_, refl)

  ticked-IsPast : (s : ChainState F) (now later : ℕ) → IsPast s later → IsPast (ticked s now) later
  unfolding ticked
  ticked-IsPast (on_since a) now later p = elim (Bool-cases (leb start_timeout (now - a))) [
    | inl late ↦ rw late tt
    | inr soon ↦ rw soon p
  ]
  ticked-IsPast (running_since a b t) now later p =
      elim (Bool-cases (leb run_update_timeout (now - b))) [
        | inl late ↦ rw late tt
        | inr soon ↦ rw soon p
      ]
  ticked-IsPast is_off now later p = tt
  ticked-IsPast (broken w) now later p = tt

module _ {F : Type 0} (f : Floats F) (clock : ℕ → ℕ) where
  -- Every time that a chain remembers comes before all readings of the clock.
  abbrev pub AllPast : List (Chain F) → Type 0
  AllPast cs = All (λ c. (n : ℕ) → IsPast c.state (clock n)) cs

  -- The loop met no broken chain: what it collected of each, from chain number `i` on.
  pub record Collected (i : ℕ) (cs : List (Chain F)) (temps : List (ChainTemperature F))
      : Type 0 where
    pub unbroken :
        (j : ℕ) (c : Chain F)
        → get_elem? cs j ≡ some c
        → ¬ (IsBroken (ticked c.state (clock (2 * (i + j)))))
    pub temperature :
        (j : ℕ) (c : Chain F)
        → get_elem? cs j ≡ some c
        → get_elem? temps j ≡ some (get_temperature f (ticked c.state (clock (2 * (i + j)))))

  -- What the loop makes of a chain that is broken after its tick, or that is not.
  after_tick-cases :
      (i : ℕ) (c : Chain F) (cs : List (Chain F)) (rest : Result Panic (Sweep F)) (s : ChainState F)
      (sw : Sweep F)
      → rest ≡ ok sw
      → IsPast s (clock (2 * i + 1))
      → (sw' : Sweep F) × (after_tick f clock i c cs rest s ≡ ok sw')
        × ((sw'.any_broken ≡ true)
            ⊎ ((¬ (IsBroken s))
                × (sw'.any_broken ≡ sw.any_broken)
                × (sw'.temperatures ≡ get_temperature f s ∷ sw.temperatures)))
  unfolding after_tick stop_sweep add_chain
  after_tick-cases i c cs rest (broken w) sw e p = (_, refl, inl refl)
  after_tick-cases i c cs rest (on_since a) sw e p =
      let (b, warm) = warming-total {F = F} (on_since a) (clock (2 * i + 1)) p in
      (
        add_chain f clock (record c { state = on_since a }) _ b sw,
        rw warm (rw e),
        inr (λ x. x, refl, refl),
      )
  after_tick-cases i c cs rest (running_since a t x) sw e p =
      let (b, warm) = warming-total {F = F} (running_since a t x) (clock (2 * i + 1)) p in
      (
        add_chain f clock (record c { state = running_since a t x }) _ b sw,
        rw warm (rw e),
        inr (λ x. x, refl, refl),
      )
  after_tick-cases i c cs rest is_off sw e p =
      let (b, warm) = warming-total {F = F} is_off (clock (2 * i + 1)) p in
      (
        add_chain f clock (record c { state = is_off }) _ b sw,
        rw warm (rw e),
        inr (λ x. x, refl, refl),
      )

  none-Collected : (i : ℕ) → Collected i [] []
  none-Collected i = record { unbroken = λ j c e. cc; temperature = λ j c e. cc }

  -- The state of chain `c` after its tick, when it is the chain number `i + j`.
  abbrev pub seen : ℕ → ℕ → Chain F → ChainState F
  seen i j c = ticked c.state (clock (2 * (i + j)))

  more_unbroken :
      (i : ℕ) (c : Chain F) (cs : List (Chain F)) (temps : List (ChainTemperature F))
      → ¬ (IsBroken (seen i 0 c))
      → Collected (suc i) cs temps
      → (j : ℕ) (x : Chain F) → get_elem? (c ∷ cs) j ≡ some x
      → ¬ (IsBroken (seen i j x))
  more_unbroken i c cs temps fine rest zero x e = rw (← some-injective _ _ e) fine
  more_unbroken i c cs temps fine rest (suc j) x e =
      let next : suc i + j ≡ i + suc j = omega arith in rw next at (rest.unbroken j x e)

  more_temperature :
      (i : ℕ) (c : Chain F) (cs : List (Chain F)) (temps : List (ChainTemperature F))
      → Collected (suc i) cs temps
      → (j : ℕ) (x : Chain F) → get_elem? (c ∷ cs) j ≡ some x
      → get_elem? (get_temperature f (seen i 0 c) ∷ temps) j ≡ some (get_temperature f (seen i j x))
  more_temperature i c cs temps rest zero x e = rw (← some-injective _ _ e)
  more_temperature i c cs temps rest (suc j) x e =
      let next : suc i + j ≡ i + suc j = omega arith in rw next at (rest.temperature j x e)

  -- The loop never panics, and either meets a broken chain or collects every temperature.
  pub sweep-cases :
      (i : ℕ) (cs : List (Chain F))
      → AllPast cs
      → (sw : Sweep F) × (sweep f clock i cs ≡ ok sw)
        × ((sw.any_broken ≡ true) ⊎ ((sw.any_broken ≡ false) × Collected i cs sw.temperatures))
  unfolding sweep
  sweep-cases i [] past = (_, refl, inr (refl, none-Collected i))
  sweep-cases i (c ∷ cs) (here, later) =
      let (rest, run, rest_cases) = sweep-cases (suc i) cs later in
      let start : i + 0 ≡ i = omega arith in
      let ticks : tick c.state (clock (2 * i)) ≡ ok (seen i 0 c) =
        rw start (tick-ticked c.state (clock (2 * i)) (here (2 * i))) in
      let past : IsPast (seen i 0 c) (clock (2 * i + 1)) =
        ticked-IsPast c.state (clock (2 * (i + 0))) (clock (2 * i + 1)) (here (2 * i + 1)) in
      let (sw, made, split) =
        after_tick-cases i c cs (sweep f clock (suc i) cs) (seen i 0 c) rest run past in
      (
        sw,
        rw ticks made,
        elim split [
          | inl bad ↦ inl bad
          | inr (fine, same, temps) ↦ elim rest_cases [
            | inl bad ↦ inl (same ∙ bad)
            | inr (good, collected) ↦ inr (
              same ∙ good,
              record {
                unbroken = more_unbroken i c cs rest.temperatures fine collected;
                temperature = rw temps (more_temperature i c cs rest.temperatures collected);
              },
            )
          ]
        ],
      )
