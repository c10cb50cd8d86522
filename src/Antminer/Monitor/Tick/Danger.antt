-- ===== src/Antminer/Monitor/Tick/Danger.antt =====
-- A tick at which a chain is in danger shuts the miner down.
use bic_os.Base.{ℕ, ◌≡◌, refl, inl, inr, true, some, List, ok, ◌>>=◌, get_elem?}
use bic_os.Antminer.Monitor.{
  Floats, TempControlConfig, Config, full_speed, speed_new, num_fans_running,
}
use bic_os.Antminer.Monitor.Chain.{ChainState, get_temperature, Chain}
use bic_os.Antminer.Monitor.Chain.Protocol.{IsBroken}
use bic_os.Antminer.Monitor.Decision.{calc_result, shutdown}
use bic_os.Antminer.Monitor.Decision.Safety.{Dangerous, decide-Safe}
use bic_os.Antminer.Monitor.Decision.Maximum.{IsFloats, calc_result-Dangerous}
use bic_os.Antminer.Monitor.Tick.{
  TempControl, Monitor, Sweep, shut_down, set_fan_speed, termination_handler, after_sweep,
  apply_decision, broadcast, do_tick,
}
use bic_os.Antminer.Monitor.Tick.Loop.{AllPast, seen, sweep-cases}

module _ {F P : Type 0} (f : Floats F) (laws : IsFloats f) (clock : ℕ → ℕ)
    (p : TempControl F P) where
  -- What a state of a chain must not be.
  pub data Alarm (config : Config F) (s : ChainState F) : Type 0 where
    chain_broken : IsBroken s → Alarm config s
    too_hot :
        (c : TempControlConfig F)
        → config.temp_config ≡ some c
        → Dangerous f c (get_temperature f s)
        → Alarm config s

  -- The miner was told to halt, and the monitor remembers the failure.
  pub record Halted (m : Monitor F P) : Type 0 where
    pub failure : m.failure_state ≡ true
    pub halted : m.miner_halted ≡ true

  after_sweep-Halted :
      (m : Monitor F P) (rpm : List ℕ) (sw : Sweep F) (c : TempControlConfig F)
      → m.config.temp_config ≡ some c
      → Dangerous f c (calc_result f sw.temperatures)
      → (m' : Monitor F P) × (after_sweep f clock p m rpm sw ≡ ok m') × Halted m'
  unfolding after_sweep apply_decision shut_down broadcast
  after_sweep-Halted m rpm sw c ec danger =
      let temp = calc_result f sw.temperatures in
      let (d, made, safe) = decide-Safe f m.config (num_fans_running rpm) temp in
      let off : d.decision ≡ shutdown = safe.danger c ec danger in
      (
        broadcast f clock p (shut_down (record m { chains = sw.chains })) rpm temp sw.temperatures
            d,
        rw made (rw off),
        record { failure = refl; halted = refl },
      )

  pub do_tick-Halted :
      (m : Monitor F P) (rpm : List ℕ) (j : ℕ) (c : Chain F)
      → AllPast f clock m.chains
      → get_elem? m.chains j ≡ some c
      → Alarm m.config (seen f clock 0 j c)
      → (m' : Monitor F P) × (do_tick f clock p m rpm ≡ ok m') × Halted m'
  unfolding do_tick shut_down
  do_tick-Halted m rpm j c past at alarm =
      let (sw, run, split) = sweep-cases f clock 0 m.chains past in
      elim split [
        | inl bad ↦ (
          shut_down (record m { chains = sw.chains }),
          rw run (rw bad),
          record { failure = refl; halted = refl },
        )
        | inr (good, collected) ↦ elim alarm [
          | chain_broken b ↦ absurd (collected.unbroken j c at b)
          | too_hot tc ec danger ↦
              let worst =
                calc_result-Dangerous f laws tc sw.temperatures j _ (collected.temperature j c at)
                  danger in
              let (m', made, halted) = after_sweep-Halted m rpm sw tc ec worst in
              (m', rw run (rw good made), halted)
        ]
      ]

  termination_handler-Halted :
      (m : Monitor F P)
      → Halted m
      → (t : Monitor F P) × (termination_handler m ≡ ok t) × (t.fan_pwm ≡ some full_speed)
  unfolding termination_handler set_fan_speed speed_new
  termination_handler-Halted m h = (
    record m { fan_pwm = some full_speed; current_fan_speed = some full_speed },
    rw h.failure,
    refl,
  )

  pub termination_handler-do_tick :
      (m : Monitor F P) (rpm : List ℕ) (j : ℕ) (c : Chain F)
      → AllPast f clock m.chains
      → get_elem? m.chains j ≡ some c
      → Alarm m.config (seen f clock 0 j c)
      → (t : Monitor F P) × ((do_tick f clock p m rpm >>= termination_handler) ≡ ok t)
        × (t.fan_pwm ≡ some full_speed)
  termination_handler-do_tick m rpm j c past at alarm =
      let (m', ticked, halted) = do_tick-Halted m rpm j c past at alarm in
      let (t, ended, cooled) = termination_handler-Halted m' halted in (t, rw ticked ended, cooled)
