-- ===== src/Antminer/Monitor/Tick/Total.antt =====
-- Ticks do not panic, a failure is never forgotten, and what it means at the end.
use bic_os.Base.{ℕ, ◌≤◌, ◌≡◌, refl, inl, inr, Bool, true, some, List, ok, arith, le→leb}
use bic_os.Antminer.Monitor.{
  Floats, FanControlConfig, fixed_speed, Config, speed_new, num_fans_running,
}
use bic_os.Antminer.Monitor.Decision.{
  ControlDecision, shutdown, use_pid, use_fixed_speed, nothing, calc_result,
}
use bic_os.Antminer.Monitor.Decision.Safety.{decide-Safe}
use bic_os.Antminer.Monitor.Tick.{
  TempControl, Monitor, Sweep, shut_down, set_fan_speed, after_sweep, apply_decision, broadcast,
  use_limits, do_tick,
}
use bic_os.Antminer.Monitor.Tick.Loop.{AllPast, sweep-cases}

-- The controller stays within its limits, which are at most 100.
pub record IsTempControl {F P : Type 0} (p : TempControl F P) : Type 0 where
  pub limited : (input : F) (x : P) → (p.update input x).0 ≤ 100

-- A configured speed is a percentage.
pub record IsConfig {F : Type 0} (config : Config F) : Type 0 where
  pub percentage :
      (c : FanControlConfig F) (s : ℕ)
      → config.fan_config ≡ some c
      → c.mode ≡ fixed_speed s
      → s ≤ 100

module _ {F P : Type 0} where
  -- What a tick keeps: the configuration, and a failure together with the halt that was sent.
  pub record Keeps (m m' : Monitor F P) : Type 0 where
    pub same_config : m'.config ≡ m.config
    pub failure : m.failure_state ≡ true → m'.failure_state ≡ true
    pub halted : m.miner_halted ≡ true → m'.miner_halted ≡ true

  set_fan_speed-Keeps :
      (m : Monitor F P) (s : ℕ)
      → s ≤ 100
      → (m' : Monitor F P) × (set_fan_speed m s ≡ ok m') × Keeps m m'
  unfolding set_fan_speed speed_new
  set_fan_speed-Keeps m s le = (
    record m { fan_pwm = some s; current_fan_speed = some s },
    rw (le→leb s 100 le),
    record { same_config = refl; failure = λ h. h; halted = λ h. h },
  )

  shut_down-Keeps : (m : Monitor F P) → Keeps m (shut_down m)
  unfolding shut_down
  shut_down-Keeps m = record { same_config = refl; failure = λ h. refl; halted = λ h. refl }

module _ {F P : Type 0} (f : Floats F) (clock : ℕ → ℕ) (p : TempControl F P)
    (pid : IsTempControl p) where
  apply_decision-Keeps :
      (m : Monitor F P) (warm : Bool) (d : ControlDecision F)
      → ((s : ℕ) → d ≡ use_fixed_speed s → s ≤ 100)
      → (m' : Monitor F P) × (apply_decision f clock p m warm d ≡ ok m') × Keeps m m'
  unfolding apply_decision
  apply_decision-Keeps m warm shutdown bound = (shut_down m, refl, shut_down-Keeps m)
  apply_decision-Keeps m warm (use_fixed_speed s) bound = set_fan_speed-Keeps m s (bound s refl)
  apply_decision-Keeps m warm (use_pid target input) bound =
      let x = p.set_target target (use_limits f clock p m warm) in
      let (m', e, kept) =
        set_fan_speed-Keeps (record m { pid = (p.update input x).1 }) (p.update input x).0
          (pid.limited input x) in
      (
        m',
        e,
        record { same_config = kept.same_config; failure = kept.failure; halted = kept.halted },
      )
  apply_decision-Keeps m warm nothing bound =
      (m, refl, record { same_config = refl; failure = λ h. h; halted = λ h. h })

  after_sweep-Keeps :
      (m : Monitor F P) (rpm : List ℕ) (sw : Sweep F)
      → IsConfig m.config
      → (m' : Monitor F P) × (after_sweep f clock p m rpm sw ≡ ok m') × Keeps m m'
  unfolding after_sweep broadcast
  after_sweep-Keeps m rpm sw valid =
      let temp = calc_result f sw.temperatures in
      let (d, made, safe) = decide-Safe f m.config (num_fans_running rpm) temp in
      let bound : (s : ℕ) → d.decision ≡ use_fixed_speed s → s ≤ 100 = λ s e.
        elim (safe.speeds s e) [
          | inl top ↦ rw top (omega arith)
          | inr (c, ec, mode) ↦ valid.percentage c s ec mode
        ] in
      let (m', applied, kept) =
        apply_decision-Keeps (record m { chains = sw.chains }) sw.warming_up d.decision bound in
      (
        broadcast f clock p m' rpm temp sw.temperatures d,
        rw made (rw applied),
        record { same_config = kept.same_config; failure = kept.failure; halted = kept.halted },
      )

  pub do_tick-Keeps :
      (m : Monitor F P) (rpm : List ℕ)
      → AllPast f clock m.chains
      → IsConfig m.config
      → (m' : Monitor F P) × (do_tick f clock p m rpm ≡ ok m') × Keeps m m'
  unfolding do_tick
  do_tick-Keeps m rpm past valid =
      let (sw, run, split) = sweep-cases f clock 0 m.chains past in
      elim split [
        | inl bad ↦
            let kept = shut_down-Keeps (record m { chains = sw.chains }) in
            (
              shut_down (record m { chains = sw.chains }),
              rw run (rw bad),
              record {
                same_config = kept.same_config;
                failure = kept.failure;
                halted = kept.halted;
              },
            )
        | inr (good, collected) ↦
            let (m', made, kept) = after_sweep-Keeps m rpm sw valid in
            (m', rw run (rw good made), kept)
      ]
