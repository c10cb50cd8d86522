-- ===== src/Antminer/Monitor/Decision.antt =====
-- `ControlDecision` and `TemperatureAccumulator`: what to do at the temperature of the miner.
pub mod Safety
pub mod Maximum
use bic_os.Base.{
  ℕ, Bool, true, false, Option, none, some, List, [], ◌∷◌, Result, ok, err, ◌>>=◌, ltb, not, ◌==◌,
  ◌&&◌, ◌++◌, if◌then◌else◌,
}
use Prim.Native.String.{String}
use bic_os.Antminer.Monitor.{
  Panic, bug, Floats, full_speed, stopped, fixed_speed, target_temperature, FanControlMode,
  FanControlConfig, TempControlConfig, Config,
}
use bic_os.Antminer.Monitor.Chain.{ChainTemperature, unknown, failed, known}

pub data ControlDecision (F : Type 0) : Type 0 where
  shutdown : ControlDecision F
  -- The target, and the input.
  use_pid : F → F → ControlDecision F
  use_fixed_speed : ℕ → ControlDecision F
  nothing : ControlDecision F

pub record ControlDecisionExplained (F : Type 0) : Type 0 where
  pub decision : ControlDecision F
  pub reason : String

module _ {F : Type 0} where
  abbrev pub explained : ControlDecision F → String → ControlDecisionExplained F
  explained d why = record { decision = d; reason = why }

  -- `decision != UseFixedSpeed(STOPPED)`.
  abbrev pub spins : ControlDecision F → Bool
  spins (use_fixed_speed s) = not (s == stopped)
  spins _ = true

  decide_fan_control_notemp : FanControlMode F → ControlDecisionExplained F
  decide_fan_control_notemp (fixed_speed pwm) =
      explained (use_fixed_speed pwm) "user defined fan speed"
  decide_fan_control_notemp (target_temperature t) =
      explained (use_fixed_speed full_speed) "wrong configration - temp control off"

  module _ (f : Floats F) where
    decide_fan_control :
        FanControlMode F
        → TempControlConfig F
        → ChainTemperature F
        → Result Panic (ControlDecisionExplained F)
    decide_fan_control mode temp_config unknown =
        ok (explained (use_fixed_speed full_speed) "unknown temperature")
    decide_fan_control (fixed_speed pwm) temp_config temp =
        ok (explained (use_fixed_speed pwm) "user defined fan speed")
    decide_fan_control (target_temperature target) temp_config failed = err bug
    decide_fan_control (target_temperature target) temp_config (known input) = ok (
        if f.ge input temp_config.hot_temp
        then explained (use_fixed_speed full_speed) "temperature above HOT"
        else explained (use_pid target input) "user requested PID")

    -- The decision of the section `TEMP_DANGER`, if it makes one.
    temp_danger :
        Option (TempControlConfig F) → ChainTemperature F → Option (ControlDecisionExplained F)
    temp_danger none temp = none
    temp_danger (some c) failed = some (explained shutdown "temperature readout FAILED")
    temp_danger (some c) (known input) =
        if f.ge input c.dangerous_temp
        then some (explained shutdown "temperature above DANGEROUS")
        else none
    temp_danger (some c) unknown = none

    fan_decision :
        FanControlConfig F
        → Option (TempControlConfig F)
        → ChainTemperature F
        → Result Panic (ControlDecisionExplained F)
    fan_decision fan_config none temp = ok (decide_fan_control_notemp fan_config.mode)
    fan_decision fan_config (some c) temp = decide_fan_control fan_config.mode c temp

    -- The section `FAN_DANGER`.
    fan_danger : FanControlConfig F → ℕ → ControlDecisionExplained F → ControlDecisionExplained F
    fan_danger fan_config fans d =
        if spins d.decision && ltb fans fan_config.min_fans
        then explained shutdown "not enough fans"
        else d

    decide_fans :
        Option (FanControlConfig F)
        → Option (TempControlConfig F)
        → ℕ
        → ChainTemperature F
        → Result Panic (ControlDecisionExplained F)
    decide_fans none temp_config fans temp = ok (explained nothing "no action")
    decide_fans (some fan_config) temp_config fans temp = do
      d ← fan_decision fan_config temp_config temp
      ok (fan_danger fan_config fans d)

    decide_from :
        Option (ControlDecisionExplained F)
        → Config F
        → ℕ
        → ChainTemperature F
        → Result Panic (ControlDecisionExplained F)
    unfolding decide_fans fan_decision fan_danger decide_fan_control decide_fan_control_notemp
    decide_from (some d) config fans temp = ok d
    decide_from none config fans temp = decide_fans config.fan_config config.temp_config fans temp

    unfoldable pub decide :
        Config F → ℕ → ChainTemperature F → Result Panic (ControlDecisionExplained F)
    unfolding decide_from temp_danger
    decide config fans temp = decide_from (temp_danger config.temp_config temp) config fans temp

    -- The measurements of the chains, if no chain failed.
    unfoldable pub collect : List (ChainTemperature F) → Option (List F)
    collect [] = some []
    collect (failed ∷ temps) = none
    collect (unknown ∷ temps) = collect temps
    collect (known t ∷ temps) =
        let rest = collect temps in elim rest [ none ↦ none | some ts ↦ some (t ∷ ts) ]

    fold_max : F → List F → F
    fold_max a [] = a
    fold_max a (b ∷ ts) = fold_max (f.max a b) ts

    aggregate : Option (List F) → ChainTemperature F
    unfolding fold_max
    aggregate none = failed
    aggregate (some []) = unknown
    aggregate (some (t ∷ ts)) = known (fold_max f.zero (t ∷ ts))

    unfoldable pub calc_result : List (ChainTemperature F) → ChainTemperature F
    unfolding aggregate
    calc_result temps = aggregate (collect temps)
