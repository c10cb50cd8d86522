-- ===== src/Antminer/Monitor.antt =====
-- open/bosminer/bosminer-am1-s9/src/monitor.rs: the monitor of temperatures and fans, with the data
-- of sensor.rs and fan.rs that it reads. An `Instant` is a number of nanoseconds. The arithmetic of
-- `f32` is a parameter. What panics in the source is an error here.
pub mod Chain
pub mod Decision
pub mod Tick
mod Tests
use bic_os.Base.{
  ℕ, ◌+◌, ◌-◌, ◌*◌, ◌^◌, Bool, true, false, Option, none, some, List, [], ◌∷◌, Result, ok, err, leb,
  ltb, if◌then◌else◌,
}

pub data Panic : Type 0 where
  -- `duration_since` a later instant, an unexpected temperature, a fan speed above 100.
  clock bug speed : Panic

-- `>=`, `+`, `f32::max` and the constants 0.0 and 15.0.
pub record Floats (F : Type 0) : Type 0 where
  pub ge : F → F → Bool
  pub add : F → F → F
  pub max : F → F → F
  pub zero : F
  pub fifteen : F

abbrev pub second : ℕ
second = 10 ^ 9

abbrev pub start_timeout : ℕ
start_timeout = 180 * second

abbrev pub run_update_timeout : ℕ
run_update_timeout = 10 * second

abbrev pub warm_up_period : ℕ
warm_up_period = 90 * second

-- `now.duration_since(earlier)`.
unfoldable pub duration_since : ℕ → ℕ → Result Panic ℕ
duration_since now earlier = if leb earlier now then ok (now - earlier) else err clock

pub data Measurement (F : Type 0) : Type 0 where
  not_present open_circuit short_circuit invalid_reading : Measurement F
  measured : F → Measurement F

pub record Temperature (F : Type 0) : Type 0 where
  pub local_temp : Measurement F
  pub remote_temp : Measurement F

-- A percentage; `Speed::new` asserts that it is at most 100.
unfoldable pub speed_new : ℕ → Result Panic ℕ
speed_new s = if leb s 100 then ok s else err speed

abbrev pub full_speed : ℕ
full_speed = 100

abbrev pub stopped : ℕ
stopped = 0

-- `Feedback`: the speed of each fan.
unfoldable pub num_fans_running : List ℕ → ℕ
num_fans_running [] = 0
num_fans_running (rpm ∷ rpms) =
    let rest = num_fans_running rpms in if ltb 0 rpm then 1 + rest else rest

pub data FanControlMode (F : Type 0) : Type 0 where
  fixed_speed : ℕ → FanControlMode F
  target_temperature : F → FanControlMode F

pub record FanControlConfig (F : Type 0) : Type 0 where
  pub mode : FanControlMode F
  pub min_fans : ℕ

pub record TempControlConfig (F : Type 0) : Type 0 where
  pub dangerous_temp : F
  pub hot_temp : F

pub record Config (F : Type 0) : Type 0 where
  pub fan_config : Option (FanControlConfig F)
  pub temp_config : Option (TempControlConfig F)
  pub fans_on_while_warming_up : Bool
