-- ===== src/Antminer/Monitor/Chain.antt =====
-- `ChainTemperature` and `ChainState`: what the monitor knows of a hash chain.
pub mod Protocol
use bic_os.Base.{ℕ, Bool, true, false, List, [], ◌∷◌, Result, ok, err, ◌>>=◌, leb, if◌then◌else◌}
use bic_os.Antminer.Monitor.{
  Panic, Floats, duration_since, start_timeout, run_update_timeout, warm_up_period, measured,
  Measurement, Temperature,
}
use Prim.Native.String.{String}

pub data Message (F : Type 0) : Type 0 where
  on : Message F
  running : Temperature F → Message F
  off : Message F

pub data ChainTemperature (F : Type 0) : Type 0 where
  unknown : ChainTemperature F
  failed : ChainTemperature F
  known : F → ChainTemperature F

pub data ChainState (F : Type 0) : Type 0 where
  on_since : ℕ → ChainState F
  -- Since when it runs, its last heartbeat, and the temperature.
  running_since : ℕ → ℕ → Temperature F → ChainState F
  is_off : ChainState F
  broken : String → ChainState F

module _ {F : Type 0} where
  abbrev pub bad_transition : ChainState F
  bad_transition = broken "bad state transition"

  unfoldable pub transition : ChainState F → ℕ → Message F → ChainState F
  transition is_off now on = on_since now
  transition (on_since started) now (running t) = running_since started now t
  transition (running_since started beat old) now (running t) = running_since started now t
  transition (on_since started) now off = is_off
  transition (running_since started beat old) now off = is_off
  transition _ now message = bad_transition

  -- `tick`, where the chain may break.
  unfoldable pub tick : ChainState F → ℕ → Result Panic (ChainState F)
  tick (on_since started) now = do
    d ← duration_since now started
    if leb start_timeout d then ok (broken "took too long to start") else ok (on_since started)
  tick (running_since started beat t) now = do
    d ← duration_since now beat
    if leb run_update_timeout d
        then ok (broken "failed to set update in time")
        else ok (running_since started beat t)
  tick is_off now = ok is_off
  tick (broken reason) now = ok (broken reason)

  unfoldable pub is_warming_up : ChainState F → ℕ → Result Panic Bool
  is_warming_up (on_since started) now = ok true
  is_warming_up (running_since started beat t) now = do
    d ← duration_since now started
    ok (leb d warm_up_period)
  is_warming_up is_off now = ok false
  is_warming_up (broken reason) now = ok false

  module _ (f : Floats F) where
    from_local : Measurement F → ChainTemperature F
    from_local (measured t) = known (f.add t f.fifteen)
    from_local _ = unknown

    unfoldable pub from_s9_sensor : Temperature F → ChainTemperature F
    unfolding from_local
    from_s9_sensor t = elim t.remote_temp [ measured r ↦ known r | _ ↦ from_local t.local_temp ]

    unfoldable pub get_temperature : ChainState F → ChainTemperature F
    unfolding from_s9_sensor
    get_temperature (on_since started) = unknown
    get_temperature is_off = unknown
    get_temperature (broken reason) = failed
    get_temperature (running_since started beat t) = from_s9_sensor t

  -- The messages of a chain, each with the time it comes at.
  unfoldable pub transitions : ChainState F → List (ℕ × Message F) → ChainState F
  transitions s [] = s
  transitions s ((now, m) ∷ ms) = transitions (transition s now m) ms

pub record Chain (F : Type 0) : Type 0 where
  pub state : ChainState F
  pub hashboard_idx : ℕ
