-- ===== src/Antminer/Monitor/Tick.antt =====
-- `MonitorInner` and what the tasks of `Monitor` do to it. The fan controller is the speed that was
-- last written to it, the halt of the miner whether it was sent. `Instant::now()` is a parameter,
-- the readings of the clock in their order, and so is the controller of fan/pid.rs.
pub mod Loop
pub mod Danger
pub mod Total
use bic_os.Base.{
  ℕ, suc, ◌+◌, ◌*◌, Bool, true, false, Option, none, some, List, [], ◌∷◌, ◌++◌, Result, ok, err,
  ◌>>=◌, ◌&&◌, ◌||◌, if◌then◌else◌,
}
use bic_os.Antminer.Monitor.{
  Panic, Floats, full_speed, stopped, speed_new, num_fans_running, Config,
}
use bic_os.Antminer.Monitor.Chain.{
  ChainTemperature, ChainState, on_since, running_since, is_off, broken, tick, is_warming_up,
  get_temperature, Chain, Message, transition,
}
use bic_os.Antminer.Monitor.Decision.{
  ControlDecision, ControlDecisionExplained, shutdown, use_pid, use_fixed_speed, nothing, decide,
  calc_result,
}

-- `TempControl`: the speed is the output as an integer, before `Speed::new`.
pub record TempControl (F P : Type 0) : Type 0 where
  pub set_warm_up_limits : P → P
  pub set_normal_limits : P → P
  pub set_target : F → P → P
  pub update : F → P → ℕ × P

pub record Status (F : Type 0) : Type 0 where
  pub config : Config F
  pub fan_feedback : List ℕ
  pub fan_speed : Option ℕ
  pub input_temperature : ChainTemperature F
  pub temperature_accumulator : List (ChainTemperature F)
  pub decision_explained : ControlDecisionExplained F

pub record Monitor (F P : Type 0) : Type 0 where
  pub chains : List (Chain F)
  pub config : Config F
  pub fan_pwm : Option ℕ
  pub current_fan_speed : Option ℕ
  pub pid : P
  pub failure_state : Bool
  pub miner_halted : Bool
  pub status : Option (Status F)

-- The chains after the loop of `do_tick`: up to the first broken one, if any, they have ticked.
pub record Sweep (F : Type 0) : Type 0 where
  pub chains : List (Chain F)
  pub temperatures : List (ChainTemperature F)
  pub warming_up : Bool
  pub any_broken : Bool

module _ {F : Type 0} (f : Floats F) (clock : ℕ → ℕ) where
  stop_sweep : Chain F → List (Chain F) → Sweep F
  stop_sweep c cs = record {
    chains = c ∷ cs;
    temperatures = [];
    warming_up = false;
    any_broken = true;
  }

  add_chain : Chain F → ChainTemperature F → Bool → Sweep F → Sweep F
  add_chain c temp warm sw = record {
    chains = c ∷ sw.chains;
    temperatures = temp ∷ sw.temperatures;
    warming_up = warm || sw.warming_up;
    any_broken = sw.any_broken;
  }

  -- One chain of the loop, which ticked, and what the loop makes of the chains after it.
  after_tick :
      ℕ → Chain F → List (Chain F) → Result Panic (Sweep F) → ChainState F → Result Panic (Sweep F)
  unfolding stop_sweep add_chain
  after_tick i c cs rest (broken w) = ok (stop_sweep (record c { state = broken w }) cs)
  after_tick i c cs rest s = do
    warm ← is_warming_up s (clock (2 * i + 1))
    sw ← rest
    ok (add_chain (record c { state = s }) (get_temperature f s) warm sw)

  -- The loop over the chains, from chain number `i` on.
  unfoldable pub sweep : ℕ → List (Chain F) → Result Panic (Sweep F)
  unfolding after_tick
  sweep i [] =
      ok (record { chains = []; temperatures = []; warming_up = false; any_broken = false })
  sweep i (c ∷ cs) =
      let rest = sweep (suc i) cs in do s ← tick c.state (clock (2 * i)); after_tick i c cs rest s

module _ {F P : Type 0} where
  unfoldable pub shut_down : Monitor F P → Monitor F P
  shut_down m = record m { failure_state = true; miner_halted = true }

  unfoldable pub set_fan_speed : Monitor F P → ℕ → Result Panic (Monitor F P)
  set_fan_speed m s = do
    pwm ← speed_new s
    ok (record m { fan_pwm = some pwm; current_fan_speed = some pwm })

  unfoldable pub termination_handler : Monitor F P → Result Panic (Monitor F P)
  termination_handler m = set_fan_speed m (if m.failure_state then full_speed else stopped)

  unfoldable pub register_hashchain : Monitor F P → ℕ → Monitor F P
  register_hashchain m idx = record m {
    chains = m.chains ++ (record { state = is_off; hashboard_idx = idx } ∷ []);
  }

  module _ (f : Floats F) (clock : ℕ → ℕ) (p : TempControl F P) where
    use_limits : Monitor F P → Bool → P
    use_limits m warm =
        if m.config.fans_on_while_warming_up && warm
        then p.set_warm_up_limits m.pid
        else p.set_normal_limits m.pid

    apply_decision : Monitor F P → Bool → ControlDecision F → Result Panic (Monitor F P)
    unfolding use_limits
    apply_decision m warm shutdown = ok (shut_down m)
    apply_decision m warm (use_fixed_speed s) = set_fan_speed m s
    apply_decision m warm (use_pid target input) =
        let (out, pid) = p.update input (p.set_target target (use_limits m warm)) in
        set_fan_speed (record m { pid = pid }) out
    apply_decision m warm nothing = ok m

    broadcast :
        Monitor F P
        → List ℕ
        → ChainTemperature F
        → List (ChainTemperature F)
        → ControlDecisionExplained F
        → Monitor F P
    broadcast m rpm temp temps d = record m {
      status = some (record {
        config = m.config;
        fan_feedback = rpm;
        fan_speed = m.current_fan_speed;
        input_temperature = temp;
        temperature_accumulator = temps;
        decision_explained = d;
      });
    }

    -- `do_tick` after the loop.
    after_sweep : Monitor F P → List ℕ → Sweep F → Result Panic (Monitor F P)
    unfolding apply_decision broadcast
    after_sweep m rpm sw =
        let temp = calc_result f sw.temperatures in
        let m' = record m { chains = sw.chains } in
        do
          d ← decide f m.config (num_fans_running rpm) temp
          m'' ← apply_decision m' sw.warming_up d.decision
          ok (broadcast m'' rpm temp sw.temperatures d)

    -- One tick, at which the fans run at the speeds `rpm`.
    unfoldable pub do_tick : Monitor F P → List ℕ → Result Panic (Monitor F P)
    unfolding after_sweep
    do_tick m rpm = do
      sw ← sweep f clock 0 m.chains
      if sw.any_broken
          then ok (shut_down (record m { chains = sw.chains }))
          else after_sweep m rpm sw
