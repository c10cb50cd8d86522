-- ===== src/Antminer/Monitor/Tests.antt =====
-- A miner of one chain whose temperature is dangerous. Temperatures are whole numbers here.
use bic_os.Base.{
  ℕ, ◌+◌, ◌≡◌, refl, ◌↔◌, true, false, none, some, List, [], ◌∷◌, ok, ◌>>=◌, arith, leb,
}
use bic_os.Antminer.Monitor.{
  Floats, Temperature, measured, fixed_speed, target_temperature, Config, full_speed,
  FanControlConfig,
}
use bic_os.Antminer.Monitor.Chain.{
  Message, on, running, off, running_since, is_off, transitions, Chain, get_temperature, known,
}
use bic_os.Antminer.Monitor.Chain.Protocol.{Idle, IsBroken, transitions_iff}
use bic_os.Antminer.Monitor.Decision.Safety.{Safe, hot, decide-Safe}
use bic_os.Antminer.Monitor.Decision.Maximum.{IsFloats}
use bic_os.Antminer.Monitor.Tick.{TempControl, Monitor, do_tick, termination_handler}
use bic_os.Antminer.Monitor.Tick.Loop.{ticked, AllPast, seen}
use bic_os.Antminer.Monitor.Tick.Danger.{
  Alarm, too_hot, Halted, do_tick-Halted, termination_handler-do_tick,
}
use bic_os.Antminer.Monitor.Tick.Total.{IsTempControl, IsConfig, Keeps, do_tick-Keeps}

abbrev larger : ℕ → ℕ → ℕ
larger a b = elim (leb a b) [ true ↦ b | false ↦ a ]

abbrev whole : Floats ℕ
whole = record { ge = λ a b. leb b a; add = λ a b. a + b; max = larger; zero = 0; fifteen = 15 }

whole-IsFloats : IsFloats whole
whole-IsFloats = record { max_left = λ a b d h. ground arith; max_right = λ a b d h. ground arith }

-- A controller that remembers its target, and always asks for 70 percent.
abbrev steady : TempControl ℕ ℕ
steady = record {
  set_warm_up_limits = λ x. x;
  set_normal_limits = λ x. x;
  set_target = λ t x. t;
  update = λ input x. (70, x);
}

steady-IsTempControl : IsTempControl steady
steady-IsTempControl = record { limited = λ input x. omega arith }

abbrev config : Config ℕ
config = record {
  fan_config = some (record { mode = target_temperature 75; min_fans = 1 });
  temp_config = some (record { dangerous_temp = 110; hot_temp = 100 });
  fans_on_while_warming_up = true;
}

config-IsConfig : IsConfig config
config-IsConfig = record { percentage = λ c s e h. absurd (unset c s e h) }
  where
    unset :
        (c : FanControlConfig ℕ) (s : ℕ) → config.fan_config ≡ some c → c.mode ≡ fixed_speed s → ⊥
    unset c s e h = cc

decide-Safe_example : Safe whole config 2 (known 80)
decide-Safe_example = decide-Safe whole config 2 (known 80)

abbrev reading : Temperature ℕ
reading = record { local_temp = measured 70; remote_temp = measured 120 }

abbrev chain : Chain ℕ
chain = record { state = running_since 0 5 reading; hashboard_idx = 6 }

abbrev clock : ℕ → ℕ
clock n = 10 + n

abbrev miner : Monitor ℕ ℕ
miner = record {
  chains = chain ∷ [];
  config = config;
  fan_pwm = none;
  current_fan_speed = none;
  pid = 0;
  failure_state = false;
  miner_halted = false;
  status = none;
}

miner-AllPast : AllPast whole clock miner.chains
miner-AllPast = (λ n. (omega arith, omega arith), tt)

alarm : Alarm whole whole-IsFloats clock steady config (seen whole clock 0 0 chain)
unfolding ticked get_temperature
alarm = too_hot (record { dangerous_temp = 110; hot_temp = 100 }) refl (hot 120 refl)

do_tick-Halted_example :
    (m' : Monitor ℕ ℕ) × (do_tick whole clock steady miner (3000 ∷ 0 ∷ []) ≡ ok m')
    × Halted whole whole-IsFloats clock steady m'
do_tick-Halted_example =
    do_tick-Halted whole whole-IsFloats clock steady miner (3000 ∷ 0 ∷ []) 0 chain miner-AllPast
      refl alarm

termination_handler-do_tick_example :
    (t : Monitor ℕ ℕ) × ((do_tick whole clock steady miner (3000 ∷ []) >>= termination_handler)
      ≡ ok t)
    × (t.fan_pwm ≡ some full_speed)
termination_handler-do_tick_example =
    termination_handler-do_tick whole whole-IsFloats clock steady miner (3000 ∷ []) 0 chain
      miner-AllPast refl alarm

do_tick-Keeps_example :
    (m' : Monitor ℕ ℕ) × (do_tick whole clock steady miner (3000 ∷ []) ≡ ok m') × Keeps miner m'
do_tick-Keeps_example =
    do_tick-Keeps whole clock steady steady-IsTempControl miner (3000 ∷ []) miner-AllPast
      config-IsConfig

abbrev messages : List (ℕ × Message ℕ)
messages = (1, on) ∷ (2, running reading) ∷ (3, off) ∷ (4, on) ∷ []

transitions_iff_example : Idle messages ↔ ¬ (IsBroken (transitions is_off messages))
transitions_iff_example = transitions_iff messages
