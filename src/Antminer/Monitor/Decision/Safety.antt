-- ===== src/Antminer/Monitor/Decision/Safety.antt =====
-- The decision of open/bosminer/bosminer-am1-s9/src/monitor.rs is safe. The diagram
-- open/bosminer/bosminer-am1-s9/fan-temp-control.puml, whose sections its comments name, orders two
-- checks otherwise: there an unknown temperature leads to full speed before the fans are counted, and
-- too few fans lead to a shutdown also where they are to stand still.
use Prim.Native.String.{String}
use mathlib.Core.Option.{some-injective}
use bic_os.Base.{
  ℕ, ◌<◌, ◌≡◌, refl, ◌⊎◌, inl, inr, true, false, Option, none, some, ok, ap, sym, ◌∙◌, arith,
  Option-cases, ltb, lt→ltb, ◌≤◌, ◌&&◌, eq-cases, Bool-cases,
}
use bic_os.Antminer.Monitor.{
  Floats, FanControlMode, fixed_speed, target_temperature, full_speed, stopped, FanControlConfig,
  TempControlConfig, Config,
}
use bic_os.Antminer.Monitor.Chain.{ChainTemperature, unknown, failed, known}
use bic_os.Antminer.Monitor.Decision.{
  ControlDecision, ControlDecisionExplained, shutdown, use_fixed_speed, spins, nothing, use_pid,
  explained, decide, decide_from, decide_fans, fan_decision, decide_fan_control,
  decide_fan_control_notemp, fan_danger, temp_danger,
}

module _ {F : Type 0} (f : Floats F) where
  -- A temperature that the configured limits do not allow: a failure, or one that is dangerous.
  pub data Dangerous (c : TempControlConfig F) : ChainTemperature F → Type 0 where
    lost : Dangerous c failed
    hot : (t : F) → f.ge t c.dangerous_temp ≡ true → Dangerous c (known t)

  -- A fixed speed is full speed, or the one that is configured.
  abbrev pub Origin : FanControlMode F → ControlDecision F → Type 0
  Origin mode d = (s : ℕ) → d ≡ use_fixed_speed s → (s ≡ full_speed) ⊎ (mode ≡ fixed_speed s)

  -- What every decision has to respect.
  pub record Respects (config : Config F) (fans : ℕ) (temp : ChainTemperature F)
      (d : ControlDecision F) : Type 0 where
    pub danger :
        (c : TempControlConfig F) → config.temp_config ≡ some c → Dangerous c temp → d ≡ shutdown
    pub few_fans :
        (c : FanControlConfig F)
        → config.fan_config ≡ some c
        → fans < c.min_fans
        → (d ≡ shutdown) ⊎ (d ≡ use_fixed_speed stopped)
    pub unmeasured :
        (c : FanControlConfig F) (t : TempControlConfig F)
        → config.fan_config ≡ some c
        → config.temp_config ≡ some t
        → temp ≡ unknown
        → (fans < c.min_fans → d ≡ shutdown) × (c.min_fans ≤ fans → d ≡ use_fixed_speed full_speed)
    pub speeds :
        (s : ℕ)
        → d ≡ use_fixed_speed s
        → (s ≡ full_speed)
          ⊎ ((c : FanControlConfig F) × (config.fan_config ≡ some c) × (c.mode ≡ fixed_speed s))

  -- A decision that is made, and respects everything.
  abbrev pub Safe : Config F → ℕ → ChainTemperature F → Type 0
  Safe config fans temp =
      (d : ControlDecisionExplained F) × (decide f config fans temp ≡ ok d)
      × Respects config fans temp d.decision

  -- Too few fans leave only fans that are meant to stand still.
  fan_danger-few :
      (c : FanControlConfig F) (fans : ℕ) (d : ControlDecision F) (w : String)
      → fans < c.min_fans
      → ((fan_danger f c fans (explained d w)).decision ≡ shutdown)
        ⊎ ((fan_danger f c fans (explained d w)).decision ≡ use_fixed_speed stopped)
  unfolding fan_danger
  fan_danger-few c fans shutdown w lt = inl (ground arith)
  fan_danger-few c fans nothing w lt = inl (ground arith)
  fan_danger-few c fans (use_pid t i) w lt = inl (ground arith)
  fan_danger-few c fans (use_fixed_speed s) w lt = elim (eq-cases s 0) [
    | inl still ↦ inr (rw still)
    | inr turning ↦ inl (ground (arith, turning))
  ]

  fan_danger-full :
      (c : FanControlConfig F) (fans : ℕ) (w : String)
      → let d = (fan_danger f c fans (explained (use_fixed_speed full_speed) w)).decision in
        (fans < c.min_fans → d ≡ shutdown) × (c.min_fans ≤ fans → d ≡ use_fixed_speed full_speed)
  unfolding fan_danger
  fan_danger-full c fans w = (
    λ few. rw (lt→ltb _ _ few) refl,
    λ enough.
        let none_missing : ltb fans c.min_fans ≡ false = ground (arith, enough) in
        rw none_missing refl,
  )

  fan_danger-speed :
      (c : FanControlConfig F) (fans : ℕ) (d : ControlDecision F) (w : String) (s : ℕ)
      → (fan_danger f c fans (explained d w)).decision ≡ use_fixed_speed s
      → d ≡ use_fixed_speed s
  unfolding fan_danger
  fan_danger-speed c fans d w s e = elim (Bool-cases (spins d && ltb fans c.min_fans)) [
    | inl few ↦ let off : shutdown ≡ use_fixed_speed s = rw few at e in absurd (cc)
    | inr enough ↦ rw enough at e
  ]

  temp_danger-cases :
      (tc : Option (TempControlConfig F)) (temp : ChainTemperature F)
      → ((w : String) × (temp_danger f tc temp ≡ some (explained shutdown w)))
        ⊎ ((temp_danger f tc temp ≡ none)
            × ((c : TempControlConfig F) → tc ≡ some c → ¬ (Dangerous c temp)))
  unfolding temp_danger
  temp_danger-cases none temp = inr (refl, λ c e. cc)
  temp_danger-cases (some c) failed = inl (_, refl)
  temp_danger-cases (some c) unknown = inr (refl, λ c' e h. elim h [ ])
  temp_danger-cases (some c) (known t) = elim (Bool-cases (f.ge t c.dangerous_temp)) [
    | inl too_hot ↦ inl ("temperature above DANGEROUS", rw too_hot)
    | inr cool ↦
        inr (rw cool, λ c' e. rw (← some-injective _ _ e) (λ h. elim h [ hot t ge ↦ absurd (cc) ]))
  ]

  temp_danger-unknown :
      (tc : Option (TempControlConfig F)) (temp : ChainTemperature F)
      → temp ≡ unknown
      → temp_danger f tc temp ≡ none
  unfolding temp_danger
  temp_danger-unknown none temp u = refl
  temp_danger-unknown (some c) unknown u = refl
  temp_danger-unknown (some c) failed u = cc
  temp_danger-unknown (some c) (known t) u = cc

  notemp-cases :
      (mode : FanControlMode F)
      → (d : ControlDecision F) × (w : String) × (decide_fan_control_notemp mode ≡ explained d w)
        × Origin mode d
  unfolding decide_fan_control_notemp
  notemp-cases (fixed_speed pwm) = (_, _, refl, λ s e. inr (cc))
  notemp-cases (target_temperature t) = (_, _, refl, λ s e. inl (cc))

  fan_control-cases :
      (mode : FanControlMode F) (t : TempControlConfig F) (temp : ChainTemperature F)
      → ¬ (Dangerous t temp)
      → (d : ControlDecision F) × (w : String) × (decide_fan_control f mode t temp
          ≡ ok (explained d w))
        × ((t' : TempControlConfig F)
            → some t ≡ some t'
            → temp ≡ unknown
            → d ≡ use_fixed_speed full_speed)
        × Origin mode d
  unfolding decide_fan_control
  fan_control-cases mode t unknown calm = (_, _, refl, λ t' e h. refl, λ s e. inl (cc))
  fan_control-cases mode t failed calm = absurd (calm lost)
  fan_control-cases (fixed_speed pwm) t (known i) calm = (_, _, refl, λ t' e h. cc, λ s e. inr (cc))
  fan_control-cases (target_temperature g) t (known i) calm =
      elim (Bool-cases (f.ge i t.hot_temp)) [
        | inl above ↦ (
          use_fixed_speed full_speed,
          "temperature above HOT",
          rw above,
          λ t' e h. cc,
          λ s e. inl (cc),
        )
        | inr below ↦
            (use_pid g i, "user requested PID", rw below, λ t' e h. cc, λ s e. absurd (cc))
      ]

  -- What the fans are told when the temperature is no danger.
  fan_decision-cases :
      (c : FanControlConfig F) (tc : Option (TempControlConfig F)) (temp : ChainTemperature F)
      → ((t : TempControlConfig F) → tc ≡ some t → ¬ (Dangerous t temp))
      → (d : ControlDecision F) × (w : String) × (fan_decision f c tc temp ≡ ok (explained d w))
        × ((t : TempControlConfig F)
            → tc ≡ some t
            → temp ≡ unknown
            → d ≡ use_fixed_speed full_speed)
        × Origin c.mode d
  unfolding fan_decision
  fan_decision-cases c none temp calm =
      let (d, w, e, from) = notemp-cases c.mode in (d, w, ap ok e, λ t e h. cc, from)
  fan_decision-cases c (some t) temp calm = fan_control-cases c.mode t temp (calm t refl)

  fan_danger-Respects :
      (config : Config F) (c : FanControlConfig F) (fans : ℕ) (temp : ChainTemperature F)
      (d : ControlDecision F) (w : String)
      → config.fan_config ≡ some c
      → ((t : TempControlConfig F) → config.temp_config ≡ some t → ¬ (Dangerous t temp))
      → ((t : TempControlConfig F)
          → config.temp_config ≡ some t
          → temp ≡ unknown
          → d ≡ use_fixed_speed full_speed)
      → Origin c.mode d
      → Respects config fans temp (fan_danger f c fans (explained d w)).decision
  fan_danger-Respects config c fans temp d w e calm full from = record {
    danger = λ t et h. absurd (calm t et h);
    few_fans = λ c' e' lt.
        let same : c ≡ c' = some-injective _ _ (sym e ∙ e') in
        fan_danger-few c fans d w (rw same lt);
    unmeasured = λ c' t e' et u.
        let same : c ≡ c' = some-injective _ _ (sym e ∙ e') in
        rw (full t et u) (rw same (fan_danger-full c' fans w));
    speeds = λ s es. elim (from s (fan_danger-speed c fans d w s es)) [
      | inl top ↦ inl top
      | inr chosen ↦ inr (c, e, chosen)
    ];
  }

  -- `decide` never panics, for any configuration, fans and temperature. With temperature control, a
  -- failed or dangerous temperature shuts the miner down. With fan control, too few running fans
  -- shut it down, unless the fans are to stand still. With both, an unknown temperature leads to
  -- full speed if enough fans run, and to a shutdown if not. A fixed speed is full speed or the configured one.
  pub decide-Safe :
      (config : Config F) (fans : ℕ) (temp : ChainTemperature F) → Safe config fans temp
  unfolding decide decide_from decide_fans
  decide-Safe config fans temp = elim (temp_danger-cases config.temp_config temp) [
    | inl (w, e) ↦ (
      explained shutdown w,
      rw e,
      record {
        danger = λ c ec h. refl;
        few_fans = λ c ec lt. inl refl;
        unmeasured = λ c t ec et u. absurd (cc (e, temp_danger-unknown config.temp_config temp u));
        speeds = λ s es. absurd (cc);
      },
    )
    | inr (e, calm) ↦ elim (Option-cases config.fan_config) [
      | inl off ↦ (
        explained nothing "no action",
        rw e (rw off),
        record {
          danger = λ c ec h. absurd (calm c ec h);
          few_fans = λ c ec lt. absurd (cc);
          unmeasured = λ c t ec et u. absurd (cc);
          speeds = λ s es. absurd (cc);
        },
      )
      | inr (c, ec) ↦
          let (d, w, de, full, from) = fan_decision-cases c config.temp_config temp calm in
          (
            fan_danger f c fans (explained d w),
            rw e (rw ec (rw de)),
            fan_danger-Respects config c fans temp d w ec calm full from,
          )
    ]
  ]
