-- ===== src/Antminer/Monitor/Chain/Protocol.antt =====
-- Which messages of a hash chain the monitor accepts.
use Prim.Native.String.{String}
use bic_os.Base.{ℕ, ◌↔◌, List, [], ◌∷◌}
use bic_os.Antminer.Monitor.{Temperature}
use bic_os.Antminer.Monitor.Chain.{
  Message, on, running, off, ChainState, on_since, running_since, is_off, broken, transition,
  transitions,
}

module _ {F : Type 0} where
  -- The pattern `[Off -> On -> Running*]*` from a chain that is off, and from one that is on.
  mutual
    pub data Idle : List (ℕ × Message F) → Type 0 where
      rest : Idle []
      start : (t : ℕ) {ms : List (ℕ × Message F)} → Started ms → Idle ((t, on) ∷ ms)

    pub data Started : List (ℕ × Message F) → Type 0 where
      going : Started []
      beat :
          (t : ℕ) (x : Temperature F) {ms : List (ℕ × Message F)}
          → Started ms
          → Started ((t, running x) ∷ ms)
      halt : (t : ℕ) {ms : List (ℕ × Message F)} → Idle ms → Started ((t, off) ∷ ms)

  abbrev pub IsBroken : ChainState F → Type 0
  IsBroken (broken w) = Unit {0}
  IsBroken _ = ⊥

  abbrev IsUp : ChainState F → Type 0
  IsUp (on_since s) = Unit {0}
  IsUp (running_since s b x) = Unit {0}
  IsUp _ = ⊥

  broken-IsBroken : (w : String) (ms : List (ℕ × Message F)) → IsBroken (transitions (broken w) ms)
  unfolding transitions transition
  broken-IsBroken w [] = tt
  broken-IsBroken w ((t, m) ∷ ms) = broken-IsBroken _ ms

  mutual
    unfolding transitions transition

    Idle-accepted : {ms : List (ℕ × Message F)} → Idle ms → ¬ (IsBroken (transitions is_off ms))
    Idle-accepted rest = λ b. b
    Idle-accepted (start t up) = Started-accepted (on_since t) up tt

    Started-accepted :
        {ms : List (ℕ × Message F)} (s : ChainState F)
        → Started ms
        → IsUp s
        → ¬ (IsBroken (transitions s ms))
    Started-accepted (on_since a) going up = λ b. b
    Started-accepted (running_since a b x) going up = λ b. b
    Started-accepted (on_since a) (beat t x ms) up = Started-accepted (running_since a t x) ms tt
    Started-accepted (running_since a b y) (beat t x ms) up =
        Started-accepted (running_since a t x) ms tt
    Started-accepted (on_since a) (halt t ms) up = Idle-accepted ms
    Started-accepted (running_since a b x) (halt t ms) up = Idle-accepted ms
    Started-accepted is_off ms up = absurd up
    Started-accepted (broken w) ms up = absurd up

  mutual
    unfolding transitions transition

    accepted-Idle : (ms : List (ℕ × Message F)) → ¬ (IsBroken (transitions is_off ms)) → Idle ms
    accepted-Idle [] h = rest
    accepted-Idle ((t, on) ∷ ms) h = start t (accepted-Started (on_since t) ms tt h)
    accepted-Idle ((t, running x) ∷ ms) h = absurd (h (broken-IsBroken _ ms))
    accepted-Idle ((t, off) ∷ ms) h = absurd (h (broken-IsBroken _ ms))

    accepted-Started :
        (s : ChainState F) (ms : List (ℕ × Message F))
        → IsUp s
        → ¬ (IsBroken (transitions s ms))
        → Started ms
    accepted-Started s [] up h = going
    accepted-Started is_off ms up h = absurd up
    accepted-Started (broken w) ms up h = absurd up
    accepted-Started (on_since a) ((t, on) ∷ ms) up h = absurd (h (broken-IsBroken _ ms))
    accepted-Started (on_since a) ((t, running x) ∷ ms) up h =
        beat t x (accepted-Started (running_since a t x) ms tt h)
    accepted-Started (on_since a) ((t, off) ∷ ms) up h = halt t (accepted-Idle ms h)
    accepted-Started (running_since a b y) ((t, on) ∷ ms) up h = absurd (h (broken-IsBroken _ ms))
    accepted-Started (running_since a b y) ((t, running x) ∷ ms) up h =
        beat t x (accepted-Started (running_since a t x) ms tt h)
    accepted-Started (running_since a b y) ((t, off) ∷ ms) up h = halt t (accepted-Idle ms h)

  -- The messages that leave a chain that was off unbroken, at whatever times they come, are exactly
  -- those of the pattern: on, then any number of temperatures, then off, over and over.
  pub transitions_iff : (ms : List (ℕ × Message F)) → Idle ms ↔ ¬ (IsBroken (transitions is_off ms))
  transitions_iff ms = (λ i. Idle-accepted i, accepted-Idle ms)
