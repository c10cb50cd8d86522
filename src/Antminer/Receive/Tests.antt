-- ===== src/Antminer/Receive/Tests.antt =====
-- One work, a solution of it twice, and initial work.
use bic_os.Base.{ℕ, ◌≡◌, refl, true, false, List, [], ◌∷◌, ok, arith, take, replicate}
use bic_os.Work.Rolling.{Job, Assignment}
use bic_os.Antminer.Registry
use bic_os.Antminer.Counters
use bic_os.Antminer.Registry.{Solution}
use bic_os.Antminer.Receive.{Receiver, Event, stored, found, happen_all}
use bic_os.Antminer.Receive.Invariant.{IsReceiver}
use bic_os.Antminer.Receive.Total.{happen_all-new}

abbrev job : Job
job = record {
  version = 0x20000000;
  previous_hash = replicate 32 1;
  merkle_root = replicate 32 2;
  time = 5;
  bits = 0x1d00ffff;
}

abbrev work : ℕ → Assignment ℕ
work ntime = record {
  job = job;
  midstates = record { version = 1; state = 0 } ∷ record { version = 2; state = 0 } ∷ [];
  ntime = ntime;
}

abbrev solution : Solution
solution = record { nonce = 33554437; midstate_idx = 1; solution_idx = 0; target = 1 }

abbrev events : List (Event ℕ)
events =
    stored (work 7) false
    ∷ found 0 solution
    ∷ found 0 solution
    ∷ stored (record (work 8) { midstates = [] }) true
    ∷ found 1 solution
    ∷ found 2 solution
    ∷ []

abbrev IsReal : Assignment ℕ → Type 0
IsReal w = w.ntime ≡ 7

abbrev IsFound : Solution → Type 0
IsFound s = s.nonce ≡ 33554437

happen_all-new_example :
    (r : Receiver ℕ) × (happen_all
        (λ bs. take 32 bs)
        (λ i. true)
        (record { work_registry = Registry.new 4; counter = Counters.new 2 64; sent = [] })
        events
      ≡ ok r)
    × IsReceiver IsReal IsFound 4 2 r
happen_all-new_example =
    happen_all-new IsReal IsFound 4 2 (λ bs. take 32 bs) (λ i. true) (λ i. refl) 2 64 events
      (omega arith)
      (
        (refl, omega arith),
        (
          (omega arith, refl, omega arith),
          (
            (omega arith, refl, omega arith),
            (tt, ((omega arith, refl, omega arith), ((omega arith, refl, omega arith), tt))),
          ),
        ),
      )
