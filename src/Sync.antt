-- ===== src/Sync.antt =====
-- The status of a node, open/bosminer/bosminer/src/sync.rs: an atomic cell that several tasks change by
-- compare-and-swap loops.
pub mod Loops
pub mod Single
mod Tests
use bic_os.Base.{
  ℕ, zero, suc, ◌+◌, Bool, true, false, Option, none, some, List, [], ◌∷◌, ◌==◌, if◌then◌else◌,
}

pub data Status : Type 0 where
  created starting retrying running stopping failing declining : Status
  restarting recovering stopped failed : Status

-- `AtomicStatus` keeps a number: the place of the status in the enum.
unfoldable pub number : Status → ℕ
number Status.created = 0
number Status.starting = 1
number Status.retrying = 2
number Status.running = 3
number Status.stopping = 4
number Status.failing = 5
number Status.declining = 6
number Status.restarting = 7
number Status.recovering = 8
number Status.stopped = 9
number Status.failed = 10

-- `StatusMonitor`, with the number of notifications that it has sent.
pub record StatusMonitor : Type 0 where
  pub status : Status
  pub notified : ℕ

-- `default`.
abbrev pub default : StatusMonitor
default = record { status = Status.created; notified = 0 }

-- What a loop does with a status that it has read: it leaves with an answer, it panics, or it tries to
-- put another status, after which it notifies or not and leaves with an answer.
pub data Attempt : Type 0 where
  leave : Bool → Attempt
  bug : Attempt
  swap : Status → Bool → Bool → Attempt

unfoldable pub initiate_starting : Status → Attempt
initiate_starting Status.created = swap Status.starting false true
initiate_starting Status.stopped = swap Status.starting false true
initiate_starting Status.failed = swap Status.retrying false true
initiate_starting Status.stopping = swap Status.restarting false false
initiate_starting Status.failing = swap Status.recovering false false
initiate_starting Status.declining = swap Status.recovering false false
initiate_starting _ = leave false

unfoldable pub initiate_running : Status → Attempt
initiate_running Status.created = bug
initiate_running Status.stopped = bug
initiate_running Status.failing = bug
initiate_running Status.failed = bug
initiate_running Status.starting = swap Status.running true true
initiate_running Status.retrying = swap Status.running true true
initiate_running Status.running = leave true
initiate_running _ = leave false

unfoldable pub initiate_stopping : Status → Attempt
initiate_stopping Status.starting = swap Status.stopping false true
initiate_stopping Status.running = swap Status.stopping false true
initiate_stopping Status.restarting = swap Status.stopping false true
initiate_stopping Status.retrying = swap Status.declining false true
initiate_stopping Status.recovering = swap Status.declining false true
initiate_stopping _ = leave false

-- It has no answer, which is `true` here.
unfoldable pub initiate_failing : Status → Attempt
initiate_failing Status.created = bug
initiate_failing Status.stopped = bug
initiate_failing Status.failed = bug
initiate_failing Status.running = swap Status.failing false true
initiate_failing Status.stopping = swap Status.failing false true
initiate_failing Status.starting = swap Status.declining false true
initiate_failing Status.retrying = swap Status.declining false true
initiate_failing _ = leave true

unfoldable pub is_shutting_down : Status → Bool
is_shutting_down Status.stopping = true
is_shutting_down Status.failing = true
is_shutting_down Status.declining = true
is_shutting_down _ = false

unfoldable pub can_stop : Status → Attempt
can_stop Status.stopping = swap Status.stopped true true
can_stop Status.failing = swap Status.failed true true
can_stop Status.declining = swap Status.failed false true
can_stop Status.restarting = swap Status.starting false false
can_stop Status.recovering = swap Status.retrying false false
can_stop _ = bug

-- How a call ends.
pub data Return : Type 0 where
  answer : Bool → Return
  panic : Return

abbrev pub put : Status → Bool → StatusMonitor → StatusMonitor
put status notify m = record {
  status = status;
  notified = if notify then m.notified + 1 else m.notified;
}

-- `compare_and_swap` reads the status that another task may have put in the meantime.
abbrev pub interfere : List Status → StatusMonitor → StatusMonitor
interfere [] m = m
interfere (other ∷ _) m = record m { status = other }

abbrev pub later : List Status → List Status
later [] = []
later (_ ∷ others) = others

-- The loop of a method, from the status that it has read, for so many rounds.
unfoldable pub loop :
    (Status → Attempt) → ℕ → List Status → Status → StatusMonitor → Option (Return × StatusMonitor)
unfolding number
loop decide zero others seen m = none
loop decide (suc fuel) others seen m =
    let found = interfere others m in
    let again = loop decide fuel (later others) found.status found in
    elim (decide seen) [
      | leave a ↦ some (answer a, m)
      | bug ↦ some (panic, m)
      | swap status notify a ↦
          if number seen == number found.status
          then some (answer a, put status notify found)
          else again
    ]

-- A method, while other tasks put these statuses before its attempts.
unfoldable pub call :
    (Status → Attempt) → ℕ → List Status → StatusMonitor → Option (Return × StatusMonitor)
unfolding loop
call decide fuel others m = loop decide fuel others m.status m

-- The same in one step.
unfoldable pub atomically : (Status → Attempt) → StatusMonitor → Return × StatusMonitor
atomically decide m = elim (decide m.status) [
  | leave a ↦ (answer a, m)
  | bug ↦ (panic, m)
  | swap status notify a ↦ (answer a, put status notify m)
]
