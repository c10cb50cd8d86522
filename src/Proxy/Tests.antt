-- ===== src/Proxy/Tests.antt =====
-- Runs of a translation at concrete messages: serde_json's values are Booleans or subscriptions.
use bic_os.Base.{
  All, ℕ, Bool, true, false, Option, none, some, List, [], ◌∷◌, ◌≡◌, refl, replicate, length,
  le_bytes, arith, ◌++◌, ltb, ◌^◌,
}
use bic_os.Stratum.Messages.{
  SetupConnection, OpenStandardMiningChannel, SubmitSharesStandard, DeviceInfo,
}
use bic_os.Proxy.{
  Translation, Notify, Env, new, Reply, Panic, Phase, panic, short_text, long_text,
  capacity_overflow,
}
use bic_os.Proxy.Text.{ascii}
use bic_os.Proxy.Sending.{lookup}
use bic_os.Proxy.Channel.{perform_notify, template_of}
use bic_os.Proxy.Downstream.{visit_submit_shares_standard, visit_open_standard_mining_channel}
use bic_os.Proxy.Logic.{After}
use bic_os.Proxy.Invariant.{Sound, IsKnown}
use bic_os.Proxy.Invariant.Visits.{visit_all-Sound}
use bic_os.Proxy.Opening.{Never, Opened, orders}
use bic_os.Proxy.Opening.Orders.{take_answers, take_answers-Opened}
use bic_os.Proxy.Shares.{request_for, perform_notify-visit_submit_shares_standard}
use bic_os.Proxy.Faults.{
  visit_submit_shares_standard-panic, visit_open_standard_mining_channel-panic,
  visit_set_extranonce-visit_notify,
}
use bic_os.Proxy.Run
use bic_os.Proxy.Run.{
  Event, visit_all, visit, stratum_result, set_difficulty, notify, setup_connection,
  open_standard_mining_channel,
}

-- A result of the pool.
data Value : Type 0 where
  boolean : Bool → Value
  subscription : List ℕ → ℕ → Value
  negotiated : ℕ → Value

abbrev as_boolean : Value → Option Bool
as_boolean (boolean b) = some b
as_boolean _ = none

abbrev as_subscribe : Value → Option (List ℕ × ℕ)
as_subscribe (subscription n s) = some (n, s)
as_subscribe _ = none

abbrev mask_of : Value → Option ℕ
mask_of (negotiated m) = some m
mask_of _ = none

abbrev env : Env Value (List ℕ)
env = record {
  v1_room = λ n. true;
  v2_room = λ n. true;
  memory = λ n. ltb n (2 ^ 40);
  sha256d = λ bs. le_bytes 32 (length bs);
  as_boolean = as_boolean;
  as_subscribe = as_subscribe;
  version_rolling = λ v. some true;
  version_rolling_mask = mask_of;
  debug_result = λ v. ascii "StratumResult(Bool(false))";
  debug_error = λ e. e;
  as_u32 = λ n. n;
}

abbrev device : DeviceInfo
device = record {
  vendor = ascii "Braiins";
  hw_rev = ascii "1";
  fw_ver = ascii "Braiins OS";
  dev_id = ascii "x";
}

abbrev connection : SetupConnection
connection = record {
  protocol = 0;
  min_version = 2;
  max_version = 2;
  flags = 0;
  endpoint_host = ascii "pool";
  endpoint_port = 3336;
  device = device;
}

abbrev opening : OpenStandardMiningChannel
opening = record {
  req_id = 10;
  user = ascii "user";
  nominal_hashrate = 0;
  max_target = replicate 32 255;
}

abbrev setup : List (Event Value (List ℕ))
setup =
    setup_connection connection
    ∷ stratum_result (some 0) (negotiated 0x1fffe000)
    ∷ open_standard_mining_channel opening
    ∷ []

abbrev job : Notify
job = record {
  job_id = ascii "a1";
  prev_hash = replicate 32 1;
  coin_base_1 = ascii "cb1";
  coin_base_2 = ascii "cb2";
  merkle_branch = replicate 32 2 ∷ [];
  version = 0x20000000;
  bits = 0x1d00ffff;
  time = 5;
  clean_jobs = false;
}

abbrev opened : List (Event Value (List ℕ))
opened =
    setup_connection connection
    ∷ stratum_result (some 0) (negotiated 0x1fffe000)
    ∷ open_standard_mining_channel opening
    ∷ notify job
    ∷ stratum_result (some 2) (boolean true)
    ∷ set_difficulty 512
    ∷ stratum_result (some 1) (subscription (ascii "e1") 8)
    ∷ []

abbrev outcome : Reply (Unit {0}) × Translation
outcome = visit_all env opened (new false)

abbrev final_phase : Phase
final_phase = outcome.1.phase

opens : final_phase ≡ Phase.operational
unfolding visit_all
opens = refl

abbrev again : Reply (Unit {0})
again = let (r, t) = visit env (open_standard_mining_channel opening) (new false) in r

repeats : again ≡ panic Panic.long_text
unfolding visit
repeats = refl

abbrev open_state : Translation
open_state = outcome.1

abbrev notified : Translation
notified = (perform_notify env job open_state).1

abbrev share : SubmitSharesStandard
share = record {
  channel_id = 0;
  seq_num = 0;
  job_id = 1;
  nonce = 7;
  ntime = 6;
  version = 0x3fffffff;
}

visit_all-Sound_example :
    After {A = Unit {0}} (Sound 0 0) IsKnown (λ _. Sound 0 0) outcome.0 outcome.1
visit_all-Sound_example = visit_all-Sound env false opened (omega arith)

perform_notify-visit_submit_shares_standard_example :
    (visit_submit_shares_standard env share notified).1.v1_tx.sent
    ≡ notified.v1_tx.sent ++ (request_for env share opening (template_of env job) notified ∷ [])
unfolding perform_notify visit_all lookup
perform_notify-visit_submit_shares_standard_example =
    perform_notify-visit_submit_shares_standard env share job opening open_state notified refl
      ((omega arith, tt), tt, omega arith, omega arith, refl, (refl, refl, refl, refl)) refl refl
      refl refl

visit_submit_shares_standard-panic_example :
    visit_submit_shares_standard env (record share { channel_id = 5 }) open_state
    ≡ (panic short_text, open_state)
visit_submit_shares_standard-panic_example =
    visit_submit_shares_standard-panic env (record share { channel_id = 5 }) open_state
      (λ e. omega (arith, e)) (omega arith)

visit_open_standard_mining_channel-panic_example :
    visit_open_standard_mining_channel env opening (new true) ≡ (panic long_text, new true)
visit_open_standard_mining_channel-panic_example =
    visit_open_standard_mining_channel-panic env opening (new true) refl

-- A second connection set-up on an open channel is refused, and then carried out all the same.
abbrev set_up_again : Reply (Unit {0}) × Translation
set_up_again = visit env (setup_connection connection) open_state

restarts : set_up_again.1.phase ≡ Phase.v1_configure
unfolding visit visit_all
restarts = refl

-- A difficulty below one makes the division panic.
divides_by_zero : (visit env (set_difficulty 0) open_state).0 ≡ panic Panic.zero_difficulty
unfolding visit
divides_by_zero = refl

abbrev asked : Translation
asked = (visit_all env setup (new false)).1

-- The pool answers the requests of a client that has asked for a channel.
take_answers-Opened_example :
    All
      (λ answers.
        let first = boolean true in
        let r =
          take_answers opening env
            (λ n. refl)
            (subscription (ascii "e1") 8)
            first
            (ascii "e1")
            8
            512
            refl
            refl
            refl
            answers
            asked in
        After Never Never (λ _. Opened opening) r.0 r.1)
      orders
unfolding visit_all
take_answers-Opened_example =
    take_answers-Opened opening env (λ n. refl) (subscription (ascii "e1") 8) (boolean true)
      (ascii "e1") 8 512 refl refl refl asked (refl, refl, refl, refl, refl, refl)

visit_set_extranonce-visit_notify_example :
    (visit_all env (Run.set_extranonce (ascii "aa") (2 ^ 63) ∷ notify job ∷ []) open_state).0
    ≡ panic capacity_overflow
visit_set_extranonce-visit_notify_example =
    visit_set_extranonce-visit_notify env job (ascii "aa") (2 ^ 63) open_state opens (omega arith)
      (omega arith)
