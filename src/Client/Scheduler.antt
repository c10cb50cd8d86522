-- ===== src/Client/Scheduler.antt =====
-- open/bosminer/bosminer/src/client/scheduler.rs: which client of which group gets to send work, and
-- `swap_sender` of open/bosminer/bosminer/src/work.rs. A client is known by a number. What the
-- clients report in a round is a parameter, and so is the arithmetic of `f64`. The calls of `start`
-- and `stop` are collected as commands.
pub mod Switching
pub mod Selection
pub mod Rounds
pub mod Work
mod Tests
use bic_os.Base.{
  ℕ, zero, suc, ◌+◌, ◌-◌, ◌%◌, ◌^◌, Bool, true, false, not, ◌&&◌, Option, none, some, List, [], ◌∷◌,
  ◌++◌, Result, ok, err, ◌>>=◌, ◌>>◌, guard, leb, ◌==◌, if◌then◌else◌,
}

pub data Panic : Type 0 where
  not_monotonic same_sender : Panic

-- What the clients report: `is_enabled`, whether `status` is `Running`, and their generated work.
pub record World : Type 0 where
  pub enabled : ℕ → Bool
  pub status_running : ℕ → Bool
  pub generated_work : ℕ → ℕ

pub data Command : Type 0 where
  start stop : ℕ → Command

pub record ClientHandle : Type 0 where
  pub client : ℕ
  pub last_generated_work : ℕ

abbrev pub is_running : World → ℕ → Bool
is_running w c = w.enabled c && w.status_running c

unfoldable pub try_start : World → ℕ → List Command
try_start w c = if w.enabled c then start c ∷ [] else []

unfoldable pub try_delayed_stop : World → ℕ → List Command
try_delayed_stop w c = if w.enabled c then stop c ∷ [] else []

unfoldable pub get_delta : World → ClientHandle → Result Panic (ℕ × ClientHandle)
get_delta w h = do
  guard (leb h.last_generated_work (w.generated_work h.client)) not_monotonic
  ok (
    w.generated_work h.client - h.last_generated_work,
    record h { last_generated_work = w.generated_work h.client },
  )

-- The active client after the visit of a client, and the commands to it.
unfoldable pub visit : World → Option ℕ → ℕ → Option ℕ × List Command
visit w none c = if is_running w c then (some c, []) else (none, try_start w c)
visit w (some active) c = (some active, try_delayed_stop w c)

-- What the loop over the clients leaves.
pub record Visited : Type 0 where
  pub handles : List ClientHandle
  pub active : Option ℕ
  pub delta : ℕ
  pub commands : List Command

unfoldable pub visit_all : World → List ClientHandle → Option ℕ → Result Panic Visited
visit_all w [] active = ok (record { handles = []; active = active; delta = 0; commands = [] })
visit_all w (h ∷ hs) active = do
  one ← get_delta w h
  let seen = visit w active h.client
  rest ← visit_all w hs seen.0
  ok (record {
    handles = one.1 ∷ rest.handles;
    active = rest.active;
    delta = (one.0 + rest.delta) % 2 ^ 64;
    commands = seen.1 ++ rest.commands;
  })

pub data Sender : Type 0 where
  initial : Sender
  of_client : ℕ → Sender

unfoldable pub same : Sender → Sender → Bool
same initial initial = true
same initial (of_client c) = false
same (of_client c) initial = false
same (of_client c) (of_client d) = c == d

pub data ActiveClient : Type 0 where
  no_client : Sender → ActiveClient
  active_client : ℕ → ActiveClient

unfoldable pub get_engine_sender : ActiveClient → Sender
get_engine_sender (no_client s) = s
get_engine_sender (active_client c) = of_client c

unfoldable pub is_client : ActiveClient → ℕ → Bool
is_client (no_client s) c = false
is_client (active_client d) c = d == c

-- The channel that each engine sender holds.
pub record JobDispatcher : Type 0 where
  pub active : ActiveClient
  pub senders : Sender → Option ℕ

abbrev pub channel_of : ℕ → Sender → Option ℕ
channel_of channel initial = some channel
channel_of channel (of_client c) = none

-- The clients have no channel at first.
abbrev pub job_dispatcher : ℕ → JobDispatcher
job_dispatcher channel = record { active = no_client initial; senders = channel_of channel }

unfoldable pub swap_sender :
    (Sender → Option ℕ) → Sender → Sender → Result Panic (Sender → Option ℕ)
swap_sender senders a b = do
  guard (not (same a b)) same_sender
  ok λ s. if same s a then senders b else if same s b then senders a else senders s

unfoldable pub switch_client : JobDispatcher → Option ℕ → Result Panic JobDispatcher
switch_client d (some next) =
    let swapped = do
      senders ← swap_sender d.senders (of_client next) (get_engine_sender d.active)
      ok (record { active = active_client next; senders = senders })
    in if not (is_client d.active next) then swapped else ok d
switch_client d none = ok (record d { active = no_client (get_engine_sender d.active) })

pub record GroupHandle (F : Type 0) : Type 0 where
  pub handles : List ClientHandle
  pub active : Option ℕ
  pub generated_work : ℕ
  pub share_ratio : F

-- The first loop: the groups, the generated work of all and the commands.
pub record Updated (F : Type 0) : Type 0 where
  pub groups : List (GroupHandle F)
  pub total : ℕ
  pub commands : List Command

unfoldable pub is_idle : World → ℕ → ActiveClient → Bool
is_idle w delta (no_client s) = false
is_idle w delta (active_client c) = (delta == 0) && is_running w c

unfoldable pub switch_if : JobDispatcher → Option ℕ → Result Panic JobDispatcher
switch_if d none = ok d
switch_if d (some next) = switch_client d (some next)

module _ {F : Type 0} where
  unfoldable pub update_status : World → GroupHandle F → Result Panic (GroupHandle F × List Command)
  update_status w g = do
    seen ← visit_all w g.handles none
    ok (
      record g {
        handles = seen.handles;
        active = seen.active;
        generated_work = (g.generated_work + seen.delta) % 2 ^ 64;
      },
      seen.commands,
    )

  unfoldable pub update_all : World → List (GroupHandle F) → Result Panic (Updated F)
  update_all w [] = ok (record { groups = []; total = 0; commands = [] })
  update_all w (g ∷ gs) = do
    one ← update_status w g
    rest ← update_all w gs
    ok (record {
      groups = one.0 ∷ rest.groups;
      total = (one.0.generated_work + rest.total) % 2 ^ 64;
      commands = one.1 ++ rest.commands;
    })

  unfoldable pub client_of : Option (ℕ × F) → Option ℕ
  client_of none = none
  client_of (some (c, e)) = some c

module _ {F : Type 0} (error_of : F → ℕ → ℕ → F) (ge : F → F → Bool) where
  unfoldable pub next_error : ℕ → ℕ → GroupHandle F → F
  next_error total delta g =
      error_of g.share_ratio ((g.generated_work + delta) % 2 ^ 64) ((total + delta) % 2 ^ 64)

  unfoldable pub better : Option (ℕ × F) → Option ℕ → F → Option (ℕ × F)
  better found none e = found
  better none (some c) e = some (c, e)
  better (some (best, least)) (some c) e = if ge least e then some (c, e) else some (best, least)

  -- The second loop.
  unfoldable pub next_client : ℕ → ℕ → List (GroupHandle F) → Option (ℕ × F) → Option (ℕ × F)
  next_client total delta [] found = found
  next_client total delta (g ∷ gs) found =
      next_client total delta gs (better found g.active (next_error total delta g))

  unfoldable pub select_client :
      World → List (GroupHandle F) → ℕ → Result Panic (Option ℕ × Updated F)
  select_client w groups delta = do
    all ← update_all w groups
    ok (client_of (next_client all.total delta all.groups none), all)

  unfoldable pub schedule :
      World
      → ℕ
      → JobDispatcher
      → List (GroupHandle F)
      → Result Panic (JobDispatcher × List (GroupHandle F))
  schedule w delta d groups =
      let selected = do
        next ← select_client w groups delta
        d' ← switch_if d next.0
        ok (d', next.1.groups)
      in if is_idle w delta d.active then ok (d, groups) else selected
