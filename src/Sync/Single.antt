-- ===== src/Sync/Single.antt =====
-- Calls of the methods of open/bosminer/bosminer/src/sync.rs in any order: a node is started once for
-- each time that it may stop.
use bic_os.Base.{ℕ, ◌+◌, ◌≡◌, refl, Bool, true, false, List, [], ◌∷◌, arith}
use bic_os.Sync.{
  Status, StatusMonitor, Attempt, answer, panic, default, atomically, initiate_starting,
  initiate_running, initiate_stopping, initiate_failing, can_stop, is_shutting_down,
}

pub data Method : Type 0 where
  start run stop fail finish : Method

unfoldable pub method : Method → Status → Attempt
method Method.start = initiate_starting
method Method.run = initiate_running
method Method.stop = initiate_stopping
method Method.fail = initiate_failing
method Method.finish = can_stop

-- The status with the numbers of starts and of ends that the methods have granted.
pub record Node : Type 0 where
  pub monitor : StatusMonitor
  pub starts : ℕ
  pub ends : ℕ

abbrev pub new_node : Node
new_node = record { monitor = default; starts = 0; ends = 0 }

abbrev granted : Method → Bool → Node → Node
granted Method.start true n = record n { starts = n.starts + 1 }
granted Method.finish true n = record n { ends = n.ends + 1 }
granted _ _ n = n

-- A call that panics ends the task that made it.
unfoldable pub call_method : Method → Node → Node
unfolding atomically method
call_method c n =
    let (r, m) = atomically (method c) n.monitor in
    elim r [ answer a ↦ granted c a (record n { monitor = m }) | panic ↦ n ]

unfoldable pub call_methods : List Method → Node → Node
unfolding call_method
call_methods [] n = n
call_methods (c ∷ cs) n = call_methods cs (call_method c n)

-- How many main tasks a node with the status has.
unfoldable pub main_tasks : Status → ℕ
main_tasks Status.created = 0
main_tasks Status.stopped = 0
main_tasks Status.failed = 0
main_tasks _ = 1

abbrev pub IsSingle : Node → Type 0
IsSingle n = n.starts ≡ n.ends + main_tasks n.monitor.status

call_method-IsSingle : (c : Method) (n : Node) → IsSingle n → IsSingle (call_method c n)
unfolding call_method atomically method main_tasks initiate_starting initiate_running
    initiate_stopping initiate_failing can_stop
call_method-IsSingle Method.start n h = ground arith
call_method-IsSingle Method.run n h = ground arith
call_method-IsSingle Method.stop n h = ground arith
call_method-IsSingle Method.fail n h = ground arith
call_method-IsSingle Method.finish n h = ground arith

call_methods-from : (calls : List Method) (n : Node) → IsSingle n → IsSingle (call_methods calls n)
unfolding call_methods
call_methods-from [] n h = h
call_methods-from (c ∷ calls) n h =
    call_methods-from calls (call_method c n) (call_method-IsSingle c n h)

-- Whatever methods are called on a new node, in any order and with any panics of the callers: the
-- starts that were granted are the ends that were granted and one more while the node is neither
-- created, stopped nor failed. There is never a second main task.
pub call_methods-IsSingle : (calls : List Method) → IsSingle (call_methods calls new_node)
unfolding main_tasks
call_methods-IsSingle calls = call_methods-from calls new_node refl

-- Stopping is granted where the node is shutting down, and a start that comes before it is not lost:
-- then the end is not granted, and the node is live again.
pub start-finish :
    (m : StatusMonitor)
    → is_shutting_down m.status ≡ true
    → let (reply, started) = atomically initiate_starting m in
      let (answered, finished) = atomically can_stop started in
      ((atomically can_stop m).0 ≡ answer true)
      × (reply ≡ answer false)
      × (answered ≡ answer false)
      × (main_tasks finished.status ≡ 1)
      × (is_shutting_down finished.status ≡ false)
unfolding atomically initiate_starting can_stop is_shutting_down main_tasks
start-finish m h = ground arith
