-- ===== src/Sync/Tests.antt =====
-- Calls on a node, and a call that another task interferes with.
use bic_os.Base.{◌≡◌, refl, true, false, some, List, [], ◌∷◌, arith}
use bic_os.Sync.{
  Status, StatusMonitor, default, initiate_starting, initiate_stopping, can_stop, call, answer,
  atomically, is_shutting_down, initiate_running,
}
use bic_os.Sync.Loops.{Linear, call-Linear}
use bic_os.Sync.Single.{
  Method, new_node, call_methods, IsSingle, call_methods-IsSingle, start-finish, main_tasks,
}

abbrev calls : List Method
calls =
    Method.start ∷ Method.run ∷ Method.stop ∷ Method.start ∷ Method.finish ∷ Method.stop
    ∷ Method.finish ∷ []

call_methods-IsSingle_example : IsSingle (call_methods calls new_node)
call_methods-IsSingle_example = call_methods-IsSingle calls

ends_once : (call_methods calls new_node).ends ≡ 1
unfolding call_methods can_stop initiate_stopping initiate_starting initiate_running
ends_once = refl

-- A node that is created and stopped by others while it is about to be started.
abbrev others : List Status
others = Status.starting ∷ Status.stopping ∷ []

call-Linear_example :
    Linear initiate_starting others default (call initiate_starting 3 others default)
call-Linear_example = call-Linear initiate_starting 3 others default (omega arith)

restarts :
    call initiate_starting 3 others default
    ≡ some (answer false, record { status = Status.starting; notified = 0 })
unfolding call initiate_starting
restarts = refl

abbrev stopping : StatusMonitor
stopping = record { status = Status.stopping; notified = 3 }

start-finish_example :
    let (reply, started) = atomically initiate_starting stopping in
    let (answered, finished) = atomically can_stop started in
    ((atomically can_stop stopping).0 ≡ answer true)
    × (reply ≡ answer false)
    × (answered ≡ answer false)
    × (main_tasks finished.status ≡ 1)
    × (is_shutting_down finished.status ≡ false)
unfolding is_shutting_down
start-finish_example = start-finish stopping refl
