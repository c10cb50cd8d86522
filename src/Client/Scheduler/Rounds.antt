-- ===== src/Client/Scheduler/Rounds.antt =====
-- Rounds of scheduling, one after the other.
use mathlib.Core.Path.{subst}
use bic_os.Base.{
  ℕ, ◌≡◌, refl, sym, Bool, Option, none, some, List, [], ◌∷◌, Result, ok, err, ◌>>=◌, Bool-cases,
  inl, inr, leb,
}
use bic_os.Client.Scheduler.{
  Panic, not_monotonic, World, ClientHandle, get_delta, visit_all, JobDispatcher, job_dispatcher,
  GroupHandle, update_status, update_all, select_client, switch_if, is_idle, schedule, Updated,
  visit,
}
use bic_os.Client.Scheduler.Switching.{Holds, Attached, job_dispatcher-Holds, switch_client-Holds}

-- What a number of rounds may end in: a dispatcher whose active client has the channel, or a
-- client whose generated work has decreased.
abbrev pub Sound : {F : Type 0} → ℕ → Result Panic (JobDispatcher × List (GroupHandle F)) → Type 0
Sound channel (ok (d, groups)) = Holds channel d × Attached d.active
Sound channel (err e) = e ≡ not_monotonic

-- The only failure is that generated work has decreased.
abbrev Monotonic : {A : Type 0} → Result Panic A → Type 0
Monotonic (ok a) = Unit {0}
Monotonic (err e) = e ≡ not_monotonic

module _ {F : Type 0} (error_of : F → ℕ → ℕ → F) (ge : F → F → Bool) where
  -- Rounds, each with what the clients report and with the work since the one before.
  abbrev pub schedule_all :
      List (World × ℕ)
      → JobDispatcher
      → List (GroupHandle F)
      → Result Panic (JobDispatcher × List (GroupHandle F))
  schedule_all [] d groups = ok (d, groups)
  schedule_all ((w, delta) ∷ rounds) d groups = do
    next ← schedule error_of ge w delta d groups
    schedule_all rounds next.0 next.1

>>=-Monotonic :
    {A B : Type 0} (r : Result Panic A) (f : A → Result Panic B)
    → Monotonic r
    → ((a : A) → Monotonic (f a))
    → Monotonic (r >>= f)
>>=-Monotonic (ok a) f first next = next a
>>=-Monotonic (err e) f first next = first

get_delta-Monotonic : (w : World) (h : ClientHandle) → Monotonic (get_delta w h)
unfolding get_delta
get_delta-Monotonic w h =
    elim (Bool-cases (leb h.last_generated_work (w.generated_work h.client))) [
      | inl more ↦ rw more tt
      | inr less ↦ rw less refl
    ]

visit_all-Monotonic :
    (w : World) (hs : List ClientHandle) (active : Option ℕ) → Monotonic (visit_all w hs active)
unfolding visit_all
visit_all-Monotonic w [] active = tt
visit_all-Monotonic w (h ∷ hs) active =
    >>=-Monotonic (get_delta w h) _ (get_delta-Monotonic w h) λ one.
      >>=-Monotonic (visit_all w hs (visit w active h.client).0) _ (visit_all-Monotonic w hs _)
        λ rest. tt

module _ {F : Type 0} where
  update_status-Monotonic : (w : World) (g : GroupHandle F) → Monotonic (update_status w g)
  unfolding update_status
  update_status-Monotonic w g =
      >>=-Monotonic (visit_all w g.handles none) _ (visit_all-Monotonic w g.handles none) λ seen. tt

  update_all-Monotonic : (w : World) (gs : List (GroupHandle F)) → Monotonic (update_all w gs)
  unfolding update_all
  update_all-Monotonic w [] = tt
  update_all-Monotonic w (g ∷ gs) =
      >>=-Monotonic (update_status w g) _ (update_status-Monotonic w g)
        λ one. >>=-Monotonic (update_all w gs) _ (update_all-Monotonic w gs) λ rest. tt

  >>=-Sound :
      (channel : ℕ) (r : Result Panic (JobDispatcher × List (GroupHandle F)))
      → (f : JobDispatcher × List (GroupHandle F)
          → Result Panic (JobDispatcher × List (GroupHandle F)))
      → Sound channel r
      → ((d : JobDispatcher) (gs : List (GroupHandle F))
          → Holds channel d
          → Attached d.active
          → Sound channel (f (d, gs)))
      → Sound channel (r >>= f)
  >>=-Sound channel (ok (d, gs)) f (holds, attached) next = next d gs holds attached
  >>=-Sound channel (err e) f failed next = failed

  switch_selected-Sound :
      (channel : ℕ) (d : JobDispatcher) (r : Result Panic (Option ℕ × Updated F))
      → Holds channel d
      → Attached d.active
      → Monotonic r
      → Sound channel (r >>= λ next. switch_if d next.0 >>= λ d'. ok (d', next.1.groups))
  unfolding switch_if
  switch_selected-Sound channel d (err e) holds attached failed = failed
  switch_selected-Sound channel d (ok (none, all)) holds attached failed = (holds, attached)
  switch_selected-Sound channel d (ok (some next, all)) holds attached failed =
      let (d', run, holds', now) = switch_client-Holds channel d next holds attached in
      rw run (holds', subst Attached (sym now) tt)

module _ {F : Type 0} (error_of : F → ℕ → ℕ → F) (ge : F → F → Bool) where
  schedule-Sound :
      (channel : ℕ) (w : World) (delta : ℕ) (d : JobDispatcher) (gs : List (GroupHandle F))
      → Holds channel d
      → Attached d.active
      → Sound channel (schedule error_of ge w delta d gs)
  unfolding schedule select_client
  schedule-Sound channel w delta d gs holds attached =
      let selected =
        switch_selected-Sound channel d (select_client error_of ge w gs delta) holds attached
          (>>=-Monotonic (update_all w gs) _ (update_all-Monotonic w gs) λ all. tt) in
      elim (Bool-cases (is_idle w delta d.active)) [
        | inl idle ↦ rw idle (holds, attached)
        | inr busy ↦ rw busy selected
      ]

  rounds-Sound :
      (channel : ℕ) (rounds : List (World × ℕ)) (d : JobDispatcher) (gs : List (GroupHandle F))
      → Holds channel d
      → Attached d.active
      → Sound channel (schedule_all error_of ge rounds d gs)
  rounds-Sound channel [] d gs holds attached = (holds, attached)
  rounds-Sound channel ((w, delta) ∷ rounds) d gs holds attached =
      >>=-Sound channel (schedule error_of ge w delta d gs)
        (λ next. schedule_all error_of ge rounds next.0 next.1)
        (schedule-Sound channel w delta d gs holds attached)
        (λ d' gs' holds' attached'. rounds-Sound channel rounds d' gs' holds' attached')

  pub schedule_all-Sound :
      (channel : ℕ) (rounds : List (World × ℕ)) (gs : List (GroupHandle F))
      → Sound channel (schedule_all error_of ge rounds (job_dispatcher channel) gs)
  schedule_all-Sound channel rounds gs =
      rounds-Sound channel rounds (job_dispatcher channel) gs (job_dispatcher-Holds channel) refl
