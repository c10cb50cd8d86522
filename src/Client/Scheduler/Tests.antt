-- ===== src/Client/Scheduler/Tests.antt =====
-- Two groups with a client each; the errors of their shares are whole numbers.
use bic_os.Base.{
  ℕ, ◌+◌, ◌-◌, ◌*◌, ◌≡◌, ◌⊎◌, refl, Bool, true, Option, none, some, List, [], ◌∷◌, All, get_elem?,
  ok, leb, arith,
}
use bic_os.Client.Scheduler.{
  World, ClientHandle, stop, try_start, try_delayed_stop, get_delta, visit, visit_all, GroupHandle,
  update_status, Updated, update_all, job_dispatcher, next_error, better, next_client, client_of,
  select_client,
}
use bic_os.Client.Scheduler.Rounds.{schedule_all, Sound, schedule_all-Sound}
use bic_os.Client.Scheduler.Work.{Accounted, UpToDate, update_status-Accounted}
use bic_os.Client.Scheduler.Selection.{IsOrder, Under, offered, select_client-Under}

-- The distance of a percentage from a share.
abbrev error_of : ℕ → ℕ → ℕ → ℕ
error_of share work total =
    let part = work * 100 - share * total in part + (share * total - work * 100)

abbrev ge : ℕ → ℕ → Bool
ge a b = leb b a

ge-IsOrder : IsOrder ge
ge-IsOrder = record {
  trans = λ a b c h h'. ground (arith, h, h');
  total = λ a b h. ground (arith, h);
}

-- The first client of each group runs, and client 7 has been started by hand.
abbrev world : World
world = record { enabled = λ c. true; status_running = λ c. true; generated_work = λ c. 10 * c }

abbrev handle : ℕ → ℕ → ClientHandle
handle c last = record { client = c; last_generated_work = last }

abbrev group : List ClientHandle → ℕ → ℕ → GroupHandle ℕ
group handles work share = record {
  handles = handles;
  active = none;
  generated_work = work;
  share_ratio = share;
}

abbrev groups : List (GroupHandle ℕ)
groups = group (handle 3 20 ∷ handle 7 70 ∷ []) 0 80 ∷ group (handle 4 10 ∷ []) 0 20 ∷ []

schedule_all-Sound_example :
    Sound 9 (schedule_all error_of ge ((world, 5) ∷ (world, 0) ∷ []) (job_dispatcher 9) groups)
schedule_all-Sound_example = schedule_all-Sound error_of ge 9 ((world, 5) ∷ (world, 0) ∷ []) groups

abbrev updated : GroupHandle ℕ
updated = record {
  handles = handle 3 30 ∷ handle 7 70 ∷ [];
  active = some 3;
  generated_work = 10;
  share_ratio = 80;
}

update_run :
    update_status world (group (handle 3 20 ∷ handle 7 70 ∷ []) 0 80) ≡ ok (updated, stop 7 ∷ [])
unfolding update_status visit_all get_delta visit try_start try_delayed_stop
update_run = refl

update_status-Accounted_example :
    Accounted 90 updated × UpToDate world (handle 3 30 ∷ handle 7 70 ∷ [])
update_status-Accounted_example =
    update_status-Accounted world (group (handle 3 20 ∷ handle 7 70 ∷ []) 0 80) 90
      (updated, stop 7 ∷ []) refl update_run

abbrev all : Updated ℕ
all = record {
  groups =
      updated
      ∷ record {
        handles = handle 4 40 ∷ [];
        active = some 4;
        generated_work = 30;
        share_ratio = 20;
      }
      ∷ [];
  total = 40;
  commands = stop 7 ∷ [];
}

select_run : select_client error_of ge world groups 5 ≡ ok (some 3, all)
unfolding select_client update_all update_status visit_all get_delta visit try_start
    try_delayed_stop next_client better next_error client_of
select_run = refl

select_client-Under_example :
    (best : Option (ℕ × ℕ)) × (some 3 ≡ client_of best)
    × All (λ g. Under ge (offered ge error_of 40 5 g) best) all.groups
    × ((best ≡ none)
        ⊎ ((i : ℕ) × (g : GroupHandle ℕ) × (get_elem? all.groups i ≡ some g)
            × (best ≡ offered ge error_of 40 5 g)))
select_client-Under_example =
    select_client-Under ge ge-IsOrder error_of world groups 5 (some 3) all select_run
