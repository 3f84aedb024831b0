-- ===== src/Job/Reach/Consistent.antt =====
-- internal/job/manager.go: the counters, limits and exclusive keys in every reachable state.
use mahiron.Prelude.{
  ℕ, zero, suc, ◌≤◌, refl, String, List, [], ◌∷◌, ◌++◌, inl, inr, Bool-cases, get_or, arith,
}
use mahiron.Prelude.Keys.{occurrences}
use mahiron.Job.{Manager, standby}
use mahiron.Job.Run.{is_status}
use mahiron.Job.Api.{register, abort_pending}
use mahiron.Job.Config.{Config, new_manager, add_manual_schedule}
use mahiron.Job.Shutdown.{begin_shutdown, abort_each, abort_standby_from, abort_queued_and_standby}
use mahiron.Job.Load.{load, IsConsistent}
use mahiron.Job.Load.Steps.{Runs, run_returned-Runs, timer_fired-Runs}
use mahiron.Job.Load.Calls.{
  enqueue_definition-Runs, enqueue-Runs, rerun-Runs, abort-Runs, abort_pending-Runs,
}
use mahiron.Job.Reach.{
  Step, registers, adds_schedule, enqueues, enqueues_definition, returns, fires, aborts, reruns,
  cancels, shuts_down, Reachable, begins, goes_on,
}

new_manager-Runs :
    (config : Config)
    → ((group : String) → occurrences group config.independent_groups ≤ 1)
    → Runs (new_manager config)
unfolding new_manager
new_manager-Runs config distinct = record {
  counted = refl;
  groups_counted = λ g. refl;
  shared_counted = λ k. refl;
  exclusive_counted = λ k. refl;
  one_holder = λ k. omega arith;
  no_reader = λ k h. omega arith;
  group_within = λ g. omega arith;
  sharing_within = omega arith;
  distinct = distinct;
}

abort_each-Runs : (m : Manager) (items : List ℕ) (now : ℕ) → Runs m → Runs (abort_each m items now)
unfolding abort_each
abort_each-Runs m [] now c = c
abort_each-Runs m (item ∷ items) now c =
    abort_each-Runs (abort_pending m item now) items now (abort_pending-Runs m item now c)

abort_standby_from-Runs :
    (fuel index : ℕ) (m : Manager) (tail : List ℕ) (now : ℕ)
    → Runs m
    → Runs (abort_standby_from fuel index m tail now)
unfolding abort_standby_from
abort_standby_from-Runs zero index m tail now c = c
abort_standby_from-Runs (suc fuel) index m tail now c =
    let item = get_or (m.history ++ tail) index 0 in
    elim (Bool-cases (is_status (m.jobs item).status standby)) [
      | inl waits ↦
          rw (waits, abort_standby_from)
            (abort_standby_from-Runs fuel (suc index) (abort_pending m item now) _ now
              (abort_pending-Runs m item now c))
      | inr other ↦
          rw (other, abort_standby_from) (abort_standby_from-Runs fuel (suc index) m tail now c)
    ]

abort_queued_and_standby-Runs :
    (m : Manager) (now : ℕ) → Runs m → Runs (abort_queued_and_standby m now)
unfolding abort_queued_and_standby
abort_queued_and_standby-Runs m now c =
    abort_standby_from-Runs _ 0 (abort_each (record m { queue = [] }) m.queue now) [] now
      (abort_each-Runs (record m { queue = [] }) m.queue now c)

Step-Runs : (m m' : Manager) → Step m m' → Runs m → Runs m'
unfolding register add_manual_schedule begin_shutdown
Step-Runs m m' (registers d) c = c
Step-Runs m m' (adds_schedule key) c = c
Step-Runs m m' (enqueues key id now fresh) c = enqueue-Runs m key id now fresh.0 c
Step-Runs m m' (enqueues_definition d id now fresh) c = enqueue_definition-Runs m d id now fresh.0 c
Step-Runs m m' (returns id err now there) c = run_returned-Runs m id err now there c
Step-Runs m m' (fires id now) c = timer_fired-Runs m id now c
Step-Runs m m' (aborts id now) c = abort-Runs m id now c
Step-Runs m m' (reruns id new_id now fresh) c = rerun-Runs m id new_id now fresh.0 c
Step-Runs m m' cancels c = c
Step-Runs m m' (shuts_down now) c = abort_queued_and_standby-Runs m now c

-- In every reachable state the counters count the active jobs, no group runs more jobs than its
-- limit, the groups that share a limit together keep it, and while a job holds a key exclusively no
-- other job holds it and none shares it without holding it.
pub Reachable-IsConsistent : (m : Manager) → Reachable m → IsConsistent (load m)
Reachable-IsConsistent m (begins config distinct) = new_manager-Runs config distinct
Reachable-IsConsistent m' (goes_on m _ before step) =
    Step-Runs m m' step (Reachable-IsConsistent m before)
