-- ===== src/Tests/Jobs.antt =====
-- internal/job/manager.go, run.
use mahiron.Prelude.{
  ℕ, ◌≡◌, refl, String, true, false, none, List, [], ◌∷◌, map, ◌==◌, if◌then◌else◌, arith,
}
use mahiron.Prelude.Int.{pos, negsuc, ltb_ℤ}
use mahiron.Job.{JobDefinition, Manager, standby, finished}
use mahiron.Job.Queue.{
  shared_full, group_full, blocked_by_writer, dependencies_satisfied, runnable, remove,
  pop_runnable,
}
use mahiron.Job.Run.{trim_history, dispatch, finish}
use mahiron.Job.Api.{new_job, enqueue_definition, has_id}
use mahiron.Job.Config.{Config, new_manager}
use mahiron.Job.Shutdown.{abort_queued_and_standby}
use mahiron.Job.Pick.{before, priority_of, pop_runnable_lem}
use mahiron.Job.Load.{load, IsConsistent}
use mahiron.Job.Reach.{Reachable, begins, goes_on, enqueues_definition}
use mahiron.Job.Keys.{view, IsTidy}
use mahiron.Job.Reach.Unique.{Reachable-IsTidy}
use mahiron.Job.Reach.Consistent.{Reachable-IsConsistent}
use mahiron.Job.Reach.Maximal.{IsMaximal, dispatch_lem}
use mahiron.Job.Reach.Started.{HasStarted}

abbrev config : Config
config = record {
  max_history = pos 1;
  max_concurrent_jobs = negsuc 0;
  group_limits = λ _. pos 0;
  independent_groups = [];
}

abbrev definition : String → List String → ℕ → JobDefinition
definition key exclusive_keys priority = record {
  key = key;
  name = key;
  has_handler = true;
  depends_on = [];
  exclusive_keys = exclusive_keys;
  shared_keys = [];
  concurrency_group = "";
  priority = pos priority;
  is_rerunnable = true;
  retry_delays = 1000 ∷ [];
  retry_if = none;
}

abbrev scan : JobDefinition
scan = definition "scan" ("tuner" ∷ []) 0

abbrev started : Manager
started = new_manager config

-- The scan runs, and another job waits.
abbrev one_runs : Manager
one_runs = (enqueue_definition started scan 1 100).0

abbrev one_waits : Manager
one_waits = (enqueue_definition one_runs (definition "gather" ("tuner" ∷ []) 5) 2 101).0

one_runs-Reachable : Reachable one_runs
unfolding new_manager
one_runs-Reachable =
    goes_on started one_runs (begins config λ group. omega arith)
      (enqueues_definition scan 1 100 (refl, refl))

Reachable-IsConsistent_example : IsConsistent (load one_runs)
Reachable-IsConsistent_example = Reachable-IsConsistent one_runs one_runs-Reachable

Reachable-IsTidy_example : IsTidy (view one_runs)
Reachable-IsTidy_example = Reachable-IsTidy one_runs one_runs-Reachable

scan_starts : (one_waits.active ≡ 1 ∷ []) × (one_waits.queue ≡ 2 ∷ [])
unfolding enqueue_definition new_manager dispatch trim_history pop_runnable runnable shared_full
    group_full blocked_by_writer dependencies_satisfied
scan_starts = (refl, refl)

-- Three jobs in the queue, the second and the third as urgent as each other.
abbrev waiting : Manager
waiting = record started {
  jobs = λ id.
      new_job
        (if id == 1 then scan else if id == 2 then definition "a" [] 5 else definition "b" [] 5)
        100;
  queue = 1 ∷ 2 ∷ 3 ∷ [];
}

pop_runnable_lem_example :
    (runnable waiting 2 ≡ true)
    × (has_id 2 waiting.queue ≡ true)
    × ((j : ℕ)
        → has_id j waiting.queue ≡ true
        → runnable waiting j ≡ true
        → ltb_ℤ (priority_of waiting 2) (priority_of waiting j) ≡ false)
    × ((j : ℕ)
        → has_id j (before 2 waiting.queue) ≡ true
        → runnable waiting j ≡ true
        → ltb_ℤ (priority_of waiting j) (priority_of waiting 2) ≡ true)
    × (record waiting { queue = 1 ∷ 3 ∷ [] } ≡ record waiting { queue = remove 2 waiting.queue })
unfolding pop_runnable new_manager runnable shared_full group_full blocked_by_writer
    dependencies_satisfied
pop_runnable_lem_example = pop_runnable_lem waiting 2 (record waiting { queue = 1 ∷ 3 ∷ [] }) refl

dispatch_lem_example :
    (ids : List ℕ) × HasStarted 200 ids waiting (dispatch waiting 200)
    × IsMaximal (dispatch waiting 200)
unfolding new_manager
dispatch_lem_example = dispatch_lem waiting 200 refl

-- Three jobs that wait for another try, where the history is to hold one.
abbrev standing_by : Manager
standing_by = record started {
  jobs = λ id.
      record (new_job (definition (if id == 1 then "a" else if id == 2 then "b" else "c") [] 0)
        100) { status = standby };
  history = 1 ∷ 2 ∷ 3 ∷ [];
}

-- `abortQueuedAndStandbyLocked` passes over the second one: trimming the history moves it to the
-- place that the loop has left behind.
standby_job_skipped :
    let m = abort_queued_and_standby standing_by 200 in
    (m.history ≡ 2 ∷ [])
    × (map (λ id. (m.jobs id).status) (1 ∷ 2 ∷ 3 ∷ []) ≡ finished ∷ standby ∷ finished ∷ [])
unfolding abort_queued_and_standby new_manager finish
standby_job_skipped = (refl, refl)
