-- ===== src/Job/Reach/Unique.antt =====
-- internal/job/manager.go: no two jobs of one key at a time.
use mahiron.Prelude.{arith}
use mahiron.Job.{Manager}
use mahiron.Job.Api.{register}
use mahiron.Job.Config.{Config, new_manager, add_manual_schedule}
use mahiron.Job.Shutdown.{begin_shutdown}
use mahiron.Job.Keys.{view, IsTidy}
use mahiron.Job.Keys.Steps.{Tidy, run_returned-Tidy, timer_fired-Tidy}
use mahiron.Job.Keys.Calls.{enqueue-Tidy, enqueue_definition-Tidy, abort-Tidy, rerun-Tidy}
use mahiron.Job.Keys.Down.{abort_queued_and_standby-Tidy}
use mahiron.Job.Reach.{
  Step, registers, adds_schedule, enqueues, enqueues_definition, returns, fires, aborts, reruns,
  cancels, shuts_down, Reachable, begins, goes_on,
}

new_manager-Tidy : (config : Config) → Tidy (new_manager config)
unfolding new_manager
new_manager-Tidy config = record {
  queued_once = λ id. omega arith;
  active_once = λ id. omega arith;
  queue_queued = λ id h. cc;
  queue_live = λ id h. cc;
  active_running = λ id h. cc;
  active_live = λ id h. cc;
  standby_live = λ id h. cc;
  live_busy = λ id h. cc;
  busy_live = λ key h. cc;
  one_live = λ i j li lj same. cc;
}

Step-Tidy : (m m' : Manager) → Step m m' → Tidy m → Tidy m'
unfolding register add_manual_schedule begin_shutdown
Step-Tidy m m' (registers d) t = t
Step-Tidy m m' (adds_schedule key) t = t
Step-Tidy m m' (enqueues key id now fresh) t = enqueue-Tidy m key id now fresh.1 t
Step-Tidy m m' (enqueues_definition d id now fresh) t = enqueue_definition-Tidy m d id now fresh.1 t
Step-Tidy m m' (returns id err now there) t = run_returned-Tidy m id err now there t
Step-Tidy m m' (fires id now) t = timer_fired-Tidy m id now t
Step-Tidy m m' (aborts id now) t = abort-Tidy m id now t
Step-Tidy m m' (reruns id new_id now fresh) t = rerun-Tidy m id new_id now fresh.1 t
Step-Tidy m m' cancels t = t
Step-Tidy m m' (shuts_down now) t = abort_queued_and_standby-Tidy m now t

-- In every reachable state a key is taken exactly if a job of the history that has not ended has it,
-- and no two such jobs have the same key; the queue holds jobs that are queued, and the active ones
-- are running, each once and none of them ended or gone from the history; no job in standby is gone.
pub Reachable-IsTidy : (m : Manager) → Reachable m → IsTidy (view m)
Reachable-IsTidy m (begins config distinct) = new_manager-Tidy config
Reachable-IsTidy m' (goes_on m _ before step) = Step-Tidy m m' step (Reachable-IsTidy m before)
