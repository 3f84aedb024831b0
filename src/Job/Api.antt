-- ===== src/Job/Api.antt =====
-- internal/job/manager.go: enqueueing, aborting and rerunning jobs.
use text.Mathlib.Text.{◌==◌ as str_eq}
use mahiron.Prelude.{
  ℕ, String, Bool, true, false, not, ◌&&◌, ◌||◌, Option, none, some, List, [], ◌∷◌, ◌++◌, ◌==◌,
  if◌then◌else◌,
}
use mahiron.Prelude.Maps.{put, put_str}
use mahiron.Job.{
  JobDefinition, Job, Manager, RunError, JobError, queued, standby, definition_not_found,
  invalid_definition, manager_shutdown, job_not_found, job_not_running, job_not_rerunnable,
  job_already_running,
}
use mahiron.Job.Queue.{remove}
use mahiron.Job.Run.{set_job, is_status, dispatch, finish, trim_history}

-- A state with the error that is returned, if any.
abbrev pub Answer : Type 0
Answer = Manager × Option JobError

unfoldable pub register : Manager → JobDefinition → Manager
register m d = record m { definitions = put_str m.definitions d.key (some d) }

abbrev pub new_job : JobDefinition → ℕ → Job
new_job d now = record {
  key = d.key;
  name = d.name;
  status = queued;
  retry_count = 0;
  is_aborting = false;
  has_aborted = false;
  has_failed = false;
  error = "";
  created_at = now;
  updated_at = now;
  started_at = none;
  finished_at = none;
  next_run_at = none;
  definition = d;
  done = false;
}

-- `def.Key == "" || def.Handler == nil || def.ConcurrencyGroup != "" && …`
abbrev pub is_invalid : Manager → JobDefinition → Bool
is_invalid m d =
    str_eq d.key ""
    || not d.has_handler
    || not (str_eq d.concurrency_group "") && m.group_limits d.concurrency_group == 0

-- The state before `dispatchLocked`: the job is in the history and at the end of the queue.
unfoldable pub add_job : Manager → JobDefinition → ℕ → ℕ → Manager
add_job m d id now =
    let m₁ =
      trim_history
        (record m { jobs = put m.jobs id (new_job d now); history = m.history ++ (id ∷ []) }) in
    record m₁ { queue = m₁.queue ++ (id ∷ []); active_keys = put_str m₁.active_keys d.key true }

-- `id` is the job's new UUID.
unfoldable pub enqueue_definition : Manager → JobDefinition → ℕ → ℕ → Answer
unfolding add_job
enqueue_definition m d id now =
    if m.shut_down
    then (m, some manager_shutdown)
    else if is_invalid m d
    then (m, some invalid_definition)
    else if m.active_keys d.key
    then (m, some job_already_running)
    else (dispatch (add_job m d id now) now, none)

unfoldable pub enqueue : Manager → String → ℕ → ℕ → Answer
unfolding enqueue_definition
enqueue m key id now = elim (m.definitions key) [
  | none ↦ (m, some definition_not_found)
  | some d ↦ enqueue_definition m d id now
]

-- `findJob`, and the test of a map's or the queue's keys.
abbrev pub has_id : ℕ → List ℕ → Bool
has_id id [] = false
has_id id (x ∷ xs) = x == id || has_id id xs

abbrev pub context_canceled : RunError
context_canceled = record { message = "context canceled"; is_canceled = true }

unfoldable pub abort_pending : Manager → ℕ → ℕ → Manager
abort_pending m id now =
    finish (set_job m id (record (m.jobs id) { is_aborting = true })) id (some context_canceled)
      true now

-- The cancel function only tells the handler.
unfoldable pub abort_active : Manager → ℕ → ℕ → Manager
abort_active m id now =
    if has_id id m.history
    then set_job m id
        (record (m.jobs id) { is_aborting = true; has_aborted = true; updated_at = now })
    else m

unfoldable pub abort : Manager → ℕ → ℕ → Answer
unfolding abort_active abort_pending
abort m id now =
    if has_id id m.active
    then (abort_active m id now, none)
    else if has_id id m.queue
    then (abort_pending (record m { queue = remove id m.queue }) id now, none)
    else if has_id id m.history && is_status (m.jobs id).status standby
    then (abort_pending (set_job m id (record (m.jobs id) { has_aborted = true })) id now, none)
    else (m, some job_not_running)

unfoldable pub rerun : Manager → ℕ → ℕ → ℕ → Answer
unfolding enqueue_definition
rerun m id new_id now =
    if not (has_id id m.history)
    then (m, some job_not_found)
    else if not (m.jobs id).definition.is_rerunnable
    then (m, some job_not_rerunnable)
    else enqueue_definition m (m.jobs id).definition new_id now
