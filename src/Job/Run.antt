-- ===== src/Job/Run.antt =====
-- internal/job/manager.go: starting a job, and what happens when it ends.
use mahiron.Prelude.{
  ℕ, zero, suc, ◌+◌, ◌-◌, Bool, true, false, not, ◌&&◌, ◌||◌, Option, none, some, List, [], ◌∷◌,
  ◌++◌, ltb, leb, if◌then◌else◌, length, get_or,
}
use mahiron.Prelude.Maps.{put, put_str}
use mahiron.Prelude.Keys.{occurrences, has_key}
use mahiron.Job.{Job, Manager, RunError, JobStatus, queued, standby, job_running, finished}
use mahiron.Job.Queue.{definition_of, pop_runnable, remove}

abbrev pub set_job : Manager → ℕ → Job → Manager
set_job m id j = record m { jobs = put m.jobs id j }

abbrev pub is_status : JobStatus → JobStatus → Bool
is_status queued queued = true
is_status standby standby = true
is_status job_running job_running = true
is_status finished finished = true
is_status _ _ = false

-- The loops over `ExclusiveKeys` and `SharedKeys` set each key, and count each occurrence.
unfoldable pub start_job : Manager → ℕ → ℕ → Manager
start_job m id now =
    let j = m.jobs id in
    let d = j.definition in
    let g = d.concurrency_group in
    record m {
      jobs =
          put m.jobs id
            (record j { status = job_running; started_at = some now; updated_at = now });
      active = id ∷ m.active;
      active_exclusive_keys = λ k. has_key k d.exclusive_keys || m.active_exclusive_keys k;
      active_shared_keys = λ k. m.active_shared_keys k + occurrences k d.shared_keys;
      running = m.running + 1;
      group_running = put_str m.group_running g (m.group_running g + 1);
    }

-- The counters do not go below 0: they count the active jobs (`IsConsistent` of Job.Load).
unfoldable pub complete_active : Manager → ℕ → Manager
complete_active m id =
    let d = definition_of m id in
    let g = d.concurrency_group in
    record m {
      active = remove id m.active;
      active_exclusive_keys = λ k. not (has_key k d.exclusive_keys) && m.active_exclusive_keys k;
      active_shared_keys = λ k. m.active_shared_keys k - occurrences k d.shared_keys;
      running = m.running - 1;
      group_running = put_str m.group_running g (m.group_running g - 1);
    }

-- The loop of `dispatchLocked`, on fuel; each round takes a job from the queue.
unfoldable pub dispatch_loop : ℕ → Manager → ℕ → Manager
dispatch_loop zero m now = m
dispatch_loop (suc fuel) m now = elim (ltb 0 (length m.queue) && not m.shut_down) [
  | false ↦ m
  | true ↦ elim (pop_runnable m) [
    | none ↦ m
    | some (id, m') ↦ dispatch_loop fuel (start_job m' id now) now
  ]
]

unfoldable pub dispatch : Manager → ℕ → Manager
unfolding dispatch_loop start_job
dispatch m now = dispatch_loop (length m.queue) m now

-- The first finished job of the history is removed; `none` if there is none.
unfoldable pub remove_finished : (ℕ → Job) → List ℕ → Option (List ℕ)
remove_finished jobs [] = none
remove_finished jobs (x ∷ xs) =
    let rest = remove_finished jobs xs in
    if is_status (jobs x).status finished
    then some xs
    else elim rest [ none ↦ none | some xs' ↦ some (x ∷ xs') ]

-- The loop of `trimHistory`, on fuel; each round shortens the history.
unfoldable pub trim_loop : ℕ → (ℕ → Job) → ℕ → List ℕ → List ℕ
unfolding remove_finished
trim_loop zero jobs bound history = history
trim_loop (suc fuel) jobs bound history = elim (ltb bound (length history)) [
  | false ↦ history
  | true ↦ elim (remove_finished jobs history) [
    | none ↦ history
    | some history' ↦ trim_loop fuel jobs bound history'
  ]
]

unfoldable pub trim_history : Manager → Manager
unfolding trim_loop
trim_history m = record m { history = trim_loop (length m.history) m.jobs m.max_history m.history }

-- `err != nil && !item.HasAborted && !errors.Is(err, context.Canceled)`
abbrev pub failure : Option RunError → Bool → Option RunError
failure none aborted = none
failure (some err) aborted = if not aborted && not err.is_canceled then some err else none

unfoldable pub finished_job : Job → Option RunError → Bool → ℕ → Job
finished_job j err aborted now =
    let has_aborted = j.has_aborted || aborted in
    let failed = failure err has_aborted in
    record j {
      status = finished;
      updated_at = now;
      finished_at = some now;
      next_run_at = none;
      has_aborted = has_aborted;
      has_failed = elim failed [ none ↦ j.has_failed | some _ ↦ true ];
      error = elim failed [ none ↦ j.error | some err ↦ err.message ];
      done = true;
    }

unfoldable pub finish : Manager → ℕ → Option RunError → Bool → ℕ → Manager
unfolding finished_job trim_history
finish m id err aborted now =
    let j = m.jobs id in
    if is_status j.status finished
    then m
    else trim_history (record m {
      jobs = put m.jobs id (finished_job j err aborted now);
      active_keys = put_str m.active_keys j.key false;
    })

unfoldable pub should_retry : Manager → Job → RunError → Bool
should_retry m j err =
    let d = j.definition in
    not (err.is_canceled || leb (length d.retry_delays) j.retry_count || m.shut_down)
    && elim d.retry_if [ none ↦ true | some retry_if ↦ retry_if err ]

-- `standbyLocked`. The timer that it starts is the event `timer_fired`.
unfoldable pub to_standby : Manager → ℕ → RunError → ℕ → Manager
to_standby m id err now =
    let j = m.jobs id in
    let delay = get_or j.definition.retry_delays j.retry_count 0 in
    set_job m id (record j {
      retry_count = j.retry_count + 1;
      status = standby;
      updated_at = now;
      next_run_at = some (now + delay);
      error = err.message;
    })

unfoldable pub after_run : Manager → ℕ → Option RunError → ℕ → Manager
unfolding should_retry to_standby finish
after_run m id none now = finish m id none (m.jobs id).has_aborted now
after_run m id (some err) now =
    let j = m.jobs id in
    if not j.has_aborted && should_retry m j err
    then to_standby m id err now
    else finish m id (some err) j.has_aborted now

-- `run`, once the handler has returned `err`.
unfoldable pub run_returned : Manager → ℕ → Option RunError → ℕ → Manager
unfolding complete_active after_run dispatch
run_returned m id err now = dispatch (after_run (complete_active m id) id err now) now

unfoldable pub retry_to_queue : Manager → ℕ → ℕ → Manager
retry_to_queue m id now =
    let j = m.jobs id in
    record m {
      jobs = put m.jobs id (record j { status = queued; updated_at = now; next_run_at = none });
      queue = m.queue ++ (id ∷ []);
    }

-- The goroutine of `standbyLocked`, when its timer fires.
unfoldable pub timer_fired : Manager → ℕ → ℕ → Manager
unfolding retry_to_queue dispatch
timer_fired m id now =
    let j = m.jobs id in
    if not (is_status j.status standby) || j.has_aborted || m.shut_down
    then m
    else dispatch (retry_to_queue m id now) now
