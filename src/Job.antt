-- ===== src/Job.antt =====
-- internal/job/job.go: a job, its definition and its errors; and the state of the job manager.
use mahiron.Prelude.{ℕ, String, Bool, true, false, Option, none, some, List, [], ◌∷◌}
use mahiron.Prelude.Int.{ℤ}
pub mod Queue
pub mod Run
pub mod Api
pub mod Config
pub mod Shutdown
pub mod Pick
pub mod Load
pub mod Keys
pub mod Reach

pub data JobStatus : Type 0 where
  queued standby job_running finished : JobStatus

-- What a handler returns: its text, and whether `errors.Is(err, context.Canceled)`.
pub record RunError : Type 0 where
  pub message : String
  pub is_canceled : Bool

-- The handler is run by the environment; `has_handler` is false for nil.
pub record JobDefinition : Type 0 where
  pub key : String
  pub name : String
  pub has_handler : Bool
  pub depends_on : List String
  pub exclusive_keys : List String
  pub shared_keys : List String
  pub concurrency_group : String
  pub priority : ℤ
  pub is_rerunnable : Bool
  pub retry_delays : List ℕ
  pub retry_if : Option (RunError → Bool)

-- `done` is true once the channel is closed. Times are numbers, `none` for nil.
pub record Job : Type 0 where
  pub key : String
  pub name : String
  pub status : JobStatus
  pub retry_count : ℕ
  pub is_aborting : Bool
  pub has_aborted : Bool
  pub has_failed : Bool
  pub error : String
  pub created_at : ℕ
  pub updated_at : ℕ
  pub started_at : Option ℕ
  pub finished_at : Option ℕ
  pub next_run_at : Option ℕ
  pub definition : JobDefinition
  pub done : Bool

pub data JobError : Type 0 where
  definition_not_found invalid_definition manager_shutdown job_not_found : JobError
  job_not_running job_not_rerunnable job_already_running : JobError

-- internal/job/manager.go: `Manager`. A job is shared by the history, the queue and the goroutine
-- that runs it, so that the jobs are a store by id, which stands for the pointer and for the UUID
-- alike. A map reads as its zero value at a missing key; `independent` holds the names to which
-- `independentGroups` assigns true. The limits are as `NewManager` leaves them.
pub record Manager : Type 0 where
  pub jobs : ℕ → Job
  pub definitions : String → Option JobDefinition
  pub history : List ℕ
  pub queue : List ℕ
  pub active : List ℕ
  pub active_keys : String → Bool
  pub active_exclusive_keys : String → Bool
  pub active_shared_keys : String → ℕ
  pub running : ℕ
  pub max_concurrent : ℕ
  pub group_limits : String → ℕ
  pub independent : List String
  pub group_running : String → ℕ
  pub manual_schedules : String → Bool
  pub max_history : ℕ
  pub shut_down : Bool
