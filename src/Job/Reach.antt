-- ===== src/Job/Reach.antt =====
-- internal/job/manager.go: the states that the manager can reach. Every step is a section of the
-- code that holds the lock.
use mahiron.Prelude.{ℕ, ◌≤◌, ◌≡◌, String, true, false, Option, List}
use mahiron.Prelude.Keys.{occurrences}
use mahiron.Job.{Manager, JobDefinition, RunError}
use mahiron.Job.Run.{run_returned, timer_fired}
use mahiron.Job.Api.{register, enqueue_definition, enqueue, has_id, abort, rerun}
use mahiron.Job.Config.{Config, new_manager, add_manual_schedule}
use mahiron.Job.Shutdown.{begin_shutdown, abort_queued_and_standby}
pub mod Consistent
pub mod Started
pub mod Maximal
pub mod Unique

-- A new UUID is no job's, and a handler returns while its job is active.
abbrev pub IsFresh : Manager → ℕ → Type 0
IsFresh m id = (has_id id m.active ≡ false) × (has_id id m.history ≡ false)

pub data Step (m : Manager) : Manager → Type 0 where
  registers : (d : JobDefinition) → Step m (register m d)
  adds_schedule : (key : String) → Step m (add_manual_schedule m key)
  enqueues : (key : String) (id now : ℕ) → IsFresh m id → Step m (enqueue m key id now).0
  enqueues_definition :
      (d : JobDefinition) (id now : ℕ) → IsFresh m id → Step m (enqueue_definition m d id now).0
  returns :
      (id : ℕ) (err : Option RunError) (now : ℕ)
      → has_id id m.active ≡ true
      → Step m (run_returned m id err now)
  fires : (id now : ℕ) → Step m (timer_fired m id now)
  aborts : (id now : ℕ) → Step m (abort m id now).0
  reruns : (id new_id now : ℕ) → IsFresh m new_id → Step m (rerun m id new_id now).0
  cancels : Step m (begin_shutdown m)
  shuts_down : (now : ℕ) → Step m (abort_queued_and_standby m now)

-- The keys of a Go map are distinct.
pub data Reachable : Manager → Type 0 where
  begins :
      (config : Config)
      → ((group : String) → occurrences group config.independent_groups ≤ 1)
      → Reachable (new_manager config)
  goes_on : (m m' : Manager) → Reachable m → Step m m' → Reachable m'
