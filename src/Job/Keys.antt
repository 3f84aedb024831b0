-- ===== src/Job/Keys.antt =====
-- internal/job/manager.go: which jobs the history, the queue and the active jobs hold, and which keys
-- are taken.
use mahiron.Prelude.{
  ℕ, zero, suc, ◌+◌, ◌≤◌, ◌≡◌, refl, String, Bool, true, false, not, ◌&&◌, List, [], ◌∷◌, ◌++◌,
  ◌==◌, if◌then◌else◌, arith,
}
use mahiron.Job.{JobStatus, Job, Manager, queued, standby, job_running, finished}
use mahiron.Job.Run.{is_status}
use mahiron.Job.Api.{has_id}
pub mod Lists
pub mod Updates
pub mod Ends
pub mod Begins
pub mod Steps
pub mod Calls
pub mod Down

pub record View : Type 0 where
  pub jobs : ℕ → Job
  pub history : List ℕ
  pub queue : List ℕ
  pub active : List ℕ
  pub busy : String → Bool

abbrev pub view : Manager → View
view m = record {
  jobs = m.jobs;
  history = m.history;
  queue = m.queue;
  active = m.active;
  busy = m.active_keys;
}

abbrev pub times : ℕ → List ℕ → ℕ
times id [] = 0
times id (x ∷ xs) = (if x == id then 1 else 0) + times id xs

abbrev pub has_status : View → JobStatus → ℕ → Bool
has_status v s id = is_status (v.jobs id).status s

-- A job of the history that has not ended.
abbrev pub is_live : View → ℕ → Bool
is_live v id = has_id id v.history && not (has_status v finished id)

pub record IsTidy (v : View) : Type 0 where
  pub queued_once : (id : ℕ) → times id v.queue ≤ 1
  pub active_once : (id : ℕ) → times id v.active ≤ 1
  pub queue_queued : (id : ℕ) → has_id id v.queue ≡ true → has_status v queued id ≡ true
  pub queue_live : (id : ℕ) → has_id id v.queue ≡ true → is_live v id ≡ true
  pub active_running : (id : ℕ) → has_id id v.active ≡ true → has_status v job_running id ≡ true
  pub active_live : (id : ℕ) → has_id id v.active ≡ true → is_live v id ≡ true
  pub standby_live : (id : ℕ) → has_status v standby id ≡ true → is_live v id ≡ true
  -- Every key that is taken is the key of a live job, and of one only.
  pub live_busy : (id : ℕ) → is_live v id ≡ true → v.busy (v.jobs id).key ≡ true
  pub busy_live :
      (key : String)
      → v.busy key ≡ true
      → (id : ℕ) × (is_live v id ≡ true) × ((v.jobs id).key ≡ key)
  pub one_live :
      (i j : ℕ) → is_live v i ≡ true → is_live v j ≡ true → (v.jobs i).key ≡ (v.jobs j).key → i ≡ j

pub queued_apart :
    (s : JobStatus)
    → is_status s queued ≡ true
    → (is_status s finished ≡ false)
      × (is_status s job_running ≡ false)
      × (is_status s standby ≡ false)
queued_apart queued h = (refl, refl, refl)
queued_apart standby h = cc
queued_apart job_running h = cc
queued_apart finished h = cc

pub standby_apart :
    (s : JobStatus)
    → is_status s standby ≡ true
    → (is_status s finished ≡ false)
      × (is_status s job_running ≡ false)
      × (is_status s queued ≡ false)
standby_apart standby h = (refl, refl, refl)
standby_apart queued h = cc
standby_apart job_running h = cc
standby_apart finished h = cc

pub running_apart :
    (s : JobStatus)
    → is_status s job_running ≡ true
    → (is_status s finished ≡ false) × (is_status s standby ≡ false) × (is_status s queued ≡ false)
running_apart job_running h = (refl, refl, refl)
running_apart standby h = cc
running_apart queued h = cc
running_apart finished h = cc
