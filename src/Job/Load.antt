-- ===== src/Job/Load.antt =====
-- What holds of the running jobs of internal/job/manager.go: the counters count them, the limits are
-- kept, and exclusive keys are exclusive.
use text.Mathlib.Text.{◌==◌ as str_eq}
use mahiron.Prelude.{ℕ, ◌+◌, ◌≤◌, ◌<◌, ◌≡◌, String, Bool, List, [], ◌∷◌, ltb, if◌then◌else◌}
use mahiron.Prelude.Keys.{occurrences, has_key}
use mahiron.Job.{JobDefinition, Manager}
use mahiron.Job.Queue.{definition_of}
pub mod Totals
pub mod Start
pub mod Steps
pub mod Calls

-- The part of the manager that is about running jobs. The definition of a job never changes.
pub record Load : Type 0 where
  pub defs : ℕ → JobDefinition
  pub active : List ℕ
  pub running : ℕ
  pub group_running : String → ℕ
  pub shared : String → ℕ
  pub exclusive : String → Bool
  pub max_concurrent : ℕ
  pub group_limits : String → ℕ
  pub independent : List String

abbrev pub load : Manager → Load
load m = record {
  defs = definition_of m;
  active = m.active;
  running = m.running;
  group_running = m.group_running;
  shared = m.active_shared_keys;
  exclusive = m.active_exclusive_keys;
  max_concurrent = m.max_concurrent;
  group_limits = m.group_limits;
  independent = m.independent;
}

-- A measure, summed over jobs.
abbrev pub total : (JobDefinition → ℕ) → (ℕ → JobDefinition) → List ℕ → ℕ
total f defs [] = 0
total f defs (x ∷ xs) = f (defs x) + total f defs xs

abbrev pub one : JobDefinition → ℕ
one d = 1

abbrev pub in_group : String → JobDefinition → ℕ
in_group g d = if str_eq d.concurrency_group g then 1 else 0

abbrev pub shares : String → JobDefinition → ℕ
shares k d = occurrences k d.shared_keys

abbrev pub holds : String → JobDefinition → ℕ
holds k d = if has_key k d.exclusive_keys then 1 else 0

-- The uses of a shared key by jobs that do not hold it exclusively themselves.
abbrev pub reads : String → JobDefinition → ℕ
reads k d = if has_key k d.exclusive_keys then 0 else occurrences k d.shared_keys

-- Jobs of the groups that share the limit.
abbrev pub sharing : List String → JobDefinition → ℕ
sharing names d = if has_key d.concurrency_group names then 0 else 1

abbrev pub limit_of : Load → String → ℕ
limit_of l g = if str_eq g "" then l.max_concurrent else l.group_limits g

pub record IsConsistent (l : Load) : Type 0 where
  pub counted : l.running ≡ total one l.defs l.active
  pub groups_counted : (g : String) → l.group_running g ≡ total (in_group g) l.defs l.active
  pub shared_counted : (k : String) → l.shared k ≡ total (shares k) l.defs l.active
  pub exclusive_counted : (k : String) → l.exclusive k ≡ ltb 0 (total (holds k) l.defs l.active)
  pub one_holder : (k : String) → total (holds k) l.defs l.active ≤ 1
  pub no_reader :
      (k : String) → 0 < total (holds k) l.defs l.active → total (reads k) l.defs l.active ≡ 0
  pub group_within : (g : String) → total (in_group g) l.defs l.active ≤ limit_of l g
  pub sharing_within : total (sharing l.independent) l.defs l.active ≤ l.max_concurrent
  -- The keys of a map are distinct.
  pub distinct : (g : String) → occurrences g l.independent ≤ 1
