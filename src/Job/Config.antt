-- ===== src/Job/Config.antt =====
-- internal/job/manager.go: `Config`, `NewManager` and `AddManualSchedule`.
use mahiron.Prelude.{String, true, false, none, List, []}
use mahiron.Prelude.Int.{ℤ, pos, or_default}
use mahiron.Prelude.Maps.{put_str}
use mahiron.Job.{JobDefinition, Manager}
use mahiron.Job.Api.{new_job}

-- `independent_groups` holds the names to which `IndependentGroups` assigns true. A map reads as 0
-- at a missing key.
pub record Config : Type 0 where
  pub max_history : ℤ
  pub max_concurrent_jobs : ℤ
  pub group_limits : String → ℤ
  pub independent_groups : List String

-- No job stands behind an id yet; what the store holds there is never read.
abbrev no_definition : JobDefinition
no_definition = record {
  key = "";
  name = "";
  has_handler = false;
  depends_on = [];
  exclusive_keys = [];
  shared_keys = [];
  concurrency_group = "";
  priority = pos 0;
  is_rerunnable = false;
  retry_delays = [];
  retry_if = none;
}

-- The code asks whether a group's limit is at most 0, and whether a count has reached it, so that
-- a negative limit is as good as 0.
unfoldable pub new_manager : Config → Manager
new_manager config = record {
  jobs = λ _. new_job no_definition 0;
  definitions = λ _. none;
  history = [];
  queue = [];
  active = [];
  active_keys = λ _. false;
  active_exclusive_keys = λ _. false;
  active_shared_keys = λ _. 0;
  running = 0;
  max_concurrent = or_default config.max_concurrent_jobs 1;
  group_limits = λ group. or_default (config.group_limits group) 0;
  independent = config.independent_groups;
  group_running = λ _. 0;
  manual_schedules = λ _. false;
  max_history = or_default config.max_history 100;
  shut_down = false;
}

unfoldable pub add_manual_schedule : Manager → String → Manager
add_manual_schedule m key = record m { manual_schedules = put_str m.manual_schedules key true }
