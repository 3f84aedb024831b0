-- ===== src/Tuner/Devices.antt =====
-- internal/tuner/manager.go: `managedDevice`, and what its calls change.
use mahiron.Prelude.{
  ℕ, ◌+◌, String, Bool, true, false, not, ◌&&◌, Option, none, some, List, ◌==◌, if◌then◌else◌,
}
use mahiron.Prelude.Maps.{put}
use mahiron.Tuner.{TunerRuntime, TrackedUser, User, reset_reservation, add_user, remove_user}
use mahiron.Tuner.Pool.{TunerManager}
pub mod Owners
pub mod Reach

unfoldable pub release : TunerManager → ℕ → TunerManager
release tm i =
    if tm.in_use i
    then record tm {
      in_use = put tm.in_use i false;
      runtime = put tm.runtime i (reset_reservation (tm.runtime i)).0;
    }
    else tm

unfoldable pub release_once : TunerManager → ℕ → TunerManager
unfolding release
release_once tm device =
    if tm.once device
    then tm
    else release (record tm { once = put tm.once device true }) (tm.owner device)

-- `runtime.inUse && runtime.device == device`
abbrev pub holds_device : TunerRuntime → ℕ → Bool
holds_device r device = r.in_use && elim r.device [ none ↦ false | some d ↦ d == device ]

abbrev update_runtime : TunerManager → ℕ → TunerRuntime → TunerManager
update_runtime tm device r =
    let i = tm.owner device in
    if holds_device (tm.runtime i) device then record tm { runtime = put tm.runtime i r } else tm

unfoldable pub mark_running : TunerManager → ℕ → TunerManager
mark_running tm device =
    update_runtime tm device
      (record (tm.runtime (tm.owner device)) { running = true; stopped = false })

unfoldable pub mark_stopped : TunerManager → ℕ → TunerManager
mark_stopped tm device =
    update_runtime tm device
      (record (tm.runtime (tm.owner device)) { running = false; stopped = true })

unfoldable pub mark_fault : TunerManager → ℕ → TunerManager
mark_fault tm device =
    update_runtime tm device
      (record (tm.runtime (tm.owner device)) { running = false; fault = true })

-- `managedDevice.Start` where the device does not start.
unfoldable pub start_failed : TunerManager → ℕ → TunerManager
unfolding mark_fault release_once
start_failed tm device = release_once (mark_fault tm device) device

abbrev with_users : TunerManager → ℕ → (List TrackedUser → List TrackedUser) → TunerManager
with_users tm i f = record tm {
  runtime = put tm.runtime i (record (tm.runtime i) { users = f (tm.runtime i).users });
}

unfoldable pub add_tuner_user : TunerManager → ℕ → User → TunerManager
unfolding add_user
add_tuner_user tm i user = with_users tm i λ users. add_user users user

unfoldable pub remove_tuner_user : TunerManager → ℕ → String → TunerManager
unfolding remove_user
remove_tuner_user tm i id = with_users tm i λ users. remove_user users id
