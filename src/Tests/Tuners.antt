-- ===== src/Tests/Tuners.antt =====
-- internal/tuner/manager.go, run.
use mahiron.Prelude.{◌⊎◌, ℕ, ◌≡◌, refl, String, false, none, some, [], ◌∷◌, arith}
use mahiron.Prelude.Int.{pos}
use mahiron.Tuner.{TunerConfig, usable, available, new_device, effective_priority}
use mahiron.Tuner.Pool.{
  TunerManager, new_tuner_manager, Request, try_acquire, check_available, better_grab_candidate,
  guard, reserve,
}
use mahiron.Tuner.Pool.Check.{answer, check_available_lem}
use mahiron.Tuner.Pool.Grab.{Taken, Busy, try_acquire_lem}
use mahiron.Tuner.Devices.{release_once}
use mahiron.Tuner.Devices.Owners.{IsOwned}
use mahiron.Tuner.Devices.Reach.{Reachable, begins, goes_on, acquires, stops, tuner_manager-IsOwned}

abbrev tuner : String → TunerConfig
tuner name = record {
  name = name;
  types = "GR" ∷ "BS" ∷ [];
  is_disabled = false;
  agent = none;
  dvb_device_path = "";
  command = "recpt1 <channel>";
  decoder = "";
  b61_decoder = "";
}

abbrev two_tuners : TunerManager
two_tuners = new_tuner_manager (tuner "PT3-1" ∷ tuner "PT3-2" ∷ [])

abbrev request : ℕ → Request
request priority = record {
  channel_type = "GR";
  priority = pos priority;
  requested = none;
  tuned = none;
}

abbrev one_taken : TunerManager
one_taken = (try_acquire none two_tuners (request 1)).1

abbrev both_taken : TunerManager
both_taken = (try_acquire none one_taken (request 3)).1

-- The second one is taken in turn, and then the one with the lower priority would be taken over.
in_turn :
    (both_taken.owner 0 ≡ 0)
    × (both_taken.owner 1 ≡ 1)
    × ((try_acquire none both_taken (request 5)).0.grab
        ≡ some (record { device = 0; priority = pos 1 }))
unfolding try_acquire new_tuner_manager guard usable available new_device reserve
    better_grab_candidate effective_priority
in_turn = (refl, refl, refl)

check_available_lem_example :
    check_available none both_taken "GR" (pos 5)
    ≡ answer (try_acquire none both_taken (request 5)).0
check_available_lem_example = check_available_lem none both_taken (request 5)

stopped_once-Reachable : Reachable (release_once one_taken 0)
unfolding try_acquire new_tuner_manager guard usable available new_device reserve
stopped_once-Reachable =
    goes_on one_taken (release_once one_taken 0)
      (goes_on two_tuners one_taken (begins (tuner "PT3-1" ∷ tuner "PT3-2" ∷ []))
        (acquires none (request 1)))
      (stops 0 (omega arith))

tuner_manager-IsOwned_example : IsOwned (release_once one_taken 0)
tuner_manager-IsOwned_example =
    tuner_manager-IsOwned (release_once one_taken 0) stopped_once-Reachable

try_acquire_lem_example :
    ((k : ℕ) × Taken none both_taken (request 5) (try_acquire none both_taken (request 5)) k)
    ⊎ Busy none both_taken (request 5) (try_acquire none both_taken (request 5))
unfolding try_acquire new_tuner_manager guard usable available new_device reserve
try_acquire_lem_example = try_acquire_lem none both_taken (request 5) (omega arith)
