-- ===== src/Tuner/Pool.antt =====
-- internal/tuner/manager.go: reserving a tuner, and what becomes of a reservation.
use mahiron.Prelude.{
  ℕ, zero, suc, ◌+◌, ◌%◌, String, Bool, true, false, not, ◌&&◌, ◌||◌, Option, none, some, List, [],
  ◌∷◌, ◌==◌, length, get_or, ltb, if◌then◌else◌,
}
use mahiron.Prelude.Int.{ℤ, ltb_ℤ}
use mahiron.Prelude.Maps.{put, put_str}
use mahiron.Tuner.{
  TunerConfig, Hub, usable, available, new_device, serves, ChannelConfig, TunerRuntime,
  effective_priority, no_reservation, DecoderCommands, decoder_commands,
}
pub mod Check
pub mod Candidates
pub mod Grab

-- A tuner stands for the pointer, which is its index. `devices` counts the devices made, `owner` is
-- the tuner of a device, and `once` holds those that were released.
pub record TunerManager : Type 0 where
  pub tuners : List TunerConfig
  pub in_use : ℕ → Bool
  pub runtime : ℕ → TunerRuntime
  pub next_by_type : String → ℕ
  pub devices : ℕ
  pub owner : ℕ → ℕ
  pub once : ℕ → Bool

abbrev no_tuner : TunerConfig
no_tuner = record {
  name = "";
  types = [];
  is_disabled = true;
  agent = none;
  dvb_device_path = "";
  command = "";
  decoder = "";
  b61_decoder = "";
}

-- The index is in range wherever this is used.
abbrev pub tuner_at : TunerManager → ℕ → TunerConfig
tuner_at tm i = get_or tm.tuners i no_tuner

unfoldable pub new_tuner_manager : List TunerConfig → TunerManager
new_tuner_manager tuners = record {
  tuners = tuners;
  in_use = λ _. false;
  runtime = λ _. no_reservation;
  next_by_type = λ _. 0;
  devices = 0;
  owner = λ _. 0;
  once = λ _. false;
}

-- `device` is the tuner's; `none` for the zero value.
pub record GrabCandidate : Type 0 where
  pub device : ℕ
  pub priority : ℤ

-- `current.device != nil && current.priority <= effectivePriority`
abbrev pub stays : Option GrabCandidate → ℤ → Bool
stays none priority = false
stays (some g) priority = not (ltb_ℤ priority g.priority)

unfoldable pub better_grab_candidate :
    Option GrabCandidate → TunerRuntime → ℤ → Option GrabCandidate
better_grab_candidate current r request = elim r.device [
  | none ↦ current
  | some device ↦
      if not (ltb_ℤ (effective_priority r) request) || stays current (effective_priority r)
      then current
      else some (record { device = device; priority = effective_priority r })
]

pub record Request : Type 0 where
  pub channel_type : String
  pub priority : ℤ
  pub requested : Option ChannelConfig
  pub tuned : Option ChannelConfig

-- The state that `reserveLocked` leaves where `NewDevice` returns a device.
unfoldable pub reserve : TunerManager → ℕ → Request → TunerManager
reserve tm i q = record tm {
  in_use = put tm.in_use i true;
  runtime = put tm.runtime i (record (tm.runtime i) {
    in_use = true;
    running = false;
    stopped = false;
    reservation_priority = q.priority;
    requested = q.requested;
    tuned = q.tuned;
    device = some tm.devices;
  });
  devices = tm.devices + 1;
  owner = put tm.owner tm.devices i;
}

-- `acquireAttempt`, without what is only shown.
pub record AcquireAttempt : Type 0 where
  pub device : Option ℕ
  pub decoders : DecoderCommands
  pub found : Bool
  pub usable : Bool
  pub grab : Option GrabCandidate

abbrev pub nothing_found : AcquireAttempt
nothing_found = record {
  device = none;
  decoders = decoder_commands no_tuner;
  found = false;
  usable = false;
  grab = none;
}

-- How far a tuner gets in the tests that `tryAcquireLocked` and `CheckAvailable` begin with.
pub data Guard : Type 0 where
  passes unusable blocked ready : Guard

unfoldable pub guard : Hub → TunerManager → String → ℕ → Guard
guard hub tm channel_type i =
    let t = tuner_at tm i in
    if not (serves channel_type t)
    then passes
    else if not (usable t)
    then unusable
    else if (tm.runtime i).fault || not (available hub t)
    then blocked
    else ready

abbrev pub seen : AcquireAttempt → AcquireAttempt
seen a = record a { found = true; usable = true }

-- The loop of `tryAcquireLocked`, over `n` offsets, from an index on.
unfoldable pub acquire_loop :
    ℕ → Hub → TunerManager → Request → ℕ → AcquireAttempt → AcquireAttempt × TunerManager
acquire_loop zero hub tm q i a = (a, tm)
acquire_loop (suc n) hub tm q i a =
    let next = (i + 1) % length tm.tuners in
    let on = acquire_loop n hub tm q next in
    elim (guard hub tm q.channel_type i) [
      | passes ↦ on a
      | unusable ↦ on (record a { found = true })
      | blocked ↦ on (seen a)
      | ready ↦
          if tm.in_use i
          then on
              (record (seen a) { grab = better_grab_candidate a.grab (tm.runtime i) q.priority })
          else if new_device hub (tuner_at tm i)
          then (
            record (seen a) {
              device = some tm.devices;
              decoders = decoder_commands (tuner_at tm i);
            },
            record (reserve tm i q) { next_by_type = put_str tm.next_by_type q.channel_type next },
          )
          else on (seen a)
    ]

unfoldable pub try_acquire : Hub → TunerManager → Request → AcquireAttempt × TunerManager
unfolding acquire_loop
try_acquire hub tm q =
    acquire_loop (length tm.tuners) hub tm q (tm.next_by_type q.channel_type % length tm.tuners)
      nothing_found

-- The error of `CheckAvailable`, if any.
pub data TunerError : Type 0 where
  tuner_not_found unsupported_tuner tuner_unavailable : TunerError

abbrev pub error_of : Bool → Bool → Option TunerError
error_of found usable =
    if not found
    then some tuner_not_found
    else if not usable
    then some unsupported_tuner
    else some tuner_unavailable

-- `!tm.inUse[item] || runtime.device != nil && requestPriority > runtime.effectivePriority()`
abbrev pub obtainable : TunerManager → ℕ → ℤ → Bool
obtainable tm i priority = not (tm.in_use i) || elim (tm.runtime i).device [
  | none ↦ false
  | some _ ↦ ltb_ℤ (effective_priority (tm.runtime i)) priority
]

-- The loop of `CheckAvailable`, over `n` tuners from an index on.
unfoldable pub check_loop :
    ℕ → Hub → TunerManager → String → ℤ → ℕ → Bool → Bool → Option TunerError
check_loop zero hub tm channel_type priority i found is_usable = error_of found is_usable
check_loop (suc n) hub tm channel_type priority i found is_usable =
    let on = check_loop n hub tm channel_type priority (i + 1) in
    elim (guard hub tm channel_type i) [
      | passes ↦ on found is_usable
      | unusable ↦ on true is_usable
      | blocked ↦ on true true
      | ready ↦ if obtainable tm i priority then none else on true true
    ]

unfoldable pub check_available : Hub → TunerManager → String → ℤ → Option TunerError
unfolding check_loop
check_available hub tm channel_type priority =
    check_loop (length tm.tuners) hub tm channel_type priority 0 false false
