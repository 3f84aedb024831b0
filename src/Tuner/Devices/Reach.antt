-- ===== src/Tuner/Devices/Reach.antt =====
-- internal/tuner/manager.go: the states that the tuner manager can reach, a call at a time.
use mahiron.Prelude.{
  ℕ, zero, suc, ◌+◌, ◌%◌, ◌<◌, ◌≡◌, refl, sym, ◌∙◌, subst, String, Bool, true, false, some, some_eq,
  List, ◌==◌, ==→eq, inl, inr, Bool-cases, length, if◌then◌else◌, arith,
}
use mahiron.Prelude.Maps.{put}
use mahiron.Tuner.{
  TunerConfig, Hub, TunerRuntime, User, new_device, no_reservation, reset_reservation,
}
use mahiron.Tuner.Pool.{
  TunerManager, tuner_at, new_tuner_manager, Request, AcquireAttempt, guard, acquire_loop,
  try_acquire,
}
use mahiron.Tuner.Pool.Check.{Guard-cases}
use mahiron.Tuner.Devices.{
  release, release_once, mark_running, mark_stopped, mark_fault, start_failed, add_tuner_user,
  remove_tuner_user, holds_device,
}
use mahiron.Tuner.Devices.Owners.{IsOwned, reserved-IsOwned, told-IsOwned}

-- A device is made by an acquisition, and is started, watched and stopped after that.
pub data Step (tm : TunerManager) : TunerManager → Type 0 where
  acquires : (hub : Hub) (q : Request) → Step tm (try_acquire hub tm q).1
  starts : (d : ℕ) → d < tm.devices → Step tm (mark_running tm d)
  fails : (d : ℕ) → d < tm.devices → Step tm (start_failed tm d)
  faults : (d : ℕ) → d < tm.devices → Step tm (mark_fault tm d)
  ends : (d : ℕ) → d < tm.devices → Step tm (mark_stopped tm d)
  stops : (d : ℕ) → d < tm.devices → Step tm (release_once tm d)
  gains_user : (i : ℕ) (user : User) → Step tm (add_tuner_user tm i user)
  loses_user : (i : ℕ) (id : String) → Step tm (remove_tuner_user tm i id)

pub data Reachable : TunerManager → Type 0 where
  begins : (tuners : List TunerConfig) → Reachable (new_tuner_manager tuners)
  goes_on : (tm tm' : TunerManager) → Reachable tm → Step tm tm' → Reachable tm'

module _ (tm : TunerManager) (o : IsOwned tm) (d : ℕ) (lt : d < tm.devices)
    (left : tm.once d ≡ false) where
  abbrev released : TunerManager
  released = record tm {
    once = put tm.once d true;
    in_use = put tm.in_use (tm.owner d) false;
    runtime = put tm.runtime (tm.owner d) no_reservation;
  }

  released_held :
      (e : ℕ)
      → e < tm.devices
      → released.once e ≡ false
      → (released.runtime (tm.owner e)).device ≡ some e
  released_held e lt' left' = elim (Bool-cases (d == e)) [
    | inl same ↦ let no = rw same at left' in cc
    | inr apart ↦
        let before = o.held e lt' (rw apart at left') in
        elim (Bool-cases (tm.owner d == tm.owner e)) [
          | inl shared ↦
              let there =
                subst (λ k. (tm.runtime k).device ≡ some d) (==→eq (tm.owner d) (tm.owner e) shared)
                  (o.held d lt left) in
              let same : d ≡ e = some_eq d e (sym there ∙ before) in ground (arith, same, apart)
          | inr other ↦ rw other before
        ]
  ]

  released_holder :
      (i e : ℕ)
      → (released.runtime i).device ≡ some e
      → (e < tm.devices) × (released.once e ≡ false) × (tm.owner e ≡ i)
  released_holder i e h = elim (Bool-cases (tm.owner d == i)) [
    | inl here ↦ let no = rw here at h in cc
    | inr other ↦
        let (lt', left', own) = o.holder i e (rw other at h) in
        (
          lt',
          elim (Bool-cases (d == e)) [
            | inl same ↦
                let own' = subst (λ x. tm.owner x ≡ i) (sym (==→eq d e same)) own in
                ground (arith, own', other)
            | inr apart ↦ rw apart left'
          ],
          own,
        )
  ]

  released-IsOwned : IsOwned released
  released-IsOwned = record {
    agree = λ i. ground (arith, o.agree i);
    held = released_held;
    holder = released_holder;
    used = λ i u. elim (Bool-cases (tm.owner d == i)) [
      | inl here ↦ let no = rw here at u in cc
      | inr other ↦ let (e, h) = o.used i (rw other at u) in (e, rw other h)
    ];
    free = λ i f. ground (arith, o.free i);
    unmade = λ e le. ground (arith, o.unmade e le, lt, le);
  }

  owner_in_use : tm.in_use (tm.owner d) ≡ true
  owner_in_use = elim (Bool-cases (tm.in_use (tm.owner d))) [
    | inl taken ↦ taken
    | inr idle ↦ let no = o.free (tm.owner d) idle in let h = o.held d lt left in cc
  ]

release_once-IsOwned :
    (tm : TunerManager) (d : ℕ) → d < tm.devices → IsOwned tm → IsOwned (release_once tm d)
unfolding release_once release reset_reservation
release_once-IsOwned tm d lt o = elim (Bool-cases (tm.once d)) [
  | inl done ↦ rw (done, release_once) o
  | inr left ↦
      rw (left, release_once) (rw (owner_in_use tm o d lt left) (released-IsOwned tm o d lt left))
]

acquire_loop-IsOwned :
    (n : ℕ) (hub : Hub) (tm : TunerManager) (q : Request) (i : ℕ) (a : AcquireAttempt)
    → IsOwned tm
    → IsOwned (acquire_loop n hub tm q i a).1
unfolding acquire_loop
acquire_loop-IsOwned zero hub tm q i a o = o
acquire_loop-IsOwned (suc n) hub tm q i a o =
    let next = (i + 1) % length tm.tuners in
    elim (Guard-cases (guard hub tm q.channel_type i)) [
      | inl e ↦ rw (e, acquire_loop) (acquire_loop-IsOwned n hub tm q next _ o)
      | inr (inl e) ↦ rw (e, acquire_loop) (acquire_loop-IsOwned n hub tm q next _ o)
      | inr (inr (inl e)) ↦ rw (e, acquire_loop) (acquire_loop-IsOwned n hub tm q next _ o)
      | inr (inr (inr e)) ↦ elim (Bool-cases (tm.in_use i)) [
        | inl busy ↦ rw (e, busy, acquire_loop) (acquire_loop-IsOwned n hub tm q next _ o)
        | inr idle ↦ elim (Bool-cases (new_device hub (tuner_at tm i))) [
          | inl made ↦ rw (e, idle, made, acquire_loop) (reserved-IsOwned tm o i q _ idle)
          | inr failed ↦
              rw (e, idle, failed, acquire_loop) (acquire_loop-IsOwned n hub tm q next _ o)
        ]
      ]
    ]

marked-IsOwned :
    (tm : TunerManager) (b : Bool) (i : ℕ) (r : TunerRuntime)
    → r.device ≡ (tm.runtime i).device
    → r.in_use ≡ (tm.runtime i).in_use
    → IsOwned tm
    → IsOwned (if b then record tm { runtime = put tm.runtime i r } else tm)
marked-IsOwned tm true i r e e' o = told-IsOwned tm o i r e e'
marked-IsOwned tm false i r e e' o = o

mark_fault-IsOwned : (tm : TunerManager) (d : ℕ) → IsOwned tm → IsOwned (mark_fault tm d)
unfolding mark_fault
mark_fault-IsOwned tm d o =
    marked-IsOwned tm (holds_device (tm.runtime (tm.owner d)) d) (tm.owner d) _ refl refl o

mark_fault-devices : (tm : TunerManager) (d : ℕ) → (mark_fault tm d).devices ≡ tm.devices
unfolding mark_fault
mark_fault-devices tm d = ground arith

Step-IsOwned : (tm tm' : TunerManager) → Step tm tm' → IsOwned tm → IsOwned tm'
unfolding try_acquire mark_running mark_stopped start_failed add_tuner_user remove_tuner_user
Step-IsOwned tm tm' (acquires hub q) o = acquire_loop-IsOwned (length tm.tuners) hub tm q _ _ o
Step-IsOwned tm tm' (starts d lt) o =
    marked-IsOwned tm (holds_device (tm.runtime (tm.owner d)) d) (tm.owner d) _ refl refl o
Step-IsOwned tm tm' (fails d lt) o =
    release_once-IsOwned (mark_fault tm d) d (omega (arith, lt, mark_fault-devices tm d))
      (mark_fault-IsOwned tm d o)
Step-IsOwned tm tm' (faults d lt) o = mark_fault-IsOwned tm d o
Step-IsOwned tm tm' (ends d lt) o =
    marked-IsOwned tm (holds_device (tm.runtime (tm.owner d)) d) (tm.owner d) _ refl refl o
Step-IsOwned tm tm' (stops d lt) o = release_once-IsOwned tm d lt o
Step-IsOwned tm tm' (gains_user i user) o = told-IsOwned tm o i _ refl refl
Step-IsOwned tm tm' (loses_user i id) o = told-IsOwned tm o i _ refl refl

-- In every reachable state each device that was made and not released holds the tuner it was made
-- for, only such devices hold a tuner, and a tuner is in use exactly if a device holds it. So a device
-- that stops twice, or late, never takes the tuner from the next one.
pub tuner_manager-IsOwned : (tm : TunerManager) → Reachable tm → IsOwned tm
unfolding new_tuner_manager
tuner_manager-IsOwned tm (begins tuners) = record {
  agree = λ i. refl;
  held = λ d lt left. absurd (omega (arith, lt));
  holder = λ i d e. cc;
  used = λ i u. cc;
  free = λ i f. refl;
  unmade = λ d le. refl;
}
tuner_manager-IsOwned tm' (goes_on tm _ before step) =
    Step-IsOwned tm tm' step (tuner_manager-IsOwned tm before)
