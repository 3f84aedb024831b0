-- ===== src/Tuner/Pool/Check.antt =====
-- `CheckAvailable` of internal/tuner/manager.go says beforehand what an acquisition would find.
use native.Mathlib.Nat.{mod-eq_of_lt, mod_self, mod-lt}
use mahiron.Prelude.{
  ℕ, zero, suc, ◌+◌, ◌-◌, ◌%◌, ◌≤◌, ◌<◌, ◌≡◌, ◌⊎◌, refl, sym, ap, ◌∙◌, Bool, true, false, ◌&&◌,
  ◌||◌, Option, none, some, length, inl, inr, Bool-cases, if◌then◌else◌, arith,
}
use mahiron.Tuner.{TunerConfig, Hub, source_kind, usable, available, new_device}
use mahiron.Tuner.Pool.{
  TunerManager, tuner_at, GrabCandidate, better_grab_candidate, Request, AcquireAttempt,
  nothing_found, seen, Guard, passes, unusable, blocked, ready, guard, acquire_loop, try_acquire,
  TunerError, error_of, obtainable, check_loop, check_available,
}

-- `NewDevice` returns a device for every tuner that is usable and available.
new_device_of_available :
    (hub : Hub) (t : TunerConfig)
    → usable t ≡ true
    → available hub t ≡ true
    → new_device hub t ≡ true
unfolding usable available new_device source_kind
new_device_of_available none t u a = ground (arith, u, a)
new_device_of_available (some h) t u a = ground (arith, u, a)

-- Some index of `n` from `i` on, and the same where `len` is followed by 0.
abbrev pub any_from : ℕ → ℕ → (ℕ → Bool) → Bool
any_from zero i p = false
any_from (suc n) i p = p i || any_from n (i + 1) p

abbrev pub any_around : ℕ → ℕ → ℕ → (ℕ → Bool) → Bool
any_around len zero i p = false
any_around len (suc n) i p = p i || any_around len n ((i + 1) % len) p

any_from_eq : (n m i j : ℕ) (p : ℕ → Bool) → n ≡ m → i ≡ j → any_from n i p ≡ any_from m j p
any_from_eq n m i j p e e' = ap (λ x. any_from x i p) e ∙ ap (λ (x : ℕ). any_from m x p) e'

any_from-split :
    (a b n i j : ℕ) (p : ℕ → Bool)
    → n ≡ a + b
    → j ≡ i + a
    → any_from n i p ≡ (any_from a i p || any_from b j p)
any_from-split zero b n i j p e e' = any_from_eq n b i j p (omega (arith, e)) (omega (arith, e'))
any_from-split (suc a) b zero i j p e e' = absurd (omega (arith, e))
any_from-split (suc a) b (suc n) i j p e e' =
    ground (arith, any_from-split a b n (i + 1) j p (omega (arith, e)) (omega (arith, e')))

around_within : (len n i : ℕ) (p : ℕ → Bool) → i + n ≤ len → any_around len n i p ≡ any_from n i p
around_within len zero i p le = refl
around_within len (suc zero) i p le = refl
around_within len (suc (suc n)) i p le =
    let next : (i + 1) % len ≡ i + 1 = mod-eq_of_lt (omega (arith, le)) in
    rw next (ap (λ b. p i || b) (around_within len (suc n) (i + 1) p (omega (arith, le))))

around_wraps :
    (len a b n i : ℕ) (p : ℕ → Bool)
    → i + suc a ≡ len
    → n ≡ suc a + b
    → any_around len n i p ≡ (any_from (suc a) i p || any_around len b 0 p)
around_wraps len a b zero i p e e' = absurd (omega (arith, e'))
around_wraps len zero b (suc n) i p e e' =
    let next : (i + 1) % len ≡ 0 = ap (λ (j : ℕ). j % len) (omega (arith, e)) ∙ mod_self len in
    let same : n ≡ b = omega (arith, e') in rw (next, same) (ground arith)
around_wraps len (suc a) b (suc n) i p e e' =
    let next : (i + 1) % len ≡ i + 1 = mod-eq_of_lt (omega (arith, e)) in
    let rest = around_wraps len a b n (i + 1) p (omega (arith, e)) (omega (arith, e')) in
    rw next (ground (arith, rest))

-- Once around meets every index.
around_all : (len i : ℕ) (p : ℕ → Bool) → i < len → any_around len len i p ≡ any_from len 0 p
around_all len i p lt =
    let there : len ≡ suc (len - i - 1) + i = omega (arith, lt) in
    let wraps = around_wraps len (len - i - 1) i len i p (omega (arith, lt)) there in
    let low = around_within len i 0 p (omega (arith, lt)) in
    let all = any_from-split i (suc (len - i - 1)) len 0 i p (omega (arith, lt)) (omega arith) in
    ground (arith, wraps, low, all)

pub around_any :
    (len i : ℕ) (p : ℕ → Bool) → (0 < len → i < len) → any_around len len i p ≡ any_from len 0 p
around_any zero i p inside = refl
around_any (suc len) i p inside = around_all (suc len) i p (inside (omega arith))

-- What a caller of `AcquireDevice` that does not wait would be told.
abbrev pub verdict : Bool → Bool → Bool → Option TunerError
verdict given found works = if given then none else error_of found works

abbrev is_some {ℓ} : {A : Type ℓ} → Option A → Bool
is_some none = false
is_some (some _) = true

-- What an attempt tells its caller.
abbrev pub answer : AcquireAttempt → Option TunerError
answer a = verdict (is_some a.device || is_some a.grab) a.found a.usable

pub Guard-cases : (g : Guard) → (g ≡ passes) ⊎ ((g ≡ unusable) ⊎ ((g ≡ blocked) ⊎ (g ≡ ready)))
Guard-cases passes = inl refl
Guard-cases unusable = inr (inl refl)
Guard-cases blocked = inr (inr (inl refl))
Guard-cases ready = inr (inr (inr refl))

abbrev is_offered : Guard → Bool
is_offered passes = false
is_offered _ = true

abbrev is_working : Guard → Bool
is_working passes = false
is_working unusable = false
is_working _ = true

abbrev pub is_open : Guard → Bool
is_open ready = true
is_open _ = false

module _ (hub : Hub) (tm : TunerManager) (q : Request) where
  abbrev offers : ℕ → Bool
  offers i = is_offered (guard hub tm q.channel_type i)

  abbrev works : ℕ → Bool
  works i = is_working (guard hub tm q.channel_type i)

  abbrev gives : ℕ → Bool
  gives i = is_open (guard hub tm q.channel_type i) && obtainable tm i q.priority

  check_loop_lem :
      (n i : ℕ) (found working : Bool)
      → check_loop n hub tm q.channel_type q.priority i found working
        ≡ verdict
            (any_from n i gives)
            (found || any_from n i offers)
            (working || any_from n i works)
  unfolding check_loop
  check_loop_lem zero i found working = ground arith
  check_loop_lem (suc n) i found working = elim (Guard-cases (guard hub tm q.channel_type i)) [
    | inl e ↦ rw (e, check_loop) (check_loop_lem n (i + 1) found working)
    | inr (inl e) ↦ rw (e, check_loop) (ground (arith, check_loop_lem n (i + 1) true working))
    | inr (inr (inl e)) ↦ rw (e, check_loop) (ground (arith, check_loop_lem n (i + 1) true true))
    | inr (inr (inr e)) ↦ rw (e, check_loop) (ground (arith, check_loop_lem n (i + 1) true true))
  ]

  pub ready_makes_device :
      (i : ℕ) → guard hub tm q.channel_type i ≡ ready → new_device hub (tuner_at tm i) ≡ true
  unfolding guard
  ready_makes_device i e =
      new_device_of_available hub (tuner_at tm i) (ground (arith, e)) (ground (arith, e))

  better_grab_given :
      (g : Option GrabCandidate) (i : ℕ)
      → tm.in_use i ≡ true
      → is_some (better_grab_candidate g (tm.runtime i) q.priority)
        ≡ (is_some g || obtainable tm i q.priority)
  unfolding better_grab_candidate
  better_grab_given none i busy = ground arith
  better_grab_given (some g) i busy = ground arith

  acquire_loop_lem :
      (n i : ℕ) (a : AcquireAttempt)
      → a.device ≡ none
      → answer (acquire_loop n hub tm q i a).0
        ≡ verdict
            (is_some a.grab || any_around (length tm.tuners) n i gives)
            (a.found || any_around (length tm.tuners) n i offers)
            (a.usable || any_around (length tm.tuners) n i works)
  unfolding acquire_loop
  acquire_loop_lem zero i a none_yet = ground (arith, none_yet)
  acquire_loop_lem (suc n) i a none_yet =
      let next = (i + 1) % length tm.tuners in
      elim (Guard-cases (guard hub tm q.channel_type i)) [
        | inl e ↦ rw (e, acquire_loop) (acquire_loop_lem n next a none_yet)
        | inr (inl e) ↦
            rw (e, acquire_loop)
              (ground (arith, acquire_loop_lem n next (record a { found = true }) none_yet))
        | inr (inr (inl e)) ↦
            rw (e, acquire_loop) (ground (arith, acquire_loop_lem n next (seen a) none_yet))
        | inr (inr (inr e)) ↦ elim (Bool-cases (tm.in_use i)) [
          | inl busy ↦
              let g = better_grab_candidate a.grab (tm.runtime i) q.priority in
              rw (e, busy, acquire_loop)
                (ground (
                  arith,
                  acquire_loop_lem n next (record (seen a) { grab = g }) none_yet,
                  better_grab_given a.grab i busy,
                  busy,
                ))
          | inr free ↦ rw (e, free, ready_makes_device i e, acquire_loop) (ground (arith, free))
        ]
      ]

  -- `check_available` answers with no error exactly if an acquisition of that moment would get a
  -- device, or would find one to take over; otherwise with the error that the acquisition would give.
  pub check_available_lem :
      check_available hub tm q.channel_type q.priority ≡ answer (try_acquire hub tm q).0
  unfolding check_available try_acquire
  check_available_lem =
      let len = length tm.tuners in
      let start = tm.next_by_type q.channel_type % len in
      let inside : 0 < len → start < len = λ lt. mod-lt (tm.next_by_type q.channel_type) lt in
      let all = λ (p : ℕ → Bool). around_any len start p inside in
      check_loop_lem len 0 false false
      ∙ sym (
          acquire_loop_lem len start nothing_found refl
          ∙ ap (λ b. verdict b (any_around len len start offers) (any_around len len start works))
              (all gives)
          ∙ ap (λ b. verdict (any_from len 0 gives) b (any_around len len start works)) (all offers)
          ∙ ap (λ b. verdict (any_from len 0 gives) (any_from len 0 offers) b) (all works))
