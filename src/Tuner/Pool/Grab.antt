-- ===== src/Tuner/Pool/Grab.antt =====
-- `tryAcquireLocked` of internal/tuner/manager.go: which tuner is taken, and which one is taken over.
use native.Mathlib.Nat.{mod-lt}
use mahiron.Prelude.{
  ℕ, zero, suc, ◌+◌, ◌%◌, ◌<◌, ◌≤◌, ◌==◌, ==→eq, ◌≡◌, ◌⊎◌, refl, sym, ap, ◌∙◌, subst, Bool, true,
  false, not, ◌&&◌, Option, none, some, length, inl, inr, Bool-cases, arith,
}
use mahiron.Prelude.Maps.{put_str}
use mahiron.Tuner.{Hub}
use mahiron.Tuner.Pool.{
  TunerManager, GrabCandidate, better_grab_candidate, Request, AcquireAttempt, nothing_found, seen,
  ready, guard, reserve, acquire_loop, try_acquire,
}
use mahiron.Tuner.Pool.Check.{
  Guard-cases, any_around, any_from, around_any, is_open, ready_makes_device,
}
use mahiron.Tuner.Pool.Candidates.{
  no_worse, no_worse_trans, no_worse_refl, beats, unbeaten, better-no_worse, IsCandidate, Origin,
  Origin-trans, better-Origin,
}

any_from-false :
    (n i k : ℕ) (p : ℕ → Bool) → any_from n i p ≡ false → i ≤ k → k < i + n → p k ≡ false
any_from-false zero i k p h lo hi = absurd (omega (arith, lo, hi))
any_from-false (suc n) i k p h lo hi = elim (Bool-cases (i == k)) [
  | inl same ↦ subst (λ x. p x ≡ false) (==→eq i k same) (ground (arith, h))
  | inr other ↦
      any_from-false n (i + 1) k p (ground (arith, h)) (ground (arith, lo, other))
        (omega (arith, hi))
]

module _ (hub : Hub) (tm : TunerManager) (q : Request) where
  -- What an attempt has found without a device, after `n` tuners from an index on.
  record Searched (n i : ℕ) (g : Option GrabCandidate) (r : AcquireAttempt × TunerManager)
      : Type 0 where
    unchanged : r.1 ≡ tm
    no_device : r.0.device ≡ none
    none_idle :
        any_around
          (length tm.tuners)
          n
          i
          (λ k. is_open (guard hub tm q.channel_type k) && not (tm.in_use k))
        ≡ false
    improved : no_worse g r.0.grab ≡ true
    origin : Origin hub tm q g r.0.grab
    unbeaten_all : any_around (length tm.tuners) n i (beats hub tm q r.0.grab) ≡ false

  pub record Taken (r : AcquireAttempt × TunerManager) (k : ℕ) : Type 0 where
    pub inside : k < length tm.tuners
    pub is_ready : guard hub tm q.channel_type k ≡ ready
    pub was_idle : tm.in_use k ≡ false
    pub device : r.0.device ≡ some tm.devices
    pub state : r.1 ≡ record (reserve tm k q) {
      next_by_type = put_str tm.next_by_type q.channel_type ((k + 1) % length tm.tuners);
    }

  -- A tuner that is passed over.
  Searched-on :
      (n i : ℕ) (g g' : Option GrabCandidate) (r : AcquireAttempt × TunerManager)
      → (is_open (guard hub tm q.channel_type i) && not (tm.in_use i)) ≡ false
      → no_worse g g' ≡ true
      → Origin hub tm q g g'
      → beats hub tm q g' i ≡ false
      → Searched n ((i + 1) % length tm.tuners) g' r
      → Searched (suc n) i g r
  Searched-on n i g g' r taken better from here s = record {
    unchanged = s.unchanged;
    no_device = s.no_device;
    none_idle = ground (arith, taken, s.none_idle);
    improved = no_worse_trans g g' r.0.grab better s.improved;
    origin = Origin-trans hub tm q g g' r.0.grab from s.origin;
    unbeaten_all = ground (arith, unbeaten hub tm q g' r.0.grab i here s.improved, s.unbeaten_all);
  }

  closed-beats :
      (g : Option GrabCandidate) (k : ℕ)
      → is_open (guard hub tm q.channel_type k) ≡ false
      → beats hub tm q g k ≡ false
  closed-beats none k closed = ground (arith, closed)
  closed-beats (some g) k closed = ground (arith, closed)

  abbrev Result : ℕ → ℕ → Option GrabCandidate → AcquireAttempt × TunerManager → Type 0
  Result n i g r = ((k : ℕ) × Taken r k) ⊎ Searched n i g r

  Result-on :
      (n i : ℕ) (g g' : Option GrabCandidate) (r : AcquireAttempt × TunerManager)
      → (is_open (guard hub tm q.channel_type i) && not (tm.in_use i)) ≡ false
      → no_worse g g' ≡ true
      → Origin hub tm q g g'
      → beats hub tm q g' i ≡ false
      → Result n ((i + 1) % length tm.tuners) g' r
      → Result (suc n) i g r
  Result-on n i g g' r taken better from here (inl t) = inl t
  Result-on n i g g' r taken better from here (inr s) =
      inr (Searched-on n i g g' r taken better from here s)

  Result-closed :
      (n i : ℕ) (g : Option GrabCandidate) (r : AcquireAttempt × TunerManager)
      → is_open (guard hub tm q.channel_type i) ≡ false
      → Result n ((i + 1) % length tm.tuners) g r
      → Result (suc n) i g r
  Result-closed n i g r closed =
      Result-on n i g g r (ground (arith, closed)) (no_worse_refl g) (λ x e. inl e)
        (closed-beats g i closed)

  search :
      (n i : ℕ) (a : AcquireAttempt)
      → a.device ≡ none
      → i < length tm.tuners
      → Result n i a.grab (acquire_loop n hub tm q i a)
  unfolding acquire_loop
  search zero i a none_yet lt = inr (record {
    unchanged = refl;
    no_device = none_yet;
    none_idle = refl;
    improved = no_worse_refl a.grab;
    origin = λ x e. inl e;
    unbeaten_all = refl;
  })
  search (suc n) i a none_yet lt =
      let next = (i + 1) % length tm.tuners in
      let inside : next < length tm.tuners = mod-lt (i + 1) (omega (arith, lt)) in
      elim (Guard-cases (guard hub tm q.channel_type i)) [
        | inl e ↦
            rw (e, acquire_loop)
              (Result-closed n i a.grab _ (ap is_open e) (search n next a none_yet inside))
        | inr (inl e) ↦
            rw (e, acquire_loop)
              (Result-closed n i a.grab _ (ap is_open e)
                (search n next (record a { found = true }) none_yet inside))
        | inr (inr (inl e)) ↦
            rw (e, acquire_loop)
              (Result-closed n i a.grab _ (ap is_open e) (search n next (seen a) none_yet inside))
        | inr (inr (inr e)) ↦ elim (Bool-cases (tm.in_use i)) [
          | inl busy ↦
              let g = better_grab_candidate a.grab (tm.runtime i) q.priority in
              let (better, here) = better-no_worse hub tm q a.grab i (ap is_open e) busy in
              rw (e, busy, acquire_loop)
                (Result-on n i a.grab g _ (ground (arith, busy)) better
                  (better-Origin hub tm q a.grab i lt (ap is_open e) busy) here
                  (search n next (record (seen a) { grab = g }) none_yet inside))
          | inr idle ↦
              rw (e, idle, ready_makes_device hub tm q i e, acquire_loop)
                (inl (
                  i,
                  record {
                    inside = lt;
                    is_ready = e;
                    was_idle = idle;
                    device = refl;
                    state = refl;
                  },
                ))
        ]
      ]

  -- What `tryAcquireLocked` leaves where no tuner was idle.
  pub record Busy (r : AcquireAttempt × TunerManager) : Type 0 where
    pub unchanged : r.1 ≡ tm
    pub no_device : r.0.device ≡ none
    pub none_idle :
        (k : ℕ) → k < length tm.tuners → guard hub tm q.channel_type k ≡ ready → tm.in_use k ≡ true
    pub candidate : (g : GrabCandidate) → r.0.grab ≡ some g → IsCandidate hub tm q g
    pub unbeaten_all : (k : ℕ) → k < length tm.tuners → beats hub tm q r.0.grab k ≡ false

  -- Where there is a tuner, an acquisition takes an idle one that is ready, and changes nothing but
  -- its reservation and whose turn is next; or all that are ready are in use, nothing changes, and no
  -- tuner that may be taken over, since its users all come after the request, is cheaper than the
  -- candidate, which is one of those itself.
  pub try_acquire_lem :
      0 < length tm.tuners
      → ((k : ℕ) × Taken (try_acquire hub tm q) k) ⊎ Busy (try_acquire hub tm q)
  unfolding try_acquire
  try_acquire_lem some_tuner =
      let len = length tm.tuners in
      let start = tm.next_by_type q.channel_type % len in
      let inside : start < len = mod-lt (tm.next_by_type q.channel_type) some_tuner in
      elim (search len start nothing_found refl inside) [
        | inl taken ↦ inl taken
        | inr s ↦ inr (record {
          unchanged = s.unchanged;
          no_device = s.no_device;
          none_idle = λ k lt e. ground (
            arith,
            ap is_open e,
            any_from-false len 0 k
                (λ j. is_open (guard hub tm q.channel_type j) && not (tm.in_use j))
                (sym (around_any len start _ (λ _. inside)) ∙ s.none_idle) (omega arith)
                (omega arith),
          );
          candidate = λ g e. elim (s.origin g e) [ inl nothing ↦ cc | inr found ↦ found ];
          unbeaten_all = λ k lt.
              any_from-false len 0 k (beats hub tm q (try_acquire hub tm q).0.grab)
                (sym (around_any len start _ (λ _. inside)) ∙ s.unbeaten_all) (omega arith)
                (omega arith);
        })
      ]
