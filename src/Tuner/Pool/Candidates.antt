-- ===== src/Tuner/Pool/Candidates.antt =====
-- internal/tuner/manager.go: the candidate that an acquisition would take over.
use mahiron.Prelude.{
  ℕ, ◌<◌, ◌≡◌, ◌⊎◌, refl, sym, ap, ◌∙◌, Bool, true, false, not, ◌&&◌, ◌||◌, Option, none, some,
  some_eq, length, inl, inr, Bool-cases, Option-cases, arith,
}
use mahiron.Prelude.Int.{ltb_ℤ, ltb_ℤ_trans, ltb_ℤ_of_le, ltb_ℤ_irrefl, ltb_ℤ_le_trans}
use mahiron.Tuner.{Hub, TunerRuntime, effective_priority}
use mahiron.Tuner.Pool.{TunerManager, GrabCandidate, stays, better_grab_candidate, Request, guard}
use mahiron.Tuner.Pool.Check.{is_open}

-- A candidate that comes later is kept only if it is as cheap.
abbrev pub no_worse : Option GrabCandidate → Option GrabCandidate → Bool
no_worse none r = true
no_worse (some g) none = false
no_worse (some g) (some r) = not (ltb_ℤ g.priority r.priority)

pub no_worse_trans :
    (a b c : Option GrabCandidate) → no_worse a b ≡ true → no_worse b c ≡ true → no_worse a c ≡ true
no_worse_trans none b c h k = refl
no_worse_trans (some a) none c h k = cc
no_worse_trans (some a) (some b) none h k = cc
no_worse_trans (some a) (some b) (some c) h k =
    ground (arith, ltb_ℤ_of_le a.priority b.priority c.priority, h, k)

pub no_worse_refl : (g : Option GrabCandidate) → no_worse g g ≡ true
no_worse_refl none = refl
no_worse_refl (some g) = ground (arith, ltb_ℤ_irrefl g.priority)

module _ (hub : Hub) (tm : TunerManager) (q : Request) where
  abbrev has_device : TunerRuntime → Bool
  has_device r = elim r.device [ none ↦ false | some _ ↦ true ]

  -- A tuner in use whose users all come after the request.
  abbrev pub can_grab : ℕ → Bool
  can_grab k =
      is_open (guard hub tm q.channel_type k)
      && tm.in_use k
      && has_device (tm.runtime k)
      && ltb_ℤ (effective_priority (tm.runtime k)) q.priority

  -- It would be taken over before the candidate.
  abbrev pub beats : Option GrabCandidate → ℕ → Bool
  beats none k = can_grab k
  beats (some g) k = can_grab k && ltb_ℤ (effective_priority (tm.runtime k)) g.priority

  -- A candidate that is no worse than one that is not beaten is not beaten.
  pub unbeaten :
      (b c : Option GrabCandidate) (k : ℕ)
      → beats b k ≡ false
      → no_worse b c ≡ true
      → beats c k ≡ false
  unbeaten none none k h n = h
  unbeaten none (some c) k h n = ground (arith, h)
  unbeaten (some b) none k h n = cc
  unbeaten (some b) (some c) k h n =
      ground (arith, h, n, ltb_ℤ_le_trans (effective_priority (tm.runtime k)) c.priority b.priority)

  pub better-no_worse :
      (g : Option GrabCandidate) (k : ℕ)
      → is_open (guard hub tm q.channel_type k) ≡ true
      → tm.in_use k ≡ true
      → let g' = better_grab_candidate g (tm.runtime k) q.priority in
        (no_worse g g' ≡ true) × (beats g' k ≡ false)
  unfolding better_grab_candidate
  better-no_worse none k ready_k busy =
      ground (arith, ltb_ℤ_irrefl (effective_priority (tm.runtime k)))
  better-no_worse (some g) k ready_k busy =
      let eff = effective_priority (tm.runtime k) in
      ground
        (arith, ltb_ℤ_irrefl eff, ltb_ℤ_irrefl g.priority, ltb_ℤ_trans g.priority eff g.priority)

  -- A candidate is a tuner that may be taken over, at its own priority.
  abbrev pub IsCandidate : GrabCandidate → Type 0
  IsCandidate g =
      (k : ℕ) × (k < length tm.tuners)
      × (can_grab k ≡ true)
      × ((tm.runtime k).device ≡ some g.device)
      × (g.priority ≡ effective_priority (tm.runtime k))

  abbrev pub Origin : Option GrabCandidate → Option GrabCandidate → Type 0
  Origin g r = (x : GrabCandidate) → r ≡ some x → (g ≡ some x) ⊎ IsCandidate x

  pub Origin-trans : (a b c : Option GrabCandidate) → Origin a b → Origin b c → Origin a c
  Origin-trans a b c o o' x e = elim (o' x e) [ inl e' ↦ o x e' | inr found ↦ inr found ]

  pub better-Origin :
      (g : Option GrabCandidate) (k : ℕ)
      → k < length tm.tuners
      → is_open (guard hub tm q.channel_type k) ≡ true
      → tm.in_use k ≡ true
      → Origin g (better_grab_candidate g (tm.runtime k) q.priority)
  unfolding better_grab_candidate
  better-Origin g k lt ready_k busy x e =
      let eff = effective_priority (tm.runtime k) in
      elim (Option-cases (tm.runtime k).device) [
        | inl nobody ↦ inl (rw (nobody, better_grab_candidate) at e)
        | inr (d, held) ↦ elim (Bool-cases (not (ltb_ℤ eff q.priority) || stays g eff)) [
          | inl kept ↦ inl (rw (held, kept, better_grab_candidate) at e)
          | inr better ↦
              let same =
                some_eq (record { device = d; priority = eff }) x
                  (rw (held, better, better_grab_candidate) at e) in
              inr (
                k,
                lt,
                ground (arith, ready_k, busy, held, better),
                held ∙ ap (λ (y : GrabCandidate). some y.device) same,
                sym (ap (λ (y : GrabCandidate). y.priority) same),
              )
        ]
      ]
