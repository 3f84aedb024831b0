-- ===== src/Tuner/Devices/Owners.antt =====
-- internal/tuner/manager.go: which device holds which tuner, over every sequence of calls.
use mahiron.Prelude.{
  ℕ, ◌+◌, ◌≤◌, ◌<◌, ◌≡◌, sym, ap, ◌∙◌, subst, String, true, false, none, some, some_eq, ◌==◌, ==→eq,
  ==_refl, inl, inr, Bool-cases, arith,
}
use mahiron.Prelude.Maps.{put, put_self}
use mahiron.Tuner.{TunerRuntime}
use mahiron.Tuner.Pool.{TunerManager, Request, reserve}

-- A device that was made holds its tuner until it is released, and no longer; a tuner is in use just
-- while a device of its own holds it.
pub record IsOwned (tm : TunerManager) : Type 0 where
  pub agree : (i : ℕ) → tm.in_use i ≡ (tm.runtime i).in_use
  pub held :
      (d : ℕ) → d < tm.devices → tm.once d ≡ false → (tm.runtime (tm.owner d)).device ≡ some d
  pub holder :
      (i d : ℕ)
      → (tm.runtime i).device ≡ some d
      → (d < tm.devices) × (tm.once d ≡ false) × (tm.owner d ≡ i)
  pub used : (i : ℕ) → tm.in_use i ≡ true → (d : ℕ) × ((tm.runtime i).device ≡ some d)
  pub free : (i : ℕ) → tm.in_use i ≡ false → (tm.runtime i).device ≡ none
  pub unmade : (d : ℕ) → tm.devices ≤ d → tm.once d ≡ false

module _ (tm : TunerManager) (o : IsOwned tm) where
  module _ (i : ℕ) (q : Request) (next : String → ℕ) (idle : tm.in_use i ≡ false) where
    abbrev reserved : TunerManager
    reserved = record (reserve tm i q) { next_by_type = next }

    reserved_held :
        (d : ℕ)
        → d < tm.devices + 1
        → tm.once d ≡ false
        → (reserved.runtime (reserved.owner d)).device ≡ some d
    unfolding reserve
    reserved_held d lt left = elim (Bool-cases (tm.devices == d)) [
      | inl new ↦ rw (new, ==_refl i) (ap some (==→eq tm.devices d new))
      | inr old ↦
          let before = o.held d (ground (arith, old)) left in
          elim (Bool-cases (i == tm.owner d)) [
            | inl same ↦
                let empty =
                  subst (λ k. (tm.runtime k).device ≡ none) (==→eq i (tm.owner d) same)
                    (o.free i idle) in
                cc
            | inr other ↦ rw (old, other) before
          ]
    ]

    reserved_holder :
        (k d : ℕ)
        → (reserved.runtime k).device ≡ some d
        → (d < tm.devices + 1) × (tm.once d ≡ false) × (reserved.owner d ≡ k)
    unfolding reserve
    reserved_holder k d e = elim (Bool-cases (i == k)) [
      | inl here ↦
          let new : tm.devices ≡ d = some_eq tm.devices d (rw here at e) in
          (
            omega (arith, new),
            o.unmade d (omega (arith, new)),
            ap (put tm.owner tm.devices i) (sym new)
                ∙ put_self tm.owner tm.devices i
                ∙ ==→eq i k here,
          )
      | inr other ↦
          let (lt, left, own) = o.holder k d (rw other at e) in
          let old : (tm.devices == d) ≡ false = ground (arith, lt) in
          (omega (arith, lt), left, rw old own)
    ]

    reserved_used :
        (k : ℕ) → reserved.in_use k ≡ true → (d : ℕ) × ((reserved.runtime k).device ≡ some d)
    unfolding reserve
    reserved_used k u = elim (Bool-cases (i == k)) [
      | inl here ↦ (tm.devices, rw here)
      | inr other ↦ let (d, e) = o.used k (rw other at u) in (d, rw other e)
    ]

    pub reserved-IsOwned : IsOwned reserved
    unfolding reserve
    reserved-IsOwned = record {
      agree = λ k. ground (arith, o.agree k);
      held = reserved_held;
      holder = reserved_holder;
      used = reserved_used;
      free = λ k f. ground (arith, o.free k);
      unmade = λ d le. o.unmade d (omega (arith, le));
    }

  -- What is told of a reservation changes neither its device nor its use.
  pub told-IsOwned :
      (i : ℕ) (r : TunerRuntime)
      → r.device ≡ (tm.runtime i).device
      → r.in_use ≡ (tm.runtime i).in_use
      → IsOwned (record tm { runtime = put tm.runtime i r })
  told-IsOwned i r same_device same_use =
      let device : (k : ℕ) → (put tm.runtime i r k).device ≡ (tm.runtime k).device = λ k.
        elim (Bool-cases (i == k)) [
          | inl here ↦ rw here (same_device ∙ ap (λ x. (tm.runtime x).device) (==→eq i k here))
          | inr other ↦ rw other
        ] in
      let taken : (k : ℕ) → (put tm.runtime i r k).in_use ≡ (tm.runtime k).in_use = λ k.
        elim (Bool-cases (i == k)) [
          | inl here ↦ rw here (same_use ∙ ap (λ x. (tm.runtime x).in_use) (==→eq i k here))
          | inr other ↦ rw other
        ] in
      record {
        agree = λ k. o.agree k ∙ sym (taken k);
        held = λ d lt left. device (tm.owner d) ∙ o.held d lt left;
        holder = λ k d e. o.holder k d (sym (device k) ∙ e);
        used = λ k u. let (d, e) = o.used k u in (d, device k ∙ e);
        free = λ k f. device k ∙ o.free k f;
        unmade = o.unmade;
      }
