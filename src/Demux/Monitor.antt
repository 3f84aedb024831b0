-- ===== src/Demux/Monitor.antt =====
-- internal/stream/demux/demuxer.go: the monitor watches each PID by itself.
use mahiron.Prelude.{
  ℕ, ◌≡◌, refl, sym, ap, ◌∙◌, subst, then_branch, else_branch, true, false, not, Option, none, some,
  List, [], ◌∷◌, ◌==◌, if◌then◌else◌, inl, inr, Bool-cases, ==_refl, ==→eq, arith,
}
use mahiron.Ts.{Packet, pid, has_payload, discontinuity_indicator}
use mahiron.Demux.{
  ContinuityMonitor, ContinuityDrop, new_monitor, is_watched, after_mark, count_packet, observe,
}

-- The drops that a stream makes the monitor report.
abbrev pub drops : ContinuityMonitor → List Packet → List ContinuityDrop
drops m [] = []
drops m (q ∷ qs) =
    let (drop, m') = observe m q in
    let later = drops m' qs in elim drop [ none ↦ later | some x ↦ x ∷ later ]

abbrev pub drops_of : ℕ → List ContinuityDrop → List ContinuityDrop
drops_of p [] = []
drops_of p (x ∷ xs) = let rest = drops_of p xs in if x.pid == p then x ∷ rest else rest

abbrev pub packets_of : ℕ → List Packet → List Packet
packets_of p [] = []
packets_of p (q ∷ qs) = let rest = packets_of p qs in if pid q == p then q ∷ rest else rest

-- Of two monitors, at a PID.
abbrev pub AgreeAt : ℕ → ContinuityMonitor → ContinuityMonitor → Type 0
AgreeAt p m n =
    (m.seen p ≡ n.seen p)
    × (m.last p ≡ n.last p)
    × (m.duplicate_seen p ≡ n.duplicate_seen p)
    × (m.last_packet p ≡ n.last_packet p)

mark-other :
    (m : ContinuityMonitor) (q : Packet) (p : ℕ)
    → (pid q == p) ≡ false
    → AgreeAt p (after_mark m q) m
mark-other m q p other = elim (Bool-cases (discontinuity_indicator q)) [
  | inl marks ↦ rw (marks, other) (refl, refl, refl, refl)
  | inr plain ↦ rw plain (refl, refl, refl, refl)
]

count-other :
    (m : ContinuityMonitor) (q : Packet) (p : ℕ)
    → (pid q == p) ≡ false
    → AgreeAt p (count_packet m q).1 m
unfolding count_packet
count-other m q p other =
    (ground (arith, other), ground (arith, other), ground (arith, other), ground (arith, other))

pub AgreeAt-trans :
    (p : ℕ) (l m n : ContinuityMonitor) → AgreeAt p l m → AgreeAt p m n → AgreeAt p l n
AgreeAt-trans p l m n (a, b, c, d) (e, f, g, h) = (a ∙ e, b ∙ f, c ∙ g, d ∙ h)

pub observe-other :
    (m : ContinuityMonitor) (q : Packet) (p : ℕ)
    → (pid q == p) ≡ false
    → AgreeAt p (observe m q).1 m
unfolding observe
observe-other m q p other = elim (Bool-cases (not (is_watched q))) [
  | inl ignored ↦ rw (ignored, observe) (refl, refl, refl, refl)
  | inr watched ↦ elim (Bool-cases (not (has_payload q))) [
    | inl empty ↦ rw (watched, empty, observe) (mark-other m q p other)
    | inr full ↦
        rw (watched, full, observe)
          (AgreeAt-trans p (count_packet (after_mark m q) q).1 (after_mark m q) m
            (count-other (after_mark m q) q p other) (mark-other m q p other))
  ]
]

mark-own :
    (m n : ContinuityMonitor) (q : Packet)
    → AgreeAt (pid q) m n
    → AgreeAt (pid q) (after_mark m q) (after_mark n q)
mark-own m n q (a, b, c, d) = elim (Bool-cases (discontinuity_indicator q)) [
  | inl marks ↦ rw (marks, ==_refl (pid q)) (refl, b, refl, refl)
  | inr plain ↦ rw plain (a, b, c, d)
]

count-own :
    (m n : ContinuityMonitor) (q : Packet)
    → AgreeAt (pid q) m n
    → ((count_packet m q).0 ≡ (count_packet n q).0)
      × AgreeAt (pid q) (count_packet m q).1 (count_packet n q).1
unfolding count_packet
count-own m n q (a, b, c, d) = (
  ground (arith, a, b, c, d),
  (
    ground (arith, a, b, c, d),
    ground (arith, a, b, c, d),
    ground (arith, a, b, c, d),
    ground (arith, a, b, c, d),
  ),
)

observe-own :
    (m n : ContinuityMonitor) (q : Packet)
    → AgreeAt (pid q) m n
    → ((observe m q).0 ≡ (observe n q).0) × AgreeAt (pid q) (observe m q).1 (observe n q).1
unfolding observe
observe-own m n q agree = elim (Bool-cases (not (is_watched q))) [
  | inl ignored ↦ rw (ignored, observe) (refl, agree)
  | inr watched ↦ elim (Bool-cases (not (has_payload q))) [
    | inl empty ↦ rw (watched, empty, observe) (refl, mark-own m n q agree)
    | inr full ↦
        rw (watched, full, observe)
          (count-own (after_mark m q) (after_mark n q) q (mark-own m n q agree))
  ]
]

pub observe-pid :
    (m : ContinuityMonitor) (q : Packet) (x : ContinuityDrop)
    → (observe m q).0 ≡ some x
    → x.pid ≡ pid q
unfolding observe
observe-pid m q x h = ground (arith, h)

-- A drop of another PID, or of this one, before later ones.
abbrev pub before : Option ContinuityDrop → List ContinuityDrop → List ContinuityDrop
before drop later = elim drop [ none ↦ later | some x ↦ x ∷ later ]

pub drops_of-other :
    (p : ℕ) (drop : Option ContinuityDrop) (later : List ContinuityDrop)
    → ((x : ContinuityDrop) → drop ≡ some x → (x.pid == p) ≡ false)
    → drops_of p (before drop later) ≡ drops_of p later
drops_of-other p none later h = refl
drops_of-other p (some x) later h = rw (h x refl) refl

drops_of-own :
    (p : ℕ) (drop : Option ContinuityDrop) (later : List ContinuityDrop)
    → ((x : ContinuityDrop) → drop ≡ some x → (x.pid == p) ≡ true)
    → drops_of p (before drop later) ≡ before drop (drops_of p later)
drops_of-own p none later h = refl
drops_of-own p (some x) later h = rw (h x refl) refl

drops_of-agreed :
    (p : ℕ) (m n : ContinuityMonitor) (qs : List Packet)
    → AgreeAt p m n
    → drops_of p (drops m qs) ≡ drops n (packets_of p qs)
drops_of-agreed p m n [] agree = refl
drops_of-agreed p m n (q ∷ qs) agree =
    let whose = λ (x : ContinuityDrop) (h : (observe m q).0 ≡ some x).
      ap (λ k. k == p) (observe-pid m q x h) in
    elim (Bool-cases (pid q == p)) [
      | inl own ↦
          let (same, agree') =
            observe-own m n q (subst (λ k. AgreeAt k m n) (sym (==→eq (pid q) p own)) agree) in
          let later =
            drops_of-agreed p (observe m q).1 (observe n q).1 qs (
              subst (λ k. AgreeAt k (observe m q).1 (observe n q).1) (==→eq (pid q) p own)
                agree') in
          drops_of-own p (observe m q).0 (drops (observe m q).1 qs) (λ x h. whose x h ∙ own)
          ∙ ap (λ (d : Option ContinuityDrop). before d (drops_of p (drops (observe m q).1 qs)))
              same
          ∙ ap (λ (l : List ContinuityDrop). before (observe n q).0 l) later
          ∙ ap (drops n) (sym (then_branch _ own))
      | inr other ↦
          drops_of-other p (observe m q).0 (drops (observe m q).1 qs) (λ x h. whose x h ∙ other)
          ∙ drops_of-agreed p (observe m q).1 n qs
              (AgreeAt-trans p (observe m q).1 m n (observe-other m q p other) agree)
          ∙ ap (drops n) (sym (else_branch _ other))
    ]

-- The drops that a mixed stream reports for a PID are those that the packets of this PID report alone:
-- however streams are interleaved, none disturbs the count of another.
pub drops_of-drops :
    (p : ℕ) (qs : List Packet)
    → drops_of p (drops new_monitor qs) ≡ drops new_monitor (packets_of p qs)
drops_of-drops p qs = drops_of-agreed p new_monitor new_monitor qs (refl, refl, refl, refl)
