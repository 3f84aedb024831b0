-- ===== src/Demux/Gaps.antt =====
-- internal/stream/demux/demuxer.go: what the monitor says of two packets of a PID that follow one another.
use mahiron.Prelude.{
  ℕ, ◌+◌, ◌%◌, ◌≡◌, refl, sym, ap, ◌∙◌, subst, else_branch, ◌⊎◌, Bool, true, false, not, ◌&&◌, ◌||◌,
  Option, none, some, List, [], ◌∷◌, ◌==◌, if◌then◌else◌, length, inl, inr, Bool-cases, ==_refl,
  arith,
}
use mahiron.Ts.{Packet, pid, continuity_counter, has_payload, discontinuity_indicator}
use mahiron.Demux.{
  ContinuityMonitor, ContinuityDrop, is_watched, after_mark, count_packet, observe, same_as_last,
  bytes_equal,
}
use mahiron.Demux.Monitor.{AgreeAt, AgreeAt-trans, observe-other}

abbrev pub after : ContinuityMonitor → List Packet → ContinuityMonitor
after m [] = m
after m (q ∷ qs) = after (observe m q).1 qs

abbrev pub AllOthers : ℕ → List Packet → Type 0
AllOthers p [] = Unit {0}
AllOthers p (q ∷ qs) = ((pid q == p) ≡ false) × AllOthers p qs

after-AgreeAt :
    (p : ℕ) (m : ContinuityMonitor) (qs : List Packet) → AllOthers p qs → AgreeAt p (after m qs) m
after-AgreeAt p m [] others = (refl, refl, refl, refl)
after-AgreeAt p m (q ∷ qs) (other, others) =
    AgreeAt-trans p (after (observe m q).1 qs) (observe m q).1 m
      (after-AgreeAt p (observe m q).1 qs others) (observe-other m q p other)

-- Of a monitor, at the PID of the packet that was counted last.
abbrev HasCounted : ContinuityMonitor → Packet → Type 0
HasCounted m x =
    (m.seen (pid x) ≡ true)
    × (m.last (pid x) ≡ continuity_counter x)
    × ((m.duplicate_seen (pid x) ≡ true)
        ⊎ ((m.duplicate_seen (pid x) ≡ false) × (m.last_packet (pid x) ≡ x)))

count_packet-HasCounted : (m : ContinuityMonitor) (x : Packet) → HasCounted (count_packet m x).1 x
unfolding count_packet
count_packet-HasCounted m x =
    let p = pid x in
    elim (Bool-cases (
      m.seen p
      && continuity_counter x == m.last p
      && not (m.duplicate_seen p)
      && same_as_last m p x)) [
        | inl again ↦ rw (again, ==_refl p) (refl, refl, inl refl)
        | inr new ↦ (
          ground (arith, new),
          ground (arith, new),
          inr (ground (arith, new), ground (arith, new)),
        )
      ]

pub observe-counts :
    (m : ContinuityMonitor) (x : Packet)
    → is_watched x ≡ true
    → has_payload x ≡ true
    → observe m x ≡ count_packet (after_mark m x) x
unfolding observe
observe-counts m x watched full = rw (watched, full, observe) refl

bytes_equal→eq : (xs ys : List ℕ) → bytes_equal xs ys ≡ true → xs ≡ ys
bytes_equal→eq [] [] h = refl
bytes_equal→eq [] (y ∷ ys) h = cc
bytes_equal→eq (x ∷ xs) [] h = cc
bytes_equal→eq (x ∷ xs) (y ∷ ys) h = ground (arith, h, bytes_equal→eq xs ys)

HasCounted-AgreeAt :
    (m n : ContinuityMonitor) (x : Packet) → AgreeAt (pid x) n m → HasCounted m x → HasCounted n x
HasCounted-AgreeAt m n x (a, b, c, d) (seen, last, inl twice) =
    (a ∙ seen, b ∙ last, inl (c ∙ twice))
HasCounted-AgreeAt m n x (a, b, c, d) (seen, last, inr (once, it)) =
    (a ∙ seen, b ∙ last, inr (c ∙ once, d ∙ it))

-- What the monitor makes of `y` after `x`.
abbrev pub gap : Packet → Packet → Bool → Option ContinuityDrop
gap x y repeated =
    let expected = (continuity_counter x + 1) % 16 in
    if continuity_counter y == expected || (bytes_equal x y && not repeated)
    then none
    else some
        (record { pid = pid x; expected_counter = expected; actual_counter = continuity_counter y })

count_packet-next :
    (n : ContinuityMonitor) (x y : Packet)
    → HasCounted n x
    → pid y ≡ pid x
    → length x ≡ 188
    → continuity_counter x % 16 ≡ continuity_counter x
    → (count_packet n y).0 ≡ gap x y (n.duplicate_seen (pid x))
unfolding count_packet
count_packet-next n x y (seen, last, inl twice) same size small =
    rw (same, seen, last, twice) (ground arith)
count_packet-next n x y (seen, last, inr (once, it)) same size small =
    elim (Bool-cases (bytes_equal x y)) [
      | inl equal ↦
          let counter = ap continuity_counter (sym (bytes_equal→eq x y equal)) in
          rw (same, seen, last, once, it, equal) (ground (arith, counter, size))
      | inr different ↦ rw (same, seen, last, once, it, different) (ground arith)
    ]

watched-length : (x : Packet) → is_watched x ≡ true → length x ≡ 188
watched-length x watched = ground (arith, watched)

counter_small : (x : Packet) → continuity_counter x % 16 ≡ continuity_counter x
unfolding continuity_counter
counter_small x = omega arith

-- Two packets of a PID that the monitor watches, since they are intact and not null packets, and that
-- have payloads, with any packets of other PIDs between them, the second one without a mark, in any
-- state of the monitor: the second one is reported, with the counter after that of the first one as
-- what was expected, unless it has that counter, or is the same packet once more and the first one did
-- not already repeat the one before it.
pub observe-next :
    (m : ContinuityMonitor) (x y : Packet) (between : List Packet)
    → is_watched x ≡ true
    → has_payload x ≡ true
    → AllOthers (pid x) between
    → pid y ≡ pid x
    → is_watched y ≡ true
    → has_payload y ≡ true
    → discontinuity_indicator y ≡ false
    → (observe (after (observe m x).1 between) y).0
      ≡ gap x y ((observe m x).1.duplicate_seen (pid x))
observe-next m x y between watched full others same watched_y full_y plain =
    let m' = (observe m x).1 in
    let n = after m' between in
    let agree = after-AgreeAt (pid x) m' between others in
    let counted : HasCounted m' x =
      subst (λ (r : Option ContinuityDrop × ContinuityMonitor). HasCounted r.1 x)
        (sym (observe-counts m x watched full)) (count_packet-HasCounted (after_mark m x) x) in
    let unmarked : after_mark n y ≡ n = else_branch _ plain in
    ap (λ (r : Option ContinuityDrop × ContinuityMonitor). r.0)
      (observe-counts n y watched_y full_y)
    ∙ ap (λ (k : ContinuityMonitor). (count_packet k y).0) unmarked
    ∙ count_packet-next n x y (HasCounted-AgreeAt m' n x agree counted) same
        (watched-length x watched) (counter_small x)
    ∙ ap (gap x y) agree.2
