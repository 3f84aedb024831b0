-- ===== src/Fanout/Queue/Take.antt =====
-- `take` of internal/stream/fanout/subscription.go against a list of packets.
use mahiron.Prelude.{
  ℕ, zero, suc, ◌+◌, ◌<◌, ◌≡◌, ◌⊎◌, refl, sym, ap, ◌∙◌, true, false, ◌&&◌, ◌||◌, List, [], ◌∷◌,
  ◌++◌, some, ltb, leb, ◌==◌, inl, inr, Bool-cases, if◌then◌else◌, length, get_or, append_assoc,
  append-nil, arith,
}
use mahiron.Fanout.Queue.{Packet, PacketQueue, take_loop, take_packets, got, drained, blocked}
use mahiron.Fanout.Queue.Contents.{contents, length-contents}
use mahiron.Fanout.Queue.Room.{IsValid, popped, contents-popped, popped-IsValid, pop_locked-some}

-- The packets of one write: the first, and those after it while the bytes stay within `max`.
unfoldable pub batch : ℕ → ℕ → List Packet → List Packet
batch size max [] = []
batch size max (p ∷ ps) =
    if size == 0 || leb (size + length p) max then p ∷ batch (size + length p) max ps else []

pub record Batch (q : PacketQueue) (dst : List Packet) (size max : ℕ) (dst' : List Packet)
    (q' : PacketQueue) : Type 0 where
  pub appended : dst' ≡ dst ++ batch size max (contents q)
  pub split : batch size max (contents q) ++ contents q' ≡ contents q
  pub valid : IsValid q'
  pub open_still : q'.closed ≡ q.closed

batch_stops :
    (size max n : ℕ) (ps : List Packet) (front : Packet)
    → length ps ≡ n
    → (0 < n → (rest : List Packet) × (ps ≡ front ∷ rest))
    → (ltb 0 n && (size == 0 || leb (size + length front) max)) ≡ false
    → batch size max ps ≡ []
unfolding batch
batch_stops size max n [] front e f h = refl
batch_stops size max n (p ∷ ps) front e f h = ground (arith, f (omega arith))

batch_goes_on :
    (size max n : ℕ) (p : Packet) (ps : List Packet)
    → (ltb 0 n && (size == 0 || leb (size + length p) max)) ≡ true
    → batch size max (p ∷ ps) ≡ p ∷ batch (size + length p) max ps
unfolding batch
batch_goes_on size max n p ps h = ground arith

take_loop_lem :
    (fuel : ℕ) (q : PacketQueue) (size max : ℕ) (dst : List Packet)
    → IsValid q
    → q.count < fuel
    → (dst' : List Packet) × (q' : PacketQueue) × (take_loop fuel q size max dst ≡ some (dst', q'))
      × Batch q dst size max dst' q'
unfolding take_loop
take_loop_lem zero q size max dst v lt = elim lt [ ]
take_loop_lem (suc fuel) q size max dst v lt =
    let front = get_or q.ring q.head [] in
    elim (Bool-cases (ltb 0 q.count && (size == 0 || leb (size + length front) max))) [
      | inl more ↦
          let held = contents-popped q v (ground arith) in
          let (dst', q', e, b) =
            take_loop_lem fuel (popped q) (size + length front) max (dst ++ (front ∷ []))
              (popped-IsValid q v (ground arith)) (ground arith) in
          let goes = ap (batch size max) held ∙ batch_goes_on size max q.count front _ more in
          (
            dst',
            q',
            rw (more, take_loop) (rw (pop_locked-some q v) e),
            record {
              appended =
                  b.appended ∙ append_assoc dst (front ∷ []) _ ∙ ap (λ l. dst ++ l) (sym goes);
              split = ap (λ l. l ++ contents q') goes ∙ ap (λ l. front ∷ l) b.split ∙ sym held;
              valid = b.valid;
              open_still = b.open_still;
            },
          )
      | inr stop ↦
          let none_more =
            batch_stops size max q.count (contents q) front (length-contents q)
              (λ h. (contents (popped q), contents-popped q v h)) stop in
          (
            dst,
            q,
            rw (stop, take_loop),
            record {
              appended = sym (ap (λ l. dst ++ l) none_more ∙ append-nil dst);
              split = ap (λ l. l ++ contents q) none_more;
              valid = v;
              open_still = refl;
            },
          )
    ]

-- On a valid queue `take` never panics. With packets pending it appends the first ones to `dst`,
-- as `batch` says, and leaves just the others, in order; an empty queue is reported as drained
-- exactly if it is closed, and makes the writer wait otherwise.
pub take_refines :
    (q : PacketQueue) (dst : List Packet) (max : ℕ)
    → IsValid q
    → ((0 < q.count)
        × (dst' : List Packet) × (q' : PacketQueue) × (take_packets q dst max ≡ got dst' q')
        × Batch q dst 0 max dst' q')
      ⊎ ((q.count ≡ 0) × (take_packets q dst max ≡ (if q.closed then drained dst else blocked)))
unfolding take_packets
take_refines q dst max v = elim (Bool-cases (ltb 0 q.count)) [
  | inl some_left ↦
      let (dst', q', e, b) = take_loop_lem (q.count + 1) q 0 max dst v (omega arith) in
      inl (ground arith, dst', q', rw (some_left, e, take_packets), b)
  | inr empty ↦ inr (ground arith, rw empty)
]
