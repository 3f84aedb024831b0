-- ===== src/Fanout/Queue/Room.antt =====
-- Popping, making room and growing (internal/stream/fanout/subscription.go), on the packets held.
use mahiron.Prelude.{
  ℕ, zero, suc, ◌+◌, ◌-◌, ◌%◌, ◌≤◌, ◌<◌, ◌≡◌, refl, sym, ap, ◌∙◌, true, false, ◌&&◌, List, [], ◌∷◌,
  ◌++◌, some, ltb, ◌==◌, inl, inr, Bool-cases, if◌then◌else◌, length, get_or, set, length-set,
  arith,
}
use mahiron.Fanout.Queue.{Packet, PacketQueue, pop_locked, make_room, grow, append_packet}
use mahiron.Fanout.Queue.Contents.{
  contents, window, total, length-contents, window-pop, window-append, window-grown, grown,
  length-grown,
}

pub record IsValid (q : PacketQueue) : Type 0 where
  pub inside : q.head < length q.ring
  pub fits : q.count ≤ length q.ring
  pub counted : q.bytes ≡ total (contents q)

pub total-append : (ps qs : List Packet) → total (ps ++ qs) ≡ total ps + total qs
total-append [] qs = omega arith
total-append (p ∷ ps) qs = omega (arith, total-append ps qs)

contents-suc :
    (q : PacketQueue) (n : ℕ) → q.count ≡ suc n → contents q ≡ window q.ring q.head 0 (suc n)
unfolding contents
contents-suc q n e = ap (window q.ring q.head 0) e

-- What is left of a queue by `pop_locked`, where it does not panic.
abbrev pub popped : PacketQueue → PacketQueue
popped q = record q {
  ring = set q.ring q.head [];
  head = (q.head + 1) % length q.ring;
  count = q.count - 1;
  bytes = q.bytes - length (get_or q.ring q.head []);
}

pub contents-popped :
    (q : PacketQueue)
    → IsValid q
    → 0 < q.count
    → contents q ≡ get_or q.ring q.head [] ∷ contents (popped q)
unfolding contents
contents-popped q v h =
    contents-suc q (q.count - 1) (omega arith)
    ∙ window-pop q.ring q.head (q.count - 1) v.inside (omega arith)

pub popped-IsValid : (q : PacketQueue) → IsValid q → 0 < q.count → IsValid (popped q)
popped-IsValid q v h = record {
  inside = omega (arith, length-set q.ring q.head []);
  fits = omega (arith, length-set q.ring q.head []);
  counted = omega (arith, ap total (contents-popped q v h));
}

pub pop_locked-some :
    (q : PacketQueue) → IsValid q → pop_locked q ≡ some (get_or q.ring q.head [], popped q)
unfolding pop_locked
pop_locked-some q v = ground arith

-- The packets that stay when room is made for `size` bytes.
unfoldable pub shed : ℕ → ℕ → List Packet → List Packet
shed size limit [] = []
shed size limit (p ∷ ps) = if ltb limit (total (p ∷ ps) + size) then shed size limit ps else p ∷ ps

shed_stops :
    (size limit n : ℕ) (ps : List Packet)
    → length ps ≡ n
    → (ltb 0 n && ltb limit (total ps + size)) ≡ false
    → ps ≡ shed size limit ps
unfolding shed
shed_stops size limit n [] e h = refl
shed_stops size limit n (p ∷ ps) e h = ground arith

shed_goes_on :
    (size limit n b : ℕ) (p : Packet) (ps : List Packet)
    → b ≡ total (p ∷ ps)
    → (ltb 0 n && ltb limit (b + size)) ≡ true
    → shed size limit ps ≡ shed size limit (p ∷ ps)
unfolding shed
shed_goes_on size limit n b p ps e h = ground arith

pub record Roomy (size limit dropped : ℕ) (q : PacketQueue) (d : ℕ) (q' : PacketQueue)
    : Type 0 where
  pub kept : contents q' ≡ shed size limit (contents q)
  pub balance : d + total (contents q') ≡ dropped + total (contents q)
  pub valid : IsValid q'
  pub open_still : q'.closed ≡ q.closed
  pub ends : (ltb 0 q'.count && ltb limit (q'.bytes + size)) ≡ false

pub make_room_lem :
    (fuel : ℕ) (q : PacketQueue) (size limit dropped : ℕ)
    → IsValid q
    → q.count < fuel
    → (d : ℕ) × (q' : PacketQueue) × (make_room fuel q size limit dropped ≡ some (d, q'))
      × Roomy size limit dropped q d q'
unfolding make_room
make_room_lem zero q size limit dropped v lt = elim lt [ ]
make_room_lem (suc fuel) q size limit dropped v lt =
    elim (Bool-cases (ltb 0 q.count && ltb limit (q.bytes + size))) [
      | inl more ↦
          let front = get_or q.ring q.head [] in
          let held = contents-popped q v (ground arith) in
          let (d, q', e, r) =
            make_room_lem fuel (popped q) size limit (dropped + length front)
              (popped-IsValid q v (ground arith)) (ground arith) in
          (
            d,
            q',
            rw (more, make_room) (rw (pop_locked-some q v) e),
            record {
              kept =
                  r.kept
                  ∙ shed_goes_on size limit q.count q.bytes front (contents (popped q))
                      (v.counted ∙ ap total held) more
                  ∙ ap (shed size limit) (sym held);
              balance = omega (arith, r.balance, ap total held);
              valid = r.valid;
              open_still = r.open_still;
              ends = r.ends;
            },
          )
      | inr stop ↦ (
        dropped,
        q,
        rw (stop, make_room),
        record {
          kept =
              shed_stops size limit q.count (contents q) (length-contents q)
                (rw (← v.counted) stop);
          balance = refl;
          valid = v;
          open_still = refl;
          ends = stop;
        },
      )
    ]

-- Growing keeps the packets and leaves a free slot.
pub grow_lem :
    (q : PacketQueue)
    → IsValid q
    → IsValid (grow q)
      × (contents (grow q) ≡ contents q)
      × ((grow q).count < length (grow q).ring)
      × ((grow q).closed ≡ q.closed)
      × ((grow q).bytes ≡ q.bytes)
unfolding grow contents
grow_lem q v = elim (Bool-cases (q.count == length q.ring)) [
  | inl full ↦
      rw full (grown_valid, same, omega (arith, length-grown q.ring q.head v.inside), refl, refl)
  | inr room ↦ rw room (v, refl, ground arith, refl, refl)
]
  where
    bigger : PacketQueue
    bigger = record q { ring = grown q.ring q.head; head = 0 }

    same : contents bigger ≡ contents q
    same = window-grown q.ring q.head q.count v.inside v.fits

    grown_valid : IsValid bigger
    grown_valid = record {
      inside = omega (arith, length-grown q.ring q.head v.inside);
      fits = omega (arith, length-grown q.ring q.head v.inside);
      counted = v.counted ∙ ap total (sym same);
    }

pub append_packet_lem :
    (q : PacketQueue) (p : Packet)
    → IsValid q
    → q.count < length q.ring
    → IsValid (append_packet q p) × (contents (append_packet q p) ≡ contents q ++ (p ∷ []))
unfolding append_packet contents
append_packet_lem q p v h = (
  record {
    inside = omega (arith, length-set q.ring ((q.head + q.count) % length q.ring) p);
    fits = omega (arith, length-set q.ring ((q.head + q.count) % length q.ring) p);
    counted = omega (arith, v.counted, ap total held, total-append (contents q) (p ∷ []));
  },
  held,
)
  where
    held : contents (append_packet q p) ≡ contents q ++ (p ∷ [])
    held =
        ap (window (append_packet q p).ring q.head 0) (omega arith)
        ∙ window-append q.ring q.head q.count p v.inside h
