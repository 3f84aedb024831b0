-- ===== src/Fanout/Queue/Push.antt =====
-- `push` of internal/stream/fanout/subscription.go against a list of packets.
use mahiron.Prelude.{
  ℕ, ◌+◌, ◌≤◌, ◌≡◌, refl, ap, ◌∙◌, true, false, ◌&&◌, List, [], ◌∷◌, ◌++◌, some, ltb, ltb→ge, inl,
  inr, Bool-cases, if◌then◌else◌, length, arith,
}
use mahiron.Fanout.Queue.{Packet, PacketQueue, grow, append_packet, push}
use mahiron.Fanout.Queue.Contents.{contents, total, length-contents}
use mahiron.Fanout.Queue.Room.{IsValid, shed, make_room_lem, grow_lem, append_packet_lem}

-- The list that a push leaves: the packets shed from the front, and the new one where it fits.
unfoldable pub offer : List Packet → Packet → ℕ → List Packet
unfolding shed
offer ps packet limit =
    let kept = shed (length packet) limit ps in
    if ltb limit (total kept + length packet) then kept else kept ++ (packet ∷ [])

pub record Pushed (q : PacketQueue) (packet : Packet) (limit d : ℕ) (q' : PacketQueue)
    : Type 0 where
  pub held : contents q' ≡ offer (contents q) packet limit
  pub balance : d + total (contents q') ≡ total (contents q) + length packet
  pub within : q'.bytes ≤ limit
  pub valid : IsValid q'
  pub open_still : q'.closed ≡ q.closed

-- What `offer` leaves in the two cases of the test, over what was kept.
offer_over :
    (ps kept : List Packet) (packet : Packet) (limit b : ℕ)
    → b ≡ total kept
    → kept ≡ shed (length packet) limit ps
    → ltb limit (b + length packet) ≡ true
    → kept ≡ offer ps packet limit
unfolding offer
offer_over ps kept packet limit b c e h = ground arith

offer_fits :
    (ps kept : List Packet) (packet : Packet) (limit b : ℕ)
    → b ≡ total kept
    → kept ≡ shed (length packet) limit ps
    → ltb limit (b + length packet) ≡ false
    → kept ++ (packet ∷ []) ≡ offer ps packet limit
unfolding offer
offer_fits ps kept packet limit b c e h = ground arith

bytes_of_empty : (q : PacketQueue) → IsValid q → q.count ≡ 0 → q.bytes ≡ 0
bytes_of_empty q v e = v.counted ∙ nothing (contents q) (length-contents q ∙ e)
  where
    nothing : (ps : List Packet) → length ps ≡ 0 → total ps ≡ 0
    nothing [] h = refl
    nothing (p ∷ ps) h = absurd (omega arith)

over_within :
    (q : PacketQueue) (size limit : ℕ)
    → IsValid q
    → (ltb 0 q.count && ltb limit (q.bytes + size)) ≡ false
    → ltb limit (q.bytes + size) ≡ true
    → q.bytes ≤ limit
over_within q size limit v ends over = ground (arith, bytes_of_empty q v)

-- On a valid queue `push` never panics: it returns the number of dropped bytes and a valid queue
-- that holds what `offer` says, in order and within the limit, the dropped bytes are just those that
-- are missing, and the closed flag stays.
pub push_refines :
    (q : PacketQueue) (packet : Packet) (limit : ℕ)
    → IsValid q
    → (d : ℕ) × (q' : PacketQueue) × (push q packet limit ≡ some (d, q'))
      × Pushed q packet limit d q'
unfolding push append_packet
push_refines q packet limit v =
    let (d, q₁, e, r) = make_room_lem (q.count + 1) q (length packet) limit 0 v (omega arith) in
    elim (Bool-cases (ltb limit (q₁.bytes + length packet))) [
      | inl over ↦ (
        d + length packet,
        q₁,
        rw (e, push) (rw over),
        record {
          held =
              offer_over (contents q) (contents q₁) packet limit q₁.bytes r.valid.counted r.kept
                over;
          balance = omega (arith, r.balance);
          within = over_within q₁ (length packet) limit r.valid r.ends over;
          valid = r.valid;
          open_still = r.open_still;
        },
      )
      | inr fits ↦
          let (v₂, same, room, op, by) = grow_lem q₁ r.valid in
          let (v₃, held) = append_packet_lem (grow q₁) packet v₂ room in
          (
            d,
            append_packet (grow q₁) packet,
            rw (e, push) (rw fits),
            record {
              held =
                  held
                  ∙ ap (λ l. l ++ (packet ∷ [])) same
                  ∙ offer_fits (contents q) (contents q₁) packet limit q₁.bytes r.valid.counted
                      r.kept fits;
              balance = omega (arith, r.balance, r.valid.counted, v₃.counted, by);
              within = omega (arith, by, ltb→ge limit (q₁.bytes + length packet) fits);
              valid = v₃;
              open_still = op ∙ r.open_still;
            },
          )
    ]
