-- ===== src/Ts/Packetize/Bodies.antt =====
-- ts/demux.go: what a section assembler reads in a packet of `packetizeSection`.
use mahiron.Prelude.{
  ℕ, suc, ◌+◌, ◌-◌, ◌*◌, ◌/◌, ◌%◌, ◌≤◌, ◌<◌, ◌≡◌, refl, ap, ◌∙◌, Bool, true, false, List, ◌∷◌, ◌++◌,
  ◌==◌, if◌then◌else◌, length, take, drop, replicate, length-append, length-replicate,
  length-take_le, length-take, take_all, append-nil, arith,
}
use mahiron.Ts.{
  Packet, pid, transport_error_indicator, has_payload, payload, payload_unit_start_indicator,
  continuity_counter, has_adaptation_field, valid_payload_offset, payload_offset,
}
use mahiron.Ts.Sections.{SectionAssembler, feed_payload, feed_all}
use mahiron.Ts.Packetize.{header_of, filled}

-- The bytes behind the four of the header.
abbrev pub body : Bool → List ℕ → List ℕ
body first bytes = drop 4 (filled (header_of 0 first 0) bytes)

unfoldable pub padded : ℕ → List ℕ → List ℕ
padded n bytes = take n bytes ++ replicate (n - length (take n bytes)) 0xff

pub padded_short :
    (n : ℕ) (bytes : List ℕ)
    → length bytes ≤ n
    → padded n bytes ≡ bytes ++ replicate (n - length bytes) 0xff
unfolding padded
padded_short n bytes h =
    ap (λ (l : List ℕ). l ++ replicate (n - length l) 0xff) (take_all n bytes h)

pub padded_long : (n : ℕ) (bytes : List ℕ) → n ≤ length bytes → padded n bytes ≡ take n bytes
unfolding padded
padded_long n bytes h =
    let full : n - length (take n bytes) ≡ 0 = omega (arith, length-take n bytes h) in
    rw full (append-nil (take n bytes))

pub body_first : (bytes : List ℕ) → body true bytes ≡ 0 ∷ padded 183 bytes
unfolding padded
body_first bytes = ap (λ n. 0 ∷ (take 183 bytes ++ replicate n 0xff)) (omega arith)

pub body_later : (bytes : List ℕ) → body false bytes ≡ padded 184 bytes
unfolding padded
body_later bytes = ap (λ n. take 184 bytes ++ replicate n 0xff) (omega arith)

length-padded : (n : ℕ) (bytes : List ℕ) → length (padded n bytes) ≡ n
unfolding padded
length-padded n bytes =
    let fill = n - length (take n bytes) in
    omega (
      arith,
      length-append (take n bytes) (replicate fill 0xff),
      length-take_le n bytes,
      length-replicate {A = ℕ} fill 0xff,
    )

pub length-body : (first : Bool) (bytes : List ℕ) → length (body first bytes) ≡ 184
length-body true bytes = ap length (body_first bytes) ∙ ap suc (length-padded 183 bytes)
length-body false bytes = ap length (body_later bytes) ∙ length-padded 184 bytes

upper_lem :
    (p : ℕ) (first : Bool)
    → p < 0x2000
    → (p / 256 + (if first then 0x40 else 0)) % 32 * 256 + p % 256 ≡ p
upper_lem p true small = omega arith
upper_lem p false small = omega arith

-- A packet with a plain header: no error, no adaptation field, and a payload.
module _ (b₁ b₂ b₃ : ℕ) (rest : List ℕ) where
  abbrev plain_packet : Packet
  plain_packet = 0x47 ∷ b₁ ∷ b₂ ∷ b₃ ∷ rest

  pid_lem : (p : ℕ) → b₁ % 32 * 256 + b₂ ≡ p → (pid plain_packet == p) ≡ true
  unfolding pid
  pid_lem p own = ground (arith, own)

  clean_lem : b₁ < 128 → transport_error_indicator plain_packet ≡ false
  unfolding transport_error_indicator
  clean_lem clean = ground (arith, clean)

  has_payload_lem : b₃ / 16 ≡ 1 → has_payload plain_packet ≡ true
  unfolding has_payload
  has_payload_lem plain = ground (arith, plain)

  plain_lem : b₃ / 16 ≡ 1 → has_adaptation_field plain_packet ≡ false
  unfolding has_adaptation_field
  plain_lem plain = ground (arith, plain)

  offset_lem : b₃ / 16 ≡ 1 → payload_offset plain_packet ≡ 4
  unfolding payload_offset
  offset_lem plain = rw (plain_lem plain) refl

  valid_lem : b₃ / 16 ≡ 1 → length rest ≡ 184 → valid_payload_offset plain_packet ≡ true
  unfolding valid_payload_offset
  valid_lem plain size = rw (plain_lem plain, size) refl

  payload_lem : b₃ / 16 ≡ 1 → length rest ≡ 184 → payload plain_packet ≡ rest
  unfolding payload
  payload_lem plain size = rw (has_payload_lem plain, valid_lem plain size, offset_lem plain) refl

  counter_lem : continuity_counter plain_packet ≡ b₃ % 16
  unfolding continuity_counter
  counter_lem = refl

  feed_all-packet :
      (sa : SectionAssembler)
      → length rest ≡ 184
      → b₁ % 32 * 256 + b₂ ≡ sa.pid
      → b₁ < 128
      → b₃ / 16 ≡ 1
      → feed_all sa plain_packet
        ≡ feed_payload sa (payload_unit_start_indicator plain_packet) (b₃ % 16) rest
  unfolding feed_all
  feed_all-packet sa size own clean plain =
      rw
        (
          pid_lem sa.pid own,
          clean_lem clean,
          has_payload_lem plain,
          payload_lem plain size,
          size,
          counter_lem,
        )
        refl

starts_lem :
    (p b₂ b₃ : ℕ) (first : Bool) (rest : List ℕ)
    → p < 0x2000
    → payload_unit_start_indicator (0x47 ∷ (p / 256 + (if first then 0x40 else 0)) ∷ b₂ ∷ b₃ ∷ rest)
      ≡ first
unfolding payload_unit_start_indicator
starts_lem p b₂ b₃ true rest small = ground arith
starts_lem p b₂ b₃ false rest small = ground arith

-- Whatever the assembler's state, it reads the body of a packet of its PID.
pub feed_all-filled :
    (sa : SectionAssembler) (first : Bool) (bytes : List ℕ) (counter : ℕ)
    → sa.pid < 0x2000
    → feed_all sa (filled (header_of sa.pid first counter) bytes)
      ≡ feed_payload sa first (counter % 16) (body first bytes)
feed_all-filled sa first bytes counter small =
    let b₁ = sa.pid / 256 + (if first then 0x40 else 0) in
    let b₂ = sa.pid % 256 in
    let b₃ = 0x10 + counter % 16 in
    let rest = body first bytes in
    feed_all-packet b₁ b₂ b₃ rest sa (length-body first bytes) (upper_lem sa.pid first small)
      (ground arith) (omega arith)
    ∙ ap (λ b. feed_payload sa b (b₃ % 16) rest) (starts_lem sa.pid b₂ b₃ first rest small)
    ∙ ap (λ c. feed_payload sa first c rest) (omega arith)
