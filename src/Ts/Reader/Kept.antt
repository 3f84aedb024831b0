-- ===== src/Ts/Reader/Kept.antt =====
-- ts/packet.go: looking for a packet reads bytes, and loses none.
use mahiron.Prelude.{
  ℕ, zero, suc, ◌+◌, ◌≤◌, ◌≡◌, refl, sym, ap, ◌∙◌, subst, ◌⊎◌, inl, inr, Bool, true, false, ◌||◌,
  List, [], ◌++◌, append-nil, append_assoc, leb, ◌==◌, if◌then◌else◌, length, length-append,
  Bool-cases, arith,
}
use mahiron.Packets.{has_error}
use mahiron.Ts.Reader.{Reading, PacketReader, fill_loop, fill}

-- What a reader of bytes promises, with the bytes that it has left: they come in order, and at least
-- one or an error where there is room. (io.Reader discourages anything else, and a reader that gives
-- nothing for ever would keep the search waiting.)
pub record IsByteReader {ℓ} {S : Type ℓ} (read_into : Reading S) (left : S → List ℕ) : Type ℓ where
  pub in_order : (s : S) (n : ℕ) → left s ≡ (read_into s n).bytes ++ left (read_into s n).next
  pub lively :
      (s : S) (n : ℕ)
      → 1 ≤ n
      → has_error (read_into s n).error ≡ false
      → 1 ≤ length (read_into s n).bytes

module _ {ℓ} {S : Type ℓ} (left : S → List ℕ) where
  -- The bytes that can still come out of the reader.
  abbrev pub pending : PacketReader S → List ℕ
  pending pr = pr.buf ++ left pr.r

  -- What the reader below has left to do.
  abbrev pub todo : PacketReader S → ℕ
  todo pr = length (left pr.r) + (if has_error pr.read_err then 0 else 1)

  -- A reader that has read on: bytes came to its buffer, and nothing else changed.
  pub record Follows (pr pr' : PacketReader S) : Type ℓ where
    pub more : List ℕ
    pub grown : pr'.buf ≡ pr.buf ++ more
    pub whole : pending pr' ≡ pending pr
    pub same_stride : pr'.stride ≡ pr.stride
    pub less : todo pr' ≤ todo pr

  pub Follows-refl : (pr : PacketReader S) → Follows pr pr
  Follows-refl pr = record {
    more = [];
    grown = sym (append-nil pr.buf);
    whole = refl;
    same_stride = refl;
    less = omega arith;
  }

  pub Follows-trans :
      (pr pr' pr'' : PacketReader S) → Follows pr pr' → Follows pr' pr'' → Follows pr pr''
  Follows-trans pr pr' pr'' f g = record {
    more = f.more ++ g.more;
    grown = g.grown ∙ ap (λ l. l ++ g.more) f.grown ∙ append_assoc pr.buf f.more g.more;
    whole = g.whole ∙ f.whole;
    same_stride = g.same_stride ∙ f.same_stride;
    less = omega (arith, f.less, g.less);
  }

module _ {ℓ} {S : Type ℓ} (read_into : Reading S) (left : S → List ℕ)
    (reader : IsByteReader read_into left) where
  abbrev after_read : PacketReader S → PacketReader S
  after_read pr = record pr {
    r = (read_into pr.r 4096).next;
    buf = pr.buf ++ (read_into pr.r 4096).bytes;
    read_err = (read_into pr.r 4096).error;
  }

  length-left :
      (s : S)
      → length (left s) ≡ length (read_into s 4096).bytes + length (left (read_into s 4096).next)
  length-left s = ap length (reader.in_order s 4096) ∙ length-append (read_into s 4096).bytes _

  -- A read gives bytes or the error that ends all reads.
  after_read-less :
      (pr : PacketReader S)
      → has_error pr.read_err ≡ false
      → todo left (after_read pr) + 1 ≤ todo left pr
  after_read-less pr going = elim (Bool-cases (has_error (read_into pr.r 4096).error)) [
    | inl failed ↦ ground (arith, length-left pr.r, failed, going)
    | inr fine ↦
        ground (arith, length-left pr.r, fine, going, reader.lively pr.r 4096 (omega arith) fine)
  ]

  after_read-Follows :
      (pr : PacketReader S) → has_error pr.read_err ≡ false → Follows left pr (after_read pr)
  after_read-Follows pr going = record {
    more = (read_into pr.r 4096).bytes;
    grown = refl;
    whole =
        append_assoc pr.buf (read_into pr.r 4096).bytes (left (read_into pr.r 4096).next)
        ∙ ap (λ l. pr.buf ++ l) (sym (reader.in_order pr.r 4096));
    same_stride = refl;
    less = omega (arith, after_read-less pr going);
  }

  not_over : (b : Bool) (least n : ℕ) → (b || leb least n) ≡ false → (b ≡ false) × (n + 1 ≤ least)
  not_over true least n h = absurd cc
  not_over false least n h = (refl, ground (arith, h))

  -- All that a filled buffer promises: the bytes asked for, or the end.
  abbrev IsFilled : ℕ → PacketReader S → Type 0
  IsFilled least pr = (least ≤ length pr.buf) ⊎ (has_error pr.read_err ≡ true)

  or_cases : (b : Bool) (least n : ℕ) → (b || leb least n) ≡ true → (least ≤ n) ⊎ (b ≡ true)
  or_cases true least n h = inr refl
  or_cases false least n h = inl (ground (arith, h))

  fill_loop_lem :
      (fuel least : ℕ) (pr : PacketReader S)
      → least ≤ fuel + length pr.buf
      → Follows left pr (fill_loop read_into fuel least pr)
        × IsFilled least (fill_loop read_into fuel least pr)
  unfolding fill_loop
  fill_loop_lem zero least pr enough = (Follows-refl left pr, inl (omega (arith, enough)))
  fill_loop_lem (suc fuel) least pr enough =
      elim (Bool-cases (has_error pr.read_err || leb least (length pr.buf))) [
        | inl over ↦
            rw (over, fill_loop)
              (Follows-refl left pr, or_cases (has_error pr.read_err) least (length pr.buf) over)
        | inr going ↦
            let (no_error, short) = not_over (has_error pr.read_err) least (length pr.buf) going in
            let got = read_into pr.r 4096 in
            let step = after_read-Follows pr no_error in
            elim (Bool-cases (has_error got.error)) [
              | inl failed ↦ rw (going, failed, fill_loop) (step, inr failed)
              | inr fine ↦
                  let some_bytes = reader.lively pr.r 4096 (omega arith) fine in
                  let not_empty : (length got.bytes == 0) ≡ false = ground (arith, some_bytes) in
                  let (next, filled) =
                    fill_loop_lem fuel least (after_read pr)
                      (omega (arith, enough, some_bytes, length-append pr.buf got.bytes)) in
                  rw (going, fine, not_empty, fill_loop)
                    (Follows-trans left pr (after_read pr) _ step next, filled)
            ]
      ]

  pub fill_lem :
      (least : ℕ) (pr : PacketReader S)
      → Follows left pr (fill read_into least pr) × IsFilled least (fill read_into least pr)
  unfolding fill
  fill_lem least pr = fill_loop_lem least least pr (omega arith)

  nonempty : (b : Bool) (n : ℕ) → (b || n == 0) ≡ false → 1 ≤ n
  nonempty true n h = absurd cc
  nonempty false n h = ground (arith, h)

  -- A fill that finds too few bytes reads.
  pub fill-less :
      (least : ℕ) (pr : PacketReader S)
      → has_error pr.read_err ≡ false
      → length pr.buf + 1 ≤ least
      → todo left (fill read_into least pr) + 1 ≤ todo left pr
  unfolding fill fill_loop
  fill-less zero pr going short = absurd (omega (arith, short))
  fill-less (suc n) pr going short =
      let first = after_read-less pr going in
      let few : leb (suc n) (length pr.buf) ≡ false = ground (arith, short) in
      let got = read_into pr.r 4096 in
      elim (Bool-cases (has_error got.error || length got.bytes == 0)) [
        | inl over ↦
            let stops : fill read_into (suc n) pr ≡ after_read pr =
              rw (going, few, over, fill, fill_loop) refl in
            subst (λ x. todo left x + 1 ≤ todo left pr) (sym stops) first
        | inr more ↦
            let some_bytes = nonempty (has_error got.error) (length got.bytes) more in
            let fits : suc n ≤ n + length (after_read pr).buf =
              omega (arith, some_bytes, length-append pr.buf got.bytes) in
            let (next, _) = fill_loop_lem n (suc n) (after_read pr) fits in
            let goes_on : fill read_into (suc n) pr
                ≡ fill_loop read_into n (suc n) (after_read pr) =
              rw (going, few, more, fill, fill_loop) refl in
            subst (λ x. todo left x + 1 ≤ todo left pr) (sym goes_on)
              (omega (arith, first, next.less))
      ]
