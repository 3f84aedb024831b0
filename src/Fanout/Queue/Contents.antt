-- ===== src/Fanout/Queue/Contents.antt =====
-- What a ring holds (internal/stream/fanout/subscription.go): its packets in order, and how each
-- write to the ring changes them.
use mathlib.Core.Path.{ap₂}
use native.Mathlib.Nat.{mod-eq_of_lt, mod-eq-sub-mod, mod-add-mod, mod-lt}
use mahiron.Prelude.{
  ℕ, zero, suc, ◌+◌, ◌-◌, ◌%◌, ◌≤◌, ◌<◌, ◌≡◌, ◌≢◌, refl, sym, ap, ◌∙◌, List, [], ◌∷◌, ◌++◌, ltb,
  ltb→lt, ltb→ge, inl, inr, Bool-cases, if◌then◌else◌, length, get_or, set, take, drop, replicate,
  length-set, length-append, length-take, length-drop, length-replicate, get_or-set_self,
  get_or-set_ne, get_or-append_left, get_or-append_right, get_or-take, get_or-drop, arith,
}
use mahiron.Fanout.Queue.{Packet, PacketQueue}

-- An index that runs off the end of the ring goes on at its start.
wrap : (h j n : ℕ) → h < n → j ≤ n → (h + j) % n ≡ (if ltb (h + j) n then h + j else h + j - n)
wrap h j n p q = elim (Bool-cases (ltb (h + j) n)) [
  | inl e ↦ rw e (mod-eq_of_lt (ltb→lt (h + j) n e))
  | inr e ↦
      rw e
        (mod-eq-sub-mod (ltb→ge (h + j) n e) ∙ mod-eq_of_lt {n = h + j - n} {m = n} (ground arith))
]

abbrev pub slot : List Packet → ℕ → ℕ → Packet
slot ring head i = get_or ring ((head + i) % length ring) []

unfoldable pub window : List Packet → ℕ → ℕ → ℕ → List Packet
window ring head i zero = []
window ring head i (suc n) = slot ring head i ∷ window ring head (suc i) n

unfoldable pub contents : PacketQueue → List Packet
contents q = window q.ring q.head 0 q.count

abbrev pub total : List Packet → ℕ
total [] = 0
total (p ∷ ps) = length p + total ps

window_ext :
    (r r' : List Packet) (h h' i i' n : ℕ)
    → ((k : ℕ) → k < n → slot r h (i + k) ≡ slot r' h' (i' + k))
    → window r h i n ≡ window r' h' i' n
unfolding window
window_ext r r' h h' i i' zero e = refl
window_ext r r' h h' i i' (suc n) e =
    ap₂ ◌∷◌ (step 0 i i' (omega arith) (omega arith) (omega arith)) (
      window_ext r r' h h' (suc i) (suc i') n
        λ k lt. step (suc k) (suc i + k) (suc i' + k) (omega arith) (omega arith) (omega arith))
  where
    step : (k j j' : ℕ) → k < suc n → i + k ≡ j → i' + k ≡ j' → slot r h j ≡ slot r' h' j'
    step k j j' lt p p' = rw (p, p') at (e k lt)

-- One more packet at the end.
window-snoc :
    (r : List Packet) (h i n j : ℕ)
    → i + n ≡ j
    → window r h i (suc n) ≡ window r h i n ++ (slot r h j ∷ [])
unfolding window
window-snoc r h i zero j e = let e' : i ≡ j = omega arith in rw (← e')
window-snoc r h i (suc n) j e = ap (λ l. slot r h i ∷ l) (window-snoc r h (suc i) n j (omega arith))

length-window : (r : List Packet) (h i n : ℕ) → length (window r h i n) ≡ n
unfolding window
length-window r h i zero = refl
length-window r h i (suc n) = ap suc (length-window r h (suc i) n)

pub length-contents : (q : PacketQueue) → length (contents q) ≡ q.count
unfolding contents
length-contents q = length-window q.ring q.head 0 q.count

slot_popped :
    (r : List Packet) (h k : ℕ)
    → h < length r
    → suc k < length r
    → slot r h (1 + k) ≡ slot (set r h []) ((h + 1) % length r) k
slot_popped r h k inside lt =
    rw (length-set r h [], same_index)
      (sym (get_or-set_ne r h ((h + (1 + k)) % length r) [] [] apart))
  where
    same_index : ((h + 1) % length r + k) % length r ≡ (h + (1 + k)) % length r
    same_index = mod-add-mod (h + 1) (length r) k ∙ ap (λ j. j % length r) (omega arith)

    apart : h ≢ (h + (1 + k)) % length r
    apart = ground (arith, wrap h (1 + k) (length r) inside (omega arith))

slot_appended :
    (r : List Packet) (h k n : ℕ) (p : Packet)
    → h < length r
    → n < length r
    → k < n
    → slot r h k ≡ slot (set r ((h + n) % length r) p) h k
slot_appended r h k n p inside fits lt =
    rw (length-set r ((h + n) % length r) p)
      (sym (get_or-set_ne r ((h + n) % length r) ((h + k) % length r) p [] apart))
  where
    apart : (h + n) % length r ≢ (h + k) % length r
    apart =
        ground (
          arith,
          wrap h k (length r) inside (omega arith),
          wrap h n (length r) inside (omega arith),
        )

abbrev pub grown : List Packet → ℕ → List Packet
grown r h = drop h r ++ (take h r ++ replicate (length r) [])

pub length-grown :
    (r : List Packet) (h : ℕ) → h < length r → length (grown r h) ≡ length r + length r
length-grown r h inside =
    length-append (drop h r) _
    ∙ omega (
      arith,
      length-append (take h r) (replicate (length r) []),
      length-take h r (omega arith),
      length-drop h r,
      length-replicate {A = Packet} (length r) [],
    )

slot-grown :
    (r : List Packet) (h k : ℕ) → h < length r → k < length r → slot r h k ≡ slot (grown r h) 0 k
slot-grown r h k inside lt =
    rw (wrap h k (length r) inside (omega arith), low)
      (elim (Bool-cases (ltb (h + k) (length r))) [
        | inl e ↦ rw e (sym (front (ltb→lt (h + k) (length r) e)))
        | inr e ↦ rw e (sym (back (ltb→ge (h + k) (length r) e)))
      ])
  where
    low : (0 + k) % length (grown r h) ≡ k
    low = mod-eq_of_lt (omega (arith, length-grown r h inside)) ∙ omega arith

    front : h + k < length r → get_or (grown r h) k [] ≡ get_or r (h + k) []
    front p =
        get_or-append_left (drop h r) _ k [] (omega (arith, length-drop h r))
        ∙ get_or-drop h r k (h + k) [] refl

    back : length r ≤ h + k → get_or (grown r h) k [] ≡ get_or r (h + k - length r) []
    back p =
        get_or-append_right (drop h r) _ (h + k - length r) k [] (omega (arith, length-drop h r))
        ∙ get_or-append_left (take h r) _ (h + k - length r) []
            (omega (arith, length-take h r (omega arith)))
        ∙ get_or-take h r (h + k - length r) [] (omega arith)

-- The three writes, on the packets held.
pub window-pop :
    (r : List Packet) (h n : ℕ)
    → h < length r
    → suc n ≤ length r
    → window r h 0 (suc n) ≡ get_or r h [] ∷ window (set r h []) ((h + 1) % length r) 0 n
unfolding window
window-pop r h n inside fits =
    ap₂ ◌∷◌ (ap (λ j. get_or r j []) (mod-eq_of_lt (omega arith) ∙ omega arith)) (
      window_ext r (set r h []) h ((h + 1) % length r) 1 0 n λ k lt.
        let e : k ≡ 0 + k = omega arith in
        slot_popped r h k inside (omega arith) ∙ ap (slot (set r h []) ((h + 1) % length r)) e)

pub window-append :
    (r : List Packet) (h n : ℕ) (p : Packet)
    → h < length r
    → n < length r
    → window (set r ((h + n) % length r) p) h 0 (suc n) ≡ window r h 0 n ++ (p ∷ [])
window-append r h n p inside fits =
    window-snoc (set r ((h + n) % length r) p) h 0 n n (omega arith)
    ∙ ap₂ (λ l x. l ++ (x ∷ []))
        (sym (
          window_ext r (set r ((h + n) % length r) p) h h 0 0 n
            λ k lt. slot_appended r h (0 + k) n p inside fits (omega arith)))
        (rw (length-set r ((h + n) % length r) p)
          (get_or-set_self r ((h + n) % length r) p [] (mod-lt (h + n) (omega arith))))

pub window-grown :
    (r : List Packet) (h n : ℕ)
    → h < length r
    → n ≤ length r
    → window (grown r h) 0 0 n ≡ window r h 0 n
window-grown r h n inside fits =
    sym (window_ext r (grown r h) h 0 0 0 n λ k lt. slot-grown r h (0 + k) inside (omega arith))
