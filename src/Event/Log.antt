-- ===== src/Event/Log.antt =====
-- internal/event/hub.go: the log of the hub.
use mahiron.Prelude.{
  ℕ, ◌-◌, ◌≡◌, refl, sym, ap, ◌∙◌, Option, none, some, List, [], ◌∷◌, ◌++◌, append-nil,
  append_assoc, ltb, length, drop, length-append, length-drop, drop-append_left, drop-drop, inl,
  inr, then_branch, else_branch, subst, Bool-cases, arith,
}
use mahiron.Event.{Event, Hub, append_log, publish}
use mahiron.Event.Reach.{Step, publishes, Reachable, goes_on, Reachable-IsSound, publish_lem}

-- The events one after the other.
unfoldable pub publish_all : Hub → List Event → Option Hub
publish_all h [] = some h
publish_all h (event ∷ events) = elim (publish h event) [
  | none ↦ none
  | some h' ↦ publish_all h' events
]

-- The last `n` of a list, all of a list that is shorter.
abbrev pub last_of {ℓ} : {A : Type ℓ} → ℕ → List A → List A
last_of n xs = drop (length xs - n) xs

append_log-last :
    (capacity : ℕ) (log : List Event) (event : Event)
    → append_log capacity log event ≡ last_of capacity (log ++ event ∷ [])
unfolding append_log
append_log-last capacity log event = elim (Bool-cases (ltb capacity (length (log ++ event ∷ [])))) [
  | inl over ↦ then_branch _ over
  | inr fits ↦
      let none_over : length (log ++ event ∷ []) - capacity ≡ 0 = ground (arith, fits) in
      else_branch _ fits ∙ sym (ap (λ n. drop n (log ++ event ∷ [])) none_over)
]

module _ {ℓ} {A : Type ℓ} where
  -- What would be dropped anyway may be dropped first.
  last_of-append : (n : ℕ) (xs ys : List A) → last_of n (last_of n xs ++ ys) ≡ last_of n (xs ++ ys)
  last_of-append n xs ys =
      let k = length xs - n in
      let whole = drop-append_left k xs ys (omega arith) in
      ap (last_of n) whole
      ∙ drop-drop (length (drop k (xs ++ ys)) - n) k (xs ++ ys)
      ∙ ap (λ i. drop i (xs ++ ys)) (omega (arith, length-drop k (xs ++ ys), length-append xs ys))

-- In any state that is reached, and after any events, the log is as many of the last events as it
-- has room for: of those that it held and those that came, in order. None of the calls panics.
pub publish_all-log :
    (h : Hub) (events : List Event)
    → Reachable h
    → (h' : Hub) × (publish_all h events ≡ some h')
      × (h'.log ≡ last_of h.capacity (h.log ++ events))
unfolding publish_all
publish_all-log h [] before =
    let s = Reachable-IsSound h before in
    let none_over : length h.log - h.capacity ≡ 0 = omega (arith, s.log_fits) in
    (h, refl, sym (ap (last_of h.capacity) (append-nil h.log) ∙ ap (λ n. drop n h.log) none_over))
publish_all-log h (event ∷ events) before =
    let (channels', done, _) = publish_lem h event (Reachable-IsSound h before) in
    let next : Hub = record h { log = append_log h.capacity h.log event; channels = channels' } in
    let onward = goes_on h next before (subst (Step h) done (publishes event)) in
    let (h', all, kept) = publish_all-log next events onward in
    (
      h',
      ap (λ (o : Option Hub). elim o [ none ↦ none | some h' ↦ publish_all h' events ]) done ∙ all,
      kept
          ∙ ap (λ l. last_of h.capacity (l ++ events)) (append_log-last h.capacity h.log event)
          ∙ last_of-append h.capacity (h.log ++ event ∷ []) events
          ∙ ap (last_of h.capacity) (append_assoc h.log (event ∷ []) events),
    )
