-- ===== src/Event/Delivery.antt =====
-- internal/event/hub.go: what a subscriber receives of the events that are published.
use mathlib.Core.List.Sublist
use mahiron.Prelude.{
  ℕ, not, ◌+◌, ◌≤◌, ◌<◌, ◌≡◌, refl, sym, ap, ◌∙◌, subst, true, false, Option, none, some, some_eq,
  List, [], ◌∷◌, ◌++◌, append-nil, append_assoc, Sublist, ltb, ◌==◌, length, length-append, inl,
  inr, Bool-cases, then_branch, else_branch, arith,
}
use mahiron.Prelude.Maps.{put, put_self}
use mahiron.Prelude.Dict.{keep_keys}
use mahiron.Event.{
  Event, Channel, Hub, new_channel, append_log, offer, publish, subscribe, unsubscribe, receive,
}
use mahiron.Event.Reach.{
  Step, publishes, subscribes, unsubscribes, receives, Reachable, goes_on, Reachable-IsSound,
  publish_lem, receive_lem,
}
use mahiron.Event.Sends.{offered, offer-open}

-- The calls of a time in which the caller of one channel does not unsubscribe: the events that are
-- published in it, and those that this caller receives.
pub data Run (ch : ℕ) : Hub → List Event → List Event → Hub → Type 0 where
  ends : (h : Hub) → Run ch h [] [] h
  an_event :
      (h h1 h' : Hub) (event : Event) (published received : List Event)
      → publish h event ≡ some h1
      → Run ch h1 published received h'
      → Run ch h (event ∷ published) received h'
  a_receive :
      (h h1 h' : Hub) (event : Event) (published received : List Event)
      → receive h ch ≡ some (event, h1)
      → Run ch h1 published received h'
      → Run ch h published (event ∷ received) h'
  other_receive :
      (h h1 h' : Hub) (j : ℕ) (event : Event) (published received : List Event)
      → (j == ch) ≡ false
      → receive h j ≡ some (event, h1)
      → Run ch h1 published received h'
      → Run ch h published received h'
  a_subscriber :
      (h h' : Hub) (published received : List Event)
      → Run ch (subscribe h).0 published received h'
      → Run ch h published received h'
  other_leaves :
      (h h1 h' : Hub) (j : ℕ) (published received : List Event)
      → (j == ch) ≡ false
      → j < h.made
      → unsubscribe h j ≡ some h1
      → Run ch h1 published received h'
      → Run ch h published received h'

-- What was waiting and what comes, against what was received and what is waiting now.
abbrev pub Delivers : List Event → List Event → List Event → List Event → Type 0
Delivers waiting published received waiting' =
    Sublist (received ++ waiting') (waiting ++ published)
    × (length waiting + length published ≤ 128 → received ++ waiting' ≡ waiting ++ published)

sublist-gap : (xs ys : List Event) (event : Event) → Sublist (xs ++ ys) (xs ++ event ∷ ys)
sublist-gap [] ys event = Sublist.cons event (Sublist.refl ys)
sublist-gap (x ∷ xs) ys event = Sublist.cons-cons x (sublist-gap xs ys event)

-- A channel that the event is offered to takes it, or is full.
offer-Delivers :
    (c : Channel) (event : Event) (published received waiting' : List Event)
    → Delivers (offer event c).buffer published received waiting'
    → Delivers c.buffer (event ∷ published) received waiting'
unfolding offer
offer-Delivers c event published received waiting' d =
    elim (Bool-cases (ltb (length c.buffer) 128)) [
      | inl room ↦
          let (part, all) =
            subst (λ (c' : Channel). Delivers c'.buffer published received waiting')
              (then_branch c room) d in
          let one_list = append_assoc c.buffer (event ∷ []) published in
          (
            subst (Sublist (received ++ waiting')) one_list part,
            λ few. all (omega (arith, few, length-append c.buffer (event ∷ []))) ∙ one_list,
          )
      | inr full ↦
          let (part, all) =
            subst (λ (c' : Channel). Delivers c'.buffer published received waiting')
              (else_branch _ full) d in
          (
            Sublist.trans part (sublist-gap c.buffer published event),
            λ few. absurd (ground (arith, full, few)),
          )
    ]

receive-Delivers :
    (rest : List Event) (event : Event) (published received waiting' : List Event)
    → Delivers rest published received waiting'
    → Delivers (event ∷ rest) published (event ∷ received) waiting'
receive-Delivers rest event published received waiting' (part, all) =
    (Sublist.cons-cons event part, λ few. ap (λ l. event ∷ l) (all (omega (arith, few))))

-- The channel is made, listed, and open.
abbrev pub Subscribed : ℕ → Hub → Type 0
Subscribed ch h = (ch < h.made) × ((h.channels ch).is_closed ≡ false)

-- What a call does to the channel.
abbrev Leaves : ℕ → Hub → Channel → Type 0
Leaves ch h1 c = (ch < h1.made) × (h1.channels ch ≡ c)

publish-Leaves :
    (ch : ℕ) (h h1 : Hub) (event : Event)
    → Reachable h
    → Subscribed ch h
    → publish h event ≡ some h1
    → Leaves ch h1 (offer event (h.channels ch))
publish-Leaves ch h h1 event before (made, is_open) done =
    let s = Reachable-IsSound h before in
    let (channels', done', each) = publish_lem h event s in
    let next : Hub = record h { log = append_log h.capacity h.log event; channels = channels' } in
    let same = some_eq h1 next (sym done ∙ done') in
    (
      subst (λ (x : Hub). ch < x.made) (sym same) made,
      ap (λ (x : Hub). x.channels ch) same
          ∙ each ch
          ∙ ap (λ o. offered event o (h.channels ch)) (s.held ch made is_open),
    )

receive-Leaves :
    (ch : ℕ) (h h1 : Hub) (event : Event)
    → Subscribed ch h
    → receive h ch ≡ some (event, h1)
    → (rest : List Event) × ((h.channels ch).buffer ≡ event ∷ rest)
      × Leaves ch h1 (record (h.channels ch) { buffer = rest })
receive-Leaves ch h h1 event (made, is_open) took =
    let (rest, starts, e) = receive_lem h ch event h1 (h.channels ch).buffer refl took in
    (
      rest,
      starts,
      (
        subst (λ (x : Hub). ch < x.made) (sym e) made,
        ap (λ (x : Hub). x.channels ch) e
            ∙ put_self h.channels ch (record (h.channels ch) { buffer = rest }),
      ),
    )

other_receive-Leaves :
    (ch j : ℕ) (h h1 : Hub) (event : Event)
    → Subscribed ch h
    → (j == ch) ≡ false
    → receive h j ≡ some (event, h1)
    → Leaves ch h1 (h.channels ch)
other_receive-Leaves ch j h h1 event (made, is_open) other took =
    let (rest, starts, e) = receive_lem h j event h1 (h.channels j).buffer refl took in
    (
      subst (λ (x : Hub). ch < x.made) (sym e) made,
      ap (λ (x : Hub). x.channels ch) e ∙ else_branch _ other,
    )

subscribe-Leaves : (ch : ℕ) (h : Hub) → Subscribed ch h → Leaves ch (subscribe h).0 (h.channels ch)
unfolding subscribe
subscribe-Leaves ch h (made, is_open) =
    (omega (arith, made), else_branch {b = h.made == ch} new_channel (ground (arith, made)))

unsubscribe-Leaves :
    (ch j : ℕ) (h h1 : Hub)
    → Subscribed ch h
    → (j == ch) ≡ false
    → unsubscribe h j ≡ some h1
    → Leaves ch h1 (h.channels ch)
unfolding unsubscribe
unsubscribe-Leaves ch j h h1 (made, is_open) other left = elim (Bool-cases (h.channels j).once) [
  | inl done ↦
      let same = some_eq h h1 (sym (then_branch _ done) ∙ left) in
      (subst (λ (x : Hub). ch < x.made) same made, ap (λ (x : Hub). x.channels ch) (sym same))
  | inr first ↦ elim (Bool-cases (h.channels j).is_closed) [
    | inl closed ↦
        let no : Path (Option Hub) none (some h1) =
          sym (else_branch (some h) first ∙ then_branch _ closed) ∙ left in
        absurd cc
    | inr is_open' ↦
        let h' : Hub = record h {
          subscribers = keep_keys (λ i. not (i == j)) h.subscribers;
          channels = put h.channels j (record (h.channels j) { is_closed = true; once = true });
        } in
        let same =
          some_eq h' h1 (sym (else_branch (some h) first ∙ else_branch none is_open') ∙ left) in
        (
          subst (λ (x : Hub). ch < x.made) same made,
          ap (λ (x : Hub). x.channels ch) (sym same) ∙ else_branch _ other,
        )
  ]
]

-- A subscriber that does not unsubscribe, in any state that is reached, and any calls: what it has
-- received and what waits for it are, in order, events that were waiting and that were published;
-- and they are just those, as long as these are no more than 128.
pub Run-Delivers :
    (ch : ℕ) (h h' : Hub) (published received : List Event)
    → Reachable h
    → Subscribed ch h
    → Run ch h published received h'
    → Delivers (h.channels ch).buffer published received (h'.channels ch).buffer
Run-Delivers ch h h' _ _ before here (ends _) =
    let same = sym (append-nil (h.channels ch).buffer) in
    (subst (Sublist (h.channels ch).buffer) same (Sublist.refl _), λ few. same)
Run-Delivers ch h h' _ _ before here (an_event _ h1 _ event published received done run) =
    let (made, e) = publish-Leaves ch h h1 event before here done in
    let still = ap Channel.is_closed e ∙ offer-open event (h.channels ch) ∙ here.1 in
    let onward = goes_on h h1 before (subst (Step h) done (publishes event)) in
    offer-Delivers (h.channels ch) event published received (h'.channels ch).buffer (
      subst (λ (c : Channel). Delivers c.buffer published received (h'.channels ch).buffer) e
        (Run-Delivers ch h1 h' published received onward (made, still) run))
Run-Delivers ch h h' _ _ before here (a_receive _ h1 _ event published received took run) =
    let (rest, starts, (made, e)) = receive-Leaves ch h h1 event here took in
    let onward = goes_on h h1 before (receives ch event h1 took) in
    subst (λ l. Delivers l published (event ∷ received) (h'.channels ch).buffer) (sym starts)
      (receive-Delivers rest event published received (h'.channels ch).buffer (
        subst (λ (c : Channel). Delivers c.buffer published received (h'.channels ch).buffer) e
          (Run-Delivers ch h1 h' published received onward (made, ap Channel.is_closed e ∙ here.1)
            run)))
Run-Delivers ch h h' published received before here
      (other_receive _ h1 _ j event _ _ other took run) =
    let (made, e) = other_receive-Leaves ch j h h1 event here other took in
    let onward = goes_on h h1 before (receives j event h1 took) in
    subst (λ (c : Channel). Delivers c.buffer published received (h'.channels ch).buffer) e
      (Run-Delivers ch h1 h' published received onward (made, ap Channel.is_closed e ∙ here.1) run)
Run-Delivers ch h h' published received before here (a_subscriber _ _ _ _ run) =
    let (made, e) = subscribe-Leaves ch h here in
    let onward = goes_on h (subscribe h).0 before subscribes in
    subst (λ (c : Channel). Delivers c.buffer published received (h'.channels ch).buffer) e
      (Run-Delivers ch (subscribe h).0 h' published received onward
        (made, ap Channel.is_closed e ∙ here.1) run)
Run-Delivers ch h h' published received before here (other_leaves _ h1 _ j _ _ other lt left run) =
    let (made, e) = unsubscribe-Leaves ch j h h1 here other left in
    let onward = goes_on h h1 before (subst (Step h) left (unsubscribes j lt)) in
    subst (λ (c : Channel). Delivers c.buffer published received (h'.channels ch).buffer) e
      (Run-Delivers ch h1 h' published received onward (made, ap Channel.is_closed e ∙ here.1) run)
