-- ===== src/Event/Reach.antt =====
-- internal/event/hub.go: the states that the hub can reach.
use mahiron.Prelude.{
  ◌≢◌, ℕ, zero, suc, ◌≤◌, ◌<◌, ◌≡◌, refl, sym, ap, ◌∙◌, subst, true, false, not, Option, none, some,
  List, [], ◌∷◌, ◌==◌, length, inl, inr, else_branch, some_eq, Bool-cases, arith,
}
use mahiron.Prelude.Int.{ℤ, pos, negsuc, or_default}
use mahiron.Prelude.Maps.{put}
use mahiron.Prelude.Dict.{
  lookup, keep_keys, NodupKeys, lookup-insert, lookup-keep_keys, insert-NodupKeys,
  keep_keys-NodupKeys,
}
use mahiron.Event.{
  Event, Channel, Hub, new_with_capacity, append_log, publish, subscribe, unsubscribe, receive,
}
use mahiron.Event.Sends.{offered, send_each_lem, offered-same, log_fits_lem}

-- The channels listed are just those that are made and not closed; no channel and no log is over
-- its capacity.
pub record IsSound (h : Hub) : Type 0 where
  pub unique : NodupKeys h.subscribers
  pub listed :
      (ch : ℕ)
      → lookup ch h.subscribers ≡ some tt
      → (ch < h.made) × ((h.channels ch).is_closed ≡ false)
  pub held :
      (ch : ℕ) → ch < h.made → (h.channels ch).is_closed ≡ false → lookup ch h.subscribers ≡ some tt
  pub agree : (ch : ℕ) → (h.channels ch).once ≡ (h.channels ch).is_closed
  pub positive : 1 ≤ h.capacity
  pub log_fits : length h.log ≤ h.capacity
  pub buffers_fit : (ch : ℕ) → length (h.channels ch).buffer ≤ 128

-- A call, and what it leaves: no hub after a panic.
pub data Step (h : Hub) : Option Hub → Type 0 where
  publishes : (event : Event) → Step h (publish h event)
  subscribes : Step h (some (subscribe h).0)
  unsubscribes : (ch : ℕ) → ch < h.made → Step h (unsubscribe h ch)
  receives :
      (ch : ℕ) (event : Event) (h' : Hub) → receive h ch ≡ some (event, h') → Step h (some h')

pub data Reachable : Hub → Type 0 where
  begins : (capacity : ℤ) → Reachable (new_with_capacity capacity)
  goes_on : (h h' : Hub) → Reachable h → Step h (some h') → Reachable h'

-- What a publication leaves of a sound hub.
pub publish_lem :
    (h : Hub) (event : Event)
    → IsSound h
    → (channels' : ℕ → Channel) × (publish h event
        ≡ some (record h { log = append_log h.capacity h.log event; channels = channels' }))
      × ((ch : ℕ) → channels' ch ≡ offered event (lookup ch h.subscribers) (h.channels ch))
unfolding publish
publish_lem h event s =
    let (channels', sent, each) =
      send_each_lem event h.subscribers h.channels s.unique λ ch there. (s.listed ch there).1 in
    (channels', rw (sent, publish) refl, each)

publish-IsSound :
    (h : Hub) (event : Event) → IsSound h → (h' : Hub) × (publish h event ≡ some h') × IsSound h'
publish-IsSound h event s =
    let (channels', done, each) = publish_lem h event s in
    let same = λ (ch : ℕ). offered-same event (lookup ch h.subscribers) (h.channels ch) in
    (
      _,
      done,
      record {
        unique = s.unique;
        listed = λ ch there. (
          (s.listed ch there).0,
          ap Channel.is_closed (each ch) ∙ (same ch).0 ∙ (s.listed ch there).1,
        );
        held = λ ch lt is_open.
            s.held ch lt (sym (ap Channel.is_closed (each ch) ∙ (same ch).0) ∙ is_open);
        agree = λ ch.
            ap Channel.once (each ch)
            ∙ (same ch).1
            ∙ s.agree ch
            ∙ sym (ap Channel.is_closed (each ch) ∙ (same ch).0);
        positive = s.positive;
        log_fits = log_fits_lem h.capacity h.log event s.log_fits;
        buffers_fit = λ ch.
            subst (λ (c : Channel). length c.buffer ≤ 128) (sym (each ch))
              ((same ch).2 (s.buffers_fit ch));
      },
    )

subscribe-IsSound : (h : Hub) → IsSound h → IsSound (subscribe h).0
unfolding subscribe
subscribe-IsSound h s = record {
  unique = insert-NodupKeys h.made tt h.subscribers s.unique;
  listed = λ ch there. elim (Bool-cases (ch == h.made)) [
    | inl new ↦ ground (arith, new)
    | inr old ↦ ground (arith, old, there, s.listed ch, lookup-insert ch h.made tt h.subscribers)
  ];
  held = λ ch lt is_open. elim (Bool-cases (ch == h.made)) [
    | inl new ↦ ground (arith, new, lookup-insert ch h.made tt h.subscribers)
    | inr old ↦
        ground (arith, old, lt, is_open, s.held ch, lookup-insert ch h.made tt h.subscribers)
  ];
  agree = λ ch. ground (arith, s.agree ch);
  positive = s.positive;
  log_fits = s.log_fits;
  buffers_fit = λ ch. ground (arith, s.buffers_fit ch);
}

unsubscribe-IsSound :
    (h : Hub) (ch : ℕ)
    → ch < h.made
    → IsSound h
    → (h' : Hub) × (unsubscribe h ch ≡ some h') × IsSound h'
unfolding unsubscribe
unsubscribe-IsSound h ch lt s = elim (Bool-cases (h.channels ch).once) [
  | inl done ↦ (h, rw done refl, s)
  | inr left ↦
      let is_open = sym (s.agree ch) ∙ left in
      let h' : Hub = record h {
        subscribers = keep_keys (λ j. not (j == ch)) h.subscribers;
        channels = put h.channels ch (record (h.channels ch) { is_closed = true; once = true });
      } in
      (
        h',
        else_branch (some h) left ∙ else_branch none is_open,
        record {
          unique = keep_keys-NodupKeys (λ j. not (j == ch)) h.subscribers s.unique;
          listed = λ j there.
              ground
                (arith, there, s.listed j, lookup-keep_keys (λ j. not (j == ch)) j h.subscribers);
          held = λ j lt' open_j.
              ground (
                arith,
                lt',
                open_j,
                s.held j,
                lookup-keep_keys (λ j. not (j == ch)) j h.subscribers,
              );
          agree = λ j. ground (arith, s.agree j);
          positive = s.positive;
          log_fits = s.log_fits;
          buffers_fit = λ j. ground (arith, s.buffers_fit j, s.buffers_fit ch);
        },
      )
]

-- A receive takes the first event of the buffer, and changes nothing else.
pub receive_lem :
    (h : Hub) (ch : ℕ) (event : Event) (h' : Hub) (buffer : List Event)
    → (h.channels ch).buffer ≡ buffer
    → receive h ch ≡ some (event, h')
    → (rest : List Event) × (buffer ≡ event ∷ rest)
      × (h' ≡ record h { channels = put h.channels ch (record (h.channels ch) { buffer = rest }) })
unfolding receive
receive_lem h ch event h' [] e took =
    let no : Path (Option (Event × Hub)) none (some (event, h')) = rw (e, receive) at took in
    absurd cc
receive_lem h ch event h' (x ∷ rest) e took =
    let same = some_eq _ _ (rw (e, receive) at took) in
    (rest, ap (λ (p : Event × Hub). p.0 ∷ rest) same, sym (ap (λ (p : Event × Hub). p.1) same))

receive-IsSound :
    (h : Hub) (ch : ℕ) (event : Event) (h' : Hub)
    → receive h ch ≡ some (event, h')
    → IsSound h
    → IsSound h'
receive-IsSound h ch event h' took s =
    let (rest, starts, e) = receive_lem h ch event h' (h.channels ch).buffer refl took in
    let shorter : length rest ≤ 128 = omega (arith, ap length starts, s.buffers_fit ch) in
    subst IsSound (sym e) (record {
      unique = s.unique;
      listed = λ j there. ground (arith, there, s.listed j);
      held = λ j lt open_j. ground (arith, lt, open_j, s.held j);
      agree = λ j. ground (arith, s.agree j);
      positive = s.positive;
      log_fits = s.log_fits;
      buffers_fit = λ j. ground (arith, s.buffers_fit j, shorter);
    })

-- Of a sound hub no call panics, and each leaves it sound.
pub Step-IsSound :
    (h : Hub) (result : Option Hub)
    → Step h result
    → IsSound h
    → (h' : Hub) × (result ≡ some h') × IsSound h'
Step-IsSound h result (publishes event) s = publish-IsSound h event s
Step-IsSound h result subscribes s = (_, refl, subscribe-IsSound h s)
Step-IsSound h result (unsubscribes ch lt) s = unsubscribe-IsSound h ch lt s
Step-IsSound h result (receives ch event h' took) s =
    (_, refl, receive-IsSound h ch event h' took s)

or_default-positive : (capacity : ℤ) → 1 ≤ or_default capacity 100
or_default-positive (pos zero) = omega arith
or_default-positive (pos (suc n)) = omega arith
or_default-positive (negsuc n) = omega arith

-- In every reachable state the subscribers are just the channels that were made and not closed, each
-- once, the log is within its capacity, which is positive, and no channel holds more than 128 events.
pub Reachable-IsSound : (h : Hub) → Reachable h → IsSound h
unfolding new_with_capacity
Reachable-IsSound h (begins capacity) = record {
  unique = tt;
  listed = λ ch there. cc;
  held = λ ch lt is_open. absurd (omega (arith, lt));
  agree = λ ch. refl;
  positive = or_default-positive capacity;
  log_fits = omega arith;
  buffers_fit = λ ch. omega arith;
}
Reachable-IsSound h' (goes_on h _ before step) =
    let (h'', same, sound) = Step-IsSound h (some h') step (Reachable-IsSound h before) in
    subst IsSound (sym (some_eq h' h'' same)) sound

-- In a reachable state no call panics: none sends to a closed channel, or closes one twice.
pub Reachable-no_panic :
    (h : Hub) (result : Option Hub) → Reachable h → Step h result → result ≢ none
Reachable-no_panic h result before step failed =
    let (h', fine, _) = Step-IsSound h result step (Reachable-IsSound h before) in absurd cc
