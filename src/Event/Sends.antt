-- ===== src/Event/Sends.antt =====
-- internal/event/hub.go: what a publication does to the log and to each channel.
use mahiron.Prelude.{
  ℕ, ◌-◌, ◌≤◌, ◌≡◌, refl, ap, ◌∙◌, subst, false, Option, none, some, List, [], ◌∷◌, ◌++◌, ◌==◌,
  length, length-append, length-drop, inl, inr, else_branch, Bool-cases, ==→eq, arith,
}
use mahiron.Prelude.Maps.{put}
use mahiron.Prelude.Dict.{lookup, NodupKeys}
use mahiron.Event.{Event, Channel, Subscribers, append_log, offer, send, send_each}

-- The channel of a map entry after a send.
abbrev pub offered : Event → Option (Unit {0}) → Channel → Channel
offered event none c = c
offered event (some _) c = offer event c

pub offer-open : (event : Event) (c : Channel) → (offer event c).is_closed ≡ c.is_closed
unfolding offer
offer-open event c = ground arith

send_each-next :
    (event : Event) (k : ℕ) (u : Unit) (d : Subscribers) (channels : ℕ → Channel)
    → (channels k).is_closed ≡ false
    → send_each event ((k, u) ∷ d) channels
      ≡ send_each event d (put channels k (offer event (channels k)))
unfolding send_each send
send_each-next event k u d channels is_open =
    ap
      (λ (o : Option Channel). elim o [
        | none ↦ none
        | some c ↦ send_each event d (put channels k c)
      ])
      (else_branch none is_open)

-- A send to channels that are open reaches each of them, once.
pub send_each_lem :
    (event : Event) (d : Subscribers) (channels : ℕ → Channel)
    → NodupKeys d
    → ((ch : ℕ) → lookup ch d ≡ some tt → (channels ch).is_closed ≡ false)
    → (channels' : ℕ → Channel) × (send_each event d channels ≡ some channels')
      × ((ch : ℕ) → channels' ch ≡ offered event (lookup ch d) (channels ch))
unfolding send_each
send_each_lem event [] channels u are_open = (channels, refl, λ ch. refl)
send_each_lem event ((k, _) ∷ d) channels (fresh, u) are_open =
    let is_open = are_open k (ground arith) in
    let (channels', sent, each) =
      send_each_lem event d (put channels k (offer event (channels k))) u λ ch there.
        elim (Bool-cases (k == ch)) [
          | inl here ↦ rw here (offer-open event (channels k) ∙ is_open)
          | inr apart ↦ rw apart (are_open ch (ground (arith, apart, there)))
        ] in
    (
      channels',
      send_each-next event k tt d channels is_open ∙ sent,
      λ ch. each ch ∙ (elim (Bool-cases (k == ch)) [
        | inl here ↦
            let same = ==→eq k ch here in
            subst
              (λ j.
                offered event (lookup j d) (put channels k (offer event (channels k)) j)
                ≡ offered event (lookup j ((k, tt) ∷ d)) (channels j))
              same (ground (arith, fresh))
        | inr apart ↦ ground (arith, apart)
      ]),
    )

pub log_fits_lem :
    (capacity : ℕ) (log : List Event) (event : Event)
    → length log ≤ capacity
    → length (append_log capacity log event) ≤ capacity
unfolding append_log
log_fits_lem capacity log event fits = ground (
  arith,
  length-append log (event ∷ []),
  length-drop (length (log ++ event ∷ []) - capacity) (log ++ event ∷ []),
)

offer-fits :
    (event : Event) (c : Channel) → length c.buffer ≤ 128 → length (offer event c).buffer ≤ 128
unfolding offer
offer-fits event c fits = ground (arith, length-append c.buffer (event ∷ []))

offer-once : (event : Event) (c : Channel) → (offer event c).once ≡ c.once
unfolding offer
offer-once event c = ground arith

-- What a send leaves of a channel as it was.
pub offered-same :
    (event : Event) (o : Option Unit) (c : Channel)
    → ((offered event o c).is_closed ≡ c.is_closed)
      × ((offered event o c).once ≡ c.once)
      × (length c.buffer ≤ 128 → length (offered event o c).buffer ≤ 128)
offered-same event none c = (refl, refl, λ fits. fits)
offered-same event (some u) c = (offer-open event c, offer-once event c, offer-fits event c)
