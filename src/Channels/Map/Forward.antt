-- ===== src/Channels/Map/Forward.antt =====
-- What `forward_inbound_message` and `forward_inbound_message_tolerate_closed` of src/channels.rs change:
-- the inbound queues.
use hypercore_protocol_rs.Prelude.{
  ℕ, ◌≡◌, refl, ◌⊎◌, inl, inr, Option, Option-cases, none, some, Result, Error, ok, err, io, other,
}
use hypercore_protocol_rs.Wire.{External}
use hypercore_protocol_rs.Message.{Message}
use hypercore_protocol_rs.Platform.{Platform, Sent, sent, full, closed}
use hypercore_protocol_rs.Channels.Handle
use hypercore_protocol_rs.Channels.Handle.{ChannelHandle}
use hypercore_protocol_rs.Channels.Map.{
  ChannelMap, get_remote, forward_inbound_message, forward_inbound_message_tolerate_closed,
}

module _ {x : External} (p : Platform x) where
  -- An error, or the map with its queues changed.
  abbrev pub Forwards : ChannelMap p → Result (ChannelMap p) → Type 0
  Forwards m r = ((e : Error) × (r ≡ err e)) ⊎ ((q : p.Queues) × (r ≡ ok (record m { queues = q })))

  abbrev Sends : Result p.Queues → Type 0
  Sends r = ((e : Error) × (r ≡ err e)) ⊎ ((q : p.Queues) × (r ≡ ok q))

  try_send_inbound-Sends :
      (h : ChannelHandle) (message : Message x) (q : p.Queues)
      → Sends (Handle.try_send_inbound p h message q)
  unfolding Handle.try_send_inbound
  try_send_inbound-Sends h message q = go h.inbound_tx
    where
      result :
          (r : Sent) (q' : p.Queues)
          → Sends (elim r [ sent ↦ ok q' | full ↦ err (io other) | closed ↦ err (io other) ])
      result sent q' = inr (q', refl)
      result full q' = inl (io other, refl)
      result closed q' = inl (io other, refl)

      go :
          (tx : Option ℕ)
          → Sends (Handle.try_send_inbound p (record h { inbound_tx = tx }) message q)
      go none = inl (io other, refl)
      go (some tx) = result (p.try_send tx message q).0 (p.try_send tx message q).1

  tolerate-Sends :
      (h : ChannelHandle) (message : Message x) (q : p.Queues)
      → Sends (Handle.try_send_inbound_tolerate_closed p h message q)
  unfolding Handle.try_send_inbound_tolerate_closed
  tolerate-Sends h message q = go h.inbound_tx
    where
      result :
          (r : Sent) (q' : p.Queues)
          → Sends (elim r [ sent ↦ ok q' | full ↦ err (io other) | closed ↦ ok q' ])
      result sent q' = inr (q', refl)
      result full q' = inl (io other, refl)
      result closed q' = inr (q', refl)

      go :
          (tx : Option ℕ)
          → Sends
              (Handle.try_send_inbound_tolerate_closed p (record h { inbound_tx = tx }) message q)
      go none = inr (q, refl)
      go (some tx) = result (p.try_send tx message q).0 (p.try_send tx message q).1

  -- The queue of a handle has no room for a message.
  abbrev pub IsFull : ChannelHandle → Message x → p.Queues → Type 0
  IsFull h message q = (tx : ℕ) × (h.inbound_tx ≡ some tx) × ((p.try_send tx message q).0 ≡ full)

  -- Only a full queue refuses a message.
  abbrev Tolerates : ChannelHandle → Message x → p.Queues → Result p.Queues → Type 0
  Tolerates h message q r =
      (IsFull h message q × (r ≡ err (io other)))
      ⊎ ((IsFull h message q → ⊥) × ((q' : p.Queues) × (r ≡ ok q')))

  tolerate-Tolerates :
      (h : ChannelHandle) (message : Message x) (q : p.Queues)
      → Tolerates h message q (Handle.try_send_inbound_tolerate_closed p h message q)
  unfolding Handle.try_send_inbound_tolerate_closed
  tolerate-Tolerates h message q = go h.inbound_tx refl
    where
      result :
          (tx : ℕ) (r : Sent)
          → h.inbound_tx ≡ some tx
          → (p.try_send tx message q).0 ≡ r
          → Tolerates h message q (Handle.try_send_inbound_tolerate_closed p h message q)
      result tx sent e f = inr (
        λ (tx', e', is_full). let same : tx' ≡ tx = cc in cc (rw same at is_full),
        ((p.try_send tx message q).1, rw (Handle.try_send_inbound_tolerate_closed, e, f)),
      )
      result tx full e f = inl ((tx, e, f), rw (Handle.try_send_inbound_tolerate_closed, e, f))
      result tx closed e f = inr (
        λ (tx', e', is_full). let same : tx' ≡ tx = cc in cc (rw same at is_full),
        ((p.try_send tx message q).1, rw (Handle.try_send_inbound_tolerate_closed, e, f)),
      )

      go :
          (tx : Option ℕ)
          → h.inbound_tx ≡ tx
          → Tolerates h message q (Handle.try_send_inbound_tolerate_closed p h message q)
      go none e =
          inr (λ (tx, e', is_full). cc, (q, rw (Handle.try_send_inbound_tolerate_closed, e)))
      go (some tx) e = result tx (p.try_send tx message q).0 e refl

  pub forward_tolerate-found :
      (id : ℕ) (message : Message x) (m : ChannelMap p) (h : ChannelHandle)
      → get_remote p id m ≡ some h
      → (IsFull h message m.queues
          × (forward_inbound_message_tolerate_closed p id message m ≡ err (io other)))
        ⊎ ((IsFull h message m.queues → ⊥)
            × ((q : p.Queues) × (forward_inbound_message_tolerate_closed p id message m
                  ≡ ok (record m { queues = q }))))
  unfolding forward_inbound_message_tolerate_closed
  forward_tolerate-found id message m h found = elim (tolerate-Tolerates h message m.queues) [
    | inl (is_full, failed) ↦
        inl (is_full, rw (forward_inbound_message_tolerate_closed, found, failed))
    | inr (room, (q, done)) ↦
        inr (room, (q, rw (forward_inbound_message_tolerate_closed, found, done)))
  ]

  pub forward-cases :
      (id : ℕ) (message : Message x) (m : ChannelMap p)
      → Forwards m (forward_inbound_message p id message m)
  unfolding forward_inbound_message
  forward-cases id message m = elim (Option-cases (get_remote p id m)) [
    | inl unknown ↦ inr (m.queues, rw (forward_inbound_message, unknown))
    | inr (h, found) ↦ elim (try_send_inbound-Sends h message m.queues) [
      | inl (e, failed) ↦ inl (e, rw (forward_inbound_message, found, failed))
      | inr (q, done) ↦ inr (q, rw (forward_inbound_message, found, done))
    ]
  ]

  pub forward_tolerate-cases :
      (id : ℕ) (message : Message x) (m : ChannelMap p)
      → Forwards m (forward_inbound_message_tolerate_closed p id message m)
  unfolding forward_inbound_message_tolerate_closed
  forward_tolerate-cases id message m = elim (Option-cases (get_remote p id m)) [
    | inl unknown ↦ inr (m.queues, rw (forward_inbound_message_tolerate_closed, unknown))
    | inr (h, found) ↦ elim (tolerate-Sends h message m.queues) [
      | inl (e, failed) ↦ inl (e, rw (forward_inbound_message_tolerate_closed, found, failed))
      | inr (q, done) ↦ inr (q, rw (forward_inbound_message_tolerate_closed, found, done))
    ]
  ]
