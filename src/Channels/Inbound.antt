-- ===== src/Channels/Inbound.antt =====
-- The inbound queue of a channel (src/channels.rs): the protocol sends to it, and the user polls the
-- `Channel` as a stream.
use hypercore_protocol_rs.Prelude.{
  ℕ, zero, suc, ◌≡◌, refl, sym, ap, subst, Option, none, some, List, [], ◌∷◌, ◌++◌, length, Result,
  ok, err, io, other,
}
use hypercore_protocol_rs.Wire.{External}
use hypercore_protocol_rs.Message.{Message}
use hypercore_protocol_rs.Platform.{Platform, Poll, ready, Sent, sent, full, closed}
use hypercore_protocol_rs.Channels.Handle
use hypercore_protocol_rs.Channels.Handle.{Channel, ChannelHandle}
use hypercore_protocol_rs.Channels.Map.{ChannelMap, get_remote, forward_inbound_message}

-- An unbounded queue of `async_channel` is first-in, first-out: while there is a receiver, `try_send` puts
-- a message behind the others, and the receiver yields the first.
pub record QueueLaws {x : External} (p : Platform x) : Type 1 where
  pub contents : ℕ → p.Queues → List (Message x)
  pub HasReceiver : ℕ → p.Queues → Type 0
  pub try_send_lem :
      (tx : ℕ) (m : Message x) (q : p.Queues)
      → HasReceiver tx q
      → let (r, q') = p.try_send tx m q in
        (r ≡ sent) × (contents tx q' ≡ contents tx q ++ (m ∷ [])) × HasReceiver tx q'
  pub receive_lem :
      (rx : ℕ) (m : Message x) (ms : List (Message x)) (q : p.Queues)
      → contents rx q ≡ m ∷ ms
      → let (r, q') = p.receive rx q in (r ≡ ready (some m)) × (contents rx q' ≡ ms)

module _ {x : External} (p : Platform x) where
  -- `Stream::poll_next` of `Channel`: without a receiver the stream is at its end.
  abbrev poll_receiver : Option ℕ → p.Queues → Poll (Option (Message x)) × p.Queues
  poll_receiver none queues = (ready none, queues)
  poll_receiver (some rx) queues = p.receive rx queues

  unfoldable pub poll_next : Channel → p.Queues → Poll (Option (Message x)) × p.Queues
  poll_next c queues = poll_receiver c.inbound_rx queues

  abbrev read_on : Poll (Option (Message x)) → List (Message x) → List (Message x)
  read_on (ready (some m)) rest = m ∷ rest
  read_on _ rest = []

  -- What up to `n` polls of a channel yield, until one yields nothing.
  unfoldable pub reads : ℕ → Channel → p.Queues → List (Message x)
  reads zero c queues = []
  reads (suc n) c queues = let (r, queues') = poll_next c queues in read_on r (reads n c queues')

module _ {x : External} (p : Platform x) (laws : QueueLaws p) where
  pub reads-contents :
      (ms : List (Message x)) (c : Channel) (rx : ℕ) (q : p.Queues)
      → c.inbound_rx ≡ some rx
      → laws.contents rx q ≡ ms
      → reads p (length ms) c q ≡ ms
  unfolding reads poll_next
  reads-contents [] c rx q e h = refl
  reads-contents (m ∷ ms) c rx q e h =
      let (yields, left) = laws.receive_lem rx m ms q h in
      let polled : poll_next p c q ≡ p.receive rx q = rw e in
      let rest = reads-contents ms c rx (p.receive rx q).1 e left in
      rw (reads, polled, yields) (ap (λ (l : List (Message x)). m ∷ l) rest)

  try_send_inbound-sent :
      (tx : ℕ) (msg : Message x) (h : ChannelHandle) (q : p.Queues)
      → h.inbound_tx ≡ some tx
      → (p.try_send tx msg q).0 ≡ sent
      → Handle.try_send_inbound p h msg q ≡ ok (p.try_send tx msg q).1
  unfolding Handle.try_send_inbound
  try_send_inbound-sent tx msg h q is_open taken = go h.inbound_tx is_open
    where
      outcome : Sent → Result p.Queues
      outcome r = elim r [
        | sent ↦ ok (p.try_send tx msg q).1
        | full ↦ err (io other)
        | closed ↦ err (io other)
      ]

      on_tx :
          Handle.try_send_inbound p (record h { inbound_tx = some tx }) msg q
          ≡ ok (p.try_send tx msg q).1
      on_tx = ap outcome taken

      go :
          (o : Option ℕ)
          → o ≡ some tx
          → Handle.try_send_inbound p (record h { inbound_tx = o }) msg q
            ≡ ok (p.try_send tx msg q).1
      go o e =
          subst
            (λ (o : Option ℕ).
              Handle.try_send_inbound p (record h { inbound_tx = o }) msg q
              ≡ ok (p.try_send tx msg q).1)
            (sym e) on_tx

  -- A message for a channel that is open, on its remote id, is put into its queue.
  pub forward-contents :
      (id tx : ℕ) (msg : Message x) (m : ChannelMap p) (h : ChannelHandle)
      → get_remote p id m ≡ some h
      → h.inbound_tx ≡ some tx
      → laws.HasReceiver tx m.queues
      → let q = (p.try_send tx msg m.queues).1 in
        (forward_inbound_message p id msg m ≡ ok (record m { queues = q }))
        × (laws.contents tx q ≡ laws.contents tx m.queues ++ (msg ∷ []))
        × laws.HasReceiver tx q
  unfolding forward_inbound_message
  forward-contents id tx msg m h present is_open receives =
      let (taken, put, still) = laws.try_send_lem tx msg m.queues receives in
      (
        rw (
          forward_inbound_message,
          present,
          try_send_inbound-sent tx msg h m.queues is_open taken,
        ),
        put,
        still,
      )
