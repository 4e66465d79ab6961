-- ===== src/Channels/User.antt =====
-- The user's side of `Channel` (src/channels.rs). Each call is taken as one step: between the test of the
-- closed flag and the send nothing else runs. A send that waits for room is taken when it returns.
use hypercore_protocol_rs.Prelude.{
  ℕ, ◌<◌, ◌≡◌, sym, ap, ◌∙◌, Bool, true, false, if◌then◌else◌, Option, none, some, List, [], ◌∷◌,
  ◌++◌, map, length, set, get_elem?, get_elem?-set_self, Result, ok, err, io, connection_aborted,
  bytes_eq, ◌&&◌, ◌==◌, broken_pipe,
}
use hypercore_protocol_rs.Wire.{Bytes, External}
use hypercore_protocol_rs.Message.{Message, close_msg, local_signal}
use hypercore_protocol_rs.ChannelMessage.{ChannelMessage, new as new_message}
use hypercore_protocol_rs.Channels.Handle.{Channel}

-- What a channel shares with the protocol: the closed flags, and the queue `outbound_tx`, which fails
-- when the protocol no longer receives from it.
pub record Shared (x : External) : Type 0 where
  pub flags : List Bool
  pub outbound : List (List (ChannelMessage x))
  pub receiving : Bool

-- `PartialEq for Channel`
abbrev pub same_channel : Channel → Channel → Bool
same_channel c other =
    bytes_eq c.key other.key
    && bytes_eq c.discovery_key other.discovery_key
    && (c.local_id == other.local_id)

abbrev pub id : Channel → ℕ
id c = c.local_id

-- `take_receiver`: the receiver, and the channel without it.
abbrev pub take_receiver : Channel → Option ℕ × Channel
take_receiver c = (c.inbound_rx, record c { inbound_rx = none })

-- `local_sender`
abbrev pub local_sender : Channel → ℕ
local_sender c = c.direct_inbound_tx

module _ {x : External} where
  -- The flag of a channel is allocated with its handle.
  unfoldable pub closed : Channel → Shared x → Bool
  closed c w = elim (get_elem? w.flags c.closed) [ none ↦ true | some b ↦ b ]

  -- `outbound_tx.send(messages).await.map_err(map_channel_err)`
  unfoldable pub send_outbound : List (ChannelMessage x) → Shared x → Result (Unit {0}) × Shared x
  send_outbound messages w =
      if w.receiving
      then (ok tt, record w { outbound = w.outbound ++ (messages ∷ []) })
      else (err (io broken_pipe), w)

  unfoldable pub send_batch : Channel → List (Message x) → Shared x → Result (Unit {0}) × Shared x
  unfolding send_outbound closed
  send_batch c messages w =
      if closed c w
      then (err (io connection_aborted), w)
      else send_outbound (map (new_message x c.local_id) messages) w

  unfoldable pub send : Channel → Message x → Shared x → Result (Unit {0}) × Shared x
  unfolding send_outbound closed
  send c message w =
      if closed c w
      then (err (io connection_aborted), w)
      else send_outbound (new_message x c.local_id message ∷ []) w

  unfoldable pub signal_local_protocol :
      Channel → Bytes → Bytes → Shared x → Result (Unit {0}) × Shared x
  signal_local_protocol c name data' = send c (local_signal name data')

  -- The flag is set when the close message is sent.
  set_closed : Channel → Result (Unit {0}) × Shared x → Result (Unit {0}) × Shared x
  set_closed c (ok u, w) = (ok tt, record w { flags = set w.flags c.closed true })
  set_closed c (r, w) = (r, w)

  unfoldable pub close : Channel → Shared x → Result (Unit {0}) × Shared x
  unfolding set_closed
  close c w =
      if closed c w
      then (ok tt, w)
      else set_closed c (send c (close_msg (record { channel = c.local_id })) w)

  abbrev pub close_message : Channel → ChannelMessage x
  close_message c = new_message x c.local_id (close_msg (record { channel = c.local_id }))

  -- What `close` leaves of an open channel's shared state.
  abbrev after_close : Channel → Shared x → Shared x
  after_close c w = record w {
    flags = set w.flags c.closed true;
    outbound = w.outbound ++ ((close_message c ∷ []) ∷ []);
  }

  abbrev returned : Shared x → Result (Unit {0}) × Shared x
  returned w = (ok tt, w)

  abbrev second : Result (Unit {0}) × Shared x → Shared x
  second r = r.1

  send-open :
      (c : Channel) (message : Message x) (w : Shared x)
      → closed c w ≡ false
      → w.receiving ≡ true
      → send c message w ≡ (
        ok tt,
        record w { outbound = w.outbound ++ ((new_message x c.local_id message ∷ []) ∷ []) },
      )
  unfolding send send_outbound
  send-open c message w still receives = simp (send, still, send_outbound, receives)

  open-closed :
      (c : Channel) (w : Shared x) → get_elem? w.flags c.closed ≡ some false → closed c w ≡ false
  unfolding closed
  open-closed c w e = rw (closed, e)

  closes :
      (c : Channel) (w : Shared x)
      → get_elem? w.flags c.closed ≡ some false
      → w.receiving ≡ true
      → close c w ≡ (ok tt, after_close c w)
  unfolding close set_closed
  closes c w is_open receives =
      let still = open-closed c w is_open in
      rw (close, still, send-open c (close_message c).message w still receives)

  closed-after :
      (c : Channel) (w : Shared x) → get_elem? w.flags c.closed ≡ some true → closed c w ≡ true
  unfolding closed
  closed-after c w e = rw (closed, e)

  close-closed : (c : Channel) (w : Shared x) → closed c w ≡ true → close c w ≡ (ok tt, w)
  unfolding close
  close-closed c w e = rw (e, close)

  send-closed :
      (c : Channel) (message : Message x) (w : Shared x)
      → closed c w ≡ true
      → send c message w ≡ (err (io connection_aborted), w)
  unfolding send
  send-closed c message w e = rw (e, send)

  send_batch-closed :
      (c : Channel) (messages : List (Message x)) (w : Shared x)
      → closed c w ≡ true
      → send_batch c messages w ≡ (err (io connection_aborted), w)
  unfolding send_batch
  send_batch-closed c messages w e = rw (e, send_batch)

  -- On a channel that is open, while the protocol receives, `close` sends exactly the close message of
  -- the channel and marks it closed. To close it again does nothing, and to send on it is refused with
  -- `ConnectionAborted` and sends nothing.
  pub close_lem :
      (c : Channel) (message : Message x) (messages : List (Message x)) (w : Shared x)
      → get_elem? w.flags c.closed ≡ some false
      → c.closed < length w.flags
      → w.receiving ≡ true
      → let w' = (close c w).1 in
        (close c w ≡ (ok tt, w'))
        × (w'.outbound ≡ w.outbound ++ ((close_message c ∷ []) ∷ []))
        × (closed c w' ≡ true)
        × (close c w' ≡ (ok tt, w'))
        × (send c message w' ≡ (err (io connection_aborted), w'))
        × (send_batch c messages w' ≡ (err (io connection_aborted), w'))
  close_lem c message messages w is_open inside receives =
      let sent = closes c w is_open receives in
      let shut : closed c (close c w).1 ≡ true = closed-after c (close c w).1 (
        ap (λ (t : Shared x). get_elem? t.flags c.closed) (ap second sent)
        ∙ get_elem?-set_self w.flags c.closed true inside) in
      (
        sent ∙ ap (λ (t : Shared x). returned t) (sym (ap second sent)),
        ap (λ (t : Shared x). t.outbound) (ap second sent),
        shut,
        close-closed c (close c w).1 shut,
        send-closed c message (close c w).1 shut,
        send_batch-closed c messages (close c w).1 shut,
      )
