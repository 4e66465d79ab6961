-- ===== src/Protocol/Step.antt =====
-- The handlers of src/protocol.rs, and `poll_next`.
use hypercore_protocol_rs.Prelude.{
  ℕ, zero, suc, Bool, true, false, not, ◌&&◌, ◌==◌, if◌then◌else◌, Option, none, some, List, [],
  ◌∷◌, length, Result, ok, err, panic, stuck, io, invalid_input,
}
use hypercore_protocol_rs.Wire.{Bytes, External}
use hypercore_protocol_rs.Schema.Open.{Open}
use hypercore_protocol_rs.Schema.Close.{Close}
use hypercore_protocol_rs.Schema.Flags.{is_some}
use hypercore_protocol_rs.Message.{open_msg, close_msg, local_signal as signal_msg}
use hypercore_protocol_rs.ChannelMessage.{ChannelMessage, new as new_message}
use hypercore_protocol_rs.Platform.{Platform, Poll, ready, pending}
use hypercore_protocol_rs.Crypto.{from_pre_encrypted, protocol_name}
use hypercore_protocol_rs.Crypto
use hypercore_protocol_rs.Channels.Handle
use hypercore_protocol_rs.Channels.Handle.{ChannelHandle, is_connected}
use hypercore_protocol_rs.Channels.Map
use hypercore_protocol_rs.MessageIo
use hypercore_protocol_rs.MessageIo.{is_empty}
use hypercore_protocol_rs.Protocol.State.{
  Protocol, Event, Command, M, ◌>>=◌, ◌>>◌, pure, lift, get, with_channels, set_channels,
  queue_event, enqueue, open_channel, close_channel, signal_local,
}

-- `parse_key`
unfoldable pub parse_key : Bytes → Result Bytes
parse_key key = if length key == 32 then ok key else err (io invalid_input)

module _ {x : External} (p : Platform x) where
  -- The remote key and the handshake hash, which are there after the handshake.
  unfoldable pub handshake_result : Protocol p → Option Crypto.HandshakeResult
  handshake_result s = elim (p.remote_public_key s.io.stream) [
    | none ↦ none
    | some remote ↦ elim (p.handshake_hash s.io.stream) [
      | none ↦ none
      | some hash ↦
          some (from_pre_encrypted s.is_initiator (p.local_public_key s.io.stream) remote hash)
    ]
  ]

  unfoldable pub capability : Bytes → Protocol p → Result (Option Bytes)
  capability key s = elim (handshake_result s) [
    | none ↦ ok none
    | some h ↦ Crypto.capability p h key
  ]

  -- None without a handshake; `accept_channel` expects some, and panics on none.
  unfoldable pub verify_remote_capability : Option Bytes → Bytes → Protocol p → Result (Unit {0})
  verify_remote_capability cap key s = elim (handshake_result s) [
    | none ↦ panic
    | some h ↦ Crypto.verify_remote_capability p h cap key
  ]

  unfoldable pub accept_channel : ℕ → M p (Unit {0})
  accept_channel local_id = do
    s ← get
    (key, remote_capability) ← lift (Map.prepare_to_verify p local_id s.channels)
    lift (verify_remote_capability remote_capability key s)
    channel ← with_channels (Map.accept p local_id)
    queue_event (Event.channel channel)

  -- `channel_handle.local_id().unwrap()`
  unfoldable pub known_id : Option ℕ → Result ℕ
  known_id none = panic
  known_id (some id) = ok id

  unfoldable pub command_open : Bytes → M p (Unit {0})
  unfolding known_id
  command_open key = do
    handle ← with_channels (Map.attach_local p key)
    local_id ← lift (known_id (Handle.local_id handle))
    if is_connected handle then accept_channel local_id else pure tt
    s ← get
    cap ← lift (capability key s)
    enqueue (
        new_message x local_id (
          open_msg (record {
            channel = local_id;
            protocol = protocol_name;
            discovery_key = handle.discovery_key;
            capability = cap;
          })))

  unfoldable pub command_close : Bytes → M p (Unit {0})
  command_close dk = do
    s ← get
    if Map.has_channel p dk s.channels
        then (do set_channels (Map.remove p dk); queue_event (Event.close dk))
        else pure tt

  unfoldable pub command_signal_local : Bytes → Bytes → M p (Unit {0})
  command_signal_local name data' = queue_event (Event.local_signal name data')

  unfoldable pub on_command : Command → M p (Unit {0})
  on_command (open_channel key) = command_open key
  on_command (close_channel dk) = command_close dk
  on_command (signal_local name data') = command_signal_local name data'

  -- `if let Some(channel) = self.channels.get_local(local_id)`
  abbrev pub close_found : Option ChannelHandle → M p (Unit {0})
  close_found none = pure tt
  close_found (some h) = do
    set_channels (Map.remove p h.discovery_key)
    queue_event (Event.close h.discovery_key)

  unfoldable pub close_local : ℕ → M p (Unit {0})
  close_local local_id = do s ← get; close_found (Map.get_local p local_id s.channels)

  -- `on_outbound_message`: whether the message is to be written.
  unfoldable pub on_outbound_message : ChannelMessage x → M p Bool
  on_outbound_message m = elim m.message [
    | close_msg c ↦ (do close_local m.channel; pure true)
    | signal_msg name data' ↦ (do queue_event (Event.local_signal name data'); pure false)
    | _ ↦ pure true
  ]

  -- `messages.retain(|message| self.on_outbound_message(message))`
  unfoldable pub retain : List (ChannelMessage x) → M p (List (ChannelMessage x))
  retain [] = pure []
  retain (m ∷ ms) = do
    keep ← on_outbound_message m
    rest ← retain ms
    pure (if keep then m ∷ rest else rest)

  unfoldable pub enqueue_all : List (ChannelMessage x) → M p (Unit {0})
  enqueue_all [] = pure tt
  enqueue_all (m ∷ ms) = do enqueue m; enqueue_all ms

  abbrev pub on_close_found : ℕ → Close → Option ChannelHandle → M p (Unit {0})
  on_close_found remote_id msg none = pure tt
  on_close_found remote_id msg (some h) = do
    set_channels (Map.forward_inbound_message_tolerate_closed p remote_id (close_msg msg))
    set_channels (Map.remove p h.discovery_key)
    queue_event (Event.close h.discovery_key)

  unfoldable pub on_close : ℕ → Close → M p (Unit {0})
  on_close remote_id msg = do
    s ← get
    on_close_found remote_id msg (Map.get_remote p remote_id s.channels)

  unfoldable pub on_open : ℕ → Open → M p (Unit {0})
  unfolding known_id
  on_open ch msg = do
    dk ← lift (parse_key msg.discovery_key)
    handle ← with_channels (Map.attach_remote p dk ch msg.capability)
    if is_connected handle
        then (do local_id ← lift (known_id (Handle.local_id handle)); accept_channel local_id)
        else queue_event (Event.discovery_key dk)

  unfoldable pub on_inbound_message : ChannelMessage x → M p (Unit {0})
  on_inbound_message m = elim m.message [
    | open_msg msg ↦ on_open m.channel msg
    | close_msg msg ↦ on_close m.channel msg
    | _ ↦ set_channels (Map.forward_inbound_message p m.channel m.message)
  ]

  unfoldable pub on_inbound_channel_messages : List (ChannelMessage x) → M p (Unit {0})
  on_inbound_channel_messages [] = pure tt
  on_inbound_channel_messages (m ∷ ms) = do on_inbound_message m; on_inbound_channel_messages ms

  -- Polls of the io layer, as steps of the protocol.
  unfoldable pub poll_inbound : ℕ → M p (Poll (Option (Result (List (ChannelMessage x)))))
  poll_inbound fuel s =
      let (r, io') = MessageIo.poll_inbound p fuel s.io in (ok r, record s { io = io' })

  unfoldable pub poll_outbound : M p (Poll (Result (Unit {0})))
  poll_outbound s = let (r, io') = MessageIo.poll_outbound p s.io in (ok r, record s { io = io' })

  -- The `match` of `poll_inbound_read`. `again` is the next round of the loop.
  abbrev pub on_polled :
      M p (Unit {0}) → Poll (Option (Result (List (ChannelMessage x)))) → M p (Unit {0})
  on_polled again pending = pure tt
  on_polled again (ready none) = pure tt
  on_polled again (ready (some result)) = do
    messages ← lift result
    on_inbound_channel_messages messages
    again

  -- `fuel` bounds the frames that are read in one poll, and the payloads that are skipped.
  unfoldable pub poll_inbound_read : ℕ → M p (Unit {0})
  poll_inbound_read zero = lift stuck
  poll_inbound_read (suc fuel) = do
    r ← poll_inbound (suc fuel)
    on_polled (poll_inbound_read fuel) r

  -- Each round takes one entry of `outbound_rx`.
  unfoldable pub send_messages : List (ChannelMessage x) → M p (Unit {0})
  send_messages messages = do kept ← retain messages; enqueue_all kept

  abbrev pub on_driven : Poll (Result (Unit {0})) → M p (Unit {0})
  on_driven pending = pure tt
  on_driven (ready result) = lift result

  unfoldable pub drive : M p (Unit {0})
  drive = do r ← poll_outbound; on_driven r

  abbrev pub set_outbound_rx : List (List (ChannelMessage x)) → M p (Unit {0})
  set_outbound_rx rest s = (ok tt, record s { outbound_rx = rest })

  unfoldable pub outbound_write : List (List (ChannelMessage x)) → M p (Unit {0})
  outbound_write [] = drive
  outbound_write (messages ∷ rest) = do
    drive
    set_outbound_rx rest
    send_messages messages
    outbound_write rest

  unfoldable pub poll_outbound_write : M p (Unit {0})
  poll_outbound_write s = outbound_write s.outbound_rx s

  abbrev pub set_command_rx : List Command → M p (Unit {0})
  set_command_rx rest s = (ok tt, record s { command_rx = rest })

  unfoldable pub commands_loop : List Command → M p (Unit {0})
  commands_loop [] = pure tt
  commands_loop (c ∷ cs) = do set_command_rx cs; on_command c; commands_loop cs

  unfoldable pub poll_commands : M p (Unit {0})
  poll_commands s = commands_loop s.command_rx s

  abbrev pub pop_from : List Event → M p (Poll Event)
  pop_from [] s = (ok pending, s)
  pop_from (e ∷ es) s = (ok (ready e), record s { queued_events = es })

  -- `queued_events.pop_front()`
  unfoldable pub pop_event : M p (Poll Event)
  pop_event s = pop_from s.queued_events s

  -- The initiator sends and receives a message before it proceeds: whether it may.
  unfoldable pub first_messages : ℕ → M p Bool
  first_messages fuel = do
    s ← get
    if s.is_initiator && not (is_some (p.handshake_hash s.io.stream))
        then (do
          poll_outbound_write
          poll_inbound_read fuel
          s' ← get
          pure (is_some (p.handshake_hash s'.io.stream)))
        else pure true

  abbrev pub emit_key : Option Bytes → M p (Option Event)
  emit_key none s = (ok none, s)
  emit_key (some key) s = (ok (some (Event.handshake key)), record s { handshake_emitted = true })

  -- The handshake event, once.
  unfoldable pub emit_handshake : M p (Option Event)
  emit_handshake = do
    s ← get
    if s.handshake_emitted then pure none else emit_key (p.remote_public_key s.io.stream)

  unfoldable pub poll_all : ℕ → M p (Poll Event)
  poll_all fuel = do poll_inbound_read fuel; poll_commands; poll_outbound_write; pop_event

  abbrev pub or_poll : ℕ → Poll Event → M p (Poll Event)
  or_poll fuel (ready e) = pure (ready e)
  or_poll fuel pending = poll_all fuel

  abbrev pub or_pop : ℕ → Option Event → M p (Poll Event)
  or_pop fuel (some e) = pure (ready e)
  or_pop fuel none = do queued ← pop_event; or_poll fuel queued

  -- `Protocol::poll_next`: an error of the outer result is `Poll::Ready(Err(e))`.
  unfoldable pub poll_next : ℕ → M p (Poll Event)
  poll_next fuel = do
    proceeds ← first_messages fuel
    if proceeds then (do emitted ← emit_handshake; or_pop fuel emitted) else pure pending
