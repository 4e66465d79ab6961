-- ===== src/Protocol/Handlers.antt =====
-- The other handlers of src/protocol.rs under the invariant: commands, inbound and outbound messages.
use hypercore_protocol_rs.Prelude.{
  ℕ, ◌^◌, ◌<◌, ◌≤◌, Bool, true, false, ◌⊎◌, inl, inr, Option, none, some, length, Result, ◌≡◌,
}
use hypercore_protocol_rs.Wire.{Bytes, External}
use hypercore_protocol_rs.Schema.Close.{Close}
use hypercore_protocol_rs.Message.{
  Message, synchronize, request, cancel, data_msg, no_data, want, unwant, bitfield, range,
  extension, open_msg, close_msg, local_signal,
}
use hypercore_protocol_rs.ChannelMessage.{ChannelMessage}
use hypercore_protocol_rs.Platform.{Platform}
use hypercore_protocol_rs.Channels.Handle.{ChannelHandle}
use hypercore_protocol_rs.Channels.Map
use hypercore_protocol_rs.Channels.Map.Keeps.{remove-IsMap}
use hypercore_protocol_rs.Channels.Map.Forward.{Forwards, forward-cases, forward_tolerate-cases}
use hypercore_protocol_rs.Protocol.State.{
  Protocol, Event, Command, ◌>>◌, pure, set_channels, queue_event, open_channel, close_channel,
  signal_local,
}
use hypercore_protocol_rs.Protocol.Step.{
  command_close, command_signal_local, on_command, close_found, close_local, on_close_found,
  on_outbound_message, on_close, on_inbound_message,
}
use hypercore_protocol_rs.Protocol.Halting.{MacTotal, Established}
use hypercore_protocol_rs.Protocol.Invariant.{
  Inv, Lands, Any, Lands-bind, Lands-if, queue_event-Lands, set_channels-Lands, set_channels-err,
  Context, Stable,
}
use hypercore_protocol_rs.Protocol.Accepting.{command_open-Lands, on_open-Lands}
use hypercore_protocol_rs.Framing.Total.{OnWire}

-- The key of an open command has up to 64 bytes.
abbrev pub KeyFits : Command → Type 0
KeyFits (open_channel key) = length key ≤ 64
KeyFits _ = Unit {0}

module _ {x : External} (p : Platform x) where
  -- An `Open` arrives after the handshake, on an id below 2^57.
  abbrev pub OpenFits : p.Stream → ChannelMessage x → Type 0
  OpenFits stream m = elim m.message [
    | open_msg msg ↦ Established p stream × (m.channel < 2 ^ 57)
    | _ ↦ Unit {0}
  ]

module _ {x : External} (p : Platform x) where
  -- A message is kept for the write queue only if it has a place on the wire.
  abbrev pub KeepsWire : ChannelMessage x → Bool → Protocol p → Type 0
  KeepsWire m keep s = keep ≡ true → OnWire m

module _ {x : External} (p : Platform x) (Z : Type 0) (F : Context p) (stable : Stable F)
    (mac : Z ⊎ MacTotal p) where
  remove-Lands :
      (dk : Bytes) (s : Protocol p) → Inv Z F s → Lands Z F Any (set_channels (Map.remove p dk) s)
  remove-Lands dk s i =
      let (m, e, v) = remove-IsMap p _ dk s.channels i.map in
      set_channels-Lands Z F (Map.remove p dk) m s e v i

  -- `remove`, and the close event.
  closed-Lands :
      (dk : Bytes) (s : Protocol p)
      → Inv Z F s
      → Lands Z F Any ((set_channels (Map.remove p dk) >> queue_event (Event.close dk)) s)
  closed-Lands dk s i =
      Lands-bind Z F Any Any (set_channels (Map.remove p dk)) (λ u. queue_event (Event.close dk)) s
        (remove-Lands dk s i) (λ u s' i' any. queue_event-Lands Z F (Event.close dk) s' tt i')

  command_close-Lands :
      (dk : Bytes) (s : Protocol p) → Inv Z F s → Lands Z F Any (command_close p dk s)
  unfolding command_close
  command_close-Lands dk s i =
      Lands-if Z F Any (Map.has_channel p dk s.channels)
        (set_channels (Map.remove p dk) >> queue_event (Event.close dk)) (pure tt) s
        (λ t. closed-Lands dk s i) (λ t. (i, tt))

  pub on_command-Lands :
      (c : Command) (s : Protocol p) → Z ⊎ KeyFits c → Inv Z F s → Lands Z F Any (on_command p c s)
  unfolding on_command command_signal_local
  on_command-Lands (open_channel key) s small i = command_open-Lands p Z F stable mac key s small i
  on_command-Lands (close_channel dk) s small i = command_close-Lands dk s i
  on_command-Lands (signal_local name d) s small i =
      queue_event-Lands Z F (Event.local_signal name d) s tt i

  close_local-Lands : (id : ℕ) (s : Protocol p) → Inv Z F s → Lands Z F Any (close_local p id s)
  unfolding close_local
  close_local-Lands id s i = go (Map.get_local p id s.channels)
    where
      go : (o : Option ChannelHandle) → Lands Z F Any (close_found p o s)
      go none = (i, tt)
      go (some h) = closed-Lands h.discovery_key s i

  pub on_outbound_message-Lands :
      (m : ChannelMessage x) (s : Protocol p)
      → Inv Z F s
      → Lands Z F (KeepsWire p m) (on_outbound_message p m s)
  unfolding on_outbound_message
  on_outbound_message-Lands m s i = go m.channel m.message
    where
      go :
          (channel : ℕ) (msg : Message x)
          → Lands Z F
              (KeepsWire p (record { channel = channel; message = msg }))
              (on_outbound_message p (record { channel = channel; message = msg }) s)
      go channel (close_msg c) =
          Lands-bind Z F Any _ (close_local p channel) (λ u. pure true) s
            (close_local-Lands channel s i) (λ u s' i' any. (i', λ t. tt))
      go channel (local_signal n d) =
          Lands-bind Z F Any _ (queue_event (Event.local_signal n d)) (λ u. pure false) s
            (queue_event-Lands Z F (Event.local_signal n d) s tt i) (λ u s' i' any. (i', λ t. cc t))
      go channel (synchronize m') = (i, λ t. tt)
      go channel (request m') = (i, λ t. tt)
      go channel (cancel m') = (i, λ t. tt)
      go channel (data_msg m') = (i, λ t. tt)
      go channel (no_data m') = (i, λ t. tt)
      go channel (want m') = (i, λ t. tt)
      go channel (unwant m') = (i, λ t. tt)
      go channel (bitfield m') = (i, λ t. tt)
      go channel (range m') = (i, λ t. tt)
      go channel (extension m') = (i, λ t. tt)
      go channel (open_msg m') = (i, λ t. tt)

  forward-Lands :
      (f : Map.ChannelMap p → Result (Map.ChannelMap p)) (s : Protocol p)
      → Forwards p s.channels (f s.channels)
      → Inv Z F s
      → Lands Z F Any (set_channels f s)
  forward-Lands f s (inl (e, failed)) i = set_channels-err Z F f e s failed i
  forward-Lands f s (inr (q, done)) i =
      set_channels-Lands Z F f (record s.channels { queues = q }) s done
        (record { entries = i.map.entries; zeroth = i.map.zeroth }) i

  on_close-Lands :
      (id : ℕ) (msg : Close) (s : Protocol p) → Inv Z F s → Lands Z F Any (on_close p id msg s)
  unfolding on_close
  on_close-Lands id msg s i = go (Map.get_remote p id s.channels)
    where
      go : (o : Option ChannelHandle) → Lands Z F Any (on_close_found p id msg o s)
      go none = (i, tt)
      go (some h) =
          let forward = Map.forward_inbound_message_tolerate_closed p id (close_msg msg) in
          let dk = h.discovery_key in
          Lands-bind Z F Any Any (set_channels forward)
            (λ u. set_channels (Map.remove p dk) >> queue_event (Event.close dk)) s
            (forward-Lands forward s (forward_tolerate-cases p id (close_msg msg) s.channels) i)
            (λ u s' i' any. closed-Lands dk s' i')

  pub on_inbound_message-Lands :
      (m : ChannelMessage x) (s : Protocol p)
      → Z ⊎ OpenFits p s.io.stream m
      → Inv Z F s
      → Lands Z F Any (on_inbound_message p m s)
  unfolding on_inbound_message
  on_inbound_message-Lands m s fits i = go m.channel m.message fits
    where
      forwards :
          (channel : ℕ) (msg : Message x)
          → Lands Z F Any (set_channels (Map.forward_inbound_message p channel msg) s)
      forwards channel msg =
          forward-Lands (Map.forward_inbound_message p channel msg) s
            (forward-cases p channel msg s.channels) i

      go :
          (channel : ℕ) (msg : Message x)
          → let m' : ChannelMessage x = record { channel = channel; message = msg } in
            Z ⊎ OpenFits p s.io.stream m' → Lands Z F Any (on_inbound_message p m' s)
      go channel (open_msg msg) (inl z) =
          on_open-Lands p Z F stable mac channel msg s (inl z) (inl z) i
      go channel (open_msg msg) (inr (done, small)) =
          on_open-Lands p Z F stable mac channel msg s (inr small) (inr done) i
      go channel (close_msg msg) f = on_close-Lands channel msg s i
      go channel (synchronize m') f = forwards channel (synchronize m')
      go channel (request m') f = forwards channel (request m')
      go channel (cancel m') f = forwards channel (cancel m')
      go channel (data_msg m') f = forwards channel (data_msg m')
      go channel (no_data m') f = forwards channel (no_data m')
      go channel (want m') f = forwards channel (want m')
      go channel (unwant m') f = forwards channel (unwant m')
      go channel (bitfield m') f = forwards channel (bitfield m')
      go channel (range m') f = forwards channel (range m')
      go channel (extension m') f = forwards channel (extension m')
      go channel (local_signal n d) f = forwards channel (local_signal n d)
