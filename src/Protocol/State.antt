-- ===== src/Protocol/State.antt =====
-- The state of `Protocol` (src/protocol.rs), its events and commands, and the functions that change
-- one part of it.
use hypercore_protocol_rs.Prelude.{Bool, false, List, [], ◌∷◌, ◌++◌, Result, ok, err, panic, stuck}
use hypercore_protocol_rs.Wire.{Bytes, External}
use hypercore_protocol_rs.ChannelMessage.{ChannelMessage}
use hypercore_protocol_rs.Platform.{Platform}
use hypercore_protocol_rs.Channels.Handle.{Channel}
use hypercore_protocol_rs.Channels.Map.{ChannelMap}
use hypercore_protocol_rs.Channels.Map
use hypercore_protocol_rs.MessageIo.{MessageIo}
use hypercore_protocol_rs.MessageIo

pub data Event : Type 0 where
  handshake : Bytes → Event
  discovery_key : Bytes → Event
  channel : Channel → Event
  close : Bytes → Event
  local_signal : Bytes → Bytes → Event

pub data Command : Type 0 where
  open_channel : Bytes → Command
  close_channel : Bytes → Command
  signal_local : Bytes → Bytes → Command

-- `command_rx` and `outbound_rx` hold what their receivers yield before they are pending. Neither is
-- ever closed, since the protocol itself keeps a sender of each.
pub record Protocol {x : External} (p : Platform x) : Type 0 where
  pub io : MessageIo p
  pub is_initiator : Bool
  pub channels : ChannelMap p
  pub command_rx : List Command
  pub outbound_rx : List (List (ChannelMessage x))
  pub queued_events : List Event
  pub handshake_emitted : Bool

-- A method may fail and leaves its changes in place.
abbrev pub M : {x : External} → Platform x → Type 0 → Type 0
M p A = Protocol p → Result A × Protocol p

module _ {x : External} {p : Platform x} where
  infixl 5 ◌>>=◌ ◌>>◌
  abbrev pub ◌>>=◌ : {A B : Type 0} → M p A → (A → M p B) → M p B
  ◌>>=◌ m f s =
      let (r, s') = m s in
      elim r [ ok a ↦ f a s' | err e ↦ (err e, s') | panic ↦ (panic, s') | stuck ↦ (stuck, s') ]

  abbrev pub ◌>>◌ : {B : Type 0} → M p (Unit {0}) → M p B → M p B
  m >> k = m >>= λ _. k

  abbrev pub pure : {A : Type 0} → A → M p A
  pure a s = (ok a, s)

  -- A result that changes nothing.
  abbrev pub lift : {A : Type 0} → Result A → M p A
  lift r s = (r, s)

  abbrev pub get : M p (Protocol p)
  get s = (ok s, s)

  -- A function that changes the channel map when it succeeds.
  unfoldable pub with_channels : {A : Type 0} → (ChannelMap p → Result (A × ChannelMap p)) → M p A
  with_channels f s = elim (f s.channels) [
    | ok (a, channels) ↦ (ok a, record s { channels = channels })
    | err e ↦ (err e, s)
    | panic ↦ (panic, s)
    | stuck ↦ (stuck, s)
  ]

  unfoldable pub set_channels : (ChannelMap p → Result (ChannelMap p)) → M p (Unit {0})
  set_channels f s = elim (f s.channels) [
    | ok channels ↦ (ok tt, record s { channels = channels })
    | err e ↦ (err e, s)
    | panic ↦ (panic, s)
    | stuck ↦ (stuck, s)
  ]

  unfoldable pub queue_event : Event → M p (Unit {0})
  queue_event e s = (ok tt, record s { queued_events = s.queued_events ++ (e ∷ []) })

  unfoldable pub enqueue : ChannelMessage x → M p (Unit {0})
  enqueue m s = (ok tt, record s { io = MessageIo.enqueue p m s.io })

  -- `Protocol::new`, on queues in their first state.
  unfoldable pub new : p.Stream → p.Queues → Protocol p
  new stream queues = record {
    io = MessageIo.new p stream;
    is_initiator = p.is_initiator stream;
    channels = Map.empty p queues;
    command_rx = [];
    outbound_rx = [];
    queued_events = [];
    handshake_emitted = false;
  }
