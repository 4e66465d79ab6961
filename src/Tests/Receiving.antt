-- ===== src/Tests/Receiving.antt =====
-- Witnesses of the theorems on what is received.
use hypercore_protocol_rs.Prelude.{
  ℕ, zero, suc, ◌<◌, ◌≡◌, refl, ap, ◌∙◌, ◌⊎◌, inl, inr, Option, Option-cases, true, false, All,
  none, some, List, [], ◌∷◌, ◌++◌, map, length, length-set, get_elem?, get_elem?-set_self, ok,
  arith, lookup, bytes_eq, unwrap,
}
use hypercore_protocol_rs.Message.{close_msg, Message, want, is_open_or_close}
use hypercore_protocol_rs.ChannelMessage.{ChannelMessage, new}
use hypercore_protocol_rs.Platform.{sent, ready}
use hypercore_protocol_rs.Channels.Handle.{Channel, ChannelHandle}
use hypercore_protocol_rs.Channels.Map
use hypercore_protocol_rs.Channels.Map.{ChannelMap}
use hypercore_protocol_rs.Channels.Inbound.{QueueLaws, reads}
use hypercore_protocol_rs.Protocol.State.{Protocol, Event}
use hypercore_protocol_rs.Protocol.Step.{
  send_messages, on_outbound_message, on_inbound_channel_messages, on_close,
}
use hypercore_protocol_rs.Protocol.Outbound.{wire_messages, send_messages-wire_messages}
use hypercore_protocol_rs.Protocol.OnClose.{
  Closed, on_outbound_message-Closed, Closes, on_close-Closes,
}
use hypercore_protocol_rs.Schema.Close.{Close}
use hypercore_protocol_rs.Crypto
use hypercore_protocol_rs.Channels.Map.Twice.{AttachedTwice, attach_local-twice}
use hypercore_protocol_rs.Channels.Map.Invariant.{IsMap}
use hypercore_protocol_rs.Protocol.Inbound.{
  IsForwarded, with_queues, on_inbound_channel_messages-reads,
}
use hypercore_protocol_rs.Tests.Codecs.{crates}
use hypercore_protocol_rs.Tests.Host.{host, put_in, take_from}
use hypercore_protocol_rs.Tests.Data.{message_io, want_on, signal_on}

abbrev Queue : Type 0
Queue = List (Message crates)

abbrev filled : Option Queue → Queue
filled none = []
filled (some queue) = queue

in_range :
    (queues : List Queue) (tx : ℕ)
    → tx < length queues
    → (q : Queue) × (get_elem? queues tx ≡ some q)
in_range [] tx h = absurd (omega arith)
in_range (q ∷ queues) zero h = (q, refl)
in_range (q ∷ queues) (suc tx) h = in_range queues tx (omega arith)

pub put_in-sent :
    (tx : ℕ) (m : Message crates) (queues : List Queue)
    → tx < length queues
    → let (r, queues') = put_in tx m (get_elem? queues tx) queues in
      (r ≡ sent)
      × (filled (get_elem? queues' tx) ≡ filled (get_elem? queues tx) ++ (m ∷ []))
      × (tx < length queues')
put_in-sent tx m queues h =
    let (q, e) = in_range queues tx h in
    rw e (
      refl,
      rw (get_elem?-set_self queues tx (q ++ (m ∷ [])) h),
      omega (arith, length-set queues tx (q ++ (m ∷ []))),
    )

present_in_range :
    (queues : List Queue) (rx : ℕ) (q : Queue) → get_elem? queues rx ≡ some q → rx < length queues
present_in_range [] rx q h = cc
present_in_range (p ∷ queues) zero q h = omega arith
present_in_range (p ∷ queues) (suc rx) q h =
    let le = present_in_range queues rx q h in omega (arith, le)

pub take_from-ready :
    (rx : ℕ) (m : Message crates) (ms : Queue) (queues : List Queue)
    → filled (get_elem? queues rx) ≡ m ∷ ms
    → let (r, queues') = take_from rx (get_elem? queues rx) queues in
      (r ≡ ready (some m)) × (filled (get_elem? queues' rx) ≡ ms)
take_from-ready rx m ms queues e = elim (Option-cases (get_elem? queues rx)) [
  | inl absent ↦ cc (rw absent at e)
  | inr (q, present) ↦
      let whole : q ≡ m ∷ ms = rw present at e in
      let here : get_elem? queues rx ≡ some (m ∷ ms) = present ∙ ap some whole in
      rw here (refl, rw (get_elem?-set_self queues rx ms (present_in_range queues rx q present)))
]

abbrev pub laws : QueueLaws host
laws = record {
  contents = λ tx queues. filled (get_elem? queues tx);
  HasReceiver = λ tx queues. tx < length queues;
  try_send_lem = put_in-sent;
  receive_lem = take_from-ready;
}

abbrev pub open_handle : ChannelHandle
open_handle = record {
  discovery_key = 8 ∷ [];
  local_state = some (record { key = 5 ∷ []; local_id = 1 });
  remote_state = some (record { remote_id = 3; remote_capability = none });
  inbound_tx = some 0;
  closed = 0;
}

abbrev pub user_channel : Channel
user_channel = record {
  inbound_rx = some 0;
  direct_inbound_tx = 0;
  key = 5 ∷ [];
  discovery_key = 8 ∷ [];
  local_id = 1;
  closed = 0;
}

abbrev pub open_state : Protocol host
open_state = record {
  io = message_io;
  is_initiator = true;
  channels = record {
    channels = (8 ∷ [], open_handle) ∷ [];
    local_id = none ∷ some (8 ∷ []) ∷ [];
    remote_id = none ∷ none ∷ none ∷ some (8 ∷ []) ∷ [];
    flags = false ∷ [];
    queues = [] ∷ [];
  };
  command_rx = [];
  outbound_rx = [];
  queued_events = [];
  handshake_emitted = true;
}

abbrev wants : List (Message crates)
wants = want (record { start = 3; length = 300 }) ∷ want (record { start = 4; length = 1 }) ∷ []

pub open_remote : Map.get_remote host 3 open_state.channels ≡ some open_handle
unfolding Map.get_remote Map.id_key Map.key_handle lookup bytes_eq
open_remote = refl

wants-IsForwarded : All (IsForwarded host) wants
unfolding is_open_or_close
wants-IsForwarded = (refl, (refl, tt))

on_inbound_channel_messages-reads_example :
    (q : host.Queues) × (on_inbound_channel_messages host (map (new crates 3) wants) open_state
      ≡ (ok tt, with_queues host q open_state))
    × (reads host 2 user_channel q ≡ wants)
on_inbound_channel_messages-reads_example =
    on_inbound_channel_messages-reads host laws 3 0 wants open_state open_handle user_channel
      open_remote refl refl (omega arith) refl wants-IsForwarded

pub open-IsMap : IsMap host Unit open_state.channels
open-IsMap = record {
  entries = (
    record {
      under_key = refl;
      local_fits = (omega arith, omega arith);
      remote_fits = (omega arith, omega arith);
      flag_fits = omega arith;
      remote_when = inr tt;
    },
    tt,
  );
  zeroth = refl;
}

abbrev remote_close : Close
remote_close = record { channel = 3 }

on_close-Closes_example :
    ((Map.get_remote host 3 open_state.channels ≡ none)
      × (on_close host 3 remote_close open_state ≡ (ok tt, open_state)))
    ⊎ ((h : ChannelHandle) × (Map.get_remote host 3 open_state.channels ≡ some h)
        × Closes host Unit h remote_close open_state (on_close host 3 remote_close open_state))
on_close-Closes_example = on_close-Closes host Unit 3 remote_close open_state open-IsMap

abbrev local_close : ChannelMessage crates
local_close = new crates 1 (close_msg (record { channel = 1 }))

on_outbound_message-Closed_example :
    ((Map.get_local host 1 open_state.channels ≡ none)
      × (on_outbound_message host local_close open_state ≡ (ok true, open_state)))
    ⊎ ((h : ChannelHandle) × (m : ChannelMap host) × (Map.get_local host 1 open_state.channels
          ≡ some h)
        × Closed host Unit h m
        × (on_outbound_message host local_close open_state ≡ (
          ok true,
          record open_state {
            channels = m;
            queued_events = open_state.queued_events ++ (Event.close h.discovery_key ∷ []);
          },
        )))
on_outbound_message-Closed_example =
    on_outbound_message-Closed host Unit 1 (record { channel = 1 }) open_state open-IsMap

key_derives : Crypto.discovery_key host (5 ∷ []) ≡ ok (Crypto.discovery_ns_buf ++ (5 ∷ []))
unfolding Crypto.discovery_key unwrap
key_derives = refl

attach_local-twice_example :
    AttachedTwice host Unit (5 ∷ []) (Crypto.discovery_ns_buf ++ (5 ∷ [])) open_state.channels
attach_local-twice_example =
    attach_local-twice host Unit (5 ∷ []) (Crypto.discovery_ns_buf ++ (5 ∷ [])) open_state.channels
      open-IsMap key_derives

-- A user sends a message and a local signal, and closes the channel.
abbrev outgoing : List (ChannelMessage crates)
outgoing = want_on 1 ∷ signal_on 1 ∷ local_close ∷ []

send_messages-wire_messages_example :
    (s' : Protocol host) × (send_messages host outgoing open_state ≡ (ok tt, s'))
    × (s'.io.write_queue ≡ open_state.io.write_queue ++ wire_messages outgoing)
    × (s'.io.stream ≡ open_state.io.stream)
    × IsMap host Unit s'.channels
send_messages-wire_messages_example =
    send_messages-wire_messages host Unit outgoing open_state open-IsMap
