-- ===== src/Tests/Runs.antt =====
-- Witnesses of the theorems on the runs of a protocol.
use hypercore_protocol_rs.Prelude.{
  none, get_elem?, io, permission_denied, ◌≤◌, ◌<◌, ◌^◌, ◌≡◌, refl, ◌⊎◌, Option, true, false, some,
  [], ◌∷◌, ◌++◌, replicate, Error, unwrap, lookup, upsert, set_checked, bytes_eq, ok, err, arith,
}
use hypercore_protocol_rs.Wire.{Bytes}
use hypercore_protocol_rs.ChannelMessage.{ChannelMessage, new as new_message}
use hypercore_protocol_rs.Message.{open_msg}
use hypercore_protocol_rs.Crypto
use hypercore_protocol_rs.MessageIo.{MessageIo}
use hypercore_protocol_rs.MessageIo
use hypercore_protocol_rs.Channels.Map
use hypercore_protocol_rs.Channels.Map.{ChannelMap}
use hypercore_protocol_rs.Channels.Map.Keeps.{remove-IsMap}
use hypercore_protocol_rs.Channels.Map.Invariant.{IsMap}
use hypercore_protocol_rs.Protocol.State.{
  Protocol, Event, open_channel, new, enqueue, with_channels,
}
use hypercore_protocol_rs.Protocol.Step.{
  poll_next, on_command, on_inbound_message, command_open, known_id, capability, handshake_result,
}
use hypercore_protocol_rs.Protocol.Halting.{MacTotal, Established, HashFits}
use hypercore_protocol_rs.Protocol.Handshake.{
  Trace, ends, polls, handshakes, returned, poll_next-one_handshake,
}
use hypercore_protocol_rs.Protocol.Reach.{
  command, inbound, run, calls, Reaches, here, next, Reaches-IsMap, Reaches-completes,
}
use hypercore_protocol_rs.Protocol.Exchange.Ends.{CanOpen}
use hypercore_protocol_rs.Protocol.Exchange.{command_open-on_open, command_open-before_handshake}
use hypercore_protocol_rs.Crypto.Verify.{Proves}
use hypercore_protocol_rs.Channels.Handle.{Channel}
use hypercore_protocol_rs.Crypto.{HandshakeResult}
use hypercore_protocol_rs.Tests.Codecs.{crates}
use hypercore_protocol_rs.Tests.Host.{host, TestStream}

abbrev fresh_stream : TestStream
fresh_stream = record {
  is_initiator = false;
  local_key = 1 ∷ [];
  remote_key = some (2 ∷ []);
  hash = some (9 ∷ []);
  incoming = [];
  outgoing = [];
}

abbrev fresh : Protocol host
fresh = new {p = host} fresh_stream []

-- A poll with nothing to do returns the handshake, the next one the event of the command.
abbrev polled : Protocol host
polled = (poll_next host 3 fresh).1

abbrev run_trace : Trace host fresh (returned (poll_next host 3 fresh).0 ++ []) polled
run_trace = polls 3 fresh polled [] (ends polled)

poll_next-one_handshake_example : handshakes (returned (poll_next host 3 fresh).0 ++ []) ≤ 1
poll_next-one_handshake_example =
    poll_next-one_handshake host fresh_stream [] polled (returned (poll_next host 3 fresh).0 ++ [])
      run_trace

mac : MacTotal host
mac key data' le = (data' ++ key, refl)

fits : HashFits host fresh_stream
fits hash e =
    let known : ◌≡◌ {A = Option Bytes} (some (9 ∷ [])) (some hash) = e in
    let same : ◌≡◌ {A = Bytes} (9 ∷ []) hash = cc in rw (← same) (omega arith)

-- The key of a channel, and the message of the remote that opens it.
abbrev channel_key : Bytes
channel_key = replicate 23 5

abbrev remote_open : ChannelMessage crates
remote_open = new_message crates 3 (
    open_msg (record {
      channel = 3;
      protocol = Crypto.protocol_name;
      discovery_key = Crypto.discovery_ns_buf ++ channel_key;
      capability = some ((Crypto.replicate_responder ++ channel_key) ++ (9 ∷ []));
    }))

-- The state after a command has opened the channel on this side.
abbrev opened : Protocol host
opened = (run host (command (open_channel channel_key)) fresh).1

opened-Reaches : Reaches host fresh opened
opened-Reaches = next (calls (command (open_channel channel_key)) fresh (omega arith)) (here opened)

Reaches-IsMap_example : IsMap host (Established host opened.io.stream) opened.channels
Reaches-IsMap_example = Reaches-IsMap host mac fresh_stream [] opened fits opened-Reaches

opened-Established : Established host opened.io.stream
unfolding on_command command_open Map.attach_local Crypto.discovery_key unwrap with_channels lookup
    upsert Map.alloc_local known_id enqueue MessageIo.enqueue capability handshake_result
    Crypto.capability Crypto.replicate_capability set_checked new Map.empty bytes_eq
opened-Established = (2 ∷ [], 9 ∷ [], refl, refl)

Reaches-completes_example :
    ((run host (inbound remote_open) opened).0 ≡ ok tt)
    ⊎ ((e : Error) × ((run host (inbound remote_open) opened).0 ≡ err e))
Reaches-completes_example =
    Reaches-completes host mac fresh_stream [] opened (inbound remote_open) fits opened-Reaches
      (opened-Established, omega arith)

-- The other end of the handshake.
abbrev other_stream : TestStream
other_stream = record {
  is_initiator = true;
  local_key = 2 ∷ [];
  remote_key = some (1 ∷ []);
  hash = some (9 ∷ []);
  incoming = [];
  outgoing = [];
}

abbrev other_end : Protocol host
other_end = new {p = host} other_stream []

abbrev fresh_result : HandshakeResult
fresh_result = Crypto.from_pre_encrypted false (1 ∷ []) (2 ∷ []) (9 ∷ [])

abbrev other_result : HandshakeResult
other_result = Crypto.from_pre_encrypted true (2 ∷ []) (1 ∷ []) (9 ∷ [])

abbrev channel_discovery : Bytes
channel_discovery = Crypto.discovery_ns_buf ++ channel_key

derives : Crypto.discovery_key host channel_key ≡ ok channel_discovery
unfolding Crypto.discovery_key unwrap
derives = refl

fresh-CanOpen : CanOpen host channel_key channel_discovery fresh_result fresh
unfolding new Map.empty lookup handshake_result Crypto.capability Crypto.replicate_capability unwrap
fresh-CanOpen = record {
  zeroth = refl;
  fresh = refl;
  established = refl;
  capability_bytes = (Crypto.replicate_responder ++ channel_key) ++ (9 ∷ []);
  shows = refl;
}

other-CanOpen : CanOpen host channel_key channel_discovery other_result other_end
unfolding new Map.empty lookup handshake_result Crypto.capability Crypto.replicate_capability unwrap
other-CanOpen = record {
  zeroth = refl;
  fresh = refl;
  established = refl;
  capability_bytes = (Crypto.replicate_initiator ++ channel_key) ++ (9 ∷ []);
  shows = refl;
}

small_id : (Map.alloc_local host fresh.channels.local_id).0 < 2 ^ 57
unfolding new Map.empty Map.alloc_local
small_id = omega arith

command_open-on_open_example :
    (a1 b1 b2 : Protocol host) × (m : ChannelMessage crates) × (c : Channel) × (command_open host
        channel_key fresh
      ≡ (ok tt, a1))
    × (a1.io.write_queue ≡ fresh.io.write_queue ++ (m ∷ []))
    × (command_open host channel_key other_end ≡ (ok tt, b1))
    × (on_inbound_message host m b1 ≡ (ok tt, b2))
    × (b2.queued_events ≡ b1.queued_events ++ (Event.channel c ∷ []))
    × (c.key ≡ channel_key)
    × (c.discovery_key ≡ channel_discovery)
command_open-on_open_example =
    command_open-on_open host channel_key channel_discovery other_result fresh_result fresh
      other_end derives refl fresh-CanOpen other-CanOpen refl refl small_id

remove-IsMap_example :
    (m' : ChannelMap host) × (Map.remove host channel_discovery opened.channels ≡ ok m')
    × IsMap host (Established host opened.io.stream) m'
remove-IsMap_example =
    remove-IsMap host (Established host opened.io.stream) channel_discovery opened.channels
      (Reaches-IsMap host mac fresh_stream [] opened fits opened-Reaches)

-- An end that knows nothing of the other yet.
abbrev early_stream : TestStream
early_stream = record {
  is_initiator = true;
  local_key = 2 ∷ [];
  remote_key = none;
  hash = none;
  incoming = [];
  outgoing = [];
}

abbrev early_end : Protocol host
early_end = new {p = host} early_stream []

early_zeroth : get_elem? early_end.channels.local_id 0 ≡ some none
unfolding new Map.empty
early_zeroth = refl

early_fresh : lookup (host.hex_encode channel_discovery) early_end.channels.channels ≡ none
unfolding new Map.empty lookup
early_fresh = refl

early_unknown : handshake_result host early_end ≡ none
unfolding handshake_result new
early_unknown = refl

early_id : (Map.alloc_local host early_end.channels.local_id).0 < 2 ^ 57
unfolding new Map.empty Map.alloc_local
early_id = omega arith

abbrev expected : Bytes
expected = (Crypto.replicate_initiator ++ channel_key) ++ (9 ∷ [])

expected-Proves : Proves host fresh_result channel_key expected
unfolding Crypto.replicate_capability unwrap
expected-Proves = refl

command_open-before_handshake_example :
    (a1 b1 b2 : Protocol host) × (m : ChannelMessage crates) × (command_open host channel_key
        early_end
      ≡ (ok tt, a1))
    × (a1.io.write_queue ≡ early_end.io.write_queue ++ (m ∷ []))
    × (command_open host channel_key fresh ≡ (ok tt, b1))
    × (on_inbound_message host m b1 ≡ (err (io permission_denied), b2))
    × (b2.queued_events ≡ b1.queued_events)
command_open-before_handshake_example =
    command_open-before_handshake host channel_key channel_discovery fresh_result early_end fresh
      expected derives refl early_zeroth early_fresh early_unknown fresh-CanOpen expected-Proves
      early_id
