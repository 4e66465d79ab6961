-- ===== src/Tests/Witnesses.antt =====
-- The theorems at concrete inputs.
use hypercore_protocol_rs.Prelude.{
  ◌*◌, ◌+◌, connection_aborted, ℕ, suc, ◌-◌, ◌^◌, panic, ◌+◌, ◌≤◌, ◌<◌, ◌≡◌, ◌≢◌, refl, ◌⊎◌, true,
  false, Option, none, some, List, [], ◌∷◌, ◌++◌, length, get_elem?, lookup, unwrap, upsert,
  remove_key, set_checked, bytes_eq, All, replicate, arith, Error, ok, err, io, permission_denied,
}
use hypercore_protocol_rs.Wire.{Bytes}
use hypercore_protocol_rs.Message
use hypercore_protocol_rs.Message.{Message, open_msg, close_msg, want, local_signal}
use hypercore_protocol_rs.Message.RoundTrip as Trip
use hypercore_protocol_rs.Message.RoundTrip.{message_encode_decode}
use hypercore_protocol_rs.ChannelMessage.{ChannelMessage}
use hypercore_protocol_rs.Framing.{vec_encoded_size, vec_encode, vec_decode}
use hypercore_protocol_rs.Framing.Encode.{frame_bytes, vec_encode-vec_encoded_size}
use hypercore_protocol_rs.Framing.Frames.{RoundTrips, frame-RoundTrips, plain}
use hypercore_protocol_rs.Framing.Ends.{vec_decode_ends}
use hypercore_protocol_rs.Framing.ChannelChange.{SecondOnZero, vec_decode-channel_change}
use hypercore_protocol_rs.Crypto
use hypercore_protocol_rs.Crypto.{HandshakeResult, verify_remote_capability, discovery_key}
use hypercore_protocol_rs.Crypto.Verify.{Proves, verify_remote_capability_lem, capability-verified}
use hypercore_protocol_rs.Channels.Handle.{ChannelHandle, Channel}
use hypercore_protocol_rs.Channels.Handle
use hypercore_protocol_rs.Channels.Map
use hypercore_protocol_rs.Channels.User
use hypercore_protocol_rs.Channels.User.{Shared, close_lem}
use hypercore_protocol_rs.Channels.Map.{ChannelMap, slot_size, isize_max}
use hypercore_protocol_rs.Channels.Map.Ids.{
  alloc_local_least, alloc_remote-length, attach_remote_wraps,
}
use hypercore_protocol_rs.Channels.Map.Entries.{has_channel-remove, attach_local-get_local}
use hypercore_protocol_rs.MessageIo.{take_batch, outbound_loop, poll_outbound}
use hypercore_protocol_rs.MessageIo.Batches.{IsOrdinary, take_batch_lem, poll_outbound_ends}
use hypercore_protocol_rs.Protocol.State.{Protocol, Event, with_channels, set_channels, queue_event}
use hypercore_protocol_rs.Protocol.Step.{
  accept_channel, command_close, handshake_result, verify_remote_capability as verify_step,
}
use hypercore_protocol_rs.Protocol.Accept.{accept_channel-verified}
use hypercore_protocol_rs.Protocol.Close.{command_close_lem}
use hypercore_protocol_rs.Tests.Codecs.{crates, u64_bytes, digits}
use hypercore_protocol_rs.Tests.Rules.{rules}
use hypercore_protocol_rs.Tests.Host.{host}
use hypercore_protocol_rs.Tests.Data.{
  want_on, close_on, two_wants, want_one-IsSmall, want_two-IsSmall, mixed, message_io,
}

frame-RoundTrips_example : RoundTrips crates 7 two_wants
frame-RoundTrips_example =
    frame-RoundTrips crates rules 7 two_wants
      (plain two_wants ((want_one-IsSmall, (want_one-IsSmall, tt)), (refl, tt)))

vec_decode_ends_example :
    ((ms : List (ChannelMessage crates)) × (vec_decode crates (0 ∷ 1 ∷ 2 ∷ []) ≡ ok (ms, [])))
    ⊎ ((e : Error) × (vec_decode crates (0 ∷ 1 ∷ 2 ∷ []) ≡ err e))
vec_decode_ends_example = vec_decode_ends crates rules (0 ∷ 1 ∷ 2 ∷ [])

abbrev changing : List (ChannelMessage crates)
changing = want_on 1 ∷ want_on 2 ∷ []

vec_encode-vec_encoded_size_example :
    (vec_encoded_size crates changing ≡ ok 29)
    × (vec_encode crates changing (replicate 29 7 ++ (4 ∷ []))
        ≡ ok (frame_bytes crates rules changing, 4 ∷ []))
unfolding rules u64_bytes digits
vec_encode-vec_encoded_size_example =
    vec_encode-vec_encoded_size crates rules changing (replicate 29 7) (4 ∷ [])
      (want_one-IsSmall, (want_two-IsSmall, tt)) refl

vec_decode-channel_change_example :
    (vec_encoded_size crates changing ≡ ok 29)
    × ((frame : Bytes) × (vec_encode crates changing (replicate 29 7) ≡ ok (frame, []))
        × SecondOnZero crates rules (want_on 1) (vec_decode crates frame)
        × (vec_decode crates frame ≢ ok (changing, [])))
unfolding rules u64_bytes digits
vec_decode-channel_change_example =
    vec_decode-channel_change crates rules (want_on 1) (want_on 2) [] (replicate 29 7)
      (want_one-IsSmall, (want_two-IsSmall, tt)) (λ e. absurd (omega arith)) (omega arith) refl

message_encode_decode_example :
    let m = (want_on 1).message in
    (Message.encoded_size crates m ≡ ok 11)
    × (Message.encode crates m (replicate 11 7 ++ (4 ∷ []))
        ≡ ok (Trip.bytes crates rules m, 4 ∷ []))
    × (Message.decode crates (Trip.bytes crates rules m ++ (4 ∷ [])) ≡ ok (m, 4 ∷ []))
unfolding rules u64_bytes digits
message_encode_decode_example =
    message_encode_decode crates rules (want_on 1).message (replicate 11 7) (4 ∷ [])
      want_one-IsSmall.0 refl

take_batch_lem_example :
    let (frame, rest) = take_batch [] mixed in
    (frame ++ rest ≡ mixed)
    × (length rest ≤ 2)
    × (All IsOrdinary frame ⊎ ((m : ChannelMessage crates) × (frame ≡ m ∷ [])))
take_batch_lem_example = take_batch_lem (want_on 1) (want_on 1 ∷ close_on 1 ∷ [])

poll_outbound_ends_example :
    outbound_loop host (suc (length mixed) + 5) true message_io ≡ poll_outbound host message_io
poll_outbound_ends_example = poll_outbound_ends host 5 message_io

abbrev ours : HandshakeResult
ours = Crypto.from_pre_encrypted true (1 ∷ []) (2 ∷ []) (9 ∷ [])

abbrev theirs : HandshakeResult
theirs = Crypto.from_pre_encrypted false (2 ∷ []) (1 ∷ []) (9 ∷ [])

abbrev shown_capability : Bytes
shown_capability = (Crypto.replicate_responder ++ (5 ∷ [])) ++ (9 ∷ [])

shown-Proves : Proves host ours (5 ∷ []) shown_capability
unfolding Crypto.replicate_capability unwrap
shown-Proves = refl

verify_remote_capability_lem_example :
    ((◌≡◌ {A = Option Bytes} none (some shown_capability))
      × (verify_remote_capability host ours none (5 ∷ []) ≡ ok tt))
    ⊎ ((◌≢◌ {A = Option Bytes} none (some shown_capability))
        × (verify_remote_capability host ours none (5 ∷ []) ≡ err (io permission_denied)))
verify_remote_capability_lem_example =
    verify_remote_capability_lem host ours none (5 ∷ []) shown_capability shown-Proves

theirs_capability : Crypto.capability host theirs (5 ∷ []) ≡ ok (some shown_capability)
unfolding Crypto.capability Crypto.replicate_capability unwrap
theirs_capability = refl

capability-verified_example :
    verify_remote_capability host ours (some shown_capability) (5 ∷ []) ≡ ok tt
capability-verified_example =
    capability-verified host ours theirs (5 ∷ []) (some shown_capability) refl refl
      theirs_capability

abbrev ids : List (Option Bytes)
ids = none ∷ some (8 ∷ []) ∷ none ∷ []

alloc_local_least_example :
    let (id, ids') = Map.alloc_local host ids in
    (1 ≤ id)
    × (id < length ids')
    × (get_elem? ids' id ≡ some none)
    × (get_elem? ids' 0 ≡ some none)
    × (3 ≤ length ids')
    × ((◌≡◌ {A = ℕ} 1 0) ⊎ ((id ≤ 1) ⊎ ((k : Bytes) × (get_elem? ids 1 ≡ some (some k)))))
alloc_local_least_example = alloc_local_least host ids 1 refl

alloc_remote-length_example :
    (((5 < length ids) ⊎ (slot_size * (5 + 1) ≤ isize_max))
      × ((ids' : List (Option Bytes)) × (Map.alloc_remote host 5 ids ≡ ok ids')
          × (5 < length ids')
          × (length ids ≤ length ids')
          × (get_elem? ids' 5 ≡ some none)))
    ⊎ ((length ids ≤ 5) × (isize_max < slot_size * (5 + 1)) × (Map.alloc_remote host 5 ids ≡ panic))
alloc_remote-length_example = alloc_remote-length host 5 ids (omega arith)

abbrev handle : ChannelHandle
handle = record {
  discovery_key = 8 ∷ [];
  local_state = some (record { key = 5 ∷ []; local_id = 1 });
  remote_state = some (record { remote_id = 1; remote_capability = some shown_capability });
  inbound_tx = none;
  closed = 0;
}

abbrev channels : ChannelMap host
channels = record {
  channels = (8 ∷ [], handle) ∷ [];
  local_id = ids;
  remote_id = none ∷ some (8 ∷ []) ∷ [];
  flags = false ∷ [];
  queues = [];
}

abbrev removed : ChannelMap host
removed = record {
  channels = [];
  local_id = none ∷ none ∷ none ∷ [];
  remote_id = none ∷ none ∷ [];
  flags = true ∷ [];
  queues = [];
}

removes : Map.remove host (8 ∷ []) channels ≡ ok removed
unfolding Map.remove lookup remove_key bytes_eq Map.clear_id set_checked
removes = refl

has_channel-remove_example :
    (Map.has_channel host (8 ∷ []) removed ≡ false)
    × (lookup (7 ∷ []) removed.channels ≡ lookup (7 ∷ []) channels.channels)
has_channel-remove_example =
    has_channel-remove host (8 ∷ []) (7 ∷ []) channels removed (λ e. cc) removes

key_discovery : discovery_key host (5 ∷ []) ≡ ok (Crypto.discovery_ns_buf ++ (5 ∷ []))
unfolding discovery_key unwrap
key_discovery = refl

attach_local-get_local_example :
    (id : ℕ) × (h : ChannelHandle) × (m' : ChannelMap host) × (Map.attach_local host
        (5 ∷ [])
        channels
      ≡ ok (h, m'))
    × (1 ≤ id)
    × (Handle.local_id h ≡ some id)
    × (Map.get_local host id m' ≡ some h)
    × (get_elem? m'.local_id 0 ≡ some none)
attach_local-get_local_example =
    attach_local-get_local host (5 ∷ []) (Crypto.discovery_ns_buf ++ (5 ∷ [])) channels refl
      key_discovery

abbrev state : Protocol host
state = record {
  io = message_io;
  is_initiator = true;
  channels = channels;
  command_rx = [];
  outbound_rx = [];
  queued_events = [];
  handshake_emitted = true;
}

abbrev accepted : Protocol host
accepted = (accept_channel host 1 state).1

accepts : accept_channel host 1 state ≡ (ok tt, accepted)
unfolding accept_channel handshake_result verify_step Map.prepare_to_verify Map.get_local Map.id_key
    Map.key_handle Map.found Map.accept lookup bytes_eq Handle.prepare_to_verify Handle.both_states
    Handle.open_handle with_channels queue_event Crypto.verify_remote_capability
    Crypto.remote_capability Crypto.replicate_capability Crypto.compare_capability unwrap upsert
accepts = refl

accept_channel-verified_example :
    (h : HandshakeResult) × (key c : Bytes) × (ch : Channel) × (handshake_result host state
      ≡ some h)
    × (Map.prepare_to_verify host 1 channels ≡ ok (key, some c))
    × Proves host h key c
    × (Map.accept host 1 channels ≡ ok (ch, accepted.channels))
    × (accepted.queued_events ≡ [] ++ (Event.channel ch ∷ []))
accept_channel-verified_example = accept_channel-verified 1 state accepted accepts

attach_remote_wraps_example : Map.attach_remote host (8 ∷ []) (2 ^ 64 - 1) none channels ≡ panic
attach_remote_wraps_example = attach_remote_wraps host (8 ∷ []) none channels (omega arith)

abbrev closed_state : Protocol host
closed_state = (command_close host (8 ∷ []) state).1

closes_channel : command_close host (8 ∷ []) state ≡ (ok tt, closed_state)
unfolding command_close Map.has_channel set_channels queue_event Map.remove lookup remove_key
    bytes_eq Map.clear_id set_checked
closes_channel = refl

command_close_lem_example :
    (Map.has_channel host (8 ∷ []) closed_state.channels ≡ false)
    × (((Map.has_channel host (8 ∷ []) channels ≡ true)
          × (closed_state.queued_events ≡ [] ++ (Event.close (8 ∷ []) ∷ [])))
        ⊎ ((Map.has_channel host (8 ∷ []) channels ≡ false) × (closed_state ≡ state)))
command_close_lem_example = command_close_lem (8 ∷ []) state closed_state closes_channel

abbrev user_channel : Channel
user_channel = record {
  inbound_rx = some 0;
  direct_inbound_tx = 0;
  key = 5 ∷ [];
  discovery_key = 8 ∷ [];
  local_id = 1;
  closed = 0;
}

abbrev shared : Shared crates
shared = record { flags = false ∷ []; outbound = []; receiving = true }

close_lem_example :
    let w' = (User.close user_channel shared).1 in
    (User.close user_channel shared ≡ (ok tt, w'))
    × (w'.outbound ≡ [] ++ ((close_on 1 ∷ []) ∷ []))
    × (User.closed user_channel w' ≡ true)
    × (User.close user_channel w' ≡ (ok tt, w'))
    × (User.send user_channel (want_on 1).message w' ≡ (err (io connection_aborted), w'))
    × (User.send_batch user_channel [] w' ≡ (err (io connection_aborted), w'))
close_lem_example = close_lem user_channel (want_on 1).message [] shared refl (omega arith) refl
