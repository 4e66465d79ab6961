-- ===== src/Protocol/Exchange.antt =====
-- How two ends open a channel (src/protocol.rs): `command_open` on one end, and `on_open` with its message
-- on the other.
pub mod Ends
use hypercore_protocol_rs.Prelude.{
  ℕ, ◌+◌, ◌<◌, ◌^◌, ◌≡◌, refl, ap, ◌∙◌, not, Option, none, some, [], ◌∷◌, ◌++◌, length, get_elem?,
  get_elem?-set_self, ok, err, io, permission_denied, inl, inr, panic, lookup,
}
use hypercore_protocol_rs.Wire.{Bytes, External}
use hypercore_protocol_rs.Schema.Open.{Open}
use hypercore_protocol_rs.ChannelMessage.{ChannelMessage}
use hypercore_protocol_rs.Platform.{Platform}
use hypercore_protocol_rs.Crypto
use hypercore_protocol_rs.Crypto.{HandshakeResult}
use hypercore_protocol_rs.Crypto.Verify.{capability-verified, verify_remote_capability_lem, Proves}
use hypercore_protocol_rs.Channels.Handle
use hypercore_protocol_rs.Channels.Handle.{
  ChannelHandle, Channel, LocalState, RemoteState, is_connected,
}
use hypercore_protocol_rs.Channels.Map
use hypercore_protocol_rs.Channels.Map.{ChannelMap, id_key}
use hypercore_protocol_rs.Channels.Map.Ids.{alloc_local-Allocates}
use hypercore_protocol_rs.Channels.Map.Entries.{lookup-upsert, local_handle, local_map}
use hypercore_protocol_rs.Protocol.State.{Protocol, Event}
use hypercore_protocol_rs.Protocol.Step.{
  verify_remote_capability, handshake_result, capability, command_open, on_inbound_message,
}
use hypercore_protocol_rs.MessageIo
use hypercore_protocol_rs.Protocol.Opening.{
  accepted, attached, on_open-accepts, on_open-refuses, telling, command_open-tells,
}
use hypercore_protocol_rs.Channels.Map.Accepts.{accepted_channel}
use hypercore_protocol_rs.Protocol.Exchange.Ends.{
  CanOpen, CanOpen-capability, opened_by, opened-io, opened_by-verify, opened_by-id_key,
}

module _ {x : External} (p : Platform x) where
  -- Such an end accepts the message of the other end.
  told :
      (key dk : Bytes) (ours theirs : HandshakeResult) (s : Protocol p) (ch : ℕ)
      (shown cap : Option Bytes)
      → CanOpen p key dk ours s
      → length dk ≡ 32
      → theirs.is_initiator ≡ not ours.is_initiator
      → theirs.handshake_hash ≡ ours.handshake_hash
      → Crypto.capability p theirs key ≡ ok cap
      → ch < 2 ^ 57
      → let s1 = opened_by p key dk shown s in
        (s2 : Protocol p) × (c : Channel) × (on_inbound_message p (telling p ch dk cap) s1
          ≡ (ok tt, s2))
        × (s2.queued_events ≡ s1.queued_events ++ (Event.channel c ∷ []))
        × (c.key ≡ key)
        × (c.discovery_key ≡ dk)
  unfolding on_inbound_message
  told key dk ours theirs s ch shown cap can size role hash proves small =
      let (id, ids) = Map.alloc_local p s.channels.local_id in
      let s1 = opened_by p key dk shown s in
      let h1 = Handle.new_local id dk key (length s.channels.flags) in
      let l1 : LocalState = record { key = key; local_id = id } in
      let held =
        lookup-upsert (p.hex_encode dk) (Handle.attach_local id key) h1 s.channels.channels in
      let handle : local_handle p key dk s.channels ≡ h1 = rw (can.fresh) in
      let msg : Open = record {
        channel = ch;
        protocol = Crypto.protocol_name;
        discovery_key = dk;
        capability = cap;
      } in
      let k = p.hex_encode dk in
      let h2 = Handle.attach_remote ch cap h1 in
      let s2 = attached p dk ch cap s1 in
      (
        accepted p k h2 l1 s2,
        accepted_channel p Unit h2 l1 s2.channels,
        on_open-accepts p ch msg s1 h1 l1 size small (opened_by-id_key p key dk shown s can.zeroth)
            (held ∙ ap some handle) refl
            (opened_by-verify p key dk shown cap ours s can.established
              ∙ capability-verified p ours theirs key cap role hash proves),
        refl,
        refl,
        refl,
      )

  -- Two ends of one handshake, each without a channel for a key, command to open it. Each command succeeds
  -- and puts one `Open` behind its write queue, and an end that handles the other's `Open` succeeds and
  -- queues the event of a channel with that key and its discovery key. The key has a discovery key of 32
  -- bytes, the ends have opposite roles and the same handshake hash, and the id of the other end's channel
  -- is below 2^57. The local id 0 of both is free, and each can compute its capability.
  pub command_open-on_open :
      (key dk : Bytes) (ours theirs : HandshakeResult) (a b : Protocol p)
      → Crypto.discovery_key p key ≡ ok dk
      → length dk ≡ 32
      → CanOpen p key dk theirs a
      → CanOpen p key dk ours b
      → theirs.is_initiator ≡ not ours.is_initiator
      → theirs.handshake_hash ≡ ours.handshake_hash
      → (Map.alloc_local p a.channels.local_id).0 < 2 ^ 57
      → (a1 b1 b2 : Protocol p) × (m : ChannelMessage x) × (c : Channel) × (command_open p key a
          ≡ (ok tt, a1))
        × (a1.io.write_queue ≡ a.io.write_queue ++ (m ∷ []))
        × (command_open p key b ≡ (ok tt, b1))
        × (on_inbound_message p m b1 ≡ (ok tt, b2))
        × (b2.queued_events ≡ b1.queued_events ++ (Event.channel c ∷ []))
        × (c.key ≡ key)
        × (c.discovery_key ≡ dk)
  unfolding MessageIo.enqueue
  command_open-on_open key dk ours theirs a b derived size can_a can_b role hash small =
      let id = (Map.alloc_local p a.channels.local_id).0 in
      let cap_a = some can_a.capability_bytes in
      let cap_b = some can_b.capability_bytes in
      let (b2, c, handled, event, keyed, discovered) =
        told key dk ours theirs b id cap_b cap_a can_b size role hash can_a.shows small in
      (
        opened_by p key dk cap_a a,
        opened_by p key dk cap_b b,
        b2,
        telling p id dk cap_a,
        c,
        opened-io p key dk theirs a can_a derived,
        refl,
        opened-io p key dk ours b can_b derived,
        handled,
        event,
        keyed,
        discovered,
      )

  -- Such an end refuses a message that shows no capability.
  told_nothing :
      (key dk : Bytes) (ours : HandshakeResult) (s : Protocol p) (ch : ℕ) (shown : Option Bytes)
      → (c : Bytes) → CanOpen p key dk ours s
      → length dk ≡ 32
      → Proves p ours key c
      → ch < 2 ^ 57
      → let s1 = opened_by p key dk shown s in
        on_inbound_message p (telling p ch dk none) s1
        ≡ (err (io permission_denied), attached p dk ch none s1)
  unfolding on_inbound_message
  told_nothing key dk ours s ch shown c can size expected small =
      let (id, ids) = Map.alloc_local p s.channels.local_id in
      let s1 = opened_by p key dk shown s in
      let h1 = Handle.new_local id dk key (length s.channels.flags) in
      let l1 : LocalState = record { key = key; local_id = id } in
      let held =
        lookup-upsert (p.hex_encode dk) (Handle.attach_local id key) h1 s.channels.channels in
      let handle : local_handle p key dk s.channels ≡ h1 = rw (can.fresh) in
      let msg : Open = record {
        channel = ch;
        protocol = Crypto.protocol_name;
        discovery_key = dk;
        capability = none;
      } in
      let refused : Crypto.verify_remote_capability p ours none key ≡ err (io permission_denied) =
        elim (verify_remote_capability_lem p ours none key c expected) [
          | inl shows ↦ cc (shows.0)
          | inr refuses ↦ refuses.1
        ] in
      on_open-refuses p ch msg s1 h1 l1 (io permission_denied) size small
        (opened_by-id_key p key dk shown s can.zeroth) (held ∙ ap some handle) refl
        (opened_by-verify p key dk shown none ours s can.established ∙ refused)

  capability_early :
      (key : Bytes) (s : Protocol p) → handshake_result p s ≡ none → capability p key s ≡ ok none
  unfolding capability
  capability_early key s before = rw (capability, before)

  -- An end that commands to open a key before the handshake succeeds and puts one `Open` behind its write
  -- queue, but the `Open` shows no capability: the other end, which opens the key after the handshake,
  -- answers it with the error `PermissionDenied` and queues no event. The key has a discovery key of 32
  -- bytes, both ends have no channel for it and their local id 0 is free, the other end can compute its
  -- capability and the expected one, and the id of the first end's channel is below 2^57.
  pub command_open-before_handshake :
      (key dk : Bytes) (ours : HandshakeResult) (a b : Protocol p) (c : Bytes)
      → Crypto.discovery_key p key ≡ ok dk
      → length dk ≡ 32
      → get_elem? a.channels.local_id 0 ≡ some none
      → lookup (p.hex_encode dk) a.channels.channels ≡ none
      → handshake_result p a ≡ none
      → CanOpen p key dk ours b
      → Proves p ours key c
      → (Map.alloc_local p a.channels.local_id).0 < 2 ^ 57
      → (a1 b1 b2 : Protocol p) × (m : ChannelMessage x) × (command_open p key a ≡ (ok tt, a1))
        × (a1.io.write_queue ≡ a.io.write_queue ++ (m ∷ []))
        × (command_open p key b ≡ (ok tt, b1))
        × (on_inbound_message p m b1 ≡ (err (io permission_denied), b2))
        × (b2.queued_events ≡ b1.queued_events)
  unfolding MessageIo.enqueue
  command_open-before_handshake key dk ours a b c derived size zeroth fresh before can expected
        small =
      let id = (Map.alloc_local p a.channels.local_id).0 in
      let cap_b = some can.capability_bytes in
      let b1 = opened_by p key dk cap_b b in
      (
        opened_by p key dk none a,
        b1,
        attached p dk id none b1,
        telling p id dk none,
        command_open-tells p key dk none a zeroth derived fresh (capability_early key a before),
        refl,
        opened-io p key dk ours b can derived,
        told_nothing key dk ours b id cap_b c can size expected small,
        refl,
      )
