-- ===== src/Protocol/Exchange/Ends.antt =====
-- An end that may open a channel, and its state after `command_open` (src/protocol.rs).
use hypercore_protocol_rs.Prelude.{
  ◌≡◌, ap, Option, none, some, get_elem?, get_elem?-set_self, ok, panic, lookup,
}
use hypercore_protocol_rs.Wire.{Bytes, External}
use hypercore_protocol_rs.Platform.{Platform}
use hypercore_protocol_rs.Crypto
use hypercore_protocol_rs.Crypto.{HandshakeResult}
use hypercore_protocol_rs.Channels.Map
use hypercore_protocol_rs.Channels.Map.{ChannelMap, id_key}
use hypercore_protocol_rs.Channels.Map.Ids.{alloc_local-Allocates}
use hypercore_protocol_rs.Channels.Map.Entries.{local_map}
use hypercore_protocol_rs.Protocol.State.{Protocol}
use hypercore_protocol_rs.Protocol.Step.{
  verify_remote_capability, handshake_result, capability, command_open,
}
use hypercore_protocol_rs.MessageIo
use hypercore_protocol_rs.Protocol.Opening.{telling, command_open-tells}

module _ {x : External} (p : Platform x) where
  -- After the handshake, with no channel for the discovery key, and the local id 0 free.
  pub record CanOpen (key dk : Bytes) (hs : HandshakeResult) (s : Protocol p) : Type 0 where
    pub zeroth : get_elem? s.channels.local_id 0 ≡ some none
    pub fresh : lookup (p.hex_encode dk) s.channels.channels ≡ none
    pub established : handshake_result p s ≡ some hs
    pub capability_bytes : Bytes
    pub shows : Crypto.capability p hs key ≡ ok (some capability_bytes)

  pub CanOpen-capability :
      (key dk : Bytes) (hs : HandshakeResult) (s : Protocol p) (c : CanOpen key dk hs s)
      → capability p key s ≡ ok (some c.capability_bytes)
  unfolding capability
  CanOpen-capability key dk hs s c = rw (capability, c.established) (c.shows)

  pub opened-io :
      (key dk : Bytes) (hs : HandshakeResult) (s : Protocol p) (c : CanOpen key dk hs s)
      → Crypto.discovery_key p key ≡ ok dk
      → let id = (Map.alloc_local p s.channels.local_id).0 in
        command_open p key s ≡ (
          ok tt,
          record s {
            channels = local_map p key dk s.channels;
            io = MessageIo.enqueue p (telling p id dk (some c.capability_bytes)) s.io;
          },
        )
  opened-io key dk hs s c derived =
      command_open-tells p key dk (some c.capability_bytes) s c.zeroth derived c.fresh
        (CanOpen-capability key dk hs s c)

  -- The state of an end that has opened the channel and told so.
  abbrev pub opened_by : (key dk : Bytes) (cap : Option Bytes) → Protocol p → Protocol p
  opened_by key dk cap s = record s {
    channels = local_map p key dk s.channels;
    io = MessageIo.enqueue p (telling p (Map.alloc_local p s.channels.local_id).0 dk cap) s.io;
  }

  pub opened_by-verify :
      (key dk : Bytes) (shown cap : Option Bytes) (hs : HandshakeResult) (s : Protocol p)
      → handshake_result p s ≡ some hs
      → verify_remote_capability p cap key (opened_by key dk shown s)
        ≡ Crypto.verify_remote_capability p hs cap key
  unfolding verify_remote_capability handshake_result MessageIo.enqueue
  opened_by-verify key dk shown cap hs s e =
      ap
        (λ (o : Option HandshakeResult). elim o [
          | none ↦ panic
          | some h ↦ Crypto.verify_remote_capability p h cap key
        ])
        e

  pub opened_by-id_key :
      (key dk : Bytes) (cap : Option Bytes) (s : Protocol p)
      → get_elem? s.channels.local_id 0 ≡ some none
      → id_key (opened_by key dk cap s).channels.local_id (Map.alloc_local p s.channels.local_id).0
        ≡ some (p.hex_encode dk)
  unfolding id_key
  opened_by-id_key key dk cap s zeroth =
      let (lo, inside, free, zeroth', longer, taken) =
        alloc_local-Allocates p s.channels.local_id zeroth in
      let (id, ids) = Map.alloc_local p s.channels.local_id in
      rw (id_key, get_elem?-set_self ids id (some (p.hex_encode dk)) inside)
