-- ===== src/Protocol/Accepting.antt =====
-- The handlers of src/protocol.rs that open channels, under the invariant: `accept_channel`,
-- `command_open`, `on_open`.
use hypercore_protocol_rs.Prelude.{
  arith, ℕ, ◌==◌, lookup, ◌^◌, ◌<◌, ◌≤◌, ◌≡◌, Bool-cases, true, if◌then◌else◌, ◌⊎◌, inl, inr,
  Option, Option-cases, none, some, length, ok, panic, MayHalt,
}
use hypercore_protocol_rs.Wire.{Bytes, External}
use hypercore_protocol_rs.Platform.{Platform}
use hypercore_protocol_rs.Message.{open_msg}
use hypercore_protocol_rs.ChannelMessage.{ChannelMessage, new as new_message}
use hypercore_protocol_rs.Schema.Open.{Open}
use hypercore_protocol_rs.Crypto
use hypercore_protocol_rs.Crypto.{HandshakeResult}
use hypercore_protocol_rs.Channels.Handle
use hypercore_protocol_rs.Channels.Handle.{
  ChannelHandle, Channel, LocalState, RemoteState, is_connected,
}
use hypercore_protocol_rs.Channels.Map
use hypercore_protocol_rs.Channels.Map.Invariant.{All-lookup}
use hypercore_protocol_rs.Channels.Map.Entries.{
  attach_local-eq, attach_remote-cases, local_handle, local_map, remote_handle, remote_map,
  entry-local_id,
}
use hypercore_protocol_rs.Channels.Map.Keeps.{local_map-IsMap, remote_map-IsMap}
use hypercore_protocol_rs.Channels.Map.Accepts.{
  accept-Connected, accepted_map-IsMap, accepted_channel, accepted_map, Connected,
  prepare_to_verify-cases, prepare_to_verify-Connected,
}
use hypercore_protocol_rs.Protocol.State.{
  Protocol, Event, M, ◌>>=◌, ◌>>◌, pure, lift, with_channels, queue_event, enqueue,
}
use hypercore_protocol_rs.Protocol.Step.{
  accept_channel, verify_remote_capability, capability, known_id, command_open, on_open, parse_key,
}
use hypercore_protocol_rs.Protocol.Halting.{
  MacTotal, Established, discovery_key-MayHalt, discovery_key-cases, verify-MayHalt,
  capability-MayHalt,
}
use hypercore_protocol_rs.Protocol.Invariant.{
  Inv, Lands, Any, Lands-bind, Lands-lift, Lands-if, queue_event-Lands, enqueue-Lands,
  with_channels-Lands, with_channels-panic, Context, Stable,
}

module _ {x : External} (p : Platform x) (Z : Type 0) (F : Context p) (stable : Stable F)
    (mac : Z ⊎ MacTotal p) where
  remote_attached :
      (E : Type 0) (h : ChannelHandle) (r : RemoteState)
      → ((h.remote_state ≡ none) ⊎ E)
      → h.remote_state ≡ some r
      → E
  remote_attached E h r (inl e) e' = cc
  remote_attached E h r (inr e) e' = e

  prepare_to_verify-MayHalt :
      (id : ℕ) (m : Map.ChannelMap p) → MayHalt Z (Map.prepare_to_verify p id m)
  prepare_to_verify-MayHalt id m = elim (prepare_to_verify-cases p Z id m) [
    | inl (e, failed) ↦ rw failed tt
    | inr (k, h, l, r, c) ↦ rw (prepare_to_verify-Connected p Z id m k h l r c) tt
  ]

  prepared-Connected :
      (id : ℕ) (m : Map.ChannelMap p) (a : Bytes × Option Bytes)
      → Map.prepare_to_verify p id m ≡ ok a
      → (k : Bytes) × (h : ChannelHandle) × (l : LocalState) × (r : RemoteState) × Connected p Z id
          m k h l r
  prepared-Connected id m a e = elim (prepare_to_verify-cases p Z id m) [
    | inl (er, failed) ↦ cc
    | inr found ↦ found
  ]

  pub accept_channel-Lands :
      (id : ℕ) (s : Protocol p) → Inv Z F s → Lands Z F Any (accept_channel p id s)
  unfolding accept_channel
  accept_channel-Lands id s i =
      let opened : Channel → M p (Unit {0}) = λ ch. queue_event (Event.channel ch) in
      let joined : Unit {0} → M p (Unit {0}) = λ u. with_channels (Map.accept p id) >>= opened in
      let checked : Bytes × Option Bytes → M p (Unit {0}) =
        λ kc. lift (verify_remote_capability p kc.1 kc.0 s) >>= joined in
      Lands-lift Z F Any (Map.prepare_to_verify p id s.channels) checked s i
        (prepare_to_verify-MayHalt id s.channels)
        λ kc e.
          let (k, h, l, r, c) = prepared-Connected id s.channels kc e in
          let fits = All-lookup _ k h s.channels.channels i.map.entries c.1 in
          let done = remote_attached _ h r fits.remote_when c.3 in
          Lands-lift Z F Any (verify_remote_capability p kc.1 kc.0 s) joined s i
            (verify-MayHalt p Z mac kc.1 kc.0 s i.hash_fits done)
            λ u verified.
              Lands-bind Z F Any Any (with_channels (Map.accept p id)) opened s
                (with_channels-Lands Z F Any (Map.accept p id) (accepted_channel p Z h l s.channels)
                  (accepted_map p Z k h s.channels) s (accept-Connected p Z id s.channels k h l r c)
                  (accepted_map-IsMap p _ k h s.channels c.1 i.map) tt i)
                (λ ch s' i' any. queue_event-Lands Z F (Event.channel ch) s' tt i')

  known_id-MayHalt : (o : Option ℕ) (id : ℕ) → o ≡ some id → MayHalt Z (known_id p o)
  unfolding known_id
  known_id-MayHalt o id e = rw e tt

  abbrev HasLocal : ChannelHandle → Protocol p → Type 0
  HasLocal handle s = (id : ℕ) × (Handle.local_id handle ≡ some id)

  attach_local-panic :
      (key : Bytes) (m : Map.ChannelMap p)
      → Crypto.discovery_key p key ≡ panic
      → Map.attach_local p key m ≡ panic
  unfolding Map.attach_local
  attach_local-panic key m e = rw (Map.attach_local, e)

  attach_local-Lands :
      (key : Bytes) (s : Protocol p)
      → Z ⊎ (length key ≤ 64)
      → Inv Z F s
      → Lands Z F HasLocal (with_channels (Map.attach_local p key) s)
  attach_local-Lands key s small i = elim (discovery_key-cases p key) [
    | inl (dk, e) ↦
        with_channels-Lands Z F HasLocal (Map.attach_local p key) (local_handle p key dk s.channels)
          (local_map p key dk s.channels) s (attach_local-eq p key dk s.channels i.map.zeroth e)
          (local_map-IsMap p _ key dk s.channels i.map)
          (
            (Map.alloc_local p s.channels.local_id).0,
            entry-local_id p _ (length s.channels.flags) key dk
                (lookup (p.hex_encode dk) s.channels.channels),
          )
          i
    | inr e ↦
        with_channels-panic Z F HasLocal (Map.attach_local p key) s
          (attach_local-panic key s.channels e) (rw e at (discovery_key-MayHalt p Z mac key small))
          i
  ]

  -- The key of a command has up to 64 bytes, unless a panic is allowed.
  pub command_open-Lands :
      (key : Bytes) (s : Protocol p)
      → Z ⊎ (length key ≤ 64)
      → Inv Z F s
      → Lands Z F Any (command_open p key s)
  unfolding command_open
  command_open-Lands key s small i =
      let message : ℕ → ChannelHandle → Option Bytes → ChannelMessage x = λ id handle cap.
        new_message x id (
          open_msg (record {
            channel = id;
            protocol = Crypto.protocol_name;
            discovery_key = handle.discovery_key;
            capability = cap;
          })) in
      let tell : ℕ → ChannelHandle → M p (Unit {0}) = λ id handle s'.
        (lift (capability p key s') >>= λ cap. enqueue (message id handle cap)) s' in
      let joined : ChannelHandle → ℕ → M p (Unit {0}) =
        λ handle id. if is_connected handle then accept_channel p id else pure tt in
      let opened : ChannelHandle → M p (Unit {0}) = λ handle.
        lift (known_id p (Handle.local_id handle)) >>= λ id. joined handle id >> tell id handle in
      Lands-bind Z F HasLocal Any (with_channels (Map.attach_local p key)) opened s
        (attach_local-Lands key s small i)
        λ handle s1 i1 has.
          Lands-lift Z F Any (known_id p (Handle.local_id handle))
            (λ id. joined handle id >> tell id handle) s1 i1
            (known_id-MayHalt (Handle.local_id handle) has.0 has.1)
            λ id known.
              Lands-bind Z F Any Any (joined handle id) (λ u. tell id handle) s1
                (Lands-if Z F Any (is_connected handle) (accept_channel p id) (pure tt) s1
                  (λ t. accept_channel-Lands id s1 i1) (λ t. (i1, tt)))
                λ u s2 i2 any.
                  Lands-lift Z F Any (capability p key s2) (λ cap. enqueue (message id handle cap))
                    s2 i2 (capability-MayHalt p Z mac key s2 i2.hash_fits)
                    (λ cap e. enqueue-Lands Z F (message id handle cap) s2 stable tt i2)

  parse_key-MayHalt : (key : Bytes) → MayHalt Z (parse_key key)
  unfolding parse_key
  parse_key-MayHalt key = elim (Bool-cases (length key == 32)) [
    | inl fits ↦ rw fits tt
    | inr differs ↦ rw differs tt
  ]

  connected_local :
      (h : ChannelHandle) → is_connected h ≡ true → (id : ℕ) × (Handle.local_id h ≡ some id)
  connected_local h connected = elim (Option-cases h.local_state) [
    | inl unattached ↦ cc (simp unattached at connected)
    | inr (l, locally) ↦ (l.local_id, simp locally)
  ]

  attach_remote-Lands :
      (dk : Bytes) (ch : ℕ) (cap : Option Bytes) (s : Protocol p)
      → Z ⊎ (ch < 2 ^ 57)
      → Z ⊎ Established p s.io.stream
      → Inv Z F s
      → Lands Z F Any (with_channels (Map.attach_remote p dk ch cap) s)
  attach_remote-Lands dk ch cap s small done i = elim (attach_remote-cases p dk ch cap s.channels) [
    | inl attaches ↦
        with_channels-Lands Z F Any (Map.attach_remote p dk ch cap)
          (remote_handle p dk ch cap s.channels) (remote_map p dk ch cap s.channels) s attaches
          (remote_map-IsMap p _ dk ch cap s.channels done i.map) tt i
    | inr (large, panics) ↦
        let allowed : Z = elim small [ inl z ↦ z | inr lt ↦ absurd (omega (arith, lt, large)) ] in
        with_channels-panic Z F Any (Map.attach_remote p dk ch cap) s panics allowed i
  ]

  -- An `Open` comes after the handshake, on an id below 2^57, unless a panic is allowed.
  pub on_open-Lands :
      (ch : ℕ) (msg : Open) (s : Protocol p)
      → Z ⊎ (ch < 2 ^ 57)
      → Z ⊎ Established p s.io.stream
      → Inv Z F s
      → Lands Z F Any (on_open p ch msg s)
  unfolding on_open
  on_open-Lands ch msg s small done i =
      let verdict : Bytes → ChannelHandle → M p (Unit {0}) = λ dk handle.
        if is_connected handle
        then lift (known_id p (Handle.local_id handle)) >>= accept_channel p
        else queue_event (Event.discovery_key dk) in
      let attached : Bytes → M p (Unit {0}) =
        λ dk. with_channels (Map.attach_remote p dk ch msg.capability) >>= verdict dk in
      Lands-lift Z F Any (parse_key msg.discovery_key) attached s i
        (parse_key-MayHalt msg.discovery_key)
        λ dk parsed.
          Lands-bind Z F Any Any (with_channels (Map.attach_remote p dk ch msg.capability))
            (verdict dk) s (attach_remote-Lands dk ch msg.capability s small done i)
            λ handle s1 i1 any.
              Lands-if Z F Any (is_connected handle)
                (lift (known_id p (Handle.local_id handle)) >>= accept_channel p)
                (queue_event (Event.discovery_key dk)) s1
                (λ connected.
                  let (id, known) = connected_local handle connected in
                  Lands-lift Z F Any (known_id p (Handle.local_id handle)) (accept_channel p) s1 i1
                    (known_id-MayHalt (Handle.local_id handle) id known)
                    (λ id' e. accept_channel-Lands id' s1 i1))
                (λ t. queue_event-Lands Z F (Event.discovery_key dk) s1 tt i1)
