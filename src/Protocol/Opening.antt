-- ===== src/Protocol/Opening.antt =====
-- The handlers that open a channel (src/protocol.rs), each with the state it ends in: `accept_channel`,
-- `on_open` on a channel that is open on this side, and `command_open` of a new one.
use hypercore_protocol_rs.Prelude.{
  inl, inr, arith, ℕ, ◌<◌, ◌^◌, ◌≡◌, refl, ap, ◌∙◌, true, if◌then◌else◌, Option, none, some, [],
  ◌∷◌, ◌++◌, length, get_elem?, Result, ok, err, Error, lookup,
}
use hypercore_protocol_rs.Wire.{Bytes, External}
use hypercore_protocol_rs.Schema.Open.{Open}
use hypercore_protocol_rs.Message.{open_msg}
use hypercore_protocol_rs.ChannelMessage.{ChannelMessage, new as new_message}
use hypercore_protocol_rs.Platform.{Platform}
use hypercore_protocol_rs.Crypto
use hypercore_protocol_rs.Crypto.{HandshakeResult}
use hypercore_protocol_rs.Channels.Handle
use hypercore_protocol_rs.Channels.Handle.{
  ChannelHandle, Channel, LocalState, RemoteState, is_connected,
}
use hypercore_protocol_rs.Channels.Map
use hypercore_protocol_rs.Channels.Map.{ChannelMap, id_key}
use hypercore_protocol_rs.Channels.Map.Entries.{
  lookup-upsert, local_handle, local_map, attach_local-eq, remote_handle, remote_map,
  attach_remote-cases,
}
use hypercore_protocol_rs.Channels.Map.Accepts.{
  Connected, accepted_channel, accepted_map, prepare_to_verify-Connected, accept-Connected,
}
use hypercore_protocol_rs.Protocol.State.{
  Protocol, Event, M, ◌>>=◌, ◌>>◌, pure, lift, with_channels, queue_event, enqueue,
}
use hypercore_protocol_rs.Protocol.Step.{
  accept_channel, verify_remote_capability, handshake_result, capability, known_id, command_open,
  on_open, parse_key,
}
use hypercore_protocol_rs.Protocol.Results.{bind-step, bind-err, with_channels-ok}
use hypercore_protocol_rs.MessageIo

module _ {x : External} (p : Platform x) where
  -- The state with a channel accepted: its handle is open, and the event is queued.
  abbrev pub accepted : Bytes → ChannelHandle → LocalState → Protocol p → Protocol p
  accepted k h l s = record s {
    channels = accepted_map p Unit k h s.channels;
    queued_events =
        s.queued_events ++ (Event.channel (accepted_channel p Unit h l s.channels) ∷ []);
  }

  accept_channel-Connected :
      (id : ℕ) (s : Protocol p) (k : Bytes) (h : ChannelHandle) (l : LocalState) (r : RemoteState)
      → Connected p Unit id s.channels k h l r
      → verify_remote_capability p r.remote_capability l.key s ≡ ok tt
      → accept_channel p id s ≡ (ok tt, accepted k h l s)
  unfolding accept_channel with_channels queue_event
  accept_channel-Connected id s k h l r c verified =
      let m' = accepted_map p Unit k h s.channels in
      let opened : Channel → M p (Unit {0}) = λ ch. queue_event (Event.channel ch) in
      let checked : Bytes × Option Bytes → M p (Unit {0}) = λ kc.
        lift (verify_remote_capability p kc.1 kc.0 s)
        >>= (λ u. with_channels (Map.accept p id) >>= opened) in
      bind-step (lift (Map.prepare_to_verify p id s.channels)) checked s s
        (l.key, r.remote_capability)
        (ap (λ (q : Result (Bytes × Option Bytes)). (q, s))
          (prepare_to_verify-Connected p Unit id s.channels k h l r c))
      ∙ bind-step (lift (verify_remote_capability p r.remote_capability l.key s))
          (λ u. with_channels (Map.accept p id) >>= opened) s s tt
          (ap (λ (q : Result (Unit {0})). (q, s)) verified)
      ∙ bind-step (with_channels (Map.accept p id)) opened s (record s { channels = m' })
          (accepted_channel p Unit h l s.channels)
          (with_channels-ok (Map.accept p id) s _ m'
            (accept-Connected p Unit id s.channels k h l r c))

  accept_channel-refused :
      (id : ℕ) (s : Protocol p) (k : Bytes) (h : ChannelHandle) (l : LocalState) (r : RemoteState)
      → (e : Error) → Connected p Unit id s.channels k h l r
      → verify_remote_capability p r.remote_capability l.key s ≡ err e
      → accept_channel p id s ≡ (err e, s)
  unfolding accept_channel
  accept_channel-refused id s k h l r e c failed =
      let opened : Channel → M p (Unit {0}) = λ ch. queue_event (Event.channel ch) in
      let joined : Unit {0} → M p (Unit {0}) = λ u. with_channels (Map.accept p id) >>= opened in
      let checked : Bytes × Option Bytes → M p (Unit {0}) =
        λ kc. lift (verify_remote_capability p kc.1 kc.0 s) >>= joined in
      bind-step (lift (Map.prepare_to_verify p id s.channels)) checked s s
        (l.key, r.remote_capability)
        (ap (λ (q : Result (Bytes × Option Bytes)). (q, s))
          (prepare_to_verify-Connected p Unit id s.channels k h l r c))
      ∙ bind-err (lift (verify_remote_capability p r.remote_capability l.key s)) joined s s e
          (ap (λ (q : Result (Unit {0})). (q, s)) failed)

  verify-channels :
      (cap : Option Bytes) (key : Bytes) (s : Protocol p) (m : ChannelMap p)
      → verify_remote_capability p cap key (record s { channels = m })
        ≡ verify_remote_capability p cap key s
  unfolding verify_remote_capability handshake_result
  verify-channels cap key s m = refl

  -- The state after the remote attached the channel.
  abbrev pub attached : Bytes → ℕ → Option Bytes → Protocol p → Protocol p
  attached dk ch cap s = record s { channels = remote_map p dk ch cap s.channels }

  small_id-attaches :
      (dk : Bytes) (ch : ℕ) (cap : Option Bytes) (m : ChannelMap p)
      → ch < 2 ^ 57
      → Map.attach_remote p dk ch cap m ≡ ok (remote_handle p dk ch cap m, remote_map p dk ch cap m)
  small_id-attaches dk ch cap m small = elim (attach_remote-cases p dk ch cap m) [
    | inl attaches ↦ attaches
    | inr (large, panics) ↦ absurd (omega (arith, small, large))
  ]

  on_open-attached :
      (ch : ℕ) (msg : Open) (s : Protocol p) (h : ChannelHandle) (l : LocalState)
      → length msg.discovery_key ≡ 32
      → ch < 2 ^ 57
      → id_key s.channels.local_id l.local_id ≡ some (p.hex_encode msg.discovery_key)
      → lookup (p.hex_encode msg.discovery_key) s.channels.channels ≡ some h
      → h.local_state ≡ some l
      → let s1 = attached msg.discovery_key ch msg.capability s in
        Connected p Unit l.local_id s1.channels
          (p.hex_encode msg.discovery_key)
          (Handle.attach_remote ch msg.capability h)
          l
          (record { remote_id = ch; remote_capability = msg.capability })
        × (on_open p ch msg s ≡ accept_channel p l.local_id s1)
  unfolding on_open with_channels parse_key known_id
  on_open-attached ch msg s h l size small slot present locally =
      let dk = msg.discovery_key in
      let cap = msg.capability in
      let s1 = attached dk ch cap s in
      let h1 = Handle.attach_remote ch cap h in
      let handle : remote_handle p dk ch cap s.channels ≡ h1 = rw present in
      let held =
        lookup-upsert (p.hex_encode dk) (Handle.attach_remote ch cap)
          (Handle.new_remote ch dk cap (length s.channels.flags)) s.channels.channels in
      let present1 : lookup (p.hex_encode dk) s1.channels.channels ≡ some h1 =
        held ∙ ap some handle in
      let connected : is_connected h1 ≡ true = simp locally in
      let known : Handle.local_id h1 ≡ some l.local_id = simp locally in
      let verdict : Bytes → ChannelHandle → M p (Unit {0}) = λ dk' handle'.
        if is_connected handle'
        then lift (known_id p (Handle.local_id handle')) >>= accept_channel p
        else queue_event (Event.discovery_key dk') in
      let parsed : parse_key dk ≡ ok dk = rw size in
      let handle_accepts : verdict dk h1 s1 ≡ accept_channel p l.local_id s1 =
        rw (connected, known) in
      (
        (slot, present1, locally, refl),
        bind-step (lift (parse_key dk))
              (λ dk'. with_channels (Map.attach_remote p dk' ch cap) >>= verdict dk') s s dk
              (ap (λ (q : Result Bytes). (q, s)) parsed)
            ∙ bind-step (with_channels (Map.attach_remote p dk ch cap)) (verdict dk) s s1
                (remote_handle p dk ch cap s.channels)
                (with_channels-ok (Map.attach_remote p dk ch cap) s _ s1.channels
                  (small_id-attaches dk ch cap s.channels small))
            ∙ ap (λ (w : ChannelHandle). verdict dk w s1) handle
            ∙ handle_accepts,
      )

  pub on_open-accepts :
      (ch : ℕ) (msg : Open) (s : Protocol p) (h : ChannelHandle) (l : LocalState)
      → length msg.discovery_key ≡ 32
      → ch < 2 ^ 57
      → id_key s.channels.local_id l.local_id ≡ some (p.hex_encode msg.discovery_key)
      → lookup (p.hex_encode msg.discovery_key) s.channels.channels ≡ some h
      → h.local_state ≡ some l
      → verify_remote_capability p msg.capability l.key s ≡ ok tt
      → on_open p ch msg s ≡ (
        ok tt,
        accepted
            (p.hex_encode msg.discovery_key)
            (Handle.attach_remote ch msg.capability h)
            l
            (attached msg.discovery_key ch msg.capability s),
      )
  on_open-accepts ch msg s h l size small slot present locally verified =
      let s1 = attached msg.discovery_key ch msg.capability s in
      let (connected, runs) = on_open-attached ch msg s h l size small slot present locally in
      runs
      ∙ accept_channel-Connected l.local_id s1 (p.hex_encode msg.discovery_key)
          (Handle.attach_remote ch msg.capability h) l
          (record { remote_id = ch; remote_capability = msg.capability }) connected
          (verify-channels msg.capability l.key s s1.channels ∙ verified)

  -- A capability that is not verified is an error; the remote stays attached.
  pub on_open-refuses :
      (ch : ℕ) (msg : Open) (s : Protocol p) (h : ChannelHandle) (l : LocalState) (e : Error)
      → length msg.discovery_key ≡ 32
      → ch < 2 ^ 57
      → id_key s.channels.local_id l.local_id ≡ some (p.hex_encode msg.discovery_key)
      → lookup (p.hex_encode msg.discovery_key) s.channels.channels ≡ some h
      → h.local_state ≡ some l
      → verify_remote_capability p msg.capability l.key s ≡ err e
      → on_open p ch msg s ≡ (err e, attached msg.discovery_key ch msg.capability s)
  on_open-refuses ch msg s h l e size small slot present locally refused =
      let s1 = attached msg.discovery_key ch msg.capability s in
      let (connected, runs) = on_open-attached ch msg s h l size small slot present locally in
      runs
      ∙ accept_channel-refused l.local_id s1 (p.hex_encode msg.discovery_key)
          (Handle.attach_remote ch msg.capability h) l
          (record { remote_id = ch; remote_capability = msg.capability }) e connected
          (verify-channels msg.capability l.key s s1.channels ∙ refused)

  -- The message that tells the remote of a channel.
  abbrev pub telling : ℕ → Bytes → Option Bytes → ChannelMessage x
  telling id dk cap = new_message x id (
      open_msg (record {
        channel = id;
        protocol = Crypto.protocol_name;
        discovery_key = dk;
        capability = cap;
      }))

  capability-channels :
      (key : Bytes) (s : Protocol p) (m : ChannelMap p)
      → capability p key (record s { channels = m }) ≡ capability p key s
  unfolding capability handshake_result
  capability-channels key s m = refl

  pub command_open-tells :
      (key dk : Bytes) (cap : Option Bytes) (s : Protocol p)
      → get_elem? s.channels.local_id 0 ≡ some none
      → Crypto.discovery_key p key ≡ ok dk
      → lookup (p.hex_encode dk) s.channels.channels ≡ none
      → capability p key s ≡ ok cap
      → let id = (Map.alloc_local p s.channels.local_id).0 in
        command_open p key s ≡ (
          ok tt,
          record s {
            channels = local_map p key dk s.channels;
            io = MessageIo.enqueue p (telling id dk cap) s.io;
          },
        )
  unfolding command_open known_id enqueue
  command_open-tells key dk cap s zeroth derived fresh shown =
      let id = (Map.alloc_local p s.channels.local_id).0 in
      let s1 = record s { channels = local_map p key dk s.channels } in
      let h1 = Handle.new_local id dk key (length s.channels.flags) in
      let handle : local_handle p key dk s.channels ≡ h1 = rw fresh in
      let tell : ℕ → ChannelHandle → M p (Unit {0}) = λ id handle s'.
        (lift (capability p key s') >>= λ cap. enqueue (telling id handle.discovery_key cap)) s' in
      let joined : ChannelHandle → ℕ → M p (Unit {0}) =
        λ handle id. if is_connected handle then accept_channel p id else pure tt in
      let opened : ChannelHandle → M p (Unit {0}) = λ handle.
        lift (known_id p (Handle.local_id handle)) >>= λ id. joined handle id >> tell id handle in
      bind-step (with_channels (Map.attach_local p key)) opened s s1
        (local_handle p key dk s.channels)
        (with_channels-ok (Map.attach_local p key) s _ s1.channels
          (attach_local-eq p key dk s.channels zeroth derived))
      ∙ ap (λ (w : ChannelHandle). opened w s1) handle
      ∙ bind-step (lift (capability p key s1)) (λ cap. enqueue (telling id dk cap)) s1 s1 cap
          (ap (λ (q : Result (Option Bytes)). (q, s1))
            (capability-channels key s s1.channels ∙ shown))
