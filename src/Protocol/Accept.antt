-- ===== src/Protocol/Accept.antt =====
-- When src/protocol.rs opens a channel: `accept_channel`, with the check of the remote capability.
use hypercore_protocol_rs.Prelude.{
  ℕ, List, [], ◌∷◌, ◌++◌, Option, Option-cases, some, Result, ok, err, panic, stuck, ◌≡◌, refl, sym,
  ap, ◌∙◌, inl, inr,
}
use hypercore_protocol_rs.Wire.{Bytes, External}
use hypercore_protocol_rs.Platform.{Platform}
use hypercore_protocol_rs.Crypto.{HandshakeResult}
use hypercore_protocol_rs.Crypto.Verify.{Proves, verified}
use hypercore_protocol_rs.Channels.Handle.{Channel}
use hypercore_protocol_rs.Channels.Map
use hypercore_protocol_rs.Protocol.State.{
  Protocol, Event, M, ◌>>=◌, lift, with_channels, queue_event,
}
use hypercore_protocol_rs.Protocol.Step.{accept_channel, verify_remote_capability, handshake_result}
use hypercore_protocol_rs.Protocol.Results.{bind-eq-ok}

module _ {x : External} {p : Platform x} where
  handshake-verified :
      (received : Option Bytes) (key : Bytes) (s : Protocol p)
      → verify_remote_capability p received key s ≡ ok tt
      → (h : HandshakeResult) × (c : Bytes) × (handshake_result p s ≡ some h)
        × (received ≡ some c)
        × Proves p h key c
  unfolding verify_remote_capability
  handshake-verified received key s e = elim (Option-cases (handshake_result p s)) [
    | inl before ↦ cc (rw (before, verify_remote_capability) at e)
    | inr (h, after) ↦
        let (c, shown, mac) =
          verified p h received key (rw (after, verify_remote_capability) at e) in
        (h, c, after, shown, mac)
  ]

  with_channels-queued_events :
      {A : Type 0} (f : Map.ChannelMap p → Result (A × Map.ChannelMap p)) (s : Protocol p)
      → (with_channels f s).1.queued_events ≡ s.queued_events
  unfolding with_channels
  with_channels-queued_events {A} f s = go (f s.channels)
    where
      go :
          (r : Result (A × Map.ChannelMap p))
          → (with_channels (λ c. r) s).1.queued_events ≡ s.queued_events
      go (ok (a, channels)) = refl
      go (err e) = refl
      go panic = refl
      go stuck = refl

  with_channels-eq-ok :
      {A : Type 0} (f : Map.ChannelMap p → Result (A × Map.ChannelMap p)) (s : Protocol p) (a : A)
      → (with_channels f s).0 ≡ ok a
      → f s.channels ≡ ok (a, (with_channels f s).1.channels)
  unfolding with_channels
  with_channels-eq-ok {A} f s a = go (f s.channels)
    where
      go :
          (r : Result (A × Map.ChannelMap p))
          → (with_channels (λ c. r) s).0 ≡ ok a
          → r ≡ ok (a, (with_channels (λ c. r) s).1.channels)
      go (ok (b, channels)) h =
          let same : b ≡ a = cc in
          ap (λ (v : A). let pair : A × Map.ChannelMap p = (v, channels) in ok pair) same
      go (err e) h = cc
      go panic h = cc
      go stuck h = cc

  queued-event :
      (ch : Channel) (s s' : Protocol p)
      → queue_event (Event.channel ch) s ≡ (ok tt, s')
      → (s'.queued_events ≡ s.queued_events ++ (Event.channel ch ∷ [])) × (s.channels ≡ s'.channels)
  unfolding queue_event
  queued-event ch s s' e =
      let after : s' ≡ (queue_event (Event.channel ch) s).1 =
        ap (λ (r : Result (Unit {0}) × Protocol p). r.1) (sym e) in
      (
        ap (λ (t : Protocol p). t.queued_events) after,
        ap (λ (t : Protocol p). t.channels) (sym after),
      )

  -- When `accept_channel` succeeds, the handshake was complete, and the capability that the remote sent
  -- for the channel is the one that the other role computes from the channel's key and the handshake
  -- hash. The channel is the one that the channel map opens, and exactly one event is queued, that of
  -- this channel.
  pub accept_channel-verified :
      (id : ℕ) (s s' : Protocol p)
      → accept_channel p id s ≡ (ok tt, s')
      → (h : HandshakeResult) × (key c : Bytes) × (ch : Channel) × (handshake_result p s ≡ some h)
        × (Map.prepare_to_verify p id s.channels ≡ ok (key, some c))
        × Proves p h key c
        × (Map.accept p id s.channels ≡ ok (ch, s'.channels))
        × (s'.queued_events ≡ s.queued_events ++ (Event.channel ch ∷ []))
  unfolding accept_channel
  accept_channel-verified id s s' e =
      let opened : Channel → M p (Unit {0}) = λ ch. queue_event (Event.channel ch) in
      let joined : Unit {0} → M p (Unit {0}) = λ u. with_channels (Map.accept p id) >>= opened in
      let checked : Bytes × Option Bytes → M p (Unit {0}) =
        λ kc. lift (verify_remote_capability p kc.1 kc.0 s) >>= joined in
      let ((key, received), prepared, e1) =
        bind-eq-ok (lift (Map.prepare_to_verify p id s.channels)) checked s s' tt e in
      let (u, verifies, e2) =
        bind-eq-ok (lift (verify_remote_capability p received key s)) joined s s' tt e1 in
      let (ch, accepted, e3) = bind-eq-ok (with_channels (Map.accept p id)) opened s s' tt e2 in
      let queued = queued-event ch (with_channels (Map.accept p id) s).1 s' e3 in
      let (h, c, after, shown, mac) = handshake-verified received key s verifies in
      (
        h,
        key,
        c,
        ch,
        after,
        prepared
            ∙ ap (λ (r : Option Bytes). let kc : Bytes × Option Bytes = (key, r) in ok kc) shown,
        mac,
        with_channels-eq-ok (Map.accept p id) s ch accepted
            ∙ ap
                (λ (m : Map.ChannelMap p).
                  let pair : Channel × Map.ChannelMap p = (ch, m) in ok pair)
                queued.1,
        queued.0
            ∙ ap (λ (l : List Event). l ++ (Event.channel ch ∷ []))
                (with_channels-queued_events (Map.accept p id) s),
      )
