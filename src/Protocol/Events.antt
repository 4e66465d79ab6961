-- ===== src/Protocol/Events.antt =====
-- The events that `poll_next` (src/protocol.rs) returns before it reads or writes anything.
use hypercore_protocol_rs.Prelude.{
  ℕ, ◌≡◌, refl, ap, ◌∙◌, Bool, true, false, not, ◌&&◌, if◌then◌else◌, ◌⊎◌, inl, inr, none, some,
  List, [], ◌∷◌, ◌++◌, length, ok, &&-false, arith,
}
use hypercore_protocol_rs.Wire.{Bytes, External}
use hypercore_protocol_rs.Schema.Flags.{is_some}
use hypercore_protocol_rs.Platform.{Platform, Poll, ready, pending}
use hypercore_protocol_rs.Protocol.State.{Protocol, Event, M, ◌>>=◌, pure}
use hypercore_protocol_rs.Protocol.Step.{
  first_messages, emit_handshake, pop_event, or_poll, or_pop, poll_next,
}
use hypercore_protocol_rs.Protocol.Results.{bind-step}
use hypercore_protocol_rs.Protocol.Handshake.{returned}

module _ {x : External} (p : Platform x) where
  -- The events of a sequence of polls, each with its fuel, and the state after them.
  abbrev pub poll_each : List ℕ → Protocol p → List Event × Protocol p
  poll_each [] s = ([], s)
  poll_each (fuel ∷ fuels) s =
      let (r, s') = poll_next p fuel s in
      let (es, s'') = poll_each fuels s' in (returned r ++ es, s'')

  -- The end has not started the connection, or its stream has a handshake hash.
  abbrev pub Proceeds : Protocol p → Type 0
  Proceeds s =
      (s.is_initiator ≡ false) ⊎ ((hash : Bytes) × (p.handshake_hash s.io.stream ≡ some hash))

  first_messages-Proceeds :
      (fuel : ℕ) (s : Protocol p) → Proceeds s → first_messages p fuel s ≡ (ok true, s)
  unfolding first_messages
  first_messages-Proceeds fuel s (inl responds) = rw (first_messages, responds)
  first_messages-Proceeds fuel s (inr (hash, e)) =
      let goes_on : (s.is_initiator && not (is_some (p.handshake_hash s.io.stream))) ≡ false =
        rw e (&&-false s.is_initiator) in
      rw (first_messages, goes_on)

  -- The rest of a poll, after the first messages.
  proceed : ℕ → Bool → M p (Poll Event)
  proceed fuel proceeds =
      if proceeds then (do emitted ← emit_handshake p; or_pop p fuel emitted) else pure pending

  emitted-none : (s : Protocol p) → s.handshake_emitted ≡ true → emit_handshake p s ≡ (ok none, s)
  unfolding emit_handshake
  emitted-none s set = rw (emit_handshake, set)

  emitted-key :
      (s : Protocol p) (key : Bytes)
      → s.handshake_emitted ≡ false
      → p.remote_public_key s.io.stream ≡ some key
      → emit_handshake p s
        ≡ (ok (some (Event.handshake key)), record s { handshake_emitted = true })
  unfolding emit_handshake
  emitted-key s key unset known = rw (emit_handshake, unset, known)

  popped :
      (s : Protocol p) (e : Event) (es : List Event)
      → s.queued_events ≡ e ∷ es
      → pop_event p s ≡ (ok (ready e), record s { queued_events = es })
  unfolding pop_event
  popped s e es queued = rw (pop_event, queued)

  -- The handshake event comes first.
  poll_next-handshake :
      (fuel : ℕ) (s : Protocol p) (key : Bytes)
      → Proceeds s
      → s.handshake_emitted ≡ false
      → p.remote_public_key s.io.stream ≡ some key
      → poll_next p fuel s
        ≡ (ok (ready (Event.handshake key)), record s { handshake_emitted = true })
  unfolding poll_next proceed
  poll_next-handshake fuel s key proceeds unset known =
      bind-step (first_messages p fuel) (proceed fuel) s s true
        (first_messages-Proceeds fuel s proceeds)
      ∙ bind-step (emit_handshake p) (λ emitted. or_pop p fuel emitted) s
          (record s { handshake_emitted = true }) (some (Event.handshake key))
          (emitted-key s key unset known)

  -- Then the events that are queued.
  poll_next-queued :
      (fuel : ℕ) (s : Protocol p) (e : Event) (es : List Event)
      → Proceeds s
      → s.handshake_emitted ≡ true
      → s.queued_events ≡ e ∷ es
      → poll_next p fuel s ≡ (ok (ready e), record s { queued_events = es })
  unfolding poll_next proceed
  poll_next-queued fuel s e es proceeds set queued =
      bind-step (first_messages p fuel) (proceed fuel) s s true
        (first_messages-Proceeds fuel s proceeds)
      ∙ bind-step (emit_handshake p) (λ emitted. or_pop p fuel emitted) s s none
          (emitted-none s set)
      ∙ bind-step (pop_event p) (λ queued. or_poll p fuel queued) s
          (record s { queued_events = es }) (ready e) (popped s e es queued)

  poll_each-queued :
      (fuels : List ℕ) (s : Protocol p) (es : List Event)
      → Proceeds s
      → s.handshake_emitted ≡ true
      → s.queued_events ≡ es
      → length fuels ≡ length es
      → poll_each fuels s ≡ (es, record s { queued_events = [] })
  poll_each-queued [] s [] proceeds set queued same =
      ap (λ (l : List Event). ([], record s { queued_events = l })) queued
  poll_each-queued [] s (e ∷ es) proceeds set queued same = absurd (omega arith)
  poll_each-queued (fuel ∷ fuels) s [] proceeds set queued same = absurd (omega arith)
  poll_each-queued (fuel ∷ fuels) s (e ∷ es) proceeds set queued same =
      let rest =
        poll_each-queued fuels (record s { queued_events = es }) es proceeds set refl
          (omega arith) in
      rw (poll_next-queued fuel s e es proceeds set queued, rest)

  -- A poll for each: an end that has not started the connection, or has a handshake hash, returns the handshake
  -- event with the key of the remote first, if its stream has the key and the event was not returned before,
  -- and then every queued event, in order. These polls change nothing else: they neither read nor write, at
  -- whatever fuel.
  pub poll_each-events :
      (fuel : ℕ) (fuels : List ℕ) (s : Protocol p) (key : Bytes)
      → Proceeds s
      → s.handshake_emitted ≡ false
      → p.remote_public_key s.io.stream ≡ some key
      → length fuels ≡ length s.queued_events
      → poll_each (fuel ∷ fuels) s ≡ (
        Event.handshake key ∷ s.queued_events,
        record s { handshake_emitted = true; queued_events = [] },
      )
  poll_each-events fuel fuels s key proceeds unset known same =
      let rest =
        poll_each-queued fuels (record s { handshake_emitted = true }) s.queued_events proceeds refl
          refl same in
      rw (poll_next-handshake fuel s key proceeds unset known, rest)
