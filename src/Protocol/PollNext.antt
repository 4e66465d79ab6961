-- ===== src/Protocol/PollNext.antt =====
-- `poll_next` (src/protocol.rs) under the invariant, for a property of the context that does not depend on
-- the flag `handshake_emitted`.
use hypercore_protocol_rs.Prelude.{
  Bool, true, if◌then◌else◌, ℕ, if◌then◌else◌, ◌⊎◌, Option, none, some, List, Result, ok, err,
  panic, stuck,
}
use hypercore_protocol_rs.Wire.{Bytes, External}
use hypercore_protocol_rs.Platform.{Platform, Poll, pending}
use hypercore_protocol_rs.MessageIo.{MessageIo}
use hypercore_protocol_rs.Protocol.State.{Command, Protocol, Event, ◌>>=◌, pure}
use hypercore_protocol_rs.Protocol.Step.{
  first_messages, emit_key, emit_handshake, or_pop, poll_next,
}
use hypercore_protocol_rs.Protocol.Halting.{MacTotal}
use hypercore_protocol_rs.Protocol.Invariant.{Inv, Lands, Any, Lands-bind, Lands-if}
use hypercore_protocol_rs.Protocol.Polling.{NotHandshake, rest-Lands, first_messages-Lands}
use hypercore_protocol_rs.Protocol.IoLaws.{Contexts, IoLaws}

module _ {x : External} (p : Platform x) (Z : Type 0) (F : Contexts p) (laws : IoLaws p Z F)
    (mac : Z ⊎ MacTotal p)
    (set : (n : ℕ) (b : Bool) (commands : List Command) (io : MessageIo p)
      → F n b commands io
      → F n true commands io) where
  emit_handshake-Lands :
      (n : ℕ) (s : Protocol p) → Inv Z (F n) s → Lands Z (F n) Any (emit_handshake p s)
  unfolding emit_handshake
  emit_handshake-Lands n s i =
      Lands-if Z (F n) Any s.handshake_emitted (pure none)
        (emit_key p (p.remote_public_key s.io.stream)) s (λ t. (i, tt))
        (λ t. go (p.remote_public_key s.io.stream))
    where
      go : (o : Option Bytes) → Lands Z (F n) Any (emit_key p o s)
      go none = (i, tt)
      go (some key) = (
        record {
          map = i.map;
          hash_fits = i.hash_fits;
          events = i.events;
          context = set n s.handshake_emitted s.command_rx s.io i.context;
        },
        tt,
      )

  or_pop-Lands :
      (n : ℕ) (emitted : Option Event) (s : Protocol p)
      → Inv Z (F n) s
      → Lands Z (F n) Any (or_pop p n emitted s)
  or_pop-Lands n (some event) s i = (i, tt)
  or_pop-Lands n none s i = go (or_pop p n none s) (rest-Lands p Z F laws mac n s i)
    where
      go :
          (r : Result (Poll Event) × Protocol p)
          → Lands Z (F n) NotHandshake r
          → Lands Z (F n) Any r
      go (ok polled, s') (i', q) = (i', tt)
      go (err er, s') i' = i'
      go (panic, s') h = h
      go (stuck, s') h = h

  pub poll_next-Lands :
      (n : ℕ) (s : Protocol p) → Inv Z (F n) s → Lands Z (F n) Any (poll_next p n s)
  unfolding poll_next
  poll_next-Lands n s i =
      Lands-bind Z (F n) Any Any (first_messages p n)
        (λ proceeds.
          if proceeds then (do emitted ← emit_handshake p; or_pop p n emitted) else pure pending)
        s (first_messages-Lands p Z F laws mac n s i)
        λ proceeds s1 i1 any.
          Lands-if Z (F n) Any proceeds (do emitted ← emit_handshake p; or_pop p n emitted)
            (pure pending) s1
            (λ t.
              Lands-bind Z (F n) Any Any (emit_handshake p) (λ emitted. or_pop p n emitted) s1
                (emit_handshake-Lands n s1 i1) (λ emitted s2 i2 any. or_pop-Lands n emitted s2 i2))
            (λ t. (i1, tt))
