-- ===== src/Protocol/Handshake.antt =====
-- The handshake event of `Protocol::poll_next` (src/protocol.rs), over a sequence of polls.
pub mod Flag
use hypercore_protocol_rs.Prelude.{
  ℕ, ◌+◌, ◌≤◌, ◌≡◌, refl, Bool, true, false, if◌then◌else◌, inl, Option, none, some, List, [], ◌∷◌,
  ◌++◌, Result, ok, err, panic, stuck, arith, suc, ◌⊎◌, All, MayHalt-any,
}
use hypercore_protocol_rs.Wire.{Bytes, External}
use hypercore_protocol_rs.ChannelMessage.{ChannelMessage}
use hypercore_protocol_rs.Platform.{Platform, Poll, ready, pending}
use hypercore_protocol_rs.Channels.Map
use hypercore_protocol_rs.MessageIo.{MessageIo}
use hypercore_protocol_rs.MessageIo
use hypercore_protocol_rs.Protocol.State.{Protocol, Event, Command, ◌>>=◌, pure, new}
use hypercore_protocol_rs.Protocol.Step.{
  first_messages, emit_key, emit_handshake, or_pop, poll_next,
}
use hypercore_protocol_rs.Protocol.Invariant.{Lands, Any, Lands-bind, Lands-if, Inv, Context, Free}
use hypercore_protocol_rs.Protocol.Polling.{NotHandshake, rest-Lands, first_messages-Lands}
use hypercore_protocol_rs.Protocol.Halting.{Established}
use hypercore_protocol_rs.Protocol.Handlers.{OpenFits}
use hypercore_protocol_rs.Protocol.IoLaws.{IoLaws, PollMayHalt, HasRead}
use hypercore_protocol_rs.Channels.Map.Invariant.{IsMap-weaken}
use hypercore_protocol_rs.Protocol.Handshake.Flag.{
  budget, Stays, budget-le, budget-unset, StaysSet, StaysSet-IoLaws,
}

-- The event a poll returns, if it returns one.
abbrev pub returned : Result (Poll Event) → List Event
returned (ok (ready e)) = e ∷ []
returned _ = []

-- How many handshake events there are.
unfoldable pub handshakes : List Event → ℕ
handshakes [] = 0
handshakes (Event.handshake key ∷ es) = 1 + handshakes es
handshakes (e ∷ es) = handshakes es

module _ {x : External} (p : Platform x) where
  -- A sequence of polls, with the events they return. Between polls the stream moves on, and commands,
  -- messages and places in the queues of the channels arrive.
  pub data Trace : Protocol p → List Event → Protocol p → Type 0 where
    ends : (s : Protocol p) → Trace s [] s
    polls :
        (fuel : ℕ) (s s' : Protocol p) (es : List Event)
        → Trace (poll_next p fuel s).1 es s'
        → Trace s (returned (poll_next p fuel s).0 ++ es) s'
    feeds :
        (io : MessageIo p) (commands : List Command) (outbound : List (List (ChannelMessage x)))
        → (queues : p.Queues) (s s' : Protocol p) (es : List Event)
        → Trace
            (record s {
              io = io;
              command_rx = commands;
              outbound_rx = outbound;
              channels = record s.channels { queues = queues };
            })
            es
            s'
        → Trace s es s'

module _ {x : External} {p : Platform x} where
  abbrev Pays : Bool → Poll Event → Protocol p → Type 0
  Pays b polled s = handshakes (returned (ok polled)) + budget s.handshake_emitted ≤ budget b

  silent :
      (polled : Poll Event) (s : Protocol p)
      → NotHandshake polled s
      → handshakes (returned (ok polled)) ≡ 0
  unfolding handshakes
  silent pending s q = refl
  silent (ready (Event.handshake k)) s q = absurd q
  silent (ready (Event.discovery_key k)) s q = refl
  silent (ready (Event.channel c)) s q = refl
  silent (ready (Event.close k)) s q = refl
  silent (ready (Event.local_signal n d)) s q = refl

  NotHandshake-Pays :
      (b : Bool) (polled : Poll Event) (s : Protocol p)
      → NotHandshake polled s
      → Stays b s.handshake_emitted
      → Pays b polled s
  NotHandshake-Pays b polled s q stays =
      let none_here = silent polled s q in
      let le = budget-le b s.handshake_emitted stays in omega (arith, none_here, le)

module _ {x : External} (p : Platform x) (b : Bool) where
  abbrev In : Protocol p → Type 0
  In s = Inv Unit (StaysSet p b) s

  -- The handshake event is returned at once, and the flag is set.
  abbrev Emits : Option Event → Protocol p → Type 0
  Emits none s = Unit {0}
  Emits (some e) s = Pays b (ready e) s

  emit_handshake-Lands :
      (s : Protocol p) → In s → Lands Unit (StaysSet p b) Emits (emit_handshake p s)
  unfolding emit_handshake handshakes
  emit_handshake-Lands s i =
      Lands-if Unit (StaysSet p b) Emits s.handshake_emitted (pure none)
        (emit_key p (p.remote_public_key s.io.stream)) s (λ t. (i, tt))
        (λ f. go (p.remote_public_key s.io.stream) (budget-unset b s.handshake_emitted f i.context))
    where
      go : (o : Option Bytes) → 1 ≤ budget b → Lands Unit (StaysSet p b) Emits (emit_key p o s)
      go none le = (i, tt)
      go (some key) le = (
        record { map = i.map; hash_fits = i.hash_fits; events = i.events; context = λ t. refl },
        le,
      )

  or_pop-Lands :
      (fuel : ℕ) (emitted : Option Event) (s : Protocol p)
      → In s
      → Emits emitted s
      → Lands Unit (StaysSet p b) (Pays b) (or_pop p fuel emitted s)
  or_pop-Lands fuel (some e) s i q = (i, q)
  or_pop-Lands fuel none s i q =
      pays (or_pop p fuel none s)
        (rest-Lands p Unit (λ n. StaysSet p b) (StaysSet-IoLaws p b) (inl tt) fuel s i)
    where
      pays :
          (r : Result (Poll Event) × Protocol p)
          → Lands Unit (StaysSet p b) NotHandshake r
          → Lands Unit (StaysSet p b) (Pays b) r
      pays (ok polled, s') (i', q') = (i', NotHandshake-Pays b polled s' q' i'.context)
      pays (err e, s') i' = i'
      pays (panic, s') i' = i'
      pays (stuck, s') i' = i'

  poll_next-Lands :
      (fuel : ℕ) (s : Protocol p) → In s → Lands Unit (StaysSet p b) (Pays b) (poll_next p fuel s)
  unfolding poll_next
  poll_next-Lands fuel s i =
      Lands-bind Unit (StaysSet p b) Any (Pays b) (first_messages p fuel)
        (λ proceeds.
          if proceeds then (do emitted ← emit_handshake p; or_pop p fuel emitted) else pure pending)
        s (first_messages-Lands p Unit (λ n. StaysSet p b) (StaysSet-IoLaws p b) (inl tt) fuel s i)
        λ proceeds s1 i1 any.
          Lands-if Unit (StaysSet p b) (Pays b) proceeds
            (do emitted ← emit_handshake p; or_pop p fuel emitted) (pure pending) s1
            (λ t.
              Lands-bind Unit (StaysSet p b) Emits (Pays b) (emit_handshake p)
                (λ emitted. or_pop p fuel emitted) s1 (emit_handshake-Lands s1 i1)
                (λ emitted s2 i2 q. or_pop-Lands fuel emitted s2 i2 q))
            (λ t. (i1, NotHandshake-Pays b pending s1 tt i1.context))

module _ {x : External} (p : Platform x) where
  -- The invariant after a poll, and what the poll pays.
  poll_next-pays :
      (fuel : ℕ) (s : Protocol p)
      → Inv Unit Free s
      → let (r, s') = poll_next p fuel s in
        Inv Unit Free s'
        × (handshakes (returned r) + budget s'.handshake_emitted ≤ budget s.handshake_emitted)
  unfolding handshakes
  poll_next-pays fuel s i =
      let b = s.handshake_emitted in
      let i' : Inv Unit (StaysSet p b) s = record {
        map = i.map;
        hash_fits = i.hash_fits;
        events = i.events;
        context = λ t. t;
      } in
      go (poll_next p fuel s) (poll_next-Lands p b fuel s i')
    where
      freed : (s' : Protocol p) → Inv Unit (StaysSet p s.handshake_emitted) s' → Inv Unit Free s'
      freed s' i' = record {
        map = i'.map;
        hash_fits = i'.hash_fits;
        events = i'.events;
        context = tt;
      }

      kept :
          (s' : Protocol p)
          → Inv Unit (StaysSet p s.handshake_emitted) s'
          → 0 + budget s'.handshake_emitted ≤ budget s.handshake_emitted
      kept s' i' =
          let le = budget-le s.handshake_emitted s'.handshake_emitted i'.context in
          omega (arith, le)

      go :
          (r : Result (Poll Event) × Protocol p)
          → Lands Unit (StaysSet p s.handshake_emitted) (Pays s.handshake_emitted) r
          → Inv Unit Free r.1
            × (handshakes (returned r.0) + budget r.1.handshake_emitted
                ≤ budget s.handshake_emitted)
      go (ok polled, s') (i', q) = (freed s' i', q)
      go (err e, s') i' = (freed s' i', kept s' i')
      go (panic, s') (i', z) = (freed s' i', kept s' i')
      go (stuck, s') (i', z) = (freed s' i', kept s' i')

handshakes-append : (es fs : List Event) → handshakes (es ++ fs) ≡ handshakes es + handshakes fs
unfolding handshakes
handshakes-append [] fs = omega arith
handshakes-append (Event.handshake k ∷ es) fs =
    let rest = handshakes-append es fs in omega (arith, rest)
handshakes-append (Event.discovery_key k ∷ es) fs = handshakes-append es fs
handshakes-append (Event.channel c ∷ es) fs = handshakes-append es fs
handshakes-append (Event.close k ∷ es) fs = handshakes-append es fs
handshakes-append (Event.local_signal n d ∷ es) fs = handshakes-append es fs

module _ {x : External} (p : Platform x) where
  Trace-pays :
      (s s' : Protocol p) (es : List Event)
      → Inv Unit Free s
      → Trace p s es s'
      → handshakes es ≤ budget s.handshake_emitted
  unfolding handshakes
  Trace-pays s s' es i (ends _) = omega arith
  Trace-pays s s' es i (polls fuel _ _ es' more) =
      let (i1, paid) = poll_next-pays p fuel s i in
      let rest = Trace-pays _ s' es' i1 more in
      let split = handshakes-append (returned (poll_next p fuel s).0) es' in
      omega (arith, paid, rest, split)
  Trace-pays s s' es i (feeds io commands outbound queues _ _ _ more) =
      Trace-pays _ s' es
        (record {
          map =
              let v =
                IsMap-weaken p (Unit ⊎ Established p s.io.stream) (Unit ⊎ Established p io.stream)
                  (λ e. inl tt) s.channels i.map in
              record { entries = v.entries; zeroth = v.zeroth };
          hash_fits = inl tt;
          events = i.events;
          context = tt;
        })
        more

  -- From a new protocol on, polls return at most one handshake event, whatever the remote sends, the
  -- commands and the messages to be sent, and also after a poll that fails.
  pub poll_next-one_handshake :
      (stream : p.Stream) (queues : p.Queues) (s' : Protocol p) (es : List Event)
      → Trace p (new stream queues) es s'
      → handshakes es ≤ 1
  unfolding new Map.empty
  poll_next-one_handshake stream queues s' es trace =
      Trace-pays (new stream queues) s' es
        (record {
          map = record { entries = tt; zeroth = refl };
          hash_fits = inl tt;
          events = tt;
          context = tt;
        })
        trace
