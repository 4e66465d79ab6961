-- ===== src/Protocol/Reach.antt =====
-- The states a `Protocol` (src/protocol.rs) reaches, as a step relation, and what its handlers do in them.
use hypercore_protocol_rs.Prelude.{
  ◌≡◌, refl, Bool, true, false, if◌then◌else◌, Option, ◌⊎◌, inl, inr, none, some, List, [], ◌∷◌,
  All, Result, ok, err, panic, stuck, Error,
}
use hypercore_protocol_rs.Wire.{Bytes, External}
use hypercore_protocol_rs.ChannelMessage.{ChannelMessage}
use hypercore_protocol_rs.Platform.{Platform}
use hypercore_protocol_rs.Channels.Map
use hypercore_protocol_rs.Channels.Map.Invariant.{IsMap, IsMap-weaken}
use hypercore_protocol_rs.MessageIo.{MessageIo}
use hypercore_protocol_rs.Protocol.State.{Protocol, Event, Command, M, pure, new}
use hypercore_protocol_rs.Protocol.Step.{
  on_command, on_inbound_message, send_messages, pop_from, pop_event, emit_key, emit_handshake,
}
use hypercore_protocol_rs.Protocol.Halting.{MacTotal, Established, HashFits}
use hypercore_protocol_rs.Protocol.Invariant.{Inv, Lands, Any, IsQueued, Free, Stable}
use hypercore_protocol_rs.Protocol.Handlers.{
  KeyFits, OpenFits, on_command-Lands, on_inbound_message-Lands,
}
use hypercore_protocol_rs.Protocol.Sending.{send_messages-Lands}

-- What a poll handles: a command, a message of the remote, or the messages a channel's user sends.
pub data Call (x : External) : Type 0 where
  command : Command → Call x
  inbound : ChannelMessage x → Call x
  outbound : List (ChannelMessage x) → Call x

module _ {x : External} (p : Platform x) where
  abbrev pub run : Call x → M p (Unit {0})
  run (command c) = on_command p c
  run (inbound m) = on_inbound_message p m
  run (outbound ms) = send_messages p ms

  -- A key of a command fits the MAC, and an `Open` arrives after the handshake, below the id 2^57.
  abbrev pub CallFits : Protocol p → Call x → Type 0
  CallFits s (command c) = KeyFits c
  CallFits s (inbound m) = OpenFits p s.io.stream m
  CallFits s (outbound ms) = Unit {0}

  -- The io layer moves on: the stream stays established, and its hash fits the MAC.
  pub record Moves (before after : MessageIo p) : Type 0 where
    pub stays : Established p before.stream → Established p after.stream
    pub fits : HashFits p after.stream

  -- One step: a call; the io layer moves on; an event is taken; what waits in the queues changes.
  pub data Next : Protocol p → Protocol p → Type 0 where
    calls : (c : Call x) (s : Protocol p) → CallFits s c → Next s (run c s).1
    moves : (io : MessageIo p) (s : Protocol p) → Moves s.io io → Next s (record s { io = io })
    pops : (s : Protocol p) → Next s (pop_event p s).1
    emits : (s : Protocol p) → Next s (emit_handshake p s).1
    feeds :
        (commands : List Command) (messages : List (List (ChannelMessage x))) (queues : p.Queues)
        → (s : Protocol p)
        → Next s (record s {
          command_rx = commands;
          outbound_rx = messages;
          channels = record s.channels { queues = queues };
        })

  pub data Reaches : Protocol p → Protocol p → Type 0 where
    here : (s : Protocol p) → Reaches s s
    next : {s s1 s' : Protocol p} → Next s s1 → Reaches s1 s' → Reaches s s'

module _ {x : External} (p : Platform x) (mac : MacTotal p) where
  -- The invariant where no handler may panic.
  abbrev Held : Protocol p → Type 0
  Held s = Inv ⊥ Free s

  free-Stable : Stable {p = p} Free
  free-Stable b commands io m w f = tt

  run-Lands : (c : Call x) (s : Protocol p) → CallFits p s c → Held s → Lands ⊥ Free Any (run p c s)
  run-Lands (command c) s fits i = on_command-Lands p ⊥ Free free-Stable (inr mac) c s (inr fits) i
  run-Lands (inbound m) s fits i =
      on_inbound_message-Lands p ⊥ Free free-Stable (inr mac) m s (inr fits) i
  run-Lands (outbound ms) s fits i = send_messages-Lands p ⊥ Free free-Stable (inr mac) ms s i

  landed : (r : Result (Unit {0}) × Protocol p) → Lands ⊥ Free Any r → Held r.1
  landed (ok u, s) (i, any) = i
  landed (err e, s) i = i
  landed (panic, s) (i, z) = absurd z
  landed (stuck, s) (i, z) = absurd z

  moved :
      (s : Protocol p) (io : MessageIo p) → Moves p s.io io → Held s → Held (record s { io = io })
  moved s io m i = record {
    map =
        IsMap-weaken p (⊥ ⊎ Established p s.io.stream) (⊥ ⊎ Established p io.stream)
          (λ done. elim done [ inl z ↦ inl z | inr e ↦ inr (m.stays e) ]) s.channels i.map;
    hash_fits = inr m.fits;
    events = i.events;
    context = tt;
  }

  popped : (es : List Event) (s : Protocol p) → All IsQueued es → Held s → Held (pop_from p es s).1
  popped [] s all i = i
  popped (e ∷ es) s (q, all) i = record {
    map = i.map;
    hash_fits = i.hash_fits;
    events = all;
    context = tt;
  }

  keyed : (o : Option Bytes) (s : Protocol p) → Held s → Held (emit_key p o s).1
  keyed none s i = i
  keyed (some key) s i = record {
    map = i.map;
    hash_fits = i.hash_fits;
    events = i.events;
    context = tt;
  }

  emitted : (s : Protocol p) → Held s → Held (emit_handshake p s).1
  unfolding emit_handshake
  emitted s i = go s.handshake_emitted
    where
      go :
          (b : Bool)
          → Held ((if b then pure none else emit_key p (p.remote_public_key s.io.stream)) s).1
      go true = i
      go false = keyed (p.remote_public_key s.io.stream) s i

  next-Held : (s s' : Protocol p) → Next p s s' → Held s → Held s'
  unfolding pop_event
  next-Held s s' (calls c _ fits) i = landed (run p c s) (run-Lands c s fits i)
  next-Held s s' (moves io _ m) i = moved s io m i
  next-Held s s' (pops _) i = popped s.queued_events s i.events i
  next-Held s s' (emits _) i = emitted s i
  next-Held s s' (feeds commands messages queues _) i = record {
    map = record { entries = i.map.entries; zeroth = i.map.zeroth };
    hash_fits = i.hash_fits;
    events = i.events;
    context = tt;
  }

  Reaches-Held : (s s' : Protocol p) → Reaches p s s' → Held s → Held s'
  Reaches-Held s s' (here _) i = i
  Reaches-Held s s' (next {s1 = s1} step more) i = Reaches-Held s1 s' more (next-Held s s1 step i)

  new-Held : (stream : p.Stream) (queues : p.Queues) → HashFits p stream → Held (new stream queues)
  unfolding new Map.empty
  new-Held stream queues fits = record {
    map = record { entries = tt; zeroth = refl };
    hash_fits = inr fits;
    events = tt;
    context = tt;
  }

  -- The MAC accepts keys of up to 64 bytes, and the hash of the stream has up to 64, at first and after
  -- each move of the io layer, which does not undo the handshake; the calls on the way fit as below. Then in
  -- every state that is reached from a new protocol, each entry of the channel map stands under the key of
  -- its handle, its ids are in range of the two tables and its flag exists, the local id 0 is free, and an
  -- entry that the remote attached is there only after the handshake.
  pub Reaches-IsMap :
      (stream : p.Stream) (queues : p.Queues) (s : Protocol p)
      → HashFits p stream
      → Reaches p (new stream queues) s
      → IsMap p (Established p s.io.stream) s.channels
  Reaches-IsMap stream queues s fits reached =
      let i = Reaches-Held (new stream queues) s reached (new-Held stream queues fits) in
      IsMap-weaken p (⊥ ⊎ Established p s.io.stream) (Established p s.io.stream)
        (λ e. elim e [ inl z ↦ absurd z | inr done ↦ done ]) s.channels i.map

  -- With the same conditions on the MAC, the stream and the calls on the way: in every state that is reached
  -- from a new protocol, a command with a key of up to 64 bytes, a message of the remote (an `Open` of it
  -- after the handshake and below the id 2^57) and the messages of a channel's user are each handled
  -- without a panic: with a value or an error.
  pub Reaches-completes :
      (stream : p.Stream) (queues : p.Queues) (s : Protocol p) (c : Call x)
      → HashFits p stream
      → Reaches p (new stream queues) s
      → CallFits p s c
      → ((run p c s).0 ≡ ok tt) ⊎ ((e : Error) × ((run p c s).0 ≡ err e))
  Reaches-completes stream queues s c fits reached call_fits = completes (run p c s) (
      run-Lands c s call_fits
        (Reaches-Held (new stream queues) s reached (new-Held stream queues fits)))
    where
      completes :
          (r : Result (Unit {0}) × Protocol p)
          → Lands ⊥ Free Any r
          → (r.0 ≡ ok tt) ⊎ ((e : Error) × (r.0 ≡ err e))
      completes (ok u, s) i = inl refl
      completes (err e, s) i = inr (e, refl)
      completes (panic, s) (i, z) = absurd z
      completes (stuck, s) (i, z) = absurd z
