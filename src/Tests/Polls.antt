-- ===== src/Tests/Polls.antt =====
-- Single polls: what waits after them, and the events that come first.
use hypercore_protocol_rs.Prelude.{◌≡◌, refl, ◌⊎◌, inl, some, true, false, List, [], ◌∷◌, All}
use hypercore_protocol_rs.Wire.{Bytes}
use hypercore_protocol_rs.Framing.Total.{OnWire}
use hypercore_protocol_rs.Protocol.State.{Protocol, Event, new}
use hypercore_protocol_rs.Protocol.Step.{poll_next}
use hypercore_protocol_rs.Protocol.Events.{poll_each, poll_each-events}
use hypercore_protocol_rs.Protocol.Signals.{Ran, here, polls, feeds, poll_next-OnWire}
use hypercore_protocol_rs.Tests.Host.{host}
use hypercore_protocol_rs.Tests.Data.{want_on, signal_on}
use hypercore_protocol_rs.Tests.Polling.{fresh, stream_with}

-- A local signal and an ordinary message of a user, and a poll.
abbrev signalling : Protocol host
signalling = record fresh {
  io = record { stream = stream_with []; write_queue = [] };
  command_rx = [];
  outbound_rx = (signal_on 1 ∷ want_on 1 ∷ []) ∷ [];
  channels = record fresh.channels { queues = [] };
}

abbrev ran : Protocol host
ran = (poll_next host 1 signalling).1

fresh-Ran : Ran host fresh ran
unfolding new
fresh-Ran =
    feeds (stream_with []) [] ((signal_on 1 ∷ want_on 1 ∷ []) ∷ []) [] fresh ran
      (polls 1 signalling ran (here ran))

poll_next-OnWire_example : All OnWire ran.io.write_queue
poll_next-OnWire_example = poll_next-OnWire host (stream_with []) [] ran fresh-Ran

-- Two events wait before the first poll.
abbrev waiting : List Event
waiting = Event.discovery_key (8 ∷ []) ∷ Event.local_signal (1 ∷ []) (2 ∷ []) ∷ []

abbrev with_events : Protocol host
with_events = record fresh { queued_events = waiting }

poll_each-events_example : poll_each host (0 ∷ 0 ∷ 5 ∷ []) with_events ≡ (
  Event.handshake (2 ∷ []) ∷ waiting,
  record with_events { handshake_emitted = true; queued_events = [] },
)
poll_each-events_example =
    poll_each-events host 0 (0 ∷ 5 ∷ []) with_events (2 ∷ []) responds unset known refl
  where
    responds :
        (with_events.is_initiator ≡ false)
        ⊎ ((hash : Bytes) × (host.handshake_hash with_events.io.stream ≡ some hash))
    responds = unfold new in inl refl

    unset : with_events.handshake_emitted ≡ false
    unset = unfold new in refl

    known : host.remote_public_key with_events.io.stream ≡ some (2 ∷ [])
    known = unfold new in refl
