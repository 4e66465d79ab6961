-- ===== src/Tests/Conversation.antt =====
-- A user sends two batches at one end, and the user at the other end reads them.
use mathlib.Core.List.{flatten}
use hypercore_protocol_rs.Prelude.{
  ℕ, suc, ◌≡◌, refl, true, List, [], ◌∷◌, map, length, All, ok, arith,
}
use hypercore_protocol_rs.Wire.{Bytes}
use hypercore_protocol_rs.Message.{Message, want}
use hypercore_protocol_rs.Platform.{pending, CipherEvent, handshake_payload, message, err_stuff}
use hypercore_protocol_rs.Channels.Inbound.{reads}
use hypercore_protocol_rs.MessageIo.{MessageIo}
use hypercore_protocol_rs.Protocol.State.{Protocol}
use hypercore_protocol_rs.Protocol.Step.{poll_outbound_write, poll_inbound_read}
use hypercore_protocol_rs.Protocol.Inbound.{with_queues}
use hypercore_protocol_rs.Protocol.Conversation.{
  Fits, on_channel, poll_outbound_write-poll_inbound_read,
}
use hypercore_protocol_rs.Protocol.Conversation.Receiver.{Quiet}
use hypercore_protocol_rs.Tests.Codecs.{crates, u64_bytes, digits}
use hypercore_protocol_rs.Tests.Rules.{rules}
use hypercore_protocol_rs.Tests.Host.{host, TestStream, next_event}
use hypercore_protocol_rs.Tests.Data.{stream}
use hypercore_protocol_rs.Tests.Sending.{log, accepts, arrivals, leading, leading-map}
use hypercore_protocol_rs.Tests.Receiving.{laws, open_handle, user_channel, open_state, open_remote}

abbrev pub IsFrame : CipherEvent → Type 0
IsFrame (message frame) = Unit {0}
IsFrame _ = ⊥

pub next_event-Only :
    (s : TestStream) → All {0, 0} IsFrame s.incoming → All {0, 0} IsFrame (next_event s).1.incoming
next_event-Only s only = go s.incoming only
  where
    go :
        (es : List CipherEvent)
        → All {0, 0} IsFrame es
        → All {0, 0} IsFrame (next_event (record s { incoming = es })).1.incoming
    go [] f = tt
    go (e ∷ es) f = f.1

pub next_event-pending :
    (s : TestStream)
    → All {0, 0} IsFrame s.incoming
    → leading s.incoming ≡ []
    → (next_event s).0 ≡ pending
next_event-pending s only h = go s.incoming only h
  where
    go :
        (es : List CipherEvent)
        → All {0, 0} IsFrame es
        → leading es ≡ []
        → (next_event (record s { incoming = es })).0 ≡ pending
    go [] f h = refl
    go (message frame ∷ es) f h = cc
    go (handshake_payload ∷ es) f h = absurd f.0
    go (err_stuff e ∷ es) f h = absurd f.0

abbrev pub quiet : Quiet host arrivals
quiet = record {
  Only = λ s. All {0, 0} IsFrame s.incoming;
  poll_next-Only = next_event-Only;
  poll_next-pending = next_event-pending;
}

abbrev want_from : ℕ → Message crates
want_from start = want (record { start = start; length = 300 })

abbrev batches : List (List (Message crates))
batches = (want_from 3 ∷ want_from 4 ∷ []) ∷ (want_from 5 ∷ []) ∷ []

batches-Fits : All {0, 0} (λ ms. All (Fits host rules 3) ms) batches
unfolding rules u64_bytes digits
batches-Fits = (
  (
    ((omega arith, omega arith), omega arith, omega arith),
    (((omega arith, omega arith), omega arith, omega arith), tt),
  ),
  ((((omega arith, omega arith), omega arith, omega arith), tt), tt),
)

abbrev sender : Protocol host
sender = record {
  io = record { stream = stream; write_queue = [] };
  is_initiator = true;
  channels = open_state.channels;
  command_rx = [];
  outbound_rx = on_channel 3 batches;
  queued_events = [];
  handshake_emitted = true;
}

abbrev frames : List Bytes
frames = (poll_outbound_write host sender).1.io.stream.outgoing

abbrev receiver : Protocol host
receiver = record open_state {
  io = record { stream = record stream { incoming = map message frames }; write_queue = [] };
}

pub frames-Only : (frames : List Bytes) → All {0, 0} IsFrame (map message frames)
frames-Only [] = tt
frames-Only (frame ∷ frames) = (tt, frames-Only frames)

poll_outbound_write-poll_inbound_read_example :
    ((poll_outbound_write host sender).0 ≡ ok tt)
    × ((io : MessageIo host) × (q : host.Queues) × (poll_inbound_read host
            (suc (length frames))
            receiver
          ≡ (ok tt, with_queues host q (record receiver { io = io })))
        × (reads host (length (flatten batches)) user_channel q ≡ flatten batches))
poll_outbound_write-poll_inbound_read_example =
    poll_outbound_write-poll_inbound_read host rules log accepts laws arrivals quiet 3 0
      (suc (length frames)) batches sender receiver frames open_handle user_channel (omega arith)
      refl refl batches-Fits refl refl (leading-map frames) (frames-Only frames) (omega arith)
      open_remote refl refl (omega arith) refl
