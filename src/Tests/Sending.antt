-- ===== src/Tests/Sending.antt =====
-- Witnesses of the theorems on what is sent.
use hypercore_protocol_rs.Prelude.{
  err, io, broken_pipe, ◌∷◌, some, false, map, ap, ◌≡◌, refl, List, [], All, arith,
}
use hypercore_protocol_rs.Wire.{Bytes}
use hypercore_protocol_rs.Platform.{
  Platform, CipherEvent, handshake_payload, message, err_stuff, ready,
}
use hypercore_protocol_rs.MessageIo.{MessageIo, poll_outbound}
use hypercore_protocol_rs.MessageIo.Transfer.{Arrivals}
use hypercore_protocol_rs.MessageIo.Sendable.{MaySend, ordinary, closing}
use hypercore_protocol_rs.MessageIo.Log.{SendLog, Sound}
use hypercore_protocol_rs.MessageIo.Refused.{Loses, poll_outbound-refused}
use hypercore_protocol_rs.MessageIo.Drain.{Accepts}
use hypercore_protocol_rs.Tests.Codecs.{crates}
use hypercore_protocol_rs.Tests.Rules.{rules}
use hypercore_protocol_rs.Tests.Host.{host, TestStream, next_event}
use hypercore_protocol_rs.Tests.Data.{want_on, close_on, mixed, want_one-IsSmall, message_io}

abbrev pub log : SendLog host
log = record {
  sent = λ s. s.outgoing;
  poll_ready-sent = λ s. refl;
  start_send-sent = λ bs s e. refl;
  poll_flush-sent = λ s. refl;
}

abbrev sound : Sound host
sound = record {
  poll_ready-Answers = λ s. tt;
  start_send-Answers = λ bs s. tt;
  poll_flush-Answers = λ s. tt;
}

abbrev pub accepts : Accepts host
accepts = record { is_ready = λ s. refl; takes = λ bs s. refl; flushes = λ s. refl }

mixed-MaySend : All (MaySend crates rules 1) mixed
mixed-MaySend = (
  ordinary (want_on 1) want_one-IsSmall refl,
  (
    ordinary (want_on 1) want_one-IsSmall refl,
    (closing (record { channel = 1 }) (omega arith), tt),
  ),
)

-- The messages at the front of what arrives.
abbrev pub leading : List CipherEvent → List Bytes
leading [] = []
leading (message frame ∷ events) = frame ∷ leading events
leading (event ∷ events) = []

pub leading-next :
    (frame : Bytes) (frames : List Bytes) (s : TestStream)
    → leading s.incoming ≡ frame ∷ frames
    → let (r, s') = next_event s in
      (r ≡ ready (some (message frame))) × (leading s'.incoming ≡ frames)
leading-next frame frames s h = go s.incoming h
  where
    go :
        (events : List CipherEvent)
        → leading events ≡ frame ∷ frames
        → let (r, s') = next_event (record s { incoming = events }) in
          (r ≡ ready (some (message frame))) × (leading s'.incoming ≡ frames)
    go [] h = cc
    go (message frame' ∷ events) h =
        let same : frame' ≡ frame = cc in
        let rest : leading events ≡ frames = cc in
        (ap (λ (b : Bytes). ready (some (message b))) same, rest)
    go (handshake_payload ∷ events) h = cc
    go (err_stuff e ∷ events) h = cc

abbrev pub arrivals : Arrivals host
arrivals = record { arrived = λ s. leading s.incoming; poll_next-arrived = leading-next }

abbrev sent_frames : List Bytes
sent_frames = (poll_outbound host message_io).1.stream.outgoing

pub leading-map : (frames : List Bytes) → leading (map message frames) ≡ frames
leading-map [] = refl
leading-map (frame ∷ frames) = ap (λ (l : List Bytes). frame ∷ l) (leading-map frames)

abbrev receiver : MessageIo host
receiver = record {
  stream = record {
    is_initiator = false;
    local_key = 2 ∷ [];
    remote_key = some (1 ∷ []);
    hash = some (9 ∷ []);
    incoming = map message sent_frames;
    outgoing = [];
  };
  write_queue = [];
}

-- A stream that refuses every frame.
abbrev refusing : Platform crates
refusing = record host { start_send = λ bytes s. (err (io broken_pipe), s) }

poll_outbound-refused_example :
    let (r, io') =
      poll_outbound refusing (record { stream = message_io.stream; write_queue = mixed }) in
    (r ≡ ready (err (io broken_pipe)))
    × Loses refusing rules (refusing.poll_ready message_io.stream).1 mixed io'
poll_outbound-refused_example =
    poll_outbound-refused refusing rules 1 message_io.stream (want_on 1)
      (want_on 1 ∷ close_on 1 ∷ []) (io broken_pipe) (omega arith) mixed-MaySend (refl, λ bs. refl)
