-- ===== src/Tests/Data.antt =====
-- Messages, a stream and a queue for the theorems at concrete inputs.
use hypercore_protocol_rs.Prelude.{ℕ, true, some, List, [], ◌∷◌, arith}
use hypercore_protocol_rs.Message.{want, close_msg, local_signal}
use hypercore_protocol_rs.ChannelMessage.{ChannelMessage, new}
use hypercore_protocol_rs.Framing.Encode
use hypercore_protocol_rs.MessageIo.{MessageIo}
use hypercore_protocol_rs.Tests.Codecs.{crates, u64_bytes, digits}
use hypercore_protocol_rs.Tests.Rules.{rules}
use hypercore_protocol_rs.Tests.Host.{host, TestStream}

abbrev pub want_on : ℕ → ChannelMessage crates
want_on channel = new crates channel (want (record { start = 3; length = 300 }))

abbrev pub close_on : ℕ → ChannelMessage crates
close_on channel = new crates channel (close_msg (record { channel = channel }))

abbrev pub signal_on : ℕ → ChannelMessage crates
signal_on channel = new crates channel (local_signal (1 ∷ []) (2 ∷ []))

abbrev pub two_wants : List (ChannelMessage crates)
two_wants = want_on 1 ∷ want_on 1 ∷ []

abbrev pub IsSmall : ChannelMessage crates → Type 0
IsSmall m = Encode.IsPlain crates rules m

pub want_one-IsSmall : IsSmall (want_on 1)
unfolding rules u64_bytes digits
want_one-IsSmall = ((omega arith, omega arith), omega arith, omega arith)

pub want_two-IsSmall : IsSmall (want_on 2)
unfolding rules u64_bytes digits
want_two-IsSmall = ((omega arith, omega arith), omega arith, omega arith)

abbrev pub mixed : List (ChannelMessage crates)
mixed = want_on 1 ∷ want_on 1 ∷ close_on 1 ∷ []

abbrev pub stream : TestStream
stream = record {
  is_initiator = true;
  local_key = 1 ∷ [];
  remote_key = some (2 ∷ []);
  hash = some (9 ∷ []);
  incoming = [];
  outgoing = [];
}

abbrev pub message_io : MessageIo host
message_io = record { stream = stream; write_queue = mixed }
