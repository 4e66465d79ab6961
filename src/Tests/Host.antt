-- ===== src/Tests/Host.antt =====
-- A concrete platform for tests: the MAC keeps its input, and the stream holds what arrives and what was
-- sent.
use hypercore_protocol_rs.Prelude.{
  ℕ, Bool, Option, some, none, length, set, get_elem?, List, [], ◌∷◌, ◌++◌, ok,
}
use hypercore_protocol_rs.Wire.{Bytes}
use hypercore_protocol_rs.Message.{Message}
use hypercore_protocol_rs.Platform.{Platform, Sent, sent, closed, Poll, ready, pending, CipherEvent}
use hypercore_protocol_rs.Tests.Codecs.{crates}

pub record TestStream : Type 0 where
  pub is_initiator : Bool
  pub local_key : Bytes
  pub remote_key : Option Bytes
  pub hash : Option Bytes
  pub incoming : List CipherEvent
  pub outgoing : List Bytes

abbrev pub next_event : TestStream → Poll (Option CipherEvent) × TestStream
next_event s = elim s.incoming [
  | [] ↦ (pending, s)
  | e ∷ es ↦ (ready (some e), record s { incoming = es })
]

abbrev pub put_in :
    ℕ
    → Message crates
    → Option (List (Message crates))
    → List (List (Message crates))
    → Sent × List (List (Message crates))
put_in tx message none queues = (closed, queues)
put_in tx message (some queue) queues = (sent, set queues tx (queue ++ (message ∷ [])))

abbrev pub take_from :
    ℕ
    → Option (List (Message crates))
    → List (List (Message crates))
    → Poll (Option (Message crates)) × List (List (Message crates))
take_from rx (some (message ∷ queue)) queues = (ready (some message), set queues rx queue)
take_from rx _ queues = (pending, queues)

abbrev pub host : Platform crates
host = record {
  blake2b_mac = λ key data'. some (data' ++ key);
  hex_encode = λ bytes. bytes;
  Queues = List (List (Message crates));
  unbounded = λ queues. (length queues, queues ++ ([] ∷ []));
  try_send = λ tx message queues. put_in tx message (get_elem? queues tx) queues;
  receive = λ rx queues. take_from rx (get_elem? queues rx) queues;
  Stream = TestStream;
  is_initiator = λ s. s.is_initiator;
  local_public_key = λ s. s.local_key;
  remote_public_key = λ s. s.remote_key;
  handshake_hash = λ s. s.hash;
  poll_ready = λ s. (ready (ok tt), s);
  start_send = λ bytes s. (ok tt, record s { outgoing = s.outgoing ++ (bytes ∷ []) });
  poll_flush = λ s. (ready (ok tt), s);
  poll_next = next_event;
}
