-- ===== src/Lib.antt =====
-- Verification of the crate hypercore-protocol: the wire format, the message queue over an encrypted
-- stream, the channel table, capabilities, and the protocol driver.
--
-- Parts and files:
--   Prelude          tests on numbers and bytes, lists over the native numbers, results, hash maps as
--                    association lists. `Result` has the errors that the code returns by their kind,
--                    `panic` for a panic and `stuck` for a loop without fuel, which is no behaviour of
--                    the code.
--   Wire             the interface of the crates compact_encoding and hypercore_schema (`External`),
--                    with what the code relies on (`Wire.Contract`, and `Wire.Total` for encoders). An encoder takes a buffer and
--                    returns what it left in the front of it and the rest of it.
--   Schema           src/schema.rs: a record and the three methods of its codec for each structure.
--   Message          src/message.rs, `Message`: the typed messages.
--   ChannelMessage   src/message.rs, `ChannelMessage`: a message on a channel.
--   Framing          src/message.rs, `decode_unframed_channel_messages`,
--                    `vec_channel_messages_encoded_size` and the codec of `Vec<ChannelMessage>`.
--   Error            src/error.rs: the error type of the crate, over the errors of the others.
--   Platform         the interface of blake2, hex, async_channel and of the encrypted stream.
--   Crypto           src/crypto/handshake.rs, `discovery_key` of src/util.rs, src/constants.rs.
--   Channels         src/channels.rs: `ChannelHandle` (Handle), `ChannelMap` (Map) and the user's side
--                    of `Channel` (User), whose calls are taken as one step each. The flag that a
--                    handle shares with its channel is an index into a list of flags, and an inbound
--                    queue is its number. Inbound polls a channel, by laws of the queues (`QueueLaws`);
--                    Map/Twice is about two openings of one key.
--   MessageIo        src/mqueue.rs: `MessageIo`. Log, Delivery and Drain see the stream through a log of the
--                    frames it has taken (`SendLog`), of which they use only that `start_send` appends;
--                    Transfer joins two ends, and Refused is about a stream that takes nothing.
--   Protocol         src/protocol.rs: the state (State) and the handlers with `poll_next` (Step), as
--                    functions that take the state and return it with a result. Invariant has a rule for
--                    each way to build a handler, which Accepting, Handlers, Sending and Polling apply;
--                    Reach has the states of a run as a step relation, whose steps are the handlers, the
--                    moves of the stream and the changes of the queues; Handshake has sequences of polls;
--                    IoLaws is what a poll needs of the io layer; Steady is what the driver relies on in a
--                    stream whose polls end, and Completes has polls over it; PollNext is `poll_next` under
--                    the invariant, Signals what waits to be sent, Events the events that come
--                    before any reading, and Conversation joins the users of two ends; Opening, Exchange and
--                    CloseExchange join two ends; Inbound and OnClose are about inbound messages and
--                    closing; Commands has the senders of commands and the accessors.
--   BoxedStream      src/stream.rs: a stream of any type behind one interface.
--   Tests            concrete crates and a concrete platform, and the theorems at concrete inputs.
--
-- The driver takes commands, outgoing messages and the stream's frames. `poll_inbound_read` decodes a
-- frame by `Framing.vec_decode` and hands its messages to `on_open`, `on_close` or the channel map;
-- `poll_outbound_write` sorts out the local signals and fills the queue of `MessageIo`, which cuts it
-- into frames that `Framing.vec_encode` writes.
--
-- Bounds and fuel. Numbers are natural numbers, and a 64-bit value carries its bound as a hypothesis;
-- `id + 1` in `alloc_remote` wraps. A vector has at most 2^63 - 1 bytes, and its resize to more is a panic
-- (`Channels.Map.resize`); an `Open` on an id below 2^57 leaves room for it, also when the vector doubles its
-- capacity to grow. The loops over a buffer take the length of the buffer as fuel, since
-- a round consumes a byte at least, and `poll_outbound` takes one more than the length of the write
-- queue, since a round that is not the last sends a message. The fuel of `poll_inbound` and
-- `poll_inbound_read` bounds the frames of one poll, and is a parameter: more than the events that the
-- stream has left (`Steady`) is enough.
--
-- Not modelled: wakers and contexts, log and error texts and the `Debug` and `Display` of messages,
-- and the tests. That memory is exhausted is not modelled: a table of remote ids takes 24 bytes for each id.
-- The order in which several tasks of the runtime call a channel's methods is that of the steps.
pub mod Prelude
pub mod Wire
pub mod Schema
pub mod Message
pub mod ChannelMessage
pub mod Framing
pub mod Error
pub mod Platform
pub mod Crypto
pub mod BoxedStream
pub mod Channels
pub mod MessageIo
pub mod Protocol
pub mod Tests
