-- ===== src/BoxedStream.antt =====
-- src/stream.rs: a stream of frames of any type behind one interface. The wrapped type is a parameter.
use hypercore_protocol_rs.Prelude.{◌⊎◌, inl, inr, Option, Result, Error, ok, err}
use hypercore_protocol_rs.Wire.{Bytes}
use hypercore_protocol_rs.Platform.{Poll, ready, pending}

-- What a `Stream<Item = Vec<u8>> + Sink<Vec<u8>>` does, and how its errors become those of `std::io`.
pub record StreamSink : Type 1 where
  pub State : Type 0
  pub Failure : Type 0
  pub into : Failure → Error
  pub poll_next : State → Poll (Option Bytes) × State
  pub poll_ready : State → Poll (Failure ⊎ Unit {0}) × State
  pub start_send : Bytes → State → (Failure ⊎ Unit {0}) × State
  pub poll_flush : State → Poll (Failure ⊎ Unit {0}) × State
  pub poll_close : State → Poll (Failure ⊎ Unit {0}) × State

-- A boxed stream: the wrapped stream with its functions.
pub record BoxedStream : Type 1 where
  pub sink : StreamSink
  pub inner : sink.State

abbrev pub new : (sink : StreamSink) → sink.State → BoxedStream
new sink stream = record { sink = sink; inner = stream }

-- `map_err(Into::into)`
abbrev pub map_err : (sink : StreamSink) → sink.Failure ⊎ Unit {0} → Result (Unit {0})
map_err sink (inl failure) = err (sink.into failure)
map_err sink (inr u) = ok tt

abbrev pub map_poll :
    (sink : StreamSink) → Poll (sink.Failure ⊎ Unit {0}) → Poll (Result (Unit {0}))
map_poll sink (ready r) = ready (map_err sink r)
map_poll sink pending = pending

abbrev pub poll_next : BoxedStream → Poll (Option Bytes) × BoxedStream
poll_next b = let (r, inner) = b.sink.poll_next b.inner in (r, new b.sink inner)

abbrev pub poll_ready : BoxedStream → Poll (Result (Unit {0})) × BoxedStream
poll_ready b = let (r, inner) = b.sink.poll_ready b.inner in (map_poll b.sink r, new b.sink inner)

abbrev pub start_send : Bytes → BoxedStream → Result (Unit {0}) × BoxedStream
start_send item b =
    let (r, inner) = b.sink.start_send item b.inner in (map_err b.sink r, new b.sink inner)

abbrev pub poll_flush : BoxedStream → Poll (Result (Unit {0})) × BoxedStream
poll_flush b = let (r, inner) = b.sink.poll_flush b.inner in (map_poll b.sink r, new b.sink inner)

abbrev pub poll_close : BoxedStream → Poll (Result (Unit {0})) × BoxedStream
poll_close b = let (r, inner) = b.sink.poll_close b.inner in (map_poll b.sink r, new b.sink inner)
