-- ===== src/MessageIo.antt =====
-- src/mqueue.rs: the queue of outgoing messages over an encrypted stream. An encrypted message of the
-- stream carries one frame.
pub mod Batches
pub mod Sendable
pub mod Log
pub mod Delivery
pub mod Drain
pub mod Transfer
pub mod Total
pub mod Refused
use hypercore_protocol_rs.Prelude.{
  ℕ, zero, suc, Bool, true, false, not, ◌&&◌, if◌then◌else◌, Option, none, some, List, [], ◌∷◌,
  ◌++◌, length, Result, ok, err, panic, stuck, Error, ◌>>=◌,
}
use hypercore_protocol_rs.Wire.{Bytes, External}
use hypercore_protocol_rs.Message.{Message, is_open_or_close}
use hypercore_protocol_rs.ChannelMessage.{ChannelMessage}
use hypercore_protocol_rs.Framing
use hypercore_protocol_rs.Platform.{
  Platform, Poll, ready, pending, CipherEvent, handshake_payload, message, err_stuff,
}

pub record MessageIo {x : External} (p : Platform x) : Type 0 where
  pub stream : p.Stream
  pub write_queue : List (ChannelMessage x)

abbrev pub is_empty {ℓ} : {A : Type ℓ} → List A → Bool
is_empty [] = true
is_empty (x ∷ xs) = false

-- The inner loop of `poll_outbound`: the messages of the next frame, and the queue that is left.
unfoldable pub take_batch :
    {x : External}
    → List (ChannelMessage x)
    → List (ChannelMessage x)
    → List (ChannelMessage x) × List (ChannelMessage x)
take_batch messages [] = (messages, [])
take_batch messages (front ∷ queue) =
    let rest = take_batch (messages ++ (front ∷ [])) queue in
    if is_open_or_close front.message && not (is_empty messages)
    then (messages, front ∷ queue)
    else if is_open_or_close front.message
    then (messages ++ (front ∷ []), queue)
    else rest

module _ {x : External} (p : Platform x) where
  abbrev pub new : p.Stream → MessageIo p
  new stream = record { stream = stream; write_queue = [] }

  unfoldable pub enqueue : ChannelMessage x → MessageIo p → MessageIo p
  enqueue m io = record io { write_queue = io.write_queue ++ (m ∷ []) }

  pub to_encoded_bytes : List (ChannelMessage x) → Result Bytes
  to_encoded_bytes = x.to_encoded_bytes (List (ChannelMessage x)) (Framing.codec x)

  -- How a round of the outer loop ends: with a result of the function, or with another round.
  pub data Round : Type 0 where
    returns : Poll (Result (Unit {0})) → Round
    again : Round

  abbrev pub flushed : Poll (Result (Unit {0})) → Round
  flushed (ready (ok u)) = again
  flushed (ready (err e)) = returns (ready (err e))
  flushed (ready panic) = returns (ready panic)
  flushed (ready stuck) = returns (ready stuck)
  flushed pending = returns pending

  -- What follows `start_send`.
  abbrev pub on_started : Result (Unit {0}) → p.Stream → Round × p.Stream
  on_started (ok u) stream = let (r, stream') = p.poll_flush stream in (flushed r, stream')
  on_started (err e) stream = (returns (ready (err e)), stream)
  on_started panic stream = (returns (ready panic), stream)
  on_started stuck stream = (returns (ready stuck), stream)

  -- `start_send` and `poll_flush` on an encoded frame.
  abbrev pub send_frame : Result Bytes → p.Stream → Round × p.Stream
  send_frame (ok buf) stream =
      let (started, stream') = p.start_send buf stream in on_started started stream'
  send_frame (err e) stream = (returns (ready (err e)), stream)
  send_frame panic stream = (returns (ready panic), stream)
  send_frame stuck stream = (returns (ready stuck), stream)

  -- A round with the stream ready for a frame and messages waiting.
  unfoldable pub send_batch : MessageIo p → Round × MessageIo p
  unfolding to_encoded_bytes take_batch
  send_batch io =
      let (messages, queue) = take_batch [] io.write_queue in
      let (r, stream) = send_frame (to_encoded_bytes messages) io.stream in
      (r, record { stream = stream; write_queue = queue })

  -- `if pending { Poll::Pending } else { Poll::Ready(Ok(())) }`
  abbrev pub finish : Bool → Poll (Result (Unit {0}))
  finish is_pending = if is_pending then pending else ready (ok tt)

  -- The loop breaks on an empty queue.
  abbrev pub with_queue : List (ChannelMessage x) → MessageIo p → Round × MessageIo p
  with_queue [] io = (returns (finish false), io)
  with_queue (m ∷ ms) io = send_batch io

  -- What follows `poll_ready`.
  abbrev pub on_ready : Bool → Poll (Result (Unit {0})) → MessageIo p → Round × MessageIo p
  on_ready is_pending pending io = (returns (finish is_pending), io)
  on_ready is_pending (ready (err e)) io = (returns (finish is_pending), io)
  on_ready is_pending (ready panic) io = (returns (ready panic), io)
  on_ready is_pending (ready stuck) io = (returns (ready stuck), io)
  on_ready is_pending (ready (ok u)) io = with_queue io.write_queue io

  -- A round of the loop `while let Poll::Ready(Ok(())) = poll_ready`.
  unfoldable pub outbound_round : Bool → MessageIo p → Round × MessageIo p
  outbound_round is_pending io =
      let (r, stream) = p.poll_ready io.stream in
      on_ready is_pending r (record io { stream = stream })

  -- `stuck` is no value of the code: the loop ran out of fuel.
  unfoldable pub outbound_loop : ℕ → Bool → MessageIo p → Poll (Result (Unit {0})) × MessageIo p
  outbound_loop zero is_pending io = (ready stuck, io)
  outbound_loop (suc fuel) is_pending io =
      let (s, io') = outbound_round is_pending io in
      elim s [ returns r ↦ (r, io') | again ↦ outbound_loop fuel false io' ]

  -- Each round sends a message at least.
  unfoldable pub poll_outbound : MessageIo p → Poll (Result (Unit {0})) × MessageIo p
  poll_outbound io = outbound_loop (suc (length io.write_queue)) true io

  pub decoded : Result (List (ChannelMessage x) × Bytes) → Result (List (ChannelMessage x))
  decoded r = do (messages, _) ← r; ok messages

  -- `fuel` bounds the handshake payloads that are skipped.
  unfoldable pub poll_inbound :
      ℕ → MessageIo p → Poll (Option (Result (List (ChannelMessage x)))) × MessageIo p
  unfolding decoded
  poll_inbound zero io = (ready (some stuck), io)
  poll_inbound (suc fuel) io =
      let (r, stream) = p.poll_next io.stream in
      let io' : MessageIo p = record io { stream = stream } in
      elim r [
        | pending ↦ (pending, io')
        | ready event ↦ elim event [
          | none ↦ (ready none, io')
          | some event' ↦ elim event' [
            | handshake_payload ↦ poll_inbound fuel io'
            | message msg ↦ (ready (some (decoded (Framing.vec_decode x msg))), io')
            | err_stuff e ↦ (ready (some (err e)), io')
          ]
        ]
      ]

  -- What follows `poll_outbound` in `Stream::poll_next`: its result is dropped, but for a panic.
  abbrev after_outbound :
      ℕ
      → Poll (Result (Unit {0}))
      → MessageIo p
      → Poll (Option (Result (List (ChannelMessage x)))) × MessageIo p
  after_outbound fuel (ready panic) io = (ready (some panic), io)
  after_outbound fuel (ready stuck) io = (ready (some stuck), io)
  after_outbound fuel (ready (err e)) io = poll_inbound fuel io
  after_outbound fuel (ready (ok u)) io = poll_inbound fuel io
  after_outbound fuel pending io = poll_inbound fuel io

  unfoldable pub poll_next :
      ℕ → MessageIo p → Poll (Option (Result (List (ChannelMessage x)))) × MessageIo p
  poll_next fuel io = let (r, io') = poll_outbound io in after_outbound fuel r io'
