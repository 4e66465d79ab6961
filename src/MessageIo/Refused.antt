-- ===== src/MessageIo/Refused.antt =====
-- `poll_outbound` (src/mqueue.rs) over a stream that refuses a frame.
use hypercore_protocol_rs.Prelude.{
  ap, arith, length-append, ℕ, ◌<◌, ◌≡◌, refl, List, [], ◌∷◌, ◌++◌, length, All, Error, ok, err,
  true,
}
use hypercore_protocol_rs.Wire.{Bytes, External}
use hypercore_protocol_rs.Wire.Contract.{Contract}
use hypercore_protocol_rs.ChannelMessage.{ChannelMessage}
use hypercore_protocol_rs.Platform.{Platform, ready}
use hypercore_protocol_rs.Framing.{vec_decode}
use hypercore_protocol_rs.MessageIo.{
  to_encoded_bytes, MessageIo, returns, take_batch, send_batch, outbound_round, poll_outbound,
}
use hypercore_protocol_rs.MessageIo.Batches.{take_batch_lem, outbound_loop-last}
use hypercore_protocol_rs.MessageIo.Sendable.{MaySend, take_batch-IsSendable, IsSendable-encoded}

module _ {x : External} (p : Platform x) (k : Contract x) where
  -- The stream is ready for a frame, and refuses every one.
  abbrev pub Refuses : p.Stream → Error → Type 0
  Refuses stream e =
      ((p.poll_ready stream).0 ≡ ready (ok tt))
      × ((bs : Bytes) → (p.start_send bs (p.poll_ready stream).1).0 ≡ err e)

  -- The frame of the first batch in a write queue has been given to `start_send`, and only that batch has left
  -- the queue. The frame is what the batch is encoded to, and decodes to the batch.
  abbrev pub Loses : p.Stream → List (ChannelMessage x) → MessageIo p → Type 0
  Loses stream queue io' =
      let (batch, rest) = take_batch [] queue in
      (frame : Bytes) × (to_encoded_bytes p batch ≡ ok frame)
      × (vec_decode x frame ≡ ok (batch, []))
      × (io'.stream ≡ (p.start_send frame stream).1)
      × (io'.write_queue ≡ rest)
      × (batch ++ rest ≡ queue)
      × (0 < length batch)

  send_batch-refused :
      (c : ℕ) (stream : p.Stream) (m : ChannelMessage x) (ms : List (ChannelMessage x)) (e : Error)
      → 0 < c
      → All (MaySend x k c) (m ∷ ms)
      → ((bs : Bytes) → (p.start_send bs stream).0 ≡ err e)
      → let (round, io') = send_batch p (record { stream = stream; write_queue = m ∷ ms }) in
        (round ≡ returns (ready (err e))) × Loses stream (m ∷ ms) io'
  unfolding send_batch
  send_batch-refused c stream m ms e pos may refuses =
      let (sendable, rest) = take_batch-IsSendable x k c m ms pos may in
      let (bs, encoded, reads) = IsSendable-encoded p k (take_batch [] (m ∷ ms)).0 sendable in
      let (whole, shorter, shape) = take_batch_lem m ms in
      let (batch, left) = take_batch [] (m ∷ ms) in
      let some_batch : 0 < length batch = omega (
        arith,
        shorter,
        ap (λ (l : List (ChannelMessage x)). length l) whole,
        length-append batch left,
      ) in
      rw (send_batch, encoded, refuses bs) (refl, (bs, refl, reads, refl, refl, whole, some_batch))

  outbound_round-refused :
      (c : ℕ) (stream : p.Stream) (m : ChannelMessage x) (ms : List (ChannelMessage x)) (e : Error)
      → 0 < c
      → All (MaySend x k c) (m ∷ ms)
      → Refuses stream e
      → let (round, io') =
          outbound_round p true (record { stream = stream; write_queue = m ∷ ms }) in
        (round ≡ returns (ready (err e))) × Loses (p.poll_ready stream).1 (m ∷ ms) io'
  unfolding outbound_round
  outbound_round-refused c stream m ms e pos may (is_ready, refuses) =
      rw (outbound_round, is_ready)
        (send_batch-refused c (p.poll_ready stream).1 m ms e pos may refuses)

  -- On a stream that is ready for a frame but refuses it, a poll with messages waiting returns the error of
  -- the stream. It has given the stream one frame, the encoding of the first batch of the waiting messages,
  -- and exactly the messages of this frame are lost: they are not in the write queue any more, and the
  -- messages behind them are, unchanged. The batch is not empty. The waiting messages have values in range,
  -- the ordinary ones all on one channel that is not 0.
  pub poll_outbound-refused :
      (c : ℕ) (stream : p.Stream) (m : ChannelMessage x) (ms : List (ChannelMessage x)) (e : Error)
      → 0 < c
      → All (MaySend x k c) (m ∷ ms)
      → Refuses stream e
      → let (r, io') = poll_outbound p (record { stream = stream; write_queue = m ∷ ms }) in
        (r ≡ ready (err e)) × Loses (p.poll_ready stream).1 (m ∷ ms) io'
  unfolding poll_outbound
  poll_outbound-refused c stream m ms e pos may refuses =
      let io : MessageIo p = record { stream = stream; write_queue = m ∷ ms } in
      let (last, loses) = outbound_round-refused c stream m ms e pos may refuses in
      rw (outbound_loop-last p (length (m ∷ ms)) true io (ready (err e)) last) (refl, loses)
