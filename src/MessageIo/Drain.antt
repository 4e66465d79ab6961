-- ===== src/MessageIo/Drain.antt =====
-- `poll_outbound` (src/mqueue.rs) over a stream that accepts every frame.
use hypercore_protocol_rs.Prelude.{
  ℕ, zero, suc, ◌<◌, ◌≡◌, refl, sym, ap, ◌∙◌, subst, Bool, true, false, ◌⊎◌, inl, inr, List, [],
  ◌∷◌, ◌++◌, append-nil, length, All, Result, ok, arith,
}
use hypercore_protocol_rs.Wire.{Bytes, External}
use hypercore_protocol_rs.Wire.Contract.{Contract}
use hypercore_protocol_rs.ChannelMessage.{ChannelMessage}
use hypercore_protocol_rs.Platform.{Platform, Poll, ready}
use hypercore_protocol_rs.MessageIo.{
  MessageIo, Round, returns, again, take_batch, send_batch, outbound_round, outbound_loop,
  poll_outbound,
}
use hypercore_protocol_rs.MessageIo.Batches.{
  outbound_round-shorter, outbound_loop-last, outbound_loop-again,
}
use hypercore_protocol_rs.MessageIo.Sendable.{MaySend, take_batch-IsSendable, IsSendable-encoded}
use hypercore_protocol_rs.MessageIo.Log.{SendLog, Sound, Conserves, Outcome, received}
use hypercore_protocol_rs.MessageIo.Delivery.{
  RoundOutcome, outbound_round-RoundOutcome, poll_outbound-Outcome,
}

-- The stream is always ready, takes every frame and flushes it.
pub record Accepts {x : External} (p : Platform x) : Type 0 where
  pub is_ready : (s : p.Stream) → (p.poll_ready s).0 ≡ ready (ok tt)
  pub takes : (bs : Bytes) (s : p.Stream) → (p.start_send bs s).0 ≡ ok tt
  pub flushes : (s : p.Stream) → (p.poll_flush s).0 ≡ ready (ok tt)

module _ {x : External} (p : Platform x) (k : Contract x) (log : SendLog p) (acc : Accepts p) where
  accepts-Sound : Sound p
  accepts-Sound = record {
    poll_ready-Answers = λ s. rw (acc.is_ready s) tt;
    start_send-Answers = λ bs s. rw (acc.takes bs s) tt;
    poll_flush-Answers = λ s. rw (acc.flushes s) tt;
  }

  send_batch-again :
      (c : ℕ) (stream : p.Stream) (m : ChannelMessage x) (ms : List (ChannelMessage x))
      → 0 < c
      → All (MaySend x k c) (m ∷ ms)
      → (send_batch p (record { stream = stream; write_queue = m ∷ ms })).0 ≡ again
  unfolding send_batch
  send_batch-again c stream m ms pos may =
      let (sendable, rest) = take_batch-IsSendable x k c m ms pos may in
      let (bs, encoded, reads) = IsSendable-encoded p k (take_batch [] (m ∷ ms)).0 sendable in
      rw (send_batch, encoded, acc.takes bs stream, acc.flushes (p.start_send bs stream).1)

  abbrev Drained : Poll (Result (Unit {0})) × MessageIo p → Type 0
  Drained r = (r.0 ≡ ready (ok tt)) × (r.1.write_queue ≡ [])

  -- A round sends a frame, or finds nothing to send.
  outbound_round-cases :
      (c : ℕ) (is_pending : Bool) (io : MessageIo p)
      → 0 < c
      → All (MaySend x k c) io.write_queue
      → ((outbound_round p is_pending io).0 ≡ again)
        ⊎ (((outbound_round p is_pending io).0 ≡ returns (ready (ok tt)))
            × ((outbound_round p is_pending io).1.write_queue ≡ []))
  unfolding outbound_round
  outbound_round-cases c is_pending io pos may = go io.stream io.write_queue may
    where
      go :
          (s : p.Stream) (queue : List (ChannelMessage x))
          → All (MaySend x k c) queue
          → let (round, after) =
              outbound_round p is_pending (record { stream = s; write_queue = queue }) in
            (round ≡ again) ⊎ ((round ≡ returns (ready (ok tt))) × (after.write_queue ≡ []))
      go s [] may = rw (outbound_round, acc.is_ready s) (inr (refl, refl))
      go s (m ∷ ms) may =
          rw (outbound_round, acc.is_ready s)
            (inl (send_batch-again c (p.poll_ready s).1 m ms pos may))

  outbound_loop-Drained :
      (c fuel : ℕ) (is_pending : Bool) (io : MessageIo p)
      → 0 < c
      → length io.write_queue < fuel
      → All (MaySend x k c) io.write_queue
      → Drained (outbound_loop p fuel is_pending io)
  outbound_loop-Drained c zero is_pending io pos enough may = absurd (omega arith)
  outbound_loop-Drained c (suc fuel) is_pending io pos enough may =
      let io1 = (outbound_round p is_pending io).1 in
      elim (outbound_round-cases c is_pending io pos may) [
        | inl goes_on ↦
            let o = outbound_round-RoundOutcome p k log accepts-Sound c is_pending io pos may in
            let sent =
              subst (λ (t : Round p). RoundOutcome p k log accepts-Sound c io (t, io1)) goes_on o in
            let smaller = outbound_round-shorter p is_pending io goes_on in
            rw (outbound_loop-again p fuel is_pending io goes_on)
              (outbound_loop-Drained c fuel false io1 pos (omega (arith, smaller)) sent.rest)
        | inr (last, drained) ↦
            rw (outbound_loop-last p fuel is_pending io (ready (ok tt)) last) (refl, drained)
      ]

  poll_outbound-Drained :
      (c : ℕ) (io : MessageIo p)
      → 0 < c
      → All (MaySend x k c) io.write_queue
      → Drained (poll_outbound p io)
  unfolding poll_outbound
  poll_outbound-Drained c io pos may =
      outbound_loop-Drained c (suc (length io.write_queue)) true io pos (omega arith) may

  pub poll_outbound-drains :
      (c : ℕ) (io : MessageIo p)
      → 0 < c
      → All (MaySend x k c) io.write_queue
      → let (r, io') = poll_outbound p io in
        (r ≡ ready (ok tt))
        × (io'.write_queue ≡ [])
        × ((frames : List Bytes) × (log.sent io'.stream ≡ log.sent io.stream ++ frames)
            × (received x frames ≡ ok io.write_queue))
  poll_outbound-drains c io pos may =
      let io' = (poll_outbound p io).1 in
      let (done, empty) = poll_outbound-Drained c io pos may in
      let o = poll_outbound-Outcome p k log accepts-Sound c io pos may in
      let kept : Conserves p k log io io' =
        subst (λ (r : Poll (Result (Unit {0}))). Outcome p k log io (r, io')) done o in
      let whole : io.write_queue ≡ kept.messages =
        kept.queue
        ∙ ap (λ (l : List (ChannelMessage x)). kept.messages ++ l) empty
        ∙ append-nil kept.messages in
      (done, empty, (kept.frames, kept.taken, kept.decoded ∙ ap ok (sym whole)))
