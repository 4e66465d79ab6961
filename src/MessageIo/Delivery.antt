-- ===== src/MessageIo/Delivery.antt =====
-- `poll_outbound` (src/mqueue.rs) as a first-in, first-out queue: a round, and the loop.
use hypercore_protocol_rs.Prelude.{
  ℕ, zero, suc, ◌<◌, ◌≡◌, refl, sym, ap, ◌∙◌, subst, Bool, true, false, inl, inr, List, [], ◌∷◌,
  ◌++◌, length, All, Result, ok, err, panic, stuck, arith,
}
use hypercore_protocol_rs.Wire.{Bytes, External}
use hypercore_protocol_rs.Wire.Contract.{Contract}
use hypercore_protocol_rs.ChannelMessage.{ChannelMessage}
use hypercore_protocol_rs.Platform.{Platform, Poll, ready, pending}
use hypercore_protocol_rs.Framing.{vec_decode}
use hypercore_protocol_rs.MessageIo.{
  MessageIo, Round, returns, again, take_batch, flushed, on_started, with_queue, on_ready,
  send_batch, finish, outbound_round, outbound_loop, poll_outbound,
}
use hypercore_protocol_rs.MessageIo.Batches.{
  take_batch_lem, outbound_round-shorter, Round-cases, outbound_loop-last, outbound_loop-again,
}
use hypercore_protocol_rs.MessageIo.Sendable.{MaySend, take_batch-IsSendable, IsSendable-encoded}
use hypercore_protocol_rs.MessageIo.Log.{
  SendLog, Answers, PollAnswers, Sound, Conserves, Outcome, Conserves-idle, Conserves-frame,
}

module _ {x : External} (p : Platform x) (k : Contract x) (log : SendLog p) (sound : Sound p) where
  -- A round that goes on has sent the front of the queue as one frame.
  pub record Sends (c : ℕ) (io io' : MessageIo p) : Type 0 where
    bytes : Bytes
    batch : List (ChannelMessage x)
    sends : log.sent io'.stream ≡ log.sent io.stream ++ (bytes ∷ [])
    reads : vec_decode x bytes ≡ ok (batch, [])
    front : io.write_queue ≡ batch ++ io'.write_queue
    pub rest : All (MaySend x k c) io'.write_queue

  abbrev pub RoundOutcome : ℕ → MessageIo p → Round p × MessageIo p → Type 0
  RoundOutcome c io (returns r, io') = Outcome p k log io (r, io')
  RoundOutcome c io (again, io') = Sends c io io'

  Sends-Conserves : (c : ℕ) (io io' : MessageIo p) → Sends c io io' → Conserves p k log io io'
  Sends-Conserves c io io' s =
      Conserves-frame p k log io io' io' s.bytes s.batch s.sends s.reads s.front
        (Conserves-idle p k log io' io'.stream refl)

  -- The rest of a round, once the frame is encoded.
  started-RoundOutcome :
      (c : ℕ) (io : MessageIo p) (queue : List (ChannelMessage x)) (r : Result (Unit {0}))
      (s : p.Stream)
      → Answers r
      → (r ≡ ok tt → Sends c io (record { stream = s; write_queue = queue }))
      → let (round, s') = on_started p r s in
        RoundOutcome c io (round, record { stream = s'; write_queue = queue })
  started-RoundOutcome c io queue panic s a h = absurd a
  started-RoundOutcome c io queue stuck s a h = absurd a
  started-RoundOutcome c io queue (err e) s a h = tt
  started-RoundOutcome c io queue (ok u) s a h =
      flush (p.poll_flush s).0 (p.poll_flush s).1 (sound.poll_flush-Answers s)
        (log.poll_flush-sent s)
    where
      flush :
          (r : Poll (Result (Unit {0}))) (s' : p.Stream)
          → PollAnswers r
          → log.sent s' ≡ log.sent s
          → RoundOutcome c io (flushed p r, record { stream = s'; write_queue = queue })
      flush r s' a e =
          let sent = h refl in
          let now : Sends c io (record { stream = s'; write_queue = queue }) = record {
            bytes = sent.bytes;
            batch = sent.batch;
            sends = e ∙ sent.sends;
            reads = sent.reads;
            front = sent.front;
            rest = sent.rest;
          } in
          elim r
              as (λ (r : Poll (Result (Unit {0}))).
                PollAnswers r
                → RoundOutcome c io (flushed p r, record { stream = s'; write_queue = queue })) [
                  | pending ↦ λ a. Sends-Conserves c io _ now
                  | ready (ok u) ↦ λ a. now
                  | ready (err e) ↦ λ a. tt
                  | ready panic ↦ λ a. absurd a
                  | ready stuck ↦ λ a. absurd a
                ]
            a

  batch-RoundOutcome :
      (c : ℕ) (io : MessageIo p) (stream : p.Stream) (m : ChannelMessage x)
      (ms : List (ChannelMessage x))
      → io.write_queue ≡ m ∷ ms
      → log.sent stream ≡ log.sent io.stream
      → 0 < c
      → All (MaySend x k c) (m ∷ ms)
      → RoundOutcome c io (send_batch p (record { stream = stream; write_queue = m ∷ ms }))
  unfolding send_batch
  batch-RoundOutcome c io stream m ms e same pos may =
      let (sendable, rest) = take_batch-IsSendable x k c m ms pos may in
      let (frame, left) = take_batch [] (m ∷ ms) in
      let (bs, encoded, reads) = IsSendable-encoded p k frame sendable in
      rw (send_batch, encoded)
        (started-RoundOutcome c io left (p.start_send bs stream).0 (p.start_send bs stream).1
          (sound.start_send-Answers bs stream)
          λ started. record {
            bytes = bs;
            batch = frame;
            sends =
                log.start_send-sent bs stream started
                ∙ ap (λ (l : List Bytes). l ++ (bs ∷ [])) same;
            reads = reads;
            front = e ∙ sym ((take_batch_lem m ms).0);
            rest = rest;
          })

  pub outbound_round-RoundOutcome :
      (c : ℕ) (is_pending : Bool) (io : MessageIo p)
      → 0 < c
      → All (MaySend x k c) io.write_queue
      → RoundOutcome c io (outbound_round p is_pending io)
  unfolding outbound_round
  outbound_round-RoundOutcome c is_pending io pos may =
      ready-RoundOutcome (p.poll_ready io.stream).0 (p.poll_ready io.stream).1
        (sound.poll_ready-Answers io.stream) (log.poll_ready-sent io.stream)
    where
      finished :
          (b : Bool) (s : p.Stream)
          → log.sent s ≡ log.sent io.stream
          → Outcome p k log io (finish p b, record io { stream = s })
      finished true s e = Conserves-idle p k log io s e
      finished false s e = Conserves-idle p k log io s e

      queued :
          (queue : List (ChannelMessage x)) (s : p.Stream)
          → io.write_queue ≡ queue
          → log.sent s ≡ log.sent io.stream
          → RoundOutcome c io (with_queue p queue (record io { stream = s }))
      queued [] s q e = finished false s e
      queued (m ∷ ms) s q e =
          subst
            (λ (l : List (ChannelMessage x)).
              RoundOutcome c io (send_batch p (record { stream = s; write_queue = l })))
            (sym q) (batch-RoundOutcome c io s m ms q e pos (subst (All (MaySend x k c)) q may))

      ready-RoundOutcome :
          (r : Poll (Result (Unit {0}))) (s : p.Stream)
          → PollAnswers r
          → log.sent s ≡ log.sent io.stream
          → RoundOutcome c io (on_ready p is_pending r (record io { stream = s }))
      ready-RoundOutcome pending s a e = finished is_pending s e
      ready-RoundOutcome (ready (err er)) s a e = finished is_pending s e
      ready-RoundOutcome (ready panic) s a e = absurd a
      ready-RoundOutcome (ready stuck) s a e = absurd a
      ready-RoundOutcome (ready (ok u)) s a e = queued io.write_queue s refl e

  Sends-Outcome :
      (c : ℕ) (io io1 : MessageIo p) (r : Poll (Result (Unit {0})) × MessageIo p)
      → Sends c io io1
      → Outcome p k log io1 r
      → Outcome p k log io r
  Sends-Outcome c io io1 (pending, io') s o =
      Conserves-frame p k log io io1 io' s.bytes s.batch s.sends s.reads s.front o
  Sends-Outcome c io io1 (ready (ok u), io') s o =
      Conserves-frame p k log io io1 io' s.bytes s.batch s.sends s.reads s.front o
  Sends-Outcome c io io1 (ready (err e), io') s o = tt
  Sends-Outcome c io io1 (ready panic, io') s o = o
  Sends-Outcome c io io1 (ready stuck, io') s o = o

  outbound_loop-Outcome :
      (c fuel : ℕ) (is_pending : Bool) (io : MessageIo p)
      → 0 < c
      → length io.write_queue < fuel
      → All (MaySend x k c) io.write_queue
      → Outcome p k log io (outbound_loop p fuel is_pending io)
  outbound_loop-Outcome c zero is_pending io pos enough may = absurd (omega arith)
  outbound_loop-Outcome c (suc fuel) is_pending io pos enough may =
      let io1 = (outbound_round p is_pending io).1 in
      let o = outbound_round-RoundOutcome c is_pending io pos may in
      elim (Round-cases p (outbound_round p is_pending io).0) [
        | inl (r, last) ↦
            let o' = subst (λ (t : Round p). RoundOutcome c io (t, io1)) last o in
            rw (outbound_loop-last p fuel is_pending io r last) o'
        | inr goes_on ↦
            let sent = subst (λ (t : Round p). RoundOutcome c io (t, io1)) goes_on o in
            let smaller = outbound_round-shorter p is_pending io goes_on in
            rw (outbound_loop-again p fuel is_pending io goes_on) (
              Sends-Outcome c io io1 (outbound_loop p fuel false io1) sent
                (outbound_loop-Outcome c fuel false io1 pos (omega (arith, smaller)) sent.rest))
      ]

  pub poll_outbound-Outcome :
      (c : ℕ) (io : MessageIo p)
      → 0 < c
      → All (MaySend x k c) io.write_queue
      → Outcome p k log io (poll_outbound p io)
  unfolding poll_outbound
  poll_outbound-Outcome c io pos may =
      outbound_loop-Outcome c (suc (length io.write_queue)) true io pos (omega arith) may
