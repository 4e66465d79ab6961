-- ===== src/MessageIo/Batches.antt =====
-- `poll_outbound` of src/mqueue.rs: the cut of the write queue into frames, and the fuel of the loop.
use hypercore_protocol_rs.Prelude.{
  ℕ, zero, suc, ◌+◌, ◌≤◌, ◌<◌, ◌≡◌, refl, sym, ◌∙◌, Bool, Bool-cases, true, false, ◌⊎◌, inl, inr,
  List, [], ◌∷◌, ◌++◌, append_assoc, length, All, All-append, arith, Result,
}
use hypercore_protocol_rs.Wire.{External}
use hypercore_protocol_rs.Message.{is_open_or_close}
use hypercore_protocol_rs.ChannelMessage.{ChannelMessage}
use hypercore_protocol_rs.Platform.{Platform, Poll}
use hypercore_protocol_rs.MessageIo.{
  MessageIo, Round, take_batch, send_batch, outbound_round, outbound_loop, poll_outbound, returns,
  again,
}

module _ {x : External} where
  abbrev pub IsOrdinary : ChannelMessage x → Type 0
  IsOrdinary m = is_open_or_close m.message ≡ false

  -- Nothing is lost, and the order is kept.
  take_batch-append :
      (messages queue : List (ChannelMessage x))
      → (take_batch messages queue).0 ++ (take_batch messages queue).1 ≡ messages ++ queue
  unfolding take_batch
  take_batch-append messages [] = refl
  take_batch-append messages (front ∷ queue) = ground (
    arith,
    take_batch-append (messages ++ (front ∷ [])) queue,
    append_assoc messages (front ∷ []) queue,
  )

  -- The messages before the front are ordinary, so a batch is of ordinary messages, or is one message.
  take_batch-alone :
      (messages queue : List (ChannelMessage x))
      → All IsOrdinary messages
      → All IsOrdinary (take_batch messages queue).0
        ⊎ ((m : ChannelMessage x) × ((take_batch messages queue).0 ≡ m ∷ []))
  unfolding take_batch
  take_batch-alone messages [] v = inl v
  take_batch-alone [] (front ∷ queue) v = elim (Bool-cases (is_open_or_close front.message)) [
    | inl alone ↦ rw alone (inr (front, refl))
    | inr ordinary ↦ rw ordinary (take_batch-alone (front ∷ []) queue (ordinary, tt))
  ]
  take_batch-alone (m ∷ messages) (front ∷ queue) v =
      elim (Bool-cases (is_open_or_close front.message)) [
        | inl alone ↦ rw alone (inl v)
        | inr ordinary ↦ rw ordinary (
            take_batch-alone (m ∷ messages ++ (front ∷ [])) queue
              (All-append IsOrdinary (m ∷ messages) (front ∷ []) v (ordinary, tt)))
      ]

  take_batch-shorter :
      (messages queue : List (ChannelMessage x))
      → length (take_batch messages queue).1 ≤ length queue
  unfolding take_batch
  take_batch-shorter messages [] = omega arith
  take_batch-shorter messages (front ∷ queue) =
      ground (arith, take_batch-shorter (messages ++ (front ∷ [])) queue)

  take_batch-takes :
      (front : ChannelMessage x) (queue : List (ChannelMessage x))
      → length (take_batch [] (front ∷ queue)).1 ≤ length queue
  unfolding take_batch
  take_batch-takes front queue = ground (arith, take_batch-shorter (front ∷ []) queue)

  -- A frame is a front part of the queue that is not empty if the queue is not, and it holds an
  -- `Open` or a `Close` only if it holds nothing else.
  pub take_batch_lem :
      (front : ChannelMessage x) (queue : List (ChannelMessage x))
      → let (frame, rest) = take_batch [] (front ∷ queue) in
        (frame ++ rest ≡ front ∷ queue)
        × (length rest ≤ length queue)
        × (All IsOrdinary frame ⊎ ((m : ChannelMessage x) × (frame ≡ m ∷ [])))
  take_batch_lem front queue = (
    take_batch-append [] (front ∷ queue),
    take_batch-takes front queue,
    take_batch-alone [] (front ∷ queue) tt,
  )

module _ {x : External} (p : Platform x) where
  send_batch-queue :
      (io : MessageIo p) → (send_batch p io).1.write_queue ≡ (take_batch [] io.write_queue).1
  unfolding send_batch
  send_batch-queue io = refl

  -- A round that is not the last sends a frame.
  pub outbound_round-shorter :
      (is_pending : Bool) (io : MessageIo p)
      → (outbound_round p is_pending io).0 ≡ again
      → length (outbound_round p is_pending io).1.write_queue < length io.write_queue
  unfolding outbound_round
  outbound_round-shorter is_pending io h = go io.write_queue refl
    where
      go :
          (queue : List (ChannelMessage x))
          → io.write_queue ≡ queue
          → length (outbound_round p is_pending io).1.write_queue < length io.write_queue
      go [] e = ground arith
      go (m ∷ ms) e = ground (
        arith,
        send_batch-queue (record io { stream = (p.poll_ready io.stream).1 }),
        take_batch-takes m ms,
      )

  pub Round-cases : (r : Round p) → ((e : Poll (Result (Unit {0}))) × (r ≡ returns e)) ⊎ (r ≡ again)
  Round-cases (returns e) = inl (e, refl)
  Round-cases again = inr refl

  pub outbound_loop-last :
      (fuel : ℕ) (is_pending : Bool) (io : MessageIo p) (r : Poll (Result (Unit {0})))
      → (outbound_round p is_pending io).0 ≡ returns r
      → outbound_loop p (suc fuel) is_pending io ≡ (r, (outbound_round p is_pending io).1)
  unfolding outbound_loop
  outbound_loop-last fuel is_pending io r h = rw (h, outbound_loop)

  pub outbound_loop-again :
      (fuel : ℕ) (is_pending : Bool) (io : MessageIo p)
      → (outbound_round p is_pending io).0 ≡ again
      → outbound_loop p (suc fuel) is_pending io
        ≡ outbound_loop p fuel false (outbound_round p is_pending io).1
  unfolding outbound_loop
  outbound_loop-again fuel is_pending io h = rw (h, outbound_loop)

  -- More fuel than messages changes nothing: the loop ends by itself.
  outbound_loop-fuel :
      (fuel more : ℕ) (is_pending : Bool) (io : MessageIo p)
      → length io.write_queue < fuel
      → outbound_loop p (fuel + more) is_pending io ≡ outbound_loop p fuel is_pending io
  outbound_loop-fuel zero more is_pending io h = absurd (omega arith)
  outbound_loop-fuel (suc fuel) more is_pending io h =
      let rest = (outbound_round p is_pending io).1 in
      let grown : suc fuel + more ≡ suc (fuel + more) = omega arith in
      elim (Round-cases (outbound_round p is_pending io).0) [
        | inl (r, last) ↦ rw grown (
            outbound_loop-last (fuel + more) is_pending io r last
            ∙ sym (outbound_loop-last fuel is_pending io r last))
        | inr goes_on ↦
            let smaller = outbound_round-shorter is_pending io goes_on in
            rw grown (
              outbound_loop-again (fuel + more) is_pending io goes_on
              ∙ outbound_loop-fuel fuel more false rest (omega (arith, smaller))
              ∙ sym (outbound_loop-again fuel is_pending io goes_on))
      ]

  -- `poll_outbound` is its loop at any fuel above the length of the queue.
  pub poll_outbound_ends :
      (more : ℕ) (io : MessageIo p)
      → outbound_loop p (suc (length io.write_queue) + more) true io ≡ poll_outbound p io
  unfolding poll_outbound
  poll_outbound_ends more io =
      outbound_loop-fuel (suc (length io.write_queue)) more true io (omega arith)
