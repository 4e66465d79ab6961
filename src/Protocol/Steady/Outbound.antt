-- ===== src/Protocol/Steady/Outbound.antt =====
-- `poll_outbound` of src/mqueue.rs over a steady stream.
use hypercore_protocol_rs.Prelude.{
  ℕ, zero, suc, ◌<◌, Bool, true, false, inl, inr, List, [], ◌∷◌, length, All, Result, ok, err,
  panic, stuck, arith, subst,
}
use hypercore_protocol_rs.Wire.{Bytes, External}
use hypercore_protocol_rs.Wire.Total.{Ends, EncodersEnd}
use hypercore_protocol_rs.ChannelMessage.{ChannelMessage}
use hypercore_protocol_rs.Framing.Total.{OnWire}
use hypercore_protocol_rs.Platform.{Platform, Poll, ready, pending}
use hypercore_protocol_rs.MessageIo.{
  MessageIo, Round, returns, again, take_batch, to_encoded_bytes, flushed, on_started, send_frame,
  send_batch, finish, with_queue, on_ready, outbound_round, outbound_loop, poll_outbound,
}
use hypercore_protocol_rs.MessageIo.Total.{take_batch-OnWire, encoded-Ends}
use hypercore_protocol_rs.MessageIo.Batches.{
  outbound_round-shorter, outbound_loop-last, outbound_loop-again, Round-cases,
}
use hypercore_protocol_rs.Protocol.Steady.{PollEnds, Steady, Goes}

module _ {x : External} (p : Platform x) (e : EncodersEnd x) (steady : Steady p) where
  abbrev pub GoesOn : p.Stream → p.Stream → Type 0
  GoesOn before after = Goes p steady.Good steady.left before after

  pub goes_trans : (a b c : p.Stream) → GoesOn a b → GoesOn b c → GoesOn a c
  goes_trans a b c g h = record {
    good = h.good;
    fewer = omega (arith, g.fewer, h.fewer);
    stays = λ done. h.stays (g.stays done);
  }

  pub goes_refl : (a : p.Stream) → steady.Good a → GoesOn a a
  goes_refl a g = record { good = g; fewer = omega arith; stays = λ done. done }

  abbrev RoundEnds : Round p → Type 0
  RoundEnds (returns r) = PollEnds r
  RoundEnds again = Unit {0}

  flushed-Ends : (r : Poll (Result (Unit {0}))) → PollEnds r → RoundEnds (flushed p r)
  flushed-Ends (ready (ok u)) h = tt
  flushed-Ends (ready (err e)) h = tt
  flushed-Ends (ready panic) h = h
  flushed-Ends (ready stuck) h = h
  flushed-Ends pending h = tt

  abbrev Sends : p.Stream → Round p × p.Stream → Type 0
  Sends before (r, after) = RoundEnds r × GoesOn before after

  on_started-Sends :
      (r : Result (Unit {0})) (s : p.Stream) → Ends r → steady.Good s → Sends s (on_started p r s)
  on_started-Sends (ok u) s h g =
      (flushed-Ends (p.poll_flush s).0 (steady.flush_ends s g), steady.flush_goes s g)
  on_started-Sends (err e) s h g = (tt, goes_refl s g)
  on_started-Sends panic s h g = absurd h
  on_started-Sends stuck s h g = absurd h

  send_frame-Sends :
      (r : Result Bytes) (s : p.Stream) → Ends r → steady.Good s → Sends s (send_frame p r s)
  send_frame-Sends (ok buf) s h g =
      let (started, s') = p.start_send buf s in
      let goes = steady.send_goes buf s g in
      let (ends, more) = on_started-Sends started s' (steady.send_ends buf s g) goes.good in
      (ends, goes_trans s s' (on_started p started s').1 goes more)
  send_frame-Sends (err e) s h g = (tt, goes_refl s g)
  send_frame-Sends panic s h g = absurd h
  send_frame-Sends stuck s h g = absurd h

  abbrev Rounds : p.Stream → Round p × MessageIo p → Type 0
  Rounds before (r, after) = RoundEnds r × GoesOn before after.stream × All OnWire after.write_queue

  send_batch-Rounds :
      (io : MessageIo p)
      → steady.Good io.stream
      → All OnWire io.write_queue
      → Rounds io.stream (send_batch p io)
  unfolding send_batch
  send_batch-Rounds io g w =
      let (front, back) = take_batch-OnWire [] io.write_queue tt w in
      let (ends, goes) =
        send_frame-Sends (to_encoded_bytes p (take_batch [] io.write_queue).0) io.stream
          (encoded-Ends p e (take_batch [] io.write_queue).0 front) g in
      (ends, goes, back)

  finish-Ends : (is_pending : Bool) → PollEnds (finish p is_pending)
  finish-Ends true = tt
  finish-Ends false = tt

  with_queue-Rounds :
      (queue : List (ChannelMessage x)) (io : MessageIo p)
      → steady.Good io.stream
      → All OnWire io.write_queue
      → Rounds io.stream (with_queue p queue io)
  with_queue-Rounds [] io g w = (tt, goes_refl io.stream g, w)
  with_queue-Rounds (m ∷ ms) io g w = send_batch-Rounds io g w

  on_ready-Rounds :
      (is_pending : Bool) (r : Poll (Result (Unit {0}))) (io : MessageIo p)
      → PollEnds r
      → steady.Good io.stream
      → All OnWire io.write_queue
      → Rounds io.stream (on_ready p is_pending r io)
  on_ready-Rounds is_pending pending io h g w = (finish-Ends is_pending, goes_refl io.stream g, w)
  on_ready-Rounds is_pending (ready (err e)) io h g w =
      (finish-Ends is_pending, goes_refl io.stream g, w)
  on_ready-Rounds is_pending (ready panic) io h g w = absurd h
  on_ready-Rounds is_pending (ready stuck) io h g w = absurd h
  on_ready-Rounds is_pending (ready (ok u)) io h g w = with_queue-Rounds io.write_queue io g w

  outbound_round-Rounds :
      (is_pending : Bool) (io : MessageIo p)
      → steady.Good io.stream
      → All OnWire io.write_queue
      → Rounds io.stream (outbound_round p is_pending io)
  unfolding outbound_round
  outbound_round-Rounds is_pending io g w =
      let (r, s) = p.poll_ready io.stream in
      let goes = steady.ready_goes io.stream g in
      let io' : MessageIo p = record io { stream = s } in
      let (ends, more, wired) =
        on_ready-Rounds is_pending r io' (steady.ready_ends io.stream g) goes.good w in
      (ends, goes_trans io.stream s (on_ready p is_pending r io').1.stream goes more, wired)

  abbrev Polls : p.Stream → Poll (Result (Unit {0})) × MessageIo p → Type 0
  Polls before (r, after) = PollEnds r × GoesOn before after.stream × All OnWire after.write_queue

  outbound_loop-Polls :
      (fuel : ℕ) (is_pending : Bool) (io : MessageIo p)
      → length io.write_queue < fuel
      → steady.Good io.stream
      → All OnWire io.write_queue
      → Polls io.stream (outbound_loop p fuel is_pending io)
  outbound_loop-Polls zero is_pending io enough g w = absurd (omega arith)
  outbound_loop-Polls (suc fuel) is_pending io enough g w =
      let io' = (outbound_round p is_pending io).1 in
      let (ends, goes, wired) = outbound_round-Rounds is_pending io g w in
      elim (Round-cases p (outbound_round p is_pending io).0) [
        | inl (r, last) ↦
            rw (outbound_loop-last p fuel is_pending io r last)
              (subst (λ (t : Round p). RoundEnds t) last ends, goes, wired)
        | inr goes_on ↦
            let smaller = outbound_round-shorter p is_pending io goes_on in
            let (ends', more, wired') =
              outbound_loop-Polls fuel false io' (omega (arith, smaller)) goes.good wired in
            rw (outbound_loop-again p fuel is_pending io goes_on) (
              ends',
              goes_trans io.stream io'.stream (outbound_loop p fuel false io').1.stream goes more,
              wired',
            )
      ]

  -- A poll returns, with a value or an error, from a good state with a write queue of messages on the wire,
  -- and leaves such a state.
  pub poll_outbound-Polls :
      (io : MessageIo p)
      → steady.Good io.stream
      → All OnWire io.write_queue
      → let (r, io') = poll_outbound p io in
        PollEnds r × GoesOn io.stream io'.stream × All OnWire io'.write_queue
  unfolding poll_outbound
  poll_outbound-Polls io g w =
      outbound_loop-Polls (suc (length io.write_queue)) true io (omega arith) g w
