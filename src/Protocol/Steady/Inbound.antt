-- ===== src/Protocol/Steady/Inbound.antt =====
-- `poll_inbound` of src/mqueue.rs over a steady stream.
use hypercore_protocol_rs.Prelude.{
  ℕ, zero, suc, ◌<◌, ◌≡◌, refl, inl, inr, Option, none, some, List, [], All, Result, ok, err, panic,
  stuck, arith,
}
use hypercore_protocol_rs.Wire.{External}
use hypercore_protocol_rs.Wire.Contract.{Contract}
use hypercore_protocol_rs.ChannelMessage.{ChannelMessage}
use hypercore_protocol_rs.MessageIo.Total.{decoded-cases}
use hypercore_protocol_rs.Platform.{
  Platform, Poll, ready, pending, CipherEvent, handshake_payload, message, err_stuff,
}
use hypercore_protocol_rs.MessageIo.{MessageIo, poll_inbound}
use hypercore_protocol_rs.Protocol.Halting.{Established}
use hypercore_protocol_rs.Protocol.Steady.{Steady, Goes, Returns, IdFits}

module _ {x : External} (p : Platform x) (k : Contract x) (steady : Steady p) where
  -- What a poll has read: messages come from an event, after the handshake, and their ids fit.
  abbrev pub Reads : p.Stream → Poll (Option (Result (List (ChannelMessage x)))) → p.Stream → Type 0
  Reads before (ready (some (ok ms))) after =
      (steady.left after < steady.left before) × Established p after × All (IdFits x) ms
  Reads before (ready (some panic)) after = ⊥
  Reads before (ready (some stuck)) after = ⊥
  Reads before (ready (some (err e))) after = Unit {0}
  Reads before (ready none) after = Unit {0}
  Reads before pending after = Unit {0}

  abbrev GoesOn : p.Stream → p.Stream → Type 0
  GoesOn before after = Goes p steady.Good steady.left before after

  abbrev Polls :
      MessageIo p → Poll (Option (Result (List (ChannelMessage x)))) × MessageIo p → Type 0
  Polls before (r, after) =
      Reads before.stream r after.stream
      × GoesOn before.stream after.stream
      × (after.write_queue ≡ before.write_queue)

  Reads-from :
      (a b c : p.Stream) (r : Poll (Option (Result (List (ChannelMessage x)))))
      → GoesOn a b
      → Reads b r c
      → Reads a r c
  Reads-from a b c (ready (some (ok ms))) g (less, done, fits) =
      let fewer = g.fewer in (omega (arith, less, fewer), done, fits)
  Reads-from a b c (ready (some panic)) g h = h
  Reads-from a b c (ready (some stuck)) g h = h
  Reads-from a b c (ready (some (err e))) g h = tt
  Reads-from a b c (ready none) g h = tt
  Reads-from a b c pending g h = tt

  -- Fuel above the number of events that are left is enough: the poll returns.
  pub poll_inbound-Polls :
      (n : ℕ) (io : MessageIo p)
      → steady.Good io.stream
      → steady.left io.stream < n
      → let (r, io') = poll_inbound p n io in
        Reads io.stream r io'.stream
        × GoesOn io.stream io'.stream
        × (io'.write_queue ≡ io.write_queue)
  unfolding poll_inbound
  poll_inbound-Polls zero io g enough = absurd (omega arith)
  poll_inbound-Polls (suc n) io g enough =
      go (poll_inbound-Polls n) (p.poll_next io.stream).0 refl (steady.next_goes io.stream g)
        (steady.next_returns io.stream g)
    where
      go :
          ((io' : MessageIo p)
            → steady.Good io'.stream
            → steady.left io'.stream < n
            → Polls io' (poll_inbound p n io'))
          → (r : Poll (Option CipherEvent)) → (p.poll_next io.stream).0 ≡ r
          → GoesOn io.stream (p.poll_next io.stream).1
          → Returns p steady.Good steady.left io.stream r (p.poll_next io.stream).1
          → Polls io (poll_inbound p (suc n) io)
      go again pending e goes h = rw (poll_inbound, e) (tt, goes, refl)
      go again (ready none) e goes h = rw (poll_inbound, e) (tt, goes, refl)
      go again (ready (some (err_stuff er))) e goes h = rw (poll_inbound, e) (tt, goes, refl)
      go again (ready (some handshake_payload)) e goes h =
          let io' : MessageIo p = record io { stream = (p.poll_next io.stream).1 } in
          let (reads, more, queue) = again io' goes.good (omega (arith, h)) in
          rw (poll_inbound, e)
            (
              Reads-from io.stream io'.stream (poll_inbound p n io').1.stream
                  (poll_inbound p n io').0 goes reads,
              record {
                good = more.good;
                fewer = omega (arith, more.fewer, goes.fewer);
                stays = λ done. more.stays (goes.stays done);
              },
              queue,
            )
      go again (ready (some (message frame))) e goes (less, done, fits) =
          elim (decoded-cases p k frame) [
            | inl (ms, read, ok_read) ↦
                rw (poll_inbound, e, ok_read) ((less, done, fits ms [] read), goes, refl)
            | inr (er, failed) ↦ rw (poll_inbound, e, failed) (tt, goes, refl)
          ]
