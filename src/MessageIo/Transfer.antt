-- ===== src/MessageIo/Transfer.antt =====
-- Two ends of a connection (src/mqueue.rs): `poll_outbound` of one end and `poll_inbound` of the other.
use hypercore_protocol_rs.Prelude.{
  ℕ, zero, suc, ◌≡◌, refl, Option, some, List, [], ◌∷◌, ◌++◌, Result, ok, ◌>>=◌,
}
use hypercore_protocol_rs.Wire.{Bytes, External}
use hypercore_protocol_rs.Wire.Contract.{Contract}
use hypercore_protocol_rs.ChannelMessage.{ChannelMessage}
use hypercore_protocol_rs.Platform.{Platform, Poll, ready, message}
use hypercore_protocol_rs.Framing.{vec_decode}
use hypercore_protocol_rs.MessageIo.{MessageIo, poll_inbound, decoded}

-- The frames that have arrived at a stream. It yields them in their order.
pub record Arrivals {x : External} (p : Platform x) : Type 0 where
  pub arrived : p.Stream → List Bytes
  pub poll_next-arrived :
      (frame : Bytes) (frames : List Bytes) (s : p.Stream)
      → arrived s ≡ frame ∷ frames
      → let (r, s') = p.poll_next s in (r ≡ ready (some (message frame))) × (arrived s' ≡ frames)

module _ {x : External} (p : Platform x) where
  -- The messages of a poll, in front of those of later polls. Where a poll gives none, there are no more.
  abbrev in_front :
      Poll (Option (Result (List (ChannelMessage x))))
      → Result (List (ChannelMessage x))
      → Result (List (ChannelMessage x))
  in_front (ready (some result)) later = do ms ← result; rest ← later; ok (ms ++ rest)
  in_front _ later = ok []

  -- The messages of `n` polls.
  unfoldable pub inbound : ℕ → MessageIo p → Result (List (ChannelMessage x))
  inbound zero io = ok []
  inbound (suc n) io = let (r, io') = poll_inbound p 1 io in in_front r (inbound n io')

module _ {x : External} (p : Platform x) (arrivals : Arrivals p) where
  pub poll_inbound-frame :
      (n : ℕ) (frame : Bytes) (frames : List Bytes) (io : MessageIo p)
      → arrivals.arrived io.stream ≡ frame ∷ frames
      → let (r, io') = poll_inbound p (suc n) io in
        (r ≡ ready (some (decoded p (vec_decode x frame))))
        × (arrivals.arrived io'.stream ≡ frames)
        × (io'.stream ≡ (p.poll_next io.stream).1)
  unfolding poll_inbound
  poll_inbound-frame n frame frames io h =
      let (yields, left) = arrivals.poll_next-arrived frame frames io.stream h in
      rw (poll_inbound, yields) (refl, left, refl)

  pub decoded-ok :
      (frame bytes : Bytes) (ms : List (ChannelMessage x))
      → vec_decode x frame ≡ ok (ms, bytes)
      → decoded p (vec_decode x frame) ≡ ok ms
  unfolding decoded
  decoded-ok frame bytes ms read = rw read
