-- ===== src/MessageIo/Sendable.antt =====
-- The queues of messages that may be sent, and the frames that `poll_outbound` (src/mqueue.rs) makes of them.
use hypercore_protocol_rs.Prelude.{
  ◌<◌, ◌≡◌, sym, ℕ, inl, inr, List, [], ◌∷◌, ◌++◌, length, All, ok, subst,
}
use hypercore_protocol_rs.Wire.{Bytes, External}
use hypercore_protocol_rs.Wire.Contract.{Contract}
use hypercore_protocol_rs.Schema.Open.{Open}
use hypercore_protocol_rs.Schema.Open.RoundTrip as OpenTrip
use hypercore_protocol_rs.Schema.Close
use hypercore_protocol_rs.Schema.Close.{Close}
use hypercore_protocol_rs.Message.{open_msg, close_msg}
use hypercore_protocol_rs.Message.Control
use hypercore_protocol_rs.ChannelMessage.{ChannelMessage, new}
use hypercore_protocol_rs.Platform.{Platform}
use hypercore_protocol_rs.Framing.{vec_decode}
use hypercore_protocol_rs.Framing
use hypercore_protocol_rs.Framing.Encode.{IsPlain}
use hypercore_protocol_rs.Framing.Frames.{IsSendable, plain, opens, closes, frame-RoundTrips}
use hypercore_protocol_rs.MessageIo.{take_batch, to_encoded_bytes}
use hypercore_protocol_rs.MessageIo.Batches.{IsOrdinary, take_batch_lem}

module _ (x : External) (k : Contract x) (c : ℕ) where
  -- A message that may wait in the queue: an ordinary one on channel `c`, an `Open`, or a `Close`, with
  -- values in range.
  pub data MaySend : ChannelMessage x → Type 0 where
    ordinary : (m : ChannelMessage x) → IsPlain x k m → m.channel ≡ c → MaySend m
    opening :
        (o : Open)
        → OpenTrip.IsValid x k o
        → length o.discovery_key ≡ 32
        → MaySend (new x o.channel (open_msg o))
    closing : (e : Close) → Close.IsValid e → MaySend (new x e.channel (close_msg e))

  ordinary-IsPlain :
      (m : ChannelMessage x) → MaySend m → IsOrdinary m → IsPlain x k m × (m.channel ≡ c)
  ordinary-IsPlain m (ordinary _ v e) o = (v, e)
  ordinary-IsPlain m (opening o v h) e = cc (Control.open-is_open_or_close x o)
  ordinary-IsPlain m (closing o v) e = cc (Control.close-is_open_or_close x o)

  batch-IsPlain :
      (ms : List (ChannelMessage x))
      → All MaySend ms
      → All IsOrdinary ms
      → All (IsPlain x k) ms × All (λ m. m.channel ≡ c) ms
  batch-IsPlain [] s o = (tt, tt)
  batch-IsPlain (m ∷ ms) (s, ss) (o, os) =
      let (v, e) = ordinary-IsPlain m s o in
      let (vs, es) = batch-IsPlain ms ss os in ((v, vs), (e, es))

  same_as :
      (d : ℕ) (ms : List (ChannelMessage x))
      → d ≡ c
      → All (λ m. m.channel ≡ c) ms
      → All (λ m. m.channel ≡ d) ms
  same_as d ms e s = rw e s

  ordinary-IsSendable :
      (ms : List (ChannelMessage x))
      → 0 < c
      → All MaySend ms
      → All IsOrdinary ms
      → IsSendable x k ms
  ordinary-IsSendable [] pos s o = plain [] tt
  ordinary-IsSendable (m ∷ []) pos s o =
      let (v, e) = batch-IsPlain (m ∷ []) s o in plain (m ∷ []) (v.0, rw (e.0) pos)
  ordinary-IsSendable (m ∷ n ∷ ms) pos s o =
      let (v, e) = batch-IsPlain (m ∷ n ∷ ms) s o in
      plain (m ∷ n ∷ ms) (v, same_as m.channel (n ∷ ms) e.0 e.1)

  alone-IsSendable : (m : ChannelMessage x) → 0 < c → MaySend m → IsSendable x k (m ∷ [])
  alone-IsSendable m pos (ordinary _ v e) = plain (m ∷ []) (v, rw e pos)
  alone-IsSendable m pos (opening o v h) = opens o v h
  alone-IsSendable m pos (closing e v) = closes e v

  All-split :
      (ms rest : List (ChannelMessage x))
      → All MaySend (ms ++ rest)
      → All MaySend ms × All MaySend rest
  All-split [] rest s = (tt, s)
  All-split (m ∷ ms) rest (s, ss) = let (t, u) = All-split ms rest ss in ((s, t), u)

  -- The next frame of a queue is sendable, and the rest may be sent.
  pub take_batch-IsSendable :
      (front : ChannelMessage x) (queue : List (ChannelMessage x))
      → 0 < c
      → All MaySend (front ∷ queue)
      → let (frame, rest) = take_batch [] (front ∷ queue) in IsSendable x k frame × All MaySend rest
  take_batch-IsSendable front queue pos s =
      let (whole, shorter, kind) = take_batch_lem front queue in
      let (mine, others) = All-split _ _ (subst (All MaySend) (sym whole) s) in
      elim kind [
        | inl free ↦ (ordinary-IsSendable _ pos mine free, others)
        | inr (m, alone) ↦ (rw alone (alone-IsSendable m pos ((rw alone at mine).0)), others)
      ]

module _ {x : External} (p : Platform x) (k : Contract x) where
  -- A sendable frame has an encoding, which the receiver reads.
  pub IsSendable-encoded :
      (ms : List (ChannelMessage x))
      → IsSendable x k ms
      → (bs : Bytes) × (to_encoded_bytes p ms ≡ ok bs) × (vec_decode x bs ≡ ok (ms, []))
  unfolding to_encoded_bytes
  IsSendable-encoded ms s =
      let (n, bs, size, encoded, decoded) = frame-RoundTrips x k 0 ms s in
      (
        bs,
        k.to_encoded_bytes_lem (List (ChannelMessage x)) (Framing.codec x) ms n bs size encoded,
        decoded,
      )
