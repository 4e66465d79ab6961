-- ===== src/Framing/Frames.antt =====
-- Whole frames (src/message.rs): size, encoding and decoding of everything that the encoder may be
-- given, `Open` and `Close` included.
use hypercore_protocol_rs.Prelude.{
  ℕ, suc, ◌+◌, ◌≤◌, ◌<◌, ◌≡◌, refl, ap, ◌∙◌, leb-true, leb-false, List, [], ◌∷◌, ◌++◌, append-nil,
  length, length-append, length-replicate, replicate, ok, arith, All,
}
use hypercore_protocol_rs.Wire.{Bytes, External, ◌⨟◌}
use hypercore_protocol_rs.Wire.Laws.{Encodes-length}
use hypercore_protocol_rs.Wire.Contract.{Contract}
use hypercore_protocol_rs.Schema.Open
use hypercore_protocol_rs.Schema.Open.{Open}
use hypercore_protocol_rs.Schema.Open.RoundTrip as OpenTrip
use hypercore_protocol_rs.Schema.Close
use hypercore_protocol_rs.Schema.Close.{Close}
use hypercore_protocol_rs.Message.{open_msg, close_msg}
use hypercore_protocol_rs.Message.Control
use hypercore_protocol_rs.ChannelMessage.{
  ChannelMessage, new, encoded_size, channel_size, decode_open_message, decode_close_message,
}
use hypercore_protocol_rs.Framing.{
  byte_is, vec_encoded_size, vec_encode, encode_prefix, framed, decode_unframed, vec_decode,
}
use hypercore_protocol_rs.Framing.Encode.{
  frame_bytes, IsPlain, vec_encoded_size-frame_bytes, vec_encode-frame_bytes,
}
use hypercore_protocol_rs.Framing.RoundTrip.{IsFrame, vec_decode-whole, vec_decode-frame_bytes}

module _ (x : External) where
  -- A buffer of the size that `vec_encoded_size` gives, whatever it holds (here `fill`), is filled by
  -- `vec_encode` to the end, and `vec_decode` reads the messages back from it.
  abbrev pub RoundTrips : ℕ → List (ChannelMessage x) → Type 0
  RoundTrips fill ms =
      (n : ℕ) × (bs : Bytes) × (vec_encoded_size x ms ≡ ok n)
      × (vec_encode x ms (replicate n fill) ≡ ok (bs, []))
      × (vec_decode x bs ≡ ok (ms, []))

two_more : (n fill : ℕ) → replicate (2 + n) fill ≡ fill ∷ fill ∷ replicate n fill
two_more n fill = let e : 2 + n ≡ suc (suc n) = omega arith in rw e

module _ (x : External) (k : Contract x) where
  -- What `poll_outbound` hands to the encoder, if the values are in range and a batch is on one channel.
  pub data IsSendable : List (ChannelMessage x) → Type 1 where
    plain : (ms : List (ChannelMessage x)) → IsFrame x k ms → IsSendable ms
    opens :
        (o : Open)
        → OpenTrip.IsValid x k o
        → length o.discovery_key ≡ 32
        → IsSendable (new x o.channel (open_msg o) ∷ [])
    closes : (c : Close) → Close.IsValid c → IsSendable (new x c.channel (close_msg c) ∷ [])

  frame-All : (ms : List (ChannelMessage x)) → IsFrame x k ms → All (IsPlain x k) ms
  frame-All [] v = tt
  frame-All (m ∷ []) v = (v.0, tt)
  frame-All (m ∷ n ∷ ms) v = v.0

  plain-RoundTrips :
      (fill : ℕ) (ms : List (ChannelMessage x)) → IsFrame x k ms → RoundTrips x fill ms
  plain-RoundTrips fill ms v =
      let bs = frame_bytes x k ms in
      (
        length bs,
        bs,
        vec_encoded_size-frame_bytes x k ms (frame-All ms v),
        rw append-nil at (
            vec_encode-frame_bytes x k ms (frame-All ms v) (replicate (length bs) fill) []
              (length-replicate (length bs) fill)),
        vec_decode-frame_bytes x k ms v,
      )

  close-size :
      (c : Close)
      → Close.IsValid c
      → vec_encoded_size x (new x c.channel (close_msg c) ∷ [])
        ≡ ok (2 + length (Close.bytes x k c))
  unfolding vec_encoded_size encoded_size channel_size
  close-size c v =
      rw
        (
          Control.close-is_open_or_close x c,
          Control.encoded_size-close x c _ (Close.codec-Encodes x k c v).size,
        )
        (ap ok (omega arith))

  close-encode :
      (c : Close) (a b : ℕ) (old : Bytes)
      → Close.IsValid c
      → length old ≡ length (Close.bytes x k c)
      → vec_encode x (new x c.channel (close_msg c) ∷ []) (a ∷ b ∷ old)
        ≡ ok (0 ∷ 3 ∷ Close.bytes x k c, [])
  unfolding vec_encode encode_prefix ◌⨟◌
  close-encode c a b old v h =
      let body = rw append-nil at ((Close.codec-Encodes x k c v).writes old [] h) in
      rw (
        k.write_array_lem (0 ∷ 3 ∷ []) (a ∷ b ∷ []) old refl,
        Control.encode-close x c old _ [] body,
      )

  close-decode :
      (c : Close)
      → Close.IsValid c
      → decode_unframed x (0 ∷ 3 ∷ Close.bytes x k c)
        ≡ ok (new x c.channel (close_msg c) ∷ [], 2 + length (Close.bytes x k c))
  unfolding decode_unframed byte_is framed decode_close_message
  close-decode c v =
      let e = Close.codec-Encodes x k c v in
      let long : 1 ≤ length (Close.bytes x k c) =
        Encodes-length 1 _ c _ e (Close.decode-Answers x k) in
      let read : Close.decode x (Close.bytes x k c) ≡ ok (c, []) = rw append-nil at (e.reads []) in
      rw
        (
          leb-true 3 (length (0 ∷ 3 ∷ Close.bytes x k c)) (omega arith),
          leb-false (length (Close.bytes x k c)) 0 (omega arith),
          read,
        )
        (ap (λ (n : ℕ). ok (new x c.channel (close_msg c) ∷ [], n)) (omega arith))

  close-RoundTrips :
      (fill : ℕ) (c : Close)
      → Close.IsValid c
      → RoundTrips x fill (new x c.channel (close_msg c) ∷ [])
  close-RoundTrips fill c v =
      let bs = Close.bytes x k c in
      (
        2 + length bs,
        0 ∷ 3 ∷ bs,
        close-size c v,
        rw (two_more (length bs) fill) (
            close-encode c fill fill (replicate (length bs) fill) v
              (length-replicate (length bs) fill)),
        vec_decode-whole x (0 ∷ 3 ∷ bs) _
            (close-decode c v
              ∙ ap (λ (n : ℕ). ok (new x c.channel (close_msg c) ∷ [], n)) (omega arith))
            (omega arith),
      )

  open-size :
      (flags : ℕ) (o : Open)
      → OpenTrip.IsValid x k o
      → vec_encoded_size x (new x o.channel (open_msg o) ∷ [])
        ≡ ok (2 + length (OpenTrip.bytes x k flags o))
  unfolding vec_encoded_size encoded_size channel_size
  open-size flags o v =
      rw
        (
          Control.open-is_open_or_close x o,
          Control.encoded_size-open x o _ (OpenTrip.encoded_size-bytes x k flags o v),
        )
        (ap ok (omega arith))

  open-encode :
      (o : Open) (a b : ℕ) (old : Bytes)
      → OpenTrip.IsValid x k o
      → length old ≡ length (OpenTrip.bytes x k 0 o)
      → (flags : ℕ) × (vec_encode x (new x o.channel (open_msg o) ∷ []) (a ∷ b ∷ old)
          ≡ ok (0 ∷ 1 ∷ OpenTrip.bytes x k flags o, []))
  unfolding vec_encode encode_prefix ◌⨟◌
  open-encode o a b old v h =
      let (flags, filled) = OpenTrip.encode-bytes x k o old [] v h in
      let body : Open.encode x o old ≡ ok (OpenTrip.bytes x k flags o, []) =
        rw append-nil at filled in
      (
        flags,
        rw (
          k.write_array_lem (0 ∷ 1 ∷ []) (a ∷ b ∷ []) old refl,
          Control.encode-open x o old _ [] body,
        ),
      )

  open-long :
      (flags : ℕ) (o : Open) → length o.discovery_key ≡ 32 → 5 < length (OpenTrip.bytes x k flags o)
  open-long flags o h =
      let dk = k.vec_u8_bytes o.discovery_key in
      let text = k.string_bytes o.protocol in
      omega (
        arith,
        length-append (k.u64_bytes o.channel ++ (text ++ dk))
            (OpenTrip.capability_bytes flags o.capability),
        length-append (k.u64_bytes o.channel) (text ++ dk),
        length-append text dk,
        k.vec_u8_length o.discovery_key,
        h,
      )

  open-decode :
      (flags : ℕ) (o : Open)
      → OpenTrip.IsValid x k o
      → length o.discovery_key ≡ 32
      → let bs = OpenTrip.bytes x k flags o in
        decode_unframed x (0 ∷ 1 ∷ bs) ≡ ok (new x o.channel (open_msg o) ∷ [], length (0 ∷ 1 ∷ bs))
  unfolding decode_unframed byte_is framed decode_open_message
  open-decode flags o v h =
      let bs = OpenTrip.bytes x k flags o in
      rw
        (
          leb-true 3 (length (0 ∷ 1 ∷ bs)) (omega (arith, open-long flags o h)),
          leb-false (length bs) 5 (open-long flags o h),
          OpenTrip.decode-bytes x k flags o v,
        )
        (ap (λ (n : ℕ). ok (new x o.channel (open_msg o) ∷ [], n)) (omega arith))

  open-RoundTrips :
      (fill : ℕ) (o : Open)
      → OpenTrip.IsValid x k o
      → length o.discovery_key ≡ 32
      → RoundTrips x fill (new x o.channel (open_msg o) ∷ [])
  open-RoundTrips fill o v h =
      let n = length (OpenTrip.bytes x k 0 o) in
      let (flags, filled) =
        open-encode o fill fill (replicate n fill) v (length-replicate n fill) in
      (
        2 + n,
        0 ∷ 1 ∷ OpenTrip.bytes x k flags o,
        open-size 0 o v,
        rw (two_more n fill) filled,
        vec_decode-whole x _ _ (open-decode flags o v h) (omega arith),
      )

  -- Every frame that may be sent (values in range; one message on a channel that is not 0, a batch of
  -- messages on one channel, an `Open` with a discovery key of 32 bytes, or a `Close`) has a size, is encoded in a buffer of that size, and is decoded to
  -- what was encoded, with nothing left over.
  pub frame-RoundTrips :
      (fill : ℕ) (ms : List (ChannelMessage x)) → IsSendable ms → RoundTrips x fill ms
  frame-RoundTrips fill ms (plain _ v) = plain-RoundTrips fill ms v
  frame-RoundTrips fill ms (opens o v h) = open-RoundTrips fill o v h
  frame-RoundTrips fill ms (closes c v) = close-RoundTrips fill c v
