-- ===== src/Framing/RoundTrip.antt =====
-- Decoding of frames (src/message.rs) on what `vec_encode` wrote: a single message, and a batch on one
-- channel.
use hypercore_protocol_rs.Prelude.{
  ℕ, zero, suc, ◌≤◌, ◌<◌, ◌≡◌, ◌≢◌, refl, sym, ap, ◌∙◌, Bool-cases, true, false, ◌==◌, ltb,
  leb-false, leb-true, &&-false, subst, ltb-false, ==-self, List, [], ◌∷◌, ◌++◌, append_assoc,
  append-nil, All, length, length-append, ok, inl, inr, arith, drop_all,
}
use hypercore_protocol_rs.Wire.{Bytes, External}
use hypercore_protocol_rs.Wire.Contract.{Contract, IsU64}
use hypercore_protocol_rs.Message
use hypercore_protocol_rs.Message.RoundTrip as Trip
use hypercore_protocol_rs.ChannelMessage.{
  ChannelMessage, decode_with_channel, decode_from_channel_and_message,
}
use hypercore_protocol_rs.Framing.{
  byte_is, next_channel, batch_loop, decode_batch, decode_single, decode_unframed, map_external,
  slice_from, vec_loop, vec_decode,
}
use hypercore_protocol_rs.Framing.Encode.{IsPlain, item_bytes, batch_bytes, frame_bytes}

module _ (x : External) (k : Contract x) where
  -- "This works because of LE encoding, and channels starting from the index 1."
  pub u64_head : (v : ℕ) → 0 < v → (b : ℕ) × (bs : Bytes) × (k.u64_bytes v ≡ b ∷ bs) × (b ≢ 0)
  u64_head v h = elim (Bool-cases (ltb v 253)) [
    | inl small ↦ (v, [], k.u64_small v (ground arith), ground arith)
    | inr large ↦ k.u64_large v (ground arith)
  ]

  pub u64-byte_is : (v : ℕ) (tail : Bytes) → 0 < v → byte_is 0 0 (k.u64_bytes v ++ tail) ≡ false
  unfolding byte_is
  u64-byte_is v tail h = let (b, bs, e, ne) = u64_head v h in rw e (ground arith)

  -- At the next message of the same channel, and at the end.
  next_channel-item :
      (current : ℕ) (m : ChannelMessage x) (tail : Bytes)
      → IsPlain x k m
      → next_channel x current (item_bytes x k m ++ tail) ≡ ok (current, item_bytes x k m ++ tail)
  unfolding next_channel
  next_channel-item current m tail v =
      let n = length (Trip.bytes x k m.message) in
      let long : 0 < n = omega (arith, Trip.bytes-length x k m.message v.0) in
      let head : byte_is 0 0 (item_bytes x k m ++ tail) ≡ false =
        rw (append_assoc (k.u64_bytes n) (Trip.bytes x k m.message) tail)
          (u64-byte_is n (Trip.bytes x k m.message ++ tail) long) in
      rw head

  next_channel-end : (current : ℕ) → next_channel x current [] ≡ ok (current, [])
  unfolding next_channel byte_is
  next_channel-end current = refl

  pub decode_with_channel-bytes :
      (m : ChannelMessage x) (rest : Bytes)
      → IsPlain x k m
      → decode_with_channel x m.channel (Trip.bytes x k m.message ++ rest) ≡ ok (m, rest)
  unfolding decode_with_channel
  decode_with_channel-bytes m rest v =
      let bs = Trip.bytes x k m.message in
      let long : 1 < length (bs ++ rest) =
        omega (arith, Trip.bytes-length x k m.message v.0, length-append bs rest) in
      rw (leb-false _ _ long, (Trip.message-Encodes x k m.message v.0).reads rest)

  -- One round of the loop, from what its steps give.
  pub batch_loop-step :
      (fuel current n next : ℕ) (acc : List (ChannelMessage x)) (m : ChannelMessage x)
      (buf rest rest' rest'' : Bytes)
      → x.decode_usize buf ≡ ok (n, rest)
      → n ≤ length rest
      → decode_with_channel x current rest ≡ ok (m, rest')
      → next_channel x current rest' ≡ ok (next, rest'')
      → batch_loop x (suc fuel) current acc buf ≡ batch_loop x fuel next (acc ++ (m ∷ [])) rest''
  unfolding batch_loop
  batch_loop-step fuel current n next acc m [] rest rest' rest'' read fits decoded change =
      elim (k.usize_answers []) [
        | inl (n', left, read', shorter) ↦ absurd (omega arith)
        | inr (e, failed) ↦ cc
      ]
  batch_loop-step fuel current n next acc m (b ∷ buf) rest rest' rest'' read fits decoded change =
      rw (read, ltb-false _ _ fits, decoded, change)

  -- The messages of a batch on one channel, each behind its length.
  abbrev items_bytes : List (ChannelMessage x) → Bytes
  items_bytes [] = []
  items_bytes (m ∷ ms) = item_bytes x k m ++ items_bytes ms

  batch_bytes-items :
      (c : ℕ) (ms : List (ChannelMessage x))
      → All (λ m. m.channel ≡ c) ms
      → batch_bytes x k c ms ≡ items_bytes ms
  batch_bytes-items c [] h = refl
  batch_bytes-items c (m ∷ ms) h =
      let same : (m.channel == c) ≡ true = rw (← h.0) (==-self m.channel) in
      rw same (ap (λ (t : Bytes). item_bytes x k m ++ t) (rw h.0 (batch_bytes-items c ms h.1)))

  next_channel-items :
      (c : ℕ) (ms : List (ChannelMessage x))
      → All (IsPlain x k) ms
      → next_channel x c (items_bytes ms) ≡ ok (c, items_bytes ms)
  next_channel-items c [] v = next_channel-end c
  next_channel-items c (m ∷ ms) v = next_channel-item c m (items_bytes ms) v.0

  pub item-length :
      (m : ChannelMessage x) (tail : Bytes)
      → IsPlain x k m
      → suc (length tail) ≤ length (item_bytes x k m ++ tail)
  item-length m tail v =
      let bs = Trip.bytes x k m.message in
      omega (
        arith,
        length-append (item_bytes x k m) tail,
        length-append (k.u64_bytes (length bs)) bs,
        Trip.bytes-length x k m.message v.0,
      )

  pub item-reads :
      (m : ChannelMessage x) (tail : Bytes)
      → IsPlain x k m
      → x.decode_usize (item_bytes x k m ++ tail)
        ≡ ok (length (Trip.bytes x k m.message), Trip.bytes x k m.message ++ tail)
  item-reads m tail v =
      let bs = Trip.bytes x k m.message in
      rw
        (append_assoc (k.u64_bytes (length bs)) bs tail, k.usize_reads (length bs) v.2 (bs ++ tail))

  -- A batch on one channel is read back, with as much fuel as it has bytes.
  batch_loop-items :
      (fuel c : ℕ) (acc ms : List (ChannelMessage x))
      → All (IsPlain x k) ms
      → All (λ m. m.channel ≡ c) ms
      → length (items_bytes ms) ≤ fuel
      → batch_loop x fuel c acc (items_bytes ms) ≡ ok (acc ++ ms, [])
  batch_loop-items fuel c acc [] v h le = unfold batch_loop in rw append-nil refl
  batch_loop-items zero c acc (m ∷ ms) v h le =
      absurd (omega (arith, item-length m (items_bytes ms) v.0))
  batch_loop-items (suc fuel) c acc (m ∷ ms) v h le =
      let bs = Trip.bytes x k m.message in
      let tail = items_bytes ms in
      let fits : length bs ≤ length (bs ++ tail) = omega (arith, length-append bs tail) in
      let decoded : decode_with_channel x c (bs ++ tail) ≡ ok (m, tail) =
        rw (← h.0) (decode_with_channel-bytes m tail v.0) in
      let shorter : length tail ≤ fuel = omega (arith, item-length m tail v.0, le) in
      batch_loop-step fuel c (length bs) c acc m _ (bs ++ tail) tail tail (item-reads m tail v.0)
        fits decoded (next_channel-items c ms v.1)
      ∙ batch_loop-items fuel c (acc ++ (m ∷ [])) ms v.1 h.1 shorter
      ∙ rw (append_assoc acc (m ∷ []) ms)

  decode_batch-bytes :
      (c : ℕ) (ms : List (ChannelMessage x))
      → IsU64 c
      → All (IsPlain x k) ms
      → All (λ m. m.channel ≡ c) ms
      → let buf = 0 ∷ 0 ∷ (k.u64_bytes c ++ items_bytes ms) in
        decode_batch x buf ≡ ok (ms, length buf)
  unfolding decode_batch
  decode_batch-bytes c ms hc v h =
      rw
        (
          k.take_array_lem (0 ∷ 0 ∷ []) (k.u64_bytes c ++ items_bytes ms),
          (k.u64_lem c hc).reads (items_bytes ms),
          batch_loop-items (length (items_bytes ms)) c [] ms v h (omega arith),
        )
        (ap (λ (n : ℕ). ok (ms, n)) (omega arith))

  -- The frames that the encoder makes of plain messages and the decoder reads back: none, one on a
  -- channel from 1 on, or several on one channel.
  abbrev pub IsFrame : List (ChannelMessage x) → Type 0
  IsFrame [] = Unit {0}
  IsFrame (m ∷ []) = IsPlain x k m × (0 < m.channel)
  IsFrame (m ∷ n ∷ ms) = All (IsPlain x k) (m ∷ n ∷ ms) × All (λ o. o.channel ≡ m.channel) (n ∷ ms)

  message-reads_all :
      (m : ChannelMessage x)
      → IsPlain x k m
      → Message.decode x (Trip.bytes x k m.message) ≡ ok (m.message, [])
  message-reads_all m v = rw append-nil at ((Trip.message-Encodes x k m.message v.0).reads [])

  decode_single-bytes :
      (m : ChannelMessage x)
      → IsPlain x k m
      → decode_single x (frame_bytes x k (m ∷ [])) ≡ ok (m ∷ [], length (frame_bytes x k (m ∷ [])))
  unfolding decode_single decode_from_channel_and_message
  decode_single-bytes m v =
      rw ((k.u64_lem m.channel v.1).reads (Trip.bytes x k m.message), message-reads_all m v)
        (ap (λ (n : ℕ). ok (m ∷ [], n)) (omega arith))

  decode_unframed-single :
      (m : ChannelMessage x)
      → IsFrame (m ∷ [])
      → decode_unframed x (frame_bytes x k (m ∷ []))
        ≡ ok (m ∷ [], length (frame_bytes x k (m ∷ [])))
  unfolding decode_unframed
  decode_unframed-single m v =
      let c = k.u64_bytes m.channel in
      let bs = Trip.bytes x k m.message in
      let long : 2 ≤ length (c ++ bs) =
        omega (arith, length-append c bs, Trip.bytes-length x k m.message v.0.0) in
      rw (u64-byte_is m.channel bs v.1, &&-false, leb-true _ _ long) (decode_single-bytes m v.0)

  pub decode_unframed-multi :
      (rest : Bytes)
      → 0 < length rest
      → decode_unframed x (0 ∷ 0 ∷ rest) ≡ decode_batch x (0 ∷ 0 ∷ rest)
  unfolding decode_unframed byte_is
  decode_unframed-multi rest h = rw (leb-true 3 (length (0 ∷ 0 ∷ rest)) (omega arith))

  decode_unframed-batch :
      (m n : ChannelMessage x) (ms : List (ChannelMessage x))
      → IsFrame (m ∷ n ∷ ms)
      → decode_unframed x (frame_bytes x k (m ∷ n ∷ ms))
        ≡ ok (m ∷ n ∷ ms, length (frame_bytes x k (m ∷ n ∷ ms)))
  decode_unframed-batch m n ms v =
      let c = m.channel in
      let all = m ∷ n ∷ ms in
      let same : All (λ o. o.channel ≡ c) all = (refl, v.1) in
      let split : frame_bytes x k all ≡ 0 ∷ 0 ∷ (k.u64_bytes c ++ items_bytes all) =
        ap (λ (t : Bytes). 0 ∷ 0 ∷ (k.u64_bytes c ++ t)) (batch_bytes-items c all same) in
      let long : 0 < length (k.u64_bytes c ++ items_bytes all) = omega (
        arith,
        length-append (k.u64_bytes c) (items_bytes all),
        item-length m (items_bytes (n ∷ ms)) v.0.0,
      ) in
      subst (λ (t : Bytes). decode_unframed x t ≡ ok (all, length t)) (sym split)
        (decode_unframed-multi _ long ∙ decode_batch-bytes c all v.0.0.1 v.0 same)

-- One frame that `decode_unframed` takes whole.
pub vec_decode-whole :
    (x : External) (buf : Bytes) (ms : List (ChannelMessage x))
    → decode_unframed x buf ≡ ok (ms, length buf)
    → 0 < length buf
    → vec_decode x buf ≡ ok (ms, [])
unfolding vec_decode vec_loop map_external slice_from
vec_decode-whole x [] ms h pos = absurd (omega arith)
vec_decode-whole x (b ∷ buf) ms h pos =
    rw (h, leb-true (length (b ∷ buf)) (length (b ∷ buf)) (omega arith), drop_all (b ∷ buf))

module _ (x : External) (k : Contract x) where
  frame_length :
      (m : ChannelMessage x) (ms : List (ChannelMessage x))
      → All (IsPlain x k) (m ∷ ms)
      → 0 < length (frame_bytes x k (m ∷ ms))
  frame_length m [] v = omega (
    arith,
    length-append (k.u64_bytes m.channel) (Trip.bytes x k m.message),
    Trip.bytes-length x k m.message v.0.0,
  )
  frame_length m (n ∷ ms) v = omega arith

  pub vec_decode-frame_bytes :
      (ms : List (ChannelMessage x))
      → IsFrame x k ms
      → vec_decode x (frame_bytes x k ms) ≡ ok (ms, [])
  vec_decode-frame_bytes [] v = unfold vec_decode vec_loop in refl
  vec_decode-frame_bytes (m ∷ []) v =
      vec_decode-whole x _ (m ∷ []) (decode_unframed-single x k m v) (frame_length m [] (v.0, tt))
  vec_decode-frame_bytes (m ∷ n ∷ ms) v =
      vec_decode-whole x _ (m ∷ n ∷ ms) (decode_unframed-batch x k m n ms v)
        (frame_length m (n ∷ ms) v.0)
