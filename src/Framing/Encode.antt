-- ===== src/Framing/Encode.antt =====
-- What `vec_encode` of src/message.rs writes, and that `vec_encoded_size` is its length: for a single
-- message and for a batch, also one over several channels.
use hypercore_protocol_rs.Prelude.{
  ℕ, ◌≡◌, refl, ap, Bool-cases, if◌then◌else◌, ◌==◌, List, [], ◌∷◌, ◌++◌, All, length,
  length-append, ok, inl, inr, arith,
}
use hypercore_protocol_rs.Wire.{Bytes, External, ◌⨟◌}
use hypercore_protocol_rs.Wire.Laws.{Writes, Writes-none, Writes-⨟, ⊕-length}
use hypercore_protocol_rs.Wire.Contract.{Contract, IsU64}
use hypercore_protocol_rs.Message.{Message, open_msg, close_msg}
use hypercore_protocol_rs.Message
use hypercore_protocol_rs.Message.RoundTrip as Trip
use hypercore_protocol_rs.ChannelMessage.{ChannelMessage, encoded_size, channel_size}
use hypercore_protocol_rs.Framing.{
  change_size, message_size, batch_size, vec_encoded_size, encode_change, encode_length,
  encode_batch, encode_prefix, vec_encode, multi_message_prefix,
}

module _ (x : External) (k : Contract x) where
  -- A message with a wire type whose fields and length are in range, on a channel.
  abbrev pub IsPlain : ChannelMessage x → Type 0
  IsPlain m =
      Trip.IsPlain x k m.message × IsU64 m.channel × IsU64 (length (Trip.bytes x k m.message))

  abbrev pub change_bytes : ℕ → ChannelMessage x → Bytes
  change_bytes current m = if m.channel == current then [] else 0 ∷ k.u64_bytes m.channel

  abbrev pub item_bytes : ChannelMessage x → Bytes
  item_bytes m = k.u64_bytes (length (Trip.bytes x k m.message)) ++ Trip.bytes x k m.message

  abbrev pub batch_bytes : ℕ → List (ChannelMessage x) → Bytes
  batch_bytes current [] = []
  batch_bytes current (m ∷ ms) =
      (change_bytes current m ++ item_bytes m) ++ batch_bytes m.channel ms

  change_size_lem :
      (current : ℕ) (m : ChannelMessage x)
      → IsU64 m.channel
      → change_size x current m ≡ ok (length (change_bytes current m))
  unfolding change_size
  change_size_lem current m v = elim (Bool-cases (m.channel == current)) [
    | inl same ↦ rw same
    | inr differs ↦ rw (differs, (k.u64_lem m.channel v).size) (ap ok (omega arith))
  ]

  change-Writes :
      (current : ℕ) (m : ChannelMessage x)
      → IsU64 m.channel
      → Writes (encode_change x current m) (change_bytes current m)
  unfolding encode_change
  change-Writes current m v = elim (Bool-cases (m.channel == current)) [
    | inl same ↦ rw same Writes-none
    | inr differs ↦ rw differs (
        Writes-⨟ _ _ (0 ∷ []) (k.u64_bytes m.channel) (k.write_array_lem (0 ∷ []))
          (k.u64_lem m.channel v).writes)
  ]

  message_size_lem :
      (m : ChannelMessage x) → IsPlain m → message_size x m ≡ ok (length (item_bytes m))
  unfolding message_size
  message_size_lem m v =
      let bs = Trip.bytes x k m.message in
      rw ((Trip.message-Encodes x k m.message v.0).size, (k.u64_lem (length bs) v.2).size)
        (ap ok (omega (arith, length-append (k.u64_bytes (length bs)) bs)))

  item-Writes :
      (m : ChannelMessage x)
      → IsPlain m
      → Writes (encode_length x m ⨟ Message.encode x m.message) (item_bytes m)
  item-Writes m v =
      let bs = Trip.bytes x k m.message in
      let body = Trip.message-Encodes x k m.message v.0 in
      Writes-⨟ _ _ (k.u64_bytes (length bs)) bs
        (unfold encode_length in rw body.size (k.u64_lem (length bs) v.2).writes) body.writes

  -- Within a batch, on any channels.
  batch_size_lem :
      (current : ℕ) (ms : List (ChannelMessage x))
      → All IsPlain ms
      → batch_size x current ms ≡ ok (length (batch_bytes current ms))
  unfolding batch_size
  batch_size_lem current [] v = refl
  batch_size_lem current (m ∷ ms) v =
      ⊕-length _ _ (change_bytes current m ++ item_bytes m) (batch_bytes m.channel ms)
        (⊕-length _ _ (change_bytes current m) (item_bytes m) (change_size_lem current m v.0.1)
          (message_size_lem m v.0))
        (batch_size_lem m.channel ms v.1)

  batch-Writes :
      (current : ℕ) (ms : List (ChannelMessage x))
      → All IsPlain ms
      → Writes (encode_batch x current ms) (batch_bytes current ms)
  unfolding encode_batch
  batch-Writes current [] v = Writes-none
  batch-Writes current (m ∷ ms) v =
      Writes-⨟ _ _ (change_bytes current m ++ item_bytes m) (batch_bytes m.channel ms)
        (Writes-⨟ _ _ (change_bytes current m) (item_bytes m) (change-Writes current m v.0.1)
          (item-Writes m v.0))
        (batch-Writes m.channel ms v.1)

  -- A list of plain messages as one frame.
  abbrev pub frame_bytes : List (ChannelMessage x) → Bytes
  frame_bytes [] = []
  frame_bytes (m ∷ []) = k.u64_bytes m.channel ++ Trip.bytes x k m.message
  frame_bytes (m ∷ n ∷ ms) =
      (multi_message_prefix ++ k.u64_bytes m.channel) ++ batch_bytes m.channel (m ∷ n ∷ ms)

  encode_prefix-plain :
      (channel : ℕ) (m : Message x)
      → Trip.IsPlain x k m
      → encode_prefix x channel m ≡ x.u64.encode channel
  unfolding encode_prefix
  encode_prefix-plain channel (open_msg m) v = absurd v
  encode_prefix-plain channel (close_msg m) v = absurd v
  encode_prefix-plain channel _ v = refl

  -- `vec_encoded_size` is the length of what `vec_encode` writes.
  pub vec_encoded_size-frame_bytes :
      (ms : List (ChannelMessage x))
      → All IsPlain ms
      → vec_encoded_size x ms ≡ ok (length (frame_bytes ms))
  unfolding vec_encoded_size encoded_size channel_size
  vec_encoded_size-frame_bytes [] v = refl
  vec_encoded_size-frame_bytes (m ∷ []) v = rw (Trip.plain-not-open_or_close x k m.message v.0.0) (
      ⊕-length _ _ (k.u64_bytes m.channel) (Trip.bytes x k m.message)
        (k.u64_lem m.channel v.0.1).size (Trip.message-Encodes x k m.message v.0.0).size)
  vec_encoded_size-frame_bytes (m ∷ n ∷ ms) v =
      ⊕-length _ _ (multi_message_prefix ++ k.u64_bytes m.channel)
        (batch_bytes m.channel (m ∷ n ∷ ms))
        (⊕-length _ _ multi_message_prefix (k.u64_bytes m.channel) refl
          (k.u64_lem m.channel v.0.1).size)
        (batch_size_lem m.channel (m ∷ n ∷ ms) v)

  pub vec_encode-frame_bytes :
      (ms : List (ChannelMessage x)) → All IsPlain ms → Writes (vec_encode x ms) (frame_bytes ms)
  unfolding vec_encode
  vec_encode-frame_bytes [] v = Writes-none
  vec_encode-frame_bytes (m ∷ []) v =
      Writes-⨟ _ _ (k.u64_bytes m.channel) (Trip.bytes x k m.message)
        (rw (encode_prefix-plain m.channel m.message v.0.0) (k.u64_lem m.channel v.0.1).writes)
        (Trip.message-Encodes x k m.message v.0.0).writes
  vec_encode-frame_bytes (m ∷ n ∷ ms) v =
      Writes-⨟ _ _ (multi_message_prefix ++ k.u64_bytes m.channel)
        (batch_bytes m.channel (m ∷ n ∷ ms))
        (Writes-⨟ _ _ multi_message_prefix (k.u64_bytes m.channel)
          (k.write_array_lem multi_message_prefix) (k.u64_lem m.channel v.0.1).writes)
        (batch-Writes m.channel (m ∷ n ∷ ms) v)

  -- For messages with a wire type, whose fields and lengths are in range, on any channels:
  -- `vec_encoded_size` is the length of what `vec_encode` writes, and in any buffer that starts with
  -- that many bytes `vec_encode` writes exactly these, and leaves the rest of the buffer.
  pub vec_encode-vec_encoded_size :
      (ms : List (ChannelMessage x)) (old rest : Bytes)
      → All IsPlain ms
      → length old ≡ length (frame_bytes ms)
      → (vec_encoded_size x ms ≡ ok (length old))
        × (vec_encode x ms (old ++ rest) ≡ ok (frame_bytes ms, rest))
  vec_encode-vec_encoded_size ms old rest v h =
      (rw h (vec_encoded_size-frame_bytes ms v), vec_encode-frame_bytes ms v old rest h)
