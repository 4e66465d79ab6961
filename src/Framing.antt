-- ===== src/Framing.antt =====
-- Frames of src/message.rs: a list of channel messages as one encrypted message carries it
-- (`decode_unframed_channel_messages` and the trait `VecEncodable`).
pub mod Encode
pub mod RoundTrip
pub mod Frames
pub mod Ends
pub mod Total
pub mod ChannelChange
use hypercore_protocol_rs.Prelude.{
  ℕ, zero, suc, ◌-◌, ◌+◌, leb, ltb, ◌==◌, Bool, true, false, ◌&&◌, if◌then◌else◌, List, [], ◌∷◌,
  ◌++◌, get_elem?, drop, length, Result, ok, err, panic, stuck, io, invalid_data, encoding,
  external, some, none, ◌>>=◌,
}
use hypercore_protocol_rs.Wire.{Bytes, Encoder, Decoder, CompactEncoding, External, ◌⨟◌, ◌⊕◌}
use hypercore_protocol_rs.Message
use hypercore_protocol_rs.Message.{Message, open_msg, close_msg, is_open_or_close}
use hypercore_protocol_rs.ChannelMessage
use hypercore_protocol_rs.ChannelMessage.{
  ChannelMessage, decode_open_message, decode_close_message, decode_from_channel_and_message,
  decode_with_channel,
}

abbrev pub open_message_prefix : Bytes
open_message_prefix = 0 ∷ 1 ∷ []

abbrev pub close_message_prefix : Bytes
close_message_prefix = 0 ∷ 3 ∷ []

abbrev pub multi_message_prefix : Bytes
multi_message_prefix = 0 ∷ 0 ∷ []

abbrev pub channel_change_separator : Bytes
channel_change_separator = 0 ∷ []

-- `buf[i] == v`, where `i` is in range.
pub byte_is : ℕ → ℕ → Bytes → Bool
byte_is i v buf = elim (get_elem? buf i) [ none ↦ false | some b ↦ b == v ]

module _ (x : External) where
  -- A change of channel, and a message behind its length, in a batch.
  pub change_size : ℕ → ChannelMessage x → Result ℕ
  change_size current m =
      if m.channel == current then ok 0 else (ok 1 ⊕ x.u64.encoded_size m.channel)

  pub message_size : ChannelMessage x → Result ℕ
  message_size m = do n ← Message.encoded_size x m.message; l ← x.u64.encoded_size n; ok (n + l)

  -- After each round the current channel is that of the message.
  pub batch_size : ℕ → List (ChannelMessage x) → Result ℕ
  batch_size current [] = ok 0
  batch_size current (m ∷ ms) = (change_size current m ⊕ message_size m) ⊕ batch_size m.channel ms

  -- `vec_channel_messages_encoded_size`
  pub vec_encoded_size : List (ChannelMessage x) → Result ℕ
  vec_encoded_size [] = ok 0
  vec_encoded_size (m ∷ []) =
      if is_open_or_close m.message
      then (ok 2 ⊕ ChannelMessage.encoded_size x m)
      else ChannelMessage.encoded_size x m
  vec_encoded_size (m ∷ n ∷ ms) =
      (ok 2 ⊕ x.u64.encoded_size m.channel) ⊕ batch_size m.channel (m ∷ n ∷ ms)

  pub encode_change : ℕ → ChannelMessage x → Encoder
  encode_change current m rest =
      if m.channel == current
      then ok ([], rest)
      else (x.write_array channel_change_separator ⨟ x.u64.encode m.channel) rest

  pub encode_length : ChannelMessage x → Encoder
  encode_length m rest = do n ← Message.encoded_size x m.message; x.u64.encode n rest

  pub encode_batch : ℕ → List (ChannelMessage x) → Encoder
  encode_batch current [] = λ rest. ok ([], rest)
  encode_batch current (m ∷ ms) =
      (encode_change current m ⨟ encode_length m ⨟ Message.encode x m.message)
      ⨟ encode_batch m.channel ms

  pub encode_prefix : ℕ → Message x → Encoder
  encode_prefix channel (open_msg m) = x.write_array open_message_prefix
  encode_prefix channel (close_msg m) = x.write_array close_message_prefix
  encode_prefix channel _ = x.u64.encode channel

  pub vec_encode : List (ChannelMessage x) → Encoder
  vec_encode [] = λ rest. ok ([], rest)
  vec_encode (m ∷ []) = encode_prefix m.channel m.message ⨟ Message.encode x m.message
  vec_encode (m ∷ n ∷ ms) =
      (x.write_array multi_message_prefix ⨟ x.u64.encode m.channel)
      ⨟ encode_batch m.channel (m ∷ n ∷ ms)

  -- `if !buf.is_empty() && buf[0] == 0x00 { (current_channel, buf) = u64::decode(buf)?; }`
  pub next_channel : ℕ → Decoder ℕ
  next_channel current buf = if byte_is 0 0 buf then x.u64.decode buf else ok (current, buf)

  -- `while !buf.is_empty()` of a batch, with the messages so far.
  pub batch_loop : ℕ → ℕ → List (ChannelMessage x) → Decoder (List (ChannelMessage x))
  batch_loop fuel current messages [] = ok (messages, [])
  batch_loop zero current messages (b ∷ buf) = stuck
  batch_loop (suc fuel) current messages (b ∷ buf) = do
    (n, rest) ← x.decode_usize (b ∷ buf)
    (message, rest) ←
        if ltb (length rest) n then err (io invalid_data) else decode_with_channel x current rest
    (next, rest) ← next_channel current rest
    batch_loop fuel next (messages ++ (message ∷ [])) rest

  -- Each round takes a byte at least, so the length is fuel enough.
  pub decode_batch : Bytes → Result (List (ChannelMessage x) × ℕ)
  decode_batch buf = do
    (_, rest) ← x.take_array 2 buf
    (current, rest) ← x.u64.decode rest
    (messages, left) ← batch_loop (length rest) current [] rest
    ok (messages, length buf - length left)

  -- `Ok((vec![channel_message], length + 2))`
  pub framed : Result (ChannelMessage x × ℕ) → Result (List (ChannelMessage x) × ℕ)
  framed decoded = do (m, n) ← decoded; ok (m ∷ [], n + 2)

  pub decode_single : Bytes → Result (List (ChannelMessage x) × ℕ)
  decode_single buf = do
    (m, rest) ← decode_from_channel_and_message x buf
    ok (m ∷ [], length buf - length rest)

  -- `decode_unframed_channel_messages`
  pub decode_unframed : Bytes → Result (List (ChannelMessage x) × ℕ)
  decode_unframed buf =
      if leb 3 (length buf) && byte_is 0 0 buf
      then (if byte_is 1 0 buf
          then decode_batch buf
          else if byte_is 1 1 buf
          then framed (decode_open_message x (drop 2 buf))
          else if byte_is 1 3 buf
          then framed (decode_close_message x (drop 2 buf))
          else err (io invalid_data))
      else if leb 2 (length buf)
      then decode_single buf
      else err (io invalid_data)

  -- `.map_err(|e| EncodingError::external(…))`
  pub map_external {ℓ} : {A : Type ℓ} → Result A → Result A
  map_external (ok a) = ok a
  map_external (err e) = err (encoding external)
  map_external panic = panic
  map_external stuck = stuck

  -- `&rest[length..]`
  pub slice_from : ℕ → Bytes → Result Bytes
  slice_from n buf = if leb n (length buf) then ok (drop n buf) else panic

  pub vec_loop : ℕ → List (ChannelMessage x) → Decoder (List (ChannelMessage x))
  vec_loop fuel combined [] = ok (combined, [])
  vec_loop zero combined (b ∷ rest) = stuck
  vec_loop (suc fuel) combined (b ∷ rest) = do
    (messages, n) ← map_external (decode_unframed (b ∷ rest))
    left ← slice_from n (b ∷ rest)
    vec_loop fuel (combined ++ messages) left

  pub vec_decode : Decoder (List (ChannelMessage x))
  vec_decode buffer = vec_loop (length buffer) [] buffer

  abbrev pub codec : CompactEncoding (List (ChannelMessage x))
  codec = record { encoded_size = vec_encoded_size; encode = vec_encode; decode = vec_decode }
