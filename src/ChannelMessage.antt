-- ===== src/ChannelMessage.antt =====
-- `ChannelMessage` of src/message.rs: a message on a channel, alone in its frame.
use hypercore_protocol_rs.Prelude.{
  ℕ, ◌-◌, leb, if◌then◌else◌, [], Result, ok, err, io, unexpected_eof, ◌>>=◌, length,
}
use hypercore_protocol_rs.Wire.{Bytes, Encoder, Decoder, CompactEncoding, External, ◌⨟◌, ◌⊕◌}
use hypercore_protocol_rs.Schema.Open
use hypercore_protocol_rs.Schema.Close
use hypercore_protocol_rs.Message
use hypercore_protocol_rs.Message.{Message, open_msg, close_msg, is_open_or_close}

pub record ChannelMessage (x : External) : Type 0 where
  pub channel : ℕ
  pub message : Message x

module _ (x : External) where
  -- `ChannelMessage::new`
  abbrev pub new : ℕ → Message x → ChannelMessage x
  new channel message = record { channel = channel; message = message }

  abbrev pub into_split : ChannelMessage x → ℕ × Message x
  into_split m = (m.channel, m.message)

  unfoldable pub channel_size : ChannelMessage x → Result ℕ
  channel_size m = if is_open_or_close m.message then ok 0 else x.u64.encoded_size m.channel

  unfoldable pub encoded_size : ChannelMessage x → Result ℕ
  encoded_size m = channel_size m ⊕ Message.encoded_size x m.message

  unfoldable pub encode_channel : ChannelMessage x → Encoder
  encode_channel m buffer =
      if is_open_or_close m.message then ok ([], buffer) else x.u64.encode m.channel buffer

  unfoldable pub encode : ChannelMessage x → Encoder
  encode m = encode_channel m ⨟ Message.encode x m.message

  -- An `Open` alone in its frame, without the prefix: the message and the bytes it took. The
  -- slice that a decoder leaves is never longer than its input, so `-` is exact here.
  unfoldable pub decode_open_message : Bytes → Result (ChannelMessage x × ℕ)
  decode_open_message buf = if leb (length buf) 5 then err (io unexpected_eof) else (do
    (m, rest) ← Open.decode x buf
    ok (new m.channel (open_msg m), length buf - length rest))

  unfoldable pub decode_close_message : Bytes → Result (ChannelMessage x × ℕ)
  decode_close_message buf = if leb (length buf) 0 then err (io unexpected_eof) else (do
    (m, rest) ← Close.decode x buf
    ok (new m.channel (close_msg m), length buf - length rest))

  unfoldable pub decode_from_channel_and_message : Decoder (ChannelMessage x)
  decode_from_channel_and_message buf = do
    (channel, rest) ← x.u64.decode buf
    (message, rest) ← Message.decode x rest
    ok (new channel message, rest)

  unfoldable pub decode_with_channel : ℕ → Decoder (ChannelMessage x)
  decode_with_channel channel buf =
      if leb (length buf) 1
      then err (io unexpected_eof)
      else (do (message, rest) ← Message.decode x buf; ok (new channel message, rest))

  abbrev pub codec : CompactEncoding (ChannelMessage x)
  codec = record {
    encoded_size = encoded_size;
    encode = encode;
    decode = decode_from_channel_and_message;
  }
