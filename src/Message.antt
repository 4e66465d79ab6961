-- ===== src/Message.antt =====
-- The enumeration `Message` of src/message.rs and its codec. `open_msg`, `close_msg` and `data_msg` are
-- the constructors `Open`, `Close` and `Data`.
pub mod RoundTrip
pub mod Control
pub mod Total
pub mod Name
use hypercore_protocol_rs.Prelude.{
  ℕ, Bool, true, false, ◌==◌, if◌then◌else◌, [], Result, ok, err, panic, encoding, invalid_type,
  ◌>>=◌,
}
use hypercore_protocol_rs.Wire.{Bytes, Encoder, Decoder, CompactEncoding, External, ◌⨟◌, ◌⊕◌}
use hypercore_protocol_rs.Schema.Open
use hypercore_protocol_rs.Schema.Open.{Open}
use hypercore_protocol_rs.Schema.Close
use hypercore_protocol_rs.Schema.Close.{Close}
use hypercore_protocol_rs.Schema.Synchronize
use hypercore_protocol_rs.Schema.Synchronize.{Synchronize}
use hypercore_protocol_rs.Schema.Request
use hypercore_protocol_rs.Schema.Request.{Request}
use hypercore_protocol_rs.Schema.Cancel
use hypercore_protocol_rs.Schema.Cancel.{Cancel}
use hypercore_protocol_rs.Schema.Data
use hypercore_protocol_rs.Schema.Data.{Data}
use hypercore_protocol_rs.Schema.NoData
use hypercore_protocol_rs.Schema.NoData.{NoData}
use hypercore_protocol_rs.Schema.Want
use hypercore_protocol_rs.Schema.Want.{Want}
use hypercore_protocol_rs.Schema.Unwant
use hypercore_protocol_rs.Schema.Unwant.{Unwant}
use hypercore_protocol_rs.Schema.Bitfield
use hypercore_protocol_rs.Schema.Bitfield.{Bitfield}
use hypercore_protocol_rs.Schema.Range
use hypercore_protocol_rs.Schema.Range.{Range}
use hypercore_protocol_rs.Schema.Extension
use hypercore_protocol_rs.Schema.Extension.{Extension}

pub data Message (x : External) : Type 0 where
  open_msg : Open → Message x
  close_msg : Close → Message x
  synchronize : Synchronize → Message x
  request : Request x → Message x
  cancel : Cancel → Message x
  data_msg : Data x → Message x
  no_data : NoData → Message x
  want : Want → Message x
  unwant : Unwant → Message x
  bitfield : Bitfield → Message x
  range : Range → Message x
  extension : Extension → Message x
  -- A name and data. It is never sent.
  local_signal : Bytes → Bytes → Message x

module _ {x : External} where
  -- `matches!(message, Message::Open(_) | Message::Close(_))`
  unfoldable pub is_open_or_close : Message x → Bool
  is_open_or_close (open_msg m) = true
  is_open_or_close (close_msg m) = true
  is_open_or_close _ = false

  -- The wire type; a message that has none is a panic.
  pub typ : Message x → Result ℕ
  typ (synchronize m) = ok 0
  typ (request m) = ok 1
  typ (cancel m) = ok 2
  typ (data_msg m) = ok 3
  typ (no_data m) = ok 4
  typ (want m) = ok 5
  typ (unwant m) = ok 6
  typ (bitfield m) = ok 7
  typ (range m) = ok 8
  typ (extension m) = ok 9
  typ _ = panic

module _ (x : External) where
  typ_size : Message x → Result ℕ
  typ_size m = if is_open_or_close m then ok 0 else (do t ← typ m; x.u64.encoded_size t)

  msg_size : Message x → Result ℕ
  msg_size (open_msg m) = Open.encoded_size x m
  msg_size (close_msg m) = Close.encoded_size x m
  msg_size (synchronize m) = Synchronize.encoded_size x m
  msg_size (request m) = Request.encoded_size x m
  msg_size (cancel m) = Cancel.encoded_size x m
  msg_size (data_msg m) = Data.encoded_size x m
  msg_size (no_data m) = NoData.encoded_size x m
  msg_size (want m) = Want.encoded_size x m
  msg_size (unwant m) = Unwant.encoded_size x m
  msg_size (bitfield m) = Bitfield.encoded_size x m
  msg_size (range m) = Range.encoded_size x m
  msg_size (extension m) = Extension.encoded_size x m
  msg_size (local_signal name data') = ok 0

  pub encoded_size : Message x → Result ℕ
  encoded_size m = typ_size m ⊕ msg_size m

  encode_typ : Message x → Encoder
  encode_typ m buffer =
      if is_open_or_close m then ok ([], buffer) else (do t ← typ m; x.u64.encode t buffer)

  encode_msg : Message x → Encoder
  encode_msg (open_msg m) = Open.encode x m
  encode_msg (close_msg m) = Close.encode x m
  encode_msg (synchronize m) = Synchronize.encode x m
  encode_msg (request m) = Request.encode x m
  encode_msg (cancel m) = Cancel.encode x m
  encode_msg (data_msg m) = Data.encode x m
  encode_msg (no_data m) = NoData.encode x m
  encode_msg (want m) = Want.encode x m
  encode_msg (unwant m) = Unwant.encode x m
  encode_msg (bitfield m) = Bitfield.encode x m
  encode_msg (range m) = Range.encode x m
  encode_msg (extension m) = Extension.encode x m
  encode_msg (local_signal name data') = λ rest. panic

  pub encode : Message x → Encoder
  encode m = encode_typ m ⨟ encode_msg m

  -- The macro `decode_message!`.
  decode_message : {A : Type 0} → (A → Message x) → Decoder A → Decoder (Message x)
  decode_message from decode buf = do (m, rest) ← decode buf; ok (from m, rest)

  decode_typ : ℕ → Decoder (Message x)
  decode_typ t rest =
      if t == 0
      then decode_message synchronize (Synchronize.decode x) rest
      else if t == 1
      then decode_message request (Request.decode x) rest
      else if t == 2
      then decode_message cancel (Cancel.decode x) rest
      else if t == 3
      then decode_message data_msg (Data.decode x) rest
      else if t == 4
      then decode_message no_data (NoData.decode x) rest
      else if t == 5
      then decode_message want (Want.decode x) rest
      else if t == 6
      then decode_message unwant (Unwant.decode x) rest
      else if t == 7
      then decode_message bitfield (Bitfield.decode x) rest
      else if t == 8
      then decode_message range (Range.decode x) rest
      else if t == 9
      then decode_message extension (Extension.decode x) rest
      else err (encoding invalid_type)

  pub decode : Decoder (Message x)
  decode buffer = do (t, rest) ← x.u64.decode buffer; decode_typ t rest

  abbrev pub codec : CompactEncoding (Message x)
  codec = record { encoded_size = encoded_size; encode = encode; decode = decode }
