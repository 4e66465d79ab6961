-- ===== src/Message/Name.antt =====
-- The names of messages (src/message.rs).
use hypercore_protocol_rs.Wire.{External}
use hypercore_protocol_rs.Message.{
  Message, open_msg, close_msg, synchronize, request, cancel, data_msg, no_data, want, unwant,
  bitfield, range, extension, local_signal,
}
use Prim.Native.String.{String}

-- `Message::name`
abbrev pub name : {x : External} → Message x → String
name (open_msg m) = "Open"
name (close_msg m) = "Close"
name (synchronize m) = "Synchronize"
name (request m) = "Request"
name (cancel m) = "Cancel"
name (data_msg m) = "Data"
name (no_data m) = "NoData"
name (want m) = "Want"
name (unwant m) = "Unwant"
name (bitfield m) = "Bitfield"
name (range m) = "Range"
name (extension m) = "Extension"
name (local_signal n d) = "LocalSignal"
