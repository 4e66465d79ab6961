-- ===== src/Tests/CloseExchange.antt =====
-- A user closes a channel at one end, whose local id is the remote id of the channel at the other end.
use hypercore_protocol_rs.Prelude.{
  suc, ◌≡◌, refl, inr, false, true, none, some, List, [], ◌∷◌, map, length, lookup, bytes_eq, ok,
  arith,
}
use hypercore_protocol_rs.Wire.{Bytes}
use hypercore_protocol_rs.Platform.{message}
use hypercore_protocol_rs.Channels.Handle.{ChannelHandle}
use hypercore_protocol_rs.Channels.Map
use hypercore_protocol_rs.Channels.Map.{ChannelMap}
use hypercore_protocol_rs.Channels.Map.Invariant.{IsMap}
use hypercore_protocol_rs.MessageIo.{MessageIo}
use hypercore_protocol_rs.Protocol.State.{Protocol}
use hypercore_protocol_rs.Protocol.Step.{poll_outbound_write, poll_inbound_read}
use hypercore_protocol_rs.Protocol.OnClose.{Closed, closed_state}
use hypercore_protocol_rs.Protocol.CloseExchange.{poll_outbound_write-closes}
use hypercore_protocol_rs.Protocol.CloseExchange.Sender.{close_of}
use hypercore_protocol_rs.Protocol.CloseExchange.Receiver.{ReadsClose}
use hypercore_protocol_rs.Tests.Rules.{rules}
use hypercore_protocol_rs.Tests.Host.{host}
use hypercore_protocol_rs.Tests.Data.{stream}
use hypercore_protocol_rs.Tests.Sending.{log, accepts, arrivals, leading-map}
use hypercore_protocol_rs.Tests.Receiving.{laws, open_handle, open_state, open_remote, open-IsMap}
use hypercore_protocol_rs.Tests.Conversation.{quiet, frames-Only}

abbrev local_handle : ChannelHandle
local_handle = record {
  discovery_key = 8 ∷ [];
  local_state = some (record { key = 5 ∷ []; local_id = 3 });
  remote_state = some (record { remote_id = 1; remote_capability = none });
  inbound_tx = some 0;
  closed = 0;
}

abbrev sender : Protocol host
sender = record {
  io = record { stream = stream; write_queue = [] };
  is_initiator = true;
  channels = record {
    channels = (8 ∷ [], local_handle) ∷ [];
    local_id = none ∷ none ∷ none ∷ some (8 ∷ []) ∷ [];
    remote_id = none ∷ some (8 ∷ []) ∷ [];
    flags = false ∷ [];
    queues = [] ∷ [];
  };
  command_rx = [];
  outbound_rx = (close_of 3 ∷ []) ∷ [];
  queued_events = [];
  handshake_emitted = true;
}

sender_local : Map.get_local host 3 sender.channels ≡ some local_handle
unfolding Map.get_local Map.id_key Map.key_handle lookup bytes_eq
sender_local = refl

sender-IsMap : IsMap host Unit sender.channels
sender-IsMap = record {
  entries = (
    record {
      under_key = refl;
      local_fits = (omega arith, omega arith);
      remote_fits = (omega arith, omega arith);
      flag_fits = omega arith;
      remote_when = inr tt;
    },
    tt,
  );
  zeroth = refl;
}

abbrev frames : List Bytes
frames = (poll_outbound_write host sender).1.io.stream.outgoing

abbrev receiver : Protocol host
receiver = record open_state {
  io = record { stream = record stream { incoming = map message frames }; write_queue = [] };
}

poll_outbound_write-closes_example :
    ((io : MessageIo host) × (m : ChannelMap host) × Closed host Unit local_handle m
      × (poll_outbound_write host sender ≡ (
        ok tt,
        closed_state host Unit local_handle m (record sender { io = io; outbound_rx = [] }),
      )))
    × ReadsClose host Unit open_handle receiver
        (poll_inbound_read host (suc (length frames)) receiver)
poll_outbound_write-closes_example =
    poll_outbound_write-closes host rules Unit Unit log accepts laws arrivals quiet 3 0
      (suc (length frames)) sender receiver local_handle open_handle frames (omega arith)
      (omega arith) sender-IsMap sender_local refl refl refl refl (leading-map frames)
      (frames-Only frames) (omega arith) open-IsMap open_remote refl (omega arith)
