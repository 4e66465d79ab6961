-- ===== src/Protocol/CloseExchange.antt =====
-- Two ends of a connection (src/protocol.rs): the `Close` of a channel's user at one end, and what it does
-- at both.
pub mod Sender
pub mod Receiver
use hypercore_protocol_rs.Prelude.{
  ℕ, ◌<◌, ◌≡◌, sym, ap, ◌∙◌, some, List, [], ◌∷◌, ◌++◌, length, Result, ok,
}
use hypercore_protocol_rs.Wire.{Bytes, External}
use hypercore_protocol_rs.Wire.Contract.{Contract}
use hypercore_protocol_rs.Schema.Close
use hypercore_protocol_rs.Platform.{Platform}
use hypercore_protocol_rs.Channels.Handle.{ChannelHandle}
use hypercore_protocol_rs.Channels.Map
use hypercore_protocol_rs.Channels.Map.{ChannelMap}
use hypercore_protocol_rs.Channels.Map.Invariant.{IsMap}
use hypercore_protocol_rs.Channels.Inbound.{QueueLaws}
use hypercore_protocol_rs.MessageIo.{MessageIo}
use hypercore_protocol_rs.MessageIo.Log.{SendLog, received}
use hypercore_protocol_rs.MessageIo.Drain.{Accepts}
use hypercore_protocol_rs.MessageIo.Transfer.{Arrivals}
use hypercore_protocol_rs.Protocol.State.{Protocol}
use hypercore_protocol_rs.Protocol.Step.{poll_outbound_write, poll_inbound_read}
use hypercore_protocol_rs.Protocol.OnClose.{Closed, closed_state}
use hypercore_protocol_rs.Protocol.Conversation.Receiver.{Quiet}
use hypercore_protocol_rs.Protocol.CloseExchange.Sender.{
  close_of, SendsClose, poll_outbound_write-SendsClose,
}
use hypercore_protocol_rs.Protocol.CloseExchange.Receiver.{ReadsClose, poll_inbound_read-ReadsClose}

module _ {x : External} (p : Platform x) (k : Contract x) (E E' : Type 0) (log : SendLog p)
    (acc : Accepts p) (laws : QueueLaws p) (arrivals : Arrivals p) (quiet : Quiet p arrivals) where
  -- At one end the user of a channel has closed it: its `Close`, and nothing else, waits to be sent. Its
  -- local id is not 0 and fits 64 bits. The end polls over a stream that accepts every frame; the call
  -- succeeds, and takes the channel from the map, sets its closed flag and queues exactly its close event.
  -- At the other end, at whose stream exactly the frames that this poll sent arrive, a channel is open on
  -- that remote id, and its queue has a receiver. A poll with more fuel than frames succeeds there, and it
  -- too takes its channel from the map, sets its closed flag and queues exactly its close event. The
  -- invariant of the channel map holds at both ends.
  pub poll_outbound_write-closes :
      (c tx fuel : ℕ) (s t : Protocol p) (h h' : ChannelHandle) (frames : List Bytes)
      → 0 < c
      → Close.IsValid (record { channel = c })
      → IsMap p E s.channels
      → Map.get_local p c s.channels ≡ some h
      → s.io.write_queue ≡ []
      → s.outbound_rx ≡ (close_of c ∷ []) ∷ []
      → log.sent s.io.stream ≡ []
      → log.sent (poll_outbound_write p s).1.io.stream ≡ frames
      → arrivals.arrived t.io.stream ≡ frames
      → quiet.Only t.io.stream
      → length frames < fuel
      → IsMap p E' t.channels
      → Map.get_remote p c t.channels ≡ some h'
      → h'.inbound_tx ≡ some tx
      → laws.HasReceiver tx t.channels.queues
      → ((io : MessageIo p) × (m : ChannelMap p) × Closed p E h m
          × (poll_outbound_write p s
              ≡ (ok tt, closed_state p E h m (record s { io = io; outbound_rx = [] }))))
        × ReadsClose p E' h' t (poll_inbound_read p fuel t)
  poll_outbound_write-closes c tx fuel s t h h' frames pos fits v present idle waits fresh
        sent_frames arrive only enough v' present' is_open receives =
      let r = poll_outbound_write-SendsClose p k log acc c pos E s h fits v present idle waits in
      let same : frames ≡ r.frames =
        sym sent_frames
        ∙ ap (λ (r : Result (Unit {0}) × Protocol p). log.sent r.1.io.stream) r.ends
        ∙ r.sends
        ∙ ap (λ (l : List Bytes). l ++ r.frames) fresh in
      (
        (r.io, r.map, r.shut, r.ends),
        poll_inbound_read-ReadsClose p E' laws arrivals quiet frames fuel c tx
            (record { channel = c }) t h' enough only arrive (ap (received x) same ∙ r.reads) v'
            present' is_open receives,
      )
