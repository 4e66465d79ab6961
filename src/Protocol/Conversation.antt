-- ===== src/Protocol/Conversation.antt =====
-- Two ends of a connection (src/protocol.rs): what the users of a channel send at one end, and what the
-- channel's user at the other end reads.
pub mod Sender
pub mod Receiver
use mathlib.Core.List.{flatten, map-append}
use hypercore_protocol_rs.Prelude.{
  ℕ, ◌<◌, ◌≡◌, refl, sym, ap, ◌∙◌, subst, some, List, [], ◌∷◌, ◌++◌, map, length, All, All-append,
  Result, ok,
}
use hypercore_protocol_rs.Wire.{Bytes, External}
use hypercore_protocol_rs.Wire.Contract.{Contract}
use hypercore_protocol_rs.Message.{Message}
use hypercore_protocol_rs.Message.RoundTrip as Trip
use hypercore_protocol_rs.ChannelMessage.{ChannelMessage, new as new_message}
use hypercore_protocol_rs.Platform.{Platform}
use hypercore_protocol_rs.Channels.Handle.{Channel, ChannelHandle}
use hypercore_protocol_rs.Channels.Map
use hypercore_protocol_rs.Channels.Inbound.{QueueLaws, reads, reads-contents}
use hypercore_protocol_rs.Framing.Encode.{IsPlain}
use hypercore_protocol_rs.MessageIo.{MessageIo}
use hypercore_protocol_rs.MessageIo.Sendable.{MaySend}
use hypercore_protocol_rs.MessageIo.Log.{SendLog, received}
use hypercore_protocol_rs.MessageIo.Drain.{Accepts}
use hypercore_protocol_rs.MessageIo.Transfer.{Arrivals}
use hypercore_protocol_rs.Protocol.State.{Protocol}
use hypercore_protocol_rs.Protocol.Step.{poll_outbound_write, poll_inbound_read}
use hypercore_protocol_rs.Protocol.Inbound.{IsForwarded, with_queues}
use hypercore_protocol_rs.Protocol.Conversation.Sender.{OnChannel, poll_outbound_write-Sends}
use hypercore_protocol_rs.Protocol.Conversation.Receiver.{
  Quiet, Receives, poll_inbound_read-Receives,
}

module _ {x : External} (p : Platform x) (k : Contract x) where
  -- A message that fits on the channel `c`, with its values in range.
  abbrev pub Fits : ℕ → Message x → Type 0
  Fits c m = IsPlain x k (new_message x c m)

  plain-IsForwarded : (m : Message x) → Trip.IsPlain x k m → IsForwarded p m
  plain-IsForwarded m v = Trip.plain-not-open_or_close x k m v

  All-IsForwarded : (c : ℕ) (ms : List (Message x)) → All (Fits c) ms → All (IsForwarded p) ms
  All-IsForwarded c [] vs = tt
  All-IsForwarded c (m ∷ ms) (v, vs) = (plain-IsForwarded m v.0, All-IsForwarded c ms vs)

  All-flatten :
      (c : ℕ) (batches : List (List (Message x)))
      → All {0, 0} (λ ms. All (Fits c) ms) batches
      → All (Fits c) (flatten batches)
  unfolding flatten
  All-flatten c [] vs = tt
  All-flatten c (ms ∷ batches) (v, vs) =
      All-append (Fits c) ms (flatten batches) v (All-flatten c batches vs)

module _ {x : External} where
  -- The batches on a channel, as a user sends them.
  abbrev pub on_channel : ℕ → List (List (Message x)) → List (List (ChannelMessage x))
  on_channel c batches = map (map (new_message x c)) batches

  flatten-on_channel :
      (c : ℕ) (batches : List (List (Message x)))
      → flatten (on_channel c batches) ≡ map (new_message x c) (flatten batches)
  unfolding flatten
  flatten-on_channel c [] = refl
  flatten-on_channel c (ms ∷ batches) =
      ap (λ (l : List (ChannelMessage x)). map (new_message x c) ms ++ l)
        (flatten-on_channel c batches)
      ∙ sym (map-append (new_message x c) ms (flatten batches))

module _ {x : External} (p : Platform x) (k : Contract x) (c : ℕ) where
  All-map :
      (ms : List (Message x))
      → All (Fits p k c) ms
      → All (OnChannel x k c) (map (new_message x c) ms)
  All-map [] vs = tt
  All-map (m ∷ ms) (v, vs) = ((v, refl), All-map ms vs)

  on_channel-OnChannel :
      (batches : List (List (Message x)))
      → All {0, 0} (λ ms. All (Fits p k c) ms) batches
      → All {0, 0} (λ ms. All (OnChannel x k c) ms) (on_channel c batches)
  on_channel-OnChannel [] vs = tt
  on_channel-OnChannel (ms ∷ batches) (v, vs) = (All-map ms v, on_channel-OnChannel batches vs)

module _ {x : External} (p : Platform x) (k : Contract x) (log : SendLog p) (acc : Accepts p)
    (laws : QueueLaws p) (arrivals : Arrivals p) (quiet : Quiet p arrivals) where
  -- What the poll of the sender has put on the stream.
  sender :
      (c : ℕ) (batches : List (List (Message x))) (s : Protocol p) (frames : List Bytes)
      → 0 < c
      → s.io.write_queue ≡ []
      → s.outbound_rx ≡ on_channel c batches
      → All {0, 0} (λ ms. All (Fits p k c) ms) batches
      → log.sent s.io.stream ≡ []
      → log.sent (poll_outbound_write p s).1.io.stream ≡ frames
      → ((poll_outbound_write p s).0 ≡ ok tt)
        × (received x frames ≡ ok (map (new_message x c) (flatten batches)))
  sender c batches s frames pos idle waits fit fresh sent_frames =
      let (done, empty, (frames', sends, read)) =
        poll_outbound_write-Sends p k log acc c pos s
          (subst (λ (l : List (ChannelMessage x)). All (MaySend x k c) l) (sym idle) tt)
          (subst
            (λ (l : List (List (ChannelMessage x))). All {0, 0} (λ ms. All (OnChannel x k c) ms) l)
            (sym waits) (on_channel-OnChannel p k c batches fit)) in
      let same : frames ≡ frames' =
        sym sent_frames ∙ sends ∙ ap (λ (l : List Bytes). l ++ frames') fresh in
      let all : s.io.write_queue ++ flatten s.outbound_rx
          ≡ map (new_message x c) (flatten batches) =
        ap (λ (l : List (ChannelMessage x)). l ++ flatten s.outbound_rx) idle
        ∙ ap flatten waits
        ∙ flatten-on_channel c batches in
      (done, ap (received x) same ∙ read ∙ ap ok all)

  -- At one end nothing waits to be sent but batches of ordinary messages of the users of one channel, whose
  -- id is not 0, with values in range. It polls over a stream that accepts every frame, and the call succeeds.
  -- At the other end, at whose stream exactly the frames that this poll sent arrive, the channel is open on
  -- that remote id, and its queue is empty and has a receiver. A poll with more fuel than frames succeeds
  -- there, changes nothing but the inbound queues and the io layer, and then as many polls of the channel as
  -- there are messages yield the messages of all batches in their order.
  pub poll_outbound_write-poll_inbound_read :
      (c rx fuel : ℕ) (batches : List (List (Message x))) (s t : Protocol p) (frames : List Bytes)
      → (h : ChannelHandle) (ch : Channel) → 0 < c
      → s.io.write_queue ≡ []
      → s.outbound_rx ≡ on_channel c batches
      → All {0, 0} (λ ms. All (Fits p k c) ms) batches
      → log.sent s.io.stream ≡ []
      → log.sent (poll_outbound_write p s).1.io.stream ≡ frames
      → arrivals.arrived t.io.stream ≡ frames
      → quiet.Only t.io.stream
      → length frames < fuel
      → Map.get_remote p c t.channels ≡ some h
      → h.inbound_tx ≡ some rx
      → ch.inbound_rx ≡ some rx
      → laws.HasReceiver rx t.channels.queues
      → laws.contents rx t.channels.queues ≡ []
      → ((poll_outbound_write p s).0 ≡ ok tt)
        × ((io : MessageIo p) × (q : p.Queues) × (poll_inbound_read p fuel t
              ≡ (ok tt, with_queues p q (record t { io = io })))
            × (reads p (length (flatten batches)) ch q ≡ flatten batches))
  poll_outbound_write-poll_inbound_read c rx fuel batches s t frames h ch pos idle waits fit fresh
        sent_frames arrive only enough present is_open mine receives empty =
      let ms = flatten batches in
      let (done, read) = sender c batches s frames pos idle waits fit fresh sent_frames in
      let r =
        poll_inbound_read-Receives p laws arrivals quiet frames fuel c rx ms t h enough only arrive
          read present is_open receives
          (All-IsForwarded p k c ms (All-flatten p k c batches fit)) in
      let holds = r.puts ∙ ap (λ (l : List (Message x)). l ++ ms) empty in
      (done, (r.io, r.queues, r.ends, reads-contents p laws ms ch rx r.queues mine holds))
