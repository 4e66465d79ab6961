-- ===== src/Protocol/CloseExchange/Sender.antt =====
-- The sender of a `Close`: `poll_outbound_write` of src/protocol.rs when a channel's user has closed it.
use hypercore_protocol_rs.Prelude.{
  ℕ, ◌<◌, ◌≡◌, refl, sym, ap, ◌∙◌, subst, inl, inr, true, if◌then◌else◌, some, List, [], ◌∷◌, ◌++◌,
  All, ok, append_assoc,
}
use hypercore_protocol_rs.Wire.{Bytes, External}
use hypercore_protocol_rs.Wire.Contract.{Contract}
use hypercore_protocol_rs.Schema.Close.{Close}
use hypercore_protocol_rs.Schema.Close
use hypercore_protocol_rs.Message.{close_msg}
use hypercore_protocol_rs.ChannelMessage.{ChannelMessage, new as new_message}
use hypercore_protocol_rs.Platform.{Platform}
use hypercore_protocol_rs.Channels.Handle.{ChannelHandle}
use hypercore_protocol_rs.Channels.Map
use hypercore_protocol_rs.Channels.Map.{ChannelMap}
use hypercore_protocol_rs.Channels.Map.Invariant.{IsMap}
use hypercore_protocol_rs.MessageIo.{MessageIo}
use hypercore_protocol_rs.MessageIo
use hypercore_protocol_rs.MessageIo.Sendable.{MaySend, closing}
use hypercore_protocol_rs.MessageIo.Log.{SendLog, received}
use hypercore_protocol_rs.MessageIo.Drain.{Accepts, poll_outbound-drains}
use hypercore_protocol_rs.Protocol.State.{Protocol, pure, ◌>>=◌, ◌>>◌}
use hypercore_protocol_rs.Protocol.Step.{
  on_outbound_message, retain, enqueue_all, send_messages, drive, set_outbound_rx, outbound_write,
  poll_outbound, poll_outbound_write,
}
use hypercore_protocol_rs.Protocol.Results.{bind-step}
use hypercore_protocol_rs.Protocol.OnClose.{Closed, closed_state, on_outbound_message-Closed}
use hypercore_protocol_rs.Protocol.Conversation.Sender.{behind, enqueue_all-behind, received-append}

-- The `Close` of a channel, as its user sends it.
module _ {x : External} where
  abbrev pub close_of : ℕ → ChannelMessage x
  close_of c = new_message x c (close_msg (record { channel = c }))

module _ {x : External} (p : Platform x) (E : Type 0) where
  closes :
      (c : ℕ) (s : Protocol p) (h : ChannelHandle)
      → IsMap p E s.channels
      → Map.get_local p c s.channels ≡ some h
      → (m : ChannelMap p) × Closed p E h m
        × (on_outbound_message p (close_of c) s ≡ (ok true, closed_state p E h m s))
  closes c s h v present = elim (on_outbound_message-Closed p E c (record { channel = c }) s v) [
    | inl (unknown, same) ↦ cc
    | inr (h', m, found, shut, runs) ↦
        let e : h' ≡ h = cc in
        (
          m,
          subst (λ (h : ChannelHandle). Closed p E h m) e shut,
          runs ∙ ap (λ (h : ChannelHandle). (ok true, closed_state p E h m s)) e,
        )
  ]

  send_messages-closes :
      (c : ℕ) (s : Protocol p) (h : ChannelHandle) (m : ChannelMap p)
      → on_outbound_message p (close_of c) s ≡ (ok true, closed_state p E h m s)
      → send_messages p (close_of c ∷ []) s
        ≡ (ok tt, behind p (close_of c ∷ []) (closed_state p E h m s))
  unfolding send_messages retain
  send_messages-closes c s h m runs =
      let s1 = closed_state p E h m s in
      let kept : retain p (close_of c ∷ []) s ≡ (ok (close_of c ∷ []), s1) =
        bind-step (on_outbound_message p (close_of c))
          (λ keep. do rest ← retain p []; pure (if keep then close_of c ∷ rest else rest)) s s1 true
          runs in
      bind-step (retain p (close_of c ∷ [])) (λ kept. enqueue_all p kept) s s1 (close_of c ∷ [])
        kept
      ∙ enqueue_all-behind p (close_of c ∷ []) s1

module _ {x : External} (p : Platform x) (k : Contract x) (log : SendLog p) (acc : Accepts p)
    (c : ℕ) (pos : 0 < c) where
  -- A drive: nothing but the io layer changes, and the frames that the stream took are decoded to what
  -- waited.
  record Drives (s : Protocol p) : Type 0 where
    io : MessageIo p
    ends : drive p s ≡ (ok tt, record s { io = io })
    empty : io.write_queue ≡ []
    frames : List Bytes
    sends : log.sent io.stream ≡ log.sent s.io.stream ++ frames
    reads : received x frames ≡ ok s.io.write_queue

  drive-Drives : (s : Protocol p) → All (MaySend x k c) s.io.write_queue → Drives s
  unfolding drive poll_outbound
  drive-Drives s may =
      let (done, empty, (frames, sends, reads)) = poll_outbound-drains p k log acc c s.io pos may in
      record {
        io = (MessageIo.poll_outbound p s.io).1;
        ends = rw (drive, poll_outbound, done) refl;
        empty = empty;
        frames = frames;
        sends = sends;
        reads = reads;
      }

  -- The state after the call, and the frames that the stream took.
  pub record SendsClose (E : Type 0) (h : ChannelHandle) (s : Protocol p) : Type 0 where
    pub io : MessageIo p
    pub map : ChannelMap p
    pub shut : Closed p E h map
    pub ends :
        poll_outbound_write p s
        ≡ (ok tt, closed_state p E h map (record s { io = io; outbound_rx = [] }))
    pub frames : List Bytes
    pub sends : log.sent io.stream ≡ log.sent s.io.stream ++ frames
    pub reads : received x frames ≡ ok (close_of c ∷ [])

  pub poll_outbound_write-SendsClose :
      (E : Type 0) (s : Protocol p) (h : ChannelHandle)
      → Close.IsValid (record { channel = c })
      → IsMap p E s.channels
      → Map.get_local p c s.channels ≡ some h
      → s.io.write_queue ≡ []
      → s.outbound_rx ≡ (close_of c ∷ []) ∷ []
      → SendsClose E h s
  unfolding poll_outbound_write outbound_write
  poll_outbound_write-SendsClose E s h fits v present idle waits =
      let first =
        drive-Drives s
          (subst (λ (l : List (ChannelMessage x)). All (MaySend x k c) l) (sym idle) tt) in
      let s1 : Protocol p = record s { io = first.io } in
      let s2 : Protocol p = record s1 { outbound_rx = [] } in
      let (m, shut, runs) = closes p E c s2 h v present in
      let s3 = behind p (close_of c ∷ []) (closed_state p E h m s2) in
      let queued : s3.io.write_queue ≡ close_of c ∷ [] =
        ap (λ (l : List (ChannelMessage x)). l ++ (close_of c ∷ [])) first.empty in
      let second = drive-Drives s3 (
        subst (λ (l : List (ChannelMessage x)). All (MaySend x k c) l) (sym queued)
          (closing (record { channel = c }) fits, tt)) in
      record {
        io = second.io;
        map = m;
        shut = shut;
        ends =
            ap (λ (l : List (List (ChannelMessage x))). outbound_write p l s) waits
            ∙ bind-step (drive p)
                (λ u. set_outbound_rx p [] >> (send_messages p (close_of c ∷ []) >> drive p)) s s1
                tt first.ends
            ∙ bind-step (send_messages p (close_of c ∷ [])) (λ u. drive p) s2 s3 tt
                (send_messages-closes p E c s2 h m runs)
            ∙ second.ends;
        frames = first.frames ++ second.frames;
        sends =
            second.sends
            ∙ ap (λ (l : List Bytes). l ++ second.frames) first.sends
            ∙ append_assoc (log.sent s.io.stream) first.frames second.frames;
        reads =
            received-append x first.frames second.frames [] (close_of c ∷ [])
              (first.reads ∙ ap ok idle) (second.reads ∙ ap ok queued);
      }
