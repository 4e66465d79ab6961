-- ===== src/Protocol/CloseExchange/Receiver.antt =====
-- The receiver of a `Close`: `poll_inbound_read` of src/protocol.rs on frames that hold it alone.
use hypercore_protocol_rs.Prelude.{
  ℕ, zero, suc, ◌⊎◌, inl, inr, ◌<◌, ◌≡◌, refl, sym, ap, ◌∙◌, subst, some, List, [], ◌∷◌, ◌++◌,
  length, Result, ok, >>=-eq-ok, arith,
}
use hypercore_protocol_rs.Wire.{Bytes, External}
use hypercore_protocol_rs.Schema.Close.{Close}
use hypercore_protocol_rs.Message.{close_msg}
use hypercore_protocol_rs.ChannelMessage.{ChannelMessage, new as new_message}
use hypercore_protocol_rs.Framing.{vec_decode}
use hypercore_protocol_rs.Platform.{Platform, ready, pending}
use hypercore_protocol_rs.Channels.Handle.{ChannelHandle, try_send_inbound_tolerate_closed}
use hypercore_protocol_rs.Channels.Map
use hypercore_protocol_rs.Channels.Map.{ChannelMap, forward_inbound_message_tolerate_closed}
use hypercore_protocol_rs.Channels.Map.Invariant.{IsMap}
use hypercore_protocol_rs.Channels.Inbound.{QueueLaws}
use hypercore_protocol_rs.MessageIo.{MessageIo}
use hypercore_protocol_rs.MessageIo
use hypercore_protocol_rs.MessageIo.Log.{received}
use hypercore_protocol_rs.MessageIo.Transfer.{Arrivals, poll_inbound-frame, decoded-ok}
use hypercore_protocol_rs.Protocol.State.{Protocol}
use hypercore_protocol_rs.Protocol.Step.{
  poll_inbound_read, on_close, on_inbound_message, on_inbound_channel_messages,
}
use hypercore_protocol_rs.Protocol.Results.{bind-step}
use hypercore_protocol_rs.Protocol.OnClose.{
  Closed, closed_state, get_remote-lookup, on_close_found-Closed,
}
use hypercore_protocol_rs.Protocol.Conversation.Receiver.{
  Quiet, poll_inbound-pending, poll_inbound_read-step,
}

module _ {A : Type 0} where
  append-empty : (us vs : List A) → us ++ vs ≡ [] → (us ≡ []) × (vs ≡ [])
  append-empty [] vs e = (refl, e)
  append-empty (u ∷ us) vs e = cc

  append-single :
      (us vs : List A) (a : A)
      → us ++ vs ≡ a ∷ []
      → ((us ≡ []) × (vs ≡ a ∷ [])) ⊎ ((us ≡ a ∷ []) × (vs ≡ []))
  append-single [] vs a e = inl (refl, e)
  append-single (u ∷ us) vs a e =
      let head : u ≡ a = cc in
      let tail : us ++ vs ≡ [] = cc in
      let (none_here, none_behind) = append-empty us vs tail in
      inr (ap (λ (b : A). b ∷ us) head ∙ ap (λ (l : List A). a ∷ l) none_here, none_behind)

module _ {x : External} (p : Platform x) (E : Type 0) where
  -- The state after the read of a `Close` alone.
  abbrev pub ReadsClose : ChannelHandle → Protocol p → Result (Unit {0}) × Protocol p → Type 0
  ReadsClose h t r =
      (io : MessageIo p) × (m : ChannelMap p) × Closed p E h m
      × (r ≡ (ok tt, closed_state p E h m (record t { io = io })))

module _ {x : External} (p : Platform x) (E : Type 0) (laws : QueueLaws p) where
  tolerate-sent :
      (id tx : ℕ) (msg : Close) (m : ChannelMap p) (h : ChannelHandle)
      → Map.get_remote p id m ≡ some h
      → h.inbound_tx ≡ some tx
      → laws.HasReceiver tx m.queues
      → forward_inbound_message_tolerate_closed p id (close_msg msg) m
        ≡ ok (record m { queues = (p.try_send tx (close_msg msg) m.queues).1 })
  unfolding forward_inbound_message_tolerate_closed try_send_inbound_tolerate_closed
  tolerate-sent id tx msg m h present is_open receives =
      let (taken, put, still) = laws.try_send_lem tx (close_msg msg) m.queues receives in
      rw (
        forward_inbound_message_tolerate_closed, present, try_send_inbound_tolerate_closed, is_open,
        taken,
      )

  -- A batch of a `Close` alone.
  batch-Closed :
      (id tx : ℕ) (msg : Close) (t : Protocol p) (h : ChannelHandle)
      → IsMap p E t.channels
      → Map.get_remote p id t.channels ≡ some h
      → h.inbound_tx ≡ some tx
      → laws.HasReceiver tx t.channels.queues
      → (m : ChannelMap p) × Closed p E h m
        × (on_inbound_channel_messages p (new_message x id (close_msg msg) ∷ []) t
            ≡ (ok tt, closed_state p E h m t))
  unfolding on_inbound_channel_messages on_inbound_message on_close
  batch-Closed id tx msg t h v present is_open receives =
      let (k, entry) = get_remote-lookup p E id t.channels h present in
      let q = (p.try_send tx (close_msg msg) t.channels.queues).1 in
      let (m, shut, runs) =
        on_close_found-Closed p E id msg t k h q v entry
          (tolerate-sent id tx msg t.channels h present is_open receives) in
      let done : on_inbound_message p (new_message x id (close_msg msg)) t
          ≡ (ok tt, closed_state p E h m t) =
        rw (on_inbound_message, on_close, present) runs in
      (
        m,
        shut,
        bind-step (on_inbound_message p (new_message x id (close_msg msg)))
            (λ u. on_inbound_channel_messages p []) t (closed_state p E h m t) tt done,
      )

module _ {x : External} (p : Platform x) (E : Type 0) (laws : QueueLaws p) (arrivals : Arrivals p)
    (quiet : Quiet p arrivals) where
  -- The state that a poll hands on when it has read a frame.
  abbrev polled : ℕ → Protocol p → Protocol p
  polled n t = record t { io = (MessageIo.poll_inbound p (suc n) t.io).1 }

  -- A round on a frame whose messages are handled.
  round :
      (n : ℕ) (frame : Bytes) (frames : List Bytes) (ms : List (ChannelMessage x))
      → (bytes : Bytes) (t t' : Protocol p) → arrivals.arrived t.io.stream ≡ frame ∷ frames
      → quiet.Only t.io.stream
      → vec_decode x frame ≡ ok (ms, bytes)
      → on_inbound_channel_messages p ms (polled n t) ≡ (ok tt, t')
      → (poll_inbound_read p (suc n) t ≡ poll_inbound_read p n t')
        × (arrivals.arrived (polled n t).io.stream ≡ frames)
        × quiet.Only (polled n t).io.stream
  round n frame frames ms bytes t t' arrive only decoded runs =
      let (yields, left, moved) = poll_inbound-frame p arrivals n frame frames t.io arrive in
      (
        poll_inbound_read-step p laws arrivals quiet n t (ready (some (ok ms))) (
              yields
              ∙ ap (λ (r : Result (List (ChannelMessage x))). ready (some r))
                  (decoded-ok p arrivals frame bytes ms decoded))
            ∙ bind-step (on_inbound_channel_messages p ms) (λ u. poll_inbound_read p n) (polled n t)
                t' tt runs,
        left,
        subst quiet.Only (sym moved) (quiet.poll_next-Only t.io.stream only),
      )

  -- Frames without a message change nothing but the io layer.
  read_nothing :
      (frames : List Bytes) (n : ℕ) (t : Protocol p)
      → length frames < n
      → quiet.Only t.io.stream
      → arrivals.arrived t.io.stream ≡ frames
      → received x frames ≡ ok []
      → (io : MessageIo p) × (poll_inbound_read p n t ≡ (ok tt, record t { io = io }))
  unfolding received on_inbound_channel_messages
  read_nothing frames zero t enough only arrive read = absurd (omega arith)
  read_nothing [] (suc n) t enough only arrive read = (
    (polled n t).io,
    poll_inbound_read-step p laws arrivals quiet n t pending
        (poll_inbound-pending p laws arrivals quiet n t.io only arrive),
  )
  read_nothing (frame ∷ frames) (suc n) t enough only arrive read =
      let ((ms, bytes), decoded, split) = >>=-eq-ok (vec_decode x frame) _ read in
      let (back, read', joined) = >>=-eq-ok (received x frames) _ split in
      let whole : ms ++ back ≡ [] = cc in
      let (none_here, none_behind) = append-empty ms back whole in
      let runs : on_inbound_channel_messages p ms (polled n t) ≡ (ok tt, polled n t) =
        rw none_here in
      let (step, left, still) =
        round n frame frames ms bytes t (polled n t) arrive only decoded runs in
      let (io, rest) =
        read_nothing frames n (polled n t) (omega (arith, enough)) still left
          (read' ∙ ap ok none_behind) in
      (io, step ∙ rest)

  pub poll_inbound_read-ReadsClose :
      (frames : List Bytes) (n id tx : ℕ) (msg : Close) (t : Protocol p) (h : ChannelHandle)
      → length frames < n
      → quiet.Only t.io.stream
      → arrivals.arrived t.io.stream ≡ frames
      → received x frames ≡ ok (new_message x id (close_msg msg) ∷ [])
      → IsMap p E t.channels
      → Map.get_remote p id t.channels ≡ some h
      → h.inbound_tx ≡ some tx
      → laws.HasReceiver tx t.channels.queues
      → ReadsClose p E h t (poll_inbound_read p n t)
  unfolding received on_inbound_channel_messages
  poll_inbound_read-ReadsClose frames zero id tx msg t h enough only arrive read v present is_open
        receives =
      absurd (omega arith)
  poll_inbound_read-ReadsClose [] (suc n) id tx msg t h enough only arrive read v present is_open
        receives =
      cc
  poll_inbound_read-ReadsClose (frame ∷ frames) (suc n) id tx msg t h enough only arrive read v
        present is_open receives =
      let ((ms, bytes), decoded, split) = >>=-eq-ok (vec_decode x frame) _ read in
      let (back, read', joined) = >>=-eq-ok (received x frames) _ split in
      let whole : ms ++ back ≡ new_message x id (close_msg msg) ∷ [] = cc in
      let fewer : length frames < n = omega (arith, enough) in
      elim (append-single ms back _ whole) [
        | inl (none_here, behind) ↦
            let runs : on_inbound_channel_messages p ms (polled n t) ≡ (ok tt, polled n t) =
              rw none_here in
            let (step, left, still) =
              round n frame frames ms bytes t (polled n t) arrive only decoded runs in
            let (io, m, shut, rest) =
              poll_inbound_read-ReadsClose frames n id tx msg (polled n t) h fewer still left
                (read' ∙ ap ok behind) v present is_open receives in
            (io, m, shut, step ∙ rest)
        | inr (here, none_behind) ↦
            let (m, shut, closes) =
              batch-Closed p E laws id tx msg (polled n t) h v present is_open receives in
            let runs : on_inbound_channel_messages p ms (polled n t)
                ≡ (ok tt, closed_state p E h m (polled n t)) =
              ap (λ (l : List (ChannelMessage x)). on_inbound_channel_messages p l (polled n t))
                here
              ∙ closes in
            let (step, left, still) =
              round n frame frames ms bytes t (closed_state p E h m (polled n t)) arrive only
                decoded runs in
            let (io, rest) =
              read_nothing frames n (closed_state p E h m (polled n t)) fewer still left
                (read' ∙ ap ok none_behind) in
            (io, m, shut, step ∙ rest)
      ]
