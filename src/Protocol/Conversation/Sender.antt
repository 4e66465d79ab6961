-- ===== src/Protocol/Conversation/Sender.antt =====
-- The sender: `poll_outbound_write` of src/protocol.rs over a stream that accepts every frame.
use hypercore_protocol_rs.Prelude.{
  ℕ, ◌<◌, ◌≡◌, refl, sym, ap, ◌∙◌, subst, true, if◌then◌else◌, List, [], ◌∷◌, ◌++◌, append_assoc,
  append-nil, All, Result, ok, >>=-eq-ok,
}
use mathlib.Core.List.{flatten}
use hypercore_protocol_rs.Wire.{Bytes, External}
use hypercore_protocol_rs.Wire.Contract.{Contract}
use hypercore_protocol_rs.Message.{
  Message, synchronize, request, cancel, data_msg, no_data, want, unwant, bitfield, range,
  extension, open_msg, close_msg, local_signal,
}
use hypercore_protocol_rs.Message.RoundTrip as Trip
use hypercore_protocol_rs.ChannelMessage.{ChannelMessage}
use hypercore_protocol_rs.Framing.{vec_decode}
use hypercore_protocol_rs.Framing.Encode.{IsPlain}
use hypercore_protocol_rs.Platform.{Platform}
use hypercore_protocol_rs.MessageIo.{MessageIo}
use hypercore_protocol_rs.MessageIo
use hypercore_protocol_rs.MessageIo.Sendable.{MaySend, ordinary}
use hypercore_protocol_rs.MessageIo.Log.{SendLog, received}
use hypercore_protocol_rs.MessageIo.Drain.{Accepts, poll_outbound-drains}
use hypercore_protocol_rs.Protocol.State.{Protocol, ◌>>=◌, ◌>>◌, pure, enqueue}
use hypercore_protocol_rs.Protocol.Step.{
  on_outbound_message, retain, enqueue_all, send_messages, drive, set_outbound_rx, outbound_write,
  poll_outbound, poll_outbound_write,
}
use hypercore_protocol_rs.Protocol.Results.{bind-step}

module _ (x : External) where
  pub received-append :
      (frames gs : List Bytes) (ms ns : List (ChannelMessage x))
      → received x frames ≡ ok ms
      → received x gs ≡ ok ns
      → received x (frames ++ gs) ≡ ok (ms ++ ns)
  unfolding received
  received-append [] gs ms ns h k = let none_sent : [] ≡ ms = cc in rw (← none_sent) k
  received-append (frame ∷ frames) gs ms ns h k =
      let (front, read, split) = >>=-eq-ok (vec_decode x frame) _ h in
      let (rest, read', joined) = >>=-eq-ok (received x frames) _ split in
      let whole : front.0 ++ rest ≡ ms = cc in
      rw (received, read, received-append frames gs rest ns read' k)
        (ap ok (
          sym (append_assoc front.0 rest ns) ∙ ap (λ (l : List (ChannelMessage x)). l ++ ns) whole))

module _ {x : External} (p : Platform x) (k : Contract x) where
  on_outbound_message-plain :
      (m : ChannelMessage x) (s : Protocol p)
      → Trip.IsPlain x k m.message
      → on_outbound_message p m s ≡ (ok true, s)
  unfolding on_outbound_message
  on_outbound_message-plain m s v = go m.channel m.message v
    where
      go :
          (channel : ℕ) (msg : Message x)
          → Trip.IsPlain x k msg
          → on_outbound_message p (record { channel = channel; message = msg }) s ≡ (ok true, s)
      go channel (synchronize a) v = refl
      go channel (request a) v = refl
      go channel (cancel a) v = refl
      go channel (data_msg a) v = refl
      go channel (no_data a) v = refl
      go channel (want a) v = refl
      go channel (unwant a) v = refl
      go channel (bitfield a) v = refl
      go channel (range a) v = refl
      go channel (extension a) v = refl
      go channel (open_msg a) v = absurd v
      go channel (close_msg a) v = absurd v
      go channel (local_signal n d) v = absurd v

  retain-plain :
      (ms : List (ChannelMessage x)) (s : Protocol p)
      → All (IsPlain x k) ms
      → retain p ms s ≡ (ok ms, s)
  unfolding retain
  retain-plain [] s vs = refl
  retain-plain (m ∷ ms) s (v, vs) =
      bind-step (on_outbound_message p m)
        (λ keep. do rest ← retain p ms; pure (if keep then m ∷ rest else rest)) s s true
        (on_outbound_message-plain m s v.0)
      ∙ bind-step (retain p ms) (λ rest. pure (m ∷ rest)) s s ms (retain-plain ms s vs)

module _ {x : External} (p : Platform x) where
  -- The state with messages behind the write queue.
  abbrev pub behind : List (ChannelMessage x) → Protocol p → Protocol p
  behind ms s = record s {
    io = record { stream = s.io.stream; write_queue = s.io.write_queue ++ ms };
  }

  pub enqueue_all-behind :
      (ms : List (ChannelMessage x)) (s : Protocol p) → enqueue_all p ms s ≡ (ok tt, behind ms s)
  unfolding enqueue_all enqueue MessageIo.enqueue
  enqueue_all-behind [] s =
      ap
        (λ (l : List (ChannelMessage x)).
          (ok tt, record s { io = record { stream = s.io.stream; write_queue = l } }))
        (sym (append-nil s.io.write_queue))
  enqueue_all-behind (m ∷ ms) s =
      enqueue_all-behind ms (behind (m ∷ []) s)
      ∙ ap
          (λ (l : List (ChannelMessage x)).
            (ok tt, record s { io = record { stream = s.io.stream; write_queue = l } }))
          (append_assoc s.io.write_queue (m ∷ []) ms)

module _ (x : External) (k : Contract x) (c : ℕ) where
  -- Ordinary messages on the channel `c`, with values in range.
  abbrev pub OnChannel : ChannelMessage x → Type 0
  OnChannel m = IsPlain x k m × (m.channel ≡ c)

  OnChannel-IsPlain : (ms : List (ChannelMessage x)) → All OnChannel ms → All (IsPlain x k) ms
  OnChannel-IsPlain [] vs = tt
  OnChannel-IsPlain (m ∷ ms) (v, vs) = (v.0, OnChannel-IsPlain ms vs)

  OnChannel-MaySend : (ms : List (ChannelMessage x)) → All OnChannel ms → All (MaySend x k c) ms
  OnChannel-MaySend [] vs = tt
  OnChannel-MaySend (m ∷ ms) (v, vs) = (ordinary m v.0 v.1, OnChannel-MaySend ms vs)

module _ {x : External} (p : Platform x) (k : Contract x) (log : SendLog p) (acc : Accepts p)
    (c : ℕ) (pos : 0 < c) where
  send_messages-behind :
      (ms : List (ChannelMessage x)) (s : Protocol p)
      → All (OnChannel x k c) ms
      → send_messages p ms s ≡ (ok tt, behind p ms s)
  unfolding send_messages
  send_messages-behind ms s vs =
      bind-step (retain p ms) (λ kept. enqueue_all p kept) s s ms
        (retain-plain p k ms s (OnChannel-IsPlain x k c ms vs))
      ∙ enqueue_all-behind p ms s

  -- The call succeeds, nothing waits to be sent, and the frames that the stream took are decoded to `ms`.
  abbrev pub Sends : List (ChannelMessage x) → Protocol p → Result (Unit {0}) × Protocol p → Type 0
  Sends ms s (r, s') =
      (r ≡ ok tt)
      × (s'.io.write_queue ≡ [])
      × ((frames : List Bytes) × (log.sent s'.io.stream ≡ log.sent s.io.stream ++ frames)
          × (received x frames ≡ ok ms))

  drive-Sends :
      (s : Protocol p) → All (MaySend x k c) s.io.write_queue → Sends s.io.write_queue s (drive p s)
  unfolding drive poll_outbound
  drive-Sends s may =
      let (done, empty, sends) = poll_outbound-drains p k log acc c s.io pos may in
      rw (drive, poll_outbound, done) (refl, empty, sends)

  -- Two calls that send one after the other.
  Sends-then :
      (ms ns : List (ChannelMessage x)) (s s1 : Protocol p) (r : Result (Unit {0}) × Protocol p)
      → ((frames : List Bytes) × (log.sent s1.io.stream ≡ log.sent s.io.stream ++ frames)
          × (received x frames ≡ ok ms))
      → Sends ns s1 r
      → Sends (ms ++ ns) s r
  Sends-then ms ns s s1 r (frames, sent, read) (done, empty, (frames', sent', read')) = (
    done,
    empty,
    (
      frames ++ frames',
      sent'
          ∙ ap (λ (l : List Bytes). l ++ frames') sent
          ∙ append_assoc (log.sent s.io.stream) frames frames',
      received-append x frames frames' ms ns read read',
    ),
  )

  outbound_write-Sends :
      (rx : List (List (ChannelMessage x))) (s : Protocol p)
      → All (MaySend x k c) s.io.write_queue
      → All {0, 0} (λ ms. All (OnChannel x k c) ms) rx
      → Sends (s.io.write_queue ++ flatten rx) s (outbound_write p rx s)
  unfolding outbound_write flatten
  outbound_write-Sends [] s may vs =
      subst (λ (l : List (ChannelMessage x)). Sends l s (drive p s))
        (sym (append-nil s.io.write_queue)) (drive-Sends s may)
  outbound_write-Sends (ms ∷ rest) s may (v, vs) =
      let s1 = (drive p s).1 in
      let s2 : Protocol p = record s1 { outbound_rx = rest } in
      let s3 = behind p ms s2 in
      let (done, empty, sends) = drive-Sends s may in
      let queued : s3.io.write_queue ≡ ms = ap (λ (l : List (ChannelMessage x)). l ++ ms) empty in
      let later =
        outbound_write-Sends rest s3
          (subst (λ (l : List (ChannelMessage x)). All (MaySend x k c) l) (sym queued)
            (OnChannel-MaySend x k c ms v))
          vs in
      let runs : outbound_write p (ms ∷ rest) s ≡ outbound_write p rest s3 =
        bind-step (drive p)
          (λ u. set_outbound_rx p rest >> (send_messages p ms >> outbound_write p rest)) s s1 tt
          (ap (λ (r : Result (Unit {0})). (r, s1)) done)
        ∙ bind-step (send_messages p ms) (λ u. outbound_write p rest) s2 s3 tt
            (send_messages-behind ms s2 v) in
      subst
        (λ (r : Result (Unit {0}) × Protocol p).
          Sends (s.io.write_queue ++ (ms ++ flatten rest)) s r)
        (sym runs)
        (Sends-then s.io.write_queue (ms ++ flatten rest) s s3 (outbound_write p rest s3) sends (
          subst
            (λ (l : List (ChannelMessage x)).
              Sends (l ++ flatten rest) s3 (outbound_write p rest s3))
            queued later))

  pub poll_outbound_write-Sends :
      (s : Protocol p)
      → All (MaySend x k c) s.io.write_queue
      → All {0, 0} (λ ms. All (OnChannel x k c) ms) s.outbound_rx
      → Sends (s.io.write_queue ++ flatten s.outbound_rx) s (poll_outbound_write p s)
  unfolding poll_outbound_write
  poll_outbound_write-Sends s may vs = outbound_write-Sends s.outbound_rx s may vs
