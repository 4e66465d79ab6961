-- ===== src/MessageIo/Log.antt =====
-- The stream of src/mqueue.rs seen through the frames it has taken, and what the receiver decodes from
-- them.
use hypercore_protocol_rs.Prelude.{
  ◌≡◌, refl, sym, ap, ◌∙◌, List, [], ◌∷◌, ◌++◌, append_assoc, append-nil, Result, ok, err, panic,
  stuck, ◌>>=◌,
}
use hypercore_protocol_rs.Wire.{Bytes, External}
use hypercore_protocol_rs.Wire.Contract.{Contract}
use hypercore_protocol_rs.ChannelMessage.{ChannelMessage}
use hypercore_protocol_rs.Platform.{Platform, Poll, ready, pending}
use hypercore_protocol_rs.Framing.{vec_decode}
use hypercore_protocol_rs.MessageIo.{MessageIo}

-- The frames a stream has taken. A frame that is handed to `start_send` without an error is taken, the
-- other functions take none.
pub record SendLog {x : External} (p : Platform x) : Type 0 where
  pub sent : p.Stream → List Bytes
  pub poll_ready-sent : (s : p.Stream) → sent (p.poll_ready s).1 ≡ sent s
  pub start_send-sent :
      (bs : Bytes) (s : p.Stream)
      → (p.start_send bs s).0 ≡ ok tt
      → sent (p.start_send bs s).1 ≡ sent s ++ (bs ∷ [])
  pub poll_flush-sent : (s : p.Stream) → sent (p.poll_flush s).1 ≡ sent s

-- A result that is no panic, and a poll that gives none.
abbrev pub Answers : Result (Unit {0}) → Type 0
Answers (ok u) = Unit
Answers (err e) = Unit
Answers _ = ⊥

abbrev pub PollAnswers : Poll (Result (Unit {0})) → Type 0
PollAnswers pending = Unit
PollAnswers (ready r) = Answers r

-- The stream answers every call with a value or an error.
pub record Sound {x : External} (p : Platform x) : Type 0 where
  pub poll_ready-Answers : (s : p.Stream) → PollAnswers (p.poll_ready s).0
  pub start_send-Answers : (bs : Bytes) (s : p.Stream) → Answers (p.start_send bs s).0
  pub poll_flush-Answers : (s : p.Stream) → PollAnswers (p.poll_flush s).0

-- The messages of frames, as the receiver decodes them one after the other.
unfoldable pub received : (x : External) → List Bytes → Result (List (ChannelMessage x))
received x [] = ok []
received x (frame ∷ frames) = do
  (ms, _) ← vec_decode x frame
  rest ← received x frames
  ok (ms ++ rest)

module _ {x : External} (p : Platform x) (k : Contract x) (log : SendLog p) where
  -- The stream took frames between the two states. The messages that are decoded from them, and those
  -- still waiting, are the ones that waited before, in order.
  pub record Conserves (io io' : MessageIo p) : Type 0 where
    pub frames : List Bytes
    pub messages : List (ChannelMessage x)
    pub taken : log.sent io'.stream ≡ log.sent io.stream ++ frames
    pub decoded : received x frames ≡ ok messages
    pub queue : io.write_queue ≡ messages ++ io'.write_queue

  -- What a poll leaves behind, unless it returns an error.
  abbrev pub Outcome : MessageIo p → Poll (Result (Unit {0})) × MessageIo p → Type 0
  Outcome io (pending, io') = Conserves io io'
  Outcome io (ready (ok u), io') = Conserves io io'
  Outcome io (ready (err e), io') = Unit
  Outcome io (ready panic, io') = ⊥
  Outcome io (ready stuck, io') = ⊥

  pub Conserves-idle :
      (io : MessageIo p) (stream : p.Stream)
      → log.sent stream ≡ log.sent io.stream
      → Conserves io (record io { stream = stream })
  unfolding received
  Conserves-idle io stream e = record {
    frames = [];
    messages = [];
    taken = e ∙ sym (append-nil (log.sent io.stream));
    decoded = refl;
    queue = refl;
  }

  -- A frame of the front messages, and what is sent after it.
  pub Conserves-frame :
      (io io1 io' : MessageIo p) (bs : Bytes) (ms : List (ChannelMessage x))
      → log.sent io1.stream ≡ log.sent io.stream ++ (bs ∷ [])
      → vec_decode x bs ≡ ok (ms, [])
      → io.write_queue ≡ ms ++ io1.write_queue
      → Conserves io1 io'
      → Conserves io io'
  unfolding received
  Conserves-frame io io1 io' bs ms sends reads front c = record {
    frames = bs ∷ c.frames;
    messages = ms ++ c.messages;
    taken =
        c.taken
        ∙ ap (λ (l : List Bytes). l ++ c.frames) sends
        ∙ append_assoc (log.sent io.stream) (bs ∷ []) c.frames;
    decoded = rw (received, reads, c.decoded);
    queue =
        front
        ∙ ap (λ (l : List (ChannelMessage x)). ms ++ l) c.queue
        ∙ sym (append_assoc ms c.messages io'.write_queue);
  }
