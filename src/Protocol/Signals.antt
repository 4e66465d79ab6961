-- ===== src/Protocol/Signals.antt =====
-- Local signals (src/protocol.rs) stay on this side: what waits in the write queue, over a sequence of polls
-- of any stream.
use hypercore_protocol_rs.Prelude.{
  ℕ, zero, suc, ◌≡◌, refl, sym, subst, Bool, true, false, ◌⊎◌, inl, inr, Option, none, some, List,
  [], ◌∷◌, All, All-append, Result, ok, err, panic, stuck,
}
use hypercore_protocol_rs.Wire.{External}
use hypercore_protocol_rs.ChannelMessage.{ChannelMessage}
use hypercore_protocol_rs.Framing.Total.{OnWire}
use hypercore_protocol_rs.Platform.{
  Platform, Poll, ready, pending, CipherEvent, handshake_payload, message, err_stuff,
}
use hypercore_protocol_rs.Channels.Map
use hypercore_protocol_rs.Channels.Map.Invariant.{IsMap-weaken}
use hypercore_protocol_rs.MessageIo.{
  MessageIo, Round, returns, again, take_batch, send_batch, with_queue, on_ready, outbound_round,
  outbound_loop, poll_outbound, poll_inbound,
}
use hypercore_protocol_rs.MessageIo
use hypercore_protocol_rs.MessageIo.Total.{take_batch-OnWire}
use hypercore_protocol_rs.MessageIo.Batches.{outbound_loop-last, outbound_loop-again, Round-cases}
use hypercore_protocol_rs.Protocol.State.{Protocol, Event, Command, new}
use hypercore_protocol_rs.Protocol.Step.{poll_next}
use hypercore_protocol_rs.Protocol.Halting.{Established}
use hypercore_protocol_rs.Protocol.Invariant.{Inv, Lands, Any, Context, Stable}
use hypercore_protocol_rs.Protocol.PollNext.{poll_next-Lands}
use hypercore_protocol_rs.Protocol.IoLaws.{IoLaws, any-IoLaws}

module _ {x : External} (p : Platform x) where
  on_ready-OnWire :
      (is_pending : Bool) (r : Poll (Result (Unit {0}))) (io : MessageIo p)
      → All OnWire io.write_queue
      → All OnWire (on_ready p is_pending r io).1.write_queue
  unfolding send_batch
  on_ready-OnWire is_pending pending io w = w
  on_ready-OnWire is_pending (ready (err e)) io w = w
  on_ready-OnWire is_pending (ready panic) io w = w
  on_ready-OnWire is_pending (ready stuck) io w = w
  on_ready-OnWire is_pending (ready (ok u)) io w = go io.write_queue w
    where
      go :
          (queue : List (ChannelMessage x))
          → All OnWire queue
          → All OnWire (with_queue p queue (record io { write_queue = queue })).1.write_queue
      go [] w = tt
      go (m ∷ ms) w = (take_batch-OnWire [] (m ∷ ms) tt w).1

  outbound_loop-OnWire :
      (fuel : ℕ) (is_pending : Bool) (io : MessageIo p)
      → All OnWire io.write_queue
      → All OnWire (outbound_loop p fuel is_pending io).1.write_queue
  unfolding outbound_loop outbound_round
  outbound_loop-OnWire zero is_pending io w = w
  outbound_loop-OnWire (suc fuel) is_pending io w =
      let w' =
        on_ready-OnWire is_pending (p.poll_ready io.stream).0
          (record io { stream = (p.poll_ready io.stream).1 }) w in
      elim (Round-cases p (outbound_round p is_pending io).0) [
        | inl (r, last) ↦ rw (outbound_loop-last p fuel is_pending io r last) w'
        | inr goes_on ↦
            rw (outbound_loop-again p fuel is_pending io goes_on)
              (outbound_loop-OnWire fuel false (outbound_round p is_pending io).1 w')
      ]

  poll_outbound-OnWire :
      (io : MessageIo p) → All OnWire io.write_queue → All OnWire (poll_outbound p io).1.write_queue
  unfolding poll_outbound
  poll_outbound-OnWire io w = outbound_loop-OnWire _ true io w

  -- To receive leaves the write queue alone.
  poll_inbound-write_queue :
      (n : ℕ) (io : MessageIo p) → (poll_inbound p n io).1.write_queue ≡ io.write_queue
  unfolding poll_inbound
  poll_inbound-write_queue zero io = refl
  poll_inbound-write_queue (suc n) io =
      go (poll_inbound-write_queue n (record io { stream = (p.poll_next io.stream).1 }))
        (p.poll_next io.stream).0 refl
    where
      go :
          (poll_inbound p n (record io { stream = (p.poll_next io.stream).1 })).1.write_queue
            ≡ io.write_queue
          → (r : Poll (Option CipherEvent)) → (p.poll_next io.stream).0 ≡ r
          → (poll_inbound p (suc n) io).1.write_queue ≡ io.write_queue
      go h pending e = rw (poll_inbound, e)
      go h (ready none) e = rw (poll_inbound, e)
      go h (ready (some handshake_payload)) e = rw (poll_inbound, e) h
      go h (ready (some (message frame))) e = rw (poll_inbound, e)
      go h (ready (some (err_stuff er))) e = rw (poll_inbound, e)

  -- No local signal waits to be sent.
  abbrev Wired : Context p
  Wired b commands io = All OnWire io.write_queue

  wired-Stable : Stable Wired
  unfolding MessageIo.enqueue
  wired-Stable b commands io m w ws = All-append OnWire io.write_queue (m ∷ []) ws (w, tt)

  wired-IoLaws : IoLaws p Unit (λ n. Wired)
  wired-IoLaws =
      any-IoLaws p Wired wired-Stable (λ b c commands io ws. ws)
        (λ b commands io ws. poll_outbound-OnWire io ws)
        (λ n b commands io ws.
          subst (λ (l : List (ChannelMessage x)). All OnWire l)
            (sym (poll_inbound-write_queue n io)) ws)

module _ {x : External} (p : Platform x) where
  -- Polls, at any fuel. Between them the stream is in any state, and commands, messages of the channels'
  -- users and places in the queues arrive.
  pub data Ran : Protocol p → Protocol p → Type 0 where
    here : (s : Protocol p) → Ran s s
    polls : (fuel : ℕ) (s s' : Protocol p) → Ran (poll_next p fuel s).1 s' → Ran s s'
    feeds :
        (stream : p.Stream) (commands : List Command) (outbound : List (List (ChannelMessage x)))
        → (queues : p.Queues) (s s' : Protocol p)
        → Ran
            (record s {
              io = record { stream = stream; write_queue = s.io.write_queue };
              command_rx = commands;
              outbound_rx = outbound;
              channels = record s.channels { queues = queues };
            })
            s'
        → Ran s s'

module _ {x : External} (p : Platform x) where
  abbrev Held : Protocol p → Type 0
  Held s = Inv Unit (Wired p) s

  landed : (r : Result (Poll Event) × Protocol p) → Lands Unit (Wired p) Any r → Held r.1
  landed (ok polled, s) (i, any) = i
  landed (err e, s) i = i
  landed (panic, s) (i, z) = i
  landed (stuck, s) (i, z) = i

  Ran-Held : (s s' : Protocol p) → Ran p s s' → Held s → Held s'
  Ran-Held s s' (here _) i = i
  Ran-Held s s' (polls fuel _ _ more) i = Ran-Held _ s' more (
      landed (poll_next p fuel s) (
        poll_next-Lands p Unit (λ n. Wired p) (wired-IoLaws p) (inl tt) (λ n b commands io ws. ws)
          fuel s i))
  Ran-Held s s' (feeds stream commands outbound queues _ _ more) i =
      let v =
        IsMap-weaken p (Unit ⊎ Established p s.io.stream) (Unit ⊎ Established p stream)
          (λ e. inl tt) s.channels i.map in
      Ran-Held _ s' more (record {
        map = record { entries = v.entries; zeroth = v.zeroth };
        hash_fits = inl tt;
        events = i.events;
        context = i.context;
      })

  -- In every state that polls reach from a new protocol, whatever the streams and the remote do, and whatever
  -- commands and messages, local signals among them, the users send between the polls, no local signal waits
  -- to be sent; also after a poll that fails.
  pub poll_next-OnWire :
      (stream : p.Stream) (queues : p.Queues) (s : Protocol p)
      → Ran p (new stream queues) s
      → All OnWire s.io.write_queue
  unfolding new Map.empty
  poll_next-OnWire stream queues s ran =
      (Ran-Held (new stream queues) s ran (record {
        map = record { entries = tt; zeroth = refl };
        hash_fits = inl tt;
        events = tt;
        context = tt;
      })).context
