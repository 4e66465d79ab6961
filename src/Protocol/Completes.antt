-- ===== src/Protocol/Completes.antt =====
-- `Protocol::poll_next` (src/protocol.rs) over a steady stream, in a sequence of polls.
use hypercore_protocol_rs.Prelude.{
  ℕ, ◌<◌, ◌≡◌, refl, ◌⊎◌, inl, inr, List, All, Result, ok, err, panic, stuck, Error,
}
use hypercore_protocol_rs.Wire.{External}
use hypercore_protocol_rs.Wire.Contract.{Contract}
use hypercore_protocol_rs.Wire.Total.{EncodersEnd}
use hypercore_protocol_rs.ChannelMessage.{ChannelMessage}
use hypercore_protocol_rs.Framing.Total.{OnWire}
use hypercore_protocol_rs.Platform.{Platform, Poll}
use hypercore_protocol_rs.Channels.Map
use hypercore_protocol_rs.Channels.Map.Invariant.{IsMap-weaken}
use hypercore_protocol_rs.Protocol.State.{Protocol, Event, Command, new}
use hypercore_protocol_rs.Protocol.Step.{poll_next}
use hypercore_protocol_rs.Protocol.Halting.{MacTotal, Established}
use hypercore_protocol_rs.Protocol.Invariant.{Inv, Lands, Any, Inv-context, Context}
use hypercore_protocol_rs.Protocol.Handlers.{KeyFits}
use hypercore_protocol_rs.Protocol.PollNext.{poll_next-Lands}
use hypercore_protocol_rs.Protocol.Steady.{Steady}
use hypercore_protocol_rs.Protocol.Steady.Laws.{Runs, runs-IoLaws}

module _ {x : External} (p : Platform x) (steady : Steady p) where
  -- Polls, each with more fuel than the stream has events left. Between them the stream moves on to a good
  -- state, which may have more events left, and the handshake is not undone; commands with keys of up to 64
  -- bytes, any messages of the channels' users, and places in the queues arrive.
  pub data Polled : Protocol p → Protocol p → Type 0 where
    here : (s : Protocol p) → Polled s s
    polls :
        (fuel : ℕ) (s s' : Protocol p)
        → steady.left s.io.stream < fuel
        → Polled (poll_next p fuel s).1 s'
        → Polled s s'
    feeds :
        (stream : p.Stream) (commands : List Command) (outbound : List (List (ChannelMessage x)))
        → (queues : p.Queues) (s s' : Protocol p) → steady.Good stream
        → (Established p s.io.stream → Established p stream)
        → All {0, 0} KeyFits commands
        → Polled
            (record s {
              io = record { stream = stream; write_queue = s.io.write_queue };
              command_rx = commands;
              outbound_rx = outbound;
              channels = record s.channels { queues = queues };
            })
            s'
        → Polled s s'

module _ {x : External} (p : Platform x) (k : Contract x) (e : EncodersEnd x) (mac : MacTotal p)
    (steady : Steady p) where
  -- The invariant at some fuel, which no handler may panic in.
  abbrev RunsAt : ℕ → Protocol p → Type 0
  RunsAt n s = Inv ⊥ (Runs p steady n) s

  poll_next-Runs :
      (n : ℕ) (s : Protocol p) → RunsAt n s → Lands ⊥ (Runs p steady n) Any (poll_next p n s)
  poll_next-Runs n s i =
      poll_next-Lands p ⊥ (Runs p steady) (runs-IoLaws p steady k e) (inr mac)
        (λ n b commands io runs. runs) n s i

  -- The invariant between polls, whatever the fuel.
  abbrev Idle : Context p
  Idle b commands io =
      steady.Good io.stream × All OnWire io.write_queue × All {0, 0} KeyFits commands

  idle-RunsAt : (n : ℕ) (s : Protocol p) → steady.left s.io.stream < n → Inv ⊥ Idle s → RunsAt n s
  idle-RunsAt n s enough i =
      let (good, wired, keys) = i.context in
      Inv-context ⊥ Idle (Runs p steady n) s (good, enough, wired, keys) i

  runs-Idle : (n : ℕ) (s : Protocol p) → RunsAt n s → Inv ⊥ Idle s
  runs-Idle n s i =
      let (good, enough, wired, keys) = i.context in
      Inv-context ⊥ (Runs p steady n) Idle s (good, wired, keys) i

  landed :
      (n : ℕ) (r : Result (Poll Event) × Protocol p)
      → Lands ⊥ (Runs p steady n) Any r
      → Inv ⊥ Idle r.1
  landed n (ok polled, s) (i, any) = runs-Idle n s i
  landed n (err er, s) i = runs-Idle n s i
  landed n (panic, s) (i, z) = absurd z
  landed n (stuck, s) (i, z) = absurd z

  Polled-Idle : (s s' : Protocol p) → Polled p steady s s' → Inv ⊥ Idle s → Inv ⊥ Idle s'
  Polled-Idle s s' (here _) i = i
  Polled-Idle s s' (polls fuel _ _ enough more) i =
      Polled-Idle _ s' more
        (landed fuel (poll_next p fuel s) (poll_next-Runs fuel s (idle-RunsAt fuel s enough i)))
  Polled-Idle s s' (feeds stream commands outbound queues _ _ good stays keys more) i =
      let v =
        IsMap-weaken p (⊥ ⊎ Established p s.io.stream) (⊥ ⊎ Established p stream)
          (λ done. elim done [ inl z ↦ inl z | inr d ↦ inr (stays d) ]) s.channels i.map in
      Polled-Idle _ s' more (record {
        map = record { entries = v.entries; zeroth = v.zeroth };
        hash_fits = inr (steady.hash_fits stream good);
        events = i.events;
        context = (good, i.context.1, keys);
      })

  new-Idle :
      (stream : p.Stream) (queues : p.Queues) → steady.Good stream → Inv ⊥ Idle (new stream queues)
  unfolding new Map.empty
  new-Idle stream queues good = record {
    map = record { entries = tt; zeroth = refl };
    hash_fits = inr (steady.hash_fits stream good);
    events = tt;
    context = (good, tt, tt);
  }

  -- The encoders of the other crates return, the MAC accepts keys of up to 64 bytes, and the stream is steady
  -- from a good state on. Then in every state that polls reach from a new protocol, with commands whose keys
  -- have up to 64 bytes and any messages of the users between them, a poll with more fuel than the stream has
  -- events left comes to an end: with an event, pending or with an error, and without a panic.
  pub poll_next-completes :
      (stream : p.Stream) (queues : p.Queues) (s : Protocol p) (fuel : ℕ)
      → steady.Good stream
      → Polled p steady (new stream queues) s
      → steady.left s.io.stream < fuel
      → ((polled : Poll Event) × ((poll_next p fuel s).0 ≡ ok polled))
        ⊎ ((er : Error) × ((poll_next p fuel s).0 ≡ err er))
  poll_next-completes stream queues s fuel good reached enough = completes (poll_next p fuel s) (
      poll_next-Runs fuel s (
        idle-RunsAt fuel s enough
          (Polled-Idle (new stream queues) s reached (new-Idle stream queues good))))
    where
      completes :
          (r : Result (Poll Event) × Protocol p)
          → Lands ⊥ (Runs p steady fuel) Any r
          → ((polled : Poll Event) × (r.0 ≡ ok polled)) ⊎ ((er : Error) × (r.0 ≡ err er))
      completes (ok polled, s') i = inl (polled, refl)
      completes (err er, s') i = inr (er, refl)
      completes (panic, s') (i, z) = absurd z
      completes (stuck, s') (i, z) = absurd z
