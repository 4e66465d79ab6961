-- ===== src/Protocol/Steady/Laws.antt =====
-- The polls of the io layer over a steady stream, as `poll_next` of src/protocol.rs uses them.
use hypercore_protocol_rs.Prelude.{
  ℕ, suc, ◌<◌, sym, subst, Bool, ◌⊎◌, inl, inr, Option, none, some, List, [], ◌∷◌, All, All-append,
  Result, ok, err, panic, stuck, arith,
}
use hypercore_protocol_rs.Wire.{External}
use hypercore_protocol_rs.Wire.Contract.{Contract}
use hypercore_protocol_rs.Wire.Total.{EncodersEnd}
use hypercore_protocol_rs.Message.{
  Message, synchronize, request, cancel, data_msg, no_data, want, unwant, bitfield, range,
  extension, open_msg, close_msg, local_signal,
}
use hypercore_protocol_rs.ChannelMessage.{ChannelMessage}
use hypercore_protocol_rs.Framing.Total.{OnWire}
use hypercore_protocol_rs.Platform.{Platform, Poll, ready, pending}
use hypercore_protocol_rs.MessageIo.{MessageIo}
use hypercore_protocol_rs.MessageIo
use hypercore_protocol_rs.Protocol.State.{Command}
use hypercore_protocol_rs.Protocol.Halting.{Established}
use hypercore_protocol_rs.Protocol.Invariant.{Stable}
use hypercore_protocol_rs.Protocol.Handlers.{KeyFits, OpenFits}
use hypercore_protocol_rs.Protocol.IoLaws.{Passes, PollMayHalt, HasRead, Contexts, IoLaws}
use hypercore_protocol_rs.Protocol.Steady.{Steady, Goes, PollEnds, IdFits}
use hypercore_protocol_rs.Protocol.Steady.Outbound.{poll_outbound-Polls}
use hypercore_protocol_rs.Protocol.Steady.Inbound.{poll_inbound-Polls, Reads}

module _ {x : External} (p : Platform x) (steady : Steady p) where
  -- The stream is in a good state, with fewer events left than the fuel; no local signal waits to be sent,
  -- and the key of a command that waits has up to 64 bytes.
  abbrev pub Runs : Contexts p
  Runs n b commands io =
      steady.Good io.stream
      × (steady.left io.stream < n)
      × All OnWire io.write_queue
      × All {0, 0} KeyFits commands

  runs-Stable : (n : ℕ) → Stable (Runs n)
  unfolding MessageIo.enqueue
  runs-Stable n b commands io m w (good, fewer, wired, keys) =
      (good, fewer, All-append OnWire io.write_queue (m ∷ []) wired (w, tt), keys)

  Goes-Passes :
      (before after : MessageIo p)
      → Goes p steady.Good steady.left before.stream after.stream
      → Passes p ⊥ before after
  Goes-Passes before after goes = record {
    stays = λ done. elim done [ inl z ↦ absurd z | inr e ↦ inr (goes.stays e) ];
    fits = inr (steady.hash_fits after.stream goes.good);
  }

  ends-PollMayHalt : (r : Poll (Result (Unit {0}))) → PollEnds r → PollMayHalt p ⊥ r
  ends-PollMayHalt pending h = tt
  ends-PollMayHalt (ready r) h = h

  -- An `Open` whose id fits is handled after the handshake.
  opens_fit :
      (s : p.Stream) (ms : List (ChannelMessage x))
      → Established p s
      → All (IdFits x) ms
      → All {0, 0} (λ m. ⊥ ⊎ OpenFits p s m) ms
  opens_fit s [] done fits = tt
  opens_fit s (m ∷ ms) done (fit, fits) = (go m.channel m.message fit, opens_fit s ms done fits)
    where
      go :
          (channel : ℕ) (msg : Message x)
          → let m' : ChannelMessage x = record { channel = channel; message = msg } in
            IdFits x m' → ⊥ ⊎ OpenFits p s m'
      go channel (open_msg a) small = inr (done, small)
      go channel (close_msg a) f = inr tt
      go channel (synchronize a) f = inr tt
      go channel (request a) f = inr tt
      go channel (cancel a) f = inr tt
      go channel (data_msg a) f = inr tt
      go channel (no_data a) f = inr tt
      go channel (want a) f = inr tt
      go channel (unwant a) f = inr tt
      go channel (bitfield a) f = inr tt
      go channel (range a) f = inr tt
      go channel (extension a) f = inr tt
      go channel (local_signal n d) f = inr tt

  module _ (k : Contract x) (e : EncodersEnd x) where
    runs_outbound :
        (n : ℕ) (b : Bool) (commands : List Command) (io : MessageIo p)
        → Runs n b commands io
        → let (r, io') = MessageIo.poll_outbound p io in
          Runs n b commands io' × Passes p ⊥ io io' × PollMayHalt p ⊥ r
    runs_outbound n b commands io (good, fewer, wired, keys) =
        let (r, io') = MessageIo.poll_outbound p io in
        let (ends, goes, wired') = poll_outbound-Polls p e steady io good wired in
        (
          (goes.good, omega (arith, fewer, goes.fewer), wired', keys),
          Goes-Passes io io' goes,
          ends-PollMayHalt r ends,
        )

    runs_inbound :
        (n : ℕ) (b : Bool) (commands : List Command) (io : MessageIo p)
        → Runs (suc n) b commands io
        → let (r, io') = MessageIo.poll_inbound p (suc n) io in
          HasRead p ⊥ Runs n b commands r io' × Passes p ⊥ io io'
    runs_inbound n b commands io (good, fewer, wired, keys) =
        let (r, io') = MessageIo.poll_inbound p (suc n) io in
        let (reads, goes, queue) = poll_inbound-Polls p k steady (suc n) io good fewer in
        (
          read r io' reads goes
              (subst (λ (l : List (ChannelMessage x)). All OnWire l) (sym queue) wired),
          Goes-Passes io io' goes,
        )
      where
        read :
            (r : Poll (Option (Result (List (ChannelMessage x))))) (io' : MessageIo p)
            → Reads p k steady io.stream r io'.stream
            → Goes p steady.Good steady.left io.stream io'.stream
            → All OnWire io'.write_queue
            → HasRead p ⊥ Runs n b commands r io'
        read (ready (some (ok ms))) io' (less, done, fits) goes w =
            ((goes.good, omega (arith, less, fewer), w, keys), opens_fit io'.stream ms done fits)
        read (ready (some panic)) io' h goes w = absurd h
        read (ready (some stuck)) io' h goes w = absurd h
        read (ready (some (err er))) io' h goes w =
            (goes.good, omega (arith, fewer, goes.fewer), w, keys)
        read (ready none) io' h goes w = (goes.good, omega (arith, fewer, goes.fewer), w, keys)
        read pending io' h goes w = (goes.good, omega (arith, fewer, goes.fewer), w, keys)

    pub runs-IoLaws : IoLaws p ⊥ Runs
    runs-IoLaws = record {
      stable = runs-Stable;
      widens =
          λ n b commands io (good, fewer, wired, keys). (good, omega (arith, fewer), wired, keys);
      exhausted = λ b commands io (good, fewer, wired, keys). absurd (omega (arith, fewer));
      takes = λ n b c commands io (good, fewer, wired, keys).
          (inr keys.0, (good, fewer, wired, keys.1));
      outbound = runs_outbound;
      inbound = runs_inbound;
    }
