-- ===== src/Protocol/IoLaws.antt =====
-- What a poll of `Protocol` (src/protocol.rs) needs of the io layer, for the invariant to hold after it.
use hypercore_protocol_rs.Prelude.{
  ℕ, suc, Bool, ◌⊎◌, Option, none, some, List, ◌∷◌, All, Result, ok, err, panic, stuck, MayHalt,
  MayHalt-any, inl, [],
}
use hypercore_protocol_rs.Wire.{External}
use hypercore_protocol_rs.ChannelMessage.{ChannelMessage}
use hypercore_protocol_rs.Platform.{Platform, Poll, ready, pending}
use hypercore_protocol_rs.MessageIo.{MessageIo}
use hypercore_protocol_rs.MessageIo
use hypercore_protocol_rs.Protocol.State.{Command}
use hypercore_protocol_rs.Protocol.Halting.{Established, HashFits}
use hypercore_protocol_rs.Protocol.Invariant.{Context, Stable}
use hypercore_protocol_rs.Protocol.Handlers.{KeyFits, OpenFits}

module _ {x : External} (p : Platform x) where
  -- Properties of the context, by the fuel that is left: each frame takes one.
  abbrev pub Contexts : Type 1
  Contexts = ℕ → Context p

module _ {x : External} (p : Platform x) (Z : Type 0) where
  -- The io layer moves on, and the handshake is not undone.
  pub record Passes (before after : MessageIo p) : Type 0 where
    pub stays : Z ⊎ Established p before.stream → Z ⊎ Established p after.stream
    pub fits : Z ⊎ HashFits p after.stream

  abbrev pub PollMayHalt : Poll (Result (Unit {0})) → Type 0
  PollMayHalt pending = Unit {0}
  PollMayHalt (ready r) = MayHalt Z r

  -- What a poll at the fuel `suc n` has read.
  abbrev pub HasRead :
      Contexts p
      → ℕ
      → Bool
      → List Command
      → Poll (Option (Result (List (ChannelMessage x))))
      → MessageIo p
      → Type 0
  HasRead F n b commands pending io = F (suc n) b commands io
  HasRead F n b commands (ready none) io = F (suc n) b commands io
  HasRead F n b commands (ready (some (ok ms))) io =
      F n b commands io × All (λ m. Z ⊎ OpenFits p io.stream m) ms
  HasRead F n b commands (ready (some (err e))) io = F (suc n) b commands io
  HasRead F n b commands (ready (some panic)) io = F (suc n) b commands io × Z
  HasRead F n b commands (ready (some stuck)) io = F (suc n) b commands io × Z

  -- The property holds at each fuel before and after the io layer's polls, and without fuel only if a panic
  -- is allowed. A command that waits has a key that fits, unless a panic is allowed.
  pub record IoLaws (F : Contexts p) : Type 0 where
    pub stable : (n : ℕ) → Stable (F n)
    pub widens :
        (n : ℕ) (b : Bool) (commands : List Command) (io : MessageIo p)
        → F n b commands io
        → F (suc n) b commands io
    pub exhausted : (b : Bool) (commands : List Command) (io : MessageIo p) → F 0 b commands io → Z
    pub takes :
        (n : ℕ) (b : Bool) (c : Command) (commands : List Command) (io : MessageIo p)
        → F n b (c ∷ commands) io
        → (Z ⊎ KeyFits c) × F n b commands io
    pub outbound :
        (n : ℕ) (b : Bool) (commands : List Command) (io : MessageIo p)
        → F n b commands io
        → let (r, io') = MessageIo.poll_outbound p io in
          F n b commands io' × Passes io io' × PollMayHalt r
    pub inbound :
        (n : ℕ) (b : Bool) (commands : List Command) (io : MessageIo p)
        → F (suc n) b commands io
        → let (r, io') = MessageIo.poll_inbound p (suc n) io in
          HasRead F n b commands r io' × Passes io io'

-- Where any handler may panic, only the property itself is to be kept.
module _ {x : External} (p : Platform x) (G : Context p) where
  poll_any : (r : Poll (Result (Unit {0}))) → PollMayHalt p Unit r
  poll_any pending = tt
  poll_any (ready r) = MayHalt-any Unit tt r

  fits_any :
      (io : MessageIo p) (ms : List (ChannelMessage x))
      → All {0, 0} (λ m. Unit ⊎ OpenFits p io.stream m) ms
  fits_any io [] = tt
  fits_any io (m ∷ ms) = (inl tt, fits_any io ms)

  read_any :
      (b : Bool) (commands : List Command)
      → (r : Poll (Option (Result (List (ChannelMessage x))))) (io : MessageIo p) (n : ℕ)
      → G b commands io
      → HasRead p Unit (λ n. G) n b commands r io
  read_any b commands pending io n g = g
  read_any b commands (ready none) io n g = g
  read_any b commands (ready (some (ok ms))) io n g = (g, fits_any io ms)
  read_any b commands (ready (some (err e))) io n g = g
  read_any b commands (ready (some panic)) io n g = (g, tt)
  read_any b commands (ready (some stuck)) io n g = (g, tt)

  pub any-IoLaws :
      Stable G
      → ((b : Bool) (c : Command) (commands : List Command) (io : MessageIo p)
          → G b (c ∷ commands) io
          → G b commands io)
      → ((b : Bool) (commands : List Command) (io : MessageIo p)
          → G b commands io
          → G b commands (MessageIo.poll_outbound p io).1)
      → ((n : ℕ) (b : Bool) (commands : List Command) (io : MessageIo p)
          → G b commands io
          → G b commands (MessageIo.poll_inbound p n io).1)
      → IoLaws p Unit (λ n. G)
  any-IoLaws stable takes outbound inbound = record {
    stable = λ n. stable;
    widens = λ n b commands io g. g;
    exhausted = λ b commands io g. tt;
    takes = λ n b c commands io g. (inl tt, takes b c commands io g);
    outbound = λ n b commands io g. (
      outbound b commands io g,
      record { stays = λ e. inl tt; fits = inl tt },
      poll_any (MessageIo.poll_outbound p io).0,
    );
    inbound = λ n b commands io g. (
      read_any b commands (MessageIo.poll_inbound p (suc n) io).0
          (MessageIo.poll_inbound p (suc n) io).1 n (inbound (suc n) b commands io g),
      record { stays = λ e. inl tt; fits = inl tt },
    );
  }
