-- ===== src/Protocol/Steady.antt =====
-- What the driver (src/protocol.rs) relies on in the encrypted stream of `hypercore_handshake`, for a poll
-- to come to an end without a panic.
pub mod Outbound
pub mod Inbound
pub mod Laws
use hypercore_protocol_rs.Prelude.{
  ℕ, ◌+◌, ◌^◌, ◌<◌, ◌≤◌, ◌≡◌, Option, none, some, List, All, Result, ok,
}
use hypercore_protocol_rs.Wire.{Bytes, External}
use hypercore_protocol_rs.Wire.Total.{Ends}
use hypercore_protocol_rs.Message.{open_msg}
use hypercore_protocol_rs.ChannelMessage.{ChannelMessage}
use hypercore_protocol_rs.Framing
use hypercore_protocol_rs.Platform.{
  Platform, Poll, ready, pending, CipherEvent, handshake_payload, message, err_stuff,
}
use hypercore_protocol_rs.Protocol.Halting.{Established, HashFits}

abbrev pub PollEnds : Poll (Result (Unit {0})) → Type 0
PollEnds pending = Unit {0}
PollEnds (ready r) = Ends r

module _ (x : External) where
  -- An `Open` is on an id below 2^57.
  abbrev pub IdFits : ChannelMessage x → Type 0
  IdFits m = elim m.message [ open_msg msg ↦ m.channel < 2 ^ 57 | _ ↦ Unit {0} ]

  -- The messages in a frame are on ids that fit, if it has any.
  abbrev pub FrameFits : Bytes → Type 0
  FrameFits frame =
      (ms : List (ChannelMessage x)) (rest : Bytes)
      → Framing.vec_decode x frame ≡ ok (ms, rest)
      → All IdFits ms

module _ {x : External} (p : Platform x) (Good : p.Stream → Type 0) (left : p.Stream → ℕ) where
  -- The stream moves on: no more events are left than before, and the handshake is not undone.
  pub record Goes (before after : p.Stream) : Type 0 where
    pub good : Good after
    pub fewer : left after ≤ left before
    pub stays : Established p before → Established p after

  -- What a poll of the stream has returned.
  abbrev pub Returns : p.Stream → Poll (Option CipherEvent) → p.Stream → Type 0
  Returns before (ready (some handshake_payload)) after = left after < left before
  Returns before (ready (some (message frame))) after =
      (left after < left before) × Established p after × FrameFits x frame
  Returns before (ready (some (err_stuff e))) after = Unit {0}
  Returns before (ready none) after = Unit {0}
  Returns before pending after = Unit {0}

module _ {x : External} (p : Platform x) where
  -- A stream that stays in the states `Good`: its polls return, and never undo the handshake; a message
  -- arrives only after the handshake, with ids that fit; and each payload or message that arrives is one less
  -- of those that are left before the stream is pending.
  pub record Steady : Type 1 where
    pub Good : p.Stream → Type 0
    pub left : p.Stream → ℕ
    pub hash_fits : (s : p.Stream) → Good s → HashFits p s
    pub ready_goes : (s : p.Stream) → Good s → Goes p Good left s (p.poll_ready s).1
    pub ready_ends : (s : p.Stream) → Good s → PollEnds (p.poll_ready s).0
    pub send_goes : (bs : Bytes) (s : p.Stream) → Good s → Goes p Good left s (p.start_send bs s).1
    pub send_ends : (bs : Bytes) (s : p.Stream) → Good s → Ends (p.start_send bs s).0
    pub flush_goes : (s : p.Stream) → Good s → Goes p Good left s (p.poll_flush s).1
    pub flush_ends : (s : p.Stream) → Good s → PollEnds (p.poll_flush s).0
    pub next_goes : (s : p.Stream) → Good s → Goes p Good left s (p.poll_next s).1
    pub next_returns :
        (s : p.Stream) → Good s → Returns p Good left s (p.poll_next s).0 (p.poll_next s).1
