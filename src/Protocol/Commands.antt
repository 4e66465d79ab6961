-- ===== src/Protocol/Commands.antt =====
-- The public side of `Protocol` (src/protocol.rs): the senders of commands, the accessors, and `Protocol` as
-- a stream of events.
use hypercore_protocol_rs.Prelude.{
  ℕ, Bool, if◌then◌else◌, Option, some, List, [], ◌∷◌, ◌++◌, Result, ok, err, panic, stuck, io,
  broken_pipe,
}
use hypercore_protocol_rs.Wire.{Bytes, External}
use hypercore_protocol_rs.Platform.{Platform, Poll, ready, pending}
use hypercore_protocol_rs.Channels.Map
use hypercore_protocol_rs.Protocol.State.{
  Protocol, Event, Command, open_channel, close_channel, signal_local as signal_command,
}
use hypercore_protocol_rs.Protocol.Step

-- The queue of commands that a `CommandTx` and the protocol share: the commands that wait, and whether the
-- protocol still receives. A send that waits for room is taken when it returns.
pub record CommandTx : Type 0 where
  pub waiting : List Command
  pub receiving : Bool

abbrev pub send : Command → CommandTx → Result (Unit {0}) × CommandTx
send command tx =
    if tx.receiving
    then (ok tt, record tx { waiting = tx.waiting ++ (command ∷ []) })
    else (err (io broken_pipe), tx)

-- `CommandTx::open`
abbrev pub open_command : Bytes → CommandTx → Result (Unit {0}) × CommandTx
open_command key = send (open_channel key)

abbrev pub close : Bytes → CommandTx → Result (Unit {0}) × CommandTx
close discovery_key = send (close_channel discovery_key)

abbrev pub signal_local : Bytes → Bytes → CommandTx → Result (Unit {0}) × CommandTx
signal_local name data' = send (signal_command name data')

module _ {x : External} (p : Platform x) where
  abbrev pub is_initiator : Protocol p → Bool
  is_initiator s = s.is_initiator

  abbrev pub public_key : Protocol p → Bytes
  public_key s = p.local_public_key s.io.stream

  abbrev pub remote_public_key : Protocol p → Option Bytes
  remote_public_key s = p.remote_public_key s.io.stream

  abbrev pub channels : Protocol p → List Bytes
  channels s = Map.discovery_keys p s.channels

  -- `Stream::poll_next`: an event or an error is an item, and the stream does not end.
  abbrev pub item : Result (Poll Event) → Poll (Option (Result Event))
  item (ok (ready e)) = ready (some (ok e))
  item (ok pending) = pending
  item (err e) = ready (some (err e))
  item panic = ready (some panic)
  item stuck = ready (some stuck)

  abbrev pub poll_item : ℕ → Protocol p → Poll (Option (Result Event)) × Protocol p
  poll_item fuel s = let (r, s') = Step.poll_next p fuel s in (item r, s')
