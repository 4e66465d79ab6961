-- ===== src/Channels/Handle.antt =====
-- `Channel` and `ChannelHandle` of src/channels.rs. The `Arc<AtomicBool>` that the two share is an
-- index into the list of flags that the channel map keeps, and an inbound queue is its number.
use hypercore_protocol_rs.Prelude.{
  ℕ, Bool, ◌&&◌, Option, none, some, Result, ok, err, io, other, panic,
}
use hypercore_protocol_rs.Wire.{Bytes, External}
use hypercore_protocol_rs.Message.{Message}
use hypercore_protocol_rs.Platform.{Platform, sent, full, closed as queue_closed}
use hypercore_protocol_rs.Schema.Flags.{is_some}
use mathlib.Core.Option

pub record LocalState : Type 0 where
  pub key : Bytes
  pub local_id : ℕ

pub record RemoteState : Type 0 where
  pub remote_id : ℕ
  pub remote_capability : Option Bytes

pub record ChannelHandle : Type 0 where
  pub discovery_key : Bytes
  pub local_state : Option LocalState
  pub remote_state : Option RemoteState
  pub inbound_tx : Option ℕ
  pub closed : ℕ

-- The handle that the user of the library holds. All channels send to the protocol's one queue.
pub record Channel : Type 0 where
  pub inbound_rx : Option ℕ
  pub direct_inbound_tx : ℕ
  pub key : Bytes
  pub discovery_key : Bytes
  pub local_id : ℕ
  pub closed : ℕ

-- `Channel::new`
abbrev pub new_channel : Option ℕ → ℕ → Bytes → Bytes → ℕ → ℕ → Channel
new_channel inbound_rx direct_inbound_tx discovery_key key local_id closed = record {
  inbound_rx = inbound_rx;
  direct_inbound_tx = direct_inbound_tx;
  key = key;
  discovery_key = discovery_key;
  local_id = local_id;
  closed = closed;
}

abbrev pub attach_local : ℕ → Bytes → ChannelHandle → ChannelHandle
attach_local local_id key h = record h {
  local_state = some (record { key = key; local_id = local_id });
}

abbrev pub attach_remote : ℕ → Option Bytes → ChannelHandle → ChannelHandle
attach_remote remote_id remote_capability h = record h {
  remote_state = some (record { remote_id = remote_id; remote_capability = remote_capability });
}

abbrev pub new : Bytes → ℕ → ChannelHandle
new discovery_key flag = record {
  discovery_key = discovery_key;
  local_state = none;
  remote_state = none;
  inbound_tx = none;
  closed = flag;
}

abbrev pub new_local : ℕ → Bytes → Bytes → ℕ → ChannelHandle
new_local local_id discovery_key key flag = attach_local local_id key (new discovery_key flag)

abbrev pub new_remote : ℕ → Bytes → Option Bytes → ℕ → ChannelHandle
new_remote remote_id discovery_key remote_capability flag =
    attach_remote remote_id remote_capability (new discovery_key flag)

abbrev pub local_id : ChannelHandle → Option ℕ
local_id h = Option.map (λ s. s.local_id) h.local_state

abbrev pub remote_id : ChannelHandle → Option ℕ
remote_id h = Option.map (λ s. s.remote_id) h.remote_state

abbrev pub is_connected : ChannelHandle → Bool
is_connected h = is_some h.local_state && is_some h.remote_state

-- The two `unwrap`s stand behind the test of `is_connected`.
unfoldable pub both_states : Option LocalState → Option RemoteState → Result (Bytes × Option Bytes)
both_states (some l) (some r) = ok (l.key, r.remote_capability)
both_states _ _ = err (io other)

unfoldable pub prepare_to_verify : ChannelHandle → Result (Bytes × Option Bytes)
unfolding both_states
prepare_to_verify h = both_states h.local_state h.remote_state

module _ {x : External} (p : Platform x) where
  abbrev pub opened :
      ChannelHandle → p.Queues → Option LocalState → Result (Channel × ChannelHandle × p.Queues)
  opened h queues none = panic
  opened h queues (some l) =
      let (tx, queues') = p.unbounded queues in
      let channel : Channel = new_channel (some tx) tx h.discovery_key l.key l.local_id h.closed in
      ok (channel, record h { inbound_tx = some tx }, queues')

  -- `open`: a handle that is not locally attached is a panic.
  unfoldable pub open_handle :
      ChannelHandle → p.Queues → Result (Channel × ChannelHandle × p.Queues)
  open_handle h queues = opened h queues h.local_state

  unfoldable pub try_send_inbound : ChannelHandle → Message x → p.Queues → Result p.Queues
  try_send_inbound h message queues = elim h.inbound_tx [
    | none ↦ err (io other)
    | some tx ↦
        let (result, queues') = p.try_send tx message queues in
        elim result [ sent ↦ ok queues' | full ↦ err (io other) | queue_closed ↦ err (io other) ]
  ]

  unfoldable pub try_send_inbound_tolerate_closed :
      ChannelHandle → Message x → p.Queues → Result p.Queues
  try_send_inbound_tolerate_closed h message queues = elim h.inbound_tx [
    | none ↦ ok queues
    | some tx ↦
        let (result, queues') = p.try_send tx message queues in
        elim result [ sent ↦ ok queues' | full ↦ err (io other) | queue_closed ↦ ok queues' ]
  ]
