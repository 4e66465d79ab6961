-- ===== src/Platform.antt =====
-- What the crate takes from other crates beside the wire codecs: `blake2`, `hex`, `async_channel` and
-- the encrypted stream of `hypercore_handshake`.
use hypercore_protocol_rs.Prelude.{ℕ, Bool, Option, Result, Error}
use hypercore_protocol_rs.Wire.{Bytes, External}
use hypercore_protocol_rs.Message.{Message}

-- The results of `try_send`.
pub data Sent : Type 0 where
  sent full closed : Sent

pub data Poll (A : Type 0) : Type 0 where
  ready : A → Poll A
  pending : Poll A

-- `CipherEvent`
pub data CipherEvent : Type 0 where
  handshake_payload : CipherEvent
  message : Bytes → CipherEvent
  err_stuff : Error → CipherEvent

pub record Platform (x : External) : Type 1 where
  -- `Blake2bMac::new_with_salt_and_personal(key, &[], &[])`, `update`, `finalize_fixed`: none if the
  -- key is refused.
  pub blake2b_mac : Bytes → Bytes → Option Bytes
  pub hex_encode : Bytes → Bytes
  -- The unbounded inbound queues, named by numbers.
  pub Queues : Type 0
  pub unbounded : Queues → ℕ × Queues
  pub try_send : ℕ → Message x → Queues → Sent × Queues
  -- The receiver of a queue, polled as a stream.
  pub receive : ℕ → Queues → Poll (Option (Message x)) × Queues
  -- `Box<dyn CipherTrait>`
  pub Stream : Type 0
  pub is_initiator : Stream → Bool
  pub local_public_key : Stream → Bytes
  pub remote_public_key : Stream → Option Bytes
  pub handshake_hash : Stream → Option Bytes
  pub poll_ready : Stream → Poll (Result (Unit {0})) × Stream
  pub start_send : Bytes → Stream → Result (Unit {0}) × Stream
  pub poll_flush : Stream → Poll (Result (Unit {0})) × Stream
  pub poll_next : Stream → Poll (Option CipherEvent) × Stream
