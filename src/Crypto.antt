-- ===== src/Crypto.antt =====
-- src/crypto/handshake.rs and `discovery_key` of src/util.rs: capabilities of a channel.
pub mod Verify
use hypercore_protocol_rs.Prelude.{
  ℕ, Bool, true, false, not, if◌then◌else◌, bytes_eq, Option, none, some, [], ◌∷◌, ◌++◌, Result, ok,
  err, io, permission_denied, unwrap, ◌>>=◌,
}
use hypercore_protocol_rs.Wire.{Bytes, External}
use hypercore_protocol_rs.Platform.{Platform}
use Prim.Native.Char.{code}
use Prim.Native.String.{String}

-- The bytes of an ASCII text.
abbrev pub ascii : String → Bytes
ascii String.[] = []
ascii (String.◌∷◌ c s) = code c ∷ ascii s

abbrev pub discovery_ns_buf : Bytes
discovery_ns_buf = ascii "hypercore"

abbrev pub protocol_name : Bytes
protocol_name = ascii "hypercore/alpha"

abbrev pub replicate_initiator : Bytes
replicate_initiator =
    0x51 ∷ 0x81 ∷ 0x2a ∷ 0x2a ∷ 0x35 ∷ 0x9b ∷ 0x50 ∷ 0x36 ∷ 0x95 ∷ 0x36 ∷ 0x77 ∷ 0x5d ∷ 0xf8 ∷ 0x9e
    ∷ 0x18 ∷ 0xe4 ∷ 0x77 ∷ 0x40 ∷ 0xf3 ∷ 0xdb ∷ 0x72 ∷ 0xac ∷ 0xa ∷ 0xe7 ∷ 0xb ∷ 0x29 ∷ 0x59 ∷ 0x4c
    ∷ 0x19 ∷ 0x4d ∷ 0xc3 ∷ 0x16 ∷ []

abbrev pub replicate_responder : Bytes
replicate_responder =
    0x4 ∷ 0x38 ∷ 0x49 ∷ 0x2d ∷ 0x2 ∷ 0x97 ∷ 0xc ∷ 0xc1 ∷ 0x35 ∷ 0x28 ∷ 0xac ∷ 0x2 ∷ 0x62 ∷ 0xbc
    ∷ 0xa0 ∷ 0x7 ∷ 0x4e ∷ 0x9 ∷ 0x26 ∷ 0x26 ∷ 0x2 ∷ 0x56 ∷ 0x86 ∷ 0x5a ∷ 0xcc ∷ 0xc0 ∷ 0xbf ∷ 0x15
    ∷ 0xbd ∷ 0x79 ∷ 0x12 ∷ 0x7d ∷ []

pub record HandshakeResult : Type 0 where
  pub is_initiator : Bool
  pub local_pubkey : Bytes
  pub remote_pubkey : Bytes
  pub handshake_hash : Bytes

abbrev pub from_pre_encrypted : Bool → Bytes → Bytes → Bytes → HandshakeResult
from_pre_encrypted is_initiator local_pubkey remote_pubkey handshake_hash = record {
  is_initiator = is_initiator;
  local_pubkey = local_pubkey;
  remote_pubkey = remote_pubkey;
  handshake_hash = handshake_hash;
}

module _ {x : External} (p : Platform x) where
  unfoldable pub discovery_key : Bytes → Result Bytes
  discovery_key key = unwrap (p.blake2b_mac key discovery_ns_buf)

  unfoldable pub replicate_capability : Bool → Bytes → Bytes → Result Bytes
  replicate_capability is_initiator key handshake_hash =
      let seed = if is_initiator then replicate_initiator else replicate_responder in
      unwrap (p.blake2b_mac handshake_hash (seed ++ key))

  unfoldable pub capability : HandshakeResult → Bytes → Result (Option Bytes)
  capability h key = do c ← replicate_capability h.is_initiator key h.handshake_hash; ok (some c)

  unfoldable pub remote_capability : HandshakeResult → Bytes → Result (Option Bytes)
  remote_capability h key = do
    c ← replicate_capability (not h.is_initiator) key h.handshake_hash
    ok (some c)

  -- The `match` on the received and the expected capability. Both mismatches are `PermissionDenied`.
  unfoldable pub compare_capability : Option Bytes → Option Bytes → Result (Unit {0})
  compare_capability (some c1) (some c2) =
      if bytes_eq c1 c2 then ok tt else err (io permission_denied)
  compare_capability _ _ = err (io permission_denied)

  unfoldable pub verify_remote_capability :
      HandshakeResult → Option Bytes → Bytes → Result (Unit {0})
  verify_remote_capability h capability key = do
    expected ← remote_capability h key
    compare_capability capability expected
