-- ===== src/Protocol/Halting.antt =====
-- When the computations of src/protocol.rs on capabilities may panic.
use hypercore_protocol_rs.Prelude.{
  ◌≤◌, ◌≡◌, Bool, Bool-cases, not, bytes_eq, ◌⊎◌, inl, inr, Option, Option-cases, none, some,
  length, ok, panic, unwrap, MayHalt, MayHalt-any, MayHalt-bind,
}
use hypercore_protocol_rs.Wire.{Bytes, External}
use hypercore_protocol_rs.Platform.{Platform}
use hypercore_protocol_rs.Crypto
use hypercore_protocol_rs.Crypto.{HandshakeResult}
use hypercore_protocol_rs.Protocol.State.{Protocol}
use hypercore_protocol_rs.Protocol.Step.{verify_remote_capability, handshake_result, capability}

module _ {x : External} (p : Platform x) where
  -- The MAC accepts every key of up to 64 bytes.
  abbrev pub MacTotal : Type 0
  MacTotal =
      (key data' : Bytes) → length key ≤ 64 → (c : Bytes) × (p.blake2b_mac key data' ≡ some c)

  -- The handshake is complete.
  abbrev pub Established : p.Stream → Type 0
  Established stream =
      (remote hash : Bytes) × (p.remote_public_key stream ≡ some remote)
      × (p.handshake_hash stream ≡ some hash)

  abbrev pub HashFits : p.Stream → Type 0
  HashFits stream = (hash : Bytes) → p.handshake_hash stream ≡ some hash → length hash ≤ 64

module _ {x : External} (p : Platform x) where
  pub discovery_key-cases :
      (key : Bytes)
      → ((dk : Bytes) × (Crypto.discovery_key p key ≡ ok dk)) ⊎ (Crypto.discovery_key p key ≡ panic)
  unfolding Crypto.discovery_key unwrap
  discovery_key-cases key = elim (Option-cases (p.blake2b_mac key Crypto.discovery_ns_buf)) [
    | inl refused ↦ inr (rw refused)
    | inr (dk, e) ↦ inl (dk, rw e)
  ]

module _ {x : External} (p : Platform x) (Z : Type 0) (mac : Z ⊎ MacTotal p) where
  compare-MayHalt : (a b : Option Bytes) → MayHalt Z (Crypto.compare_capability p a b)
  unfolding Crypto.compare_capability
  compare-MayHalt (some a) (some b) = elim (Bool-cases (bytes_eq a b)) [
    | inl same ↦ rw same tt
    | inr differs ↦ rw differs tt
  ]
  compare-MayHalt (some a) none = tt
  compare-MayHalt none b = tt

  unwrap-MayHalt :
      (key data' : Bytes) → Z ⊎ (length key ≤ 64) → MayHalt Z (unwrap (p.blake2b_mac key data'))
  unfolding unwrap
  unwrap-MayHalt key data' (inl z) = MayHalt-any Z z _
  unwrap-MayHalt key data' (inr le) = elim mac [
    | inl z ↦ MayHalt-any Z z _
    | inr total ↦ let (c, e) = total key data' le in rw e tt
  ]

  pub discovery_key-MayHalt :
      (key : Bytes) → Z ⊎ (length key ≤ 64) → MayHalt Z (Crypto.discovery_key p key)
  unfolding Crypto.discovery_key
  discovery_key-MayHalt key h = unwrap-MayHalt key Crypto.discovery_ns_buf h

  replicate-MayHalt :
      (is_initiator : Bool) (key hash : Bytes)
      → Z ⊎ (length hash ≤ 64)
      → MayHalt Z (Crypto.replicate_capability p is_initiator key hash)
  unfolding Crypto.replicate_capability
  replicate-MayHalt is_initiator key hash h = unwrap-MayHalt hash _ h

  handshake_result-Established :
      (s : Protocol p)
      → Established p s.io.stream
      → (h : HandshakeResult) × (handshake_result p s ≡ some h)
  unfolding handshake_result
  handshake_result-Established s (remote, hash, e, e') = (
    Crypto.from_pre_encrypted s.is_initiator (p.local_public_key s.io.stream) remote hash,
    rw (handshake_result, e, e'),
  )

  hash_lem :
      (s : Protocol p) (h : HandshakeResult)
      → handshake_result p s ≡ some h
      → p.handshake_hash s.io.stream ≡ some h.handshake_hash
  unfolding handshake_result
  hash_lem s h e = elim (Option-cases (p.remote_public_key s.io.stream)) [
    | inl before ↦ cc (rw (before, handshake_result) at e)
    | inr (remote, known) ↦ elim (Option-cases (p.handshake_hash s.io.stream)) [
      | inl before ↦ cc (rw (known, before, handshake_result) at e)
      | inr (hash, known') ↦
          let result : HandshakeResult =
            Crypto.from_pre_encrypted s.is_initiator (p.local_public_key s.io.stream) remote hash in
          let same : ◌≡◌ {A = Option HandshakeResult} (some result) (some h) =
            rw (known, known', handshake_result) at e in
          let same' : result ≡ h = cc in rw (← same') known'
    ]
  ]

  hash-fits :
      (s : Protocol p) (h : HandshakeResult)
      → Z ⊎ HashFits p s.io.stream
      → handshake_result p s ≡ some h
      → Z ⊎ (length h.handshake_hash ≤ 64)
  hash-fits s h (inl z) e = inl z
  hash-fits s h (inr fits) e = inr (fits h.handshake_hash (hash_lem s h e))

  -- A capability is checked without a panic after the handshake.
  pub verify-MayHalt :
      (received : Option Bytes) (key : Bytes) (s : Protocol p)
      → Z ⊎ HashFits p s.io.stream
      → Z ⊎ Established p s.io.stream
      → MayHalt Z (verify_remote_capability p received key s)
  unfolding verify_remote_capability Crypto.verify_remote_capability Crypto.remote_capability
  verify-MayHalt received key s fits (inl z) = MayHalt-any Z z _
  verify-MayHalt received key s fits (inr done) =
      let (h, e) = handshake_result-Established s done in
      let mac_ok =
        replicate-MayHalt (not h.is_initiator) key h.handshake_hash (hash-fits s h fits e) in
      rw (verify_remote_capability, e)
        (MayHalt-bind Z (Crypto.remote_capability p h key) _ (MayHalt-bind Z _ _ mac_ok (λ c. tt))
          (λ expected. compare-MayHalt received expected))

  pub capability-MayHalt :
      (key : Bytes) (s : Protocol p) → Z ⊎ HashFits p s.io.stream → MayHalt Z (capability p key s)
  unfolding capability Crypto.capability
  capability-MayHalt key s fits = elim (Option-cases (handshake_result p s)) [
    | inl before ↦ rw (capability, before) tt
    | inr (h, e) ↦
        rw (capability, e)
          (MayHalt-bind Z _ _
            (replicate-MayHalt h.is_initiator key h.handshake_hash (hash-fits s h fits e))
            (λ c. tt))
  ]
