-- ===== src/Crypto/Verify.antt =====
-- What the check of a remote capability (src/crypto/handshake.rs) accepts.
use hypercore_protocol_rs.Prelude.{
  ◌≡◌, ◌≢◌, refl, ap, ◌∙◌, Bool-cases, true, not, bytes_eq, bytes_eq_refl, bytes_eq→eq, inl, inr,
  ◌⊎◌, Option, none, some, ok, err, io, permission_denied, >>=-eq-ok,
}
use hypercore_protocol_rs.Wire.{Bytes, External}
use hypercore_protocol_rs.Platform.{Platform}
use hypercore_protocol_rs.Crypto.{
  HandshakeResult, replicate_capability, capability, remote_capability, compare_capability,
  verify_remote_capability,
}

module _ {x : External} (p : Platform x) where
  -- The capability that the other side of a handshake has to show for a key.
  abbrev pub Proves : HandshakeResult → Bytes → Bytes → Type 0
  Proves h key c = replicate_capability p (not h.is_initiator) key h.handshake_hash ≡ ok c

  -- If the capability of the other role can be computed, a remote capability is verified exactly if
  -- it is that one, and any other, or none, is refused with `PermissionDenied`.
  pub verify_remote_capability_lem :
      (h : HandshakeResult) (received : Option Bytes) (key c : Bytes)
      → Proves h key c
      → ((received ≡ some c) × (verify_remote_capability p h received key ≡ ok tt))
        ⊎ ((received ≢ some c)
            × (verify_remote_capability p h received key ≡ err (io permission_denied)))
  unfolding verify_remote_capability remote_capability compare_capability
  verify_remote_capability_lem h none key c e = inr (λ eq. cc, rw e)
  verify_remote_capability_lem h (some d) key c e = elim (Bool-cases (bytes_eq d c)) [
    | inl same ↦ inl (ap some (bytes_eq→eq d c same), rw (e, same))
    | inr differs ↦ inr (
      λ eq. let e' : d ≡ c = cc in let same : bytes_eq d c ≡ true = rw e' (bytes_eq_refl c) in cc,
      rw (e, differs),
    )
  ]

  compare_capability-ok :
      (received expected : Option Bytes)
      → compare_capability p received expected ≡ ok tt
      → (c : Bytes) × (received ≡ some c) × (expected ≡ some c)
  unfolding compare_capability
  compare_capability-ok (some a) (some b) h = elim (Bool-cases (bytes_eq a b)) [
    | inl same ↦ (b, ap some (bytes_eq→eq a b same), refl)
    | inr differs ↦ cc (rw differs at h)
  ]
  compare_capability-ok (some a) none h = cc
  compare_capability-ok none b h = cc

  -- A verified capability is there, and is the one that the other role computes.
  pub verified :
      (h : HandshakeResult) (received : Option Bytes) (key : Bytes)
      → verify_remote_capability p h received key ≡ ok tt
      → (c : Bytes) × (received ≡ some c) × Proves h key c
  unfolding verify_remote_capability remote_capability
  verified h received key e =
      let (expected, computed, compared) = >>=-eq-ok (remote_capability p h key) _ e in
      let (c, shown, same) = compare_capability-ok received expected compared in
      let (d, mac, returned) =
        >>=-eq-ok (replicate_capability p (not h.is_initiator) key h.handshake_hash) _ computed in
      let eq : d ≡ c = cc (same, returned) in (c, shown, mac ∙ ap ok eq)

  -- The capability that one side of a handshake shows for a key is verified by the other side, which
  -- has the other role, the same handshake hash and the same key.
  pub capability-verified :
      (ours theirs : HandshakeResult) (key : Bytes) (c : Option Bytes)
      → theirs.is_initiator ≡ not ours.is_initiator
      → theirs.handshake_hash ≡ ours.handshake_hash
      → capability p theirs key ≡ ok c
      → verify_remote_capability p ours c key ≡ ok tt
  unfolding verify_remote_capability remote_capability capability compare_capability
  capability-verified ours theirs key c role hash e =
      let (d, mac, returned) =
        >>=-eq-ok (replicate_capability p theirs.is_initiator key theirs.handshake_hash) _ e in
      let shown : c ≡ some d = cc in
      elim (verify_remote_capability_lem ours c key d (rw (role, hash) at mac)) [
        | inl accepted ↦ accepted.1
        | inr refused ↦ absurd (refused.0 shown)
      ]
