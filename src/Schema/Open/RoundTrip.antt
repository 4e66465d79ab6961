-- ===== src/Schema/Open/RoundTrip.antt =====
-- `Open` messages of src/schema.rs: what `encode` leaves in a buffer of the size that `encoded_size`
-- gives, and that `decode` reads it back.
use hypercore_protocol_rs.Prelude.{
  ℕ, [], ◌∷◌, ◌++◌, ◌≡◌, refl, append_assoc, append-nil, Option, none, some, arith, ok, length,
  length-append, inl,
}
use hypercore_protocol_rs.Wire.{Bytes, External, ◌⨟◌}
use hypercore_protocol_rs.Wire.Laws.{
  Answers, Writes, Writes-⨟, ⨟-step, ⊕-length, Answers-bind, Answers-ok, Answers-weaken,
  split_front,
}
use hypercore_protocol_rs.Wire.Contract.{Contract, IsU64, IsVecU8}
use hypercore_protocol_rs.Schema.Open.{
  Open, capability_size, encoded_size, encode_capability, encode, decode_capability, decode,
}

-- The capability, if there is one, has the 32 bytes that `encoded_size` counts.
abbrev pub HasSize : Option Bytes → Type 0
HasSize none = Unit {0}
HasSize (some cap) = length cap ≡ 32

abbrev pub capability_bytes : ℕ → Option Bytes → Bytes
capability_bytes flags none = []
capability_bytes flags (some cap) = flags ∷ cap

module _ (x : External) (k : Contract x) where
  abbrev pub IsValid : Open → Type 0
  IsValid m = IsU64 m.channel × k.IsUtf8 m.protocol × IsVecU8 m.discovery_key × HasSize m.capability

  abbrev head_bytes : Open → Bytes
  head_bytes m =
      k.u64_bytes m.channel ++ (k.string_bytes m.protocol ++ k.vec_u8_bytes m.discovery_key)

  -- `flags` is the byte that `encode` passes over.
  abbrev pub bytes : ℕ → Open → Bytes
  bytes flags m = head_bytes m ++ capability_bytes flags m.capability

  capability_size_lem :
      (flags : ℕ) (c : Option Bytes)
      → HasSize c
      → capability_size c ≡ ok (length (capability_bytes flags c))
  capability_size_lem flags none h = refl
  capability_size_lem flags (some cap) h = rw h

  pub encoded_size-bytes :
      (flags : ℕ) (m : Open) → IsValid m → encoded_size x m ≡ ok (length (bytes flags m))
  unfolding encoded_size
  encoded_size-bytes flags m v =
      ⊕-length _ _ (head_bytes m) (capability_bytes flags m.capability)
        (⊕-length _ _ _ _ (k.u64_lem m.channel v.0).size (
          ⊕-length _ _ _ _ (k.string_lem m.protocol v.1).size
            (k.vec_u8_lem m.discovery_key v.2).size))
        (capability_size_lem flags m.capability v.3)

  encode_capability_lem :
      (c : Option Bytes) (old rest : Bytes)
      → length old ≡ length (capability_bytes 0 c)
      → (flags : ℕ) × (encode_capability x c (old ++ rest) ≡ ok (capability_bytes flags c, rest))
  unfolding encode_capability ◌⨟◌
  encode_capability_lem none [] rest h = (0, refl)
  encode_capability_lem none (b ∷ old) rest h = absurd (omega arith)
  encode_capability_lem (some cap) [] rest h = absurd (omega arith)
  encode_capability_lem (some cap) (b ∷ old) rest h = (
    b,
    rw (k.take_array_mut_lem (b ∷ []) (old ++ rest), k.write_slice_lem cap old rest (omega arith)),
  )

  head-Writes :
      (m : Open)
      → IsValid m
      → Writes
          (x.u64.encode m.channel ⨟ x.string.encode m.protocol ⨟ x.vec_u8.encode m.discovery_key)
          (head_bytes m)
  head-Writes m v = Writes-⨟ _ _ _ _ (k.u64_lem m.channel v.0).writes (
      Writes-⨟ _ _ _ _ (k.string_lem m.protocol v.1).writes
        (k.vec_u8_lem m.discovery_key v.2).writes)

  -- In a buffer of the size that `encoded_size` gives, `encode` leaves the encoding.
  pub encode-bytes :
      (m : Open) (old rest : Bytes)
      → IsValid m
      → length old ≡ length (bytes 0 m)
      → (flags : ℕ) × (encode x m (old ++ rest) ≡ ok (bytes flags m, rest))
  unfolding encode
  encode-bytes m old rest v h =
      let (front, back, split, hf, hb) =
        split_front old rest (length (head_bytes m)) (length (capability_bytes 0 m.capability))
          (omega (arith, h, length-append (head_bytes m) (capability_bytes 0 m.capability))) in
      let (flags, filled) = encode_capability_lem m.capability back rest hb in
      (
        flags,
        rw split (
            ⨟-step _ _ (head_bytes m) (capability_bytes flags m.capability) front back rest
              (head-Writes m v) hf filled),
      )

  all_taken : (cap : Bytes) → length cap ≡ 32 → x.take_array 32 cap ≡ ok (cap, [])
  all_taken cap h = rw (h, append-nil) at (k.take_array_lem cap [])

  decode_capability-bytes :
      (flags : ℕ) (c : Option Bytes)
      → HasSize c
      → decode_capability x (capability_bytes flags c) ≡ ok (c, [])
  unfolding decode_capability
  decode_capability-bytes flags none h = refl
  decode_capability-bytes flags (some cap) h =
      rw (k.take_array_lem (flags ∷ []) cap, all_taken cap h)

  -- `decode` reads the encoding back, whatever the flag byte.
  pub decode-bytes : (flags : ℕ) (m : Open) → IsValid m → decode x (bytes flags m) ≡ ok (m, [])
  unfolding decode
  decode-bytes flags m v = simp (
    append_assoc,
    (k.u64_lem m.channel v.0).reads,
    (k.string_lem m.protocol v.1).reads,
    (k.vec_u8_lem m.discovery_key v.2).reads,
    decode_capability-bytes flags m.capability v.3,
  )

  decode_capability-Answers : Answers 0 (decode_capability x)
  unfolding decode_capability
  decode_capability-Answers [] = inl (none, [], refl, omega arith)
  decode_capability-Answers (b ∷ buffer) =
      Answers-weaken 0 33 _ (omega arith)
        (Answers-bind 1 32 _ _ (k.take_array_answers 1)
          (λ _. Answers-bind 32 0 _ _ (k.take_array_answers 32) λ cap. Answers-ok (some cap)))
        (b ∷ buffer)

  pub decode-Answers : Answers 3 (decode x)
  unfolding decode
  decode-Answers = Answers-bind 1 2 _ _ k.u64_answers λ channel.
      Answers-bind 1 1 _ _ k.string_answers λ protocol.
        Answers-bind 1 0 _ _ k.vec_u8_answers
          λ discovery_key. Answers-bind 0 0 _ _ decode_capability-Answers λ capability. Answers-ok _
