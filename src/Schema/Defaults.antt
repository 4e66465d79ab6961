-- ===== src/Schema/Defaults.antt =====
-- Numbers that src/schema.rs leaves out of a message where they have their default: the priority of
-- a `Request` (0) and the length of a `Range` (1).
use hypercore_protocol_rs.Prelude.{
  ℕ, ◌≡◌, Bool, Bool-cases, true, false, ◌==◌, if◌then◌else◌, [], Result, ok, inl, inr, arith,
  length,
}
use hypercore_protocol_rs.Wire.{Bytes, Encoder, Decoder, External}
use hypercore_protocol_rs.Wire.Laws.{
  Writes, Reads, Answers, Answers-ok, Answers-weaken, Writes-none,
}
use hypercore_protocol_rs.Wire.Contract.{Contract, IsU64}
use hypercore_protocol_rs.Wire.Total.{Ends, EncoderEnds, EncodersEnd}

module _ (x : External) (default : ℕ) where
  -- `if value != default { out += value.encoded_size()? }`
  pub size_unless : ℕ → Result ℕ
  size_unless value = if value == default then ok 0 else x.u64.encoded_size value

  -- `if value != default { rest = value.encode(rest)? }`
  pub encode_unless : ℕ → Encoder
  encode_unless value buf = if value == default then ok ([], buf) else x.u64.encode value buf

  -- `if left_out { (default, rest) } else { u64::decode(rest)? }`
  pub decode_unless : Bool → Decoder ℕ
  decode_unless left_out buf = if left_out then ok (default, buf) else x.u64.decode buf

module _ (x : External) (k : Contract x) (default : ℕ) where
  abbrev pub bytes_unless : ℕ → Bytes
  bytes_unless value = if value == default then [] else k.u64_bytes value

  pub unless_size :
      (value : ℕ) → IsU64 value → size_unless x default value ≡ ok (length (bytes_unless value))
  unfolding size_unless
  unless_size value v = elim (Bool-cases (value == default)) [
    | inl e ↦ rw e
    | inr e ↦ rw e (k.u64_lem value v).size
  ]

  pub unless-Writes :
      (value : ℕ) → IsU64 value → Writes (encode_unless x default value) (bytes_unless value)
  unfolding encode_unless
  unless-Writes value v = elim (Bool-cases (value == default)) [
    | inl e ↦ rw e Writes-none
    | inr e ↦ rw e (k.u64_lem value v).writes
  ]

  pub unless-Reads :
      (value : ℕ) (left_out : Bool)
      → IsU64 value
      → left_out ≡ (value == default)
      → Reads (decode_unless x default left_out) value (bytes_unless value)
  unfolding decode_unless
  unless-Reads value left_out v h rest = elim (Bool-cases (value == default)) [
    | inl e ↦ rw (h, e) (ground arith)
    | inr e ↦ rw (h, e) ((k.u64_lem value v).reads rest)
  ]

  pub decode_unless-Answers : (left_out : Bool) → Answers 0 (decode_unless x default left_out)
  unfolding decode_unless
  decode_unless-Answers true = Answers-ok default
  decode_unless-Answers false = Answers-weaken 0 1 x.u64.decode (omega arith) k.u64_answers

module _ (x : External) (e : EncodersEnd x) (default : ℕ) where
  pub size_unless-Ends : (value : ℕ) → Ends (size_unless x default value)
  unfolding size_unless
  size_unless-Ends value = elim (Bool-cases (value == default)) [
    | inl left_out ↦ rw left_out tt
    | inr written ↦ rw written (e.u64.size value)
  ]

  pub encode_unless-Ends : (value : ℕ) → EncoderEnds (encode_unless x default value)
  unfolding encode_unless
  encode_unless-Ends value buf = elim (Bool-cases (value == default)) [
    | inl left_out ↦ rw left_out tt
    | inr written ↦ rw written (e.u64.encode value buf)
  ]
