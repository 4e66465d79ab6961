-- ===== src/Schema/Close.antt =====
-- The `Close` message of src/schema.rs.
use hypercore_protocol_rs.Prelude.{ℕ, Result, ok, ◌>>=◌}
use hypercore_protocol_rs.Wire.{Bytes, Encoder, Decoder, CompactEncoding, External}
use hypercore_protocol_rs.Wire.Laws.{Encodes, Answers, Answers-bind, Answers-ok}
use hypercore_protocol_rs.Wire.Contract.{Contract, IsU64}
use hypercore_protocol_rs.Wire.Total.{CodecEnds, EncodersEnd}

pub record Close : Type 0 where
  pub channel : ℕ

module _ (x : External) where
  pub encoded_size : Close → Result ℕ
  encoded_size m = x.u64.encoded_size m.channel

  pub encode : Close → Encoder
  encode m = x.u64.encode m.channel

  pub decode : Decoder Close
  decode buffer = do (channel, rest) ← x.u64.decode buffer; ok (record { channel = channel }, rest)

  abbrev pub codec : CompactEncoding Close
  codec = record { encoded_size = encoded_size; encode = encode; decode = decode }

abbrev pub IsValid : Close → Type 0
IsValid m = IsU64 m.channel

module _ (x : External) (k : Contract x) where
  abbrev pub bytes : Close → Bytes
  bytes m = k.u64_bytes m.channel

  pub codec-Encodes : (m : Close) → IsValid m → Encodes (codec x) m (bytes m)
  unfolding encoded_size encode decode
  codec-Encodes m v =
      let f = k.u64_lem m.channel v in
      record { size = f.size; writes = f.writes; reads = λ rest. simp f.reads }

  pub decode-Answers : Answers 1 (decode x)
  unfolding decode
  decode-Answers = Answers-bind 1 0 _ _ k.u64_answers λ channel. Answers-ok _

pub codec-Ends : (x : External) → EncodersEnd x → CodecEnds (codec x)
unfolding encoded_size encode
codec-Ends x e = record { size = λ m. e.u64.size m.channel; encode = λ m. e.u64.encode m.channel }
