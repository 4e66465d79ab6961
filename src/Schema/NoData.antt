-- ===== src/Schema/NoData.antt =====
-- The `NoData` message of src/schema.rs.
use hypercore_protocol_rs.Prelude.{ℕ, Result, ok, ◌>>=◌}
use hypercore_protocol_rs.Wire.{Bytes, Encoder, Decoder, CompactEncoding, External}
use hypercore_protocol_rs.Wire.Laws.{Encodes, Answers, Answers-bind, Answers-ok}
use hypercore_protocol_rs.Wire.Contract.{Contract, IsU64}
use hypercore_protocol_rs.Wire.Total.{CodecEnds, EncodersEnd}

pub record NoData : Type 0 where
  pub request : ℕ

module _ (x : External) where
  pub encoded_size : NoData → Result ℕ
  encoded_size m = x.u64.encoded_size m.request

  pub encode : NoData → Encoder
  encode m = x.u64.encode m.request

  pub decode : Decoder NoData
  decode buffer = do (request, rest) ← x.u64.decode buffer; ok (record { request = request }, rest)

  abbrev pub codec : CompactEncoding NoData
  codec = record { encoded_size = encoded_size; encode = encode; decode = decode }

abbrev pub IsValid : NoData → Type 0
IsValid m = IsU64 m.request

module _ (x : External) (k : Contract x) where
  abbrev pub bytes : NoData → Bytes
  bytes m = k.u64_bytes m.request

  pub codec-Encodes : (m : NoData) → IsValid m → Encodes (codec x) m (bytes m)
  unfolding encoded_size encode decode
  codec-Encodes m v =
      let f = k.u64_lem m.request v in
      record { size = f.size; writes = f.writes; reads = λ rest. simp f.reads }

  pub decode-Answers : Answers 1 (decode x)
  unfolding decode
  decode-Answers = Answers-bind 1 0 _ _ k.u64_answers λ request. Answers-ok _

pub codec-Ends : (x : External) → EncodersEnd x → CodecEnds (codec x)
unfolding encoded_size encode
codec-Ends x e = record { size = λ m. e.u64.size m.request; encode = λ m. e.u64.encode m.request }
