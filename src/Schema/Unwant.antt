-- ===== src/Schema/Unwant.antt =====
-- The `Unwant` message of src/schema.rs.
use hypercore_protocol_rs.Prelude.{ℕ, ◌++◌, append_assoc, Result, ok, ◌>>=◌}
use hypercore_protocol_rs.Wire.{Bytes, Encoder, Decoder, CompactEncoding, External, ◌⨟◌, ◌⊕◌}
use hypercore_protocol_rs.Wire.Laws.{Encodes, Answers, Writes-⨟, ⊕-length, Answers-bind, Answers-ok}
use hypercore_protocol_rs.Wire.Contract.{Contract, IsU64}
use hypercore_protocol_rs.Wire.Total.{⊕-Ends, ⨟-Ends, CodecEnds, EncodersEnd}

pub record Unwant : Type 0 where
  pub start : ℕ
  pub length : ℕ

module _ (x : External) where
  pub encoded_size : Unwant → Result ℕ
  encoded_size w = x.u64.encoded_size w.start ⊕ x.u64.encoded_size w.length

  pub encode : Unwant → Encoder
  encode w = x.u64.encode w.start ⨟ x.u64.encode w.length

  pub decode : Decoder Unwant
  decode buffer = do
    (start, rest) ← x.u64.decode buffer
    (length, rest') ← x.u64.decode rest
    ok (record { start = start; length = length }, rest')

  abbrev pub codec : CompactEncoding Unwant
  codec = record { encoded_size = encoded_size; encode = encode; decode = decode }

abbrev pub IsValid : Unwant → Type 0
IsValid w = IsU64 w.start × IsU64 w.length

module _ (x : External) (k : Contract x) where
  abbrev pub bytes : Unwant → Bytes
  bytes w = k.u64_bytes w.start ++ k.u64_bytes w.length

  pub codec-Encodes : (w : Unwant) → IsValid w → Encodes (codec x) w (bytes w)
  unfolding encoded_size encode decode
  codec-Encodes w v =
      let s = k.u64_lem w.start v.0 in
      let l = k.u64_lem w.length v.1 in
      record {
        size = ⊕-length _ _ _ _ s.size l.size;
        writes = Writes-⨟ _ _ _ _ s.writes l.writes;
        reads = λ rest. simp (append_assoc, s.reads, l.reads);
      }

  pub decode-Answers : Answers 2 (decode x)
  unfolding decode
  decode-Answers =
      Answers-bind 1 1 _ _ k.u64_answers
        λ start. Answers-bind 1 0 _ _ k.u64_answers λ length. Answers-ok _

pub codec-Ends : (x : External) → EncodersEnd x → CodecEnds (codec x)
unfolding encoded_size encode
codec-Ends x e = record {
  size = λ m. ⊕-Ends _ _ (e.u64.size m.start) (e.u64.size m.length);
  encode = λ m. ⨟-Ends _ _ (e.u64.encode m.start) (e.u64.encode m.length);
}
