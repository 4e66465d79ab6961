-- ===== src/Schema/Bitfield.antt =====
-- The `Bitfield` message of src/schema.rs.
use hypercore_protocol_rs.Prelude.{ℕ, List, ◌++◌, append_assoc, Result, ok, ◌>>=◌}
use hypercore_protocol_rs.Wire.{Bytes, Encoder, Decoder, CompactEncoding, External, ◌⨟◌, ◌⊕◌}
use hypercore_protocol_rs.Wire.Laws.{Encodes, Answers, Writes-⨟, ⊕-length, Answers-bind, Answers-ok}
use hypercore_protocol_rs.Wire.Contract.{Contract, IsU64, IsVecU32}
use hypercore_protocol_rs.Wire.Total.{⊕-Ends, ⨟-Ends, CodecEnds, EncodersEnd}

pub record Bitfield : Type 0 where
  pub start : ℕ
  pub bitfield : List ℕ

module _ (x : External) where
  pub encoded_size : Bitfield → Result ℕ
  encoded_size w = x.u64.encoded_size w.start ⊕ x.vec_u32.encoded_size w.bitfield

  pub encode : Bitfield → Encoder
  encode w = x.u64.encode w.start ⨟ x.vec_u32.encode w.bitfield

  pub decode : Decoder Bitfield
  decode buffer = do
    (start, rest) ← x.u64.decode buffer
    (bitfield, rest') ← x.vec_u32.decode rest
    ok (record { start = start; bitfield = bitfield }, rest')

  abbrev pub codec : CompactEncoding Bitfield
  codec = record { encoded_size = encoded_size; encode = encode; decode = decode }

abbrev pub IsValid : Bitfield → Type 0
IsValid w = IsU64 w.start × IsVecU32 w.bitfield

module _ (x : External) (k : Contract x) where
  abbrev pub bytes : Bitfield → Bytes
  bytes w = k.u64_bytes w.start ++ k.vec_u32_bytes w.bitfield

  pub codec-Encodes : (w : Bitfield) → IsValid w → Encodes (codec x) w (bytes w)
  unfolding encoded_size encode decode
  codec-Encodes w v =
      let s = k.u64_lem w.start v.0 in
      let l = k.vec_u32_lem w.bitfield v.1 in
      record {
        size = ⊕-length _ _ _ _ s.size l.size;
        writes = Writes-⨟ _ _ _ _ s.writes l.writes;
        reads = λ rest. simp (append_assoc, s.reads, l.reads);
      }

  pub decode-Answers : Answers 2 (decode x)
  unfolding decode
  decode-Answers =
      Answers-bind 1 1 _ _ k.u64_answers
        λ start. Answers-bind 1 0 _ _ k.vec_u32_answers λ bitfield. Answers-ok _

pub codec-Ends : (x : External) → EncodersEnd x → CodecEnds (codec x)
unfolding encoded_size encode
codec-Ends x e = record {
  size = λ m. ⊕-Ends _ _ (e.u64.size m.start) (e.vec_u32.size m.bitfield);
  encode = λ m. ⨟-Ends _ _ (e.u64.encode m.start) (e.vec_u32.encode m.bitfield);
}
