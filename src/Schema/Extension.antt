-- ===== src/Schema/Extension.antt =====
-- The `Extension` message of src/schema.rs.
use hypercore_protocol_rs.Prelude.{ℕ, ◌++◌, append_assoc, Result, ok, ◌>>=◌}
use hypercore_protocol_rs.Wire.{Bytes, Encoder, Decoder, CompactEncoding, External, ◌⨟◌, ◌⊕◌}
use hypercore_protocol_rs.Wire.Laws.{Encodes, Answers, Writes-⨟, ⊕-length, Answers-bind, Answers-ok}
use hypercore_protocol_rs.Wire.Contract.{Contract, IsVecU8}
use hypercore_protocol_rs.Wire.Total.{⊕-Ends, ⨟-Ends, CodecEnds, EncodersEnd}

pub record Extension : Type 0 where
  pub name : Bytes
  pub message : Bytes

module _ (x : External) where
  pub encoded_size : Extension → Result ℕ
  encoded_size w = x.string.encoded_size w.name ⊕ x.vec_u8.encoded_size w.message

  pub encode : Extension → Encoder
  encode w = x.string.encode w.name ⨟ x.vec_u8.encode w.message

  pub decode : Decoder Extension
  decode buffer = do
    (name, rest) ← x.string.decode buffer
    (message, rest') ← x.vec_u8.decode rest
    ok (record { name = name; message = message }, rest')

  abbrev pub codec : CompactEncoding Extension
  codec = record { encoded_size = encoded_size; encode = encode; decode = decode }

module _ (x : External) (k : Contract x) where
  abbrev pub IsValid : Extension → Type 0
  IsValid w = k.IsUtf8 w.name × IsVecU8 w.message

  abbrev pub bytes : Extension → Bytes
  bytes w = k.string_bytes w.name ++ k.vec_u8_bytes w.message

  pub codec-Encodes : (w : Extension) → IsValid w → Encodes (codec x) w (bytes w)
  unfolding encoded_size encode decode
  codec-Encodes w v =
      let s = k.string_lem w.name v.0 in
      let l = k.vec_u8_lem w.message v.1 in
      record {
        size = ⊕-length _ _ _ _ s.size l.size;
        writes = Writes-⨟ _ _ _ _ s.writes l.writes;
        reads = λ rest. simp (append_assoc, s.reads, l.reads);
      }

  pub decode-Answers : Answers 2 (decode x)
  unfolding decode
  decode-Answers =
      Answers-bind 1 1 _ _ k.string_answers
        λ name. Answers-bind 1 0 _ _ k.vec_u8_answers λ message. Answers-ok _

pub codec-Ends : (x : External) → EncodersEnd x → CodecEnds (codec x)
unfolding encoded_size encode
codec-Ends x e = record {
  size = λ m. ⊕-Ends _ _ (e.string.size m.name) (e.vec_u8.size m.message);
  encode = λ m. ⨟-Ends _ _ (e.string.encode m.name) (e.vec_u8.encode m.message);
}
