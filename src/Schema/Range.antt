-- ===== src/Schema/Range.antt =====
-- The `Range` message of src/schema.rs.
use hypercore_protocol_rs.Prelude.{
  ℕ, Bool, [], ◌∷◌, ◌++◌, ◌≡◌, ◌==◌, refl, append_assoc, Result, ok, ◌>>=◌, arith, bit_or,
}
use hypercore_protocol_rs.Wire.{Bytes, Encoder, Decoder, CompactEncoding, External, ◌⨟◌, ◌⊕◌}
use hypercore_protocol_rs.Wire.Laws.{Encodes, Answers, Writes-⨟, ⊕-length, Answers-bind, Answers-ok}
use hypercore_protocol_rs.Wire.Contract.{Contract, IsU64}
use hypercore_protocol_rs.Schema.Flags.{
  flag, has_flag, take_flags, write_flags, take_flags-Reads, write_flags-Writes, take_flags-Answers,
  write_flags-Ends,
}
use hypercore_protocol_rs.Schema.Defaults.{
  size_unless, encode_unless, decode_unless, bytes_unless, unless_size, unless-Writes, unless-Reads,
  decode_unless-Answers, size_unless-Ends, encode_unless-Ends,
}
use hypercore_protocol_rs.Wire.Total.{⊕-Ends, ⨟-Ends, CodecEnds, EncodersEnd}

pub record Range : Type 0 where
  pub drop : Bool
  pub start : ℕ
  pub length : ℕ

abbrev flags_of : Bool → Bool → ℕ
flags_of drop is_one = bit_or (flag 1 drop) (flag 2 is_one)

module _ (x : External) where
  pub encoded_size : Range → Result ℕ
  encoded_size m = ok 1 ⊕ (x.u64.encoded_size m.start ⊕ size_unless x 1 m.length)

  pub encode : Range → Encoder
  encode m =
      write_flags x (flags_of m.drop (m.length == 1))
      ⨟ x.u64.encode m.start
      ⨟ encode_unless x 1 m.length

  pub decode : Decoder Range
  decode buffer = do
    (flags, rest) ← take_flags x buffer
    (start, rest) ← x.u64.decode rest
    (length, rest) ← decode_unless x 1 (has_flag flags 2) rest
    ok (record { drop = has_flag flags 1; start = start; length = length }, rest)

  abbrev pub codec : CompactEncoding Range
  codec = record { encoded_size = encoded_size; encode = encode; decode = decode }

abbrev pub IsValid : Range → Type 0
IsValid m = IsU64 m.start × IsU64 m.length

flags_hold :
    (a b : Bool) → let flags = flags_of a b in (has_flag flags 1 ≡ a) × (has_flag flags 2 ≡ b)
flags_hold a b = ground arith

module _ (x : External) (k : Contract x) where
  abbrev pub bytes : Range → Bytes
  bytes m =
      (flags_of m.drop (m.length == 1) ∷ []) ++ (k.u64_bytes m.start ++ bytes_unless x k 1 m.length)

  pub codec-Encodes : (m : Range) → IsValid m → Encodes (codec x) m (bytes m)
  unfolding encoded_size encode decode
  codec-Encodes m v =
      let s = k.u64_lem m.start v.0 in
      let flags = flags_of m.drop (m.length == 1) in
      let hold = flags_hold m.drop (m.length == 1) in
      record {
        size = ⊕-length _ _ (flags ∷ []) _ refl (⊕-length _ _ _ _ s.size (unless_size x k 1 _ v.1));
        writes =
            Writes-⨟ _ _ _ _ (write_flags-Writes x k flags)
              (Writes-⨟ _ _ _ _ s.writes (unless-Writes x k 1 _ v.1));
        reads = λ rest.
            simp
              (
                append_assoc,
                take_flags-Reads x k flags,
                s.reads,
                unless-Reads x k 1 m.length _ v.1 hold.1,
              )
              (rw hold.0);
      }

  pub decode-Answers : Answers 2 (decode x)
  unfolding decode
  decode-Answers = Answers-bind 1 1 _ _ (take_flags-Answers x k) λ flags.
      Answers-bind 1 0 _ _ k.u64_answers
        λ start. Answers-bind 0 0 _ _ (decode_unless-Answers x k 1 _) λ length. Answers-ok _

pub codec-Ends : (x : External) → EncodersEnd x → CodecEnds (codec x)
unfolding encoded_size encode
codec-Ends x e = record {
  size =
      λ m. ⊕-Ends (ok 1) _ tt (⊕-Ends _ _ (e.u64.size m.start) (size_unless-Ends x e 1 m.length));
  encode = λ m.
      ⨟-Ends _ _ (write_flags-Ends x e _)
        (⨟-Ends _ _ (e.u64.encode m.start) (encode_unless-Ends x e 1 m.length));
}
