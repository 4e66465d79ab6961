-- ===== src/Schema/Synchronize.antt =====
-- The `Synchronize` message of src/schema.rs.
use hypercore_protocol_rs.Prelude.{
  ℕ, Bool, [], ◌∷◌, ◌++◌, ◌≡◌, refl, append_assoc, Result, ok, ◌>>=◌, arith, bit_or,
}
use hypercore_protocol_rs.Wire.{Bytes, Encoder, Decoder, CompactEncoding, External, ◌⨟◌, ◌⊕◌}
use hypercore_protocol_rs.Wire.Laws.{Encodes, Answers, Writes-⨟, ⊕-length, Answers-bind, Answers-ok}
use hypercore_protocol_rs.Wire.Contract.{Contract, IsU64}
use hypercore_protocol_rs.Schema.Flags.{
  flag, has_flag, take_flags, write_flags, take_flags-Reads, write_flags-Writes, take_flags-Answers,
  write_flags-Ends,
}
use hypercore_protocol_rs.Wire.Total.{⊕-Ends, ⨟-Ends, CodecEnds, EncodersEnd}

pub record Synchronize : Type 0 where
  pub fork : ℕ
  pub length : ℕ
  pub remote_length : ℕ
  pub downloading : Bool
  pub uploading : Bool
  pub can_upgrade : Bool

abbrev flags_of : Bool → Bool → Bool → ℕ
flags_of can_upgrade uploading downloading =
    bit_or (bit_or (flag 1 can_upgrade) (flag 2 uploading)) (flag 4 downloading)

module _ (x : External) where
  pub encoded_size : Synchronize → Result ℕ
  encoded_size m =
      ok 1
      ⊕ (x.u64.encoded_size m.fork
          ⊕ (x.u64.encoded_size m.length ⊕ x.u64.encoded_size m.remote_length))

  pub encode : Synchronize → Encoder
  encode m =
      write_flags x (flags_of m.can_upgrade m.uploading m.downloading)
      ⨟ x.u64.encode m.fork
      ⨟ x.u64.encode m.length
      ⨟ x.u64.encode m.remote_length

  pub decode : Decoder Synchronize
  decode buffer = do
    (flags, rest) ← take_flags x buffer
    (fork, rest) ← x.u64.decode rest
    (length, rest) ← x.u64.decode rest
    (remote_length, rest) ← x.u64.decode rest
    ok (
      record {
        fork = fork;
        length = length;
        remote_length = remote_length;
        downloading = has_flag flags 4;
        uploading = has_flag flags 2;
        can_upgrade = has_flag flags 1;
      },
      rest,
    )

  abbrev pub codec : CompactEncoding Synchronize
  codec = record { encoded_size = encoded_size; encode = encode; decode = decode }

abbrev pub IsValid : Synchronize → Type 0
IsValid m = IsU64 m.fork × IsU64 m.length × IsU64 m.remote_length

flags_hold :
    (a b c : Bool)
    → let flags = flags_of a b c in
      (has_flag flags 1 ≡ a) × (has_flag flags 2 ≡ b) × (has_flag flags 4 ≡ c)
flags_hold a b c = ground arith

module _ (x : External) (k : Contract x) where
  abbrev pub bytes : Synchronize → Bytes
  bytes m =
      (flags_of m.can_upgrade m.uploading m.downloading ∷ [])
      ++ (k.u64_bytes m.fork ++ (k.u64_bytes m.length ++ k.u64_bytes m.remote_length))

  pub codec-Encodes : (m : Synchronize) → IsValid m → Encodes (codec x) m (bytes m)
  unfolding encoded_size encode decode
  codec-Encodes m v =
      let f = k.u64_lem m.fork v.0 in
      let l = k.u64_lem m.length v.1 in
      let r = k.u64_lem m.remote_length v.2 in
      let flags = flags_of m.can_upgrade m.uploading m.downloading in
      let hold = flags_hold m.can_upgrade m.uploading m.downloading in
      record {
        size =
            ⊕-length _ _ (flags ∷ []) _ refl
              (⊕-length _ _ _ _ f.size (⊕-length _ _ _ _ l.size r.size));
        writes =
            Writes-⨟ _ _ _ _ (write_flags-Writes x k flags)
              (Writes-⨟ _ _ _ _ f.writes (Writes-⨟ _ _ _ _ l.writes r.writes));
        reads = λ rest.
            simp (append_assoc, take_flags-Reads x k flags, f.reads, l.reads, r.reads)
              (rw (hold.0, hold.1, hold.2));
      }

  pub decode-Answers : Answers 4 (decode x)
  unfolding decode
  decode-Answers = Answers-bind 1 3 _ _ (take_flags-Answers x k) λ flags.
      Answers-bind 1 2 _ _ k.u64_answers λ fork.
        Answers-bind 1 1 _ _ k.u64_answers
          λ length. Answers-bind 1 0 _ _ k.u64_answers λ remote_length. Answers-ok _

pub codec-Ends : (x : External) → EncodersEnd x → CodecEnds (codec x)
unfolding encoded_size encode
codec-Ends x e = record {
  size = λ m. ⊕-Ends (ok 1) _ tt (
      ⊕-Ends _ _ (e.u64.size m.fork)
        (⊕-Ends _ _ (e.u64.size m.length) (e.u64.size m.remote_length)));
  encode = λ m. ⨟-Ends _ _ (write_flags-Ends x e _) (
      ⨟-Ends _ _ (e.u64.encode m.fork)
        (⨟-Ends _ _ (e.u64.encode m.length) (e.u64.encode m.remote_length)));
}
