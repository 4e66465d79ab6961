-- ===== src/Schema/Data/RoundTrip.antt =====
-- Data messages of src/schema.rs: encoding, decoding, and their agreement.
use hypercore_protocol_rs.Prelude.{[], ◌∷◌, ◌++◌, refl, append_assoc}
use hypercore_protocol_rs.Wire.{Bytes, External}
use hypercore_protocol_rs.Wire.Laws.{Encodes, Answers, Writes-⨟, ⊕-length, Answers-bind, Answers-ok}
use hypercore_protocol_rs.Wire.Contract.{Contract, IsU64}
use hypercore_protocol_rs.Schema.Flags.{
  is_some, opt_bytes, opt_size, opt-Writes, opt-Reads, maybe_decode-Answers, four_flags_hold,
  take_flags-Reads, write_flags-Writes, take_flags-Answers,
}
use hypercore_protocol_rs.Schema.Data.{Data, flags_of, encoded_size, encode, decode, codec}

module _ (x : External) (k : Contract x) where
  abbrev pub IsValid : Data x → Type 0
  IsValid m = IsU64 m.request × IsU64 m.fork

  abbrev pub bytes : Data x → Bytes
  bytes m =
      (flags_of x m ∷ [])
      ++ (k.u64_bytes m.request
          ++ (k.u64_bytes m.fork
              ++ (opt_bytes k.data_block_bytes m.block
                  ++ (opt_bytes k.data_hash_bytes m.hash
                      ++ (opt_bytes k.data_seek_bytes m.seek
                          ++ opt_bytes k.data_upgrade_bytes m.upgrade)))))

  pub data-Encodes : (m : Data x) → IsValid m → Encodes (codec x) m (bytes m)
  unfolding encoded_size encode decode
  data-Encodes m v =
      let i = k.u64_lem m.request v.0 in
      let f = k.u64_lem m.fork v.1 in
      let hold =
        four_flags_hold (is_some m.block) (is_some m.hash) (is_some m.seek) (is_some m.upgrade) in
      record {
        size = ⊕-length _ _ (flags_of x m ∷ []) _ refl (
            ⊕-length _ _ _ _ i.size (
              ⊕-length _ _ _ _ f.size (
                ⊕-length _ _ _ _ (opt_size _ _ k.data_block_lem m.block) (
                  ⊕-length _ _ _ _ (opt_size _ _ k.data_hash_lem m.hash) (
                    ⊕-length _ _ _ _ (opt_size _ _ k.data_seek_lem m.seek)
                      (opt_size _ _ k.data_upgrade_lem m.upgrade))))));
        writes = Writes-⨟ _ _ _ _ (write_flags-Writes x k (flags_of x m)) (
            Writes-⨟ _ _ _ _ i.writes (
              Writes-⨟ _ _ _ _ f.writes (
                Writes-⨟ _ _ _ _ (opt-Writes _ _ k.data_block_lem m.block) (
                  Writes-⨟ _ _ _ _ (opt-Writes _ _ k.data_hash_lem m.hash) (
                    Writes-⨟ _ _ _ _ (opt-Writes _ _ k.data_seek_lem m.seek)
                      (opt-Writes _ _ k.data_upgrade_lem m.upgrade))))));
        reads = λ rest. simp (
          append_assoc,
          take_flags-Reads x k (flags_of x m),
          i.reads,
          f.reads,
          opt-Reads _ _ k.data_block_lem m.block _ hold.0,
          opt-Reads _ _ k.data_hash_lem m.hash _ hold.1,
          opt-Reads _ _ k.data_seek_lem m.seek _ hold.2,
          opt-Reads _ _ k.data_upgrade_lem m.upgrade _ hold.3,
        );
      }

  pub decode-Answers : Answers 3 (decode x)
  unfolding decode
  decode-Answers = Answers-bind 1 2 _ _ (take_flags-Answers x k) λ flags.
      Answers-bind 1 1 _ _ k.u64_answers λ id. Answers-bind 1 0 _ _ k.u64_answers λ fork.
        Answers-bind 0 0 _ _ (maybe_decode-Answers _ _ k.data_block_answers) λ block.
          Answers-bind 0 0 _ _ (maybe_decode-Answers _ _ k.data_hash_answers) λ hash.
            Answers-bind 0 0 _ _ (maybe_decode-Answers _ _ k.data_seek_answers) λ seek.
              Answers-bind 0 0 _ _ (maybe_decode-Answers _ _ k.data_upgrade_answers)
                λ up. Answers-ok _
