-- ===== src/Schema/Request/RoundTrip.antt =====
-- Requests of src/schema.rs: encoding, decoding, and their agreement.
use hypercore_protocol_rs.Prelude.{Bool, not, [], ◌∷◌, ◌++◌, ◌≡◌, ◌==◌, refl, append_assoc, arith}
use hypercore_protocol_rs.Wire.{Bytes, External}
use hypercore_protocol_rs.Wire.Laws.{Encodes, Answers, Writes-⨟, ⊕-length, Answers-bind, Answers-ok}
use hypercore_protocol_rs.Wire.Contract.{Contract, IsU64}
use hypercore_protocol_rs.Schema.Flags.{
  is_some, opt_bytes, opt_size, opt-Writes, opt-Reads, maybe_decode-Answers, six_flags_hold,
  take_flags-Reads, write_flags-Writes, take_flags-Answers,
}
use hypercore_protocol_rs.Schema.Defaults.{
  bytes_unless, unless_size, unless-Writes, unless-Reads, decode_unless-Answers,
}
use hypercore_protocol_rs.Schema.Request.{Request, flags_of, encoded_size, encode, decode, codec}

not-not : (b c : Bool) → b ≡ not c → not b ≡ c
not-not b c h = ground arith

module _ (x : External) (k : Contract x) where
  abbrev pub IsValid : Request x → Type 0
  IsValid m = IsU64 m.id × IsU64 m.fork × IsU64 m.priority

  abbrev pub bytes : Request x → Bytes
  bytes m =
      (flags_of x m ∷ [])
      ++ (k.u64_bytes m.id
          ++ (k.u64_bytes m.fork
              ++ (opt_bytes k.request_block_bytes m.block
                  ++ (opt_bytes k.request_block_bytes m.hash
                      ++ (opt_bytes k.request_seek_bytes m.seek
                          ++ (opt_bytes k.request_upgrade_bytes m.upgrade
                              ++ bytes_unless x k 0 m.priority))))))

  pub request-Encodes : (m : Request x) → IsValid m → Encodes (codec x) m (bytes m)
  unfolding encoded_size encode decode
  request-Encodes m v =
      let i = k.u64_lem m.id v.0 in
      let f = k.u64_lem m.fork v.1 in
      let hold =
        six_flags_hold (is_some m.block) (is_some m.hash) (is_some m.seek) (is_some m.upgrade)
          m.manifest (not (m.priority == 0)) in
      record {
        size = ⊕-length _ _ (flags_of x m ∷ []) _ refl (
            ⊕-length _ _ _ _ i.size (
              ⊕-length _ _ _ _ f.size (
                ⊕-length _ _ _ _ (opt_size _ _ k.request_block_lem m.block) (
                  ⊕-length _ _ _ _ (opt_size _ _ k.request_block_lem m.hash) (
                    ⊕-length _ _ _ _ (opt_size _ _ k.request_seek_lem m.seek) (
                      ⊕-length _ _ _ _ (opt_size _ _ k.request_upgrade_lem m.upgrade)
                        (unless_size x k 0 _ v.2)))))));
        writes = Writes-⨟ _ _ _ _ (write_flags-Writes x k (flags_of x m)) (
            Writes-⨟ _ _ _ _ i.writes (
              Writes-⨟ _ _ _ _ f.writes (
                Writes-⨟ _ _ _ _ (opt-Writes _ _ k.request_block_lem m.block) (
                  Writes-⨟ _ _ _ _ (opt-Writes _ _ k.request_block_lem m.hash) (
                    Writes-⨟ _ _ _ _ (opt-Writes _ _ k.request_seek_lem m.seek) (
                      Writes-⨟ _ _ _ _ (opt-Writes _ _ k.request_upgrade_lem m.upgrade)
                        (unless-Writes x k 0 _ v.2)))))));
        reads = λ rest.
            simp
              (
                append_assoc,
                take_flags-Reads x k (flags_of x m),
                i.reads,
                f.reads,
                opt-Reads _ _ k.request_block_lem m.block _ hold.0,
                opt-Reads _ _ k.request_block_lem m.hash _ hold.1,
                opt-Reads _ _ k.request_seek_lem m.seek _ hold.2,
                opt-Reads _ _ k.request_upgrade_lem m.upgrade _ hold.3,
                unless-Reads x k 0 m.priority _ v.2 (not-not _ _ hold.5),
              )
              (rw hold.4);
      }

  pub decode-Answers : Answers 3 (decode x)
  unfolding decode
  decode-Answers = Answers-bind 1 2 _ _ (take_flags-Answers x k) λ flags.
      Answers-bind 1 1 _ _ k.u64_answers λ id. Answers-bind 1 0 _ _ k.u64_answers λ fork.
        Answers-bind 0 0 _ _ (maybe_decode-Answers _ _ k.request_block_answers) λ block.
          Answers-bind 0 0 _ _ (maybe_decode-Answers _ _ k.request_block_answers) λ hash.
            Answers-bind 0 0 _ _ (maybe_decode-Answers _ _ k.request_seek_answers) λ seek.
              Answers-bind 0 0 _ _ (maybe_decode-Answers _ _ k.request_upgrade_answers)
                λ up. Answers-bind 0 0 _ _ (decode_unless-Answers x k 0 _) λ priority. Answers-ok _
