-- ===== src/Schema/Request.antt =====
-- The `Request` message of src/schema.rs.
pub mod RoundTrip
use hypercore_protocol_rs.Prelude.{ℕ, Bool, not, ◌==◌, Result, ok, ◌>>=◌, Option}
use hypercore_protocol_rs.Wire.{Bytes, Encoder, Decoder, CompactEncoding, External, ◌⨟◌, ◌⊕◌}
use hypercore_protocol_rs.Schema.Flags.{
  has_flag, take_flags, write_flags, six_flags, is_some, maybe_decode, opt_encoded_size,
  opt_encoded_bytes, write_flags-Ends, opt_encoded_size-Ends, opt_encoded_bytes-Ends,
}
use hypercore_protocol_rs.Schema.Defaults.{
  size_unless, encode_unless, decode_unless, size_unless-Ends, encode_unless-Ends,
}
use hypercore_protocol_rs.Wire.Total.{⊕-Ends, ⨟-Ends, CodecEnds, EncodersEnd}

pub record Request (x : External) : Type 0 where
  pub id : ℕ
  pub fork : ℕ
  pub block : Option x.RequestBlock
  pub hash : Option x.RequestBlock
  pub seek : Option x.RequestSeek
  pub upgrade : Option x.RequestUpgrade
  pub manifest : Bool
  pub priority : ℕ

module _ (x : External) where
  -- The flag byte that `encode` writes.
  abbrev pub flags_of : Request x → ℕ
  flags_of m =
      six_flags (is_some m.block) (is_some m.hash) (is_some m.seek) (is_some m.upgrade) m.manifest
        (not (m.priority == 0))

  pub encoded_size : Request x → Result ℕ
  encoded_size m =
      ok 1
      ⊕ (x.u64.encoded_size m.id
          ⊕ (x.u64.encoded_size m.fork
              ⊕ (opt_encoded_size x.request_block m.block
                  ⊕ (opt_encoded_size x.request_block m.hash
                      ⊕ (opt_encoded_size x.request_seek m.seek
                          ⊕ (opt_encoded_size x.request_upgrade m.upgrade
                              ⊕ size_unless x 0 m.priority))))))

  pub encode : Request x → Encoder
  encode m =
      write_flags x (flags_of m)
      ⨟ x.u64.encode m.id
      ⨟ x.u64.encode m.fork
      ⨟ opt_encoded_bytes x.request_block m.block
      ⨟ opt_encoded_bytes x.request_block m.hash
      ⨟ opt_encoded_bytes x.request_seek m.seek
      ⨟ opt_encoded_bytes x.request_upgrade m.upgrade
      ⨟ encode_unless x 0 m.priority

  pub decode : Decoder (Request x)
  decode buffer = do
    (flags, rest) ← take_flags x buffer
    (id, rest) ← x.u64.decode rest
    (fork, rest) ← x.u64.decode rest
    (block, rest) ← maybe_decode (has_flag flags 1) x.request_block.decode rest
    (hash, rest) ← maybe_decode (has_flag flags 2) x.request_block.decode rest
    (seek, rest) ← maybe_decode (has_flag flags 4) x.request_seek.decode rest
    (upgrade, rest) ← maybe_decode (has_flag flags 8) x.request_upgrade.decode rest
    (priority, rest) ← decode_unless x 0 (not (has_flag flags 32)) rest
    ok (
      record {
        id = id;
        fork = fork;
        block = block;
        hash = hash;
        seek = seek;
        upgrade = upgrade;
        manifest = has_flag flags 16;
        priority = priority;
      },
      rest,
    )

  abbrev pub codec : CompactEncoding (Request x)
  codec = record { encoded_size = encoded_size; encode = encode; decode = decode }

pub codec-Ends : (x : External) → EncodersEnd x → CodecEnds (codec x)
unfolding encoded_size encode
codec-Ends x e = record {
  size = λ m. ⊕-Ends (ok 1) _ tt (
      ⊕-Ends _ _ (e.u64.size m.id) (
        ⊕-Ends _ _ (e.u64.size m.fork) (
          ⊕-Ends _ _ (opt_encoded_size-Ends x.request_block e.request_block m.block) (
            ⊕-Ends _ _ (opt_encoded_size-Ends x.request_block e.request_block m.hash) (
              ⊕-Ends _ _ (opt_encoded_size-Ends x.request_seek e.request_seek m.seek) (
                ⊕-Ends _ _ (opt_encoded_size-Ends x.request_upgrade e.request_upgrade m.upgrade)
                  (size_unless-Ends x e 0 m.priority)))))));
  encode = λ m. ⨟-Ends _ _ (write_flags-Ends x e _) (
      ⨟-Ends _ _ (e.u64.encode m.id) (
        ⨟-Ends _ _ (e.u64.encode m.fork) (
          ⨟-Ends _ _ (opt_encoded_bytes-Ends x.request_block e.request_block m.block) (
            ⨟-Ends _ _ (opt_encoded_bytes-Ends x.request_block e.request_block m.hash) (
              ⨟-Ends _ _ (opt_encoded_bytes-Ends x.request_seek e.request_seek m.seek) (
                ⨟-Ends _ _ (opt_encoded_bytes-Ends x.request_upgrade e.request_upgrade m.upgrade)
                  (encode_unless-Ends x e 0 m.priority)))))));
}
