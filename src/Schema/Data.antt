-- ===== src/Schema/Data.antt =====
-- The `Data` message of src/schema.rs.
pub mod RoundTrip
use hypercore_protocol_rs.Prelude.{ℕ, Bool, not, ◌==◌, Result, ok, ◌>>=◌, Option}
use hypercore_protocol_rs.Wire.{Bytes, Encoder, Decoder, CompactEncoding, External, ◌⨟◌, ◌⊕◌}
use hypercore_protocol_rs.Schema.Flags.{
  has_flag, take_flags, write_flags, four_flags, is_some, maybe_decode, opt_encoded_size,
  opt_encoded_bytes, write_flags-Ends, opt_encoded_size-Ends, opt_encoded_bytes-Ends,
}
use hypercore_protocol_rs.Wire.Total.{⊕-Ends, ⨟-Ends, CodecEnds, EncodersEnd}

pub record Data (x : External) : Type 0 where
  pub request : ℕ
  pub fork : ℕ
  pub block : Option x.DataBlock
  pub hash : Option x.DataHash
  pub seek : Option x.DataSeek
  pub upgrade : Option x.DataUpgrade

-- The structure `Proof` of `hypercore_schema`, by the fields that the crate gives it.
pub record Proof (x : External) : Type 0 where
  pub fork : ℕ
  pub block : Option x.DataBlock
  pub hash : Option x.DataHash
  pub seek : Option x.DataSeek
  pub upgrade : Option x.DataUpgrade

module _ (x : External) where
  -- The flag byte that `encode` writes.
  abbrev pub flags_of : Data x → ℕ
  flags_of m = four_flags (is_some m.block) (is_some m.hash) (is_some m.seek) (is_some m.upgrade)

  pub encoded_size : Data x → Result ℕ
  encoded_size m =
      ok 1
      ⊕ (x.u64.encoded_size m.request
          ⊕ (x.u64.encoded_size m.fork
              ⊕ (opt_encoded_size x.data_block m.block
                  ⊕ (opt_encoded_size x.data_hash m.hash
                      ⊕ (opt_encoded_size x.data_seek m.seek
                          ⊕ opt_encoded_size x.data_upgrade m.upgrade)))))

  pub encode : Data x → Encoder
  encode m =
      write_flags x (flags_of m)
      ⨟ x.u64.encode m.request
      ⨟ x.u64.encode m.fork
      ⨟ opt_encoded_bytes x.data_block m.block
      ⨟ opt_encoded_bytes x.data_hash m.hash
      ⨟ opt_encoded_bytes x.data_seek m.seek
      ⨟ opt_encoded_bytes x.data_upgrade m.upgrade

  pub decode : Decoder (Data x)
  decode buffer = do
    (flags, rest) ← take_flags x buffer
    (request, rest) ← x.u64.decode rest
    (fork, rest) ← x.u64.decode rest
    (block, rest) ← maybe_decode (has_flag flags 1) x.data_block.decode rest
    (hash, rest) ← maybe_decode (has_flag flags 2) x.data_hash.decode rest
    (seek, rest) ← maybe_decode (has_flag flags 4) x.data_seek.decode rest
    (upgrade, rest) ← maybe_decode (has_flag flags 8) x.data_upgrade.decode rest
    ok (
      record {
        request = request;
        fork = fork;
        block = block;
        hash = hash;
        seek = seek;
        upgrade = upgrade;
      },
      rest,
    )

  abbrev pub codec : CompactEncoding (Data x)
  codec = record { encoded_size = encoded_size; encode = encode; decode = decode }

  -- `Data::into_proof`: a `Proof` of `hypercore_schema` has the fields of `Data` but the request.
  pub into_proof : Data x → Proof x
  into_proof m = record {
    fork = m.fork;
    block = m.block;
    hash = m.hash;
    seek = m.seek;
    upgrade = m.upgrade;
  }

pub codec-Ends : (x : External) → EncodersEnd x → CodecEnds (codec x)
unfolding encoded_size encode
codec-Ends x e = record {
  size = λ m. ⊕-Ends (ok 1) _ tt (
      ⊕-Ends _ _ (e.u64.size m.request) (
        ⊕-Ends _ _ (e.u64.size m.fork) (
          ⊕-Ends _ _ (opt_encoded_size-Ends x.data_block e.data_block m.block) (
            ⊕-Ends _ _ (opt_encoded_size-Ends x.data_hash e.data_hash m.hash) (
              ⊕-Ends _ _ (opt_encoded_size-Ends x.data_seek e.data_seek m.seek)
                (opt_encoded_size-Ends x.data_upgrade e.data_upgrade m.upgrade))))));
  encode = λ m. ⨟-Ends _ _ (write_flags-Ends x e _) (
      ⨟-Ends _ _ (e.u64.encode m.request) (
        ⨟-Ends _ _ (e.u64.encode m.fork) (
          ⨟-Ends _ _ (opt_encoded_bytes-Ends x.data_block e.data_block m.block) (
            ⨟-Ends _ _ (opt_encoded_bytes-Ends x.data_hash e.data_hash m.hash) (
              ⨟-Ends _ _ (opt_encoded_bytes-Ends x.data_seek e.data_seek m.seek)
                (opt_encoded_bytes-Ends x.data_upgrade e.data_upgrade m.upgrade))))));
}
