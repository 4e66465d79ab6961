-- ===== src/Schema/Open.antt =====
-- The `Open` message of src/schema.rs.
pub mod RoundTrip
use hypercore_protocol_rs.Prelude.{ℕ, Result, ok, ◌>>=◌, Option, none, some, [], ◌∷◌}
use hypercore_protocol_rs.Wire.{Bytes, Encoder, Decoder, CompactEncoding, External, ◌⨟◌, ◌⊕◌}
use hypercore_protocol_rs.Wire.Total.{Ends, EncoderEnds, ⊕-Ends, ⨟-Ends, CodecEnds, EncodersEnd}

pub record Open : Type 0 where
  pub channel : ℕ
  pub protocol : Bytes
  pub discovery_key : Bytes
  pub capability : Option Bytes

-- One byte of flags for future use, and 32 bytes for a capability of whatever length.
abbrev capability_size : Option Bytes → Result ℕ
capability_size none = ok 0
capability_size (some cap) = ok 33

module _ (x : External) where
  pub encoded_size : Open → Result ℕ
  encoded_size m =
      (x.u64.encoded_size m.channel
        ⊕ (x.string.encoded_size m.protocol ⊕ x.vec_u8.encoded_size m.discovery_key))
      ⊕ capability_size m.capability

  -- The flag byte is passed over: it keeps what the buffer held.
  pub encode_capability : Option Bytes → Encoder
  encode_capability none rest = ok ([], rest)
  encode_capability (some cap) rest = (x.take_array_mut 1 ⨟ x.write_slice cap) rest

  pub encode : Open → Encoder
  encode m =
      (x.u64.encode m.channel ⨟ x.string.encode m.protocol ⨟ x.vec_u8.encode m.discovery_key)
      ⨟ encode_capability m.capability

  -- An `Open` ends with its frame: whatever follows the discovery key is a capability.
  pub decode_capability : Decoder (Option Bytes)
  decode_capability [] = ok (none, [])
  decode_capability (b ∷ buffer) = do
    (_, rest) ← x.take_array 1 (b ∷ buffer)
    (capability, rest) ← x.take_array 32 rest
    ok (some capability, rest)

  pub decode : Decoder Open
  decode buffer = do
    (channel, rest) ← x.u64.decode buffer
    (protocol, rest) ← x.string.decode rest
    (discovery_key, rest) ← x.vec_u8.decode rest
    (capability, rest) ← decode_capability rest
    ok (
      record {
        channel = channel;
        protocol = protocol;
        discovery_key = discovery_key;
        capability = capability;
      },
      rest,
    )

  abbrev pub codec : CompactEncoding Open
  codec = record { encoded_size = encoded_size; encode = encode; decode = decode }

capability_size-Ends : (o : Option Bytes) → Ends (capability_size o)
capability_size-Ends none = tt
capability_size-Ends (some cap) = tt

encode_capability-Ends :
    (x : External) → EncodersEnd x → (o : Option Bytes) → EncoderEnds (encode_capability x o)
unfolding encode_capability
encode_capability-Ends x e none rest = tt
encode_capability-Ends x e (some cap) rest =
    ⨟-Ends _ _ (e.take_array_mut 1) (e.write_slice cap) rest

pub codec-Ends : (x : External) → EncodersEnd x → CodecEnds (codec x)
unfolding encoded_size encode
codec-Ends x e = record {
  size = λ m.
      ⊕-Ends _ _
        (⊕-Ends _ _ (e.u64.size m.channel)
          (⊕-Ends _ _ (e.string.size m.protocol) (e.vec_u8.size m.discovery_key)))
        (capability_size-Ends m.capability);
  encode = λ m.
      ⨟-Ends _ _
        (⨟-Ends _ _ (e.u64.encode m.channel)
          (⨟-Ends _ _ (e.string.encode m.protocol) (e.vec_u8.encode m.discovery_key)))
        (encode_capability-Ends x e m.capability);
}
