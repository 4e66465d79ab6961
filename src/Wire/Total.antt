-- ===== src/Wire/Total.antt =====
-- Encoders that come to an end: what the crate relies on in the encoders of `compact_encoding` and
-- `hypercore_schema`, which return an error where a value or a buffer does not fit, and never panic.
use hypercore_protocol_rs.Prelude.{ℕ, Result, MayHalt, MayHalt-bind}
use hypercore_protocol_rs.Wire.{Bytes, Encoder, CompactEncoding, External, ◌⨟◌, ◌⊕◌}

-- A value or an error: no panic, and no loop without fuel.
abbrev pub Ends : {A : Type 0} → Result A → Type 0
Ends r = MayHalt ⊥ r

abbrev pub EncoderEnds : Encoder → Type 0
EncoderEnds e = (buf : Bytes) → Ends (e buf)

pub record CodecEnds {A : Type 0} (c : CompactEncoding A) : Type 0 where
  pub size : (a : A) → Ends (c.encoded_size a)
  pub encode : (a : A) → EncoderEnds (c.encode a)

pub record EncodersEnd (x : External) : Type 1 where
  pub u64 : CodecEnds x.u64
  pub string : CodecEnds x.string
  pub vec_u8 : CodecEnds x.vec_u8
  pub vec_u32 : CodecEnds x.vec_u32
  pub take_array_mut : (n : ℕ) → EncoderEnds (x.take_array_mut n)
  pub write_array : (bs : Bytes) → EncoderEnds (x.write_array bs)
  pub write_slice : (bs : Bytes) → EncoderEnds (x.write_slice bs)
  pub request_block : CodecEnds x.request_block
  pub request_seek : CodecEnds x.request_seek
  pub request_upgrade : CodecEnds x.request_upgrade
  pub data_block : CodecEnds x.data_block
  pub data_hash : CodecEnds x.data_hash
  pub data_seek : CodecEnds x.data_seek
  pub data_upgrade : CodecEnds x.data_upgrade
  -- It calls the two methods, and adds no panic of its own.
  pub to_encoded_bytes :
      (A : Type 0) (c : CompactEncoding A) (a : A)
      → Ends (c.encoded_size a)
      → EncoderEnds (c.encode a)
      → Ends (x.to_encoded_bytes A c a)

pub ⨟-Ends : (e f : Encoder) → EncoderEnds e → EncoderEnds f → EncoderEnds (e ⨟ f)
unfolding ◌⨟◌
⨟-Ends e f h k buf = MayHalt-bind ⊥ (e buf) _ (h buf) λ a. MayHalt-bind ⊥ (f a.1) _ (k a.1) λ b. tt

pub ⊕-Ends : (m n : Result ℕ) → Ends m → Ends n → Ends (m ⊕ n)
⊕-Ends m n h k = MayHalt-bind ⊥ m _ h λ a. MayHalt-bind ⊥ n _ k λ b. tt
