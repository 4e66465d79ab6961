-- ===== src/Wire.antt =====
-- The interface of the crates that the wire format is built from: `compact_encoding` and the
-- structures of `hypercore_schema`. Neither is part of the repository, so both are a parameter.
pub mod Laws
pub mod Contract
pub mod Total
use hypercore_protocol_rs.Prelude.{ℕ, ◌+◌, List, ◌++◌, Result, ok, ◌>>=◌}

abbrev pub Bytes : Type 0
Bytes = List ℕ

-- `encode` takes a buffer and returns the front of it, as it stands after the call, and the slice
-- that is left.
abbrev pub Encoder : Type 0
Encoder = Bytes → Result (Bytes × Bytes)

abbrev pub Decoder : Type 0 → Type 0
Decoder A = Bytes → Result (A × Bytes)

-- The trait `CompactEncoding`.
pub record CompactEncoding (A : Type 0) : Type 0 where
  pub encoded_size : A → Result ℕ
  pub encode : A → Encoder
  pub decode : Decoder A

-- The crates' functions and types. A Rust `String` is the list of its UTF-8 bytes.
pub record External : Type 1 where
  pub u64 : CompactEncoding ℕ
  pub decode_usize : Decoder ℕ
  pub string : CompactEncoding Bytes
  pub vec_u8 : CompactEncoding Bytes
  pub vec_u32 : CompactEncoding (List ℕ)
  pub take_array : ℕ → Decoder Bytes
  pub take_array_mut : ℕ → Encoder
  pub write_array : Bytes → Encoder
  pub write_slice : Bytes → Encoder
  -- The provided method `CompactEncoding::to_encoded_bytes`.
  pub to_encoded_bytes : (A : Type 0) → CompactEncoding A → A → Result Bytes
  pub RequestBlock : Type 0
  pub RequestSeek : Type 0
  pub RequestUpgrade : Type 0
  pub DataBlock : Type 0
  pub DataHash : Type 0
  pub DataSeek : Type 0
  pub DataUpgrade : Type 0
  pub request_block : CompactEncoding RequestBlock
  pub request_seek : CompactEncoding RequestSeek
  pub request_upgrade : CompactEncoding RequestUpgrade
  pub data_block : CompactEncoding DataBlock
  pub data_hash : CompactEncoding DataHash
  pub data_seek : CompactEncoding DataSeek
  pub data_upgrade : CompactEncoding DataUpgrade

-- `let rest = first.encode(buffer)?; second.encode(rest)`
infixr 6 ◌⨟◌
unfoldable pub ◌⨟◌ : Encoder → Encoder → Encoder
◌⨟◌ first second buffer = do
  (front, rest) ← first buffer
  (next, rest') ← second rest
  ok (front ++ next, rest')

-- `Ok(a? + b?)`
infixl 6 ◌⊕◌
abbrev pub ◌⊕◌ : Result ℕ → Result ℕ → Result ℕ
a ⊕ b = do m ← a; n ← b; ok (m + n)
