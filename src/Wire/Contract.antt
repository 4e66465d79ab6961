-- ===== src/Wire/Contract.antt =====
-- What the crate relies on in `compact_encoding` and in the codecs of `hypercore_schema`: documented
-- behaviour of code outside the repository, as named hypotheses.
use hypercore_protocol_rs.Prelude.{
  ℕ, ◌^◌, ◌≤◌, ◌<◌, ◌≡◌, ◌≢◌, List, [], ◌∷◌, ◌++◌, ok, length, replicate, All,
}
use hypercore_protocol_rs.Wire.{Bytes, External, CompactEncoding}
use hypercore_protocol_rs.Wire.Laws.{Encodes, Writes, Reads, Answers}

abbrev pub IsU64 : ℕ → Type 0
IsU64 v = v < 2 ^ 64

abbrev pub IsVecU8 : Bytes → Type 0
IsVecU8 v = IsU64 (length v) × All (λ b. b < 256) v

abbrev pub IsVecU32 : List ℕ → Type 0
IsVecU32 v = IsU64 (length v) × All (λ b. b < 2 ^ 32) v

pub record Contract (x : External) : Type 1 where
  -- An unsigned integer is one byte below 253, and otherwise a non-zero tag and its bytes.
  pub u64_bytes : ℕ → Bytes
  pub u64_lem : (v : ℕ) → IsU64 v → Encodes x.u64 v (u64_bytes v)
  pub u64_small : (v : ℕ) → v < 253 → u64_bytes v ≡ v ∷ []
  pub u64_large : (v : ℕ) → 253 ≤ v → (b : ℕ) × (bs : Bytes) × (u64_bytes v ≡ b ∷ bs) × (b ≢ 0)
  pub u64_answers : Answers 1 x.u64.decode
  -- A `usize` is read as a `u64` is.
  pub usize_reads : (v : ℕ) → IsU64 v → Reads x.decode_usize v (u64_bytes v)
  pub usize_answers : Answers 1 x.decode_usize
  -- Texts and vectors carry their length in front.
  pub IsUtf8 : Bytes → Type 0
  pub string_bytes : Bytes → Bytes
  pub string_lem : (s : Bytes) → IsUtf8 s → Encodes x.string s (string_bytes s)
  pub string_length : (s : Bytes) → length s < length (string_bytes s)
  pub string_answers : Answers 1 x.string.decode
  pub vec_u8_bytes : Bytes → Bytes
  pub vec_u8_lem : (v : Bytes) → IsVecU8 v → Encodes x.vec_u8 v (vec_u8_bytes v)
  pub vec_u8_length : (v : Bytes) → length v < length (vec_u8_bytes v)
  pub vec_u8_answers : Answers 1 x.vec_u8.decode
  pub vec_u32_bytes : List ℕ → Bytes
  pub vec_u32_lem : (v : List ℕ) → IsVecU32 v → Encodes x.vec_u32 v (vec_u32_bytes v)
  pub vec_u32_answers : Answers 1 x.vec_u32.decode
  -- Slices of a fixed length.
  pub take_array_lem :
      (front rest : Bytes) → x.take_array (length front) (front ++ rest) ≡ ok (front, rest)
  pub take_array_answers : (n : ℕ) → Answers n (x.take_array n)
  pub take_array_mut_lem :
      (front rest : Bytes) → x.take_array_mut (length front) (front ++ rest) ≡ ok (front, rest)
  pub take_array_returns :
      (n : ℕ) (buf front rest : Bytes) → x.take_array n buf ≡ ok (front, rest) → length front ≡ n
  pub write_array_lem : (bs : Bytes) → Writes (x.write_array bs) bs
  pub write_slice_lem : (bs : Bytes) → Writes (x.write_slice bs) bs
  -- It encodes into a zeroed buffer of the encoded size.
  pub to_encoded_bytes_lem :
      (A : Type 0) (c : CompactEncoding A) (a : A) (n : ℕ) (bs : Bytes)
      → c.encoded_size a ≡ ok n
      → c.encode a (replicate n 0) ≡ ok (bs, [])
      → x.to_encoded_bytes A c a ≡ ok bs
  -- The parts of requests and of data.
  pub request_block_bytes : x.RequestBlock → Bytes
  pub request_block_lem : (b : x.RequestBlock) → Encodes x.request_block b (request_block_bytes b)
  pub request_block_answers : Answers 0 x.request_block.decode
  pub request_seek_bytes : x.RequestSeek → Bytes
  pub request_seek_lem : (b : x.RequestSeek) → Encodes x.request_seek b (request_seek_bytes b)
  pub request_seek_answers : Answers 0 x.request_seek.decode
  pub request_upgrade_bytes : x.RequestUpgrade → Bytes
  pub request_upgrade_lem :
      (b : x.RequestUpgrade) → Encodes x.request_upgrade b (request_upgrade_bytes b)
  pub request_upgrade_answers : Answers 0 x.request_upgrade.decode
  pub data_block_bytes : x.DataBlock → Bytes
  pub data_block_lem : (b : x.DataBlock) → Encodes x.data_block b (data_block_bytes b)
  pub data_block_answers : Answers 0 x.data_block.decode
  pub data_hash_bytes : x.DataHash → Bytes
  pub data_hash_lem : (b : x.DataHash) → Encodes x.data_hash b (data_hash_bytes b)
  pub data_hash_answers : Answers 0 x.data_hash.decode
  pub data_seek_bytes : x.DataSeek → Bytes
  pub data_seek_lem : (b : x.DataSeek) → Encodes x.data_seek b (data_seek_bytes b)
  pub data_seek_answers : Answers 0 x.data_seek.decode
  pub data_upgrade_bytes : x.DataUpgrade → Bytes
  pub data_upgrade_lem : (b : x.DataUpgrade) → Encodes x.data_upgrade b (data_upgrade_bytes b)
  pub data_upgrade_answers : Answers 0 x.data_upgrade.decode
