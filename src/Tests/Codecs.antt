-- ===== src/Tests/Codecs.antt =====
-- A concrete instance of the crates behind src/message.rs and src/schema.rs, for tests: integers, texts
-- and vectors in the manner of `compact_encoding`; the structures of `hypercore_schema` are a flag.
use hypercore_protocol_rs.Prelude.{
  ℕ, zero, suc, ◌+◌, ◌*◌, ◌/◌, ◌%◌, Bool, true, false, if◌then◌else◌, ltb, leb, List, [], ◌∷◌, ◌++◌,
  length, take, drop, replicate, Result, ok, err, encoding, external, ◌>>=◌,
}
use hypercore_protocol_rs.Wire.{Bytes, Encoder, Decoder, CompactEncoding, External}

unfoldable pub put : Bytes → Encoder
put bs buf =
    if leb (length bs) (length buf) then ok (bs, drop (length bs) buf) else err (encoding external)

unfoldable pub cut : ℕ → Decoder Bytes
cut n buf = if leb n (length buf) then ok (take n buf, drop n buf) else err (encoding external)

-- A codec that writes the bytes of a value.
abbrev pub filled : {A : Type 0} → (A → Bytes) → Decoder A → CompactEncoding A
filled bytes decode = record {
  encoded_size = λ a. ok (length (bytes a));
  encode = λ a. put (bytes a);
  decode = decode;
}

-- The last `n` digits of a number to the base 256, the lowest first.
unfoldable pub digits : ℕ → ℕ → Bytes
digits zero v = []
digits (suc n) v = v % 256 ∷ digits n (v / 256)

unfoldable pub value : Bytes → ℕ
value [] = 0
value (d ∷ ds) = d + 256 * value ds

-- One byte, or the tag 255 and eight bytes.
unfoldable pub u64_bytes : ℕ → Bytes
u64_bytes v = if ltb v 253 then v ∷ [] else 255 ∷ digits 8 v

unfoldable pub u64_decode : Decoder ℕ
u64_decode [] = err (encoding external)
u64_decode (b ∷ bs) =
    if ltb b 253 then ok (b, bs) else (do (ds, rest) ← cut 8 bs; ok (value ds, rest))

unfoldable pub text_bytes : Bytes → Bytes
text_bytes s = u64_bytes (length s) ++ s

unfoldable pub text_decode : Decoder Bytes
text_decode buf = do (n, rest) ← u64_decode buf; cut n rest

unfoldable pub words : List ℕ → Bytes
words [] = []
words (w ∷ ws) = digits 4 w ++ words ws

unfoldable pub words_decode : ℕ → Decoder (List ℕ)
words_decode zero buf = ok ([], buf)
words_decode (suc n) buf = do
  (ds, rest) ← cut 4 buf
  (ws, rest') ← words_decode n rest
  ok (value ds ∷ ws, rest')

unfoldable pub vec_bytes : List ℕ → Bytes
vec_bytes ws = u64_bytes (length ws) ++ words ws

unfoldable pub vec_decode : Decoder (List ℕ)
vec_decode buf = do (n, rest) ← u64_decode buf; words_decode n rest

unfoldable pub flag_bytes : Bool → Bytes
flag_bytes false = 0 ∷ []
flag_bytes true = 1 ∷ []

unfoldable pub flag_decode : Decoder Bool
flag_decode (zero ∷ rest) = ok (false, rest)
flag_decode (suc zero ∷ rest) = ok (true, rest)
flag_decode _ = err (encoding external)

unfoldable pub to_encoded_bytes : (A : Type 0) → CompactEncoding A → A → Result Bytes
to_encoded_bytes A c a = do
  n ← c.encoded_size a
  (bs, rest) ← c.encode a (replicate n 0)
  ok (bs ++ rest)

abbrev pub flag : CompactEncoding Bool
flag = filled flag_bytes flag_decode

abbrev pub crates : External
crates = record {
  u64 = filled u64_bytes u64_decode;
  decode_usize = u64_decode;
  string = filled text_bytes text_decode;
  vec_u8 = filled text_bytes text_decode;
  vec_u32 = filled vec_bytes vec_decode;
  take_array = cut;
  take_array_mut = cut;
  write_array = put;
  write_slice = put;
  to_encoded_bytes = to_encoded_bytes;
  RequestBlock = Bool;
  RequestSeek = Bool;
  RequestUpgrade = Bool;
  DataBlock = Bool;
  DataHash = Bool;
  DataSeek = Bool;
  DataUpgrade = Bool;
  request_block = flag;
  request_seek = flag;
  request_upgrade = flag;
  data_block = flag;
  data_hash = flag;
  data_seek = flag;
  data_upgrade = flag;
}
