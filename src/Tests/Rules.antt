-- ===== src/Tests/Rules.antt =====
-- The concrete crates keep what the development relies on.
use hypercore_protocol_rs.Prelude.{
  ℕ, zero, suc, ◌*◌, ◌/◌, ◌^◌, ◌≤◌, ◌<◌, ◌≡◌, ◌≢◌, refl, ap, sym, Bool, Bool-cases, true, false,
  ltb, leb, ltb-false, leb-true, le_of_ltb, inl, inr, List, [], ◌∷◌, ◌++◌, append_assoc, append-nil,
  length, take, drop, replicate, length-append, length-take, length-drop, drop_append, All, Result,
  ok, encoding, external, arith,
}
use hypercore_protocol_rs.Wire.{Bytes, Decoder, CompactEncoding}
use hypercore_protocol_rs.Wire.Laws.{Writes, Reads, Encodes, Answers, Answers-bind, Answers-weaken}
use hypercore_protocol_rs.Wire.Contract.{Contract, IsU64, IsVecU32}
use hypercore_protocol_rs.Tests.Codecs.{
  put, cut, filled, digits, value, u64_bytes, u64_decode, text_bytes, text_decode, words,
  words_decode, vec_bytes, vec_decode, flag_bytes, flag_decode, flag, crates, to_encoded_bytes,
}

take_append : (xs ys : Bytes) → take (length xs) (xs ++ ys) ≡ xs
take_append [] ys = refl
take_append (x ∷ xs) ys = ap (λ (l : Bytes). x ∷ l) (take_append xs ys)

pub put-Writes : (bs : Bytes) → Writes (put bs) bs
unfolding put
put-Writes bs old rest h =
    rw (leb-true (length bs) (length (old ++ rest)) (omega (arith, length-append old rest)))
      (ap (λ (l : Bytes). ok (bs, l)) (rw (sym h) (drop_append old rest)))

pub cut-Reads : (bs : Bytes) → Reads (cut (length bs)) bs bs
unfolding cut
cut-Reads bs rest = rw (
  leb-true (length bs) (length (bs ++ rest)) (omega (arith, length-append bs rest)),
  take_append bs rest,
  drop_append bs rest,
)

pub cut-Answers : (n : ℕ) → Answers n (cut n)
unfolding cut
cut-Answers n buf = elim (Bool-cases (leb n (length buf))) [
  | inl fits ↦ inl (take n buf, drop n buf, rw fits, ground (arith, length-drop n buf))
  | inr short ↦ inr (encoding external, rw short)
]

pub filled-Encodes :
    {A : Type 0} (bytes : A → Bytes) (decode : Decoder A) (a : A)
    → Reads decode a (bytes a)
    → Encodes (filled bytes decode) a (bytes a)
filled-Encodes bytes decode a h = record { size = refl; writes = put-Writes (bytes a); reads = h }

length-digits : (n v : ℕ) → length (digits n v) ≡ n
unfolding digits
length-digits zero v = refl
length-digits (suc n) v = omega (arith, length-digits n (v / 256))

-- The numbers of `n` digits.
abbrev cap : ℕ → ℕ
cap zero = 1
cap (suc n) = 256 * cap n

value-digits : (n v : ℕ) → v < cap n → value (digits n v) ≡ v
unfolding digits value
value-digits zero v h = omega arith
value-digits (suc n) v h =
    let smaller : v / 256 < cap n = omega arith in omega (arith, value-digits n (v / 256) smaller)

pub u64-Reads : (v : ℕ) → IsU64 v → Reads u64_decode v (u64_bytes v)
unfolding u64_bytes u64_decode
u64-Reads v h rest = elim (Bool-cases (ltb v 253)) [
  | inl small ↦ rw (small, small)
  | inr large ↦
      let read : cut 8 (digits 8 v ++ rest) ≡ ok (digits 8 v, rest) =
        rw (length-digits 8 v) at (cut-Reads (digits 8 v) rest) in
      rw (large, read) (ap (λ (n : ℕ). ok (n, rest)) (value-digits 8 v h))
]

pub u64-Answers : Answers 1 u64_decode
unfolding u64_decode
u64-Answers [] = inr (encoding external, refl)
u64-Answers (b ∷ bs) = elim (Bool-cases (ltb b 253)) [
  | inl small ↦ inl (b, bs, rw small, omega arith)
  | inr large ↦ elim (cut-Answers 8 bs) [
    | inl (ds, rest, read, took) ↦ inl (value ds, rest, rw (large, read), omega arith)
    | inr (e, failed) ↦ inr (e, rw (large, failed))
  ]
]

u64-length : (v : ℕ) → 0 < length (u64_bytes v)
unfolding u64_bytes
u64-length v = elim (Bool-cases (ltb v 253)) [
  | inl small ↦ rw small (omega arith)
  | inr large ↦ rw large (omega arith)
]

pub u64-small : (v : ℕ) → v < 253 → u64_bytes v ≡ v ∷ []
unfolding u64_bytes
u64-small v h = elim (Bool-cases (ltb v 253)) [
  | inl small ↦ rw small
  | inr large ↦ absurd (omega (arith, le_of_ltb v 253 large))
]

pub u64-large : (v : ℕ) → 253 ≤ v → (b : ℕ) × (bs : Bytes) × (u64_bytes v ≡ b ∷ bs) × (b ≢ 0)
unfolding u64_bytes
u64-large v h = (255, digits 8 v, rw (ltb-false v 253 h), λ e. absurd (omega (arith, e)))

pub text-Reads : (s : Bytes) → IsU64 (length s) → Reads text_decode s (text_bytes s)
unfolding text_bytes text_decode
text-Reads s h rest = rw (
  append_assoc (u64_bytes (length s)) s rest,
  u64-Reads (length s) h (s ++ rest),
  cut-Reads s rest,
)

pub text-Answers : Answers 1 text_decode
unfolding text_decode
text-Answers =
    Answers-bind 1 0 u64_decode cut u64-Answers
      (λ n. Answers-weaken 0 n (cut n) (omega arith) (cut-Answers n))

pub text-length : (s : Bytes) → length s < length (text_bytes s)
unfolding text_bytes
text-length s = omega (arith, length-append (u64_bytes (length s)) s, u64-length (length s))

words-Reads :
    (ws : List ℕ) → All (λ b. b < 2 ^ 32) ws → Reads (words_decode (length ws)) ws (words ws)
unfolding words words_decode
words-Reads [] v rest = refl
words-Reads (w ∷ ws) (b, bs) rest =
    let read : cut 4 (digits 4 w ++ (words ws ++ rest)) ≡ ok (digits 4 w, words ws ++ rest) =
      rw (length-digits 4 w) at (cut-Reads (digits 4 w) (words ws ++ rest)) in
    rw (append_assoc (digits 4 w) (words ws) rest, read, words-Reads ws bs rest, value-digits 4 w b)

words-Answers : (n : ℕ) → Answers 0 (words_decode n)
unfolding words_decode
words-Answers zero buf = inl ([], buf, refl, omega arith)
words-Answers (suc n) buf = elim (cut-Answers 4 buf) [
  | inr (e, failed) ↦ inr (e, rw failed)
  | inl (ds, rest, read, took) ↦ elim (words-Answers n rest) [
    | inr (e, failed) ↦ inr (e, rw (read, failed))
    | inl (ws, rest', read', took') ↦ inl (value ds ∷ ws, rest', rw (read, read'), omega arith)
  ]
]

pub vec-Reads : (ws : List ℕ) → IsVecU32 ws → Reads vec_decode ws (vec_bytes ws)
unfolding vec_bytes vec_decode
vec-Reads ws (h, v) rest = rw (
  append_assoc (u64_bytes (length ws)) (words ws) rest,
  u64-Reads (length ws) h (words ws ++ rest),
  words-Reads ws v rest,
)

pub vec-Answers : Answers 1 vec_decode
unfolding vec_decode
vec-Answers = Answers-bind 1 0 u64_decode words_decode u64-Answers words-Answers

pub flag-Encodes : (b : Bool) → Encodes flag b (flag_bytes b)
unfolding flag_bytes flag_decode
flag-Encodes false = filled-Encodes flag_bytes flag_decode false (λ rest. refl)
flag-Encodes true = filled-Encodes flag_bytes flag_decode true (λ rest. refl)

pub flag-Answers : Answers 0 flag_decode
unfolding flag_decode
flag-Answers [] = inr (encoding external, refl)
flag-Answers (zero ∷ rest) = inl (false, rest, refl, omega arith)
flag-Answers (suc zero ∷ rest) = inl (true, rest, refl, omega arith)
flag-Answers (suc (suc n) ∷ rest) = inr (encoding external, refl)

pub cut_returns : (n : ℕ) (buf front rest : Bytes) → cut n buf ≡ ok (front, rest) → length front ≡ n
unfolding cut
cut_returns n buf front rest h = elim (Bool-cases (leb n (length buf))) [
  | inl fits ↦
      let h1 : ◌≡◌ {A = Result (Bytes × Bytes)} (ok (take n buf, drop n buf)) (ok (front, rest)) =
        rw fits at h in
      let e : take n buf ≡ front = cc in
      let le : n ≤ length buf = ground arith in
      omega (arith, ap (λ (l : Bytes). length l) e, length-take n buf le)
  | inr short ↦ cc (rw short at h)
]

pub to_encoded :
    (A : Type 0) (c : CompactEncoding A) (a : A) (n : ℕ) (bs : Bytes)
    → c.encoded_size a ≡ ok n
    → c.encode a (replicate n 0) ≡ ok (bs, [])
    → to_encoded_bytes A c a ≡ ok bs
unfolding to_encoded_bytes
to_encoded A c a n bs h g = rw (h, g, append-nil bs)

unfoldable pub rules : Contract crates
rules = record {
  u64_bytes = u64_bytes;
  u64_lem = λ v h. filled-Encodes u64_bytes u64_decode v (u64-Reads v h);
  u64_small = u64-small;
  u64_large = u64-large;
  u64_answers = u64-Answers;
  usize_reads = u64-Reads;
  usize_answers = u64-Answers;
  IsUtf8 = λ s. IsU64 (length s);
  string_bytes = text_bytes;
  string_lem = λ s h. filled-Encodes text_bytes text_decode s (text-Reads s h);
  string_length = text-length;
  string_answers = text-Answers;
  vec_u8_bytes = text_bytes;
  vec_u8_lem = λ s h. filled-Encodes text_bytes text_decode s (text-Reads s h.0);
  vec_u8_length = text-length;
  vec_u8_answers = text-Answers;
  vec_u32_bytes = vec_bytes;
  vec_u32_lem = λ v h. filled-Encodes vec_bytes vec_decode v (vec-Reads v h);
  vec_u32_answers = vec-Answers;
  take_array_lem = λ front rest. cut-Reads front rest;
  take_array_answers = cut-Answers;
  take_array_mut_lem = λ front rest. cut-Reads front rest;
  take_array_returns = cut_returns;
  write_array_lem = put-Writes;
  write_slice_lem = put-Writes;
  to_encoded_bytes_lem = to_encoded;
  request_block_bytes = flag_bytes;
  request_block_lem = flag-Encodes;
  request_block_answers = flag-Answers;
  request_seek_bytes = flag_bytes;
  request_seek_lem = flag-Encodes;
  request_seek_answers = flag-Answers;
  request_upgrade_bytes = flag_bytes;
  request_upgrade_lem = flag-Encodes;
  request_upgrade_answers = flag-Answers;
  data_block_bytes = flag_bytes;
  data_block_lem = flag-Encodes;
  data_block_answers = flag-Answers;
  data_hash_bytes = flag_bytes;
  data_hash_lem = flag-Encodes;
  data_hash_answers = flag-Answers;
  data_seek_bytes = flag_bytes;
  data_seek_lem = flag-Encodes;
  data_seek_answers = flag-Answers;
  data_upgrade_bytes = flag_bytes;
  data_upgrade_lem = flag-Encodes;
  data_upgrade_answers = flag-Answers;
}
