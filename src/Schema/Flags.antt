-- ===== src/Schema/Flags.antt =====
-- The flag bytes of src/schema.rs and its macros for optional parts.
use hypercore_protocol_rs.Prelude.{
  ℕ, ◌≡◌, refl, Bool, true, false, not, ◌==◌, if◌then◌else◌, Option, none, some, [], Result, ok,
  ◌>>=◌, bit_and, bit_or, length, ◌∷◌, arith, panic, inl, inr,
}
use hypercore_protocol_rs.Wire.{Bytes, Encoder, Decoder, CompactEncoding, External}
use hypercore_protocol_rs.Wire.Contract.{Contract}
use hypercore_protocol_rs.Wire.Laws.{
  Encodes, Writes, Reads, Answers, Answers-bind, Answers-ok, Writes-none,
}
use hypercore_protocol_rs.Wire.Total.{Ends, EncoderEnds, CodecEnds, EncodersEnd}

-- `if b { n } else { 0 }`
abbrev pub flag : ℕ → Bool → ℕ
flag n b = if b then n else 0

-- `flags & n != 0`
abbrev pub has_flag : ℕ → ℕ → Bool
has_flag flags n = not (bit_and flags n == 0)

abbrev pub is_some {ℓ} : {A : Type ℓ} → Option A → Bool
is_some none = false
is_some (some a) = true

-- The macro `maybe_decode!`.
pub maybe_decode : {A : Type 0} → Bool → Decoder A → Decoder (Option A)
maybe_decode cond decode buf =
    if cond then (do (result, rest) ← decode buf; ok (some result, rest)) else ok (none, buf)

-- The macro `opt_encoded_size!`: what it adds to the sum.
pub opt_encoded_size : {A : Type 0} → CompactEncoding A → Option A → Result ℕ
opt_encoded_size c none = ok 0
opt_encoded_size c (some thing) = c.encoded_size thing

-- The macro `opt_encoded_bytes!`.
pub opt_encoded_bytes : {A : Type 0} → CompactEncoding A → Option A → Encoder
opt_encoded_bytes c none buf = ok ([], buf)
opt_encoded_bytes c (some thing) buf = c.encode thing buf

abbrev pub opt_bytes : {A : Type 0} → (A → Bytes) → Option A → Bytes
opt_bytes f none = []
opt_bytes f (some a) = f a

module _ {A : Type 0} (c : CompactEncoding A) (f : A → Bytes)
    (h : (a : A) → Encodes c a (f a)) where
  pub opt_size : (o : Option A) → opt_encoded_size c o ≡ ok (length (opt_bytes f o))
  unfolding opt_encoded_size
  opt_size none = refl
  opt_size (some a) = (h a).size

  pub opt-Writes : (o : Option A) → Writes (opt_encoded_bytes c o) (opt_bytes f o)
  unfolding opt_encoded_bytes
  opt-Writes none = Writes-none
  opt-Writes (some a) = (h a).writes

  pub opt-Reads :
      (o : Option A) (b : Bool) → b ≡ is_some o → Reads (maybe_decode b c.decode) o (opt_bytes f o)
  unfolding maybe_decode
  opt-Reads none b e rest = rw e
  opt-Reads (some a) b e rest = rw (e, (h a).reads rest)

pub maybe_decode-Answers :
    {A : Type 0} (d : Decoder A) (b : Bool) → Answers 0 d → Answers 0 (maybe_decode b d)
unfolding maybe_decode
maybe_decode-Answers d true h = Answers-bind 0 0 d _ h λ a. Answers-ok (some a)
maybe_decode-Answers d false h = Answers-ok none

-- The flag byte of `Data`, and of a `Request` without its two last flags.
abbrev pub four_flags : Bool → Bool → Bool → Bool → ℕ
four_flags a b c d = bit_or (bit_or (bit_or (flag 1 a) (flag 2 b)) (flag 4 c)) (flag 8 d)

-- Each flag is read back from the byte it was packed into.
pub four_flags_hold :
    (a b c d : Bool)
    → let flags = four_flags a b c d in
      (has_flag flags 1 ≡ a)
      × (has_flag flags 2 ≡ b)
      × (has_flag flags 4 ≡ c)
      × (has_flag flags 8 ≡ d)
four_flags_hold a b c d = ground arith

abbrev pub six_flags : Bool → Bool → Bool → Bool → Bool → Bool → ℕ
six_flags a b c d e f = bit_or (bit_or (four_flags a b c d) (flag 16 e)) (flag 32 f)

pub six_flags_hold :
    (a b c d e f : Bool)
    → let flags = six_flags a b c d e f in
      (has_flag flags 1 ≡ a)
      × (has_flag flags 2 ≡ b)
      × (has_flag flags 4 ≡ c)
      × (has_flag flags 8 ≡ d)
      × (has_flag flags 16 ≡ e)
      × (has_flag flags 32 ≡ f)
six_flags_hold a b c d e f = ground arith

-- The pattern `[flags]` on an array of one byte; other lengths do not occur.
the_byte : Bytes → Result ℕ
the_byte (b ∷ []) = ok b
the_byte _ = panic

module _ (x : External) where
  -- `let ([flags], rest) = take_array::<1>(buffer)?;`
  pub take_flags : Decoder ℕ
  unfolding the_byte
  take_flags buffer = do
    (front, rest) ← x.take_array 1 buffer
    flags ← the_byte front
    ok (flags, rest)

  -- `write_array(&[flags], buffer)?`
  pub write_flags : ℕ → Encoder
  write_flags flags = x.write_array (flags ∷ [])

module _ (x : External) (k : Contract x) where
  pub take_flags-Reads : (flags : ℕ) → Reads (take_flags x) flags (flags ∷ [])
  unfolding take_flags
  take_flags-Reads flags rest = rw (k.take_array_lem (flags ∷ []) rest)

  pub write_flags-Writes : (flags : ℕ) → Writes (write_flags x flags) (flags ∷ [])
  unfolding write_flags
  write_flags-Writes flags = k.write_array_lem (flags ∷ [])

  the_byte-Answers : (front rest : Bytes) → length front ≡ 1 → (b : ℕ) × (the_byte front ≡ ok b)
  unfolding the_byte
  the_byte-Answers [] rest h = absurd (omega arith)
  the_byte-Answers (b ∷ []) rest h = (b, refl)
  the_byte-Answers (b ∷ c ∷ front) rest h = absurd (omega arith)

  pub take_flags-Answers : Answers 1 (take_flags x)
  unfolding take_flags
  take_flags-Answers buffer = elim (k.take_array_answers 1 buffer) [
    | inr (e, failed) ↦ inr (e, rw failed)
    | inl (front, rest, took, shorter) ↦
        let (b, single) =
          the_byte-Answers front rest (k.take_array_returns 1 buffer front rest took) in
        inl (b, rest, rw (took, single), shorter)
  ]

module _ {A : Type 0} (c : CompactEncoding A) (e : CodecEnds c) where
  pub opt_encoded_size-Ends : (o : Option A) → Ends (opt_encoded_size c o)
  unfolding opt_encoded_size
  opt_encoded_size-Ends none = tt
  opt_encoded_size-Ends (some a) = e.size a

  pub opt_encoded_bytes-Ends : (o : Option A) → EncoderEnds (opt_encoded_bytes c o)
  unfolding opt_encoded_bytes
  opt_encoded_bytes-Ends none buf = tt
  opt_encoded_bytes-Ends (some a) buf = e.encode a buf

pub write_flags-Ends :
    (x : External) → EncodersEnd x → (flags : ℕ) → EncoderEnds (write_flags x flags)
unfolding write_flags
write_flags-Ends x e flags = e.write_array (flags ∷ [])
