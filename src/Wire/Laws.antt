-- ===== src/Wire/Laws.antt =====
-- How the laws of an encoder's and a decoder's parts make the laws of the whole.
use hypercore_protocol_rs.Prelude.{
  ℕ, ◌+◌, ◌≤◌, ◌≡◌, refl, sym, ap, ◌∙◌, [], ◌∷◌, ◌++◌, append_assoc, Result, Error, ok, err, ◌>>=◌,
  ◌⊎◌, inl, inr, arith, length, length-append, take, drop, take-append-drop, length-take,
  length-drop,
}
use hypercore_protocol_rs.Wire.{Bytes, Encoder, Decoder, CompactEncoding, ◌⨟◌, ◌⊕◌}

-- The encoder fills the front of every buffer that is long enough with `bs`, and leaves the rest.
abbrev pub Writes : Encoder → Bytes → Type 0
Writes e bs = (old rest : Bytes) → length old ≡ length bs → e (old ++ rest) ≡ ok (bs, rest)

-- The decoder finds `a` in `bs`, whatever follows it.
abbrev pub Reads : {A : Type 0} → Decoder A → A → Bytes → Type 0
Reads d a bs = (rest : Bytes) → d (bs ++ rest) ≡ ok (a, rest)

-- The three methods agree that `bs` is the encoding of `a`.
pub record Encodes {A : Type 0} (c : CompactEncoding A) (a : A) (bs : Bytes) : Type 0 where
  pub size : c.encoded_size a ≡ ok (length bs)
  pub writes : Writes (c.encode a) bs
  pub reads : Reads c.decode a bs

-- The decoder returns a value or an error, and on success takes `k` bytes at least.
abbrev pub Answers : {A : Type 0} → ℕ → Decoder A → Type 0
Answers {A} k d =
    (buf : Bytes)
    → ((a : A) × (rest : Bytes) × (d buf ≡ ok (a, rest)) × (length rest + k ≤ length buf))
      ⊎ ((e : Error) × (d buf ≡ err e))

pub split_front :
    (old rest : Bytes) (n m : ℕ)
    → length old ≡ n + m
    → (front back : Bytes) × (old ++ rest ≡ front ++ (back ++ rest))
      × (length front ≡ n)
      × (length back ≡ m)
split_front old rest n m h = (
  take n old,
  drop n old,
  ap (λ (l : Bytes). l ++ rest) (sym (take-append-drop n old))
      ∙ append_assoc (take n old) (drop n old) rest,
  length-take n old (omega arith),
  omega (arith, length-drop n old),
)

pub Writes-⨟ :
    (e f : Encoder) (bs cs : Bytes) → Writes e bs → Writes f cs → Writes (e ⨟ f) (bs ++ cs)
unfolding ◌⨟◌
Writes-⨟ e f bs cs h k old rest eq =
    let (front, back, split, hf, hb) =
      split_front old rest (length bs) (length cs) (omega (arith, eq, length-append bs cs)) in
    rw (split, h front (back ++ rest) hf, k back rest hb) refl

-- The same at one buffer, for a second encoder whose output depends on the buffer.
pub ⨟-step :
    (e f : Encoder) (bs cs front back rest : Bytes)
    → Writes e bs
    → length front ≡ length bs
    → f (back ++ rest) ≡ ok (cs, rest)
    → (e ⨟ f) (front ++ (back ++ rest)) ≡ ok (bs ++ cs, rest)
unfolding ◌⨟◌
⨟-step e f bs cs front back rest h eq k = rw (h front (back ++ rest) eq, k)

pub ⊕-length :
    (m n : Result ℕ) (bs cs : Bytes)
    → m ≡ ok (length bs)
    → n ≡ ok (length cs)
    → (m ⊕ n) ≡ ok (length (bs ++ cs))
⊕-length m n bs cs h k = rw (h, k, length-append bs cs)

pub Answers-bind :
    {A B : Type 0} (j k : ℕ) (d : Decoder A) (next : A → Decoder B)
    → Answers j d
    → ((a : A) → Answers k (next a))
    → Answers (j + k) (λ buf. d buf >>= λ p. next p.0 p.1)
Answers-bind j k d next h g buf = elim (h buf) [
  | inr (e, failed) ↦ inr (e, rw failed)
  | inl (a, rest, took, lr) ↦ elim (g a rest) [
    | inr (e, failed) ↦ inr (e, rw (took, failed))
    | inl (b, rest', took', lr') ↦ inl (b, rest', rw (took, took'), omega arith)
  ]
]

pub Answers-ok : {A : Type 0} (a : A) → Answers 0 (λ buf. ok (a, buf))
Answers-ok a buf = inl (a, buf, refl, omega arith)

pub Answers-weaken : {A : Type 0} (j k : ℕ) (d : Decoder A) → j ≤ k → Answers k d → Answers j d
Answers-weaken j k d le h buf = elim (h buf) [
  | inr failed ↦ inr failed
  | inl (a, rest, took, lr) ↦ inl (a, rest, took, omega arith)
]

pub Writes-none : Writes (λ buf. ok ([], buf)) []
Writes-none [] rest h = refl
Writes-none (b ∷ old) rest h = absurd (omega arith)

-- What a decoder takes at least, an encoding has at least.
pub Encodes-length :
    {A : Type 0} (n : ℕ) (c : CompactEncoding A) (a : A) (bs : Bytes)
    → Encodes c a bs
    → Answers n c.decode
    → n ≤ length bs
Encodes-length n c a bs h g = elim (g (bs ++ [])) [
  | inl (b, rest, took, shorter) ↦ omega (arith, length-append bs [], shorter)
  | inr (e, failed) ↦ cc (h.reads [], failed)
]
