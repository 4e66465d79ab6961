-- ===== src/Prelude/Outcome.antt =====
-- Results: the kinds of `std::io::Error` and `EncodingError` that the code makes.
use Prim.Native.Nat.{ℕ}
use mathlib.Core.Path.{◌≡◌, refl}

pub data ErrorKind : Type 0 where
  invalid_data unexpected_eof connection_aborted permission_denied : ErrorKind
  invalid_input broken_pipe other : ErrorKind

-- `codec n` is an error that the encoding library raises.
pub data EncodingErrorKind : Type 0 where
  invalid_type external : EncodingErrorKind
  codec : ℕ → EncodingErrorKind

pub data Error : Type 0 where
  io : ErrorKind → Error
  encoding : EncodingErrorKind → Error

-- `panic` is a Rust panic. `stuck` is no Rust value: a modelled loop ran out of fuel.
pub data Result {ℓ} (A : Type ℓ) : Type ℓ where
  ok : A → Result A
  err : Error → Result A
  panic : Result A
  stuck : Result A

-- The `?` operator: what is no value stops the function.
infixl 5 ◌>>=◌ ◌>>◌
abbrev pub ◌>>=◌ {ℓ κ} : {A : Type ℓ} {B : Type κ} → Result A → (A → Result B) → Result B
result >>= next = elim result [
  | stuck ↦ stuck
  | panic ↦ panic
  | err failure ↦ err failure
  | ok value ↦ next value
]

-- What follows a function that returns `()`.
abbrev pub ◌>>◌ {ℓ} : {B : Type ℓ} → Result (Unit {0}) → Result B → Result B
first >> second = first >>= λ done. second

-- A value at the end comes of a value in between.
pub >>=-eq-ok {ℓ κ} :
    {A : Type ℓ} {B : Type κ} {b : B} (result : Result A) (next : A → Result B)
    → (result >>= next) ≡ ok b
    → (value : A) × (result ≡ ok value) × (next value ≡ ok b)
>>=-eq-ok stuck next returned = cc
>>=-eq-ok panic next returned = cc
>>=-eq-ok (err failure) next returned = cc
>>=-eq-ok (ok value) next returned = (value, refl, returned)

module _ (Z : Type 0) where
  -- A result that is a panic only if `Z` holds.
  abbrev pub MayHalt : {A : Type 0} → Result A → Type 0
  MayHalt (ok a) = Unit {0}
  MayHalt (err e) = Unit {0}
  MayHalt panic = Z
  MayHalt stuck = Z

  pub MayHalt-any : {A : Type 0} → Z → (r : Result A) → MayHalt r
  MayHalt-any z (ok a) = tt
  MayHalt-any z (err e) = tt
  MayHalt-any z panic = z
  MayHalt-any z stuck = z

  pub MayHalt-bind :
      {A B : Type 0} (r : Result A) (f : A → Result B)
      → MayHalt r
      → ((a : A) → MayHalt (f a))
      → MayHalt (r >>= f)
  MayHalt-bind (ok a) f h k = k a
  MayHalt-bind (err e) f h k = tt
  MayHalt-bind panic f h k = h
  MayHalt-bind stuck f h k = h
