-- ===== src/Prelude/Assoc.antt =====
-- A `HashMap` as an association list, and the checked indexing of a `Vec`.
use Prim.Native.Nat.{ℕ}
use mathlib.Core.List.{List, [], ◌∷◌}
use mathlib.Core.Option.{Option, none, some}
use hypercore_protocol_rs.Prelude.Tests.{bytes_eq, if◌then◌else◌, ltb}
use hypercore_protocol_rs.Prelude.Lists.{length, set}
use hypercore_protocol_rs.Prelude.Outcome.{Result, ok, panic}

module _ {ℓ} {V : Type ℓ} where
  -- `HashMap::get`
  unfoldable pub lookup : List ℕ → List (List ℕ × V) → Option V
  lookup k [] = none
  lookup k ((j, v) ∷ m) = if bytes_eq j k then some v else lookup k m

  -- `entry(k).and_modify(f).or_insert_with(|| v)`
  unfoldable pub upsert : List ℕ → (V → V) → V → List (List ℕ × V) → List (List ℕ × V)
  upsert k f v [] = (k, v) ∷ []
  upsert k f v ((j, w) ∷ m) = if bytes_eq j k then (j, f w) ∷ m else (j, w) ∷ upsert k f v m

  -- `HashMap::remove`
  unfoldable pub remove_key : List ℕ → List (List ℕ × V) → List (List ℕ × V)
  remove_key k [] = []
  remove_key k ((j, v) ∷ m) = if bytes_eq j k then remove_key k m else (j, v) ∷ remove_key k m

-- `v[i] = a`, a panic out of range.
unfoldable pub set_checked {ℓ} : {A : Type ℓ} → List A → ℕ → A → Result (List A)
set_checked xs i a = if ltb i (length xs) then ok (set xs i a) else panic

-- `Option::unwrap`
unfoldable pub unwrap {ℓ} : {A : Type ℓ} → Option A → Result A
unwrap none = panic
unwrap (some a) = ok a
