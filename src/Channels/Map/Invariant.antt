-- ===== src/Channels/Map/Invariant.antt =====
-- The invariant of `ChannelMap` (src/channels.rs), and lemmas on lists of entries.
use hypercore_protocol_rs.Prelude.{
  ℕ, ◌≤◌, ◌<◌, ◌≡◌, Bool-cases, bytes_eq, bytes_eq→eq, inl, inr, ◌⊎◌, Option, none, some, List, [],
  ◌∷◌, length, get_elem?, All, arith, lookup, upsert, remove_key,
}
use hypercore_protocol_rs.Wire.{Bytes, External}
use hypercore_protocol_rs.Platform.{Platform}
use hypercore_protocol_rs.Channels.Handle.{ChannelHandle}
use hypercore_protocol_rs.Channels.Handle
use hypercore_protocol_rs.Channels.Map.{ChannelMap}

-- An id, if there is one, is from `lo` on and below `hi`.
abbrev pub InRange : ℕ → ℕ → Option ℕ → Type 0
InRange lo hi none = Unit {0}
InRange lo hi (some i) = (lo ≤ i) × (i < hi)

pub InRange-mono : (lo hi hi' : ℕ) (o : Option ℕ) → hi ≤ hi' → InRange lo hi o → InRange lo hi' o
InRange-mono lo hi hi' none le h = tt
InRange-mono lo hi hi' (some i) le h = omega arith

module _ {x : External} (p : Platform x) (E : Type 0) where
  -- An entry stands under the key of its handle and fits tables of these lengths. It is attached by the
  -- remote only if `E` holds.
  pub record Fits (l r f : ℕ) (e : Bytes × ChannelHandle) : Type 0 where
    pub under_key : e.0 ≡ p.hex_encode e.1.discovery_key
    pub local_fits : InRange 1 l (Handle.local_id e.1)
    pub remote_fits : InRange 0 r (Handle.remote_id e.1)
    pub flag_fits : e.1.closed < f
    pub remote_when : (e.1.remote_state ≡ none) ⊎ E

  abbrev pub Entries : ChannelMap p → List (Bytes × ChannelHandle) → Type 0
  Entries m = All (Fits (length m.local_id) (length m.remote_id) (length m.flags))

  -- Every entry fits the tables, and the local id 0 is free.
  pub record IsMap (m : ChannelMap p) : Type 0 where
    pub entries : Entries m m.channels
    pub zeroth : get_elem? m.local_id 0 ≡ some none

  pub Fits-mono :
      (l r f l' r' f' : ℕ) (e : Bytes × ChannelHandle)
      → l ≤ l'
      → r ≤ r'
      → f ≤ f'
      → Fits l r f e
      → Fits l' r' f' e
  Fits-mono l r f l' r' f' e a b c v = record {
    under_key = v.under_key;
    local_fits = InRange-mono 1 l l' (Handle.local_id e.1) a v.local_fits;
    remote_fits = InRange-mono 0 r r' (Handle.remote_id e.1) b v.remote_fits;
    flag_fits = omega (arith, v.flag_fits);
    remote_when = v.remote_when;
  }

module _ {V : Type 0} (P : Bytes × V → Type 0) where
  pub All-lookup :
      (k : Bytes) (v : V) (m : List (Bytes × V)) → All P m → lookup k m ≡ some v → P (k, v)
  unfolding lookup
  All-lookup k v [] a h = cc
  All-lookup k v ((j, w) ∷ m) a h = elim (Bool-cases (bytes_eq j k)) [
    | inl hit ↦
        let j-k : j ≡ k = bytes_eq→eq j k hit in
        let found : ◌≡◌ {A = Option V} (some w) (some v) = rw (hit, lookup) at h in
        let w-v : w ≡ v = cc in rw (← j-k, ← w-v) a.0
    | inr miss ↦ All-lookup k v m a.1 (rw (miss, lookup) at h)
  ]

  pub All-remove_key : (k : Bytes) (m : List (Bytes × V)) → All P m → All P (remove_key k m)
  unfolding remove_key
  All-remove_key k [] a = tt
  All-remove_key k ((j, w) ∷ m) a = elim (Bool-cases (bytes_eq j k)) [
    | inl hit ↦ rw hit (All-remove_key k m a.1)
    | inr miss ↦ rw miss (a.0, All-remove_key k m a.1)
  ]

module _ {V : Type 0} (P Q : Bytes × V → Type 0) (g : (e : Bytes × V) → P e → Q e) where
  pub All-map : (m : List (Bytes × V)) → All P m → All Q m
  All-map [] a = tt
  All-map (e ∷ m) a = (g e a.0, All-map m a.1)

  pub All-upsert :
      (k : Bytes) (f : V → V) (v : V) (m : List (Bytes × V))
      → ((w : V) → P (k, w) → Q (k, f w))
      → Q (k, v)
      → All P m
      → All Q (upsert k f v m)
  unfolding upsert
  All-upsert k f v [] h i a = (i, tt)
  All-upsert k f v ((j, w) ∷ m) h i a = elim (Bool-cases (bytes_eq j k)) [
    | inl hit ↦
        let j-k : j ≡ k = bytes_eq→eq j k hit in
        rw hit (rw j-k (h w (rw j-k at (a.0))), All-map m a.1)
    | inr miss ↦ rw miss (g (j, w) a.0, All-upsert k f v m h i a.1)
  ]

module _ {x : External} (p : Platform x) (E E' : Type 0) (g : E → E') where
  remote_when-map :
      (h : ChannelHandle) → ((h.remote_state ≡ none) ⊎ E) → (h.remote_state ≡ none) ⊎ E'
  remote_when-map h (inl e) = inl e
  remote_when-map h (inr e) = inr (g e)

  pub IsMap-weaken : (m : ChannelMap p) → IsMap p E m → IsMap p E' m
  IsMap-weaken m v = record {
    entries =
        All-map _ _
          (λ e f. record {
            under_key = f.under_key;
            local_fits = f.local_fits;
            remote_fits = f.remote_fits;
            flag_fits = f.flag_fits;
            remote_when = remote_when-map e.1 f.remote_when;
          })
          m.channels v.entries;
    zeroth = v.zeroth;
  }
