-- ===== src/Channels/Map/Entries.antt =====
-- What the operations of `ChannelMap` (src/channels.rs) leave in the map: `attach_local`, `remove`.
use hypercore_protocol_rs.Prelude.{
  ltb-true, ltb-false, ◌^◌, ◌≤◌, true, panic, ◌⊎◌, ℕ, ◌≤◌, ◌≡◌, ◌≢◌, refl, ◌∙◌, Bool-cases, false,
  bytes_eq, bytes_eq_refl, bytes_eq→eq, ltb-true, inl, inr, Option, Option-cases, none, some, List,
  [], ◌∷◌, ◌++◌, length, set, get_elem?, get_elem?-set_self, get_elem?-set_ne, arith, ok, >>=-eq-ok,
  lookup, upsert, remove_key, set_checked, unwrap,
}
use hypercore_protocol_rs.Wire.{Bytes, External}
use hypercore_protocol_rs.Platform.{Platform}
use hypercore_protocol_rs.Crypto.{discovery_key}
use hypercore_protocol_rs.Channels.Handle.{ChannelHandle}
use hypercore_protocol_rs.Channels.Handle
use hypercore_protocol_rs.Channels.Map.{
  ChannelMap, alloc_local, alloc_remote, attach_remote, attach_local, get_local, id_key, key_handle,
  has_channel, remove, clear_id,
}
use hypercore_protocol_rs.Channels.Map.Ids.{alloc_local-Allocates}
use hypercore_protocol_rs.Channels.Map.Slots.{
  remote_slots, remote_slots-length, Misses, alloc_remote-cases,
}

bytes_eq-ne : (a b : Bytes) → a ≢ b → bytes_eq a b ≡ false
bytes_eq-ne a b h = elim (Bool-cases (bytes_eq a b)) [
  | inl same ↦ absurd (h (bytes_eq→eq a b same))
  | inr differs ↦ differs
]

module _ {V : Type 0} where
  lookup-remove_key : (k : Bytes) (m : List (Bytes × V)) → lookup k (remove_key k m) ≡ none
  unfolding remove_key lookup
  lookup-remove_key k [] = refl
  lookup-remove_key k ((j, v) ∷ m) = elim (Bool-cases (bytes_eq j k)) [
    | inl hit ↦ rw hit (lookup-remove_key k m)
    | inr miss ↦ rw (miss, miss) (lookup-remove_key k m)
  ]

  lookup-remove_key_ne :
      (i k : Bytes) (m : List (Bytes × V))
      → bytes_eq k i ≡ false
      → lookup i (remove_key k m) ≡ lookup i m
  unfolding remove_key lookup
  lookup-remove_key_ne i k [] h = refl
  lookup-remove_key_ne i k ((j, v) ∷ m) h = elim (Bool-cases (bytes_eq j k)) [
    | inl hit ↦
        let e : j ≡ k = bytes_eq→eq j k hit in
        let miss : bytes_eq j i ≡ false = rw e h in rw (hit, miss) (lookup-remove_key_ne i k m h)
    | inr miss ↦ elim (Bool-cases (bytes_eq j i)) [
      | inl found ↦ rw (miss, found)
      | inr other ↦ rw (miss, other) (lookup-remove_key_ne i k m h)
    ]
  ]

  -- What `upsert` leaves under its key.
  abbrev pub entry : (V → V) → V → Option V → V
  entry f v none = v
  entry f v (some w) = f w

  pub lookup-upsert :
      (k : Bytes) (f : V → V) (v : V) (m : List (Bytes × V))
      → lookup k (upsert k f v m) ≡ some (entry f v (lookup k m))
  unfolding upsert lookup
  lookup-upsert k f v [] = rw (bytes_eq_refl k)
  lookup-upsert k f v ((j, w) ∷ m) = elim (Bool-cases (bytes_eq j k)) [
    | inl hit ↦ rw (hit, hit)
    | inr miss ↦ rw (miss, miss) (lookup-upsert k f v m)
  ]

module _ {x : External} (p : Platform x) where
  ok-channels : (a b : ChannelMap p) → ok a ≡ ok b → b.channels ≡ a.channels
  ok-channels a b h = let e : b ≡ a = cc in rw e

  same_flags : (a b : ChannelMap p) → ok a ≡ ok b → b.flags ≡ a.flags
  same_flags a b h = let e : b ≡ a = cc in rw e

  -- A successful `remove` finds nothing to do, or takes the key's entries out.
  remove-channels :
      (dk : Bytes) (m m' : ChannelMap p)
      → remove p dk m ≡ ok m'
      → ((lookup (p.hex_encode dk) m.channels ≡ none) × (m'.channels ≡ m.channels))
        ⊎ (m'.channels ≡ remove_key (p.hex_encode dk) m.channels)
  unfolding remove
  remove-channels dk m m' h = elim (Option-cases (lookup (p.hex_encode dk) m.channels)) [
    | inl absent ↦ inl (absent, ok-channels m m' (rw (absent, remove) at h))
    | inr (handle, present) ↦
        let h1 = rw (present, remove) at h in
        let (locals, cleared, h2) =
          >>=-eq-ok (clear_id p (Handle.local_id handle) m.local_id) _ h1 in
        let (remotes, cleared', h3) =
          >>=-eq-ok (clear_id p (Handle.remote_id handle) m.remote_id) _ h2 in
        inr (ok-channels _ m' h3)
  ]

  -- The flag that the handle shares with its channel is set.
  pub remove-flags :
      (dk : Bytes) (h : ChannelHandle) (m m' : ChannelMap p)
      → lookup (p.hex_encode dk) m.channels ≡ some h
      → remove p dk m ≡ ok m'
      → m'.flags ≡ set m.flags h.closed true
  unfolding remove
  remove-flags dk h m m' present e =
      let e1 = rw (present, remove) at e in
      let (locals, cleared, e2) = >>=-eq-ok (clear_id p (Handle.local_id h) m.local_id) _ e1 in
      let (remotes, cleared', e3) = >>=-eq-ok (clear_id p (Handle.remote_id h) m.remote_id) _ e2 in
      same_flags _ m' e3

  pub removed_lem :
      (dk : Bytes) (m m' : ChannelMap p) → remove p dk m ≡ ok m' → has_channel p dk m' ≡ false
  unfolding has_channel
  removed_lem dk m m' h = elim (remove-channels dk m m' h) [
    | inl (absent, kept) ↦ rw (has_channel, kept, absent)
    | inr kept ↦ rw (has_channel, kept, lookup-remove_key (p.hex_encode dk) m.channels)
  ]

  -- After a successful `remove` the channel is gone, and what the map has under the hexadecimal form of
  -- another key, if that form differs, is as before.
  pub has_channel-remove :
      (dk other : Bytes) (m m' : ChannelMap p)
      → p.hex_encode dk ≢ p.hex_encode other
      → remove p dk m ≡ ok m'
      → (has_channel p dk m' ≡ false)
        × (lookup (p.hex_encode other) m'.channels ≡ lookup (p.hex_encode other) m.channels)
  has_channel-remove dk other m m' ne h = elim (remove-channels dk m m' h) [
    | inl (absent, kept) ↦ (removed_lem dk m m' h, rw kept refl)
    | inr kept ↦ (
      removed_lem dk m m' h,
      rw kept (
          lookup-remove_key_ne (p.hex_encode other) (p.hex_encode dk) m.channels
            (bytes_eq-ne _ _ ne)),
    )
  ]

  pub entry-local_id :
      (id flag : ℕ) (key dk : Bytes) (o : Option ChannelHandle)
      → Handle.local_id (entry (Handle.attach_local id key) (Handle.new_local id dk key flag) o)
        ≡ some id
  entry-local_id id flag key dk none = refl
  entry-local_id id flag key dk (some h) = refl

  -- What `attach_local` leaves under the key `hex dk`.
  abbrev pub local_handle : Bytes → Bytes → ChannelMap p → ChannelHandle
  local_handle key dk m =
      let id = (alloc_local p m.local_id).0 in
      entry (Handle.attach_local id key) (Handle.new_local id dk key (length m.flags))
        (lookup (p.hex_encode dk) m.channels)

  abbrev pub local_map : Bytes → Bytes → ChannelMap p → ChannelMap p
  local_map key dk m =
      let (id, ids) = alloc_local p m.local_id in
      record m {
        channels =
            upsert (p.hex_encode dk) (Handle.attach_local id key)
              (Handle.new_local id dk key (length m.flags)) m.channels;
        local_id = set ids id (some (p.hex_encode dk));
        flags = m.flags ++ (false ∷ []);
      }

  pub attach_local-eq :
      (key dk : Bytes) (m : ChannelMap p)
      → get_elem? m.local_id 0 ≡ some none
      → discovery_key p key ≡ ok dk
      → attach_local p key m ≡ ok (local_handle key dk m, local_map key dk m)
  unfolding attach_local set_checked unwrap
  attach_local-eq key dk m zeroth e =
      let (lo, inside, free, zeroth', longer, taken) = alloc_local-Allocates p m.local_id zeroth in
      let (id, ids) = alloc_local p m.local_id in
      let found =
        lookup-upsert (p.hex_encode dk) (Handle.attach_local id key)
          (Handle.new_local id dk key (length m.flags)) m.channels in
      rw (attach_local, e, ltb-true id (length ids) inside, found)

  pub local_map-get_local :
      (key dk : Bytes) (m : ChannelMap p)
      → get_elem? m.local_id 0 ≡ some none
      → get_local p (alloc_local p m.local_id).0 (local_map key dk m) ≡ some (local_handle key dk m)
  unfolding get_local id_key key_handle
  local_map-get_local key dk m zeroth =
      let (lo, inside, free, zeroth', longer, taken) = alloc_local-Allocates p m.local_id zeroth in
      let (id, ids) = alloc_local p m.local_id in
      let found =
        lookup-upsert (p.hex_encode dk) (Handle.attach_local id key)
          (Handle.new_local id dk key (length m.flags)) m.channels in
      rw (
        get_local,
        id_key,
        get_elem?-set_self ids id (some (p.hex_encode dk)) inside,
        key_handle,
        found,
      )

  -- What `attach_remote` leaves under the key `hex dk`.
  abbrev pub remote_handle : Bytes → ℕ → Option Bytes → ChannelMap p → ChannelHandle
  remote_handle dk id cap m =
      entry (Handle.attach_remote id cap) (Handle.new_remote id dk cap (length m.flags))
        (lookup (p.hex_encode dk) m.channels)

  abbrev pub remote_map : Bytes → ℕ → Option Bytes → ChannelMap p → ChannelMap p
  remote_map dk id cap m = record m {
    channels =
        upsert (p.hex_encode dk) (Handle.attach_remote id cap)
          (Handle.new_remote id dk cap (length m.flags)) m.channels;
    remote_id = set (remote_slots p id m.remote_id) id (some (p.hex_encode dk));
    flags = m.flags ++ (false ∷ []);
  }

  attach_remote-eq :
      (dk : Bytes) (id : ℕ) (cap : Option Bytes) (m : ChannelMap p)
      → alloc_remote p id m.remote_id ≡ ok (remote_slots p id m.remote_id)
      → attach_remote p dk id cap m ≡ ok (remote_handle dk id cap m, remote_map dk id cap m)
  unfolding attach_remote set_checked unwrap
  attach_remote-eq dk id cap m grown =
      let found =
        lookup-upsert (p.hex_encode dk) (Handle.attach_remote id cap)
          (Handle.new_remote id dk cap (length m.flags)) m.channels in
      let slots = remote_slots p id m.remote_id in
      let inside = ltb-true id (length slots) ((remote_slots-length p id m.remote_id).0) in
      rw (attach_remote, grown, inside, found)

  attach_remote-panic :
      (dk : Bytes) (id : ℕ) (cap : Option Bytes) (m : ChannelMap p)
      → Misses p id (alloc_remote p id m.remote_id)
      → attach_remote p dk id cap m ≡ panic
  unfolding attach_remote set_checked
  attach_remote-panic dk id cap m (inl over) = rw (attach_remote, over)
  attach_remote-panic dk id cap m (inr (ids, e, outside)) =
      rw (attach_remote, e, ltb-false id (length ids) outside)

  -- It succeeds, or the id is large and it panics.
  pub attach_remote-cases :
      (dk : Bytes) (id : ℕ) (cap : Option Bytes) (m : ChannelMap p)
      → (attach_remote p dk id cap m ≡ ok (remote_handle dk id cap m, remote_map dk id cap m))
        ⊎ ((2 ^ 57 ≤ id) × (attach_remote p dk id cap m ≡ panic))
  attach_remote-cases dk id cap m = elim (alloc_remote-cases p id m.remote_id) [
    | inl grown ↦ inl (attach_remote-eq dk id cap m grown)
    | inr (large, misses) ↦ inr (large, attach_remote-panic dk id cap m misses)
  ]

  -- On a table that keeps the slot 0 free, `attach_local` succeeds if the key has a discovery key. The
  -- id is 1 at least, it is the handle's, `get_local` finds the handle under it, and the
  -- slot 0 stays free.
  pub attach_local-get_local :
      (key dk : Bytes) (m : ChannelMap p)
      → get_elem? m.local_id 0 ≡ some none
      → discovery_key p key ≡ ok dk
      → (id : ℕ) × (h : ChannelHandle) × (m' : ChannelMap p) × (attach_local p key m ≡ ok (h, m'))
        × (1 ≤ id)
        × (Handle.local_id h ≡ some id)
        × (get_local p id m' ≡ some h)
        × (get_elem? m'.local_id 0 ≡ some none)
  attach_local-get_local key dk m zeroth e =
      let (lo, inside, free, zeroth', longer, taken) = alloc_local-Allocates p m.local_id zeroth in
      let (id, ids) = alloc_local p m.local_id in
      (
        id,
        local_handle key dk m,
        local_map key dk m,
        attach_local-eq key dk m zeroth e,
        lo,
        entry-local_id id (length m.flags) key dk (lookup (p.hex_encode dk) m.channels),
        local_map-get_local key dk m zeroth,
        get_elem?-set_ne ids id 0 (some (p.hex_encode dk)) (λ z. absurd (omega arith)) ∙ zeroth',
      )
