-- ===== src/Channels/Map/Twice.antt =====
-- `attach_local` of src/channels.rs twice for one key, and `remove` after it.
use hypercore_protocol_rs.Prelude.{
  ℕ, zero, suc, ◌<◌, ◌≡◌, ◌≢◌, sym, ap, ◌∙◌, false, ltb-true, inl, inr, Option, Option-cases, drop,
  none, some, List, [], ◌∷◌, ◌++◌, length, length-set, set, get_elem?, get_elem?-set_self,
  get_elem?-set_ne, arith, ok, >>=-eq-ok, lookup, set_checked,
}
use hypercore_protocol_rs.Wire.{Bytes, External}
use hypercore_protocol_rs.Platform.{Platform}
use hypercore_protocol_rs.Crypto.{discovery_key}
use hypercore_protocol_rs.Channels.Handle
use hypercore_protocol_rs.Channels.Handle.{ChannelHandle}
use hypercore_protocol_rs.Channels.Map.{
  ChannelMap, position_none, alloc_local, attach_local, get_local, id_key, key_handle, has_channel,
  remove, clear_id,
}
use hypercore_protocol_rs.Channels.Map.Ids.{alloc_local-Allocates}
use hypercore_protocol_rs.Channels.Map.Invariant.{IsMap}
use hypercore_protocol_rs.Channels.Map.Entries.{
  local_handle, local_map, attach_local-eq, entry-local_id, lookup-upsert, removed_lem,
}
use hypercore_protocol_rs.Channels.Map.Keeps.{local_map-IsMap, remove-IsMap}

get_elem?-append :
    {A : Type 0} (l : List A) (a b : A) (i : ℕ)
    → get_elem? l i ≡ some a
    → get_elem? (l ++ (b ∷ [])) i ≡ some a
get_elem?-append [] a b i h = cc
get_elem?-append (c ∷ l) a b zero h = h
get_elem?-append (c ∷ l) a b (suc i) h = get_elem?-append l a b i h

module _ {x : External} (p : Platform x) where
  -- No slot changes.
  alloc_local-get_elem? :
      (ids : List (Option Bytes)) (i : ℕ) (slot : Option Bytes)
      → get_elem? ids i ≡ some slot
      → get_elem? (alloc_local p ids).1 i ≡ some slot
  unfolding alloc_local
  alloc_local-get_elem? ids i slot h = elim (Option-cases (position_none (drop 1 ids))) [
    | inl full ↦ rw (alloc_local, full) (get_elem?-append ids slot none i h)
    | inr (n, free) ↦ rw (alloc_local, free) h
  ]

  same_local_id : (a b : ChannelMap p) → ok a ≡ ok b → b.local_id ≡ a.local_id
  same_local_id a b h = let e : b ≡ a = cc in rw e

  clear_id-set :
      (o : Option ℕ) (id : ℕ) (ids ids' : List (Option Bytes))
      → o ≡ some id
      → id < length ids
      → clear_id p o ids ≡ ok ids'
      → ids' ≡ set ids id none
  unfolding clear_id set_checked
  clear_id-set o id ids ids' known inside e =
      let e1 = rw (known, clear_id, ltb-true id (length ids) inside) at e in cc

  remove-local_id :
      (dk : Bytes) (h : ChannelHandle) (id : ℕ) (m m' : ChannelMap p)
      → lookup (p.hex_encode dk) m.channels ≡ some h
      → Handle.local_id h ≡ some id
      → id < length m.local_id
      → remove p dk m ≡ ok m'
      → m'.local_id ≡ set m.local_id id none
  unfolding remove
  remove-local_id dk h id m m' present known inside e =
      let e1 = rw (present, remove) at e in
      let (locals, cleared, e2) = >>=-eq-ok (clear_id p (Handle.local_id h) m.local_id) _ e1 in
      let (remotes, cleared', e3) = >>=-eq-ok (clear_id p (Handle.remote_id h) m.remote_id) _ e2 in
      same_local_id _ m' e3
      ∙ clear_id-set (Handle.local_id h) id m.local_id locals known inside cleared

  -- A slot that is taken is not allocated.
  alloc_local-ne :
      (ids : List (Option Bytes)) (i : ℕ) (k : Bytes)
      → get_elem? ids 0 ≡ some none
      → get_elem? ids i ≡ some (some k)
      → i ≢ (alloc_local p ids).0
  alloc_local-ne ids i k zeroth taken e =
      let (lo, inside, free, zeroth', longer, all) = alloc_local-Allocates p ids zeroth in
      let kept = alloc_local-get_elem? ids i (some k) taken in
      let here : get_elem? (alloc_local p ids).1 i ≡ some none = rw e free in cc

module _ {x : External} (p : Platform x) (E : Type 0) where
  local_map-slot :
      (key dk : Bytes) (m : ChannelMap p)
      → get_elem? m.local_id 0 ≡ some none
      → get_elem? (local_map p key dk m).local_id (alloc_local p m.local_id).0
        ≡ some (some (p.hex_encode dk))
  local_map-slot key dk m zeroth =
      let (lo, inside, free, zeroth', longer, taken) = alloc_local-Allocates p m.local_id zeroth in
      let (id, ids) = alloc_local p m.local_id in
      get_elem?-set_self ids id (some (p.hex_encode dk)) inside

  -- The slots that are taken stay as they are.
  local_map-taken :
      (key dk k : Bytes) (m : ChannelMap p) (i : ℕ)
      → get_elem? m.local_id 0 ≡ some none
      → get_elem? m.local_id i ≡ some (some k)
      → get_elem? (local_map p key dk m).local_id i ≡ some (some k)
  local_map-taken key dk k m i zeroth taken =
      let (id, ids) = alloc_local p m.local_id in
      let other = alloc_local-ne p m.local_id i k zeroth taken in
      get_elem?-set_ne ids id i (some (p.hex_encode dk)) (λ e. other (sym e))
      ∙ alloc_local-get_elem? p m.local_id i (some k) taken

  found_under :
      (key dk : Bytes) (m : ChannelMap p) (i : ℕ)
      → get_elem? (local_map p key dk m).local_id i ≡ some (some (p.hex_encode dk))
      → get_local p i (local_map p key dk m) ≡ some (local_handle p key dk m)
  unfolding get_local id_key key_handle
  found_under key dk m i slot =
      let id = (alloc_local p m.local_id).0 in
      let found =
        lookup-upsert (p.hex_encode dk) (Handle.attach_local id key)
          (Handle.new_local id dk key (length m.flags)) m.channels in
      rw (get_local, id_key, slot, key_handle, found)

  -- Two calls and a `remove`, with the ids of the two calls and what they leave.
  abbrev pub AttachedTwice : Bytes → Bytes → ChannelMap p → Type 0
  AttachedTwice key dk m =
      (first second : ℕ) × (h h' : ChannelHandle) × (m1 m2 m3 : ChannelMap p) × (attach_local p key
          m
        ≡ ok (h, m1))
      × (attach_local p key m1 ≡ ok (h', m2))
      × (remove p dk m2 ≡ ok m3)
      × (first ≢ second)
      × (Handle.local_id h ≡ some first)
      × (Handle.local_id h' ≡ some second)
      × (get_local p first m2 ≡ some h')
      × (get_local p second m2 ≡ some h')
      × (has_channel p dk m3 ≡ false)
      × (get_elem? m3.local_id second ≡ some none)
      × (get_elem? m3.local_id first ≡ some (some (p.hex_encode dk)))
      × (first ≢ (alloc_local p m3.local_id).0)

  -- Where the invariant of the channel map holds, `attach_local` twice for one key, which has a discovery
  -- key, and then `remove` succeed.
  -- After the second call the channel is found under the ids of both calls, which differ, and its handle has the
  -- second. After `remove` it is not in the map, but only the slot of the second id is free: the slot of
  -- the first still holds the key, and `alloc_local` does not give that id.
  pub attach_local-twice :
      (key dk : Bytes) (m : ChannelMap p)
      → IsMap p E m
      → discovery_key p key ≡ ok dk
      → AttachedTwice key dk m
  attach_local-twice key dk m v known =
      let first = (alloc_local p m.local_id).0 in
      let m1 = local_map p key dk m in
      let v1 = local_map-IsMap p E key dk m v in
      let second = (alloc_local p m1.local_id).0 in
      let m2 = local_map p key dk m1 in
      let v2 = local_map-IsMap p E key dk m1 v1 in
      let (m3, removes, v3) = remove-IsMap p E dk m2 v2 in
      let slot1 = local_map-slot key dk m v.zeroth in
      let ne = alloc_local-ne p m1.local_id first (p.hex_encode dk) v1.zeroth slot1 in
      let slot1' = local_map-taken key dk (p.hex_encode dk) m1 first v1.zeroth slot1 in
      let slot2 = local_map-slot key dk m1 v1.zeroth in
      let h' = local_handle p key dk m1 in
      let named =
        entry-local_id p second (length m1.flags) key dk (lookup (p.hex_encode dk) m1.channels) in
      let present =
        lookup-upsert (p.hex_encode dk) (Handle.attach_local second key)
          (Handle.new_local second dk key (length m1.flags)) m1.channels in
      let (lo, fits, free, zeroth', longer, all) = alloc_local-Allocates p m1.local_id v1.zeroth in
      let same = length-set (alloc_local p m1.local_id).1 second (some (p.hex_encode dk)) in
      let inside : second < length m2.local_id = omega (arith, fits, same) in
      let cleared = remove-local_id p dk h' second m2 m3 present named inside removes in
      let left : get_elem? m3.local_id first ≡ some (some (p.hex_encode dk)) =
        ap (λ (l : List (Option Bytes)). get_elem? l first) cleared
        ∙ get_elem?-set_ne m2.local_id second first none (λ e. ne (sym e))
        ∙ slot1' in
      (
        first,
        second,
        local_handle p key dk m,
        h',
        m1,
        m2,
        m3,
        attach_local-eq p key dk m v.zeroth known,
        attach_local-eq p key dk m1 v1.zeroth known,
        removes,
        ne,
        entry-local_id p first (length m.flags) key dk (lookup (p.hex_encode dk) m.channels),
        named,
        found_under key dk m1 first slot1',
        found_under key dk m1 second slot2,
        removed_lem p dk m2 m3 removes,
        ap (λ (l : List (Option Bytes)). get_elem? l second) cleared
            ∙ get_elem?-set_self m2.local_id second none inside,
        left,
        alloc_local-ne p m3.local_id first (p.hex_encode dk) v3.zeroth left,
      )
