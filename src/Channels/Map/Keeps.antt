-- ===== src/Channels/Map/Keeps.antt =====
-- The operations of `ChannelMap` (src/channels.rs) under its invariant: `attach_local`, `attach_remote`
-- and `remove`.
use hypercore_protocol_rs.Prelude.{
  ℕ, ◌+◌, ◌≤◌, ◌≡◌, refl, ◌∙◌, true, false, ltb-true, inl, inr, Option, Option-cases, none, some,
  List, [], ◌∷◌, ◌++◌, length, length-append, length-set, set, get_elem?, get_elem?-set_ne, arith,
  ok, lookup, remove_key, set_checked,
}
use hypercore_protocol_rs.Wire.{Bytes, External}
use hypercore_protocol_rs.Platform.{Platform}
use hypercore_protocol_rs.Channels.Handle.{ChannelHandle, Channel, LocalState, RemoteState}
use hypercore_protocol_rs.Channels.Handle
use hypercore_protocol_rs.Channels.Map.{ChannelMap, alloc_local, clear_id, remove}
use hypercore_protocol_rs.Channels.Map.Ids.{alloc_local-Allocates}
use hypercore_protocol_rs.Channels.Map.Slots.{remote_slots, remote_slots-length}
use hypercore_protocol_rs.Channels.Map.Entries.{local_map, remote_map}
use hypercore_protocol_rs.Channels.Map.Invariant.{
  InRange, Fits-mono, IsMap, All-lookup, All-remove_key, All-map, All-upsert,
}

module _ {x : External} (p : Platform x) (E : Type 0) where
  pub local_map-IsMap :
      (key dk : Bytes) (m : ChannelMap p) → IsMap p E m → IsMap p E (local_map p key dk m)
  local_map-IsMap key dk m v =
      let (lo, inside, free, zeroth, longer, taken) = alloc_local-Allocates p m.local_id v.zeroth in
      let (id, ids) = alloc_local p m.local_id in
      let hdkey = p.hex_encode dk in
      let more : length (m.flags ++ (false ∷ [])) ≡ length m.flags + 1 =
        length-append m.flags (false ∷ []) in
      let same : length (set ids id (some hdkey)) ≡ length ids = length-set ids id (some hdkey) in
      record {
        entries =
            All-upsert _ _
              (λ e.
                Fits-mono p E (length m.local_id) (length m.remote_id) (length m.flags) _ _ _ e
                  (omega (arith, longer, same)) (omega arith) (omega (arith, more)))
              hdkey (Handle.attach_local id key) (Handle.new_local id dk key (length m.flags))
              m.channels
              (λ w fits. record {
                under_key = fits.under_key;
                local_fits = (lo, omega (arith, inside, same));
                remote_fits = fits.remote_fits;
                flag_fits = omega (arith, more, fits.flag_fits);
                remote_when = fits.remote_when;
              })
              (record {
                under_key = refl;
                local_fits = (lo, omega (arith, inside, same));
                remote_fits = tt;
                flag_fits = omega (arith, more);
                remote_when = inl refl;
              })
              v.entries;
        zeroth = get_elem?-set_ne ids id 0 (some hdkey) (λ z. absurd (omega arith)) ∙ zeroth;
      }

  pub remote_map-IsMap :
      (dk : Bytes) (id : ℕ) (cap : Option Bytes) (m : ChannelMap p)
      → E
      → IsMap p E m
      → IsMap p E (remote_map p dk id cap m)
  remote_map-IsMap dk id cap m e v =
      let ids = remote_slots p id m.remote_id in
      let (inside, longer) = remote_slots-length p id m.remote_id in
      let hdkey = p.hex_encode dk in
      let more : length (m.flags ++ (false ∷ [])) ≡ length m.flags + 1 =
        length-append m.flags (false ∷ []) in
      let same : length (set ids id (some hdkey)) ≡ length ids = length-set ids id (some hdkey) in
      record {
        entries =
            All-upsert _ _
              (λ e.
                Fits-mono p E (length m.local_id) (length m.remote_id) (length m.flags) _ _ _ e
                  (omega arith) (omega (arith, longer, same)) (omega (arith, more)))
              hdkey (Handle.attach_remote id cap) (Handle.new_remote id dk cap (length m.flags))
              m.channels
              (λ w fits. record {
                under_key = fits.under_key;
                local_fits = fits.local_fits;
                remote_fits = (omega arith, omega (arith, inside, same));
                flag_fits = omega (arith, more, fits.flag_fits);
                remote_when = inr e;
              })
              (record {
                under_key = refl;
                local_fits = tt;
                remote_fits = (omega arith, omega (arith, inside, same));
                flag_fits = omega (arith, more);
                remote_when = inr e;
              })
              v.entries;
        zeroth = v.zeroth;
      }

  -- The slot of an id in range is cleared, and nothing else changes.
  clear_id-ok :
      (lo : ℕ) (o : Option ℕ) (ids : List (Option Bytes))
      → InRange lo (length ids) o
      → (ids' : List (Option Bytes)) × (clear_id p o ids ≡ ok ids')
        × (length ids' ≡ length ids)
        × (1 ≤ lo → get_elem? ids' 0 ≡ get_elem? ids 0)
  unfolding clear_id set_checked
  clear_id-ok lo none ids h = (ids, refl, refl, λ l. refl)
  clear_id-ok lo (some i) ids h = (
    set ids i none,
    rw (ltb-true i (length ids) h.1),
    length-set ids i none,
    λ l. get_elem?-set_ne ids i 0 none (λ z. absurd (omega (arith, z))),
  )

  -- In a map with the invariant `remove` succeeds, and keeps the invariant.
  pub remove-IsMap :
      (dk : Bytes) (m : ChannelMap p)
      → IsMap p E m
      → (m' : ChannelMap p) × (remove p dk m ≡ ok m') × IsMap p E m'
  unfolding remove
  remove-IsMap dk m v = elim (Option-cases (lookup (p.hex_encode dk) m.channels)) [
    | inl absent ↦ (m, rw (absent, remove), v)
    | inr (h, present) ↦
        let fits = All-lookup _ (p.hex_encode dk) h m.channels v.entries present in
        let (locals, e, same, slot) =
          clear_id-ok 1 (Handle.local_id h) m.local_id fits.local_fits in
        let (remotes, e', same', slot') =
          clear_id-ok 0 (Handle.remote_id h) m.remote_id fits.remote_fits in
        let flags = set m.flags h.closed true in
        let same'' : length flags ≡ length m.flags = length-set m.flags h.closed true in
        (
          record m {
            channels = remove_key (p.hex_encode dk) m.channels;
            local_id = locals;
            remote_id = remotes;
            flags = flags;
          },
          rw (present, remove, e, e'),
          record {
            entries =
                All-map _ _
                  (λ e.
                    Fits-mono p E (length m.local_id) (length m.remote_id) (length m.flags) _ _ _ e
                      (omega (arith, same)) (omega (arith, same')) (omega (arith, same'')))
                  (remove_key (p.hex_encode dk) m.channels)
                  (All-remove_key _ (p.hex_encode dk) m.channels v.entries);
            zeroth = slot (omega arith) ∙ v.zeroth;
          },
        )
  ]
