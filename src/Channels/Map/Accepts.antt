-- ===== src/Channels/Map/Accepts.antt =====
-- `prepare_to_verify` and `accept` of `ChannelMap` (src/channels.rs) on a handle that both ends attached.
use hypercore_protocol_rs.Prelude.{
  ℕ, ◌≡◌, ap, true, inl, inr, ◌⊎◌, Option-cases, some, length, ok, err, io, other, Error, lookup,
  upsert,
}
use hypercore_protocol_rs.Wire.{Bytes, External}
use hypercore_protocol_rs.Platform.{Platform}
use hypercore_protocol_rs.Channels.Handle.{ChannelHandle, Channel, LocalState, RemoteState}
use hypercore_protocol_rs.Channels.Handle
use hypercore_protocol_rs.Channels.Map.{
  ChannelMap, accept, prepare_to_verify, get_local, id_key, key_handle, found,
}
use hypercore_protocol_rs.Channels.Map.Invariant.{Fits, IsMap, All-lookup, All-upsert}

module _ {x : External} (p : Platform x) (E : Type 0) where
  -- What `accept` makes of a connected handle.
  abbrev pub accepted_channel : ChannelHandle → LocalState → ChannelMap p → Channel
  accepted_channel h l m =
      let tx = (p.unbounded m.queues).0 in
      record {
        inbound_rx = some tx;
        direct_inbound_tx = tx;
        key = l.key;
        discovery_key = h.discovery_key;
        local_id = l.local_id;
        closed = h.closed;
      }

  abbrev pub accepted_map : Bytes → ChannelHandle → ChannelMap p → ChannelMap p
  accepted_map k h m =
      let (tx, queues) = p.unbounded m.queues in
      let h' : ChannelHandle = record h { inbound_tx = some tx } in
      record m { channels = upsert k (λ w. h') h' m.channels; queues = queues }

  -- The connected handle under a local id.
  abbrev pub Connected :
      ℕ → ChannelMap p → Bytes → ChannelHandle → LocalState → RemoteState → Type 0
  Connected id m k h l r =
      (id_key m.local_id id ≡ some k)
      × (lookup k m.channels ≡ some h)
      × (h.local_state ≡ some l)
      × (h.remote_state ≡ some r)

  open_handle-eq :
      (h : ChannelHandle) (l : LocalState) (queues : p.Queues)
      → h.local_state ≡ some l
      → Handle.open_handle p h queues ≡ Handle.opened p h queues (some l)
  unfolding Handle.open_handle
  open_handle-eq h l queues locally = ap (Handle.opened p h queues) locally

  pub accept-Connected :
      (id : ℕ) (m : ChannelMap p) (k : Bytes) (h : ChannelHandle) (l : LocalState) (r : RemoteState)
      → Connected id m k h l r
      → accept p id m ≡ ok (accepted_channel h l m, accepted_map k h m)
  unfolding accept found
  accept-Connected id m k h l r (slot, present, locally, remotely) =
      let connected : Handle.is_connected h ≡ true = simp (locally, remotely) in
      rw (accept, slot, present, connected, open_handle-eq h l m.queues locally)

  pub prepare_to_verify-Connected :
      (id : ℕ) (m : ChannelMap p) (k : Bytes) (h : ChannelHandle) (l : LocalState) (r : RemoteState)
      → Connected id m k h l r
      → prepare_to_verify p id m ≡ ok (l.key, r.remote_capability)
  unfolding prepare_to_verify found get_local key_handle Handle.prepare_to_verify Handle.both_states
  prepare_to_verify-Connected id m k h l r (slot, present, locally, remotely) =
      simp (slot, present, locally, remotely)

  -- `prepare_to_verify` finds a connected handle, or fails.
  pub prepare_to_verify-cases :
      (id : ℕ) (m : ChannelMap p)
      → ((e : Error) × (prepare_to_verify p id m ≡ err e))
        ⊎ ((k : Bytes) × (h : ChannelHandle) × (l : LocalState) × (r : RemoteState) × Connected id m
              k h l r)
  unfolding prepare_to_verify found get_local key_handle Handle.prepare_to_verify Handle.both_states
  prepare_to_verify-cases id m = elim (Option-cases (id_key m.local_id id)) [
    | inl free ↦ inl (io other, rw (prepare_to_verify, get_local, free))
    | inr (k, slot) ↦ elim (Option-cases (lookup k m.channels)) [
      | inl absent ↦ inl (io other, rw (prepare_to_verify, get_local, slot, absent))
      | inr (h, present) ↦ elim (Option-cases h.local_state) [
        | inl unattached ↦ inl (io other, simp (slot, present, unattached))
        | inr (l, locally) ↦ elim (Option-cases h.remote_state) [
          | inl unattached ↦ inl (io other, simp (slot, present, locally, unattached))
          | inr (r, remotely) ↦ inr (k, h, l, r, (slot, present, locally, remotely))
        ]
      ]
    ]
  ]

  pub accepted_map-IsMap :
      (k : Bytes) (h : ChannelHandle) (m : ChannelMap p)
      → lookup k m.channels ≡ some h
      → IsMap p E m
      → IsMap p E (accepted_map k h m)
  accepted_map-IsMap k h m present v =
      let fits = All-lookup _ k h m.channels v.entries present in
      let tx = (p.unbounded m.queues).0 in
      let h' : ChannelHandle = record h { inbound_tx = some tx } in
      let fits' : Fits p E (length m.local_id) (length m.remote_id) (length m.flags) (k, h') =
        record {
          under_key = fits.under_key;
          local_fits = fits.local_fits;
          remote_fits = fits.remote_fits;
          flag_fits = fits.flag_fits;
          remote_when = fits.remote_when;
        } in
      record {
        entries =
            All-upsert _ _ (λ e f. f) k (λ w. h') h' m.channels (λ w f. fits') fits' v.entries;
        zeroth = v.zeroth;
      }
