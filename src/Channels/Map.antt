-- ===== src/Channels/Map.antt =====
-- `ChannelMap` of src/channels.rs. With the map stand the flags that handles and channels share, and
-- the inbound queues.
pub mod Slots
pub mod Ids
pub mod Entries
pub mod Invariant
pub mod Keeps
pub mod Accepts
pub mod Forward
pub mod Twice
use hypercore_protocol_rs.Prelude.{
  ℕ, suc, ◌+◌, ◌-◌, ◌%◌, ◌^◌, leb, ltb, Bool, true, false, if◌then◌else◌, Option, none, some, List,
  [], ◌∷◌, ◌++◌, length, take, drop, replicate, set, get_elem?, lookup, upsert, remove_key,
  set_checked, unwrap, Result, ok, panic, ◌*◌, err, io, other, ◌>>=◌, map,
}
use hypercore_protocol_rs.Wire.{Bytes, External}
use hypercore_protocol_rs.Message.{Message}
use hypercore_protocol_rs.Platform.{Platform}
use hypercore_protocol_rs.Crypto.{discovery_key}
use hypercore_protocol_rs.Channels.Handle.{ChannelHandle, Channel, is_connected}
use hypercore_protocol_rs.Channels.Handle

pub record ChannelMap {x : External} (p : Platform x) : Type 0 where
  pub channels : List (Bytes × ChannelHandle)
  pub local_id : List (Option Bytes)
  pub remote_id : List (Option Bytes)
  pub flags : List Bool
  pub queues : p.Queues

-- `position(|x| x.is_none())`
pub position_none {ℓ} : {A : Type ℓ} → List (Option A) → Option ℕ
position_none [] = none
position_none (none ∷ l) = some 0
position_none (some a ∷ l) = elim (position_none l) [ none ↦ none | some i ↦ some (suc i) ]

-- `isize::MAX`: the bytes that a vector may have at most.
abbrev pub isize_max : ℕ
isize_max = 2 ^ 63 - 1

-- The bytes of an `Option<String>`.
abbrev pub slot_size : ℕ
slot_size = 24

-- `Vec::resize` with `None`. A table of more bytes than a vector may have is a panic, "capacity overflow".
-- That memory is exhausted, and the spare room of a vector that grows, are not modelled.
abbrev pub resize : ℕ → List (Option Bytes) → Result (List (Option Bytes))
resize n ids =
    if leb n (length ids)
    then ok (take n ids)
    else if ltb isize_max (slot_size * n)
    then panic
    else ok (ids ++ replicate (n - length ids) none)

-- `if let Some(Some(hdkey)) = ids.get(id)`
unfoldable pub id_key : List (Option Bytes) → ℕ → Option Bytes
id_key ids id = elim (get_elem? ids id) [ none ↦ none | some slot ↦ slot ]

module _ {x : External} (p : Platform x) where
  -- The first `None` of the local ids makes them start at 1.
  unfoldable pub empty : p.Queues → ChannelMap p
  empty queues = record {
    channels = [];
    local_id = none ∷ [];
    remote_id = [];
    flags = [];
    queues = queues;
  }

  -- The first free id from 1 on, or a new one behind the last.
  unfoldable pub alloc_local : List (Option Bytes) → ℕ × List (Option Bytes)
  unfolding position_none
  alloc_local ids = elim (position_none (drop 1 ids)) [
    | some position ↦ (position + 1, ids)
    | none ↦ (length ids, ids ++ (none ∷ []))
  ]

  -- `id + 1` wraps in a 64-bit `usize`.
  unfoldable pub alloc_remote : ℕ → List (Option Bytes) → Result (List (Option Bytes))
  alloc_remote id ids =
      if ltb id (length ids) then ok (set ids id none) else resize ((id + 1) % 2 ^ 64) ids

  -- A flag is allocated for a new handle only; to allocate it always changes no handle.
  unfoldable pub attach_local : Bytes → ChannelMap p → Result (ChannelHandle × ChannelMap p)
  attach_local key m = do
    dk ← discovery_key p key
    let hdkey = p.hex_encode dk
    let (id, ids) = alloc_local m.local_id
    let flag = length m.flags
    let channels =
        upsert hdkey (Handle.attach_local id key) (Handle.new_local id dk key flag) m.channels
    ids' ← set_checked ids id (some hdkey)
    handle ← unwrap (lookup hdkey channels)
    ok (handle, record m { channels = channels; local_id = ids'; flags = m.flags ++ (false ∷ []) })

  unfoldable pub attach_remote :
      Bytes → ℕ → Option Bytes → ChannelMap p → Result (ChannelHandle × ChannelMap p)
  attach_remote dk id capability m = do
    let hdkey = p.hex_encode dk
    ids ← alloc_remote id m.remote_id
    let flag = length m.flags
    let channels =
        upsert hdkey (Handle.attach_remote id capability) (Handle.new_remote id dk capability flag)
          m.channels
    ids' ← set_checked ids id (some hdkey)
    handle ← unwrap (lookup hdkey channels)
    ok (handle, record m { channels = channels; remote_id = ids'; flags = m.flags ++ (false ∷ []) })

  unfoldable pub key_handle : Option Bytes → List (Bytes × ChannelHandle) → Option ChannelHandle
  key_handle none channels = none
  key_handle (some hdkey) channels = lookup hdkey channels

  -- `get_remote` and `get_remote_mut`
  unfoldable pub get_remote : ℕ → ChannelMap p → Option ChannelHandle
  unfolding id_key key_handle
  get_remote id m = key_handle (id_key m.remote_id id) m.channels

  -- `get_local` and `get_local_mut`
  unfoldable pub get_local : ℕ → ChannelMap p → Option ChannelHandle
  unfolding id_key key_handle
  get_local id m = key_handle (id_key m.local_id id) m.channels

  unfoldable pub has_channel : Bytes → ChannelMap p → Bool
  has_channel dk m = elim (lookup (p.hex_encode dk) m.channels) [ none ↦ false | some h ↦ true ]

  -- `if let Some(id) = id { ids[id] = None }`
  unfoldable pub clear_id : Option ℕ → List (Option Bytes) → Result (List (Option Bytes))
  clear_id none ids = ok ids
  clear_id (some id) ids = set_checked ids id none

  -- The handle is dropped with its entry, and its flag set.
  unfoldable pub remove : Bytes → ChannelMap p → Result (ChannelMap p)
  remove dk m =
      let hdkey = p.hex_encode dk in
      elim (lookup hdkey m.channels) [
        | none ↦ ok m
        | some h ↦ do
          local ← clear_id (Handle.local_id h) m.local_id
          remote ← clear_id (Handle.remote_id h) m.remote_id
          ok (record m {
            channels = remove_key hdkey m.channels;
            local_id = local;
            remote_id = remote;
            flags = set m.flags h.closed true;
          })
      ]

  -- `ok_or_else(|| error("Channel not found"))`
  unfoldable pub found {ℓ} : {A : Type ℓ} → Option A → Result A
  found none = err (io other)
  found (some a) = ok a

  unfoldable pub prepare_to_verify : ℕ → ChannelMap p → Result (Bytes × Option Bytes)
  unfolding found
  prepare_to_verify id m = do h ← found (get_local id m); Handle.prepare_to_verify h

  -- The handle is changed in place, under its key.
  unfoldable pub accept : ℕ → ChannelMap p → Result (Channel × ChannelMap p)
  unfolding found id_key
  accept id m = do
    hdkey ← found (id_key m.local_id id)
    h ← found (lookup hdkey m.channels)
    if is_connected h
        then (do
          (channel, h', queues) ← Handle.open_handle p h m.queues
          let channels = upsert hdkey (λ _. h') h' m.channels
          ok (channel, record m { channels = channels; queues = queues }))
        else err (io other)

  -- Forwarding to an id that has no channel succeeds and does nothing.
  unfoldable pub forward_inbound_message : ℕ → Message x → ChannelMap p → Result (ChannelMap p)
  forward_inbound_message id message m = elim (get_remote id m) [
    | none ↦ ok m
    | some h ↦ do
      queues ← Handle.try_send_inbound p h message m.queues
      ok (record m { queues = queues })
  ]

  unfoldable pub forward_inbound_message_tolerate_closed :
      ℕ → Message x → ChannelMap p → Result (ChannelMap p)
  forward_inbound_message_tolerate_closed id message m = elim (get_remote id m) [
    | none ↦ ok m
    | some h ↦ do
      queues ← Handle.try_send_inbound_tolerate_closed p h message m.queues
      ok (record m { queues = queues })
  ]

  -- The discovery keys of the channels, for `Protocol::channels`.
  unfoldable pub discovery_keys : ChannelMap p → List Bytes
  discovery_keys m = map (λ e. e.1.discovery_key) m.channels
