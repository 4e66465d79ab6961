-- ===== src/Protocol/OnClose.antt =====
-- What a `Close` does (src/protocol.rs): one of the remote (`on_close`), and one that a channel's user sends
-- (`on_outbound_message`).
use hypercore_protocol_rs.Prelude.{
  io, other, Bool, ℕ, ◌≡◌, sym, ap, ◌∙◌, subst, ◌⊎◌, inl, inr, true, false, Option, Option-cases,
  none, some, [], ◌∷◌, ◌++◌, get_elem?, get_elem?-set_self, lookup, Result, ok, err,
}
use hypercore_protocol_rs.Wire.{Bytes, External}
use hypercore_protocol_rs.Schema.Close.{Close}
use hypercore_protocol_rs.Message.{close_msg}
use hypercore_protocol_rs.ChannelMessage.{new as new_message}
use hypercore_protocol_rs.Platform.{Platform}
use hypercore_protocol_rs.Channels.Handle.{ChannelHandle}
use hypercore_protocol_rs.Channels.Map
use hypercore_protocol_rs.Channels.Map.{ChannelMap}
use hypercore_protocol_rs.Channels.Map.Entries.{removed_lem, remove-flags}
use hypercore_protocol_rs.Channels.Map.Invariant.{IsMap, All-lookup}
use hypercore_protocol_rs.Channels.Map.Keeps.{remove-IsMap}
use hypercore_protocol_rs.Channels.Map.Forward.{IsFull, forward_tolerate-found}
use hypercore_protocol_rs.Protocol.State.{
  ◌>>=◌, pure, Protocol, Event, M, ◌>>◌, set_channels, queue_event,
}
use hypercore_protocol_rs.Protocol.Step.{
  on_close, on_close_found, on_outbound_message, close_local, close_found,
}
use hypercore_protocol_rs.Protocol.Results.{bind-step, bind-err, set_channels-ok, set_channels-err}

module _ {x : External} (p : Platform x) (E : Type 0) where
  pub get_remote-lookup :
      (id : ℕ) (m : ChannelMap p) (h : ChannelHandle)
      → Map.get_remote p id m ≡ some h
      → (k : Bytes) × (lookup k m.channels ≡ some h)
  unfolding Map.get_remote Map.key_handle
  get_remote-lookup id m h e = elim (Option-cases (Map.id_key m.remote_id id)) [
    | inl free ↦ cc (rw (Map.get_remote, free) at e)
    | inr (k, slot) ↦ (k, rw (Map.get_remote, slot) at e)
  ]

  -- The map after a close: the channel is gone, the flag its user reads is set, and the invariant holds.
  pub record Closed (h : ChannelHandle) (m : ChannelMap p) : Type 0 where
    pub gone : Map.has_channel p h.discovery_key m ≡ false
    pub marked : get_elem? m.flags h.closed ≡ some true
    pub kept : IsMap p E m

  -- An entry of the map is removed.
  remove-Closed :
      (m : ChannelMap p) (k : Bytes) (h : ChannelHandle)
      → IsMap p E m
      → lookup k m.channels ≡ some h
      → (m' : ChannelMap p) × (Map.remove p h.discovery_key m ≡ ok m') × Closed h m'
  remove-Closed m k h v present =
      let fits = All-lookup _ k h m.channels v.entries present in
      let (m', removes, kept) = remove-IsMap p E h.discovery_key m v in
      let held : lookup (p.hex_encode h.discovery_key) m.channels ≡ some h =
        rw (sym fits.under_key) present in
      let flags = remove-flags p h.discovery_key h m m' held removes in
      (
        m',
        removes,
        record {
          gone = removed_lem p h.discovery_key m m' removes;
          marked = rw flags (get_elem?-set_self m.flags h.closed true fits.flag_fits);
          kept = kept;
        },
      )

  -- The outcome of a `Close` on the remote id of a handle. If the handle's queue is full, the message is
  -- refused and nothing has changed. Else, also if the queue is closed, the channel is closed and exactly its
  -- event is queued.
  pub data Closes (h : ChannelHandle) (msg : Close) (s : Protocol p)
      : Result (Unit {0}) × Protocol p → Type 0 where
    refused : IsFull p h (close_msg msg) s.channels.queues → Closes h msg s (err (io other), s)
    closed :
        (m : ChannelMap p)
        → (IsFull p h (close_msg msg) s.channels.queues → ⊥)
        → Closed h m
        → Closes h msg s (
          ok tt,
          record s {
            channels = m;
            queued_events = s.queued_events ++ (Event.close h.discovery_key ∷ []);
          },
        )

  removes_and_tells :
      (s : Protocol p) (dk : Bytes) (m : ChannelMap p)
      → Map.remove p dk s.channels ≡ ok m
      → (set_channels (Map.remove p dk) >> queue_event (Event.close dk)) s ≡ (
        ok tt,
        record s { channels = m; queued_events = s.queued_events ++ (Event.close dk ∷ []) },
      )
  unfolding queue_event
  removes_and_tells s dk m e =
      bind-step (set_channels (Map.remove p dk)) (λ u. queue_event (Event.close dk)) s
        (record s { channels = m }) tt (set_channels-ok (Map.remove p dk) s m e)

  with_queues-IsMap :
      (m : ChannelMap p) (q : p.Queues) → IsMap p E m → IsMap p E (record m { queues = q })
  with_queues-IsMap m q v = record { entries = v.entries; zeroth = v.zeroth }

  -- The state after a close: exactly its event is queued.
  abbrev pub closed_state : ChannelHandle → ChannelMap p → Protocol p → Protocol p
  closed_state h m s = record s {
    channels = m;
    queued_events = s.queued_events ++ (Event.close h.discovery_key ∷ []);
  }

  -- A `Close` that the queue of its handle takes.
  pub on_close_found-Closed :
      (id : ℕ) (msg : Close) (s : Protocol p) (k : Bytes) (h : ChannelHandle) (q : p.Queues)
      → IsMap p E s.channels
      → lookup k s.channels.channels ≡ some h
      → Map.forward_inbound_message_tolerate_closed p id (close_msg msg) s.channels
        ≡ ok (record s.channels { queues = q })
      → (m : ChannelMap p) × Closed h m
        × (on_close_found p id msg (some h) s ≡ (ok tt, closed_state h m s))
  on_close_found-Closed id msg s k h q v present done =
      let forward = Map.forward_inbound_message_tolerate_closed p id (close_msg msg) in
      let rest : Unit {0} → M p (Unit {0}) = λ u.
        set_channels (Map.remove p h.discovery_key) >> queue_event (Event.close h.discovery_key) in
      let m1 : ChannelMap p = record s.channels { queues = q } in
      let s1 : Protocol p = record s { channels = m1 } in
      let (m, removes, shut) = remove-Closed m1 k h (with_queues-IsMap s.channels q v) present in
      (
        m,
        shut,
        bind-step (set_channels forward) rest s s1 tt (set_channels-ok forward s m1 done)
            ∙ removes_and_tells s1 h.discovery_key m removes,
      )

  on_close_found-Closes :
      (id : ℕ) (msg : Close) (s : Protocol p) (h : ChannelHandle)
      → IsMap p E s.channels
      → Map.get_remote p id s.channels ≡ some h
      → Closes h msg s (on_close_found p id msg (some h) s)
  on_close_found-Closes id msg s h v found =
      let forward = Map.forward_inbound_message_tolerate_closed p id (close_msg msg) in
      let rest : Unit {0} → M p (Unit {0}) = λ u.
        set_channels (Map.remove p h.discovery_key) >> queue_event (Event.close h.discovery_key) in
      let (k, present) = get_remote-lookup id s.channels h found in
      elim (forward_tolerate-found p id (close_msg msg) s.channels h found) [
        | inl (is_full, failed) ↦
            let stops =
              bind-err (set_channels forward) rest s s (io other)
                (set_channels-err forward s (io other) failed) in
            subst (Closes h msg s) (sym stops) (refused is_full)
        | inr (room, (q, done)) ↦
            let (m, shut, runs) = on_close_found-Closed id msg s k h q v present done in
            subst (Closes h msg s) (sym runs) (closed m room shut)
      ]

  -- Where the invariant of the channel map holds, a `Close` of the remote on an id that has no channel
  -- changes nothing. On the id of a channel whose inbound queue is full, the error is returned and nothing
  -- has changed. On the id of any other channel, also of one whose user has dropped the receiver, the channel
  -- is gone from the map, its closed flag is set, and exactly its close event is queued.
  pub on_close-Closes :
      (id : ℕ) (msg : Close) (s : Protocol p)
      → IsMap p E s.channels
      → ((Map.get_remote p id s.channels ≡ none) × (on_close p id msg s ≡ (ok tt, s)))
        ⊎ ((h : ChannelHandle) × (Map.get_remote p id s.channels ≡ some h)
            × Closes h msg s (on_close p id msg s))
  unfolding on_close
  on_close-Closes id msg s v = elim (Option-cases (Map.get_remote p id s.channels)) [
    | inl unknown ↦
        inl (unknown, ap (λ (o : Option ChannelHandle). on_close_found p id msg o s) unknown)
    | inr (h, found) ↦
        let runs = ap (λ (o : Option ChannelHandle). on_close_found p id msg o s) found in
        inr (h, found, subst (Closes h msg s) (sym runs) (on_close_found-Closes id msg s h v found))
  ]

  get_local-lookup :
      (id : ℕ) (m : ChannelMap p) (h : ChannelHandle)
      → Map.get_local p id m ≡ some h
      → (k : Bytes) × (lookup k m.channels ≡ some h)
  unfolding Map.get_local Map.key_handle
  get_local-lookup id m h e = elim (Option-cases (Map.id_key m.local_id id)) [
    | inl free ↦ cc (rw (Map.get_local, free) at e)
    | inr (k, slot) ↦ (k, rw (Map.get_local, slot) at e)
  ]

  -- Where the invariant of the channel map holds, a `Close` that a channel's user sends is kept for the
  -- remote. If its channel is not in the map, nothing else happens. Else the channel is gone from the map
  -- on this side too, its closed flag is set, and exactly its close event is queued.
  pub on_outbound_message-Closed :
      (id : ℕ) (msg : Close) (s : Protocol p)
      → IsMap p E s.channels
      → let outbound = on_outbound_message p (new_message x id (close_msg msg)) s in
        ((Map.get_local p id s.channels ≡ none) × (outbound ≡ (ok true, s)))
        ⊎ ((h : ChannelHandle) × (m : ChannelMap p) × (Map.get_local p id s.channels ≡ some h)
            × Closed h m
            × (outbound ≡ (
              ok true,
              record s {
                channels = m;
                queued_events = s.queued_events ++ (Event.close h.discovery_key ∷ []);
              },
            )))
  unfolding on_outbound_message close_local
  on_outbound_message-Closed id msg s v =
      let kept : Unit {0} → M p Bool = λ u. pure true in
      elim (Option-cases (Map.get_local p id s.channels)) [
        | inl unknown ↦
            inl (unknown, ap (λ (o : Option ChannelHandle). (close_found p o >>= kept) s) unknown)
        | inr (h, found) ↦
            let (k, present) = get_local-lookup id s.channels h found in
            let (m, removes, shut) = remove-Closed s.channels k h v present in
            let closing =
              set_channels (Map.remove p h.discovery_key)
              >> queue_event (Event.close h.discovery_key) in
            inr (
              h,
              m,
              found,
              shut,
              ap (λ (o : Option ChannelHandle). (close_found p o >>= kept) s) found
                  ∙ bind-step closing kept s _ tt (removes_and_tells s h.discovery_key m removes),
            )
      ]
