-- ===== src/Protocol/Close.antt =====
-- What the command to close a channel does (`command_close` of src/protocol.rs).
use hypercore_protocol_rs.Prelude.{
  Bool-cases, true, false, List, [], ◌∷◌, ◌++◌, Result, ok, err, panic, stuck, ◌≡◌, refl, sym, ap,
  ◌∙◌, ◌⊎◌, inl, inr,
}
use hypercore_protocol_rs.Wire.{Bytes, External}
use hypercore_protocol_rs.Platform.{Platform}
use hypercore_protocol_rs.Channels.Map
use hypercore_protocol_rs.Channels.Map.Entries.{removed_lem}
use hypercore_protocol_rs.Protocol.State.{Protocol, Event, M, set_channels, queue_event}
use hypercore_protocol_rs.Protocol.Step.{command_close}
use hypercore_protocol_rs.Protocol.Results.{bind-eq-ok}

module _ {x : External} {p : Platform x} where
  set_channels-eq-ok :
      (f : Map.ChannelMap p → Result (Map.ChannelMap p)) (s : Protocol p)
      → (set_channels f s).0 ≡ ok tt
      → (f s.channels ≡ ok (set_channels f s).1.channels)
        × ((set_channels f s).1.queued_events ≡ s.queued_events)
  unfolding set_channels
  set_channels-eq-ok f s = go (f s.channels)
    where
      go :
          (r : Result (Map.ChannelMap p))
          → (set_channels (λ c. r) s).0 ≡ ok tt
          → (r ≡ ok (set_channels (λ c. r) s).1.channels)
            × ((set_channels (λ c. r) s).1.queued_events ≡ s.queued_events)
      go (ok channels) h = (refl, refl)
      go (err e) h = cc
      go panic h = cc
      go stuck h = cc

  queue_event-after :
      (e : Event) (s s' : Protocol p)
      → queue_event e s ≡ (ok tt, s')
      → (s'.queued_events ≡ s.queued_events ++ (e ∷ [])) × (s'.channels ≡ s.channels)
  unfolding queue_event
  queue_event-after e s s' h =
      let after : s' ≡ (queue_event e s).1 =
        ap (λ (r : Result (Unit {0}) × Protocol p). r.1) (sym h) in
      (ap (λ (t : Protocol p). t.queued_events) after, ap (λ (t : Protocol p). t.channels) after)

  -- When `command_close` succeeds, the channel is not in the channel map. If it was, exactly its close
  -- event is queued; if it was not, nothing has changed.
  pub command_close_lem :
      (dk : Bytes) (s s' : Protocol p)
      → command_close p dk s ≡ (ok tt, s')
      → (Map.has_channel p dk s'.channels ≡ false)
        × (((Map.has_channel p dk s.channels ≡ true)
              × (s'.queued_events ≡ s.queued_events ++ (Event.close dk ∷ [])))
            ⊎ ((Map.has_channel p dk s.channels ≡ false) × (s' ≡ s)))
  unfolding command_close
  command_close_lem dk s s' h = elim (Bool-cases (Map.has_channel p dk s.channels)) [
    | inr unknown ↦
        let same : s' ≡ s =
          ap (λ (r : Result (Unit {0}) × Protocol p). r.1)
            (sym (rw (unknown, command_close) at h)) in
        (rw same unknown, inr (unknown, same))
    | inl known ↦
        let removes : M p (Unit {0}) = set_channels (Map.remove p dk) in
        let (u, removed, h') =
          bind-eq-ok removes (λ u. queue_event (Event.close dk)) s s' tt
            (rw (known, command_close) at h) in
        let (removed', same_queue) = set_channels-eq-ok (Map.remove p dk) s removed in
        let (queued, same) = queue_event-after (Event.close dk) (removes s).1 s' h' in
        (
          rw same (removed_lem p dk s.channels (removes s).1.channels removed'),
          inl (known, queued ∙ ap (λ (l : List Event). l ++ (Event.close dk ∷ [])) same_queue),
        )
  ]
