-- ===== src/Protocol/Inbound.antt =====
-- Messages of the remote on an open channel, from `on_inbound_channel_messages` (src/protocol.rs) to the
-- channel's user.
use hypercore_protocol_rs.Prelude.{
  ℕ, ◌≡◌, refl, sym, ap, ◌∙◌, false, some, List, [], ◌∷◌, ◌++◌, map, append-nil, append_assoc,
  length, All, ok,
}
use hypercore_protocol_rs.Wire.{External}
use hypercore_protocol_rs.Message.{
  Message, is_open_or_close, synchronize, request, cancel, data_msg, no_data, want, unwant,
  bitfield, range, extension, open_msg, close_msg, local_signal,
}
use hypercore_protocol_rs.Message.Control
use hypercore_protocol_rs.ChannelMessage.{new as new_message}
use hypercore_protocol_rs.Platform.{Platform}
use hypercore_protocol_rs.Channels.Handle.{Channel, ChannelHandle}
use hypercore_protocol_rs.Channels.Map
use hypercore_protocol_rs.Channels.Inbound.{QueueLaws, reads, reads-contents, forward-contents}
use hypercore_protocol_rs.Protocol.State.{Protocol, set_channels}
use hypercore_protocol_rs.Protocol.Results.{bind-step, set_channels-ok}
use hypercore_protocol_rs.Protocol.Step.{on_inbound_message, on_inbound_channel_messages}

module _ {x : External} (p : Platform x) where
  -- A message that is no `Open` and no `Close`.
  abbrev pub IsForwarded : Message x → Type 0
  IsForwarded msg = is_open_or_close msg ≡ false

  on_inbound_message-forwards :
      (id : ℕ) (msg : Message x) (s : Protocol p)
      → IsForwarded msg
      → on_inbound_message p (new_message x id msg) s
        ≡ set_channels (Map.forward_inbound_message p id msg) s
  unfolding on_inbound_message
  on_inbound_message-forwards id (open_msg o) s e = cc (Control.open-is_open_or_close x o)
  on_inbound_message-forwards id (close_msg c) s e = cc (Control.close-is_open_or_close x c)
  on_inbound_message-forwards id (synchronize m) s e = refl
  on_inbound_message-forwards id (request m) s e = refl
  on_inbound_message-forwards id (cancel m) s e = refl
  on_inbound_message-forwards id (data_msg m) s e = refl
  on_inbound_message-forwards id (no_data m) s e = refl
  on_inbound_message-forwards id (want m) s e = refl
  on_inbound_message-forwards id (unwant m) s e = refl
  on_inbound_message-forwards id (bitfield m) s e = refl
  on_inbound_message-forwards id (range m) s e = refl
  on_inbound_message-forwards id (extension m) s e = refl
  on_inbound_message-forwards id (local_signal n d) s e = refl

  -- The state with other inbound queues.
  abbrev pub with_queues : p.Queues → Protocol p → Protocol p
  with_queues q s = record s { channels = record s.channels { queues = q } }

  pub get_remote-queues :
      (id : ℕ) (q : p.Queues) (m : Map.ChannelMap p)
      → Map.get_remote p id (record m { queues = q }) ≡ Map.get_remote p id m
  unfolding Map.get_remote
  get_remote-queues id q m = refl

module _ {x : External} (p : Platform x) (laws : QueueLaws p) where
  -- What is put into the queue `tx` by a batch.
  abbrev pub Puts : ℕ → List (Message x) → ℕ → Protocol p → Type 0
  Puts tx ms id s =
      (q : p.Queues) × (on_inbound_channel_messages p (map (new_message x id) ms) s
        ≡ (ok tt, with_queues p q s))
      × (laws.contents tx q ≡ laws.contents tx s.channels.queues ++ ms)
      × laws.HasReceiver tx q

  pub batch-Puts :
      (id tx : ℕ) (ms : List (Message x)) (s : Protocol p) (h : ChannelHandle)
      → Map.get_remote p id s.channels ≡ some h
      → h.inbound_tx ≡ some tx
      → laws.HasReceiver tx s.channels.queues
      → All (IsForwarded p) ms
      → Puts tx ms id s
  unfolding on_inbound_channel_messages
  batch-Puts id tx [] s h present is_open receives all =
      (s.channels.queues, refl, sym (append-nil _), receives)
  batch-Puts id tx (m ∷ ms) s h present is_open receives (f, fs) =
      let (sends, put, still) =
        forward-contents p laws id tx m s.channels h present is_open receives in
      let q1 = (p.try_send tx m s.channels.queues).1 in
      let s1 = with_queues p q1 s in
      let (q, runs, puts, holds) =
        batch-Puts id tx ms s1 h (get_remote-queues p id q1 s.channels ∙ present) is_open still
          fs in
      let first : on_inbound_message p (new_message x id m) s ≡ (ok tt, s1) =
        on_inbound_message-forwards p id m s f
        ∙ set_channels-ok (Map.forward_inbound_message p id m) s s1.channels sends in
      (
        q,
        bind-step (on_inbound_message p (new_message x id m))
              (λ u. on_inbound_channel_messages p (map (new_message x id) ms)) s s1 tt first
            ∙ runs,
        puts
            ∙ ap (λ (l : List (Message x)). l ++ ms) put
            ∙ append_assoc (laws.contents tx s.channels.queues) (m ∷ []) ms,
        holds,
      )

  -- A batch of messages of the remote, neither `Open` nor `Close`, on the remote id of an open channel whose
  -- queue is empty and has a receiver, is handled without an error. Nothing but the inbound queues changes,
  -- and as many polls of the channel as there are messages yield the messages in their order.
  pub on_inbound_channel_messages-reads :
      (id rx : ℕ) (ms : List (Message x)) (s : Protocol p) (h : ChannelHandle) (c : Channel)
      → Map.get_remote p id s.channels ≡ some h
      → h.inbound_tx ≡ some rx
      → c.inbound_rx ≡ some rx
      → laws.HasReceiver rx s.channels.queues
      → laws.contents rx s.channels.queues ≡ []
      → All (IsForwarded p) ms
      → (q : p.Queues) × (on_inbound_channel_messages p (map (new_message x id) ms) s
          ≡ (ok tt, with_queues p q s))
        × (reads p (length ms) c q ≡ ms)
  on_inbound_channel_messages-reads id rx ms s h c present is_open mine receives empty all =
      let (q, runs, puts, still) = batch-Puts id rx ms s h present is_open receives all in
      let holds = puts ∙ ap (λ (l : List (Message x)). l ++ ms) empty in
      (q, runs, reads-contents p laws ms c rx q mine holds)
