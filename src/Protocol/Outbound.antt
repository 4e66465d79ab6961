-- ===== src/Protocol/Outbound.antt =====
-- What reaches the write queue (`on_outbound_message`, and a batch of `poll_outbound_write`, of src/protocol.rs).
use hypercore_protocol_rs.Prelude.{
  ap, ◌∙◌, ◌++◌, inl, inr, Result, ℕ, Bool, true, false, if◌then◌else◌, List, [], ◌∷◌, ok, ◌≡◌,
  refl,
}
use hypercore_protocol_rs.Wire.{External}
use hypercore_protocol_rs.Message.{
  Message, synchronize, request, cancel, data_msg, no_data, want, unwant, bitfield, range,
  extension, open_msg, close_msg, local_signal,
}
use hypercore_protocol_rs.ChannelMessage.{ChannelMessage}
use hypercore_protocol_rs.Platform.{Platform}
use hypercore_protocol_rs.Channels.Map.Invariant.{IsMap}
use hypercore_protocol_rs.MessageIo.{MessageIo}
use hypercore_protocol_rs.Protocol.State.{Protocol, Event, ◌>>=◌, pure, queue_event}
use hypercore_protocol_rs.Protocol.Step.{retain, enqueue_all, send_messages, on_outbound_message}
use hypercore_protocol_rs.Protocol.Results.{bind-step}
use hypercore_protocol_rs.Protocol.OnClose.{on_outbound_message-Closed}
use hypercore_protocol_rs.Protocol.Conversation.Sender.{behind, enqueue_all-behind}

module _ {x : External} where
  abbrev is_wire : Message x → Bool
  is_wire (local_signal _ _) = false
  is_wire _ = true

  -- The messages that have a place on the wire: all but the local signals, in their order.
  abbrev pub wire_messages : List (ChannelMessage x) → List (ChannelMessage x)
  wire_messages [] = []
  wire_messages (m ∷ ms) = if is_wire m.message then m ∷ wire_messages ms else wire_messages ms

module _ {x : External} (p : Platform x) (E : Type 0) where
  -- The call succeeds, keeps the invariant of the channel map, and leaves the io layer as it was.
  record Keeps {A : Type 0} (value : A) (s : Protocol p) (r : Result A × Protocol p) : Type 0 where
    state : Protocol p
    ends : r ≡ (ok value, state)
    valid : IsMap p E state.channels
    same : state.io ≡ s.io

  on_outbound_message-Keeps :
      (m : ChannelMessage x) (s : Protocol p)
      → IsMap p E s.channels
      → Keeps (is_wire m.message) s (on_outbound_message p m s)
  on_outbound_message-Keeps m s v = go m.channel m.message
    where
      kept :
          (m' : ChannelMessage x)
          → on_outbound_message p m' s ≡ (ok true, s)
          → Keeps true s (on_outbound_message p m' s)
      kept m' e = record { state = s; ends = e; valid = v; same = refl }

      go :
          (channel : ℕ) (msg : Message x)
          → let m' : ChannelMessage x = record { channel = channel; message = msg } in
            Keeps (is_wire msg) s (on_outbound_message p m' s)
      go channel (synchronize a) = kept _ (unfold on_outbound_message in refl)
      go channel (request a) = kept _ (unfold on_outbound_message in refl)
      go channel (cancel a) = kept _ (unfold on_outbound_message in refl)
      go channel (data_msg a) = kept _ (unfold on_outbound_message in refl)
      go channel (no_data a) = kept _ (unfold on_outbound_message in refl)
      go channel (want a) = kept _ (unfold on_outbound_message in refl)
      go channel (unwant a) = kept _ (unfold on_outbound_message in refl)
      go channel (bitfield a) = kept _ (unfold on_outbound_message in refl)
      go channel (range a) = kept _ (unfold on_outbound_message in refl)
      go channel (extension a) = kept _ (unfold on_outbound_message in refl)
      go channel (open_msg a) = kept _ (unfold on_outbound_message in refl)
      go channel (close_msg a) = elim (on_outbound_message-Closed p E channel a s v) [
        | inl (unknown, e) ↦ kept _ e
        | inr (h, m', found, shut, e) ↦ record {
          state = _;
          ends = e;
          valid = shut.kept;
          same = refl;
        }
      ]
      go channel (local_signal n d) = record {
        state = record s { queued_events = s.queued_events ++ (Event.local_signal n d ∷ []) };
        ends = unfold on_outbound_message in unfold queue_event in refl;
        valid = v;
        same = refl;
      }

  retain-Keeps :
      (ms : List (ChannelMessage x)) (s : Protocol p)
      → IsMap p E s.channels
      → Keeps (wire_messages ms) s (retain p ms s)
  unfolding retain
  retain-Keeps [] s v = record { state = s; ends = refl; valid = v; same = refl }
  retain-Keeps (m ∷ ms) s v =
      let one = on_outbound_message-Keeps m s v in
      let others = retain-Keeps ms one.state one.valid in
      let keep = is_wire m.message in
      record {
        state = others.state;
        ends =
            bind-step (on_outbound_message p m)
              (λ keep. do rest ← retain p ms; pure (if keep then m ∷ rest else rest)) s one.state
              keep one.ends
            ∙ bind-step (retain p ms) (λ rest. pure (if keep then m ∷ rest else rest)) one.state
                others.state (wire_messages ms) others.ends;
        valid = others.valid;
        same = others.same ∙ one.same;
      }

  -- Where the invariant of the channel map holds, `send_messages` succeeds and keeps the invariant. It puts
  -- the messages of a user that have a place on the wire behind the write queue, in their order: no local
  -- signal, and all the rest. The stream is not touched.
  pub send_messages-wire_messages :
      (ms : List (ChannelMessage x)) (s : Protocol p)
      → IsMap p E s.channels
      → (s' : Protocol p) × (send_messages p ms s ≡ (ok tt, s'))
        × (s'.io.write_queue ≡ s.io.write_queue ++ wire_messages ms)
        × (s'.io.stream ≡ s.io.stream)
        × IsMap p E s'.channels
  unfolding send_messages
  send_messages-wire_messages ms s v =
      let r = retain-Keeps ms s v in
      (
        behind p (wire_messages ms) r.state,
        bind-step (retain p ms) (λ kept. enqueue_all p kept) s r.state (wire_messages ms) r.ends
            ∙ enqueue_all-behind p (wire_messages ms) r.state,
        ap (λ (io : MessageIo p). io.write_queue ++ wire_messages ms) r.same,
        ap (λ (io : MessageIo p). io.stream) r.same,
        r.valid,
      )
