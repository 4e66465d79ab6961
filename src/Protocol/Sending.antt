-- ===== src/Protocol/Sending.antt =====
-- The messages that the users of channels send (`poll_outbound_write` of src/protocol.rs) under the
-- invariant.
use hypercore_protocol_rs.Prelude.{
  Bool, if◌then◌else◌, ◌⊎◌, List, [], ◌∷◌, All, true, false, ◌≡◌, refl,
}
use hypercore_protocol_rs.Wire.{External}
use hypercore_protocol_rs.ChannelMessage.{ChannelMessage}
use hypercore_protocol_rs.Platform.{Platform}
use hypercore_protocol_rs.Protocol.State.{Protocol, ◌>>=◌, pure, enqueue}
use hypercore_protocol_rs.Protocol.Step.{retain, enqueue_all, send_messages, on_outbound_message}
use hypercore_protocol_rs.Protocol.Halting.{MacTotal}
use hypercore_protocol_rs.Protocol.Invariant.{
  Inv, Lands, Any, Lands-bind, enqueue-Lands, Context, Stable,
}
use hypercore_protocol_rs.Protocol.Handlers.{on_outbound_message-Lands, KeepsWire}
use hypercore_protocol_rs.Framing.Total.{OnWire}

module _ {x : External} (p : Platform x) (Z : Type 0) (F : Context p) (stable : Stable F)
    (mac : Z ⊎ MacTotal p) where
  abbrev Wired : List (ChannelMessage x) → Protocol p → Type 0
  Wired ms s = All OnWire ms

  -- A message that is kept for the write queue is no local signal.
  kept-OnWire :
      (keep : Bool) (m : ChannelMessage x) (rest : List (ChannelMessage x))
      → (keep ≡ true → OnWire m)
      → All OnWire rest
      → All OnWire (if keep then m ∷ rest else rest)
  kept-OnWire true m rest h w = (h refl, w)
  kept-OnWire false m rest h w = w

  retain-Lands :
      (ms : List (ChannelMessage x)) (s : Protocol p) → Inv Z F s → Lands Z F Wired (retain p ms s)
  unfolding retain
  retain-Lands [] s i = (i, tt)
  retain-Lands (m ∷ ms) s i =
      Lands-bind Z F (KeepsWire p m) Wired (on_outbound_message p m)
        (λ keep. do rest ← retain p ms; pure (if keep then m ∷ rest else rest)) s
        (on_outbound_message-Lands p Z F stable mac m s i)
        λ keep s' i' kept.
          Lands-bind Z F Wired Wired (retain p ms) (λ rest. pure (if keep then m ∷ rest else rest))
            s' (retain-Lands ms s' i')
            (λ rest s'' i'' wired. (i'', kept-OnWire keep m rest kept wired))

  enqueue_all-Lands :
      (ms : List (ChannelMessage x)) (s : Protocol p)
      → All OnWire ms
      → Inv Z F s
      → Lands Z F Any (enqueue_all p ms s)
  unfolding enqueue_all
  enqueue_all-Lands [] s w i = (i, tt)
  enqueue_all-Lands (m ∷ ms) s w i =
      Lands-bind Z F Any Any (enqueue m) (λ u. enqueue_all p ms) s
        (enqueue-Lands Z F m s stable w.0 i) (λ u s' i' any. enqueue_all-Lands ms s' w.1 i')

  pub send_messages-Lands :
      (ms : List (ChannelMessage x)) (s : Protocol p)
      → Inv Z F s
      → Lands Z F Any (send_messages p ms s)
  unfolding send_messages
  send_messages-Lands ms s i =
      Lands-bind Z F Wired Any (retain p ms) (λ kept. enqueue_all p kept) s (retain-Lands ms s i)
        (λ kept s' i' wired. enqueue_all-Lands kept s' wired i')
