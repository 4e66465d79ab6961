-- ===== src/MessageIo/Total.antt =====
-- The frames that `poll_outbound` (src/mqueue.rs) encodes.
use hypercore_protocol_rs.Prelude.{
  Bool-cases, ◌⊎◌, inl, inr, List, [], ◌∷◌, ◌++◌, All, All-append, Error, ok, err, ◌≡◌,
}
use hypercore_protocol_rs.Wire.{Bytes, External}
use hypercore_protocol_rs.Wire.Total.{Ends, EncodersEnd}
use hypercore_protocol_rs.Message.{is_open_or_close}
use hypercore_protocol_rs.ChannelMessage.{ChannelMessage}
use hypercore_protocol_rs.Framing
use hypercore_protocol_rs.Framing.Ends.{vec_decode_ends}
use hypercore_protocol_rs.Wire.Contract.{Contract}
use hypercore_protocol_rs.Framing.Total.{OnWire, vec_encode_ends}
use hypercore_protocol_rs.Platform.{Platform}
use hypercore_protocol_rs.MessageIo.{take_batch, to_encoded_bytes, decoded}

module _ {x : External} where
  pub take_batch-OnWire :
      (messages queue : List (ChannelMessage x))
      → All OnWire messages
      → All OnWire queue
      → All OnWire (take_batch messages queue).0 × All OnWire (take_batch messages queue).1
  unfolding take_batch
  take_batch-OnWire messages [] h w = (h, tt)
  take_batch-OnWire [] (front ∷ queue) h w = elim (Bool-cases (is_open_or_close front.message)) [
    | inl alone ↦ rw alone ((w.0, tt), w.1)
    | inr ordinary ↦ rw ordinary (take_batch-OnWire (front ∷ []) queue (w.0, tt) w.1)
  ]
  take_batch-OnWire (m ∷ messages) (front ∷ queue) h w =
      elim (Bool-cases (is_open_or_close front.message)) [
        | inl alone ↦ rw alone (h, w)
        | inr ordinary ↦ rw ordinary (
            take_batch-OnWire (m ∷ messages ++ (front ∷ [])) queue
              (All-append OnWire (m ∷ messages) (front ∷ []) h (w.0, tt)) w.1)
      ]

module _ {x : External} (p : Platform x) (e : EncodersEnd x) where
  pub encoded-Ends : (ms : List (ChannelMessage x)) → All OnWire ms → Ends (to_encoded_bytes p ms)
  unfolding to_encoded_bytes
  encoded-Ends ms w =
      e.to_encoded_bytes (List (ChannelMessage x)) (Framing.codec x) ms
        (vec_encode_ends x e ms [] w).0 (λ buf. (vec_encode_ends x e ms buf w).1)

module _ {x : External} (p : Platform x) (k : Contract x) where
  -- What `poll_inbound` makes of a frame, whatever its bytes.
  pub decoded-cases :
      (frame : Bytes)
      → ((ms : List (ChannelMessage x)) × (Framing.vec_decode x frame ≡ ok (ms, []))
          × (decoded p (Framing.vec_decode x frame) ≡ ok ms))
        ⊎ ((e : Error) × (decoded p (Framing.vec_decode x frame) ≡ err e))
  unfolding decoded
  decoded-cases frame = elim (vec_decode_ends x k frame) [
    | inl (ms, read) ↦ inl (ms, read, rw read)
    | inr (e, failed) ↦ inr (e, rw failed)
  ]
