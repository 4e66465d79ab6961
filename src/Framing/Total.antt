-- ===== src/Framing/Total.antt =====
-- The encoder of frames (src/message.rs) on every list of messages, whatever their values and channels.
use hypercore_protocol_rs.Prelude.{
  ℕ, ◌==◌, Bool-cases, List, [], ◌∷◌, All, ok, inl, inr, MayHalt-bind,
}
use hypercore_protocol_rs.Wire.{Bytes, External}
use hypercore_protocol_rs.Wire.Total.{Ends, EncoderEnds, EncodersEnd, ⊕-Ends, ⨟-Ends}
use hypercore_protocol_rs.Message.{Message, open_msg, close_msg, is_open_or_close}
use hypercore_protocol_rs.Message.Total as Body
use hypercore_protocol_rs.ChannelMessage
use hypercore_protocol_rs.ChannelMessage.{ChannelMessage}
use hypercore_protocol_rs.Framing.{
  change_size, message_size, batch_size, vec_encoded_size, encode_change, encode_length,
  encode_batch, encode_prefix, vec_encode,
}

module _ {x : External} where
  abbrev pub OnWire : ChannelMessage x → Type 0
  OnWire m = Body.OnWire m.message

module _ (x : External) (e : EncodersEnd x) where
  change_size-Ends : (current : ℕ) (m : ChannelMessage x) → Ends (change_size x current m)
  unfolding change_size
  change_size-Ends current m = elim (Bool-cases (m.channel == current)) [
    | inl same ↦ rw same tt
    | inr differs ↦ rw differs (⊕-Ends (ok 1) _ tt (e.u64.size m.channel))
  ]

  encode_change-Ends :
      (current : ℕ) (m : ChannelMessage x) → EncoderEnds (encode_change x current m)
  unfolding encode_change
  encode_change-Ends current m rest = elim (Bool-cases (m.channel == current)) [
    | inl same ↦ rw same tt
    | inr differs ↦ rw differs (⨟-Ends _ _ (e.write_array (0 ∷ [])) (e.u64.encode m.channel) rest)
  ]

  message_size-Ends : (m : ChannelMessage x) → OnWire m → Ends (message_size x m)
  unfolding message_size
  message_size-Ends m w =
      MayHalt-bind ⊥ _ _ (Body.encoded_size-Ends x e m.message w)
        λ n. MayHalt-bind ⊥ (x.u64.encoded_size n) _ (e.u64.size n) λ l. tt

  encode_length-Ends : (m : ChannelMessage x) → OnWire m → EncoderEnds (encode_length x m)
  unfolding encode_length
  encode_length-Ends m w rest =
      MayHalt-bind ⊥ _ _ (Body.encoded_size-Ends x e m.message w) λ n. e.u64.encode n rest

  batch_size-Ends :
      (current : ℕ) (ms : List (ChannelMessage x)) → All OnWire ms → Ends (batch_size x current ms)
  unfolding batch_size
  batch_size-Ends current [] w = tt
  batch_size-Ends current (m ∷ ms) w =
      ⊕-Ends _ _ (⊕-Ends _ _ (change_size-Ends current m) (message_size-Ends m w.0))
        (batch_size-Ends m.channel ms w.1)

  encode_batch-Ends :
      (current : ℕ) (ms : List (ChannelMessage x))
      → All OnWire ms
      → EncoderEnds (encode_batch x current ms)
  unfolding encode_batch
  encode_batch-Ends current [] w rest = tt
  encode_batch-Ends current (m ∷ ms) w rest =
      ⨟-Ends _ _
        (⨟-Ends _ _ (encode_change-Ends current m)
          (⨟-Ends _ _ (encode_length-Ends m w.0) (Body.encode-Ends x e m.message w.0)))
        (encode_batch-Ends m.channel ms w.1) rest

  encode_prefix-Ends : (channel : ℕ) (m : Message x) → EncoderEnds (encode_prefix x channel m)
  unfolding encode_prefix
  encode_prefix-Ends channel (open_msg m) = e.write_array _
  encode_prefix-Ends channel (close_msg m) = e.write_array _
  encode_prefix-Ends channel _ = e.u64.encode channel

  single_size-Ends : (m : ChannelMessage x) → OnWire m → Ends (ChannelMessage.encoded_size x m)
  unfolding ChannelMessage.encoded_size ChannelMessage.channel_size
  single_size-Ends m w = elim (Bool-cases (is_open_or_close m.message)) [
    | inl alone ↦ rw alone (⊕-Ends (ok 0) _ tt (Body.encoded_size-Ends x e m.message w))
    | inr ordinary ↦
        rw ordinary (⊕-Ends _ _ (e.u64.size m.channel) (Body.encoded_size-Ends x e m.message w))
  ]

  vec_encoded_size-Ends :
      (ms : List (ChannelMessage x)) → All OnWire ms → Ends (vec_encoded_size x ms)
  unfolding vec_encoded_size
  vec_encoded_size-Ends [] w = tt
  vec_encoded_size-Ends (m ∷ []) w = elim (Bool-cases (is_open_or_close m.message)) [
    | inl alone ↦ rw alone (⊕-Ends (ok 2) _ tt (single_size-Ends m w.0))
    | inr ordinary ↦ rw ordinary (single_size-Ends m w.0)
  ]
  vec_encoded_size-Ends (m ∷ n ∷ ms) w =
      ⊕-Ends _ _ (⊕-Ends (ok 2) _ tt (e.u64.size m.channel))
        (batch_size-Ends m.channel (m ∷ n ∷ ms) w)

  -- The encoders of the other crates return, with a value or an error. Then `vec_encoded_size` and
  -- `vec_encode` end in a value or an error, and do not panic, on every list of messages without a local
  -- signal, whatever their fields and channels, and on every buffer, also one that is too short.
  pub vec_encode_ends :
      (ms : List (ChannelMessage x)) (buf : Bytes)
      → All OnWire ms
      → Ends (vec_encoded_size x ms) × Ends (vec_encode x ms buf)
  unfolding vec_encode
  vec_encode_ends ms buf w = (vec_encoded_size-Ends ms w, go ms w buf)
    where
      go : (ms : List (ChannelMessage x)) → All OnWire ms → EncoderEnds (vec_encode x ms)
      go [] w rest = tt
      go (m ∷ []) w rest =
          ⨟-Ends _ _ (encode_prefix-Ends m.channel m.message) (Body.encode-Ends x e m.message w.0)
            rest
      go (m ∷ n ∷ ms) w rest =
          ⨟-Ends _ _ (⨟-Ends _ _ (e.write_array _) (e.u64.encode m.channel))
            (encode_batch-Ends m.channel (m ∷ n ∷ ms) w) rest
