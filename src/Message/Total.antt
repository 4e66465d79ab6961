-- ===== src/Message/Total.antt =====
-- The encoder of `Message` (src/message.rs) on every message, whatever its values.
use hypercore_protocol_rs.Prelude.{
  true, Result, ok, ◌>>=◌, ◌≡◌, ◌⊎◌, refl, [], MayHalt-bind, Bool-cases, inl, inr, if◌then◌else◌,
}
use hypercore_protocol_rs.Wire.{External}
use hypercore_protocol_rs.Wire.Total.{Ends, EncoderEnds, EncodersEnd, ⊕-Ends, ⨟-Ends}
use hypercore_protocol_rs.Schema.Open
use hypercore_protocol_rs.Schema.Close
use hypercore_protocol_rs.Schema.Synchronize
use hypercore_protocol_rs.Schema.Request
use hypercore_protocol_rs.Schema.Cancel
use hypercore_protocol_rs.Schema.Data
use hypercore_protocol_rs.Schema.NoData
use hypercore_protocol_rs.Schema.Want
use hypercore_protocol_rs.Schema.Unwant
use hypercore_protocol_rs.Schema.Bitfield
use hypercore_protocol_rs.Schema.Range
use hypercore_protocol_rs.Schema.Extension
use hypercore_protocol_rs.Message.{
  Message, synchronize, request, cancel, data_msg, no_data, want, unwant, bitfield, range,
  extension, open_msg, close_msg, local_signal, is_open_or_close, typ, typ_size, msg_size,
  encoded_size, encode_typ, encode_msg, encode,
}

module _ {x : External} where
  -- A message that has a place on the wire: no local signal.
  abbrev pub OnWire : Message x → Type 0
  OnWire (local_signal name data') = ⊥
  OnWire _ = Unit {0}

module _ (x : External) (e : EncodersEnd x) where
  -- A message that is no `Open` and no `Close` has a wire type.
  typ-Ends : (m : Message x) → OnWire m → (is_open_or_close m ≡ true) ⊎ Ends (typ m)
  unfolding typ is_open_or_close
  typ-Ends (open_msg m) w = inl refl
  typ-Ends (close_msg m) w = inl refl
  typ-Ends (synchronize m) w = inr tt
  typ-Ends (request m) w = inr tt
  typ-Ends (cancel m) w = inr tt
  typ-Ends (data_msg m) w = inr tt
  typ-Ends (no_data m) w = inr tt
  typ-Ends (want m) w = inr tt
  typ-Ends (unwant m) w = inr tt
  typ-Ends (bitfield m) w = inr tt
  typ-Ends (range m) w = inr tt
  typ-Ends (extension m) w = inr tt
  typ-Ends (local_signal name data') w = absurd w

  if-Ends :
      {A : Type 0} (m : Message x) (a b : Result A)
      → OnWire m
      → Ends a
      → (Ends (typ m) → Ends b)
      → Ends (if is_open_or_close m then a else b)
  if-Ends m a b w h k = elim (typ-Ends m w) [
    | inl alone ↦ rw alone h
    | inr typed ↦ elim (Bool-cases (is_open_or_close m)) [
      | inl alone ↦ rw alone h
      | inr ordinary ↦ rw ordinary (k typed)
    ]
  ]

  typ_size-Ends : (m : Message x) → OnWire m → Ends (typ_size x m)
  unfolding typ_size
  typ_size-Ends m w =
      if-Ends m (ok 0) (typ m >>= λ t. x.u64.encoded_size t) w tt
        (λ typed. MayHalt-bind ⊥ (typ m) _ typed e.u64.size)

  encode_typ-Ends : (m : Message x) → OnWire m → EncoderEnds (encode_typ x m)
  unfolding encode_typ
  encode_typ-Ends m w buf =
      if-Ends m (ok ([], buf)) (typ m >>= λ t. x.u64.encode t buf) w tt
        (λ typed. MayHalt-bind ⊥ (typ m) _ typed (λ t. e.u64.encode t buf))

  msg_size-Ends : (m : Message x) → Ends (msg_size x m)
  unfolding msg_size
  msg_size-Ends (open_msg m) = (Open.codec-Ends x e).size m
  msg_size-Ends (close_msg m) = (Close.codec-Ends x e).size m
  msg_size-Ends (synchronize m) = (Synchronize.codec-Ends x e).size m
  msg_size-Ends (request m) = (Request.codec-Ends x e).size m
  msg_size-Ends (cancel m) = (Cancel.codec-Ends x e).size m
  msg_size-Ends (data_msg m) = (Data.codec-Ends x e).size m
  msg_size-Ends (no_data m) = (NoData.codec-Ends x e).size m
  msg_size-Ends (want m) = (Want.codec-Ends x e).size m
  msg_size-Ends (unwant m) = (Unwant.codec-Ends x e).size m
  msg_size-Ends (bitfield m) = (Bitfield.codec-Ends x e).size m
  msg_size-Ends (range m) = (Range.codec-Ends x e).size m
  msg_size-Ends (extension m) = (Extension.codec-Ends x e).size m
  msg_size-Ends (local_signal name data') = tt

  encode_msg-Ends : (m : Message x) → OnWire m → EncoderEnds (encode_msg x m)
  unfolding encode_msg
  encode_msg-Ends (open_msg m) w = (Open.codec-Ends x e).encode m
  encode_msg-Ends (close_msg m) w = (Close.codec-Ends x e).encode m
  encode_msg-Ends (synchronize m) w = (Synchronize.codec-Ends x e).encode m
  encode_msg-Ends (request m) w = (Request.codec-Ends x e).encode m
  encode_msg-Ends (cancel m) w = (Cancel.codec-Ends x e).encode m
  encode_msg-Ends (data_msg m) w = (Data.codec-Ends x e).encode m
  encode_msg-Ends (no_data m) w = (NoData.codec-Ends x e).encode m
  encode_msg-Ends (want m) w = (Want.codec-Ends x e).encode m
  encode_msg-Ends (unwant m) w = (Unwant.codec-Ends x e).encode m
  encode_msg-Ends (bitfield m) w = (Bitfield.codec-Ends x e).encode m
  encode_msg-Ends (range m) w = (Range.codec-Ends x e).encode m
  encode_msg-Ends (extension m) w = (Extension.codec-Ends x e).encode m
  encode_msg-Ends (local_signal name data') w = absurd w

  pub encoded_size-Ends : (m : Message x) → OnWire m → Ends (encoded_size x m)
  unfolding encoded_size
  encoded_size-Ends m w = ⊕-Ends _ _ (typ_size-Ends m w) (msg_size-Ends m)

  pub encode-Ends : (m : Message x) → OnWire m → EncoderEnds (encode x m)
  unfolding encode
  encode-Ends m w = ⨟-Ends _ _ (encode_typ-Ends m w) (encode_msg-Ends m w)
