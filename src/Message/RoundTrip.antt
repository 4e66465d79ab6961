-- ===== src/Message/RoundTrip.antt =====
-- The codec of `Message` (src/message.rs): its three methods agree on every message that has a wire
-- type, and decoding always ends in a message or an error.
use hypercore_protocol_rs.Prelude.{
  ℕ, ◌<◌, ◌≤◌, ◌==◌, true, false, [], ◌∷◌, ◌++◌, ◌≡◌, refl, ok, arith, Bool, if◌then◌else◌,
  encoding, invalid_type, inr, length,
}
use hypercore_protocol_rs.Wire.{Bytes, Decoder, CompactEncoding, External, ◌⊕◌, ◌⨟◌}
use hypercore_protocol_rs.Wire.Laws.{
  Encodes, Encodes-length, Answers, Writes-⨟, ⊕-length, Answers-bind, Answers-ok, Answers-weaken,
}
use hypercore_protocol_rs.Wire.Contract.{Contract}
use hypercore_protocol_rs.Schema.Synchronize
use hypercore_protocol_rs.Schema.Request
use hypercore_protocol_rs.Schema.Request.RoundTrip as RequestTrip
use hypercore_protocol_rs.Schema.Cancel
use hypercore_protocol_rs.Schema.Data
use hypercore_protocol_rs.Schema.Data.RoundTrip as DataTrip
use hypercore_protocol_rs.Schema.NoData
use hypercore_protocol_rs.Schema.Want
use hypercore_protocol_rs.Schema.Unwant
use hypercore_protocol_rs.Schema.Bitfield
use hypercore_protocol_rs.Schema.Range
use hypercore_protocol_rs.Schema.Extension
use hypercore_protocol_rs.Message.{
  Message, synchronize, request, cancel, data_msg, no_data, want, unwant, bitfield, range,
  extension, open_msg, close_msg, local_signal, is_open_or_close, typ, typ_size, msg_size,
  encoded_size, encode_typ, encode_msg, encode, decode_message, decode_typ, decode, codec,
}

module _ (x : External) (k : Contract x) where
  -- A message with a wire type, whose fields are in range.
  abbrev pub IsPlain : Message x → Type 0
  IsPlain (synchronize m) = Synchronize.IsValid m
  IsPlain (request m) = RequestTrip.IsValid x k m
  IsPlain (cancel m) = Cancel.IsValid m
  IsPlain (data_msg m) = DataTrip.IsValid x k m
  IsPlain (no_data m) = NoData.IsValid m
  IsPlain (want m) = Want.IsValid m
  IsPlain (unwant m) = Unwant.IsValid m
  IsPlain (bitfield m) = Bitfield.IsValid m
  IsPlain (range m) = Range.IsValid m
  IsPlain (extension m) = Extension.IsValid x k m
  IsPlain _ = ⊥

  abbrev pub bytes : Message x → Bytes
  bytes (synchronize m) = 0 ∷ Synchronize.bytes x k m
  bytes (request m) = 1 ∷ RequestTrip.bytes x k m
  bytes (cancel m) = 2 ∷ Cancel.bytes x k m
  bytes (data_msg m) = 3 ∷ DataTrip.bytes x k m
  bytes (no_data m) = 4 ∷ NoData.bytes x k m
  bytes (want m) = 5 ∷ Want.bytes x k m
  bytes (unwant m) = 6 ∷ Unwant.bytes x k m
  bytes (bitfield m) = 7 ∷ Bitfield.bytes x k m
  bytes (range m) = 8 ∷ Range.bytes x k m
  bytes (extension m) = 9 ∷ Extension.bytes x k m
  bytes _ = []

  type_byte : (t : ℕ) → t < 253 → Encodes x.u64 t (t ∷ [])
  type_byte t h = rw (k.u64_small t h) at (k.u64_lem t (omega arith))

  -- A message whose type `t` stands in front of the encoding of its contents.
  typed :
      {A : Type 0} (t : ℕ) (from : A → Message x) (c : CompactEncoding A) (a : A) (bs : Bytes)
      → t < 253
      → Encodes c a bs
      → encoded_size x (from a) ≡ (x.u64.encoded_size t ⊕ c.encoded_size a)
      → encode x (from a) ≡ (x.u64.encode t ⨟ c.encode a)
      → decode_typ x t ≡ decode_message x from c.decode
      → Encodes (codec x) (from a) (t ∷ bs)
  unfolding decode decode_message
  typed t from c a bs h e sized written read =
      let tag = type_byte t h in
      record {
        size = rw sized (⊕-length _ _ (t ∷ []) bs tag.size e.size);
        writes = rw written (Writes-⨟ _ _ (t ∷ []) bs tag.writes e.writes);
        reads = λ rest. rw (tag.reads (bs ++ rest), read, e.reads rest);
      }

  pub message-Encodes : (m : Message x) → IsPlain m → Encodes (codec x) m (bytes m)
  unfolding encoded_size typ_size msg_size is_open_or_close typ encode encode_typ encode_msg
      decode_typ
  message-Encodes (synchronize m) v =
      typed 0 synchronize (Synchronize.codec x) m _ (omega arith)
        (Synchronize.codec-Encodes x k m v) refl refl refl
  message-Encodes (request m) v =
      typed 1 request (Request.codec x) m _ (omega arith) (RequestTrip.request-Encodes x k m v) refl
        refl refl
  message-Encodes (cancel m) v =
      typed 2 cancel (Cancel.codec x) m _ (omega arith) (Cancel.codec-Encodes x k m v) refl refl
        refl
  message-Encodes (data_msg m) v =
      typed 3 data_msg (Data.codec x) m _ (omega arith) (DataTrip.data-Encodes x k m v) refl refl
        refl
  message-Encodes (no_data m) v =
      typed 4 no_data (NoData.codec x) m _ (omega arith) (NoData.codec-Encodes x k m v) refl refl
        refl
  message-Encodes (want m) v =
      typed 5 want (Want.codec x) m _ (omega arith) (Want.codec-Encodes x k m v) refl refl refl
  message-Encodes (unwant m) v =
      typed 6 unwant (Unwant.codec x) m _ (omega arith) (Unwant.codec-Encodes x k m v) refl refl
        refl
  message-Encodes (bitfield m) v =
      typed 7 bitfield (Bitfield.codec x) m _ (omega arith) (Bitfield.codec-Encodes x k m v) refl
        refl refl
  message-Encodes (range m) v =
      typed 8 range (Range.codec x) m _ (omega arith) (Range.codec-Encodes x k m v) refl refl refl
  message-Encodes (extension m) v =
      typed 9 extension (Extension.codec x) m _ (omega arith) (Extension.codec-Encodes x k m v) refl
        refl refl
  message-Encodes (open_msg m) v = absurd v
  message-Encodes (close_msg m) v = absurd v
  message-Encodes (local_signal name data') v = absurd v

  -- For each message with a wire type, whose fields are in range: `encoded_size` is the length of its
  -- encoding, `encode` writes it to the front of any buffer that starts with that many bytes, and
  -- `decode` reads the message back from it, whatever follows.
  pub message_encode_decode :
      (m : Message x) (old rest : Bytes)
      → IsPlain m
      → length old ≡ length (bytes m)
      → (encoded_size x m ≡ ok (length old))
        × (encode x m (old ++ rest) ≡ ok (bytes m, rest))
        × (decode x (bytes m ++ rest) ≡ ok (m, rest))
  message_encode_decode m old rest v h =
      let e = message-Encodes m v in (rw h e.size, e.writes old rest h, e.reads rest)

if-Answers :
    {A : Type 0} (n : ℕ) (b : Bool) (d e : Decoder A)
    → Answers n d
    → Answers n e
    → Answers n (λ buf. if b then d buf else e buf)
if-Answers n true d e h g = h
if-Answers n false d e h g = g

module _ (x : External) (k : Contract x) where
  decode_message-Answers :
      {A : Type 0} (from : A → Message x) (d : Decoder A) (n : ℕ)
      → 1 ≤ n
      → Answers n d
      → Answers 1 (decode_message x from d)
  unfolding decode_message
  decode_message-Answers from d n le h =
      Answers-bind 1 0 _ _ (Answers-weaken 1 n d le h) λ m. Answers-ok (from m)

  decode_typ-Answers : (t : ℕ) → Answers 1 (decode_typ x t)
  unfolding decode_typ
  decode_typ-Answers t =
      if-Answers 1 (t == 0) _ _
        (decode_message-Answers synchronize _ 4 (omega arith) (Synchronize.decode-Answers x k))
        (if-Answers 1 (t == 1) _ _
          (decode_message-Answers request _ 3 (omega arith) (RequestTrip.decode-Answers x k))
          (if-Answers 1 (t == 2) _ _
            (decode_message-Answers cancel _ 1 (omega arith) (Cancel.decode-Answers x k))
            (if-Answers 1 (t == 3) _ _
              (decode_message-Answers data_msg _ 3 (omega arith) (DataTrip.decode-Answers x k))
              (if-Answers 1 (t == 4) _ _
                (decode_message-Answers no_data _ 1 (omega arith) (NoData.decode-Answers x k))
                (if-Answers 1 (t == 5) _ _
                  (decode_message-Answers want _ 2 (omega arith) (Want.decode-Answers x k))
                  (if-Answers 1 (t == 6) _ _
                    (decode_message-Answers unwant _ 2 (omega arith) (Unwant.decode-Answers x k))
                    (if-Answers 1 (t == 7) _ _
                      (decode_message-Answers bitfield _ 2 (omega arith)
                        (Bitfield.decode-Answers x k))
                      (if-Answers 1 (t == 8) _ _
                        (decode_message-Answers range _ 2 (omega arith) (Range.decode-Answers x k))
                        (if-Answers 1 (t == 9) _ _
                          (decode_message-Answers extension _ 2 (omega arith)
                            (Extension.decode-Answers x k))
                          (λ buf. inr (encoding invalid_type, refl)))))))))))

  -- Decoding ends in a message or an error, and a message takes two bytes at least.
  pub decode-Answers : Answers 2 (decode x)
  unfolding decode
  decode-Answers = Answers-bind 1 1 _ _ k.u64_answers decode_typ-Answers

  pub bytes-length : (m : Message x) → IsPlain x k m → 2 ≤ length (bytes x k m)
  bytes-length m v =
      Encodes-length 2 (codec x) m (bytes x k m) (message-Encodes x k m v) decode-Answers

  pub plain-not-open_or_close : (m : Message x) → IsPlain x k m → is_open_or_close m ≡ false
  unfolding is_open_or_close
  plain-not-open_or_close (open_msg m) v = absurd v
  plain-not-open_or_close (close_msg m) v = absurd v
  plain-not-open_or_close (local_signal name data') v = absurd v
  plain-not-open_or_close _ v = refl
