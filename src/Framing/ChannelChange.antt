-- ===== src/Framing/ChannelChange.antt =====
-- A batch over two channels (src/message.rs). The encoder writes a zero byte and the new channel; the
-- decoder reads the zero byte itself as the new channel.
use hypercore_protocol_rs.Prelude.{
  refl, All, ℕ, zero, suc, ◌-◌, ◌≤◌, ◌<◌, ◌≡◌, ◌≢◌, sym, ap, subst, ◌∙◌, ==-self, ==-ne, ltb,
  if◌then◌else◌, List, [], ◌∷◌, ◌++◌, append_assoc, append-nil, length, length-append, Result, ok,
  err, panic, stuck, Bool-cases, leb, inl, inr, io, invalid_data, >>=-eq-ok, arith,
}
use hypercore_protocol_rs.Wire.{Bytes, External}
use hypercore_protocol_rs.Wire.Contract.{Contract, IsU64}
use hypercore_protocol_rs.Message
use hypercore_protocol_rs.Message.RoundTrip as Trip
use hypercore_protocol_rs.ChannelMessage.{ChannelMessage, decode_with_channel}
use hypercore_protocol_rs.Framing.{
  vec_encoded_size, vec_encode, byte_is, next_channel, batch_loop, decode_batch, decode_unframed,
  map_external, slice_from, vec_loop, vec_decode,
}
use hypercore_protocol_rs.Framing.Encode.{
  vec_encoded_size-frame_bytes, vec_encode-frame_bytes, IsPlain, item_bytes, change_bytes,
  batch_bytes, frame_bytes,
}
use hypercore_protocol_rs.Framing.RoundTrip.{
  u64_head, batch_loop-step, decode_with_channel-bytes, item-reads, item-length,
  decode_unframed-multi,
}

module _ (x : External) where
  decode_with_channel-channel :
      (c : ℕ) (buf rest : Bytes) (m : ChannelMessage x)
      → decode_with_channel x c buf ≡ ok (m, rest)
      → m.channel ≡ c
  unfolding decode_with_channel
  decode_with_channel-channel c buf rest m h = elim (Bool-cases (leb (length buf) 1)) [
    | inl short ↦ cc (rw short at h)
    | inr long ↦ let (p, read, e) = >>=-eq-ok (Message.decode x buf) _ (rw long at h) in cc e
  ]

  checked-channel :
      (n c : ℕ) (buf rest : Bytes) (m : ChannelMessage x)
      → (if ltb (length buf) n then err (io invalid_data) else decode_with_channel x c buf)
        ≡ ok (m, rest)
      → m.channel ≡ c
  checked-channel n c buf rest m h = elim (Bool-cases (ltb (length buf) n)) [
    | inl over ↦ cc (rw over at h)
    | inr fits ↦ decode_with_channel-channel c buf rest m (rw fits at h)
  ]

  -- A round of a successful loop: it pushes a message on the current channel, and goes on.
  batch_loop-round :
      (fuel c b : ℕ) (acc ms : List (ChannelMessage x)) (buf left : Bytes)
      → batch_loop x (suc fuel) c acc (b ∷ buf) ≡ ok (ms, left)
      → (m : ChannelMessage x) × (next : ℕ) × (rest : Bytes) × (m.channel ≡ c)
        × (batch_loop x fuel next (acc ++ (m ∷ [])) rest ≡ ok (ms, left))
  unfolding batch_loop
  batch_loop-round fuel c b acc ms buf left h =
      let (p, read, h1) = >>=-eq-ok (x.decode_usize (b ∷ buf)) _ h in
      let (q, decoded, h2) =
        >>=-eq-ok
          (if ltb (length p.1) p.0 then err (io invalid_data) else decode_with_channel x c p.1) _
          h1 in
      let (r, change, h3) = >>=-eq-ok (next_channel x c q.1) _ h2 in
      (q.0, r.0, r.1, checked-channel p.0 c p.1 q.1 q.0 decoded, h3)

  -- A successful loop keeps the messages so far.
  batch_loop-grows :
      (fuel c : ℕ) (acc ms : List (ChannelMessage x)) (buf left : Bytes)
      → batch_loop x fuel c acc buf ≡ ok (ms, left)
      → (more : List (ChannelMessage x)) × (ms ≡ acc ++ more)
  batch_loop-grows fuel c acc ms [] left h = ([], unfold batch_loop in cc (h, append-nil acc))
  batch_loop-grows zero c acc ms (b ∷ buf) left h = unfold batch_loop in cc h
  batch_loop-grows (suc fuel) c acc ms (b ∷ buf) left h =
      let (m, next, rest, on, h') = batch_loop-round fuel c b acc ms buf left h in
      let (more, e) = batch_loop-grows fuel next (acc ++ (m ∷ [])) ms rest left h' in
      (m ∷ more, e ∙ append_assoc acc (m ∷ []) more)

  -- What a successful loop adds behind them begins with a message on the current channel.
  batch_loop-first :
      (fuel c b : ℕ) (acc ms : List (ChannelMessage x)) (buf left : Bytes)
      → batch_loop x fuel c acc (b ∷ buf) ≡ ok (ms, left)
      → (m : ChannelMessage x) × (more : List (ChannelMessage x)) × (m.channel ≡ c)
        × (ms ≡ acc ++ (m ∷ more))
  batch_loop-first zero c b acc ms buf left h = unfold batch_loop in cc h
  batch_loop-first (suc fuel) c b acc ms buf left h =
      let (m, next, rest, on, h') = batch_loop-round fuel c b acc ms buf left h in
      let (more, e) = batch_loop-grows fuel next (acc ++ (m ∷ [])) ms rest left h' in
      (m, more, on, e ∙ append_assoc acc (m ∷ []) more)

  vec_loop-grows :
      (fuel : ℕ) (acc ms : List (ChannelMessage x)) (buf left : Bytes)
      → vec_loop x fuel acc buf ≡ ok (ms, left)
      → (more : List (ChannelMessage x)) × (ms ≡ acc ++ more)
  unfolding vec_loop
  vec_loop-grows fuel acc ms [] left h = ([], cc (h, append-nil acc))
  vec_loop-grows zero acc ms (b ∷ buf) left h = cc
  vec_loop-grows (suc fuel) acc ms (b ∷ buf) left h =
      let (p, decoded, h1) = >>=-eq-ok (map_external x (decode_unframed x (b ∷ buf))) _ h in
      let (rest, cut, h2) = >>=-eq-ok (slice_from x p.1 (b ∷ buf)) _ h1 in
      let (more, e) = vec_loop-grows fuel (acc ++ p.0) ms rest left h2 in
      (p.0 ++ more, e ∙ append_assoc acc p.0 more)

  map_external-ok : {A : Type 0} (r : Result A) (a : A) → map_external x r ≡ ok a → r ≡ ok a
  unfolding map_external
  map_external-ok (ok b) a h = h
  map_external-ok (err e) a h = cc
  map_external-ok panic a h = cc
  map_external-ok stuck a h = cc

  -- The first frame of an input gives the first messages.
  vec_decode-first :
      (b : ℕ) (buf left : Bytes) (ms : List (ChannelMessage x))
      → vec_decode x (b ∷ buf) ≡ ok (ms, left)
      → (front more : List (ChannelMessage x)) × (n : ℕ) × (decode_unframed x (b ∷ buf)
          ≡ ok (front, n))
        × (ms ≡ front ++ more)
  unfolding vec_decode vec_loop
  vec_decode-first b buf left ms h =
      let (p, decoded, h1) = >>=-eq-ok (map_external x (decode_unframed x (b ∷ buf))) _ h in
      let (rest, cut, h2) = >>=-eq-ok (slice_from x p.1 (b ∷ buf)) _ h1 in
      let (more, e) = vec_loop-grows (length buf) p.0 ms rest left h2 in
      (p.0, more, p.1, map_external-ok _ p decoded, e)

module _ (x : External) (k : Contract x) where
  -- At the encoder's separator the decoder takes channel 0, and stays before the new channel.
  next_channel-separator : (c : ℕ) (tail : Bytes) → next_channel x c (0 ∷ tail) ≡ ok (0, tail)
  unfolding next_channel byte_is
  next_channel-separator c tail =
      rw (k.u64_small 0 (omega arith)) at ((k.u64_lem 0 (omega arith)).reads tail)

  -- After the message `m`, the loop meets the separator before a message on another channel.
  batch_loop-change :
      (fuel : ℕ) (m n : ChannelMessage x) (ms : List (ChannelMessage x))
      → IsPlain x k m
      → n.channel ≢ m.channel
      → 0 < n.channel
      → (b : ℕ) × (rest : Bytes) × (batch_loop x
            (suc fuel)
            m.channel
            []
            (batch_bytes x k m.channel (m ∷ n ∷ ms))
          ≡ batch_loop x fuel 0 (m ∷ []) (b ∷ rest))
  batch_loop-change fuel m n ms v off pos =
      let bs = Trip.bytes x k m.message in
      let (b, cs, head, ne) = u64_head x k n.channel pos in
      let tail = (k.u64_bytes n.channel ++ item_bytes x k n) ++ batch_bytes x k n.channel ms in
      let split : batch_bytes x k m.channel (m ∷ n ∷ ms) ≡ item_bytes x k m ++ (0 ∷ tail) =
        rw (==-self m.channel, ==-ne n.channel m.channel off) in
      let fits : length bs ≤ length (bs ++ (0 ∷ tail)) =
        omega (arith, length-append bs (0 ∷ tail)) in
      let cut : tail ≡ b ∷ ((cs ++ item_bytes x k n) ++ batch_bytes x k n.channel ms) = rw head in
      (
        b,
        (cs ++ item_bytes x k n) ++ batch_bytes x k n.channel ms,
        ap (λ (t : Bytes). batch_loop x (suc fuel) m.channel [] t) split
            ∙ batch_loop-step x k fuel m.channel (length bs) 0 [] m _ (bs ++ (0 ∷ tail)) (0 ∷ tail)
                tail (item-reads x k m (0 ∷ tail) v) fits
                (decode_with_channel-bytes x k m (0 ∷ tail) v)
                (next_channel-separator m.channel tail)
            ∙ ap (λ (t : Bytes). batch_loop x fuel 0 (m ∷ []) t) cut,
      )

  pair_with_first :
      {A B : Type 0} (p : A × B) (a : A) (c n : ℕ)
      → ◌≡◌ {A = Result (A × ℕ)} (ok (p.0, c)) (ok (a, n))
      → ◌≡◌ {A = Result (A × B)} (ok p) (ok (a, p.1))
  pair_with_first {A} {B} p a c n h =
      let first : p.0 ≡ a = cc in ap (λ (t : A). let pair : A × B = (t, p.1) in ok pair) first

  decode_batch-loop :
      (c n : ℕ) (rest : Bytes) (front : List (ChannelMessage x))
      → IsU64 c
      → decode_batch x (0 ∷ 0 ∷ (k.u64_bytes c ++ rest)) ≡ ok (front, n)
      → (left : Bytes) × (batch_loop x (length rest) c [] rest ≡ ok (front, left))
  unfolding decode_batch
  decode_batch-loop c n rest front hc h =
      let h1 =
        rw (k.take_array_lem (0 ∷ 0 ∷ []) (k.u64_bytes c ++ rest), (k.u64_lem c hc).reads rest) at
          h in
      let (p, looped, e) = >>=-eq-ok (batch_loop x (length rest) c [] rest) _ h1 in
      (p.1, looped ∙ pair_with_first p front _ n e)

  -- The second message that the decoder finds is on channel 0.
  decode_unframed-second :
      (m n : ChannelMessage x) (ms front : List (ChannelMessage x)) (taken : ℕ)
      → IsPlain x k m
      → n.channel ≢ m.channel
      → 0 < n.channel
      → decode_unframed x (frame_bytes x k (m ∷ n ∷ ms)) ≡ ok (front, taken)
      → (o : ChannelMessage x) × (more : List (ChannelMessage x)) × (o.channel ≡ 0)
        × (front ≡ m ∷ o ∷ more)
  decode_unframed-second m n ms front taken v off pos h =
      let batch = batch_bytes x k m.channel (m ∷ n ∷ ms) in
      let body = k.u64_bytes m.channel ++ batch in
      let others = batch_bytes x k m.channel (n ∷ ms) in
      let long : 0 < length batch = omega (
        arith,
        length-append (change_bytes x k m.channel m ++ item_bytes x k m) others,
        length-append (change_bytes x k m.channel m) (item_bytes x k m),
        length-append (item_bytes x k m) [],
        item-length x k m [] v,
      ) in
      let long' : 0 < length body =
        omega (arith, length-append (k.u64_bytes m.channel) batch, long) in
      let h1 : decode_batch x (0 ∷ 0 ∷ body) ≡ ok (front, taken) =
        sym (decode_unframed-multi x k body long') ∙ h in
      let (left, looped) = decode_batch-loop m.channel taken batch front v.1 h1 in
      let fuel : length batch ≡ suc (length batch - 1) = omega (arith, long) in
      let (b, rest, step) = batch_loop-change (length batch - 1) m n ms v off pos in
      let looped' : batch_loop x (suc (length batch - 1)) m.channel [] batch ≡ ok (front, left) =
        subst (λ (f : ℕ). batch_loop x f m.channel [] batch ≡ ok (front, left)) fuel looped in
      batch_loop-first x (length batch - 1) 0 b (m ∷ []) front rest left (sym step ∙ looped')

  -- If the result is a list of messages, then it begins with `m`, and with a message on channel 0 behind it.
  abbrev pub SecondOnZero : ChannelMessage x → Result (List (ChannelMessage x) × Bytes) → Type 0
  SecondOnZero m (ok (ms, rest)) =
      (o : ChannelMessage x) × (more : List (ChannelMessage x)) × (o.channel ≡ 0)
      × (ms ≡ m ∷ o ∷ more)
  SecondOnZero m (err e) = Unit {0}
  SecondOnZero m panic = Unit {0}
  SecondOnZero m stuck = Unit {0}

  frame-SecondOnZero :
      (m n : ChannelMessage x) (ms : List (ChannelMessage x))
      → IsPlain x k m
      → n.channel ≢ m.channel
      → 0 < n.channel
      → SecondOnZero m (vec_decode x (frame_bytes x k (m ∷ n ∷ ms)))
  frame-SecondOnZero m n ms v off pos = go (vec_decode x (frame_bytes x k (m ∷ n ∷ ms))) refl
    where
      go :
          (r : Result (List (ChannelMessage x) × Bytes))
          → vec_decode x (frame_bytes x k (m ∷ n ∷ ms)) ≡ r
          → SecondOnZero m r
      go (ok (ms', rest)) h =
          let (front, more, taken, decoded, e) = vec_decode-first x _ _ rest ms' h in
          let (o, others, zeroth, e') =
            decode_unframed-second m n ms front taken v off pos decoded in
          (o, others ++ more, zeroth, e ∙ ap (λ (l : List (ChannelMessage x)). l ++ more) e')
      go (err e) h = tt
      go panic h = tt
      go stuck h = tt

  SecondOnZero-differs :
      (m n : ChannelMessage x) (ms : List (ChannelMessage x))
      → (r : Result (List (ChannelMessage x) × Bytes)) → 0 < n.channel
      → SecondOnZero m r
      → r ≢ ok (m ∷ n ∷ ms, [])
  SecondOnZero-differs m n ms (ok (ms', rest)) pos (o, more, zeroth, e) h =
      let same : n ≡ o = cc in
      absurd (omega (arith, ap (λ (m' : ChannelMessage x). m'.channel) same, zeroth, pos))
  SecondOnZero-differs m n ms (err e) pos z h = cc
  SecondOnZero-differs m n ms panic pos z h = cc
  SecondOnZero-differs m n ms stuck pos z h = cc

  -- A batch of messages with a wire type and with fields and lengths in range, whose second message is on
  -- another channel than the first, not 0, is encoded in a buffer of its encoded size, to the end. But the
  -- decoder takes the separator for a channel: what is written is refused, or decodes to messages of which the
  -- first is the first of the batch and the second is on channel 0. So it does not decode to the batch.
  pub vec_decode-channel_change :
      (m n : ChannelMessage x) (ms : List (ChannelMessage x)) (buf : Bytes)
      → All (IsPlain x k) (m ∷ n ∷ ms)
      → n.channel ≢ m.channel
      → 0 < n.channel
      → length buf ≡ length (frame_bytes x k (m ∷ n ∷ ms))
      → (vec_encoded_size x (m ∷ n ∷ ms) ≡ ok (length buf))
        × ((frame : Bytes) × (vec_encode x (m ∷ n ∷ ms) buf ≡ ok (frame, []))
            × SecondOnZero m (vec_decode x frame)
            × (vec_decode x frame ≢ ok (m ∷ n ∷ ms, [])))
  vec_decode-channel_change m n ms buf vs off pos fits =
      let frame = frame_bytes x k (m ∷ n ∷ ms) in
      let writes = vec_encode-frame_bytes x k (m ∷ n ∷ ms) vs buf [] fits in
      let second = frame-SecondOnZero m n ms vs.0 off pos in
      (
        rw fits (vec_encoded_size-frame_bytes x k (m ∷ n ∷ ms) vs),
        (
          frame,
          subst (λ (b : Bytes). vec_encode x (m ∷ n ∷ ms) b ≡ ok (frame, [])) (append-nil buf)
              writes,
          second,
          SecondOnZero-differs m n ms (vec_decode x frame) pos second,
        ),
      )
