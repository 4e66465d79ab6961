-- ===== src/Framing/Ends.antt =====
-- Decoding of frames (src/message.rs) on any input, also a hostile one: it ends in messages or an
-- error. No loop runs out of fuel, and no slice is out of range.
use hypercore_protocol_rs.Prelude.{
  ℕ, zero, suc, ◌+◌, ◌-◌, ◌≤◌, ◌≡◌, refl, Bool-cases, if◌then◌else◌, leb, leb-true, ltb, List, [],
  ◌∷◌, ◌++◌, drop, length, length-drop, Result, Error, ok, err, io, invalid_data, unexpected_eof,
  encoding, external, ◌⊎◌, inl, inr, arith, ◌&&◌,
}
use hypercore_protocol_rs.Wire.{Bytes, External}
use hypercore_protocol_rs.Wire.Laws.{Answers, Answers-ok, Answers-weaken}
use hypercore_protocol_rs.Wire.Contract.{Contract}
use hypercore_protocol_rs.Schema.Open.RoundTrip as OpenTrip
use hypercore_protocol_rs.Schema.Close
use hypercore_protocol_rs.Message.{open_msg, close_msg}
use hypercore_protocol_rs.Message.RoundTrip as Trip
use hypercore_protocol_rs.ChannelMessage.{
  ChannelMessage, new, decode_with_channel, decode_from_channel_and_message, decode_open_message,
  decode_close_message,
}
use hypercore_protocol_rs.Framing.{
  byte_is, next_channel, batch_loop, decode_batch, decode_single, decode_unframed, map_external,
  slice_from, vec_loop, vec_decode, framed,
}

-- A value with the bytes it took, at least `k` and at most `n`, or an error.
abbrev Counts : {A : Type 0} → ℕ → ℕ → Result (A × ℕ) → Type 0
Counts {A} k n r =
    ((a : A) × (taken : ℕ) × (r ≡ ok (a, taken)) × (k ≤ taken) × (taken ≤ n))
    ⊎ ((e : Error) × (r ≡ err e))

module _ (x : External) (k : Contract x) where
  decode_with_channel-Answers : (c : ℕ) → Answers 2 (decode_with_channel x c)
  unfolding decode_with_channel
  decode_with_channel-Answers c buf = elim (Bool-cases (leb (length buf) 1)) [
    | inl short ↦ inr (io unexpected_eof, rw short)
    | inr long ↦ elim (Trip.decode-Answers x k buf) [
      | inl (m, rest, read, took) ↦ inl (new x c m, rest, rw (long, read), took)
      | inr (e, failed) ↦ inr (e, rw (long, failed))
    ]
  ]

  next_channel-Answers : (c : ℕ) → Answers 0 (next_channel x c)
  unfolding next_channel
  next_channel-Answers c buf = elim (Bool-cases (byte_is 0 0 buf)) [
    | inl change ↦ rw change (Answers-weaken 0 1 _ (omega arith) k.u64_answers buf)
    | inr same ↦ rw same (Answers-ok c buf)
  ]

  -- The message of one round, behind its length.
  checked : ℕ → ℕ → Bytes → Result (ChannelMessage x × Bytes)
  checked n c rest =
      if ltb (length rest) n then err (io invalid_data) else decode_with_channel x c rest

  checked-Answers : (n c : ℕ) → Answers 2 (checked n c)
  unfolding checked
  checked-Answers n c rest = elim (Bool-cases (ltb (length rest) n)) [
    | inl over ↦ inr (io invalid_data, rw over)
    | inr fits ↦ rw fits (decode_with_channel-Answers c rest)
  ]

  batch_loop-Answers :
      (fuel c : ℕ) (acc : List (ChannelMessage x)) (buf : Bytes)
      → length buf ≤ fuel
      → ((ms : List (ChannelMessage x)) × (batch_loop x fuel c acc buf ≡ ok (ms, [])))
        ⊎ ((e : Error) × (batch_loop x fuel c acc buf ≡ err e))
  unfolding batch_loop checked
  batch_loop-Answers fuel c acc [] h = inl (acc, refl)
  batch_loop-Answers zero c acc (b ∷ buf) h = absurd (omega arith)
  batch_loop-Answers (suc fuel) c acc (b ∷ buf) h = elim (k.usize_answers (b ∷ buf)) [
    | inr (e, failed) ↦ inr (e, rw failed)
    | inl (n, rest, read, took) ↦ elim (checked-Answers n c rest) [
      | inr (e, failed) ↦ inr (e, rw (read, failed))
      | inl (m, rest', decoded, took') ↦ elim (next_channel-Answers c rest') [
        | inr (e, failed) ↦ inr (e, rw (read, decoded, failed))
        | inl (next, rest'', change, took'') ↦
            rw (read, decoded, change)
              (batch_loop-Answers fuel next (acc ++ (m ∷ [])) rest'' (omega arith))
      ]
    ]
  ]

  decode_batch-Counts : (buf : Bytes) → Counts 3 (length buf) (decode_batch x buf)
  unfolding decode_batch
  decode_batch-Counts buf = elim (k.take_array_answers 2 buf) [
    | inr (e, failed) ↦ inr (e, rw failed)
    | inl (prefix, rest, cut, took) ↦ elim (k.u64_answers rest) [
      | inr (e, failed) ↦ inr (e, rw (cut, failed))
      | inl (c, rest', read, took') ↦
          elim (batch_loop-Answers (length rest') c [] rest' (omega arith)) [
            | inr (e, failed) ↦ inr (e, rw (cut, read, failed))
            | inl (ms, done) ↦
                inl (ms, length buf - 0, rw (cut, read, done), omega arith, omega arith)
          ]
    ]
  ]

  decode_single-Counts : (buf : Bytes) → Counts 3 (length buf) (decode_single x buf)
  unfolding decode_single decode_from_channel_and_message
  decode_single-Counts buf = elim (k.u64_answers buf) [
    | inr (e, failed) ↦ inr (e, rw failed)
    | inl (c, rest, read, took) ↦ elim (Trip.decode-Answers x k rest) [
      | inr (e, failed) ↦ inr (e, rw (read, failed))
      | inl (m, rest', decoded, took') ↦
          inl (
            new x c m ∷ [],
            length buf - length rest',
            rw (read, decoded),
            omega arith,
            omega arith,
          )
    ]
  ]

  decode_open_message-Counts : (buf : Bytes) → Counts 1 (length buf) (decode_open_message x buf)
  unfolding decode_open_message
  decode_open_message-Counts buf = elim (Bool-cases (leb (length buf) 5)) [
    | inl short ↦ inr (io unexpected_eof, rw short)
    | inr long ↦ elim (OpenTrip.decode-Answers x k buf) [
      | inl (m, rest, read, took) ↦ inl (
        new x m.channel (open_msg m),
        length buf - length rest,
        rw (long, read),
        omega arith,
        omega arith,
      )
      | inr (e, failed) ↦ inr (e, rw (long, failed))
    ]
  ]

  decode_close_message-Counts : (buf : Bytes) → Counts 1 (length buf) (decode_close_message x buf)
  unfolding decode_close_message
  decode_close_message-Counts buf = elim (Bool-cases (leb (length buf) 0)) [
    | inl short ↦ inr (io unexpected_eof, rw short)
    | inr long ↦ elim (Close.decode-Answers x k buf) [
      | inl (m, rest, read, took) ↦ inl (
        new x m.channel (close_msg m),
        length buf - length rest,
        rw (long, read),
        omega arith,
        omega arith,
      )
      | inr (e, failed) ↦ inr (e, rw (long, failed))
    ]
  ]

  framed-Counts :
      (n : ℕ) (r : Result (ChannelMessage x × ℕ)) → Counts 1 n r → Counts 3 (n + 2) (framed x r)
  unfolding framed
  framed-Counts n r (inl (m, taken, e, lo, hi)) =
      inl (m ∷ [], taken + 2, rw e, omega arith, omega arith)
  framed-Counts n r (inr (e, failed)) = inr (e, rw failed)

  special-Counts :
      (b c : ℕ) (buf : Bytes)
      → (r : Bytes → Result (ChannelMessage x × ℕ))
      → ((rest : Bytes) → Counts 1 (length rest) (r rest))
      → Counts 1 (length (b ∷ c ∷ buf)) (framed x (r buf))
  special-Counts b c buf r h = elim (framed-Counts (length buf) (r buf) (h buf)) [
    | inl (ms, taken, e, lo, hi) ↦ inl (ms, taken, e, omega arith, omega arith)
    | inr failed ↦ inr failed
  ]

  Counts-weaken : {A : Type 0} (n : ℕ) (r : Result (A × ℕ)) → Counts 3 n r → Counts 1 n r
  Counts-weaken n r (inl (a, taken, e, lo, hi)) = inl (a, taken, e, omega arith, hi)
  Counts-weaken n r (inr failed) = inr failed

  decode_unframed-Counts : (buf : Bytes) → Counts 1 (length buf) (decode_unframed x buf)
  unfolding decode_unframed
  decode_unframed-Counts [] = inr (io invalid_data, refl)
  decode_unframed-Counts (a ∷ []) = inr (io invalid_data, refl)
  decode_unframed-Counts (a ∷ b ∷ buf) =
      let all = a ∷ b ∷ buf in
      elim (Bool-cases (leb 3 (length all) && byte_is 0 0 all)) [
        | inr single ↦
            rw (single, leb-true 2 (length all) (omega arith))
              (Counts-weaken _ _ (decode_single-Counts all))
        | inl special ↦ elim (Bool-cases (byte_is 1 0 all)) [
          | inl batch ↦ rw (special, batch) (Counts-weaken _ _ (decode_batch-Counts all))
          | inr not_batch ↦ elim (Bool-cases (byte_is 1 1 all)) [
            | inl opens ↦
                rw (special, not_batch, opens)
                  (special-Counts a b buf (decode_open_message x) decode_open_message-Counts)
            | inr not_open ↦ elim (Bool-cases (byte_is 1 3 all)) [
              | inl closes ↦
                  rw (special, not_batch, not_open, closes)
                    (special-Counts a b buf (decode_close_message x) decode_close_message-Counts)
              | inr unknown ↦ inr (io invalid_data, rw (special, not_batch, not_open, unknown))
            ]
          ]
        ]
      ]

  vec_loop-Answers :
      (fuel : ℕ) (acc : List (ChannelMessage x)) (buf : Bytes)
      → length buf ≤ fuel
      → ((ms : List (ChannelMessage x)) × (vec_loop x fuel acc buf ≡ ok (ms, [])))
        ⊎ ((e : Error) × (vec_loop x fuel acc buf ≡ err e))
  unfolding vec_loop map_external slice_from
  vec_loop-Answers fuel acc [] h = inl (acc, refl)
  vec_loop-Answers zero acc (b ∷ buf) h = absurd (omega arith)
  vec_loop-Answers (suc fuel) acc (b ∷ buf) h = elim (decode_unframed-Counts (b ∷ buf)) [
    | inr (e, failed) ↦ inr (encoding external, rw failed)
    | inl (ms, taken, e, lo, hi) ↦
        rw (e, leb-true taken (length (b ∷ buf)) hi)
          (vec_loop-Answers fuel (acc ++ ms) (drop taken (b ∷ buf))
            (omega (arith, length-drop taken (b ∷ buf))))
  ]

  -- Decoding a frame, whatever its bytes, ends: in messages with nothing left over, or in an error.
  -- It neither panics nor runs out of fuel.
  pub vec_decode_ends :
      (buf : Bytes)
      → ((ms : List (ChannelMessage x)) × (vec_decode x buf ≡ ok (ms, [])))
        ⊎ ((e : Error) × (vec_decode x buf ≡ err e))
  unfolding vec_decode
  vec_decode_ends buf = vec_loop-Answers (length buf) [] buf (omega arith)
