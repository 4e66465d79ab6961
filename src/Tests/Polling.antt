-- ===== src/Tests/Polling.antt =====
-- Polls over a concrete steady stream, and the theorems on encoders and polls that end.
use hypercore_protocol_rs.Prelude.{
  false, ℕ, zero, suc, ◌<◌, ◌≡◌, refl, sym, ◌∙◌, Bool-cases, false, leb, ◌⊎◌, inl, inr, Option,
  none, some, List, [], ◌∷◌, ◌++◌, All, length, replicate, Result, Error, ok, err, MayHalt-bind,
  arith,
}
use hypercore_protocol_rs.Wire.{Bytes, Decoder, CompactEncoding}
use hypercore_protocol_rs.Wire.Total.{Ends, EncoderEnds, CodecEnds, EncodersEnd}
use hypercore_protocol_rs.Schema.Open.{Open}
use hypercore_protocol_rs.Message.{open_msg}
use hypercore_protocol_rs.ChannelMessage.{ChannelMessage, new as new_message}
use hypercore_protocol_rs.Framing.{vec_encoded_size, vec_encode}
use hypercore_protocol_rs.Framing.Frames.{IsSendable, opens, frame-RoundTrips}
use hypercore_protocol_rs.Framing.Total.{vec_encode_ends}
use hypercore_protocol_rs.Crypto
use hypercore_protocol_rs.Platform.{Poll, CipherEvent, handshake_payload, message, err_stuff}
use hypercore_protocol_rs.Protocol.State.{Protocol, Event, new, open_channel}
use hypercore_protocol_rs.Protocol.Step.{poll_next}
use hypercore_protocol_rs.Protocol.Halting.{MacTotal, Established, HashFits}
use hypercore_protocol_rs.Protocol.Steady.{Steady, Goes, Returns, FrameFits}
use hypercore_protocol_rs.Protocol.Completes.{Polled, poll_next-completes}
use hypercore_protocol_rs.Protocol.Completes
use hypercore_protocol_rs.Tests.Codecs.{crates, put, cut, filled, to_encoded_bytes}
use hypercore_protocol_rs.Tests.Rules.{rules}
use hypercore_protocol_rs.Tests.Host.{host, TestStream, next_event}
use hypercore_protocol_rs.Tests.Data.{want_on, close_on}

put-Ends : (bs : Bytes) → EncoderEnds (put bs)
unfolding put
put-Ends bs buf = elim (Bool-cases (leb (length bs) (length buf))) [
  | inl fits ↦ rw fits tt
  | inr short ↦ rw short tt
]

cut-Ends : (n : ℕ) → EncoderEnds (cut n)
unfolding cut
cut-Ends n buf = elim (Bool-cases (leb n (length buf))) [
  | inl fits ↦ rw fits tt
  | inr short ↦ rw short tt
]

filled-Ends :
    {A : Type 0} (bytes : A → Bytes) (decode : Decoder A) → CodecEnds (filled bytes decode)
filled-Ends bytes decode = record { size = λ a. tt; encode = λ a. put-Ends (bytes a) }

to_encoded_bytes-Ends :
    (A : Type 0) (c : CompactEncoding A) (a : A)
    → Ends (c.encoded_size a)
    → EncoderEnds (c.encode a)
    → Ends (to_encoded_bytes A c a)
unfolding to_encoded_bytes
to_encoded_bytes-Ends A c a h k =
    MayHalt-bind ⊥ (c.encoded_size a) _ h
      λ n. MayHalt-bind ⊥ (c.encode a (replicate n 0)) _ (k (replicate n 0)) λ r. tt

pub encoders_end : EncodersEnd crates
encoders_end = record {
  u64 = filled-Ends _ _;
  string = filled-Ends _ _;
  vec_u8 = filled-Ends _ _;
  vec_u32 = filled-Ends _ _;
  take_array_mut = cut-Ends;
  write_array = put-Ends;
  write_slice = put-Ends;
  request_block = filled-Ends _ _;
  request_seek = filled-Ends _ _;
  request_upgrade = filled-Ends _ _;
  data_block = filled-Ends _ _;
  data_hash = filled-Ends _ _;
  data_seek = filled-Ends _ _;
  data_upgrade = filled-Ends _ _;
  to_encoded_bytes = to_encoded_bytes-Ends;
}

-- A batch over two channels, and a `Close` in it, in a buffer that is too short.
abbrev batch : List (ChannelMessage crates)
batch = want_on 1 ∷ close_on 2 ∷ []

vec_encode_ends_example :
    Ends (vec_encoded_size crates batch) × Ends (vec_encode crates batch (0 ∷ 0 ∷ 0 ∷ []))
vec_encode_ends_example = vec_encode_ends crates encoders_end batch (0 ∷ 0 ∷ 0 ∷ []) (tt, (tt, tt))

abbrev EventFits : CipherEvent → Type 0
EventFits (message frame) = FrameFits crates frame
EventFits _ = Unit {0}

-- An established stream with frames to come that fit.
abbrev Good : TestStream → Type 0
Good s = HashFits host s × Established host s × All EventFits s.incoming

abbrev left : TestStream → ℕ
left s = length s.incoming

pub keeps : (s : TestStream) → Good s → Goes host Good left s s
keeps s g = record { good = g; fewer = omega arith; stays = λ done. done }

pub next_event-Goes : (s : TestStream) → Good s → Goes host Good left s (next_event s).1
next_event-Goes s (fits, done, frames) = go s.incoming frames refl
  where
    go :
        (es : List CipherEvent)
        → All EventFits es
        → s.incoming ≡ es
        → Goes host Good left s (next_event s).1
    go [] f e = rw e (record { good = (fits, done, f); fewer = omega arith; stays = λ d. d })
    go (event ∷ es) f e =
        rw e (record { good = (fits, done, f.1); fewer = omega arith; stays = λ d. d })

pub next_event-Returns :
    (s : TestStream) → Good s → Returns host Good left s (next_event s).0 (next_event s).1
next_event-Returns s (fits, done, frames) = go s.incoming frames refl
  where
    go :
        (es : List CipherEvent)
        → All EventFits es
        → s.incoming ≡ es
        → Returns host Good left s (next_event s).0 (next_event s).1
    go [] f e = rw e tt
    go (handshake_payload ∷ es) f e = rw e (omega arith)
    go (message frame ∷ es) f e = rw e (omega arith, done, f.0)
    go (err_stuff er ∷ es) f e = rw e tt

abbrev pub steady : Steady host
steady = record {
  Good = Good;
  left = left;
  hash_fits = λ s g. g.0;
  ready_goes = keeps;
  ready_ends = λ s g. tt;
  send_goes = λ bs s g. record { good = g; fewer = omega arith; stays = λ done. done };
  send_ends = λ bs s g. tt;
  flush_goes = keeps;
  flush_ends = λ s g. tt;
  next_goes = next_event-Goes;
  next_returns = next_event-Returns;
}

-- The remote opens a channel.
abbrev remote_open : Open
remote_open = record {
  channel = 3;
  protocol = Crypto.protocol_name;
  discovery_key = replicate 32 5;
  capability = none;
}

fives-All : (n : ℕ) → All (λ b. b < 256) (replicate n 5)
fives-All zero = tt
fives-All (suc n) = (omega arith, fives-All n)

abbrev open_frame : List (ChannelMessage crates)
open_frame = new_message crates 3 (open_msg remote_open) ∷ []

pub remote_open-IsSendable : IsSendable crates rules open_frame
unfolding rules
remote_open-IsSendable =
    opens remote_open (omega arith, omega arith, (omega arith, fives-All 32), tt) refl

-- Its frame, and what is decoded from it.
abbrev frame : Bytes
frame = (frame-RoundTrips crates rules 0 open_frame remote_open-IsSendable).1

frame-FrameFits : FrameFits crates frame
frame-FrameFits ms rest e =
    let (n, bs, size, written, read) =
      frame-RoundTrips crates rules 0 open_frame remote_open-IsSendable in
    let both : ◌≡◌ {A = Result (List (ChannelMessage crates) × Bytes)} (ok (open_frame, []))
        (ok (ms, rest)) =
      sym read ∙ e in
    let same : open_frame ≡ ms = cc in rw (← same) (omega arith, tt)

abbrev pub stream_with : List CipherEvent → TestStream
stream_with incoming = record {
  is_initiator = false;
  local_key = 1 ∷ [];
  remote_key = some (2 ∷ []);
  hash = some (9 ∷ []);
  incoming = incoming;
  outgoing = [];
}

hash_fits : (incoming : List CipherEvent) → HashFits host (stream_with incoming)
hash_fits incoming hash e =
    let known : ◌≡◌ {A = Option Bytes} (some (9 ∷ [])) (some hash) = e in
    let same : ◌≡◌ {A = Bytes} (9 ∷ []) hash = cc in rw (← same) (omega arith)

established : (incoming : List CipherEvent) → Established host (stream_with incoming)
established incoming = (2 ∷ [], 9 ∷ [], refl, refl)

pub mac : MacTotal host
mac key data' le = (data' ++ key, refl)

abbrev pub fresh : Protocol host
fresh = new {p = host} (stream_with []) []

abbrev polled : Protocol host
polled = (poll_next host 1 fresh).1

-- After a poll, the frame of the remote and a command to open a channel wait.
abbrev pub fed : Protocol host
fed = record polled {
  io = record { stream = stream_with (message frame ∷ []); write_queue = polled.io.write_queue };
  command_rx = open_channel (replicate 32 5) ∷ [];
  outbound_rx = (want_on 1 ∷ []) ∷ [];
  channels = record polled.channels { queues = [] };
}

pub fresh-Good : Good (stream_with [])
fresh-Good = (hash_fits [], established [], tt)

fed-Good : Good (stream_with (message frame ∷ []))
fed-Good = (hash_fits (message frame ∷ []), established (message frame ∷ []), (frame-FrameFits, tt))

pub fed-Polled : Polled host steady fresh fed
unfolding new
fed-Polled = Completes.polls 1 fresh fed (omega arith) (
    Completes.feeds (stream_with (message frame ∷ [])) (open_channel (replicate 32 5) ∷ [])
      ((want_on 1 ∷ []) ∷ []) [] polled fed fed-Good (λ done. established (message frame ∷ []))
      (omega arith, tt) (Completes.here fed))

poll_next-completes_example :
    ((event : Poll Event) × ((poll_next host 2 fed).0 ≡ ok event))
    ⊎ ((e : Error) × ((poll_next host 2 fed).0 ≡ err e))
poll_next-completes_example =
    poll_next-completes host rules encoders_end mac steady (stream_with []) [] fed 2 fresh-Good
      fed-Polled (omega arith)
