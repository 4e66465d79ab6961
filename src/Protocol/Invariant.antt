-- ===== src/Protocol/Invariant.antt =====
-- The invariant of `Protocol` (src/protocol.rs), and a rule for each way to build a handler. A handler may
-- panic only if `Z` holds.
use hypercore_protocol_rs.Prelude.{
  ◌≡◌, refl, Bool, true, false, if◌then◌else◌, ◌⊎◌, [], ◌∷◌, All, All-append, Result, ok, err,
  panic, stuck, Error, MayHalt, List,
}
use hypercore_protocol_rs.Wire.{External}
use hypercore_protocol_rs.ChannelMessage.{ChannelMessage}
use hypercore_protocol_rs.Platform.{Platform}
use hypercore_protocol_rs.Channels.Map.{ChannelMap}
use hypercore_protocol_rs.Channels.Map.Invariant.{IsMap}
use hypercore_protocol_rs.MessageIo
use hypercore_protocol_rs.MessageIo.{MessageIo}
use hypercore_protocol_rs.Protocol.Halting.{Established, HashFits}
use hypercore_protocol_rs.Protocol.State.{
  Protocol, Event, M, ◌>>=◌, lift, with_channels, set_channels, queue_event, enqueue, Command,
}
use hypercore_protocol_rs.Framing.Total.{OnWire}

-- An event that is queued: every one but the handshake's, which `poll_next` returns at once.
abbrev pub IsQueued : Event → Type 0
IsQueued (Event.handshake key) = ⊥
IsQueued _ = Unit {0}

module _ {x : External} {p : Platform x} where
  abbrev pub Any : {A : Type 0} → A → Protocol p → Type 0
  Any a s = Unit {0}

module _ {x : External} (p : Platform x) where
  -- A property of what no handler changes, but that it puts messages behind the write queue: the flag
  -- `handshake_emitted`, the commands that wait, and the io layer.
  abbrev pub Context : Type 1
  Context = Bool → List Command → MessageIo p → Type 0

module _ {x : External} {p : Platform x} where
  -- The property that says nothing.
  abbrev pub Free : Context p
  Free b commands io = Unit {0}

  -- It stays when a message with a place on the wire is put behind the write queue.
  abbrev pub Stable : Context p → Type 0
  Stable F =
      (b : Bool) (commands : List Command) (io : MessageIo p) (m : ChannelMessage x)
      → OnWire m
      → F b commands io
      → F b commands (MessageIo.enqueue p m io)

module _ {x : External} {p : Platform x} (Z : Type 0) (F : Context p) where
  -- The channel map keeps its invariant, and a channel is attached by the remote only after the
  -- handshake. No handshake event is queued. `F` is a property of what the handlers leave alone.
  pub record Inv (s : Protocol p) : Type 0 where
    pub map : IsMap p (Z ⊎ Established p s.io.stream) s.channels
    pub hash_fits : Z ⊎ HashFits p s.io.stream
    pub events : All IsQueued s.queued_events
    pub context : F s.handshake_emitted s.command_rx s.io

  -- The invariant holds at the end, `Q` of the value if there is one, and `Z` if there was a panic.
  abbrev pub Lands : {A : Type 0} → (A → Protocol p → Type 0) → Result A × Protocol p → Type 0
  Lands Q (ok a, s) = Inv s × Q a s
  Lands Q (err e, s) = Inv s
  Lands Q (panic, s) = Inv s × Z
  Lands Q (stuck, s) = Inv s × Z

  pub Lands-bind :
      {A B : Type 0} (R : A → Protocol p → Type 0) (Q : B → Protocol p → Type 0) (m : M p A)
      → (f : A → M p B) (s : Protocol p) → Lands R (m s)
      → ((a : A) (s' : Protocol p) → Inv s' → R a s' → Lands Q (f a s'))
      → Lands Q ((m >>= f) s)
  Lands-bind {A} {B} R Q m f s h k = go (m s).0 (m s).1 h
    where
      go :
          (r : Result A) (s' : Protocol p)
          → Lands R (r, s')
          → Lands Q (((λ (t : Protocol p). (r, s')) >>= f) s)
      go (ok a) s' h = k a s' h.0 h.1
      go (err e) s' h = h
      go panic s' h = h
      go stuck s' h = h

  pub Lands-lift :
      {A B : Type 0} (Q : B → Protocol p → Type 0) (r : Result A) (f : A → M p B) (s : Protocol p)
      → Inv s
      → MayHalt Z r
      → ((a : A) → r ≡ ok a → Lands Q (f a s))
      → Lands Q ((lift r >>= f) s)
  Lands-lift Q (ok a) f s i h k = k a refl
  Lands-lift Q (err e) f s i h k = i
  Lands-lift Q panic f s i h k = (i, h)
  Lands-lift Q stuck f s i h k = (i, h)

  pub Lands-if :
      {A : Type 0} (Q : A → Protocol p → Type 0) (b : Bool) (m n : M p A) (s : Protocol p)
      → (b ≡ true → Lands Q (m s))
      → (b ≡ false → Lands Q (n s))
      → Lands Q ((if b then m else n) s)
  Lands-if Q true m n s h k = h refl
  Lands-if Q false m n s h k = k refl

  pub Inv-channels :
      (s : Protocol p) (m : ChannelMap p)
      → Inv s
      → IsMap p (Z ⊎ Established p s.io.stream) m
      → Inv (record s { channels = m })
  Inv-channels s m i v = record {
    map = v;
    hash_fits = i.hash_fits;
    events = i.events;
    context = i.context;
  }

  pub queue_event-Lands :
      (e : Event) (s : Protocol p) → IsQueued e → Inv s → Lands Any (queue_event e s)
  unfolding queue_event
  queue_event-Lands e s q i = (
    record {
      map = i.map;
      hash_fits = i.hash_fits;
      events = All-append IsQueued s.queued_events (e ∷ []) i.events (q, tt);
      context = i.context;
    },
    tt,
  )

  pub enqueue-Lands :
      (m : ChannelMessage x) (s : Protocol p)
      → Stable F
      → OnWire m
      → Inv s
      → Lands Any (enqueue m s)
  unfolding enqueue MessageIo.enqueue
  enqueue-Lands m s stable w i = (
    record {
      map = i.map;
      hash_fits = i.hash_fits;
      events = i.events;
      context = stable s.handshake_emitted s.command_rx s.io m w i.context;
    },
    tt,
  )

  pub set_channels-Lands :
      (f : ChannelMap p → Result (ChannelMap p)) (m : ChannelMap p) (s : Protocol p)
      → f s.channels ≡ ok m
      → IsMap p (Z ⊎ Established p s.io.stream) m
      → Inv s
      → Lands Any (set_channels f s)
  unfolding set_channels
  set_channels-Lands f m s e v i = rw (e, set_channels) (Inv-channels s m i v, tt)

  pub set_channels-err :
      (f : ChannelMap p → Result (ChannelMap p)) (er : Error) (s : Protocol p)
      → f s.channels ≡ err er
      → Inv s
      → Lands Any (set_channels f s)
  unfolding set_channels
  set_channels-err f er s e i = rw (e, set_channels) i

  pub with_channels-Lands :
      {A : Type 0} (Q : A → Protocol p → Type 0) (f : ChannelMap p → Result (A × ChannelMap p))
      (a : A)
      → (m : ChannelMap p) (s : Protocol p) → f s.channels ≡ ok (a, m)
      → IsMap p (Z ⊎ Established p s.io.stream) m
      → Q a (record s { channels = m })
      → Inv s
      → Lands Q (with_channels f s)
  unfolding with_channels
  with_channels-Lands Q f a m s e v q i = rw (e, with_channels) (Inv-channels s m i v, q)

  pub with_channels-panic :
      {A : Type 0} (Q : A → Protocol p → Type 0) (f : ChannelMap p → Result (A × ChannelMap p))
      → (s : Protocol p) → f s.channels ≡ panic
      → Z
      → Inv s
      → Lands Q (with_channels f s)
  unfolding with_channels
  with_channels-panic Q f s e z i = rw (e, with_channels) (i, z)

module _ {x : External} {p : Platform x} (Z : Type 0) where
  -- The invariant for another property of the context.
  pub Inv-context :
      (F G : Context p) (s : Protocol p)
      → G s.handshake_emitted s.command_rx s.io
      → Inv Z F s
      → Inv Z G s
  Inv-context F G s g i = record {
    map = i.map;
    hash_fits = i.hash_fits;
    events = i.events;
    context = g;
  }

  pub Lands-context :
      {A : Type 0} (F G : Context p) (Q : A → Protocol p → Type 0) (r : Result A × Protocol p)
      → ((b : Bool) (commands : List Command) (io : MessageIo p)
          → F b commands io
          → G b commands io)
      → Lands Z F Q r
      → Lands Z G Q r
  Lands-context F G Q (ok a, s) f (i, q) = (Inv-context F G s (f _ _ _ i.context) i, q)
  Lands-context F G Q (err e, s) f i = Inv-context F G s (f _ _ _ i.context) i
  Lands-context F G Q (panic, s) f (i, z) = (Inv-context F G s (f _ _ _ i.context) i, z)
  Lands-context F G Q (stuck, s) f (i, z) = (Inv-context F G s (f _ _ _ i.context) i, z)

  -- A first part under a stronger property of the context than the whole.
  pub Lands-then :
      {A B : Type 0} (F G : Context p) (R : A → Protocol p → Type 0) (Q : B → Protocol p → Type 0)
      → (m : M p A) (f : A → M p B) (s : Protocol p)
      → ((b : Bool) (commands : List Command) (io : MessageIo p)
          → F b commands io
          → G b commands io)
      → Lands Z F R (m s)
      → ((a : A) (s' : Protocol p) → Inv Z F s' → R a s' → Lands Z G Q (f a s'))
      → Lands Z G Q ((m >>= f) s)
  Lands-then {A} {B} F G R Q m f s weaken h k = go (m s).0 (m s).1 h
    where
      go :
          (r : Result A) (s' : Protocol p)
          → Lands Z F R (r, s')
          → Lands Z G Q (((λ (t : Protocol p). (r, s')) >>= f) s)
      go (ok a) s' h = k a s' h.0 h.1
      go (err e) s' i = Inv-context F G s' (weaken _ _ _ i.context) i
      go panic s' (i, z) = (Inv-context F G s' (weaken _ _ _ i.context) i, z)
      go stuck s' (i, z) = (Inv-context F G s' (weaken _ _ _ i.context) i, z)
