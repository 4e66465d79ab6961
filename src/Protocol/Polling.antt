-- ===== src/Protocol/Polling.antt =====
-- The parts of `poll_next` (src/protocol.rs) under the invariant.
use hypercore_protocol_rs.Prelude.{
  ℕ, zero, suc, Bool, true, not, ◌&&◌, ◌⊎◌, Option, none, some, List, [], ◌∷◌, All, Result, ok, err,
  panic, stuck, ◌≡◌, refl, sym, subst,
}
use hypercore_protocol_rs.Wire.{External}
use hypercore_protocol_rs.Schema.Flags.{is_some}
use hypercore_protocol_rs.ChannelMessage.{ChannelMessage}
use hypercore_protocol_rs.Platform.{Platform, Poll, ready, pending}
use hypercore_protocol_rs.Channels.Map.Invariant.{IsMap-weaken}
use hypercore_protocol_rs.MessageIo.{MessageIo}
use hypercore_protocol_rs.MessageIo
use hypercore_protocol_rs.Protocol.State.{Protocol, Event, Command, M, ◌>>◌, pure}
use hypercore_protocol_rs.Protocol.Step.{
  poll_inbound, poll_outbound, on_polled, poll_inbound_read, send_messages, on_driven, drive,
  set_outbound_rx, outbound_write, poll_outbound_write, commands_loop, poll_commands, pop_from,
  pop_event, first_messages, poll_all, or_poll, or_pop, on_inbound_channel_messages,
  on_inbound_message, on_command,
}
use hypercore_protocol_rs.Protocol.Halting.{Established, MacTotal}
use hypercore_protocol_rs.Protocol.Invariant.{
  Inv, Lands, Any, Lands-bind, Lands-if, IsQueued, Context, Stable, Inv-context, Lands-context,
  Lands-then,
}
use hypercore_protocol_rs.Protocol.Sending.{send_messages-Lands}
use hypercore_protocol_rs.Protocol.Handlers.{on_command-Lands, on_inbound_message-Lands, OpenFits}
use hypercore_protocol_rs.Protocol.IoLaws.{Passes, PollMayHalt, Contexts, HasRead, IoLaws}

module _ {x : External} {p : Platform x} where
  -- A popped event was queued.
  abbrev pub NotHandshake : Poll Event → Protocol p → Type 0
  NotHandshake pending s = Unit {0}
  NotHandshake (ready e) s = IsQueued e

module _ {x : External} (p : Platform x) (Z : Type 0) (F : Contexts p) (laws : IoLaws p Z F)
    (mac : Z ⊎ MacTotal p) where
  abbrev LandsAt : {A : Type 0} → ℕ → (A → Protocol p → Type 0) → Result A × Protocol p → Type 0
  LandsAt n Q r = Lands Z (F n) Q r

  io-Inv :
      (n : ℕ) (s : Protocol p) (io : MessageIo p)
      → F n s.handshake_emitted s.command_rx io
      → Passes p Z s.io io
      → Inv Z (λ b cs io. Unit {0}) s
      → Inv Z (F n) (record s { io = io })
  io-Inv n s io f passes i = record {
    map =
        IsMap-weaken p (Z ⊎ Established p s.io.stream) (Z ⊎ Established p io.stream) passes.stays
          s.channels i.map;
    hash_fits = passes.fits;
    events = i.events;
    context = f;
  }

  -- The handlers of the remote's messages leave the stream alone.
  abbrev On : p.Stream → ℕ → Context p
  On stream n b commands io = F n b commands io × (io.stream ≡ stream)

  on-stable : (stream : p.Stream) (n : ℕ) → Stable (On stream n)
  unfolding MessageIo.enqueue
  on-stable stream n b commands io m w (f, e) = (laws.stable n b commands io m w f, e)

  messages-Lands :
      (n : ℕ) (stream : p.Stream) (ms : List (ChannelMessage x)) (s : Protocol p)
      → All (λ m. Z ⊎ OpenFits p stream m) ms
      → Inv Z (On stream n) s
      → Lands Z (On stream n) Any (on_inbound_channel_messages p ms s)
  unfolding on_inbound_channel_messages
  messages-Lands n stream [] s fits i = (i, tt)
  messages-Lands n stream (m ∷ ms) s (fit, fits) i =
      Lands-bind Z (On stream n) Any Any (on_inbound_message p m)
        (λ u. on_inbound_channel_messages p ms) s
        (on_inbound_message-Lands p Z (On stream n) (on-stable stream n) mac m s
          (subst (λ (t : p.Stream). Z ⊎ OpenFits p t m) (sym i.context.1) fit) i)
        (λ u s' i' any. messages-Lands n stream ms s' fits i')

  poll_inbound_read-Lands :
      (n : ℕ) (s : Protocol p) → Inv Z (F n) s → LandsAt n Any (poll_inbound_read p n s)
  unfolding poll_inbound_read poll_inbound
  poll_inbound_read-Lands zero s i =
      (i, laws.exhausted s.handshake_emitted s.command_rx s.io i.context)
  poll_inbound_read-Lands (suc n) s i =
      let (r, io') = MessageIo.poll_inbound p (suc n) s.io in
      let (has, passes) = laws.inbound n s.handshake_emitted s.command_rx s.io i.context in
      polled (poll_inbound_read p n) (poll_inbound_read-Lands n) r io' has passes
    where
      freed : Inv Z (λ b cs io. Unit {0}) s
      freed = Inv-context Z (F (suc n)) (λ b cs io. Unit {0}) s tt i

      wider :
          {A : Type 0} (Q : A → Protocol p → Type 0) (r : Result A × Protocol p)
          → LandsAt n Q r
          → LandsAt (suc n) Q r
      wider Q r h = Lands-context Z (F n) (F (suc n)) Q r (laws.widens n) h

      polled :
          (again : M p (Unit {0}))
          → ((s : Protocol p) → Inv Z (F n) s → LandsAt n Any (again s))
          → (r : Poll (Option (Result (List (ChannelMessage x))))) (io' : MessageIo p)
          → HasRead p Z F n s.handshake_emitted s.command_rx r io'
          → Passes p Z s.io io'
          → LandsAt (suc n) Any (on_polled p again r (record s { io = io' }))
      polled again h pending io' f passes = (io-Inv (suc n) s io' f passes freed, tt)
      polled again h (ready none) io' f passes = (io-Inv (suc n) s io' f passes freed, tt)
      polled again h (ready (some (err e))) io' f passes = io-Inv (suc n) s io' f passes freed
      polled again h (ready (some panic)) io' (f, z) passes =
          (io-Inv (suc n) s io' f passes freed, z)
      polled again h (ready (some stuck)) io' (f, z) passes =
          (io-Inv (suc n) s io' f passes freed, z)
      polled again h (ready (some (ok ms))) io' (f, fits) passes =
          let i' = io-Inv n s io' f passes freed in
          wider Any ((on_inbound_channel_messages p ms >> again) (record s { io = io' })) (
            Lands-then Z (On io'.stream n) (F n) Any Any (on_inbound_channel_messages p ms)
              (λ u. again) (record s { io = io' }) (λ b commands io h. h.0)
              (messages-Lands n io'.stream ms (record s { io = io' }) fits
                (Inv-context Z (F n) (On io'.stream n) (record s { io = io' }) (f, refl) i'))
              (λ u s'' i'' any.
                h s'' (Inv-context Z (On io'.stream n) (F n) s'' i''.context.0 i'')))

  drive-Lands : (n : ℕ) (s : Protocol p) → Inv Z (F n) s → LandsAt n Any (drive p s)
  unfolding drive poll_outbound
  drive-Lands n s i =
      let (r, io') = MessageIo.poll_outbound p s.io in
      let (f, passes, halts) = laws.outbound n s.handshake_emitted s.command_rx s.io i.context in
      driven r (record s { io = io' }) halts
        (io-Inv n s io' f passes (Inv-context Z (F n) (λ b cs io. Unit {0}) s tt i))
    where
      driven :
          (r : Poll (Result (Unit {0}))) (s' : Protocol p)
          → PollMayHalt p Z r
          → Inv Z (F n) s'
          → LandsAt n Any (on_driven p r s')
      driven pending s' h i' = (i', tt)
      driven (ready (ok u)) s' h i' = (i', tt)
      driven (ready (err e)) s' h i' = i'
      driven (ready panic) s' h i' = (i', h)
      driven (ready stuck) s' h i' = (i', h)

  outbound_write-Lands :
      (n : ℕ) (rx : List (List (ChannelMessage x))) (s : Protocol p)
      → Inv Z (F n) s
      → LandsAt n Any (outbound_write p rx s)
  unfolding outbound_write
  outbound_write-Lands n [] s i = drive-Lands n s i
  outbound_write-Lands n (ms ∷ rest) s i =
      Lands-bind Z (F n) Any Any (drive p)
        (λ u. set_outbound_rx p rest >> (send_messages p ms >> outbound_write p rest)) s
        (drive-Lands n s i)
        λ u s' i' any.
          Lands-bind Z (F n) Any Any (send_messages p ms) (λ u. outbound_write p rest)
            (record s' { outbound_rx = rest })
            (send_messages-Lands p Z (F n) (laws.stable n) mac ms (record s' { outbound_rx = rest })
              (record {
                map = i'.map;
                hash_fits = i'.hash_fits;
                events = i'.events;
                context = i'.context;
              }))
            (λ u s'' i'' any'. outbound_write-Lands n rest s'' i'')

  poll_outbound_write-Lands :
      (n : ℕ) (s : Protocol p) → Inv Z (F n) s → LandsAt n Any (poll_outbound_write p s)
  unfolding poll_outbound_write
  poll_outbound_write-Lands n s i = outbound_write-Lands n s.outbound_rx s i

  -- The handlers of the commands leave the commands that wait alone.
  abbrev Waiting : List Command → ℕ → Context p
  Waiting cs n b commands io = F n b commands io × (commands ≡ cs)

  commands_loop-Lands :
      (n : ℕ) (cs : List Command) (s : Protocol p)
      → Inv Z (Waiting cs n) s
      → LandsAt n Any (commands_loop p cs s)
  unfolding commands_loop
  commands_loop-Lands n [] s i = (Inv-context Z (Waiting [] n) (F n) s i.context.0 i, tt)
  commands_loop-Lands n (c ∷ cs) s i =
      let waits : F n s.handshake_emitted (c ∷ cs) s.io =
        subst (λ (l : List Command). F n s.handshake_emitted l s.io) i.context.1 i.context.0 in
      let (fits, f) = laws.takes n s.handshake_emitted c cs s.io waits in
      Lands-then Z (Waiting cs n) (F n) Any Any (on_command p c) (λ u. commands_loop p cs)
        (record s { command_rx = cs }) (λ b commands io h. h.0)
        (on_command-Lands p Z (Waiting cs n)
          (λ b commands io m w h. (laws.stable n b commands io m w h.0, h.1)) mac c
          (record s { command_rx = cs }) fits
          (record { map = i.map; hash_fits = i.hash_fits; events = i.events; context = (f, refl) }))
        (λ u s' i' any. commands_loop-Lands n cs s' i')

  poll_commands-Lands : (n : ℕ) (s : Protocol p) → Inv Z (F n) s → LandsAt n Any (poll_commands p s)
  unfolding poll_commands
  poll_commands-Lands n s i =
      commands_loop-Lands n s.command_rx s
        (Inv-context Z (F n) (Waiting s.command_rx n) s (i.context, refl) i)

  pop_event-Lands :
      (n : ℕ) (s : Protocol p) → Inv Z (F n) s → LandsAt n NotHandshake (pop_event p s)
  unfolding pop_event
  pop_event-Lands n s i = go s.queued_events i.events
    where
      go : (es : List Event) → All IsQueued es → LandsAt n NotHandshake (pop_from p es s)
      go [] all = (i, tt)
      go (e ∷ es) (q, all) =
          (record { map = i.map; hash_fits = i.hash_fits; events = all; context = i.context }, q)

  poll_all-Lands :
      (n : ℕ) (s : Protocol p) → Inv Z (F n) s → LandsAt n NotHandshake (poll_all p n s)
  unfolding poll_all
  poll_all-Lands n s i =
      Lands-bind Z (F n) Any NotHandshake (poll_inbound_read p n)
        (λ u. poll_commands p >> (poll_outbound_write p >> pop_event p)) s
        (poll_inbound_read-Lands n s i)
        λ u s1 i1 any.
          Lands-bind Z (F n) Any NotHandshake (poll_commands p)
            (λ u. poll_outbound_write p >> pop_event p) s1 (poll_commands-Lands n s1 i1)
            λ u s2 i2 any2.
              Lands-bind Z (F n) Any NotHandshake (poll_outbound_write p) (λ u. pop_event p) s2
                (poll_outbound_write-Lands n s2 i2) (λ u s3 i3 any3. pop_event-Lands n s3 i3)

  -- What follows the handshake event of `poll_next`.
  pub rest-Lands :
      (n : ℕ) (s : Protocol p) → Inv Z (F n) s → LandsAt n NotHandshake (or_pop p n none s)
  rest-Lands n s i =
      Lands-bind Z (F n) NotHandshake NotHandshake (pop_event p) (λ queued. or_poll p n queued) s
        (pop_event-Lands n s i) λ queued s' i' q. polled queued s' i' q
    where
      polled :
          (queued : Poll Event) (s' : Protocol p)
          → Inv Z (F n) s'
          → NotHandshake queued s'
          → LandsAt n NotHandshake (or_poll p n queued s')
      polled (ready e) s' i' q = (i', q)
      polled pending s' i' q = poll_all-Lands n s' i'

  pub first_messages-Lands :
      (n : ℕ) (s : Protocol p) → Inv Z (F n) s → LandsAt n Any (first_messages p n s)
  unfolding first_messages
  first_messages-Lands n s i =
      let established : M p Bool = λ s'. (ok (is_some (p.handshake_hash s'.io.stream)), s') in
      Lands-if Z (F n) Any (s.is_initiator && not (is_some (p.handshake_hash s.io.stream)))
        (poll_outbound_write p >> (poll_inbound_read p n >> established)) (pure true) s
        (λ t.
          Lands-bind Z (F n) Any Any (poll_outbound_write p)
            (λ u. poll_inbound_read p n >> established) s (poll_outbound_write-Lands n s i)
            λ u s1 i1 any.
              Lands-bind Z (F n) Any Any (poll_inbound_read p n) (λ u. established) s1
                (poll_inbound_read-Lands n s1 i1) (λ u s2 i2 any2. (i2, tt)))
        (λ t. (i, tt))
