-- ===== src/Protocol/Conversation/Receiver.antt =====
-- The receiver: `poll_inbound_read` of src/protocol.rs on frames of ordinary messages.
use hypercore_protocol_rs.Prelude.{
  ℕ, zero, suc, ◌<◌, ◌≡◌, refl, sym, ap, ◌∙◌, subst, some, List, [], ◌∷◌, ◌++◌, map, append_assoc,
  append-nil, length, All, Result, ok, >>=-eq-ok, Option, arith,
}
use hypercore_protocol_rs.Wire.{Bytes, External}
use hypercore_protocol_rs.Message.{Message}
use hypercore_protocol_rs.ChannelMessage.{ChannelMessage, new as new_message}
use hypercore_protocol_rs.Framing.{vec_decode}
use hypercore_protocol_rs.Platform.{Platform, Poll, ready, pending}
use hypercore_protocol_rs.Channels.Handle.{ChannelHandle}
use hypercore_protocol_rs.Channels.Map
use hypercore_protocol_rs.Channels.Inbound.{QueueLaws}
use hypercore_protocol_rs.MessageIo.{MessageIo}
use hypercore_protocol_rs.MessageIo
use hypercore_protocol_rs.MessageIo.Log.{received}
use hypercore_protocol_rs.MessageIo.Transfer.{Arrivals, poll_inbound-frame, decoded-ok}
use hypercore_protocol_rs.Protocol.State.{Protocol}
use hypercore_protocol_rs.Protocol.Step.{
  poll_inbound, on_polled, poll_inbound_read, on_inbound_channel_messages,
}
use hypercore_protocol_rs.Protocol.Results.{bind-step}
use hypercore_protocol_rs.Protocol.Inbound.{IsForwarded, with_queues, batch-Puts, get_remote-queues}

-- A stream at which nothing but frames arrives, and which is pending when none is left.
pub record Quiet {x : External} (p : Platform x) (arrivals : Arrivals p) : Type 1 where
  pub Only : p.Stream → Type 0
  pub poll_next-Only : (s : p.Stream) → Only s → Only (p.poll_next s).1
  pub poll_next-pending :
      (s : p.Stream) → Only s → arrivals.arrived s ≡ [] → (p.poll_next s).0 ≡ pending

module _ {A B : Type 0} (f : A → B) where
  -- The two parts of a list that a function has been applied to.
  map-split :
      (ms : List A) (front back : List B)
      → map f ms ≡ front ++ back
      → (us : List A) × (vs : List A) × (ms ≡ us ++ vs) × (front ≡ map f us) × (back ≡ map f vs)
  map-split ms [] back e = ([], ms, refl, refl, sym e)
  map-split [] (b ∷ front) back e = cc
  map-split (m ∷ ms) (b ∷ front) back e =
      let head : f m ≡ b = cc in
      let tail : map f ms ≡ front ++ back = cc in
      let (us, vs, whole, fronts, backs) = map-split ms front back tail in
      (
        m ∷ us,
        vs,
        ap (λ (l : List A). m ∷ l) whole,
        ap (λ (b : B). b ∷ front) (sym head) ∙ ap (λ (l : List B). f m ∷ l) fronts,
        backs,
      )

All-front : {A : Type 0} (P : A → Type 0) (us vs : List A) → All P (us ++ vs) → All P us × All P vs
All-front P [] vs h = (tt, h)
All-front P (u ∷ us) vs (h, hs) = let (front, back) = All-front P us vs hs in ((h, front), back)

module _ {x : External} (p : Platform x) (laws : QueueLaws p) (arrivals : Arrivals p)
    (quiet : Quiet p arrivals) where
  pub poll_inbound-pending :
      (n : ℕ) (io : MessageIo p)
      → quiet.Only io.stream
      → arrivals.arrived io.stream ≡ []
      → (MessageIo.poll_inbound p (suc n) io).0 ≡ pending
  unfolding MessageIo.poll_inbound
  poll_inbound-pending n io only h =
      rw (MessageIo.poll_inbound, quiet.poll_next-pending io.stream only h)

  -- The state after the read of `ms`: nothing but the queues and the io layer is other than before.
  pub record Receives (tx : ℕ) (ms : List (Message x)) (t : Protocol p)
      (r : Result (Unit {0}) × Protocol p) : Type 0 where
    pub io : MessageIo p
    pub queues : p.Queues
    pub ends : r ≡ (ok tt, with_queues p queues (record t { io = io }))
    pub puts : laws.contents tx queues ≡ laws.contents tx t.channels.queues ++ ms

  pub poll_inbound_read-step :
      (n : ℕ) (t : Protocol p) (r : Poll (Option (Result (List (ChannelMessage x)))))
      → (MessageIo.poll_inbound p (suc n) t.io).0 ≡ r
      → poll_inbound_read p (suc n) t
        ≡ on_polled p
            (poll_inbound_read p n)
            r
            (record t { io = (MessageIo.poll_inbound p (suc n) t.io).1 })
  unfolding poll_inbound_read poll_inbound
  poll_inbound_read-step n t r e =
      ap
        (λ (r : Poll (Option (Result (List (ChannelMessage x))))).
          on_polled p (poll_inbound_read p n) r
            (record t { io = (MessageIo.poll_inbound p (suc n) t.io).1 }))
        e

  -- The messages of one frame, and those of the frames behind it.
  Receives-then :
      (tx : ℕ) (us vs ms : List (Message x)) (t : Protocol p) (io : MessageIo p) (q : p.Queues)
      → (later r : Result (Unit {0}) × Protocol p) → r ≡ later
      → laws.contents tx q ≡ laws.contents tx t.channels.queues ++ us
      → ms ≡ us ++ vs
      → Receives tx vs (with_queues p q (record t { io = io })) later
      → Receives tx ms t r
  Receives-then tx us vs ms t io q later r runs puts parts rest = record {
    io = rest.io;
    queues = rest.queues;
    ends = runs ∙ rest.ends;
    puts =
        rest.puts
        ∙ ap (λ (l : List (Message x)). l ++ vs) puts
        ∙ append_assoc (laws.contents tx t.channels.queues) us vs
        ∙ ap (λ (l : List (Message x)). laws.contents tx t.channels.queues ++ l) (sym parts);
  }

  pub poll_inbound_read-Receives :
      (frames : List Bytes) (n id tx : ℕ) (ms : List (Message x)) (t : Protocol p)
      → (h : ChannelHandle) → length frames < n
      → quiet.Only t.io.stream
      → arrivals.arrived t.io.stream ≡ frames
      → received x frames ≡ ok (map (new_message x id) ms)
      → Map.get_remote p id t.channels ≡ some h
      → h.inbound_tx ≡ some tx
      → laws.HasReceiver tx t.channels.queues
      → All (IsForwarded p) ms
      → Receives tx ms t (poll_inbound_read p n t)
  unfolding received
  poll_inbound_read-Receives frames zero id tx ms t h enough only arrive read present is_open
        receives fs =
      absurd (omega arith)
  poll_inbound_read-Receives [] (suc n) id tx [] t h enough only arrive read present is_open
        receives fs =
      record {
        io = (MessageIo.poll_inbound p (suc n) t.io).1;
        queues = t.channels.queues;
        ends = poll_inbound_read-step n t pending (poll_inbound-pending n t.io only arrive);
        puts = sym (append-nil (laws.contents tx t.channels.queues));
      }
  poll_inbound_read-Receives [] (suc n) id tx (m ∷ ms) t h enough only arrive read present is_open
        receives fs =
      cc
  poll_inbound_read-Receives (frame ∷ frames) (suc n) id tx ms t h enough only arrive read present
        is_open receives fs =
      let (front, decoded, split) = >>=-eq-ok (vec_decode x frame) _ read in
      let (back, read', joined) = >>=-eq-ok (received x frames) _ split in
      let whole : map (new_message x id) ms ≡ front.0 ++ back = cc in
      let (us, vs, parts, fronts, backs) = map-split (new_message x id) ms front.0 back whole in
      let (fs1, fs2) =
        All-front (IsForwarded p) us vs
          (subst (λ (l : List (Message x)). All (IsForwarded p) l) parts fs) in
      let io1 = (MessageIo.poll_inbound p (suc n) t.io).1 in
      let (yields, left, moved) = poll_inbound-frame p arrivals n frame frames t.io arrive in
      let got =
        yields
        ∙ ap (λ (r : Result (List (ChannelMessage x))). ready (some r))
            (decoded-ok p arrivals frame front.1 front.0 decoded ∙ ap ok fronts) in
      let t1 : Protocol p = record t { io = io1 } in
      let (q, runs, puts, still) = batch-Puts p laws id tx us t1 h present is_open receives fs1 in
      let rest =
        poll_inbound_read-Receives frames n id tx vs (with_queues p q t1) h (omega (arith, enough))
          (subst quiet.Only (sym moved) (quiet.poll_next-Only t.io.stream only)) left
          (read' ∙ ap ok backs) (get_remote-queues p id q t.channels ∙ present) is_open still fs2 in
      Receives-then tx us vs ms t io1 q (poll_inbound_read p n (with_queues p q t1)) _
        (poll_inbound_read-step n t (ready (some (ok (map (new_message x id) us)))) got
          ∙ bind-step (on_inbound_channel_messages p (map (new_message x id) us))
              (λ u. poll_inbound_read p n) t1 (with_queues p q t1) tt runs)
        puts parts rest
