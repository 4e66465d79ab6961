-- ===== src/Protocol/Results.antt =====
-- Laws of the handlers' sequencing (src/protocol.rs): the `?` operator on a changing state.
use hypercore_protocol_rs.Prelude.{
  Result, Error, ok, err, panic, stuck, ◌≡◌, refl, sym, ap, ◌∙◌, ◌⊎◌, inl, inr,
}
use hypercore_protocol_rs.Wire.{External}
use hypercore_protocol_rs.Platform.{Platform}
use hypercore_protocol_rs.Protocol.State.{Protocol, M, ◌>>=◌, with_channels, set_channels}
use hypercore_protocol_rs.Channels.Map.{ChannelMap}

-- It holds of the value of a result, if there is one.
abbrev pub Post : {A : Type 0} → (A → Type 0) → Result A → Type 0
Post P (ok a) = P a
Post P _ = Unit {0}

pub Post-at : {A : Type 0} (P : A → Type 0) (r : Result A) (a : A) → Post P r → r ≡ ok a → P a
Post-at P r a h e = rw e at h

abbrev pub Failed : {A : Type 0} → Result A → Type 0
Failed r = ((e : Error) × (r ≡ err e)) ⊎ ((r ≡ panic) ⊎ (r ≡ stuck))

pub Result-cases : {A : Type 0} (r : Result A) → ((a : A) × (r ≡ ok a)) ⊎ Failed r
Result-cases (ok a) = inl (a, refl)
Result-cases (err e) = inr (inl (e, refl))
Result-cases panic = inr (inr (inl refl))
Result-cases stuck = inr (inr (inr refl))

module _ {x : External} {p : Platform x} where
  bind-ok :
      {A B : Type 0} (m : M p A) (f : A → M p B) (s : Protocol p) (a : A)
      → (m s).0 ≡ ok a
      → (m >>= f) s ≡ f a (m s).1
  bind-ok m f s a e = rw (◌>>=◌, e)

  bind-fails :
      {A B : Type 0} (Q : B → Type 0) (m : M p A) (f : A → M p B) (s : Protocol p)
      → Failed (m s).0
      → Post Q ((m >>= f) s).0
  bind-fails Q m f s (inl (er, e)) = rw (Post, ◌>>=◌, e) tt
  bind-fails Q m f s (inr (inl e)) = rw (Post, ◌>>=◌, e) tt
  bind-fails Q m f s (inr (inr e)) = rw (Post, ◌>>=◌, e) tt

  pub Post-bind :
      {A B : Type 0} (Q : B → Type 0) (m : M p A) (f : A → M p B) (s : Protocol p)
      → ((a : A) → (m s).0 ≡ ok a → Post Q (f a (m s).1).0)
      → Post Q ((m >>= f) s).0
  Post-bind Q m f s h = elim (Result-cases (m s).0) [
    | inl (a, e) ↦ rw (bind-ok m f s a e) (h a e)
    | inr failed ↦ bind-fails Q m f s failed
  ]

  -- What succeeds has parts that succeed.
  pub bind-eq-ok :
      {A B : Type 0} (m : M p A) (f : A → M p B) (s s' : Protocol p) (b : B)
      → (m >>= f) s ≡ (ok b, s')
      → (a : A) × ((m s).0 ≡ ok a) × (f a (m s).1 ≡ (ok b, s'))
  bind-eq-ok {A} {B} m f s s' b h = elim (Result-cases (m s).0) [
    | inl (a, e) ↦ (a, e, sym (bind-ok m f s a e) ∙ h)
    | inr failed ↦ absurd (
        Post-at (λ b'. ⊥) _ b (bind-fails (λ b'. ⊥) m f s failed)
          (ap (λ (r : Result B × Protocol p). r.0) h))
  ]

  -- The value of a step is handed on.
  pub bind-step :
      {A B : Type 0} (m : M p A) (f : A → M p B) (s s' : Protocol p) (a : A)
      → m s ≡ (ok a, s')
      → (m >>= f) s ≡ f a s'
  bind-step {A} m f s s' a e =
      ap (λ (r : Result A × Protocol p). ((λ (t : Protocol p). r) >>= f) s) e

  pub bind-err :
      {A B : Type 0} (m : M p A) (f : A → M p B) (s s' : Protocol p) (e : Error)
      → m s ≡ (err e, s')
      → (m >>= f) s ≡ (err e, s')
  bind-err {A} m f s s' e h =
      ap (λ (r : Result A × Protocol p). ((λ (t : Protocol p). r) >>= f) s) h

  pub with_channels-ok :
      {A : Type 0} (f : ChannelMap p → Result (A × ChannelMap p)) (s : Protocol p) (a : A)
      → (m : ChannelMap p) → f s.channels ≡ ok (a, m)
      → with_channels f s ≡ (ok a, record s { channels = m })
  unfolding with_channels
  with_channels-ok f s a m e = rw (with_channels, e)

  pub set_channels-ok :
      (f : ChannelMap p → Result (ChannelMap p)) (s : Protocol p) (m : ChannelMap p)
      → f s.channels ≡ ok m
      → set_channels f s ≡ (ok tt, record s { channels = m })
  unfolding set_channels
  set_channels-ok f s m e = rw (set_channels, e)

  pub set_channels-err :
      (f : ChannelMap p → Result (ChannelMap p)) (s : Protocol p) (e : Error)
      → f s.channels ≡ err e
      → set_channels f s ≡ (err e, s)
  unfolding set_channels
  set_channels-err f s e h = rw (set_channels, h)
