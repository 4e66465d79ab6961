-- ===== src/Channels/Map/Ids.antt =====
-- The tables of local and remote ids of src/channels.rs: `alloc_local`, `alloc_remote`.
use hypercore_protocol_rs.Prelude.{
  ok, leb-true, ◌*◌, ltb-false, panic, set_checked, ℕ, zero, suc, ◌+◌, ◌-◌, ◌^◌, ◌≤◌, ◌<◌, ◌≡◌,
  refl, ap, Bool-cases, ltb, lt_of_ltb, le_of_ltb, ◌⊎◌, inl, inr, Option, Option-cases, none, some,
  List, [], ◌∷◌, ◌++◌, length, length-append, get_elem?, arith,
}
use hypercore_protocol_rs.Wire.{Bytes, External}
use hypercore_protocol_rs.Platform.{Platform}
use hypercore_protocol_rs.Channels.Map.{
  isize_max, slot_size, ChannelMap, attach_remote, resize, position_none, alloc_local, alloc_remote,
}
use hypercore_protocol_rs.Channels.Map.Slots.{
  remote_slots, remote_slots-length, remote_slots-free, alloc_remote-room, alloc_remote-no_room,
}

module _ {A : Type 0} where
  -- The position is that of a `None`, and those before it are taken.
  pub position_none-some :
      (l : List (Option A)) (i : ℕ)
      → position_none l ≡ some i
      → (i < length l)
        × (get_elem? l i ≡ some none)
        × ((j : ℕ) → j < i → (a : A) × (get_elem? l j ≡ some (some a)))
  unfolding position_none
  position_none-some [] i h = cc
  position_none-some (none ∷ l) i h =
      let e : i ≡ 0 = cc in rw e (omega arith, refl, λ j lt. absurd (omega arith))
  position_none-some (some a ∷ l) i h = elim (Option-cases (position_none l)) [
    | inl e ↦ cc (rw e at h)
    | inr (n, e) ↦
        let eq : i ≡ suc n = cc (rw e at h) in
        let (lt, free, taken) = position_none-some l n e in
        rw eq (omega (arith, lt), free, before a l n taken)
  ]
    where
      before :
          (a : A) (l : List (Option A)) (n : ℕ)
          → ((j : ℕ) → j < n → (b : A) × (get_elem? l j ≡ some (some b)))
          → (j : ℕ) → j < suc n
          → (b : A) × (get_elem? (some a ∷ l) j ≡ some (some b))
      before a l n taken zero lt = (a, refl)
      before a l n taken (suc j) lt = taken j (omega arith)

  pub position_none-none :
      (l : List (Option A))
      → position_none l ≡ none
      → (j : ℕ) → j < length l
      → (a : A) × (get_elem? l j ≡ some (some a))
  unfolding position_none
  position_none-none [] h j lt = absurd (omega arith)
  position_none-none (none ∷ l) h j lt = cc
  position_none-none (some a ∷ l) h zero lt = (a, refl)
  position_none-none (some a ∷ l) h (suc j) lt = elim (Option-cases (position_none l)) [
    | inl e ↦ position_none-none l e j (omega arith)
    | inr (n, e) ↦ cc (rw e at h)
  ]

  pub get_elem?-last : (l : List A) (a : A) → get_elem? (l ++ (a ∷ [])) (length l) ≡ some a
  get_elem?-last [] a = refl
  get_elem?-last (b ∷ l) a = get_elem?-last l a

-- The least free id from 1 on, in a table that holds it and keeps the slot 0 free.
abbrev pub Allocates : List (Option Bytes) → ℕ × List (Option Bytes) → Type 0
Allocates ids (id, ids') =
    (1 ≤ id)
    × (id < length ids')
    × (get_elem? ids' id ≡ some none)
    × (get_elem? ids' 0 ≡ some none)
    × (length ids ≤ length ids')
    × ((j : ℕ) → 1 ≤ j → j < id → (k : Bytes) × (get_elem? ids j ≡ some (some k)))

module _ {x : External} (p : Platform x) where
  alloc_local-free :
      (rest : List (Option Bytes)) (i : ℕ)
      → position_none rest ≡ some i
      → alloc_local p (none ∷ rest) ≡ (suc i, none ∷ rest)
  unfolding alloc_local
  alloc_local-free rest i e = rw (e, alloc_local) (ap (λ (n : ℕ). (n, none ∷ rest)) (omega arith))

  alloc_local-new :
      (rest : List (Option Bytes))
      → position_none rest ≡ none
      → alloc_local p (none ∷ rest) ≡ (suc (length rest), none ∷ (rest ++ (none ∷ [])))
  unfolding alloc_local
  alloc_local-new rest e = rw (e, alloc_local)

  shifted :
      (n : ℕ) (rest : List (Option Bytes))
      → ((j : ℕ) → j < n → (k : Bytes) × (get_elem? rest j ≡ some (some k)))
      → (j : ℕ) → 1 ≤ j
      → j < suc n
      → (k : Bytes) × (get_elem? (none ∷ rest) j ≡ some (some k))
  shifted n rest h zero lo hi = absurd (omega arith)
  shifted n rest h (suc j) lo hi = h j (omega arith)

  -- `alloc_local` gives the least free id from 1 on.
  pub alloc_local-Allocates :
      (ids : List (Option Bytes)) → get_elem? ids 0 ≡ some none → Allocates ids (alloc_local p ids)
  alloc_local-Allocates [] h = cc
  alloc_local-Allocates (some k ∷ rest) h = cc
  alloc_local-Allocates (none ∷ rest) h = elim (Option-cases (position_none rest)) [
    | inr (i, e) ↦
        let (lt, free, taken) = position_none-some rest i e in
        rw (alloc_local-free rest i e)
          (omega arith, omega (arith, lt), free, refl, omega arith, shifted i rest taken)
    | inl e ↦ rw (alloc_local-new rest e) (
      omega arith,
      omega (arith, length-append rest (none ∷ [])),
      get_elem?-last rest none,
      refl,
      omega (arith, length-append rest (none ∷ [])),
      shifted (length rest) rest (position_none-none rest e),
    )
  ]

  -- On a table that keeps the slot 0 free, `alloc_local` gives the least id from 1 on whose slot is
  -- free or new: the table it returns holds the id, with nothing under it; slot 0 stays free; no slot
  -- is lost; and every id from 1 on below it was taken.
  pub alloc_local_least :
      (ids : List (Option Bytes)) (j : ℕ)
      → get_elem? ids 0 ≡ some none
      → let (id, ids') = alloc_local p ids in
        (1 ≤ id)
        × (id < length ids')
        × (get_elem? ids' id ≡ some none)
        × (get_elem? ids' 0 ≡ some none)
        × (length ids ≤ length ids')
        × ((j ≡ 0) ⊎ ((id ≤ j) ⊎ ((k : Bytes) × (get_elem? ids j ≡ some (some k)))))
  alloc_local_least ids j h =
      let (lo, inside, free, zeroth, longer, taken) = alloc_local-Allocates ids h in
      (lo, inside, free, zeroth, longer, go j (alloc_local p ids).0 taken)
    where
      go :
          (j id : ℕ)
          → ((j : ℕ) → 1 ≤ j → j < id → (k : Bytes) × (get_elem? ids j ≡ some (some k)))
          → (j ≡ 0) ⊎ ((id ≤ j) ⊎ ((k : Bytes) × (get_elem? ids j ≡ some (some k))))
      go zero id taken = inl refl
      go (suc j) id taken = elim (Bool-cases (ltb (suc j) id)) [
        | inl below ↦ inr (inr (taken (suc j) (omega arith) (lt_of_ltb (suc j) id below)))
        | inr above ↦ inr (inl (le_of_ltb (suc j) id above))
      ]

  -- For a 64-bit id that is not the largest: if the id is in the table, or the table up to it has at most
  -- the bytes of a vector, `alloc_remote` succeeds, the id is in the new table with nothing under it, and no
  -- slot is lost. Else it panics.
  pub alloc_remote-length :
      (id : ℕ) (ids : List (Option Bytes))
      → id + 1 < 2 ^ 64
      → (((id < length ids) ⊎ (slot_size * (id + 1) ≤ isize_max))
          × ((ids' : List (Option Bytes)) × (alloc_remote p id ids ≡ ok ids')
              × (id < length ids')
              × (length ids ≤ length ids')
              × (get_elem? ids' id ≡ some none)))
        ⊎ ((length ids ≤ id) × (isize_max < slot_size * (id + 1)) × (alloc_remote p id ids ≡ panic))
  alloc_remote-length id ids h =
      let grown : (id < length ids) ⊎ (slot_size * (id + 1) ≤ isize_max)
          → (ids' : List (Option Bytes)) × (alloc_remote p id ids ≡ ok ids')
            × (id < length ids')
            × (length ids ≤ length ids')
            × (get_elem? ids' id ≡ some none) =
        λ room.
          let (inside, longer) = remote_slots-length p id ids in
          (
            remote_slots p id ids,
            alloc_remote-room p id ids h room,
            inside,
            longer,
            remote_slots-free p id ids,
          ) in
      elim (Bool-cases (ltb id (length ids))) [
        | inl inside ↦ let room = inl (lt_of_ltb id (length ids) inside) in inl (room, grown room)
        | inr outside ↦ elim (Bool-cases (ltb isize_max (slot_size * (id + 1)))) [
          | inl over ↦
              let le = le_of_ltb id (length ids) outside in
              let more = lt_of_ltb isize_max (slot_size * (id + 1)) over in
              inr (le, more, alloc_remote-no_room p id ids h le more)
          | inr fits ↦
              let room = inr (le_of_ltb isize_max (slot_size * (id + 1)) fits) in
              inl (room, grown room)
        ]
      ]

  resize_zero : (ids : List (Option Bytes)) → resize 0 ids ≡ ok []
  resize_zero [] = refl
  resize_zero (slot ∷ ids) = rw (leb-true 0 (suc (length ids)) (omega arith))

  alloc_remote_wraps :
      (ids : List (Option Bytes)) → length ids < 2 ^ 64 → alloc_remote p (2 ^ 64 - 1) ids ≡ ok []
  unfolding alloc_remote
  alloc_remote_wraps ids h =
      rw (ltb-false (2 ^ 64 - 1) (length ids) (omega (arith, h))) (resize_zero ids)

  -- On a table with fewer than 2^64 slots, to attach a remote with the largest channel id panics: the
  -- table is cut to nothing, and then indexed by the id.
  pub attach_remote_wraps :
      (dk : Bytes) (capability : Option Bytes) (m : ChannelMap p)
      → length m.remote_id < 2 ^ 64
      → attach_remote p dk (2 ^ 64 - 1) capability m ≡ panic
  unfolding attach_remote set_checked
  attach_remote_wraps dk capability m h = rw (attach_remote, alloc_remote_wraps m.remote_id h)
