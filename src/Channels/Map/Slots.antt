-- ===== src/Channels/Map/Slots.antt =====
-- The table of remote ids of src/channels.rs after `alloc_remote`.
use hypercore_protocol_rs.Prelude.{
  get_elem?-set_self, true, set, if◌then◌else◌, Result, ok, take, leb, ltb-true, length-take, ◌*◌,
  ltb-false, panic, ℕ, zero, suc, ◌+◌, ◌-◌, ◌%◌, ◌^◌, ◌≤◌, ◌<◌, ◌≡◌, refl, Bool-cases, ltb,
  leb-false, lt_of_ltb, le_of_ltb, ◌⊎◌, inl, inr, Option, none, some, List, [], ◌∷◌, ◌++◌, length,
  length-append, length-set, length-replicate, replicate, get_elem?, arith,
}
use hypercore_protocol_rs.Wire.{Bytes, External}
use hypercore_protocol_rs.Platform.{Platform}
use hypercore_protocol_rs.Channels.Map.{isize_max, slot_size, resize, alloc_remote}

module _ {x : External} (p : Platform x) where
  -- The table after `alloc_remote`, where that does not panic or wrap.
  abbrev pub remote_slots : ℕ → List (Option Bytes) → List (Option Bytes)
  remote_slots id ids =
      if ltb id (length ids) then set ids id none else ids ++ replicate (id + 1 - length ids) none

  pub remote_slots-length :
      (id : ℕ) (ids : List (Option Bytes))
      → (id < length (remote_slots id ids)) × (length ids ≤ length (remote_slots id ids))
  remote_slots-length id ids = elim (Bool-cases (ltb id (length ids))) [
    | inl inside ↦ rw inside (
      omega (arith, length-set ids id none, lt_of_ltb id (length ids) inside),
      omega (arith, length-set ids id none),
    )
    | inr outside ↦
        let le : length ids ≤ id = le_of_ltb id (length ids) outside in
        let longer : length (ids ++ replicate {A = Option Bytes} (id + 1 - length ids) none)
            ≡ id + 1 =
          omega (
            arith,
            length-append ids (replicate (id + 1 - length ids) none),
            length-replicate {A = Option Bytes} (id + 1 - length ids) none,
            le,
          ) in
        rw outside (omega (arith, longer), omega (arith, longer, le))
  ]

  get_elem?-replicate :
      (id : ℕ) → get_elem? (replicate {A = Option Bytes} (suc id) none) id ≡ some none
  get_elem?-replicate zero = refl
  get_elem?-replicate (suc id) = get_elem?-replicate id

  get_elem?-padded :
      (ids : List (Option Bytes)) (id n : ℕ)
      → length ids ≤ id
      → n ≡ id + 1 - length ids
      → get_elem? (ids ++ replicate n none) id ≡ some none
  get_elem?-padded [] id n le e =
      let all : n ≡ suc id = omega (arith, e) in rw all (get_elem?-replicate id)
  get_elem?-padded (slot ∷ ids) zero n le e = absurd (omega arith)
  get_elem?-padded (slot ∷ ids) (suc id) n le e =
      get_elem?-padded ids id n (omega arith) (omega (arith, e))

  pub remote_slots-free :
      (id : ℕ) (ids : List (Option Bytes)) → get_elem? (remote_slots id ids) id ≡ some none
  remote_slots-free id ids = elim (Bool-cases (ltb id (length ids))) [
    | inl inside ↦ rw inside (get_elem?-set_self ids id none (lt_of_ltb id (length ids) inside))
    | inr outside ↦
        rw outside
          (get_elem?-padded ids id (id + 1 - length ids) (le_of_ltb id (length ids) outside) refl)
  ]

  -- `alloc_remote` on an id that has room in a vector, or is in the table.
  pub alloc_remote-room :
      (id : ℕ) (ids : List (Option Bytes))
      → id + 1 < 2 ^ 64
      → (id < length ids) ⊎ (slot_size * (id + 1) ≤ isize_max)
      → alloc_remote p id ids ≡ ok (remote_slots id ids)
  unfolding alloc_remote
  alloc_remote-room id ids h room = elim (Bool-cases (ltb id (length ids))) [
    | inl inside ↦ rw inside refl
    | inr outside ↦
        let wraps : (id + 1) % 2 ^ 64 ≡ id + 1 = omega (arith, h) in
        let le : length ids ≤ id = le_of_ltb id (length ids) outside in
        let fits : slot_size * (id + 1) ≤ isize_max = elim room [
          | inl lt ↦ absurd (omega (arith, lt, le))
          | inr fits ↦ fits
        ] in
        rw
          (
            outside,
            wraps,
            leb-false (id + 1) (length ids) (omega (arith, le)),
            ltb-false isize_max (slot_size * (id + 1)) fits,
          )
          refl
  ]

  pub alloc_remote-no_room :
      (id : ℕ) (ids : List (Option Bytes))
      → id + 1 < 2 ^ 64
      → length ids ≤ id
      → isize_max < slot_size * (id + 1)
      → alloc_remote p id ids ≡ panic
  unfolding alloc_remote
  alloc_remote-no_room id ids h le over =
      let wraps : (id + 1) % 2 ^ 64 ≡ id + 1 = omega (arith, h) in
      rw
        (
          ltb-false id (length ids) le,
          wraps,
          leb-false (id + 1) (length ids) (omega (arith, le)),
          ltb-true isize_max (slot_size * (id + 1)) over,
        )
        refl

  -- An id that does not fit: a panic, or a table without the id.
  abbrev pub Misses : ℕ → Result (List (Option Bytes)) → Type 0
  Misses id r = (r ≡ panic) ⊎ ((ids' : List (Option Bytes)) × (r ≡ ok ids') × (length ids' ≤ id))

  le_of_leb : (a b : ℕ) → leb a b ≡ true → a ≤ b
  le_of_leb a b h = ground arith

  wrapped-Misses :
      (id n : ℕ) (ids : List (Option Bytes)) → length ids ≤ id → n ≤ id → Misses id (resize n ids)
  wrapped-Misses id n ids le small = elim (Bool-cases (leb n (length ids))) [
    | inl cut ↦ rw cut (
        inr (
          take n ids,
          refl,
          omega (arith, length-take n ids (le_of_leb n (length ids) cut), small),
        ))
    | inr longer ↦ elim (Bool-cases (ltb isize_max (slot_size * n))) [
      | inl over ↦ rw (longer, over) (inl refl)
      | inr fits ↦
          rw (longer, fits)
            (inr (
              ids ++ replicate (n - length ids) none,
              refl,
              omega (
                arith,
                length-append ids (replicate (n - length ids) none),
                length-replicate {A = Option Bytes} (n - length ids) none,
                le,
                small,
              ),
            ))
    ]
  ]

  -- The outcomes, whatever the id.
  pub alloc_remote-cases :
      (id : ℕ) (ids : List (Option Bytes))
      → (alloc_remote p id ids ≡ ok (remote_slots id ids))
        ⊎ ((2 ^ 57 ≤ id) × Misses id (alloc_remote p id ids))
  unfolding alloc_remote
  alloc_remote-cases id ids = elim (Bool-cases (ltb (id + 1) (2 ^ 64))) [
    | inl below ↦
        let h = lt_of_ltb (id + 1) (2 ^ 64) below in
        elim (Bool-cases (ltb id (length ids))) [
          | inl inside ↦ inl (alloc_remote-room id ids h (inl (lt_of_ltb id (length ids) inside)))
          | inr outside ↦ elim (Bool-cases (ltb isize_max (slot_size * (id + 1)))) [
            | inl over ↦
                let more = lt_of_ltb isize_max (slot_size * (id + 1)) over in
                inr (
                  omega (arith, more),
                  inl (alloc_remote-no_room id ids h (le_of_ltb id (length ids) outside) more),
                )
            | inr fits ↦
                inl (
                  alloc_remote-room id ids h
                    (inr (le_of_ltb isize_max (slot_size * (id + 1)) fits)))
          ]
        ]
    | inr above ↦
        let h = le_of_ltb (id + 1) (2 ^ 64) above in
        elim (Bool-cases (ltb id (length ids))) [
          | inl inside ↦ inl (rw inside refl)
          | inr outside ↦
              let misses =
                wrapped-Misses id ((id + 1) % 2 ^ 64) ids (le_of_ltb id (length ids) outside)
                  (omega (arith, h)) in
              inr (omega (arith, h), rw outside misses)
        ]
  ]
