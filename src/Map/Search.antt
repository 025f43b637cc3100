-- ===== src/Map/Search.antt =====
-- src/map.rs, the reads: binary search in a strictly ascending slice finds what a scan finds.
use ltop.Base.{
  ℕ, zero, suc, ◌+◌, ◌-◌, ◌/◌, ◌<◌, ◌≤◌, ◌≡◌, refl, sym, arith, ◌⊎◌, inl, inr, false, Option, none,
  some, List, [], ◌∷◌, ltb, leb, ltb→lt, ltb→le, leb→le, leb→lt, ◌==◌, ==_iff, if◌then◌else◌,
  length, get_elem?, get_elem?-eq_none, Bool-cases,
}
use ltop.Sort.Slice.{key_at}
use ltop.Map.{search_loop, binary_search_by_key}

module _ {E : Type 0} (key : E → ℕ) where
  -- Sorted, with no key twice.
  abbrev pub StrictlyAscends : List E → Type 0
  StrictlyAscends m = (i j : ℕ) → i < j → j < length m → key_at key m i < key_at key m j

  -- The first entry with key `k`, by a scan.
  unfoldable pub find : ℕ → List E → Option E
  find k [] = none
  find k (e ∷ m) = if key e == k then some e else find k m

  at :
      (m : List E) (i : ℕ)
      → i < length m
      → (e : E) × (get_elem? m i ≡ some e) × (key_at key m i ≡ key e)
  at [] i h = absurd (omega arith)
  at (x ∷ m) zero h = (x, refl, refl)
  at (x ∷ m) (suc i) h = at m i (omega arith)

  -- What `find` answers: an entry of the slice, or that there is none.
  find_cases :
      (k : ℕ) (m : List E)
      → ((e : E) × (q : ℕ) × (find k m ≡ some e)
          × (get_elem? m q ≡ some e)
          × (q < length m)
          × (key_at key m q ≡ k)
          × (key e ≡ k))
        ⊎ ((find k m ≡ none) × ((q : ℕ) → q < length m → key_at key m q ≡ k → ⊥))
  unfolding find
  find_cases k [] = inr (refl, λ q h e. omega arith)
  find_cases k (x ∷ m) = elim (Bool-cases (key x == k)) [
    | inl hit ↦ inl (x, 0, rw hit, refl, omega arith, (==_iff _ _).0 hit, (==_iff _ _).0 hit)
    | inr miss ↦ elim (find_cases k m) [
      | inl (e, q, found, there, inside, same, same') ↦
          inl (e, suc q, rw miss found, there, omega arith, same, same')
      | inr (nothing, nowhere) ↦ inr (rw miss nothing, λ q h e. beyond miss nowhere q h e)
    ]
  ]
    where
      beyond :
          (key x == k) ≡ false
          → ((q : ℕ) → q < length m → key_at key m q ≡ k → ⊥)
          → (q : ℕ) → q < suc (length m)
          → key_at key (x ∷ m) q ≡ k
          → ⊥
      beyond miss nowhere zero h e = ground arith
      beyond miss nowhere (suc q) h e = nowhere q (omega arith) e

  module _ (m : List E) (sorted : StrictlyAscends m) (k : ℕ) where
    before : (q p : ℕ) → q < length m → key_at key m q < key_at key m p → q < p
    before q p h less = ground (arith, sorted p q)

    up_to : (p q : ℕ) → p < length m → key_at key m p ≤ key_at key m q → p ≤ q
    up_to p q h less = ground (arith, sorted q p)

    search_loop-lt :
        (fuel base size : ℕ)
        → 0 < size
        → base + size ≤ length m
        → search_loop key fuel m k base size < length m
    unfolding search_loop
    search_loop-lt zero base size pos fits = omega arith
    search_loop-lt (suc fuel) base size pos fits = elim (Bool-cases (leb size 1)) [
      | inl one ↦ rw one (omega arith)
      | inr more ↦
          let (e, there, _) = at m (base + size / 2) (omega (arith, leb→lt size 1 more)) in
          rw (more, there, search_loop)
            (elim (Bool-cases (ltb k (key e))) [
              | inl low ↦
                  rw low (search_loop-lt fuel base (size - size / 2) (omega arith) (omega arith))
              | inr high ↦ rw high (
                  search_loop-lt fuel (base + size / 2) (size - size / 2) (omega arith)
                    (omega arith))
            ])
    ]

    -- The window of the search keeps the position of the key.
    search_loop_finds :
        (q fuel base size : ℕ)
        → size ≤ fuel
        → base + size ≤ length m
        → base ≤ q
        → q < base + size
        → key_at key m q ≡ k
        → search_loop key fuel m k base size ≡ q
    unfolding search_loop
    search_loop_finds q zero base size enough fits low high e = absurd (omega arith)
    search_loop_finds q (suc fuel) base size enough fits low high e =
        let mid : ℕ = base + size / 2 in
        elim (Bool-cases (leb size 1)) [
          | inl one ↦ rw one (omega (arith, leb→le size 1 one))
          | inr more ↦
              let big = leb→lt size 1 more in
              let (x, there, same) = at m (base + size / 2) (omega arith) in
              rw (more, there, search_loop)
                (elim (Bool-cases (ltb k (key x))) [
                  | inl left ↦ rw left (
                      search_loop_finds q fuel base (size - size / 2) (omega arith) (omega arith)
                        low
                        (omega (
                          arith,
                          before q (base + size / 2) (omega arith) (omega (arith, ltb→lt _ _ left)),
                        ))
                        e)
                  | inr right ↦ rw right (
                      search_loop_finds q fuel (base + size / 2) (size - size / 2) (omega arith)
                        (omega arith)
                        (up_to (base + size / 2) q (omega arith) (omega (arith, ltb→le _ _ right)))
                        (omega arith) e)
                ])
        ]

    -- In a strictly ascending slice the binary search finds exactly the entry that a scan finds.
    pub binary_search_by_key-find : binary_search_by_key key m k ≡ find k m
    unfolding binary_search_by_key
    binary_search_by_key-find = elim (find_cases k m) [
      | inl (e, q, found, there, inside, same, same') ↦
          rw
            (
              search_loop_finds q (length m) 0 (length m) (omega arith) (omega arith) (omega arith)
                  (omega arith) same,
              there,
              (==_iff _ _).1 same',
            )
            (sym found)
      | inr (nothing, nowhere) ↦ rw nothing (missing nowhere)
    ]
      where
        missing :
            ((q : ℕ) → q < length m → key_at key m q ≡ k → ⊥) → binary_search_by_key key m k ≡ none
        missing nowhere = elim (Bool-cases (ltb 0 (length m))) [
          | inl some_entry ↦
              let p = search_loop key (length m) m k 0 (length m) in
              let inside =
                search_loop-lt (length m) 0 (length m) (ltb→lt _ _ some_entry) (omega arith) in
              let (e, there, same) = at m p inside in
              let miss : (key e == k) ≡ false = ground (arith, nowhere p inside) in rw (there, miss)
          | inr empty ↦ rw (
              get_elem?-eq_none m (search_loop key (length m) m k 0 (length m))
                (omega (arith, ltb→le _ _ empty)))
        ]
