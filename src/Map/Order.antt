-- ===== src/Map/Order.antt =====
-- src/map.rs: what merging neighbours does to a slice whose keys ascend.
use ltop.Base.{
  ℕ, zero, suc, ◌<◌, ◌≤◌, ◌≡◌, refl, arith, true, some, List, [], ◌∷◌, ◌==◌, length, Bool-cases,
  inl, inr,
}
use ltop.Sort.Slice.{key_at}
use ltop.Sort.Sorted.{Ascends}
use ltop.Map.{Same, keys_ascend, map_new}
use ltop.Map.Dedup.{compact, dedup}
use ltop.Map.Search.{StrictlyAscends}

module _ {T : Type 0} (key : T → ℕ) where
  -- No key is below `b`.
  abbrev pub AllFrom : ℕ → List T → Type 0
  AllFrom b [] = Unit {0}
  AllFrom b (x ∷ xs) = (b ≤ key x) × AllFrom b xs

  abbrev pub IsSorted : List T → Type 0
  IsSorted [] = Unit {0}
  IsSorted (x ∷ xs) = AllFrom (key x) xs × IsSorted xs

  abbrev pub IsStrict : List T → Type 0
  IsStrict [] = Unit {0}
  IsStrict (x ∷ xs) = AllFrom (suc (key x)) xs × IsStrict xs

  AllFrom-at :
      (b : ℕ) (xs : List T) → ((i : ℕ) → i < length xs → b ≤ key_at key xs i) → AllFrom b xs
  AllFrom-at b [] h = tt
  AllFrom-at b (x ∷ xs) h = (h 0 (omega arith), AllFrom-at b xs (λ i p. h (suc i) (omega arith)))

  le-key_at : (b : ℕ) (xs : List T) (i : ℕ) → AllFrom b xs → i < length xs → b ≤ key_at key xs i
  le-key_at b [] i h p = absurd (omega arith)
  le-key_at b (x ∷ xs) zero h p = h.0
  le-key_at b (x ∷ xs) (suc i) h p = le-key_at b xs i h.1 (omega arith)

  pub AllFrom-mono : (a b : ℕ) (xs : List T) → a ≤ b → AllFrom b xs → AllFrom a xs
  AllFrom-mono a b [] h all = tt
  AllFrom-mono a b (x ∷ xs) h all = (omega (arith, all.0), AllFrom-mono a b xs h all.1)

  pub Ascends-IsSorted : (xs : List T) → Ascends (key_at key) (length xs) xs → IsSorted xs
  Ascends-IsSorted [] h = tt
  Ascends-IsSorted (x ∷ xs) h = (
    AllFrom-at (key x) xs (λ i p. h 0 (suc i) (omega arith) (omega arith)),
    Ascends-IsSorted xs (λ i j p q. h (suc i) (suc j) (omega arith) (omega arith)),
  )

  pub IsStrict-StrictlyAscends : (xs : List T) → IsStrict xs → StrictlyAscends key xs
  IsStrict-StrictlyAscends [] h i j p q = absurd (omega arith)
  IsStrict-StrictlyAscends (x ∷ xs) h zero zero p q = absurd (omega arith)
  IsStrict-StrictlyAscends (x ∷ xs) h zero (suc j) p q =
      le-key_at (suc (key x)) xs j h.0 (omega arith)
  IsStrict-StrictlyAscends (x ∷ xs) h (suc i) zero p q = absurd (omega arith)
  IsStrict-StrictlyAscends (x ∷ xs) h (suc i) (suc j) p q =
      IsStrict-StrictlyAscends xs h.1 i j (omega arith) (omega arith)

  -- The closures of freeze_map and freeze_set: duplicates are equal keys, and keys stay.
  pub record ByKey (same : T → T → Same T) : Type 0 where
    pub answers : (x y : T) → (same x y).duplicate ≡ (key y == key x)
    pub left_key : (x y : T) → key (same x y).left ≡ key y
    pub right_key : (x y : T) → key (same x y).right ≡ key x

  module _ (same : T → T → Same T) (by_key : ByKey same) where
    compact-IsStrict :
        (keeper : T) (xs : List T) (k : ℕ)
        → k ≡ key keeper
        → AllFrom k xs
        → IsSorted xs
        → AllFrom k (compact same keeper xs) × IsStrict (compact same keeper xs)
    unfolding compact
    compact-IsStrict keeper [] k e from sorted = ((omega arith, tt), (tt, tt))
    compact-IsStrict keeper (x ∷ xs) k e from sorted =
        let s = same x keeper in
        let kl = by_key.left_key x keeper in
        let kr = by_key.right_key x keeper in
        let ans = by_key.answers x keeper in
        elim (Bool-cases s.duplicate) [
          | inl dup ↦ rw dup (compact-IsStrict s.left xs k (omega arith) from.1 sorted.1)
          | inr new ↦
              let above : k < key x = ground (arith, from.0) in
              let rest = compact-IsStrict s.right xs (key x) (omega arith) sorted.0 sorted.1 in
              rw new (
                (omega arith, AllFrom-mono k (key x) _ (omega arith) rest.0),
                (AllFrom-mono (suc (key s.left)) (key x) _ (omega arith) rest.0, rest.1),
              )
        ]

    pub dedup-IsStrict :
        (xs : List T) → Ascends (key_at key) (length xs) xs → IsStrict (dedup same xs)
    unfolding dedup
    dedup-IsStrict [] h = tt
    dedup-IsStrict (x ∷ xs) h =
        let sorted = Ascends-IsSorted (x ∷ xs) h in
        (compact-IsStrict x xs (key x) refl sorted.0 sorted.1).1

    -- Merging the neighbours of a sorted slice leaves each key once, in ascending order.
    pub dedup-StrictlyAscends :
        (xs : List T) → Ascends (key_at key) (length xs) xs → StrictlyAscends key (dedup same xs)
    dedup-StrictlyAscends xs h = IsStrict-StrictlyAscends (dedup same xs) (dedup-IsStrict xs h)

module _ {V : Type 0} where
  IsStrict-keys_ascend :
      (k : ℕ) (sorted : List (ℕ × V))
      → AllFrom (λ e. e.0) (suc k) sorted
      → IsStrict (λ e. e.0) sorted
      → keys_ascend k sorted ≡ true
  unfolding keys_ascend
  IsStrict-keys_ascend k [] above strict = refl
  IsStrict-keys_ascend k ((j, v) ∷ sorted) (lt, above) (from, strict) =
      ground (arith, lt, IsStrict-keys_ascend j sorted from strict)

  -- A strictly sorted slice passes the assertion of Map::new.
  pub map_new-IsStrict :
      (sorted : List (ℕ × V)) → IsStrict (λ e. e.0) sorted → map_new sorted ≡ some sorted
  unfolding map_new
  map_new-IsStrict [] strict = refl
  map_new-IsStrict ((k, v) ∷ sorted) (above, strict) =
      rw (IsStrict-keys_ascend k sorted above strict) refl
