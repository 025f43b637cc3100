-- ===== src/Nest/Fill.antt =====
-- src/arena.rs, Frame::nest: the second pass.
use ltop.Base.{
  ℕ, zero, suc, ◌+◌, ◌<◌, ◌≤◌, ◌≡◌, refl, sym, ap, ◌∙◌, arith, ◌⊎◌, true, false, some, List, [],
  ◌∷◌, ◌++◌, append_assoc, append-nil, ltb, ltb→lt, ◌==◌, ==_iff, length, get_elem?, set, some_inj,
  length-append, length-set, get_elem?-set, Bool-cases, inl, inr,
}
use mathlib.Core.Path.{subst}
use ltop.Nest.{fill_loop}
use ltop.Nest.Tally.{values, count, start, AllBelow, start_apart, values-append}

-- An entry of a list with one more element behind.
get_elem?-append_one :
    {T : Type 0} (xs : List T) (x v : T) (k : ℕ)
    → get_elem? (xs ++ x ∷ []) k ≡ some v
    → (get_elem? xs k ≡ some v) ⊎ ((k ≡ length xs) × (x ≡ v))
get_elem?-append_one [] x v zero h = inr (refl, some_inj h)
get_elem?-append_one [] x v (suc k) h = inl h
get_elem?-append_one (y ∷ xs) x v zero h = inl h
get_elem?-append_one (y ∷ xs) x v (suc k) h = elim (get_elem?-append_one xs x v k h) [
  | inl before ↦ inl before
  | inr (last, e) ↦ inr (ap suc last, e)
]

get_elem?_below :
    {T : Type 0} (xs : List T) (k : ℕ) (v : T) → get_elem? xs k ≡ some v → k < length xs
get_elem?_below [] k v h = cc
get_elem?_below (x ∷ xs) zero v h = omega arith
get_elem?_below (x ∷ xs) (suc k) v h = omega (arith, get_elem?_below xs k v h)

module _ {T : Type 0} (n : ℕ) (all : List (ℕ × T)) where
  -- The values of `done` stand in their buckets, in order.
  pub record Filled (done : List (ℕ × T)) (cursors : List ℕ) (items : List T) : Type 0 where
    pub buckets : length cursors ≡ n
    pub room : length items ≡ start all n
    pub cursor : (b : ℕ) → b < n → get_elem? cursors b ≡ some (start all b + count b done)
    pub stored :
        (b k : ℕ) (v : T)
        → b < n
        → get_elem? (values b done) k ≡ some v
        → get_elem? items (start all b + k) ≡ some v

  values_same :
      (done : List (ℕ × T)) (b j : ℕ) (v : T)
      → (j == b) ≡ true
      → values b (done ++ (j, v) ∷ []) ≡ values b done ++ v ∷ []
  values_same done b j v same = values-append b done ((j, v) ∷ []) ∙ rw same

  values_other :
      (done : List (ℕ × T)) (b j : ℕ) (v : T)
      → (j == b) ≡ false
      → values b (done ++ (j, v) ∷ []) ≡ values b done
  values_other done b j v other =
      values-append b done ((j, v) ∷ []) ∙ (rw other (append-nil (values b done)))

  -- What is done is a part of the whole, and the next value belongs to it too.
  count_parts :
      (done rest : List (ℕ × T)) (j : ℕ) (v : T)
      → all ≡ done ++ (j, v) ∷ rest
      → (b : ℕ) → (count b done ≤ count b all) × (j ≡ b → count b done < count b all)
  count_parts done rest j v whole b =
      let split : count b all ≡ count b done + count b ((j, v) ∷ rest) =
        ap (count b) whole
        ∙ (ap length (values-append b done ((j, v) ∷ rest))
            ∙ length-append (values b done) (values b ((j, v) ∷ rest))) in
      (omega arith, λ e. ground arith)

  -- The place of the next value is in range, and differs from the places of the others.
  next_place :
      (done rest : List (ℕ × T)) (j : ℕ) (v : T)
      → all ≡ done ++ (j, v) ∷ rest
      → j < n
      → (start all j + count j done < start all n)
        × ((b k : ℕ)
            → (j == b) ≡ false
            → k < count b done
            → ¬ (start all b + k ≡ start all j + count j done))
  next_place done rest j v whole low =
      let parts = count_parts done rest j v whole in
      let more = (parts j).1 refl in
      (
        omega (arith, start_apart all j n low),
        λ b k other within e. elim (Bool-cases (ltb j b)) [
          | inl above ↦ omega (arith, start_apart all j b (ltb→lt _ _ above))
          | inr not_above ↦
              let below : b < j = ground arith in
              omega (arith, start_apart all b j below, (parts b).0)
        ],
      )

  step-Filled :
      (done rest : List (ℕ × T)) (j : ℕ) (v : T) (cursors : List ℕ) (items : List T)
      → all ≡ done ++ (j, v) ∷ rest
      → j < n
      → Filled done cursors items
      → Filled
          (done ++ (j, v) ∷ [])
          (set cursors j (start all j + count j done + 1))
          (set items (start all j + count j done) v)
  step-Filled done rest j v cursors items whole low f =
      let place = start all j + count j done in
      let (inside, apart) = next_place done rest j v whole low in
      record {
        buckets = length-set cursors j (place + 1) ∙ f.buckets;
        room = length-set items place v ∙ f.room;
        cursor = λ b h. elim (Bool-cases (j == b)) [
          | inl same ↦
              let wrote : get_elem? (set cursors j (place + 1)) b ≡ some (place + 1) =
                ground (arith, get_elem?-set cursors j b (place + 1), f.buckets) in
              let e : j ≡ b = (==_iff _ _).0 same in
              let grown : count b (done ++ (j, v) ∷ []) ≡ count b done + 1 =
                ap length (values_same done b j v same) ∙ length-append (values b done) (v ∷ []) in
              wrote ∙ rw grown (rw e (ap some (omega arith)))
          | inr other ↦
              let kept : get_elem? (set cursors j (place + 1)) b ≡ get_elem? cursors b =
                ground (arith, get_elem?-set cursors j b (place + 1), f.buckets) in
              kept ∙ rw (values_other done b j v other) (f.cursor b h)
        ];
        stored = λ b k w h there. elim (Bool-cases (j == b)) [
          | inl same ↦
              let e : j ≡ b = (==_iff _ _).0 same in
              elim (get_elem?-append_one (values b done) v w k
                (rw (values_same done b j v same) at there)) [
                  | inl old ↦
                      let small = get_elem?_below (values b done) k w old in
                      ground (
                        arith,
                        get_elem?-set items place (start all b + k) v,
                        f.stored b k w h old,
                        f.room,
                      )
                  | inr (last, is_w) ↦
                      ground (arith, get_elem?-set items place (start all b + k) v, f.room)
                ]
          | inr other ↦
              let old : get_elem? (values b done) k ≡ some w =
                rw (values_other done b j v other) at there in
              let far = apart b k other (get_elem?_below (values b done) k w old) in
              ground
                (arith, get_elem?-set items place (start all b + k) v, f.stored b k w h old, f.room)
        ];
      }

  -- The second pass fills every bucket.
  pub fill_loop-Filled :
      (offsets : List ℕ) (done rest : List (ℕ × T)) (cursors : List ℕ) (items : List T)
      → ((b : ℕ) → b ≤ n → get_elem? offsets b ≡ some (start all b))
      → all ≡ done ++ rest
      → AllBelow n rest
      → Filled done cursors items
      → (cursors' : List ℕ) × (items' : List T) × (fill_loop offsets rest cursors items
          ≡ some (cursors', items'))
        × Filled all cursors' items'
  unfolding fill_loop
  fill_loop-Filled offsets done [] cursors items starts whole below f = (
    cursors,
    items,
    refl,
    subst (λ t. Filled t cursors items) (sym (append-nil done) ∙ sym whole) f,
  )
  fill_loop-Filled offsets done ((j, v) ∷ rest) cursors items starts whole (low, below) f =
      let place = start all j + count j done in
      let limit = start all (suc j) in
      let next : j + 1 ≡ suc j = omega arith in
      let at_limit : get_elem? offsets (j + 1) ≡ some limit =
        rw next (starts (suc j) (omega arith)) in
      let (inside, apart) = next_place done rest j v whole low in
      let more = (count_parts done rest j v whole j).1 refl in
      let under_limit : ltb place limit ≡ true = ground arith in
      let in_range : ltb place (length items) ≡ true = ground (arith, f.room) in
      let (cursors', items', ran, full) =
        fill_loop-Filled offsets (done ++ (j, v) ∷ []) rest (set cursors j (place + 1))
          (set items place v) starts (whole ∙ sym (append_assoc done ((j, v) ∷ []) rest)) below
          (step-Filled done rest j v cursors items whole low f) in
      (cursors', items', rw (at_limit, f.cursor j low, under_limit, in_range) ran, full)
