-- ===== src/Nest/Tally.antt =====
-- src/arena.rs, Frame::nest: the first pass counts the values of each bucket, and the sums are
-- the places where the buckets start.
use ltop.Base.{
  ℕ, zero, suc, ◌+◌, ◌-◌, ◌<◌, ◌≤◌, ◌≡◌, refl, sym, ap, ◌∙◌, arith, true, some, List, [], ◌∷◌, ◌++◌,
  ltb, ◌==◌, ==_iff, if◌then◌else◌, length, get_elem?, get_or, get_elem?-get_or, set, some_inj,
  length-set, get_elem?-set, Bool-cases, inl, inr,
}
use ltop.Nest.{tally_loop, sum_loop}

module _ {T : Type 0} where
  -- The values paired with `b`, in order.
  abbrev pub values : ℕ → List (ℕ × T) → List T
  values b [] = []
  values b ((j, v) ∷ pairs) = if j == b then v ∷ values b pairs else values b pairs

  abbrev pub count : ℕ → List (ℕ × T) → ℕ
  count b pairs = length (values b pairs)

  -- The number of values in the buckets below `b`.
  abbrev pub start : List (ℕ × T) → ℕ → ℕ
  start pairs zero = 0
  start pairs (suc b) = start pairs b + count b pairs

  abbrev pub AllBelow : ℕ → List (ℕ × T) → Type 0
  AllBelow n [] = Unit {0}
  AllBelow n ((j, v) ∷ pairs) = (j < n) × AllBelow n pairs

  -- The tally adds to each entry behind the first the count of its bucket.
  pub tally_loop-count :
      (n : ℕ) (pairs : List (ℕ × T)) (offsets : List ℕ)
      → AllBelow n pairs
      → length offsets ≡ n + 1
      → (offsets' : List ℕ) × (tally_loop n pairs offsets ≡ some offsets')
        × (length offsets' ≡ n + 1)
        × (get_elem? offsets' 0 ≡ get_elem? offsets 0)
        × ((b c : ℕ)
            → get_elem? offsets (b + 1) ≡ some c
            → get_elem? offsets' (b + 1) ≡ some (c + count b pairs))
  unfolding tally_loop
  tally_loop-count n [] offsets below size =
      (offsets, refl, size, refl, λ b c h. h ∙ ap some (omega arith))
  tally_loop-count n ((j, v) ∷ pairs) offsets (low, below) size =
      let c0 = get_or offsets (j + 1) 0 in
      let there : get_elem? offsets (j + 1) ≡ some c0 =
        get_elem?-get_or offsets (j + 1) 0 (omega arith) in
      let inside : ltb j n ≡ true = ground arith in
      let (offsets', ran, size', first, rest) =
        tally_loop-count n pairs (set offsets (j + 1) (c0 + 1)) below
          (length-set offsets (j + 1) (c0 + 1) ∙ size) in
      (
        offsets',
        rw (inside, there) ran,
        size',
        first ∙ ground (arith, get_elem?-set offsets (j + 1) 0 (c0 + 1)),
        λ b c h. elim (Bool-cases (j == b)) [
          | inl same ↦
              let e : j ≡ b = (==_iff _ _).0 same in
              let c_is : c0 ≡ c =
                some_inj (sym there ∙ (ap (λ t. get_elem? offsets (t + 1)) e ∙ h)) in
              let wrote : get_elem? (set offsets (j + 1) (c0 + 1)) (b + 1) ≡ some (c0 + 1) =
                ground (arith, get_elem?-set offsets (j + 1) (b + 1) (c0 + 1)) in
              rw same (rest b (c0 + 1) wrote ∙ ap some (omega arith))
          | inr other ↦
              let kept : get_elem? (set offsets (j + 1) (c0 + 1)) (b + 1) ≡ some c =
                ground (arith, get_elem?-set offsets (j + 1) (b + 1) (c0 + 1)) in
              rw other (rest b c kept)
        ],
      )

  -- The sums turn the counts into starts.
  pub sum_loop-start :
      (pairs : List (ℕ × T)) (rounds j : ℕ) (offsets : List ℕ)
      → length offsets ≡ j + rounds + 1
      → ((b : ℕ) → b ≤ j → get_elem? offsets b ≡ some (start pairs b))
      → ((b : ℕ) → j ≤ b → b < j + rounds → get_elem? offsets (b + 1) ≡ some (count b pairs))
      → (offsets' : List ℕ) × (sum_loop rounds (j + 1) offsets ≡ some offsets')
        × (length offsets' ≡ j + rounds + 1)
        × ((b : ℕ) → b ≤ j + rounds → get_elem? offsets' b ≡ some (start pairs b))
  unfolding sum_loop
  sum_loop-start pairs zero j offsets size done left =
      (offsets, refl, size, λ b h. done b (omega arith))
  sum_loop-start pairs (suc rounds) j offsets size done left =
      let here = left j (omega arith) (omega arith) in
      let back : j + 1 - 1 ≡ j = omega arith in
      let before : get_elem? offsets (j + 1 - 1) ≡ some (start pairs j) =
        rw back (done j (omega arith)) in
      let sum = count j pairs + start pairs j in
      let (offsets', ran, size', all) =
        sum_loop-start pairs rounds (j + 1) (set offsets (j + 1) sum)
          (length-set offsets (j + 1) sum ∙ (size ∙ omega arith))
          (λ b h. elim (Bool-cases (j + 1 == b)) [
            | inl same ↦
                let e : b ≡ suc j = omega (arith, (==_iff _ _).0 same) in
                let wrote : get_elem? (set offsets (j + 1) sum) b ≡ some sum =
                  ground (arith, get_elem?-set offsets (j + 1) b sum) in
                wrote ∙ rw e (ap some (omega arith))
            | inr other ↦ ground (arith, get_elem?-set offsets (j + 1) b sum, done b)
          ])
          (λ b low high. ground (arith, get_elem?-set offsets (j + 1) (b + 1) sum, left b)) in
      (offsets', rw (here, before) ran, size' ∙ omega arith, λ b h. all b (omega arith))

  -- A bucket ends where the next one starts, or before any later one.
  pub start_mono : (pairs : List (ℕ × T)) (k b : ℕ) → start pairs b ≤ start pairs (b + k)
  start_mono pairs zero b = let e : b + 0 ≡ b = omega arith in rw e (omega arith)
  start_mono pairs (suc k) b =
      let e : b + suc k ≡ suc (b + k) = omega arith in rw e (omega (arith, start_mono pairs k b))

  pub start_apart :
      (pairs : List (ℕ × T)) (a b : ℕ) → a < b → start pairs a + count a pairs ≤ start pairs b
  start_apart pairs a b h =
      let e : suc a + (b - a - 1) ≡ b = omega arith in
      let later = start_mono pairs (b - a - 1) (suc a) in rw e at later

  pub values-append :
      (b : ℕ) (xs ys : List (ℕ × T)) → values b (xs ++ ys) ≡ values b xs ++ values b ys
  values-append b [] ys = refl
  values-append b ((j, v) ∷ xs) ys = ground (arith, values-append b xs ys)
