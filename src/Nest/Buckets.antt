-- ===== src/Nest/Buckets.antt =====
-- src/arena.rs: each bucket of a nest holds the values that were paired with it, in order.
use ltop.Base.{
  ℕ, zero, suc, ◌+◌, ◌-◌, ◌<◌, ◌≤◌, ◌≡◌, refl, ap, ◌∙◌, arith, true, some, List, [], ◌∷◌, leb,
  length, get_elem?, get_or, some_inj, get_elem?-take, length-take, length-replicate, take, drop,
  replicate,
}
use ltop.Nest.{FNest, nest, bucket, all_full, tally_loop, sum_loop}
use ltop.Nest.Tally.{values, count, start, AllBelow, tally_loop-count, sum_loop-start, start_mono}
use ltop.Nest.Fill.{Filled, fill_loop-Filled}

drop_at :
    {T : Type 0} (ys : List T) (o : ℕ) (x : T)
    → get_elem? ys o ≡ some x
    → drop o ys ≡ x ∷ drop (suc o) ys
drop_at [] o x h = cc
drop_at (y ∷ ys) zero x h = ap (λ t. t ∷ ys) (some_inj h)
drop_at (y ∷ ys) (suc o) x h = drop_at ys o x h

-- A list that stands in another one from `o` on.
stretch :
    {T : Type 0} (xs ys : List T) (o : ℕ)
    → ((k : ℕ) (v : T) → get_elem? xs k ≡ some v → get_elem? ys (o + k) ≡ some v)
    → take (length xs) (drop o ys) ≡ xs
stretch [] ys o h = refl
stretch (x ∷ xs) ys o h =
    let plain : o + 0 ≡ o = omega arith in
    let here : get_elem? ys o ≡ some x = rw plain at (h 0 x refl) in
    rw (drop_at ys o x here) (
      ap (◌∷◌ x) (
        stretch xs ys (suc o)
          (λ k v e. let next : o + suc k ≡ suc o + k = omega arith in rw next at (h (suc k) v e))))

get_or_is :
    {T : Type 0} (xs : List T) (i : ℕ) (v d : T) → get_elem? xs i ≡ some v → get_or xs i d ≡ v
get_or_is [] i v d h = cc
get_or_is (x ∷ xs) zero v d h = some_inj h
get_or_is (x ∷ xs) (suc i) v d h = get_or_is xs i v d h

get_elem?-replicate :
    {T : Type 0} (n : ℕ) (a : T) (i : ℕ) → i < n → get_elem? (replicate n a) i ≡ some a
get_elem?-replicate zero a i h = absurd (omega arith)
get_elem?-replicate (suc n) a zero h = refl
get_elem?-replicate (suc n) a (suc i) h = get_elem?-replicate n a i (omega arith)

zero_at : (n i : ℕ) → i < n + 1 → get_elem? (replicate {A = ℕ} (n + 1) 0) i ≡ some 0
zero_at n i h = get_elem?-replicate (n + 1) 0 i h

module _ {T : Type 0} where
  all_full_of_starts :
      (pairs : List (ℕ × T)) (n m : ℕ) (cursors offsets : List ℕ)
      → m ≤ n
      → ((b : ℕ) → b < n → get_elem? cursors b ≡ some (start pairs b + count b pairs))
      → ((b : ℕ) → b ≤ n → get_elem? offsets b ≡ some (start pairs b))
      → all_full m cursors offsets ≡ true
  unfolding all_full
  all_full_of_starts pairs n zero cursors offsets h cursor starts = refl
  all_full_of_starts pairs n (suc m) cursors offsets h cursor starts =
      let next : m + 1 ≡ suc m = omega arith in
      let before = all_full_of_starts pairs n m cursors offsets (omega arith) cursor starts in
      rw
        (
          before,
          next,
          get_or_is cursors m (start pairs m + count m pairs) 0 (cursor m (omega arith)),
          get_or_is offsets (suc m) (start pairs (suc m)) 0 (starts (suc m) h),
        )
        (ground arith)

  -- The offsets that the two loops leave are the starts.
  offsets-start :
      (n : ℕ) (pairs : List (ℕ × T))
      → AllBelow n pairs
      → (tallied : List ℕ) × (offsets : List ℕ) × (tally_loop n pairs (replicate (n + 1) 0)
          ≡ some tallied)
        × (sum_loop n 1 tallied ≡ some offsets)
        × (length offsets ≡ n + 1)
        × ((b : ℕ) → b ≤ n → get_elem? offsets b ≡ some (start pairs b))
  offsets-start n pairs below =
      let (tallied, counted, size, first, counts) =
        tally_loop-count n pairs (replicate (n + 1) 0) below (length-replicate (n + 1) 0) in
      let (offsets, summed, size', starts) =
        sum_loop-start pairs n 0 tallied (size ∙ omega arith)
          (λ b h. let e : b ≡ 0 = omega arith in rw e (first ∙ zero_at n 0 (omega arith)))
          (λ b low high. counts b 0 (zero_at n (b + 1) (omega arith)) ∙ ap some (omega arith)) in
      (tallied, offsets, counted, summed, size' ∙ omega arith, λ b h. starts b (omega arith))

  bucket_of :
      (n : ℕ) (pairs : List (ℕ × T)) (offsets cursors : List ℕ) (items : List T) (b : ℕ)
      → ((c : ℕ) → c ≤ n → get_elem? offsets c ≡ some (start pairs c))
      → Filled n pairs pairs cursors items
      → b < n
      → bucket (record { offsets = offsets; items = items }) b ≡ some (values b pairs)
  unfolding bucket
  bucket_of n pairs offsets cursors items b starts full h =
      let next : b + 1 ≡ suc b = omega arith in
      let from = starts b (omega arith) in
      let to : get_elem? offsets (b + 1) ≡ some (start pairs (suc b)) =
        rw next (starts (suc b) h) in
      let ordered : leb (start pairs b) (start pairs (suc b)) ≡ true = ground arith in
      let inside : leb (start pairs (suc b)) (length items) ≡ true =
        ground (arith, full.room, start_mono pairs (n - suc b) (suc b)) in
      let size : start pairs (suc b) - start pairs b ≡ count b pairs = omega arith in
      rw (from, to, ordered, inside, size)
        (ap some (stretch (values b pairs) items (start pairs b) (λ k v e. full.stored b k v h e)))

  -- If every bucket number is in range, then nest passes all its assertions, and bucket answers
  -- for each bucket the values that were paired with it, in their order.
  pub bucket-nest :
      (default : T) (n : ℕ) (pairs : List (ℕ × T))
      → AllBelow n pairs
      → (f : FNest T) × (nest default n pairs ≡ some f)
        × ((b : ℕ) → b < n → bucket f b ≡ some (values b pairs))
  unfolding nest
  bucket-nest default n pairs below =
      let (tallied, offsets, counted, summed, size, starts) = offsets-start n pairs below in
      let total = start pairs n in
      let (cursors, items, filled, full) =
        fill_loop-Filled n pairs offsets [] pairs (take n offsets) (replicate total default) starts
          refl below
          (record {
            buckets = omega (arith, length-take n offsets);
            room = length-replicate total default;
            cursor = λ b h.
                get_elem?-take n offsets b h ∙ (starts b (omega arith) ∙ ap some (omega arith));
            stored = λ b k v h there. cc;
          }) in
      (
        record { offsets = offsets; items = items },
        rw (
          counted,
          summed,
          starts n (omega arith),
          filled,
          all_full_of_starts pairs n n cursors offsets (omega arith) full.cursor starts,
        ),
        λ b h. bucket_of n pairs offsets cursors items b starts full h,
      )
