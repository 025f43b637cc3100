-- ===== src/Sort/Sorted.antt =====
-- src/sort.rs: sort_raw leaves the keys in ascending order.
use ltop.Base.{ℕ, zero, suc, ◌/◌, ◌<◌, ◌≤◌, arith}
use ltop.Sort.{sift_down, heapify, extract, sort_raw}
use ltop.Sort.Heap.{parent, SwapsKeys, IsHeapFrom, HoleAt, sift_down-IsHeapFrom, heapify-IsHeapFrom}
use ltop.Sort.Swaps.{Swaps-keep, sift_down-Swaps}

-- Positions from `n` up to `len` hold no smaller key than any position before them.
abbrev pub IsSortedFrom : {S : Type 0} → (S → ℕ → ℕ) → ℕ → ℕ → S → Type 0
IsSortedFrom key n len s = (i j : ℕ) → i < j → n ≤ j → j < len → key s i ≤ key s j

-- The keys of the first `len` positions ascend.
abbrev pub Ascends : {S : Type 0} → (S → ℕ → ℕ) → ℕ → S → Type 0
Ascends key len s = (i j : ℕ) → i < j → j < len → key s i ≤ key s j

module _ {S : Type 0} (key : S → ℕ → ℕ) (swap : ℕ → ℕ → S → S) (len : ℕ) (Good : S → Type 0)
    (law : SwapsKeys key swap len Good) where
  root_largest_below :
      (k n c : ℕ) (s : S) → IsHeapFrom key 0 n s → c < k → c < n → key s c ≤ key s 0
  root_largest_below zero n c s h low inside = absurd (omega arith)
  root_largest_below (suc k) n zero s h low inside = omega arith
  root_largest_below (suc k) n (suc c) s h low inside =
      let up = h (suc c) (omega arith) inside (omega arith) in
      let top = root_largest_below k n (parent (suc c)) s h (omega arith) (omega arith) in
      omega arith

  -- The swap of the root with the last position of the heap.
  shrink-HoleAt :
      (n : ℕ) (s : S)
      → Good s
      → suc n ≤ len
      → IsHeapFrom key 0 (suc n) s
      → HoleAt key 0 n (swap 0 n s) 0
  shrink-HoleAt n s good small h =
      let at = λ (c : ℕ). law.exchanged 0 n c s (omega arith) (omega arith) good in
      record {
        elsewhere = λ c pos inside from other.
            ground (arith, at c, at (parent c), h c pos (omega arith) (omega arith));
        across = λ c pos inside e pos' from. absurd (omega arith);
      }

  shrink-IsSortedFrom :
      (n : ℕ) (s : S)
      → Good s
      → suc n ≤ len
      → IsHeapFrom key 0 (suc n) s
      → IsSortedFrom key (suc n) len s
      → IsSortedFrom key n len (swap 0 n s)
  shrink-IsSortedFrom n s good small h sorted i j less from inside =
      let at = λ (c : ℕ). law.exchanged 0 n c s (omega arith) (omega arith) good in
      let top = λ (c : ℕ). root_largest_below (suc c) (suc n) c s h (omega arith) in
      ground (arith, at i, at j, top i, top n, sorted i j less, sorted 0 j, sorted n j)

  swap-IsSortedFrom :
      (n i j : ℕ) (s : S)
      → Good s
      → n ≤ len
      → i < n
      → j < n
      → IsSortedFrom key n len s
      → IsSortedFrom key n len (swap i j s)
  swap-IsSortedFrom n i j s good small hi hj sorted a b less from inside =
      let at = λ (c : ℕ). law.exchanged i j c s (omega arith) (omega arith) good in
      ground (arith, at a, at b, sorted a b less, sorted i b, sorted j b)

  extract-Ascends :
      (n : ℕ) (s : S)
      → Good s
      → n ≤ len
      → IsHeapFrom key 0 n s
      → IsSortedFrom key n len s
      → Ascends key len (extract key swap n s)
  unfolding extract
  extract-Ascends zero s good small h sorted =
      λ i j less inside. sorted i j less (omega arith) inside
  extract-Ascends (suc zero) s good small h sorted =
      λ i j less inside. sorted i j less (omega arith) inside
  extract-Ascends (suc (suc n)) s good small h sorted =
      let m : ℕ = suc n in
      let t = swap 0 m s in
      let fits : m ≤ len = omega arith in
      let good' : Good t = law.kept 0 m s (omega arith) (omega arith) good in
      let sifted =
        Swaps-keep (λ r. Good r × IsSortedFrom key m len r)
          (λ i j r hi hj v. (
            law.kept i j r (omega arith) (omega arith) v.0,
            swap-IsSortedFrom m i j r v.0 fits hi hj v.1,
          ))
          (sift_down-Swaps key swap 0 m t) (good', shrink-IsSortedFrom m s good small h sorted) in
      extract-Ascends (suc n) (sift_down key swap 0 m t) sifted.0 fits
        (sift_down-IsHeapFrom key swap len Good law 0 m 0 t good' fits
          (shrink-HoleAt m s good small h))
        sifted.1

  -- If swap exchanges keys in good slices and leaves a good slice, then sort_raw leaves the
  -- keys of the first len positions of a good slice in ascending order.
  pub sort_raw-Ascends : (s : S) → Good s → Ascends key len (sort_raw key swap len s)
  unfolding sort_raw
  sort_raw-Ascends s good =
      let heap =
        heapify-IsHeapFrom key swap len Good law (len / 2) len s good (omega arith)
          (λ c pos inside from. absurd (omega arith)) in
      extract-Ascends len (heapify key swap (len / 2) len s) heap.1 (omega arith) heap.0
        (λ i j less from inside. absurd (omega arith))
