-- ===== src/Sort/Heap.antt =====
-- src/sort.rs: sift_down restores the max-heap order, and heapify builds it.
use ltop.Base.{
  ℕ, zero, suc, ◌+◌, ◌-◌, ◌*◌, ◌/◌, ◌<◌, ◌≤◌, ◌≡◌, ◌≢◌, ◌⊎◌, inl, inr, Bool-cases, arith, leb,
  leb→le, leb→lt, ◌==◌, if◌then◌else◌,
}
use ltop.Sort.{larger_child, sift_round, sift_loop, sift_down, heapify}
use ltop.Sort.Rounds.{larger_child_bounds}
use ltop.Sort.Swaps.{Swaps-keep, sift_down-Swaps}

abbrev pub parent : ℕ → ℕ
parent c = (c - 1) / 2

-- What the two closures promise of the positions below `len`, for slices that are `Good`
-- (long enough, say): a swap exchanges two keys, and leaves a good slice.
pub record SwapsKeys {S : Type 0} (key : S → ℕ → ℕ) (swap : ℕ → ℕ → S → S) (len : ℕ)
    (Good : S → Type 0) : Type 0 where
  pub kept : (i j : ℕ) (s : S) → i < len → j < len → Good s → Good (swap i j s)
  pub exchanged :
      (i j c : ℕ) (s : S)
      → i < len
      → j < len
      → Good s
      → key (swap i j s) c ≡ (if j == c then key s i else if i == c then key s j else key s c)

-- From `lo` on, no child below `n` has a larger key than its parent.
abbrev pub IsHeapFrom : {S : Type 0} → (S → ℕ → ℕ) → ℕ → ℕ → S → Type 0
IsHeapFrom key lo n s = (c : ℕ) → 0 < c → c < n → lo ≤ parent c → key s c ≤ key s (parent c)

-- The order holds but for the edges below `i`, which its parent covers.
pub record HoleAt {S : Type 0} (key : S → ℕ → ℕ) (lo n : ℕ) (s : S) (i : ℕ) : Type 0 where
  pub elsewhere :
      (c : ℕ) → 0 < c → c < n → lo ≤ parent c → parent c ≢ i → key s c ≤ key s (parent c)
  pub across :
      (c : ℕ) → 0 < c → c < n → parent c ≡ i → 0 < i → lo ≤ parent i → key s c ≤ key s (parent i)

module _ {S : Type 0} (key : S → ℕ → ℕ) (swap : ℕ → ℕ → S → S) (len : ℕ) (Good : S → Type 0)
    (law : SwapsKeys key swap len Good) where
  larger_child_largest :
      (i n c : ℕ) (s : S)
      → 2 * i + 1 < n
      → 0 < c
      → c < n
      → parent c ≡ i
      → key s c ≤ key s (larger_child key swap i n s)
  unfolding larger_child
  larger_child_largest i n c s h pos inside e =
      let which : (c ≡ 2 * i + 1) ⊎ (c ≡ 2 * i + 1 + 1) = omega arith in ground arith

  parent-larger_child : (i n : ℕ) (s : S) → parent (larger_child key swap i n s) ≡ i
  unfolding larger_child
  parent-larger_child i n s = ground arith

  sink-HoleAt :
      (lo n i m : ℕ) (s : S)
      → Good s
      → n ≤ len
      → i < m
      → m < n
      → parent m ≡ i
      → ((c : ℕ) → 0 < c → c < n → parent c ≡ i → key s c ≤ key s m)
      → key s i < key s m
      → HoleAt key lo n s i
      → HoleAt key lo n (swap i m s) m
  sink-HoleAt lo n i m s good small low high up largest below v =
      let at = λ (c : ℕ). law.exchanged i m c s (omega arith) (omega arith) good in
      record {
        elsewhere = λ c pos inside from other.
            ground (arith, at c, at (parent c), v.elsewhere c, v.across m, largest c, v.across c);
        across = λ c pos inside e pos' from. ground (arith, at c, at (parent m), v.elsewhere c);
      }

  settled-IsHeapFrom :
      (lo n i m : ℕ) (s : S)
      → ((c : ℕ) → 0 < c → c < n → parent c ≡ i → key s c ≤ key s m)
      → key s m ≤ key s i
      → HoleAt key lo n s i
      → IsHeapFrom key lo n s
  settled-IsHeapFrom lo n i m s largest above v c pos inside from =
      ground (arith, v.elsewhere c, largest c)

  leaf-IsHeapFrom :
      (lo n i : ℕ) (s : S) → n ≤ 2 * i + 1 → HoleAt key lo n s i → IsHeapFrom key lo n s
  leaf-IsHeapFrom lo n i s leaf v c pos inside from = v.elsewhere c pos inside from (omega arith)

  sift_loop-IsHeapFrom :
      (fuel lo n i : ℕ) (s : S)
      → Good s
      → n ≤ len
      → n < fuel + i
      → HoleAt key lo n s i
      → IsHeapFrom key lo n (sift_loop key swap fuel i n s)
  unfolding sift_loop sift_round
  sift_loop-IsHeapFrom zero lo n i s good small enough v = leaf-IsHeapFrom lo n i s (omega arith) v
  sift_loop-IsHeapFrom (suc fuel) lo n i s good small enough v =
      elim (Bool-cases (leb n (2 * i + 1))) [
        | inl leaf ↦ rw leaf (leaf-IsHeapFrom lo n i s (leb→le n _ leaf) v)
        | inr inner ↦
            let m = larger_child key swap i n s in
            let b = larger_child_bounds key swap i n s (leb→lt n _ inner) in
            let largest = λ (c : ℕ). larger_child_largest i n c s (leb→lt n _ inner) in
            elim (Bool-cases (leb (key s m) (key s i))) [
              | inl ordered ↦
                  rw (inner, ordered) (settled-IsHeapFrom lo n i m s largest (leb→le _ _ ordered) v)
              | inr sinks ↦
                  rw (inner, sinks)
                    (sift_loop-IsHeapFrom fuel lo n m (swap i m s)
                      (law.kept i m s (omega (arith, b)) (omega (arith, b)) good) small
                      (omega (arith, b))
                      (sink-HoleAt lo n i m s good small b.0 b.1 (parent-larger_child i n s) largest
                        (leb→lt _ _ sinks) v))
            ]
      ]

  pub sift_down-IsHeapFrom :
      (lo n i : ℕ) (s : S)
      → Good s
      → n ≤ len
      → HoleAt key lo n s i
      → IsHeapFrom key lo n (sift_down key swap i n s)
  unfolding sift_down
  sift_down-IsHeapFrom lo n i s good small v =
      sift_loop-IsHeapFrom (suc n) lo n i s good small (omega arith) v

  pub sift_down-Good : (n i : ℕ) (s : S) → n ≤ len → Good s → Good (sift_down key swap i n s)
  sift_down-Good n i s small =
      Swaps-keep Good (λ a b r ha hb. law.kept a b r (omega arith) (omega arith))
        (sift_down-Swaps key swap i n s)

  pub heapify-IsHeapFrom :
      (i n : ℕ) (s : S)
      → Good s
      → n ≤ len
      → IsHeapFrom key i n s
      → IsHeapFrom key 0 n (heapify key swap i n s) × Good (heapify key swap i n s)
  unfolding heapify
  heapify-IsHeapFrom zero n s good small h = (h, good)
  heapify-IsHeapFrom (suc i) n s good small h =
      heapify-IsHeapFrom i n (sift_down key swap i n s) (sift_down-Good n i s small good) small (
        sift_down-IsHeapFrom i n i s good small (record {
          elsewhere = λ c pos inside from other. h c pos inside (omega arith);
          across = λ c pos inside e pos' from. absurd (omega arith);
        }))
