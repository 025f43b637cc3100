-- ===== src/Sort.antt =====
-- src/sort.rs: the in-place heapsort. `sort_raw` and `sift_down` see the slice only through the
-- two closures `key` and `swap`, so here they are functions of a slice state `S` and of these two.
pub mod Rounds
pub mod Swaps
pub mod Heap
pub mod Sorted
pub mod Slice
mod Tests
use ltop.Base.{ℕ, zero, suc, ◌+◌, ◌*◌, ◌/◌, ◌&&◌, ltb, leb, if◌then◌else◌}

module _ {S : Type 0} (key : S → ℕ → ℕ) (swap : ℕ → ℕ → S → S) where
  -- The child of `i` with the larger key: the right one if it exists and compares greater.
  unfoldable pub larger_child : ℕ → ℕ → S → ℕ
  larger_child i heap_len s =
      let left = 2 * i + 1 in
      let right = left + 1 in
      if ltb right heap_len && ltb (key s left) (key s right) then right else left

  -- One round of the `loop`, with the rest of the rounds as an argument.
  unfoldable pub sift_round : (ℕ → S → S) → ℕ → ℕ → S → S
  sift_round rest i heap_len s =
      let max = larger_child i heap_len s in
      let sunk = rest max (swap i max s) in
      if leb heap_len (2 * i + 1) then s else if leb (key s max) (key s i) then s else sunk

  -- The loop on fuel.
  unfoldable pub sift_loop : ℕ → ℕ → ℕ → S → S
  sift_loop zero i heap_len s = s
  sift_loop (suc fuel) i heap_len s =
      sift_round (λ max t. sift_loop fuel max heap_len t) i heap_len s

  -- `i` grows in every round and stays below `heap_len`.
  unfoldable pub sift_down : ℕ → ℕ → S → S
  sift_down i heap_len s = sift_loop (suc heap_len) i heap_len s

  -- Phase 1: `while i > 0 { i -= 1; sift_down(i, len) }`.
  unfoldable pub heapify : ℕ → ℕ → S → S
  heapify zero len s = s
  heapify (suc i) len s = heapify i len (sift_down i len s)

  -- Phase 2: `while n > 1 { n -= 1; swap(0, n); sift_down(0, n) }`.
  unfoldable pub extract : ℕ → S → S
  extract zero s = s
  extract (suc zero) s = s
  extract (suc (suc n)) s = extract (suc n) (sift_down 0 (suc n) (swap 0 (suc n) s))

  unfoldable pub sort_raw : ℕ → S → S
  sort_raw len s = extract len (heapify (len / 2) len s)
