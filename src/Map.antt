-- ===== src/Map.antt =====
-- src/map.rs: the flat sorted Map and Set keyed on u32. A slice is a list, a Map the sorted list
-- of its entries, a Set the sorted list of its keys. `none` stands for an index panic, and in map_new
-- for the panic of an assertion.
pub mod Dedup
pub mod Search
pub mod Order
pub mod Freeze
pub mod Values
mod Tests
use ltop.Base.{
  ℕ, zero, suc, ◌+◌, ◌-◌, ◌/◌, Bool, true, false, ◌&&◌, Option, none, some, List, [], ◌∷◌, ltb, leb,
  ◌==◌, if◌then◌else◌, ◌>>=◌, length, get_elem?, set, take,
}
use ltop.Sort.Slice.{sort_slice}

-- What `same(right, left)` leaves: the answer, and the two elements, which it may change.
pub record Same {ℓ} (T : Type ℓ) : Type ℓ where
  pub duplicate : Bool
  pub right : T
  pub left : T

module _ {T : Type 0} (same : T → T → Same T) where
  -- The body of the loop for the candidate at `r`: the new `w`, and the slice.
  dedup_round : ℕ → ℕ → List T → Option (ℕ × List T)
  dedup_round r w slice = do
    right ← get_elem? slice r
    left ← get_elem? slice (w - 1)
    let s = same right left
    let merged = set (set slice (w - 1) s.left) r s.right
    let kept = if w == r then merged else set merged w s.right
    if s.duplicate then some (w, merged) else some (w + 1, kept)

  -- `for r in 1..slice.len()`, by the rounds left.
  unfoldable pub dedup_loop : ℕ → ℕ → ℕ → List T → Option (ℕ × List T)
  unfolding dedup_round
  dedup_loop zero r w slice = some (w, slice)
  dedup_loop (suc k) r w slice = dedup_round r w slice >>= λ p. dedup_loop k (r + 1) p.0 p.1

  unfoldable pub dedup_in_place : List T → Option (ℕ × List T)
  unfolding dedup_loop
  dedup_in_place slice =
      if ltb (length slice) 2
      then some (length slice, slice)
      else dedup_loop (length slice - 1) 1 1 slice

module _ {V : Type 0} where
  -- The closure of freeze_map: equal keys are merged into the left entry.
  unfoldable pub same_key : (V → V → V) → ℕ × V → ℕ × V → Same (ℕ × V)
  same_key merge (j, v) (i, u) =
      if i == j
      then record { duplicate = true; right = (j, v); left = (i, merge u v) }
      else record { duplicate = false; right = (j, v); left = (i, u) }

  -- Sort by key, merge neighbours of one key, truncate to the new length.
  unfoldable pub freeze_map : (V → V → V) → List (ℕ × V) → Option (List (ℕ × V))
  unfolding dedup_in_place same_key
  freeze_map merge entries = do
    (new_len, slice) ← dedup_in_place (same_key merge) (sort_slice (λ e. e.0) entries)
    some (take new_len slice)

module _ {V : Type 0} where
  -- Each key is below the next one, from a key in front on.
  unfoldable pub keys_ascend : ℕ → List (ℕ × V) → Bool
  keys_ascend k [] = true
  keys_ascend k ((j, v) ∷ sorted) = ltb k j && keys_ascend j sorted

  -- Map::new with the assertion of a dev build.
  unfoldable pub map_new : List (ℕ × V) → Option (List (ℕ × V))
  unfolding keys_ascend
  map_new [] = some []
  map_new ((k, v) ∷ sorted) = if keys_ascend k sorted then some ((k, v) ∷ sorted) else none

module _ {E : Type 0} (key : E → ℕ) where
  -- slice::binary_search_by_key of the standard library: `size` entries from `base` are left.
  unfoldable pub search_loop : ℕ → List E → ℕ → ℕ → ℕ → ℕ
  search_loop zero m k base size = base
  search_loop (suc fuel) m k base size =
      let half = size / 2 in
      let mid = base + half in
      let next : ℕ = elim (get_elem? m mid) [
        | none ↦ base
        | some e ↦ if ltb k (key e) then base else mid
      ] in
      let rest = search_loop fuel m k next (size - half) in if leb size 1 then base else rest

  -- The entry that the search finds.
  unfoldable pub binary_search_by_key : List E → ℕ → Option E
  unfolding search_loop
  binary_search_by_key m k = do
    e ← get_elem? m (search_loop (length m) m k 0 (length m))
    if key e == k then some e else none

-- Map::get.
unfoldable pub get : {V : Type 0} → List (ℕ × V) → ℕ → Option V
unfolding binary_search_by_key
get m k = binary_search_by_key (λ e. e.0) m k >>= λ e. some e.1

-- The closure of freeze_set.
unfoldable pub same_word : ℕ → ℕ → Same ℕ
same_word right left = record { duplicate = left == right; right = right; left = left }

unfoldable pub freeze_set : List ℕ → Option (List ℕ)
unfolding dedup_in_place same_word
freeze_set keys = do
  (new_len, slice) ← dedup_in_place same_word (sort_slice (λ k. k) keys)
  some (take new_len slice)

-- Set::contains.
unfoldable pub contains : List ℕ → ℕ → Bool
unfolding binary_search_by_key
contains s k = elim (binary_search_by_key (λ e. e) s k) [ none ↦ false | some e ↦ true ]
