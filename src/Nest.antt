-- ===== src/Nest.antt =====
-- src/arena.rs: Frame::nest and FNest, lists of buckets in two arrays. An array is a list, and
-- `none` is a panic. The arena has 2^19 bytes, so no count reaches 2^32; where
-- the arrays stand and their room are left out here (Filter has nest_room).
pub mod Tally
pub mod Fill
pub mod Buckets
mod Tests
use ltop.Base.{
  ℕ, zero, suc, ◌+◌, ◌-◌, ◌<◌, ◌≤◌, ◌≡◌, Bool, true, false, ◌&&◌, Option, none, some, List, [], ◌∷◌,
  ltb, leb, ◌==◌, if◌then◌else◌, ◌>>=◌, length, get_elem?, get_or, set, take, drop, replicate,
}

-- `offsets[b] .. offsets[b + 1]` is the range of bucket `b` in `items`, the source's `data`.
pub record FNest {ℓ} (T : Type ℓ) : Type ℓ where
  pub offsets : List ℕ
  pub items : List T

module _ {T : Type 0} where
  -- The first pass: the size of bucket `b` goes to `offsets[b + 1]`.
  unfoldable pub tally_loop : ℕ → List (ℕ × T) → List ℕ → Option (List ℕ)
  tally_loop n [] offsets = some offsets
  tally_loop n ((b, v) ∷ pairs) offsets =
      let rest =
        get_elem? offsets (b + 1) >>= λ c. tally_loop n pairs (set offsets (b + 1) (c + 1)) in
      if ltb b n then rest else none

  -- The second pass: each value goes to its bucket's cursor.
  unfoldable pub fill_loop : List ℕ → List (ℕ × T) → List ℕ → List T → Option (List ℕ × List T)
  fill_loop offsets [] cursors items = some (cursors, items)
  fill_loop offsets ((b, v) ∷ pairs) cursors items = do
    limit ← get_elem? offsets (b + 1)
    cursor ← get_elem? cursors b
    let rest = fill_loop offsets pairs (set cursors b (cursor + 1)) (set items cursor v)
    if ltb cursor limit && ltb cursor (length items) then rest else none

-- `for i in 1..=n { offsets[i] += offsets[i - 1] }`, by the rounds left.
unfoldable pub sum_loop : ℕ → ℕ → List ℕ → Option (List ℕ)
sum_loop zero i offsets = some offsets
sum_loop (suc rounds) i offsets = do
  here ← get_elem? offsets i
  before ← get_elem? offsets (i - 1)
  sum_loop rounds (i + 1) (set offsets i (here + before))

-- The assertions behind the second pass: every cursor stands at its bucket's end.
unfoldable pub all_full : ℕ → List ℕ → List ℕ → Bool
all_full zero cursors offsets = true
all_full (suc i) cursors offsets =
    all_full i cursors offsets && (get_or cursors i 0 == get_or offsets (i + 1) 0)

module _ {T : Type 0} where
  -- `build` yields the same pairs in both passes; `default` fills the new array.
  unfoldable pub nest : T → ℕ → List (ℕ × T) → Option (FNest T)
  unfolding tally_loop fill_loop sum_loop all_full
  nest default n pairs = do
    tallied ← tally_loop n pairs (replicate (n + 1) 0)
    offsets ← sum_loop n 1 tallied
    total ← get_elem? offsets n
    (cursors, items) ← fill_loop offsets pairs (take n offsets) (replicate total default)
    if all_full n cursors offsets then some (record { offsets = offsets; items = items }) else none

  -- FNest::bucket.
  unfoldable pub bucket : FNest T → ℕ → Option (List T)
  bucket f i = do
    start ← get_elem? f.offsets i
    end ← get_elem? f.offsets (i + 1)
    if leb start end && leb end (length f.items)
        then some (take (end - start) (drop start f.items))
        else none
