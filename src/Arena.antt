-- ===== src/Arena.antt =====
-- src/arena.rs: the bump allocator over offsets, the packed slice handle, and FVec::retain_in_place.
-- `none` is a panic. A slot that is moved from or dropped keeps its old value in the list.
pub mod Storage
pub mod Copy
pub mod Moves
pub mod Spans
pub mod Slots
pub mod Ops
pub mod Vec
pub mod Build
pub mod Tail
pub mod Bump
pub mod Retain
mod Tests
mod Runs
use ltop.Base.{
  ℕ, zero, suc, ◌+◌, ◌-◌, ◌*◌, ◌/◌, ◌%◌, ◌^◌, Bool, true, false, ◌&&◌, Option, none, some, List, [],
  ◌∷◌, ltb, leb, ◌==◌, if◌then◌else◌, ◌>>=◌, length, get_elem?, set, min,
}

abbrev pub arena_size : ℕ
arena_size = 512 * 1024

abbrev pub max_align : ℕ
max_align = 16

-- bump: the offset of the reservation, and the new bump offset. `align` is a power of two, so the
-- mask `& !(align - 1)` rounds down to a multiple of it.
unfoldable pub bump : ℕ → ℕ → ℕ → Option (ℕ × ℕ)
bump offset size align =
    let aligned = (offset + (align - 1)) / align * align in
    let end = aligned + size in
    if leb align max_align && leb size arena_size && leb end arena_size
    then some (aligned, end)
    else none

-- A sequence of reservations, as (size, align): where each one starts and ends.
unfoldable pub bump_all : ℕ → List (ℕ × ℕ) → Option (List (ℕ × ℕ) × ℕ)
unfolding bump
bump_all offset [] = some ([], offset)
bump_all offset ((size, align) ∷ requests) = do
  (start, end) ← bump offset size align
  (spans, last) ← bump_all end requests
  some ((start, end) ∷ spans, last)

-- FSpan::into_small, FSmall::len and FSmall::offset.
unfoldable pub into_small : ℕ → ℕ → Option ℕ
into_small offset len =
    if leb offset (2 ^ 20 - 1) && leb len (2 ^ 12 - 1) then some (offset * 2 ^ 12 + len) else none

unfoldable pub small_len : ℕ → ℕ
small_len packed = packed % 2 ^ 12

unfoldable pub small_offset : ℕ → ℕ
small_offset packed = packed / 2 ^ 12

unfoldable pub into_small_lossy : ℕ → ℕ → Option ℕ
unfolding into_small
into_small_lossy offset len = into_small offset (min len (2 ^ 12 - 1))

module _ {T : Type 0} (keep : T → Bool × T) where
  -- The loop of retain_in_place, by the rounds left: the read and the write index, and the slots.
  -- `keep` answers, and returns the element that it may have changed.
  unfoldable pub keep_loop : ℕ → ℕ → ℕ → List T → Option (ℕ × List T)
  keep_loop zero r w slots = some (w, slots)
  keep_loop (suc rounds) r w slots = do
    x ← get_elem? slots r
    let (keep_this, x') = keep x
    let seen = set slots r x'
    let moved = if w == r then seen else set seen w x'
    keep_loop rounds (r + 1) (if keep_this then w + 1 else w) (if keep_this then moved else seen)

  -- The length afterwards, and the slots.
  unfoldable pub retain_in_place : List T → Option (ℕ × List T)
  unfolding keep_loop
  retain_in_place slots = keep_loop (length slots) 0 0 slots
