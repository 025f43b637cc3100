-- ===== src/Arena/Tail.antt =====
-- src/arena.rs, uncommit_tail: which pages are given back to the kernel.
use native.Mathlib.Nat.{div-add-mod, mul-mod_left, mod-lt}
use ltop.Base.{
  ℕ, ◌+◌, ◌-◌, ◌*◌, ◌/◌, ◌%◌, ◌≤◌, ◌<◌, ◌≡◌, arith, Option, none, some, Bool-cases, inl, inr, ltb,
}
use ltop.Arena.{arena_size}
use ltop.Arena.Storage.{Storage, align_up, uncommit_tail}
use ltop.Arena.Moves.{align_up_bounds}

-- The pages between the bump offset and the end of the arena, all of them.
abbrev pub CoversTail : ℕ → ℕ → Storage → Option (ℕ × ℕ) → Type 0
CoversTail base page_size s (some (start, len)) =
    (base + s.offset ≤ start)
    × (start < base + s.offset + page_size)
    × (start % page_size ≡ 0)
    × (len % page_size ≡ 0)
    × (start + len ≤ base + arena_size)
    × (base + arena_size < start + len + page_size)
CoversTail base page_size s none = base + arena_size < base + s.offset + 2 * page_size

-- For every size of a page, what uncommit_tail gives back are whole pages, from the first one
-- behind all bytes in use to the last one inside the arena; if it gives back nothing, then
-- less than two pages are free.
pub uncommit_tail-CoversTail :
    (base page_size : ℕ) (s : Storage)
    → 0 < page_size
    → CoversTail base page_size s (uncommit_tail base page_size s)
unfolding uncommit_tail
uncommit_tail-CoversTail base page_size s pos =
    let start = align_up (base + s.offset) page_size in
    let tail = base + arena_size - start in
    let (up, near, aligned) = align_up_bounds (base + s.offset) page_size pos in
    let split = div-add-mod tail page_size in
    let left = mod-lt tail pos in
    let whole = mul-mod_left (tail / page_size) page_size in
    elim (Bool-cases (ltb 0 (tail / page_size * page_size))) [
      | inl some_pages ↦ rw some_pages (up, near, aligned, whole, ground arith, ground arith)
      | inr no_pages ↦ rw no_pages (ground arith)
    ]
