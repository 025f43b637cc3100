-- ===== src/Arena/Build.antt =====
-- src/arena.rs, Frame::span and what fills its builder: the elements stand in a row.
use native.Mathlib.Nat.{div-add-mod, mul-mod_left}
use ltop.Base.{
  ℕ, suc, ◌+◌, ◌-◌, ◌*◌, ◌/◌, ◌%◌, ◌≤◌, ◌<◌, ◌≡◌, refl, arith, some, List, [], ◌∷◌, length,
}
use ltop.Arena.{arena_size, max_align, bump}
use ltop.Arena.Storage.{
  Storage, Layout, FSpan, align_up, store, alloc, builder_push, push_all, span, collect, span_end,
}
use ltop.Arena.Copy.{store-below}
use ltop.Arena.Slots.{flat, span_values}
use ltop.Arena.Spans.{suc_mul, AllFit, store-append, values-store}
use ltop.Arena.Moves.{align_up_bounds, align_up-le}

mod_add : (x y align : ℕ) → x % align ≡ 0 → y % align ≡ 0 → (x + y) % align ≡ 0
mod_add x y align ex ey =
    let dx = div-add-mod x align in
    let dy = div-add-mod y align in
    let sum : x + y ≡ (x / align + y / align) * align = grind arith in
    rw sum (mul-mod_left (x / align + y / align) align)

bump_aligned :
    (at size align : ℕ)
    → 0 < align
    → align ≤ max_align
    → at % align ≡ 0
    → at + size ≤ arena_size
    → bump at size align ≡ some (at, at + size)
unfolding bump
bump_aligned at size align pos small aligned room =
    let (up, near, m) = align_up_bounds at align pos in
    let down = align_up-le at at align pos (omega arith) aligned in
    let same : (at + (align - 1)) / align * align ≡ at = unfold align_up in omega arith in
    rw same (ground arith)

push_all-store :
    (t : Layout) (values : List (List ℕ)) (len : ℕ) (s : Storage)
    → 0 < t.align
    → t.align ≤ max_align
    → t.size % t.align ≡ 0
    → s.offset % t.align ≡ 0
    → AllFit t.size values
    → s.offset + length values * t.size ≤ arena_size
    → push_all t values (len, s)
      ≡ some (
        len + length values,
        record {
          offset = s.offset + length values * t.size;
          buf = store s.buf s.offset (flat values);
        },
      )
unfolding push_all builder_push alloc
push_all-store t [] len s pos small sized aligned fit room =
    let count : len + 0 ≡ len = omega arith in
    let same : s.offset + 0 * t.size ≡ s.offset = omega arith in
    unfold store in rw (count, same) refl
push_all-store t (value ∷ values) len s pos small sized aligned (e, fit) room =
    let more = suc_mul (length values) t.size in
    let bumped = bump_aligned s.offset t.size t.align pos small aligned (omega arith) in
    let next = mod_add s.offset t.size t.align aligned sized in
    let rest =
      push_all-store t values (len + 1)
        (record { offset = s.offset + t.size; buf = store s.buf s.offset value }) pos small sized
        next fit (omega arith) in
    let count : len + suc (length values) ≡ len + 1 + length values = omega arith in
    let end : s.offset + suc (length values) * t.size ≡ s.offset + t.size + length values * t.size =
      omega arith in
    let split = rw e at (store-append s.buf s.offset value (flat values)) in
    rw (bumped, count, end, split) rest

-- A span that holds the values, aligned and behind the old end of the arena, which has moved to its
-- end.
abbrev pub Holds : Layout → List (List ℕ) → Storage → FSpan → Storage → Type 0
Holds t values s made after =
    (span_values t made after ≡ values)
    × (s.offset ≤ made.start)
    × (made.start % t.align ≡ 0)
    × (after.offset ≡ span_end t made)
    × ((x : ℕ) → x < made.start → after.buf x ≡ s.buf x)

-- If the alignment divides the size and is at most max_align, and the values have that size and
-- fit in front of the end of the arena, then collect returns an aligned span that holds the
-- values, behind all that was in use; the arena ends with it, and nothing in front has
-- changed.
pub collect-values :
    (t : Layout) (values : List (List ℕ)) (s : Storage)
    → 0 < t.align
    → t.align ≤ max_align
    → t.size % t.align ≡ 0
    → AllFit t.size values
    → align_up s.offset t.align + length values * t.size ≤ arena_size
    → (made : FSpan) × (after : Storage) × (collect t values s ≡ some (made, after))
      × Holds t values s made after
unfolding collect span
collect-values t values s pos small sized fit room =
    let start = align_up s.offset t.align in
    let (up, near, aligned) = align_up_bounds s.offset t.align pos in
    let pushed =
      push_all-store t values 0 (record s { offset = start }) pos small sized aligned fit room in
    let count : 0 + length values ≡ length values = omega arith in
    (
      record { start = start; len = length values },
      record { offset = start + length values * t.size; buf = store s.buf start (flat values) },
      rw (pushed, count) refl,
      (
        values-store t s.buf start values fit,
        up,
        aligned,
        refl,
        λ x low. store-below s.buf start (flat values) x low,
      ),
    )
