-- ===== src/Arena/Moves.antt =====
-- src/arena.rs, Frame::compact and Frame::replace2: the spans that they move down.
use native.Mathlib.Nat.{div-add-mod, mul-mod_left, mod-lt, mul-le-mul_right}
use ltop.Base.{
  ℕ, suc, ◌+◌, ◌-◌, ◌*◌, ◌/◌, ◌%◌, ◌≤◌, ◌<◌, ◌≡◌, refl, ◌∙◌, arith, ◌⊎◌, inl, inr, true, false, not,
  ◌&&◌, Option, some, ltb, leb, ◌==◌, if◌then◌else◌, Bool-cases, max, ltb→lt, ltb→le,
}
use ltop.Arena.Storage.{
  Storage, Layout, FSpan, align_up, span_end, read, move_down, compact, replace2,
}
use ltop.Arena.Copy.{copy_down-eq, read-shift}

move_down-eq :
    (src dst bytes : ℕ) (buf : ℕ → ℕ) (x : ℕ)
    → dst ≤ src
    → move_down src dst bytes buf x
      ≡ (if leb dst x && ltb x (dst + bytes) then buf (src + (x - dst)) else buf x)
unfolding move_down
move_down-eq src dst bytes buf x h = elim (Bool-cases (not (src == dst) && ltb 0 bytes)) [
  | inl moves ↦ rw moves (copy_down-eq src dst bytes buf x h)
  | inr stays ↦ elim (Bool-cases (leb dst x && ltb x (dst + bytes))) [
    | inl inside ↦ let same : src + (x - dst) ≡ x = ground arith in rw (stays, inside, same) refl
    | inr outside ↦ rw (stays, outside) refl
  ]
]

-- What the destination holds, and what is left alone.
read-move_down :
    (src dst bytes : ℕ) (buf : ℕ → ℕ)
    → dst ≤ src
    → read (move_down src dst bytes buf) dst bytes ≡ read buf src bytes
read-move_down src dst bytes buf h =
    read-shift (move_down src dst bytes buf) buf dst src bytes (λ i lt.
      let inside : (leb dst (dst + i) && ltb (dst + i) (dst + bytes)) ≡ true = ground arith in
      let from : src + (dst + i - dst) ≡ src + i = omega arith in
      move_down-eq src dst bytes buf (dst + i) h ∙ rw (inside, from) refl)

move_down-outside :
    (src dst bytes : ℕ) (buf : ℕ → ℕ) (x : ℕ)
    → dst ≤ src
    → (x < dst) ⊎ (dst + bytes ≤ x)
    → move_down src dst bytes buf x ≡ buf x
move_down-outside src dst bytes buf x h out =
    let outside : (leb dst x && ltb x (dst + bytes)) ≡ false = ground arith in
    move_down-eq src dst bytes buf x h ∙ rw outside refl

pub align_up_bounds :
    (x align : ℕ)
    → 0 < align
    → (x ≤ align_up x align) × (align_up x align < x + align) × (align_up x align % align ≡ 0)
unfolding align_up
align_up_bounds x align pos =
    let split = div-add-mod (x + (align - 1)) align in
    let left = mod-lt (x + (align - 1)) pos in
    (omega arith, omega arith, mul-mod_left ((x + (align - 1)) / align) align)

-- A multiple at or above x is at or above the next multiple.
pub align_up-le : (x y align : ℕ) → 0 < align → x ≤ y → y % align ≡ 0 → align_up x align ≤ y
unfolding align_up
align_up-le x y align pos le multiple =
    let whole = div-add-mod y align in
    let (up, near, m) = align_up_bounds x align pos in
    let q = y / align in
    let k = (x + (align - 1)) / align in
    elim (Bool-cases (ltb q k)) [
      | inl more ↦
          let over : suc q * align ≤ k * align = mul-le-mul_right align (ltb→lt q k more) in
          let one_more : suc q * align ≡ q * align + align = grind arith in absurd (omega arith)
      | inr enough ↦
          let under : k * align ≤ q * align = mul-le-mul_right align (ltb→le q k enough) in
          omega arith
    ]

-- The span and the arena behind compact, by those that the closure left: the values have moved to the
-- bottom whole, nothing in front has changed, and the arena ends with them, no higher than before.
abbrev pub Compacted : Layout → Storage → FSpan → Storage → FSpan → Storage → Type 0
Compacted t s result s' span after =
    (span.len ≡ result.len)
    × (read after.buf span.start (span.len * t.size)
        ≡ read s'.buf result.start (result.len * t.size))
    × ((x : ℕ) → x < span.start → after.buf x ≡ s'.buf x)
    × (s.offset ≤ span.start)
    × (span.start % t.align ≡ 0)
    × (after.offset ≡ span_end t span)
    × (span_end t span ≤ span_end t result)

module _ (t : Layout) (build : Storage → Option (FSpan × Storage)) (s : Storage) (result : FSpan)
    (s' : Storage) where
  -- If the closure leaves a span at or above the aligned start, then compact returns a span of
  -- the same bytes at that start, which is aligned; nothing in front has changed, and the
  -- arena ends with the span, no higher than before.
  pub compact-moves :
      0 < t.align
      → build s ≡ some (result, s')
      → align_up s.offset t.align ≤ result.start
      → (span : FSpan) × (after : Storage) × (compact t build s ≡ some (span, after))
        × Compacted t s result s' span after
  unfolding compact
  compact-moves pos built behind =
      let start = align_up s.offset t.align in
      let bytes = result.len * t.size in
      let (up, near, multiple) = align_up_bounds s.offset t.align pos in
      (
        record { start = start; len = result.len },
        record { offset = start + bytes; buf = move_down result.start start bytes s'.buf },
        rw built refl,
        (
          refl,
          read-move_down result.start start bytes s'.buf behind,
          λ x lt. move_down-outside result.start start bytes s'.buf x behind (inl lt),
          up,
          multiple,
          refl,
          omega arith,
        ),
      )

-- The two spans and the arena behind replace2, by those that the closure left: the first stands in the
-- place of the old first one, the second behind it, both with their values; nothing in front has
-- changed, and the arena ends with the second, no higher than before.
abbrev pub Replaced :
    Layout → Layout → FSpan → FSpan × FSpan → Storage → FSpan × FSpan → Storage → Type 0
Replaced t1 t2 span1 (new1, new2) s' (kept1, kept2) after =
    (kept1.start ≡ span1.start)
    × (kept1.len ≡ new1.len)
    × (kept2.len ≡ new2.len)
    × (read after.buf kept1.start (kept1.len * t1.size)
        ≡ read s'.buf new1.start (new1.len * t1.size))
    × (read after.buf kept2.start (kept2.len * t2.size)
        ≡ read s'.buf new2.start (new2.len * t2.size))
    × ((x : ℕ) → x < span1.start → after.buf x ≡ s'.buf x)
    × (kept2.start % t2.align ≡ 0)
    × (span_end t1 kept1 ≤ kept2.start)
    × (after.offset ≡ span_end t2 kept2)
    × (span_end t2 kept2 ≤ span_end t2 new2)

module _ (t1 t2 : Layout) (build : Storage → Option ((FSpan × FSpan) × Storage)) (s s' : Storage)
    (span1 span2 new1 new2 : FSpan) where
  -- If the second old span ends at the top of the arena, less than its alignment above the
  -- offset, and the closure leaves a new first span at or above the old one and an aligned
  -- second one behind it, then replace2 passes its assertion and returns the first in the
  -- place of the old first span and the second behind it, both with their bytes; nothing in
  -- front has changed, and the arena ends with the second, no higher than before.
  pub replace2-moves :
      0 < t2.align
      → s.offset ≤ span_end t2 span2
      → span_end t2 span2 - s.offset < t2.align
      → build s ≡ some ((new1, new2), s')
      → span1.start ≤ new1.start
      → span_end t1 new1 ≤ new2.start
      → new2.start % t2.align ≡ 0
      → (kept : FSpan × FSpan) × (after : Storage) × (replace2 t1 t2 span1 span2 build s
          ≡ some (kept, after))
        × Replaced t1 t2 span1 (new1, new2) s' kept after
  unfolding replace2
  replace2-moves pos low high built behind1 behind2 multiple2 =
      let bytes1 = new1.len * t1.size in
      let bytes2 = new2.len * t2.size in
      let buf1 = move_down new1.start span1.start bytes1 s'.buf in
      let dst2 = align_up (span1.start + bytes1) t2.align in
      let buf2 = move_down new2.start dst2 bytes2 buf1 in
      let (up, near, multiple) = align_up_bounds (span1.start + bytes1) t2.align pos in
      let fits =
        align_up-le (span1.start + bytes1) new2.start t2.align pos (omega arith) multiple2 in
      let on_top : (leb s.offset (span_end t2 span2)
            && ltb (span_end t2 span2 - s.offset) (max t2.align 1))
          ≡ true =
        ground arith in
      (
        (record { start = span1.start; len = new1.len }, record { start = dst2; len = new2.len }),
        record { offset = dst2 + bytes2; buf = buf2 },
        rw (on_top, built) refl,
        (
          refl,
          refl,
          refl,
          read-shift buf2 buf1 span1.start span1.start bytes1 (λ i lt.
                move_down-outside new2.start dst2 bytes2 buf1 (span1.start + i) fits
                  (inl (omega arith)))
              ∙ read-move_down new1.start span1.start bytes1 s'.buf behind1,
          read-move_down new2.start dst2 bytes2 buf1 fits
              ∙ read-shift buf1 s'.buf new2.start new2.start bytes2 (λ i lt.
                move_down-outside new1.start span1.start bytes1 s'.buf (new2.start + i) behind1
                  (inr (omega arith))),
          λ x lt.
              move_down-outside new2.start dst2 bytes2 buf1 x fits (inl (omega arith))
              ∙ move_down-outside new1.start span1.start bytes1 s'.buf x behind1 (inl lt),
          multiple,
          up,
          refl,
          omega arith,
        ),
      )
