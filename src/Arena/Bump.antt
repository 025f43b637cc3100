-- ===== src/Arena/Bump.antt =====
-- src/arena.rs, bump and FSmall: where reservations stand.
use mathlib.Core.Path.{subst}
use native.Mathlib.Nat.{div-add-mod, mul-mod_left, mod-lt}
use ltop.Base.{
  ℕ, ◌+◌, ◌-◌, ◌*◌, ◌/◌, ◌%◌, ◌^◌, ◌≤◌, ◌<◌, ◌≡◌, ap, arith, some, List, [], ◌∷◌, min, some_inj,
  bind_some,
}
use ltop.Arena.{arena_size, bump, bump_all, into_small, small_len, small_offset, into_small_lossy}

-- Rounding up to a multiple.
pub round_up : (x a : ℕ) → 0 < a → (x ≤ (x + (a - 1)) / a * a) × ((x + (a - 1)) / a * a < x + a)
round_up x a pos =
    let split = div-add-mod (x + (a - 1)) a in
    let left = mod-lt (x + (a - 1)) pos in (omega arith, omega arith)

bump_bounds :
    (offset size align start end : ℕ)
    → 0 < align
    → bump offset size align ≡ some (start, end)
    → (offset ≤ start) × (start % align ≡ 0) × (start + size ≡ end) × (end ≤ arena_size)
unfolding bump
bump_bounds offset size align start end pos h =
    let up = round_up offset align pos in
    let multiple = mul-mod_left ((offset + (align - 1)) / align) align in ground arith

-- The spans of requests, from `low` on: aligned, as large as asked for, each behind the one
-- before, and the last one in front of `high`.
abbrev pub Placed : ℕ → List (ℕ × ℕ) → List (ℕ × ℕ) → ℕ → Type 0
Placed low [] [] high = low ≤ high
Placed low [] (span ∷ spans) high = ⊥
Placed low (request ∷ requests) [] high = ⊥
Placed low ((size, align) ∷ requests) ((start, end) ∷ spans) high =
    (low ≤ start) × (start % align ≡ 0) × (start + size ≡ end) × Placed end requests spans high

abbrev pub Aligned : List (ℕ × ℕ) → Type 0
Aligned [] = Unit {0}
Aligned ((size, align) ∷ requests) = (0 < align) × Aligned requests

-- For an offset below 2^20, into_small_lossy does not panic and packs into a u32 the offset and
-- the length cut off at 4095, which the accessors read back.
pub into_small_lossy_fields :
    (offset len : ℕ)
    → offset < 2 ^ 20
    → (packed : ℕ) × (into_small_lossy offset len ≡ some packed)
      × (small_offset packed ≡ offset)
      × (small_len packed ≡ min len 4095)
      × (packed < 2 ^ 32)
unfolding into_small_lossy into_small small_offset small_len
into_small_lossy_fields offset len h =
    (offset * 2 ^ 12 + min len 4095, ground arith, omega arith, omega arith, omega arith)

-- If a sequence of requests with positive alignments is served from an offset inside the arena,
-- then every reservation is aligned and as large as asked for, starts at or behind the end of
-- the one before, and the last one ends inside the arena: no two overlap.
pub bump_all-Placed :
    (offset : ℕ) (requests spans : List (ℕ × ℕ)) (last : ℕ)
    → Aligned requests
    → offset ≤ arena_size
    → bump_all offset requests ≡ some (spans, last)
    → Placed offset requests spans last × (last ≤ arena_size)
unfolding bump_all
bump_all-Placed offset [] [] last ok low h =
    let same : offset ≡ last = cc in (omega arith, omega arith)
bump_all-Placed offset [] (span ∷ spans) last ok low h = cc
bump_all-Placed offset ((size, align) ∷ requests) spans last (pos, ok) low h =
    let ((start, end), reserved, h1) = bind_some (bump offset size align) _ (spans, last) h in
    let ((rest, last'), others, made) = bind_some (bump_all end requests) _ (spans, last) h1 in
    let (behind, aligned, sized, inside) = bump_bounds offset size align start end pos reserved in
    let (placed, within) = bump_all-Placed end requests rest last' ok inside others in
    let spans_are : (start, end) ∷ rest ≡ spans =
      ap (λ (t : List (ℕ × ℕ) × ℕ). t.0) (some_inj made) in
    let last_is : last' ≡ last = ap (λ (t : List (ℕ × ℕ) × ℕ). t.1) (some_inj made) in
    subst (λ t. Placed offset ((size, align) ∷ requests) t last × (last ≤ arena_size)) spans_are
      (subst
        (λ t. Placed offset ((size, align) ∷ requests) ((start, end) ∷ rest) t × (t ≤ arena_size))
        last_is ((behind, aligned, sized, placed), within))
