-- ===== src/Arena/Slots.antt =====
-- src/arena.rs: FVec and FReserve, whose slots the buffer holds, and what their contents are.
use ltop.Base.{
  ℕ, zero, suc, ◌+◌, ◌-◌, ◌*◌, Bool, true, false, Option, none, some, List, [], ◌∷◌, ◌++◌, ltb, leb,
  ◌==◌, if◌then◌else◌, ◌>>=◌, length, min, take,
}
use ltop.Arena.{bump}
use ltop.Arena.Storage.{Storage, Layout, FSpan, store, read}

-- FVec and FReserve have the same fields.
pub record FVec : Type 0 where
  pub start : ℕ
  pub capacity : ℕ
  pub len : ℕ

-- Frame::vec and Frame::reserve.
unfoldable pub vec : Layout → ℕ → Storage → Option (FVec × Storage)
unfolding bump
vec t capacity s = do
  (start, end) ← bump s.offset (t.size * capacity) t.align
  some (record { start = start; capacity = capacity; len = 0 }, record s { offset = end })

abbrev pub slot : Layout → FVec → ℕ → ℕ
slot t v i = v.start + i * t.size

-- push: false if the value is handed back.
unfoldable pub push : Layout → List ℕ → FVec × Storage → Bool × (FVec × Storage)
unfolding store
push t value (v, s) = if leb v.capacity v.len then (false, (v, s)) else (
  true,
  (record v { len = v.len + 1 }, record s { buf = store s.buf (slot t v v.len) value }),
)

unfoldable pub pop : Layout → FVec × Storage → Option (List ℕ) × FVec
unfolding read
pop t (v, s) =
    if v.len == 0
    then (none, v)
    else (some (read s.buf (slot t v (v.len - 1)) t.size), record v { len = v.len - 1 })

-- The loop of truncate drops one element in each round.
unfoldable pub truncate_loop : ℕ → ℕ → FVec → FVec
truncate_loop zero new_len v = v
truncate_loop (suc rounds) new_len v =
    let less = truncate_loop rounds new_len (record v { len = v.len - 1 }) in
    if ltb new_len v.len then less else v

unfoldable pub truncate : ℕ → FVec → FVec
unfolding truncate_loop
truncate new_len v = truncate_loop v.len new_len v

unfoldable pub clear : FVec → FVec
unfolding truncate
clear v = truncate 0 v

abbrev pub flat : List (List ℕ) → List ℕ
flat [] = []
flat (value ∷ values) = value ++ flat values

unfoldable pub extend_from_slice : Layout → List (List ℕ) → FVec × Storage → Option (FVec × Storage)
unfolding store
extend_from_slice t values (v, s) =
    let n = length values in
    if n == 0
    then some (v, s)
    else if leb (v.len + n) v.capacity
    then some (
      record v { len = v.len + n },
      record s { buf = store s.buf (slot t v v.len) (flat values) },
    )
    else none

-- The writer of an FVec of bytes: what does not fit is left out.
unfoldable pub put_bytes : List (List ℕ) → FVec × Storage → Option (FVec × Storage)
unfolding extend_from_slice
put_bytes values (v, s) =
    extend_from_slice (record { size = 1; align = 1 })
      (take (min (length values) (v.capacity - v.len)) values) (v, s)

unfoldable pub into_fspan : FVec → FSpan
into_fspan v = record { start = v.start; len = v.len }

unfoldable pub into_fvec : FSpan → FVec
into_fvec span = record { start = span.start; capacity = span.len; len = span.len }

-- FReserve::freeze: the arena is rewound to the end of what was used.
unfoldable pub freeze : Layout → FVec × Storage → FSpan × Storage
freeze t (v, s) =
    (record { start = v.start; len = v.len }, record s { offset = v.start + v.len * t.size })

-- Drop for FReserve.
unfoldable pub drop_reserve : FVec × Storage → Storage
drop_reserve (v, s) = record s { offset = v.start }

-- The contents: the bytes of the elements from an index on.
abbrev pub values_from : (ℕ → ℕ) → Layout → ℕ → ℕ → List (List ℕ)
values_from buf t at zero = []
values_from buf t at (suc n) = read buf at t.size ∷ values_from buf t (at + t.size) n

abbrev pub contents : Layout → FVec × Storage → List (List ℕ)
contents t (v, s) = values_from s.buf t v.start v.len

abbrev pub span_values : Layout → FSpan → Storage → List (List ℕ)
span_values t span s = values_from s.buf t span.start span.len
