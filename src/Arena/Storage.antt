-- ===== src/Arena/Storage.antt =====
-- src/arena.rs: the arena as its bump offset and the byte at each offset of its buffer. A type is its
-- size and its alignment, a power of two, and a value is the list of its bytes. `none` is a panic.
use ltop.Base.{
  ℕ, zero, suc, ◌+◌, ◌-◌, ◌*◌, ◌/◌, ◌&&◌, Option, none, some, List, [], ◌∷◌, ltb, leb, ◌==◌,
  if◌then◌else◌, ◌>>=◌, max, not,
}
use ltop.Arena.{arena_size, bump}

pub record Storage : Type 0 where
  pub offset : ℕ
  pub buf : ℕ → ℕ

pub record Layout : Type 0 where
  pub size : ℕ
  pub align : ℕ

-- `(x + (align - 1)) & !(align - 1)`.
unfoldable pub align_up : ℕ → ℕ → ℕ
align_up x align = (x + (align - 1)) / align * align

abbrev pub update : (ℕ → ℕ) → ℕ → ℕ → ℕ → ℕ
update buf at b x = if x == at then b else buf x

-- A write of bytes, and a read of some bytes.
unfoldable pub store : (ℕ → ℕ) → ℕ → List ℕ → ℕ → ℕ
store buf at [] = buf
store buf at (b ∷ bytes) = store (update buf at b) (at + 1) bytes

unfoldable pub read : (ℕ → ℕ) → ℕ → ℕ → List ℕ
read buf at zero = []
read buf at (suc n) = buf at ∷ read buf (at + 1) n

-- copy_down, by the rounds left. Each byte is read from the buffer as it is then.
unfoldable pub copy_loop : ℕ → ℕ → ℕ → ℕ → (ℕ → ℕ) → ℕ → ℕ
copy_loop zero i src dst buf = buf
copy_loop (suc rounds) i src dst buf =
    copy_loop rounds (i + 1) src dst (update buf (dst + i) (buf (src + i)))

unfoldable pub copy_down : ℕ → ℕ → ℕ → (ℕ → ℕ) → ℕ → ℕ
unfolding copy_loop
copy_down src dst len buf = copy_loop len 0 src dst buf

-- scope and ScopeGuard: the offset is put back, the bytes stay as they are.
unfoldable pub scope {ℓ} :
    {R : Type ℓ} → (Storage → Option (R × Storage)) → Storage → Option (R × Storage)
scope f s = do (r, s') ← f s; some (r, record s' { offset = s.offset })

unfoldable pub remaining : Storage → ℕ
remaining s = arena_size - s.offset

-- Frame::alloc: the offset of the box.
unfoldable pub alloc : Layout → List ℕ → Storage → Option (ℕ × Storage)
unfolding bump store
alloc t value s = do
  (start, end) ← bump s.offset t.size t.align
  some (start, record { offset = end; buf = store s.buf start value })

-- Frame::alloc_zeroed: write_bytes over the size of the type.
unfoldable pub zero_bytes : (ℕ → ℕ) → ℕ → ℕ → ℕ → ℕ
zero_bytes buf at n x = if leb at x && ltb x (at + n) then 0 else buf x

unfoldable pub alloc_zeroed : Layout → Storage → Option (ℕ × Storage)
unfolding bump zero_bytes
alloc_zeroed t s = do
  (start, end) ← bump s.offset t.size t.align
  some (start, record { offset = end; buf = zero_bytes s.buf start t.size })

pub record FSpan : Type 0 where
  pub start : ℕ
  pub len : ℕ

unfoldable pub empty : Layout → Storage → FSpan
unfolding align_up
empty t s = record { start = align_up s.offset t.align; len = 0 }

-- as_slice, as the bytes of the elements, and the end of a span.
abbrev pub span_end : Layout → FSpan → ℕ
span_end t span = span.start + span.len * t.size

-- FBuilder is the number of its elements.
unfoldable pub builder_push : Layout → List ℕ → ℕ × Storage → Option (ℕ × Storage)
unfolding alloc
builder_push t value (len, s) = do (at, s') ← alloc t value s; some (len + 1, s')

-- `values` are the bytes of `n` elements.
unfoldable pub builder_extend : Layout → ℕ → List ℕ → ℕ × Storage → Option (ℕ × Storage)
unfolding bump store
builder_extend t n values (len, s) =
    let reserved = bump s.offset (t.size * n) t.align in
    if n == 0
    then some (len, s)
    else reserved >>= λ (at, end).
        some (len + n, record { offset = end; buf = store s.buf at values })

unfoldable pub builder_pop : Layout → ℕ × Storage → ℕ × Storage
builder_pop t (len, s) =
    if len == 0 then (len, s) else (len - 1, record s { offset = s.offset - t.size })

-- Frame::span, with what the closure does to the builder.
unfoldable pub span :
    Layout → (ℕ × Storage → Option (ℕ × Storage)) → Storage → Option (FSpan × Storage)
unfolding align_up
span t build s = do
  let start = align_up s.offset t.align
  (len, s') ← build (0, record s { offset = start })
  some (record { start = start; len = len }, s')

unfoldable pub push_all : Layout → List (List ℕ) → ℕ × Storage → Option (ℕ × Storage)
unfolding builder_push
push_all t [] b = some b
push_all t (value ∷ values) b = do b' ← builder_push t value b; push_all t values b'

unfoldable pub collect : Layout → List (List ℕ) → Storage → Option (FSpan × Storage)
unfolding span push_all
collect t values s = span t (push_all t values) s

-- The move of compact and of both steps of replace2: nothing is copied in place, or of no bytes.
unfoldable pub move_down : ℕ → ℕ → ℕ → (ℕ → ℕ) → ℕ → ℕ
unfolding copy_down
move_down src dst bytes buf =
    if not (src == dst) && ltb 0 bytes then copy_down src dst bytes buf else buf

-- Frame::compact, with the frame of the closure.
unfoldable pub compact :
    Layout → (Storage → Option (FSpan × Storage)) → Storage → Option (FSpan × Storage)
unfolding align_up move_down
compact t build s = do
  (result, s') ← build s
  let dst = align_up s.offset t.align
  let bytes = result.len * t.size
  let moved = move_down result.start dst bytes s'.buf
  some (record { start = dst; len = result.len }, record { offset = dst + bytes; buf = moved })

-- Frame::replace2. The closure reads the old spans. The assertions of a dev build, of the order of the
-- old spans and of the new ones, are left out.
unfoldable pub replace2 :
    Layout
    → Layout
    → FSpan
    → FSpan
    → (Storage → Option ((FSpan × FSpan) × Storage))
    → Storage
    → Option ((FSpan × FSpan) × Storage)
unfolding align_up move_down
replace2 t1 t2 span1 span2 build s = do
  let old1_start = span1.start
  let old2_end = span_end t2 span2
  let on_top = leb s.offset old2_end && ltb (old2_end - s.offset) (max t2.align 1)
  let built = if on_top then build s else none
  ((new1, new2), s') ← built
  let bytes1 = new1.len * t1.size
  let bytes2 = new2.len * t2.size
  let buf1 = move_down new1.start old1_start bytes1 s'.buf
  let dst2 = align_up (old1_start + bytes1) t2.align
  let buf2 = move_down new2.start dst2 bytes2 buf1
  some (
    (record { start = old1_start; len = new1.len }, record { start = dst2; len = new2.len }),
    record { offset = dst2 + bytes2; buf = buf2 },
  )

-- uncommit_tail on Linux: the start and the length of the pages that it gives back, if any, by the
-- address of the buffer and the size of a page.
unfoldable pub uncommit_tail : ℕ → ℕ → Storage → Option (ℕ × ℕ)
unfolding align_up
uncommit_tail base page_size s =
    let tail_start = align_up (base + s.offset) page_size in
    let len = (base + arena_size - tail_start) / page_size * page_size in
    if ltb 0 len then some (tail_start, len) else none
