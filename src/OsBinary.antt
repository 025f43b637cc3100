-- ===== src/OsBinary.antt =====
-- src/osbinary.rs: the reader of OSSerializeBinary blobs. A blob is a list of bytes shorter than
-- 2^32 - 16, so the u32 cursors do not overflow and are plain numbers here.
pub mod Tags
pub mod Checkpoints
pub mod Query
pub mod Table
pub mod Rounds
pub mod Objects
pub mod Lookup
pub mod Items
pub mod Tests
use ltop.Base.{
  ℕ, zero, suc, ◌+◌, ◌-◌, ◌*◌, ◌/◌, ◌%◌, ◌^◌, Bool, true, false, ◌&&◌, ◌||◌, Option, none, some,
  List, [], ◌∷◌, ltb, leb, ◌==◌, if◌then◌else◌, ◌>>=◌, length, get_elem?, take, not,
}
use ltop.Bytes.{Bytes}
use ltop.OsBinary.Tags.{
  Tag, read_tag, is_object, is_dict, is_container, scalar_step, checked_u32, type_dict, type_array,
  type_set, type_number, type_symbol, type_string, type_boolean, le32, bytes_eq, slice,
}
use ltop.OsBinary.Checkpoints.{Ckpts, record_offset}

-- The checkpoints are recorded only in the walk of parse. A panic of the table
-- is `none` here, as a refused blob is.
abbrev pub note : Option Ckpts → ℕ → ℕ → Option (Option Ckpts)
note none count cursor = some none
note (some ck) count cursor = record_offset ck count cursor >>= λ ck'. some (some ck')

abbrev pub is_some {ℓ} : {A : Type ℓ} → Option A → Bool
is_some none = false
is_some (some a) = true

-- The items owed after a tag, less the tag's own; u64::checked_add.
unfoldable pub owed : Tag → ℕ → Option ℕ
owed tag remaining =
    let total = remaining + tag.operand * (if is_dict tag then 2 else 1) in
    if is_container tag then (if ltb total (2 ^ 64) then some total else none) else some remaining

-- The state of the walk: `remaining` items are owed, `count` objects were emitted.
pub record Walk : Type 0 where
  pub cursor : ℕ
  pub remaining : ℕ
  pub count : ℕ
  pub ck : Option Ckpts

-- One round of the `while`, at a tag: the state after it.
unfoldable pub walk_round : Bytes → Walk → Option Walk
unfolding owed
walk_round blob w = do
  tag ← read_tag blob w.cursor
  if is_object tag
      then (if is_some w.ck && leb w.count tag.operand
          then none
          else some (record w { cursor = w.cursor + 4; remaining = w.remaining - 1 }))
      else (do
        remaining ← owed tag (w.remaining - 1)
        step ← scalar_step tag
        if ltb (length blob) (w.cursor + step) then none else (do
          ck ← note w.ck w.count w.cursor
          count ← checked_u32 (w.count + 1)
          some
              (record { cursor = w.cursor + step; remaining = remaining; count = count; ck = ck })))

-- The `while` on fuel.
unfoldable pub walk_loop : ℕ → Bytes → Walk → Option Walk
walk_loop zero blob w = none
walk_loop (suc fuel) blob w =
    let rest = walk_round blob w >>= λ w'. walk_loop fuel blob w' in
    if w.remaining == 0 then some w else rest

-- Every round reads a tag and moves the cursor on by four bytes or more.
unfoldable pub walk : Bytes → ℕ → Option Ckpts → Option Walk
walk blob start ck =
    walk_loop (length blob + 2) blob (record { cursor = start; remaining = 1; count = 0; ck = ck })

pub record OsBinary : Type 0 where
  pub blob : Bytes
  pub ckpts : List ℕ
  pub stride : ℕ
  pub count : ℕ

-- The magic `d3 00 00 00`.
abbrev pub magic : Bytes
magic = 0xd3 ∷ 0x00 ∷ 0x00 ∷ 0x00 ∷ []

-- The table at the end of the walk, which was lent one.
abbrev pub finish : Bytes → Walk → Option OsBinary
finish blob w = w.ck >>= λ ck.
    some (record { blob = blob; ckpts = take ck.n ck.buf; stride = ck.stride; count = w.count })

-- OsBinary::parse; `buf` is the caller's scratch.
unfoldable pub parse : Bytes → List ℕ → Option OsBinary
parse blob buf =
    if ltb (length blob) 8 || not (bytes_eq (take 4 blob) magic) || length buf == 0
    then none
    else if leb (2 ^ 32 - 1 - 16) (length blob)
    then none
    else (walk blob 4 (some (record { buf = buf; n = 0; stride = 1 })) >>= λ w. finish blob w)

unfoldable pub root : OsBinary → Option ℕ
root b = if b.count == 0 then none else some 4

-- The flat scan of nth_object, on fuel: `i` is the number of the next object.
unfoldable pub scan_loop : ℕ → Bytes → ℕ → ℕ → ℕ → Option ℕ
scan_loop zero blob offset i idx = none
scan_loop (suc fuel) blob offset i idx = do
  tag ← read_tag blob offset
  let skip = scan_loop fuel blob (offset + 4) i idx
  let next = scalar_step tag >>= λ step. scan_loop fuel blob (offset + step) (i + 1) idx
  if is_object tag then skip else if i == idx then some offset else next

unfoldable pub nth_object : OsBinary → ℕ → Option ℕ
nth_object b idx =
    let ck = idx / b.stride in
    let found = get_elem? b.ckpts ck >>= λ offset.
    scan_loop (length b.blob + 1) b.blob offset (ck * b.stride) idx in
    if leb b.count idx then none else found

unfoldable pub resolve : OsBinary → ℕ → Option ℕ
resolve b offset = do
  tag ← read_tag b.blob offset
  if is_object tag then nth_object b tag.operand else some offset

unfoldable pub item_len : OsBinary → ℕ → Option ℕ
item_len b offset = do
  tag ← read_tag b.blob offset
  if is_object tag then some 4 else (walk b.blob offset none >>= λ w. some (w.cursor - offset))
