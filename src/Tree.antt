-- ===== src/Tree.antt =====
-- src/main.rs: tree_layout and tree_walk, and the prefix that Indent draws. The stack is a list
-- with its top first, and `none` is an index panic or, in walk_loop, the end of the fuel. The room of
-- the arena is left out.
pub mod Columns
pub mod Walk
mod Tests
use ltop.Base.{
  ℕ, zero, suc, ◌+◌, ◌-◌, ◌*◌, ◌/◌, ◌%◌, ◌^◌, Bool, true, false, ◌&&◌, Option, none, some, List, [],
  ◌∷◌, ◌++◌, ltb, leb, ◌==◌, if◌then◌else◌, ◌>>=◌, length, min,
}
use ltop.Bytes.{Bytes}
use ltop.Map.{get}
use ltop.Nest.{FNest, bucket}
use ltop.Proc.{ProcInfo, build_pid_to_idx}
use ltop.Filter.{push_within, build_children}

pub record Indent : Type 0 where
  pub depth : ℕ
  pub mask : ℕ

unfoldable pub is_root : Indent → Bool
is_root d = d.depth == 0

unfoldable pub render_depth : Indent → ℕ
render_depth d = min d.depth 32

unfoldable pub width : Indent → ℕ
unfolding render_depth
width d = render_depth d * 2

-- `(mask >> i) & 1 != 0`.
unfoldable pub bit_at : ℕ → ℕ → Bool
bit_at mask i = mask / 2 ^ i % 2 == 1

-- Two blanks, and the UTF-8 bytes of a bar and a blank, of an elbow, and of a tee, each with a dash.
abbrev pub blanks : Bytes
blanks = 0x20 ∷ 0x20 ∷ []

abbrev pub bar : Bytes
bar = 0xe2 ∷ 0x94 ∷ 0x82 ∷ 0x20 ∷ []

abbrev pub elbow : Bytes
elbow = 0xe2 ∷ 0x94 ∷ 0x94 ∷ 0xe2 ∷ 0x94 ∷ 0x80 ∷ []

abbrev pub tee : Bytes
tee = 0xe2 ∷ 0x94 ∷ 0x9c ∷ 0xe2 ∷ 0x94 ∷ 0x80 ∷ []

-- `for i in 0..depth - 1`, by the rounds left.
unfoldable pub bars_loop : ℕ → ℕ → ℕ → Bytes
unfolding bit_at
bars_loop zero i mask = []
bars_loop (suc rounds) i mask =
    (if bit_at mask i then blanks else bar) ++ bars_loop rounds (i + 1) mask

-- Put for Indent.
unfoldable pub put_indent : Indent → Bytes
unfolding render_depth bars_loop bit_at
put_indent d =
    let depth = render_depth d in
    if depth == 0
    then []
    else bars_loop (depth - 1) 0 d.mask ++ (if bit_at d.mask (depth - 1) then elbow else tee)

-- (idx, depth, parent_mask, is_last).
pub record WorkItem : Type 0 where
  pub idx : ℕ
  pub depth : ℕ
  pub parent_mask : ℕ
  pub is_last : Bool

-- `parent_mask | (1u32 << (depth - 1))` for a last child down to depth 32.
unfoldable pub mask_of : WorkItem → ℕ
unfolding bit_at
mask_of item =
    if ltb 0 item.depth && leb item.depth 32 && item.is_last
    then (if bit_at item.parent_mask (item.depth - 1)
        then item.parent_mask
        else item.parent_mask + 2 ^ (item.depth - 1))
    else item.parent_mask

-- The items of a node's children, in order; the last one is marked.
unfoldable pub kid_items : ℕ → ℕ → List ℕ → List WorkItem
kid_items depth mask [] = []
kid_items depth mask (kid ∷ kids) =
    record {
      idx = kid;
      depth = min 255 (depth + 1);
      parent_mask = mask;
      is_last = length kids == 0;
    }
    ∷ kid_items depth mask kids

-- Pushed in reverse, so that the first child is on top.
unfoldable pub push_kids : ℕ → List WorkItem → List WorkItem → List WorkItem
push_kids cap [] stack = stack
push_kids cap (item ∷ items) stack = push_within cap item (push_kids cap items stack)

-- FReserve::push with its result ignored.
abbrev pub emit : ℕ → Indent × ℕ → List (Indent × ℕ) → List (Indent × ℕ)
emit cap x out = if ltb (length out) cap then out ++ x ∷ [] else out

-- The `while` of tree_walk, on fuel.
unfoldable pub walk_loop :
    ℕ → ℕ → FNest ℕ → List WorkItem → List (Indent × ℕ) → Option (List (Indent × ℕ))
unfolding mask_of kid_items push_kids
walk_loop fuel cap children [] out = some out
walk_loop zero cap children (item ∷ stack) out = none
walk_loop (suc fuel) cap children (item ∷ stack) out = bucket children item.idx >>= λ kids.
    walk_loop fuel cap children (push_kids cap (kid_items item.depth (mask_of item) kids) stack)
      (emit cap (record { depth = item.depth; mask = mask_of item }, item.idx) out)

-- `(root_idx, 0, 0, true)`.
abbrev pub root_item : ℕ → WorkItem
root_item i = record { idx = i; depth = 0; parent_mask = 0; is_last = true }

-- tree_walk from a root; each round emits a row, of which there are `cap`.
unfoldable pub tree_walk : ℕ → FNest ℕ → ℕ → List (Indent × ℕ) → Option (List (Indent × ℕ))
unfolding walk_loop
tree_walk cap children root_idx out =
    walk_loop cap cap children (push_within cap (root_item root_idx) []) out

module _ {F : Type 0} where
  -- The rows whose parent is not tracked, from row `i` on.
  unfoldable pub roots_from : List (ℕ × ℕ) → ℕ → List (ProcInfo F) → List ℕ
  roots_from pid_to_idx i [] = []
  roots_from pid_to_idx i (p ∷ procs) =
      let rest = roots_from pid_to_idx (i + 1) procs in
      elim (get pid_to_idx p.ppid) [ none ↦ i ∷ rest | some pa ↦ rest ]

-- The loop of tree_layout over the roots.
unfoldable pub layout_loop : ℕ → FNest ℕ → List ℕ → List (Indent × ℕ) → Option (List (Indent × ℕ))
unfolding tree_walk
layout_loop cap children [] out = some out
layout_loop cap children (root ∷ roots) out =
    tree_walk cap children root out >>= λ out'. layout_loop cap children roots out'

module _ {F : Type 0} where
  unfoldable pub tree_layout : List (ProcInfo F) → Option (List (Indent × ℕ))
  unfolding build_pid_to_idx build_children roots_from layout_loop
  tree_layout procs = do
    pid_to_idx ← build_pid_to_idx procs
    children ← build_children pid_to_idx procs
    layout_loop (length procs) children (roots_from pid_to_idx 0 procs) []
