-- ===== src/Tree/Walk.antt =====
-- src/main.rs, tree_walk and tree_layout: the loop with its stack emits what the recursive visit
-- emits, in its order.
use mathlib.Core.Path.{subst}
use ltop.Base.{
  ℕ, suc, ◌+◌, ◌-◌, ◌≤◌, ◌≡◌, refl, sym, ap, ◌∙◌, arith, true, some, List, [], ◌∷◌, ◌++◌,
  append_assoc, append-nil, ltb, length, length-append,
}
use ltop.Nest.{FNest, bucket}
use ltop.Filter.{build_children}
use ltop.Tree.{
  Indent, WorkItem, mask_of, kid_items, push_kids, emit, walk_loop, root_item, tree_walk,
  layout_loop, tree_layout, roots_from,
}
use ltop.Proc.{ProcInfo, build_pid_to_idx}

-- The recursive visit of a list of items: an item, then its children, then the items behind it.
pub data Visits (children : FNest ℕ) : List WorkItem → List (Indent × ℕ) → Type 0 where
  done : Visits children [] []
  node :
      {items : List WorkItem} {below behind : List (Indent × ℕ)} (item : WorkItem) (kids : List ℕ)
      → bucket children item.idx ≡ some kids
      → Visits children (kid_items item.depth (mask_of item) kids) below
      → Visits children items behind
      → Visits children
          (item ∷ items)
          ((record { depth = item.depth; mask = mask_of item }, item.idx) ∷ (below ++ behind))

abbrev pub root_items : List ℕ → List WorkItem
root_items [] = []
root_items (root ∷ roots) = root_item root ∷ root_items roots

module _ (children : FNest ℕ) (cap : ℕ) where
  Visits-rows :
      {items : List WorkItem} {out : List (Indent × ℕ)}
      → Visits children items out
      → length items ≤ length out
  Visits-rows done = omega arith
  Visits-rows (node {items} {below} {behind} item kids found v w) =
      omega (arith, Visits-rows w, length-append below behind)

  push_kids-append :
      (items stack : List WorkItem)
      → length items + length stack ≤ cap
      → push_kids cap items stack ≡ items ++ stack
  unfolding push_kids
  push_kids-append [] stack h = refl
  push_kids-append (item ∷ items) stack h =
      let free : ltb (length (items ++ stack)) cap ≡ true =
        ground (arith, length-append items stack) in
      rw (push_kids-append items stack (omega arith), free)

  walk_loop_step :
      (fuel : ℕ) (stack : List WorkItem) (out : List (Indent × ℕ)) (item : WorkItem) (kids : List ℕ)
      → bucket children item.idx ≡ some kids
      → walk_loop (suc fuel) cap children (item ∷ stack) out
        ≡ walk_loop fuel cap children
            (push_kids cap (kid_items item.depth (mask_of item) kids) stack)
            (emit cap (record { depth = item.depth; mask = mask_of item }, item.idx) out)
  unfolding walk_loop
  walk_loop_step fuel stack out item kids found = rw found

  -- The loop emits the visit of the items on top, and goes on with the stack below them.
  walk_loop-Visits :
      (fuel : ℕ) (stack : List WorkItem) (out : List (Indent × ℕ)) {items : List WorkItem}
      {new : List (Indent × ℕ)}
      → Visits children items new
      → length out + length new ≤ cap
      → length stack + length new ≤ cap
      → walk_loop (length new + fuel) cap children (items ++ stack) out
        ≡ walk_loop fuel cap children stack (out ++ new)
  walk_loop-Visits fuel stack out done room space =
      let e : 0 + fuel ≡ fuel = omega arith in rw (e, append-nil out)
  walk_loop-Visits fuel stack out (node {items} {below} {behind} item kids found v w) room space =
      let here : Indent × ℕ = (record { depth = item.depth; mask = mask_of item }, item.idx) in
      let inner = kid_items item.depth (mask_of item) kids in
      let stack' = items ++ stack in
      let both = length-append below behind in
      let deep = Visits-rows v in
      let wide = Visits-rows w in
      let rest_size = length-append items stack in
      let out_size = length-append out (here ∷ []) in
      let more_size = length-append (out ++ here ∷ []) below in
      let steps : suc (length (below ++ behind)) + fuel
          ≡ suc (length below + (length behind + fuel)) =
        omega arith in
      let free : ltb (length out) cap ≡ true = ground arith in
      let pushed = push_kids-append inner (items ++ stack) (omega arith) in
      let under =
        walk_loop-Visits (length behind + fuel) (items ++ stack) (out ++ here ∷ []) v (omega arith)
          (omega arith) in
      let after =
        walk_loop-Visits fuel stack ((out ++ here ∷ []) ++ below) w (omega arith) (omega arith) in
      let joined : ((out ++ here ∷ []) ++ below) ++ behind ≡ out ++ here ∷ (below ++ behind) =
        append_assoc (out ++ here ∷ []) below behind
        ∙ append_assoc out (here ∷ []) (below ++ behind) in
      rw steps (
        walk_loop_step (length below + (length behind + fuel)) stack' out item kids found
        ∙ rw (free, pushed) (under ∙ (after ∙ ap (walk_loop fuel cap children stack) joined)))

  -- One root, with nothing on the stack.
  tree_walk-Visits :
      (root : ℕ) (out new : List (Indent × ℕ))
      → Visits children (root_item root ∷ []) new
      → length out + length new ≤ cap
      → tree_walk cap children root out ≡ some (out ++ new)
  unfolding tree_walk
  tree_walk-Visits root out new v room =
      let rows = Visits-rows v in
      let free : ltb 0 cap ≡ true = ground arith in
      let plain : length new + (cap - length new) ≡ cap = omega arith in
      rw free (rw plain at (walk_loop-Visits (cap - length new) [] out v room (omega arith)))

  -- The visit of a list of roots is that of the first and that of the others.
  layout_loop-Visits :
      (roots : List ℕ) (out : List (Indent × ℕ)) {items : List WorkItem} {new : List (Indent × ℕ)}
      → Visits children items new
      → items ≡ root_items roots
      → length out + length new ≤ cap
      → layout_loop cap children roots out ≡ some (out ++ new)
  unfolding layout_loop
  layout_loop-Visits [] out done is_roots room = ap some (sym (append-nil out))
  layout_loop-Visits [] out (node item kids found v w) is_roots room = cc
  layout_loop-Visits (root ∷ roots) out done is_roots room = cc
  layout_loop-Visits (root ∷ roots) out (node {items} {below} {behind} item kids found v w) is_roots
        room =
      let here : Indent × ℕ = (record { depth = item.depth; mask = mask_of item }, item.idx) in
      let first : item ≡ root_item root = cc in
      let others : items ≡ root_items roots = cc in
      let sizes = length-append below behind in
      let alone = append-nil below in
      let tree : Visits children (root_item root ∷ []) (here ∷ (below ++ [])) =
        subst (λ x. Visits children (x ∷ []) (here ∷ (below ++ []))) first
          (node item kids found v done) in
      let walked = tree_walk-Visits root out (here ∷ below) (rw alone at tree) (omega arith) in
      let out_size = length-append out (here ∷ below) in
      let rest = layout_loop-Visits roots (out ++ here ∷ below) w others (omega arith) in
      rw walked (rest ∙ ap some (append_assoc out (here ∷ below) behind))

-- If the recursive pre-order visit from the rows whose parent is not tracked ends with no more
-- rows than the table has, then tree_layout, with its stack and its result of one slot for
-- each row, returns what that visit emits, in its order and with its masks.
pub tree_layout-Visits :
    {F : Type 0} (procs : List (ProcInfo F)) (m : List (ℕ × ℕ)) (children : FNest ℕ)
    (out : List (Indent × ℕ))
    → build_pid_to_idx procs ≡ some m
    → build_children m procs ≡ some children
    → Visits children (root_items (roots_from m 0 procs)) out
    → length out ≤ length procs
    → tree_layout procs ≡ some out
unfolding tree_layout
tree_layout-Visits procs m children out mapped built v room =
    rw (mapped, built)
      (layout_loop-Visits children (length procs) (roots_from m 0 procs) [] v refl (omega arith))
