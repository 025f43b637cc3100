-- ===== src/Filter.antt =====
-- src/main.rs, build_children and filter_with_children: which rows are shown. The queue is a list
-- with its last element first; `cap` is the capacity of its FVec, beyond which a push is dropped.
-- `none` is a panic: of an assertion, also of the one that only a dev build has, of an index, or
-- of the arena when it has no room. Of the arena only the bump offset is followed.
pub mod Queue
pub mod Room
pub mod Steps
pub mod Total
mod Tests
use ltop.Base.{
  ℕ, zero, suc, ◌+◌, ◌-◌, ◌*◌, Bool, true, false, ◌&&◌, not, Option, none, some, List, [], ◌∷◌,
  ◌++◌, ltb, ◌==◌, if◌then◌else◌, ◌>>=◌, length, get_elem?, set,
}
use ltop.Map.{get}
use ltop.Arena.{bump}
use ltop.Nest.{FNest, nest, bucket}
use ltop.Proc.{
  Float32, ProcInfo, visible, set_visible, build_pid_to_idx, packed_visible, set_packed_visible,
}
use ltop.Coalesce.{coalesce_helpers}

-- FVec::push with its result ignored.
abbrev pub push_within {ℓ} : {A : Type ℓ} → ℕ → A → List A → List A
push_within cap x queue = if ltb (length queue) cap then x ∷ queue else queue

-- The bump offset behind a reservation.
unfoldable pub reserve_room : ℕ → ℕ → ℕ → Option ℕ
reserve_room offset size align = bump offset size align >>= λ (start, end). some end

-- The arrays of nest for `n` buckets and `pairs` pairs of u32: offsets, data, and the cursors,
-- which are given back. A span whose elements are reserved in turn is one reservation here.
unfoldable pub nest_room : ℕ → ℕ → ℕ → Option ℕ
nest_room offset n pairs = do
  offset ← reserve_room offset (4 * (n + 1)) 4
  offset ← reserve_room offset (4 * pairs) 4
  cursors_end ← reserve_room offset (4 * n) 4
  some offset

-- The state of the search: the rows, the enqueue-once guard, and the queue, whose entries are a
-- row and the last visible ancestor on the path to it.
pub record Search (F : Type 0) : Type 0 where
  pub procs : List (ProcInfo F)
  pub enqueued : List Bool
  pub queue : List (ℕ × ℕ)

module _ {F : Type 0} where
  -- The pairs of build_children, from number `i` on: parent and child.
  unfoldable pub edges_from : List (ℕ × ℕ) → ℕ → List (ProcInfo F) → List (ℕ × ℕ)
  edges_from pid_to_idx i [] = []
  edges_from pid_to_idx i (p ∷ procs) =
      let rest = edges_from pid_to_idx (i + 1) procs in
      elim (get pid_to_idx p.ppid) [ none ↦ rest | some pa ↦ (pa, i) ∷ rest ]

  unfoldable pub build_children : List (ℕ × ℕ) → List (ProcInfo F) → Option (FNest ℕ)
  unfolding edges_from nest
  build_children pid_to_idx procs = nest 0 (length procs) (edges_from pid_to_idx 0 procs)

  -- The guard and the queue at the start, from row `i` on.
  unfoldable pub seed_loop : ℕ → ℕ → List (ProcInfo F) → List (ℕ × ℕ) → List Bool × List (ℕ × ℕ)
  unfolding visible
  seed_loop cap i [] queue = ([], queue)
  seed_loop cap i (p ∷ procs) queue =
      let queue' = if visible p then push_within cap (i, i) queue else queue in
      let (flags, final) = seed_loop cap (i + 1) procs queue' in (visible p ∷ flags, final)

  -- What a kid becomes under the threshold that its past picks, and under its parent's state.
  unfoldable pub judged : Float32 F → List (ℕ × ℕ) → Bool → ℕ → ProcInfo F → ProcInfo F
  unfolding visible set_visible packed_visible
  judged f prev i_visible last_vis_pid k =
      let was_visible : Bool = elim (get prev k.pid) [ none ↦ false | some p ↦ packed_visible p ] in
      let thresh = if was_visible then f.child_cpu_keep_thresh else f.child_cpu_thresh in
      let k' = if f.at_least k.cpu thresh then set_visible k true else k in
      if visible k' && not i_visible then record k' { ppid = last_vis_pid } else k'

  -- The body of the loop over the children.
  unfoldable pub visit_kid :
      Float32 F → List (ℕ × ℕ) → ℕ → Bool → ℕ → ℕ → ℕ → Search F → Option (Search F)
  unfolding judged visible
  visit_kid f prev cap i_visible last_vis last_vis_pid kid s = do
    k ← get_elem? s.procs kid
    seen ← get_elem? s.enqueued kid
    let k' = judged f prev i_visible last_vis_pid k
    let new_last = if visible k' then kid else last_vis
    let procs' = set s.procs kid k'
    some (
        if seen then record s { procs = procs' } else record {
          procs = procs';
          enqueued = set s.enqueued kid true;
          queue = push_within cap (kid, new_last) s.queue;
        })

  unfoldable pub visit_kids :
      Float32 F → List (ℕ × ℕ) → ℕ → Bool → ℕ → ℕ → List ℕ → Search F → Option (Search F)
  unfolding visit_kid
  visit_kids f prev cap i_visible last_vis last_vis_pid [] s = some s
  visit_kids f prev cap i_visible last_vis last_vis_pid (kid ∷ kids) s =
      visit_kid f prev cap i_visible last_vis last_vis_pid kid s >>= λ s'.
      visit_kids f prev cap i_visible last_vis last_vis_pid kids s'

  -- A round of the `while`, for the entry that was popped.
  unfoldable pub visit :
      Float32 F → List (ℕ × ℕ) → FNest ℕ → ℕ → ℕ → ℕ → Search F → Option (Search F)
  unfolding visit_kids visible
  visit f prev children cap i last_vis s = do
    p ← get_elem? s.procs i
    last ← get_elem? s.procs last_vis
    kids ← bucket children i
    visit_kids f prev cap (visible p) last_vis last.pid kids s

  -- The `while`, on fuel.
  unfoldable pub search_rows :
      ℕ → Float32 F → List (ℕ × ℕ) → FNest ℕ → ℕ → Search F → Option (Search F)
  unfolding visit
  search_rows zero f prev children cap s = none
  search_rows (suc fuel) f prev children cap s = elim s.queue [
    | [] ↦ some s
    | (i, last_vis) ∷ queue ↦
        visit f prev children cap i last_vis (record s { queue = queue }) >>= λ s'.
        search_rows fuel f prev children cap s'
  ]

  -- retain_in_place, and `next[i]` alongside.
  unfoldable pub retain_loop :
      List (ProcInfo F) → List (ℕ × ℕ) → Option (List (ProcInfo F) × List (ℕ × ℕ))
  unfolding visible set_packed_visible
  retain_loop [] next = some ([], next)
  retain_loop (p ∷ procs) [] = if visible p then none else (retain_loop procs [] >>= λ r. some r)
  retain_loop (p ∷ procs) ((pid, packed) ∷ next) = do
    (kept, rest) ← retain_loop procs next
    let entry = if visible p then (pid, set_packed_visible packed) else (pid, packed)
    some (if visible p then p ∷ kept else kept, entry ∷ rest)

  -- The assertion in front: as many rows as samples, with the same pids.
  unfoldable pub in_lockstep : List (ProcInfo F) → List (ℕ × ℕ) → Bool
  in_lockstep [] [] = true
  in_lockstep [] (entry ∷ next) = false
  in_lockstep (p ∷ procs) [] = false
  in_lockstep (p ∷ procs) ((pid, packed) ∷ next) = (p.pid == pid) && in_lockstep procs next

  -- `offset` is the bump offset of the arena at the start of the scope; a pair of u32 has 8 bytes.
  unfoldable pub filter_with_children :
      Float32 F
      → ℕ
      → List (ProcInfo F)
      → List (ℕ × ℕ)
      → List (ℕ × ℕ)
      → Option (List (ProcInfo F) × List (ℕ × ℕ))
  filter_with_children f offset procs prev next = do
    let n = length procs
    passed ← if in_lockstep procs next then some true else none
    offset ← reserve_room offset (8 * n) 4
    pid_to_idx ← build_pid_to_idx procs
    offset ← nest_room offset n (length (edges_from pid_to_idx 0 procs))
    children ← build_children pid_to_idx procs
    folded ← coalesce_helpers f pid_to_idx procs
    offset ← reserve_room offset (8 * n) 4
    offset ← reserve_room offset n 1
    let (flags, queue) = seed_loop n 0 folded []
    s ←
        search_rows (n + 1) f prev children n
          (record { procs = folded; enqueued = flags; queue = queue })
    retain_loop s.procs next
