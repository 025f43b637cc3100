-- ===== src/Filter/Total.antt =====
-- src/main.rs, filter_with_children: with room in the arena and samples in step it ends, and what it
-- keeps are visible rows in their order.
use mathlib.Core.List.{Sublistᴰ}
use mathlib.Core.Path.{subst}
use ltop.Base.{
  ℕ, ◌+◌, ◌*◌, ◌<◌, ◌≤◌, ◌≡◌, refl, sym, ap, ◌∙◌, arith, true, map, some, List, [], ◌∷◌, ◌==◌,
  length, Bool-cases, Option-cases, inl, inr,
}
use ltop.Arena.{arena_size}
use ltop.Map.{get}
use ltop.Map.Values.{all_below, freeze_map-first}
use ltop.Nest.{FNest}
use ltop.Nest.Tally.{values, AllBelow}
use ltop.Nest.Buckets.{bucket-nest}
use ltop.Proc.{Float32, ProcInfo, visible, pids_from, build_pid_to_idx, set_packed_visible}
use ltop.Coalesce.Totals.{InRange, names, coalesce_helpers-Kept}
use ltop.Coalesce.{coalesce_helpers}
use ltop.Filter.{search_rows, Search, edges_from, build_children, retain_loop, filter_with_children}
use ltop.Filter.Steps.{seeded, filter_with_children_steps}
use ltop.Filter.Room.{filter_room_fits, length-edges_from, in_lockstep-pids}
use ltop.Filter.Queue.{pids, KidsBelow, HasBuckets, Fits, search_rows-Fits, seed_loop-Fits}

-- Every value of a pair list is below `n`.
abbrev ValuesBelow : ℕ → List (ℕ × ℕ) → Type 0
ValuesBelow n [] = Unit {0}
ValuesBelow n ((j, v) ∷ pairs) = (v < n) × ValuesBelow n pairs

ValuesBelow-KidsBelow :
    (n b : ℕ) (pairs : List (ℕ × ℕ)) → ValuesBelow n pairs → KidsBelow n (values b pairs)
ValuesBelow-KidsBelow n b [] h = tt
ValuesBelow-KidsBelow n b ((j, v) ∷ pairs) (low, h) = elim (Bool-cases (j == b)) [
  | inl same ↦ rw same (low, ValuesBelow-KidsBelow n b pairs h)
  | inr other ↦ rw other (ValuesBelow-KidsBelow n b pairs h)
]

module _ {F : Type 0} where
  pids_from_below :
      (n i : ℕ) (procs : List (ProcInfo F))
      → i + length procs ≤ n
      → all_below n (pids_from i procs) ≡ true
  unfolding pids_from
  pids_from_below n i [] h = refl
  pids_from_below n i (p ∷ procs) h = ground (arith, pids_from_below n (i + 1) procs)

  -- The map from pids to rows is built, and its values number rows.
  build_pid_to_idx-InRange :
      (procs : List (ProcInfo F))
      → (m : List (ℕ × ℕ)) × (build_pid_to_idx procs ≡ some m) × InRange (length procs) m
  unfolding build_pid_to_idx
  build_pid_to_idx-InRange procs =
      freeze_map-first (length procs) (pids_from 0 procs)
        (pids_from_below (length procs) 0 procs (omega arith))

  edges_from_below :
      (n : ℕ) (m : List (ℕ × ℕ)) (i : ℕ) (procs : List (ProcInfo F))
      → InRange n m
      → i + length procs ≤ n
      → AllBelow n (edges_from m i procs) × ValuesBelow n (edges_from m i procs)
  unfolding edges_from
  edges_from_below n m i [] range h = (tt, tt)
  edges_from_below n m i (p ∷ procs) range h =
      let (keys, vals) = edges_from_below n m (i + 1) procs range (omega arith) in
      elim (Option-cases (get m p.ppid)) [
        | inl root ↦ rw (root, edges_from) (keys, vals)
        | inr (pa, child) ↦
            rw (child, edges_from) ((range p.ppid pa child, keys), (omega arith, vals))
      ]

  build_children-HasBuckets :
      (m : List (ℕ × ℕ)) (procs : List (ProcInfo F))
      → InRange (length procs) m
      → (children : FNest ℕ) × (build_children m procs ≡ some children)
        × HasBuckets (length procs) children
  unfolding build_children
  build_children-HasBuckets m procs range =
      let (keys, vals) = edges_from_below (length procs) m 0 procs range (omega arith) in
      let (children, built, buckets) = bucket-nest 0 (length procs) (edges_from m 0 procs) keys in
      (
        children,
        built,
        λ i h. (
          values i (edges_from m 0 procs),
          buckets i h,
          ValuesBelow-KidsBelow (length procs) i (edges_from m 0 procs) vals,
        ),
      )

  pids_of_names : (procs : List (ProcInfo F)) → pids procs ≡ map (λ t. t.0) (names procs)
  pids_of_names [] = refl
  pids_of_names (p ∷ procs) = ap (λ t. p.pid ∷ t) (pids_of_names procs)

  names-pids :
      (procs procs' : List (ProcInfo F)) → names procs' ≡ names procs → pids procs' ≡ pids procs
  names-pids procs procs' h =
      pids_of_names procs' ∙ (ap (map (λ t. t.0)) h ∙ sym (pids_of_names procs))

  -- Every row is visible.
  abbrev pub AllVisible : List (ProcInfo F) → Type 0
  AllVisible [] = Unit {0}
  AllVisible (p ∷ procs) = (visible p ≡ true) × AllVisible procs

  retain_loop_total :
      (procs : List (ProcInfo F)) (next : List (ℕ × ℕ))
      → length procs ≤ length next
      → (kept : List (ProcInfo F)) × (next' : List (ℕ × ℕ)) × (retain_loop procs next
          ≡ some (kept, next'))
        × AllVisible kept
        × Sublistᴰ (pids kept) (pids procs)
        × (map (λ e. e.0) next' ≡ map (λ e. e.0) next)
  unfolding retain_loop
  retain_loop_total [] next h = ([], next, refl, tt, Sublistᴰ.slnil, refl)
  retain_loop_total (p ∷ procs) [] h = absurd (omega arith)
  retain_loop_total (p ∷ procs) ((pid, packed) ∷ next) h =
      let (kept, next', ran, shown, sub, same) = retain_loop_total procs next (omega arith) in
      elim (Bool-cases (visible p)) [
        | inl yes_visible ↦ (
          p ∷ kept,
          (pid, set_packed_visible packed) ∷ next',
          rw (ran, yes_visible),
          (yes_visible, shown),
          Sublistᴰ.cons-cons refl sub,
          ap (◌∷◌ pid) same,
        )
        | inr hidden ↦ (
          kept,
          (pid, packed) ∷ next',
          rw (ran, hidden),
          shown,
          Sublistᴰ.cons sub,
          ap (◌∷◌ pid) same,
        )
      ]

  -- The search of a table ends, and keeps the rows and their pids.
  folded_search :
      (f : Float32 F) (procs : List (ProcInfo F)) (prev next m : List (ℕ × ℕ)) (children : FNest ℕ)
      → InRange (length procs) m
      → HasBuckets (length procs) children
      → (folded : List (ProcInfo F)) × (s : Search F) × (coalesce_helpers f m procs ≡ some folded)
        × (search_rows
              (length procs + 1)
              f
              prev
              children
              (length procs)
              (seeded f procs prev next folded)
            ≡ some s)
        × (length s.procs ≡ length procs)
        × (pids s.procs ≡ pids procs)
  folded_search f procs prev next m children range buckets =
      let n = length procs in
      let (folded, coalesced, same) = coalesce_helpers-Kept f m procs range in
      let (sized, entries, all) = seed_loop-Fits n 0 folded [] (omega (arith, same.rows)) tt in
      let all_rows : 0 + length folded ≡ n = omega (arith, same.rows) in
      let start_Fits : Fits n n (pids procs) (seeded f procs prev next folded) = record {
        rows = same.rows;
        flags = sized ∙ same.rows;
        entries = rw all_rows at entries;
        room = omega (arith, same.rows);
        numbered = names-pids procs folded same.named;
      } in
      let (s, searched, empty, v) =
        search_rows-Fits f prev n n (pids procs) (n + 1) children (seeded f procs prev next folded)
          buckets start_Fits (omega (arith, same.rows)) in
      (folded, s, coalesced, searched, v.rows, v.numbered)

  -- If the rows and the samples have the same pids in the same order, and from the bump offset
  -- on the arena has 25 bytes for each row and 16 more, then, whatever the parents are,
  -- cycles included, filter_with_children ends without a panic; every row that it keeps is
  -- visible, the pids of the kept rows are a sublist of the pids of the table, and the
  -- samples keep their pids and their order.
  pub filter_with_children_total :
      (f : Float32 F) (offset : ℕ) (procs : List (ProcInfo F)) (prev next : List (ℕ × ℕ))
      → pids procs ≡ map (λ e. e.0) next
      → offset + 25 * length procs + 16 ≤ arena_size
      → (kept : List (ProcInfo F)) × (next' : List (ℕ × ℕ)) × (filter_with_children f offset procs
            prev next
          ≡ some (kept, next'))
        × AllVisible kept
        × Sublistᴰ (pids kept) (pids procs)
        × (map (λ e. e.0) next' ≡ map (λ e. e.0) next)
  filter_with_children_total f offset procs prev next named space =
      let (passed, h) = in_lockstep-pids procs next named in
      let (m, mapped, range) = build_pid_to_idx-InRange procs in
      let (at_map, at_nest, at_queue, at_flags, map_room, children_room, queue_room, flags_room) =
        filter_room_fits offset (length procs) (length (edges_from m 0 procs))
          (length-edges_from m 0 procs) space in
      let (children, built, buckets) = build_children-HasBuckets m procs range in
      let (folded, s, coalesced, searched, rows, numbered) =
        folded_search f procs prev next m children range buckets in
      let (kept, next', ran, shown, sub, same) =
        retain_loop_total s.procs next (omega (arith, rows)) in
      (
        kept,
        next',
        filter_with_children_steps f procs prev next offset at_map at_nest at_queue at_flags m
            children folded s (kept, next') passed map_room mapped children_room built coalesced
            queue_room flags_room searched ran,
        shown,
        subst (Sublistᴰ (pids kept)) numbered sub,
        same,
      )
