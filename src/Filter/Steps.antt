-- ===== src/Filter/Steps.antt =====
-- src/main.rs, filter_with_children: the steps of a run that succeeds.
use ltop.Base.{ℕ, ◌+◌, ◌*◌, ◌≡◌, true, some, List, [], length}
use ltop.Nest.{FNest}
use ltop.Proc.{Float32, ProcInfo, build_pid_to_idx}
use ltop.Coalesce.{coalesce_helpers}
use ltop.Filter.{
  Search, reserve_room, nest_room, in_lockstep, edges_from, build_children, seed_loop, search_rows,
  retain_loop, filter_with_children,
}

module _ {F : Type 0} (f : Float32 F) (procs : List (ProcInfo F)) (prev next : List (ℕ × ℕ)) where
  -- The search starts with the rows that are folded.
  abbrev pub seeded : List (ProcInfo F) → Search F
  seeded folded = record {
    procs = folded;
    enqueued = (seed_loop (length procs) 0 folded []).0;
    queue = (seed_loop (length procs) 0 folded []).1;
  }

  pub filter_with_children_steps :
      (offset at_map at_nest at_queue at_flags : ℕ) (m : List (ℕ × ℕ)) (children : FNest ℕ)
      (folded : List (ProcInfo F)) (s : Search F) (result : List (ProcInfo F) × List (ℕ × ℕ))
      → in_lockstep procs next ≡ true
      → reserve_room offset (8 * length procs) 4 ≡ some at_map
      → build_pid_to_idx procs ≡ some m
      → nest_room at_map (length procs) (length (edges_from m 0 procs)) ≡ some at_nest
      → build_children m procs ≡ some children
      → coalesce_helpers f m procs ≡ some folded
      → reserve_room at_nest (8 * length procs) 4 ≡ some at_queue
      → reserve_room at_queue (length procs) 1 ≡ some at_flags
      → search_rows (length procs + 1) f prev children (length procs) (seeded folded) ≡ some s
      → retain_loop s.procs next ≡ some result
      → filter_with_children f offset procs prev next ≡ some result
  unfolding filter_with_children
  filter_with_children_steps offset at_map at_nest at_queue at_flags m children folded s result
        passed map_room mapped nest_room built coalesced queue_room flags_room searched ran =
      rw (passed, map_room, mapped, nest_room, built, coalesced, queue_room, flags_room, searched)
        ran
