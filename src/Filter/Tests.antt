-- ===== src/Filter/Tests.antt =====
-- src/main.rs, filter_with_children on small tables, with whole numbers in place of the floats.
use ltop.Base.{
  map, ℕ, zero, suc, arith, ◌+◌, ◌-◌, ◌^◌, ◌≡◌, refl, Bool, true, false, none, some, List, [], ◌∷◌,
  ◌>>=◌, leb, if◌then◌else◌,
}
use ltop.Proc.{
  Float32, ProcInfo, visible, set_visible, packed_visible, set_packed_visible, build_pid_to_idx,
  pids_from,
}
use ltop.Sort.{sort_raw, sift_down, sift_loop, sift_round, heapify, extract, larger_child}
use ltop.Sort.Slice.{sort_slice, swap_at}
use ltop.Arena.{arena_size, bump}
use ltop.Map.{
  freeze_map, dedup_in_place, dedup_loop, same_key, get, binary_search_by_key, search_loop,
}
use ltop.Nest.{nest, bucket, tally_loop, fill_loop, sum_loop, all_full}
use ltop.Coalesce.{coalesce_helpers, fold_loop, fold_helper, coalesce_root, climb_loop}
use mathlib.Core.List.{Sublistᴰ}
use ltop.Nest.{FNest}
use ltop.Filter.Queue
use ltop.Filter.Queue.{HasBuckets, Fits, search_rows-Fits}
use ltop.Filter.Total.{AllVisible, filter_with_children_total}
use ltop.Filter.{
  Search, filter_with_children, build_children, edges_from, seed_loop, search_rows, visit,
  visit_kids, visit_kid, judged, retain_loop, in_lockstep, nest_room, reserve_room,
}

-- Hundredths of a percent.
abbrev hundredths : Float32 ℕ
hundredths = record {
  zero = 0;
  add = λ a b. a + b;
  at_least = λ a b. leb b a;
  child_cpu_thresh = 100;
  child_cpu_keep_thresh = 30;
}

abbrev row : ℕ → ℕ → ℕ → Bool → ProcInfo ℕ
row pid ppid cpu shown = record {
  pid = pid;
  ppid = ppid;
  cpu = cpu;
  rss_kib = 1024;
  age_visible = if shown then 2 ^ 31 + 100 else 100;
  gpu = none;
  display = [];
}

-- A hidden row between a visible one and a busy one.
abbrev table : List (ProcInfo ℕ)
table = row 100 1 600 true ∷ row 200 100 0 false ∷ row 300 200 200 false ∷ []

abbrev samples : List (ℕ × ℕ)
samples = (100, 0) ∷ (200, 0) ∷ (300, 0) ∷ []

pids : List (ProcInfo ℕ) → List (ℕ × ℕ)
pids [] = []
pids (p ∷ procs) = (p.pid, p.ppid) ∷ pids procs

filter_table :
    (filter_with_children hundredths 1000 table [] samples >>= λ r. some (pids r.0))
    ≡ some ((100, 1) ∷ (300, 100) ∷ [])
unfolding filter_with_children pids sort_slice sort_raw sift_down sift_loop sift_round heapify
    extract larger_child swap_at freeze_map dedup_in_place dedup_loop same_key get
    binary_search_by_key search_loop nest bucket tally_loop fill_loop sum_loop all_full
    coalesce_helpers fold_loop fold_helper coalesce_root climb_loop build_children edges_from
    seed_loop search_rows visit visit_kids visit_kid judged retain_loop visible set_visible
    packed_visible set_packed_visible build_pid_to_idx pids_from in_lockstep nest_room reserve_room
    bump
filter_table = refl

-- A sample of another process, and an arena with 40 bytes left.
filter_out_of_step :
    filter_with_children hundredths 1000 table [] ((100, 0) ∷ (300, 0) ∷ (200, 0) ∷ []) ≡ none
unfolding filter_with_children in_lockstep
filter_out_of_step = refl

filter_no_room : filter_with_children hundredths (arena_size - 40) table [] samples ≡ none
unfolding filter_with_children in_lockstep nest_room reserve_room bump sort_slice sort_raw sift_down
    sift_loop sift_round heapify extract larger_child swap_at freeze_map dedup_in_place dedup_loop
    same_key build_pid_to_idx pids_from edges_from get binary_search_by_key search_loop
filter_no_room = refl

filter_with_children_total_example :
    (kept : List (ProcInfo ℕ)) × (next' : List (ℕ × ℕ)) × (filter_with_children hundredths 1000
        table [] samples
      ≡ some (kept, next'))
    × AllVisible kept
    × Sublistᴰ (Queue.pids kept) (Queue.pids table)
    × (map (λ e. e.0) next' ≡ map (λ e. e.0) samples)
filter_with_children_total_example =
    filter_with_children_total hundredths 1000 table [] samples refl (omega arith)

-- A row that is its own child, as a pid that is reused may make it.
abbrev cycle : FNest ℕ
cycle = record { offsets = 0 ∷ 1 ∷ []; items = 0 ∷ [] }

cycle-HasBuckets : HasBuckets 1 cycle
unfolding bucket
cycle-HasBuckets zero h = (0 ∷ [], refl, (omega arith, tt))
cycle-HasBuckets (suc i) h = absurd (omega arith)

abbrev one_row : Search ℕ
one_row = record { procs = row 100 100 600 true ∷ []; enqueued = true ∷ []; queue = (0, 0) ∷ [] }

one_row-Fits : Fits 1 1 (100 ∷ []) one_row
one_row-Fits = record {
  rows = refl;
  flags = refl;
  entries = (omega arith, omega arith, tt);
  room = omega arith;
  numbered = refl;
}
