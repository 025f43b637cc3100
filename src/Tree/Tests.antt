-- ===== src/Tree/Tests.antt =====
-- src/main.rs, the tree of a small table, and the theorems on it.
use ltop.Base.{ℕ, ◌≡◌, refl, true, false, none, some, List, [], ◌∷◌, arith}
use ltop.Proc.{ProcInfo, build_pid_to_idx, pids_from}
use ltop.Sort.{sort_raw, sift_down, sift_loop, sift_round, heapify, extract, larger_child}
use ltop.Sort.Slice.{sort_slice, swap_at}
use ltop.Map.{
  freeze_map, dedup_in_place, dedup_loop, same_key, get, binary_search_by_key, search_loop,
}
use ltop.Nest.{FNest, nest, bucket, tally_loop, fill_loop, sum_loop, all_full}
use ltop.Filter.{build_children, edges_from}
use ltop.Tree.{Indent, WorkItem, root_item, roots_from, mask_of, kid_items, bit_at, tree_layout}
use ltop.Tree.Walk.{Visits, root_items, tree_layout-Visits}

abbrev row : ℕ → ℕ → ProcInfo ℕ
row pid ppid = record {
  pid = pid;
  ppid = ppid;
  cpu = 0;
  rss_kib = 0;
  age_visible = 0;
  gpu = none;
  display = [];
}

-- 10 has the children 11 and 13, and 11 has the child 12.
abbrev family : List (ProcInfo ℕ)
family = row 10 1 ∷ row 11 10 ∷ row 12 11 ∷ row 13 10 ∷ []

abbrev numbers : List (ℕ × ℕ)
numbers = (10, 0) ∷ (11, 1) ∷ (12, 2) ∷ (13, 3) ∷ []

family-numbers : build_pid_to_idx family ≡ some numbers
unfolding build_pid_to_idx pids_from freeze_map sort_slice sort_raw sift_down sift_loop sift_round
    heapify extract larger_child swap_at dedup_in_place dedup_loop same_key
family-numbers = refl

abbrev kids : FNest ℕ
kids = record { offsets = 0 ∷ 2 ∷ 3 ∷ 3 ∷ 3 ∷ []; items = 1 ∷ 3 ∷ 2 ∷ [] }

family-kids : build_children numbers family ≡ some kids
unfolding build_children edges_from get binary_search_by_key search_loop nest tally_loop fill_loop
    sum_loop all_full
family-kids = refl

abbrev layout : List (Indent × ℕ)
layout =
    (record { depth = 0; mask = 0 }, 0)
    ∷ (record { depth = 1; mask = 0 }, 1)
    ∷ (record { depth = 2; mask = 2 }, 2)
    ∷ (record { depth = 1; mask = 1 }, 3)
    ∷ []

abbrev item : ℕ → ℕ → ℕ → WorkItem
item idx depth mask = record { idx = idx; depth = depth; parent_mask = mask; is_last = true }

family_visit : Visits kids (root_items (roots_from numbers 0 family)) layout
unfolding roots_from get binary_search_by_key search_loop bucket mask_of kid_items bit_at
family_visit =
    Visits.node (root_item 0) (1 ∷ 3 ∷ []) refl
      (Visits.node (record { idx = 1; depth = 1; parent_mask = 0; is_last = false }) (2 ∷ []) refl
        (Visits.node (item 2 2 0) [] refl Visits.done Visits.done)
        (Visits.node (item 3 1 0) [] refl Visits.done Visits.done))
      Visits.done

tree_layout-Visits_example : tree_layout family ≡ some layout
tree_layout-Visits_example =
    tree_layout-Visits family numbers kids layout family-numbers family-kids family_visit
      (omega arith)
