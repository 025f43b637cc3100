-- ===== src/Sort/Tests.antt =====
-- Runs of the sort, and its theorems at concrete inputs.
use mathlib.Core.List.{Perm}
use ltop.Base.{ℕ, ◌≡◌, refl, List, [], ◌∷◌, length}
use ltop.Sort.{sort_raw, sift_round, sift_loop, sift_down, larger_child, heapify, extract}
use ltop.Sort.Sorted.{Ascends}
use ltop.Sort.Slice.{key_at, swap_at, sort_slice, sort_slice_sorts}

abbrev id_key : ℕ → ℕ
id_key n = n

abbrev shuffled : List ℕ
shuffled = 7 ∷ 3 ∷ 9 ∷ 1 ∷ 4 ∷ 1 ∷ 8 ∷ 2 ∷ []

sorts_u32 : sort_slice id_key shuffled ≡ 1 ∷ 1 ∷ 2 ∷ 3 ∷ 4 ∷ 7 ∷ 8 ∷ 9 ∷ []
unfolding sort_slice sort_raw heapify extract sift_down sift_loop sift_round larger_child swap_at
sorts_u32 = refl

sort_slice_sorts_example :
    Perm shuffled (sort_slice id_key shuffled)
    × Ascends (key_at id_key) (length (sort_slice id_key shuffled)) (sort_slice id_key shuffled)
sort_slice_sorts_example = sort_slice_sorts id_key shuffled
