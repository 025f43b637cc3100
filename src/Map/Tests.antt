-- ===== src/Map/Tests.antt =====
-- Runs of the map, and its theorems at concrete inputs.
use native.Mathlib.Nat.{ℕ_set, add_assoc, add_comm}
use ltop.Base.{ℕ, ◌+◌, ◌≡◌, some, List, [], ◌∷◌, ◌>>=◌}
use ltop.Bytes.{has}
use ltop.Map.{freeze_map, freeze_set, get, contains}
use ltop.Map.Freeze.{CanMerge, gather, get-freeze_map, contains-freeze_set}

abbrev entries : List (ℕ × ℕ)
entries = (3, 0) ∷ (1, 10) ∷ (2, 100) ∷ (1, 20) ∷ (3, 7) ∷ (1, 5) ∷ []

abbrev add : ℕ → ℕ → ℕ
add a b = a + b

add-CanMerge : CanMerge add
add-CanMerge = record { is_set = ℕ_set; assoc = add_assoc; comm = add_comm }

get-freeze_map_example :
    (freeze_map add entries >>= λ m. some (get m 1)) ≡ some (gather add 1 entries)
get-freeze_map_example = get-freeze_map add add-CanMerge entries 1

contains-freeze_set_example :
    (freeze_set (5 ∷ 2 ∷ 5 ∷ []) >>= λ s. some (contains s 5)) ≡ some (has (5 ∷ 2 ∷ 5 ∷ []) 5)
contains-freeze_set_example = contains-freeze_set (5 ∷ 2 ∷ 5 ∷ []) 5
