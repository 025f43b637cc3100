-- ===== src/Arena/Tests.antt =====
-- src/arena.rs: runs of the allocator and of the compaction, and the theorems at concrete inputs.
use ltop.Base.{ℕ, ◌+◌, ◌-◌, ◌≤◌, ◌≡◌, refl, Bool, none, some, List, [], ◌∷◌, ltb, arith}
use ltop.Arena.{arena_size, bump, bump_all}
use ltop.Arena.Bump.{Placed, bump_all-Placed}

abbrev requests : List (ℕ × ℕ)
requests = (3, 1) ∷ (8, 4) ∷ (16, 8) ∷ []

bump_requests : bump_all 1 requests ≡ some ((1, 4) ∷ (4, 12) ∷ (16, 32) ∷ [], 32)
unfolding bump_all
bump_requests = refl

bump_too_much : bump (arena_size - 2) 4 1 ≡ none
unfolding bump
bump_too_much = refl

bump_all-Placed_example :
    Placed 1 requests ((1, 4) ∷ (4, 12) ∷ (16, 32) ∷ []) 32 × (32 ≤ arena_size)
bump_all-Placed_example =
    bump_all-Placed 1 requests ((1, 4) ∷ (4, 12) ∷ (16, 32) ∷ []) 32
      (omega arith, (omega arith, (omega arith, tt))) (omega arith) bump_requests

-- Keeps what is above 2, one greater.
abbrev above_two : ℕ → Bool × ℕ
above_two x = (ltb 2 x, x + 1)
