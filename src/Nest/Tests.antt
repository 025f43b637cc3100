-- ===== src/Nest/Tests.antt =====
-- src/arena.rs: FNest on small inputs.
use ltop.Base.{ℕ, ◌<◌, arith, ◌≡◌, refl, none, some, List, [], ◌∷◌, ◌>>=◌}
use ltop.Nest.Tally.{values}
use ltop.Nest.Buckets.{bucket-nest}
use ltop.Nest.{FNest, nest, bucket, tally_loop, fill_loop, sum_loop, all_full}

abbrev pairs : List (ℕ × ℕ)
pairs = (2, 10) ∷ (0, 11) ∷ (2, 12) ∷ (1, 13) ∷ []

bucket_two : (nest 0 4 pairs >>= λ f. bucket f 2) ≡ some (10 ∷ 12 ∷ [])
unfolding nest bucket tally_loop fill_loop sum_loop all_full
bucket_two = refl

bucket_three : (nest 0 4 pairs >>= λ f. bucket f 3) ≡ some []
unfolding nest bucket tally_loop fill_loop sum_loop all_full
bucket_three = refl

nest_out_of_range : nest 0 2 pairs ≡ none
unfolding nest bucket tally_loop fill_loop sum_loop all_full
nest_out_of_range = refl

bucket-nest_example :
    (f : FNest ℕ) × (nest 0 4 pairs ≡ some f)
    × ((b : ℕ) → b < 4 → bucket f b ≡ some (values b pairs))
bucket-nest_example = bucket-nest 0 4 pairs (omega arith)
