-- ===== src/Sort/Rounds.antt =====
-- src/sort.rs, the loop of sift_down: the fuel of the model never runs out.
use ltop.Base.{ℕ, zero, suc, ◌+◌, ◌*◌, ◌<◌, ◌≡◌, refl, arith}
use ltop.Sort.{larger_child, sift_round, sift_loop, sift_down}

module _ {S : Type 0} (key : S → ℕ → ℕ) (swap : ℕ → ℕ → S → S) where
  pub larger_child_bounds :
      (i n : ℕ) (s : S)
      → 2 * i + 1 < n
      → (i < larger_child key swap i n s) × (larger_child key swap i n s < n)
  unfolding larger_child
  larger_child_bounds i n s h = ground arith

  -- Two continuations that agree below the children of `i` give the same round.
  sift_round_cong :
      (f g : ℕ → S → S) (i n : ℕ) (s : S)
      → ((m : ℕ) (t : S) → i < m → m < n → f m t ≡ g m t)
      → sift_round key swap f i n s ≡ sift_round key swap g i n s
  unfolding sift_round
  sift_round_cong f g i n s h =
      let m = larger_child key swap i n s in
      ground (arith, larger_child_bounds i n s, h m (swap i m s))

  sift_loop_fuel :
      (f g i n : ℕ) (s : S)
      → n < f + i
      → n < g + i
      → sift_loop key swap f i n s ≡ sift_loop key swap g i n s
  unfolding sift_loop
  sift_loop_fuel zero zero i n s hf hg = refl
  sift_loop_fuel zero (suc g) i n s hf hg = unfold sift_round in ground arith
  sift_loop_fuel (suc f) zero i n s hf hg = unfold sift_round in ground arith
  sift_loop_fuel (suc f) (suc g) i n s hf hg =
      sift_round_cong _ _ i n s
        (λ m t low high. sift_loop_fuel f g m n t (omega arith) (omega arith))

  -- sift_down is the loop of the source round by round: it makes one round and goes on with
  -- sift_down itself, so its fuel never runs out.
  pub sift_down-sift_round :
      (i n : ℕ) (s : S)
      → sift_down key swap i n s ≡ sift_round key swap (λ m t. sift_down key swap m n t) i n s
  unfolding sift_down sift_loop
  sift_down-sift_round i n s =
      sift_round_cong _ _ i n s
        (λ m t low high. sift_loop_fuel n (suc n) m n t (omega arith) (omega arith))
