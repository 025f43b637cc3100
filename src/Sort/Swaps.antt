-- ===== src/Sort/Swaps.antt =====
-- src/sort.rs: the sort changes the slice only by swaps inside its range.
use ltop.Base.{ℕ, zero, suc, ◌+◌, ◌*◌, ◌/◌, ◌<◌, ◌≤◌, inl, inr, Bool-cases, arith, leb, leb→lt}
use ltop.Sort.{larger_child, sift_round, sift_loop, sift_down, heapify, extract, sort_raw}
use ltop.Sort.Rounds.{larger_child_bounds}

-- `t` is `s` after swaps of positions below `n`.
pub data Swaps {S : Type 0} (swap : ℕ → ℕ → S → S) (n : ℕ) (s : S) : S → Type 0 where
  here : Swaps swap n s s
  then_swap : {t : S} (i j : ℕ) → i < n → j < n → Swaps swap n s t → Swaps swap n s (swap i j t)

module _ {S : Type 0} {swap : ℕ → ℕ → S → S} where
  pub Swaps-trans : {n : ℕ} {s t u : S} → Swaps swap n s t → Swaps swap n t u → Swaps swap n s u
  Swaps-trans p here = p
  Swaps-trans p (then_swap i j hi hj q) = then_swap i j hi hj (Swaps-trans p q)

  pub Swaps-mono : {m n : ℕ} {s t : S} → m ≤ n → Swaps swap m s t → Swaps swap n s t
  Swaps-mono h here = here
  Swaps-mono h (then_swap i j hi hj q) = then_swap i j (omega arith) (omega arith) (Swaps-mono h q)

  -- What every swap below `n` keeps, a chain of them keeps.
  pub Swaps-keep :
      (P : S → Type 0) {n : ℕ} {s t : S}
      → ((i j : ℕ) (r : S) → i < n → j < n → P r → P (swap i j r))
      → Swaps swap n s t
      → P s
      → P t
  Swaps-keep P keep here p = p
  Swaps-keep P keep (then_swap i j hi hj q) p = keep i j _ hi hj (Swaps-keep P keep q p)

module _ {S : Type 0} (key : S → ℕ → ℕ) (swap : ℕ → ℕ → S → S) where
  sift_loop-Swaps : (fuel i n : ℕ) (s : S) → Swaps swap n s (sift_loop key swap fuel i n s)
  unfolding sift_loop sift_round
  sift_loop-Swaps zero i n s = here
  sift_loop-Swaps (suc fuel) i n s = elim (Bool-cases (leb n (2 * i + 1))) [
    | inl leaf ↦ rw leaf here
    | inr inner ↦
        let m = larger_child key swap i n s in
        let b = larger_child_bounds key swap i n s (leb→lt n _ inner) in
        let more = sift_loop-Swaps fuel m n (swap i m s) in
        elim (Bool-cases (leb (key s m) (key s i))) [
          | inl ordered ↦ rw (inner, ordered) here
          | inr sinks ↦ rw (inner, sinks) (Swaps-trans (then_swap i m (omega arith) b.1 here) more)
        ]
  ]

  pub sift_down-Swaps : (i n : ℕ) (s : S) → Swaps swap n s (sift_down key swap i n s)
  unfolding sift_down
  sift_down-Swaps i n s = sift_loop-Swaps (suc n) i n s

  heapify-Swaps : (i n : ℕ) (s : S) → Swaps swap n s (heapify key swap i n s)
  unfolding heapify
  heapify-Swaps zero n s = here
  heapify-Swaps (suc i) n s =
      Swaps-trans (sift_down-Swaps i n s) (heapify-Swaps i n (sift_down key swap i n s))

  extract-Swaps : (n : ℕ) (s : S) → Swaps swap n s (extract key swap n s)
  unfolding extract
  extract-Swaps zero s = here
  extract-Swaps (suc zero) s = here
  extract-Swaps (suc (suc n)) s =
      let t = sift_down key swap 0 (suc n) (swap 0 (suc n) s) in
      let below : suc n ≤ suc (suc n) = omega arith in
      let sifted = Swaps-mono below (sift_down-Swaps 0 (suc n) (swap 0 (suc n) s)) in
      Swaps-trans (then_swap 0 (suc n) (omega arith) (omega arith) here)
        (Swaps-trans sifted (Swaps-mono below (extract-Swaps (suc n) t)))

  -- The sort is a chain of swaps of positions below `n`, so it loses and invents no element.
  pub sort_raw-Swaps : (n : ℕ) (s : S) → Swaps swap n s (sort_raw key swap n s)
  unfolding sort_raw
  sort_raw-Swaps n s =
      Swaps-trans (heapify-Swaps (n / 2) n s) (extract-Swaps n (heapify key swap (n / 2) n s))
