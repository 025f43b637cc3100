-- ===== src/Map/Values.antt =====
-- src/map.rs: with a merge closure that keeps the left value, get answers a value of the entries.
use mathlib.Core.List.{Permᴰ}
use mathlib.Core.Logic.{∥∥₁_elim}
use mathlib.Core.Bool.{Bool-set}
use mathlib.Core.Path.{ap₂}
use ltop.Base.{
  ℕ, suc, zero, ◌<◌, ◌≡◌, refl, sym, ap, ◌∙◌, arith, Bool, true, ◌&&◌, none, some, List, [], ◌∷◌,
  ◌==◌, ltb, if◌then◌else◌, ◌>>=◌, Option-cases, inl, inr, get_elem?, length,
}
use ltop.Sort.Slice.{sort_slice, sort_slice_sorts}
use ltop.Map.{same_key, freeze_map, get, binary_search_by_key, search_loop}
use ltop.Map.Dedup.{compact, dedup, dedup_in_place-dedup}

abbrev first : ℕ → ℕ → ℕ
first a b = a

-- Every value is below `n`.
abbrev pub all_below : ℕ → List (ℕ × ℕ) → Bool
all_below n [] = true
all_below n ((k, v) ∷ xs) = ltb v n && all_below n xs

all_below-Permᴰ : (n : ℕ) {xs ys : List (ℕ × ℕ)} → Permᴰ xs ys → all_below n xs ≡ all_below n ys
all_below-Permᴰ n Permᴰ.nil = refl
all_below-Permᴰ n (Permᴰ.cons {a} {b} {l₁} {l₂} e p) =
    ap (λ x. all_below n (x ∷ l₁)) e ∙ ap (λ t. ltb b.1 n && t) (all_below-Permᴰ n p)
all_below-Permᴰ n (Permᴰ.swap {a} {b} {a'} {b'} {l} e f) =
    ap₂ (λ x y. all_below n (x ∷ y ∷ l)) e f ∙ ground arith
all_below-Permᴰ n (Permᴰ.trans p q) = all_below-Permᴰ n p ∙ all_below-Permᴰ n q

all_below-compact :
    (n : ℕ) (e : ℕ × ℕ) (xs : List (ℕ × ℕ))
    → all_below n (e ∷ xs) ≡ true
    → all_below n (compact (same_key first) e xs) ≡ true
unfolding compact same_key
all_below-compact n (i, u) [] h = h
all_below-compact n (i, u) ((j, v) ∷ xs) h =
    ground (arith, all_below-compact n (i, u) xs, all_below-compact n (j, v) xs)

all_below-dedup :
    (n : ℕ) (xs : List (ℕ × ℕ))
    → all_below n xs ≡ true
    → all_below n (dedup (same_key first) xs) ≡ true
unfolding dedup
all_below-dedup n [] h = refl
all_below-dedup n (e ∷ xs) h = all_below-compact n e xs h

all_below-get_elem? :
    (n i : ℕ) (e : ℕ × ℕ) (xs : List (ℕ × ℕ))
    → all_below n xs ≡ true
    → get_elem? xs i ≡ some e
    → e.1 < n
all_below-get_elem? n i e [] h there = cc
all_below-get_elem? n zero e ((k, v) ∷ xs) h there = ground arith
all_below-get_elem? n (suc i) e ((k, v) ∷ xs) h there =
    all_below-get_elem? n i e xs (ground arith) there

found_value :
    (n k v : ℕ) (e : ℕ × ℕ)
    → e.1 < n
    → ((if e.0 == k then some e else none) >>= λ (x : ℕ × ℕ). some x.1) ≡ some v
    → v < n
found_value n k v (j, u) low h = ground arith

pub all_below-get : (n k v : ℕ) (m : List (ℕ × ℕ)) → all_below n m ≡ true → get m k ≡ some v → v < n
unfolding get binary_search_by_key
all_below-get n k v m h found =
    elim (Option-cases
      (get_elem? m (search_loop (λ (e : ℕ × ℕ). e.0) (length m) m k 0 (length m)))) [
        | inl missing ↦ let none_found = rw missing at found in cc
        | inr (e, there) ↦
            let low =
              all_below-get_elem? n (search_loop (λ (e : ℕ × ℕ). e.0) (length m) m k 0 (length m)) e
                m h there in
            found_value n k v e low (rw there at found)
      ]

pub freeze_map-first :
    (n : ℕ) (xs : List (ℕ × ℕ))
    → all_below n xs ≡ true
    → (m : List (ℕ × ℕ)) × (freeze_map first xs ≡ some m) × ((k v : ℕ) → get m k ≡ some v → v < n)
unfolding freeze_map
freeze_map-first n xs h =
    let sorts = sort_slice_sorts (λ (e : ℕ × ℕ). e.0) xs in
    let ys = sort_slice (λ (e : ℕ × ℕ). e.0) xs in
    let kept : all_below n ys ≡ true =
      sym (∥∥₁_elim sorts.0 (Bool-set _ _) (all_below-Permᴰ n)) ∙ h in
    (
      dedup (same_key first) ys,
      dedup_in_place-dedup (same_key first) ys,
      λ k v found.
          all_below-get n k v (dedup (same_key first) ys) (all_below-dedup n ys kept) found,
    )
