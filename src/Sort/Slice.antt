-- ===== src/Sort/Slice.antt =====
-- src/sort.rs: sort_by_u32_key as the callers see it, on a slice of elements whose key is `f`.
-- Sort/Words.antt has the words that the sort really moves.
use mathlib.Core.List.{Perm}
use mathlib.Core.List.Perm
use ltop.Base.{
  ℕ, zero, suc, ◌<◌, ◌≡◌, refl, ◌∙◌, arith, none, some, List, [], ◌∷◌, ltb, ◌==◌, if◌then◌else◌,
  length, get_elem?, set, length-set, get_elem?-set, ltb→lt, Bool-cases, inl, inr,
}
use ltop.Sort.{sort_raw}
use ltop.Sort.Heap.{SwapsKeys}
use ltop.Sort.Sorted.{Ascends, sort_raw-Ascends}
use ltop.Sort.Swaps.{Swaps-keep, sort_raw-Swaps}

-- The key of the element at an index, by the first word of each element.
abbrev pub key_at {ℓ} : {A : Type ℓ} → (A → ℕ) → List A → ℕ → ℕ
key_at f [] i = 0
key_at f (x ∷ xs) zero = f x
key_at f (x ∷ xs) (suc i) = key_at f xs i

module _ {A : Type 0} where
  -- `slice.swap(i, j)`; out of range nothing happens.
  unfoldable pub swap_at : ℕ → ℕ → List A → List A
  swap_at i j xs = elim (get_elem? xs i) [
    | none ↦ xs
    | some a ↦ elim (get_elem? xs j) [ none ↦ xs | some b ↦ set (set xs i b) j a ]
  ]

  unfoldable pub sort_slice : (A → ℕ) → List A → List A
  sort_slice f xs = if ltb (length xs) 2 then xs else sort_raw (key_at f) swap_at (length xs) xs

  length-swap_at : (i j : ℕ) (xs : List A) → length (swap_at i j xs) ≡ length xs
  unfolding swap_at
  length-swap_at i j xs = grind (arith, length-set)

  entry : (xs : List A) (i : ℕ) → i < length xs → (a : A) × (get_elem? xs i ≡ some a)
  entry [] i h = absurd (omega arith)
  entry (x ∷ xs) zero h = (x, refl)
  entry (x ∷ xs) (suc i) h = entry xs i (omega arith)

  key_at-entry :
      (f : A → ℕ) (xs : List A) (i : ℕ) (a : A) → get_elem? xs i ≡ some a → key_at f xs i ≡ f a
  key_at-entry f [] i a e = cc
  key_at-entry f (x ∷ xs) zero a e = ground arith
  key_at-entry f (x ∷ xs) (suc i) a e = key_at-entry f xs i a e

  key_at-set :
      (f : A → ℕ) (xs : List A) (i c : ℕ) (v : A)
      → i < length xs
      → key_at f (set xs i v) c ≡ (if i == c then f v else key_at f xs c)
  key_at-set f [] i c v h = absurd (omega arith)
  key_at-set f (x ∷ xs) zero zero v h = refl
  key_at-set f (x ∷ xs) zero (suc c) v h = ground arith
  key_at-set f (x ∷ xs) (suc i) zero v h = ground arith
  key_at-set f (x ∷ xs) (suc i) (suc c) v h = ground (arith, key_at-set f xs i c v)

  swap_at-entries :
      (xs : List A) (i j : ℕ) (a b : A)
      → get_elem? xs i ≡ some a
      → get_elem? xs j ≡ some b
      → swap_at i j xs ≡ set (set xs i b) j a
  unfolding swap_at
  swap_at-entries xs i j a b ea eb = ground arith

  pub swap_at-SwapsKeys : (f : A → ℕ) (n : ℕ) → SwapsKeys (key_at f) swap_at n (λ xs. length xs ≡ n)
  swap_at-SwapsKeys f n = record {
    kept = λ i j xs hi hj e. length-swap_at i j xs ∙ e;
    exchanged = λ i j c xs hi hj e.
        let (a, ea) = entry xs i (omega arith) in
        let (b, eb) = entry xs j (omega arith) in
        ground (
          arith,
          swap_at-entries xs i j a b ea eb,
          key_at-entry f xs i a ea,
          key_at-entry f xs j b eb,
          length-set xs i b,
          key_at-set f (set xs i b) j c a,
          key_at-set f xs i c b,
        );
  }

  set-perm :
      (xs : List A) (i : ℕ) (v a : A) → get_elem? xs i ≡ some a → Perm (v ∷ xs) (a ∷ set xs i v)
  set-perm [] i v a e = cc
  set-perm (x ∷ xs) zero v a e = let e' : x ≡ a = cc in rw e' (Perm.swap a v xs)
  set-perm (x ∷ xs) (suc i) v a e =
      Perm.trans (Perm.swap x v xs)
        (Perm.trans (Perm.cons x (set-perm xs i v a e)) (Perm.swap a x _))

  swap_at-perm : (i j : ℕ) (xs : List A) → i < length xs → j < length xs → Perm xs (swap_at i j xs)
  swap_at-perm i j xs hi hj =
      let (a, ea) = entry xs i hi in
      let (b, eb) = entry xs j hj in
      let kept : get_elem? (set xs i b) j ≡ some b = ground (arith, get_elem?-set xs i j b hi) in
      rw (swap_at-entries xs i j a b ea eb)
        (Perm.cons_inv (Perm.trans (set-perm xs i b a ea) (set-perm (set xs i b) j a b kept)))

  sort_raw-perm :
      (f : A → ℕ) (xs : List A)
      → Perm xs (sort_raw (key_at f) swap_at (length xs) xs)
        × (length (sort_raw (key_at f) swap_at (length xs) xs) ≡ length xs)
  sort_raw-perm f xs =
      Swaps-keep (λ ys. Perm xs ys × (length ys ≡ length xs))
        (λ i j ys hi hj v. (
          Perm.trans v.0 (swap_at-perm i j ys (omega arith) (omega arith)),
          length-swap_at i j ys ∙ v.1,
        ))
        (sort_raw-Swaps (key_at f) swap_at (length xs) xs) (Perm.refl xs, refl)

  -- For every key function, sort_by_u32_key returns a permutation of the slice, and the keys of
  -- the result ascend.
  pub sort_slice_sorts :
      (f : A → ℕ) (xs : List A)
      → Perm xs (sort_slice f xs) × Ascends (key_at f) (length (sort_slice f xs)) (sort_slice f xs)
  unfolding sort_slice
  sort_slice_sorts f xs = elim (Bool-cases (ltb (length xs) 2)) [
    | inl short ↦
        rw short (Perm.refl xs, λ i j less inside. absurd (omega (arith, ltb→lt _ _ short)))
    | inr long ↦
        let (same, size) = sort_raw-perm f xs in
        rw (long, size)
          (
            same,
            sort_raw-Ascends (key_at f) swap_at (length xs) (λ ys. length ys ≡ length xs)
                (swap_at-SwapsKeys f (length xs)) xs refl,
          )
  ]
