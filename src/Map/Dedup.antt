-- ===== src/Map/Dedup.antt =====
-- src/map.rs, dedup_in_place: compacting in place gives the list that merging neighbours gives.
use ltop.Base.{
  ℕ, suc, ◌+◌, ◌-◌, ◌≡◌, refl, arith, true, false, Option, some, List, [], ◌∷◌, ◌++◌, append_assoc,
  append-nil, ltb, ◌==◌, ==_iff, if◌then◌else◌, ◌>>=◌, length, get_elem?, set, take, length-append,
  get_elem?-append_length, set-append_length, take-append_length, Bool-cases, inl, inr,
}
use ltop.Map.{Same, dedup_round, dedup_loop, dedup_in_place}

-- What the caller keeps of the slice: its first `new_len` elements.
abbrev pub truncated {ℓ} : {T : Type ℓ} → Option (ℕ × List T) → Option (List T)
truncated result = result >>= λ p. some (take p.0 p.1)

module _ {T : Type 0} (same : T → T → Same T) where
  -- Merge each element into the last keeper, or keep it. No indices, no writes.
  unfoldable pub compact : T → List T → List T
  compact keeper [] = keeper ∷ []
  compact keeper (x ∷ xs) =
      let s = same x keeper in
      let merged = compact s.left xs in
      let kept = s.left ∷ compact s.right xs in if s.duplicate then merged else kept

  unfoldable pub dedup : List T → List T
  dedup [] = []
  dedup (x ∷ xs) = compact x xs

  -- The slice in the loop: what is kept, the last keeper, elements already merged or moved, and
  -- the rest. `w` stands behind the keeper, and `r` at the candidate `x`.
  module _ (r w : ℕ) (done : List T) (keeper : T) (gap : List T) (x : T) (rest : List T)
      (ew : w ≡ length done + 1) (er : r ≡ w + length gap) where
    read_right : get_elem? ((done ++ keeper ∷ gap) ++ x ∷ rest) r ≡ some x
    read_right =
        get_elem?-append_length (done ++ keeper ∷ gap) x rest r
          (omega (arith, length-append done (keeper ∷ gap)))

    read_left : get_elem? ((done ++ keeper ∷ gap) ++ x ∷ rest) (w - 1) ≡ some keeper
    read_left =
        rw (append_assoc done (keeper ∷ gap) (x ∷ rest))
          (get_elem?-append_length done keeper (gap ++ x ∷ rest) (w - 1) (omega arith))

    merge_write :
        (left right : T)
        → set (set ((done ++ keeper ∷ gap) ++ x ∷ rest) (w - 1) left) r right
          ≡ (done ++ left ∷ gap) ++ right ∷ rest
    merge_write left right =
        rw
          (
            append_assoc done (keeper ∷ gap) (x ∷ rest),
            set-append_length done keeper (gap ++ x ∷ rest) (w - 1) left (omega arith),
            ← append_assoc done (left ∷ gap) (x ∷ rest),
          )
          (set-append_length (done ++ left ∷ gap) x rest r right
            (omega (arith, length-append done (left ∷ gap))))

    merge_round :
        (same x keeper).duplicate ≡ true
        → dedup_round same r w ((done ++ keeper ∷ gap) ++ x ∷ rest)
          ≡ some (w, (done ++ (same x keeper).left ∷ (gap ++ (same x keeper).right ∷ [])) ++ rest)
    unfolding dedup_round
    merge_round dup =
        rw (read_right, read_left, dup, merge_write (same x keeper).left (same x keeper).right)
          (simp append_assoc)

  -- A round that keeps the candidate: it becomes the last keeper, next to the one before.
  moved_gap : List T → T → List T
  moved_gap [] r = []
  moved_gap (g ∷ gap) r = gap ++ r ∷ []

  keep_write :
      (r w : ℕ) (done : List T) (gap : List T) (rest : List T) (left right : T)
      → w ≡ length done + 1
      → r ≡ w + length gap
      → (if w == r
          then (done ++ left ∷ gap) ++ right ∷ rest
          else set ((done ++ left ∷ gap) ++ right ∷ rest) w right)
        ≡ ((done ++ left ∷ []) ++ right ∷ moved_gap gap right) ++ rest
  unfolding moved_gap
  keep_write r w done [] rest left right ew er =
      let same_slot : (w == r) ≡ true = (==_iff w r).1 (omega arith) in
      rw same_slot (simp append_assoc)
  keep_write r w done (g ∷ gap) rest left right ew er =
      let size : w ≡ length (done ++ left ∷ []) = omega (arith, length-append done (left ∷ [])) in
      let written = set-append_length (done ++ left ∷ []) g (gap ++ right ∷ rest) w right size in
      let other : (w == r) ≡ false = ground arith in
      rw other (simp append_assoc (simp append_assoc at written))

  keep_round :
      (r w : ℕ) (done : List T) (keeper : T) (gap : List T) (x : T) (rest : List T)
      → w ≡ length done + 1
      → r ≡ w + length gap
      → (same x keeper).duplicate ≡ false
      → dedup_round same r w ((done ++ keeper ∷ gap) ++ x ∷ rest)
        ≡ some (
          w + 1,
          ((done ++ (same x keeper).left ∷ [])
                ++ (same x keeper).right ∷ moved_gap gap (same x keeper).right)
              ++ rest,
        )
  unfolding dedup_round
  keep_round r w done keeper gap x rest ew er dup =
      let s = same x keeper in
      rw (
        read_right r w done keeper gap x rest ew er,
        read_left r w done keeper gap x rest ew er,
        dup,
        merge_write r w done keeper gap x rest ew er s.left s.right,
        keep_write r w done gap rest s.left s.right ew er,
      )

  length-moved_gap : (gap : List T) (r : T) → length (moved_gap gap r) ≡ length gap
  unfolding moved_gap
  length-moved_gap [] r = refl
  length-moved_gap (g ∷ gap) r = omega (arith, length-append gap (r ∷ []))

  dedup_loop-compact :
      (r w : ℕ) (done : List T) (keeper : T) (gap rest : List T)
      → w ≡ length done + 1
      → r ≡ w + length gap
      → truncated (dedup_loop same (length rest) r w ((done ++ keeper ∷ gap) ++ rest))
        ≡ some (done ++ compact keeper rest)
  unfolding dedup_loop compact
  dedup_loop-compact r w done keeper gap [] ew er =
      let front : ((done ++ keeper ∷ gap) ++ []) ≡ ((done ++ keeper ∷ []) ++ gap) =
        simp (append_assoc, append-nil) in
      rw (
        front,
        take-append_length (done ++ keeper ∷ []) gap w
            (omega (arith, length-append done (keeper ∷ []))),
      )
  dedup_loop-compact r w done keeper gap (x ∷ rest) ew er =
      let s = same x keeper in
      elim (Bool-cases s.duplicate) [
        | inl dup ↦
            rw (dup, merge_round r w done keeper gap x rest ew er dup)
              (dedup_loop-compact (r + 1) w done s.left (gap ++ s.right ∷ []) rest ew
                (omega (arith, length-append gap (s.right ∷ []))))
        | inr new ↦
            rw (new, keep_round r w done keeper gap x rest ew er new)
              (rw (append_assoc done (s.left ∷ []) (compact s.right rest)) at (
                dedup_loop-compact (r + 1) (w + 1) (done ++ s.left ∷ []) s.right
                  (moved_gap gap s.right) rest (omega (arith, length-append done (s.left ∷ [])))
                  (omega (arith, length-moved_gap gap s.right))))
      ]

  -- For every closure same, dedup_in_place does not panic, and its slice truncated to the
  -- length that it returns is the list in which each element is merged into the last keeper
  -- or kept.
  pub dedup_in_place-dedup : (xs : List T) → truncated (dedup_in_place same xs) ≡ some (dedup xs)
  unfolding dedup_in_place dedup
  dedup_in_place-dedup [] = refl
  dedup_in_place-dedup (x ∷ []) = unfold compact in refl
  dedup_in_place-dedup (x ∷ y ∷ xs) =
      let long : ltb (suc (suc (length xs))) 2 ≡ false = ground arith in
      let rounds : (suc (suc (length xs)) - 1) ≡ suc (length xs) = omega arith in
      rw (long, rounds) (dedup_loop-compact 1 1 [] x [] (y ∷ xs) (omega arith) (omega arith))
