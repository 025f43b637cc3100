-- ===== src/Arena/Retain.antt =====
-- src/arena.rs, FVec::retain_in_place: the compaction in place, and a filter.
use ltop.Base.{
  ℕ, ◌+◌, ◌≡◌, refl, sym, ◌∙◌, arith, Bool, true, false, some, List, [], ◌∷◌, ◌++◌, append_assoc,
  append-nil, ◌==◌, if◌then◌else◌, length, set, take, length-append, get_elem?-append_length,
  set-append_length, take-append_length, Bool-cases, inl, inr,
}
use ltop.Arena.{keep_loop, retain_in_place}

module _ {T : Type 0} (keep : T → Bool × T) where
  -- The elements that `keep` keeps, as it changed them.
  abbrev pub kept : List T → List T
  kept [] = []
  kept (x ∷ xs) = if (keep x).0 then (keep x).1 ∷ kept xs else kept xs

  -- The free slots after the first one was filled and the one behind them was left.
  abbrev shift : T → List T → List T
  shift x [] = []
  shift x (g ∷ gap) = gap ++ x ∷ []

  length-shift : (x : T) (gap : List T) → length (shift x gap) ≡ length gap
  length-shift x [] = refl
  length-shift x (g ∷ gap) = omega (arith, length-append gap (x ∷ []))

  -- The element at `r` moves to `w`.
  moved-shift :
      (r w : ℕ) (done gap rest : List T) (x : T)
      → w ≡ length done
      → r ≡ length (done ++ gap)
      → (if w == r then (done ++ gap) ++ x ∷ rest else set ((done ++ gap) ++ x ∷ rest) w x)
        ≡ ((done ++ x ∷ []) ++ shift x gap) ++ rest
  moved-shift r w done [] rest x ew er =
      let same : (w == r) ≡ true = ground (arith, append-nil done, length-append {A = T} done []) in
      rw (same, append-nil done, append-nil (done ++ x ∷ []))
        (sym (append_assoc done (x ∷ []) rest))
  moved-shift r w done (g ∷ gap) rest x ew er =
      let apart : (w == r) ≡ false = ground (arith, length-append done (g ∷ gap)) in
      let regroup : (done ++ g ∷ gap) ++ x ∷ rest ≡ done ++ g ∷ (gap ++ x ∷ rest) =
        append_assoc done (g ∷ gap) (x ∷ rest) in
      let regroup' : ((done ++ x ∷ []) ++ (gap ++ x ∷ [])) ++ rest ≡ done ++ x ∷ (gap ++ x ∷ rest) =
        simp append_assoc in
      rw (apart, regroup, regroup') (set-append_length done g (gap ++ x ∷ rest) w x ew)

  -- The slots in the loop: what is kept, slots that are free, and the rest.
  keep_loop-kept :
      (r w : ℕ) (done gap rest : List T)
      → w ≡ length done
      → r ≡ length (done ++ gap)
      → (w' : ℕ) × (slots : List T) × (keep_loop keep (length rest) r w ((done ++ gap) ++ rest)
          ≡ some (w', slots))
        × (take w' slots ≡ done ++ kept rest)
  unfolding keep_loop
  keep_loop-kept r w done gap [] ew er = (
    w,
    (done ++ gap) ++ [],
    refl,
    rw (append-nil (done ++ gap), append-nil done) (take-append_length done gap w ew),
  )
  keep_loop-kept r w done gap (x ∷ rest) ew er =
      let x' = (keep x).1 in
      let read = get_elem?-append_length (done ++ gap) x rest r er in
      let seen = set-append_length (done ++ gap) x rest r x' er in
      let size = length-append done gap in
      elim (Bool-cases (keep x).0) [
        | inl yes_keep ↦
            let moved = moved-shift r w done gap rest x' ew er in
            let grown = length-append done (x' ∷ []) in
            let whole = length-append (done ++ x' ∷ []) (shift x' gap) in
            let (w', slots, ran, front) =
              keep_loop-kept (r + 1) (w + 1) (done ++ x' ∷ []) (shift x' gap) rest (omega arith)
                (omega (arith, length-shift x' gap)) in
            (
              w',
              slots,
              rw (read, yes_keep, seen, moved) ran,
              rw yes_keep (front ∙ append_assoc done (x' ∷ []) (kept rest)),
            )
        | inr drops ↦
            let regroup : (done ++ (gap ++ x' ∷ [])) ++ rest ≡ (done ++ gap) ++ x' ∷ rest =
              simp append_assoc in
            let grown = length-append gap (x' ∷ []) in
            let whole = length-append done (gap ++ x' ∷ []) in
            let (w', slots, ran, front) =
              keep_loop-kept (r + 1) w done (gap ++ x' ∷ []) rest ew (omega arith) in
            (w', slots, rw (read, drops, seen) (rw regroup at ran), rw drops front)
      ]

  -- For every closure, retain_in_place does not go out of bounds, and its slots up to the new
  -- length are the elements that the closure keeps, in their order and as it changed them.
  pub retain_in_place-kept :
      (slots : List T)
      → (len : ℕ) × (slots' : List T) × (retain_in_place keep slots ≡ some (len, slots'))
        × (take len slots' ≡ kept slots)
  unfolding retain_in_place
  retain_in_place-kept slots = keep_loop-kept 0 0 [] [] slots refl refl
