-- ===== src/Map/Freeze.antt =====
-- src/map.rs: freeze_map and freeze_set against their specifications, read through get and contains.
use mathlib.Core.List.{Perm, Permᴰ}
use mathlib.Core.Logic.{∥∥₁_elim}
use mathlib.Core.Option
use mathlib.Core.Bool.{Bool-set}
use mathlib.Core.Path.{ap₂}
use ltop.Base.{
  ap, ℕ, suc, ◌≡◌, refl, sym, ◌∙◌, arith, true, false, Option, none, some, List, [], ◌∷◌, ◌==◌,
  if◌then◌else◌, ◌>>=◌, Bool-cases, inl, inr,
}
use ltop.Bytes.{has}
use ltop.Sort.Slice.{sort_slice, sort_slice_sorts}
use ltop.Map.{same_key, same_word, freeze_map, freeze_set, get, contains}
use ltop.Map.Dedup.{compact, dedup, dedup_in_place-dedup}
use ltop.Map.Order.{
  AllFrom, AllFrom-mono, IsSorted, IsStrict, Ascends-IsSorted, ByKey, dedup-IsStrict,
  dedup-StrictlyAscends,
}
use ltop.Map.Search.{find, StrictlyAscends, binary_search_by_key-find}

-- What a merge closure has to be for the order of equal keys not to matter.
pub record CanMerge {V : Type 0} (merge : V → V → V) : Type 0 where
  pub is_set : IsSet V
  pub assoc : (a b c : V) → merge (merge a b) c ≡ merge a (merge b c)
  pub comm : (a b : V) → merge a b ≡ merge b a

module _ {V : Type 0} (merge : V → V → V) where
  abbrev join : V → Option V → Option V
  join v none = some v
  join v (some u) = some (merge v u)

  -- The values of one key in a slice in any order, merged.
  pub gather : ℕ → List (ℕ × V) → Option V
  gather k [] = none
  gather k ((j, v) ∷ entries) = if j == k then join v (gather k entries) else gather k entries

  same_key-ByKey : ByKey (λ (e : ℕ × V). e.0) (same_key merge)
  unfolding same_key
  same_key-ByKey = record {
    answers = λ (j, v) (i, u). ground arith;
    left_key = λ (j, v) (i, u). ground arith;
    right_key = λ (j, v) (i, u). ground arith;
  }

  gather-none : (k : ℕ) (xs : List (ℕ × V)) → AllFrom (λ e. e.0) (suc k) xs → gather k xs ≡ none
  unfolding gather
  gather-none k [] h = refl
  gather-none k ((j, v) ∷ xs) h = ground (arith, gather-none k xs)

  compact_dup :
      (i j : ℕ) (u v : V) (xs : List (ℕ × V))
      → (i == j) ≡ true
      → compact (same_key merge) (i, u) ((j, v) ∷ xs) ≡ compact (same_key merge) (i, merge u v) xs
  unfolding compact same_key
  compact_dup i j u v xs e = rw e

  compact_new :
      (i j : ℕ) (u v : V) (xs : List (ℕ × V))
      → (i == j) ≡ false
      → compact (same_key merge) (i, u) ((j, v) ∷ xs) ≡ (i, u) ∷ compact (same_key merge) (j, v) xs
  unfolding compact same_key
  compact_new i j u v xs e = rw e

  compact_end : (e : ℕ × V) → compact (same_key merge) e [] ≡ e ∷ []
  unfolding compact
  compact_end e = refl

-- The value that a scan for `k` finds.
abbrev value_of {ℓ} : {V : Type ℓ} → Option (ℕ × V) → Option V
value_of found = found >>= λ e. some e.1

module _ {V : Type 0} (merge : V → V → V) (ok : CanMerge merge) where
  join-join : (u v : V) (g : Option V) → join merge (merge u v) g ≡ join merge u (join merge v g)
  join-join u v none = refl
  join-join u v (some w) = ap some (ok.assoc u v w)

  join_comm :
      (u v : V) (g : Option V) → join merge u (join merge v g) ≡ join merge v (join merge u g)
  join_comm u v none = ap some (ok.comm u v)
  join_comm u v (some w) = cc (ok.assoc u v w, ok.assoc v u w, ok.comm u v)

  gather-compact :
      (k i : ℕ) (u : V) (xs : List (ℕ × V))
      → AllFrom (λ e. e.0) i xs
      → IsSorted (λ e. e.0) xs
      → value_of (find (λ e. e.0) k (compact (same_key merge) (i, u) xs))
        ≡ gather merge k ((i, u) ∷ xs)
  unfolding find gather
  gather-compact k i u [] from sorted = rw compact_end (ground arith)
  gather-compact k i u ((j, v) ∷ xs) from sorted = elim (Bool-cases (i == j)) [
    | inl dup ↦ rw (compact_dup merge i j u v xs dup) (
        gather-compact k i (merge u v) xs from.1 sorted.1
        ∙ ground (arith, join-join u v (gather merge k xs)))
    | inr new ↦
        rw (compact_new merge i j u v xs new)
          (ground (arith, gather-compact k j v xs sorted.0 sorted.1, above new))
  ]
    where
      above : (i == j) ≡ false → i ≡ k → gather merge k xs ≡ none
      above new e =
          gather-none merge k xs
            (AllFrom-mono (λ e. e.0) (suc k) j xs (ground (arith, from.0)) sorted.0)

  gather-Permᴰ :
      (k : ℕ) {xs ys : List (ℕ × V)} → Permᴰ xs ys → gather merge k xs ≡ gather merge k ys
  unfolding gather
  gather-Permᴰ k Permᴰ.nil = refl
  gather-Permᴰ k (Permᴰ.cons {a} {b} {l₁} {l₂} e p) =
      ap (λ x. gather merge k (x ∷ l₁)) e ∙ ground (arith, gather-Permᴰ k p)
  gather-Permᴰ k (Permᴰ.swap {a} {b} {a'} {b'} {l} e f) =
      ap₂ (λ x y. gather merge k (x ∷ y ∷ l)) e f
      ∙ ground (arith, join_comm b'.1 a'.1 (gather merge k l))
  gather-Permᴰ k (Permᴰ.trans p q) = gather-Permᴰ k p ∙ gather-Permᴰ k q

  gather-perm : (k : ℕ) {xs ys : List (ℕ × V)} → Perm xs ys → gather merge k xs ≡ gather merge k ys
  gather-perm k p = ∥∥₁_elim p (Option.is_set ok.is_set _ _) (gather-Permᴰ k)

  -- freeze_map panics on no slice: it is merging the neighbours of the sorted slice.
  freeze_map-dedup :
      (xs : List (ℕ × V))
      → freeze_map merge xs ≡ some (dedup (same_key merge) (sort_slice (λ e. e.0) xs))
  unfolding freeze_map
  freeze_map-dedup xs = dedup_in_place-dedup (same_key merge) (sort_slice (λ e. e.0) xs)

  -- The map that freeze_map returns: its keys ascend strictly.
  pub freeze_map-IsStrict :
      (xs : List (ℕ × V))
      → (m : List (ℕ × V)) × (freeze_map merge xs ≡ some m) × IsStrict (λ e. e.0) m
  freeze_map-IsStrict xs =
      let sorts = sort_slice_sorts (λ (e : ℕ × V). e.0) xs in
      let ys = sort_slice (λ (e : ℕ × V). e.0) xs in
      (
        dedup (same_key merge) ys,
        freeze_map-dedup xs,
        dedup-IsStrict (λ (e : ℕ × V). e.0) (same_key merge) (same_key-ByKey merge) ys sorts.1,
      )

  find-dedup :
      (k : ℕ) (xs : List (ℕ × V))
      → IsSorted (λ e. e.0) xs
      → value_of (find (λ e. e.0) k (dedup (same_key merge) xs)) ≡ gather merge k xs
  unfolding dedup
  find-dedup k [] sorted = unfold find gather in refl
  find-dedup k ((i, u) ∷ xs) sorted = gather-compact k i u xs sorted.0 sorted.1

  -- If the merge closure is associative and commutative on a set, then freeze_map returns a map
  -- on which get answers, for each key, the merge of all values that the entries hold for the
  -- key, or none if they hold none.
  pub get-freeze_map :
      (xs : List (ℕ × V)) (k : ℕ)
      → (freeze_map merge xs >>= λ m. some (get m k)) ≡ some (gather merge k xs)
  unfolding get
  get-freeze_map xs k =
      let sorts = sort_slice_sorts (λ (e : ℕ × V). e.0) xs in
      let ys = sort_slice (λ (e : ℕ × V). e.0) xs in
      let m = dedup (same_key merge) ys in
      let strict =
        dedup-StrictlyAscends (λ (e : ℕ × V). e.0) (same_key merge) (same_key-ByKey merge) ys
          sorts.1 in
      rw (freeze_map-dedup xs, binary_search_by_key-find (λ (e : ℕ × V). e.0) m strict k)
        (ap some
          (find-dedup k ys (Ascends-IsSorted (λ e. e.0) ys sorts.1) ∙ sym (gather-perm k sorts.0)))

-- A set: duplicates are dropped.
same_word-ByKey : ByKey (λ k. k) same_word
unfolding same_word
same_word-ByKey = record { answers = λ x y. refl; left_key = λ x y. refl; right_key = λ x y. refl }

has-compact : (h i : ℕ) (xs : List ℕ) → has (compact same_word i xs) h ≡ has (i ∷ xs) h
unfolding compact has same_word
has-compact h i [] = refl
has-compact h i (x ∷ xs) = ground (arith, has-compact h i xs, has-compact h x xs)

has-dedup : (h : ℕ) (xs : List ℕ) → has (dedup same_word xs) h ≡ has xs h
unfolding dedup
has-dedup h [] = unfold has in refl
has-dedup h (x ∷ xs) = has-compact h x xs

has-find :
    (h : ℕ) (xs : List ℕ) → (elim (find (λ k. k) h xs) [ none ↦ false | some e ↦ true ]) ≡ has xs h
unfolding find has
has-find h [] = refl
has-find h (x ∷ xs) = ground (arith, has-find h xs)

has-Permᴰ : (h : ℕ) {xs ys : List ℕ} → Permᴰ xs ys → has xs h ≡ has ys h
unfolding has
has-Permᴰ h Permᴰ.nil = refl
has-Permᴰ h (Permᴰ.cons {a} {b} {l₁} {l₂} e p) = ground (arith, has-Permᴰ h p)
has-Permᴰ h (Permᴰ.swap e f) = ground arith
has-Permᴰ h (Permᴰ.trans p q) = has-Permᴰ h p ∙ has-Permᴰ h q

contains-find :
    (s : List ℕ) (k : ℕ)
    → StrictlyAscends (λ k. k) s
    → contains s k ≡ (elim (find (λ k. k) k s) [ none ↦ false | some e ↦ true ])
unfolding contains
contains-find s k strict =
    ap (λ (o : Option ℕ). elim o [ none ↦ false | some e ↦ true ])
      (binary_search_by_key-find (λ (k : ℕ). k) s strict k)

-- freeze_set returns a set, and contains on it answers what a scan of the original keys
-- answers.
pub contains-freeze_set :
    (xs : List ℕ) (k : ℕ) → (freeze_set xs >>= λ s. some (contains s k)) ≡ some (has xs k)
unfolding contains freeze_set
contains-freeze_set xs k =
    let sorts = sort_slice_sorts (λ (k : ℕ). k) xs in
    let ys = sort_slice (λ (k : ℕ). k) xs in
    let s = dedup same_word ys in
    let strict = dedup-StrictlyAscends (λ (k : ℕ). k) same_word same_word-ByKey ys sorts.1 in
    let kept = ∥∥₁_elim sorts.0 (Bool-set _ _) (has-Permᴰ k) in
    rw (dedup_in_place-dedup same_word ys, contains-find s k strict)
      (ap some (has-find k s ∙ has-dedup k ys ∙ sym kept))
