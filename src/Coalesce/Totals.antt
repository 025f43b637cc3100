-- ===== src/Coalesce/Totals.antt =====
-- src/main.rs, coalesce_helpers: it does not panic, and moves memory between rows without loss.
use ltop.Base.{
  ℕ, zero, suc, ◌+◌, ◌^◌, ◌<◌, ◌≤◌, ◌≡◌, refl, sym, ap, ◌∙◌, arith, Bool, true, false, Option, none,
  some, List, [], ◌∷◌, if◌then◌else◌, length, get_elem?, set, length-set, some_inj, Bool-cases,
  Option-cases, inl, inr,
}
use ltop.Bytes.{Bytes}
use ltop.Map.{get}
use ltop.Proc.{Float32, ProcInfo, visible, set_visible}
use ltop.Coalesce.{
  is_shard_name, folds_into, climb_loop, coalesce_root, drained, absorbs, fold_helper, fold_loop,
  coalesce_helpers,
}

-- A map whose values number rows.
abbrev pub InRange : ℕ → List (ℕ × ℕ) → Type 0
InRange n m = (k v : ℕ) → get m k ≡ some v → v < n

-- A root that numbers a row.
abbrev RootBelow : ℕ → Option ℕ → Type 0
RootBelow n none = Unit {0}
RootBelow n (some r) = r < n

RootBelow-if :
    (n pa : ℕ) (root : Option ℕ) (t : Bool)
    → pa < n
    → RootBelow n root
    → RootBelow n (if t then some pa else root)
RootBelow-if n pa root true low h = low
RootBelow-if n pa root false low h = h

get_elem?-ne-none : {T : Type 0} (xs : List T) (i : ℕ) → i < length xs → ¬ (get_elem? xs i ≡ none)
get_elem?-ne-none [] i h e = omega arith
get_elem?-ne-none (x ∷ xs) zero h e = cc
get_elem?-ne-none (x ∷ xs) (suc i) h e = get_elem?-ne-none xs i (omega arith) e

-- The row that an index in range names.
pub row_at :
    {T : Type 0} (xs : List T) (i : ℕ) → i < length xs → (x : T) × (get_elem? xs i ≡ some x)
row_at xs i h = elim (Option-cases (get_elem? xs i)) [
  | inl missing ↦ absurd (get_elem?-ne-none xs i h missing)
  | inr found ↦ found
]

module _ {F : Type 0} where
  climb_loop_total :
      (procs : List (ProcInfo F)) (m : List (ℕ × ℕ))
      → InRange (length procs) m
      → (hops : ℕ) (root : Option ℕ) (name : Bytes) (shard : Bool) (a : ℕ)
      → RootBelow (length procs) root
      → (root' : Option ℕ) × (climb_loop procs m hops root name shard a ≡ some root')
        × RootBelow (length procs) root'
  unfolding climb_loop
  climb_loop_total procs m range zero root name shard a h = (root, refl, h)
  climb_loop_total procs m range (suc hops) root name shard a h = elim (Option-cases (get m a)) [
    | inl untracked ↦ (root, rw (untracked, climb_loop), h)
    | inr (pa, tracked) ↦
        let low = range a pa tracked in
        elim (Option-cases (get_elem? procs pa)) [
          | inl missing ↦ absurd (get_elem?-ne-none procs pa low missing)
          | inr (p, there) ↦
              let fold = folds_into shard name p.display in
              let (root', ran, h') =
                climb_loop_total procs m range hops (if fold then some pa else root)
                  (if fold then p.display else name)
                  (if fold then is_shard_name p.display else shard) p.ppid
                  (RootBelow-if (length procs) pa root fold low h) in
              (root', rw (tracked, there, climb_loop) ran, h')
        ]
  ]

  -- Memory of all rows, in KiB.
  abbrev pub total_rss : List (ProcInfo F) → ℕ
  total_rss [] = 0
  total_rss (p ∷ procs) = p.rss_kib + total_rss procs

  total_rss-set :
      (procs : List (ProcInfo F)) (i : ℕ) (old new : ProcInfo F)
      → get_elem? procs i ≡ some old
      → total_rss (set procs i new) + old.rss_kib ≡ total_rss procs + new.rss_kib
  total_rss-set [] i old new h = cc
  total_rss-set (p ∷ procs) zero old new h =
      omega (arith, ap (λ (x : ProcInfo F). x.rss_kib) (some_inj h))
  total_rss-set (p ∷ procs) (suc i) old new h = omega (arith, total_rss-set procs i old new h)

  -- What a row is called by, which folding leaves alone.
  abbrev pub names : List (ProcInfo F) → List (ℕ × ℕ × Bytes)
  names [] = []
  names (p ∷ procs) = (p.pid, p.ppid, p.display) ∷ names procs

  abbrev name_of : ProcInfo F → ℕ × ℕ × Bytes
  name_of p = (p.pid, p.ppid, p.display)

  names-set :
      (procs : List (ProcInfo F)) (i : ℕ) (old new : ProcInfo F)
      → get_elem? procs i ≡ some old
      → name_of new ≡ name_of old
      → names (set procs i new) ≡ names procs
  names-set [] i old new h e = cc
  names-set (p ∷ procs) zero old new h e =
      ap (λ t. t ∷ names procs) (e ∙ ap name_of (sym (some_inj h)))
  names-set (p ∷ procs) (suc i) old new h e =
      ap (λ t. name_of p ∷ t) (names-set procs i old new h e)

  rss-le-total :
      (procs : List (ProcInfo F)) (i : ℕ) (p : ProcInfo F)
      → get_elem? procs i ≡ some p
      → p.rss_kib ≤ total_rss procs
  rss-le-total [] i p h = cc
  rss-le-total (q ∷ procs) zero p h = omega (arith, ap (λ (x : ProcInfo F). x.rss_kib) (some_inj h))
  rss-le-total (q ∷ procs) (suc i) p h = omega (arith, rss-le-total procs i p h)

  -- The rows after a fold: as many, with the same names, and with the same memory in all if that
  -- fits a u32.
  pub record Kept (before after : List (ProcInfo F)) : Type 0 where
    pub rows : length after ≡ length before
    pub named : names after ≡ names before
    pub memory : total_rss before < 2 ^ 32 → total_rss after ≡ total_rss before

  absorbs_named : (f : Float32 F) (k p : ProcInfo F) → name_of (absorbs f k p) ≡ name_of p
  unfolding absorbs set_visible
  absorbs_named f k p = elim (Bool-cases (visible k)) [
    | inl yes_shown ↦ rw yes_shown
    | inr hidden ↦ rw hidden
  ]

  drained_named : (f : Float32 F) (k : ProcInfo F) → name_of (drained f k) ≡ name_of k
  unfolding drained set_visible
  drained_named f k = refl

  absorbs_memory :
      (f : Float32 F) (k p : ProcInfo F)
      → p.rss_kib + k.rss_kib < 2 ^ 32
      → (absorbs f k p).rss_kib ≡ p.rss_kib + k.rss_kib
  unfolding absorbs
  absorbs_memory f k p h = omega arith

  drained_memory : (f : Float32 F) (k : ProcInfo F) → (drained f k).rss_kib ≡ 0
  unfolding drained
  drained_memory f k = refl

  -- One fold moves the memory of row `idx` to row `r`.
  moved-Kept :
      (f : Float32 F) (procs : List (ProcInfo F)) (idx r : ℕ) (k p : ProcInfo F)
      → get_elem? procs idx ≡ some k
      → get_elem? (set procs idx (drained f k)) r ≡ some p
      → Kept procs (set (set procs idx (drained f k)) r (absorbs f k p))
  moved-Kept f procs idx r k p from to =
      let half = set procs idx (drained f k) in
      let gave = total_rss-set procs idx k (drained f k) from in
      let took = total_rss-set half r p (absorbs f k p) to in
      let small = rss-le-total half r p to in
      let gone = drained_memory f k in
      record {
        rows = length-set half r (absorbs f k p) ∙ length-set procs idx (drained f k);
        named =
            names-set half r p (absorbs f k p) to (absorbs_named f k p)
            ∙ names-set procs idx k (drained f k) from (drained_named f k);
        memory = λ fits. omega (arith, absorbs_memory f k p (omega arith));
      }

  coalesce_root_total :
      (m : List (ℕ × ℕ)) (procs : List (ProcInfo F)) (idx : ℕ)
      → InRange (length procs) m
      → idx < length procs
      → (root : Option ℕ) × (coalesce_root procs m idx ≡ some root) × RootBelow (length procs) root
  unfolding coalesce_root
  coalesce_root_total m procs idx range low =
      let (k, from) = row_at procs idx low in
      let (root, climbed, below) =
        climb_loop_total procs m range 64 none k.display (is_shard_name k.display) k.ppid tt in
      (root, rw from climbed, below)

  root-Kept :
      (f : Float32 F) (m : List (ℕ × ℕ)) (procs : List (ProcInfo F)) (idx : ℕ) (root : Option ℕ)
      → idx < length procs
      → coalesce_root procs m idx ≡ some root
      → RootBelow (length procs) root
      → (procs' : List (ProcInfo F)) × (fold_helper f m idx procs ≡ some procs') × Kept procs procs'
  unfolding fold_helper
  root-Kept f m procs idx none low found below =
      (procs, rw (found, fold_helper), record { rows = refl; named = refl; memory = λ fits. refl })
  root-Kept f m procs idx (some r) low found below =
      let (k, from) = row_at procs idx low in
      let half = set procs idx (drained f k) in
      let (p, to) = row_at half r (omega (arith, length-set procs idx (drained f k))) in
      (
        set half r (absorbs f k p),
        rw (found, from, to, fold_helper),
        moved-Kept f procs idx r k p from to,
      )

  fold_helper-Kept :
      (f : Float32 F) (m : List (ℕ × ℕ)) (procs : List (ProcInfo F)) (idx : ℕ)
      → InRange (length procs) m
      → idx < length procs
      → (procs' : List (ProcInfo F)) × (fold_helper f m idx procs ≡ some procs') × Kept procs procs'
  fold_helper-Kept f m procs idx range low =
      let (root, found, below) = coalesce_root_total m procs idx range low in
      root-Kept f m procs idx root low found below

  fold_loop-Kept :
      (f : Float32 F) (m : List (ℕ × ℕ)) (rounds idx : ℕ) (procs : List (ProcInfo F))
      → InRange (length procs) m
      → idx + rounds ≤ length procs
      → (procs' : List (ProcInfo F)) × (fold_loop f m rounds idx procs ≡ some procs')
        × Kept procs procs'
  unfolding fold_loop
  fold_loop-Kept f m zero idx procs range low =
      (procs, refl, record { rows = refl; named = refl; memory = λ fits. refl })
  fold_loop-Kept f m (suc rounds) idx procs range low =
      let (procs1, ran, kept) = fold_helper-Kept f m procs idx range (omega arith) in
      let range1 : InRange (length procs1) m = λ k v h. omega (arith, range k v h, kept.rows) in
      let (procs2, ran2, kept2) =
        fold_loop-Kept f m rounds (idx + 1) procs1 range1 (omega (arith, kept.rows)) in
      (
        procs2,
        rw ran ran2,
        record {
          rows = kept2.rows ∙ kept.rows;
          named = kept2.named ∙ kept.named;
          memory = λ fits. kept2.memory (omega (arith, kept.memory fits)) ∙ kept.memory fits;
        },
      )

  -- If the values of the map number rows, then coalesce_helpers does not panic and leaves as
  -- many rows, with the same pids, parents and names, and with the same memory in all if that
  -- memory fits a u32.
  pub coalesce_helpers-Kept :
      (f : Float32 F) (m : List (ℕ × ℕ)) (procs : List (ProcInfo F))
      → InRange (length procs) m
      → (procs' : List (ProcInfo F)) × (coalesce_helpers f m procs ≡ some procs')
        × Kept procs procs'
  unfolding coalesce_helpers
  coalesce_helpers-Kept f m procs range =
      fold_loop-Kept f m (length procs) 0 procs range (omega arith)
