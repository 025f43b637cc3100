-- ===== src/Filter/Queue.antt =====
-- src/main.rs, filter_with_children: the search visits each row once, so it ends, and its queue
-- of one slot for each row never overflows.
use ltop.Base.{
  ℕ, zero, suc, ◌+◌, ◌<◌, ◌≤◌, ◌≡◌, refl, sym, ap, ◌∙◌, arith, Bool, true, false, some, List, [],
  ◌∷◌, ltb, if◌then◌else◌, length, get_elem?, set, length-set, some_inj, Bool-cases, inl, inr,
}
use ltop.Nest.{FNest, bucket}
use ltop.Proc.{Float32, ProcInfo, visible, set_visible}
use ltop.Coalesce.Totals.{row_at}
use ltop.Filter.{Search, judged, visit_kid, visit_kids, visit, search_rows, seed_loop}

-- Rows that the guard has not marked.
abbrev pub unseen : List Bool → ℕ
unseen [] = 0
unseen (true ∷ flags) = unseen flags
unseen (false ∷ flags) = suc (unseen flags)

unseen-set :
    (flags : List Bool) (i : ℕ)
    → get_elem? flags i ≡ some false
    → unseen (set flags i true) + 1 ≡ unseen flags
unseen-set [] i h = cc
unseen-set (true ∷ flags) zero h = cc
unseen-set (false ∷ flags) zero h = omega arith
unseen-set (true ∷ flags) (suc i) h = unseen-set flags i h
unseen-set (false ∷ flags) (suc i) h = omega (arith, unseen-set flags i h)

abbrev pub EntriesBelow : ℕ → List (ℕ × ℕ) → Type 0
EntriesBelow n [] = Unit {0}
EntriesBelow n ((i, last) ∷ queue) = (i < n) × (last < n) × EntriesBelow n queue

abbrev pub KidsBelow : ℕ → List ℕ → Type 0
KidsBelow n [] = Unit {0}
KidsBelow n (kid ∷ kids) = (kid < n) × KidsBelow n kids

-- Every row has a bucket, of rows.
abbrev pub HasBuckets : ℕ → FNest ℕ → Type 0
HasBuckets n children =
    (i : ℕ) → i < n → (kids : List ℕ) × (bucket children i ≡ some kids) × KidsBelow n kids

if_below : (n : ℕ) (t : Bool) (a b : ℕ) → a < n → b < n → (if t then a else b) < n
if_below n true a b h k = h
if_below n false a b h k = k

module _ {F : Type 0} where
  abbrev pub pids : List (ProcInfo F) → List ℕ
  pids [] = []
  pids (p ∷ procs) = p.pid ∷ pids procs

  pids-set :
      (procs : List (ProcInfo F)) (i : ℕ) (old new : ProcInfo F)
      → get_elem? procs i ≡ some old
      → new.pid ≡ old.pid
      → pids (set procs i new) ≡ pids procs
  pids-set [] i old new h e = cc
  pids-set (p ∷ procs) zero old new h e =
      ap (λ t. t ∷ pids procs) (e ∙ ap (λ (x : ProcInfo F). x.pid) (sym (some_inj h)))
  pids-set (p ∷ procs) (suc i) old new h e = ap (λ t. p.pid ∷ t) (pids-set procs i old new h e)

  judged_pid :
      (f : Float32 F) (prev : List (ℕ × ℕ)) (i_visible : Bool) (last_pid : ℕ) (k : ProcInfo F)
      → (judged f prev i_visible last_pid k).pid ≡ k.pid
  unfolding judged set_visible
  judged_pid f prev i_visible last_pid k = ground arith

  -- Rounds that are left at most: the entries of the queue, and the rows that may still enter it.
  abbrev pub budget : Search F → ℕ
  budget s = length s.queue + unseen s.enqueued

  -- A state of the search over `n` rows whose queue has room for all rows that may enter it.
  pub record Fits (n cap : ℕ) (ids : List ℕ) (s : Search F) : Type 0 where
    pub rows : length s.procs ≡ n
    pub flags : length s.enqueued ≡ n
    pub entries : EntriesBelow n s.queue
    pub room : budget s ≤ cap
    pub numbered : pids s.procs ≡ ids

  module _ (f : Float32 F) (prev : List (ℕ × ℕ)) (n cap : ℕ) (ids : List ℕ) where
    visit_kid-Fits :
        (i_visible : Bool) (last last_pid kid : ℕ) (s : Search F)
        → last < n
        → kid < n
        → Fits n cap ids s
        → (s' : Search F) × (visit_kid f prev cap i_visible last last_pid kid s ≡ some s')
          × Fits n cap ids s'
          × (budget s' ≡ budget s)
    unfolding visit_kid
    visit_kid-Fits i_visible last last_pid kid s last_low low v =
        let (k, from) = row_at s.procs kid (omega (arith, v.rows)) in
        let (seen, flag) = row_at s.enqueued kid (omega (arith, v.flags)) in
        let k' = judged f prev i_visible last_pid k in
        let size = length-set s.procs kid k' in
        let same_ids = pids-set s.procs kid k k' from (judged_pid f prev i_visible last_pid k) in
        elim (Bool-cases seen) [
          | inl again ↦ (
            record s { procs = set s.procs kid k' },
            rw (from, flag, again),
            record {
              rows = size ∙ v.rows;
              flags = v.flags;
              entries = v.entries;
              room = v.room;
              numbered = same_ids ∙ v.numbered;
            },
            refl,
          )
          | inr new ↦
              let fewer = unseen-set s.enqueued kid (flag ∙ ap some new) in
              let free : ltb (length s.queue) cap ≡ true = ground (arith, v.room) in
              let entry = if visible k' then kid else last in
              let same : length s.queue + 1 + unseen (set s.enqueued kid true) ≡ budget s =
                omega arith in
              (
                record {
                  procs = set s.procs kid k';
                  enqueued = set s.enqueued kid true;
                  queue = (kid, entry) ∷ s.queue;
                },
                rw (from, flag, new, free),
                record {
                  rows = size ∙ v.rows;
                  flags = length-set s.enqueued kid true ∙ v.flags;
                  entries = (low, if_below n (visible k') kid last low last_low, v.entries);
                  room = omega (arith, v.room);
                  numbered = same_ids ∙ v.numbered;
                },
                omega arith,
              )
        ]

    visit_kids-Fits :
        (i_visible : Bool) (last last_pid : ℕ) (kids : List ℕ) (s : Search F)
        → last < n
        → KidsBelow n kids
        → Fits n cap ids s
        → (s' : Search F) × (visit_kids f prev cap i_visible last last_pid kids s ≡ some s')
          × Fits n cap ids s'
          × (budget s' ≡ budget s)
    unfolding visit_kids
    visit_kids-Fits i_visible last last_pid [] s last_low low v = (s, refl, v, refl)
    visit_kids-Fits i_visible last last_pid (kid ∷ kids) s last_low (low, lows) v =
        let (s1, ran, v1, same) = visit_kid-Fits i_visible last last_pid kid s last_low low v in
        let (s2, ran2, v2, same2) =
          visit_kids-Fits i_visible last last_pid kids s1 last_low lows v1 in
        (s2, rw ran ran2, v2, same2 ∙ same)

    visit-Fits :
        (children : FNest ℕ) (i last : ℕ) (s : Search F)
        → HasBuckets n children
        → i < n
        → last < n
        → Fits n cap ids s
        → (s' : Search F) × (visit f prev children cap i last s ≡ some s')
          × Fits n cap ids s'
          × (budget s' ≡ budget s)
    unfolding visit
    visit-Fits children i last s buckets low last_low v =
        let (p, from) = row_at s.procs i (omega (arith, v.rows)) in
        let (l, last_from) = row_at s.procs last (omega (arith, v.rows)) in
        let (kids, found, lows) = buckets i low in
        let (s', ran, v', same) = visit_kids-Fits (visible p) last l.pid kids s last_low lows v in
        (s', rw (from, last_from, found) ran, v', same)

    search_parts-Fits :
        (fuel : ℕ) (children : FNest ℕ) (procs : List (ProcInfo F)) (flags : List Bool)
        (queue : List (ℕ × ℕ))
        → HasBuckets n children
        → Fits n cap ids (record { procs = procs; enqueued = flags; queue = queue })
        → length queue + unseen flags < fuel
        → (s' : Search F) × (search_rows fuel f prev children cap
              (record { procs = procs; enqueued = flags; queue = queue })
            ≡ some s')
          × (s'.queue ≡ [])
          × Fits n cap ids s'
    unfolding search_rows
    search_parts-Fits zero children procs flags queue buckets v enough = absurd (omega arith)
    search_parts-Fits (suc fuel) children procs flags [] buckets v enough =
        (record { procs = procs; enqueued = flags; queue = [] }, refl, refl, v)
    search_parts-Fits (suc fuel) children procs flags ((i, last) ∷ queue) buckets v enough =
        let (low, last_low, rest) = v.entries in
        let popped : Search F = record { procs = procs; enqueued = flags; queue = queue } in
        let popped-Fits : Fits n cap ids popped = record {
          rows = v.rows;
          flags = v.flags;
          entries = rest;
          room = omega (arith, v.room);
          numbered = v.numbered;
        } in
        let (s1, ran, v1, same) =
          visit-Fits children i last popped buckets low last_low popped-Fits in
        let (s2, ran2, empty, v2) =
          search_parts-Fits fuel children s1.procs s1.enqueued s1.queue buckets v1 (omega arith) in
        (s2, rw ran ran2, empty, v2)

    -- If the queue has room for its entries and for every row that is not marked yet, and every
    -- row has a bucket of rows, then on any fuel above that sum the search ends without a
    -- panic with an empty queue, and neither the number of rows nor their pids have changed.
    pub search_rows-Fits :
        (fuel : ℕ) (children : FNest ℕ) (s : Search F)
        → HasBuckets n children
        → Fits n cap ids s
        → budget s < fuel
        → (s' : Search F) × (search_rows fuel f prev children cap s ≡ some s')
          × (s'.queue ≡ [])
          × Fits n cap ids s'
    search_rows-Fits fuel children s buckets v enough =
        search_parts-Fits fuel children s.procs s.enqueued s.queue buckets v enough

  -- The seeds: a flag for each row, and an entry for each flag that is set.
  pub seed_loop-Fits :
      (cap i : ℕ) (procs : List (ProcInfo F)) (queue : List (ℕ × ℕ))
      → length queue + length procs ≤ cap
      → EntriesBelow (i + length procs) queue
      → (length (seed_loop cap i procs queue).0 ≡ length procs)
        × EntriesBelow (i + length procs) (seed_loop cap i procs queue).1
        × (length (seed_loop cap i procs queue).1 + unseen (seed_loop cap i procs queue).0
            ≡ length queue + length procs)
  unfolding seed_loop
  seed_loop-Fits cap i [] queue room below = (refl, below, refl)
  seed_loop-Fits cap i (p ∷ procs) queue room below =
      let free : ltb (length queue) cap ≡ true = ground arith in
      let shift : i + length (p ∷ procs) ≡ i + 1 + length procs = omega arith in
      elim (Bool-cases (visible p)) [
        | inl shown ↦
            let below' : EntriesBelow (i + 1 + length procs) ((i, i) ∷ queue) =
              (omega arith, omega arith, rw shift at below) in
            let (size, entries, all) =
              seed_loop-Fits cap (i + 1) procs ((i, i) ∷ queue) (omega arith) below' in
            rw (shown, free, shift) (omega (arith, size), entries, omega arith)
        | inr hidden ↦
            let below' : EntriesBelow (i + 1 + length procs) queue = rw shift at below in
            let (size, entries, all) =
              seed_loop-Fits cap (i + 1) procs queue (omega arith) below' in
            rw (hidden, shift) (omega (arith, size), entries, omega arith)
      ]
