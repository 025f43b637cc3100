-- ===== src/OsBinary/Objects.antt =====
-- src/osbinary.rs: parse records where the emitted objects stand, and nth_object finds them.
use mathlib.Core.Path.{subst}
use ltop.Base.{
  bind_some, ℕ, zero, suc, ◌+◌, ◌-◌, ◌<◌, ◌≤◌, ◌≡◌, sym, ◌∙◌, ap, arith, inl, inr, true, false,
  some, List, [], ◌∷◌, ◌++◌, append_assoc, append-nil, ltb, ltb→le, ◌==◌, ==_iff, length,
  length-append, get_elem?, drop, Bool-cases, some_inj,
}
use ltop.Bytes.{Bytes}
use ltop.OsBinary.Tags.{Tag, read_tag, is_object, scalar_step}
use ltop.OsBinary.Checkpoints.{Ckpts, record_offset}
use ltop.OsBinary.Table.{Covers, record_offset-Covers}
use ltop.OsBinary.Rounds.{Round, walk_round_inversion}
use ltop.OsBinary.{Walk, note, walk_round, walk_loop, scan_loop}

-- From `c` on, where object number `i` is the next, the blob holds objects at the offsets `os`,
-- with back-references between them that name earlier objects.
pub data Flat (blob : Bytes) : ℕ → ℕ → List ℕ → Type 0 where
  end : {i c : ℕ} → Flat blob i c []
  reference :
      {i c : ℕ} {os : List ℕ} (tag : Tag)
      → read_tag blob c ≡ some tag
      → is_object tag ≡ true
      → tag.operand < i
      → Flat blob i (c + 4) os
      → Flat blob i c os
  object :
      {i c : ℕ} {os : List ℕ} (tag : Tag) (step : ℕ)
      → read_tag blob c ≡ some tag
      → is_object tag ≡ false
      → scalar_step tag ≡ some step
      → Flat blob (i + 1) (c + step) os
      → Flat blob i c (c ∷ os)

pub le-scalar_step : (tag : Tag) (step : ℕ) → scalar_step tag ≡ some step → 4 ≤ step
unfolding scalar_step
le-scalar_step tag step h = ground arith

pub read_tag_inside :
    (blob : Bytes) (o : ℕ) (tag : Tag) → read_tag blob o ≡ some tag → o + 4 ≤ length blob
unfolding read_tag
read_tag_inside blob o tag h = elim (Bool-cases (ltb (length blob) (o + 4))) [
  | inl outside ↦ cc (rw outside at h)
  | inr inside ↦ ltb→le _ _ inside
]

-- The table after an object that `record` noted.
noted_ck :
    (w w1 : Walk) (n : ℕ) (ck ck1 : Ckpts)
    → w.ck ≡ some ck
    → w.count ≡ n
    → record_offset ck n w.cursor ≡ some ck1
    → note w.ck w.count w.cursor ≡ some w1.ck
    → w1.ck ≡ some ck1
noted_ck w w1 n ck ck1 lent count recorded noted =
    let noted' : note (some ck) n w.cursor ≡ some w1.ck = rw count at (rw lent at noted) in
    some_inj (sym (rw recorded at noted'))

module _ (blob : Bytes) where
  -- The scan from `c` reaches every object of the stretch.
  pub scan_loop-Flat :
      (fuel i c idx o : ℕ) {os : List ℕ}
      → length blob < fuel + c
      → i ≤ idx
      → Flat blob i c os
      → get_elem? os (idx - i) ≡ some o
      → scan_loop fuel blob c i idx ≡ some o
  unfolding scan_loop
  scan_loop-Flat fuel i c idx o enough from end there = cc
  scan_loop-Flat zero i c idx o enough from (reference tag read ref known rest) there =
      absurd (omega (arith, read_tag_inside blob c tag read))
  scan_loop-Flat (suc fuel) i c idx o enough from (reference tag read ref known rest) there =
      rw (read, ref) (scan_loop-Flat fuel i (c + 4) idx o (omega arith) from rest there)
  scan_loop-Flat zero i c idx o enough from (object tag step read obj size rest) there =
      absurd (omega (arith, read_tag_inside blob c tag read))
  scan_loop-Flat (suc fuel) i c idx o enough from (object {os = os} tag step read obj size rest)
        there =
      elim (Bool-cases (i == idx)) [
        | inl here ↦
            let none_left : idx - i ≡ 0 = omega (arith, (==_iff _ _).0 here) in
            rw (read, obj, here) (rw none_left at there)
        | inr later ↦
            let below : i < idx = ground arith in
            let next : idx - i ≡ suc (idx - (i + 1)) = omega arith in
            rw (read, obj, later, size)
              (scan_loop-Flat fuel (i + 1) (c + step) idx o
                (omega (arith, le-scalar_step tag step size)) (omega arith) rest (rw next at there))
      ]

  -- The stretch starts anew at each of its objects.
  pub Flat-drop :
      (k i c o : ℕ) {os : List ℕ}
      → Flat blob i c os
      → get_elem? os k ≡ some o
      → Flat blob (i + k) o (drop k os)
  Flat-drop k i c o end there = cc
  Flat-drop k i c o (reference tag read ref known rest) there = Flat-drop k i (c + 4) o rest there
  Flat-drop zero i c o (object {os = os} tag step read obj size rest) there =
      let here : c ≡ o = some_inj there in
      let same : i + 0 ≡ i = omega arith in
      rw same (subst (λ x. Flat blob i x (c ∷ os)) here (object tag step read obj size rest))
  Flat-drop (suc k) i c o (object tag step read obj size rest) there =
      let same : i + suc k ≡ i + 1 + k = omega arith in
      rw same (Flat-drop k (i + 1) (c + step) o rest there)

  -- From `w` the walk comes to `w'`, and emits objects after those at `os`.
  abbrev pub Emits : Walk → Walk → List ℕ → Type 0
  Emits w w' os =
      (os' : List ℕ) × (ck' : Ckpts) × (w'.ck ≡ some ck')
      × Covers (os ++ os') ck'
      × (w'.count ≡ length (os ++ os'))
      × Flat blob w.count w.cursor os'

  reference-Emits :
      (w w1 w' : Walk) (os : List ℕ) (tag : Tag)
      → read_tag blob w.cursor ≡ some tag
      → is_object tag ≡ true
      → tag.operand < w.count
      → w1.cursor ≡ w.cursor + 4
      → w1.count ≡ w.count
      → Emits w1 w' os
      → Emits w w' os
  reference-Emits w w1 w' os tag read ref known cursor count (os', ck', lent, v, counted, flat) =
      (os', ck', lent, v, counted, reference tag read ref known (rw count at (rw cursor at flat)))

  object-Emits :
      (w w1 w' : Walk) (os : List ℕ) (tag : Tag) (step : ℕ)
      → read_tag blob w.cursor ≡ some tag
      → is_object tag ≡ false
      → scalar_step tag ≡ some step
      → w1.cursor ≡ w.cursor + step
      → w1.count ≡ w.count + 1
      → Emits w1 w' (os ++ w.cursor ∷ [])
      → Emits w w' os
  object-Emits w w1 w' os tag step read obj size cursor count (os', ck', lent, v, counted, flat) =
      let regroup = append_assoc os (w.cursor ∷ []) os' in
      (
        w.cursor ∷ os',
        ck',
        lent,
        rw regroup at v,
        counted ∙ ap length regroup,
        object tag step read obj size (rw count at (rw cursor at flat)),
      )

  -- A walk that was lent a table which covers the objects before it: what it emits stands in the
  -- blob from its cursor on, and the table covers that too.
  pub walk_loop-Emits :
      (fuel : ℕ) (w w' : Walk) (os : List ℕ) (ck : Ckpts)
      → w.ck ≡ some ck
      → Covers os ck
      → w.count ≡ length os
      → walk_loop fuel blob w ≡ some w'
      → Emits w w' os
  unfolding walk_loop
  walk_loop-Emits zero w w' os ck lent v count h = cc
  walk_loop-Emits (suc fuel) w w' os ck lent v count h = elim (Bool-cases (w.remaining == 0)) [
    | inl done ↦
        let e : w ≡ w' = some_inj (rw done at h) in
        let whole = append-nil os in
        (
          [],
          ck,
          ap (λ (x : Walk). x.ck) (sym e) ∙ lent,
          rw whole v,
          ap (λ (x : Walk). x.count) (sym e) ∙ (count ∙ ap length (sym whole)),
          end,
        )
    | inr more ↦
        let (w1, stepped, ran) =
          bind_some (walk_round blob w) (walk_loop fuel blob) w' (rw more at h) in
        elim (walk_round_inversion blob w w1 stepped) [
          | Round.reference tag read ref known after ↦
              let cursor : w1.cursor ≡ w.cursor + 4 = ap (λ (x : Walk). x.cursor) after in
              let counted : w1.count ≡ w.count = ap (λ (x : Walk). x.count) after in
              let lent1 : w1.ck ≡ some ck = ap (λ (x : Walk). x.ck) after ∙ lent in
              reference-Emits w w1 w' os tag read ref (known (rw lent)) cursor counted
                (walk_loop-Emits fuel w1 w' os ck lent1 v (counted ∙ count) ran)
          | Round.object tag step read obj size inside noted cursor counted ↦
              let (ck1, recorded, v1) = record_offset-Covers os w.cursor ck v in
              let lent1 : w1.ck ≡ some ck1 =
                noted_ck w w1 (length os) ck ck1 lent count recorded noted in
              object-Emits w w1 w' os tag step read obj size cursor counted (
                walk_loop-Emits fuel w1 w' (os ++ w.cursor ∷ []) ck1 lent1 v1
                  (omega (arith, length-append os (w.cursor ∷ []))) ran)
        ]
  ]

-- The offsets of the stretch are those of objects.
pub Flat-object :
    (blob : Bytes) (k i c o : ℕ) {os : List ℕ}
    → Flat blob i c os
    → get_elem? os k ≡ some o
    → (tag : Tag) × (read_tag blob o ≡ some tag) × (is_object tag ≡ false)
Flat-object blob k i c o end there = cc
Flat-object blob k i c o (reference tag read ref known rest) there =
    Flat-object blob k i (c + 4) o rest there
Flat-object blob zero i c o (object tag step read obj size rest) there =
    (tag, rw (some_inj there) at read, obj)
Flat-object blob (suc k) i c o (object tag step read obj size rest) there =
    Flat-object blob k (i + 1) (c + step) o rest there
