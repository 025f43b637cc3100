-- ===== src/OsBinary/Items.antt =====
-- src/osbinary.rs, walk and item_len: where an item ends, and the fuel of the model.
use ltop.Base.{
  bind_some, ℕ, zero, suc, ◌+◌, ◌-◌, ◌<◌, ◌≤◌, ◌≡◌, ap, arith, inl, inr, Option, none, some, ◌==◌,
  length, Bool-cases, Option-cases, some_inj,
}
use ltop.Bytes.{Bytes}
use ltop.OsBinary.Tags.{read_tag, is_object}
use ltop.OsBinary.Checkpoints.{Ckpts}
use ltop.OsBinary.Rounds.{Round, walk_round_inversion}
use ltop.OsBinary.Objects.{le-scalar_step, read_tag_inside}
use ltop.OsBinary.{OsBinary, Walk, walk_round, walk_loop, walk, item_len}

module _ (blob : Bytes) where
  -- A round moves the cursor on by four bytes or more, and not past the end of the blob.
  walk_round_moves :
      (w w' : Walk)
      → walk_round blob w ≡ some w'
      → (w.cursor + 4 ≤ w'.cursor) × (w'.cursor ≤ length blob)
  walk_round_moves w w' h = elim (walk_round_inversion blob w w' h) [
    | Round.reference tag read ref known after ↦
        let cursor : w'.cursor ≡ w.cursor + 4 = ap (λ (x : Walk). x.cursor) after in
        let inside = read_tag_inside blob w.cursor tag read in (omega arith, omega arith)
    | Round.object tag step read obj size inside noted cursor counted ↦
        let four = le-scalar_step tag step size in (omega arith, omega arith)
  ]

  walk_loop_bounds :
      (fuel : ℕ) (w w' : Walk)
      → walk_loop fuel blob w ≡ some w'
      → w.cursor ≤ length blob
      → (w.cursor ≤ w'.cursor) × (w'.cursor ≤ length blob)
  unfolding walk_loop
  walk_loop_bounds zero w w' h below = cc
  walk_loop_bounds (suc fuel) w w' h below = elim (Bool-cases (w.remaining == 0)) [
    | inl done ↦
        let e : w.cursor ≡ w'.cursor = ap (λ (x : Walk). x.cursor) (some_inj (rw done at h)) in
        (omega arith, omega arith)
    | inr more ↦
        let (w1, stepped, ran) =
          bind_some (walk_round blob w) (walk_loop fuel blob) w' (rw more at h) in
        let (on, inside) = walk_round_moves w w1 stepped in
        let (on', inside') = walk_loop_bounds fuel w1 w' ran inside in (omega arith, inside')
  ]

  -- More fuel than the blob has bytes left changes nothing.
  walk_loop_fuel :
      (fuel more : ℕ) (w : Walk)
      → w.cursor ≤ length blob
      → length blob < fuel + w.cursor
      → walk_loop (fuel + more) blob w ≡ walk_loop fuel blob w
  unfolding walk_loop
  walk_loop_fuel zero more w below enough = absurd (omega arith)
  walk_loop_fuel (suc fuel) more w below enough =
      let next : suc fuel + more ≡ suc (fuel + more) = omega arith in
      elim (Option-cases (walk_round blob w)) [
        | inl stuck ↦ rw (next, stuck)
        | inr (w1, stepped) ↦
            let (on, inside) = walk_round_moves w w1 stepped in
            rw (next, stepped) (rw (walk_loop_fuel fuel more w1 inside (omega arith)))
      ]

  -- From an offset inside the blob, with any larger fuel the loop of walk ends as walk does:
  -- the fuel of the model never runs out.
  pub walk_fuel :
      (start more : ℕ) (ck : Option Ckpts)
      → start ≤ length blob
      → walk_loop
          (length blob + 2 + more)
          blob
          (record { cursor = start; remaining = 1; count = 0; ck = ck })
        ≡ walk blob start ck
  unfolding walk
  walk_fuel start more ck below =
      walk_loop_fuel (length blob + 2) more
        (record { cursor = start; remaining = 1; count = 0; ck = ck }) below (omega arith)

  walk_moves :
      (fuel start : ℕ) (ck : Option Ckpts) (w' : Walk)
      → walk_loop fuel blob (record { cursor = start; remaining = 1; count = 0; ck = ck }) ≡ some w'
      → (start + 4 ≤ w'.cursor) × (w'.cursor ≤ length blob)
  unfolding walk_loop
  walk_moves zero start ck w' h = cc
  walk_moves (suc fuel) start ck w' h =
      let first : Walk = record { cursor = start; remaining = 1; count = 0; ck = ck } in
      let (w1, stepped, ran) = bind_some (walk_round blob first) (walk_loop fuel blob) w' h in
      let (on, inside) = walk_round_moves first w1 stepped in
      let (on', inside') = walk_loop_bounds fuel w1 w' ran inside in (omega arith, inside')

-- An item whose length item_len finds has four bytes or more and ends inside the blob.
pub item_len_bounds :
    (b : OsBinary) (offset len : ℕ)
    → item_len b offset ≡ some len
    → (4 ≤ len) × (offset + len ≤ length b.blob)
unfolding item_len walk
item_len_bounds b offset len h =
    let (tag, read, h1) = bind_some (read_tag b.blob offset) _ len h in
    let inside = read_tag_inside b.blob offset tag read in
    elim (Bool-cases (is_object tag)) [
      | inl ref ↦ let e : 4 ≡ len = some_inj (rw ref at h1) in (omega arith, omega arith)
      | inr obj ↦
          let (w, ran, ended) = bind_some (walk b.blob offset none) _ len (rw obj at h1) in
          let (on, inside') = walk_moves b.blob (length b.blob + 2) offset none w ran in
          let e : w.cursor - offset ≡ len = some_inj ended in (omega arith, omega arith)
    ]
