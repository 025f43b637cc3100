-- ===== src/Render/Roots.antt =====
-- src/main.rs, run and render_tree: the roots that are collected from a tree's list.
use native.Mathlib.Nat.{mul-le-mul_right}
use ltop.Base.{
  ℕ, zero, suc, ◌+◌, ◌*◌, ◌^◌, ◌≤◌, ◌<◌, ◌≡◌, refl, arith, true, List, [], ◌∷◌, length, get_or,
  Bool-cases, inl, inr,
}
use ltop.Tree.{Indent, is_root}
use ltop.Render.{proc_rows, roots_of, plan}
use ltop.Render.Kids.{Ascending}
use ltop.Render.Whole.{plan-whole}

-- Places that ascend from `low` on, with the end `d` behind them.
abbrev From : ℕ → List ℕ → ℕ → Type 0
From low [] d = low ≤ d
From low (r ∷ roots) d = (low ≤ r) × From (r + 1) roots d

From-lower :
    (low low' : ℕ) (roots : List ℕ) (d : ℕ) → low' ≤ low → From low roots d → From low' roots d
From-lower low low' [] d h f = omega arith
From-lower low low' (r ∷ roots) d h (le, f) = (omega arith, f)

roots_of-From : (i : ℕ) (tree : List (Indent × ℕ)) → From i (roots_of i tree) (i + length tree)
unfolding roots_of
roots_of-From i [] = omega arith
roots_of-From i ((indent, idx) ∷ tree) =
    let end : i + suc (length tree) ≡ i + 1 + length tree = omega arith in
    let ih = roots_of-From (i + 1) tree in
    elim (Bool-cases (is_root indent)) [
      | inl root ↦ rw (root, end) (omega arith, ih)
      | inr kid ↦
          rw (kid, end)
            (From-lower (i + 1) i (roots_of (i + 1) tree) (i + 1 + length tree) (omega arith) ih)
    ]

From-get_or : (low : ℕ) (roots : List ℕ) (d k : ℕ) → From low roots d → low ≤ get_or roots k d
From-get_or low [] d k f = f
From-get_or low (r ∷ roots) d zero (le, f) = le
From-get_or low (r ∷ roots) d (suc k) (le, f) =
    let ih = From-get_or (r + 1) roots d k f in omega arith

From-Ascending : (low : ℕ) (roots : List ℕ) (d : ℕ) → From low roots d → Ascending roots d
From-Ascending low [] d f k h = absurd (omega arith)
From-Ascending low (r ∷ roots) d (le, f) zero h =
    let next = From-get_or (r + 1) roots d 0 f in omega arith
From-Ascending low (r ∷ roots) d (le, f) (suc k) h =
    let e : suc k + 1 ≡ suc (k + 1) = omega arith in
    rw e (From-Ascending (r + 1) roots d f k (omega arith))

-- If the first row of a tree is a root, the tree has no more than max_rows rows, and their
-- number times max_rows fits a usize, then render_tree shows every row of the tree once, in
-- order, with no line for hidden children.
pub plan-roots_of :
    (indent : Indent) (idx : ℕ) (tree : List (Indent × ℕ)) (max_rows : ℕ)
    → is_root indent ≡ true
    → length ((indent, idx) ∷ tree) ≤ max_rows
    → max_rows * length ((indent, idx) ∷ tree) < 2 ^ 64
    → plan (roots_of 0 ((indent, idx) ∷ tree)) (length ((indent, idx) ∷ tree)) max_rows
      ≡ proc_rows 0 (length ((indent, idx) ∷ tree))
plan-roots_of indent idx tree max_rows root fits word =
    let whole = (indent, idx) ∷ tree in
    let lower : 1 * length whole ≤ max_rows * length whole =
      mul-le-mul_right (length whole) (omega arith) in
    let start : get_or (roots_of 0 whole) 0 (length whole) ≡ 0 = unfold roots_of in rw root refl in
    let z : 0 + length whole ≡ length whole = omega arith in
    let from = rw z at (roots_of-From 0 whole) in
    plan-whole (roots_of 0 whole) (length whole) max_rows
      (From-Ascending 0 (roots_of 0 whole) (length whole) from) start (omega arith) fits word
