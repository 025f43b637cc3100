-- ===== src/Render/Tests.antt =====
-- src/main.rs: the rows of small trees, and the theorems about them.
use ltop.Base.{ℕ, zero, suc, ◌-◌, ◌^◌, ◌≤◌, ◌≡◌, refl, arith, List, [], ◌∷◌, length, none}
use ltop.Render.{
  roots_of, proc_row, elision_row, proc_rows, kids_in, total_kids, slot_of, limit_of, used_of,
  group_rows, plan_loop, plan, CpuCell, row_color,
}
use ltop.Render.Kids.{Ascending}
use ltop.Render.Budget.{length-plan}
use ltop.Tree.{Indent, is_root}
use ltop.Render.Roots.{plan-roots_of}

-- Two roots, with five children and one.
abbrev places : List ℕ
places = 0 ∷ 6 ∷ []

plan_short :
    plan places 8 5 ≡ proc_row 0 ∷ proc_row 1 ∷ elision_row 2 4 ∷ proc_row 6 ∷ proc_row 7 ∷ []
unfolding plan plan_loop group_rows proc_rows kids_in total_kids slot_of limit_of used_of
plan_short = refl

-- More roots than rows.
plan_roots : plan (0 ∷ 1 ∷ 2 ∷ []) 3 2 ≡ proc_row 0 ∷ proc_row 1 ∷ []
unfolding plan plan_loop group_rows proc_rows kids_in total_kids slot_of limit_of used_of
plan_roots = refl

places-Ascending : Ascending places 8
places-Ascending zero h = omega arith
places-Ascending (suc zero) h = omega arith
places-Ascending (suc (suc k)) h = absurd (omega arith)

-- Roots that do not ascend: the sum and the product wrap around.
wrapped_slot :
    (total_kids (kids_in (5 ∷ 0 ∷ 6 ∷ []) 10) 3 ≡ 2)
    × (slot_of 3 17 2 0 (kids_in (5 ∷ 0 ∷ 6 ∷ []) 10 0) 0 ≡ 2 ^ 63 - 51)
unfolding total_kids kids_in slot_of
wrapped_slot = (refl, refl)

length-plan_example : length (plan places 8 5) ≤ 5
length-plan_example = length-plan places 8 5 places-Ascending (omega arith) (omega arith)

-- The tree of a root with a child, and a root.
abbrev top : Indent
top = record { depth = 0; mask = 0 }

abbrev below : Indent
below = record { depth = 1; mask = 1 }

plan-roots_of_example :
    plan (roots_of 0 ((top, 2) ∷ (below, 0) ∷ (top, 1) ∷ [])) 3 10 ≡ proc_rows 0 3
unfolding is_root
plan-roots_of_example =
    plan-roots_of top 2 ((below, 0) ∷ (top, 1) ∷ []) 10 refl (omega arith) (omega arith)

-- A number in place of the f32.
abbrev whole_percent : CpuCell ℕ
whole_percent = record { to_u32 = λ x. x; f1_wide = λ x w. [] }

color_busy : row_color whole_percent 150 (2 ^ 21) none 0 ≡ (127, 0, 255)
unfolding row_color
color_busy = refl
