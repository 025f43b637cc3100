-- ===== src/Render/Whole.antt =====
-- src/main.rs, render_tree: trees that fit, row by row.
use native.Mathlib.Nat.{mul-le-mul_left, mul-le-mul_right, le-div_iff_mul-le}
use ltop.Base.{
  ℕ, zero, suc, ◌+◌, ◌-◌, ◌*◌, ◌%◌, ◌^◌, ◌≤◌, ◌<◌, ◌≡◌, refl, sym, ap, arith, inl, inr, List, ◌∷◌,
  ◌++◌, append-nil, ltb, leb, ◌==◌, true, false, length, min, Bool-cases, ltb→lt, get_or,
}
use ltop.Render.{
  proc_row, proc_rows, kids_in, slot_of, limit_of, used_of, group_rows, plan_loop, plan,
}
use ltop.Render.Kids.{
  sum_kids, total_kids-exact, sum_kids-next, sum_kids-le, Adjacent, place-sum_kids, Ascending,
  get_or_past, Ascending-Adjacent, sum_kids-kids_in,
}

proc_rows-append :
    (first m n : ℕ) → proc_rows first (m + n) ≡ proc_rows first m ++ proc_rows (first + m) n
unfolding proc_rows
proc_rows-append first zero n =
    let e : first + 0 ≡ first = omega arith in let z : 0 + n ≡ n = omega arith in rw (e, z) refl
proc_rows-append first (suc m) n =
    let e : first + suc m ≡ first + 1 + m = omega arith in
    let z : suc m + n ≡ suc (m + n) = omega arith in
    rw (e, z) (ap (◌∷◌ (proc_row first)) (proc_rows-append (first + 1) m n))

-- A slot with room for all children shows them all.
used-whole : (slot kids : ℕ) → kids ≤ slot → used_of slot kids ≡ kids
unfolding used_of
used-whole slot kids h = ground arith

group_rows-whole :
    (root_ti kids slot : ℕ)
    → kids ≤ slot
    → group_rows root_ti kids slot ≡ proc_rows root_ti (kids + 1)
unfolding group_rows limit_of used_of
group_rows-whole root_ti kids slot h =
    let room : leb kids slot ≡ true = ground arith in
    let none_hidden : ltb kids kids ≡ false = ground arith in
    let e : kids + 1 ≡ suc kids = omega arith in
    rw (room, none_hidden, e, append-nil (proc_rows (root_ti + 1) kids)) (unfold proc_rows in refl)

room_for_all : (budget kids total : ℕ) → total ≤ budget → kids * total ≤ budget * kids
room_for_all budget kids total h =
    let scaled : total * kids ≤ budget * kids = mul-le-mul_right kids h in
    let turned : kids * total ≡ total * kids = grind arith in omega arith

slot_of-fits :
    (n_all budget total k kids allocated : ℕ)
    → allocated + kids ≤ budget
    → kids ≤ total
    → total ≤ budget
    → budget * kids < 2 ^ 64
    → kids ≤ slot_of n_all budget total k kids allocated
unfolding slot_of
slot_of-fits n_all budget total k kids allocated room low high word =
    let exact : budget * kids % 2 ^ 64 ≡ budget * kids = omega arith in
    elim (Bool-cases (k + 1 == n_all)) [
      | inl last ↦ rw last (omega arith)
      | inr more ↦ elim (Bool-cases (ltb 0 total)) [
        | inl some_kids ↦
            rw (more, some_kids, exact)
              ((le-div_iff_mul-le (ltb→lt 0 total some_kids)).1
                (room_for_all budget kids total high))
        | inr no_kids ↦ rw (more, no_kids) (ground arith)
      ]
    ]

module _ (place kids : ℕ → ℕ) (n_all budget : ℕ) where
  plan_loop-whole :
      Adjacent place kids n_all
      → place 0 ≡ 0
      → sum_kids kids n_all ≤ budget
      → budget * sum_kids kids n_all < 2 ^ 64
      → sum_kids kids n_all < 2 ^ 64
      → (rounds k : ℕ) → k + rounds ≡ n_all
      → plan_loop place kids n_all budget (sum_kids kids n_all) rounds k (sum_kids kids k)
        ≡ proc_rows (place k) (place n_all - place k)
  unfolding plan_loop
  plan_loop-whole next start fits word small zero k e =
      let same : k ≡ n_all = omega arith in
      let nothing : place n_all - place n_all ≡ 0 = omega arith in
      rw (same, nothing) (unfold proc_rows in refl)
  plan_loop-whole next start fits word small (suc rounds) k e =
      let total = sum_kids kids n_all in
      let prefix = sum_kids kids k in
      let grown = sum_kids-next kids k in
      let under = sum_kids-le kids (k + 1) n_all (omega arith) in
      let one : kids k ≤ total = omega arith in
      let slot = slot_of n_all budget total k (kids k) prefix in
      let room =
        slot_of-fits n_all budget total k (kids k) prefix (omega arith) (omega arith) fits
          (omega (arith, mul-le-mul_left budget one)) in
      let wrapped : (prefix + kids k) % 2 ^ 64 ≡ prefix + kids k = omega arith in
      let used = used-whole slot (kids k) room in
      let group = group_rows-whole (place k) (kids k) slot room in
      let behind = next k (omega arith) in
      let at_next = place-sum_kids place kids n_all next (k + 1) (omega arith) in
      let at_end = place-sum_kids place kids n_all next n_all (omega arith) in
      let ih = plan_loop-whole next start fits word small rounds (k + 1) (omega arith) in
      let joined = proc_rows-append (place k) (kids k + 1) (place n_all - place (k + 1)) in
      let size : kids k + 1 + (place n_all - place (k + 1)) ≡ place n_all - place k = omega arith in
      let there : place k + (kids k + 1) ≡ place (k + 1) = omega arith in
      rw (used, wrapped, ← grown, group, ih) (sym (rw (size, there) at joined))

pub plan-whole :
    (roots : List ℕ) (tree_len max_rows : ℕ)
    → Ascending roots tree_len
    → get_or roots 0 tree_len ≡ 0
    → tree_len < 2 ^ 64
    → tree_len ≤ max_rows
    → max_rows * tree_len < 2 ^ 64
    → plan roots tree_len max_rows ≡ proc_rows 0 tree_len
unfolding plan
plan-whole roots tree_len max_rows up start small fits word =
    let place = λ (k : ℕ). get_or roots k tree_len in
    let kids = kids_in roots tree_len in
    let n = length roots in
    let budget = max_rows - n in
    let filled = sum_kids-kids_in roots tree_len up small in
    let exact = total_kids-exact kids n (omega arith) in
    let past = get_or_past roots n tree_len (omega arith) in
    let scaled : budget * sum_kids kids n ≤ budget * tree_len =
      mul-le-mul_left budget (omega arith) in
    let lower : budget * tree_len ≤ max_rows * tree_len = mul-le-mul_right tree_len (omega arith) in
    let shown =
      plan_loop-whole place kids n budget (Ascending-Adjacent roots tree_len up small) start
        (omega arith) (omega arith) (omega arith) n 0 (omega arith) in
    let count : min n max_rows ≡ n = omega arith in
    let nothing : sum_kids kids 0 ≡ 0 = unfold sum_kids in refl in
    let whole : tree_len - 0 ≡ tree_len = omega arith in
    rw (count, exact) (rw (nothing, start, past, whole) at shown)
