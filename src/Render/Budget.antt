-- ===== src/Render/Budget.antt =====
-- src/main.rs, render_tree: the number of the rows that it writes.
use native.Mathlib.Nat.{div-add-mod, mul-le-mul_left, mul-le-mul_right, le_of_mul-le-mul_right}
use ltop.Base.{
  ℕ, zero, suc, ◌+◌, ◌-◌, ◌*◌, ◌%◌, ◌^◌, ◌≤◌, ◌<◌, ◌≡◌, refl, arith, ◌⊎◌, inl, inr, List, [], ◌∷◌,
  ltb, ◌==◌, true, false, length, length-append, min, Bool-cases, ltb→lt, get_or,
}
use ltop.Render.Kids.{
  sum_kids, total_kids-exact, sum_kids-next, sum_kids-le, sum_kids-kids_in, Ascending,
}
use ltop.Render.{
  Row, elision_row, proc_rows, kids_in, slot_of, limit_of, used_of, group_rows, plan_loop, plan,
}

pub length-proc_rows : (first n : ℕ) → length (proc_rows first n) ≡ n
unfolding proc_rows
length-proc_rows first zero = refl
length-proc_rows first (suc n) = omega (arith, length-proc_rows (first + 1) n)

hidden_line :
    (slot kids : ℕ)
    → ltb (limit_of slot kids) (used_of slot kids) ≡ true
    → used_of slot kids ≡ limit_of slot kids + 1
unfolding limit_of used_of
hidden_line slot kids h = ground arith

shown_all :
    (slot kids : ℕ)
    → ltb (limit_of slot kids) (used_of slot kids) ≡ false
    → used_of slot kids ≡ limit_of slot kids
unfolding limit_of used_of
shown_all slot kids h = ground arith

-- A root takes its own row and the lines of its slot that are used.
length-group_rows :
    (root_ti kids slot : ℕ) → length (group_rows root_ti kids slot) ≡ 1 + used_of slot kids
unfolding group_rows
length-group_rows root_ti kids slot =
    let shown = length-proc_rows (root_ti + 1) (limit_of slot kids) in
    elim (Bool-cases (ltb (limit_of slot kids) (used_of slot kids))) [
      | inl hidden ↦
          let split =
            length-append (proc_rows (root_ti + 1) (limit_of slot kids))
              (elision_row (root_ti + 1 + limit_of slot kids) (kids - limit_of slot kids) ∷ []) in
          rw hidden (let one = hidden_line slot kids hidden in omega arith)
      | inr all ↦
          let split = length-append {A = Row} (proc_rows (root_ti + 1) (limit_of slot kids)) [] in
          rw all (let none_left = shown_all slot kids all in omega arith)
    ]

used-le : (slot kids : ℕ) → used_of slot kids ≤ slot
unfolding used_of
used-le slot kids = ground arith

slot_last :
    (n_all budget total k kids allocated : ℕ)
    → k + 1 ≡ n_all
    → slot_of n_all budget total k kids allocated ≡ budget - allocated
unfolding slot_of
slot_last n_all budget total k kids allocated e =
    let last : (k + 1 == n_all) ≡ true = ground arith in rw last refl

slot_share :
    (n_all budget total k kids allocated : ℕ)
    → (k + 1 == n_all) ≡ false
    → (slot_of n_all budget total k kids allocated * total ≤ budget * kids)
      × (total ≡ 0 → slot_of n_all budget total k kids allocated ≡ 0)
unfolding slot_of
slot_share n_all budget total k kids allocated e = elim (Bool-cases (ltb 0 total)) [
  | inl some_kids ↦
      let split = div-add-mod (budget * kids) total in
      rw (e, some_kids) (omega arith, λ z. absurd (ground arith))
  | inr no_kids ↦ let z : total ≡ 0 = ground arith in rw (e, no_kids) (omega arith, λ t. refl)
]

module _ (place kids : ℕ → ℕ) (n_all budget : ℕ) (word : budget < 2 ^ 64) where
  -- What is allocated before root `k`: no more than the budget, and than the shares of those roots.
  abbrev Within : ℕ → ℕ → Type 0
  Within k allocated =
      (allocated ≤ budget) × (allocated * sum_kids kids n_all ≤ budget * sum_kids kids k)

  Within-step :
      (k allocated : ℕ)
      → k < n_all
      → Within k allocated
      → (allocated
            + used_of (slot_of n_all budget (sum_kids kids n_all) k (kids k) allocated) (kids k)
          ≤ budget)
        × ((k + 1 ≡ n_all)
            ⊎ Within (k + 1) (
                allocated
                + used_of
                    (slot_of n_all budget (sum_kids kids n_all) k (kids k) allocated)
                    (kids k)))
  Within-step k allocated lt (within, shares) =
      let total = sum_kids kids n_all in
      let slot = slot_of n_all budget total k (kids k) allocated in
      let u = used_of slot (kids k) in
      let some_used = used-le slot (kids k) in
      elim (Bool-cases (k + 1 == n_all)) [
        | inl last ↦
            let rest = slot_last n_all budget total k (kids k) allocated (ground arith) in
            (omega arith, inl (ground arith))
        | inr more ↦
            let (share, zero_slot) = slot_share n_all budget total k (kids k) allocated more in
            let used_share : u * total ≤ slot * total = mul-le-mul_right total some_used in
            let both : (allocated + u) * total ≡ allocated * total + u * total = grind arith in
            let prefix : budget * sum_kids kids (k + 1)
                ≡ budget * sum_kids kids k + budget * kids k =
              let next = sum_kids-next kids k in rw next (grind arith) in
            let whole : budget * sum_kids kids (k + 1) ≤ budget * total =
              mul-le-mul_left budget (sum_kids-le kids (k + 1) n_all (omega arith)) in
            let fits : allocated + u ≤ budget = elim (Bool-cases (ltb 0 total)) [
              | inl some_kids ↦
                  le_of_mul-le-mul_right {k = total} (omega arith) (ltb→lt 0 total some_kids)
              | inr no_kids ↦ let z = zero_slot (ground arith) in omega arith
            ] in
            (fits, inr (fits, omega arith))
      ]

  plan_loop_end :
      (rounds k allocated : ℕ)
      → rounds ≡ 0
      → length (plan_loop place kids n_all budget (sum_kids kids n_all) rounds k allocated) ≡ 0
  unfolding plan_loop
  plan_loop_end zero k allocated e = refl
  plan_loop_end (suc rounds) k allocated e = absurd (omega arith)

  length-plan_loop :
      (rounds k allocated : ℕ)
      → k + rounds ≤ n_all
      → Within k allocated
      → length (plan_loop place kids n_all budget (sum_kids kids n_all) rounds k allocated)
          + allocated
        ≤ rounds + budget
  unfolding plan_loop
  length-plan_loop zero k allocated h (within, shares) = omega arith
  length-plan_loop (suc rounds) k allocated h w =
      let total = sum_kids kids n_all in
      let slot = slot_of n_all budget total k (kids k) allocated in
      let sum = allocated + used_of slot (kids k) in
      let next = sum % 2 ^ 64 in
      let rest = plan_loop place kids n_all budget total rounds (k + 1) next in
      let (fits, later) = Within-step k allocated (omega arith) w in
      let exact : next ≡ sum = omega arith in
      let size = length-append (group_rows (place k) (kids k) slot) rest in
      let group = length-group_rows (place k) (kids k) slot in
      elim later [
        | inl last ↦ let none_left = plan_loop_end rounds (k + 1) next (omega arith) in omega arith
        | inr goes_on ↦
            let ih = length-plan_loop rounds (k + 1) next (omega arith) (rw (← exact) at goes_on) in
            omega arith
      ]

-- If the roots ascend inside a tree with fewer than 2^64 rows, then, however many children each
-- root has, render_tree plans no more rows than max_rows, which is a usize.
pub length-plan :
    (roots : List ℕ) (tree_len max_rows : ℕ)
    → Ascending roots tree_len
    → tree_len < 2 ^ 64
    → max_rows < 2 ^ 64
    → length (plan roots tree_len max_rows) ≤ max_rows
unfolding plan sum_kids
length-plan roots tree_len max_rows up small word =
    let kids = kids_in roots tree_len in
    let n = length roots in
    let filled = sum_kids-kids_in roots tree_len up small in
    let exact = total_kids-exact kids n (omega arith) in
    let within =
      length-plan_loop (λ k. get_or roots k tree_len) kids n (max_rows - n) (omega arith)
        (min n max_rows) 0 0 (omega arith) (omega arith, omega arith) in
    rw exact (omega arith)
