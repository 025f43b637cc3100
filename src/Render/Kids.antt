-- ===== src/Render/Kids.antt =====
-- src/main.rs, render_tree: the children of the roots as plain numbers, where no sum wraps around.
use ltop.Base.{
  ℕ, zero, suc, ◌+◌, ◌-◌, ◌^◌, ◌≤◌, ◌<◌, ◌≡◌, refl, arith, List, [], ◌∷◌, leb, length, Bool-cases,
  inl, inr, get_or,
}
use ltop.Render.{kids_in, total_kids}

-- The sum of total_kids without a word's end.
unfoldable pub sum_kids : (ℕ → ℕ) → ℕ → ℕ
sum_kids kids zero = 0
sum_kids kids (suc n) = sum_kids kids n + kids n

pub total_kids-exact :
    (kids : ℕ → ℕ) (n : ℕ) → sum_kids kids n < 2 ^ 64 → total_kids kids n ≡ sum_kids kids n
unfolding total_kids sum_kids
total_kids-exact kids zero h = refl
total_kids-exact kids (suc n) h =
    let ih = total_kids-exact kids n (omega arith) in rw ih (omega arith)

pub sum_kids-next : (kids : ℕ → ℕ) (k : ℕ) → sum_kids kids (k + 1) ≡ sum_kids kids k + kids k
sum_kids-next kids k = let e : k + 1 ≡ suc k = omega arith in rw e (unfold sum_kids in refl)

pub sum_kids-le : (kids : ℕ → ℕ) (m n : ℕ) → m ≤ n → sum_kids kids m ≤ sum_kids kids n
unfolding sum_kids
sum_kids-le kids m zero h = let e : m ≡ 0 = omega arith in rw e (omega arith)
sum_kids-le kids m (suc n) h = elim (Bool-cases (leb m n)) [
  | inl under ↦ omega (arith, sum_kids-le kids m n (ground arith))
  | inr last ↦ let e : m ≡ suc n = ground arith in rw e (omega arith)
]

-- Each root stands behind the children of the one before.
abbrev pub Adjacent : (ℕ → ℕ) → (ℕ → ℕ) → ℕ → Type 0
Adjacent place kids n_all = (k : ℕ) → k < n_all → place (k + 1) ≡ place k + kids k + 1

pub place-sum_kids :
    (place kids : ℕ → ℕ) (n_all : ℕ)
    → Adjacent place kids n_all
    → (k : ℕ) → k ≤ n_all
    → place k ≡ place 0 + sum_kids kids k + k
unfolding sum_kids
place-sum_kids place kids n_all next zero h = omega arith
place-sum_kids place kids n_all next (suc k) h =
    let e : suc k ≡ k + 1 = omega arith in
    let ih = place-sum_kids place kids n_all next k (omega arith) in
    let here = next k h in let here' = rw (← e) at here in omega arith

-- The roots ascend inside the tree.
abbrev pub Ascending : List ℕ → ℕ → Type 0
Ascending roots tree_len =
    (k : ℕ) → k < length roots → get_or roots k tree_len < get_or roots (k + 1) tree_len

kids_in-exact :
    (roots : List ℕ) (tree_len k : ℕ)
    → get_or roots k tree_len < get_or roots (k + 1) tree_len
    → get_or roots (k + 1) tree_len < 2 ^ 64
    → get_or roots (k + 1) tree_len ≡ get_or roots k tree_len + kids_in roots tree_len k + 1
unfolding kids_in
kids_in-exact roots tree_len k lt small = omega arith

pub get_or_past : (roots : List ℕ) (k d : ℕ) → length roots ≤ k → get_or roots k d ≡ d
get_or_past [] k d h = refl
get_or_past (r ∷ roots) zero d h = absurd (omega arith)
get_or_past (r ∷ roots) (suc k) d h = get_or_past roots k d (omega arith)

-- No place behind `k` is past the end of the tree.
place-le :
    (roots : List ℕ) (tree_len gap k : ℕ)
    → Ascending roots tree_len
    → gap + k ≡ length roots
    → get_or roots k tree_len ≤ tree_len
place-le roots tree_len zero k up e =
    let past = get_or_past roots k tree_len (omega arith) in omega arith
place-le roots tree_len (suc gap) k up e =
    let lt = up k (omega arith) in
    let ih = place-le roots tree_len gap (k + 1) up (omega arith) in omega arith

pub Ascending-Adjacent :
    (roots : List ℕ) (tree_len : ℕ)
    → Ascending roots tree_len
    → tree_len < 2 ^ 64
    → Adjacent (λ k. get_or roots k tree_len) (kids_in roots tree_len) (length roots)
Ascending-Adjacent roots tree_len up small k lt =
    let inside = place-le roots tree_len (length roots - (k + 1)) (k + 1) up (omega arith) in
    kids_in-exact roots tree_len k (up k lt) (omega arith)

-- The roots and their children fill the tree from the first root on.
pub sum_kids-kids_in :
    (roots : List ℕ) (tree_len : ℕ)
    → Ascending roots tree_len
    → tree_len < 2 ^ 64
    → get_or roots 0 tree_len + sum_kids (kids_in roots tree_len) (length roots) + length roots
      ≡ tree_len
sum_kids-kids_in roots tree_len up small =
    let n = length roots in
    let past = get_or_past roots n tree_len (omega arith) in
    let all =
      place-sum_kids (λ k. get_or roots k tree_len) (kids_in roots tree_len) n
        (Ascending-Adjacent roots tree_len up small) n (omega arith) in
    omega arith
