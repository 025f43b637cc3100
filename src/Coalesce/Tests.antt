-- ===== src/Coalesce/Tests.antt =====
-- src/main.rs, coalesce_helpers on a small table.
use ltop.Base.{ℕ, ◌+◌, ◌≡◌, refl, true, false, none, some, List, [], ◌∷◌, ◌++◌, ◌>>=◌, leb}
use ltop.Bytes.{Bytes}
use ltop.Map.{get, binary_search_by_key, search_loop}
use ltop.Map.Values.{all_below-get}
use ltop.Proc.{Float32, ProcInfo, visible, set_visible}
use ltop.Coalesce.{
  is_helper_of, is_shard_name, helper, renderer, coalesce_helpers, fold_loop, fold_helper,
  coalesce_root, climb_loop,
}
use ltop.Coalesce.Totals.{InRange, Kept, coalesce_helpers-Kept}

abbrev code : Bytes
code = b'C' ∷ b'o' ∷ b'd' ∷ b'e' ∷ []

folds_code : is_helper_of (code ++ helper) code ≡ true
unfolding is_helper_of
folds_code = refl

code_itself : is_helper_of code code ≡ false
unfolding is_helper_of
code_itself = refl

code_shard : is_shard_name (code ++ renderer) ≡ true
unfolding is_shard_name
code_shard = refl

abbrev hundredths : Float32 ℕ
hundredths = record {
  zero = 0;
  add = λ a b. a + b;
  at_least = λ a b. leb b a;
  child_cpu_thresh = 100;
  child_cpu_keep_thresh = 30;
}

abbrev row : ℕ → ℕ → ℕ → Bytes → ProcInfo ℕ
row pid ppid rss display = record {
  pid = pid;
  ppid = ppid;
  cpu = 5;
  rss_kib = rss;
  age_visible = 100;
  gpu = none;
  display = display;
}

-- An app and its helper, whose memory moves to the app.
abbrev app : List (ProcInfo ℕ)
app = row 10 1 1000 code ∷ row 11 10 24 (code ++ helper) ∷ []

abbrev numbers : List (ℕ × ℕ)
numbers = (10, 0) ∷ (11, 1) ∷ []

memories : List (ProcInfo ℕ) → List ℕ
memories [] = []
memories (p ∷ procs) = p.rss_kib ∷ memories procs

app_folds :
    (coalesce_helpers hundredths numbers app >>= λ procs. some (memories procs))
    ≡ some (1024 ∷ 0 ∷ [])
unfolding coalesce_helpers fold_loop fold_helper coalesce_root climb_loop get binary_search_by_key
    search_loop visible set_visible memories
app_folds = refl

numbers-InRange : InRange 2 numbers
numbers-InRange k v found = all_below-get 2 k v numbers refl found

coalesce_helpers-Kept_example :
    (procs' : List (ProcInfo ℕ)) × (coalesce_helpers hundredths numbers app ≡ some procs')
    × Kept app procs'
coalesce_helpers-Kept_example = coalesce_helpers-Kept hundredths numbers app numbers-InRange
