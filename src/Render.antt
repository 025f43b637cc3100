-- ===== src/Render.antt =====
-- src/main.rs: render_tree. plan is the rows that it writes, in order, and render_tree their bytes;
-- colours and the two row printers are modelled with them. `none` is a panic. A row is named by its
-- place in the tree's list. Sums, products and differences of
-- a usize in the budget wrap around; `saturating_sub` stops at 0.
pub mod Kids
pub mod Budget
pub mod Whole
pub mod Roots
mod Tests
use ltop.Base.{
  ℕ, zero, suc, ◌+◌, ◌-◌, ◌*◌, ◌/◌, ◌%◌, ◌^◌, Bool, true, false, Option, none, some, List, [], ◌∷◌,
  ◌++◌, ltb, leb, ◌==◌, if◌then◌else◌, ◌>>=◌, length, get_elem?, get_or, min, max, replicate,
}
use ltop.Bytes.{Bytes}
use ltop.Twrite.{write_u32}
use ltop.Pad.{pad_left, pad_right}
use ltop.Format as Format
use ltop.Format.{format_mem, format_age}
use ltop.Proc.{GpuUsage, ProcInfo, age_secs}
use ltop.Tree.{Indent, is_root, width, put_indent, elbow}

pub data Row : Type 0 where
  proc_row : ℕ → Row
  elision_row : ℕ → ℕ → Row

-- `for ti in first..first + n`.
unfoldable pub proc_rows : ℕ → ℕ → List Row
proc_rows first zero = []
proc_rows first (suc n) = proc_row first ∷ proc_rows (first + 1) n

unfoldable pub kids_in : List ℕ → ℕ → ℕ → ℕ
kids_in roots tree_len k =
    (get_or roots (k + 1) tree_len + 2 ^ 64 - get_or roots k tree_len - 1) % 2 ^ 64

-- The sum of the numbers of children of the first `n` roots.
unfoldable pub total_kids : (ℕ → ℕ) → ℕ → ℕ
total_kids kids zero = 0
total_kids kids (suc n) = (total_kids kids n + kids n) % 2 ^ 64

-- The slot of a root, and from it the shown children and the lines that are used.
unfoldable pub slot_of : ℕ → ℕ → ℕ → ℕ → ℕ → ℕ → ℕ
slot_of n_all budget total k kids allocated =
    if k + 1 == n_all
    then budget - allocated
    else if ltb 0 total
    then budget * kids % 2 ^ 64 / total
    else 0

unfoldable pub limit_of : ℕ → ℕ → ℕ
limit_of slot kids = if leb kids slot then kids else slot - 1

unfoldable pub used_of : ℕ → ℕ → ℕ
used_of slot kids = if leb kids slot then kids else slot

-- The rows of one root: itself, the children that are shown, and the line for the others.
unfoldable pub group_rows : ℕ → ℕ → ℕ → List Row
group_rows root_ti kids slot =
    let limit = limit_of slot kids in
    let marker =
      if ltb limit (used_of slot kids)
      then elision_row (root_ti + 1 + limit) (kids - limit) ∷ []
      else [] in
    proc_row root_ti ∷ (proc_rows (root_ti + 1) limit ++ marker)

-- The loop over the roots, by the rounds left, with the place and the children of each root.
unfoldable pub plan_loop : (ℕ → ℕ) → (ℕ → ℕ) → ℕ → ℕ → ℕ → ℕ → ℕ → ℕ → List Row
plan_loop place kids n_all budget total zero k allocated = []
plan_loop place kids n_all budget total (suc rounds) k allocated =
    let slot = slot_of n_all budget total k (kids k) allocated in
    group_rows (place k) (kids k) slot
    ++ plan_loop place kids n_all budget total rounds (k + 1)
        ((allocated + used_of slot (kids k)) % 2 ^ 64)

unfoldable pub plan : List ℕ → ℕ → ℕ → List Row
plan roots tree_len max_rows =
    let kids = kids_in roots tree_len in
    plan_loop (λ k. get_or roots k tree_len) kids (length roots) (max_rows - length roots)
      (total_kids kids (length roots)) (min (length roots) max_rows) 0 0

-- The places of the roots, from place `i` on, as `run` collects them for render_tree.
unfoldable pub roots_of : ℕ → List (Indent × ℕ) → List ℕ
unfolding is_root
roots_of i [] = []
roots_of i ((indent, idx) ∷ tree) =
    let rest = roots_of (i + 1) tree in if is_root indent then i ∷ rest else rest

-- What a row uses of its f32: the cast to a u32, and the text of f1_wide.
pub record CpuCell (F : Type 0) : Type 0 where
  pub to_u32 : F → ℕ
  pub f1_wide : F → ℕ → Bytes

abbrev pub Color : Type 0
Color = ℕ × ℕ × ℕ

-- FgOpen, FG_CLOSE_EOL and GPU_BLANK, and the number of the data columns for the GPU.
unfoldable pub put_fg_open : Color → Option Bytes
put_fg_open (r, g, b) = do
  rs ← write_u32 r
  gs ← write_u32 g
  bs ← write_u32 b
  some (
      0x1b
      ∷ b'['
      ∷ b'3'
      ∷ b'8'
      ∷ b';'
      ∷ b'2'
      ∷ b';'
      ∷ (rs ++ b';' ∷ (gs ++ b';' ∷ (bs ++ b'm' ∷ []))))

abbrev pub fg_close_eol : Bytes
fg_close_eol = 0x1b ∷ b'[' ∷ b'0' ∷ b'm' ∷ 0x1b ∷ b'[' ∷ b'K' ∷ 0x0a ∷ []

abbrev pub gpu_data_cols : ℕ
gpu_data_cols = 2

abbrev pub gpu_blank : Bytes
gpu_blank = replicate 14 b' '

module _ {F : Type 0} (c : CpuCell F) where
  open c use {to_u32, f1_wide}

  -- The colour of a row; the parts of the GPU apart.
  unfoldable pub gpu_red : GpuUsage → ℕ → ℕ → ℕ
  gpu_red g total_mib r =
      if ltb 0 total_mib then max r (min (g.mem_mib * 255 / total_mib) 255) else r

  unfoldable pub row_color : F → ℕ → Option GpuUsage → ℕ → Color
  unfolding gpu_red
  row_color cpu rss_kib gpu gpu_total_mib =
      let r = min (rss_kib * 255 / (4 * 2 ^ 20)) 255 in
      let b = min (to_u32 cpu) 100 * 255 / 100 in
      elim gpu [
        | none ↦ (r, 0, b)
        | some g ↦ (gpu_red g gpu_total_mib r, 0, max b (min (g.sm_pct * 255 / 100) 255))
      ]

  -- The cells of the GPU; `mem_mib << 10` in a u32.
  unfoldable pub gpu_cells : Option GpuUsage → Option Bytes
  gpu_cells none = some gpu_blank
  gpu_cells (some g) = do
    pct ← pad_right g.sm_pct 6
    mem ← format_mem (g.mem_mib * 2 ^ 10 % 2 ^ 32)
    some (b' ' ∷ (pct ++ b' ' ∷ mem))

  unfoldable pub emit_proc_row :
      List (ProcInfo F) → List (Indent × ℕ) → ℕ → ℕ → ℕ → Bool → Option Bytes
  unfolding row_color gpu_cells put_fg_open
  emit_proc_row procs tree ti term_width gpu_total_mib has_gpu = do
    (indent, idx) ← get_elem? tree ti
    p ← get_elem? procs idx
    let stats_w = 7 + (3 + (if has_gpu then gpu_data_cols else 0)) * 7
    cmd ← Format.truncate p.display (term_width - (stats_w + 2 + width indent))
    color ← put_fg_open (row_color p.cpu p.rss_kib p.gpu gpu_total_mib)
    pid ← pad_left p.pid 7
    mem ← format_mem p.rss_kib
    gpu ← if has_gpu then gpu_cells p.gpu else some []
    age ← format_age (age_secs p)
    let stats = color ++ (pid ++ b' ' ∷ (f1_wide p.cpu 6 ++ b' ' ∷ (mem ++ gpu)))
    let rest = b' ' ∷ (age ++ b' ' ∷ b' ' ∷ (put_indent indent ++ (cmd ++ fg_close_eol)))
    some (stats ++ rest)

  unfoldable pub emit_elision_row : ℕ → Bool → Color → Option Bytes
  unfolding put_fg_open
  emit_elision_row more has_gpu color = do
    open_color ← put_fg_open color
    count ← write_u32 (more % 2 ^ 32)
    let blanks = 30 + (if has_gpu then gpu_data_cols * 7 else 0)
    let rest = count ++ b' ' ∷ b'm' ∷ b'o' ∷ b'r' ∷ b'e' ∷ b'.' ∷ b'.' ∷ b'.' ∷ fg_close_eol
    some (open_color ++ (replicate blanks b' ' ++ (elbow ++ rest)))

  -- The greatest red and blue of the rows that are hidden, by their number.
  unfoldable pub peak_loop :
      List (ProcInfo F) → List (Indent × ℕ) → ℕ → ℕ → ℕ → ℕ → ℕ → Option Color
  unfolding row_color
  peak_loop procs tree gpu_total_mib zero ti rmax bmax = some (rmax, 0, bmax)
  peak_loop procs tree gpu_total_mib (suc n) ti rmax bmax = do
    (indent, idx) ← get_elem? tree ti
    p ← get_elem? procs idx
    let (r, g, b) = row_color p.cpu p.rss_kib p.gpu gpu_total_mib
    peak_loop procs tree gpu_total_mib n (ti + 1) (max rmax r) (max bmax b)

  unfoldable pub emit_row :
      List (ProcInfo F) → List (Indent × ℕ) → ℕ → ℕ → Bool → Row → Option Bytes
  unfolding emit_proc_row emit_elision_row peak_loop
  emit_row procs tree term_width gpu_total_mib has_gpu (proc_row ti) =
      emit_proc_row procs tree ti term_width gpu_total_mib has_gpu
  emit_row procs tree term_width gpu_total_mib has_gpu (elision_row first n) = do
    color ← peak_loop procs tree gpu_total_mib n first 0 0
    emit_elision_row n has_gpu color

  unfoldable pub emit_rows :
      List (ProcInfo F) → List (Indent × ℕ) → ℕ → ℕ → Bool → List Row → Option Bytes
  unfolding emit_row
  emit_rows procs tree term_width gpu_total_mib has_gpu [] = some []
  emit_rows procs tree term_width gpu_total_mib has_gpu (row ∷ rows) = do
    line ← emit_row procs tree term_width gpu_total_mib has_gpu row
    rest ← emit_rows procs tree term_width gpu_total_mib has_gpu rows
    some (line ++ rest)

  unfoldable pub render_tree :
      List (ProcInfo F) → List (Indent × ℕ) → List ℕ → ℕ → ℕ → ℕ → Bool → Option Bytes
  unfolding plan emit_rows
  render_tree procs tree roots max_rows term_width gpu_total_mib has_gpu =
      emit_rows procs tree term_width gpu_total_mib has_gpu (plan roots (length tree) max_rows)
