-- ===== src/Tick.antt =====
-- src/main.rs, run: the rows of one tick, from the processes of the system to the bytes of the table, and
-- the samples for the next tick. The entries of the GPU's driver are a parameter. `none` is a panic or
-- the end of the fuel of the two directories. The room of the arena is followed in the filter alone:
-- what gpu_pids, collect_procs, apply, tree_layout and the printed table take of it is left out, and
-- so are the panics of the arena there. `none` is also the panic of an assertion of a dev build:
-- of pack, of Map::new on the samples of the tick before, and of the filter. The line above the table is left out.
pub mod Total
mod Tests
use ltop.Base.{
  ℕ, Bool, true, false, Option, none, some, List, [], ◌∷◌, ◌==◌, ltb, if◌then◌else◌, ◌>>=◌, map,
  ◌-◌, length,
}
use ltop.Bytes.{Bytes}
use ltop.Map.{get, freeze_set, map_new}
use ltop.Sort.Slice.{sort_slice}
use ltop.Proc.{Float32, GpuUsage, ProcInfo}
use ltop.Collect.{CpuScale, Host, ProcFiles, collect_procs}
use ltop.Filter.{filter_with_children}
use ltop.Label.Apply.{Files, apply}
use ltop.Tree.{tree_layout}
use ltop.Render.{CpuCell, render_tree, roots_of}

-- GpuProc, and GpuInfo::usage: `mem_mib` of a GpuUsage is not zero.
pub record GpuProc : Type 0 where
  pub proc_sm_pct : ℕ
  pub proc_mem_mib : ℕ

unfoldable pub usage : List (ℕ × GpuProc) → ℕ → Option GpuUsage
usage procs pid = get procs pid >>= λ gp.
    if gp.proc_mem_mib == 0
    then none
    else some (record { sm_pct = gp.proc_sm_pct; mem_mib = gp.proc_mem_mib })

-- The pids of the driver's entries; on Linux every percentage reaches the threshold.
unfoldable pub gpu_pids_of : List (ℕ × GpuProc) → List ℕ
gpu_pids_of procs = map (λ e. e.0) procs

-- What the system gives in one tick, besides the answers for the two directories: their files, and the
-- entries of the driver.
pub record System : Type 0 where
  pub host : Host
  pub proc_files : ProcFiles
  pub label_files : Files
  pub gpu : List (ℕ × GpuProc)

module _ {F : Type 0} (f : Float32 F) (c : CpuScale F) where
  -- `p.gpu = Some(usage)` for each row with usage.
  unfoldable pub attach_gpu : List (ℕ × GpuProc) → List (ProcInfo F) → List (ProcInfo F)
  attach_gpu gpu [] = []
  attach_gpu gpu (p ∷ procs) =
      (elim (usage gpu p.pid) [ none ↦ p | some u ↦ record p { gpu = some u } ])
      ∷ attach_gpu gpu procs

  -- The rows of the table, the samples for the next tick, and the labels that are unlinked. `offset`
  -- is the bump offset of the arena behind collect_procs, where the filter's scope starts.
  unfoldable pub tick_rows :
      ℕ
      → ℕ
      → System
      → Option (List Bytes)
      → Option (List Bytes)
      → List (ℕ × ℕ)
      → Option (List (ProcInfo F) × List (ℕ × ℕ) × List Bytes)
  tick_rows fuel offset s proc_answers label_answers prev = do
    gpu_pids ← freeze_set (gpu_pids_of s.gpu)
    prev_map ← map_new prev
    (procs, next) ← collect_procs f c s.host s.proc_files prev_map gpu_pids fuel proc_answers
    (kept, next) ← filter_with_children f offset (attach_gpu s.gpu procs) prev_map next
    (rows, unlinked) ← apply s.label_files fuel label_answers (sort_slice (λ p. p.pid) kept)
    some (rows, sort_slice (λ e. e.0) next, unlinked)

  -- The bytes of the table, too.
  unfoldable pub tick :
      CpuCell F
      → ℕ
      → ℕ
      → System
      → Option (List Bytes)
      → Option (List Bytes)
      → List (ℕ × ℕ)
      → ℕ
      → ℕ
      → ℕ
      → Bool
      → Option (Bytes × List (ℕ × ℕ))
  tick cell fuel offset s proc_answers label_answers prev height width gpu_total_mib has_gpu = do
    (rows, next, unlinked) ← tick_rows fuel offset s proc_answers label_answers prev
    tree ← tree_layout rows
    table ← render_tree cell rows tree (roots_of 0 tree) (height - 4) width gpu_total_mib has_gpu
    some (table, next)
