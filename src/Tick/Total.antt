-- ===== src/Tick/Total.antt =====
-- src/main.rs, run: from the processes of the system to the rows of a tick.
use mathlib.Core.List.{Sublistᴰ}
use mathlib.Core.Path.{subst}
use ltop.Base.{
  ℕ, suc, ◌<◌, ◌≡◌, refl, sym, ◌+◌, ◌*◌, ◌^◌, ◌≤◌, ap, ◌∙◌, arith, some, List, [], ◌∷◌, map, length,
  bind_some, Option-cases, inl, inr,
}
use ltop.Bytes.{has}
use ltop.Map.{freeze_set, contains}
use ltop.Map.Order.{IsStrict, map_new-IsStrict}
use ltop.Map.Freeze.{contains-freeze_set}
use ltop.Arena.{arena_size}
use ltop.Sort.Slice.{sort_slice}
use ltop.Proc.{Float32, ProcInfo}
use ltop.Filter.Queue.{pids}
use ltop.Filter.Total.{AllVisible, filter_with_children_total}
use ltop.Collect.{CpuScale}
use ltop.Collect.Rows.{Reads, pids_but, collect_procs-pids}
use ltop.Dir.{Entry}
use ltop.Dir.Shown.{Batch, AllDirents, records, listed, answers_of, shown}
use ltop.Label.Apply.Names.{Parses}
use ltop.Label.Apply.Rows.{relabel, stale}
use ltop.Label.Apply.Whole.{apply_lem}
use ltop.Tick.{GpuProc, System, usage, gpu_pids_of, attach_gpu, tick_rows}

length-pids :
    {F : Type 0} (procs : List (ProcInfo F)) (ys : List ℕ)
    → pids procs ≡ ys
    → length procs ≡ length ys
length-pids [] ys e = ap length e
length-pids (p ∷ procs) ys e = ap suc (length-pids procs (pids procs) refl) ∙ ap length e

freeze_set_total : (keys : List ℕ) → (s : List ℕ) × (freeze_set keys ≡ some s)
freeze_set_total keys =
    let (s, frozen, _) =
      bind_some (freeze_set keys) (λ s. some (contains s 0)) (has keys 0)
        (contains-freeze_set keys 0) in
    (s, frozen)

module _ {F : Type 0} (f : Float32 F) (c : CpuScale F) where
  pids-attach_gpu :
      (gpu : List (ℕ × GpuProc)) (procs : List (ProcInfo F))
      → pids (attach_gpu f c gpu procs) ≡ map (λ p. p.pid) procs
  unfolding attach_gpu
  pids-attach_gpu gpu [] = refl
  pids-attach_gpu gpu (p ∷ procs) = elim (Option-cases (usage gpu p.pid)) [
    | inl e ↦ rw e (ap (◌∷◌ p.pid) (pids-attach_gpu gpu procs))
    | inr (u, e) ↦ rw e (ap (◌∷◌ p.pid) (pids-attach_gpu gpu procs))
  ]

  -- Suppose that the lines of processes are parsed without a panic, the clock is below 2^31
  -- seconds, the samples of the tick before ascend strictly by pid, both directories have
  -- well-formed records and fuel for one more than those, and behind collect_procs the arena
  -- has 25 bytes for each process but its own and 16 more. Then a tick gets from the
  -- processes to the rows of its table, cycles of parents included, with no panic but one of
  -- the arena for want of room outside the filter, which is not modelled. The rows that the
  -- filter keeps are visible, and their pids are a sublist of the pids of /proc but its own;
  -- they are sorted by pid and get the texts of the live labels; the stale labels are
  -- unlinked; and the samples for the next tick are one for each process, with its pid, and
  -- sorted by pid.
  pub tick_rows_total :
      (s : System) (procs labels : List Batch) (fuel offset : ℕ) (prev : List (ℕ × ℕ))
      → Reads f c s.host s.proc_files prev []
      → s.host.wall_now < 2 ^ 31
      → IsStrict (λ e. e.0) prev
      → Parses s.label_files
      → AllDirents (records procs)
      → AllDirents (records labels)
      → length (records procs) < fuel
      → length (records labels) < fuel
      → offset + 25 * length (pids_but s.host.my_pid (listed (records procs))) + 16 ≤ arena_size
      → (kept : List (ProcInfo F)) × (next : List (ℕ × ℕ)) × (es : List Entry) × (tick_rows f c fuel
            offset s
            (some (answers_of procs))
            (some (answers_of labels))
            prev
          ≡ some (
            relabel s.label_files es [] (sort_slice (λ p. p.pid) kept),
            sort_slice (λ e. e.0) next,
            stale s.label_files es,
          ))
        × AllVisible kept
        × Sublistᴰ (pids kept) (pids_but s.host.my_pid (listed (records procs)))
        × (map (λ e. e.0) next ≡ pids_but s.host.my_pid (listed (records procs)))
        × (map shown es ≡ listed (records labels))
  unfolding tick_rows
  tick_rows_total s procs labels fuel offset prev reads clock strict parses okp okl roomp rooml
        space =
      let (gpu_pids, frozen) = freeze_set_total (gpu_pids_of s.gpu) in
      let reads' : Reads f c s.host s.proc_files prev gpu_pids = unfold Reads in reads in
      let mapped = map_new-IsStrict prev strict in
      let (rows, samples, collected, named, sampled) =
        collect_procs-pids f c s.host s.proc_files prev gpu_pids procs fuel reads' clock okp
          roomp in
      let attached : pids (attach_gpu f c s.gpu rows)
          ≡ pids_but s.host.my_pid (listed (records procs)) =
        pids-attach_gpu s.gpu rows ∙ named in
      let size = length-pids (attach_gpu f c s.gpu rows) _ attached in
      let (kept, next, filtered, visible, sub, same) =
        filter_with_children_total f offset (attach_gpu f c s.gpu rows) prev samples
          (attached ∙ sym sampled) (omega arith) in
      let (es, seen, applied) =
        apply_lem s.label_files labels (sort_slice (λ p. p.pid) kept) fuel parses okl rooml in
      (
        kept,
        next,
        es,
        rw (frozen, mapped, collected, filtered, applied) refl,
        visible,
        subst (Sublistᴰ (pids kept)) attached sub,
        same ∙ sampled,
        seen,
      )
