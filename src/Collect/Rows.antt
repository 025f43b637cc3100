-- ===== src/Collect/Rows.antt =====
-- src/main.rs, collect_procs: the rows and the samples.
use ltop.Base.{
  ℕ, ◌^◌, ◌<◌, Bool, arith, ◌≡◌, refl, ap, ◌∙◌, false, some, List, [], ◌∷◌, ◌==◌, if◌then◌else◌,
  ◌>>=◌, map, length, Bool-cases, Option-cases, bind_some, bind_made, some_inj, inl, inr,
}
use ltop.Bytes.{Bytes}
use ltop.Map as Map
use ltop.Map.{contains}
use ltop.Display.{is_noise}
use ltop.Proc.Packing.{pack_fits}
use ltop.Collect.Fields.{parse_line_age}
use ltop.Proc.{Float32, ProcInfo, new_packed}
use ltop.Dir.{Entry, entries, at}
use ltop.Dir.Shown.{Batch, answers_of, records, listed, AllDirents, shown, all_shown}
use ltop.Dir.Whole.{entries-listed}
use ltop.Collect.{
  qualifies, args_of, read_cmdline, Host, Parsed, ProcFiles, CpuScale, parse_line, compute_cpu,
  parsed_row, full_row, quiet_row, may_qualify, collect_row, collect_rows, other_pids,
  collect_procs, stub,
}

module _ {F : Type 0} (f : Float32 F) (c : CpuScale F) (h : Host) (files : ProcFiles)
    (prev : List (ℕ × ℕ)) (gpu_pids : List ℕ) where
  pid_of : ProcInfo F → ℕ
  pid_of p = p.pid

  full_row-pid :
      (pid : ℕ) (cpu : F) (has_gpu : Bool) (p : Parsed) (args : List Bytes)
      → p.age_secs < 2 ^ 31
      → (row : ProcInfo F) × (full_row f c pid cpu has_gpu p args ≡ some row) × (pid_of row ≡ pid)
  unfolding full_row pid_of
  full_row-pid pid cpu has_gpu p args small =
      let shown = if is_noise p.comm args then false else qualifies f c cpu has_gpu p args in
      let (age_visible, packed, _) = pack_fits p.age_secs shown small in
      bind_made (λ row. pid_of row ≡ pid) _ packed refl

  quiet_row-pid :
      (pid : ℕ) (cpu : F) (p : Parsed)
      → p.age_secs < 2 ^ 31
      → (row : ProcInfo F) × (quiet_row f c pid cpu p ≡ some row) × (pid_of row ≡ pid)
  unfolding quiet_row pid_of
  quiet_row-pid pid cpu p small =
      let (age_visible, packed, _) = pack_fits p.age_secs false small in
      bind_made (λ row. pid_of row ≡ pid) _ packed refl

  parsed_row-pid :
      (pid : ℕ) (p : Parsed)
      → p.age_secs < 2 ^ 31
      → (row : ProcInfo F) × (parsed_row f c h files prev gpu_pids pid p ≡ some row)
        × (pid_of row ≡ pid)
  unfolding parsed_row
  parsed_row-pid pid p small =
      let prev_entry = Map.get prev pid in
      let cpu = compute_cpu f c prev_entry p.age_secs p.total_ticks in
      let has_gpu = contains gpu_pids pid in
      elim (Bool-cases (may_qualify f c cpu prev_entry has_gpu p)) [
        | inl e ↦
            rw e
              (full_row-pid pid cpu has_gpu p (args_of (read_cmdline [] (files.cmdline pid))) small)
        | inr e ↦ rw e (quiet_row-pid pid cpu p small)
      ]

  -- Every line is read without a panic.
  unfoldable pub Reads : Type 0
  Reads =
      (pid : ℕ) (stat : Bytes)
      → files.stat pid ≡ some stat
      → (p : Parsed) × (parse_line h stat ≡ some p)

  collect_row-pid :
      (pid : ℕ)
      → Reads
      → h.wall_now < 2 ^ 31
      → (row : ProcInfo F) × (sample : ℕ × ℕ) × (collect_row f c h files prev gpu_pids pid
          ≡ some (row, sample))
        × (pid_of row ≡ pid)
        × (sample.0 ≡ pid)
  unfolding collect_row Reads stub pid_of
  collect_row-pid pid reads clock = elim (Option-cases (files.stat pid)) [
    | inl gone ↦ (stub f c pid, (pid, new_packed false 0), rw (gone, collect_row) refl, refl, refl)
    | inr (stat, read) ↦
        let (p, parsed) = reads pid stat read in
        let age = parse_line_age h stat p parsed in
        let (row, made, same) = parsed_row-pid pid p (omega arith) in
        (
          row,
          (pid, new_packed false p.total_ticks),
          rw (read, collect_row, parsed, made) refl,
          same,
          refl,
        )
  ]

  collect_rows-pids :
      (pids : List ℕ)
      → Reads
      → h.wall_now < 2 ^ 31
      → (rows : List (ProcInfo F)) × (samples : List (ℕ × ℕ)) × (collect_rows f c h files prev
            gpu_pids pids
          ≡ some (rows, samples))
        × (map pid_of rows ≡ pids)
        × (map (λ s. s.0) samples ≡ pids)
  unfolding collect_rows
  collect_rows-pids [] reads clock = ([], [], refl, refl, refl)
  collect_rows-pids (pid ∷ pids) reads clock =
      let (row, sample, one, e, e') = collect_row-pid pid reads clock in
      let (rows, samples, more, es, es') = collect_rows-pids pids reads clock in
      (row ∷ rows, sample ∷ samples, rw (one, more) refl, rw (e, es) refl, rw (e', es') refl)

-- All pids of a directory but one.
unfoldable pub pids_but : ℕ → List (ℕ × ℕ × Bytes) → List ℕ
pids_but mine [] = []
pids_but mine ((pid, start, name) ∷ es) =
    if pid == mine then pids_but mine es else pid ∷ pids_but mine es

module _ {F : Type 0} (f : Float32 F) (c : CpuScale F) (h : Host) (files : ProcFiles)
    (prev : List (ℕ × ℕ)) (gpu_pids : List ℕ) where
  other_pids-pids_but :
      (es : List Entry) → other_pids f c h files prev gpu_pids es ≡ pids_but h.my_pid (map shown es)
  unfolding other_pids pids_but shown
  other_pids-pids_but [] = refl
  other_pids-pids_but (e ∷ es) = rw (other_pids-pids_but es) refl

  -- If every line of a process that can be read is parsed without a panic, and the clock is
  -- below 2^31 seconds, then on a directory of well-formed records, with fuel for one more
  -- than them, collect_procs does not panic, the room of the arena left aside, and the rows
  -- and the samples are in step: both have, in the order of the directory, the pids of the
  -- entries that are named by numbers but its own, also for processes that cannot be read.
  pub collect_procs-pids :
      (batches : List Batch) (fuel : ℕ)
      → Reads f c h files prev gpu_pids
      → h.wall_now < 2 ^ 31
      → AllDirents (records batches)
      → length (records batches) < fuel
      → (rows : List (ProcInfo F)) × (samples : List (ℕ × ℕ)) × (collect_procs f c h files prev
            gpu_pids fuel
            (some (answers_of batches))
          ≡ some (rows, samples))
        × (map (λ p. p.pid) rows ≡ pids_but h.my_pid (listed (records batches)))
        × (map (λ s. s.0) samples ≡ pids_but h.my_pid (listed (records batches)))
  unfolding collect_procs all_shown pid_of
  collect_procs-pids batches fuel reads clock ok room =
      let (es, found, same) =
        bind_some (entries fuel fuel (at (answers_of batches))) _ (listed (records batches))
          (entries-listed batches fuel ok room) in
      let pids = other_pids-pids_but es ∙ ap (pids_but h.my_pid) (some_inj same) in
      let (rows, samples, collected, e, e') =
        collect_rows-pids f c h files prev gpu_pids (other_pids f c h files prev gpu_pids es) reads
          clock in
      (
        rows,
        samples,
        ap
              (λ o. o >>= λ es.
                collect_rows f c h files prev gpu_pids (other_pids f c h files prev gpu_pids es))
              found
            ∙ collected,
        e ∙ pids,
        e' ∙ pids,
      )
