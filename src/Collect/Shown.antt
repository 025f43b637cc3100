-- ===== src/Collect/Shown.antt =====
-- src/main.rs, collect_procs: which rows are visible, with the fast path and without it.
use ltop.Base.{
  ℕ, ◌/◌, ◌^◌, ◌<◌, ◌≡◌, refl, ◌∙◌, arith, Bool, true, false, ◌&&◌, ◌||◌, not, Option, some,
  bind_made, List, [], leb, if◌then◌else◌, Bool-cases, inl, inr,
}
use ltop.Bytes.{Bytes}
use ltop.Display.{is_noise, is_lean_or_lake, is_idle_noise}
use ltop.Display.Text.{codes}
use ltop.OsBinary.Tags.{bytes_eq}
use ltop.Map as Map
use ltop.Map.{contains}
use ltop.Proc.{Float32, ProcInfo, visible}
use ltop.Proc.Packing.{pack_fits}
use ltop.Collect.{
  Host, Parsed, ProcFiles, CpuScale, mem_mb_thresh, args_of, read_cmdline, compute_cpu, parsed_row,
  full_row, quiet_row, may_qualify, qualifies,
}

-- The test on the arguments, in the two orders.
test_order :
    (noise lean cpu mem gpu : Bool)
    → (if noise then false else (lean || cpu || (mem && true) || gpu))
      ≡ (not noise && ((cpu || mem || gpu) || (true && lean)))
test_order true lean cpu mem gpu = refl
test_order false lean cpu mem gpu = ground arith

-- A process that is not read is not busy.
quiet :
    (above child kept mem gpu is_lean is_lake : Bool)
    → (above ≡ true → child ≡ true)
    → (child || kept || mem || gpu || is_lean || is_lake) ≡ false
    → (above || mem || gpu) ≡ false
quiet above child kept mem gpu is_lean is_lake h all = ground (arith, h, all)

module _ {F : Type 0} (f : Float32 F) (c : CpuScale F) (h : Host) (files : ProcFiles)
    (prev : List (ℕ × ℕ)) (gpu_pids : List ℕ) where
  -- The row, its arguments, and the two tests.
  unfoldable pub cpu_of : ℕ → Parsed → F
  cpu_of pid p = compute_cpu f c (Map.get prev pid) p.age_secs p.total_ticks

  unfoldable pub args_for : ℕ → List Bytes
  args_for pid = args_of (read_cmdline [] (files.cmdline pid))

  unfoldable pub read_args : ℕ → Parsed → Bool
  read_args pid p = may_qualify f c (cpu_of pid p) (Map.get prev pid) (contains gpu_pids pid) p

  -- What makes a process visible without regard to its name.
  unfoldable pub busy : ℕ → Parsed → Bool
  busy pid p =
      f.at_least (cpu_of pid p) c.cpu_thresh
      || leb mem_mb_thresh (p.rss_bytes / 2 ^ 20)
      || contains gpu_pids pid

  -- A row that is made, with its visibility.
  abbrev Shows : Option (ProcInfo F) → Bool → Type 0
  Shows made v = (row : ProcInfo F) × (made ≡ some row) × (visible row ≡ v)

  full_row-Shows :
      (pid : ℕ) (cpu : F) (has_gpu : Bool) (p : Parsed) (args : List Bytes)
      → p.age_secs < 2 ^ 31
      → Shows
          (full_row f c pid cpu has_gpu p args)
          (if is_noise p.comm args then false else qualifies f c cpu has_gpu p args)
  unfolding full_row visible
  full_row-Shows pid cpu has_gpu p args small =
      let shown = if is_noise p.comm args then false else qualifies f c cpu has_gpu p args in
      let (age_visible, packed, bit) = pack_fits p.age_secs shown small in
      bind_made (λ row. visible row ≡ shown) _ packed bit

  quiet_row-Shows :
      (pid : ℕ) (cpu : F) (p : Parsed) → p.age_secs < 2 ^ 31 → Shows (quiet_row f c pid cpu p) false
  unfolding quiet_row visible
  quiet_row-Shows pid cpu p small =
      let (age_visible, packed, bit) = pack_fits p.age_secs false small in
      bind_made (λ row. visible row ≡ false) _ packed bit

  Shows-subst : (made : Option (ProcInfo F)) (v w : Bool) → v ≡ w → Shows made v → Shows made w
  Shows-subst made v w e (row, made_row, shown) = (row, made_row, shown ∙ e)

  qualifies-busy :
      (pid : ℕ) (p : Parsed)
      → (if is_noise p.comm (args_for pid)
          then false
          else qualifies f c (cpu_of pid p) (contains gpu_pids pid) p (args_for pid))
        ≡ (not (is_noise p.comm (args_for pid))
            && (busy pid p || (true && is_lean_or_lake p.comm (args_for pid))))
  unfolding qualifies is_idle_noise busy
  qualifies-busy pid p =
      test_order (is_noise p.comm (args_for pid)) (is_lean_or_lake p.comm (args_for pid))
        (f.at_least (cpu_of pid p) c.cpu_thresh) (leb mem_mb_thresh (p.rss_bytes / 2 ^ 20))
        (contains gpu_pids pid)

  busy-read_args :
      (pid : ℕ) (p : Parsed)
      → ((x : F) → f.at_least x c.cpu_thresh ≡ true → f.at_least x f.child_cpu_thresh ≡ true)
      → read_args pid p ≡ false
      → busy pid p ≡ false
  unfolding may_qualify read_args busy
  busy-read_args pid p above skip =
      quiet (f.at_least (cpu_of pid p) c.cpu_thresh) (f.at_least (cpu_of pid p) f.child_cpu_thresh)
        _ (leb mem_mb_thresh (p.rss_bytes / 2 ^ 20)) (contains gpu_pids pid)
        (bytes_eq p.comm (codes "lean")) (bytes_eq p.comm (codes "lake")) (above (cpu_of pid p))
        skip

  -- If the age fits 31 bits, and what reaches the threshold for any row reaches the one for
  -- children, then a row is made, and the process is visible exactly if it is no noise and it
  -- has enough CPU time, memory or a GPU, or its command line is read and names lean or lake:
  -- the fast path hides no other process.
  pub visible-parsed_row :
      (pid : ℕ) (p : Parsed)
      → p.age_secs < 2 ^ 31
      → ((x : F) → f.at_least x c.cpu_thresh ≡ true → f.at_least x f.child_cpu_thresh ≡ true)
      → (row : ProcInfo F) × (parsed_row f c h files prev gpu_pids pid p ≡ some row)
        × (visible row ≡ (
            not (is_noise p.comm (args_for pid))
            && (busy pid p || (read_args pid p && is_lean_or_lake p.comm (args_for pid)))))
  unfolding parsed_row cpu_of args_for read_args busy
  visible-parsed_row pid p small above =
      let age = p.age_secs in
      let noise = is_noise p.comm (args_for pid) in
      elim (Bool-cases (read_args pid p)) [
        | inl read ↦ rw read (
            Shows-subst _ _ _ (qualifies-busy pid p)
              (full_row-Shows pid (cpu_of pid p) (contains gpu_pids pid) p (args_for pid) small))
        | inr skip ↦
            let idle = busy-read_args pid p above skip in
            rw (skip, idle)
              (Shows-subst _ _ _ (ground arith) (quiet_row-Shows pid (cpu_of pid p) p small))
      ]
