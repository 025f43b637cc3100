-- ===== src/Collect.antt =====
-- src/main.rs: collect_procs of the Linux build, over the directory /proc and what its files give. `none`
-- is a panic, or the end of the fuel of the iteration over the directory. The two vectors have room
-- for every process, and the room of the arena is left out: a panic for want of room is no case here. Sums and products of a u64 wrap around.
pub mod Fields
pub mod Rows
pub mod Shown
mod Tests
use ltop.Base.{
  ℕ, zero, suc, ◌+◌, ◌-◌, ◌*◌, ◌/◌, ◌%◌, ◌^◌, Bool, true, false, ◌&&◌, ◌||◌, not, Option, none,
  some, List, [], ◌∷◌, ◌++◌, ltb, leb, ◌==◌, if◌then◌else◌, ◌>>=◌, length, get_elem?, take, drop,
}
use ltop.Bytes.{Bytes, split, non_empty, split_ascii_whitespace}
use ltop.Decimal.{parse_u64_ascii}
use ltop.Display.{
  parse_stat, is_noise, is_idle_noise, is_lean_or_lake, is_lean_related, build_display_into,
}
use ltop.Display.Text.{codes}
use ltop.OsBinary.Tags.{bytes_eq}
use ltop.Map as Map
use ltop.Map.{contains}
use ltop.Proc.{Float32, ProcInfo, pack, new_packed, packed_visible, cpu_delta}
use ltop.Dir.{Entry, entries}
use ltop.Dir as Dir

abbrev pub mem_mb_thresh : ℕ
mem_mb_thresh = 128

abbrev pub cmdline_max : ℕ
cmdline_max = 32 * 1024

abbrev pub max_args : ℕ
max_args = 64

-- FSmall::MAX_LEN.
abbrev pub max_len : ℕ
max_len = 2 ^ 12 - 1

-- Iterator::nth on the fields, parsed or 0, and the fields behind.
unfoldable pub nth : ℕ → List Bytes → ℕ × List Bytes
unfolding parse_u64_ascii
nth k fields =
    let n : ℕ = elim (get_elem? fields k >>= parse_u64_ascii) [ none ↦ 0 | some n ↦ n ] in
    (n, drop (k + 1) fields)

pub record Parsed : Type 0 where
  pub ppid : ℕ
  pub total_ticks : ℕ
  pub age_secs : ℕ
  pub rss_bytes : ℕ
  pub comm : Bytes

-- The parameters of collect_procs; `clock_ticks as u64`.
pub record Host : Type 0 where
  pub page_size : ℕ
  pub clock_ticks : ℕ
  pub boot : ℕ
  pub wall_now : ℕ
  pub my_pid : ℕ

-- The fields of a line, once it is read.
unfoldable pub parse_fields : Host → Bytes → List Bytes → Parsed
unfolding nth
parse_fields h comm fields =
    let (ppid, fields) = nth 1 fields in
    let (utime, fields) = nth 9 fields in
    let (stime, fields) = nth 0 fields in
    let (starttime, fields) = nth 6 fields in
    let (rss_pages, fields) = nth 1 fields in
    let start_epoch = (h.boot + starttime / h.clock_ticks) % 2 ^ 64 in
    record {
      ppid = ppid % 2 ^ 32;
      total_ticks = (utime + stime) % 2 ^ 64;
      age_secs = (h.wall_now - start_epoch) % 2 ^ 32;
      rss_bytes = rss_pages * h.page_size % 2 ^ 64;
      comm = take 15 comm;
    }

unfoldable pub parse_line : Host → Bytes → Option Parsed
unfolding parse_fields parse_stat split_ascii_whitespace
parse_line h stat = parse_stat stat >>= λ (comm, after_comm).
    if h.clock_ticks == 0
    then none
    else some (parse_fields h comm (split_ascii_whitespace after_comm))

-- The loop over the reads of a command line, each of at most 4096 bytes: none, or an empty one, ends it.
unfoldable pub read_cmdline : Bytes → List Bytes → Bytes
read_cmdline b [] = b
read_cmdline b (chunk ∷ chunks) =
    let b' = b ++ chunk in
    let rest = read_cmdline b' chunks in
    if ltb (length chunk) 4096 || leb cmdline_max (length b') then b' else rest

-- `cmdline.last() != Some(&0)`.
abbrev pub cut_off : Bytes → Bool
cut_off cmdline =
    not (elim (get_elem? cmdline (length cmdline - 1)) [ none ↦ false | some b ↦ b == 0 ])

unfoldable pub args_of : Bytes → List Bytes
unfolding split non_empty
args_of cmdline =
    let args = take max_args (non_empty (split (λ b. b == 0) cmdline)) in
    if leb cmdline_max (length cmdline) && cut_off cmdline
    then take (length args - 1) args
    else args

-- What the files of a process give: the line of stat, none if it cannot be read, and the reads of the
-- command line.
pub record ProcFiles : Type 0 where
  pub stat : ℕ → Option Bytes
  pub cmdline : ℕ → List Bytes

-- What collect_procs uses of f32 and f64 besides the filter: CPU_THRESH, the test of the first line of
-- compute_cpu, and the scaling of the ticks.
pub record CpuScale (F : Type 0) : Type 0 where
  pub cpu_thresh : F
  pub too_young : ℕ → Bool
  pub scale : ℕ → F

module _ {F : Type 0} (f : Float32 F) (c : CpuScale F) where
  unfoldable pub compute_cpu : Option ℕ → ℕ → ℕ → F
  compute_cpu prev_entry age total = elim (cpu_delta (c.too_young age) prev_entry total) [
    | none ↦ f.zero
    | some ticks ↦ c.scale ticks
  ]

  -- The stub of the first pass.
  unfoldable pub stub : ℕ → ProcInfo F
  stub pid = record {
    pid = pid;
    ppid = 0;
    cpu = f.zero;
    rss_kib = 0;
    age_visible = 0;
    gpu = none;
    display = [];
  }

  unfoldable pub may_qualify : F → Option ℕ → Bool → Parsed → Bool
  may_qualify cpu prev_entry has_gpu p =
      let kept_visible =
        f.at_least cpu f.child_cpu_keep_thresh
        && (elim prev_entry [ none ↦ false | some q ↦ packed_visible q ]) in
      f.at_least cpu f.child_cpu_thresh
      || kept_visible
      || leb mem_mb_thresh (p.rss_bytes / 2 ^ 20)
      || has_gpu
      || bytes_eq p.comm (codes "lean")
      || bytes_eq p.comm (codes "lake")

  -- The row of a process whose command line is not read.
  unfoldable pub quiet_row : ℕ → F → Parsed → Option (ProcInfo F)
  quiet_row pid cpu p = do
    age_visible ← pack p.age_secs false
    some (record {
      pid = pid;
      ppid = p.ppid;
      cpu = cpu;
      rss_kib = p.rss_bytes / 2 ^ 10 % 2 ^ 32;
      age_visible = age_visible;
      gpu = none;
      display = p.comm;
    })

  -- The test behind `visible`, on the arguments.
  unfoldable pub qualifies : F → Bool → Parsed → List Bytes → Bool
  qualifies cpu has_gpu p args =
      is_lean_or_lake p.comm args
      || f.at_least cpu c.cpu_thresh
      || (leb mem_mb_thresh (p.rss_bytes / 2 ^ 20) && not (is_idle_noise p.comm args))
      || has_gpu

  -- The row of a process whose command line is read.
  unfoldable pub full_row : ℕ → F → Bool → Parsed → List Bytes → Option (ProcInfo F)
  full_row pid cpu has_gpu p args = do
    let is_related = is_lean_or_lake p.comm args || is_lean_related p.comm args
    let noise = is_noise p.comm args
    age_visible ← pack p.age_secs (if noise then false else qualifies cpu has_gpu p args)
    some (record {
      pid = pid;
      ppid = p.ppid;
      cpu = if noise then f.zero else cpu;
      rss_kib = p.rss_bytes / 2 ^ 10 % 2 ^ 32;
      age_visible = age_visible;
      gpu = none;
      display = if noise then [] else take max_len (build_display_into p.comm args is_related);
    })

  module _ (h : Host) (files : ProcFiles) (prev : List (ℕ × ℕ)) (gpu_pids : List ℕ) where
    -- A round of the second pass, once the line is parsed.
    unfoldable pub parsed_row : ℕ → Parsed → Option (ProcInfo F)
    parsed_row pid p =
        let prev_entry = Map.get prev pid in
        let cpu = compute_cpu prev_entry p.age_secs p.total_ticks in
        let has_gpu = contains gpu_pids pid in
        let args = args_of (read_cmdline [] (files.cmdline pid)) in
        if may_qualify cpu prev_entry has_gpu p
        then full_row pid cpu has_gpu p args
        else quiet_row pid cpu p

    -- procs[i] and next[i].
    unfoldable pub collect_row : ℕ → Option (ProcInfo F × (ℕ × ℕ))
    collect_row pid = elim (files.stat pid) [
      | none ↦ some (stub pid, (pid, new_packed false 0))
      | some stat ↦ parse_line h stat >>= λ p.
          parsed_row pid p >>= λ row. some (row, (pid, new_packed false p.total_ticks))
    ]

    unfoldable pub collect_rows : List ℕ → Option (List (ProcInfo F) × List (ℕ × ℕ))
    collect_rows [] = some ([], [])
    collect_rows (pid ∷ pids) = collect_row pid >>= λ (row, sample).
        collect_rows pids >>= λ (rows, samples). some (row ∷ rows, sample ∷ samples)

    -- The pids of the first pass.
    unfoldable pub other_pids : List Entry → List ℕ
    other_pids [] = []
    other_pids (e ∷ es) =
        let rest = other_pids es in if e.pid == h.my_pid then rest else e.pid ∷ rest

    -- `answers` is none if /proc cannot be opened.
    unfoldable pub collect_procs :
        ℕ → Option (List Bytes) → Option (List (ProcInfo F) × List (ℕ × ℕ))
    collect_procs fuel none = some ([], [])
    collect_procs fuel (some answers) =
        entries fuel fuel (Dir.at answers) >>= λ es. collect_rows (other_pids es)
