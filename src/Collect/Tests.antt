-- ===== src/Collect/Tests.antt =====
-- src/main.rs, collect_procs at concrete inputs. A f32 is a number here, in percent.
use ltop.Base.{
  Bool, Bool-cases, inl, inr, false, ℕ, ◌+◌, ◌*◌, ◌≡◌, refl, ap, sym, ◌∙◌, arith, ◌&&◌, ◌||◌, not,
  none, some, List, [], ◌∷◌, ◌++◌, ◌==◌, leb, ltb, map, replicate, if◌then◌else◌, Bool-cases, inl,
  inr, some_inj,
}
use ltop.Bytes.{Bytes, split_ascii_whitespace}
use ltop.Proc.{ProcInfo, Float32, visible}
use ltop.Display.{is_noise, is_lean_or_lake, parse_stat}
use ltop.Display.Text.{codes, any}
use ltop.Display.Slices.{Lacks}
use ltop.Display.Stat.{trim_start}
use ltop.Dir.Listing.{Dirent}
use ltop.Dir.Shown.{listed, answers_of, records, Batch}
use ltop.Collect.{
  Host, Parsed, ProcFiles, CpuScale, parse_line, parse_fields, nth, args_of, read_cmdline,
  parsed_row, collect_procs,
}
use ltop.Collect.Fields.{of_fields, parse_line-of_fields}
use ltop.Collect.Rows.{Reads, pids_but, collect_procs-pids}
use ltop.Collect.Shown.{busy, args_for, read_args, visible-parsed_row}

host : Host
host = record { page_size = 4096; clock_ticks = 100; boot = 1000; wall_now = 2000; my_pid = 1 }

percent : Float32 ℕ
percent = record {
  zero = 0;
  add = λ a b. a + b;
  at_least = λ a b. leb b a;
  child_cpu_thresh = 1;
  child_cpu_keep_thresh = 0;
}

unfoldable percent_scale : CpuScale ℕ
percent_scale = record { cpu_thresh = 5; too_young = λ age. ltb age 2; scale = λ ticks. ticks }

abbrev rest_of_line : Bytes
rest_of_line = codes " S 4 0 0 0 0 0 0 0 0 0 30 12 0 0 0 0 0 0 5000 0 25 0"

abbrev line_of_7 : Bytes
line_of_7 = codes "7 " ++ b'(' ∷ (codes "a b" ++ b')' ∷ rest_of_line)

unfoldable proc_files : ProcFiles
proc_files = record {
  stat = λ pid. if pid == 7 then some line_of_7 else none;
  cmdline = λ pid. (codes "lean" ++ 0 ∷ codes "x.lean" ++ 0 ∷ []) ∷ [];
}

unfoldable parsed_7 : Parsed
parsed_7 = record {
  ppid = 4;
  total_ticks = 42;
  age_secs = 950;
  rss_bytes = 25 * 4096;
  comm = codes "a b";
}

parse_line_7 : parse_line host line_of_7 ≡ some parsed_7
unfolding parse_line parse_fields parse_stat split_ascii_whitespace host parsed_7 nth
parse_line_7 = refl

any-Lacks : (p : ℕ → Bool) (s : Bytes) → any p s ≡ false → Lacks p s
unfolding any
any-Lacks p [] h = tt
any-Lacks p (x ∷ s) h = elim (Bool-cases (p x)) [
  | inl hit ↦ absurd (ground (arith, h, hit))
  | inr miss ↦ (miss, any-Lacks p s (rw miss at h))
]

parse_line-of_fields_example :
    parse_line host line_of_7
    ≡ some (of_fields host (codes "a b") (split_ascii_whitespace (trim_start rest_of_line)))
parse_line-of_fields_example =
    parse_line-of_fields host (codes "7 ") (codes "a b") rest_of_line (unfold host in refl)
      (any-Lacks (λ b. b == b'(') (codes "7 ") (unfold any in refl))
      (any-Lacks (λ b. b == b')') rest_of_line (unfold any in refl))

args_7 : args_of (read_cmdline [] (proc_files.cmdline 7)) ≡ codes "lean" ∷ codes "x.lean" ∷ []
unfolding args_of read_cmdline proc_files
args_7 = refl

proc_dirent : Bytes → Dirent
proc_dirent name = record { ino_off = replicate 16 1; kind = 4; name = name; pad = 0 ∷ [] }

unfoldable proc_dir : List Batch
proc_dir =
    (proc_dirent (codes "1"), proc_dirent (codes "self") ∷ [])
    ∷ (proc_dirent (codes "7"), proc_dirent (codes "8") ∷ [])
    ∷ []

proc_files-Reads : Reads percent percent_scale host proc_files [] []
unfolding Reads proc_files
proc_files-Reads pid stat h = elim (Bool-cases (pid == 7)) [
  | inl same ↦ (parsed_7, ap (parse_line host) (sym (some_inj (rw same at h))) ∙ parse_line_7)
  | inr other ↦ absurd (ground (arith, rw other at h))
]

collect_procs-pids_example :
    (rows : List (ProcInfo ℕ)) × (samples : List (ℕ × ℕ)) × (collect_procs percent percent_scale
        host proc_files [] [] 6
        (some (answers_of proc_dir))
      ≡ some (rows, samples))
    × (map (λ p. p.pid) rows ≡ pids_but host.my_pid (listed (records proc_dir)))
    × (map (λ s. s.0) samples ≡ pids_but host.my_pid (listed (records proc_dir)))
collect_procs-pids_example =
    collect_procs-pids percent percent_scale host proc_files [] [] proc_dir 6 proc_files-Reads
      (unfold host in omega arith)
      (unfold proc_dir records proc_dirent in
        (
          record { ids = refl; no_zero = omega arith; short = omega arith },
          (
            record { ids = refl; no_zero = omega arith; short = omega arith },
            (
              record { ids = refl; no_zero = omega arith; short = omega arith },
              (record { ids = refl; no_zero = omega arith; short = omega arith }, tt),
            ),
          ),
        ))
      (unfold proc_dir records in omega arith)

visible-parsed_row_example :
    (row : ProcInfo ℕ) × (parsed_row percent percent_scale host proc_files [] [] 7 parsed_7
      ≡ some row)
    × (visible row ≡ (
        not (is_noise parsed_7.comm (args_for percent percent_scale host proc_files [] [] 7))
        && (busy percent percent_scale host proc_files [] [] 7 parsed_7
            || (read_args percent percent_scale host proc_files [] [] 7 parsed_7
                && is_lean_or_lake parsed_7.comm
                    (args_for percent percent_scale host proc_files [] [] 7)))))
visible-parsed_row_example =
    visible-parsed_row percent percent_scale host proc_files [] [] 7 parsed_7
      (unfold parsed_7 in omega arith)
      (unfold percent percent_scale in λ x above. ground (arith, above))
