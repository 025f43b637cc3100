-- ===== src/Tick/Tests.antt =====
-- src/main.rs, a tick at a concrete system: two processes, of which one is read, and a label.
use mathlib.Core.List.{Sublistᴰ}
use ltop.Base.{
  ℕ, ◌+◌, ◌*◌, ◌≤◌, ◌≡◌, refl, ap, sym, ◌∙◌, arith, none, some, List, [], ◌∷◌, ◌++◌, ◌==◌, leb, ltb,
  map, replicate, length, if◌then◌else◌, Bool-cases, inl, inr, some_inj,
}
use ltop.Bytes.{Bytes, split_ascii_whitespace}
use ltop.Proc.{ProcInfo, Float32}
use ltop.Display.{parse_stat}
use ltop.Display.Text.{codes}
use ltop.Arena.{arena_size}
use ltop.Sort.Slice.{sort_slice}
use ltop.Filter.Queue as Queue
use ltop.Filter.Total.{AllVisible}
use ltop.Dir.{Entry, name_loop, entry_of}
use ltop.Dir.Listing.{Dirent, numbers}
use ltop.Dir.Shown.{listed, answers_of, records, Batch, AllDirents, shown}
use ltop.Label.{start_field}
use ltop.Label.Apply.Names.{Parses}
use ltop.Label.Apply.Rows.{relabel, stale}
use ltop.Collect.{CpuScale, parse_line, parse_fields, nth}
use ltop.Collect.Rows.{Reads, pids_but}
use ltop.Tick.{System, tick_rows}
use ltop.Tick.Total.{tick_rows_total}

percent : Float32 ℕ
percent = record {
  zero = 0;
  add = λ a b. a + b;
  at_least = λ a b. leb b a;
  child_cpu_thresh = 1;
  child_cpu_keep_thresh = 0;
}

percent_scale : CpuScale ℕ
percent_scale = record { cpu_thresh = 5; too_young = λ age. ltb age 2; scale = λ ticks. ticks }

abbrev compiler_line : Bytes
compiler_line = codes "7 (cc1) S 4 0 0 0 0 0 0 0 0 0 30 12 0 0 0 0 0 0 5000 0 900000 0"

unfoldable small_host : System
small_host = record {
  host = record { page_size = 4096; clock_ticks = 100; boot = 1000; wall_now = 2000; my_pid = 1 };
  proc_files = record {
    stat = λ pid. if pid == 7 then some compiler_line else none;
    cmdline = λ pid. (codes "cc1" ++ 0 ∷ codes "x.c" ++ 0 ∷ []) ∷ [];
  };
  label_files = record { stat = λ pid. some compiler_line; label = λ name. some (codes "build") };
  gpu = (7, record { proc_sm_pct = 3; proc_mem_mib = 9 }) ∷ [];
}

small_host-Reads :
    Reads percent percent_scale small_host.host small_host.proc_files ((7, 21) ∷ (9, 0) ∷ []) []
unfolding Reads small_host parse_line parse_fields parse_stat split_ascii_whitespace nth
small_host-Reads pid stat h = elim (Bool-cases (pid == 7)) [
  | inl same ↦ (_, ap (parse_line small_host.host) (sym (some_inj (rw same at h))))
  | inr other ↦ absurd (ground (arith, rw other at h))
]

small_host-Parses : Parses small_host.label_files
unfolding Parses small_host
small_host-Parses pid stat h =
    let line : start_field compiler_line ≡ some (some 5000) = unfold start_field in refl in
    (some 5000, ap start_field (sym (some_inj h)) ∙ line)

tick_dirent : Bytes → Dirent
tick_dirent name = record { ino_off = replicate 16 1; kind = 4; name = name; pad = 0 ∷ [] }

unfoldable tick_procs : List Batch
tick_procs =
    (tick_dirent (codes "1"), tick_dirent (codes "7") ∷ []) ∷ (tick_dirent (codes "8"), []) ∷ []

unfoldable tick_labels : List Batch
tick_labels = (tick_dirent (codes "7.5000"), []) ∷ []

tick_procs-AllDirents : AllDirents (records tick_procs)
unfolding tick_procs records tick_dirent
tick_procs-AllDirents = (
  record { ids = refl; no_zero = omega arith; short = omega arith },
  (
    record { ids = refl; no_zero = omega arith; short = omega arith },
    (record { ids = refl; no_zero = omega arith; short = omega arith }, tt),
  ),
)

tick_labels-AllDirents : AllDirents (records tick_labels)
unfolding tick_labels records tick_dirent
tick_labels-AllDirents = (record { ids = refl; no_zero = omega arith; short = omega arith }, tt)

small_host-room :
    1000 + 25 * length (pids_but small_host.host.my_pid (listed (records tick_procs))) + 16
    ≤ arena_size
unfolding pids_but listed records tick_procs tick_dirent small_host numbers name_loop shown entry_of
small_host-room = omega arith

tick_rows_total_example :
    (kept : List (ProcInfo ℕ)) × (next : List (ℕ × ℕ)) × (es : List Entry) × (tick_rows percent
        percent_scale 5 1000 small_host
        (some (answers_of tick_procs))
        (some (answers_of tick_labels))
        ((7, 21) ∷ (9, 0) ∷ [])
      ≡ some (
        relabel small_host.label_files es [] (sort_slice (λ p. p.pid) kept),
        sort_slice (λ e. e.0) next,
        stale small_host.label_files es,
      ))
    × AllVisible kept
    × Sublistᴰ (Queue.pids kept) (pids_but small_host.host.my_pid (listed (records tick_procs)))
    × (map (λ e. e.0) next ≡ pids_but small_host.host.my_pid (listed (records tick_procs)))
    × (map shown es ≡ listed (records tick_labels))
tick_rows_total_example =
    tick_rows_total percent percent_scale small_host tick_procs tick_labels 5 1000
      ((7, 21) ∷ (9, 0) ∷ []) small_host-Reads (unfold small_host in omega arith)
      ((omega arith, tt), (tt, tt)) small_host-Parses tick_procs-AllDirents tick_labels-AllDirents
      (unfold tick_procs records in omega arith) (unfold tick_labels records in omega arith)
      small_host-room
