-- ===== src/Label/Apply/Tests.antt =====
-- src/label.rs, apply at a concrete directory: a live label, a stale one, and a file that is no label.
use ltop.Base.{
  ℕ, ◌≡◌, refl, ap, sym, ◌∙◌, arith, Option, none, some, List, [], ◌∷◌, map, replicate,
  if◌then◌else◌, Bool-cases, inl, inr, some_inj,
}
use ltop.Bytes.{Bytes}
use ltop.Proc.{ProcInfo}
use ltop.Display.Text.{codes}
use ltop.OsBinary.Tags.{bytes_eq}
use ltop.Dir.{Entry, at, next, refill, read_record, name_loop, entry_of}
use ltop.Dir.Listing.{Dirent, encode, encode_all}
use ltop.Dir.Shown.{shown, listed, answers_of, records, Batch, c_str}
use ltop.Label.{start_field, label_text}
use ltop.Label.Apply.{
  Files, apply, apply_loop, apply_entry, apply_label, start_time, copy_pid, of_stat, set_display,
  tracks,
}
use ltop.Label.Apply.Rows.{relabel, stale}
use ltop.Label.Apply.Names.{Parses}
use ltop.Label.Apply.Whole.{apply_lem}

entry_named : Bytes → Dirent
entry_named name = record { ino_off = replicate 16 1; kind = 8; name = name; pad = 0 ∷ 0 ∷ [] }

unfoldable label_dir : List Batch
label_dir =
    (entry_named (codes "7.99"), entry_named (codes "7.98") ∷ entry_named (codes "tmp") ∷ []) ∷ []

abbrev stat_line : Bytes
stat_line = codes "7 (x) S 0 0 0 0 0 0 0 0 0 0 0 0 0 0 0 0 0 0 99"

unfoldable stat_of_7 : Bytes → Option Bytes
stat_of_7 pid = if bytes_eq pid (codes "7") then some stat_line else none

label_files : Files
label_files = record { stat = stat_of_7; label = λ name. some (codes "hi") }

row : ℕ → ProcInfo ℕ
row pid = record {
  pid = pid;
  ppid = 1;
  cpu = 0;
  rss_kib = 0;
  age_visible = 0;
  gpu = none;
  display = codes "x";
}

label_files-Parses : Parses label_files
unfolding Parses label_files stat_of_7
label_files-Parses pid stat h = elim (Bool-cases (bytes_eq pid (codes "7"))) [
  | inl same ↦
      let line : start_field stat_line ≡ some (some 99) = unfold start_field in refl in
      (some 99, ap start_field (sym (some_inj (rw same at h))) ∙ line)
  | inr other ↦ absurd (ground (arith, rw other at h))
]

applies :
    apply label_files 5 (some (answers_of label_dir)) (row 6 ∷ row 7 ∷ row 7 ∷ [])
    ≡ some (row 6 ∷ record (row 7) { display = codes "hi" } ∷ row 7 ∷ [], codes "7.98" ∷ [])
unfolding apply apply_loop apply_entry apply_label start_time copy_pid of_stat start_field
    set_display tracks label_text next refill read_record name_loop entry_of c_str answers_of
    encode_all encode label_dir label_files stat_of_7 row entry_named at bytes_eq
applies = refl

apply_lem_example :
    (es : List Entry) × (map shown es ≡ listed (records label_dir))
    × (apply label_files 5 (some (answers_of label_dir)) (row 7 ∷ [])
        ≡ some (relabel label_files es [] (row 7 ∷ []), stale label_files es))
apply_lem_example =
    apply_lem label_files label_dir (row 7 ∷ []) 5 label_files-Parses
      (unfold label_dir records entry_named in
        (
          record { ids = refl; no_zero = omega arith; short = omega arith },
          (
            record { ids = refl; no_zero = omega arith; short = omega arith },
            (record { ids = refl; no_zero = omega arith; short = omega arith }, tt),
          ),
        ))
      (unfold label_dir records in omega arith)
