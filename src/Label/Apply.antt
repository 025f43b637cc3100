-- ===== src/Label/Apply.antt =====
-- src/label.rs: apply, over the entries of the label directory. What a read of /proc/<pid>/stat and of
-- a label file gives is a parameter, and so are the answers of the directory; the names of the files
-- that are unlinked are collected in their order. `none` is a panic, a read behind a name, or the end
-- of the fuel of the loop over the entries. The room of the arena, which the texts of the live labels
-- and the buffers need, is left out.
pub mod Rows
pub mod Names
pub mod Whole
mod Tests
use ltop.Base.{
  ℕ, zero, suc, ◌+◌, Bool, true, false, not, Option, none, some, List, [], ◌∷◌, ◌++◌, ltb, leb,
  ◌==◌, if◌then◌else◌, ◌>>=◌, length,
}
use ltop.Bytes.{Bytes}
use ltop.Proc.{ProcInfo}
use ltop.Dir.{Entry, PidDir, no_start, next, at}
use ltop.Dir.Shown.{c_str}
use ltop.Label.{label_text, start_field}

-- What the system answers: the line of a process, by the text of its pid, and the file of a name, both
-- none if it cannot be opened or is empty.
pub record Files : Type 0 where
  pub stat : Bytes → Option Bytes
  pub label : Bytes → Option Bytes

-- The loop of start_time that copies the name to the path: `room` more bytes are taken before it
-- returns None, which is the inner none.
unfoldable pub copy_pid : ℕ → Bytes → Option (Option Bytes)
copy_pid room [] = none
copy_pid zero (c ∷ name) = if c == b'.' then some (some []) else some none
copy_pid (suc room) (c ∷ name) =
    let rest = copy_pid room name >>= λ o. some (o >>= λ s. some (c ∷ s)) in
    if c == b'.' then some (some []) else rest

unfoldable pub of_stat : Option Bytes → Option (Option ℕ)
of_stat none = some none
of_stat (some stat) = start_field stat

-- start_time; the inner none is the code's None.
unfoldable pub start_time : Files → Bytes → Option (Option ℕ)
unfolding copy_pid of_stat
start_time files name = copy_pid 11 name >>= λ pid. of_stat (pid >>= files.stat)

module _ {F : Type 0} where
  -- `procs.iter_mut().find(|p| p.pid == pid)`: is there one, and the rows with its new text.
  unfoldable pub tracks : ℕ → List (ProcInfo F) → Bool
  tracks pid [] = false
  tracks pid (p ∷ procs) = let rest = tracks pid procs in if p.pid == pid then true else rest

  unfoldable pub set_display : ℕ → Bytes → List (ProcInfo F) → List (ProcInfo F)
  set_display pid text [] = []
  set_display pid text (p ∷ procs) =
      let rest = set_display pid text procs in
      if p.pid == pid then record p { display = text } ∷ procs else p ∷ rest

-- The rows, and the names that are unlinked.
abbrev pub Labelled : Type 0 → Type 0
Labelled F = List (ProcInfo F) × List Bytes

abbrev pub is_start : Option ℕ → ℕ → Bool
is_start none start = false
is_start (some n) start = n == start

module _ {F : Type 0} (files : Files) where
  -- A label of a live process.
  unfoldable pub apply_label : Entry → Labelled F → Labelled F
  unfolding tracks set_display
  apply_label e (procs, unlinked) =
      let read : List (ProcInfo F) = elim (files.label (c_str e.name)) [
        | none ↦ procs
        | some file ↦ set_display e.pid (label_text file) procs
      ] in
      if tracks e.pid procs then (read, unlinked) else (procs, unlinked)

  -- One round of the loop.
  unfoldable pub apply_entry : Entry → Labelled F → Option (Labelled F)
  unfolding start_time apply_label
  apply_entry e (procs, unlinked) =
      let live = start_time files e.name >>= λ t. some (
        if is_start t e.start
        then apply_label e (procs, unlinked)
        else (procs, unlinked ++ c_str e.name ∷ [])) in
      if e.start == no_start then some (procs, unlinked) else live

  unfoldable pub apply_loop : ℕ → ℕ → PidDir → Labelled F → Option (Labelled F)
  unfolding apply_entry next
  apply_loop fuel zero d s = none
  apply_loop fuel (suc rounds) d s = next fuel d >>= λ o. elim o [
    | none ↦ some s
    | some (e, d') ↦ apply_entry e s >>= λ s'. apply_loop fuel rounds d' s'
  ]

  -- `answers` is none if the directory cannot be opened.
  unfoldable pub apply : ℕ → Option (List Bytes) → List (ProcInfo F) → Option (Labelled F)
  unfolding apply_loop at
  apply fuel none procs = some (procs, [])
  apply fuel (some answers) procs = apply_loop fuel fuel (at answers) (procs, [])
