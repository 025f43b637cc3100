-- ===== src/Label/Apply/Whole.antt =====
-- src/label.rs, apply as a whole: its loop over the entries, against the rows and the names that they
-- leave.
use mathlib.Core.Path.{ap₂}
use ltop.Base.{
  map, length, ◌<◌, bind_some, some_inj, ℕ, zero, suc, ◌≡◌, refl, sym, ap, ◌∙◌, arith, true, false,
  Option, none, some, List, [], ◌∷◌, ◌++◌, append_assoc, append-nil, ◌==◌, ◌>>=◌, Bool-cases,
  Option-cases, inl, inr,
}
use ltop.Bytes.{Bytes, has}
use ltop.Proc.{ProcInfo}
use ltop.Dir.{Entry, PidDir, no_start, next, entries, at}
use ltop.Dir.Shown.{c_str}
use ltop.Label.{label_text}
use ltop.Label.Apply.{
  Files, start_time, is_start, tracks, set_display, Labelled, apply_label, apply_entry, apply_loop,
  apply,
}
use ltop.Label.Apply.Names.{Parses, entries-Readable}
use ltop.Dir.Shown.{shown, listed, answers_of, records, Batch, AllDirents, all_shown}
use ltop.Dir.Whole.{entries-listed}
use ltop.Label.Apply.Rows.{
  Readable, is_live, is_stale, stale, relabel, relabel-nil, relabel-Idle, relabel-set_display, Idle,
  text-dead, text-unread,
}

set_display-tracks :
    {F : Type 0} (pid : ℕ) (text : Bytes) (procs : List (ProcInfo F))
    → tracks pid procs ≡ false
    → set_display pid text procs ≡ procs
unfolding tracks set_display
set_display-tracks pid text [] h = refl
set_display-tracks pid text (p ∷ procs) h = elim (Bool-cases (p.pid == pid)) [
  | inl same ↦ ground (arith, h, same)
  | inr other ↦ rw other (ap (◌∷◌ p) (set_display-tracks pid text procs (ground (arith, h, other))))
]

module _ {F : Type 0} (files : Files) where
  -- The whole list of the entries, one after the other.
  apply_all : List Entry → Labelled F → Option (Labelled F)
  apply_all [] s = some s
  apply_all (e ∷ es) s = apply_entry files e s >>= apply_all es

  apply_loop-entries :
      (fuel rounds : ℕ) (d : PidDir) (s : Labelled F)
      → apply_loop files fuel rounds d s ≡ (entries fuel rounds d >>= λ es. apply_all es s)
  unfolding apply_loop entries apply_all
  apply_loop-entries fuel zero d s = refl
  apply_loop-entries fuel (suc rounds) d s = elim (Option-cases (next fuel d)) [
    | inl out ↦ rw out refl
    | inr (none, end) ↦ rw end refl
    | inr (some (e, d'), found) ↦ rw found (elim (Option-cases (apply_entry files e s)) [
      | inl panic ↦ rw panic (elim (Option-cases (entries fuel rounds d')) [
        | inl e0 ↦ rw e0 refl
        | inr (l, e0) ↦ rw (e0, panic) refl
      ])
      | inr (s', applied) ↦ rw applied (
          apply_loop-entries fuel rounds d' s' ∙ (elim (Option-cases (entries fuel rounds d')) [
            | inl e0 ↦ rw e0 refl
            | inr (l, e0) ↦ rw (e0, applied) refl
          ]))
    ])
  ]

  -- The rows after one entry.
  apply_label-relabel :
      (e : Entry) (es : List Entry) (procs : List (ProcInfo F)) (unlinked : List Bytes)
      → is_live files e ≡ true
      → (rows : List (ProcInfo F)) × (apply_label files e (procs, unlinked) ≡ (rows, unlinked))
        × (relabel files es [] rows ≡ relabel files (e ∷ es) [] procs)
  unfolding apply_label
  apply_label-relabel e es procs unlinked live = elim (Option-cases (files.label (c_str e.name))) [
    | inl unread ↦
        let idle =
          relabel-Idle files e es [] procs
            (unfold Idle in λ pid d h. text-unread files e pid d unread) in
        (
          procs,
          elim (Bool-cases (tracks e.pid procs)) [
            | inl t ↦ rw (t, unread) refl
            | inr t ↦ rw t refl
          ],
          idle,
        )
    | inr (file, read) ↦
        let set = relabel-set_display files e file es [] procs live read (unfold has in refl) in
        let rows = set_display e.pid (label_text file) procs in
        (
          rows,
          elim (Bool-cases (tracks e.pid procs)) [
            | inl t ↦ rw (t, read) refl
            | inr t ↦ rw t (
                ap (λ ps. (ps, unlinked))
                  (sym (set_display-tracks e.pid (label_text file) procs t)))
          ],
          set,
        )
  ]

  relabel-dead :
      (e : Entry) (es : List Entry) (procs : List (ProcInfo F))
      → is_live files e ≡ false
      → relabel files es [] procs ≡ relabel files (e ∷ es) [] procs
  relabel-dead e es procs dead =
      relabel-Idle files e es [] procs (unfold Idle in λ pid d h. text-dead files e pid d dead)

  -- One round: the rows, and the name if it is unlinked.
  apply_entry-relabel :
      (e : Entry) (es : List Entry) (procs : List (ProcInfo F)) (unlinked : List Bytes)
      → ((e.start == no_start) ≡ false → (t : Option ℕ) × (start_time files e.name ≡ some t))
      → (rows : List (ProcInfo F)) × (apply_entry files e (procs, unlinked)
          ≡ some (rows, unlinked ++ stale files (e ∷ [])))
        × (relabel files es [] rows ≡ relabel files (e ∷ es) [] procs)
  unfolding apply_entry stale is_stale
  apply_entry-relabel e es procs unlinked known = elim (Bool-cases (e.start == no_start)) [
    | inl plain ↦
        let dead : is_live files e ≡ false = unfold is_live in rw plain refl in
        (
          procs,
          rw plain (ap (λ l. some (procs, l)) (sym (append-nil unlinked))),
          relabel-dead e es procs dead,
        )
    | inr label ↦
        let (t, time) = known label in
        elim (Bool-cases (is_start t e.start)) [
          | inl same ↦
              let live : is_live files e ≡ true = unfold is_live in rw (label, time, same) refl in
              let (rows, applied, after) = apply_label-relabel e es procs unlinked live in
              (
                rows,
                rw (label, time, same, applied)
                    (ap (λ l. some (rows, l)) (sym (append-nil unlinked))),
                after,
              )
          | inr other ↦
              let dead : is_live files e ≡ false = unfold is_live in rw (label, time, other) refl in
              (procs, rw (label, time, other) refl, relabel-dead e es procs dead)
        ]
  ]

  apply_all-relabel :
      (es : List Entry) (procs : List (ProcInfo F)) (unlinked : List Bytes)
      → Readable files es
      → apply_all es (procs, unlinked)
        ≡ some (relabel files es [] procs, unlinked ++ stale files es)
  unfolding apply_all Readable stale
  apply_all-relabel [] procs unlinked known =
      ap₂ (λ p l. some (p, l)) (sym (relabel-nil files [] procs)) (sym (append-nil unlinked))
  apply_all-relabel (e ∷ es) procs unlinked (known, later) =
      let (rows, applied, after) = apply_entry-relabel e es procs unlinked known in
      ap (λ o. o >>= apply_all es) applied
      ∙ apply_all-relabel es rows (unlinked ++ stale files (e ∷ [])) later
      ∙ ap₂ (λ p l. some (p, l)) after
          (elim (Bool-cases (is_stale files e)) [
            | inl s ↦ rw s (append_assoc unlinked (c_str e.name ∷ []) (stale files es))
            | inr s ↦ rw s (ap (λ l. l ++ stale files es) (append-nil unlinked))
          ])

-- If every line of a process is read without a panic, then on a directory of well-formed
-- records, with fuel for one more than them, apply does not panic. There is the list of the
-- entries that are named by numbers, in the order of the records; the first row of each pid
-- gets the text of the last live label with a file, and no row changes otherwise; and the
-- files that are unlinked are the labels whose start time is not that of the process, in
-- order.
pub apply_lem :
    {F : Type 0} (files : Files) (batches : List Batch) (procs : List (ProcInfo F)) (fuel : ℕ)
    → Parses files
    → AllDirents (records batches)
    → length (records batches) < fuel
    → (es : List Entry) × (map shown es ≡ listed (records batches))
      × (apply files fuel (some (answers_of batches)) procs
          ≡ some (relabel files es [] procs, stale files es))
unfolding apply all_shown
apply_lem files batches procs fuel parses ok room =
    let (es, found, same) =
      bind_some (entries fuel fuel (at (answers_of batches))) _ (listed (records batches))
        (entries-listed batches fuel ok room) in
    let known = entries-Readable files fuel fuel (at (answers_of batches)) es parses found in
    (
      es,
      some_inj same,
      apply_loop-entries files fuel fuel (at (answers_of batches)) (procs, [])
          ∙ ap (λ o. o >>= λ es. apply_all files es (procs, [])) found
          ∙ apply_all-relabel files es procs [] known,
    )
