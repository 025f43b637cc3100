-- ===== src/Label/Apply/Rows.antt =====
-- src/label.rs, apply: the rows that it leaves, and the files that it unlinks.
use mathlib.Core.Path.{subst}
use ltop.Base.{
  ℕ, ◌≡◌, refl, arith, Bool, true, false, ◌&&◌, not, Option, none, some, List, [], ◌∷◌, ◌==◌,
  if◌then◌else◌, Bool-cases, inl, inr,
}
use ltop.Bytes.{Bytes, has}
use ltop.Proc.{ProcInfo}
use ltop.Dir.{Entry, no_start}
use ltop.Dir.Shown.{c_str}
use ltop.Label.{label_text}
use ltop.Label.Apply.{Files, start_time, is_start, set_display}

module _ (files : Files) where
  -- A label names a start time; it is live if that is the one of the process, and else stale.
  unfoldable pub is_live : Entry → Bool
  is_live e =
      not (e.start == no_start)
      && (elim (start_time files e.name) [ none ↦ false | some t ↦ is_start t e.start ])

  unfoldable pub is_stale : Entry → Bool
  is_stale e =
      not (e.start == no_start)
      && (elim (start_time files e.name) [ none ↦ false | some t ↦ not (is_start t e.start) ])

  -- The files that are unlinked.
  unfoldable pub stale : List Entry → List Bytes
  stale [] = []
  stale (e ∷ es) = if is_stale e then c_str e.name ∷ stale es else stale es

  -- The text of a row after one entry, and after all.
  unfoldable pub text_after : Entry → ℕ → Bytes → Bytes
  text_after e pid display =
      let read : Bytes = elim (files.label (c_str e.name)) [
        | none ↦ display
        | some file ↦ label_text file
      ] in
      if e.pid == pid && is_live e then read else display

  unfoldable pub last_text : List Entry → ℕ → Bytes → Bytes
  last_text [] pid display = display
  last_text (e ∷ es) pid display = last_text es pid (text_after e pid display)

  -- The rows with their last texts. Only the first row of a pid has a label.
  unfoldable pub relabel :
      {F : Type 0} → List Entry → List ℕ → List (ProcInfo F) → List (ProcInfo F)
  relabel es pids [] = []
  relabel es pids (p ∷ procs) =
      let shown = record p { display = last_text es p.pid p.display } in
      let rest = relabel es (p.pid ∷ pids) procs in (if has pids p.pid then p else shown) ∷ rest

  pub relabel-nil :
      {F : Type 0} (pids : List ℕ) (procs : List (ProcInfo F)) → relabel [] pids procs ≡ procs
  unfolding relabel last_text
  relabel-nil pids [] = refl
  relabel-nil pids (p ∷ procs) = elim (Bool-cases (has pids p.pid)) [
    | inl seen ↦ rw (seen, relabel-nil (p.pid ∷ pids) procs) refl
    | inr first ↦ rw (first, relabel-nil (p.pid ∷ pids) procs) refl
  ]

  -- An entry that changes no text.
  unfoldable pub Idle : Entry → List ℕ → Type 0
  Idle e pids =
      (pid : ℕ) (display : Bytes) → has pids pid ≡ false → text_after e pid display ≡ display

  Idle-cons : (e : Entry) (k : ℕ) (pids : List ℕ) → Idle e pids → Idle e (k ∷ pids)
  unfolding Idle has
  Idle-cons e k pids idle pid display h = idle pid display (ground (arith, h))

  pub relabel-Idle :
      {F : Type 0} (e : Entry) (es : List Entry) (pids : List ℕ) (procs : List (ProcInfo F))
      → Idle e pids
      → relabel es pids procs ≡ relabel (e ∷ es) pids procs
  unfolding relabel last_text Idle
  relabel-Idle e es pids [] idle = refl
  relabel-Idle e es pids (p ∷ procs) idle =
      let later = relabel-Idle e es (p.pid ∷ pids) procs (Idle-cons e p.pid pids idle) in
      elim (Bool-cases (has pids p.pid)) [
        | inl seen ↦ rw (seen, later) refl
        | inr first ↦ rw (first, later, idle p.pid p.display first) refl
      ]

  text-other :
      (e : Entry) (k : ℕ) (display : Bytes)
      → (e.pid == k) ≡ false
      → text_after e k display ≡ display
  unfolding text_after
  text-other e k display h = rw h refl

  pub text-dead :
      (e : Entry) (k : ℕ) (display : Bytes) → is_live e ≡ false → text_after e k display ≡ display
  unfolding text_after
  text-dead e k display h = ground (arith, h)

  text-label :
      (e : Entry) (file : Bytes) (k : ℕ) (display : Bytes)
      → is_live e ≡ true
      → files.label (c_str e.name) ≡ some file
      → (e.pid == k) ≡ true
      → text_after e k display ≡ label_text file
  unfolding text_after
  text-label e file k display live read h = rw (h, live, read) refl

  pub text-unread :
      (e : Entry) (k : ℕ) (display : Bytes)
      → files.label (c_str e.name) ≡ none
      → text_after e k display ≡ display
  unfolding text_after
  text-unread e k display read = elim (Bool-cases (e.pid == k && is_live e)) [
    | inl h ↦ rw (h, read) refl
    | inr h ↦ rw h refl
  ]

  has-cons :
      (k : ℕ) (pids : List ℕ) (j : ℕ)
      → (k == j) ≡ false
      → has pids j ≡ false
      → has (k ∷ pids) j ≡ false
  unfolding has
  has-cons k pids j h new = rw (h, new) refl

  Idle-own : (e : Entry) (k : ℕ) (pids : List ℕ) → e.pid ≡ k → Idle e (k ∷ pids)
  unfolding Idle has
  Idle-own e k pids eq pid display h = text-other e pid display (ground (arith, h, eq))

  -- A live label with a file.
  pub relabel-set_display :
      {F : Type 0} (e : Entry) (file : Bytes) (es : List Entry) (pids : List ℕ)
      (procs : List (ProcInfo F))
      → is_live e ≡ true
      → files.label (c_str e.name) ≡ some file
      → has pids e.pid ≡ false
      → relabel es pids (set_display e.pid (label_text file) procs) ≡ relabel (e ∷ es) pids procs
  unfolding relabel set_display last_text
  relabel-set_display e file es pids [] live read new = refl
  relabel-set_display e file es pids (p ∷ procs) live read new =
      elim (Bool-cases (p.pid == e.pid)) [
        | inl same ↦
            let eq : e.pid ≡ p.pid = ground arith in
            let first : has pids p.pid ≡ false = subst (λ k. has pids k ≡ false) eq new in
            let text = text-label e file p.pid p.display live read (ground arith) in
            let later = relabel-Idle e es (p.pid ∷ pids) procs (Idle-own e p.pid pids eq) in
            rw (same, first, text, later) refl
        | inr other ↦
            let text = text-other e p.pid p.display (ground arith) in
            let later =
              relabel-set_display e file es (p.pid ∷ pids) procs live read
                (has-cons p.pid pids e.pid other new) in
            rw (other, text, later) refl
      ]

-- The start time of every label can be read without a panic.
unfoldable pub Readable : Files → List Entry → Type 0
Readable files [] = Unit
Readable files (e ∷ es) =
    ((e.start == no_start) ≡ false → (t : Option ℕ) × (start_time files e.name ≡ some t))
    × Readable files es
