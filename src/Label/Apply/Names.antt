-- ===== src/Label/Apply/Names.antt =====
-- src/label.rs, start_time on the names that PidDir yields.
use mathlib.Core.Path.{subst}
use ltop.Base.{
  ℕ, zero, suc, ◌+◌, ◌-◌, ◌*◌, ◌%◌, ◌^◌, ◌≡◌, refl, sym, ap, ◌∙◌, arith, Bool, true, false, Option,
  none, some, List, [], ◌∷◌, ◌==◌, ltb, if◌then◌else◌, ◌>>=◌, Bool-cases, Option-cases, bind_some,
  some_inj, get_elem?, drop, inl, inr,
}
use ltop.Bytes.{Bytes}
use ltop.Dir.{
  read_record, Entry, PidDir, no_start, name_loop, entry_of, is_ascii_digit, refill, next, entries,
}
use ltop.Label.{start_field}
use ltop.Label.Apply.{Files, copy_pid, of_stat, start_time}
use ltop.Label.Apply.Rows.{Readable}

copied_more :
    (o : Option (Option Bytes)) (c : ℕ)
    → (r : Option Bytes) × (o ≡ some r)
    → (r : Option Bytes) × ((o >>= λ o. some (o >>= λ s. some (c ∷ s))) ≡ some r)
copied_more none c (r, e) = absurd (ground (arith, e))
copied_more (some o) c (r, e) = (o >>= λ s. some (c ∷ s), refl)

-- The head of what a name gives.
head_of : Option (Option (ℕ × ℕ)) → ℕ
head_of none = no_start
head_of (some none) = no_start
head_of (some (some (n, head))) = head

head_of_end :
    (n i : ℕ) (b : Bool) (o : Option (Option (ℕ × ℕ)))
    → o ≡ some (if◌then◌else◌ {A = Option (ℕ × ℕ)} b (some (n, no_start)) none)
    → head_of o ≡ no_start
unfolding head_of
head_of_end n i true o e = ap head_of e
head_of_end n i false o e = ap head_of e

-- A byte in front of the dot is a digit.
name_loop-digit :
    (c : ℕ) (name : Bytes) (n i m h : ℕ)
    → (c == b'.') ≡ false
    → (h == no_start) ≡ false
    → name_loop n no_start i (c ∷ name) ≡ some (some (m, h))
    → name_loop ((n * 10 + (c - b'0')) % 2 ^ 64) no_start (i + 1) name ≡ some (some (m, h))
unfolding name_loop head_of
name_loop-digit c name n i m h other start e = elim (Bool-cases (c == 0)) [
  | inl end ↦
      let ended = head_of_end n i (ltb 0 i) (some (some (m, h))) (sym (rw end at e)) in
      absurd (ground (arith, ended, start))
  | inr inside ↦ elim (Bool-cases (is_ascii_digit c)) [
    | inl digit ↦ rw (inside, other, digit) at e
    | inr odd ↦
        let skipped = ap head_of (rw (inside, other, odd) at e) in
        absurd (ground (arith, skipped, start))
  ]
]

copy_pid_total :
    (name : Bytes) (room n i m h : ℕ)
    → name_loop n no_start i name ≡ some (some (m, h))
    → (h == no_start) ≡ false
    → (r : Option Bytes) × (copy_pid room name ≡ some r)
unfolding copy_pid name_loop
copy_pid_total [] room n i m h e start = absurd (ground (arith, e))
copy_pid_total (c ∷ name) zero n i m h e start = elim (Bool-cases (c == b'.')) [
  | inl dot ↦ (some [], rw dot refl)
  | inr other ↦ (none, rw other refl)
]
copy_pid_total (c ∷ name) (suc room) n i m h e start = elim (Bool-cases (c == b'.')) [
  | inl dot ↦ (some [], rw dot refl)
  | inr other ↦ rw other (
      copied_more (copy_pid room name) c (
        copy_pid_total name room ((n * 10 + (c - b'0')) % 2 ^ 64) (i + 1) m h
          (name_loop-digit c name n i m h other start e) start))
]

-- An entry that next may return.
IsNamed : Entry → Type 0
IsNamed e =
    (n : ℕ) × (head : ℕ) × (name_loop 0 no_start 0 e.name ≡ some (some (n, head)))
    × ((e.start == no_start) ≡ false → (head == no_start) ≡ false)

entry_of-IsNamed :
    (n head : ℕ) (name : Bytes)
    → name_loop 0 no_start 0 name ≡ some (some (n, head))
    → IsNamed (entry_of (n, head) name)
unfolding IsNamed entry_of
entry_of-IsNamed n head name h = elim (Bool-cases (head == no_start)) [
  | inl none_start ↦ rw none_start (n, head, h, λ s. absurd (ground (arith, s)))
  | inr start ↦ rw start (n, head, h, λ s. start)
]

taken-IsNamed :
    (skip : PidDir → Option (Option (Entry × PidDir))) (d d' : PidDir) (e : Entry)
    (ok : Option (ℕ × ℕ)) (name : Bytes)
    → ((d : PidDir) → skip d ≡ some (some (e, d')) → IsNamed e)
    → name_loop 0 no_start 0 name ≡ some ok
    → (elim ok as (λ x. Option (Option (Entry × PidDir))) [
      | none ↦ skip d
      | some found ↦ some (some (entry_of found name, d))
    ])
      ≡ some (some (e, d'))
    → IsNamed e
taken-IsNamed skip d d' e none name later named h = later d h
taken-IsNamed skip d d' e (some (n, head)) name later named h =
    subst IsNamed (ap (λ x. x.0) (some_inj (some_inj h))) (entry_of-IsNamed n head name named)

read_record-IsNamed :
    (skip : PidDir → Option (Option (Entry × PidDir))) (d d' : PidDir) (e : Entry)
    → ((d : PidDir) → skip d ≡ some (some (e, d')) → IsNamed e)
    → read_record skip d ≡ some (some (e, d'))
    → IsNamed e
unfolding read_record
read_record-IsNamed skip d d' e later h =
    let (lo, _, h) = bind_some (get_elem? d.buf (d.buf_pos + 16)) _ (some (e, d')) h in
    let (hi, _, h) = bind_some (get_elem? d.buf (d.buf_pos + 17)) _ (some (e, d')) h in
    let (ok, named, h) =
      bind_some (name_loop 0 no_start 0 (drop (d.buf_pos + 19) d.buf)) _ (some (e, d')) h in
    taken-IsNamed skip _ d' e ok (drop (d.buf_pos + 19) d.buf) later named h

next-IsNamed :
    (fuel : ℕ) (d d' : PidDir) (e : Entry) → next fuel d ≡ some (some (e, d')) → IsNamed e
unfolding next
next-IsNamed zero d d' e h = absurd (ground (arith, h))
next-IsNamed (suc fuel) d d' e h = elim (Option-cases (refill d)) [
  | inl end ↦ absurd (ground (arith, rw (end, next) at h))
  | inr (at, filled) ↦
      read_record-IsNamed (next fuel) at d' e (λ d. next-IsNamed fuel d d' e)
        (rw (filled, next) at h)
]

-- A line of a process is read without a panic.
unfoldable pub Parses : Files → Type 0
Parses files =
    (pid stat : Bytes) → files.stat pid ≡ some stat → (t : Option ℕ) × (start_field stat ≡ some t)

start_time_total :
    (files : Files) (e : Entry)
    → Parses files
    → IsNamed e
    → (e.start == no_start) ≡ false
    → (t : Option ℕ) × (start_time files e.name ≡ some t)
unfolding Parses IsNamed start_time
start_time_total files e parses (n, head, named, start) label =
    let (pid, copied) = copy_pid_total e.name 11 0 0 n head named (start label) in
    let read : start_time files e.name ≡ of_stat (pid >>= files.stat) =
      ap (λ o. o >>= λ pid. of_stat (pid >>= files.stat)) copied in
    elim (Option-cases (pid >>= files.stat)) [
      | inl gone ↦ (none, read ∙ ap of_stat gone)
      | inr (stat, line) ↦
          let (p, known, found) = bind_some pid files.stat stat line in
          let (t, time) = parses p stat found in (t, read ∙ ap of_stat line ∙ time)
    ]

-- The entries of a directory, all of them.
pub entries-Readable :
    (files : Files) (fuel rounds : ℕ) (d : PidDir) (es : List Entry)
    → Parses files
    → entries fuel rounds d ≡ some es
    → Readable files es
unfolding entries Readable
entries-Readable files fuel zero d es parses h = absurd (ground (arith, h))
entries-Readable files fuel (suc rounds) d es parses h = elim (Option-cases (next fuel d)) [
  | inl out ↦ absurd (ground (arith, rw out at h))
  | inr (none, end) ↦ subst (Readable files) (some_inj (rw end at h)) tt
  | inr (some (e, d'), found) ↦
      let (rest, listed, same) = bind_some (entries fuel rounds d') _ es (rw found at h) in
      subst (Readable files) (some_inj same) (
        start_time_total files e parses (next-IsNamed fuel d d' e found),
        entries-Readable files fuel rounds d' rest parses listed,
      )
]
