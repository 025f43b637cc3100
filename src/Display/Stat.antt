-- ===== src/Display/Stat.antt =====
-- src/main.rs, parse_stat: the name and the fields of a line of /proc/<pid>/stat.
use ltop.Base.{
  drop-drop, ℕ, suc, ◌+◌, ◌-◌, ◌≡◌, refl, sym, ap, ◌∙◌, arith, Bool, true, false, not, none, some,
  [], ◌∷◌, ◌++◌, append_assoc, leb, ◌==◌, if◌then◌else◌, length, drop, take-append_length,
  drop-append_length, length-append, Bool-cases, Option-cases, inl, inr,
}
use ltop.Bytes.{Bytes, is_ascii_whitespace}
use ltop.Display.Text.{position, rposition, slice_range}
use ltop.Display.Slices.{Lacks}
use ltop.Display.{parse_stat}

position_append :
    (p : ℕ → Bool) (s : Bytes) (x : ℕ) (t : Bytes)
    → Lacks p s
    → p x ≡ true
    → position p (s ++ x ∷ t) ≡ some (length s)
unfolding position
position_append p [] x t lacks h = rw h
position_append p (y ∷ s) x t (other, lacks) h =
    rw (other, position_append p s x t lacks h) (ap some (omega arith))

rposition-Lacks : (p : ℕ → Bool) (s : Bytes) → Lacks p s → rposition p s ≡ none
unfolding rposition
rposition-Lacks p [] lacks = refl
rposition-Lacks p (y ∷ s) (other, lacks) = rw (rposition-Lacks p s lacks, other)

rposition_append :
    (p : ℕ → Bool) (s : Bytes) (x : ℕ) (t : Bytes)
    → Lacks p t
    → p x ≡ true
    → rposition p (s ++ x ∷ t) ≡ some (length s)
unfolding rposition
rposition_append p [] x t lacks h = rw (rposition-Lacks p t lacks, h)
rposition_append p (y ∷ s) x t lacks h =
    rw (rposition_append p s x t lacks h) (ap some (omega arith))

-- The rest of a line without the blanks in front.
abbrev pub trim_start : Bytes → Bytes
trim_start [] = []
trim_start (x ∷ s) = if is_ascii_whitespace x then trim_start s else x ∷ s

position-trim_start :
    (s : Bytes)
    → (elim (position (λ b. not (is_ascii_whitespace b)) s) [ none ↦ [] | some i ↦ drop i s ])
      ≡ trim_start s
unfolding position
position-trim_start [] = refl
position-trim_start (x ∷ s) = elim (Bool-cases (is_ascii_whitespace x)) [
  | inr other ↦ rw other
  | inl blank ↦ elim (Option-cases (position (λ b. not (is_ascii_whitespace b)) s)) [
    | inl nowhere ↦ rw (blank, nowhere) (rw nowhere at (position-trim_start s))
    | inr (i, found) ↦
        let next : i + 1 ≡ suc i = omega arith in
        rw (blank, found, next) (rw found at (position-trim_start s))
  ]
]

-- The parts of a line, where `close` is the place of the last parenthesis.
module _ (pid comm rest : Bytes) where
  abbrev line : Bytes
  line = pid ++ b'(' ∷ (comm ++ b')' ∷ rest)

  abbrev close : ℕ
  close = length (pid ++ b'(' ∷ comm)

  line_split : (pid ++ b'(' ∷ comm) ++ b')' ∷ rest ≡ line
  line_split = append_assoc pid (b'(' ∷ comm) (b')' ∷ rest)

  drop-line : drop (close + 1) line ≡ rest
  drop-line =
      drop-drop close 1 line
      ∙ ap (drop 1) (
          ap (drop close) (sym line_split)
          ∙ drop-append_length close (pid ++ b'(' ∷ comm) (b')' ∷ rest) refl)

  slice_range-line : slice_range line (length pid + 1) close ≡ some comm
  unfolding slice_range
  slice_range-line =
      let size = length-append pid (b'(' ∷ comm) in
      let total = ap length line_split in
      let total2 = length-append (pid ++ b'(' ∷ comm) (b')' ∷ rest) in
      let ordered : leb (length pid + 1) close ≡ true = ground arith in
      let inside : leb close (length line) ≡ true = ground arith in
      let width : close - (length pid + 1) ≡ length comm = omega arith in
      let name : drop (length pid + 1) line ≡ comm ++ b')' ∷ rest =
        drop-drop (length pid) 1 line
        ∙ ap (drop 1) (drop-append_length (length pid) pid (b'(' ∷ (comm ++ b')' ∷ rest)) refl) in
      rw (ordered, inside, width, name)
        (ap some (take-append_length comm (b')' ∷ rest) (length comm) refl))

  after-line :
      (elim (position (λ b. not (is_ascii_whitespace b)) (drop (close + 1) line)) [
        | none ↦ []
        | some i ↦ drop (close + 1 + i) line
      ])
      ≡ trim_start rest
  after-line = elim (Option-cases (position (λ b. not (is_ascii_whitespace b)) rest)) [
    | inl nowhere ↦ rw (drop-line, nowhere) (rw nowhere at (position-trim_start rest))
    | inr (i, found) ↦
        rw (drop-line, found)
          (drop-drop (close + 1) i line
            ∙ (ap (drop i) drop-line ∙ (rw found at (position-trim_start rest))))
  ]

  -- On a line that has no opening parenthesis in front of the one before the name, and no
  -- closing one after the one behind the name, parse_stat finds the name, whatever
  -- parentheses it contains, and the rest without the blanks in front.
  pub parse_stat_line :
      Lacks (λ b. b == b'(') pid
      → Lacks (λ b. b == b')') rest
      → parse_stat (pid ++ b'(' ∷ (comm ++ b')' ∷ rest)) ≡ some (comm, trim_start rest)
  unfolding parse_stat
  parse_stat_line no_open no_close =
      let opens = position_append (λ b. b == b'(') pid b'(' (comm ++ b')' ∷ rest) no_open refl in
      let closes : rposition (λ b. b == b')') line ≡ some close =
        rw line_split at
          (rposition_append (λ b. b == b')') (pid ++ b'(' ∷ comm) b')' rest no_close refl) in
      rw (closes, opens, slice_range-line, parse_stat) (ap (λ t. some (comm, t)) after-line)

Lacks-append :
    (p : ℕ → Bool) (s : Bytes) (x : ℕ) (t : Bytes)
    → Lacks p s
    → p x ≡ false
    → Lacks p t
    → Lacks p (s ++ x ∷ t)
Lacks-append p [] x t h k l = (k, l)
Lacks-append p (y ∷ s) x t (other, h) k l = (other, Lacks-append p s x t h k l)

-- On a line whose last closing parenthesis stands before its first opening one, parse_stat
-- panics.
pub parse_stat_reversed :
    (front middle rest : Bytes)
    → Lacks (λ b. b == b'(') front
    → Lacks (λ b. b == b'(') middle
    → Lacks (λ b. b == b')') middle
    → Lacks (λ b. b == b')') rest
    → parse_stat (front ++ b')' ∷ (middle ++ b'(' ∷ rest)) ≡ none
unfolding parse_stat slice_range
parse_stat_reversed front middle rest h k l m =
    let stat = front ++ b')' ∷ (middle ++ b'(' ∷ rest) in
    let split : (front ++ b')' ∷ middle) ++ b'(' ∷ rest ≡ stat =
      append_assoc front (b')' ∷ middle) (b'(' ∷ rest) in
    let opens : position (λ b. b == b'(') stat ≡ some (length (front ++ b')' ∷ middle)) =
      rw split at (
        position_append (λ b. b == b'(') (front ++ b')' ∷ middle) b'(' rest
          (Lacks-append (λ b. b == b'(') front b')' middle h refl k) refl) in
    let closes : rposition (λ b. b == b')') stat ≡ some (length front) =
      rposition_append (λ b. b == b')') front b')' (middle ++ b'(' ∷ rest)
        (Lacks-append (λ b. b == b')') middle b'(' rest l refl m) refl in
    let size = length-append front (b')' ∷ middle) in
    let backwards : leb (length (front ++ b')' ∷ middle) + 1) (length front) ≡ false =
      ground arith in
    rw (closes, opens, backwards, parse_stat)
