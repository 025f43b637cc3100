-- ===== src/Collect/Fields.antt =====
-- src/main.rs, collect_procs: the fields of a line of /proc/<pid>/stat.
use mathlib.Core.Path.{subst}
use ltop.Display.{parse_stat}
use ltop.Base.{
  ◌≤◌, bind_some, some_inj, else_some, drop-drop, ℕ, ◌+◌, ◌-◌, ◌*◌, ◌/◌, ◌%◌, ◌^◌, ◌≡◌, refl, sym,
  ap, ◌∙◌, arith, false, Option, none, some, List, ◌∷◌, ◌++◌, ◌==◌, ◌>>=◌, get_elem?,
  get_elem?-drop, take, drop,
}
use ltop.Bytes.{Bytes, split_ascii_whitespace}
use ltop.Decimal.{parse_u64_ascii}
use ltop.Display.Slices.{Lacks}
use ltop.Display.Stat.{trim_start, parse_stat_line}
use ltop.Collect.{nth, Parsed, Host, parse_fields, parse_line}

-- The number in a field, or 0.
pub field : ℕ → List Bytes → ℕ
field k fields = elim (get_elem? fields k >>= parse_u64_ascii) [ none ↦ 0 | some n ↦ n ]

-- What nth finds behind the first `n` fields, and what it leaves.
nth-drop :
    (n k m : ℕ) (fields : List Bytes) → n + k ≡ m → (nth k (drop n fields)).0 ≡ field m fields
unfolding nth field
nth-drop n k m fields h =
    ap (λ (o : Option Bytes). elim (o >>= parse_u64_ascii) as (λ x. ℕ) [ none ↦ 0 | some n ↦ n ])
      (get_elem?-drop n fields k ∙ ap (get_elem? fields) h)

nth_rest :
    (n k m : ℕ) (fields : List Bytes) → n + (k + 1) ≡ m → (nth k (drop n fields)).1 ≡ drop m fields
unfolding nth
nth_rest n k m fields h = sym (drop-drop n (k + 1) fields) ∙ ap (λ m. drop m fields) h

-- The numbers of the fields of proc(5), counted from the state of the process.
unfoldable pub of_fields : Host → Bytes → List Bytes → Parsed
of_fields h comm fields = record {
  ppid = field 1 fields % 2 ^ 32;
  total_ticks = (field 11 fields + field 12 fields) % 2 ^ 64;
  age_secs = (h.wall_now - (h.boot + field 19 fields / h.clock_ticks) % 2 ^ 64) % 2 ^ 32;
  rss_bytes = field 21 fields * h.page_size % 2 ^ 64;
  comm = take 15 comm;
}

parse_fields-of_fields :
    (h : Host) (comm : Bytes) (fields : List Bytes)
    → parse_fields h comm fields ≡ of_fields h comm fields
unfolding parse_fields of_fields
parse_fields-of_fields h comm fields =
    rw
      (
        nth_rest 0 1 2 fields (omega arith),
        nth_rest 2 9 12 fields (omega arith),
        nth_rest 12 0 13 fields (omega arith),
        nth_rest 13 6 20 fields (omega arith),
        nth-drop 0 1 1 fields (omega arith),
        nth-drop 2 9 11 fields (omega arith),
        nth-drop 12 0 12 fields (omega arith),
        nth-drop 13 6 19 fields (omega arith),
        nth-drop 20 1 21 fields (omega arith),
      )
      refl

parse_fields_age :
    (h : Host) (comm : Bytes) (fields : List Bytes)
    → (parse_fields h comm fields).age_secs ≤ h.wall_now
parse_fields_age h comm fields =
    subst (λ q. q.age_secs ≤ h.wall_now) (sym (parse_fields-of_fields h comm fields))
      (unfold of_fields in omega arith)

-- No process is older than the clock.
pub parse_line_age :
    (h : Host) (stat : Bytes) (p : Parsed) → parse_line h stat ≡ some p → p.age_secs ≤ h.wall_now
unfolding parse_line
parse_line_age h stat p e =
    let ((comm, after_comm), found, rest) = bind_some (parse_stat stat) _ p e in
    subst (λ q. q.age_secs ≤ h.wall_now) (some_inj (else_some (h.clock_ticks == 0) _ p rest).1)
      (parse_fields_age h comm (split_ascii_whitespace after_comm))

-- If the clock has ticks, on a line with no opening parenthesis in front of the one before the
-- name and no closing one behind the one after it, collect_procs takes the parent from the
-- second field behind the name, the CPU ticks from the sum of the twelfth and the thirteenth,
-- the age from the twentieth and the memory from the twenty-second, a field that is no number
-- counting as 0, whatever parentheses and blanks the name contains.
pub parse_line-of_fields :
    (h : Host) (pid comm rest : Bytes)
    → (h.clock_ticks == 0) ≡ false
    → Lacks (λ b. b == b'(') pid
    → Lacks (λ b. b == b')') rest
    → parse_line h (pid ++ b'(' ∷ (comm ++ b')' ∷ rest))
      ≡ some (of_fields h comm (split_ascii_whitespace (trim_start rest)))
unfolding parse_line
parse_line-of_fields h pid comm rest clock no_open no_close =
    let found = parse_stat_line pid comm rest no_open no_close in
    rw (found, clock)
      (ap some (parse_fields-of_fields h comm (split_ascii_whitespace (trim_start rest))))
