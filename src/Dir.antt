-- ===== src/Dir.antt =====
-- src/platform.rs: PidDir, the iterator over the entries of a directory that are named by numbers,
-- and has_arg. What getdents64 fills the buffer with is a parameter: a list of its answers, where an
-- empty one, or none that is left, is the end of the directory. `none` is a read behind the bytes that
-- the kernel wrote, or the end of the fuel. A C string is its bytes with the zero, and what follows.
-- This is the Linux build, and the room of the arena, where the buffer stands, is left out.
pub mod Names
pub mod Listing
pub mod Shown
pub mod Whole
pub mod Args
mod Tests
use ltop.Base.{
  ℕ, zero, suc, ◌+◌, ◌-◌, ◌*◌, ◌/◌, ◌%◌, ◌^◌, Bool, true, false, ◌&&◌, not, Option, none, some,
  List, [], ◌∷◌, ◌++◌, ltb, leb, ◌==◌, if◌then◌else◌, ◌>>=◌, length, get_elem?, drop,
}
use ltop.Bytes.{Bytes}

abbrev pub no_start : ℕ
no_start = 2 ^ 64 - 1

abbrev pub dirent_name_offset : ℕ
dirent_name_offset = 19

abbrev pub is_ascii_digit : ℕ → Bool
is_ascii_digit b = leb b'0' b && leb b b'9'

-- The loop over a name, at its byte `i`: `n` and `head` at its end, or the inner none if it breaks
-- off with false.
unfoldable pub name_loop : ℕ → ℕ → ℕ → Bytes → Option (Option (ℕ × ℕ))
name_loop n head i [] = none
name_loop n head i (b ∷ name) =
    let dot = name_loop 0 n (i + 1) name in
    let digit = name_loop ((n * 10 + (b - b'0')) % 2 ^ 64) head (i + 1) name in
    if b == 0
    then some (if ltb 0 i then some (n, head) else none)
    else if b == b'.' && head == no_start && ltb 0 i
    then dot
    else if is_ascii_digit b
    then digit
    else some none

-- An entry: the number that next returns, and the fields start and name that it leaves.
pub record Entry : Type 0 where
  pub pid : ℕ
  pub start : ℕ
  pub name : Bytes

unfoldable pub entry_of : ℕ × ℕ → Bytes → Entry
entry_of (n, head) name =
    if head == no_start
    then record { pid = n % 2 ^ 32; start = no_start; name = name }
    else record { pid = head % 2 ^ 32; start = n; name = name }

-- The fields buf, up to buf_filled, and buf_pos, with the answers to come.
pub record PidDir : Type 0 where
  pub answers : List Bytes
  pub buf : Bytes
  pub buf_pos : ℕ

unfoldable pub at : List Bytes → PidDir
at answers = record { answers = answers; buf = []; buf_pos = 0 }

-- The test of an answer: `n <= 0`, or the buffer that is filled anew.
unfoldable pub refill : PidDir → Option PidDir
refill d =
    if leb (length d.buf) d.buf_pos
    then elim d.answers [
      | [] ↦ none
      | a ∷ answers ↦ elim a [
        | [] ↦ none
        | b ∷ bs ↦ some (record { answers = answers; buf = b ∷ bs; buf_pos = 0 })
      ]
    ]
    else some d

-- One record of the buffer; a name that is skipped goes on with `skip` behind it.
unfoldable pub read_record :
    (PidDir → Option (Option (Entry × PidDir))) → PidDir → Option (Option (Entry × PidDir))
unfolding name_loop entry_of
read_record skip d = get_elem? d.buf (d.buf_pos + 16) >>= λ lo.
    get_elem? d.buf (d.buf_pos + 17) >>= λ hi.
    let name = drop (d.buf_pos + dirent_name_offset) d.buf in
    let d' = record d { buf_pos = d.buf_pos + (lo + hi * 2 ^ 8) } in
    name_loop 0 no_start 0 name >>= λ ok. elim ok [
      | none ↦ skip d'
      | some found ↦ some (some (entry_of found name, d'))
    ]

-- next: the inner none is the code's None.
unfoldable pub next : ℕ → PidDir → Option (Option (Entry × PidDir))
unfolding read_record
next zero d = none
next (suc fuel) d =
    let rest = read_record (next fuel) in elim (refill d) [ none ↦ some none | some d ↦ rest d ]

-- `while let Some(pid) = d.next()`: the entries in their order, with fuel for each call of next and
-- for the rounds.
unfoldable pub entries : ℕ → ℕ → PidDir → Option (List Entry)
entries fuel zero d = none
entries fuel (suc rounds) d = next fuel d >>= λ o. elim o [
  | none ↦ some []
  | some (e, d') ↦ entries fuel rounds d' >>= λ rest. some (e ∷ rest)
]

-- has_arg: the comparison of one argument, which is a C string, with the flag.
unfoldable pub arg_is : Bytes → Bytes → Option Bool
arg_is [] flag = none
arg_is (a ∷ arg) [] = some (a == 0)
arg_is (a ∷ arg) (b ∷ flag) =
    let rest = arg_is arg flag in
    if not (a == b) then some false else if a == 0 then some true else rest

-- The loop over the arguments behind the first; a null pointer is none.
unfoldable pub arg_loop : List (Option Bytes) → Bytes → Option Bool
unfolding arg_is
arg_loop [] flag = some false
arg_loop (none ∷ args) flag = arg_loop args flag
arg_loop (some arg ∷ args) flag =
    let rest = arg_loop args flag in arg_is arg flag >>= λ same. if same then some true else rest

unfoldable pub has_arg : List (Option Bytes) → Bytes → Option Bool
unfolding arg_loop
has_arg argv flag = arg_loop (drop 1 argv) flag
