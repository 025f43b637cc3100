-- ===== src/Dir/Names.antt =====
-- src/platform.rs, PidDir::next: the names that it reads.
use ltop.Base.{
  ap, ◌>>=◌, ◌==◌, ℕ, suc, ◌+◌, ◌-◌, ◌*◌, ◌%◌, ◌^◌, ◌≤◌, ◌<◌, ◌≡◌, refl, ◌∙◌, arith, Bool, true,
  false, ◌&&◌, Option, none, some, [], ◌∷◌, ◌++◌, ltb, ◌==◌, if◌then◌else◌, length, and_left,
  and_right,
}
use ltop.Bytes.{Bytes}
use ltop.Decimal.Parse.{all_digits, value}
use ltop.Dir.{Entry, entry_of, name_loop, no_start, is_ascii_digit}

-- No byte of a name is zero.
abbrev pub NoZero : Bytes → Type 0
NoZero [] = Unit {0}
NoZero (b ∷ s) = (0 < b) × NoZero s

-- What is behind the zero is not read.
pub name_loop-stops :
    (n head i : ℕ) (name rest : Bytes)
    → NoZero name
    → name_loop n head i (name ++ 0 ∷ rest) ≡ name_loop n head i (name ++ 0 ∷ [])
unfolding name_loop
name_loop-stops n head i [] rest h = refl
name_loop-stops n head i (b ∷ name) rest (pos, h) =
    let dot = name_loop-stops 0 n (i + 1) name rest h in
    let digit = name_loop-stops ((n * 10 + (b - b'0')) % 2 ^ 64) head (i + 1) name rest h in
    rw (dot, digit) refl

if_total :
    (c : Bool) {A : Type 0} {p q : Option A}
    → (x : A) × (p ≡ some x)
    → (y : A) × (q ≡ some y)
    → (z : A) × ((if c then p else q) ≡ some z)
if_total true p q = p
if_total false p q = q

-- A name ends at its zero.
pub name_loop-total :
    (n head i : ℕ) (name : Bytes)
    → (ok : Option (ℕ × ℕ)) × (name_loop n head i (name ++ 0 ∷ []) ≡ some ok)
unfolding name_loop
name_loop-total n head i [] = (_, refl)
name_loop-total n head i (b ∷ name) =
    let dot = name_loop-total 0 n (i + 1) name in
    let digit = name_loop-total ((n * 10 + (b - b'0')) % 2 ^ 64) head (i + 1) name in
    if_total (b == 0) (_, refl)
      (if_total (b == b'.' && head == no_start && ltb 0 i) dot
        (if_total (is_ascii_digit b) digit (none, refl)))

le-value : (n : ℕ) (s : Bytes) → n ≤ value n s
unfolding value
le-value n [] = omega arith
le-value n (b ∷ s) = omega (arith, le-value (n * 10 + (b - b'0')) s)

pub name_loop-value :
    (n head i : ℕ) (ds rest : Bytes)
    → all_digits ds ≡ true
    → value n ds < 2 ^ 64
    → name_loop n head i (ds ++ rest) ≡ name_loop (value n ds) head (i + length ds) rest
unfolding name_loop all_digits value
name_loop-value n head i [] rest digits small = let e : i + 0 ≡ i = omega arith in rw e refl
name_loop-value n head i (b ∷ ds) rest digits small =
    let m = n * 10 + (b - b'0') in
    let digit = and_left (is_ascii_digit b) (all_digits ds) digits in
    let others = and_right (is_ascii_digit b) (all_digits ds) digits in
    let some_digit : (b == 0) ≡ false = ground arith in
    let no_dot : (b == b'.') ≡ false = ground arith in
    let fits : m % 2 ^ 64 ≡ m = omega (arith, le-value m ds) in
    let count : i + 1 + length ds ≡ i + suc (length ds) = omega arith in
    rw (some_digit, no_dot, digit, fits, ← count)
      (name_loop-value m head (i + 1) ds rest others small)

name_loop-dot :
    (n i : ℕ) (rest : Bytes)
    → 0 < i
    → name_loop n no_start i (b'.' ∷ rest) ≡ name_loop 0 n (i + 1) rest
unfolding name_loop
name_loop-dot n i rest pos = let behind : ltb 0 i ≡ true = ground arith in rw behind refl

name_loop-end :
    (n head i : ℕ) (rest : Bytes) → 0 < i → name_loop n head i (0 ∷ rest) ≡ some (some (n, head))
unfolding name_loop
name_loop-end n head i rest pos = let behind : ltb 0 i ≡ true = ground arith in rw behind refl

-- Digits alone, and digits, a dot and digits.
name_loop-pid :
    (b : ℕ) (ds rest : Bytes)
    → all_digits (b ∷ ds) ≡ true
    → value 0 (b ∷ ds) < 2 ^ 64
    → name_loop 0 no_start 0 ((b ∷ ds) ++ 0 ∷ rest) ≡ some (some (value 0 (b ∷ ds), no_start))
name_loop-pid b ds rest digits small =
    name_loop-value 0 no_start 0 (b ∷ ds) (0 ∷ rest) digits small
    ∙ name_loop-end (value 0 (b ∷ ds)) no_start (0 + length (b ∷ ds)) rest (omega arith)

name_loop-label :
    (b : ℕ) (ds es rest : Bytes)
    → all_digits (b ∷ ds) ≡ true
    → value 0 (b ∷ ds) < 2 ^ 64
    → all_digits es ≡ true
    → value 0 es < 2 ^ 64
    → name_loop 0 no_start 0 ((b ∷ ds) ++ b'.' ∷ (es ++ 0 ∷ rest))
      ≡ some (some (value 0 es, value 0 (b ∷ ds)))
name_loop-label b ds es rest digits small digits' small' =
    let i = length (b ∷ ds) in
    name_loop-value 0 no_start 0 (b ∷ ds) (b'.' ∷ (es ++ 0 ∷ rest)) digits small
    ∙ name_loop-dot (value 0 (b ∷ ds)) (0 + i) (es ++ 0 ∷ rest) (omega arith)
    ∙ name_loop-value 0 (value 0 (b ∷ ds)) (0 + i + 1) es (0 ∷ rest) digits' small'
    ∙ name_loop-end (value 0 es) (value 0 (b ∷ ds)) (0 + i + 1 + length es) rest (omega arith)

-- The entry of a name, if it is one that next returns.
unfoldable pub entry_at : Bytes → Bytes → Option Entry
entry_at text name = name_loop 0 no_start 0 text >>= λ ok. ok >>= λ n. some (entry_of n name)

-- A name of digits that spell a u32 is an entry of that pid without a start time; with a dot
-- behind and digits, none or more, that spell a u64, it is an entry of the pid with that
-- number as its start time, which is 0 for no digits.
pub numbers_of_label :
    (b : ℕ) (ds es rest : Bytes)
    → all_digits (b ∷ ds) ≡ true
    → value 0 (b ∷ ds) < 2 ^ 32
    → all_digits es ≡ true
    → value 0 es < 2 ^ 64
    → (entry_at ((b ∷ ds) ++ 0 ∷ rest) rest
        ≡ some (record { pid = value 0 (b ∷ ds); start = no_start; name = rest }))
      × (entry_at ((b ∷ ds) ++ b'.' ∷ (es ++ 0 ∷ rest)) rest
          ≡ some (record { pid = value 0 (b ∷ ds); start = value 0 es; name = rest }))
unfolding entry_of entry_at
numbers_of_label b ds es rest digits small digits' small' =
    let pid : value 0 (b ∷ ds) % 2 ^ 32 ≡ value 0 (b ∷ ds) = omega arith in
    let made : Entry → Option Entry = λ e. some e in
    let labelled : (value 0 (b ∷ ds) == no_start) ≡ false = ground arith in
    (
      rw (name_loop-pid b ds rest digits (omega arith))
          (ap (λ n. made (record { pid = n; start = no_start; name = rest })) pid),
      rw (name_loop-label b ds es rest digits (omega arith) digits' small', labelled)
          (ap (λ n. made (record { pid = n; start = value 0 es; name = rest })) pid),
    )
