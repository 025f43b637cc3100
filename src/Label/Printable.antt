-- ===== src/Label/Printable.antt =====
-- src/label.rs: a label is one line that cannot move the cursor, and its start time is read behind
-- a name with any bytes in it.
use ltop.Base.{
  ℕ, zero, suc, ◌≤◌, ◌≡◌, ◌≢◌, refl, ap, ◌∙◌, arith, ◌&&◌, not, some, [], ◌∷◌, ◌++◌, leb, ◌==◌,
  length, get_elem?, take, length-take, Bool-cases, inl, inr,
}
use ltop.Bytes.{Bytes, split_ascii_whitespace}
use ltop.Decimal.{parse_u64_ascii}
use ltop.Display.Slices.{Lacks}
use ltop.Display.Stat.{trim_start, parse_stat_line}
use ltop.Label.{label_max, text_loop, label_text, start_field}

-- No control byte: neither one of C0 nor DEL.
abbrev pub IsPrintable : Bytes → Type 0
IsPrintable [] = Unit {0}
IsPrintable (c ∷ s) = (0x20 ≤ c) × (c ≢ 0x7f) × IsPrintable s

text_loop-IsPrintable : (s : Bytes) → IsPrintable (text_loop s) × (length (text_loop s) ≤ length s)
unfolding text_loop
text_loop-IsPrintable [] = (tt, omega arith)
text_loop-IsPrintable (c ∷ s) =
    let (clean, short) = text_loop-IsPrintable s in
    elim (Bool-cases (c == 0x0a)) [
      | inl ends ↦ rw ends (tt, omega arith)
      | inr goes_on ↦ elim (Bool-cases (leb 0x20 c && not (c == 0x7f))) [
        | inl shown ↦ rw (goes_on, shown) ((ground arith, ground arith, clean), omega arith)
        | inr control ↦ rw (goes_on, control) (clean, omega arith)
      ]
    ]

-- A text without control bytes is shown as it is.
text_loop-fixed : (s : Bytes) → IsPrintable s → text_loop s ≡ s
unfolding text_loop
text_loop-fixed [] h = refl
text_loop-fixed (c ∷ s) (low, other, h) = ground (arith, text_loop-fixed s h)

take_all : (n : ℕ) (s : Bytes) → length s ≤ n → take n s ≡ s
take_all zero [] h = refl
take_all zero (c ∷ s) h = absurd (omega arith)
take_all (suc n) [] h = refl
take_all (suc n) (c ∷ s) h = ap (◌∷◌ c) (take_all n s (omega arith))

-- The text of a label file has no byte below 0x20 and no DEL, and at most label_max bytes; a
-- file that has no such bytes itself and is no longer is the text.
pub label_text_correct :
    (file : Bytes)
    → IsPrintable (label_text file)
      × (length (label_text file) ≤ label_max)
      × (IsPrintable file → length file ≤ label_max → label_text file ≡ file)
unfolding label_text
label_text_correct file =
    let (clean, short) = text_loop-IsPrintable (take label_max file) in
    (
      clean,
      omega (arith, length-take label_max file),
      λ h fits. ap text_loop (take_all label_max file fits) ∙ text_loop-fixed file h,
    )

-- On a line whose name may contain any bytes, with no opening parenthesis in front of it and no
-- closing one behind the one that ends it, the start time is the number in the twentieth
-- field behind the name, if there is such a field.
pub start_field_line :
    (pid comm rest field : Bytes)
    → Lacks (λ b. b == b'(') pid
    → Lacks (λ b. b == b')') rest
    → get_elem? (split_ascii_whitespace (trim_start rest)) 19 ≡ some field
    → start_field (pid ++ b'(' ∷ (comm ++ b')' ∷ rest)) ≡ some (parse_u64_ascii field)
unfolding start_field
start_field_line pid comm rest field h k found = rw (parse_stat_line pid comm rest h k, found)
