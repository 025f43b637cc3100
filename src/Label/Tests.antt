-- ===== src/Label/Tests.antt =====
-- src/label.rs: a label, and a line of /proc/<pid>/stat.
use ltop.Base.{◌≤◌, ◌≡◌, refl, get_elem?, ◌==◌, arith, some, ◌∷◌, ◌++◌, length}
use ltop.Bytes.{Bytes, split_ascii_whitespace, is_ascii_whitespace}
use ltop.Display.Slices.{Lacks}
use ltop.Display.Stat.{trim_start}
use ltop.Display.Text.{codes}
use ltop.Label.{label_max, label_text}
use ltop.Label.Printable.{IsPrintable, label_text_correct}

-- A label with an escape byte in it, and a second line.
abbrev file : Bytes
file = codes "build" ++ (0x1b ∷ (codes " 3/4" ++ (0x0a ∷ codes "more")))

file_text : label_text file ≡ codes "build 3/4"
unfolding label_text
file_text = refl

label_text_correct_example :
    IsPrintable (label_text file)
    × (length (label_text file) ≤ label_max)
    × (IsPrintable file → length file ≤ label_max → label_text file ≡ file)
label_text_correct_example = label_text_correct file

abbrev fields : Bytes
fields = codes " S 1 1 1 0 -1 0 0 0 0 0 1 2 0 0 20 0 1 0 4321 0"

no_open : Lacks (λ b. b == b'(') (codes "42 ")
no_open = ground arith

no_close : Lacks (λ b. b == b')') fields
no_close = ground arith

twentieth : get_elem? (split_ascii_whitespace (trim_start fields)) 19 ≡ some (codes "4321")
unfolding split_ascii_whitespace is_ascii_whitespace
twentieth = refl
