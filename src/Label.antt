-- ===== src/Label.antt =====
-- src/label.rs: the text of a label file, and the start time in a line of /proc/<pid>/stat. The
-- outer `none` of start_field is the panic of parse_stat, and the inner one the code's None.
pub mod Printable
pub mod Apply
mod Tests
use ltop.Base.{
  ℕ, zero, suc, Bool, true, false, ◌&&◌, not, Option, none, some, List, [], ◌∷◌, leb, ◌==◌,
  if◌then◌else◌, ◌>>=◌, get_elem?, take,
}
use ltop.Bytes.{Bytes, split_ascii_whitespace}
use ltop.Decimal.{parse_u64_ascii}
use ltop.Display.{parse_stat}

abbrev pub label_max : ℕ
label_max = 200

-- The loop of apply over the bytes that were read: up to the end of the line, without control
-- bytes.
unfoldable pub text_loop : Bytes → Bytes
text_loop [] = []
text_loop (c ∷ s) =
    let rest = text_loop s in
    if c == 0x0a then [] else if leb 0x20 c && not (c == 0x7f) then c ∷ rest else rest

-- The text of a file: at most label_max bytes of it are read.
unfoldable pub label_text : Bytes → Bytes
unfolding text_loop
label_text file = text_loop (take label_max file)

-- The end of start_time: the twentieth field behind the name.
unfoldable pub start_field : Bytes → Option (Option ℕ)
unfolding parse_stat split_ascii_whitespace parse_u64_ascii
start_field stat = parse_stat stat >>= λ (comm, after).
    some (get_elem? (split_ascii_whitespace after) 19 >>= λ field. parse_u64_ascii field)
