-- ===== src/Pad.antt =====
-- src/bytes.rs: the integer-with-width adapters. A field width is a u8.
pub mod Width
use ltop.Base.{ℕ, ◌+◌, ◌-◌, Option, some, List, [], ◌∷◌, ◌++◌, ◌>>=◌, replicate}
use ltop.Bytes.{Bytes}
use ltop.Twrite.{write_u32, digit_count}

-- `for _ in digit_count(n)..width { put_byte(pad) }`.
abbrev pub pad_bytes : ℕ → ℕ → ℕ → Bytes
pad_bytes pad n width = replicate (width - digit_count n) pad

unfoldable pub pad_right : ℕ → ℕ → Option Bytes
pad_right n width = do s ← write_u32 n; some (pad_bytes b' ' n width ++ s)

unfoldable pub pad_left : ℕ → ℕ → Option Bytes
pad_left n width = do s ← write_u32 n; some (s ++ pad_bytes b' ' n width)

unfoldable pub pad_zero : ℕ → ℕ → Option Bytes
pad_zero n width = do s ← write_u32 n; some (pad_bytes b'0' n width ++ s)
