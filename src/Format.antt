-- ===== src/Format.antt =====
-- src/main.rs: the cells of a row. format_age and format_mem are meant to be six bytes wide;
-- truncate cuts the command at a character boundary.
pub mod Width
pub mod Truncate
mod Tests
use ltop.Base.{
  ℕ, zero, suc, ◌+◌, ◌-◌, ◌*◌, ◌/◌, ◌%◌, ◌^◌, Bool, true, false, Option, none, some, List, [], ◌∷◌,
  ◌++◌, ltb, leb, if◌then◌else◌, ◌>>=◌, length, get_elem?, take,
}
use ltop.Bytes.{Bytes}
use ltop.Twrite.{write_u32, is_continuation, put_slice}
use ltop.Pad.{pad_right, pad_zero}

-- `pad_right(big, 2), unit, pad_zero(small, 2), sub_unit`.
abbrev pub two_units : ℕ → ℕ → ℕ → ℕ → Option Bytes
two_units big unit small sub_unit = do
  a ← pad_right big 2
  b ← pad_zero small 2
  some (a ++ unit ∷ (b ++ sub_unit ∷ []))

-- `pad_right(n, 5), unit`.
abbrev pub one_unit : ℕ → ℕ → Option Bytes
one_unit n unit = do a ← pad_right n 5; some (a ++ unit ∷ [])

unfoldable pub format_age : ℕ → Option Bytes
format_age secs =
    if leb 86400 secs
    then two_units (secs / 86400) b'd' (secs % 86400 / 3600) b'h'
    else if leb 3600 secs
    then two_units (secs / 3600) b'h' (secs % 3600 / 60) b'm'
    else if leb 60 secs
    then two_units (secs / 60) b'm' (secs % 60) b's'
    else one_unit secs b's'

-- The size in tenths of a GiB, rounded; computed in u64.
abbrev pub tenths_of_gib : ℕ → ℕ
tenths_of_gib kib = (kib * 10 + 2 ^ 19) / 2 ^ 20

unfoldable pub format_mem : ℕ → Option Bytes
format_mem kib =
    if leb (2 ^ 20) kib
    then (do
      let tenths = tenths_of_gib kib
      a ← pad_right (tenths / 10) 3
      b ← write_u32 (tenths % 10)
      some (a ++ b'.' ∷ (b ++ b'G' ∷ [])))
    else if leb (2 ^ 10) kib
    then one_unit (kib / 2 ^ 10) b'M'
    else one_unit kib b'K'

-- `while n > 0 && self.s[n] is a continuation byte { n -= 1 }`; an index out of range panics.
unfoldable pub back_up : Bytes → ℕ → Option ℕ
back_up s zero = some 0
back_up s (suc n) =
    let back = back_up s n in
    get_elem? s (suc n) >>= λ b. if is_continuation b then back else some (suc n)

unfoldable pub truncate : Bytes → ℕ → Option Bytes
truncate s max = if leb (length s) max then some (put_slice s) else (do
  let target = if ltb 3 max then max - 3 else max
  n ← back_up s target
  let dots = if ltb 3 max then b'.' ∷ b'.' ∷ b'.' ∷ [] else []
  some (put_slice (take n s) ++ dots))
