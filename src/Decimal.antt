-- ===== src/Decimal.antt =====
-- src/main.rs, parse_u64_ascii and parse_stat: reading the numbers of /proc.
pub mod Parse
mod Tests
use ltop.Base.{
  ℕ, zero, suc, ◌+◌, ◌-◌, ◌*◌, ◌%◌, ◌^◌, Bool, true, false, Option, none, some, List, [], ◌∷◌, ltb,
  leb, ◌==◌, if◌then◌else◌, ◌>>=◌, length, take, drop, not,
}
use ltop.Bytes.{Bytes}

-- u64::checked_mul and u64::checked_add.
abbrev pub checked_u64 : ℕ → Option ℕ
checked_u64 n = if ltb n (2 ^ 64) then some n else none

unfoldable pub parse_loop : ℕ → Bytes → Option ℕ
parse_loop n [] = some n
parse_loop n (b ∷ s) =
    let d = (b + 256 - b'0') % 256 in
    if leb 10 d
    then none
    else checked_u64 (n * 10) >>= λ m. checked_u64 (m + d) >>= λ k. parse_loop k s

unfoldable pub parse_u64_ascii : Bytes → Option ℕ
unfolding parse_loop
parse_u64_ascii [] = none
parse_u64_ascii (b ∷ s) = parse_loop 0 (b ∷ s)
