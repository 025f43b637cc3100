-- ===== src/Twrite.antt =====
-- src/twrite.rs: the Put implementations. `put` on a writer appends bytes, so an implementation is
-- the list of bytes that it appends, and `twrite!` is `++`. `none` stands for a panic.
pub mod Digits
pub mod Slice
mod Tests
use ltop.Base.{
  ℕ, zero, suc, ◌+◌, ◌-◌, ◌/◌, ◌%◌, ◌^◌, Bool, true, false, ◌&&◌, Option, none, some, List, [], ◌∷◌,
  ◌++◌, ltb, leb, ◌==◌, if◌then◌else◌, ◌>>=◌, length, take, drop,
}
use ltop.Bytes.{Bytes}

-- The digit loop of write_u32 and of Put for u64: `i` slots of the buffer are free, and `tail`
-- is `buf[i..]`. A digit with no free slot would panic.
unfoldable pub digit_loop : ℕ → ℕ → Bytes → Option Bytes
digit_loop zero m tail = if m == 0 then some tail else none
digit_loop (suc i) m tail =
    let rest = digit_loop i (m / 10) ((b'0' + m % 10) ∷ tail) in if m == 0 then some tail else rest

unfoldable pub write_u32 : ℕ → Option Bytes
write_u32 n = if n == 0 then some (b'0' ∷ []) else digit_loop 10 n []

unfoldable pub put_u64 : ℕ → Option Bytes
put_u64 n = if n == 0 then some (b'0' ∷ []) else digit_loop 20 n []

-- Put for i32, of a number given by its bits.
unfoldable pub put_i32 : ℕ → Option Bytes
put_i32 n = if leb (2 ^ 31) n then (do s ← write_u32 (2 ^ 32 - n); some (b'-' ∷ s)) else write_u32 n

-- The loop of digit_count, by a bound on its rounds.
unfoldable pub count_loop : ℕ → ℕ → ℕ → ℕ
count_loop zero n d = d
count_loop (suc fuel) n d =
    let rest = count_loop fuel (n / 10) (d + 1) in if ltb n 10 then d else rest

-- A u32 has at most ten digits, so the loop makes at most nine rounds.
unfoldable pub digit_count : ℕ → ℕ
digit_count n = count_loop 10 n 1

unfoldable pub leader_len : ℕ → ℕ
leader_len b =
    if ltb b 0x80
    then 1
    else if ltb b 0xc2
    then 0
    else if ltb b 0xe0
    then 2
    else if ltb b 0xf0
    then 3
    else if ltb b 0xf5
    then 4
    else 0

-- `b & 0xC0 == 0x80`, of a byte.
unfoldable pub is_continuation : ℕ → Bool
is_continuation b = b / 64 == 2

unfoldable pub all_continuations : Bytes → Bool
all_continuations [] = true
all_continuations (b ∷ s) = is_continuation b && all_continuations s

-- `ok` for the leader `b` with `s` behind it.
unfoldable pub is_sequence : ℕ → Bytes → Bool
is_sequence b s =
    let n = leader_len b in ltb 0 n && leb n (length (b ∷ s)) && all_continuations (take (n - 1) s)

-- The `while` of Put for [u8], on what is left of the slice; a round takes at least one byte.
unfoldable pub put_slice_loop : ℕ → Bytes → Bytes
put_slice_loop zero s = []
put_slice_loop (suc fuel) [] = []
put_slice_loop (suc fuel) (b ∷ s) =
    let n = leader_len b in
    let passed = take n (b ∷ s) ++ put_slice_loop fuel (drop n (b ∷ s)) in
    let replaced = b'?' ∷ put_slice_loop fuel s in if is_sequence b s then passed else replaced

unfoldable pub put_slice : Bytes → Bytes
unfolding put_slice_loop
put_slice s = put_slice_loop (length s) s
