-- ===== src/Pad/Width.antt =====
-- src/bytes.rs and digit_count of src/twrite.rs: how wide a printed number is.
use native.Mathlib.Nat.{pow-suc}
use ltop.Base.{
  ℕ, zero, suc, ◌+◌, ◌-◌, ◌/◌, ◌^◌, ◌<◌, ◌≤◌, ◌≡◌, arith, some, ◌++◌, max, replicate, length,
  length-append, length-replicate,
}
use ltop.Bytes.{Bytes}
use ltop.Twrite.{write_u32, digit_count, count_loop}
use ltop.Twrite.Digits.{write_u32_correct}
use ltop.Pad.{pad_right, pad_left, pad_zero}

count_loop-le : (k fuel n d : ℕ) → n < 10 ^ suc k → k ≤ fuel → count_loop fuel n d ≤ d + k
unfolding count_loop
count_loop-le zero zero n d h f = omega arith
count_loop-le zero (suc fuel) n d h f = ground arith
count_loop-le (suc k) zero n d h f = absurd (omega arith)
count_loop-le (suc k) (suc fuel) n d h f =
    let tenth : n / 10 < 10 ^ suc k = omega (arith, pow-suc 10 (suc k)) in
    ground (arith, count_loop-le k fuel (n / 10) (d + 1) tenth)

pow_pos : (k : ℕ) → 0 < 10 ^ k
pow_pos zero = omega arith
pow_pos (suc k) = omega (arith, pow-suc 10 k, pow_pos k)

le-count_loop_start : (fuel n d : ℕ) → d ≤ count_loop fuel n d
unfolding count_loop
le-count_loop_start zero n d = omega arith
le-count_loop_start (suc fuel) n d = ground (arith, le-count_loop_start fuel (n / 10) (d + 1))

le-count_loop : (k fuel n d : ℕ) → 10 ^ k ≤ n → k ≤ fuel → d + k ≤ count_loop fuel n d
unfolding count_loop
le-count_loop zero zero n d h f = omega arith
le-count_loop zero (suc fuel) n d h f = ground (arith, le-count_loop zero fuel (n / 10) (d + 1))
le-count_loop (suc k) zero n d h f = absurd (omega arith)
le-count_loop (suc k) (suc fuel) n d h f =
    let tenth : 10 ^ k ≤ n / 10 = omega (arith, pow-suc 10 k) in
    let two_digits : 10 ≤ n = omega (arith, pow-suc 10 k, pow_pos k) in
    ground (arith, le-count_loop k fuel (n / 10) (d + 1) tenth)

-- The digit count is at most `k + 1` exactly below the power of ten.
pub digit_count_bounds :
    (k n : ℕ)
    → k ≤ 9
    → (n < 10 ^ suc k → digit_count n ≤ suc k) × (10 ^ k ≤ n → suc k ≤ digit_count n)
unfolding digit_count
digit_count_bounds k n h = (
  λ small. omega (arith, count_loop-le k 10 n 1 small (omega arith)),
  λ big. omega (arith, le-count_loop k 10 n 1 big (omega arith)),
)

pub digit_count-pos : (n : ℕ) → 0 < digit_count n
unfolding digit_count
digit_count-pos n = omega (arith, le-count_loop_start 10 n 1)

-- The three adapters print every u32 without a panic: the digits of write_u32 with blanks in
-- front, with blanks behind, and with zeros in front, filled up to the width, or the digits
-- alone if they are wider.
pub pads_correct :
    (n width : ℕ)
    → n < 2 ^ 32
    → (digits : Bytes) × (write_u32 n ≡ some digits)
      × (pad_right n width ≡ some (replicate (width - length digits) b' ' ++ digits))
      × (pad_left n width ≡ some (digits ++ replicate (width - length digits) b' '))
      × (pad_zero n width ≡ some (replicate (width - length digits) b'0' ++ digits))
      × (width - length digits + length digits ≡ max width (digit_count n))
unfolding pad_right pad_left pad_zero
pads_correct n width fits =
    let (digits, wrote, _, size) = write_u32_correct n fits in
    (digits, wrote, rw (wrote, size), rw (wrote, size), rw (wrote, size), omega (arith, size))

-- The width of a padded number, for the cells of a row.
pub length-pad_right :
    (n width : ℕ)
    → n < 2 ^ 32
    → (s : Bytes) × (pad_right n width ≡ some s) × (length s ≡ max width (digit_count n))
length-pad_right n width fits =
    let (digits, _, padded, _, _, size) = pads_correct n width fits in
    let blanks = replicate (width - length digits) b' ' in
    (
      blanks ++ digits,
      padded,
      omega (
        arith,
        size,
        length-append blanks digits,
        length-replicate {A = ℕ} (width - length digits) b' ',
      ),
    )

pub length-pad_zero :
    (n width : ℕ)
    → n < 2 ^ 32
    → (s : Bytes) × (pad_zero n width ≡ some s) × (length s ≡ max width (digit_count n))
length-pad_zero n width fits =
    let (digits, _, _, _, padded, size) = pads_correct n width fits in
    let zeros = replicate (width - length digits) b'0' in
    (
      zeros ++ digits,
      padded,
      omega (
        arith,
        size,
        length-append zeros digits,
        length-replicate {A = ℕ} (width - length digits) b'0',
      ),
    )
