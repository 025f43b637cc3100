-- ===== src/Twrite/Digits.antt =====
-- src/twrite.rs, the digit writers: no panic, the right length, and read back by parse_u64_ascii.
use native.Mathlib.Nat.{pow-suc}
use ltop.Base.{
  ℕ, zero, suc, ◌+◌, ◌/◌, ◌%◌, ◌^◌, ◌<◌, ◌≤◌, ◌≡◌, refl, ◌∙◌, arith, some, [], ◌∷◌, ltb, ltb→lt,
  ◌==◌, ◌>>=◌, length, Bool-cases, inl, inr,
}
use ltop.Bytes.{Bytes}
use ltop.Twrite.{digit_loop, write_u32, put_u64, count_loop, digit_count}
use ltop.Decimal.{parse_loop, parse_u64_ascii}

parse_loop_step :
    (m : ℕ) (tail : Bytes)
    → m < 2 ^ 64
    → parse_loop (m / 10) ((b'0' + m % 10) ∷ tail) ≡ parse_loop m tail
unfolding parse_loop
parse_loop_step m tail h = ground arith

tenth_fits : (i m : ℕ) → m < 10 ^ suc i → m / 10 < 10 ^ i
tenth_fits i m h = omega (arith, pow-suc 10 i)

-- With enough slots the loop does not panic.
digit_loop_total :
    (i m : ℕ) (tail : Bytes) → m < 10 ^ i → (out : Bytes) × (digit_loop i m tail ≡ some out)
unfolding digit_loop
digit_loop_total zero m tail small = let e : m ≡ 0 = omega arith in (tail, ground arith)
digit_loop_total (suc i) m tail small = elim (Bool-cases (m == 0)) [
  | inl done ↦ (tail, rw done)
  | inr more ↦
      let (out, wrote) =
        digit_loop_total i (m / 10) ((b'0' + m % 10) ∷ tail) (tenth_fits i m small) in
      (out, rw more wrote)
]

-- What it writes reads as `m` before the tail.
digit_loop_reads :
    (i m : ℕ) (tail out : Bytes)
    → m < 2 ^ 64
    → digit_loop i m tail ≡ some out
    → parse_loop 0 out ≡ parse_loop m tail
unfolding digit_loop
digit_loop_reads zero m tail out fits wrote = ground arith
digit_loop_reads (suc i) m tail out fits wrote =
    ground
      (arith, digit_loop_reads i (m / 10) ((b'0' + m % 10) ∷ tail) out, parse_loop_step m tail fits)

digit_loop_done : (i : ℕ) (tail : Bytes) → digit_loop i 0 tail ≡ some tail
unfolding digit_loop
digit_loop_done zero tail = refl
digit_loop_done (suc i) tail = refl

-- It writes as many digits as the loop of digit_count has rounds, and one more.
digit_loop_counts :
    (i fuel m d : ℕ) (tail out : Bytes)
    → i ≤ suc fuel
    → 0 < m
    → digit_loop i m tail ≡ some out
    → count_loop fuel m d + length tail + 1 ≡ length out + d
unfolding digit_loop count_loop
digit_loop_counts zero fuel m d tail out slots pos wrote = ground arith
digit_loop_counts (suc zero) zero m d tail out slots pos wrote = ground arith
digit_loop_counts (suc (suc i)) zero m d tail out slots pos wrote = absurd (omega arith)
digit_loop_counts (suc i) (suc fuel) m d tail out slots pos wrote = elim (Bool-cases (ltb m 10)) [
  | inl last ↦
      let none_left : m / 10 ≡ 0 = omega (arith, ltb→lt m 10 last) in
      ground (arith, digit_loop_done i ((b'0' + m % 10) ∷ tail))
  | inr more ↦
      ground (arith, digit_loop_counts i fuel (m / 10) (d + 1) ((b'0' + m % 10) ∷ tail) out)
]

count_loop-pos : (fuel m d : ℕ) → 0 < d → 0 < count_loop fuel m d
unfolding count_loop
count_loop-pos zero m d h = h
count_loop-pos (suc fuel) m d h = ground (arith, count_loop-pos fuel (m / 10) (d + 1))

parse-parse_loop : (s : Bytes) → 0 < length s → parse_u64_ascii s ≡ parse_loop 0 s
unfolding parse_u64_ascii
parse-parse_loop [] h = absurd (omega arith)
parse-parse_loop (b ∷ s) h = refl

-- The digits of a positive number: written, read back, and as many as digit_count says.
digits_of :
    (i n : ℕ)
    → 0 < n
    → n < 10 ^ i
    → n < 2 ^ 64
    → (out : Bytes) × (digit_loop i n [] ≡ some out)
      × (parse_u64_ascii out ≡ some n)
      × (i ≤ 11 → length out ≡ digit_count n)
unfolding digit_count
digits_of i n pos small fits =
    let (out, wrote) = digit_loop_total i n [] small in
    let counted = digit_loop_counts i i n 1 [] out (omega arith) pos wrote in
    let some_digit : 0 < length out = omega (arith, count_loop-pos i n 1 (omega arith)) in
    (
      out,
      wrote,
      parse-parse_loop out some_digit
          ∙ (digit_loop_reads i n [] out fits wrote ∙ unfold parse_loop in refl),
      λ h. omega (arith, digit_loop_counts i 10 n 1 [] out h pos wrote),
    )

-- Every u64 is printed without a panic, and parse_u64_ascii reads it back.
pub parse_u64_ascii-put_u64 : (n : ℕ) → n < 2 ^ 64 → (put_u64 n >>= parse_u64_ascii) ≡ some n
unfolding put_u64
parse_u64_ascii-put_u64 n fits = elim (Bool-cases (n == 0)) [
  | inl null ↦ rw null (unfold parse_u64_ascii in ground arith)
  | inr more ↦
      let (out, wrote, reads, _) = digits_of 20 n (ground arith) (omega arith) fits in
      rw (more, wrote) reads
]

-- Every u32 is printed without a panic, in as many bytes as digit_count says, and
-- parse_u64_ascii reads it back.
pub write_u32_correct :
    (n : ℕ)
    → n < 2 ^ 32
    → (out : Bytes) × (write_u32 n ≡ some out)
      × (parse_u64_ascii out ≡ some n)
      × (length out ≡ digit_count n)
unfolding write_u32
write_u32_correct n fits = elim (Bool-cases (n == 0)) [
  | inl null ↦ (
    b'0' ∷ [],
    rw null,
    unfold parse_u64_ascii in ground arith,
    unfold digit_count count_loop in ground arith,
  )
  | inr more ↦
      let (out, wrote, reads, counts) = digits_of 10 n (ground arith) (omega arith) (omega arith) in
      (out, rw more wrote, reads, counts (omega arith))
]
