-- ===== src/Format/Width.antt =====
-- src/main.rs, format_age and format_mem: which inputs give the six bytes of the column.
use ltop.Base.{
  ℕ, ◌+◌, ◌/◌, ◌%◌, ◌^◌, ◌<◌, ◌≡◌, ◌↔◌, sym, ◌∙◌, arith, Option, some, [], ◌∷◌, ◌++◌, ltb, leb,
  leb→lt, ltb→lt, ltb→le, ◌>>=◌, length, length-append, Bool-cases, inl, inr, max,
}
use ltop.Bytes.{Bytes}
use ltop.Twrite.{write_u32, digit_count}
use ltop.Twrite.Digits.{write_u32_correct}
use ltop.Pad.{pad_right}
use ltop.Pad.Width.{digit_count-pos, digit_count_bounds, length-pad_right, length-pad_zero}
use ltop.Format.{two_units, one_unit, tenths_of_gib, format_age, format_mem}

-- A printed cell of `n` bytes.
abbrev pub Prints : Option Bytes → ℕ → Type 0
Prints cell n = (s : Bytes) × (cell ≡ some s) × (length s ≡ n)

two_units-Prints :
    (big unit small sub_unit : ℕ)
    → big < 2 ^ 32
    → small < 100
    → Prints (two_units big unit small sub_unit) (max 2 (digit_count big) + 4)
two_units-Prints big unit small sub_unit hb hs =
    let (a, wrote, size) = length-pad_right big 2 hb in
    let (b, wrote', size') = length-pad_zero small 2 (omega arith) in
    let narrow = (digit_count_bounds 1 small (omega arith)).0 hs in
    (
      a ++ unit ∷ (b ++ sub_unit ∷ []),
      rw (wrote, wrote'),
      omega (
        arith,
        size,
        size',
        narrow,
        length-append a (unit ∷ (b ++ sub_unit ∷ [])),
        length-append b (sub_unit ∷ []),
      ),
    )

one_unit-Prints : (n unit : ℕ) → n < 100000 → Prints (one_unit n unit) 6
one_unit-Prints n unit h =
    let (a, wrote, size) = length-pad_right n 5 (omega arith) in
    let narrow = (digit_count_bounds 4 n (omega arith)).0 h in
    (a ++ unit ∷ [], rw wrote, omega (arith, size, narrow, length-append a (unit ∷ [])))

-- A printed cell that is six bytes wide exactly if `P`.
abbrev pub PrintsSixIff : Option Bytes → Type 0 → Type 0
PrintsSixIff cell P = (s : Bytes) × (cell ≡ some s) × ((length s ≡ 6) ↔ P)

PrintsSixIff-map :
    (cell : Option Bytes) {P Q : Type 0} → (P ↔ Q) → PrintsSixIff cell P → PrintsSixIff cell Q
PrintsSixIff-map cell h (s, wrote, six) = (s, wrote, (λ e. h.0 (six.0 e), λ q. six.1 (h.1 q)))

Prints-Six : (cell : Option Bytes) (P : Type 0) → P → Prints cell 6 → PrintsSixIff cell P
Prints-Six cell P p (s, wrote, size) = (s, wrote, (λ e. p, λ q. size))

two_digits : (n : ℕ) → n < 2 ^ 32 → max 2 (digit_count n) + 4 ≡ 6 → n < 100
two_digits n fits e = elim (Bool-cases (ltb n 100)) [
  | inl small ↦ ltb→lt _ _ small
  | inr big ↦
      absurd
        (omega (arith, (digit_count_bounds 2 n (omega arith)).1 (omega (arith, ltb→le _ _ big))))
]

two_units-SixIff :
    (big unit small sub_unit : ℕ)
    → big < 2 ^ 32
    → small < 100
    → PrintsSixIff (two_units big unit small sub_unit) (big < 100)
two_units-SixIff big unit small sub_unit hb hs =
    let (s, wrote, size) = two_units-Prints big unit small sub_unit hb hs in
    (
      s,
      wrote,
      (
        λ e. two_digits big hb (sym size ∙ e),
        λ p. omega (arith, size, (digit_count_bounds 1 big (omega arith)).0 p),
      ),
    )

-- format_age prints every u32 without a panic, in six bytes exactly if it is below 8640000
-- seconds, which is 100 days.
pub format_age_width : (secs : ℕ) → secs < 2 ^ 32 → PrintsSixIff (format_age secs) (secs < 8640000)
unfolding format_age
format_age_width secs fits = elim (Bool-cases (leb 86400 secs)) [
  | inl days ↦ rw days (
      PrintsSixIff-map _ (λ h. omega arith, λ h. omega arith)
        (two_units-SixIff (secs / 86400) b'd' (secs % 86400 / 3600) b'h' (omega arith)
          (omega arith)))
  | inr below_day ↦
      let day = leb→lt _ _ below_day in
      elim (Bool-cases (leb 3600 secs)) [
        | inl hours ↦
            rw (below_day, hours)
              (PrintsSixIff-map _ (λ h. omega arith, λ h. omega arith)
                (two_units-SixIff (secs / 3600) b'h' (secs % 3600 / 60) b'm' (omega arith)
                  (omega arith)))
        | inr below_hour ↦
            let hour = leb→lt _ _ below_hour in
            elim (Bool-cases (leb 60 secs)) [
              | inl minutes ↦
                  rw (below_day, below_hour, minutes)
                    (PrintsSixIff-map _ (λ h. omega arith, λ h. omega arith)
                      (two_units-SixIff (secs / 60) b'm' (secs % 60) b's' (omega arith)
                        (omega arith)))
              | inr seconds ↦
                  rw (below_day, below_hour, seconds)
                    (Prints-Six _ _ (omega arith) (one_unit-Prints secs b's' (omega arith)))
            ]
      ]
]

-- The GiB branch of format_mem.
gib-Prints :
    (tenths : ℕ)
    → tenths < 2 ^ 32
    → Prints
        (pad_right (tenths / 10) 3 >>= λ a.
          write_u32 (tenths % 10) >>= λ b. some (a ++ b'.' ∷ (b ++ b'G' ∷ [])))
        (max 3 (digit_count (tenths / 10)) + 3)
gib-Prints tenths h =
    let (a, wrote, size) = length-pad_right (tenths / 10) 3 (omega arith) in
    let (b, wrote', _, size') = write_u32_correct (tenths % 10) (omega arith) in
    let one = digit_count_bounds 0 (tenths % 10) (omega arith) in
    (
      a ++ b'.' ∷ (b ++ b'G' ∷ []),
      rw (wrote, wrote'),
      omega (
        arith,
        size,
        size',
        one.0 (omega arith),
        digit_count-pos (tenths % 10),
        length-append a (b'.' ∷ (b ++ b'G' ∷ [])),
        length-append b (b'G' ∷ []),
      ),
    )

three_digits : (n : ℕ) → n < 2 ^ 32 → max 3 (digit_count n) + 3 ≡ 6 → n < 1000
three_digits n fits e = elim (Bool-cases (ltb n 1000)) [
  | inl small ↦ ltb→lt _ _ small
  | inr big ↦
      absurd
        (omega (arith, (digit_count_bounds 3 n (omega arith)).1 (omega (arith, ltb→le _ _ big))))
]

-- format_mem prints every u32 without a panic, in six bytes exactly if its rounded tenths of a
-- GiB are below 10000.
pub format_mem_width :
    (kib : ℕ) → kib < 2 ^ 32 → PrintsSixIff (format_mem kib) (tenths_of_gib kib < 10000)
unfolding format_mem
format_mem_width kib fits = elim (Bool-cases (leb (2 ^ 20) kib)) [
  | inl gib ↦ rw gib (
      let tenths = tenths_of_gib kib in
      let (s, wrote, size) = gib-Prints tenths (omega arith) in
      (
        s,
        wrote,
        (
          λ e. omega (arith, three_digits (tenths / 10) (omega arith) (sym size ∙ e)),
          λ p.
              omega
                (arith, size, (digit_count_bounds 2 (tenths / 10) (omega arith)).0 (omega arith)),
        ),
      ))
  | inr below_gib ↦
      let small = leb→lt _ _ below_gib in
      elim (Bool-cases (leb (2 ^ 10) kib)) [
        | inl mib ↦
            rw (below_gib, mib)
              (Prints-Six _ _ (omega arith) (one_unit-Prints (kib / 2 ^ 10) b'M' (omega arith)))
        | inr below_mib ↦
            rw (below_gib, below_mib)
              (Prints-Six _ _ (omega arith)
                (one_unit-Prints kib b'K' (omega (arith, leb→lt _ _ below_mib))))
      ]
]
