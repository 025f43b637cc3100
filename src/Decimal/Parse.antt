-- ===== src/Decimal/Parse.antt =====
-- src/main.rs, parse_u64_ascii against the numbers that digits spell.
use ltop.Base.{
  ℕ, ◌+◌, ◌-◌, ◌*◌, ◌%◌, ◌^◌, ◌<◌, ◌≤◌, ◌≡◌, refl, arith, Bool, true, false, ◌&&◌, Option, none,
  some, [], ◌∷◌, ltb, leb, if◌then◌else◌,
}
use ltop.Bytes.{Bytes}
use ltop.Decimal.{parse_loop, parse_u64_ascii}

abbrev pub AllBytes : Bytes → Type 0
AllBytes [] = Unit {0}
AllBytes (b ∷ s) = (b < 256) × AllBytes s

-- Every byte is an ASCII digit.
unfoldable pub all_digits : Bytes → Bool
all_digits [] = true
all_digits (b ∷ s) = (leb b'0' b && leb b b'9') && all_digits s

-- The number that the digits of `s` spell behind `n`, with no bound.
unfoldable pub value : ℕ → Bytes → ℕ
value n [] = n
value n (b ∷ s) = value (n * 10 + (b - b'0')) s

-- The specification: a non-empty text of digits whose number fits a u64.
unfoldable pub decimal : Bytes → Option ℕ
unfolding all_digits value
decimal [] = none
decimal (b ∷ s) =
    if all_digits (b ∷ s) && ltb (value 0 (b ∷ s)) (2 ^ 64) then some (value 0 (b ∷ s)) else none

le-value : (n : ℕ) (s : Bytes) → n ≤ value n s
unfolding value
le-value n [] = omega arith
le-value n (b ∷ s) = omega (arith, le-value (n * 10 + (b - b'0')) s)

digit_of_byte :
    (b : ℕ)
    → b < 256
    → leb 10 ((b + 256 - b'0') % 256) ≡ (if leb b'0' b && leb b b'9' then false else true)
digit_of_byte b h = ground arith

parse_loop-value :
    (n : ℕ) (s : Bytes)
    → n < 2 ^ 64
    → AllBytes s
    → parse_loop n s ≡ (if all_digits s && ltb (value n s) (2 ^ 64) then some (value n s) else none)
unfolding parse_loop all_digits value
parse_loop-value n [] h bytes = ground arith
parse_loop-value n (b ∷ s) h bytes =
    let m = n * 10 + (b - b'0') in ground (arith, bytes.0, parse_loop-value m s, le-value m s)

-- On bytes, parse_u64_ascii answers the number that they spell in decimal, and none for no
-- bytes, for a byte that is no digit, and for a number that does not fit a u64.
pub parse_u64_ascii-decimal : (s : Bytes) → AllBytes s → parse_u64_ascii s ≡ decimal s
unfolding parse_u64_ascii decimal
parse_u64_ascii-decimal [] bytes = refl
parse_u64_ascii-decimal (b ∷ s) bytes = parse_loop-value 0 (b ∷ s) (omega arith) bytes
