-- ===== src/Agx/Creator.antt =====
-- src/gpu/agx.rs, parse_creator_pid_bytes against the numbers that digits spell.
use ltop.Base.{
  and_left, ℕ, ◌+◌, ◌-◌, ◌*◌, ◌^◌, ◌≤◌, ◌<◌, ◌≡◌, refl, ap, ◌∙◌, arith, Bool, true, false, ◌&&◌,
  Option, none, some, [], ◌∷◌, ◌++◌, leb, if◌then◌else◌, ◌>>=◌, length,
}
use ltop.Bytes.{Bytes}
use ltop.Display.Text.{codes, starts_with}
use ltop.Decimal.Parse.{all_digits, value}
use ltop.OsBinary.Tags.{checked_u32}
use ltop.Agx.{creator_loop, parse_creator_pid_bytes}

-- Does a text begin with a digit?
unfoldable pub digit_first : Bytes → Bool
digit_first [] = false
digit_first (b ∷ bytes) = leb b'0' b && leb b b'9'

le-value : (n : ℕ) (s : Bytes) → n ≤ value n s
unfolding value
le-value n [] = omega arith
le-value n (b ∷ s) = omega (arith, le-value (n * 10 + (b - b'0')) s)

creator_loop-stop :
    (n : ℕ) (any : Bool) (rest : Bytes)
    → digit_first rest ≡ false
    → creator_loop n any rest ≡ some (n, any)
unfolding creator_loop digit_first
creator_loop-stop n any [] h = refl
creator_loop-stop n any (b ∷ rest) h = rw h refl

creator_loop-value :
    (n : ℕ) (ds rest : Bytes)
    → n < 2 ^ 32
    → all_digits ds ≡ true
    → digit_first rest ≡ false
    → creator_loop n true (ds ++ rest) ≡ (checked_u32 (value n ds) >>= λ m. some (m, true))
unfolding creator_loop all_digits value
creator_loop-value n [] rest h digits stop = rw (creator_loop-stop n true rest stop) (ground arith)
creator_loop-value n (b ∷ ds) rest h digits stop =
    let m = n * 10 + (b - b'0') in ground (arith, creator_loop-value m ds rest, le-value m ds)

creator_loop-digit :
    (n b : ℕ) (bytes : Bytes)
    → (leb b'0' b && leb b b'9') ≡ true
    → creator_loop n false (b ∷ bytes) ≡ creator_loop n true (b ∷ bytes)
unfolding creator_loop
creator_loop-digit n b bytes h = rw h refl

pid_of_digits : Option (ℕ × Bool) → Option ℕ
pid_of_digits digits = do (n, any) ← digits; if any then some n else none

pid_of_digits-true : (o : Option ℕ) → pid_of_digits (o >>= λ m. some (m, true)) ≡ o
unfolding pid_of_digits
pid_of_digits-true none = refl
pid_of_digits-true (some n) = refl

-- On the prefix, one digit or more, and behind them nothing or a byte that is no digit,
-- parse_creator_pid_bytes answers the number that the digits spell in decimal if it fits a
-- u32, and none if it does not.
pub parse_creator_pid_bytes-value :
    (b : ℕ) (ds rest : Bytes)
    → all_digits (b ∷ ds) ≡ true
    → digit_first rest ≡ false
    → parse_creator_pid_bytes (codes "pid " ++ (b ∷ ds) ++ rest) ≡ checked_u32 (value 0 (b ∷ ds))
unfolding parse_creator_pid_bytes starts_with pid_of_digits all_digits
parse_creator_pid_bytes-value b ds rest digits stop =
    let digit = and_left (leb b'0' b && leb b b'9') (all_digits ds) digits in
    let whole = creator_loop-value 0 (b ∷ ds) rest (omega arith) digits stop in
    let prefix : leb 4 (length (codes "pid " ++ (b ∷ ds) ++ rest)) ≡ true = ground arith in
    rw prefix (
      ap pid_of_digits (creator_loop-digit 0 b (ds ++ rest) digit ∙ whole)
      ∙ pid_of_digits-true (checked_u32 (value 0 (b ∷ ds))))
