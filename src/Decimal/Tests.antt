-- ===== src/Decimal/Tests.antt =====
-- parse_u64_ascii at concrete inputs.
use ltop.Base.{◌≡◌, refl, arith, some, [], ◌∷◌}
use ltop.Bytes.{Bytes}
use ltop.Decimal.{parse_u64_ascii}
use ltop.Decimal.Parse.{decimal, parse_u64_ascii-decimal}

abbrev answer : Bytes
answer = b'4' ∷ b'2' ∷ []

reads : parse_u64_ascii answer ≡ some 42
unfolding parse_u64_ascii
reads = refl

parse_u64_ascii-decimal_example : parse_u64_ascii answer ≡ decimal answer
parse_u64_ascii-decimal_example = parse_u64_ascii-decimal answer (omega arith)
