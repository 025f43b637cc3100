-- ===== src/Twrite/Tests.antt =====
-- Runs of the writers, and their theorems at concrete inputs.
use ltop.Base.{◌^◌, ◌-◌, ◌≡◌, refl, arith, some, [], ◌∷◌, ◌>>=◌}
use ltop.Bytes.{Bytes}
use ltop.Decimal.{parse_u64_ascii}
use ltop.Twrite.{put_u64, put_slice, is_sequence, leader_len, is_continuation, all_continuations}
use ltop.Twrite.Digits.{parse_u64_ascii-put_u64}

-- An emoji, a lone continuation byte and a box-drawing character.
abbrev mixed : Bytes
mixed = 0xf0 ∷ 0x9f ∷ 0x8c ∷ 0xb3 ∷ 0x80 ∷ 0xe2 ∷ 0x94 ∷ 0x80 ∷ []

recovers : put_slice mixed ≡ 0xf0 ∷ 0x9f ∷ 0x8c ∷ 0xb3 ∷ b'?' ∷ 0xe2 ∷ 0x94 ∷ 0x80 ∷ []
unfolding put_slice is_sequence leader_len is_continuation all_continuations
recovers = refl

parse_u64_ascii-put_u64_example : (put_u64 (2 ^ 64 - 1) >>= parse_u64_ascii) ≡ some (2 ^ 64 - 1)
parse_u64_ascii-put_u64_example = parse_u64_ascii-put_u64 (2 ^ 64 - 1) (omega arith)
