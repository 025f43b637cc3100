-- ===== src/Format/Tests.antt =====
-- The cells at concrete inputs.
use ltop.Base.{ℕ, ◌^◌, ◌<◌, ◌≤◌, ◌≡◌, ◌⊎◌, arith, some, [], ◌∷◌, length}
use ltop.Bytes.{Bytes}
use ltop.Twrite.{put_slice}
use ltop.Format.{format_age, format_mem, truncate, tenths_of_gib}
use ltop.Format.Width.{PrintsSixIff, format_age_width, format_mem_width}
use ltop.Format.Truncate.{IsBoundary, cut_at, truncate_correct}

format_age_width_example : PrintsSixIff (format_age 90061) (90061 < 8640000)
format_age_width_example = format_age_width 90061 (omega arith)

format_mem_width_example : PrintsSixIff (format_mem (2 ^ 31)) (tenths_of_gib (2 ^ 31) < 10000)
format_mem_width_example = format_mem_width (2 ^ 31) (omega arith)

-- The tree emoji and a name, cut at seven bytes.
abbrev command : Bytes
command = b'l' ∷ b's' ∷ b' ' ∷ 0xf0 ∷ 0x9f ∷ 0x8c ∷ 0xb3 ∷ b'x' ∷ b'y' ∷ []

truncate_correct_example :
    (out : Bytes) × (truncate command 7 ≡ some out)
    × (length out ≤ 7)
    × ((length command ≤ 7 × (out ≡ put_slice command))
        ⊎ ((n : ℕ) × (7 < length command) × IsBoundary command n × (out ≡ cut_at command n 7)))
truncate_correct_example = truncate_correct command 7
