-- ===== src/Display/Tests.antt =====
-- src/main.rs: names and commands, and the theorems on them at concrete inputs.
use ltop.Base.{◌≡◌, refl, true, false, none, some, [], ◌∷◌, ◌++◌}
use ltop.Display.Text.{codes}
use ltop.Display.Stat.{trim_start, parse_stat_line, parse_stat_reversed}
use ltop.Display.{parse_stat, is_noise, build_display_into}

noise_chrome : is_noise (codes "x") (codes "/opt/Google/Chrome Helper" ∷ []) ≡ true
unfolding is_noise
noise_chrome = refl

noise_listed : is_noise (codes "ssm-session-worker") [] ≡ true
unfolding is_noise
noise_listed = refl

noise_shell : is_noise (codes "bash") (codes "-bash" ∷ []) ≡ false
unfolding is_noise
noise_shell = refl

display_compiler :
    build_display_into (codes "cc1plus") (codes "-quiet" ∷ codes "/a/foo.cc" ∷ []) false
    ≡ codes "cc1plus foo.cc"
unfolding build_display_into
display_compiler = refl

display_script :
    build_display_into
      (codes "python3")
      (codes "/usr/bin/python3" ∷ codes "-m" ∷ codes "pip" ∷ codes "/x/run.py" ∷ [])
      false
    ≡ codes "run.py"
unfolding build_display_into
display_script = refl

display_lean :
    build_display_into
      (codes "lean")
      (codes "lean" ∷ codes "--worker" ∷ codes "file:///home/g/AKS/Graph/Regular.lean" ∷ [])
      true
    ≡ codes "lean AKS/Graph/Regular.lean"
unfolding build_display_into
display_lean = refl

-- A name with parentheses of its own.
parse_stat_line_example :
    parse_stat (codes "42 " ++ b'(' ∷ (codes "a) (b" ++ b')' ∷ codes " S 1"))
    ≡ some (codes "a) (b", trim_start (codes " S 1"))
parse_stat_line_example =
    parse_stat_line (codes "42 ") (codes "a) (b") (codes " S 1") (refl, (refl, (refl, tt)))
      (refl, (refl, (refl, (refl, tt))))

parse_stat_reversed_example :
    parse_stat (codes "1" ++ b')' ∷ (codes " " ++ b'(' ∷ codes "x")) ≡ none
parse_stat_reversed_example =
    parse_stat_reversed (codes "1") (codes " ") (codes "x") (refl, tt) (refl, tt) (refl, tt)
      (refl, tt)
