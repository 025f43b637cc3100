-- ===== src/Args/Tests.antt =====
-- src/main.rs, parse_args at concrete arguments and environments.
use ltop.Base.{◌+◌, ℕ, ◌^◌, ◌-◌, ◌≡◌, refl, arith, some, [], ◌∷◌, map, length}
use ltop.Bytes.{Bytes}
use ltop.Display.Text.{codes, any}
use ltop.OsBinary.Tags.{bytes_eq}
use ltop.Dir.Args.{c_string}
use ltop.Args.{
  Opens, started, value_of_key, env_loop, base_and_rest, open_dir, parse_args, once_of,
  label_dir_of,
}
use ltop.Args.Word.{given, parse_args_lem}

opens : Opens
opens = record { open_at = λ path. length path; openat = λ fd rest. fd + length rest }

abbrev home : Bytes
home = c_string (codes "HOME=/h")

home_opened : open_dir opens (home ∷ []) ≡ some 22
unfolding open_dir env_loop value_of_key base_and_rest opens
home_opened = refl

xdg_opened : open_dir opens (c_string (codes "XDG_CACHE_HOME=/c") ∷ home ∷ []) ≡ some 15
unfolding open_dir env_loop value_of_key base_and_rest opens
xdg_opened = refl

no_home : open_dir opens (c_string (codes "XDG_CACHE_HOME=") ∷ []) ≡ some (2 ^ 32 - 1)
unfolding open_dir env_loop value_of_key base_and_rest opens
no_home = refl

parse_args_lem_example :
    (flags : ℕ) × (parse_args opens
        (map (λ s. some (c_string s)) (codes "ltop" ∷ codes "--once" ∷ []))
        (home ∷ [])
      ≡ some (started flags))
    × (once_of flags ≡ given (codes "--once") (codes "--once" ∷ []))
    × (label_dir_of flags ≡ 22)
parse_args_lem_example =
    parse_args_lem opens (codes "ltop") (codes "--once" ∷ []) (home ∷ []) 22 (omega arith)
      home_opened (omega arith) (unfold any bytes_eq in refl)
