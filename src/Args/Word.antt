-- ===== src/Args/Word.antt =====
-- src/main.rs, parse_args and run: the flag word, packed and taken apart.
use ltop.Base.{
  ℕ, ◌+◌, ◌*◌, ◌%◌, ◌^◌, ◌<◌, ◌≡◌, refl, arith, Bool, true, false, some, List, ◌∷◌, if◌then◌else◌,
  map,
}
use ltop.Bytes.{Bytes}
use ltop.Display.Text.{codes, any}
use ltop.OsBinary.Tags.{bytes_eq}
use ltop.Dir.Args.{AllNoZero, c_string, has_arg-any}
use ltop.Args.{Opens, started, sign_extend, open_dir, parse_args, once_of, label_dir_of, flag_once}

-- Is a flag among the arguments?
abbrev pub given : Bytes → List Bytes → Bool
given flag args = any (λ s. bytes_eq s flag) args

abbrev word : Bool → ℕ → ℕ
word once fd = (if once then flag_once else 0) + sign_extend fd * 2 ^ 32 % 2 ^ 64

once_of-word : (once : Bool) (fd : ℕ) → fd < 2 ^ 32 → once_of (word once fd) ≡ once
unfolding once_of sign_extend
once_of-word true fd small = ground arith
once_of-word false fd small = ground arith

label_dir_of-word : (once : Bool) (fd : ℕ) → fd < 2 ^ 32 → label_dir_of (word once fd) ≡ fd
unfolding label_dir_of sign_extend
label_dir_of-word true fd small = ground arith
label_dir_of-word false fd small = ground arith

-- If --check is not given and the environment names a label directory or none, so that open_dir
-- returns a descriptor, negative ones included, then parse_args returns a word from which run
-- takes whether --once was given and the same descriptor.
pub parse_args_lem :
    (opens : Opens) (program : Bytes) (args env : List Bytes) (fd : ℕ)
    → AllNoZero args
    → open_dir opens env ≡ some fd
    → fd < 2 ^ 32
    → given (codes "--check") args ≡ false
    → (flags : ℕ) × (parse_args opens (map (λ s. some (c_string s)) (program ∷ args)) env
        ≡ some (started flags))
      × (once_of flags ≡ given (codes "--once") args)
      × (label_dir_of flags ≡ fd)
unfolding parse_args
parse_args_lem opens program args env fd ok opened small check =
    let asked = has_arg-any program args (codes "--check") ok (omega arith) in
    let once = has_arg-any program args (codes "--once") ok (omega arith) in
    let flag = given (codes "--once") args in
    (
      word flag fd,
      rw (asked, once, opened, check) refl,
      once_of-word flag fd small,
      label_dir_of-word flag fd small,
    )
