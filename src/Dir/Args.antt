-- ===== src/Dir/Args.antt =====
-- src/platform.rs, has_arg against a search among the arguments.
use ltop.Base.{◌≡◌, refl, arith, some, List, [], ◌∷◌, ◌++◌, map, Bool-cases, inl, inr}
use ltop.Bytes.{Bytes}
use ltop.OsBinary.Tags.{bytes_eq}
use ltop.Display.Text.{any}
use ltop.Dir.{arg_is, arg_loop, has_arg}
use ltop.Dir.Names.{NoZero}

-- The C string of an argument.
abbrev pub c_string : Bytes → Bytes
c_string s = s ++ 0 ∷ []

abbrev pub AllNoZero : List Bytes → Type 0
AllNoZero [] = Unit {0}
AllNoZero (s ∷ args) = NoZero s × AllNoZero args

arg_is-bytes_eq :
    (s flag : Bytes) → NoZero s → NoZero flag → arg_is (c_string s) flag ≡ some (bytes_eq s flag)
unfolding arg_is bytes_eq
arg_is-bytes_eq [] [] h k = refl
arg_is-bytes_eq [] (b ∷ flag) h (pos, k) = ground arith
arg_is-bytes_eq (a ∷ s) [] (pos, h) k = ground arith
arg_is-bytes_eq (a ∷ s) (b ∷ flag) (pos, h) (pos', k) =
    rw (arg_is-bytes_eq s flag h k) (ground arith)

arg_loop-any :
    (args : List Bytes) (flag : Bytes)
    → AllNoZero args
    → NoZero flag
    → arg_loop (map (λ s. some (c_string s)) args) flag ≡ some (any (λ s. bytes_eq s flag) args)
unfolding arg_loop any
arg_loop-any [] flag h k = refl
arg_loop-any (s ∷ args) flag (h, hs) k =
    rw (arg_is-bytes_eq s flag h k) (elim (Bool-cases (bytes_eq s flag)) [
      | inl same ↦ rw same refl
      | inr other ↦ rw other (arg_loop-any args flag hs k)
    ])

-- Behind the name of the program, has_arg finds the flag if and only if it is an argument.
pub has_arg-any :
    (program : Bytes) (args : List Bytes) (flag : Bytes)
    → AllNoZero args
    → NoZero flag
    → has_arg (map (λ s. some (c_string s)) (program ∷ args)) flag
      ≡ some (any (λ s. bytes_eq s flag) args)
unfolding has_arg
has_arg-any program args flag h k = arg_loop-any args flag h k
