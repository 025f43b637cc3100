-- ===== src/Args.antt =====
-- src/main.rs, parse_args, and src/label.rs, open_dir: the flag word that run is started with. A
-- descriptor is an i32, written as the u32 of its bits, and negative from 2^31 on. What open and openat
-- return is a parameter, and the base that is closed again is left out. `none` is a read behind a C string. `|` of parts with no common bit is `+`.
pub mod Word
mod Tests
use ltop.Base.{
  ℕ, ◌+◌, ◌-◌, ◌*◌, ◌/◌, ◌%◌, ◌^◌, Bool, true, false, Option, none, some, List, [], ◌∷◌, ◌++◌, leb,
  ◌==◌, if◌then◌else◌, ◌>>=◌, drop,
}
use ltop.Bytes.{Bytes}
use ltop.Display.Text.{codes}
use ltop.Dir.{has_arg}

pub record Opens : Type 0 where
  pub open_at : Bytes → ℕ
  pub openat : ℕ → Bytes → ℕ

-- value; the inner none is the code's None.
unfoldable pub value_of_key : Bytes → Bytes → Option (Option Bytes)
value_of_key e [] = some (some e)
value_of_key [] (k ∷ key) = none
value_of_key (c ∷ e) (k ∷ key) = let rest = value_of_key e key in if c == k then rest else some none

-- The loop over the environment: HOME and XDG_CACHE_HOME, each the last one.
unfoldable pub env_loop :
    List Bytes → Option Bytes → Option Bytes → Option (Option Bytes × Option Bytes)
unfolding value_of_key
env_loop [] home xdg = some (home, xdg)
env_loop (e ∷ env) home xdg =
    let with_home = λ (v : Bytes). env_loop env (some v) xdg in
    let with_xdg = λ (v : Bytes). env_loop env home (some v) in
    let other = env_loop env home xdg in
    value_of_key e (codes "HOME=") >>= λ h. elim h [
      | some v ↦ with_home v
      | none ↦ value_of_key e (codes "XDG_CACHE_HOME=") >>= λ x. elim x [
        | some v ↦ with_xdg v
        | none ↦ other
      ]
    ]

abbrev pub status_dir : Bytes
status_dir = codes ".cache/ltop/status" ++ 0 ∷ []

-- The base and the rest of the path.
unfoldable pub base_and_rest : Option Bytes → Option Bytes → Option (Option Bytes × Bytes)
base_and_rest home none = some (home, status_dir)
base_and_rest home (some []) = none
base_and_rest home (some (b ∷ xdg)) =
    if b == 0 then some (home, status_dir) else some (some (b ∷ xdg), drop 7 status_dir)

unfoldable pub open_dir : Opens → List Bytes → Option ℕ
unfolding env_loop base_and_rest
open_dir opens env = do
  (home, xdg) ← env_loop env none none
  (base, rest) ← base_and_rest home xdg
  some (elim base [
    | none ↦ 2 ^ 32 - 1
    | some path ↦ let b = opens.open_at path in if leb (2 ^ 31) b then b else opens.openat b rest
  ])

abbrev pub flag_once : ℕ
flag_once = 1

-- `--check` prints ok and ends the process.
pub data Started : Type 0 where
  check_done : Started
  started : ℕ → Started

-- `fd as u64`.
unfoldable pub sign_extend : ℕ → ℕ
sign_extend fd = if leb (2 ^ 31) fd then fd + (2 ^ 64 - 2 ^ 32) else fd

unfoldable pub parse_args : Opens → List (Option Bytes) → List Bytes → Option Started
unfolding sign_extend
parse_args opens argv env =
    let word : Option Started = has_arg argv (codes "--once") >>= λ once.
    open_dir opens env >>= λ fd.
    let flags : ℕ = if once then flag_once else 0 in
    some (started (flags + sign_extend fd * 2 ^ 32 % 2 ^ 64)) in
    has_arg argv (codes "--check") >>= λ check. if check then some check_done else word

-- The two parts that run takes from the word.
unfoldable pub once_of : ℕ → Bool
once_of flags = flags % 2 == flag_once

unfoldable pub label_dir_of : ℕ → ℕ
label_dir_of flags = flags / 2 ^ 32 % 2 ^ 32
