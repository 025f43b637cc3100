-- ===== src/Display/Text.antt =====
-- src/main.rs: byte string literals, and the searches of slices that the standard library gives.
use Prim.Native.Char.{code}
use Prim.Native.String.{String}
use ltop.Base.{
  ℕ, zero, suc, ◌+◌, ◌-◌, Bool, true, false, ◌&&◌, ◌||◌, Option, none, some, List, [], ◌∷◌, leb,
  if◌then◌else◌, ◌>>=◌, length, take, drop,
}
use ltop.Bytes.{Bytes, ieq}
use ltop.OsBinary.Tags.{bytes_eq}

-- The bytes of a literal, which are ASCII.
abbrev pub codes : String → Bytes
codes String.[] = []
codes (String.◌∷◌ c s) = code c ∷ codes s

-- Iterator::position and rposition.
unfoldable pub position : (ℕ → Bool) → Bytes → Option ℕ
position p [] = none
position p (x ∷ s) = let later = position p s >>= λ i. some (i + 1) in if p x then some 0 else later

unfoldable pub rposition : (ℕ → Bool) → Bytes → Option ℕ
rposition p [] = none
rposition p (x ∷ s) = elim (rposition p s) [
  | some i ↦ some (i + 1)
  | none ↦ if p x then some 0 else none
]

-- `s[a..b]`, which panics out of range.
unfoldable pub slice_range : Bytes → ℕ → ℕ → Option Bytes
slice_range s a b = if leb a b && leb b (length s) then some (take (b - a) (drop a s)) else none

-- slice::starts_with.
unfoldable pub starts_with : Bytes → Bytes → Bool
unfolding bytes_eq
starts_with s prefix = leb (length prefix) (length s) && bytes_eq (take (length prefix) s) prefix

-- `s.windows(needle.len()).any(|w| ieq(w, needle))`.
unfoldable pub any_window : Bytes → Bytes → Bool
unfolding ieq
any_window needle [] = false
any_window needle (x ∷ s) =
    let rest = any_window needle s in
    if leb (length needle) (length (x ∷ s)) && ieq (take (length needle) (x ∷ s)) needle
    then true
    else rest

-- `(0..=i).rev().find(..)`, from `i` down.
unfoldable pub find_down : Bytes → Bytes → ℕ → Option ℕ
unfolding bytes_eq
find_down s needle zero = if bytes_eq (take (length needle) s) needle then some 0 else none
find_down s needle (suc i) =
    let rest = find_down s needle i in
    if bytes_eq (take (length needle) (drop (suc i) s)) needle then some (suc i) else rest

-- `matches!(x, b"..")` on byte strings, and `args.iter().any(..)`.
unfoldable pub any {ℓ} : {A : Type ℓ} → (A → Bool) → List A → Bool
any p [] = false
any p (x ∷ xs) = p x || any p xs
