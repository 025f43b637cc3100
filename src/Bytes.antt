-- ===== src/Bytes.antt =====
-- src/bytes.rs: helpers on byte slices, and the padded integers that implement Put. A byte slice
-- is a list of numbers below 256.
use Prim.Native.Nat.{bit_or, bit_xor}
use ltop.Base.{
  ℕ, ◌+◌, ◌*◌, ◌%◌, ◌^◌, Bool, true, false, ◌&&◌, ◌||◌, List, [], ◌∷◌, leb, ◌==◌, if◌then◌else◌,
  length,
}

abbrev pub Bytes : Type 0
Bytes = List ℕ

-- u8::is_ascii_whitespace: space, tab, line feed, form feed and carriage return.
unfoldable pub is_ascii_whitespace : ℕ → Bool
is_ascii_whitespace b = b == 0x20 || b == 0x09 || b == 0x0a || b == 0x0c || b == 0x0d

-- u8::to_ascii_lowercase.
unfoldable pub to_ascii_lowercase : ℕ → ℕ
to_ascii_lowercase b = if leb b'A' b && leb b b'Z' then b + 32 else b

add_to_first : ℕ → List Bytes → List Bytes
add_to_first b [] = (b ∷ []) ∷ []
add_to_first b (part ∷ parts) = (b ∷ part) ∷ parts

-- slice::split of the standard library: the parts between the bytes that `sep` picks.
unfoldable pub split : (ℕ → Bool) → Bytes → List Bytes
unfolding add_to_first
split sep [] = [] ∷ []
split sep (b ∷ bytes) =
    let parts = split sep bytes in if sep b then [] ∷ parts else add_to_first b parts

unfoldable pub non_empty : List Bytes → List Bytes
non_empty [] = []
non_empty ([] ∷ parts) = non_empty parts
non_empty ((b ∷ part) ∷ parts) = (b ∷ part) ∷ non_empty parts

unfoldable pub split_ascii_whitespace : Bytes → List Bytes
unfolding split non_empty is_ascii_whitespace
split_ascii_whitespace bytes = non_empty (split is_ascii_whitespace bytes)

unfoldable pub split_lines : Bytes → List Bytes
unfolding split
split_lines bytes = split (λ b. b == 0x0a) bytes

zip_all : (ℕ → ℕ → Bool) → Bytes → Bytes → Bool
zip_all p [] b = true
zip_all p (x ∷ a) [] = true
zip_all p (x ∷ a) (y ∷ b) = p x y && zip_all p a b

unfoldable pub ieq : Bytes → Bytes → Bool
unfolding zip_all to_ascii_lowercase
ieq a b = length a == length b && zip_all (λ x y. to_ascii_lowercase x == to_ascii_lowercase y) a b

-- The loop of name_hash; `wrapping_mul` on u32.
hash_loop : ℕ → Bytes → ℕ
hash_loop h [] = h
hash_loop h (b ∷ s) = hash_loop (bit_xor h (bit_or b 0x20) * 0x01000193 % 2 ^ 32) s

unfoldable pub name_hash : Bytes → ℕ
unfolding hash_loop
name_hash s = hash_loop 0x811c9dc5 s

unfoldable pub has : List ℕ → ℕ → Bool
has [] h = false
has (x ∷ t) h = x == h || has t h
