-- ===== src/OsBinary/Query.antt =====
-- src/osbinary.rs: the queries on a parsed blob. An Item is its offset.
use ltop.Base.{
  ℕ, zero, suc, ◌+◌, ◌-◌, ◌*◌, ◌^◌, Bool, true, false, ◌||◌, Option, none, some, List, [], ◌∷◌, ltb,
  ◌==◌, if◌then◌else◌, ◌>>=◌, length, not,
}
use ltop.Bytes.{Bytes}
use ltop.OsBinary.Tags.{
  Tag, read_tag, is_dict, type_array, type_set, type_number, type_symbol, type_string, type_boolean,
  le32, bytes_eq, slice,
}
use ltop.OsBinary.{OsBinary, resolve, item_len}

-- The tag of the item that `offset` stands for, with the offset, if the tag passes the test.
abbrev pub target_of : (Tag → Bool) → OsBinary → ℕ → Option (ℕ × Tag)
target_of wanted b offset = do
  target ← resolve b offset
  tag ← read_tag b.blob target
  if wanted tag then some (target, tag) else none

unfoldable pub symbol_bytes : OsBinary → ℕ → Option Bytes
symbol_bytes b offset = do
  (target, tag) ← target_of (λ t. t.ty == type_symbol) b offset
  let trimmed = if ltb 0 tag.operand then tag.operand - 1 else 0
  let o = target + 4
  if ltb (length b.blob) (o + trimmed) then none else some (slice b.blob o trimmed)

-- `self.symbol_bytes(key_off) == Some(key)`.
abbrev pub has_bytes : Option Bytes → Bytes → Bool
has_bytes none key = false
has_bytes (some s) key = bytes_eq s key

-- The loop of find_dict over the pairs that are left.
unfoldable pub find_loop : OsBinary → Bytes → ℕ → ℕ → Option ℕ
find_loop b key zero cursor = none
find_loop b key (suc pairs) cursor = do
  key_len ← item_len b cursor
  let val_off = cursor + key_len
  val_len ← item_len b val_off
  let rest = find_loop b key pairs (val_off + val_len)
  if has_bytes (symbol_bytes b cursor) key then some val_off else rest

unfoldable pub find_dict : OsBinary → ℕ → Bytes → Option ℕ
find_dict b dict key = do
  (dict_off, tag) ← target_of is_dict b dict
  find_loop b key tag.operand (dict_off + 4)

-- The loop of for_each_array: the offsets handed to the closure, and whether it got to the end.
unfoldable pub each_loop : OsBinary → ℕ → ℕ → List ℕ × Bool
each_loop b zero cursor = ([], true)
each_loop b (suc items) cursor = elim (item_len b cursor) [
  | none ↦ ([], false)
  | some len ↦ let (seen, done) = each_loop b items (cursor + len) in (cursor ∷ seen, done)
]

unfoldable pub for_each_array : OsBinary → ℕ → List ℕ × Bool
for_each_array b arr = elim (target_of (λ t. t.ty == type_array || t.ty == type_set) b arr) [
  | none ↦ ([], false)
  | some (arr_off, tag) ↦ each_loop b tag.operand (arr_off + 4)
]

unfoldable pub as_number : OsBinary → ℕ → Option ℕ
as_number b item = do
  (target, tag) ← target_of (λ t. t.ty == type_number) b item
  let o = target + 4
  if ltb (length b.blob) (o + 8) then none else some (le32 b.blob (o + 4) * 2 ^ 32 + le32 b.blob o)

unfoldable pub as_string : OsBinary → ℕ → Option Bytes
as_string b item = do
  (target, tag) ← target_of (λ t. t.ty == type_string) b item
  let o = target + 4
  if ltb (length b.blob) (o + tag.operand) then none else some (slice b.blob o tag.operand)

unfoldable pub as_bool : OsBinary → ℕ → Option Bool
as_bool b item = do
  (target, tag) ← target_of (λ t. t.ty == type_boolean) b item
  some (not (tag.operand == 0))
