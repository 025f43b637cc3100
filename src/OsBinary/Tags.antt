-- ===== src/OsBinary/Tags.antt =====
-- src/osbinary.rs: tag words and the sizes of items.
use ltop.Base.{
  ℕ, ◌+◌, ◌*◌, ◌/◌, ◌%◌, ◌^◌, Bool, true, false, ◌&&◌, ◌||◌, Option, none, some, [], ◌∷◌, ltb, ◌==◌,
  if◌then◌else◌, ◌>>=◌, length, get_or, take, drop,
}
use ltop.Bytes.{Bytes}

abbrev pub type_dict : ℕ
type_dict = 0x01

abbrev pub type_array : ℕ
type_array = 0x02

abbrev pub type_set : ℕ
type_set = 0x03

abbrev pub type_number : ℕ
type_number = 0x04

abbrev pub type_symbol : ℕ
type_symbol = 0x08

abbrev pub type_string : ℕ
type_string = 0x09

abbrev pub type_data : ℕ
type_data = 0x0a

abbrev pub type_boolean : ℕ
type_boolean = 0x0b

abbrev pub type_object : ℕ
type_object = 0x0c

pub record Tag : Type 0 where
  pub ty : ℕ
  pub operand : ℕ

-- u32::from_le_bytes of the four bytes at `o`, which the callers keep inside the blob.
unfoldable pub le32 : Bytes → ℕ → ℕ
le32 blob o =
    get_or blob o 0
    + get_or blob (o + 1) 0 * 2 ^ 8
    + get_or blob (o + 2) 0 * 2 ^ 16
    + get_or blob (o + 3) 0 * 2 ^ 24

-- The top bit of the word is the end-of-collection bit.
unfoldable pub read_tag : Bytes → ℕ → Option Tag
unfolding le32
read_tag blob offset =
    if ltb (length blob) (offset + 4)
    then none
    else some
        (record { ty = le32 blob offset / 2 ^ 24 % 2 ^ 7; operand = le32 blob offset % 2 ^ 24 })

unfoldable pub is_object : Tag → Bool
is_object tag = tag.ty == type_object

unfoldable pub is_dict : Tag → Bool
is_dict tag = tag.ty == type_dict

unfoldable pub is_container : Tag → Bool
is_container tag = tag.ty == type_dict || tag.ty == type_array || tag.ty == type_set

-- u32::checked_add.
abbrev pub checked_u32 : ℕ → Option ℕ
checked_u32 n = if ltb n (2 ^ 32) then some n else none

-- The padded length: `(operand + 3) & !3`.
abbrev pub padded : ℕ → ℕ
padded n = n / 4 * 4

unfoldable pub scalar_step : Tag → Option ℕ
unfolding is_container
scalar_step tag =
    if is_container tag || tag.ty == type_boolean
    then some 4
    else if tag.ty == type_number
    then some 12
    else if tag.ty == type_symbol || tag.ty == type_string || tag.ty == type_data
    then (checked_u32 (tag.operand + 3) >>= λ n. checked_u32 (padded n + 4))
    else none

unfoldable pub bytes_eq : Bytes → Bytes → Bool
bytes_eq [] [] = true
bytes_eq [] (y ∷ b) = false
bytes_eq (x ∷ a) [] = false
bytes_eq (x ∷ a) (y ∷ b) = x == y && bytes_eq a b

-- `blob[o..o + len]`.
abbrev pub slice : Bytes → ℕ → ℕ → Bytes
slice blob o len = take len (drop o blob)
