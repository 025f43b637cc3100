-- ===== src/OsBinary/Tests.antt =====
-- src/osbinary.rs on small blobs: runs, and the theorems at concrete inputs.
use ltop.Base.{
  ℕ, ◌≡◌, refl, false, none, some, List, [], ◌∷◌, ◌++◌, ◌>>=◌, length, get_elem?, set, arith,
}
use ltop.Bytes.{Bytes}
use ltop.OsBinary.Tags.{
  Tag, read_tag, le32, is_object, scalar_step, is_dict, is_container, bytes_eq,
}
use ltop.OsBinary.Checkpoints.{Ckpts, record_offset, halve, halve_loop, push, store}
use ltop.OsBinary.Table.{Covers, Covers-start, record_offset-Covers}
use ltop.OsBinary.Objects.{Flat}
use ltop.OsBinary.Lookup.{nth_object-parse, resolve-object}
use ltop.OsBinary.Query.{find_dict, find_loop, symbol_bytes, as_number}
use ltop.OsBinary.{
  OsBinary, parse, nth_object, resolve, item_len, walk, walk_loop, walk_round, scan_loop, owed,
}

-- `{ "k" : 7 }`, and with a second pair whose key is a back-reference to the first.
abbrev k_eq_7 : Bytes
k_eq_7 =
    0xd3 ∷ 0 ∷ 0 ∷ 0 ∷ 1 ∷ 0 ∷ 0 ∷ 1 ∷ 2 ∷ 0 ∷ 0 ∷ 8 ∷ b'k' ∷ 0 ∷ 0 ∷ 0 ∷ 0x20 ∷ 0 ∷ 0 ∷ 0x84 ∷ 7
    ∷ 0 ∷ 0 ∷ 0 ∷ 0 ∷ 0 ∷ 0 ∷ 0 ∷ []

abbrev back_ref : Bytes
back_ref =
    0xd3 ∷ 0 ∷ 0 ∷ 0 ∷ 2 ∷ 0 ∷ 0 ∷ 1 ∷ 2 ∷ 0 ∷ 0 ∷ 8 ∷ b'k' ∷ 0 ∷ 0 ∷ 0 ∷ 0x20 ∷ 0 ∷ 0 ∷ 4 ∷ 7 ∷ 0
    ∷ 0 ∷ 0 ∷ 0 ∷ 0 ∷ 0 ∷ 0 ∷ 1 ∷ 0 ∷ 0 ∷ 12 ∷ 0x20 ∷ 0 ∷ 0 ∷ 0x84 ∷ 11 ∷ 0 ∷ 0 ∷ 0 ∷ 0 ∷ 0 ∷ 0 ∷ 0
    ∷ []

-- The table of two slots has the stride two in the end.
abbrev parsed : OsBinary
parsed = record { blob = back_ref; ckpts = 4 ∷ 16 ∷ []; stride = 2; count = 4 }

parse-back_ref : parse back_ref (0 ∷ 0 ∷ []) ≡ some parsed
unfolding parse walk walk_loop walk_round scalar_step read_tag record_offset halve halve_loop push
    store is_object is_dict is_container owed bytes_eq le32
parse-back_ref = refl

parse_bad_magic : parse (set k_eq_7 0 0) (0 ∷ []) ≡ none
unfolding parse bytes_eq
parse_bad_magic = refl

find_k : (parse k_eq_7 (0 ∷ []) >>= λ b. find_dict b 4 (b'k' ∷ []) >>= λ v. as_number b v) ≡ some 7
unfolding parse walk walk_loop walk_round scalar_step read_tag record_offset halve halve_loop push
    store is_object is_dict is_container owed bytes_eq le32 find_dict find_loop resolve item_len
    symbol_bytes as_number
find_k = refl

nth_object-parse_example :
    (os : List ℕ) × Flat back_ref 0 4 os
    × (parsed.count ≡ length os)
    × ((idx : ℕ) → nth_object parsed idx ≡ get_elem? os idx)
nth_object-parse_example = nth_object-parse back_ref (0 ∷ 0 ∷ []) parsed parse-back_ref

resolve_28 : resolve parsed 28 ≡ some 8
unfolding resolve nth_object scan_loop scalar_step read_tag is_object is_container le32
resolve_28 = refl

resolve-object_example : (tag : Tag) × (read_tag back_ref 8 ≡ some tag) × (is_object tag ≡ false)
resolve-object_example = resolve-object back_ref (0 ∷ 0 ∷ []) parsed 28 8 parse-back_ref resolve_28

item_len_8 : item_len parsed 8 ≡ some 8
unfolding item_len walk walk_loop walk_round scalar_step read_tag is_object is_dict is_container
    owed le32
item_len_8 = refl

record_offset-Covers_example :
    (ck' : Ckpts) × (record_offset
        (record { buf = 0 ∷ 0 ∷ []; n = 0; stride = 1 })
        (length {A = ℕ} [])
        4
      ≡ some ck')
    × Covers ([] ++ 4 ∷ []) ck'
record_offset-Covers_example =
    record_offset-Covers [] 4 (record { buf = 0 ∷ 0 ∷ []; n = 0; stride = 1 })
      (Covers-start (0 ∷ 0 ∷ []) (omega arith))
