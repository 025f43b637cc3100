-- ===== src/Agx/Tests.antt =====
-- src/gpu/agx.rs on synthetic blobs: runs, and the theorems at concrete inputs.
use ltop.Base.{
  ℕ, ◌+◌, ◌-◌, ◌-◌, ◌/◌, ◌%◌, ◌^◌, ◌≡◌, refl, arith, Bool, true, false, none, some, List, [], ◌∷◌,
  ◌++◌, length, replicate,
}
use ltop.Bytes.{Bytes}
use ltop.Display.Text.{codes, starts_with}
use ltop.OsBinary.Tags.{
  checked_u32, read_tag, le32, is_object, scalar_step, is_dict, is_container, bytes_eq,
}
use ltop.OsBinary.Checkpoints.{record_offset, halve, halve_loop, push, store}
use ltop.OsBinary.Query.{
  find_dict, find_loop, symbol_bytes, as_number, as_string, for_each_array, each_loop,
}
use ltop.OsBinary.{
  parse, root, nth_object, resolve, item_len, walk, walk_loop, walk_round, scan_loop, owed,
}
use ltop.Map.Freeze.{gather}
use ltop.Decimal.Parse.{all_digits, value}
use ltop.Agx.{
  add_u64, Accelerator, client_reading, sum_usage, saturating_add_u64, parse_blob,
  read_user_client_blob, parse_creator_pid_bytes, creator_loop, compute_pct, saturating_mul,
  populate,
}
use ltop.Agx.Usage.{populate_lem, of_pid, readings, client_readings, usage_of}
use ltop.Agx.Creator.{parse_creator_pid_bytes-value, digit_first}

-- A tag, a text with its bytes padded to words, and a number of eight bytes.
tag_of : ℕ → ℕ → Bool → Bytes
tag_of ty n eoc = n % 256 ∷ n / 256 ∷ 0 ∷ (elim eoc [ true ↦ 128 + ty | false ↦ ty ]) ∷ []

padding : Bytes → Bytes
padding s = replicate ((4 - length s % 4) % 4) 0

symbol : Bytes → Bool → Bytes
symbol s eoc = tag_of 8 (length s + 1) eoc ++ (s ++ 0 ∷ []) ++ padding (s ++ 0 ∷ [])

text : Bytes → Bool → Bytes
text s eoc = tag_of 9 (length s) eoc ++ s ++ padding s

number : ℕ → Bool → Bytes
number n eoc =
    tag_of 4 64 eoc
    ++ n % 256 ∷ n / 256 % 256 ∷ n / 2 ^ 16 % 256 ∷ n / 2 ^ 24 % 256 ∷ 0 ∷ 0 ∷ 0 ∷ 0 ∷ []

-- A client with `ns` and 7 ns of GPU time.
client_of : Bytes → ℕ → Bytes
client_of creator ns =
    0xd3 ∷ 0 ∷ 0 ∷ 0 ∷ tag_of 1 2 true
    ++ symbol (codes "IOUserClientCreator") false
    ++ text creator false
    ++ symbol (codes "AppUsage") false
    ++ tag_of 2 2 true
    ++ tag_of 1 1 false
    ++ symbol (codes "accumulatedGPUTime") false
    ++ number ns true
    ++ tag_of 1 1 true
    ++ symbol (codes "accumulatedGPUTime") false
    ++ number 7 true

-- Two clients of one process, and one that gives no blob.
abbrev two_clients : List Accelerator
two_clients =
    record {
      stats = none;
      clients =
          some (client_of (codes "pid 619, Xcode") 5)
          ∷ none
          ∷ some (client_of (codes "pid 619, Xcode") 81)
          ∷ [];
    }
    ∷ []

readings_two : readings two_clients ≡ (619, 12) ∷ (619, 88) ∷ []
unfolding readings client_readings client_reading tag_of symbol padding text number client_of parse
    bytes_eq walk walk_loop walk_round read_tag is_object is_container is_dict scalar_step
    record_offset push store root find_dict resolve find_loop creator_loop parse_blob
    parse_creator_pid_bytes read_user_client_blob saturating_add_u64 sum_usage starts_with halve
    halve_loop as_number as_string each_loop for_each_array symbol_bytes le32 item_len nth_object
    owed scan_loop
readings_two = refl

populate_lem_example :
    of_pid 619 (populate 1 8192 ((619, 40) ∷ []) (some two_clients) 100)
    ≡ some (
      usage_of ((619, 40) ∷ []) 100 619 (gather add_u64 619 (readings two_clients)),
      gather add_u64 619 (readings two_clients),
    )
populate_lem_example =
    populate_lem 1 8192 ((619, 40) ∷ []) two_clients 100 619 refl refl
      (rw readings_two (omega arith))

percentages :
    (compute_pct 0 5 1 ≡ 0) × (compute_pct 40 100 100 ≡ 60) × (compute_pct 1 (2 ^ 64 - 1) 10 ≡ 100)
unfolding compute_pct saturating_mul
percentages = (refl, refl, refl)

no_pid :
    (parse_creator_pid_bytes (codes "pid , X") ≡ none)
    × (parse_creator_pid_bytes (codes "PID 6") ≡ none)
unfolding parse_creator_pid_bytes starts_with bytes_eq creator_loop
no_pid = (refl, refl)

too_large : parse_creator_pid_bytes (codes "pid 4294967296, x") ≡ none
unfolding parse_creator_pid_bytes starts_with bytes_eq creator_loop
too_large = refl

parse_creator_pid_bytes-value_example :
    parse_creator_pid_bytes (codes "pid 619, Xcode") ≡ checked_u32 (value 0 (codes "619"))
parse_creator_pid_bytes-value_example =
    parse_creator_pid_bytes-value b'6' (codes "19") (codes ", Xcode") (unfold all_digits in refl)
      (unfold digit_first in refl)
