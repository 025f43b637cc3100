-- ===== src/Agx.antt =====
-- src/gpu/agx.rs: the GPU usage of the processes on macOS. What the registry of the system answers
-- is a parameter: for each accelerator and each of its clients the blob of properties, if it gives
-- one. The table of checkpoints is made new for each blob, since parse only counts its slots. `none`
-- is the code's None, and in populate a panic. Releasing ports, the assertion of Map::new in a dev
-- build, and the room of the arena are left out.
pub mod Creator
pub mod Usage
mod Tests
use ltop.Base.{
  ℕ, zero, suc, ◌+◌, ◌-◌, ◌*◌, ◌/◌, ◌%◌, ◌^◌, Bool, true, false, ◌&&◌, ◌||◌, Option, none, some,
  List, [], ◌∷◌, ◌++◌, ltb, leb, ◌==◌, if◌then◌else◌, ◌>>=◌, length, min, drop, replicate,
}
use ltop.Bytes.{Bytes}
use ltop.Display.Text.{codes, starts_with}
use ltop.Map.{freeze_map, get}
use ltop.OsBinary.{OsBinary, parse, root}
use ltop.OsBinary.Tags.{checked_u32}
use ltop.OsBinary.Query.{find_dict, for_each_array, as_number, as_string}

abbrev pub max_tracked_pids : ℕ
max_tracked_pids = 256

abbrev pub osbin_ckpts : ℕ
osbin_ckpts = 512

unfoldable pub saturating_mul : ℕ → ℕ → ℕ
saturating_mul a b = min (a * b) (2 ^ 64 - 1)

unfoldable pub saturating_add_u64 : ℕ → ℕ → ℕ
saturating_add_u64 a b = min (a + b) (2 ^ 64 - 1)

unfoldable pub compute_pct : ℕ → ℕ → ℕ → ℕ
unfolding saturating_mul
compute_pct prev_ns now_ns dt_ns =
    if prev_ns == 0 || (leb now_ns prev_ns || dt_ns == 0)
    then 0
    else min (saturating_mul (now_ns - prev_ns) 100 / dt_ns) 100

unfoldable pub read_perf_stats_blob : OsBinary → Option ℕ
read_perf_stats_blob bin = do
  dict ← root bin
  used ← find_dict bin dict (codes "In use system memory")
  bytes ← as_number bin used
  some (bytes / 2 ^ 20)

-- The loop over the digits: the number, and whether there was one.
unfoldable pub creator_loop : ℕ → Bool → Bytes → Option (ℕ × Bool)
creator_loop n any [] = some (n, any)
creator_loop n any (b ∷ bytes) =
    let next = checked_u32 (n * 10) >>= λ m.
    checked_u32 (m + (b - b'0')) >>= λ k. creator_loop k true bytes in
    if leb b'0' b && leb b b'9' then next else some (n, any)

unfoldable pub parse_creator_pid_bytes : Bytes → Option ℕ
unfolding creator_loop
parse_creator_pid_bytes bytes =
    let digits = creator_loop 0 false (drop 4 bytes) in
    if starts_with bytes (codes "pid ")
    then (do (n, any) ← digits; if any then some n else none)
    else none

-- The closure of for_each_array, over the items that it is handed.
unfoldable pub sum_usage : OsBinary → ℕ → List ℕ → ℕ
unfolding saturating_add_u64
sum_usage bin total_ns [] = total_ns
sum_usage bin total_ns (item ∷ items) =
    let ns = find_dict bin item (codes "accumulatedGPUTime") >>= as_number bin in
    sum_usage bin (elim ns [ none ↦ total_ns | some n ↦ saturating_add_u64 total_ns n ]) items

unfoldable pub read_user_client_blob : OsBinary → Option (ℕ × ℕ)
unfolding parse_creator_pid_bytes sum_usage
read_user_client_blob bin = do
  dict ← root bin
  creator ← find_dict bin dict (codes "IOUserClientCreator")
  creator_bytes ← as_string bin creator
  pid ← parse_creator_pid_bytes creator_bytes
  let total_ns : ℕ = elim (find_dict bin dict (codes "AppUsage")) [
    | none ↦ 0
    | some usage ↦ sum_usage bin 0 (for_each_array bin usage).0
  ]
  some (pid, total_ns)

-- What the registry answers for one accelerator.
pub record Accelerator : Type 0 where
  pub stats : Option Bytes
  pub clients : List (Option Bytes)

unfoldable pub parse_blob : Option Bytes → Option OsBinary
parse_blob blob = do bytes ← blob; parse bytes (replicate osbin_ckpts 0)

unfoldable pub client_reading : Option Bytes → Option (ℕ × ℕ)
unfolding parse_blob read_user_client_blob
client_reading blob = do bin ← parse_blob blob; read_user_client_blob bin

-- FVec::push with its result ignored.
abbrev pub push_now : List (ℕ × ℕ) → Option (ℕ × ℕ) → List (ℕ × ℕ)
push_now now none = now
push_now now (some r) = if ltb (length now) max_tracked_pids then now ++ r ∷ [] else now

unfoldable pub walk_clients : List (Option Bytes) → List (ℕ × ℕ) → List (ℕ × ℕ)
unfolding client_reading
walk_clients [] now = now
walk_clients (blob ∷ blobs) now = walk_clients blobs (push_now now (client_reading blob))

-- The loop over the accelerators: the readings, and the memory in use.
unfoldable pub walk_accelerators : List Accelerator → List (ℕ × ℕ) → ℕ → List (ℕ × ℕ) × ℕ
unfolding parse_blob read_perf_stats_blob walk_clients
walk_accelerators [] now used = (now, used)
walk_accelerators (agx ∷ rest) now used =
    let stats = parse_blob agx.stats >>= read_perf_stats_blob in
    walk_accelerators rest (walk_clients agx.clients now)
      (elim stats [ none ↦ used | some mib ↦ (used + mib) % 2 ^ 64 ])

-- `*a += *b` on a u64.
abbrev pub add_u64 : ℕ → ℕ → ℕ
add_u64 a b = (a + b) % 2 ^ 64

abbrev pub value_or_zero : Option ℕ → ℕ
value_or_zero none = 0
value_or_zero (some n) = n

-- Phase 2: the percentages that are not zero. The vector has room for all.
unfoldable pub entries_of : List (ℕ × ℕ) → ℕ → List (ℕ × ℕ) → List (ℕ × ℕ)
entries_of prev dt_ns [] = []
entries_of prev dt_ns ((pid, now_ns) ∷ now) =
    let pct = compute_pct (value_or_zero (get prev pid)) now_ns dt_ns in
    let rest = entries_of prev dt_ns now in if pct == 0 then rest else (pid, pct) ∷ rest

unfoldable pub sum_pct : List (ℕ × ℕ) → ℕ
sum_pct [] = 0
sum_pct ((pid, pct) ∷ entries) = (pct + sum_pct entries) % 2 ^ 32

-- (n_gpus, total_util, used_mib, total_mib).
abbrev pub Totals : Type 0
Totals = ℕ × ℕ × ℕ × ℕ

-- `registry` is none if its port or its iterator cannot be had.
unfoldable pub populate :
    ℕ
    → ℕ
    → List (ℕ × ℕ)
    → Option (List Accelerator)
    → ℕ
    → Option (List (ℕ × ℕ) × List (ℕ × ℕ) × Totals)
populate n_gpus total_mib prev none dt_ns = some ([], [], (0, 0, 0, total_mib))
populate n_gpus total_mib prev (some accelerators) dt_ns =
    let (now, used_mib) = walk_accelerators accelerators [] 0 in
    let collected : Option (List (ℕ × ℕ) × List (ℕ × ℕ) × Totals) =
      freeze_map add_u64 now >>= λ new_prev.
      let entries = entries_of prev dt_ns new_prev in
      some (entries, new_prev, (n_gpus, min (sum_pct entries) 100, used_mib, total_mib)) in
    if n_gpus == 0 || dt_ns == 0 then some ([], [], (0, 0, 0, total_mib)) else collected
