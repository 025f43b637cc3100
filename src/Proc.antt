-- ===== src/Proc.antt =====
-- src/main.rs: the process table's rows, the packed flags, and the tick's CPU counters. This is
-- the Linux build. A u32 is a number below 2^32, and bit 31 is written as `/ 2 ^ 31`.
pub mod Packing
mod Tests
use ltop.Base.{
  ℕ, ◌+◌, ◌-◌, ◌*◌, ◌/◌, ◌%◌, ◌^◌, Bool, true, false, Option, none, some, List, [], ◌∷◌, ltb, ◌==◌,
  if◌then◌else◌, ◌>>=◌,
}
use ltop.Bytes.{Bytes}
use ltop.Map.{freeze_map}

-- What the filter uses of f32: 0.0, `+`, `>=`, and the two thresholds.
pub record Float32 (F : Type 0) : Type 0 where
  pub zero : F
  pub add : F → F → F
  pub at_least : F → F → Bool
  pub child_cpu_thresh : F
  pub child_cpu_keep_thresh : F

-- `mem_mib` is not zero.
pub record GpuUsage : Type 0 where
  pub sm_pct : ℕ
  pub mem_mib : ℕ

pub record ProcInfo (F : Type 0) : Type 0 where
  pub pid : ℕ
  pub ppid : ℕ
  pub cpu : F
  pub rss_kib : ℕ
  pub age_visible : ℕ
  pub gpu : Option GpuUsage
  pub display : Bytes

abbrev pub bit_31 : ℕ → Bool
bit_31 x = x / 2 ^ 31 % 2 == 1

-- `x | 1 << 31`, and `x & !(1 << 31)`.
abbrev pub with_bit_31 : ℕ → ℕ
with_bit_31 x = x % 2 ^ 31 + 2 ^ 31

abbrev pub without_bit_31 : ℕ → ℕ
without_bit_31 x = x % 2 ^ 31

-- ProcInfo::pack; `none` is the panic of its assertion in a dev build.
unfoldable pub pack : ℕ → Bool → Option ℕ
pack age_secs visible =
    if ltb age_secs (2 ^ 31)
    then some (if visible then with_bit_31 age_secs else age_secs)
    else none

module _ {F : Type 0} where
  unfoldable pub age_secs : ProcInfo F → ℕ
  age_secs p = without_bit_31 p.age_visible

  -- ProcInfo::visible and set_visible.
  unfoldable pub visible : ProcInfo F → Bool
  visible p = bit_31 p.age_visible

  unfoldable pub set_visible : ProcInfo F → Bool → ProcInfo F
  set_visible p v = record p {
    age_visible = if v then with_bit_31 p.age_visible else without_bit_31 p.age_visible;
  }

  -- `procs.iter().enumerate()` from number `i` on, as the pairs of build_pid_to_idx.
  unfoldable pub pids_from : ℕ → List (ProcInfo F) → List (ℕ × ℕ)
  pids_from i [] = []
  pids_from i (p ∷ procs) = (p.pid, i) ∷ pids_from (i + 1) procs

  unfoldable pub build_pid_to_idx : List (ProcInfo F) → Option (List (ℕ × ℕ))
  unfolding pids_from
  build_pid_to_idx procs = freeze_map (λ a b. a) (pids_from 0 procs)

-- Packed, a u32: bit 31 is last tick's visibility, and the other bits the CPU counter without
-- its last bit. `Packed.new`, `Packed.visible`, `Packed.cpu_bits` and `Packed.set_visible` of the source.
unfoldable pub new_packed : Bool → ℕ → ℕ
new_packed shown total =
    let bits = total / 2 ^ 1 % 2 ^ 32 % 2 ^ 31 in if shown then bits + 2 ^ 31 else bits

unfoldable pub packed_visible : ℕ → Bool
packed_visible p = bit_31 p

unfoldable pub cpu_bits : ℕ → ℕ
cpu_bits p = without_bit_31 p

unfoldable pub set_packed_visible : ℕ → ℕ
set_packed_visible p = with_bit_31 p

-- compute_cpu, as far as it counts in integers: the ticks since the last sample, which the floats
-- then scale. `none` is the result 0.0; `too_young` is the float test of the first line.
unfoldable pub cpu_delta : Bool → Option ℕ → ℕ → Option ℕ
unfolding cpu_bits
cpu_delta too_young prev_entry total =
    if too_young
    then none
    else (prev_entry >>= λ p.
        let new_bits = total / 2 ^ 1 % 2 ^ 32 % 2 ^ 31 in
        let delta_bits = (new_bits + 2 ^ 32 - cpu_bits p) % 2 ^ 32 % 2 ^ 31 in
        some (delta_bits * 2 ^ 1))
