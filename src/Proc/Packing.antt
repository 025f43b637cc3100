-- ===== src/Proc/Packing.antt =====
-- src/main.rs: the packed flags and counters.
use ltop.Base.{ℕ, ◌==◌, ◌+◌, ◌-◌, ◌*◌, ◌/◌, ◌%◌, ◌^◌, ◌≤◌, ◌<◌, ◌≡◌, arith, Bool, true, false, some}
use ltop.Proc.{
  ProcInfo, pack, age_secs, visible, set_visible, new_packed, packed_visible, cpu_bits,
  set_packed_visible, cpu_delta,
}

-- An age that fits is packed, and the visibility stands in bit 31.
pub pack_fits :
    (age : ℕ) (v : Bool)
    → age < 2 ^ 31
    → (packed : ℕ) × (pack age v ≡ some packed) × ((packed / 2 ^ 31 % 2 == 1) ≡ v)
unfolding pack
pack_fits age true small = (age % 2 ^ 31 + 2 ^ 31, ground arith, ground arith)
pack_fits age false small = (age, ground arith, ground arith)

module _ {F : Type 0} (p : ProcInfo F) where
  -- For a row that packs an age below 2^31 and a visibility, visible and age_secs read them
  -- back, and set_visible changes the visibility to the given one and keeps the age.
  pub set_visible-keeps :
      (v w : Bool) (age : ℕ)
      → age < 2 ^ 31
      → pack age w ≡ some p.age_visible
      → (visible (set_visible p v) ≡ v)
        × (age_secs (set_visible p v) ≡ age)
        × (visible p ≡ w)
        × (age_secs p ≡ age)
  unfolding visible set_visible age_secs pack
  set_visible-keeps true true age h e = ground arith
  set_visible-keeps true false age h e = ground arith
  set_visible-keeps false true age h e = ground arith
  set_visible-keeps false false age h e = ground arith

-- Packed::new stores the visibility, and the counter without its last bit modulo 2^31;
-- set_visible turns the visibility on and does not disturb the counter.
pub packed_fields :
    (shown : Bool) (total : ℕ)
    → (packed_visible (new_packed shown total) ≡ shown)
      × (cpu_bits (new_packed shown total) ≡ total / 2 % 2 ^ 31)
      × (packed_visible (set_packed_visible (new_packed shown total)) ≡ true)
      × (cpu_bits (set_packed_visible (new_packed shown total)) ≡ total / 2 % 2 ^ 31)
unfolding packed_visible new_packed cpu_bits set_packed_visible
packed_fields true total = ground arith
packed_fields false total = ground arith

-- If a counter has grown since the sample that Packed stored, by less than 2^31 units of two
-- ticks, then compute_cpu counts twice the difference of the halved counters, wherever the
-- counter wrapped in the packed word.
pub cpu_delta-new_packed :
    (shown : Bool) (before now : ℕ)
    → before ≤ now
    → now / 2 - before / 2 < 2 ^ 31
    → cpu_delta false (some (new_packed shown before)) now ≡ some (2 * (now / 2 - before / 2))
unfolding cpu_delta new_packed cpu_bits
cpu_delta-new_packed true before now h k = ground arith
cpu_delta-new_packed false before now h k = ground arith
