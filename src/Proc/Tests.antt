-- ===== src/Proc/Tests.antt =====
-- src/main.rs: the theorems on the packed fields at concrete inputs.
use ltop.Base.{ℕ, ◌+◌, ◌-◌, ◌*◌, ◌/◌, ◌^◌, ◌≡◌, refl, true, false, some, none, [], arith}
use ltop.Proc.{ProcInfo, pack, new_packed, cpu_delta}
use ltop.Proc.Packing.{cpu_delta-new_packed}

abbrev shown_row : ProcInfo ℕ
shown_row = record {
  pid = 7;
  ppid = 1;
  cpu = 0;
  rss_kib = 1024;
  age_visible = 2 ^ 31 + 100;
  gpu = none;
  display = [];
}

shown_row_packed : pack 100 true ≡ some shown_row.age_visible
unfolding pack
shown_row_packed = refl

pack_too_old : pack (2 ^ 31) false ≡ none
unfolding pack
pack_too_old = refl

cpu_delta-new_packed_example :
    cpu_delta false (some (new_packed true (2 ^ 40 - 10))) (2 ^ 40 + 30)
    ≡ some (2 * ((2 ^ 40 + 30) / 2 - (2 ^ 40 - 10) / 2))
cpu_delta-new_packed_example =
    cpu_delta-new_packed true (2 ^ 40 - 10) (2 ^ 40 + 30) (omega arith) (omega arith)
