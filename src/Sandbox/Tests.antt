-- ===== src/Sandbox/Tests.antt =====
-- src/sandbox.rs: runs of the filter.
use Prim.Native.Nat.{bit_and}
use ltop.Base.{ℕ, ◌≡◌, refl, true, false, none, some, List, [], ◌∷◌, ◌⊎◌, ◌==◌, if◌then◌else◌}
use ltop.Display.Text.{codes}
use ltop.Sandbox.{
  Build, x86_64, ret_allow, SeccompData, verdict, allow_direct, audit_arch, sys_write, jmp,
  deny_action, sys_openat, sys_ioctl, prog_len, data_nr, data_arch, arg0_lo, arg1_lo, arg2_lo,
  openat_deny_flags, tiocgwinsz, tcsets, rm_ioctl_mask, rm_ioctl_value,
}
use ltop.Sandbox.Verdict.{permits, verdict-permits}
use ltop.Sandbox.Passed.{passed_calls}
use ltop.Sandbox.Install.{
  Call, Answer, done, errno, goes, ended, create_ruleset, set_no_new_privs, set_mode_filter,
  exit_group, write_stderr, all_v1, install, sigsys_message,
}
use ltop.Sandbox.Order.{landlock_calls, Ends, Installed, install-Installed}

abbrev desktop : Build
desktop = record { arch = x86_64; trap = false }

-- A call by its number and its first three arguments.
abbrev calling : ℕ → ℕ → ℕ → ℕ → SeccompData
calling nr x y z offset =
    if offset == 0
    then nr
    else if offset == 4
    then 0xC000003E
    else if offset == 16
    then x
    else if offset == 24
    then y
    else z

verdict_write : verdict desktop (calling 1 2 0 0) ≡ some ret_allow
unfolding verdict allow_direct audit_arch sys_write jmp deny_action
verdict_write = refl

verdict_write_stdin : verdict desktop (calling 1 0 0 0) ≡ some 0x80000000
unfolding verdict allow_direct audit_arch sys_write jmp deny_action
verdict_write_stdin = refl

verdict_kills_truncating_open : verdict desktop (calling 257 0 0 0x200) ≡ some 0x80000000
unfolding verdict allow_direct audit_arch sys_write sys_openat jmp deny_action
verdict_kills_truncating_open = refl

verdict-permits_example :
    verdict desktop (calling 1 2 0 0)
    ≡ some (if permits desktop (calling 1 2 0 0) then ret_allow else deny_action desktop)
verdict-permits_example = verdict-permits desktop (calling 1 2 0 0)

passed_calls_example :
    (calling 1 2 0 0 data_arch ≡ audit_arch desktop)
    × (calling 1 2 0 0 data_nr ≡ sys_write desktop
        → (calling 1 2 0 0 arg0_lo ≡ 1) ⊎ (calling 1 2 0 0 arg0_lo ≡ 2))
    × (calling 1 2 0 0 data_nr ≡ sys_openat desktop
        → bit_and (calling 1 2 0 0 arg2_lo) openat_deny_flags ≡ 0)
    × (calling 1 2 0 0 data_nr ≡ sys_ioctl desktop
        → (calling 1 2 0 0 arg1_lo ≡ tiocgwinsz)
          ⊎ ((calling 1 2 0 0 arg1_lo ≡ tcsets)
              ⊎ (bit_and (calling 1 2 0 0 arg1_lo) rm_ioctl_mask ≡ rm_ioctl_value)))
passed_calls_example = passed_calls desktop (calling 1 2 0 0) verdict_write

-- A kernel that answers every call with the descriptor 7, and one without Landlock.
abbrev granting : List Call → Call → Answer
granting t c = done 7

abbrev without_landlock : List Call → Call → Answer
without_landlock t (create_ruleset handled) = errno 38
without_landlock t c = done 0

install_runs :
    install granting desktop none []
    ≡ goes 7 (set_mode_filter (prog_len desktop) ∷ landlock_calls none 7 7 (set_no_new_privs ∷ []))
unfolding install allow_direct
install_runs = refl

install_fails :
    install without_landlock desktop (some 5) []
    ≡ ended (
        exit_group 2
        ∷ write_stderr (codes "ltop: sandbox install failed (3 err=038)\n")
        ∷ create_ruleset all_v1
        ∷ set_no_new_privs
        ∷ [])
unfolding install
install_fails = refl

install-Installed_example :
    Ends granting (Installed granting desktop (some 5)) (install granting desktop (some 5) [])
install-Installed_example = install-Installed granting desktop (some 5)

sigsys_message_minus : sigsys_message true 17 ≡ codes "ltop: blocked syscall -17\n"
unfolding sigsys_message
sigsys_message_minus = refl
