-- ===== src/Sandbox/Passed.antt =====
-- src/sandbox.rs: what holds of every call that the filter lets pass.
use Prim.Native.Nat.{bit_and}
use ltop.Base.{
  ◌≡◌, ◌≢◌, refl, sym, ◌∙◌, ◌⊎◌, arith, Bool, true, false, some, Bool-cases, inl, inr, some_inj,
}
use ltop.Bytes.{has}
use ltop.Sandbox.{
  Arch, x86_64, aarch64, Build, SeccompData, verdict, direct_of, write_of, openat_of, ioctl_of,
  audit_arch, allow_direct, sys_write, sys_openat, sys_ioctl, deny_action, ret_allow, data_nr,
  data_arch, arg0_lo, arg1_lo, arg2_lo, openat_deny_flags, tiocgwinsz, tcsets, rm_ioctl_mask,
  rm_ioctl_value,
}
use ltop.Sandbox.Verdict.{permits, verdict-permits}

-- The lists of both architectures name no call whose arguments are filtered.
not_direct :
    (a : Arch) (trap : Bool)
    → (has (direct_of a trap) (write_of a) ≡ false)
      × (has (direct_of a trap) (openat_of a) ≡ false)
      × (has (direct_of a trap) (ioctl_of a) ≡ false)
unfolding has direct_of write_of openat_of ioctl_of
not_direct x86_64 true = (refl, refl, refl)
not_direct x86_64 false = (refl, refl, refl)
not_direct aarch64 true = (refl, refl, refl)
not_direct aarch64 false = (refl, refl, refl)

distinct_calls :
    (a : Arch) → (write_of a ≢ openat_of a) × (write_of a ≢ ioctl_of a) × (openat_of a ≢ ioctl_of a)
unfolding write_of openat_of ioctl_of
distinct_calls x86_64 = omega arith
distinct_calls aarch64 = omega arith

passed_permits :
    (b : Build) (words : SeccompData) → verdict b words ≡ some ret_allow → permits b words ≡ true
unfolding deny_action
passed_permits b words h = elim (Bool-cases (permits b words)) [
  | inl e ↦ e
  | inr n ↦
      let got = sym (verdict-permits b words) ∙ h in
      let denied = some_inj (rw n at got) in absurd (ground arith)
]

-- A call that the filter lets pass is one of the build's architecture. If it is a write, it
-- goes to stdout or stderr; if it is an openat, none of the bits that write or create is set
-- in its flags; and if it is an ioctl, its command is TIOCGWINSZ, TCSETS or one of the
-- driver's.
pub passed_calls :
    (b : Build) (words : SeccompData)
    → verdict b words ≡ some ret_allow
    → (words data_arch ≡ audit_arch b)
      × (words data_nr ≡ sys_write b → (words arg0_lo ≡ 1) ⊎ (words arg0_lo ≡ 2))
      × (words data_nr ≡ sys_openat b → bit_and (words arg2_lo) openat_deny_flags ≡ 0)
      × (words data_nr ≡ sys_ioctl b
          → (words arg1_lo ≡ tiocgwinsz)
            ⊎ ((words arg1_lo ≡ tcsets) ⊎ (bit_and (words arg1_lo) rm_ioctl_mask ≡ rm_ioctl_value)))
unfolding allow_direct sys_write sys_openat sys_ioctl
passed_calls b words h =
    let ok = passed_permits b words h in
    let (w_not, o_not, i_not) = not_direct b.arch b.trap in
    let (wo, wi, oi) = distinct_calls b.arch in
    (ground arith, λ e. ground arith, λ e. ground arith, λ e. ground arith)
