-- ===== src/Sandbox.antt =====
-- src/sandbox.rs: the seccomp filter. build_prog writes the program into an array of instructions,
-- in the order of the source; run is run_bpf, the machine that the source states for the kernel.
-- Its jumps go forward, so they skip instructions of the rest of the program.
pub mod Layout
pub mod Verdict
pub mod Passed
pub mod Install
pub mod Order
mod Tests
use Prim.Native.Nat.{bit_and}
use ltop.Base.{
  ℕ, zero, suc, ◌+◌, ◌-◌, ◌*◌, ◌%◌, ◌^◌, Bool, true, false, ◌&&◌, ◌||◌, Option, none, some, List,
  [], ◌∷◌, ◌++◌, ◌==◌, if◌then◌else◌, length, set, replicate,
}

-- What a build chooses: the architecture and the feature sandbox-trap.
pub data Arch : Type 0 where
  x86_64 aarch64 : Arch

pub record Build : Type 0 where
  pub arch : Arch
  pub trap : Bool

abbrev pub ret_allow : ℕ
ret_allow = 0x7fff0000

unfoldable pub deny_action : Build → ℕ
deny_action b = if b.trap then 0x00030000 else 0x80000000

pub audit_arch_of : Arch → ℕ
audit_arch_of x86_64 = 0xC000003E
audit_arch_of aarch64 = 0xC00000B7

unfoldable pub audit_arch : Build → ℕ
unfolding audit_arch_of
audit_arch b = audit_arch_of b.arch

pub direct_of : Arch → Bool → List ℕ
direct_of x86_64 trap =
    0 ∷ 3 ∷ 28 ∷ 35 ∷ 39 ∷ 217 ∷ 219 ∷ 263 ∷ 228 ∷ 231 ∷ (if trap then 15 ∷ [] else [])
direct_of aarch64 trap =
    63 ∷ 57 ∷ 233 ∷ 101 ∷ 172 ∷ 61 ∷ 128 ∷ 35 ∷ 113 ∷ 94 ∷ (if trap then 139 ∷ [] else [])

unfoldable pub allow_direct : Build → List ℕ
unfolding direct_of
allow_direct b = direct_of b.arch b.trap

pub write_of : Arch → ℕ
write_of x86_64 = 1
write_of aarch64 = 64

pub openat_of : Arch → ℕ
openat_of x86_64 = 257
openat_of aarch64 = 56

pub ioctl_of : Arch → ℕ
ioctl_of x86_64 = 16
ioctl_of aarch64 = 29

unfoldable pub sys_write : Build → ℕ
unfolding write_of
sys_write b = write_of b.arch

unfoldable pub sys_openat : Build → ℕ
unfolding openat_of
sys_openat b = openat_of b.arch

unfoldable pub sys_ioctl : Build → ℕ
unfolding ioctl_of
sys_ioctl b = ioctl_of b.arch

abbrev pub openat_deny_flags : ℕ
openat_deny_flags = 0x400643

abbrev pub tiocgwinsz : ℕ
tiocgwinsz = 0x5413

abbrev pub tcsets : ℕ
tcsets = 0x5402

abbrev pub rm_ioctl_mask : ℕ
rm_ioctl_mask = 0xc000ff00

abbrev pub rm_ioctl_value : ℕ
rm_ioctl_value = 0xc0000000 + 0x46 * 2 ^ 8

-- The offsets of seccomp_data.
abbrev pub data_nr : ℕ
data_nr = 0

abbrev pub data_arch : ℕ
data_arch = 4

abbrev pub arg0_lo : ℕ
arg0_lo = 16

abbrev pub arg1_lo : ℕ
arg1_lo = 24

abbrev pub arg2_lo : ℕ
arg2_lo = 32

pub record SockFilter : Type 0 where
  pub code : ℕ
  pub jt : ℕ
  pub jf : ℕ
  pub k : ℕ

abbrev pub ld_w_abs : ℕ
ld_w_abs = 0x20

abbrev pub jmp_jeq_k : ℕ
jmp_jeq_k = 0x15

abbrev pub ret_k : ℕ
ret_k = 0x06

abbrev pub alu_and_k : ℕ
alu_and_k = 0x54

abbrev pub load : ℕ → SockFilter
load k = record { code = ld_w_abs; jt = 0; jf = 0; k = k }

abbrev pub jeq : ℕ → ℕ → ℕ → SockFilter
jeq jt jf k = record { code = jmp_jeq_k; jt = jt; jf = jf; k = k }

abbrev pub mask : ℕ → SockFilter
mask k = record { code = alu_and_k; jt = 0; jf = 0; k = k }

abbrev pub ret : ℕ → SockFilter
ret k = record { code = ret_k; jt = 0; jf = 0; k = k }

-- jmp: the offset is cut off to a u8.
unfoldable pub jmp : ℕ → ℕ → ℕ
jmp from to = (to - from - 1) % 256

module _ (b : Build) where
  -- The named indices of the layout, by N_DIRECT.
  abbrev pub i_dispatch_write : ℕ
  i_dispatch_write = 3 + length (allow_direct b)

  abbrev pub i_check_write : ℕ
  i_check_write = i_dispatch_write + 3

  abbrev pub i_check_openat : ℕ
  i_check_openat = i_check_write + 3

  abbrev pub i_check_ioctl : ℕ
  i_check_ioctl = i_check_openat + 3

  abbrev pub i_ret_deny : ℕ
  i_ret_deny = i_check_ioctl + 5

  abbrev pub i_ret_allow : ℕ
  i_ret_allow = i_ret_deny + 1

  abbrev pub prog_len : ℕ
  prog_len = i_ret_allow + 1

  -- The assignments of build_prog, each an index and what is stored there.
  unfoldable pub setup : List (ℕ × SockFilter)
  setup =
      (0, load data_arch) ∷ (1, jeq 0 (jmp 1 i_ret_deny) (audit_arch b)) ∷ (2, load data_nr) ∷ []

  -- The loop over ALLOW_DIRECT, from the index of its first entry on.
  unfoldable pub direct : ℕ → List ℕ → List (ℕ × SockFilter)
  direct idx [] = []
  direct idx (nr ∷ nrs) = (idx, jeq (jmp idx i_ret_allow) 0 nr) ∷ direct (idx + 1) nrs

  unfoldable pub checks : List (ℕ × SockFilter)
  checks =
      let w = i_dispatch_write in
      let allow = i_ret_allow in
      let deny = i_ret_deny in
      (w, jeq (jmp w i_check_write) 0 (sys_write b))
      ∷ (w + 1, jeq (jmp (w + 1) i_check_openat) 0 (sys_openat b))
      ∷ (w + 2, jeq (jmp (w + 2) i_check_ioctl) (jmp (w + 2) deny) (sys_ioctl b))
      ∷ (i_check_write, load arg0_lo)
      ∷ (i_check_write + 1, jeq (jmp (i_check_write + 1) allow) 0 1)
      ∷ (i_check_write + 2, jeq (jmp (i_check_write + 2) allow) (jmp (i_check_write + 2) deny) 2)
      ∷ (i_check_openat, load arg2_lo)
      ∷ (i_check_openat + 1, mask openat_deny_flags)
      ∷ (i_check_openat + 2, jeq (jmp (i_check_openat + 2) allow) (jmp (i_check_openat + 2) deny) 0)
      ∷ (i_check_ioctl, load arg1_lo)
      ∷ (i_check_ioctl + 1, jeq (jmp (i_check_ioctl + 1) allow) 0 tiocgwinsz)
      ∷ (i_check_ioctl + 2, jeq (jmp (i_check_ioctl + 2) allow) 0 tcsets)
      ∷ (i_check_ioctl + 3, mask rm_ioctl_mask)
      ∷ (
        i_check_ioctl + 4,
        jeq (jmp (i_check_ioctl + 4) allow) (jmp (i_check_ioctl + 4) deny) rm_ioctl_value,
      )
      ∷ (deny, ret (deny_action b))
      ∷ (allow, ret ret_allow)
      ∷ []

unfoldable pub write_all : List (ℕ × SockFilter) → List SockFilter → List SockFilter
write_all [] prog = prog
write_all ((i, f) ∷ writes) prog = write_all writes (set prog i f)

unfoldable pub build_prog : Build → List SockFilter
unfolding setup direct checks write_all
build_prog b =
    write_all (setup b ++ direct b 3 (allow_direct b) ++ checks b)
      (replicate (prog_len b) (record { code = 0; jt = 0; jf = 0; k = 0 }))

-- The word of seccomp_data at each offset.
abbrev pub SeccompData : Type 0
SeccompData = ℕ → ℕ

-- The instructions to skip, the rest of the program and the accumulator. `none` stands for a read
-- past the end of the program and for an unknown instruction.
unfoldable pub run : ℕ → List SockFilter → ℕ → SeccompData → Option ℕ
run skip [] a words = none
run (suc skip) (i ∷ prog) a words = run skip prog a words
run zero (i ∷ prog) a words =
    let jeqs = i.code == jmp_jeq_k in
    let next = if i.code == ld_w_abs then words i.k else if jeqs then a else bit_and a i.k in
    let rest = run (if jeqs then (if a == i.k then i.jt else i.jf) else 0) prog next words in
    if i.code == ret_k
    then some i.k
    else if i.code == ld_w_abs || (jeqs || i.code == alu_and_k)
    then rest
    else none

unfoldable pub verdict : Build → SeccompData → Option ℕ
unfolding build_prog run
verdict b words = run 0 (build_prog b) 0 words
