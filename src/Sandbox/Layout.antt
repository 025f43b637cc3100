-- ===== src/Sandbox/Layout.antt =====
-- src/sandbox.rs, build_prog: the assignments fill the array from its start to its end, and with at
-- most 256 instructions every jump lands where its name says.
use mathlib.Core.List.{map-append}
use ltop.Base.{
  ℕ, suc, ◌+◌, ◌≤◌, ◌<◌, ◌≡◌, refl, ap, ◌∙◌, arith, List, [], ◌∷◌, ◌++◌, map, append_assoc, length,
  replicate, length-append, set-append_length,
}
use ltop.Sandbox.{
  Build, SockFilter, load, jeq, mask, ret, jmp, prog_len, i_ret_allow, i_ret_deny, setup, direct,
  checks, write_all, build_prog, audit_arch, allow_direct, sys_write, sys_openat, sys_ioctl,
  deny_action, ret_allow, data_arch, data_nr, arg0_lo, arg1_lo, arg2_lo, openat_deny_flags,
  tiocgwinsz, tcsets, rm_ioctl_mask, rm_ioctl_value,
}

abbrev stored : ℕ × SockFilter → SockFilter
stored w = w.1

-- The indices count on from `i`.
abbrev Consecutive : ℕ → List (ℕ × SockFilter) → Type 0
Consecutive i [] = Unit {0}
Consecutive i ((j, f) ∷ writes) = (j ≡ i) × Consecutive (i + 1) writes

write_all-Consecutive :
    (z : SockFilter) (writes : List (ℕ × SockFilter)) (done : List SockFilter)
    → Consecutive (length done) writes
    → write_all writes (done ++ replicate (length writes) z) ≡ done ++ map stored writes
unfolding write_all
write_all-Consecutive z [] done c = refl
write_all-Consecutive z ((j, f) ∷ writes) done (e, c) =
    let put = set-append_length done z (replicate (length writes) z) j f e in
    let regroup = append_assoc done (f ∷ []) (replicate (length writes) z) in
    let size : length (done ++ f ∷ []) ≡ length done + 1 = length-append done (f ∷ []) in
    rw (put, ← regroup)
      (write_all-Consecutive z writes (done ++ f ∷ []) (rw size c)
        ∙ append_assoc done (f ∷ []) (map stored writes))

Consecutive-append :
    (i : ℕ) (xs ys : List (ℕ × SockFilter))
    → Consecutive i xs
    → Consecutive (i + length xs) ys
    → Consecutive i (xs ++ ys)
Consecutive-append i [] ys a b = let e : i + 0 ≡ i = omega arith in rw e at b
Consecutive-append i ((j, f) ∷ xs) ys (e, a) b =
    let next : i + suc (length xs) ≡ i + 1 + length xs = omega arith in
    (e, Consecutive-append (i + 1) xs ys a (rw next at b))

direct-Consecutive : (b : Build) (i : ℕ) (nrs : List ℕ) → Consecutive i (direct b i nrs)
unfolding direct
direct-Consecutive b i [] = tt
direct-Consecutive b i (nr ∷ nrs) = (refl, direct-Consecutive b (i + 1) nrs)

length-direct : (b : Build) (i : ℕ) (nrs : List ℕ) → length (direct b i nrs) ≡ length nrs
unfolding direct
length-direct b i [] = refl
length-direct b i (nr ∷ nrs) = ap suc (length-direct b (i + 1) nrs)

checks-Consecutive : (b : Build) → Consecutive (3 + length (allow_direct b)) (checks b)
unfolding checks
checks-Consecutive b = omega arith

pub jmp_lem : (from to d : ℕ) → to ≡ from + 1 + d → d < 256 → jmp from to ≡ d
unfolding jmp
jmp_lem from to d e h = omega arith

-- The program as its instructions, with the jumps as distances.
abbrev pub direct_tests : ℕ → List ℕ → List SockFilter
direct_tests after [] = []
direct_tests after (nr ∷ nrs) = jeq (length nrs + after) 0 nr ∷ direct_tests after nrs

abbrev pub check_tests : Build → List SockFilter
check_tests b =
    jeq 2 0 (sys_write b)
    ∷ jeq 4 0 (sys_openat b)
    ∷ jeq 6 11 (sys_ioctl b)
    ∷ load arg0_lo
    ∷ jeq 10 0 1
    ∷ jeq 9 8 2
    ∷ load arg2_lo
    ∷ mask openat_deny_flags
    ∷ jeq 6 5 0
    ∷ load arg1_lo
    ∷ jeq 4 0 tiocgwinsz
    ∷ jeq 3 0 tcsets
    ∷ mask rm_ioctl_mask
    ∷ jeq 1 0 rm_ioctl_value
    ∷ ret (deny_action b)
    ∷ ret ret_allow
    ∷ []

checks-check_tests : (b : Build) → map stored (checks b) ≡ check_tests b
unfolding checks jmp
checks-check_tests b = ground arith

direct-direct_tests :
    (b : Build) (i : ℕ) (nrs : List ℕ)
    → i + length nrs ≡ 3 + length (allow_direct b)
    → length nrs + 15 < 256
    → map stored (direct b i nrs) ≡ direct_tests 15 nrs
unfolding direct
direct-direct_tests b i [] e h = refl
direct-direct_tests b i (nr ∷ nrs) e h =
    let lands = jmp_lem i (i_ret_allow b) (length nrs + 15) (omega arith) (omega arith) in
    rw (lands, direct-direct_tests b (i + 1) nrs (omega arith) (omega arith)) refl

writes-Consecutive :
    (b : Build) → Consecutive 0 (setup b ++ direct b 3 (allow_direct b) ++ checks b)
unfolding setup
writes-Consecutive b =
    let size = length-direct b 3 (allow_direct b) in
    let here = checks-Consecutive b in
    let rest =
      Consecutive-append 3 (direct b 3 (allow_direct b)) (checks b)
        (direct-Consecutive b 3 (allow_direct b)) (rw size here) in
    (refl, (refl, (refl, rest)))

length-writes :
    (b : Build) → length (setup b ++ direct b 3 (allow_direct b) ++ checks b) ≡ prog_len b
unfolding setup checks
length-writes b = omega (
  arith,
  length-append (direct b 3 (allow_direct b)) (checks b),
  length-direct b 3 (allow_direct b),
)

write_all-fresh :
    (z : SockFilter) (writes : List (ℕ × SockFilter)) (n : ℕ)
    → length writes ≡ n
    → Consecutive 0 writes
    → write_all writes (replicate n z) ≡ map stored writes
write_all-fresh z writes n e c = let filled = write_all-Consecutive z writes [] c in rw e at filled

pub build_prog-tests :
    (b : Build)
    → prog_len b ≤ 256
    → build_prog b
      ≡ load data_arch
        ∷ jeq 0 (length (allow_direct b) + 15) (audit_arch b)
        ∷ load data_nr
        ∷ (direct_tests 15 (allow_direct b) ++ check_tests b)
unfolding build_prog setup
build_prog-tests b h =
    let z : SockFilter = record { code = 0; jt = 0; jf = 0; k = 0 } in
    let filled =
      write_all-fresh z (setup b ++ direct b 3 (allow_direct b) ++ checks b) (prog_len b)
        (length-writes b) (writes-Consecutive b) in
    let mapped = map-append stored (direct b 3 (allow_direct b)) (checks b) in
    let lands =
      jmp_lem 1 (i_ret_deny b) (length (allow_direct b) + 15) (omega arith) (omega arith) in
    let directs = direct-direct_tests b 3 (allow_direct b) refl (omega arith) in
    filled ∙ rw (lands, mapped, directs, checks-check_tests b) refl
