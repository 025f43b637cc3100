-- ===== src/Sandbox/Verdict.antt =====
-- src/sandbox.rs: what the filter answers, against the policy that the comments of the file state.
use Prim.Native.Nat.{bit_and}
use ltop.Base.{
  ℕ, zero, suc, ◌+◌, ◌≤◌, ◌≡◌, refl, ap, ◌∙◌, arith, Bool, true, false, ◌&&◌, ◌||◌, Option, some,
  List, [], ◌∷◌, ◌++◌, ◌==◌, if◌then◌else◌, length, drop, Bool-cases, inl, inr,
}
use ltop.Bytes.{has}
use ltop.Sandbox.{
  Arch, x86_64, aarch64, direct_of, Build, SockFilter, load, jeq, SeccompData, run, verdict,
  audit_arch, allow_direct, sys_write, sys_openat, sys_ioctl, deny_action, ret_allow, prog_len,
  data_nr, data_arch, arg0_lo, arg1_lo, arg2_lo, openat_deny_flags, tiocgwinsz, tcsets,
  rm_ioctl_mask, rm_ioctl_value,
}
use ltop.Sandbox.Layout.{direct_tests, check_tests, build_prog-tests}

-- The policy for the calls whose arguments are filtered, and the whole policy.
abbrev pub permits_filtered : Build → SeccompData → Bool
permits_filtered b words =
    if words data_nr == sys_write b
    then words arg0_lo == 1 || words arg0_lo == 2
    else if words data_nr == sys_openat b
    then bit_and (words arg2_lo) openat_deny_flags == 0
    else if words data_nr == sys_ioctl b
    then words arg1_lo == tiocgwinsz
      || (words arg1_lo == tcsets || bit_and (words arg1_lo) rm_ioctl_mask == rm_ioctl_value)
    else false

abbrev pub permits : Build → SeccompData → Bool
permits b words =
    words data_arch == audit_arch b
    && (has (allow_direct b) (words data_nr) || permits_filtered b words)

run_skip :
    (xs ys : List SockFilter) (skip k a : ℕ) (words : SeccompData)
    → skip ≡ length xs + k
    → run skip (xs ++ ys) a words ≡ run k ys a words
unfolding run
run_skip [] ys skip k a words e = ap (λ (t : ℕ). run t ys a words) (omega arith)
run_skip (x ∷ xs) ys zero k a words e = absurd (omega arith)
run_skip (x ∷ xs) ys (suc skip) k a words e = run_skip xs ys skip k a words (omega arith)

length-direct_tests : (after : ℕ) (nrs : List ℕ) → length (direct_tests after nrs) ≡ length nrs
length-direct_tests after [] = refl
length-direct_tests after (nr ∷ nrs) = ap suc (length-direct_tests after nrs)

==_sym : (a c : ℕ) → (a == c) ≡ (c == a)
==_sym a c = ground arith

run-jeq :
    (jt jf k : ℕ) (prog : List SockFilter) (a : ℕ) (words : SeccompData)
    → run 0 (jeq jt jf k ∷ prog) a words ≡ run (if a == k then jt else jf) prog a words
unfolding run
run-jeq jt jf k prog a words = refl

-- Each of the four builds has a program of 30 instructions or fewer.
length-direct_of : (a : Arch) (trap : Bool) → length (direct_of a trap) ≤ 11
unfolding direct_of
length-direct_of x86_64 true = omega arith
length-direct_of x86_64 false = omega arith
length-direct_of aarch64 true = omega arith
length-direct_of aarch64 false = omega arith

pub prog_fits : (b : Build) → prog_len b ≤ 256
unfolding allow_direct
prog_fits b = omega (arith, length-direct_of b.arch b.trap)

module _ (b : Build) (words : SeccompData) where
  abbrev answer : Bool → Option ℕ
  answer t = some (if t then ret_allow else deny_action b)

  run-check_write :
      run 2 (drop 1 (check_tests b)) (words data_nr) words
      ≡ answer (words arg0_lo == 1 || words arg0_lo == 2)
  unfolding run
  run-check_write = elim (Bool-cases (words arg0_lo == 1)) [
    | inl e ↦ rw e refl
    | inr n ↦ elim (Bool-cases (words arg0_lo == 2)) [
      | inl e ↦ rw (n, e) refl
      | inr m ↦ rw (n, m) refl
    ]
  ]

  run-check_openat :
      run 4 (drop 2 (check_tests b)) (words data_nr) words
      ≡ answer (bit_and (words arg2_lo) openat_deny_flags == 0)
  unfolding run
  run-check_openat = elim (Bool-cases (bit_and (words arg2_lo) openat_deny_flags == 0)) [
    | inl e ↦ rw e refl
    | inr n ↦ rw n refl
  ]

  run-check_ioctl :
      run 6 (drop 3 (check_tests b)) (words data_nr) words
      ≡ answer (
          words arg1_lo == tiocgwinsz
          || (words arg1_lo == tcsets || bit_and (words arg1_lo) rm_ioctl_mask == rm_ioctl_value))
  unfolding run
  run-check_ioctl = elim (Bool-cases (words arg1_lo == tiocgwinsz)) [
    | inl e ↦ rw e refl
    | inr n ↦ elim (Bool-cases (words arg1_lo == tcsets)) [
      | inl e ↦ rw (n, e) refl
      | inr m ↦ elim (Bool-cases (bit_and (words arg1_lo) rm_ioctl_mask == rm_ioctl_value)) [
        | inl e ↦ rw (n, m, e) refl
        | inr l ↦ rw (n, m, l) refl
      ]
    ]
  ]

  run-check_tests : run 0 (check_tests b) (words data_nr) words ≡ answer (permits_filtered b words)
  run-check_tests =
      run-jeq 2 0 (sys_write b) (drop 1 (check_tests b)) (words data_nr) words
      ∙ elim (Bool-cases (words data_nr == sys_write b)) [
        | inl e ↦ rw e run-check_write
        | inr n ↦ rw n (
            run-jeq 4 0 (sys_openat b) (drop 2 (check_tests b)) (words data_nr) words
            ∙ elim (Bool-cases (words data_nr == sys_openat b)) [
              | inl e ↦ rw e run-check_openat
              | inr m ↦ rw m (
                  run-jeq 6 11 (sys_ioctl b) (drop 3 (check_tests b)) (words data_nr) words
                  ∙ elim (Bool-cases (words data_nr == sys_ioctl b)) [
                    | inl e ↦ rw e run-check_ioctl
                    | inr l ↦ rw l (unfold run in refl)
                  ])
            ])
      ]

  -- The distance counts the tests behind it and the instructions up to the one that allows.
  run-direct_tests :
      (nrs : List ℕ)
      → run 0 (direct_tests 15 nrs ++ check_tests b) (words data_nr) words
        ≡ answer (has nrs (words data_nr) || permits_filtered b words)
  unfolding has
  run-direct_tests [] = run-check_tests
  run-direct_tests (nr ∷ nrs) =
      run-jeq (length nrs + 15) 0 nr (direct_tests 15 nrs ++ check_tests b) (words data_nr) words
      ∙ elim (Bool-cases (words data_nr == nr)) [
        | inl e ↦
            rw (e, ==_sym nr (words data_nr), e)
              (run_skip (direct_tests 15 nrs) (check_tests b) (length nrs + 15) 15 (words data_nr)
                  words (omega (arith, length-direct_tests 15 nrs))
                ∙ unfold run in refl)
        | inr n ↦ rw (n, ==_sym nr (words data_nr), n) (run-direct_tests nrs)
      ]

-- For every build and every call, the filter returns a verdict: it lets the call pass exactly
-- if the policy permits it.
pub verdict-permits :
    (b : Build) (words : SeccompData)
    → verdict b words ≡ some (if permits b words then ret_allow else deny_action b)
unfolding verdict run
verdict-permits b words =
    let n = length (allow_direct b) in
    let tests = direct_tests 15 (allow_direct b) in
    let behind = length-direct_tests 15 (allow_direct b) in
    rw (build_prog-tests b (prog_fits b)) (elim (Bool-cases (words data_arch == audit_arch b)) [
      | inl e ↦ rw e (run-direct_tests b words (allow_direct b))
      | inr m ↦ rw m (
          run_skip (load data_nr ∷ tests) (check_tests b) (n + 15) 14 (words data_arch) words
            (omega arith))
    ])
