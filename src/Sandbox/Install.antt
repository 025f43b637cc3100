-- ===== src/Sandbox/Install.antt =====
-- src/sandbox.rs: install and what it calls, as calls of a kernel that answers each one. A trace
-- holds the calls that were made, the last one first. The feature's own handler is sigsys_message,
-- the text that it prints.
use ltop.Base.{
  ℕ, zero, suc, ◌+◌, ◌-◌, ◌/◌, ◌%◌, ◌^◌, Bool, true, false, Option, none, some, List, [], ◌∷◌, ◌++◌,
  ◌==◌, if◌then◌else◌, take, set,
}
use ltop.Display.Text.{codes}
use ltop.Sandbox.{Build, prog_len}

abbrev pub read_file : ℕ
read_file = 2 ^ 2

abbrev pub read_dir : ℕ
read_dir = 2 ^ 3

abbrev pub remove_file : ℕ
remove_file = 2 ^ 5

abbrev pub all_v1 : ℕ
all_v1 = 2 ^ 13 - 1

-- The calls, with the arguments that say what is asked for.
pub data Call : Type 0 where
  rt_sigaction : ℕ → Call
  set_no_new_privs : Call
  create_ruleset : ℕ → Call
  open_proc : Call
  add_path_beneath : ℕ → ℕ → ℕ → Call
  close_fd : ℕ → Call
  restrict_self : ℕ → Call
  set_mode_filter : ℕ → Call
  write_stderr : List ℕ → Call
  exit_group : ℕ → Call

-- A result of zero or more, or the errno of a negative one.
pub data Answer : Type 0 where
  done : ℕ → Answer
  errno : ℕ → Answer

-- The process goes on with a value, or has ended. Both have the trace.
pub data Outcome (A : Type 0) : Type 0 where
  goes : A → List Call → Outcome A
  ended : List Call → Outcome A

abbrev pub M : Type 0 → Type 0
M A = List Call → Outcome A

abbrev pub after : {A B : Type 0} → Outcome A → (A → M B) → Outcome B
after (goes a t) f = f a t
after (ended t) f = ended t

infixl 5 ◌>>=◌ ◌>>◌
abbrev pub ◌>>=◌ : {A B : Type 0} → M A → (A → M B) → M B
◌>>=◌ m f t = after (m t) f

abbrev pub ◌>>◌ : {A B : Type 0} → M A → M B → M B
m >> k = m >>= λ _. k

-- The text of fail, with the step and the last three digits of the errno.
unfoldable pub fail_message : ℕ → ℕ → List ℕ
fail_message s e =
    let buf = set (codes "ltop: sandbox install failed (? err=000)\n") 30 s in
    let v = e % 2 ^ 32 % 1000 in
    set (set (set buf 36 (b'0' + v / 100)) 37 (b'0' + v / 10 % 10)) 38 (b'0' + v % 10)

-- The fixed buffer of the handler: what does not fit is left out.
unfoldable pub append : List ℕ → List ℕ → List ℕ
append buf bytes = take 48 (buf ++ bytes)

-- The digits of the number in front of `tail`, as the loop writes them from the right, on fuel for
-- the digits of a u64.
unfoldable pub digits_before : ℕ → ℕ → List ℕ → List ℕ
digits_before zero v tail = tail
digits_before (suc fuel) v tail =
    let more = digits_before fuel (v / 10) ((b'0' + v % 10) ∷ tail) in if v == 0 then tail else more

-- The sign and the size of the number of the call that was blocked.
unfoldable pub sigsys_message : Bool → ℕ → List ℕ
unfolding append digits_before
sigsys_message neg v =
    let prefix = append [] (codes "ltop: blocked syscall ") in
    let signed = if neg then append prefix (codes "-") else prefix in
    let digits = if v == 0 then b'0' ∷ [] else digits_before 20 v [] in
    append (append signed digits) (codes "\n")

module _ (kernel : List Call → Call → Answer) where
  unfoldable pub call : Call → M Answer
  call c t = goes (kernel t c) (c ∷ t)

  unfoldable pub fail : ℕ → ℕ → M ℕ
  unfolding fail_message
  fail s e t = ended (exit_group 2 ∷ write_stderr (fail_message s e) ∷ t)

  -- `if r < 0 { fail(s, r) }`.
  unfoldable pub check : ℕ → Answer → M ℕ
  unfolding fail
  check s (done n) t = goes n t
  check s (errno e) t = fail s e t

  unfoldable pub checked : ℕ → Call → M ℕ
  unfolding call check
  checked s c = do r ← call c; check s r

  unfoldable pub add_rule : ℕ → ℕ → ℕ → M ℕ
  unfolding checked
  add_rule rs parent_fd access = checked b'5' (add_path_beneath rs parent_fd access)

  unfoldable pub label_rule : ℕ → Option ℕ → M ℕ
  unfolding add_rule
  label_rule rs none t = goes 0 t
  label_rule rs (some label_dir) t = add_rule rs label_dir (read_file + read_dir + remove_file) t

  -- `label_dir` is none if the source's is negative.
  unfoldable pub install_landlock : Option ℕ → M ℕ
  unfolding checked add_rule label_rule call check
  install_landlock label_dir = do
    rs ← checked b'3' (create_ruleset all_v1)
    proc_fd ← checked b'4' open_proc
    add_rule rs proc_fd (read_file + read_dir)
    call (close_fd proc_fd)
    label_rule rs label_dir
    r ← call (restrict_self rs)
    call (close_fd rs)
    check b'6' r

  unfoldable pub install_seccomp : Build → M ℕ
  unfolding checked
  install_seccomp b = checked b'2' (set_mode_filter (prog_len b % 2 ^ 16))

  unfoldable pub install_sigsys_handler : Bool → M ℕ
  unfolding checked
  install_sigsys_handler false t = goes 0 t
  install_sigsys_handler true t = checked b'7' (rt_sigaction 31) t

  unfoldable pub install : Build → Option ℕ → M ℕ
  unfolding install_sigsys_handler checked install_landlock install_seccomp
  install b label_dir = do
    install_sigsys_handler b.trap
    checked b'1' set_no_new_privs
    install_landlock label_dir
    install_seccomp b
