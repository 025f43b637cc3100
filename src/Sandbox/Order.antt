-- ===== src/Sandbox/Order.antt =====
-- src/sandbox.rs, install: the order of its layers, and its failures.
use ltop.Base.{
  ℕ, ◌+◌, ◌≡◌, refl, ap, ◌⊎◌, inl, inr, arith, Bool, true, false, Option, none, some, List, [], ◌∷◌,
  ◌%◌, ◌^◌,
}
use ltop.Sandbox.{Build, prog_len}
use ltop.Sandbox.Verdict.{prog_fits}
use ltop.Sandbox.Install.{
  Call, rt_sigaction, set_no_new_privs, create_ruleset, open_proc, add_path_beneath, close_fd,
  restrict_self, set_mode_filter, write_stderr, exit_group, Answer, done, errno, Outcome, goes,
  ended, M, ◌>>=◌, ◌>>◌, after, fail_message, call, fail, check, checked, add_rule, label_rule,
  install_landlock, install_seccomp, install_sigsys_handler, install, read_file, read_dir,
  remove_file, all_v1,
}

-- The calls of a whole installation, the last one first.
abbrev pub handler_calls : Bool → List Call
handler_calls true = rt_sigaction 31 ∷ []
handler_calls false = []

abbrev pub label_calls : ℕ → Option ℕ → List Call → List Call
label_calls rs none t = t
label_calls rs (some label_dir) t =
    add_path_beneath rs label_dir (read_file + read_dir + remove_file) ∷ t

abbrev pub landlock_calls : Option ℕ → ℕ → ℕ → List Call → List Call
landlock_calls label_dir rs proc_fd t =
    close_fd rs
    ∷ restrict_self rs
    ∷ label_calls rs label_dir (
        close_fd proc_fd
        ∷ add_path_beneath rs proc_fd (read_file + read_dir)
        ∷ open_proc
        ∷ create_ruleset all_v1
        ∷ t)

abbrev pub install_calls : Build → Option ℕ → ℕ → ℕ → List Call
install_calls b label_dir rs proc_fd =
    set_mode_filter (prog_len b)
    ∷ landlock_calls label_dir rs proc_fd (set_no_new_privs ∷ handler_calls b.trap)

module _ (kernel : List Call → Call → Answer) where
  -- The kernel granted every call, but for the closing of descriptors.
  abbrev pub Granted : List Call → Type 0
  Granted [] = Unit {0}
  Granted (close_fd d ∷ t) = Granted t
  Granted (c ∷ t) = ((n : ℕ) × (kernel t c ≡ done n)) × Granted t

  -- The process has ended with an error and the message of the step.
  abbrev pub Failed : List Call → Type 0
  Failed t =
      (s : ℕ) × (e : ℕ) × (made : List Call) × (t
        ≡ exit_group 2 ∷ write_stderr (fail_message s e) ∷ made)

  abbrev pub Ends : {A : Type 0} (Good : A → List Call → Type 0) → Outcome A → Type 0
  Ends Good (goes a t) = Good a t
  Ends Good (ended t) = Failed t

  Answer-cases : (a : Answer) → ((n : ℕ) × (a ≡ done n)) ⊎ ((e : ℕ) × (a ≡ errno e))
  Answer-cases (done n) = inl (n, refl)
  Answer-cases (errno e) = inr (e, refl)

  -- A checked call, and what follows.
  Ends-checked :
      {A : Type 0} (Good : A → List Call → Type 0) (s : ℕ) (c : Call) (f : ℕ → M A) (t : List Call)
      → ((n : ℕ) → kernel t c ≡ done n → Ends Good (f n (c ∷ t)))
      → Ends Good ((checked kernel s c >>= f) t)
  unfolding checked call check fail
  Ends-checked Good s c f t k = elim (Answer-cases (kernel t c)) [
    | inl (n, e) ↦ rw (e, check) (k n e)
    | inr (n, e) ↦ rw (e, check) (s, n, c ∷ t, refl)
  ]

  Ends-last :
      (Good : ℕ → List Call → Type 0) (s : ℕ) (c : Call) (t : List Call)
      → ((n : ℕ) → kernel t c ≡ done n → Good n (c ∷ t))
      → Ends Good (checked kernel s c t)
  unfolding checked call check fail
  Ends-last Good s c t k = elim (Answer-cases (kernel t c)) [
    | inl (n, e) ↦ rw (e, check) (k n e)
    | inr (n, e) ↦ rw (e, check) (s, n, c ∷ t, refl)
  ]

  abbrev pub Installed : Build → Option ℕ → ℕ → List Call → Type 0
  Installed b label_dir n t =
      (rs : ℕ) × (proc_fd : ℕ) × (t ≡ install_calls b label_dir rs proc_fd) × Granted t

  Ends-label_rule :
      {A : Type 0} (Good : A → List Call → Type 0) (rs : ℕ) (label_dir : Option ℕ) (f : ℕ → M A)
      (t : List Call)
      → Granted t
      → ((n : ℕ)
          → Granted (label_calls rs label_dir t)
          → Ends Good (f n (label_calls rs label_dir t)))
      → Ends Good ((label_rule kernel rs label_dir >>= f) t)
  unfolding label_rule add_rule
  Ends-label_rule Good rs none f t g k = k 0 g
  Ends-label_rule Good rs (some label_dir) f t g k =
      Ends-checked Good b'5' (add_path_beneath rs label_dir (read_file + read_dir + remove_file)) f
        t (λ n e. k n ((n, e), g))

  Ends-handler :
      {A : Type 0} (Good : A → List Call → Type 0) (trap : Bool) (f : ℕ → M A)
      → ((n : ℕ) → Granted (handler_calls trap) → Ends Good (f n (handler_calls trap)))
      → Ends Good ((install_sigsys_handler kernel trap >>= f) [])
  unfolding install_sigsys_handler
  Ends-handler Good false f k = k 0 tt
  Ends-handler Good true f k =
      Ends-checked Good b'7' (rt_sigaction 31) f [] (λ n e. k n ((n, e), tt))

  Ends-after :
      {A B : Type 0} (Good : A → List Call → Type 0) (Best : B → List Call → Type 0) (r : Outcome A)
      (f : A → M B)
      → Ends Good r
      → ((a : A) (t : List Call) → Good a t → Ends Best (f a t))
      → Ends Best (after r f)
  Ends-after Good Best (goes a t) f g k = k a t g
  Ends-after Good Best (ended t) f g k = g

  abbrev Landlocked : Option ℕ → List Call → ℕ → List Call → Type 0
  Landlocked label_dir start n t =
      (rs : ℕ) × (proc_fd : ℕ) × (t ≡ landlock_calls label_dir rs proc_fd start) × Granted t

  Ends-restrict :
      (label_dir : Option ℕ) (rs proc_fd : ℕ) (start t : List Call)
      → close_fd rs ∷ restrict_self rs ∷ t ≡ landlock_calls label_dir rs proc_fd start
      → Granted t
      → Ends (Landlocked label_dir start) (
          (call kernel (restrict_self rs) >>= λ r. call kernel (close_fd rs) >> check kernel b'6' r)
            t)
  unfolding call check fail
  Ends-restrict label_dir rs proc_fd start t e g =
      elim (Answer-cases (kernel t (restrict_self rs))) [
        | inl (n, d) ↦ rw (d, check) (rs, proc_fd, e, ((n, d), g))
        | inr (n, d) ↦ rw (d, check) (b'6', n, close_fd rs ∷ restrict_self rs ∷ t, refl)
      ]

  install_landlock-Landlocked :
      (label_dir : Option ℕ) (start : List Call)
      → Granted start
      → Ends (Landlocked label_dir start) (install_landlock kernel label_dir start)
  unfolding install_landlock add_rule
  install_landlock-Landlocked label_dir start g =
      let Good = Landlocked label_dir start in
      Ends-checked Good b'3' (create_ruleset all_v1) _ start (λ rs made.
        let t1 = create_ruleset all_v1 ∷ start in
        Ends-checked Good b'4' open_proc _ t1 (λ proc_fd opened.
          let t2 = open_proc ∷ t1 in
          let proc_rule = add_path_beneath rs proc_fd (read_file + read_dir) in
          Ends-checked Good b'5' proc_rule _ t2 (λ n ruled.
            unfold call in
            Ends-label_rule Good rs label_dir _ (close_fd proc_fd ∷ proc_rule ∷ t2)
              ((n, ruled), ((proc_fd, opened), ((rs, made), g)))
              (λ _ granted.
                Ends-restrict label_dir rs proc_fd start
                  (label_calls rs label_dir (close_fd proc_fd ∷ proc_rule ∷ t2)) refl granted))))

  -- Whatever the kernel answers, install either ends the process with status 2 as its last
  -- call, behind the message of a step, or it has made exactly its calls in their order, from
  -- the handler, if the build has one, over no_new_privs and Landlock to the whole filter,
  -- and each was granted but for the closing of descriptors.
  pub install-Installed :
      (b : Build) (label_dir : Option ℕ)
      → Ends (Installed b label_dir) (install kernel b label_dir [])
  unfolding install install_seccomp
  install-Installed b label_dir =
      let Good = Installed b label_dir in
      Ends-handler Good b.trap _ (λ _ g0.
        let start = set_no_new_privs ∷ handler_calls b.trap in
        Ends-checked Good b'1' set_no_new_privs _ (handler_calls b.trap) (λ n1 e1.
          Ends-after (Landlocked label_dir start) Good _ _
            (install_landlock-Landlocked label_dir start ((n1, e1), g0))
            (λ n t (rs, proc_fd, same, granted).
              let whole : prog_len b % 2 ^ 16 ≡ prog_len b = omega (arith, prog_fits b) in
              rw whole (
                Ends-last Good b'2' (set_mode_filter (prog_len b)) t (λ m set_it. (
                  rs,
                  proc_fd,
                  ap (◌∷◌ (set_mode_filter (prog_len b))) same,
                  ((m, set_it), granted),
                ))))))
