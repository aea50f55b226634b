-- ===== src/Sched/Boot.antt =====
-- The first timer interrupts, in which task_switch of student-distrib/sched.c starts a shell on each terminal:
-- its loop with execute of student-distrib/system_call.c.
use lime_os.Prelude.{
  ℕ, zero, suc, ◌+◌, ◌<◌, ◌≤◌, ◌≡◌, ◌≢◌, sym, ap, ◌∙◌, subst, true, false, Bool-cases, inl, inr,
  some, ◌==◌, if◌then◌else◌, update, update_self, update_ne, arith,
}
use mathlib.Core.Option.{some-injective}
use lime_os.Process.{Kernel, pcb, free, first_free}
use lime_os.Execute.{
  Stack, Executed, refused, enters, overflows, out_of_rounds, execute, shell_name,
}
use lime_os.Execute.Return.{Enters, EntersOr, execute-Enters}
use lime_os.Sched.{save_context, start_shell, show_first, switch_to_next}

-- How task_switch ends when its calls of execute are followed: in a new shell at its first instruction, in the
-- next process, or in a failure of execute's.
pub data Timer : Type 0 where
  enters_shell : ℕ → Kernel → Timer
  resumed : Kernel → Timer
  fails : Timer

-- If execute returns, the loop goes on.
abbrev after_execute : (Kernel → Timer) → Executed → Timer
after_execute rest (refused ret k) = rest k
after_execute rest (enters eip k) = enters_shell eip k
after_execute rest overflows = fails
after_execute rest out_of_rounds = fails

-- The loop, with its rounds left, and what follows it.
unfoldable pub start_shells : ℕ → ℕ → Stack → Kernel → Timer
start_shells zero i l k = resumed (switch_to_next (show_first k))
start_shells (suc n) i l k =
    let rest = start_shells n (i + 1) l in
    if k.pid_flags i == free
    then after_execute rest (execute l (start_shell k i) (some shell_name))
    else rest k

-- task_switch with its calls of execute.
unfoldable pub timer_switch : Stack → Kernel → Timer
timer_switch l k = start_shells 3 0 l (save_context k)

-- The first free one is found.
first_free-finds :
    (m i n : ℕ) (flags : ℕ → ℕ)
    → i ≤ n
    → n < i + m
    → ((j : ℕ) → j < n → (flags j == free) ≡ false)
    → flags n ≡ free
    → first_free m i flags ≡ some n
unfolding first_free
first_free-finds zero i n flags lo hi used is_free = absurd (omega arith)
first_free-finds (suc m) i n flags lo hi used is_free = elim (Bool-cases (i == n)) [
  | inl here ↦
      let e : i ≡ n = ground arith in
      let found : (flags i == free) ≡ true =
        ap (λ x. flags x == free) e ∙ ap (λ f. f == free) is_free in
      rw found (ap some e)
  | inr other ↦
      let below : i < n = ground arith in
      rw (used i below)
        (first_free-finds m (i + 1) n flags (ground arith) (omega arith) used is_free)
]

-- The loop reaches the first free one, and ends in its shell.
start_shells-enters :
    (m i n : ℕ) (l : Stack) (k r : Kernel) (eip : ℕ)
    → i ≤ n
    → n < i + m
    → ((j : ℕ) → j < n → (k.pid_flags j == free) ≡ false)
    → k.pid_flags n ≡ free
    → execute l (start_shell k n) (some shell_name) ≡ enters eip r
    → start_shells m i l k ≡ enters_shell eip r
unfolding start_shells
start_shells-enters zero i n l k r eip lo hi used is_free he = absurd (omega arith)
start_shells-enters (suc m) i n l k r eip lo hi used is_free he = elim (Bool-cases (i == n)) [
  | inl here ↦
      let e : n ≡ i = ground arith in
      let found : (k.pid_flags i == free) ≡ true =
        ap (λ x. k.pid_flags x == free) (sym e) ∙ ap (λ f. f == free) is_free in
      rw found (
        ap (after_execute (start_shells m (i + 1) l))
          (ap (λ x. execute l (start_shell k x) (some shell_name)) (sym e) ∙ he))
  | inr other ↦
      let below : i < n = ground arith in
      rw (used i below)
        (start_shells-enters m (i + 1) n l k r eip (ground arith) (omega arith) used is_free he)
]

-- The shells of the terminals below `n` have been started.
pub record Booting (n : ℕ) (k : Kernel) : Type 0 where
  pub turn : k.pit_terminal_num ≡ 0
  pub in_use : (i : ℕ) → i < n → (k.pid_flags i == free) ≡ false
  pub still_free : (i : ℕ) → n ≤ i → i < 3 → k.pid_flags i ≡ free
  pub pids : (i : ℕ) → i < n → k.execute_pid i ≡ i

-- A shell that a timer interrupt started on terminal `n`.
pub record Starts (n : ℕ) (k r : Kernel) : Type 0 where
  pub now : r.current_pid ≡ n
  pub booting : Booting (n + 1) r
  pub all_started : r.terminals_initialized ≡ (if n == 2 then 1 else k.terminals_initialized)
  pub others : (p : ℕ) → p ≢ n → r.pcbs p ≡ (save_context k).pcbs p
  pub own_parent : (pcb r).parent_id ≡ n
  pub own_terminal : (pcb r).tty ≡ n

pub timer_switch-Starts :
    (l : Stack) (n : ℕ) (k r : Kernel) (eip : ℕ)
    → n < 3
    → Booting n k
    → execute l (start_shell (save_context k) n) (some shell_name) ≡ enters eip r
    → (timer_switch l k ≡ enters_shell eip r) × Starts n k r
unfolding timer_switch start_shell save_context
timer_switch-Starts l n k r eip small b he = (
  start_shells-enters 3 0 n l (save_context k) r eip (omega arith) (omega arith) b.in_use
      (b.still_free n (omega arith) small) he,
  record {
    now = here;
    booting = record {
      turn = e.same_turn ∙ b.turn;
      in_use = λ i hi. ap (λ (f : ℕ → ℕ). f i == free) flags ∙ used i hi;
      still_free = λ i lo hi.
          ap (λ (f : ℕ → ℕ). f i) flags
          ∙ update_ne k.pid_flags n i 1 (λ x. absurd (omega (arith, x, lo)))
          ∙ b.still_free i (omega arith) hi;
      pids = λ i hi. ap (λ (f : ℕ → ℕ). f i) terminals ∙ own i hi;
    };
    all_started = e.same_started;
    others = λ p ne. e.others p (λ x. ne (x ∙ here));
    own_parent = e.parent;
    own_terminal = e.own_terminal;
  },
)
  where
    e : Enters (start_shell (save_context k) n) r
    e =
        subst (EntersOr (start_shell (save_context k) n)) he
          (execute-Enters l (start_shell (save_context k) n) (some shell_name))

    here : r.current_pid ≡ n
    here = some-injective _ _ (
        sym e.least
        ∙ first_free-finds 6 0 n k.pid_flags (omega arith) (omega arith) b.in_use
            (b.still_free n (omega arith) small))

    flags : r.pid_flags ≡ update k.pid_flags n 1
    flags = e.flags ∙ ap (λ p. update k.pid_flags p 1) here

    terminals : r.execute_pid ≡ update k.execute_pid n n
    terminals = e.terminals ∙ ap (λ p. update k.execute_pid n p) here

    used : (i : ℕ) → i < n + 1 → (update k.pid_flags n 1 i == free) ≡ false
    used i hi = elim (Bool-cases (i == n)) [
      | inl same ↦
          let at : i ≡ n = ground arith in
          ap (λ x. update k.pid_flags n 1 x == free) at
          ∙ ap (λ f. f == free) (update_self k.pid_flags n 1)
      | inr other ↦
          ap (λ f. f == free) (update_ne k.pid_flags n i 1 (λ x. absurd (ground arith)))
          ∙ b.in_use i (ground arith)
    ]

    own : (i : ℕ) → i < n + 1 → update k.execute_pid n n i ≡ i
    own i hi = elim (Bool-cases (i == n)) [
      | inl same ↦
          let at : i ≡ n = ground arith in
          ap (λ x. update k.execute_pid n n x) at ∙ update_self k.execute_pid n n ∙ sym at
      | inr other ↦
          update_ne k.execute_pid n i n (λ x. absurd (ground arith)) ∙ b.pids i (ground arith)
    ]
