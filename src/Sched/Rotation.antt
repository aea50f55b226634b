-- ===== src/Sched/Rotation.antt =====
-- The round robin of student-distrib/sched.c.
use lime_os.Prelude.{
  ℕ, ◌+◌, ◌%◌, ◌<◌, ◌≡◌, ◌≢◌, refl, ap, ◌∙◌, sym, none, subst, ◌==◌, update_self, update_ne, arith,
  Bool-cases, inl, inr, false,
}
use lime_os.Process.{Kernel, Pcb, program_mapping, first_free}
use lime_os.Sched.{
  Switch, starts_shell, switched, save_context, show_first, switch_to_next, task_switch,
  finish_switch,
}

-- The saved registers of a control block.
abbrev pub context : Pcb → ℕ × ℕ × ℕ
context p = (p.sched_esp, p.sched_ebp, p.sched_esp0)

-- The registers that a switch stores and loads.
abbrev pub registers_of : Kernel → ℕ × ℕ × ℕ
registers_of k = (k.esp, k.ebp, k.esp0)

-- The three terminals run three different processes, none of the pids 0 to 2 is free, and the process
-- that runs is the one of the scheduler's terminal.
pub record IsScheduled (k : Kernel) : Type 0 where
  pub in_range : k.pit_terminal_num < 3
  pub running : k.current_pid ≡ k.execute_pid k.pit_terminal_num
  pub different : (i j : ℕ) → i < 3 → j < 3 → i ≢ j → k.execute_pid i ≢ k.execute_pid j
  pub started : (i : ℕ) → i < 3 → (k.pid_flags i == 0) ≡ false

-- What one process's running may not touch: whose turn it is, the processes of the terminals, and the
-- saved registers of the others. All else may change, its own registers among it.
pub record RunsOn (k r : Kernel) : Type 0 where
  pub same_turn : r.pit_terminal_num ≡ k.pit_terminal_num
  pub same_pid : r.current_pid ≡ k.current_pid
  pub same_terminals : (i : ℕ) → r.execute_pid i ≡ k.execute_pid i
  pub same_flags : (i : ℕ) → r.pid_flags i ≡ k.pid_flags i
  pub same_contexts : (p : ℕ) → p ≢ k.current_pid → context (r.pcbs p) ≡ context (k.pcbs p)

-- What a switch does to the fields that the next switches read.
record Switches (k r : Kernel) : Type 0 where
  turn : r.pit_terminal_num ≡ (k.pit_terminal_num + 1) % 3
  now : r.current_pid ≡ k.execute_pid ((k.pit_terminal_num + 1) % 3)
  terminals : (i : ℕ) → r.execute_pid i ≡ k.execute_pid i
  flags : (i : ℕ) → r.pid_flags i ≡ k.pid_flags i
  saved : context (r.pcbs k.current_pid) ≡ registers_of k
  others : (p : ℕ) → p ≢ k.current_pid → context (r.pcbs p) ≡ context (k.pcbs p)
  loaded : registers_of r ≡ context (r.pcbs r.current_pid)
  mapped : r.program_entry ≡ program_mapping r.current_pid

first_free-none : (f : ℕ → ℕ) → ((i : ℕ) → i < 3 → (f i == 0) ≡ false) → first_free 3 0 f ≡ none
unfolding first_free
first_free-none f h = rw (h 0 (omega arith), h 1 (omega arith), h 2 (omega arith)) refl

next_lem : (k : Kernel) → Switches k (switch_to_next (show_first (save_context k)))
unfolding save_context show_first switch_to_next
next_lem k = elim (Bool-cases (k.terminals_initialized == 0)) [
  | inl e ↦ rw e (record {
    turn = refl;
    now = refl;
    terminals = λ i. refl;
    flags = λ i. refl;
    saved = ap context (update_self k.pcbs k.current_pid _);
    others = λ p h. ap context (update_ne k.pcbs k.current_pid p _ (λ e. h (sym e)));
    loaded = refl;
    mapped = refl;
  })
  | inr e ↦ rw e (record {
    turn = refl;
    now = refl;
    terminals = λ i. refl;
    flags = λ i. refl;
    saved = ap context (update_self k.pcbs k.current_pid _);
    others = λ p h. ap context (update_ne k.pcbs k.current_pid p _ (λ e. h (sym e)));
    loaded = refl;
    mapped = refl;
  })
]

task_switch_lem :
    (k : Kernel) → IsScheduled k → (r : Kernel) × (task_switch k ≡ switched r) × Switches k r
unfolding task_switch
task_switch_lem k h = (
  switch_to_next (show_first (save_context k)),
  ap (finish_switch (save_context k)) (first_free-none k.pid_flags h.started),
  next_lem k,
)

RunsOn-IsScheduled : (k r : Kernel) → IsScheduled k → RunsOn k r → IsScheduled r
RunsOn-IsScheduled k r h run = record {
  in_range = rw (run.same_turn) h.in_range;
  running = rw (run.same_pid, run.same_turn, run.same_terminals) h.running;
  different =
      λ i j hi hj ne. rw (run.same_terminals i, run.same_terminals j) (h.different i j hi hj ne);
  started = λ i hi. rw (run.same_flags) (h.started i hi);
}

Switches-IsScheduled : (k r : Kernel) → IsScheduled k → Switches k r → IsScheduled r
Switches-IsScheduled k r h s = record {
  in_range = rw (s.turn) (omega arith);
  running = rw (s.now, s.turn, s.terminals) refl;
  different = λ i j hi hj ne. rw (s.terminals i, s.terminals j) (h.different i j hi hj ne);
  started = λ i hi. rw (s.flags) (h.started i hi);
}

abbrev kernel_of : Switch → Kernel
kernel_of (starts_shell k) = k
kernel_of (switched k) = k

Switches-of : (k r : Kernel) → IsScheduled k → task_switch k ≡ switched r → Switches k r
Switches-of k r h e =
    let (q, eq, s) = task_switch_lem k h in subst (Switches k) (ap kernel_of (sym eq ∙ e)) s

-- With a process on each terminal, task_switch goes to the process of the next terminal in turn, loads
-- the registers that its control block holds, maps its page, and leaves a kernel that can switch again.
pub task_switch-next :
    (k : Kernel)
    → IsScheduled k
    → (r : Kernel) × (task_switch k ≡ switched r)
      × IsScheduled r
      × (r.pit_terminal_num ≡ (k.pit_terminal_num + 1) % 3)
      × (registers_of r ≡ context (r.pcbs r.current_pid))
      × (r.program_entry ≡ program_mapping r.current_pid)
task_switch-next k h =
    let (r, e, s) = task_switch_lem k h in
    (r, e, Switches-IsScheduled k r h s, s.turn, s.loaded, s.mapped)

-- With three different processes on the three terminals, a process that is switched away comes back at
-- the third switch with its registers, its kernel stack and its page, whatever the two others did while
-- they ran to anything but the turn, the flags of the pids, the processes of the terminals and the
-- saved registers of those that did not run.
pub three_switches :
    (k k1 a k2 b r : Kernel)
    → IsScheduled k
    → task_switch k ≡ switched k1
    → RunsOn k1 a
    → task_switch a ≡ switched k2
    → RunsOn k2 b
    → task_switch b ≡ switched r
    → (r.current_pid ≡ k.current_pid)
      × (registers_of r ≡ registers_of k)
      × (r.program_entry ≡ program_mapping k.current_pid)
      × (r.pit_terminal_num ≡ k.pit_terminal_num)
three_switches k k1 a k2 b r h e1 run1 e2 run2 e3 =
    (back, registers, s3.mapped ∙ ap program_mapping back, turn3)
  where
    s1 : Switches k k1
    s1 = Switches-of k k1 h e1

    ha : IsScheduled a
    ha = RunsOn-IsScheduled k1 a (Switches-IsScheduled k k1 h s1) run1

    s2 : Switches a k2
    s2 = Switches-of a k2 ha e2

    hb : IsScheduled b
    hb = RunsOn-IsScheduled k2 b (Switches-IsScheduled a k2 ha s2) run2

    s3 : Switches b r
    s3 = Switches-of b r hb e3

    t0 : ℕ
    t0 = k.pit_terminal_num

    turn_a : a.pit_terminal_num ≡ (t0 + 1) % 3
    turn_a = run1.same_turn ∙ s1.turn

    turn_b : b.pit_terminal_num ≡ ((t0 + 1) % 3 + 1) % 3
    turn_b = run2.same_turn ∙ s2.turn ∙ ap (λ t. (t + 1) % 3) turn_a

    turn3 : r.pit_terminal_num ≡ t0
    turn3 = s3.turn ∙ ap (λ t. (t + 1) % 3) turn_b ∙ omega (arith, h.in_range)

    of_b : (i : ℕ) → b.execute_pid i ≡ k.execute_pid i
    of_b i = run2.same_terminals i ∙ s2.terminals i ∙ run1.same_terminals i ∙ s1.terminals i

    of_a : (i : ℕ) → a.execute_pid i ≡ k.execute_pid i
    of_a i = run1.same_terminals i ∙ s1.terminals i

    back : r.current_pid ≡ k.current_pid
    back = s3.now ∙ ap b.execute_pid (sym s3.turn ∙ turn3) ∙ of_b t0 ∙ sym h.running

    pid_a : a.current_pid ≡ k.execute_pid ((t0 + 1) % 3)
    pid_a = run1.same_pid ∙ s1.now

    pid_b : b.current_pid ≡ k.execute_pid (((t0 + 1) % 3 + 1) % 3)
    pid_b = ha' ∙ of_b (((t0 + 1) % 3 + 1) % 3)
      where
        ha' : b.current_pid ≡ b.execute_pid (((t0 + 1) % 3 + 1) % 3)
        ha' = hb.running ∙ ap b.execute_pid turn_b

    not_a : k.current_pid ≢ a.current_pid
    not_a e =
        h.different t0 ((t0 + 1) % 3) h.in_range (omega arith) (omega (arith, h.in_range))
          (sym h.running ∙ e ∙ pid_a)

    not_b : k.current_pid ≢ b.current_pid
    not_b e =
        h.different t0 (((t0 + 1) % 3 + 1) % 3) h.in_range (omega arith) (omega (arith, h.in_range))
          (sym h.running ∙ e ∙ pid_b)

    registers : registers_of r ≡ registers_of k
    registers =
        s3.loaded
        ∙ ap (λ p. context (r.pcbs p)) back
        ∙ s3.others k.current_pid not_b
        ∙ run2.same_contexts k.current_pid (λ e. not_b (e ∙ sym run2.same_pid))
        ∙ s2.others k.current_pid not_a
        ∙ run1.same_contexts k.current_pid (λ e. not_a (e ∙ sym run1.same_pid))
        ∙ s1.saved
