-- ===== src/Sched/Rounds.antt =====
-- The first four timer interrupts: three shells are started, and the fourth goes round them.
mod Tests
use lime_os.Prelude.{
  ℕ, ◌+◌, ◌%◌, ◌<◌, ◌≡◌, ◌≢◌, refl, sym, ap, ap₂, ◌∙◌, subst, false, some, ◌==◌, update_self,
  update_ne, choose, arith,
}
use lime_os.Console.{Console, update_cursor}
use lime_os.Process.{Kernel, pcb, free, terminal_num, with_console, program_mapping}
use lime_os.Execute.{Stack, enters, execute, shell_name}
use lime_os.Sched.{save_context, start_shell, show_first, switch_to_next}
use lime_os.Sched.Rotation.{IsScheduled, RunsOn, registers_of, context}
use lime_os.Sched.Boot.{
  Timer, enters_shell, resumed, start_shells, timer_switch, Booting, Starts, timer_switch-Starts,
}

-- A process that runs starts no other.
runs-Booting : (n : ℕ) (r a : Kernel) → Booting n r → RunsOn r a → Booting n a
runs-Booting n r a b h = record {
  turn = h.same_turn ∙ b.turn;
  in_use = λ i hi. ap (λ f. f == free) (h.same_flags i) ∙ b.in_use i hi;
  still_free = λ i lo hi. h.same_flags i ∙ b.still_free i lo hi;
  pids = λ i hi. h.same_terminals i ∙ b.pids i hi;
}

saved-own : (k : Kernel) → context ((save_context k).pcbs k.current_pid) ≡ registers_of k
unfolding save_context
saved-own k = ap context (update_self k.pcbs k.current_pid _)

saved-other : (k : Kernel) (p : ℕ) → p ≢ k.current_pid → (save_context k).pcbs p ≡ k.pcbs p
unfolding save_context
saved-other k p ne = update_ne k.pcbs k.current_pid p _ (λ e. ne (sym e))

-- What a switch saves stays while the new shell runs.
carried :
    (n p : ℕ) (k r a : Kernel)
    → Starts n k r
    → RunsOn r a
    → p ≢ n
    → context (a.pcbs p) ≡ context ((save_context k).pcbs p)
carried n p k r a s h ne = h.same_contexts p (λ e. ne (e ∙ s.now)) ∙ ap context (s.others p ne)

-- The first terminal is shown, when all shells have been started.
abbrev first_shown : Kernel → Kernel
first_shown k = record (with_console k (record k.keyboard.console { terminal_num = 0 })) {
  terminals_initialized = 0;
}

show_first-all : (k : Kernel) → k.terminals_initialized ≡ 1 → show_first k ≡ first_shown k
unfolding show_first
show_first-all k h = let all : (k.terminals_initialized == 0) ≡ false = ground arith in rw all refl

update_cursor-shown : (c : Console) (x y : ℕ) → (update_cursor c x y).terminal_num ≡ c.terminal_num
unfolding update_cursor
update_cursor-shown c x y =
    choose (λ (d : Console). d.terminal_num ≡ c.terminal_num) _ _ _ (λ _. refl) (λ _. refl)

-- With all shells started, the interrupt goes to the shell of the second terminal.
timer_switch-first :
    (l : Stack) (k : Kernel)
    → Booting 3 k
    → k.terminals_initialized ≡ 1
    → (r : Kernel) × (timer_switch l k ≡ resumed r)
      × IsScheduled r
      × (r.current_pid ≡ 1)
      × (r.program_entry ≡ program_mapping 1)
      × (registers_of r ≡ context ((save_context k).pcbs 1))
      × ((p : ℕ) → r.pcbs p ≡ (save_context k).pcbs p)
      × (terminal_num r ≡ 0)
unfolding timer_switch start_shells switch_to_next save_context
timer_switch-first l k b all = (
  switch_to_next (first_shown (save_context k)),
  rw (b.in_use 0 (omega arith), b.in_use 1 (omega arith), b.in_use 2 (omega arith))
      (ap (λ m. resumed (switch_to_next m)) (show_first-all (save_context k) all)),
  record {
    in_range = omega arith;
    running = refl;
    different = λ i j hi hj ne e. ne (sym (b.pids i hi) ∙ e ∙ b.pids j hj);
    started = b.in_use;
  },
  second,
  ap program_mapping second,
  ap (λ pid. context ((save_context k).pcbs pid)) second,
  λ p. refl,
  update_cursor-shown _ _ _,
)
  where
    second : k.execute_pid ((k.pit_terminal_num + 1) % 3) ≡ 1
    second = ap (λ t. k.execute_pid ((t + 1) % 3)) b.turn ∙ b.pids 1 (omega arith)

-- From a kernel in which the pids 0 to 2 are free and the turn is at the first terminal, each of the first
-- three timer interrupts starts a shell, on a terminal of its own and as its own parent, if execute can enter
-- it; the fourth resumes the second shell where it was interrupted and shows the first terminal, with the
-- registers of the other two saved, and the state is one of the scheduler's rotation. Between the interrupts
-- a process may do anything but to whose turn it is, the processes of the terminals, the flags of the pids
-- and the registers saved, and the third keeps the mark that all shells are started.
pub timer_switch-boots :
    (l : Stack) (k r0 a0 r1 a1 r2 a2 : Kernel) (e0 e1 e2 : ℕ)
    → Booting 0 k
    → execute l (start_shell (save_context k) 0) (some shell_name) ≡ enters e0 r0
    → RunsOn r0 a0
    → execute l (start_shell (save_context a0) 1) (some shell_name) ≡ enters e1 r1
    → RunsOn r1 a1
    → execute l (start_shell (save_context a1) 2) (some shell_name) ≡ enters e2 r2
    → RunsOn r2 a2
    → a2.terminals_initialized ≡ r2.terminals_initialized
    → ((timer_switch l k ≡ enters_shell e0 r0) × ((pcb r0).tty ≡ 0) × ((pcb r0).parent_id ≡ 0))
      × ((timer_switch l a0 ≡ enters_shell e1 r1) × ((pcb r1).tty ≡ 1) × ((pcb r1).parent_id ≡ 1))
      × ((timer_switch l a1 ≡ enters_shell e2 r2) × ((pcb r2).tty ≡ 2) × ((pcb r2).parent_id ≡ 2))
      × ((r : Kernel) × (timer_switch l a2 ≡ resumed r)
          × IsScheduled r
          × (r.current_pid ≡ 1)
          × (r.program_entry ≡ program_mapping 1)
          × (registers_of r ≡ registers_of a1)
          × (context (r.pcbs 0) ≡ registers_of a0)
          × (context (r.pcbs 2) ≡ registers_of a2)
          × (terminal_num r ≡ 0))
timer_switch-boots l k r0 a0 r1 a1 r2 a2 e0 e1 e2 b h0 run0 h1 run1 h2 run2 mark =
    let (t0, s0) = timer_switch-Starts l 0 k r0 e0 (omega arith) b h0 in
    let (t1, s1) =
      timer_switch-Starts l 1 a0 r1 e1 (omega arith) (runs-Booting 1 r0 a0 s0.booting run0) h1 in
    let (t2, s2) =
      timer_switch-Starts l 2 a1 r2 e2 (omega arith) (runs-Booting 2 r1 a1 s1.booting run1) h2 in
    let (r, t3, scheduled, now, page, registers, kept, shown) =
      timer_switch-first l a2 (runs-Booting 3 r2 a2 s2.booting run2) (mark ∙ s2.all_started) in
    let pid0 : a0.current_pid ≡ 0 = run0.same_pid ∙ s0.now in
    let pid1 : a1.current_pid ≡ 1 = run1.same_pid ∙ s1.now in
    let pid2 : a2.current_pid ≡ 2 = run2.same_pid ∙ s2.now in
    (
      (t0, s0.own_terminal, s0.own_parent),
      (t1, s1.own_terminal, s1.own_parent),
      (t2, s2.own_terminal, s2.own_parent),
      (
        r,
        t3,
        scheduled,
        now,
        page,
        registers
            ∙ ap context (saved-other a2 1 (λ e. absurd (omega (arith, e, pid2))))
            ∙ carried 2 1 a1 r2 a2 s2 run2 (λ e. absurd (omega (arith, e)))
            ∙ interrupted a1 1 pid1,
        ap context (kept 0)
            ∙ ap context (saved-other a2 0 (λ e. absurd (omega (arith, e, pid2))))
            ∙ carried 2 0 a1 r2 a2 s2 run2 (λ e. absurd (omega (arith, e)))
            ∙ ap context (saved-other a1 0 (λ e. absurd (omega (arith, e, pid1))))
            ∙ carried 1 0 a0 r1 a1 s1 run1 (λ e. absurd (omega (arith, e)))
            ∙ interrupted a0 0 pid0,
        ap context (kept 2) ∙ interrupted a2 2 pid2,
        shown,
      ),
    )
  where
    interrupted :
        (m : Kernel) (p : ℕ)
        → m.current_pid ≡ p
        → context ((save_context m).pcbs p) ≡ registers_of m
    interrupted m p e = ap (λ q. context ((save_context m).pcbs q)) (sym e) ∙ saved-own m
