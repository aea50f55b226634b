-- ===== src/Sched/Tests.antt =====
-- The theorems on the scheduler with a shell on each terminal.
use lime_os.Prelude.{◌≡◌, refl, arith}
use lime_os.Process.{Kernel, program_mapping, first_free}
use lime_os.Sched.{
  Switch, starts_shell, switched, save_context, show_first, switch_to_next, task_switch,
}
use lime_os.Sched.Rotation.{
  IsScheduled, RunsOn, registers_of, context, task_switch-next, three_switches,
}
use lime_os.Samples.{kernel}

kernel-IsScheduled : IsScheduled kernel
kernel-IsScheduled = record {
  in_range = omega arith;
  running = refl;
  different = λ i j hi hj ne. ne;
  started = λ i hi. ground arith;
}

task_switch-next_example :
    (r : Kernel) × (task_switch kernel ≡ switched r)
    × IsScheduled r
    × (r.pit_terminal_num ≡ 1)
    × (registers_of r ≡ context (r.pcbs r.current_pid))
    × (r.program_entry ≡ program_mapping r.current_pid)
task_switch-next_example = task_switch-next kernel kernel-IsScheduled

-- The kernel behind a switch.
abbrev behind : Switch → Kernel
behind (starts_shell k) = k
behind (switched k) = k

abbrev first : Kernel
first = behind (task_switch kernel)

abbrev second : Kernel
second = behind (task_switch first)

abbrev third : Kernel
third = behind (task_switch second)

stays : (k : Kernel) → RunsOn k k
stays k = record {
  same_turn = refl;
  same_pid = refl;
  same_terminals = λ i. refl;
  same_flags = λ i. refl;
  same_contexts = λ p h. refl;
}

to_first : task_switch kernel ≡ switched first
unfolding task_switch first_free switch_to_next show_first save_context
to_first = refl

to_second : task_switch first ≡ switched second
unfolding task_switch first_free switch_to_next show_first save_context
to_second = refl

to_third : task_switch second ≡ switched third
unfolding task_switch first_free switch_to_next show_first save_context
to_third = refl

three_switches_example :
    (third.current_pid ≡ kernel.current_pid)
    × (registers_of third ≡ registers_of kernel)
    × (third.program_entry ≡ program_mapping kernel.current_pid)
    × (third.pit_terminal_num ≡ kernel.pit_terminal_num)
three_switches_example =
    three_switches kernel first first second second third kernel-IsScheduled to_first (stays first)
      to_second (stays second) to_third
