-- ===== src/Sched.antt =====
-- The scheduler of student-distrib/sched.c, which the timer interrupt of student-distrib/pit.c runs.
pub mod Rotation
pub mod Boot
pub mod Rounds
mod Tests
use Prim.Native.Nat.{bit_and}
use lime_os.Prelude.{
  ℕ, zero, suc, ◌+◌, ◌/◌, ◌%◌, List, [], ◌∷◌, Option, none, some, ◌==◌, if◌then◌else◌, update,
}
use lime_os.Console.{update_cursor, x_of, y_of}
use lime_os.Pic.{Out, outb, Pic, enable_irq, send_eoi}
use lime_os.Process.{
  Kernel, Pcb, pcb, get_tty, free, with_console, with_pcb, sends, program_mapping, first_free,
  kernel_ds,
}

abbrev pub terminal_count : ℕ
terminal_count = 3

-- How task_switch ends: in the call of execute for a shell, with the kernel's state at the call, or in
-- the next process.
pub data Switch : Type 0 where
  starts_shell : Kernel → Switch
  switched : Kernel → Switch

-- The registers of the running process, stored to its control block.
unfoldable pub save_context : Kernel → Kernel
save_context k =
    with_pcb k k.current_pid
      (record (pcb k) { sched_ebp = k.ebp; sched_esp = k.esp; sched_esp0 = k.esp0 })

-- The body of the loop up to its call of execute.
unfoldable pub start_shell : Kernel → ℕ → Kernel
start_shell k i =
    let c = record k.keyboard.console { terminal_num = i; tty = (k.pcbs i).tty } in
    record (sends (with_console k c) (send_eoi 0)) {
      current_pid = i;
      terminals_initialized = if i == 2 then 1 else k.terminals_initialized;
    }

-- Once all three shells have been started, the first terminal is shown.
unfoldable pub show_first : Kernel → Kernel
show_first k =
    if k.terminals_initialized == 0
    then k
    else record (with_console k (record k.keyboard.console { terminal_num = 0 })) {
      terminals_initialized = 0;
    }

-- The rest of task_switch: the next terminal's process, its page, its stacks, and the cursor.
unfoldable pub switch_to_next : Kernel → Kernel
switch_to_next k =
    let terminal = (k.pit_terminal_num + 1) % terminal_count in
    let pid = k.execute_pid terminal in
    let next = k.pcbs pid in
    let c = record k.keyboard.console { tty = next.tty } in
    record (with_console k (update_cursor c (x_of c) (y_of c))) {
      pit_terminal_num = terminal;
      current_pid = pid;
      program_entry = program_mapping pid;
      ss0 = kernel_ds;
      esp0 = next.sched_esp0;
      ebp = next.sched_ebp;
      esp = next.sched_esp;
    }

abbrev pub finish_switch : Kernel → Option ℕ → Switch
finish_switch k (some i) = starts_shell (start_shell k i)
finish_switch k none = switched (switch_to_next (show_first k))

unfoldable pub task_switch : Kernel → Switch
task_switch k = finish_switch (save_context k) (first_free terminal_count 0 k.pid_flags)

-- initialize_PIT: the divisor 1193180 / 100 fits the int16_t.
unfoldable pub initialize_pit : Pic → Pic × List Out
initialize_pit p =
    let div = 1193180 / 100 in
    let (q, o) = enable_irq p 0 in
    (q, outb 0x36 0x43 ∷ outb (bit_and div 0xFF) 0x40 ∷ outb (div / 256) 0x40 ∷ o)

-- PIT_handler.
unfoldable pub pit_handler : Kernel → Switch
pit_handler k = task_switch (sends k (send_eoi 0))
