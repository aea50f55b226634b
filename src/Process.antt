-- ===== src/Process.antt =====
-- Processes and the kernel's state: `pcb_t` of student-distrib/lib.h, the jump tables and setup_PCB of
-- student-distrib/system_call.c, and the globals that the system calls and the scheduler share.
-- The control blocks, which stand 8 KB apart below KERNEL_BOT_ADDR, are a function of the pid.
use lime_os.Prelude.{
  ℕ, zero, suc, ◌+◌, ◌*◌, ◌||◌, List, ◌++◌, Option, none, some, u32, minus_one, lt_signed, ltb,
  ◌==◌, if◌then◌else◌, update,
}
use lime_os.Filesystem.{Fs}
use lime_os.Keyboard.{Keyboard}
use lime_os.Console.{Console}
use lime_os.Pic.{Out}

abbrev pub max_fd_num : ℕ
max_fd_num = 8

abbrev pub max_pid : ℕ
max_pid = 6

-- `enum pidStatus`.
abbrev pub free : ℕ
free = 0

abbrev pub in_use : ℕ
in_use = 1

abbrev pub kernel_ds : ℕ
kernel_ds = 0x18

-- The functions that the jump tables point to.
pub data Fn : Type 0 where
  null null_func terminal_read terminal_write : Fn
  open_rtc read_rtc write_rtc close_rtc : Fn
  open_file read_file write_file close_file : Fn
  open_directory read_directory write_directory close_directory : Fn

-- `operations_pointer`, by the indices OPEN, READ, WRITE and CLOSE.
pub record Operations : Type 0 where
  pub open_op : Fn
  pub read_op : Fn
  pub write_op : Fn
  pub close_op : Fn

abbrev pub table : Fn → Fn → Fn → Fn → Operations
table o r w c = record { open_op = o; read_op = r; write_op = w; close_op = c }

abbrev pub no_operations : Operations
no_operations = table null null null null

abbrev pub stdin_table : Operations
stdin_table = table null_func terminal_read null_func null_func

abbrev pub stdout_table : Operations
stdout_table = table null_func null_func terminal_write null_func

abbrev pub rtc_table : Operations
rtc_table = table open_rtc read_rtc write_rtc close_rtc

abbrev pub file_table : Operations
file_table = table open_file read_file write_file close_file

abbrev pub directory_table : Operations
directory_table = table open_directory read_directory write_directory close_directory

-- `fd_entry_t`.
pub record FdEntry : Type 0 where
  pub operations : Operations
  pub inode_index : ℕ
  pub file_position : ℕ
  pub flags : ℕ

-- An entry as setup_PCB and close leave it.
abbrev pub freed : FdEntry
freed = record {
  operations = no_operations;
  inode_index = minus_one;
  file_position = minus_one;
  flags = free;
}

-- `pcb_t`; `args` is the string in its buffer.
pub record Pcb : Type 0 where
  pub fd_entry : ℕ → FdEntry
  pub process_id : ℕ
  pub parent_id : ℕ
  pub parent_esp : ℕ
  pub parent_ebp : ℕ
  pub parent_esp0 : ℕ
  pub return_value : ℕ
  pub args : List ℕ
  pub sched_ebp : ℕ
  pub sched_esp : ℕ
  pub sched_esp0 : ℕ
  pub tty : ℕ

-- The globals, the kernel's stack registers, the TSS, the page directory entry of the running program,
-- the program pages by pid, and all that was sent to ports. `reg_a` is what the clock's register A
-- holds whenever it is read.
pub record Kernel : Type 0 where
  pub fs : Fs
  pub keyboard : Keyboard
  pub rtc_interrupt_occured : ℕ → ℕ
  pub reg_a : ℕ
  pub out : List Out
  pub pcbs : ℕ → Pcb
  pub current_pid : ℕ
  pub pid_flags : ℕ → ℕ
  pub execute_pid : ℕ → ℕ
  pub program_entry : ℕ
  pub program_page : ℕ → ℕ → ℕ
  pub ss0 : ℕ
  pub esp0 : ℕ
  pub esp : ℕ
  pub ebp : ℕ
  pub terminals_initialized : ℕ
  pub pit_terminal_num : ℕ

-- The control block of the running process.
abbrev pub pcb : Kernel → Pcb
pcb k = k.pcbs k.current_pid

unfoldable pub get_tty : Kernel → ℕ
get_tty k = (pcb k).tty

abbrev pub terminal_num : Kernel → ℕ
terminal_num k = k.keyboard.console.terminal_num

abbrev pub with_console : Kernel → Console → Kernel
with_console k c = record k { keyboard = record k.keyboard { console = c } }

abbrev pub with_pcb : Kernel → ℕ → Pcb → Kernel
with_pcb k pid p = record k { pcbs = update k.pcbs pid p }

abbrev pub with_entry : Kernel → ℕ → FdEntry → Kernel
with_entry k fd e =
    with_pcb k k.current_pid (record (pcb k) { fd_entry = update (pcb k).fd_entry fd e })

abbrev pub sends : Kernel → List Out → Kernel
sends k o = record k { out = k.out ++ o }

-- The three values of KERNEL_BOT_ADDR + FOUR_MB * pid, with PROGRAM_PROPERTIES set in it: the address
-- has its low bits clear, so the `|` is a sum.
abbrev pub program_mapping : ℕ → ℕ
program_mapping pid = u32 (0x800000 + 0x400000 * pid) + 0x97

-- The loops `for (i = 0; ...) if (pid_flags[i] == 0)` of execute and task_switch: the first free pid
-- from `i` on. The first number counts the rounds left.
unfoldable pub first_free : ℕ → ℕ → (ℕ → ℕ) → Option ℕ
first_free zero i pid_flags = none
first_free (suc n) i pid_flags =
    let rest = first_free n (i + 1) pid_flags in if pid_flags i == free then some i else rest

-- The entries of a new process: all free but standard input and output, whose inode and position
-- stay -1.
abbrev pub fresh_entries : ℕ → FdEntry
fresh_entries fd =
    if fd == 0
    then record freed { operations = stdin_table; flags = in_use }
    else if fd == 1
    then record freed { operations = stdout_table; flags = in_use }
    else freed

-- `none` is the pointer -1. The fields that setup_PCB does not mention stay as they were.
unfoldable pub setup_pcb : Kernel → ℕ → Option Kernel
setup_pcb k new_pid =
    if lt_signed new_pid 0 || lt_signed max_pid new_pid
    then none
    else some (
        with_pcb k new_pid (record (k.pcbs new_pid) {
          fd_entry =
              λ fd. if ltb fd max_fd_num then fresh_entries fd else (k.pcbs new_pid).fd_entry fd;
          process_id = new_pid;
          parent_id = k.current_pid;
          parent_esp = 0;
          parent_ebp = 0;
          return_value = 0;
          tty = terminal_num k;
        }))
