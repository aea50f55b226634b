-- ===== src/Execute.antt =====
-- execute, halt and halt_256 of student-distrib/system_call.c. What the stack holds when execute starts
-- is an argument: its local buffers keep it where the code does not write.
pub mod Parse
pub mod Phases
pub mod Command
pub mod Load
pub mod Closing
pub mod Return
pub mod Halting
mod Tests
use lime_os.Prelude.{
  ℕ, zero, suc, ◌+◌, ◌-◌, ◌*◌, ◌/◌, ◌%◌, List, [], ◌∷◌, Option, none, some, leb, u32, minus_one,
  ◌==◌, if◌then◌else◌, update,
}
use lime_os.Filesystem.{Fs, Dentry, load_word, inode_length, read_data, read_dentry_by_name}
use lime_os.Console.{puts, make_room}
use lime_os.Strings.{strncmp, printf}
use lime_os.Process.{
  Kernel, Pcb, pcb, get_tty, terminal_num, with_console, with_pcb, program_mapping, first_free,
  setup_pcb, kernel_ds, max_pid,
}
use lime_os.Syscall.{Reply, returned, waits_for_enter, waits_for_clock, fault, close}
use lime_os.Execute.Parse.{Parser, parse_command, read_string, write_bytes}

abbrev pub load_addr : ℕ
load_addr = 0x08048000

-- The bytes of `magic_number`.
abbrev pub magic_number : List ℕ
magic_number = 0x7f ∷ 0x45 ∷ 0x4c ∷ 0x46 ∷ []

-- What the buffers of execute hold at first.
pub record Stack : Type 0 where
  pub file_name : ℕ → ℕ
  pub local_arg : ℕ → ℕ
  pub buffer : ℕ → ℕ
  pub entry_point : ℕ → ℕ

-- How execute ends: it returns, it enters the program at an address, it writes past the end of a
-- buffer or of the program's page, or the rounds of the loop that loads the program are used up.
pub data Executed : Type 0 where
  refused : ℕ → Kernel → Executed
  enters : ℕ → Kernel → Executed
  overflows : Executed
  out_of_rounds : Executed

-- How the loop that loads the program ends: with the page filled; in a write behind the program's page, which is
-- not mapped; or with its rounds used up.
pub data Loaded : Type 0 where
  loaded : (ℕ → ℕ) → Loaded
  leaves_page : Loaded
  no_rounds : Loaded

-- The address behind the page of the program, 128 MB + 4 MB.
abbrev pub page_end : ℕ
page_end = 0x08400000

-- The loop that copies the file to LOAD_ADDR, four bytes a round. Both LOAD_ADDR and the page's end are multiples of
-- four.
unfoldable pub load_program : ℕ → Fs → ℕ → ℕ → (ℕ → ℕ) → Loaded
load_program zero fs inode i page = no_rounds
load_program (suc rounds) fs inode i page =
    let (c, bytes) = read_data fs inode (u32 (i * 4)) 4 in
    elim c [
      | zero ↦ loaded page
      | suc m ↦
          let rest =
            load_program rounds fs inode (i + 1) (write_bytes page (load_addr + i * 4) bytes) in
          if leb page_end (load_addr + i * 4) then leaves_page else rest
    ]

abbrev pub load_rounds : Fs → ℕ → ℕ
load_rounds fs inode = inode_length fs inode / 4 + 2

-- The four bytes of a buffer.
abbrev pub four_bytes : (ℕ → ℕ) → List ℕ
four_bytes buf = buf 0 ∷ buf 1 ∷ buf 2 ∷ buf 3 ∷ []

-- The printf of execute.
abbrev pub full_message : List ℕ
full_message =
    b'M' ∷ b'a' ∷ b'x' ∷ b'i' ∷ b'm' ∷ b'u' ∷ b'm' ∷ b' ' ∷ b'n' ∷ b'u' ∷ b'm' ∷ b'b' ∷ b'e' ∷ b'r'
    ∷ b' ' ∷ b'o' ∷ b'f' ∷ b' ' ∷ b'p' ∷ b'r' ∷ b'o' ∷ b'c' ∷ b'e' ∷ b's' ∷ b's' ∷ b'e' ∷ b's'
    ∷ b' ' ∷ b'r' ∷ b'e' ∷ b'a' ∷ b'c' ∷ b'h' ∷ b'e' ∷ b'd' ∷ b'.' ∷ b' ' ∷ b'P' ∷ b'l' ∷ b'e'
    ∷ b'a' ∷ b's' ∷ b'e' ∷ b' ' ∷ b'e' ∷ b'x' ∷ b'i' ∷ b't' ∷ b' ' ∷ b's' ∷ b'h' ∷ b'e' ∷ b'l'
    ∷ b'l' ∷ b'.' ∷ b' ' ∷ b'\n' ∷ []

-- What printf does with the characters, behind its first test.
abbrev pub print : Kernel → Option (List ℕ) → Kernel
print k none = k
print k (some s) = with_console k (puts (make_room k.keyboard.console) s).0

-- The end of execute, from setup_PCB on: the new process is the running one.
abbrev pub enter_program : Stack → Parser → ℕ → (ℕ → ℕ) → Kernel → Option Kernel → Executed
enter_program l p pid entry_point k none = overflows
enter_program l p pid entry_point k (some m) =
    let console = record m.keyboard.console { tty = (m.pcbs pid).tty } in
    enters (load_word entry_point 0) (record (with_console m console) {
      pcbs = update m.pcbs pid (record (m.pcbs pid) {
        parent_esp = k.esp;
        parent_ebp = k.ebp;
        parent_esp0 = k.esp0;
        args =
            if p.local_arg_start_flag == 0
            then (m.pcbs pid).args
            else read_string 128 p.local_arg 0;
      });
      current_pid = pid;
      ss0 = kernel_ds;
      esp0 = u32 (0x800000 + 4294967296 - pid * 0x2000 - 1);
      execute_pid = update m.execute_pid (terminal_num m) pid;
    })

-- The program is loaded into its page.
abbrev pub with_page : Stack → Parser → ℕ → (ℕ → ℕ) → Kernel → Loaded → Executed
with_page l p pid entry_point k leaves_page = overflows
with_page l p pid entry_point k no_rounds = out_of_rounds
with_page l p pid entry_point k (loaded page) =
    let m = record k { program_page = update k.program_page pid page } in
    enter_program l p pid entry_point m (setup_pcb m pid)

-- From the search for a free pid on.
abbrev pub with_pid : Stack → Parser → Dentry → Kernel → Option ℕ → Executed
with_pid l p d k none = refused 0 (print k (printf full_message []).0)
with_pid l p d k (some pid) =
    let m = record k {
      pid_flags = update k.pid_flags pid 1;
      program_entry = program_mapping pid;
    } in
    with_page l p pid (write_bytes l.entry_point 0 (read_data k.fs d.inode_number 24 4).1) m
      (load_program (load_rounds k.fs d.inode_number) k.fs d.inode_number 0 (k.program_page pid))

-- The executable check.
abbrev pub with_file : Stack → Parser → Kernel → Option Dentry → Executed
with_file l p k none = refused minus_one k
with_file l p k (some d) =
    let (ret, bytes) = read_data k.fs d.inode_number 0 4 in
    if ret == minus_one
    then refused minus_one k
    else if strncmp (four_bytes (write_bytes l.buffer 0 bytes)) magic_number 4 == 0
    then with_pid l p d k (first_free max_pid 0 k.pid_flags)
    else refused minus_one k

abbrev pub with_command : Stack → Kernel → Option Parser → Executed
with_command l k none = overflows
with_command l k (some p) =
    with_file l p k (read_dentry_by_name k.fs (read_string 32 p.file_name 0))

-- `none` is NULL.
unfoldable pub execute : Stack → Kernel → Option (List ℕ) → Executed
execute l k none = refused minus_one k
execute l k (some command) = with_command l k (parse_command l.file_name l.local_arg command)

-- The kernel behind a call of close, whose result halt_256 does not look at.
abbrev pub closed : Reply → Option Kernel
closed (returned ret bytes k) = some k
closed (waits_for_enter k) = some k
closed (waits_for_clock k) = some k
closed fault = none

abbrev pub close_next : (Kernel → Option Kernel) → Option Kernel → Option Kernel
close_next f none = none
close_next f (some k) = f k

-- `for (i = 0; i < MAX_FD_NUM; i++) close(i)`: the first number counts the rounds left.
unfoldable pub close_all : ℕ → ℕ → Kernel → Option Kernel
close_all zero i k = some k
close_all (suc n) i k = close_next (close_all n (i + 1)) (closed (close k i))

-- How halt ends: in the parent's call of execute, which returns a value; in a new shell; or in a jump
-- through a NULL pointer or a failure of execute's.
pub data Halted : Type 0 where
  resumes : ℕ → Kernel → Halted
  restarts : ℕ → Kernel → Halted
  faults : Halted

-- The parent, when `pid` halts: its page and its stacks.
abbrev pub parent_again : ℕ → Kernel → Kernel
parent_again pid k =
    let halting = k.pcbs pid in
    let parent = halting.parent_id in
    record (with_console k (record k.keyboard.console { tty = (k.pcbs parent).tty })) {
      current_pid = parent;
      execute_pid = update k.execute_pid (k.pcbs parent).tty parent;
      program_entry = program_mapping parent;
      ss0 = kernel_ds;
      esp0 = halting.parent_esp0;
      esp = halting.parent_esp;
      ebp = halting.parent_ebp;
    }

-- halt_256 from `current_pid = pcb_halt->parent_id` on, and the end of the parent's execute.
abbrev pub resume_parent : ℕ → Kernel → Halted
resume_parent pid k = resumes (k.pcbs (k.pcbs pid).parent_id).return_value (parent_again pid k)

abbrev pub shell_name : List ℕ
shell_name = b's' ∷ b'h' ∷ b'e' ∷ b'l' ∷ b'l' ∷ []

-- If the new shell cannot be executed, halt_256 goes on.
abbrev pub after_shell : ℕ → Executed → Halted
after_shell pid (refused ret k) = resume_parent pid k
after_shell pid (enters eip k) = restarts eip k
after_shell pid overflows = faults
after_shell pid out_of_rounds = faults

abbrev pub finish_halt : Stack → ℕ → Option Kernel → Halted
finish_halt l pid none = faults
finish_halt l pid (some k) =
    let m = record k { pid_flags = update k.pid_flags pid 0 } in
    if m.current_pid == (m.pcbs pid).parent_id
    then after_shell pid (execute l m (some shell_name))
    else resume_parent pid m

unfoldable pub halt_256 : Stack → Kernel → ℕ → Halted
halt_256 l k status =
    let parent = (pcb k).parent_id in
    finish_halt l k.current_pid
      (close_all 8 0 (with_pcb k parent (record (k.pcbs parent) { return_value = status })))

-- The status is a uint8_t.
unfoldable pub halt : Stack → Kernel → ℕ → Halted
halt l k status = halt_256 l k (status % 256)
