-- ===== src/Execute/Return.antt =====
-- execute, and the halt that comes back from it: student-distrib/system_call.c.
use lime_os.Prelude.{
  ℕ, zero, suc, ◌+◌, ◌≡◌, ◌≢◌, refl, subst, true, ◌||◌, List, Option, none, some, minus_one,
  lt_signed, ◌==◌, update, choose, arith, Bool-cases, inl, inr,
}
use mathlib.Core.Option.{some-injective}
use lime_os.Filesystem.{Dentry, read_data}
use lime_os.Strings.{strncmp}
use lime_os.Process.{
  Kernel, pcb, free, program_mapping, first_free, setup_pcb, terminal_num, max_pid,
}
use lime_os.Syscall.Fds.{IsFdTable, fresh-IsFdTable}
use lime_os.Execute.{
  Loaded, loaded, leaves_page, no_rounds, load_program, load_rounds, Stack, Executed, refused,
  enters, overflows, out_of_rounds, execute, with_command, with_file, with_pid, with_page,
  enter_program, magic_number, four_bytes,
}
use lime_os.Execute.Parse.{Parser, parse_command, write_bytes}

-- What execute leaves for the way back: the parent's pid, stacks and kernel stack in the control block of
-- the new process, which runs in its own page.
pub record Enters (k r : Kernel) : Type 0 where
  pub was_free : (k.pid_flags r.current_pid == free) ≡ true
  pub flags : r.pid_flags ≡ update k.pid_flags r.current_pid 1
  pub parent : (pcb r).parent_id ≡ k.current_pid
  pub stack : (pcb r).parent_esp ≡ k.esp
  pub frame : (pcb r).parent_ebp ≡ k.ebp
  pub kernel_stack : (pcb r).parent_esp0 ≡ k.esp0
  pub own_terminal : (pcb r).tty ≡ terminal_num k
  pub table : IsFdTable (pcb r).fd_entry
  pub mapped : r.program_entry ≡ program_mapping r.current_pid
  pub least : first_free max_pid 0 k.pid_flags ≡ some r.current_pid
  pub terminals : r.execute_pid ≡ update k.execute_pid (terminal_num k) r.current_pid
  pub same_turn : r.pit_terminal_num ≡ k.pit_terminal_num
  pub same_started : r.terminals_initialized ≡ k.terminals_initialized
  pub others : (p : ℕ) → p ≢ r.current_pid → r.pcbs p ≡ k.pcbs p

abbrev pub EntersOr : Kernel → Executed → Type 0
EntersOr k (refused ret r) = Unit
EntersOr k (enters eip r) = Enters k r
EntersOr k overflows = Unit
EntersOr k out_of_rounds = Unit

first_free-free :
    (n i : ℕ) (flags : ℕ → ℕ) (pid : ℕ)
    → first_free n i flags ≡ some pid
    → (flags pid == free) ≡ true
unfolding first_free
first_free-free zero i flags pid = λ e. absurd (ground arith)
first_free-free (suc n) i flags pid =
    choose (λ s. s ≡ some pid → (flags pid == free) ≡ true) (flags i == free) _ _
      (λ is_free e. subst (λ p. (flags p == free) ≡ true) (some-injective _ _ e) is_free)
      (λ _ e. first_free-free n (i + 1) flags pid e)

-- The fields of the new control block, and the flags, in what setup_PCB returns.
enter_program-Enters :
    (l : Stack) (p : Parser) (pid : ℕ) (entry_point : ℕ → ℕ) (k : Kernel) (page : ℕ → ℕ)
    → first_free max_pid 0 k.pid_flags ≡ some pid
    → (let m = record k {
      pid_flags = update k.pid_flags pid 1;
      program_entry = program_mapping pid;
      program_page = update k.program_page pid page;
    } in
        EntersOr k (enter_program l p pid entry_point m (setup_pcb m pid)))
unfolding setup_pcb
enter_program-Enters l p pid entry_point k page is_least =
    let is_free : (k.pid_flags pid == free) ≡ true =
      first_free-free max_pid 0 k.pid_flags pid is_least in
    elim (Bool-cases (lt_signed pid 0 || lt_signed 6 pid)) [
      | inl out ↦ rw out tt
      | inr within ↦ rw within (record {
        was_free = is_free;
        flags = refl;
        parent = ground arith;
        stack = ground arith;
        frame = ground arith;
        kernel_stack = ground arith;
        own_terminal = ground arith;
        table = subst IsFdTable (ground arith) (fresh-IsFdTable (k.pcbs pid).fd_entry);
        mapped = refl;
        least = is_least;
        terminals = refl;
        same_turn = refl;
        same_started = refl;
        others = λ q ne. ground (arith, ne);
      })
    ]

with_page-Enters :
    (l : Stack) (p : Parser) (pid : ℕ) (entry_point : ℕ → ℕ) (k : Kernel) (page : Loaded)
    → first_free max_pid 0 k.pid_flags ≡ some pid
    → EntersOr k (
        with_page l p pid entry_point
          (record k { pid_flags = update k.pid_flags pid 1; program_entry = program_mapping pid })
          page)
with_page-Enters l p pid entry_point k leaves_page is_least = tt
with_page-Enters l p pid entry_point k no_rounds is_least = tt
with_page-Enters l p pid entry_point k (loaded page) is_least =
    enter_program-Enters l p pid entry_point k page is_least

with_pid-Enters :
    (l : Stack) (p : Parser) (d : Dentry) (k : Kernel) (pid : Option ℕ)
    → first_free max_pid 0 k.pid_flags ≡ pid
    → EntersOr k (with_pid l p d k pid)
with_pid-Enters l p d k none is_least = tt
with_pid-Enters l p d k (some pid) is_least =
    with_page-Enters l p pid (write_bytes l.entry_point 0 (read_data k.fs d.inode_number 24 4).1) k
      (load_program (load_rounds k.fs d.inode_number) k.fs d.inode_number 0 (k.program_page pid))
      is_least

with_file-Enters :
    (l : Stack) (p : Parser) (k : Kernel) (d : Option Dentry) → EntersOr k (with_file l p k d)
with_file-Enters l p k none = tt
with_file-Enters l p k (some d) =
    choose (EntersOr k) ((read_data k.fs d.inode_number 0 4).0 == minus_one) _ _ (λ _. tt)
      λ _.
        choose (EntersOr k)
          (strncmp (four_bytes (write_bytes l.buffer 0 (read_data k.fs d.inode_number 0 4).1))
              magic_number 4
            == 0)
          _ _ (λ _. with_pid-Enters l p d k _ refl) λ _. tt

-- Whenever execute enters a program, that runs in the first process that was free, which is marked in use, in its
-- own page and on the terminal that is shown, whose process it becomes, with a well-formed table of open files, and
-- its control block holds the parent's pid, esp, ebp and esp0. The other control blocks and the scheduler's turn
-- stay.
pub execute-Enters :
    (l : Stack) (k : Kernel) (command : Option (List ℕ)) → EntersOr k (execute l k command)
unfolding execute
execute-Enters l k none = tt
execute-Enters l k (some command) = of_command (parse_command l.file_name l.local_arg command)
  where
    of_command : (p : Option Parser) → EntersOr k (with_command l k p)
    of_command none = tt
    of_command (some p) = with_file-Enters l p k _
