-- ===== src/Sched/Rounds/Tests.antt =====
-- The start of a kernel whose image has the shell.
use lime_os.Prelude.{ℕ, ◌≡◌, refl, some, ◌==◌, ◌||◌, if◌then◌else◌, arith}
use lime_os.Strings.{strncmp}
use lime_os.Filesystem.{
  dentry_count, dentry_at, name_matches, read_dentry_by_name, inode_length, inode_address,
  inode_count, data_block_address, read_data_bytes, read_data,
}
use lime_os.Process.{Kernel, pcb, program_mapping, first_free, setup_pcb, terminal_num}
use lime_os.Execute.{
  Executed, refused, enters, overflows, out_of_rounds, execute, load_program, shell_name,
}
use lime_os.Execute.Parse.{parse_command, parse_loop, parse_char, read_string}
use lime_os.Sched.{save_context, start_shell}
use lime_os.Sched.Rotation.{IsScheduled, RunsOn, registers_of, context}
use lime_os.Sched.Boot.{timer_switch, enters_shell, resumed, Booting}
use lime_os.Sched.Rounds.{timer_switch-boots}
use lime_os.Samples.{image, kernel, stack}

-- An image with the one program "shell", of five bytes.
abbrev shell_byte : ℕ → ℕ
shell_byte a =
    if a == 64
    then b's'
    else if a == 65
    then b'h'
    else if a == 66
    then b'e'
    else if a == 67 || a == 68
    then b'l'
    else if a == 96
    then 2
    else image.mem a

abbrev fresh_kernel : Kernel
fresh_kernel = record kernel { fs = record image { mem = shell_byte }; pid_flags = λ pid. 0 }

fresh_kernel-Booting : Booting 0 fresh_kernel
fresh_kernel-Booting = record {
  turn = refl;
  in_use = λ i hi. absurd (omega arith);
  still_free = λ i lo hi. refl;
  pids = λ i hi. absurd (omega arith);
}

-- The kernel that execute leaves, and the address that it enters.
abbrev entered : Executed → ℕ × Kernel
entered (enters eip k) = (eip, k)
entered (refused ret k) = (0, k)
entered overflows = (0, kernel)
entered out_of_rounds = (0, kernel)

-- The shell of a terminal.
abbrev shell_of : ℕ → Kernel → ℕ × Kernel
shell_of i k = entered (execute stack (start_shell (save_context k) i) (some shell_name))

abbrev shell0 : ℕ × Kernel
shell0 = shell_of 0 fresh_kernel

abbrev shell1 : ℕ × Kernel
shell1 = shell_of 1 shell0.1

abbrev shell2 : ℕ × Kernel
shell2 = shell_of 2 shell1.1

starts0 :
    execute stack (start_shell (save_context fresh_kernel) 0) (some shell_name)
    ≡ enters shell0.0 shell0.1
unfolding execute parse_command parse_loop parse_char read_dentry_by_name dentry_count name_matches
    read_string dentry_at read_data read_data_bytes inode_length inode_address strncmp
    data_block_address inode_count first_free load_program setup_pcb start_shell save_context
starts0 = refl

starts1 :
    execute stack (start_shell (save_context shell0.1) 1) (some shell_name)
    ≡ enters shell1.0 shell1.1
unfolding execute parse_command parse_loop parse_char read_dentry_by_name dentry_count name_matches
    read_string dentry_at read_data read_data_bytes inode_length inode_address strncmp
    data_block_address inode_count first_free load_program setup_pcb start_shell save_context
starts1 = refl

starts2 :
    execute stack (start_shell (save_context shell1.1) 2) (some shell_name)
    ≡ enters shell2.0 shell2.1
unfolding execute parse_command parse_loop parse_char read_dentry_by_name dentry_count name_matches
    read_string dentry_at read_data read_data_bytes inode_length inode_address strncmp
    data_block_address inode_count first_free load_program setup_pcb start_shell save_context
starts2 = refl

stays : (k : Kernel) → RunsOn k k
stays k = record {
  same_turn = refl;
  same_pid = refl;
  same_terminals = λ i. refl;
  same_flags = λ i. refl;
  same_contexts = λ p h. refl;
}

timer_switch-boots_example :
    ((timer_switch stack fresh_kernel ≡ enters_shell shell0.0 shell0.1)
      × ((pcb shell0.1).tty ≡ 0)
      × ((pcb shell0.1).parent_id ≡ 0))
    × ((timer_switch stack shell0.1 ≡ enters_shell shell1.0 shell1.1)
        × ((pcb shell1.1).tty ≡ 1)
        × ((pcb shell1.1).parent_id ≡ 1))
    × ((timer_switch stack shell1.1 ≡ enters_shell shell2.0 shell2.1)
        × ((pcb shell2.1).tty ≡ 2)
        × ((pcb shell2.1).parent_id ≡ 2))
    × ((r : Kernel) × (timer_switch stack shell2.1 ≡ resumed r)
        × IsScheduled r
        × (r.current_pid ≡ 1)
        × (r.program_entry ≡ program_mapping 1)
        × (registers_of r ≡ registers_of shell1.1)
        × (context (r.pcbs 0) ≡ registers_of shell0.1)
        × (context (r.pcbs 2) ≡ registers_of shell2.1)
        × (terminal_num r ≡ 0))
timer_switch-boots_example =
    timer_switch-boots stack fresh_kernel shell0.1 shell0.1 shell1.1 shell1.1 shell2.1 shell2.1
      shell0.0 shell1.0 shell2.0 fresh_kernel-Booting starts0 (stays shell0.1) starts1
      (stays shell1.1) starts2 (stays shell2.1) refl
