-- ===== src/User/Shell/Tests.antt =====
-- The shell at the sample kernel, when "a" is typed and the program faults.
use lime_os.Prelude.{
  ℕ, ◌≡◌, ◌≢◌, refl, ap, subst, List, [], ◌∷◌, some, length, ◌==◌, if◌then◌else◌, arith,
}
use lime_os.Strings.{strncmp}
use lime_os.Filesystem.{
  dentry_count, dentry_at, name_matches, read_dentry_by_name, inode_length, inode_address,
  inode_count, data_block_address, read_data_bytes, read_data,
}
use lime_os.Process.{Kernel, pcb, program_mapping, first_free, setup_pcb}
use lime_os.Syscall.{read, finish_terminal_read, take_line}
use lime_os.Syscall.Fds.{IsFdTable}
use lime_os.Syscall.Written.{written}
use lime_os.Execute.{
  Executed, refused, enters, overflows, out_of_rounds, execute, load_program, halt_256,
}
use lime_os.Execute.Parse.{parse_command, parse_loop, parse_char, read_string}
use lime_os.Execute.Return.{EntersOr, execute-Enters}
use lime_os.User.{World, done, ◌>>◌, ece391_read}
use lime_os.User.Texts
use lime_os.User.Shell.{shell_loop}
use lime_os.User.Shell.Reports.{halted, says, shell_loop-says}
use lime_os.Samples.{kernel, stack}

abbrev typed_a : Kernel
typed_a =
    let b = kernel.keyboard in
    record kernel {
      keyboard = record b {
        command_buf = λ _ i. if i == 0 then b'a' else b'\n';
        t_enter_flag = λ _. 1;
      };
    }

abbrev faulting : World
faulting = record {
  on_enter = λ k. typed_a;
  on_clock = λ k. k;
  run_child = λ k. halted (halt_256 stack k 256);
  execute_stack = stack;
  numbered = λ _ k. done 0 k;
}

-- The kernel that execute leaves, and the address that it enters.
abbrev entered : Executed → ℕ × Kernel
entered (enters eip k) = (eip, k)
entered (refused ret k) = (0, k)
entered overflows = (0, kernel)
entered out_of_rounds = (0, kernel)

abbrev program : ℕ × Kernel
program = entered (execute stack typed_a (some (b'a' ∷ [])))

runs : execute stack typed_a (some (b'a' ∷ [])) ≡ enters program.0 program.1
unfolding execute parse_command parse_loop parse_char read_dentry_by_name dentry_count name_matches
    read_string dentry_at read_data read_data_bytes inode_length inode_address strncmp
    data_block_address inode_count first_free load_program setup_pcb
runs = refl

program-IsFdTable : IsFdTable (pcb program.1).fd_entry
program-IsFdTable =
    (subst (EntersOr typed_a) runs (execute-Enters stack typed_a (some (b'a' ∷ [])))).table

reads :
    ece391_read faulting 0 1023 (written kernel Texts.prompt) ≡ done (2, b'a' ∷ b'\n' ∷ []) typed_a
unfolding ece391_read read finish_terminal_read take_line
reads = refl

not_exit : b'a' ∷ [] ≢ Texts.exit_command
not_exit e = let n : 1 ≡ 4 = ap (λ (s : List ℕ). length s) e in absurd (omega (arith, n))

shell_loop-says_example :
    (r : Kernel) × (shell_loop faulting 5 kernel ≡ (says 256 >> shell_loop faulting 4) r)
    × (r.current_pid ≡ 0)
    × (r.esp ≡ 0x7FF100)
    × (r.ebp ≡ 0x7FF200)
    × (r.program_entry ≡ program_mapping 0)
shell_loop-says_example =
    shell_loop-says faulting 4 stack kernel typed_a program.1 program.1 (b'a' ∷ []) program.0 256
      (refl, refl) reads (omega arith, omega arith, tt) (omega arith) (omega arith) not_exit refl
      runs refl refl program-IsFdTable refl (omega arith)
