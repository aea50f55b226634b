-- ===== src/Idt/Tests.antt =====
-- The gates of a table with all handlers at one address, and a program that divides by zero.
use lime_os.Prelude.{ℕ, ◌≡◌, refl, subst, [], ◌∷◌, some, update, arith}
use lime_os.Strings.{strncmp}
use lime_os.Filesystem.{
  dentry_count, dentry_at, name_matches, read_dentry_by_name, inode_length, inode_address,
  inode_count, data_block_address, read_data_bytes, read_data,
}
use lime_os.Process.{Kernel, pcb, program_mapping, first_free, setup_pcb}
use lime_os.Syscall.Fds.{IsFdTable}
use lime_os.Execute.{
  Executed, refused, enters, overflows, out_of_rounds, execute, load_program, resumes,
}
use lime_os.Execute.Parse.{parse_command, parse_loop, parse_char, read_string}
use lime_os.Execute.Return.{EntersOr, execute-Enters}
use lime_os.Samples.{kernel, stack}
use lime_os.Idt.{Handler, Gate, init_idt}
use lime_os.Idt.Gates.{offset, access, handler_of, init_idt-gates}
use lime_os.Idt.Handlers.{halts, handle}
use lime_os.Idt.Faults.{exception-resumes}

abbrev empty_table : ℕ → Gate
empty_table i = record {
  offset_15_00 = 0;
  seg_selector = 0;
  reserved4 = 0;
  reserved3 = 0;
  reserved2 = 0;
  reserved1 = 0;
  size = 0;
  reserved0 = 0;
  dpl = 0;
  present = 0;
  offset_31_16 = 0;
}

abbrev everywhere : Handler → ℕ
everywhere h = 0x401234

init_idt-gates_example :
    (offset (init_idt everywhere empty_table 128) ≡ 0x401234)
    × ((init_idt everywhere empty_table 128).seg_selector ≡ 0x10)
    × (access (init_idt everywhere empty_table 128) ≡ 0xEF)
init_idt-gates_example = init_idt-gates everywhere (λ h. omega arith) empty_table 128 (omega arith)

-- The kernel that execute leaves, and the address that it enters.
abbrev entered_by : Executed → ℕ × Kernel
entered_by (enters eip k) = (eip, k)
entered_by (refused ret k) = (0, k)
entered_by overflows = (0, kernel)
entered_by out_of_rounds = (0, kernel)

abbrev divides : ℕ × Kernel
divides = entered_by (execute stack kernel (some (b'a' ∷ [])))

divides_runs : execute stack kernel (some (b'a' ∷ [])) ≡ enters divides.0 divides.1
unfolding execute parse_command parse_loop parse_char read_dentry_by_name dentry_count name_matches
    read_string dentry_at read_data read_data_bytes inode_length inode_address strncmp
    data_block_address inode_count first_free load_program setup_pcb
divides_runs = refl

divides-IsFdTable : IsFdTable (pcb divides.1).fd_entry
divides-IsFdTable =
    (subst (EntersOr kernel) divides_runs (execute-Enters stack kernel (some (b'a' ∷ [])))).table

exception-resumes_example :
    (r : Kernel) × (handle (handler_of 0) stack 0 divides.1 ≡ halts (resumes 256 r))
    × (r.current_pid ≡ 0)
    × (r.esp ≡ 0x7FF100)
    × (r.ebp ≡ 0x7FF200)
    × (r.esp0 ≡ 0x7FFFFF)
    × (r.program_entry ≡ program_mapping 0)
    × (r.pid_flags ≡ update divides.1.pid_flags divides.1.current_pid 0)
exception-resumes_example =
    exception-resumes 0 stack stack 0 kernel divides.1 divides.1 (some (b'a' ∷ [])) divides.0
      (omega arith) refl divides_runs refl refl divides-IsFdTable
