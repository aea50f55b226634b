-- ===== src/Execute/Tests.antt =====
-- The theorems on execute and halt at a kernel with three shells and one program, "a".
use lime_os.Prelude.{
  ℕ, zero, suc, ◌+◌, ◌<◌, ◌≤◌, ◌≡◌, ◌⊎◌, refl, subst, List, [], ◌∷◌, ◌++◌, some, none, update,
  arith,
}
use lime_os.Strings.{strncmp}
use lime_os.Filesystem.{
  dentry_count, dentry_at, name_matches, read_dentry_by_name, inode_length, inode_address,
  inode_count, data_block_address, read_data_bytes, read_data,
}
use lime_os.Filesystem.Contents.{file_byte}
use lime_os.Process.{Kernel, pcb, program_mapping, first_free, setup_pcb}
use lime_os.Syscall.Fds.{IsFdTable}
use lime_os.Execute.{
  Executed, refused, enters, overflows, out_of_rounds, execute, loaded, leaves_page, page_end,
  load_program, load_rounds, load_addr, resumes, halt,
}
use lime_os.Execute.Parse.{Parser, parse_command, parse_loop, parse_char, read_string}
use lime_os.Execute.Phases.{IsWord, spaces_of}
use lime_os.Execute.Command.{parse_command-splits, parse_command_overflow}
use lime_os.Execute.Load.{load_program_copies}
use lime_os.Execute.Return.{EntersOr, execute-Enters}
use lime_os.Execute.Halting.{execute-halt}
use lime_os.Samples.{image, kernel, stack}

abbrev buffer : ℕ → ℕ
buffer i = 0

abbrev name : List ℕ
name = b'c' ∷ b'a' ∷ b't' ∷ []

parse_command-splits_example :
    (p : Parser) × (parse_command buffer buffer (name ++ (spaces_of 2 ++ (b'x' ∷ b' ' ∷ [])))
      ≡ some p)
    × (read_string 32 p.file_name 0 ≡ name)
    × (read_string 128 p.local_arg 0 ≡ b'x' ∷ b' ' ∷ [])
    × (p.local_arg_start_flag ≡ 1)
parse_command-splits_example =
    parse_command-splits buffer buffer name 1 b'x' (b' ' ∷ [])
      (omega arith, omega arith, (omega arith, omega arith, (omega arith, omega arith, tt)))
      (omega arith) (omega arith) (omega arith) (omega arith, (omega arith, tt)) (omega arith)

-- 33 times "a".
abbrev long_word : ℕ → List ℕ
long_word zero = []
long_word (suc n) = b'a' ∷ long_word n

long_word-IsWord : (n : ℕ) → IsWord (long_word n)
long_word-IsWord zero = tt
long_word-IsWord (suc n) = (omega arith, omega arith, long_word-IsWord n)

parse_command_overflow_example : parse_command buffer buffer (long_word 33 ++ name) ≡ none
parse_command_overflow_example =
    parse_command_overflow buffer buffer (long_word 33) name (long_word-IsWord 33) (omega arith)

image-length : inode_length image 0 ≡ 5
unfolding inode_length inode_address
image-length = refl

load_program_copies_example :
    ((load_addr + inode_length image 0 ≤ page_end)
      × ((memory : ℕ → ℕ) × (load_program (load_rounds image 0) image 0 0 buffer ≡ loaded memory)
          × ((j : ℕ) → j < inode_length image 0 → memory (load_addr + j) ≡ file_byte image 0 j)
          × ((a : ℕ) → (a < load_addr) ⊎ (load_addr + inode_length image 0 ≤ a) → memory a ≡ 0)))
    ⊎ ((page_end < load_addr + inode_length image 0)
        × (load_program (load_rounds image 0) image 0 0 buffer ≡ leaves_page))
load_program_copies_example = load_program_copies image 0 (omega (arith, image-length)) buffer

execute-Enters_example : EntersOr kernel (execute stack kernel (some (b'a' ∷ [])))
execute-Enters_example = execute-Enters stack kernel (some (b'a' ∷ []))

-- The kernel that execute leaves, and the address that it enters.
abbrev entered : Executed → ℕ × Kernel
entered (enters eip k) = (eip, k)
entered (refused ret k) = (0, k)
entered overflows = (0, kernel)
entered out_of_rounds = (0, kernel)

abbrev program : ℕ × Kernel
program = entered (execute stack kernel (some (b'a' ∷ [])))

runs : execute stack kernel (some (b'a' ∷ [])) ≡ enters program.0 program.1
unfolding execute parse_command parse_loop parse_char read_dentry_by_name dentry_count name_matches
    read_string dentry_at read_data read_data_bytes inode_length inode_address strncmp
    data_block_address inode_count first_free load_program setup_pcb
runs = refl

program-IsFdTable : IsFdTable (pcb program.1).fd_entry
program-IsFdTable =
    (subst (EntersOr kernel) runs (execute-Enters stack kernel (some (b'a' ∷ [])))).table

execute-halt_example :
    (r : Kernel) × (halt stack program.1 7 ≡ resumes 7 r)
    × (r.current_pid ≡ 0)
    × (r.esp ≡ 0x7FF100)
    × (r.ebp ≡ 0x7FF200)
    × (r.esp0 ≡ 0x7FFFFF)
    × (r.program_entry ≡ program_mapping 0)
    × (r.pid_flags ≡ update program.1.pid_flags program.1.current_pid 0)
execute-halt_example =
    execute-halt stack stack kernel program.1 program.1 (some (b'a' ∷ [])) program.0 7 refl runs
      refl refl program-IsFdTable
