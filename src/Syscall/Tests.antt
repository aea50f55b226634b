-- ===== src/Syscall/Tests.antt =====
-- The theorems on the system calls at a kernel with one file.
use lime_os.Prelude.{
  ℕ, ◌-◌, ◌+◌, ◌≡◌, refl, ap, min, inl, false, List, [], ◌∷◌, ◌++◌, Option, some, none, u32, ◌==◌,
  arith,
}
use lime_os.Filesystem.{
  Dentry, dentry_at, dentry_count, name_matches, open_file, read_dentry_by_name, inode_length,
  inode_address,
}
use lime_os.Filesystem.Contents.{slice}
use lime_os.Console.{write_rounds}
use lime_os.Console.Isolation.{OffScreen}
use lime_os.Strings.{strncmp}
use lime_os.Process.{
  fresh_entries, file_table, stdin_table, Kernel, pcb, terminal_num, with_console, get_tty,
  with_entry, setup_pcb,
}
use lime_os.Syscall.{
  returned, entry, read, write, open_call, close, finish_terminal_read, on_own_terminal, stdin_name,
  reopen, stdout_name,
}
use lime_os.Syscall.Fds.{==-false, IsFileEntry, IsFdTable, KeepsTable}
use lime_os.Syscall.Files.{IsLeastFree, opened, open_call-close, open_call-stdin_prefix, read-slice}
use lime_os.Syscall.Output.{write_isolated}
use lime_os.Syscall.Trace.{done, call, close_call, open_file_call, after, perform, Runs-KeepsTable}
use lime_os.Keyboard.{keyboard_handler}
use lime_os.Keyboard.Line.{IsReady}
use lime_os.Syscall.Typed.{keyboard_handler-terminal_read}
use lime_os.Samples.{image, keyboard, kernel}

fresh_file : (fd : ℕ) → (fd == 0) ≡ false → (fd == 1) ≡ false → IsFileEntry (fresh_entries fd)
fresh_file fd h0 h1 = inl (rw (h0, h1) refl)

kernel-IsFdTable : IsFdTable (pcb kernel).fd_entry
kernel-IsFdTable = record {
  stdin_open = (refl, refl);
  stdout_open = (refl, refl);
  files = λ fd lo hi. fresh_file fd (==-false fd 0 (omega arith)) (==-false fd 1 (omega arith));
}

abbrev name : List ℕ
name = b'a' ∷ []

-- The kernel behind open.
abbrev after_open : Kernel
after_open = with_entry kernel 2 (opened file_table (dentry_at image 0))

opens : open_call kernel (some name) ≡ returned 2 [] after_open
unfolding open_call strncmp read_dentry_by_name name_matches dentry_at dentry_count open_file
opens = refl

opens_after : after (perform kernel (open_file_call (some name))) ≡ some after_open
opens_after = ap after opens

Runs-KeepsTable_example :
    IsFdTable (pcb after_open).fd_entry
    × KeepsTable (perform after_open (close_call 2 (omega arith)))
Runs-KeepsTable_example =
    Runs-KeepsTable (call (open_file_call (some name)) opens_after done) kernel-IsFdTable
      (close_call 2 (omega arith))

abbrev entry_a : Dentry
entry_a = dentry_at image 0

not_stdin : (strncmp name stdin_name 5 == 0) ≡ false
unfolding strncmp
not_stdin = refl

not_stdout : (strncmp name stdout_name 6 == 0) ≡ false
unfolding strncmp
not_stdout = refl

found : read_dentry_by_name image name ≡ some entry_a
unfolding read_dentry_by_name name_matches dentry_at dentry_count
found = refl

is_file : entry_a.file_type ≡ 2
unfolding dentry_at
is_file = refl

least : IsLeastFree fresh_entries 2 8 2
least = (omega arith, omega arith, refl, λ e lo hi. absurd (omega arith))

open_call-close_example :
    (opened_kernel : Kernel) × (open_call kernel (some name) ≡ returned 2 [] opened_kernel)
    × (entry opened_kernel 2 ≡ opened file_table entry_a)
    × (close opened_kernel 2 ≡ returned 0 [] kernel)
open_call-close_example =
    open_call-close kernel name entry_a 2 not_stdin not_stdout found is_file least refl

length_a : inode_length image entry_a.inode_number ≡ 5
unfolding inode_length inode_address dentry_at
length_a = refl

read-slice_example :
    let e = entry after_open 2 in
    let count : ℕ = min 3 (inode_length image e.inode_index - e.file_position) in
    read after_open 2 false 3
    ≡ returned count
        (slice image e.inode_index e.file_position count)
        (with_entry after_open 2 (record e { file_position = u32 (e.file_position + count) }))
read-slice_example =
    read-slice after_open 2 3 (omega arith) (omega arith) refl refl (omega arith)
      (omega (arith, length_a))

-- The running process on terminal 0 while terminal 1 is shown.
abbrev background : Kernel
background = with_console kernel (record kernel.keyboard.console { terminal_num = 1 })

write_isolated_example :
    (r : Kernel) × (write background 1 (some name) 1 ≡ returned (write_rounds 1) [] r)
    × (terminal_num r ≡ 1)
    × ((a : ℕ)
        → OffScreen (on_own_terminal background).keyboard.console a
        → r.keyboard.console.mem a ≡ 0x20)
unfolding get_tty
write_isolated_example =
    write_isolated background name 1 refl refl (omega arith, tt)
      (record { column = omega arith; row = omega arith })

-- The kernel that setup_PCB returns.
abbrev created : Option Kernel → Kernel
created none = kernel
created (some k) = k

sets_up : setup_pcb kernel 3 ≡ some (created (setup_pcb kernel 3))
unfolding setup_pcb
sets_up = refl

-- The file "stdinput".
open_call-stdin_prefix_example :
    open_call kernel (some (stdin_name ++ b'p' ∷ b'u' ∷ b't' ∷ []))
    ≡ returned 0 [] (reopen kernel 0 stdin_table)
open_call-stdin_prefix_example =
    open_call-stdin_prefix kernel (b'p' ∷ b'u' ∷ b't' ∷ [])
      (omega arith, omega arith, (omega arith, omega arith, (omega arith, omega arith, tt)))

typing-IsReady : IsReady keyboard
typing-IsReady = record {
  words = λ t. ground arith;
  fits = λ t. ground arith;
  no_add = refl;
  no_enter = refl;
}

keyboard_handler-terminal_read_example :
    finish_terminal_read (record kernel { keyboard = (keyboard_handler keyboard 0x1C).0 })
    ≡ some (3, b'a' ∷ b'b' ∷ b'\n' ∷ [])
keyboard_handler-terminal_read_example =
    keyboard_handler-terminal_read kernel typing-IsReady refl (λ j h. omega arith)
      (unfold get_tty in refl)
