-- ===== src/Syscall.antt =====
-- The system calls on files of student-distrib/system_call.c: open, close, read, write, getargs,
-- vidmap, set_handler and sigreturn. A file descriptor is the bit pattern of an int.
pub mod Fds
pub mod Calls
pub mod Trace
pub mod Files
pub mod Output
pub mod Typed
pub mod Written
mod Tests
use lime_os.Prelude.{
  ℕ, zero, suc, ◌+◌, ◌*◌, ◌-◌, ◌||◌, Bool, not, List, [], ◌∷◌, Option, none, some, length, take,
  u32, minus_one, lt_signed, ltb, ◌==◌, if◌then◌else◌, update,
}
use mathlib.Core.Option
use lime_os.Filesystem
use lime_os.Filesystem.{Fs, Dentry, read_dentry_by_name, read_directory_at, read_file_at}
use lime_os.Console.{Console, terminal_write, update_cursor, x_of, y_of}
use lime_os.Rtc
use lime_os.Strings.{strncmp, strlen, strncpy}
use lime_os.Process.{
  Fn, null, null_func, Operations, open_rtc, read_rtc, write_rtc, close_rtc, open_file, read_file,
  write_file, close_file, open_directory, read_directory, write_directory, close_directory,
  stdin_table, stdout_table, rtc_table, file_table, directory_table, FdEntry, freed, Pcb, Kernel,
  pcb, get_tty, terminal_num, with_console, with_pcb, with_entry, sends, max_fd_num, free, in_use,
}

-- How a system call ends: it returns a value and the bytes that it stored to the user's buffer, waits
-- for an interrupt, or jumps to a function that is none of its kind.
pub data Reply : Type 0 where
  returned : ℕ → List ℕ → Kernel → Reply
  waits_for_enter : Kernel → Reply
  waits_for_clock : Kernel → Reply
  fault : Reply

abbrev pub entry : Kernel → ℕ → FdEntry
entry k fd = (pcb k).fd_entry fd

-- The call through `operations_pointer[OPEN]`: its result.
abbrev pub call_open : Fn → Kernel → Option (ℕ × Kernel)
call_open null_func k = some (0, k)
call_open open_rtc k = let (ret, o) = Rtc.open_rtc k.reg_a in some (ret, sends k o)
call_open open_file k = some (Filesystem.open_file, k)
call_open open_directory k = some (Filesystem.open_directory, k)
call_open _ k = none

-- The call through `operations_pointer[CLOSE]`.
abbrev pub call_close : Fn → Option ℕ
call_close null_func = some 0
call_close close_rtc = some Rtc.close_rtc
call_close close_file = some Filesystem.close_file
call_close close_directory = some Filesystem.close_directory
call_close _ = none

-- The start of terminal_read, up to its wait.
abbrev pub begin_terminal_read : Kernel → Kernel
begin_terminal_read k =
    let b = k.keyboard in
    record k {
      keyboard = record b {
        t_enter_flag = update b.t_enter_flag (get_tty k) 0;
        command_buf = update b.command_buf (get_tty k) (update (b.command_buf (get_tty k)) 0 0);
      };
    }

-- `null_buf` says that the buffer is NULL; `fd` is a descriptor in use.
abbrev pub call_read : Fn → Kernel → ℕ → Bool → ℕ → Reply
call_read null_func k fd null_buf nbytes = returned 0 [] k
call_read Fn.terminal_read k fd null_buf nbytes =
    if null_buf then returned minus_one [] k else waits_for_enter (begin_terminal_read k)
call_read read_rtc k fd null_buf nbytes =
    waits_for_clock
      (record k { rtc_interrupt_occured = Rtc.begin_read_rtc k.rtc_interrupt_occured (get_tty k) })
call_read read_file k fd null_buf nbytes =
    let (ret, bytes, position) =
      read_file_at k.fs (entry k fd).inode_index (entry k fd).file_position nbytes in
    returned ret bytes (with_entry k fd (record (entry k fd) { file_position = position }))
call_read read_directory k fd null_buf nbytes =
    let (ret, bytes, position) = read_directory_at k.fs (entry k fd).file_position in
    returned ret bytes (with_entry k fd (record (entry k fd) { file_position = position }))
call_read _ k fd null_buf nbytes = fault

-- The guards of `read`, then the call.
unfoldable pub read : Kernel → ℕ → Bool → ℕ → Reply
read k fd null_buf nbytes =
    if not (lt_signed fd max_fd_num) || lt_signed fd 0 || fd == 1
    then returned minus_one [] k
    else if (entry k fd).flags == free
    then returned minus_one [] k
    else call_read (entry k fd).operations.read_op k fd null_buf nbytes

-- The bytes of `command_buf` up to the newline; the first number counts the rounds. `none`: no newline
-- in the buffer.
unfoldable pub take_line : ℕ → ℕ → (ℕ → ℕ) → Option (List ℕ)
take_line zero i buf = none
take_line (suc n) i buf =
    let rest = take_line n (i + 1) buf in
    if buf i == b'\n' then some (buf i ∷ []) else Option.map (λ l. buf i ∷ l) rest

-- terminal_read behind its wait, which ends when the terminal's enter flag is set: what it stores to
-- the buffer and returns. It does not look at `nbytes`.
unfoldable pub finish_terminal_read : Kernel → Option (ℕ × List ℕ)
unfolding take_line
finish_terminal_read k =
    if k.keyboard.t_enter_flag (get_tty k) == 0
    then none
    else Option.map (λ l. (length l, l)) (take_line 128 0 (k.keyboard.command_buf (get_tty k)))

-- The call through `operations_pointer[WRITE]`, with `terminal_num` set to the process's terminal.
abbrev pub call_write : Fn → Kernel → Option (List ℕ) → ℕ → Option (ℕ × Kernel)
call_write null_func k buf nbytes = some (0, k)
call_write Fn.terminal_write k buf nbytes =
    let (c, ret) = terminal_write k.keyboard.console buf nbytes in some (ret, with_console k c)
call_write write_rtc k buf nbytes =
    let (ret, o) = Rtc.write_rtc k.reg_a buf nbytes in some (ret, sends k o)
call_write write_file k buf nbytes = some (Filesystem.write_file, k)
call_write write_directory k buf nbytes = some (Filesystem.write_directory, k)
call_write _ k buf nbytes = none

-- `terminal_num = get_tty()`.
abbrev pub on_own_terminal : Kernel → Kernel
on_own_terminal k =
    with_console k (record k.keyboard.console { terminal_num = get_tty k; tty = get_tty k })

-- `terminal_num = tty_save`, and the cursor.
abbrev pub back_on_screen : ℕ → Kernel → Kernel
back_on_screen shown k =
    let c = record k.keyboard.console { terminal_num = shown } in
    with_console k (update_cursor c (x_of c) (y_of c))

abbrev pub finish_write : ℕ → Option (ℕ × Kernel) → Reply
finish_write shown none = fault
finish_write shown (some (ret, k)) = returned ret [] (back_on_screen shown k)

-- `none` is NULL.
unfoldable pub write : Kernel → ℕ → Option (List ℕ) → ℕ → Reply
write k fd none nbytes = returned minus_one [] k
write k fd (some buf) nbytes =
    if not (lt_signed fd max_fd_num) || lt_signed fd 0 || fd == 0
    then returned minus_one [] k
    else if (entry k fd).flags == free
    then returned minus_one [] k
    else finish_write (terminal_num k)
        (call_write (entry k fd).operations.write_op (on_own_terminal k) (some buf) nbytes)

-- The first free entry from `i` on; the first number counts the rounds left.
pub find_free : ℕ → ℕ → (ℕ → FdEntry) → Option ℕ
find_free zero i entries = none
find_free (suc n) i entries =
    let rest = find_free n (i + 1) entries in if (entries i).flags == free then some i else rest

-- The `switch` on the file type.
abbrev pub table_for : ℕ → Option Operations
table_for zero = some rtc_table
table_for (suc zero) = some directory_table
table_for (suc (suc zero)) = some file_table
table_for (suc (suc (suc t))) = none

abbrev pub finish_open : ℕ → Option (ℕ × Kernel) → Reply
finish_open fd none = fault
finish_open fd (some (ret, k)) = returned (if lt_signed ret 0 then minus_one else fd) [] k

-- The entry at `fd` for a file that was found, and the call of its open function.
abbrev pub open_entry : Kernel → Dentry → ℕ → Option Operations → Reply
open_entry k d fd none = returned minus_one [] k
open_entry k d fd (some t) = finish_open fd (
    call_open t.open_op (
      with_entry k fd (record {
        operations = t;
        inode_index = d.inode_number;
        file_position = 0;
        flags = in_use;
      })))

abbrev pub open_found : Kernel → Option Dentry → Option ℕ → Reply
open_found k none slot = returned minus_one [] k
open_found k (some d) none = returned minus_one [] k
open_found k (some d) (some fd) = open_entry k d fd (table_for d.file_type)

-- The bytes of "stdin" and "stdout".
abbrev pub stdin_name : List ℕ
stdin_name = b's' ∷ b't' ∷ b'd' ∷ b'i' ∷ b'n' ∷ []

abbrev pub stdout_name : List ℕ
stdout_name = b's' ∷ b't' ∷ b'd' ∷ b'o' ∷ b'u' ∷ b't' ∷ []

abbrev pub reopen : Kernel → ℕ → Operations → Kernel
reopen k fd t = with_entry k fd (record (entry k fd) { operations = t; flags = in_use })

-- `none` is NULL.
unfoldable pub open_call : Kernel → Option (List ℕ) → Reply
unfolding find_free
open_call k none = returned minus_one [] k
open_call k (some filename) =
    if strncmp filename stdin_name 5 == 0
    then returned 0 [] (reopen k 0 stdin_table)
    else if strncmp filename stdout_name 6 == 0
    then returned 1 [] (reopen k 1 stdout_table)
    else open_found k (read_dentry_by_name k.fs filename) (find_free 6 2 (pcb k).fd_entry)

abbrev pub finish_close : Kernel → ℕ → Option ℕ → Reply
finish_close k fd none = fault
finish_close k fd (some ret) =
    if lt_signed ret 0 then returned minus_one [] k else returned 0 [] (with_entry k fd freed)

unfoldable pub close : Kernel → ℕ → Reply
close k fd =
    if lt_signed fd 2 || not (lt_signed fd max_fd_num)
    then returned minus_one [] k
    else if (entry k fd).flags == free
    then returned minus_one [] k
    else finish_close k fd (call_close (entry k fd).operations.close_op)

-- The buffer's bytes are those that strncpy writes.
unfoldable pub getargs : Kernel → Bool → ℕ → Reply
getargs k null_buf nbytes =
    if null_buf
    then returned minus_one [] k
    else if strlen (pcb k).args == 0
    then returned minus_one [] k
    else returned 0 (strncpy (pcb k).args nbytes)
        (with_pcb k k.current_pid (record (pcb k) { args = [] }))

-- `user_vid_mem_addr`.
abbrev pub user_vid_mem_addr : ℕ → ℕ
user_vid_mem_addr t = 0x06400000 + 0x1000 * t

-- The result, and the pointer that is stored at `screen_start`.
unfoldable pub vidmap : Kernel → ℕ → ℕ × Option ℕ
vidmap k screen_start =
    if ltb screen_start 0x08000000 || ltb 0x08400000 screen_start
    then (minus_one, none)
    else (0, some (user_vid_mem_addr (terminal_num k)))

unfoldable pub set_handler : ℕ
set_handler = minus_one

unfoldable pub sigreturn : ℕ
sigreturn = minus_one
