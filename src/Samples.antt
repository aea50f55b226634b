-- ===== src/Samples.antt =====
-- Small states that the tests run on: an image of the file system with one program, a console, a keyboard
-- and a kernel with three processes.
use lime_os.Prelude.{ℕ, ◌+◌, ◌%◌, [], ltb, ◌==◌, ◌||◌, if◌then◌else◌}
use lime_os.Filesystem.{Fs}
use lime_os.Console.{Console}
use lime_os.Keyboard.{Keyboard}
use lime_os.Pic.{Pic}
use lime_os.Process.{Pcb, Kernel, fresh_entries}
use lime_os.Execute.{Stack}

-- One entry, the file "a" of inode 0, which is five bytes long and starts with the magic number; its
-- one data block stands behind the inode.
abbrev pub image_byte : ℕ → ℕ
image_byte a =
    if a == 0 || a == 4
    then 1
    else if a == 64
    then b'a'
    else if a == 96
    then 2
    else if a == 4096
    then 5
    else if a == 8192
    then 0x7f
    else if a == 8193
    then b'E'
    else if a == 8194
    then b'L'
    else if a == 8195
    then b'F'
    else 0

abbrev pub image : Fs
image = record { mem = image_byte; fs_start = 0; dentry_table_flags = λ _. 0 }

-- Terminal 0 is shown, with its cursor in column 3 of row 2.
abbrev pub console : Console
console = record {
  mem = λ _. 0x20;
  video_mem = λ t. if t == 0 then 0xB8000 else if t == 1 then 0xBA000 else 0xBB000;
  screen_x = λ _. 3;
  screen_y = λ _. 2;
  terminal_num = 0;
  tty = 0;
  pt1 = λ t. if t == 0 then 0xB8007 else if t == 1 then 0xBA007 else 0xBB007;
  cursor_low = 163;
  cursor_high = 0;
}

-- The cursor of `console` in another place.
abbrev pub cursor_at : ℕ → ℕ → Console
cursor_at x y = record console { screen_x = λ _. x; screen_y = λ _. y }

-- Two characters are typed on terminal 0 and five on terminal 1.
abbrev pub keyboard : Keyboard
keyboard = record {
  console = console;
  shift_flag = 0;
  ctrl_flag = 0;
  capslock_flag = 0;
  release_caps = 1;
  enter_flag = 0;
  alt_flag = 0;
  is_add = 0;
  buf_index = λ t. if t == 0 then 1 else if t == 1 then 4 else 4294967295;
  char_buf = λ i. b'a' + i % 20;
  command_buf = λ _ _. 0;
  t_enter_flag = λ _. 0;
}

abbrev pub pic : Pic
pic = record { master_mask = 0xFB; slave_mask = 0xFF }

abbrev pub process : ℕ → Pcb
process pid = record {
  fd_entry = fresh_entries;
  process_id = pid;
  parent_id = pid;
  parent_esp = 0;
  parent_ebp = 0;
  parent_esp0 = 0;
  return_value = 0;
  args = [];
  sched_ebp = 0x7FF000 + pid;
  sched_esp = 0x7FE000 + pid;
  sched_esp0 = 0x7FD000 + pid;
  tty = pid % 3;
}

-- A shell runs on each terminal, and that of terminal 0 is running.
abbrev pub kernel : Kernel
kernel = record {
  fs = image;
  keyboard = keyboard;
  rtc_interrupt_occured = λ _. 0;
  reg_a = 0x26;
  out = [];
  pcbs = process;
  current_pid = 0;
  pid_flags = λ pid. if ltb pid 3 then 1 else 0;
  execute_pid = λ t. t;
  program_entry = 0x800097;
  program_page = λ _ _. 0;
  ss0 = 0x18;
  esp0 = 0x7FFFFF;
  esp = 0x7FF100;
  ebp = 0x7FF200;
  terminals_initialized = 0;
  pit_terminal_num = 0;
}

abbrev pub stack : Stack
stack = record { file_name = λ _. 0; local_arg = λ _. 0; buffer = λ _. 0; entry_point = λ _. 0 }
