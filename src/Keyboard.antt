-- ===== src/Keyboard.antt =====
-- The keyboard driver, student-distrib/keyboard.c, with the terminal's input buffers.
pub mod Table
pub mod Line
pub mod Cases
pub mod Dealer
pub mod Edit
pub mod Deliver
pub mod Sharing
pub mod Init
mod Tests
use lime_os.Prelude.{
  ℕ, zero, suc, ◌+◌, ◌-◌, ◌*◌, Bool, true, false, ◌&&◌, ◌||◌, List, [], ◌∷◌, Option, some, none,
  u32, minus_one, lt_signed, ltb, leb, ◌==◌, if◌then◌else◌, update,
}
use lime_os.Console.{
  Console, clear, reset_screen, backspace_pressed, terminal_write, terminal_switch,
}
use lime_os.Pic.{Out, send_eoi}
use lime_os.Keyboard.Table.{scancode_table}

abbrev pub character_buffer_size : ℕ
character_buffer_size = 128

abbrev pub table_size : ℕ
table_size = 0x3A

abbrev pub key_f1 : ℕ
key_f1 = 0x3B

abbrev pub key_f3 : ℕ
key_f3 = 0x3D

abbrev pub keyboard_irq : ℕ
keyboard_irq = 1

-- The globals of keyboard.c, and `command_buf` and `t_enter_flag` of terminal.c, over the console.
-- A buffer is a function of the index, `buf_index` a bit pattern.
pub record Keyboard : Type 0 where
  pub console : Console
  pub shift_flag : ℕ
  pub ctrl_flag : ℕ
  pub capslock_flag : ℕ
  pub release_caps : ℕ
  pub enter_flag : ℕ
  pub alt_flag : ℕ
  pub is_add : ℕ
  pub buf_index : ℕ → ℕ
  pub char_buf : ℕ → ℕ
  pub command_buf : ℕ → ℕ → ℕ
  pub t_enter_flag : ℕ → ℕ

abbrev pub tn : Keyboard → ℕ
tn k = k.console.terminal_num

-- `char_buf[++buf_index[terminal_num]] = c`.
abbrev pub put_char : Keyboard → ℕ → Keyboard
put_char k c =
    let i = u32 (k.buf_index (tn k) + 1) in
    record k { buf_index = update k.buf_index (tn k) i; char_buf = update k.char_buf i c }

pub set_t_enter_flag : Keyboard → Keyboard
set_t_enter_flag k = record k { t_enter_flag = update k.t_enter_flag (tn k) 1 }

-- `command_buf[terminal_num][i] = char_buf[i]`.
abbrev pub copy_char : ℕ → Keyboard → Keyboard
copy_char i k = record k {
  command_buf = update k.command_buf (tn k) (update (k.command_buf (tn k)) i (k.char_buf i));
}

-- The loop that hands the line over; the first number counts the rounds left.
pub copy_line : ℕ → ℕ → Keyboard → Keyboard
copy_line zero i k = k
copy_line (suc n) i k =
    let r = copy_char i k in
    let rest = copy_line n (i + 1) r in if r.char_buf i == b'\n' then set_t_enter_flag r else rest

-- The case of PRESS_ENTER.
abbrev pub press_enter : Keyboard → Keyboard
press_enter k =
    let r = put_char (record k { enter_flag = 1 }) b'\n' in
    let copied = copy_line character_buffer_size 0 r in
    let q = if r.command_buf (tn r) 0 == 0 then copied else r in record q { is_add = 1 }

-- `buf_index[terminal_num]--` and the screen.
abbrev pub press_backspace : Keyboard → Keyboard
press_backspace k =
    if lt_signed minus_one (k.buf_index (tn k))
    then record k {
      buf_index = update k.buf_index (tn k) (u32 (k.buf_index (tn k) + minus_one));
      console = backspace_pressed k.console;
    }
    else k

-- `capslock_flag ^= 1` of a flag that is 0 or 1.
abbrev pub press_capslock : Keyboard → Keyboard
press_capslock k =
    if k.release_caps == 1
    then record k { capslock_flag = if k.capslock_flag == 0 then 1 else 0; release_caps = 0 }
    else k

-- `scancodeTable[index][c]` for the flags.
pub char_of : Keyboard → ℕ → ℕ
char_of k c = scancode_table (2 * k.capslock_flag + k.shift_flag) c

pub default_key_pressed : Keyboard → ℕ → Keyboard
default_key_pressed k c =
    if k.alt_flag == 1 && leb key_f1 c && leb c key_f3
    then record k { console = terminal_switch k.console (c - key_f1) }
    else if ltb table_size c
    then k
    else if k.ctrl_flag == 1 && (char_of k c == b'l' || char_of k c == b'L')
    then record k {
      console = reset_screen (clear k.console);
      buf_index = update k.buf_index (tn k) minus_one;
    }
    else if char_of k c == 0
    then record k { is_add = 0 }
    else if lt_signed (k.buf_index (tn k)) (character_buffer_size - 2)
    then put_char (record k { is_add = 1 }) (char_of k c)
    else k

-- The `switch` on the scancode.
pub keyboard_output_dealer : Keyboard → ℕ → Keyboard
unfolding copy_line set_t_enter_flag default_key_pressed
keyboard_output_dealer k c =
    if c == 0x1C
    then press_enter k
    else if c == 0x2A || c == 0x36
    then record k { shift_flag = 1 }
    else if c == 0xAA || c == 0xB6
    then record k { shift_flag = 0 }
    else if c == 0x1D
    then record k { ctrl_flag = 1 }
    else if c == 0x9D
    then record k { ctrl_flag = 0 }
    else if c == 0x38
    then record k { alt_flag = 1 }
    else if c == 0xB8
    then record k { alt_flag = 0 }
    else if c == 0x0E
    then press_backspace k
    else if c == 0x3A
    then press_capslock k
    else if c == 0xBA
    then record k { release_caps = 1 }
    else default_key_pressed k c

-- `terminal_write(0, char_buf + buf_index[terminal_num], 1)`.
abbrev pub echo : Keyboard → Keyboard
echo k =
    if k.is_add == 1
    then record k {
      console = (terminal_write k.console (some (k.char_buf (k.buf_index (tn k)) ∷ [])) 1).0;
      is_add = 0;
    }
    else k

abbrev pub end_line : Keyboard → Keyboard
end_line k =
    if k.enter_flag == 1
    then record k { buf_index = update k.buf_index (tn k) minus_one; enter_flag = 0 }
    else k

-- `c` is what `inb(KEYBOARD_DATA_PORT)` returns.
pub keyboard_handler : Keyboard → ℕ → Keyboard × List Out
keyboard_handler k c = (end_line (echo (keyboard_output_dealer k c)), send_eoi keyboard_irq)
