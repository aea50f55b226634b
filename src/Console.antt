-- ===== src/Console.antt =====
-- The text console: the screen functions of student-distrib/lib.c (clear, putc, puts, scroll_screen,
-- backspace_pressed, reset_screen, update_cursor, check_out_of_bound) and student-distrib/terminal.c
-- (terminal_write, terminal_switch). Addresses are physical; a byte of memory is a number.
pub mod Scroll
pub mod Bounds
pub mod Isolation
pub mod Append
pub mod Memcpy
pub mod Switch
mod Tests
use lime_os.Prelude.{
  ℕ, zero, suc, ◌+◌, ◌-◌, ◌*◌, ◌/◌, ◌%◌, ◌<◌, ◌≤◌, Bool, true, false, not, ◌&&◌, ◌||◌, List, [],
  ◌∷◌, Option, none, some, take, u8, u32, minus_one, lt_signed, ltb, leb, ◌==◌, if◌then◌else◌,
  update, for_range, min,
}

abbrev pub num_cols : ℕ
num_cols = 80

abbrev pub num_rows : ℕ
num_rows = 25

abbrev pub attrib : ℕ
attrib = 7

-- VIDEO, VIDEO_MEMORY and VID.
abbrev pub video : ℕ
video = 0xB8000

-- `backup_mem_addr`, for terminals 0, 1 and 2.
abbrev pub backup_mem_addr : ℕ → ℕ
backup_mem_addr zero = 0xB9000
backup_mem_addr (suc zero) = 0xBA000
backup_mem_addr (suc (suc t)) = 0xBB000

-- `SCREEN_COLOR`.
abbrev pub screen_color : ℕ → ℕ
screen_color zero = 0x9
screen_color (suc zero) = 0xA
screen_color (suc (suc t)) = 0xC

-- `VID_MEM_BACKUP` and `USER_VID_MEM_ENTRY`: page table entries for user access.
abbrev pub vid_mem_backup : ℕ → ℕ
vid_mem_backup zero = 0xB9007
vid_mem_backup (suc zero) = 0xBA007
vid_mem_backup (suc (suc t)) = 0xBB007

abbrev pub user_vid_mem_entry : ℕ
user_vid_mem_entry = 0xB8007

-- The globals of lib.c and terminal.c that the console uses: `tty` is what get_tty() returns, `pt1`
-- the entries of PT1, and the cursor fields are the two VGA registers. The coordinates are ints that
-- are negative at one point of backspace_pressed only, and are kept as numbers.
pub record Console : Type 0 where
  pub mem : ℕ → ℕ
  pub video_mem : ℕ → ℕ
  pub screen_x : ℕ → ℕ
  pub screen_y : ℕ → ℕ
  pub terminal_num : ℕ
  pub tty : ℕ
  pub pt1 : ℕ → ℕ
  pub cursor_low : ℕ
  pub cursor_high : ℕ

abbrev pub x_of : Console → ℕ
x_of s = s.screen_x s.terminal_num

abbrev pub y_of : Console → ℕ
y_of s = s.screen_y s.terminal_num

-- `video_mem[terminal_num]`.
abbrev pub screen_of : Console → ℕ
screen_of s = s.video_mem s.terminal_num

abbrev pub color_of : Console → ℕ
color_of s = screen_color s.terminal_num

-- `s` with the two coordinates of the current terminal given anew.
abbrev pub move_to : Console → ℕ → ℕ → Console
move_to s x y = record s {
  screen_x = update s.screen_x s.terminal_num x;
  screen_y = update s.screen_y s.terminal_num y;
}

-- `*(uint8_t *)a = v`.
abbrev pub store : Console → ℕ → ℕ → Console
store s a v = record s { mem = update s.mem a v }

-- `video_mem[terminal_num] + ((NUM_COLS * y + x) << 1)`.
abbrev pub cell : Console → ℕ → ℕ → ℕ
cell s y x = screen_of s + (num_cols * y + x) * 2

pub clear : Console → Console
clear s =
    for_range (num_rows * num_cols) 0
      (λ i r. store (store r (screen_of r + i * 2) b' ') (screen_of r + i * 2 + 1) (color_of r)) s

pub putc : Console → ℕ → Console
putc s c =
    if c == b'\n' || c == b'\r'
    then move_to s 0 (y_of s + 1)
    else (let a = cell s (y_of s) (x_of s) in
        let written = store (store (store s a c) (a + 1) (color_of s)) (a + 3) (color_of s) in
        move_to written ((x_of s + 1) % num_cols) ((y_of s + (x_of s + 1) / num_cols) % num_rows))

-- The console and the number of bytes written.
pub puts : Console → List ℕ → Console × ℕ
puts s [] = (s, 0)
puts s (c ∷ cs) = let (r, index) = puts (putc s c) cs in (r, index + 1)

unfoldable pub update_cursor : Console → ℕ → ℕ → Console
update_cursor s x y =
    if not (s.terminal_num == s.tty)
    then s
    else (let pos = (y * num_cols + x) % 65536 in
        record s { cursor_low = pos % 256; cursor_high = pos / 256 })

pub reset_screen : Console → Console
reset_screen s = let r = move_to s 0 0 in update_cursor r (x_of r) (y_of r)

-- `screen_x--`, and the two tests of a negative column.
abbrev pub step_back : Console → Console
step_back s =
    if x_of s == 0
    then (if y_of s == 0 then s else move_to s (num_cols - 1) (y_of s - 1))
    else move_to s (x_of s - 1) (y_of s)

pub backspace_pressed : Console → Console
backspace_pressed s =
    let r = step_back s in
    let a = cell r (y_of r) (x_of r) in
    update_cursor (store (store r a b' ') (a + 1) attrib) (x_of r) (y_of r)

-- SCROLL_ENTER_PRESSED is 1 and SCROLL_LAST_LETTER is 2.
pub check_out_of_bound : Console → ℕ
check_out_of_bound s =
    if y_of s == num_rows - 1 then (if x_of s == num_cols - 1 then 2 else 1) else 0

-- One round of the two loops of scroll_screen.
abbrev pub scroll_cell : ℕ → ℕ → Console → Console
scroll_cell y x s =
    let r = store s (cell s (y - 1) x) (s.mem (cell s y x)) in
    if y == num_rows - 1 then store r (cell r y x) b' ' else r

-- `screen_y[terminal_num]--` of an int.
pub scroll_screen : Console → Console
scroll_screen s =
    let r = for_range (num_rows - 1) 1 (λ y. for_range num_cols 0 (scroll_cell y)) s in
    record r { screen_y = update r.screen_y r.terminal_num (u32 (y_of r + minus_one)) }

-- The first test of printf: the screen moves up if the cursor is in the last row.
pub make_room : Console → Console
make_room s = if check_out_of_bound s == 0 then s else scroll_screen s

-- One round of the loop of terminal_write.
pub write_char : Console → ℕ → Console
write_char s c =
    let r = if check_out_of_bound s == 1 && c == b'\n' then scroll_screen s else s in
    let q = if check_out_of_bound r == 2 then scroll_screen r else r in putc q c

abbrev pub write_chars : Console → List ℕ → Console
write_chars s [] = s
write_chars s (c ∷ cs) = write_chars (write_char s c) cs

-- The rounds of `for (i = 0; i < nbytes; i++)`.
abbrev pub write_rounds : ℕ → ℕ
write_rounds nbytes = if lt_signed 0 nbytes then nbytes else 0

-- `none` is NULL; the buffer holds `nbytes` bytes at least.
unfoldable pub terminal_write : Console → Option (List ℕ) → ℕ → Console × ℕ
terminal_write s none nbytes = (s, minus_one)
terminal_write s (some buf) nbytes =
    (write_chars s (take (write_rounds nbytes) buf), write_rounds nbytes)

unfoldable pub terminal_open : ℕ
terminal_open = 0

unfoldable pub terminal_close : ℕ
terminal_close = 0

-- The byte, and the four bytes, at `i` of the two regions of memcpy.
abbrev pub move_byte : ℕ → ℕ → ℕ → (ℕ → ℕ) → ℕ → ℕ
move_byte dest src i m = update m (dest + i) (m (src + i))

abbrev pub move_dword : ℕ → ℕ → ℕ → (ℕ → ℕ) → ℕ → ℕ
move_dword dest src i m =
    update
      (update (update (update m (dest + i) (m (src + i))) (dest + (i + 1)) (m (src + (i + 1))))
        (dest + (i + 2)) (m (src + (i + 2))))
      (dest + (i + 3)) (m (src + (i + 3)))

-- The bytes up to where `dest` is aligned.
abbrev pub head_bytes : ℕ → ℕ → ℕ
head_bytes dest n = min n ((4 - dest % 4) % 4)

-- memcpy: bytes until `dest` is aligned, then `rep movsl`, then the bytes that are left.
pub memcpy : (ℕ → ℕ) → ℕ → ℕ → ℕ → ℕ → ℕ
memcpy m dest src n =
    let head = head_bytes dest n in
    let words = (n - head) / 4 in
    let aligned = for_range head 0 (move_byte dest src) m in
    let moved = for_range words 0 (λ w. move_dword dest src (head + w * 4)) aligned in
    for_range ((n - head) % 4) (head + words * 4) (move_byte dest src) moved

-- The pages are swapped, the pointers and the page table follow, and the screen is coloured.
pub terminal_switch : Console → ℕ → Console
terminal_switch s new_tty =
    let saved = memcpy s.mem (backup_mem_addr s.terminal_num) video 4096 in
    let shown = memcpy saved video (backup_mem_addr new_tty) 4096 in
    let r = record s {
      mem = shown;
      video_mem =
          update (update s.video_mem s.terminal_num (backup_mem_addr s.terminal_num)) new_tty video;
      pt1 =
          update (update s.pt1 s.terminal_num (vid_mem_backup s.terminal_num)) new_tty
            user_vid_mem_entry;
      terminal_num = new_tty;
    } in
    for_range (num_rows * num_cols) 0 (λ i q. store q (screen_of q + i * 2 + 1) (color_of q))
      (update_cursor r (x_of r) (y_of r))
