-- ===== src/Filesystem.antt =====
-- The read-only file system of student-distrib/filesystem.c over the bytes of the loaded image.
-- Numbers are the bit patterns of the C words; addresses wrap as uint32_t sums do.
pub mod Names
pub mod Contents
pub mod Listing
mod Tests
use lime_os.Prelude.{
  ℕ, zero, suc, ◌+◌, ◌-◌, ◌*◌, ◌<◌, ◌≤◌, Bool, true, false, not, ◌&&◌, List, [], ◌∷◌, Option, none,
  some, length, get_or, u32, minus_one, lt_signed, ltb, leb, ◌==◌, if◌then◌else◌, update,
}

abbrev pub max_name_length : ℕ
max_name_length = 32

abbrev pub dentry_size : ℕ
dentry_size = 64

abbrev pub four_kb : ℕ
four_kb = 4096

abbrev pub file_table_size : ℕ
file_table_size = 8

-- `fs_start` and `dentry_table_flags`, with the memory that `fs_start` points into.
pub record Fs : Type 0 where
  pub mem : ℕ → ℕ
  pub fs_start : ℕ
  pub dentry_table_flags : ℕ → ℕ

-- `dentry_t`; the reserved bytes are never read.
pub record Dentry : Type 0 where
  pub file_name : List ℕ
  pub file_type : ℕ
  pub inode_number : ℕ

-- `*((int*)a)`, little-endian.
abbrev pub load_word : (ℕ → ℕ) → ℕ → ℕ
load_word m a =
    m (u32 a) + 256 * m (u32 (a + 1)) + 65536 * m (u32 (a + 2)) + 16777216 * m (u32 (a + 3))

abbrev pub load_bytes : (ℕ → ℕ) → ℕ → ℕ → List ℕ
load_bytes m a zero = []
load_bytes m a (suc n) = m (u32 a) ∷ load_bytes m (a + 1) n

-- `*((int*)fs_start)` and `*((int*)(fs_start + 4))`.
unfoldable pub dentry_count : Fs → ℕ
dentry_count fs = load_word fs.mem fs.fs_start

unfoldable pub inode_count : Fs → ℕ
inode_count fs = load_word fs.mem (fs.fs_start + 4)

-- What `((dentry_t*)(fs_start + DENTRY_SIZE))[i]` holds.
unfoldable pub dentry_at : Fs → ℕ → Dentry
dentry_at fs i =
    let a = u32 (fs.fs_start + u32 ((i + 1) * dentry_size)) in
    record {
      file_name = load_bytes fs.mem a max_name_length;
      file_type = load_word fs.mem (a + 32);
      inode_number = load_word fs.mem (a + 36);
    }

-- `current->file_name[j] == fname[j]`: an int8_t, so negative from 128 on, against a uint8_t.
abbrev pub same_char : ℕ → ℕ → Bool
same_char a b = (a == b) && ltb a 128

-- The loop over `j`: the index where it stops, and `match`. The first argument counts the rounds.
compare_name : ℕ → List ℕ → List ℕ → ℕ → ℕ × Bool
compare_name zero name fname j = (j, true)
compare_name (suc n) name fname j =
    let rest = compare_name n name fname (j + 1) in
    if same_char (get_or name j 0) (get_or fname j 0) then rest else (j, false)

-- `name_length`: a string is the list of its bytes before the terminating '\0'.
abbrev pub name_length : List ℕ → ℕ
name_length fname = if ltb max_name_length (length fname) then max_name_length else length fname

-- The tests on one directory entry.
unfoldable pub name_matches : List ℕ → List ℕ → Bool
unfolding compare_name
name_matches name fname =
    let (j, matched) = compare_name (name_length fname) name fname 0 in
    if matched && ltb j max_name_length then get_or name j 0 == 0 else matched

-- The loop over `i`, for the rounds that are left.
find_dentry : Fs → List ℕ → ℕ → ℕ → Option Dentry
find_dentry fs fname zero i = none
find_dentry fs fname (suc n) i =
    let rest = find_dentry fs fname n (i + 1) in
    if name_matches (dentry_at fs i).file_name fname then some (dentry_at fs i) else rest

-- The rounds of `for (i = 0; i < count; i++)` over an int.
abbrev pub rounds : ℕ → ℕ
rounds count = if lt_signed 0 count then count else 0

-- `none` is the -1, `some` the 0 with what is copied to `*dentry`.
unfoldable pub read_dentry_by_name : Fs → List ℕ → Option Dentry
unfolding find_dentry
read_dentry_by_name fs fname = find_dentry fs fname (rounds (dentry_count fs)) 0

-- The comparison is unsigned, since `index` is.
pub read_dentry_by_index : Fs → ℕ → Option Dentry
read_dentry_by_index fs index =
    if ltb (dentry_count fs) index then none else some (dentry_at fs index)

-- The address of `inode_ptr`.
unfoldable pub inode_address : Fs → ℕ → ℕ
inode_address fs inode = u32 (fs.fs_start + u32 ((1 + inode) * four_kb))

-- `inode_ptr->length`.
unfoldable pub inode_length : Fs → ℕ → ℕ
inode_length fs inode = load_word fs.mem (inode_address fs inode)

-- `data_block_address` for the index of a data block in the inode.
unfoldable pub data_block_address : Fs → ℕ → ℕ → ℕ
data_block_address fs inode index =
    let number = load_word fs.mem (inode_address fs inode + 4 + 4 * index) in
    u32 (fs.fs_start + u32 ((inode_count fs + 1 + number) * four_kb))

-- `while (byte_number >= FOUR_KB)`, on fuel.
seek_block : ℕ → ℕ → ℕ → ℕ × ℕ
seek_block zero byte_number index = (byte_number, index)
seek_block (suc f) byte_number index =
    let rest = seek_block f (byte_number - four_kb) (index + 1) in
    if leb four_kb byte_number then rest else (byte_number, index)

-- The copying loop: the bytes that it writes to `buf[copied_count]`, in order. The first number
-- counts the rounds up to `length`.
copy_data : Fs → ℕ → ℕ → ℕ → ℕ → ℕ → ℕ → List ℕ
copy_data fs inode zero index address byte_number offset = []
copy_data fs inode (suc n) index address byte_number offset =
    let turn = leb four_kb (byte_number + 1) in
    let rest =
      copy_data fs inode n (if turn then index + 1 else index)
        (if turn then data_block_address fs inode (index + 1) else address)
        (if turn then 0 else byte_number + 1) (u32 (offset + 1)) in
    fs.mem (u32 (address + byte_number))
    ∷ (if u32 (offset + 1) == inode_length fs inode then [] else rest)

-- The bytes written to `buf`; `copied_count`, the result, is their number.
unfoldable pub read_data_bytes : Fs → ℕ → ℕ → ℕ → List ℕ
unfolding seek_block copy_data
read_data_bytes fs inode offset n =
    let (byte_number, index) = seek_block (offset + 1) offset 0 in
    let copied =
      copy_data fs inode n index (data_block_address fs inode index) byte_number offset in
    if leb (inode_length fs inode) offset then [] else copied

-- The result, and the bytes written.
unfoldable pub read_data : Fs → ℕ → ℕ → ℕ → ℕ × List ℕ
read_data fs inode offset n = let bytes = read_data_bytes fs inode offset n in (length bytes, bytes)

-- `for (i = 0; i < FILE_TABLE_SIZE; i++) dentry_table_flags[i] = 0`.
clear_flags : ℕ → (ℕ → ℕ) → ℕ → ℕ
clear_flags zero flags = flags
clear_flags (suc n) flags = clear_flags n (update flags n 0)

pub set_fs_start : Fs → ℕ → Fs
unfolding clear_flags
set_fs_start fs mod_start = record fs {
  fs_start = mod_start;
  dentry_table_flags = clear_flags file_table_size fs.dentry_table_flags;
}

-- The loop of `read_directory`: the bytes of the name up to a '\0', at most `n`.
unfoldable pub copy_name : ℕ → List ℕ → List ℕ
copy_name zero name = []
copy_name (suc n) [] = []
copy_name (suc n) (c ∷ name) = let rest = copy_name n name in if c == 0 then [] else c ∷ rest

-- `read_directory` at a position: its result, the bytes written, and the new position.
pub read_directory_at : Fs → ℕ → ℕ × List ℕ × ℕ
unfolding copy_name
read_directory_at fs position =
    if not (lt_signed position (dentry_count fs))
    then (0, [], position)
    else elim (read_dentry_by_index fs position) [
      | none ↦ (minus_one, [], position)
      | some d ↦
          let name = copy_name max_name_length d.file_name in
          (length name, name, u32 (position + 1))
    ]

-- `read_file` at a position: its result, the bytes written, and the new position.
unfoldable pub read_file_at : Fs → ℕ → ℕ → ℕ → ℕ × List ℕ × ℕ
read_file_at fs inode position nbytes =
    let (ret, bytes) = read_data fs inode position nbytes in (ret, bytes, u32 (position + ret))

unfoldable pub open_file : ℕ
open_file = 1

unfoldable pub write_file : ℕ
write_file = minus_one

unfoldable pub close_file : ℕ
close_file = 0

unfoldable pub open_directory : ℕ
open_directory = 0

unfoldable pub write_directory : ℕ
write_directory = minus_one

unfoldable pub close_directory : ℕ
close_directory = 0

pub test_set_flags : Fs → ℕ → ℕ → Fs
test_set_flags fs index value = record fs {
  dentry_table_flags = update fs.dentry_table_flags index value;
}

pub test_read_flags : Fs → ℕ → ℕ
test_read_flags fs index = fs.dentry_table_flags index
