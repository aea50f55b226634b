-- ===== src/Startup/Messages.antt =====
-- The formats of entry's printf calls, student-distrib/kernel.c.
use lime_os.Prelude.{ℕ, List, [], ◌∷◌}

abbrev pub invalid_magic : List ℕ
invalid_magic =
    b'I' ∷ b'n' ∷ b'v' ∷ b'a' ∷ b'l' ∷ b'i' ∷ b'd' ∷ b' ' ∷ b'm' ∷ b'a' ∷ b'g' ∷ b'i' ∷ b'c' ∷ b' '
    ∷ b'n' ∷ b'u' ∷ b'm' ∷ b'b' ∷ b'e' ∷ b'r' ∷ b':' ∷ b' ' ∷ b'0' ∷ b'x' ∷ b'%' ∷ b'#' ∷ b'x'
    ∷ b'\n' ∷ []

abbrev pub flags_format : List ℕ
flags_format =
    b'f' ∷ b'l' ∷ b'a' ∷ b'g' ∷ b's' ∷ b' ' ∷ b'=' ∷ b' ' ∷ b'0' ∷ b'x' ∷ b'%' ∷ b'#' ∷ b'x' ∷ b'\n'
    ∷ []

abbrev pub mem_format : List ℕ
mem_format =
    b'm' ∷ b'e' ∷ b'm' ∷ b'_' ∷ b'l' ∷ b'o' ∷ b'w' ∷ b'e' ∷ b'r' ∷ b' ' ∷ b'=' ∷ b' ' ∷ b'%' ∷ b'u'
    ∷ b'K' ∷ b'B' ∷ b',' ∷ b' ' ∷ b'm' ∷ b'e' ∷ b'm' ∷ b'_' ∷ b'u' ∷ b'p' ∷ b'p' ∷ b'e' ∷ b'r'
    ∷ b' ' ∷ b'=' ∷ b' ' ∷ b'%' ∷ b'u' ∷ b'K' ∷ b'B' ∷ b'\n' ∷ []

abbrev pub boot_device_format : List ℕ
boot_device_format =
    b'b' ∷ b'o' ∷ b'o' ∷ b't' ∷ b'_' ∷ b'd' ∷ b'e' ∷ b'v' ∷ b'i' ∷ b'c' ∷ b'e' ∷ b' ' ∷ b'=' ∷ b' '
    ∷ b'0' ∷ b'x' ∷ b'%' ∷ b'#' ∷ b'x' ∷ b'\n' ∷ []

abbrev pub cmdline_format : List ℕ
cmdline_format =
    b'c' ∷ b'm' ∷ b'd' ∷ b'l' ∷ b'i' ∷ b'n' ∷ b'e' ∷ b' ' ∷ b'=' ∷ b' ' ∷ b'%' ∷ b's' ∷ b'\n' ∷ []

abbrev pub loaded_format : List ℕ
loaded_format =
    b'M' ∷ b'o' ∷ b'd' ∷ b'u' ∷ b'l' ∷ b'e' ∷ b' ' ∷ b'%' ∷ b'd' ∷ b' ' ∷ b'l' ∷ b'o' ∷ b'a' ∷ b'd'
    ∷ b'e' ∷ b'd' ∷ b' ' ∷ b'a' ∷ b't' ∷ b' ' ∷ b'a' ∷ b'd' ∷ b'd' ∷ b'r' ∷ b'e' ∷ b's' ∷ b's'
    ∷ b':' ∷ b' ' ∷ b'0' ∷ b'x' ∷ b'%' ∷ b'#' ∷ b'x' ∷ b'\n' ∷ []

abbrev pub ends_format : List ℕ
ends_format =
    b'M' ∷ b'o' ∷ b'd' ∷ b'u' ∷ b'l' ∷ b'e' ∷ b' ' ∷ b'%' ∷ b'd' ∷ b' ' ∷ b'e' ∷ b'n' ∷ b'd' ∷ b's'
    ∷ b' ' ∷ b'a' ∷ b't' ∷ b' ' ∷ b'a' ∷ b'd' ∷ b'd' ∷ b'r' ∷ b'e' ∷ b's' ∷ b's' ∷ b':' ∷ b' '
    ∷ b'0' ∷ b'x' ∷ b'%' ∷ b'#' ∷ b'x' ∷ b'\n' ∷ []

abbrev pub first_bytes : List ℕ
first_bytes =
    b'F' ∷ b'i' ∷ b'r' ∷ b's' ∷ b't' ∷ b' ' ∷ b'f' ∷ b'e' ∷ b'w' ∷ b' ' ∷ b'b' ∷ b'y' ∷ b't' ∷ b'e'
    ∷ b's' ∷ b' ' ∷ b'o' ∷ b'f' ∷ b' ' ∷ b'm' ∷ b'o' ∷ b'd' ∷ b'u' ∷ b'l' ∷ b'e' ∷ b':' ∷ b'\n' ∷ []

abbrev pub byte_format : List ℕ
byte_format = b'0' ∷ b'x' ∷ b'%' ∷ b'x' ∷ b' ' ∷ []

abbrev pub newline : List ℕ
newline = b'\n' ∷ []

abbrev pub both_set : List ℕ
both_set =
    b'B' ∷ b'o' ∷ b't' ∷ b'h' ∷ b' ' ∷ b'b' ∷ b'i' ∷ b't' ∷ b's' ∷ b' ' ∷ b'4' ∷ b' ' ∷ b'a' ∷ b'n'
    ∷ b'd' ∷ b' ' ∷ b'5' ∷ b' ' ∷ b'a' ∷ b'r' ∷ b'e' ∷ b' ' ∷ b's' ∷ b'e' ∷ b't' ∷ b'.' ∷ b'\n' ∷ []

abbrev pub elf_format : List ℕ
elf_format =
    b'e' ∷ b'l' ∷ b'f' ∷ b'_' ∷ b's' ∷ b'e' ∷ b'c' ∷ b':' ∷ b' ' ∷ b'n' ∷ b'u' ∷ b'm' ∷ b' ' ∷ b'='
    ∷ b' ' ∷ b'%' ∷ b'u' ∷ b',' ∷ b' ' ∷ b's' ∷ b'i' ∷ b'z' ∷ b'e' ∷ b' ' ∷ b'=' ∷ b' ' ∷ b'0'
    ∷ b'x' ∷ b'%' ∷ b'#' ∷ b'x' ∷ b',' ∷ b' ' ∷ b'a' ∷ b'd' ∷ b'd' ∷ b'r' ∷ b' ' ∷ b'=' ∷ b' '
    ∷ b'0' ∷ b'x' ∷ b'%' ∷ b'#' ∷ b'x' ∷ b',' ∷ b' ' ∷ b's' ∷ b'h' ∷ b'n' ∷ b'd' ∷ b'x' ∷ b' '
    ∷ b'=' ∷ b' ' ∷ b'0' ∷ b'x' ∷ b'%' ∷ b'#' ∷ b'x' ∷ b'\n' ∷ []

abbrev pub mmap_format : List ℕ
mmap_format =
    b'm' ∷ b'm' ∷ b'a' ∷ b'p' ∷ b'_' ∷ b'a' ∷ b'd' ∷ b'd' ∷ b'r' ∷ b' ' ∷ b'=' ∷ b' ' ∷ b'0' ∷ b'x'
    ∷ b'%' ∷ b'#' ∷ b'x' ∷ b',' ∷ b' ' ∷ b'm' ∷ b'm' ∷ b'a' ∷ b'p' ∷ b'_' ∷ b'l' ∷ b'e' ∷ b'n'
    ∷ b'g' ∷ b't' ∷ b'h' ∷ b' ' ∷ b'=' ∷ b' ' ∷ b'0' ∷ b'x' ∷ b'%' ∷ b'x' ∷ b'\n' ∷ []

abbrev pub entry_format : List ℕ
entry_format =
    b' ' ∷ b' ' ∷ b' ' ∷ b' ' ∷ b's' ∷ b'i' ∷ b'z' ∷ b'e' ∷ b' ' ∷ b'=' ∷ b' ' ∷ b'0' ∷ b'x' ∷ b'%'
    ∷ b'x' ∷ b',' ∷ b' ' ∷ b'b' ∷ b'a' ∷ b's' ∷ b'e' ∷ b'_' ∷ b'a' ∷ b'd' ∷ b'd' ∷ b'r' ∷ b' '
    ∷ b'=' ∷ b' ' ∷ b'0' ∷ b'x' ∷ b'%' ∷ b'#' ∷ b'x' ∷ b'%' ∷ b'#' ∷ b'x' ∷ b'\n' ∷ b' ' ∷ b' '
    ∷ b' ' ∷ b' ' ∷ b't' ∷ b'y' ∷ b'p' ∷ b'e' ∷ b' ' ∷ b'=' ∷ b' ' ∷ b'0' ∷ b'x' ∷ b'%' ∷ b'x'
    ∷ b',' ∷ b' ' ∷ b' ' ∷ b'l' ∷ b'e' ∷ b'n' ∷ b'g' ∷ b't' ∷ b'h' ∷ b' ' ∷ b' ' ∷ b' ' ∷ b' '
    ∷ b'=' ∷ b' ' ∷ b'0' ∷ b'x' ∷ b'%' ∷ b'#' ∷ b'x' ∷ b'%' ∷ b'#' ∷ b'x' ∷ b'\n' ∷ []

abbrev pub initializing : List ℕ
initializing =
    b'I' ∷ b'n' ∷ b'i' ∷ b't' ∷ b'i' ∷ b'a' ∷ b'l' ∷ b'i' ∷ b'z' ∷ b'i' ∷ b'n' ∷ b'g' ∷ b' ' ∷ b'd'
    ∷ b'e' ∷ b'v' ∷ b'i' ∷ b'c' ∷ b'e' ∷ b's' ∷ b'.' ∷ b'.' ∷ b'.' ∷ b'\n' ∷ []

abbrev pub enabling : List ℕ
enabling =
    b'E' ∷ b'n' ∷ b'a' ∷ b'b' ∷ b'l' ∷ b'i' ∷ b'n' ∷ b'g' ∷ b' ' ∷ b'I' ∷ b'n' ∷ b't' ∷ b'e' ∷ b'r'
    ∷ b'r' ∷ b'u' ∷ b'p' ∷ b't' ∷ b's' ∷ b'\n' ∷ []

abbrev pub dentry_format : List ℕ
dentry_format =
    b'D' ∷ b'e' ∷ b'n' ∷ b't' ∷ b'r' ∷ b'y' ∷ b' ' ∷ b'C' ∷ b'o' ∷ b'u' ∷ b'n' ∷ b't' ∷ b':' ∷ b' '
    ∷ b'%' ∷ b'd' ∷ b' ' ∷ b'\n' ∷ []

abbrev pub inode_format : List ℕ
inode_format =
    b'I' ∷ b'n' ∷ b'o' ∷ b'd' ∷ b'e' ∷ b' ' ∷ b'C' ∷ b'o' ∷ b'u' ∷ b'n' ∷ b't' ∷ b':' ∷ b' ' ∷ b'%'
    ∷ b'd' ∷ b' ' ∷ b'\n' ∷ []

abbrev pub paging_message : List ℕ
paging_message =
    b'I' ∷ b'n' ∷ b'i' ∷ b't' ∷ b'i' ∷ b'a' ∷ b'l' ∷ b'i' ∷ b'z' ∷ b'i' ∷ b'n' ∷ b'g' ∷ b' ' ∷ b'P'
    ∷ b'a' ∷ b'g' ∷ b'i' ∷ b'n' ∷ b'g' ∷ b'.' ∷ b'.' ∷ b'.' ∷ b' ' ∷ b'\n' ∷ []
