-- ===== src/Startup.antt =====
-- The kernel's entry point, student-distrib/kernel.c, and the segment descriptors of x86_desc.h. What the boot
-- loader leaves in memory is read from the bytes of the kernel's state; the linker's addresses, the keyboard's
-- answers and the clock's register B are arguments.
pub mod Messages
pub mod Descriptors
pub mod Report
pub mod Entry
mod Tests
use lime_os.Prelude.{
  ℕ, zero, suc, ◌+◌, ◌*◌, ◌/◌, ◌%◌, ◌^◌, Bool, ◌&&◌, List, [], ◌∷◌, ◌++◌, Option, none, some, u32,
  ltb, ◌==◌, if◌then◌else◌, for_range,
}
use lime_os.Filesystem.{load_word, set_fs_start, dentry_count, inode_count}
use lime_os.Console.{clear, reset_screen, store, num_rows, num_cols}
use lime_os.Strings.{Arg, number, text, printf, sign_extend}
use lime_os.Pic.{Pic, Out, i8259_init}
use lime_os.Keyboard.Init.{initialize_keyboard}
use lime_os.Rtc.{initialize_rtc}
use lime_os.Process.{Kernel, with_console, sends, kernel_ds}
use lime_os.Sched.{initialize_pit}
use lime_os.Execute.{print}
use lime_os.Paging.{Tables, Places, init_paging}
use lime_os.Startup.Messages

-- `seg_desc_t`.
pub record SegDesc : Type 0 where
  pub seg_lim_15_00 : ℕ
  pub base_15_00 : ℕ
  pub base_23_16 : ℕ
  pub type_bits : ℕ
  pub sys : ℕ
  pub dpl : ℕ
  pub present : ℕ
  pub seg_lim_19_16 : ℕ
  pub avail : ℕ
  pub reserved : ℕ
  pub opsize : ℕ
  pub granularity : ℕ
  pub base_31_24 : ℕ

-- SET_LDT_PARAMS and SET_TSS_PARAMS, which are the same.
abbrev pub set_params : SegDesc → ℕ → ℕ → SegDesc
set_params d addr lim = record d {
  base_31_24 = u32 addr / 16777216;
  base_23_16 = u32 addr / 65536 % 256;
  base_15_00 = u32 addr % 65536;
  seg_lim_19_16 = lim / 65536 % 16;
  seg_lim_15_00 = lim % 65536;
}

abbrev pub tss_size_constant : ℕ
tss_size_constant = 104

-- The descriptor of the LDT. The fields that `d` holds at first are those of a local variable.
unfoldable pub ldt_descriptor : SegDesc → ℕ → ℕ → SegDesc
ldt_descriptor d ldt ldt_size =
    set_params
      (record d {
        granularity = 0;
        opsize = 1;
        reserved = 0;
        avail = 0;
        present = 1;
        dpl = 0;
        sys = 0;
        type_bits = 2;
      })
      ldt ldt_size

-- The descriptor of the TSS.
unfoldable pub tss_descriptor : SegDesc → ℕ → ℕ → SegDesc
tss_descriptor d tss tss_size =
    set_params
      (record d {
        granularity = 0;
        opsize = 0;
        reserved = 0;
        avail = 0;
        seg_lim_19_16 = tss_size_constant / 65536 % 16;
        present = 1;
        dpl = 0;
        sys = 0;
        type_bits = 9;
        seg_lim_15_00 = tss_size_constant % 65536;
      })
      tss tss_size

-- What the kernel is started with: the two arguments of entry, the string at an address, the addresses and
-- sizes of the linker, the bytes that the keyboard gives, register B, and the locals' first contents.
pub record Boot : Type 0 where
  pub magic : ℕ
  pub addr : ℕ
  pub text_at : ℕ → List ℕ
  pub ldt : ℕ
  pub ldt_size : ℕ
  pub tss : ℕ
  pub tss_size : ℕ
  pub places : Places
  pub answers : List ℕ
  pub reg_b : ℕ
  pub local_desc : SegDesc

-- The kernel with what entry sets beside it: the masks, the page tables, and the two descriptors.
pub record Machine : Type 0 where
  pub kernel : Kernel
  pub pic : Pic
  pub tables : Tables
  pub ldt_desc : SegDesc
  pub tss_desc : SegDesc
  pub ldt_segment_selector : ℕ

-- How entry ends: it returns; it stays in a loop for an answer of the keyboard; the rounds for the memory map
-- are used up; or it spins at its end, with the interrupts on.
pub data Started : Type 0 where
  returns : Kernel → Started
  waits_for_ack : Started
  out_of_rounds : Started
  spins : Machine → Started

-- printf.
abbrev pub say : Kernel → List ℕ → List Arg → Kernel
say k format args = print k (printf format args).0

-- `mbi->...`, by the field's offset.
abbrev pub word_at : Kernel → ℕ → ℕ
word_at k a = load_word k.fs.mem a

-- CHECK_FLAG.
abbrev pub check_flag : ℕ → ℕ → Bool
check_flag flags bit = flags / 2 ^ bit % 2 == 1

abbrev pub multiboot_bootloader_magic : ℕ
multiboot_bootloader_magic = 0x2BADB002

-- The first sixteen bytes of a module.
abbrev pub show_byte : ℕ → ℕ → Kernel → Kernel
show_byte mod_start i k =
    say k Messages.byte_format (number (sign_extend (k.fs.mem (u32 (mod_start + i)))) ∷ [])

-- The loop over the modules; the first number counts the modules left.
unfoldable pub show_modules : ℕ → ℕ → ℕ → Kernel → Kernel
show_modules zero mod_count this k = k
show_modules (suc left) mod_count this k =
    let mod_start = word_at k this in
    let k1 = say k Messages.loaded_format (number mod_count ∷ number mod_start ∷ []) in
    let k2 = say k1 Messages.ends_format (number mod_count ∷ number (word_at k1 (this + 4)) ∷ []) in
    let k3 = say k2 Messages.first_bytes [] in
    let k4 = for_range 16 0 (show_byte mod_start) k3 in
    show_modules left (mod_count + 1) (u32 (this + 16)) (say k4 Messages.newline [])

-- An entry of the memory map is `size`, base_addr_low, base_addr_high, length_low, length_high and type.
abbrev pub map_args : Kernel → ℕ → List Arg
map_args k mmap =
    number (word_at k mmap)
    ∷ number (word_at k (mmap + 8))
    ∷ number (word_at k (mmap + 4))
    ∷ number (word_at k (mmap + 20))
    ∷ number (word_at k (mmap + 16))
    ∷ number (word_at k (mmap + 12))
    ∷ []

-- The loop over the memory map; the first number counts the rounds.
unfoldable pub show_map : ℕ → ℕ → ℕ → Kernel → Option Kernel
show_map zero mmap end k = none
show_map (suc rounds) mmap end k =
    let shown = say k Messages.entry_format (map_args k mmap) in
    let rest = show_map rounds (u32 (mmap + word_at k mmap + 4)) end shown in
    if ltb mmap end then rest else some k

-- The clock, the timer, the pages and the colours, behind initialize_keyboard.
abbrev pub at_end : Boot → Machine → Pic → List Out → Machine
at_end b m p1 keyboard_out =
    let (p2, rtc_out) = initialize_rtc p1 b.reg_b in
    let (p3, pit_out) = initialize_pit p2 in
    let k = sends m.kernel (keyboard_out ++ (rtc_out ++ pit_out)) in
    let ready = say (say k Messages.paging_message []) Messages.enabling [] in
    let console = ready.keyboard.console in
    let colored =
      for_range (num_rows * num_cols) 0 (λ i s. store s (s.video_mem 0 + (i * 2 + 1)) 0x9)
        console in
    record m {
      kernel = with_console ready colored;
      pic = p3;
      tables = init_paging b.places m.tables;
    }

abbrev pub finish_entry : Boot → Machine → Option (Pic × List Out) → Started
finish_entry b m none = waits_for_ack
finish_entry b m (some (p, keyboard_out)) = spins (at_end b m p keyboard_out)

-- The interrupt controllers and the file system, up to
-- initialize_keyboard, with what set_fs_start prints.
abbrev pub before_keyboard : Boot → Machine → Machine
before_keyboard b m =
    let cleared = clear m.kernel.keyboard.console in
    let k1 = with_console m.kernel (reset_screen cleared) in
    let k2 = sends (say k1 Messages.initializing []) i8259_init in
    let k3 = record k2 { fs = set_fs_start k2.fs (word_at k2 (word_at k2 (b.addr + 24))) } in
    let k4 = say k3 Messages.dentry_format (number (dentry_count k3.fs) ∷ []) in
    let k5 = say k4 Messages.inode_format (number (inode_count k4.fs) ∷ []) in
    record m { kernel = k5 }

abbrev pub start_devices : Boot → Machine → Started
start_devices b m = finish_entry b (before_keyboard b m) (initialize_keyboard m.pic b.answers)

-- The descriptors and the TSS.
abbrev pub with_descriptors : Boot → Machine → Kernel → Machine
with_descriptors b m k = record m {
  ldt_desc = ldt_descriptor b.local_desc b.ldt b.ldt_size;
  tss_desc = tss_descriptor b.local_desc b.tss b.tss_size;
  ldt_segment_selector = 0x38;
  kernel = record k { ss0 = kernel_ds; esp0 = 0x800000 };
}

abbrev pub with_map : Boot → Machine → Option Kernel → Started
with_map b m none = out_of_rounds
with_map b m (some k) = start_devices b (with_descriptors b m k)

-- What is said of the fields before the modules.
abbrev pub show_fields : Boot → Kernel → Kernel
show_fields b k =
    let mbi = b.addr in
    let flags = word_at k mbi in
    let k1 = say k Messages.flags_format (number flags ∷ []) in
    let k2 =
      if check_flag flags 0
      then say k1 Messages.mem_format
          (number (word_at k (mbi + 4)) ∷ number (word_at k (mbi + 8)) ∷ [])
      else k1 in
    let k3 =
      if check_flag flags 1
      then say k2 Messages.boot_device_format (number (word_at k (mbi + 12)) ∷ [])
      else k2 in
    if check_flag flags 2
    then say k3 Messages.cmdline_format (text (b.text_at (word_at k (mbi + 16))) ∷ [])
    else k3

-- The fields and the modules.
unfoldable pub show_info : Boot → Kernel → Kernel
show_info b k =
    let said = show_fields b k in
    if check_flag (word_at k b.addr) 3
    then show_modules (word_at k (b.addr + 20)) 0 (word_at k (b.addr + 24)) said
    else said

-- The section header table.
unfoldable pub show_sections : Boot → Kernel → Kernel
show_sections b k =
    let mbi = b.addr in
    if check_flag (word_at k mbi) 5
    then say k Messages.elf_format (
        number (word_at k (mbi + 28))
        ∷ number (word_at k (mbi + 32))
        ∷ number (word_at k (mbi + 36))
        ∷ number (word_at k (mbi + 40))
        ∷ [])
    else k

-- The rounds for the memory map: an entry takes four bytes at least.
abbrev pub map_rounds : ℕ → ℕ
map_rounds mmap_length = mmap_length / 4 + 2

unfoldable pub show_memory_map : Boot → Kernel → Option Kernel
show_memory_map b k =
    let mbi = b.addr in
    let mmap_length = word_at k (mbi + 44) in
    let mmap_addr = word_at k (mbi + 48) in
    let k1 = say k Messages.mmap_format (number mmap_addr ∷ number mmap_length ∷ []) in
    let shown = show_map (map_rounds mmap_length) mmap_addr (u32 (mmap_addr + mmap_length)) k1 in
    if check_flag (word_at k mbi) 6 then shown else some k

-- From the test of bits 4 and 5 on.
abbrev pub entry_informed : Boot → Machine → Kernel → Started
entry_informed b m k =
    let flags = word_at k b.addr in
    if check_flag flags 4 && check_flag flags 5
    then returns (say k Messages.both_set [])
    else with_map b m (show_memory_map b (show_sections b k))

unfoldable pub entry : Boot → Machine → Started
entry b m =
    let k = with_console m.kernel (clear m.kernel.keyboard.console) in
    if b.magic == multiboot_bootloader_magic
    then entry_informed b m (show_info b k)
    else returns (say k Messages.invalid_magic (number b.magic ∷ []))
