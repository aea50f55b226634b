-- ===== src/Paging.antt =====
-- The page tables of student-distrib/paging.c.
pub mod Walk
mod Tests
use Prim.Native.Nat.{bit_or}
use lime_os.Prelude.{ℕ, zero, suc, ◌+◌, ◌-◌, ◌*◌, ◌%◌, ◌==◌, if◌then◌else◌, u32, update, for_range}
use lime_os.Console.{vid_mem_backup, user_vid_mem_entry}

-- `KERNEL_VID_MEM_BACKUP`.
abbrev pub kernel_vid_mem_backup : ℕ → ℕ
kernel_vid_mem_backup zero = 0xB9003
kernel_vid_mem_backup (suc zero) = 0xBA003
kernel_vid_mem_backup (suc (suc i)) = 0xBB003

-- The three tables, and the control registers. The loader puts a table at a multiple of its size.
pub record Tables : Type 0 where
  pub pdt : ℕ → ℕ
  pub pt0 : ℕ → ℕ
  pub pt1 : ℕ → ℕ
  pub cr0 : ℕ
  pub cr3 : ℕ
  pub cr4 : ℕ

-- The addresses of the tables.
pub record Places : Type 0 where
  pub pdt_addr : ℕ
  pub pt0_addr : ℕ
  pub pt1_addr : ℕ

-- The body of the first loop.
abbrev pub clear_entry : ℕ → Tables → Tables
clear_entry i t = record t {
  pdt = update t.pdt i 0;
  pt0 = update t.pt0 i 0;
  pt1 = update t.pt1 i 0;
}

-- The body of the second loop.
abbrev pub set_page : ℕ → Tables → Tables
set_page i t = record t {
  pt0 = update t.pt0 (184 + i) (kernel_vid_mem_backup (i - 1));
  pt1 = update t.pt1 (i - 1) (if i == 1 then user_vid_mem_entry else vid_mem_backup (i - 1));
}

-- An address of a table has its low twelve bits clear, so that `PT0_addr | T_ZERO_MASK` is a sum. The
-- message on the screen is left out.
unfoldable pub init_paging : Places → Tables → Tables
init_paging p start =
    let t = for_range 1024 0 clear_entry start in
    let kernel = record t {
      pdt = update (update (update t.pdt 1 0x400083) 0 (p.pt0_addr + 0x17)) 25 (p.pt1_addr + 7);
      pt0 = update t.pt0 184 0xB8117;
    } in
    let pages = for_range 3 1 set_page kernel in
    record pages {
      cr3 = u32 (start.cr3 % 4096 + p.pdt_addr);
      cr4 = bit_or start.cr4 0x10;
      cr0 = bit_or start.cr0 0x80000001;
    }
