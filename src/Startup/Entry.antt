-- ===== src/Startup/Entry.antt =====
-- entry of student-distrib/kernel.c from the boot loader's call to its last loop.
use lime_os.Prelude.{
  ℕ, ◌+◌, ◌<◌, ◌≡◌, refl, sym, ap, ◌∙◌, subst, Bool, true, false, ◌&&◌, ◌||◌, List, [], ◌∷◌, ◌++◌,
  ltb, ◌==◌, if◌then◌else◌, all_below, all_below_lem, ==_iff,
}
use lime_os.Filesystem.{Fs, load_word, set_fs_start}
use lime_os.Console.{clear}
use lime_os.Pic.{Pic, Out, outb, enable_irq, unmask}
use lime_os.Pic.Masks.{masked}
use lime_os.Keyboard.Init.{
  NoAck, keyboard_ack, default_para, keyboard_data_port, resends, initialize_keyboard,
  initialize_keyboard-ends,
}
use lime_os.Rtc.{initialize_rtc}
use lime_os.Process.{Kernel, with_console, kernel_ds}
use lime_os.Sched.{initialize_pit}
use lime_os.Paging.{init_paging}
use lime_os.Startup.Messages
use lime_os.Startup.Report.{
  say-fs, say-stack, kernel_stack_of, show_info-fs, show_sections-fs, MapGood, Ends,
  show_memory_map-Ends,
}
use lime_os.Startup.Descriptors.{Describes, ldt_descriptor-Describes, tss_descriptor-Describes}
use lime_os.Startup.{
  Boot, SegDesc, Machine, with_descriptors, at_end, before_keyboard, spins, entry, with_map,
  start_devices, finish_entry, show_info, show_sections, show_memory_map, check_flag,
  multiboot_bootloader_magic, word_at,
}

-- Only the timer, the keyboard, the slave's line and the clock may interrupt.
abbrev pub device_mask : ℕ → ℕ
device_mask line = if ltb line 3 || line == 8 then 0 else 1

-- What the kernel has when entry reaches its last loop.
pub record IsStarted (b : Boot) (m r : Machine) : Type 0 where
  pub lines : (line : ℕ) → line < 16 → masked r.pic line ≡ device_mask line
  pub files :
      r.kernel.fs
      ≡ set_fs_start m.kernel.fs
          (load_word m.kernel.fs.mem (load_word m.kernel.fs.mem (b.addr + 24)))
  pub pages : r.tables ≡ init_paging b.places m.tables
  pub ldt_there : Describes r.ldt_desc b.ldt b.ldt_size 0x82
  pub tss_there : Describes r.tss_desc b.tss b.tss_size 0x89
  pub kernel_stack : (r.kernel.ss0 ≡ kernel_ds) × (r.kernel.esp0 ≡ 0x800000)

-- The masks behind the four calls of enable_irq.
abbrev started_pic : Pic
started_pic = record { master_mask = 0xF8; slave_mask = 0xFE }

masks :
    (reg_b : ℕ)
    → (initialize_pit
        (initialize_rtc
          (enable_irq (record { master_mask = 255; slave_mask = 255 }) 1).0
          reg_b).0).0
      ≡ started_pic
unfolding initialize_pit initialize_rtc enable_irq unmask
masks reg_b = refl

line_row : ℕ → Bool
line_row line = masked started_pic line == device_mask line

line_table : all_below 16 line_row ≡ true
unfolding all_below line_row
line_table = refl

started_lines : (line : ℕ) → line < 16 → masked started_pic line ≡ device_mask line
started_lines line h =
    (==_iff _ _).0 (unfold line_row in all_below_lem 16 line_row line line_table h)

-- The module that the boot loader loaded.
abbrev first_module : Boot → Fs → ℕ
first_module b fs = load_word fs.mem (load_word fs.mem (b.addr + 24))

-- The descriptors and the stack, which the devices leave alone.
abbrev segments : Machine → SegDesc × SegDesc × (ℕ × ℕ)
segments m = (m.ldt_desc, m.tss_desc, kernel_stack_of m.kernel)

module _ (b : Boot) (before after : List ℕ)
    (answered : b.answers ≡ before ++ (keyboard_ack ∷ after)) (no_ack : NoAck before) where
  start_devices-spins :
      (m : Machine)
      → m.pic ≡ record { master_mask = 255; slave_mask = 255 }
      → (r : Machine) × (start_devices b m ≡ spins r)
        × (r.pic ≡ started_pic)
        × (r.kernel.fs ≡ set_fs_start m.kernel.fs (first_module b m.kernel.fs))
        × (r.tables ≡ init_paging b.places m.tables)
        × (segments r ≡ segments m)
  start_devices-spins m fresh = (
    at_end b ready (enable_irq m.pic 1).0 sent,
    ap (λ l. finish_entry b ready (initialize_keyboard m.pic l)) answered
        ∙ ap (finish_entry b ready) (initialize_keyboard-ends m.pic before after no_ack),
    ap (λ p. (initialize_pit (initialize_rtc (enable_irq p 1).0 b.reg_b).0).0) fresh
        ∙ masks b.reg_b,
    say-fs _ Messages.enabling []
        ∙ say-fs _ Messages.paging_message []
        ∙ say-fs _ Messages.inode_format _
        ∙ say-fs _ Messages.dentry_format _
        ∙ ap (λ f. set_fs_start f (first_module b f)) (say-fs _ Messages.initializing []),
    refl,
    ap (λ t. (m.ldt_desc, m.tss_desc, t))
        (say-stack _ Messages.enabling []
          ∙ say-stack _ Messages.paging_message []
          ∙ say-stack _ Messages.inode_format _
          ∙ say-stack _ Messages.dentry_format _
          ∙ say-stack _ Messages.initializing []),
  )
    where
      ready : Machine
      ready = before_keyboard b m

      sent : List Out
      sent = outb default_para keyboard_data_port ∷ (resends before ++ (enable_irq m.pic 1).1)

module _ (b : Boot) (m : Machine) (before after : List ℕ)
    (loader : (b.magic == multiboot_bootloader_magic) ≡ true)
    (exclusive : (let flags = load_word m.kernel.fs.mem b.addr in
        check_flag flags 4 && check_flag flags 5)
      ≡ false)
    (map_good : MapGood m.kernel.fs.mem b.addr)
    (fresh : m.pic ≡ record { master_mask = 255; slave_mask = 255 })
    (answered : b.answers ≡ before ++ (keyboard_ack ∷ after)) (no_ack : NoAck before)
    (linked : (b.ldt < 4294967296)
      × (b.ldt_size < 1048576)
      × (b.tss < 4294967296)
      × (b.tss_size < 1048576)) where
  -- If the loader is a multiboot loader whose flags 4 and 5 are not both set, the memory map, if flag 6 says
  -- that there is one, does not run past the last address and neither does the step from one of its entries to the
  -- next, all interrupts are masked, the keyboard gives KEYBOARD_ACK at some time, and the
  -- linker's addresses are 32-bit words with sizes of 20 bits, then entry reaches its last loop: the lines of
  -- the timer, the keyboard, the slave and the clock are unmasked and no other, the file system is the first
  -- module, the page tables are those of init_paging, the descriptors of the LDT and the TSS hold the linker's
  -- address and size, and the TSS the kernel's stack.
  pub entry-spins : (r : Machine) × (entry b m ≡ spins r) × IsStarted b m r
  unfolding entry
  entry-spins = (
    done.0,
    rw (loader, not_both) (ap (with_map b m) mapped.1 ∙ done.1),
    record {
      lines = λ line h. ap (λ p. masked p line) done.2 ∙ started_lines line h;
      files = done.3 ∙ ap (λ f. set_fs_start f (first_module b f)) (mapped.2 ∙ same);
      pages = done.4;
      ldt_there =
          subst (λ d. Describes d b.ldt b.ldt_size 0x82) (sym (ap (λ t. t.0) done.5))
            (ldt_descriptor-Describes b.local_desc b.ldt b.ldt_size linked.0 linked.1);
      tss_there =
          subst (λ d. Describes d b.tss b.tss_size 0x89) (sym (ap (λ t. t.1) done.5))
            (tss_descriptor-Describes b.local_desc b.tss b.tss_size linked.2 linked.3);
      kernel_stack = (ap (λ t. t.2.0) done.5, ap (λ t. t.2.1) done.5);
    },
  )
    where
      k0 : Kernel
      k0 = with_console m.kernel (clear m.kernel.keyboard.console)

      k1 : Kernel
      k1 = show_info b k0

      k2 : Kernel
      k2 = show_sections b k1

      same : k2.fs ≡ m.kernel.fs
      same = show_sections-fs b k1 ∙ show_info-fs b k0

      not_both : (check_flag (word_at k1 b.addr) 4 && check_flag (word_at k1 b.addr) 5) ≡ false
      not_both =
          ap
            (λ (f : Fs).
              check_flag (load_word f.mem b.addr) 4 && check_flag (load_word f.mem b.addr) 5)
            (show_info-fs b k0)
          ∙ exclusive

      mapped : Ends k2 (show_memory_map b k2)
      mapped =
          show_memory_map-Ends b k2 (subst (λ (f : Fs). MapGood f.mem b.addr) (sym same) map_good)

      k3 : Kernel
      k3 = mapped.0

      described : Machine
      described = with_descriptors b m k3

      done :
          (r : Machine) × (start_devices b described ≡ spins r)
          × (r.pic ≡ started_pic)
          × (r.kernel.fs ≡ set_fs_start k3.fs (first_module b k3.fs))
          × (r.tables ≡ init_paging b.places m.tables)
          × (segments r ≡ segments described)
      done = start_devices-spins b before after answered no_ack described fresh
