-- ===== src/Startup/Report.antt =====
-- What entry of student-distrib/kernel.c prints of the boot loader's tables changes the screen only, and the
-- loop over the memory map ends.
use lime_os.Prelude.{
  ℕ, zero, suc, ◌+◌, ◌*◌, ◌<◌, ◌≤◌, ◌≡◌, refl, sym, ap, ◌∙◌, subst, Bool, true, List, Option, none,
  some, ltb, if◌then◌else◌, u32, for_range_inv, choose, ltb→lt, arith, ◌/◌, ◌∷◌, [],
}
use lime_os.Filesystem.{Fs, load_word}
use lime_os.Strings.{Arg, number, printf}
use lime_os.Process.{Kernel}
use lime_os.Execute.{print}
use lime_os.Startup.Messages
use lime_os.Startup.{
  Boot, say, map_args, show_fields, word_at, check_flag, show_byte, show_modules, show_map,
  show_info, show_sections, show_memory_map,
}

print-fs : (k : Kernel) (s : Option (List ℕ)) → (print k s).fs ≡ k.fs
print-fs k none = refl
print-fs k (some s) = refl

pub say-fs : (k : Kernel) (format : List ℕ) (args : List Arg) → (say k format args).fs ≡ k.fs
say-fs k format args = print-fs k (printf format args).0

-- What else entry relies on: the kernel's stack in the TSS.
abbrev pub kernel_stack_of : Kernel → ℕ × ℕ
kernel_stack_of k = (k.ss0, k.esp0)

print-stack : (k : Kernel) (s : Option (List ℕ)) → kernel_stack_of (print k s) ≡ kernel_stack_of k
print-stack k none = refl
print-stack k (some s) = refl

pub say-stack :
    (k : Kernel) (format : List ℕ) (args : List Arg)
    → kernel_stack_of (say k format args) ≡ kernel_stack_of k
say-stack k format args = print-stack k (printf format args).0

-- A printf that stands under a test.
say_if-fs :
    (b : Bool) (k : Kernel) (format : List ℕ) (args : List Arg)
    → (if b then say k format args else k).fs ≡ k.fs
say_if-fs b k format args =
    choose (λ (q : Kernel). q.fs ≡ k.fs) b _ _ (λ _. say-fs k format args) λ _. refl

show_modules-fs :
    (left mod_count this : ℕ) (k : Kernel) → (show_modules left mod_count this k).fs ≡ k.fs
unfolding show_modules
show_modules-fs zero mod_count this k = refl
show_modules-fs (suc left) mod_count this k =
    show_modules-fs left (mod_count + 1) (u32 (this + 16)) _
    ∙ say-fs _ Messages.newline _
    ∙ for_range_inv (λ _ (q : Kernel). q.fs ≡ k.fs) (show_byte (word_at k this)) 0 16
        (λ i q lo hi e. say-fs q Messages.byte_format _ ∙ e) 16 0 _ (omega arith) (omega arith)
        (say-fs _ Messages.first_bytes _
          ∙ say-fs _ Messages.ends_format _
          ∙ say-fs k Messages.loaded_format _)

show_fields-fs : (b : Boot) (k : Kernel) → (show_fields b k).fs ≡ k.fs
show_fields-fs b k =
    let flags = word_at k b.addr in
    say_if-fs (check_flag flags 2) _ Messages.cmdline_format _
    ∙ say_if-fs (check_flag flags 1) _ Messages.boot_device_format _
    ∙ say_if-fs (check_flag flags 0) _ Messages.mem_format _
    ∙ say-fs k Messages.flags_format _

pub show_info-fs : (b : Boot) (k : Kernel) → (show_info b k).fs ≡ k.fs
unfolding show_info
show_info-fs b k =
    choose (λ (q : Kernel). q.fs ≡ k.fs) (check_flag (word_at k b.addr) 3) _ _
      (λ _.
        show_modules-fs (word_at k (b.addr + 20)) 0 (word_at k (b.addr + 24)) (show_fields b k)
        ∙ show_fields-fs b k)
      λ _. show_fields-fs b k

pub show_sections-fs : (b : Boot) (k : Kernel) → (show_sections b k).fs ≡ k.fs
unfolding show_sections
show_sections-fs b k = say_if-fs (check_flag (word_at k b.addr) 5) k Messages.elf_format _

-- The addresses that the loop over the memory map comes to.
pub data Visits (mem : ℕ → ℕ) (start end : ℕ) : ℕ → Type 0 where
  first_entry : Visits mem start end start
  next_entry :
      {a : ℕ}
      → Visits mem start end a
      → a < end
      → Visits mem start end (u32 (a + load_word mem a + 4))

-- Each of them that is an entry of the map leads to an address below 2 ^ 32.
abbrev pub MapFits : (ℕ → ℕ) → ℕ → ℕ → Type 0
MapFits mem start end =
    (a : ℕ) → Visits mem start end a → a < end → a + load_word mem a + 4 < 4294967296

-- The loop ends, and changes the screen only.
abbrev pub Ends : Kernel → Option Kernel → Type 0
Ends k o = (r : Kernel) × (o ≡ some r) × (r.fs ≡ k.fs)

show_map-Ends :
    (start rounds mmap end : ℕ) (k : Kernel)
    → MapFits k.fs.mem start end
    → Visits k.fs.mem start end mmap
    → end ≤ mmap + rounds * 4
    → Ends k (show_map (suc rounds) mmap end k)
unfolding show_map
show_map-Ends start zero mmap end k fits at enough =
    choose (Ends k) (ltb mmap end) _ _ (λ e. absurd (ground (arith, e))) λ _. (k, refl, refl)
show_map-Ends start (suc rounds) mmap end k fits at enough =
    choose (Ends k) (ltb mmap end) _ _
      (λ below.
        let h : mmap < end = ltb→lt mmap end below in
        let small : mmap + word_at k mmap + 4 < 4294967296 = fits mmap at h in
        let shown = say k Messages.entry_format (map_args k mmap) in
        let same : shown.fs ≡ k.fs = say-fs k Messages.entry_format _ in
        let (r, e, f) =
          show_map-Ends start rounds (u32 (mmap + word_at k mmap + 4)) end shown
            (subst (λ (f : Fs). MapFits f.mem start end) (sym same) fits)
            (subst (λ (f : Fs). Visits f.mem start end (u32 (mmap + word_at k mmap + 4))) (sym same)
              (next_entry at h))
            (omega arith) in
        (r, e, f ∙ same))
      λ _. (k, refl, refl)

-- What the loader's memory map is asked for, when there is one: it does not run past the last address, and its
-- entries fit.
abbrev pub MapGood : (ℕ → ℕ) → ℕ → Type 0
MapGood mem mbi =
    let start = load_word mem (mbi + 48) in
    let end = load_word mem (mbi + 48) + load_word mem (mbi + 44) in
    check_flag (load_word mem mbi) 6 ≡ true → (end < 4294967296) × MapFits mem start end

pub show_memory_map-Ends :
    (b : Boot) (k : Kernel) → MapGood k.fs.mem b.addr → Ends k (show_memory_map b k)
unfolding show_memory_map
show_memory_map-Ends b k good =
    choose (Ends k) (check_flag (word_at k b.addr) 6) _ _
      (λ flag.
        let (small, fits) = good flag in
        let exact : mmap_addr + mmap_length ≡ u32 (mmap_addr + mmap_length) =
          omega (arith, small) in
        let (r, e, f) =
          show_map-Ends mmap_addr (mmap_length / 4 + 1) mmap_addr (u32 (mmap_addr + mmap_length))
            said
            (subst (λ (f : Fs). MapFits f.mem mmap_addr (u32 (mmap_addr + mmap_length))) (sym same)
              (subst (MapFits k.fs.mem mmap_addr) exact fits))
            first_entry (omega arith) in
        (
          r,
          ap (λ n. show_map n mmap_addr (u32 (mmap_addr + mmap_length)) said) (omega arith) ∙ e,
          f ∙ same,
        ))
      λ _. (k, refl, refl)
  where
    mmap_length : ℕ
    mmap_length = word_at k (b.addr + 44)

    mmap_addr : ℕ
    mmap_addr = word_at k (b.addr + 48)

    said : Kernel
    said = say k Messages.mmap_format (number mmap_addr ∷ number mmap_length ∷ [])

    same : said.fs ≡ k.fs
    same = say-fs k Messages.mmap_format _
