-- ===== src/User/Cat/Reads.antt =====
-- One round of the loop of syscalls/ece391cat.c on a file that is open: its read and its write.
use lime_os.Prelude.{
  ℕ, ◌+◌, ◌-◌, ◌<◌, ◌≤◌, ◌≡◌, refl, sym, ap, ◌∙◌, subst, false, List, [], ◌∷◌, ◌++◌, min, length,
  length-append, u32, ◌==◌, arith,
}
use lime_os.Filesystem.{Dentry, inode_length}
use lime_os.Filesystem.Contents.{slice, slice-append, length-slice}
use lime_os.Console.{Console}
use lime_os.Console.Append.{written_on}
use lime_os.Process.{
  file_table, stdout_table, FdEntry, Kernel, free, in_use, get_tty, terminal_num, with_console,
  with_entry,
}
use lime_os.Syscall.{Reply, returned, entry, read}
use lime_os.Syscall.Fds.{entry_there, entry_elsewhere}
use lime_os.Syscall.Files.{opened, read-slice}
use lime_os.Syscall.Written.{
  written, write-written, written-append, written-with_entry, with_entry_twice,
}
use lime_os.User.{World, done, reading, calling, ece391_read, ece391_write}

-- The console with a text written on standard output: nothing happens without a text.
pub shown_console : Kernel → List ℕ → Console
shown_console k [] = k.keyboard.console
shown_console k (c ∷ s) = written_on (get_tty k) (terminal_num k) k.keyboard.console (c ∷ s)

-- The kernel with a text written on standard output.
abbrev pub shown : Kernel → List ℕ → Kernel
shown k text = with_console k (shown_console k text)

pub shown-none : (k : Kernel) → shown k [] ≡ k
unfolding shown_console
shown-none k = refl

pub written-shown :
    (k : Kernel) (first second : List ℕ)
    → written (shown k first) second ≡ written k (first ++ second)
unfolding shown_console get_tty
written-shown k [] second = refl
written-shown k (c ∷ s) second = written-append k (c ∷ s) second

pub shown-text : (k : Kernel) (text : List ℕ) → 0 < length text → written k text ≡ shown k text
unfolding shown_console
shown-text k [] h = absurd (omega arith)
shown-text k (c ∷ s) h = refl

-- A write on standard output by a process that has a descriptor open, behind what it has shown before.
module _ (k : Kernel) (fd : ℕ) (e : FdEntry) (low : 2 ≤ fd)
    (stdout_open : ((entry k 1).flags ≡ in_use) × ((entry k 1).operations ≡ stdout_table)) where
  pub write_text :
      (before new : List ℕ) (n : ℕ)
      → n ≡ length new
      → 0 < n
      → n < 2147483648
      → ece391_write 1 new n (with_entry (shown k before) fd e)
        ≡ done n (with_entry (shown k (before ++ new)) fd e)
  unfolding ece391_write
  write_text before new n size some_text small =
      ap calling (write-written (with_entry (shown k before) fd e) new n used ops size small)
      ∙ ap (done n) (
          written-with_entry (shown k before) fd e new
          ∙ ap (λ m. with_entry m fd e)
              (written-shown k before new ∙ shown-text k (before ++ new) long))
    where
      long : 0 < length (before ++ new)
      long = omega (arith, length-append before new)

      stdout_there : entry (with_entry (shown k before) fd e) 1 ≡ entry k 1
      stdout_there = entry_elsewhere (shown k before) fd 1 e (omega arith)

      used : ((entry (with_entry (shown k before) fd e) 1).flags == free) ≡ false
      used = ap (λ (e : FdEntry). e.flags == free) stdout_there ∙ ap (λ f. f == free) stdout_open.0

      ops : (entry (with_entry (shown k before) fd e) 1).operations ≡ stdout_table
      ops = ap (λ (e : FdEntry). e.operations) stdout_there ∙ stdout_open.1

module _ (k : Kernel) (fd : ℕ) (d : Dentry) (low : 2 ≤ fd) (high : fd < 8)
    (stdout_open : ((entry k 1).flags ≡ in_use) × ((entry k 1).operations ≡ stdout_table))
    (small : inode_length k.fs d.inode_number < 4294967296) where
  -- The descriptor at a position, and the kernel when the file has been shown up to there.
  abbrev pub at_position : ℕ → FdEntry
  at_position p = record (opened file_table d) { file_position = p }

  abbrev pub shown_to : ℕ → ℕ → Kernel
  shown_to p q = with_entry (shown k (slice k.fs d.inode_number 0 p)) fd (at_position q)

  -- What is left of the file, at most 1024 bytes.
  abbrev pub chunk : ℕ → ℕ
  chunk p = min 1024 (inode_length k.fs d.inode_number - p)

  here : (p q : ℕ) → entry (shown_to p q) fd ≡ at_position q
  here p q = entry_there (shown k (slice k.fs d.inode_number 0 p)) fd (at_position q)

  -- What read returns for the descriptor `e`.
  abbrev read_reply : Kernel → FdEntry → Reply
  read_reply m e =
      let count = min 1024 (inode_length m.fs e.inode_index - e.file_position) in
      returned count (slice m.fs e.inode_index e.file_position count)
        (with_entry m fd (record e { file_position = u32 (e.file_position + count) }))

  read_here :
      (p : ℕ)
      → p ≤ inode_length k.fs d.inode_number
      → read (shown_to p p) fd false 1024 ≡ read_reply (shown_to p p) (at_position p)
  read_here p h =
      read-slice (shown_to p p) fd 1024 low high (ap (λ (e : FdEntry). e.flags) (here p p))
        (ap (λ (e : FdEntry). e.operations) (here p p))
        (subst (λ (e : FdEntry). e.file_position < 4294967296) (sym (here p p)) (omega arith))
        (subst (λ (e : FdEntry). inode_length k.fs e.inode_index < 4294967296) (sym (here p p))
          small)
      ∙ ap (read_reply (shown_to p p)) (here p p)

  pub read_chunk :
      (w : World) (p : ℕ)
      → p ≤ inode_length k.fs d.inode_number
      → ece391_read w fd 1024 (shown_to p p)
        ≡ done (chunk p, slice k.fs d.inode_number p (chunk p)) (shown_to p (p + chunk p))
  unfolding ece391_read
  read_chunk w p h =
      let exact : u32 (p + chunk p) ≡ p + chunk p = omega arith in
      ap (reading w) (read_here p h)
      ∙ ap (done (chunk p, slice k.fs d.inode_number p (chunk p))) (
          with_entry_twice (shown k (slice k.fs d.inode_number 0 p)) fd (at_position p) _
          ∙ ap (shown_to p) exact)

  pub write_chunk :
      (p n : ℕ)
      → 0 < n
      → n ≤ 1024
      → ece391_write 1 (slice k.fs d.inode_number p n) n (shown_to p (p + n))
        ≡ done n (shown_to (p + n) (p + n))
  write_chunk p n some_left few =
      write_text k fd (at_position (p + n)) low stdout_open (slice k.fs d.inode_number 0 p)
        (slice k.fs d.inode_number p n) n (sym (length-slice k.fs d.inode_number p n)) some_left
        (omega arith)
      ∙ ap (λ t. done n (with_entry (shown k t) fd (at_position (p + n)))) joined
    where
      joined :
          slice k.fs d.inode_number 0 p ++ slice k.fs d.inode_number p n
          ≡ slice k.fs d.inode_number 0 (p + n)
      joined =
          let e : p ≡ 0 + p = omega arith in
          ap (λ x. slice k.fs d.inode_number 0 p ++ slice k.fs d.inode_number x n) e
          ∙ slice-append k.fs d.inode_number 0 p n
