-- ===== src/User/Syserr/Fresh.antt =====
-- A process with some of its descriptors open on the directory and the others free, and what the calls of
-- syscalls/ece391syserr.c do in it that should fail.
use lime_os.Prelude.{
  ℕ, ◌<◌, ◌≤◌, ◌≡◌, ◌⊎◌, refl, ap, false, true, ◌||◌, not, List, some, lt_signed, minus_one, ◌==◌,
  arith,
}
use lime_os.Filesystem.{Fs}
use lime_os.Console.{terminal_write}
use lime_os.Process.{
  stdin_table, stdout_table, directory_table, FdEntry, freed, Kernel, free, in_use, terminal_num,
  with_console,
}
use lime_os.Syscall.{entry, read, write, close, on_own_terminal, back_on_screen}
use lime_os.Syscall.Output.{write_stdout}
use lime_os.User.{
  World, User, done, pure, calling, continue_with, ece391_read, ece391_write, ece391_close,
  ece391_fdputs,
}
use lime_os.User.Support.{ece391_strlen}
use lime_os.User.Logic.{Ensures, pure-Ensures, bind-Ensures}
use lime_os.User.Syserr.{expect_failure, verdict, read_value}

-- Standard input and output are open, the descriptors from `lo` on and below `hi` are open on the directory,
-- and the others from 2 to 7 are as setup_PCB and close leave them.
pub record Stands (fs : Fs) (lo hi : ℕ) (k : Kernel) : Type 0 where
  pub same_fs : k.fs ≡ fs
  pub stdin_open : ((entry k 0).flags ≡ in_use) × ((entry k 0).operations ≡ stdin_table)
  pub stdout_open : ((entry k 1).flags ≡ in_use) × ((entry k 1).operations ≡ stdout_table)
  pub opened_here :
      (fd : ℕ)
      → lo ≤ fd
      → fd < hi
      → ((entry k fd).flags ≡ in_use) × ((entry k fd).operations ≡ directory_table)
  pub freed_there : (fd : ℕ) → 2 ≤ fd → fd < 8 → (fd < lo) ⊎ (hi ≤ fd) → entry k fd ≡ freed

-- A call that returns -1 and leaves the kernel as it is.
abbrev pub Refuses : (Kernel → Type 0) → User ℕ → Type 0
Refuses P call = (k : Kernel) → P k → call k ≡ done minus_one k

-- The kernel behind a write on standard output, and the value.
abbrev written : Kernel → List ℕ → ℕ → Kernel
written k s n =
    back_on_screen (terminal_num k)
      (with_console k (terminal_write (on_own_terminal k).keyboard.console (some s) n).0)

abbrev write_value : Kernel → List ℕ → ℕ → ℕ
write_value k s n = (terminal_write (on_own_terminal k).keyboard.console (some s) n).1

module _ (fs : Fs) (lo hi : ℕ) where
  write-done :
      (k : Kernel) (s : List ℕ) (n : ℕ)
      → Stands fs lo hi k
      → ece391_write 1 s n k ≡ done (write_value k s n) (written k s n)
  unfolding ece391_write
  write-done k s n h =
      let used : ((entry k 1).flags == 0) ≡ false = ground (arith, h.stdout_open.0) in
      ap calling (write_stdout k s n used h.stdout_open.1)

  written-Stands :
      (k : Kernel) (s : List ℕ) (n : ℕ) → Stands fs lo hi k → Stands fs lo hi (written k s n)
  written-Stands k s n h = record {
    same_fs = h.same_fs;
    stdin_open = h.stdin_open;
    stdout_open = h.stdout_open;
    opened_here = h.opened_here;
    freed_there = h.freed_there;
  }

  pub fdputs-Stands :
      (s : List ℕ) → Ensures (Stands fs lo hi) (ece391_fdputs 1 s) (λ _ r. Stands fs lo hi r)
  unfolding ece391_fdputs
  fdputs-Stands s k h = (
    tt,
    written k s (ece391_strlen s),
    ap (λ r. continue_with r (λ _. pure tt)) (write-done k s (ece391_strlen s) h),
    written-Stands k s (ece391_strlen s) h,
  )

  -- A test's step on a call that refuses: nothing is printed, and `fail` stays.
  pub expect_failure-Refuses :
      (call : User ℕ) (message : List ℕ) (fail : ℕ)
      → Refuses (Stands fs lo hi) call
      → Ensures
          (Stands fs lo hi)
          (expect_failure call message fail)
          (λ v r. (v ≡ fail) × Stands fs lo hi r)
  unfolding expect_failure
  expect_failure-Refuses call message fail refuses k h = (fail, k, rw (refuses k h) refl, (refl, h))

  -- The verdict of a test without failures.
  pub verdict-Stands :
      (pass failed : List ℕ) (fail : ℕ)
      → fail ≡ 0
      → Ensures (Stands fs lo hi) (verdict pass failed fail) (λ v r. (v ≡ 0) × Stands fs lo hi r)
  unfolding verdict
  verdict-Stands pass failed fail e =
      bind-Ensures (fdputs-Stands _) (λ _. pure-Ensures fail (λ k h. (e, h)))

  -- A descriptor that is negative or above 7.
  pub read-out_of_range :
      (w : World) (fd nbytes : ℕ)
      → (not (lt_signed fd 8) || lt_signed fd 0 || fd == 1) ≡ true
      → Refuses (Stands fs lo hi) (read_value w fd nbytes)
  unfolding ece391_read read
  read-out_of_range w fd nbytes guard k h = rw guard refl

  pub write-out_of_range :
      (fd nbytes : ℕ) (buf : List ℕ)
      → (not (lt_signed fd 8) || lt_signed fd 0 || fd == 0) ≡ true
      → Refuses (Stands fs lo hi) (ece391_write fd buf nbytes)
  unfolding ece391_write write
  write-out_of_range fd nbytes buf guard k h = rw guard refl

  pub close-out_of_range :
      (fd : ℕ)
      → (lt_signed fd 2 || not (lt_signed fd 8)) ≡ true
      → Refuses (Stands fs lo hi) (ece391_close fd)
  unfolding ece391_close close
  close-out_of_range fd guard k h = rw guard refl

-- A descriptor that is not open.
module _ (fs : Fs) (lo hi fd : ℕ) (low : 2 ≤ fd) (high : fd < 8)
    (outside : (fd < lo) ⊎ (hi ≤ fd)) where
  not_open : (k : Kernel) → Stands fs lo hi k → ((entry k fd).flags == free) ≡ true
  not_open k h = ap (λ (e : FdEntry). e.flags == free) (h.freed_there fd low high outside)

  pub read-not_open : (w : World) (nbytes : ℕ) → Refuses (Stands fs lo hi) (read_value w fd nbytes)
  unfolding ece391_read read
  read-not_open w nbytes k h =
      let guard : (not (lt_signed fd 8) || lt_signed fd 0 || fd == 1) ≡ false = ground arith in
      rw (guard, not_open k h) refl

  pub write-not_open :
      (buf : List ℕ) (nbytes : ℕ) → Refuses (Stands fs lo hi) (ece391_write fd buf nbytes)
  unfolding ece391_write write
  write-not_open buf nbytes k h =
      let guard : (not (lt_signed fd 8) || lt_signed fd 0 || fd == 0) ≡ false = ground arith in
      rw (guard, not_open k h) refl

  pub close-not_open : Refuses (Stands fs lo hi) (ece391_close fd)
  unfolding ece391_close close
  close-not_open k h =
      let guard : (lt_signed fd 2 || not (lt_signed fd 8)) ≡ false = ground arith in
      rw (guard, not_open k h) refl
