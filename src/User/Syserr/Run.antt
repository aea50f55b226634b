-- ===== src/User/Syserr/Run.antt =====
-- A run of syscalls/ece391syserr.c in which the user asks for all tests.
use lime_os.Prelude.{
  ℕ, ◌<◌, ◌≡◌, refl, ap, ◌∙◌, false, List, [], ◌∷◌, some, none, ◌==◌, minus_one, arith,
}
use lime_os.Filesystem.{Fs, Dentry, read_dentry_by_name}
use lime_os.Process.{Operations, Kernel, free}
use lime_os.Syscall.{entry, read, call_read, begin_terminal_read, finish_terminal_read}
use lime_os.User.{World, done, reading, typed, ece391_read}
use lime_os.User.Logic.{Ensures, bind-Ensures}
use lime_os.User.Syserr.Texts
use lime_os.User.Syserr.Texts.{dot_name, helloo_name, shel_name}
use lime_os.User.Syserr.Fresh.{Stands, fdputs-Stands}
use lime_os.User.Syserr.Passes.{Passes, all_tests-Passes}
use lime_os.User.Syserr.{syserr_main}

-- What the tests rely on of the file system: "." is a directory, and three names are missing.
pub record HasNames (fs : Fs) (d : Dentry) : Type 0 where
  pub dot_there : read_dentry_by_name fs dot_name ≡ some d
  pub dot_directory : d.file_type ≡ 1
  pub no_helloo : read_dentry_by_name fs helloo_name ≡ none
  pub no_shel : read_dentry_by_name fs shel_name ≡ none
  pub no_empty : read_dentry_by_name fs [] ≡ none

-- The rest of the system, when a process waits for a line: it leaves the process's table alone, and a line
-- comes.
pub record Types (w : World) (fs : Fs) (cnt : ℕ) (line : List ℕ) : Type 0 where
  pub keeps_table :
      (k : Kernel) → Stands fs 2 2 k → Stands fs 2 2 (w.on_enter (begin_terminal_read k))
  pub brings_line :
      (k : Kernel)
      → Stands fs 2 2 k
      → finish_terminal_read (w.on_enter (begin_terminal_read k)) ≡ some (cnt, line)

read_line :
    (w : World) (fs : Fs) (cnt nbytes : ℕ) (line : List ℕ)
    → Types w fs cnt line
    → Ensures (Stands fs 2 2) (ece391_read w 0 nbytes) (λ v r. (v ≡ (cnt, line)) × Stands fs 2 2 r)
unfolding ece391_read read
read_line w fs cnt nbytes line types k h =
    let used : ((entry k 0).flags == free) ≡ false = ground (arith, h.stdin_open.0) in
    (
      (cnt, line),
      w.on_enter (begin_terminal_read k),
      rw used (
          ap (λ (t : Operations). reading w (call_read t.read_op k 0 false nbytes)) h.stdin_open.1
          ∙ ap (typed (w.on_enter (begin_terminal_read k))) (types.brings_line k h)),
      (refl, types.keeps_table k h),
    )

-- On every kernel whose file system has the directory "." and no files "helloo", "shel" and "", a process as
-- execute starts it that runs ece391syserr and is given a line that starts with '0' gets through all eight
-- acceptance tests: the program returns 0, and its table of open files is again as it was.
pub syserr_main-Passes :
    (w : World) (buf : List ℕ) (fs : Fs) (d : Dentry) (cnt : ℕ) (rest : List ℕ) (k : Kernel)
    → HasNames fs d
    → cnt < 4294967295
    → Types w fs cnt (b'0' ∷ rest)
    → Stands fs 2 2 k
    → (r : Kernel) × (syserr_main w buf k ≡ done 0 r) × Stands fs 2 2 r
unfolding syserr_main
syserr_main-Passes w buf fs d cnt rest k names small types fresh =
    let (v, r, e, (zero_value, stands)) = whole k fresh in
    (r, e ∙ ap (λ x. done x r) zero_value, stands)
  where
    valid : (cnt == minus_one) ≡ false
    valid = ground arith

    whole : Passes w buf fs (syserr_main w buf)
    whole = bind-Ensures (fdputs-Stands fs 2 2 Texts.choose_test) (λ _.
        bind-Ensures (read_line w fs cnt 127 (b'0' ∷ rest) types) (λ v k h.
          rw (h.0, valid)
            (all_tests-Passes w buf fs d names.dot_there names.dot_directory names.no_helloo
              names.no_shel names.no_empty k h.1)))
