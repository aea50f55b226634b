-- ===== src/User/Cat/Tests.antt =====
-- cat of the one file of the sample image, and ls of an image of "." alone.
use lime_os.Prelude.{
  ℕ, zero, suc, ◌<◌, ◌≡◌, refl, false, List, [], ◌∷◌, some, length, ◌==◌, ◌||◌, if◌then◌else◌,
  arith,
}
use lime_os.Filesystem.Listing.{entry_name}
use lime_os.Strings.{strncmp}
use lime_os.Filesystem.{
  Fs, Dentry, copy_name, dentry_at, dentry_count, name_matches, read_dentry_by_name, inode_length,
  inode_address,
}
use lime_os.Filesystem.Contents.{slice}
use lime_os.Process.{Kernel, fresh_entries, directory_table, file_table, with_entry}
use lime_os.Syscall.{stdin_name, stdout_name}
use lime_os.Syscall.Files.{IsLeastFree, opened}
use lime_os.User.{World, done}
use lime_os.User.Cat.{cat_main, ls_main}
use lime_os.User.Cat.Reads.{shown}
use lime_os.User.Cat.Prints.{args_taken, cat_main-shows}
use lime_os.User.Cat.Lists.{lines, ls_main-lists}
use lime_os.Samples.{image, process, kernel, stack}

abbrev file_name : List ℕ
file_name = b'a' ∷ []

abbrev with_args : Kernel
with_args = record kernel { pcbs = λ pid. record (process pid) { args = file_name } }

abbrev alone : World
alone = record {
  on_enter = λ k. k;
  on_clock = λ k. k;
  run_child = λ k. done 0 k;
  execute_stack = stack;
  numbered = λ _ k. done 0 k;
}

abbrev file_a : Dentry
file_a = dentry_at image 0

a_length : inode_length image file_a.inode_number ≡ 5
unfolding inode_length inode_address dentry_at
a_length = refl

a_found : read_dentry_by_name image file_name ≡ some file_a
unfolding read_dentry_by_name name_matches dentry_at dentry_count
a_found = refl

a_not_stdin : (strncmp file_name stdin_name 5 == 0) ≡ false
unfolding strncmp
a_not_stdin = refl

a_not_stdout : (strncmp file_name stdout_name 6 == 0) ≡ false
unfolding strncmp
a_not_stdout = refl

a_is_file : file_a.file_type ≡ 2
unfolding dentry_at
a_is_file = refl

second_free : IsLeastFree fresh_entries 2 8 2
second_free = (omega arith, omega arith, refl, λ e lo hi. absurd (omega arith))

cat_main-shows_example :
    let size = inode_length image file_a.inode_number in
    cat_main alone 2 with_args
    ≡ done 0 (
        with_entry
          (shown (args_taken with_args) (slice image file_a.inode_number 0 size))
          2
          (record (opened file_table file_a) { file_position = size }))
cat_main-shows_example =
    cat_main-shows alone with_args file_name 2 file_a 1 refl (omega arith, omega arith, tt)
      (omega arith) (omega arith) a_not_stdin a_not_stdout a_found a_is_file second_free
      (refl, refl) (omega (arith, a_length)) (omega (arith, a_length))

-- One entry, "." of type 1.
abbrev dot_byte : ℕ → ℕ
dot_byte a = if a == 0 || a == 96 then 1 else if a == 64 then b'.' else 0

abbrev dot_image : Fs
dot_image = record { mem = dot_byte; fs_start = 0; dentry_table_flags = λ _. 0 }

abbrev dot_kernel : Kernel
dot_kernel = record kernel { fs = dot_image }

dot_count : dentry_count dot_image ≡ 1
unfolding dentry_count
dot_count = refl

dot_found : read_dentry_by_name dot_image (b'.' ∷ []) ≡ some (dentry_at dot_image 0)
unfolding read_dentry_by_name name_matches dentry_at dentry_count
dot_found = refl

dot_is_directory : (dentry_at dot_image 0).file_type ≡ 1
unfolding dentry_at
dot_is_directory = refl

dot_named : length (entry_name dot_image 0) ≡ 1
unfolding copy_name dentry_at
dot_named = refl

each_named : (i : ℕ) → i < dentry_count dot_image → 0 < length (entry_name dot_image i)
each_named zero below = omega (arith, dot_named)
each_named (suc i) below = absurd (omega (arith, dot_count, below))

ls_main-lists_example :
    ls_main alone (suc (dentry_count dot_image)) dot_kernel
    ≡ done 0 (
        with_entry
          (shown dot_kernel (lines dot_image (dentry_count dot_image) 0))
          2
          (record (opened directory_table (dentry_at dot_image 0)) {
            file_position = dentry_count dot_image;
          }))
ls_main-lists_example =
    ls_main-lists alone dot_kernel 2 (dentry_at dot_image 0) dot_found dot_is_directory second_free
      (refl, refl) (omega (arith, dot_count)) each_named
