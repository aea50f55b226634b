-- ===== src/User/Cat/Lists.antt =====
-- What syscalls/ece391ls.c does with the directory.
use lime_os.Prelude.{
  ℕ, zero, suc, ◌+◌, ◌<◌, ◌≤◌, ◌≡◌, refl, sym, ap, ap₂, ◌∙◌, false, List, [], ◌∷◌, ◌++◌,
  append_assoc, append-nil, some, length, length-append, minus_one, ◌==◌, arith,
}
use lime_os.Filesystem.{Fs, Dentry, dentry_count, read_dentry_by_name, read_directory_at}
use lime_os.Filesystem.Listing.{
  entry_name, entry_name-short, read_directory_at-next, read_directory_at-end,
}
use lime_os.Strings.{strncmp}
use lime_os.Process.{FdEntry, directory_table, stdout_table, Kernel, pcb, in_use, with_entry}
use lime_os.Syscall.{Reply, returned, entry}
use lime_os.Syscall.Fds.{entry_there}
use lime_os.Syscall.Files.{IsLeastFree, opened, open_call-opened_directory, read-directory}
use lime_os.Syscall.Written.{take-length, with_entry_twice}
use lime_os.User.{World, done, reading, calling, ece391_read, ece391_open}
use lime_os.User.Cat.{ls_loop, ls_main}
use lime_os.User.Cat.Reads.{shown, shown-none, write_text}

-- The names of `n` entries from one on, each on a line of its own.
unfoldable pub lines : Fs → ℕ → ℕ → List ℕ
lines fs zero p = []
lines fs (suc n) p = (entry_name fs p ++ b'\n' ∷ []) ++ lines fs n (p + 1)

small-valid : (n : ℕ) → n < 100 → (n == minus_one) ≡ false
small-valid n small = ground arith

module _ (w : World) (k : Kernel) (fd : ℕ) (d : Dentry) (low : 2 ≤ fd) (high : fd < 8)
    (stdout_open : ((entry k 1).flags ≡ in_use) × ((entry k 1).operations ≡ stdout_table))
    (few : dentry_count k.fs < 2147483648) where
  -- The descriptor at an entry, and the kernel with a text shown.
  abbrev at_entry : ℕ → FdEntry
  at_entry p = record (opened directory_table d) { file_position = p }

  abbrev listed : List ℕ → ℕ → Kernel
  listed text p = with_entry (shown k text) fd (at_entry p)

  -- What a read at an entry does.
  abbrev reply_at : List ℕ → ℕ → ℕ × List ℕ × ℕ → Reply
  reply_at text p (ret, bytes, position) =
      returned ret bytes
        (with_entry (listed text p) fd (record (at_entry p) { file_position = position }))

  read_entry :
      (text : List ℕ) (p q ret : ℕ) (bytes : List ℕ)
      → read_directory_at k.fs p ≡ (ret, bytes, q)
      → ece391_read w fd 32 (listed text p) ≡ done (ret, bytes) (listed text q)
  unfolding ece391_read
  read_entry text p q ret bytes e =
      ap (reading w) (
        read-directory (listed text p) fd 32 (at_entry p) low high
          (entry_there (shown k text) fd (at_entry p)) refl refl
        ∙ ap (reply_at text p) e)
      ∙ ap (done (ret, bytes)) (with_entry_twice (shown k text) fd (at_entry p) (at_entry q))

  -- From an entry on, the loop lists those that are left, and returns 0.
  ls_loop-lists :
      (n p : ℕ) (text : List ℕ)
      → p + n ≡ dentry_count k.fs
      → ((i : ℕ) → i < dentry_count k.fs → 0 < length (entry_name k.fs i))
      → ls_loop w (suc n) fd (listed text p)
        ≡ done 0 (listed (text ++ lines k.fs n p) (dentry_count k.fs))
  unfolding ls_loop lines
  ls_loop-lists zero p text e named =
      let there : p ≡ dentry_count k.fs = omega (arith, e) in
      rw (read_entry text p p 0 [] (read_directory_at-end k.fs p (omega arith) (omega arith)))
        (ap₂ (λ t q. done 0 (listed t q)) (sym (append-nil text)) there)
  ls_loop-lists (suc n) p text e named =
      let size : ℕ = length (entry_name k.fs p) in
      let some_text : (size == 0) ≡ false = ground (arith, named p) in
      let valid : (size == minus_one) ≡ false =
        small-valid size (omega (arith, entry_name-short k.fs p)) in
      let valid' : (size + 1 == minus_one) ≡ false =
        small-valid (size + 1) (omega (arith, entry_name-short k.fs p)) in
      let long : size + 1 ≡ length (entry_name k.fs p ++ b'\n' ∷ []) =
        sym (length-append (entry_name k.fs p) (b'\n' ∷ [])) in
      rw
        (
          read_entry text p (p + 1) size (entry_name k.fs p)
              (read_directory_at-next k.fs p few (omega arith)),
          some_text,
          valid,
          take-length (entry_name k.fs p) size refl,
          write_text k fd (at_entry (p + 1)) low stdout_open text (entry_name k.fs p ++ b'\n' ∷ [])
              (size + 1) long (omega arith) (omega (arith, entry_name-short k.fs p)),
          valid',
        )
        (ls_loop-lists n (p + 1) (text ++ (entry_name k.fs p ++ b'\n' ∷ [])) (omega arith) named
          ∙ ap (λ t. done 0 (listed t (dentry_count k.fs)))
              (append_assoc text (entry_name k.fs p ++ b'\n' ∷ []) (lines k.fs n (p + 1))))

-- ls writes the name of every entry of the image in order on standard output, each on a line of its own, as one
-- write of all lines would, and returns 0; beside this it leaves the directory open at its end on the least free
-- descriptor. "." is a directory, standard output is open, no name is empty, there are less than 2 ^ 31 entries,
-- and the loop has a round for each entry and one more.
pub ls_main-lists :
    (w : World) (k : Kernel) (fd : ℕ) (d : Dentry)
    → read_dentry_by_name k.fs (b'.' ∷ []) ≡ some d
    → d.file_type ≡ 1
    → IsLeastFree (pcb k).fd_entry 2 8 fd
    → ((entry k 1).flags ≡ in_use) × ((entry k 1).operations ≡ stdout_table)
    → dentry_count k.fs < 2147483648
    → ((i : ℕ) → i < dentry_count k.fs → 0 < length (entry_name k.fs i))
    → ls_main w (suc (dentry_count k.fs)) k
      ≡ done 0 (
          with_entry
            (shown k (lines k.fs (dentry_count k.fs) 0))
            fd
            (record (opened directory_table d) { file_position = dentry_count k.fs }))
unfolding ls_main
ls_main-lists w k fd d found directory least out few named =
    let valid : (fd == minus_one) ≡ false = ground (arith, least.1) in rw (opens, valid) loop
  where
    opens : ece391_open (b'.' ∷ []) k ≡ done fd (with_entry k fd (opened directory_table d))
    opens =
        unfold ece391_open strncmp in
        ap calling (open_call-opened_directory k (b'.' ∷ []) d fd refl refl found directory least)

    loop :
        ls_loop w (suc (dentry_count k.fs)) fd (with_entry k fd (opened directory_table d))
        ≡ done 0 (
            with_entry
              (shown k (lines k.fs (dentry_count k.fs) 0))
              fd
              (record (opened directory_table d) { file_position = dentry_count k.fs }))
    loop =
        ap
          (λ m. ls_loop w (suc (dentry_count k.fs)) fd (with_entry m fd (opened directory_table d)))
          (sym (shown-none k))
        ∙ ls_loop-lists w k fd d least.0 least.1 out few (dentry_count k.fs) 0 [] (omega arith)
            named
