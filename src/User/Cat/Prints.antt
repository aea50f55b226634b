-- ===== src/User/Cat/Prints.antt =====
-- What syscalls/ece391cat.c does with a file.
use lime_os.Prelude.{
  ℕ, zero, suc, ◌+◌, ◌*◌, ◌<◌, ◌≤◌, ◌≡◌, refl, sym, ap, ap₂, ◌∙◌, subst, true, false, List, [], ◌∷◌,
  some, length, minus_one, ◌==◌, update_self, arith,
}
use native.Mathlib.Decide.{ℕ_discrete}
use lime_os.Filesystem.{Dentry, inode_length, read_dentry_by_name}
use lime_os.Filesystem.Contents.{slice}
use lime_os.Strings.{strncmp, strlen, strncpy}
use lime_os.Strings.Compare.{IsString}
use lime_os.Strings.Copy.{strlen-length}
use lime_os.Process.{Pcb, file_table, stdout_table, Kernel, pcb, in_use, with_pcb, with_entry}
use lime_os.Syscall.{entry, getargs, stdin_name, stdout_name}
use lime_os.Syscall.Files.{IsLeastFree, opened, open_call-opened}
use lime_os.User.{World, done, calling, ece391_open, ece391_getargs}
use lime_os.User.Cat.{text_of, cat_loop, cat_main}
use lime_os.User.Cat.Reads.{shown, shown-none, shown_to, chunk, read_chunk, write_chunk}

module _ (w : World) (k : Kernel) (fd : ℕ) (d : Dentry) (low : 2 ≤ fd) (high : fd < 8)
    (stdout_open : ((entry k 1).flags ≡ in_use) × ((entry k 1).operations ≡ stdout_table))
    (small : inode_length k.fs d.inode_number < 4294967296) where
  abbrev size : ℕ
  size = inode_length k.fs d.inode_number

  abbrev seen : ℕ → Kernel
  seen p = shown_to k fd d low high stdout_open small p p

  abbrev rest : ℕ → ℕ
  rest p = chunk k fd d low high stdout_open small p

  -- At the end of the file the loop ends.
  at_end : (n p : ℕ) → p ≡ size → cat_loop w (suc n) fd (seen p) ≡ done 0 (seen size)
  unfolding cat_loop
  at_end n p e =
      let none_left : (rest p == 0) ≡ true = ground (arith, e) in
      let there : p + rest p ≡ size = omega (arith, e) in
      rw (read_chunk k fd d low high stdout_open small w p (omega arith), none_left)
        (ap₂ (λ x y. done 0 (shown_to k fd d low high stdout_open small x y)) e there)

  -- From a position on, the loop shows the rest of the file and returns 0.
  cat_loop-shows :
      (n p : ℕ)
      → p ≤ size
      → size ≤ p + n * 1024
      → cat_loop w (suc n) fd (seen p) ≡ done 0 (seen size)
  unfolding cat_loop
  cat_loop-shows zero p h enough = at_end 0 p (omega arith)
  cat_loop-shows (suc n) p h enough = elim (ℕ_discrete p size) [
    | yes e ↦ at_end (suc n) p e
    | no more ↦
        let some_left : (rest p == 0) ≡ false = ground (arith, more) in
        let valid : (rest p == minus_one) ≡ false = ground arith in
        rw
          (
            read_chunk k fd d low high stdout_open small w p h,
            some_left,
            valid,
            write_chunk k fd d low high stdout_open small p (rest p) (omega (arith, more))
                (omega arith),
            valid,
          )
          (cat_loop-shows n (p + rest p) (omega (arith, more)) (omega (arith, more)))
  ]

text_of-strncpy : (s : List ℕ) (n : ℕ) → IsString s → length s ≤ n → text_of (strncpy s n) ≡ s
unfolding strncpy
text_of-strncpy [] zero h short = refl
text_of-strncpy [] (suc n) h short = refl
text_of-strncpy (c ∷ s) zero h short = absurd (omega arith)
text_of-strncpy (c ∷ s) (suc n) h short =
    let letter : (c == 0) ≡ false = ground (arith, h.0) in
    rw (letter, letter) (ap (λ t. c ∷ t) (text_of-strncpy s n h.2 (omega arith)))

-- The kernel behind getargs.
abbrev pub args_taken : Kernel → Kernel
args_taken k = with_pcb k k.current_pid (record (pcb k) { args = [] })

getargs-takes :
    (k : Kernel) (name : List ℕ)
    → (pcb k).args ≡ name
    → IsString name
    → 0 < length name
    → ece391_getargs 1024 k ≡ done (0, strncpy name 1024) (args_taken k)
unfolding ece391_getargs getargs
getargs-takes k name is_args h long =
    let there : (strlen (pcb k).args == 0) ≡ false =
      ap (λ s. strlen s == 0) is_args ∙ ground (arith, strlen-length name h) in
    rw there (ap (λ s. done (0, strncpy s 1024) (args_taken k)) is_args)

-- cat, given the name of a regular file as its argument, writes the file's bytes on standard output, as one write
-- of the whole file would, and returns 0; beside this it takes the argument, and leaves the file open at its end
-- on the least free descriptor. The name is no more than 1024 bytes long and does not start with "stdin" or
-- "stdout", standard output is open, the file is shorter than 2 ^ 32 bytes, and the loop has a round for each 1024
-- bytes and one more.
pub cat_main-shows :
    (w : World) (k : Kernel) (name : List ℕ) (fd : ℕ) (d : Dentry) (rounds : ℕ)
    → (pcb k).args ≡ name
    → IsString name
    → 0 < length name
    → length name ≤ 1024
    → (strncmp name stdin_name 5 == 0) ≡ false
    → (strncmp name stdout_name 6 == 0) ≡ false
    → read_dentry_by_name k.fs name ≡ some d
    → d.file_type ≡ 2
    → IsLeastFree (pcb k).fd_entry 2 8 fd
    → ((entry k 1).flags ≡ in_use) × ((entry k 1).operations ≡ stdout_table)
    → inode_length k.fs d.inode_number < 4294967296
    → inode_length k.fs d.inode_number ≤ rounds * 1024
    → let content = slice k.fs d.inode_number 0 (inode_length k.fs d.inode_number) in
      cat_main w (suc rounds) k
      ≡ done 0 (
          with_entry
            (shown (args_taken k) content)
            fd
            (record (opened file_table d) { file_position = inode_length k.fs d.inode_number }))
unfolding cat_main
cat_main-shows w k name fd d rounds is_args h long short not_in not_out found file least out small
      enough =
    let name_back : text_of (strncpy name 1024) ≡ name = text_of-strncpy name 1024 h short in
    let valid : (fd == minus_one) ≡ false = ground (arith, least.1) in
    rw (getargs-takes k name is_args h long, name_back, opens, valid) loop
  where
    taken : Kernel
    taken = args_taken k

    kept : pcb taken ≡ record (pcb k) { args = [] }
    kept = update_self k.pcbs k.current_pid (record (pcb k) { args = [] })

    entries : (pcb taken).fd_entry ≡ (pcb k).fd_entry
    entries = ap (λ (p : Pcb). p.fd_entry) kept

    opens : ece391_open name taken ≡ done fd (with_entry taken fd (opened file_table d))
    opens =
        unfold ece391_open in
        ap calling (
          open_call-opened taken name d fd not_in not_out found file
            (subst (λ f. IsLeastFree f 2 8 fd) (sym entries) least))

    loop :
        cat_loop w (suc rounds) fd (with_entry taken fd (opened file_table d))
        ≡ done 0 (
            with_entry
              (shown taken (slice k.fs d.inode_number 0 (inode_length k.fs d.inode_number)))
              fd
              (record (opened file_table d) { file_position = inode_length k.fs d.inode_number }))
    loop =
        ap (λ m. cat_loop w (suc rounds) fd (with_entry m fd (opened file_table d)))
          (sym (shown-none taken))
        ∙ cat_loop-shows w taken fd d least.0 least.1
            (subst (λ f. ((f 1).flags ≡ in_use) × ((f 1).operations ≡ stdout_table)) (sym entries)
              out)
            small rounds 0 (omega arith) (omega arith)
