-- ===== src/Syscall/Files.antt =====
-- open, read and close one after another on a file: student-distrib/system_call.c with
-- student-distrib/filesystem.c.
use lime_os.Prelude.{
  ℕ, zero, suc, ◌+◌, ◌-◌, ◌<◌, ◌≤◌, ◌≡◌, ◌≢◌, refl, ap, ◌∙◌, sym, false, ◌||◌, not, List, [], ◌++◌,
  none, some, min, u32, lt_signed, ◌==◌, update, update_self, update_twice, update_same, arith,
}
use native.Mathlib.Decide.{ℕ_discrete}
use lime_os.Filesystem
use lime_os.Filesystem.{
  Fs, Dentry, read_dentry_by_name, inode_length, read_data, read_file_at, read_directory_at,
}
use lime_os.Filesystem.Contents.{slice, read_data_lem}
use lime_os.Strings.{strncmp}
use lime_os.Strings.Compare.{IsString, strncmp-take}
use lime_os.Process.{
  Operations, file_table, directory_table, stdin_table, FdEntry, Pcb, freed, Kernel, pcb, free,
  in_use, with_entry,
}
use lime_os.Syscall.Fds.{entries-with_entry}
use lime_os.Syscall.{
  Reply, returned, entry, reopen, read, call_read, find_free, open_call, table_for, close,
  stdin_name, stdout_name,
}

-- The least free descriptor from `i` on, below `j`.
abbrev pub IsLeastFree : (ℕ → FdEntry) → ℕ → ℕ → ℕ → Type 0
IsLeastFree entries i j fd =
    (i ≤ fd)
    × (fd < j)
    × ((entries fd).flags ≡ free)
    × ((e : ℕ) → i ≤ e → e < fd → (entries e).flags ≢ free)

==-false' : {a b : ℕ} → a ≢ b → (a == b) ≡ false
==-false' h = ground arith

pub find_free-least :
    (n i : ℕ) (entries : ℕ → FdEntry) (fd : ℕ)
    → IsLeastFree entries i (i + n) fd
    → find_free n i entries ≡ some fd
unfolding find_free
find_free-least zero i entries fd (lo, hi, fr, least) = absurd (omega arith)
find_free-least (suc n) i entries fd (lo, hi, fr, least) = elim (ℕ_discrete i fd) [
  | yes e ↦ rw (← e) (let fr' : (entries i).flags ≡ free = rw e fr in rw fr' refl)
  | no other ↦
      let used : ((entries i).flags == free) ≡ false =
        ==-false' (least i (omega arith) (omega arith)) in
      rw used (
        find_free-least n (i + 1) entries fd
          (omega arith, omega arith, fr, λ e lo' hi'. least e (omega arith) hi'))
]

-- Without a free descriptor there is none to find.
pub find_free-none :
    (n i : ℕ) (entries : ℕ → FdEntry)
    → ((fd : ℕ) → i ≤ fd → fd < i + n → (entries fd).flags ≢ free)
    → find_free n i entries ≡ none
unfolding find_free
find_free-none zero i entries used = refl
find_free-none (suc n) i entries used =
    let taken : ((entries i).flags == free) ≡ false =
      ==-false' (used i (omega arith) (omega arith)) in
    rw taken (find_free-none n (i + 1) entries (λ fd lo hi. used fd (omega arith) (omega arith)))

-- The entry that open gives to a file or a directory.
abbrev pub opened : Operations → Dentry → FdEntry
opened t d = record {
  operations = t;
  inode_index = d.inode_number;
  file_position = 0;
  flags = in_use;
}

-- open of a regular file or a directory.
pub open_call-opened :
    (k : Kernel) (filename : List ℕ) (d : Dentry) (fd : ℕ)
    → (strncmp filename stdin_name 5 == 0) ≡ false
    → (strncmp filename stdout_name 6 == 0) ≡ false
    → read_dentry_by_name k.fs filename ≡ some d
    → d.file_type ≡ 2
    → IsLeastFree (pcb k).fd_entry 2 8 fd
    → open_call k (some filename) ≡ returned fd [] (with_entry k fd (opened file_table d))
unfolding open_call Filesystem.open_file
open_call-opened k filename d fd h0 h1 found ht least =
    rw (h0, h1, found, find_free-least 6 2 (pcb k).fd_entry fd least) (rw (ap table_for ht) refl)

pub open_call-opened_directory :
    (k : Kernel) (filename : List ℕ) (d : Dentry) (fd : ℕ)
    → (strncmp filename stdin_name 5 == 0) ≡ false
    → (strncmp filename stdout_name 6 == 0) ≡ false
    → read_dentry_by_name k.fs filename ≡ some d
    → d.file_type ≡ 1
    → IsLeastFree (pcb k).fd_entry 2 8 fd
    → open_call k (some filename) ≡ returned fd [] (with_entry k fd (opened directory_table d))
unfolding open_call Filesystem.open_directory
open_call-opened_directory k filename d fd h0 h1 found ht least =
    rw (h0, h1, found, find_free-least 6 2 (pcb k).fd_entry fd least) (rw (ap table_for ht) refl)

-- The reply of read for a descriptor `e` of the directory.
abbrev directory_reply : Kernel → ℕ → FdEntry → Reply
directory_reply k fd e =
    let (ret, bytes, position) = read_directory_at k.fs e.file_position in
    returned ret bytes (with_entry k fd (record e { file_position = position }))

-- read on an open directory delivers what read_directory does at the descriptor's position.
pub read-directory :
    (k : Kernel) (fd nbytes : ℕ) (e : FdEntry)
    → 2 ≤ fd
    → fd < 8
    → entry k fd ≡ e
    → e.flags ≡ in_use
    → e.operations ≡ directory_table
    → (let (ret, bytes, position) = read_directory_at k.fs e.file_position in
        read k fd false nbytes
        ≡ returned ret bytes (with_entry k fd (record e { file_position = position })))
unfolding read
read-directory k fd nbytes e lo hi there used ops =
    let guard : (not (lt_signed fd 8) || lt_signed fd 0 || fd == 1) ≡ false = ground arith in
    let taken : ((entry k fd).flags == free) ≡ false =
      ap (λ (e : FdEntry). e.flags == free) there ∙ ap (λ f. f == free) used in
    rw (guard, taken)
      (ap (λ (e : FdEntry). call_read e.operations.read_op k fd false nbytes) there
        ∙ ap (λ (t : Operations). call_read t.read_op k fd false nbytes) ops
        ∙ ap (directory_reply k fd) there)

-- read on an open file returns the number of bytes that it stored, which is nbytes or as many as are
-- left behind the file's position; the bytes are the file's from that position on; and the position
-- moves behind them. Nothing else in the kernel changes. The position and the file's length are below
-- 2 ^ 32.
pub read-slice :
    (k : Kernel) (fd nbytes : ℕ)
    → 2 ≤ fd
    → fd < 8
    → (entry k fd).flags ≡ in_use
    → (entry k fd).operations ≡ file_table
    → (entry k fd).file_position < 4294967296
    → inode_length k.fs (entry k fd).inode_index < 4294967296
    → (let e = entry k fd in
        let count : ℕ = min nbytes (inode_length k.fs e.inode_index - e.file_position) in
        read k fd false nbytes
        ≡ returned count
            (slice k.fs e.inode_index e.file_position count)
            (with_entry k fd (record e { file_position = u32 (e.file_position + count) })))
unfolding read read_file_at
read-slice k fd nbytes lo hi used ops hp hl =
    let guard : (not (lt_signed fd 8) || lt_signed fd 0 || fd == 1) ≡ false = ground arith in
    let taken : ((entry k fd).flags == free) ≡ false = ground arith in
    let content =
      read_data_lem k.fs (entry k fd).inode_index hl (entry k fd).file_position nbytes hp in
    rw (guard, taken)
      (ap (λ (t : Operations). call_read t.read_op k fd false nbytes) ops ∙ rw content refl)

-- The entry of the running process at `fd`, replaced and then put back.
replace_back :
    (pcbs : ℕ → Pcb) (c fd : ℕ) (e : FdEntry)
    → (let p = record (pcbs c) { fd_entry = update (pcbs c).fd_entry fd e } in
        let q = update pcbs c p in
        update q c (record (q c) { fd_entry = update (q c).fd_entry fd ((pcbs c).fd_entry fd) })
        ≡ pcbs)
replace_back pcbs c fd e =
    update_twice pcbs c p _
    ∙ ap (λ r. update pcbs c (record r { fd_entry = update r.fd_entry fd (old fd) }))
        (update_self pcbs c p)
    ∙ ap (λ f. update pcbs c (record (pcbs c) { fd_entry = f }))
        (update_twice old fd e _ ∙ update_same old fd)
    ∙ update_same pcbs c
  where
    old : ℕ → FdEntry
    old = (pcbs c).fd_entry

    p : Pcb
    p = record (pcbs c) { fd_entry = update old fd e }

close-closes :
    (k : Kernel) (fd : ℕ)
    → 2 ≤ fd
    → fd < 8
    → (entry k fd).flags ≡ in_use
    → (entry k fd).operations ≡ file_table
    → close k fd ≡ returned 0 [] (with_entry k fd freed)
unfolding close Filesystem.close_file
close-closes k fd lo hi used ops =
    let guard : (lt_signed fd 2 || not (lt_signed fd 8)) ≡ false = ground arith in
    let taken : ((entry k fd).flags == free) ≡ false = ground arith in rw (guard, taken, ops) refl

-- If the name is no "stdin" or "stdout" and names a regular file, open takes the least free descriptor
-- from 2 on, and closing it again gives back the very kernel that there was before, if the
-- entry was as setup_PCB and close leave it.
pub open_call-close :
    (k : Kernel) (filename : List ℕ) (d : Dentry) (fd : ℕ)
    → (strncmp filename stdin_name 5 == 0) ≡ false
    → (strncmp filename stdout_name 6 == 0) ≡ false
    → read_dentry_by_name k.fs filename ≡ some d
    → d.file_type ≡ 2
    → IsLeastFree (pcb k).fd_entry 2 8 fd
    → entry k fd ≡ freed
    → (opened_kernel : Kernel) × (open_call k (some filename) ≡ returned fd [] opened_kernel)
      × (entry opened_kernel fd ≡ opened file_table d)
      × (close opened_kernel fd ≡ returned 0 [] k)
open_call-close k filename d fd h0 h1 found ht least was = (
  after,
  open_call-opened k filename d fd h0 h1 found ht least,
  there,
  close-closes after fd least.0 least.1 (ap (λ (e : FdEntry). e.flags) there)
        (ap (λ (e : FdEntry). e.operations) there)
      ∙ ap (λ e. returned 0 [] (with_entry after fd e)) (sym was)
      ∙ ap (λ pcbs. returned 0 [] (record k { pcbs = pcbs }))
          (replace_back k.pcbs k.current_pid fd (opened file_table d)),
)
  where
    after : Kernel
    after = with_entry k fd (opened file_table d)

    there : entry after fd ≡ opened file_table d
    there =
        ap (λ f. f fd) (entries-with_entry k fd (opened file_table d))
        ∙ update_self (pcb k).fd_entry fd _

stdin-IsString : (rest : List ℕ) → IsString rest → IsString (stdin_name ++ rest)
stdin-IsString rest h = (
  omega arith,
  omega arith,
  (
    omega arith,
    omega arith,
    (omega arith, omega arith, (omega arith, omega arith, (omega arith, omega arith, h))),
  ),
)

-- open does not compare the whole name with "stdin": any name that starts with these five letters gives
-- standard input, whatever files there are.
pub open_call-stdin_prefix :
    (k : Kernel) (rest : List ℕ)
    → IsString rest
    → open_call k (some (stdin_name ++ rest)) ≡ returned 0 [] (reopen k 0 stdin_table)
unfolding open_call
open_call-stdin_prefix k rest h =
    let same : strncmp (stdin_name ++ rest) stdin_name 5 ≡ 0 =
      (strncmp-take (stdin_name ++ rest) stdin_name 5 (stdin-IsString rest h)
          (stdin-IsString [] tt)).1
        refl in
    rw same refl
