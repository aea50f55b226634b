-- ===== src/Syscall/Calls.antt =====
-- read, write, open and getargs on a well-formed table: student-distrib/system_call.c.
use lime_os.Prelude.{
  ℕ, zero, suc, ◌+◌, ◌<◌, ◌≤◌, ◌≡◌, inl, inr, refl, sym, Bool, ◌||◌, not, List, Option, none, some,
  lt_signed, ◌==◌, update, update_self, update_ne, choose, false, arith,
}
use mathlib.Core.Option.{some-injective}
use native.Mathlib.Decide.{ℕ_discrete}
use lime_os.Filesystem
use lime_os.Filesystem.{Dentry, read_dentry_by_name}
use lime_os.Strings.{strncmp, strlen}
use lime_os.Process.{Operations, stdin_table, stdout_table, FdEntry, Kernel, pcb, free, in_use}
use lime_os.Syscall.{
  entry, call_open, call_read, call_write, read, write, find_free, table_for, open_call, open_found,
  open_entry, getargs, finish_write, finish_open, stdin_name, stdout_name, on_own_terminal,
}
use lime_os.Syscall.Fds.{
  IsFileTable, IsFdTable, KeepsTable, entries-with_entry, with_entry-IsFdTable, table_of,
}

call_read-KeepsTable :
    (k : Kernel) (fd : ℕ) (null_buf : Bool) (nbytes : ℕ)
    → IsFdTable (pcb k).fd_entry
    → 2 ≤ fd
    → (entry k fd).flags ≡ in_use
    → IsFileTable (entry k fd).operations
    → KeepsTable (call_read (entry k fd).operations.read_op k fd null_buf nbytes)
call_read-KeepsTable k fd null_buf nbytes h lo used (inl e) = rw e h
call_read-KeepsTable k fd null_buf nbytes h lo used (inr (inl e)) =
    rw e (with_entry-IsFdTable k fd _ h lo (inr (used, inr (inl e))))
call_read-KeepsTable k fd null_buf nbytes h lo used (inr (inr e)) =
    rw e (with_entry-IsFdTable k fd _ h lo (inr (used, inr (inr e))))

-- An entry from 2 on that is not free.
in_use_of :
    (k : Kernel) (fd : ℕ)
    → IsFdTable (pcb k).fd_entry
    → 2 ≤ fd
    → fd < 8
    → ((entry k fd).flags == free) ≡ false
    → (entry k fd).flags ≡ in_use
in_use_of k fd h lo hi used = elim (h.files fd lo hi) [
  | inl e ↦ absurd (ground arith)
  | inr e ↦ e.0
]

stdin_read :
    (k : Kernel) (null_buf : Bool) (nbytes : ℕ)
    → IsFdTable (pcb k).fd_entry
    → KeepsTable (call_read (entry k 0).operations.read_op k 0 null_buf nbytes)
stdin_read k null_buf nbytes h =
    rw (h.stdin_open.1) (choose KeepsTable null_buf _ _ (λ _. h) λ _. h)

pub read-KeepsTable :
    (k : Kernel) (fd : ℕ) (null_buf : Bool) (nbytes : ℕ)
    → fd < 4294967296
    → IsFdTable (pcb k).fd_entry
    → KeepsTable (read k fd null_buf nbytes)
unfolding read
read-KeepsTable k fd null_buf nbytes hw h =
    choose KeepsTable (not (lt_signed fd 8) || lt_signed fd 0 || fd == 1) _ _ (λ _. h)
      λ in_range.
        choose KeepsTable ((entry k fd).flags == free) _ _ (λ _. h)
          λ used. elim (ℕ_discrete fd 0) [
            | yes e ↦ rw e (stdin_read k null_buf nbytes h)
            | no other ↦
                let lo : 2 ≤ fd = ground arith in
                let hi : fd < 8 = ground arith in
                call_read-KeepsTable k fd null_buf nbytes h lo (in_use_of k fd h lo hi used)
                  (table_of k fd h lo hi used)
          ]

call_write-KeepsTable :
    (k : Kernel) (shown fd : ℕ) (buf : List ℕ) (nbytes : ℕ)
    → IsFdTable (pcb k).fd_entry
    → IsFileTable (entry k fd).operations
    → KeepsTable
        (finish_write shown (call_write (entry k fd).operations.write_op k (some buf) nbytes))
call_write-KeepsTable k shown fd buf nbytes h (inl e) = rw e h
call_write-KeepsTable k shown fd buf nbytes h (inr (inl e)) = rw e h
call_write-KeepsTable k shown fd buf nbytes h (inr (inr e)) = rw e h

stdout_write :
    (k : Kernel) (shown : ℕ) (buf : List ℕ) (nbytes : ℕ)
    → IsFdTable (pcb k).fd_entry
    → KeepsTable
        (finish_write shown (call_write (entry k 1).operations.write_op k (some buf) nbytes))
stdout_write k shown buf nbytes h = rw (h.stdout_open.1) h

pub write-KeepsTable :
    (k : Kernel) (fd : ℕ) (buf : Option (List ℕ)) (nbytes : ℕ)
    → fd < 4294967296
    → IsFdTable (pcb k).fd_entry
    → KeepsTable (write k fd buf nbytes)
unfolding write
write-KeepsTable k fd none nbytes hw h = h
write-KeepsTable k fd (some buf) nbytes hw h =
    choose KeepsTable (not (lt_signed fd 8) || lt_signed fd 0 || fd == 0) _ _ (λ _. h)
      λ in_range.
        choose KeepsTable ((entry k fd).flags == free) _ _ (λ _. h)
          λ used. elim (ℕ_discrete fd 1) [
            | yes e ↦ rw e (stdout_write (on_own_terminal k) _ buf nbytes h)
            | no other ↦
                call_write-KeepsTable (on_own_terminal k) _ fd buf nbytes h
                  (table_of k fd h (ground arith) (ground arith) used)
          ]

find_free-finds :
    (n i : ℕ) (entries : ℕ → FdEntry) (fd : ℕ)
    → find_free n i entries ≡ some fd
    → (i ≤ fd) × (fd < i + n) × ((entries fd).flags ≡ free)
unfolding find_free
find_free-finds zero i entries fd = λ e. absurd (ground arith)
find_free-finds (suc n) i entries fd =
    choose (λ s. s ≡ some fd → (i ≤ fd) × (fd < i + suc n) × ((entries fd).flags ≡ free))
      ((entries i).flags == free) _ _
      (λ is_free e. rw (← some-injective i fd e) (omega arith, omega arith, ground arith))
      (λ _ e.
        let (lo, hi, fr) = find_free-finds n (i + 1) entries fd e in (omega arith, omega arith, fr))

call_open-KeepsTable :
    (k : Kernel) (fd : ℕ) (t : Operations)
    → IsFdTable (pcb k).fd_entry
    → IsFileTable t
    → KeepsTable (finish_open fd (call_open t.open_op k))
unfolding Filesystem.open_file Filesystem.open_directory
call_open-KeepsTable k fd t h (inl e) = rw e h
call_open-KeepsTable k fd t h (inr (inl e)) = rw e h
call_open-KeepsTable k fd t h (inr (inr e)) = rw e h

table_for-IsFileTable : (n : ℕ) (t : Operations) → table_for n ≡ some t → IsFileTable t
table_for-IsFileTable zero t e = inl (sym (some-injective _ _ e))
table_for-IsFileTable (suc zero) t e = inr (inl (sym (some-injective _ _ e)))
table_for-IsFileTable (suc (suc zero)) t e = inr (inr (sym (some-injective _ _ e)))
table_for-IsFileTable (suc (suc (suc n))) t e = absurd (ground arith)

open_entry-KeepsTable :
    (k : Kernel) (d : Dentry) (fd : ℕ) (t : Option Operations)
    → IsFdTable (pcb k).fd_entry
    → 2 ≤ fd
    → ((u : Operations) → t ≡ some u → IsFileTable u)
    → KeepsTable (open_entry k d fd t)
open_entry-KeepsTable k d fd none h lo ht = h
open_entry-KeepsTable k d fd (some t) h lo ht =
    call_open-KeepsTable _ fd t (with_entry-IsFdTable k fd _ h lo (inr (refl, ht t refl)))
      (ht t refl)

open_found-KeepsTable :
    (k : Kernel) (found : Option Dentry) (slot : Option ℕ)
    → IsFdTable (pcb k).fd_entry
    → ((fd : ℕ) → slot ≡ some fd → 2 ≤ fd)
    → KeepsTable (open_found k found slot)
open_found-KeepsTable k none slot h lo = h
open_found-KeepsTable k (some d) none h lo = h
open_found-KeepsTable k (some d) (some fd) h lo =
    open_entry-KeepsTable k d fd _ h (lo fd refl) (table_for-IsFileTable d.file_type)

reopen-IsFdTable :
    (entries : ℕ → FdEntry)
    → IsFdTable entries
    → IsFdTable (update entries 0 (record (entries 0) { operations = stdin_table; flags = in_use }))
      × IsFdTable
          (update entries 1 (record (entries 1) { operations = stdout_table; flags = in_use }))
reopen-IsFdTable entries h = (
  record {
    stdin_open = (refl, refl);
    stdout_open = h.stdout_open;
    files = λ fd lo hi. rw (update_ne entries 0 fd _ (omega arith)) (h.files fd lo hi);
  },
  record {
    stdin_open = h.stdin_open;
    stdout_open = (refl, refl);
    files = λ fd lo hi. rw (update_ne entries 1 fd _ (omega arith)) (h.files fd lo hi);
  },
)

pub open_call-KeepsTable :
    (k : Kernel) (filename : Option (List ℕ))
    → IsFdTable (pcb k).fd_entry
    → KeepsTable (open_call k filename)
unfolding open_call
open_call-KeepsTable k none h = h
open_call-KeepsTable k (some filename) h =
    choose KeepsTable (strncmp filename stdin_name 5 == 0) _ _
      (λ _. rw entries-with_entry ((reopen-IsFdTable (pcb k).fd_entry h).0))
      λ _.
        choose KeepsTable (strncmp filename stdout_name 6 == 0) _ _
          (λ _. rw entries-with_entry ((reopen-IsFdTable (pcb k).fd_entry h).1))
          λ _. open_found-KeepsTable k _ _ h (λ fd e. (find_free-finds 6 2 (pcb k).fd_entry fd e).0)

pub getargs-KeepsTable :
    (k : Kernel) (null_buf : Bool) (nbytes : ℕ)
    → IsFdTable (pcb k).fd_entry
    → KeepsTable (getargs k null_buf nbytes)
unfolding getargs
getargs-KeepsTable k null_buf nbytes h =
    choose KeepsTable null_buf _ _ (λ _. h)
      λ _.
        choose KeepsTable (strlen (pcb k).args == 0) _ _ (λ _. h)
          λ _. rw (update_self k.pcbs k.current_pid _) h
