-- ===== src/Syscall/Fds.antt =====
-- The table of open files of the running process stays well formed, and no call goes through a NULL
-- pointer.
use lime_os.Prelude.{
  ℕ, ◌<◌, ◌≤◌, ◌≡◌, ◌≢◌, ◌∙◌, ◌⊎◌, inl, inr, refl, ap, ◌||◌, not, some, lt_signed, ltb, ◌==◌,
  if◌then◌else◌, update, update_self, update_ne, choose, lt→ltb, subst, false, arith,
}
use mathlib.Core.Option.{some-injective}
use native.Mathlib.Decide.{ℕ_discrete}
use lime_os.Filesystem
use lime_os.Filesystem.{Dentry, read_dentry_by_name}
use lime_os.Rtc
use lime_os.Process.{
  Operations, stdin_table, stdout_table, rtc_table, file_table, directory_table, FdEntry, freed,
  Pcb, Kernel, pcb, free, in_use, fresh_entries, with_entry, setup_pcb,
}
use lime_os.Syscall.{
  Reply, returned, waits_for_enter, waits_for_clock, fault, entry, call_close, close, finish_close,
}

-- The tables that open gives to a file.
abbrev pub IsFileTable : Operations → Type 0
IsFileTable t = (t ≡ rtc_table) ⊎ ((t ≡ directory_table) ⊎ (t ≡ file_table))

-- An entry from 2 on: as close leaves it, or in use with one of the three tables.
abbrev pub IsFileEntry : FdEntry → Type 0
IsFileEntry e = (e ≡ freed) ⊎ ((e.flags ≡ in_use) × IsFileTable e.operations)

pub record IsFdTable (entries : ℕ → FdEntry) : Type 0 where
  pub stdin_open : ((entries 0).flags ≡ in_use) × ((entries 0).operations ≡ stdin_table)
  pub stdout_open : ((entries 1).flags ≡ in_use) × ((entries 1).operations ≡ stdout_table)
  pub files : (fd : ℕ) → 2 ≤ fd → fd < 8 → IsFileEntry (entries fd)

-- A call does not fault, and leaves the running process a well-formed table.
abbrev pub KeepsTable : Reply → Type 0
KeepsTable (returned ret bytes k) = IsFdTable (pcb k).fd_entry
KeepsTable (waits_for_enter k) = IsFdTable (pcb k).fd_entry
KeepsTable (waits_for_clock k) = IsFdTable (pcb k).fd_entry
KeepsTable fault = ⊥

pub entries-with_entry :
    (k : Kernel) (fd : ℕ) (e : FdEntry)
    → (pcb (with_entry k fd e)).fd_entry ≡ update (pcb k).fd_entry fd e
entries-with_entry k fd e =
    ap (λ (p : Pcb). p.fd_entry)
      (update_self k.pcbs k.current_pid
        (record (pcb k) { fd_entry = update (pcb k).fd_entry fd e }))

-- A change of one descriptor.
pub entry-with_entry :
    (k : Kernel) (fd i : ℕ) (e : FdEntry)
    → entry (with_entry k fd e) i ≡ update (pcb k).fd_entry fd e i
entry-with_entry k fd i e = ap (λ f. f i) (entries-with_entry k fd e)

pub entry_there : (k : Kernel) (fd : ℕ) (e : FdEntry) → entry (with_entry k fd e) fd ≡ e
entry_there k fd e = entry-with_entry k fd fd e ∙ update_self (pcb k).fd_entry fd e

pub entry_elsewhere :
    (k : Kernel) (fd i : ℕ) (e : FdEntry) → fd ≢ i → entry (with_entry k fd e) i ≡ entry k i
entry_elsewhere k fd i e ne = entry-with_entry k fd i e ∙ update_ne (pcb k).fd_entry fd i e ne

pub update-IsFdTable :
    (entries : ℕ → FdEntry) (fd : ℕ) (e : FdEntry)
    → IsFdTable entries
    → 2 ≤ fd
    → IsFileEntry e
    → IsFdTable (update entries fd e)
update-IsFdTable entries fd e h hf he = record {
  stdin_open = rw (update_ne entries fd 0 e (omega arith)) h.stdin_open;
  stdout_open = rw (update_ne entries fd 1 e (omega arith)) h.stdout_open;
  files = λ i lo hi. elim (ℕ_discrete fd i) [
    | yes same ↦ rw (← same, update_self entries fd e) he
    | no other ↦ rw (update_ne entries fd i e other) (h.files i lo hi)
  ];
}

pub with_entry-IsFdTable :
    (k : Kernel) (fd : ℕ) (e : FdEntry)
    → IsFdTable (pcb k).fd_entry
    → 2 ≤ fd
    → IsFileEntry e
    → IsFdTable (pcb (with_entry k fd e)).fd_entry
with_entry-IsFdTable k fd e h hf he =
    rw entries-with_entry (update-IsFdTable (pcb k).fd_entry fd e h hf he)

-- The table of an entry that is in use.
pub table_of :
    (k : Kernel) (fd : ℕ)
    → IsFdTable (pcb k).fd_entry
    → 2 ≤ fd
    → fd < 8
    → ((entry k fd).flags == free) ≡ false
    → IsFileTable (entry k fd).operations
table_of k fd h lo hi used = elim (h.files fd lo hi) [ inl e ↦ absurd (ground arith) | inr e ↦ e.1 ]

finish_close-KeepsTable :
    (k : Kernel) (fd : ℕ)
    → IsFdTable (pcb k).fd_entry
    → 2 ≤ fd
    → IsFileTable (entry k fd).operations
    → KeepsTable (finish_close k fd (call_close (entry k fd).operations.close_op))
unfolding Rtc.close_rtc Filesystem.close_file Filesystem.close_directory
finish_close-KeepsTable k fd h lo (inl e) = rw e (with_entry-IsFdTable k fd freed h lo (inl refl))
finish_close-KeepsTable k fd h lo (inr (inl e)) =
    rw e (with_entry-IsFdTable k fd freed h lo (inl refl))
finish_close-KeepsTable k fd h lo (inr (inr e)) =
    rw e (with_entry-IsFdTable k fd freed h lo (inl refl))

pub close-KeepsTable :
    (k : Kernel) (fd : ℕ) → fd < 4294967296 → IsFdTable (pcb k).fd_entry → KeepsTable (close k fd)
unfolding close
close-KeepsTable k fd hw h =
    choose KeepsTable (lt_signed fd 2 || not (lt_signed fd 8)) _ _ (λ _. h)
      λ in_range.
        choose KeepsTable ((entry k fd).flags == free) _ _ (λ _. h)
          λ used.
            finish_close-KeepsTable k fd h (ground arith)
              (table_of k fd h (ground arith) (ground arith) used)

pub ==-false : (a b : ℕ) → b < a → (a == b) ≡ false
==-false a b h = ground arith

pub fresh-IsFdTable :
    (old : ℕ → FdEntry) → IsFdTable (λ fd. if ltb fd 8 then fresh_entries fd else old fd)
fresh-IsFdTable old = record {
  stdin_open = (refl, refl);
  stdout_open = (refl, refl);
  files = λ fd lo hi.
      rw (lt→ltb fd 8 hi, ==-false fd 0 (omega arith), ==-false fd 1 (omega arith)) (inl refl);
}

-- Whatever setup_PCB returns, the control block of the new process has a well-formed table.
pub setup_pcb-IsFdTable :
    (k r : Kernel) (pid : ℕ) → setup_pcb k pid ≡ some r → IsFdTable (r.pcbs pid).fd_entry
unfolding setup_pcb
setup_pcb-IsFdTable k r pid =
    choose (λ s. s ≡ some r → IsFdTable (r.pcbs pid).fd_entry) (lt_signed pid 0 || lt_signed 6 pid)
      _ _ (λ _ e. absurd (ground arith))
      λ _ e.
        subst (λ (r : Kernel). IsFdTable (r.pcbs pid).fd_entry) (some-injective _ _ e)
          (rw (update_self k.pcbs pid _) (fresh-IsFdTable (k.pcbs pid).fd_entry))
