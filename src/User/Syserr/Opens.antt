-- ===== src/User/Syserr/Opens.antt =====
-- The loops of err_open_lots in syscalls/ece391syserr.c: the directory is opened until no descriptor is left, and
-- all are closed.
use lime_os.Prelude.{
  ℕ, zero, suc, ◌+◌, ◌<◌, ◌≤◌, ◌≡◌, ◌≢◌, inl, inr, refl, sym, ap, ◌∙◌, subst, false, ◌||◌, not,
  some, none, lt_signed, minus_one, ◌==◌, arith,
}
use native.Mathlib.Decide.{ℕ_discrete}
use lime_os.Filesystem
use lime_os.Filesystem.{Fs, Dentry, read_dentry_by_name}
use lime_os.Strings.{strncmp}
use lime_os.Process.{
  Operations, stdin_table, stdout_table, directory_table, FdEntry, freed, Kernel, pcb, free, in_use,
  with_entry,
}
use lime_os.Syscall.{entry, find_free, open_call, table_for, close, finish_close, call_close}
use lime_os.Syscall.Fds.{entry_there, entry_elsewhere}
use lime_os.Syscall.Files.{opened, find_free-least, find_free-none}
use lime_os.User.{done, calling, ece391_open, ece391_close}
use lime_os.User.Logic.{Ensures}
use lime_os.User.Syserr.Texts.{dot_name}
use lime_os.User.Syserr.Fresh.{Stands}
use lime_os.User.Syserr.{open_dots, close_dots}

-- What a descriptor in use with a table is.
abbrev IsOpen : Operations → FdEntry → Type 0
IsOpen t e = (e.flags ≡ in_use) × (e.operations ≡ t)

module _ (fs : Fs) (d : Dentry) (found : read_dentry_by_name fs dot_name ≡ some d)
    (directory : d.file_type ≡ 1) where
  open_dot-opens :
      (hi : ℕ) (k : Kernel)
      → 2 ≤ hi
      → hi < 8
      → Stands fs 2 hi k
      → ece391_open dot_name k ≡ done hi (with_entry k hi (opened directory_table d))
  unfolding ece391_open open_call strncmp Filesystem.open_directory
  open_dot-opens hi k lo below h =
      let least : find_free 6 2 (pcb k).fd_entry ≡ some hi =
        find_free-least 6 2 (pcb k).fd_entry hi (
          lo,
          below,
          ap (λ (e : FdEntry). e.flags) (h.freed_there hi lo below (inr (omega arith))),
          λ e lo' hi'. ground (arith, h.opened_here e),
        ) in
      let here : read_dentry_by_name k.fs dot_name ≡ some d =
        ap (λ f. read_dentry_by_name f dot_name) h.same_fs ∙ found in
      rw (here, least) (rw (ap table_for directory) refl)

  open_dot-refused : (k : Kernel) → Stands fs 2 8 k → ece391_open dot_name k ≡ done minus_one k
  unfolding ece391_open open_call strncmp
  open_dot-refused k h =
      let none_free : find_free 6 2 (pcb k).fd_entry ≡ none =
        find_free-none 6 2 (pcb k).fd_entry (λ fd lo hi. ground (arith, h.opened_here fd)) in
      let here : read_dentry_by_name k.fs dot_name ≡ some d =
        ap (λ f. read_dentry_by_name f dot_name) h.same_fs ∙ found in
      rw (here, none_free) refl

  open_dot-Stands :
      (hi : ℕ) (k : Kernel)
      → 2 ≤ hi
      → hi < 8
      → Stands fs 2 hi k
      → Stands fs 2 (hi + 1) (with_entry k hi (opened directory_table d))
  open_dot-Stands hi k lo below h = record {
    same_fs = h.same_fs;
    stdin_open = subst (IsOpen stdin_table) (sym (same 0 (omega arith))) h.stdin_open;
    stdout_open = subst (IsOpen stdout_table) (sym (same 1 (omega arith))) h.stdout_open;
    opened_here = λ fd l u. elim (ℕ_discrete hi fd) [
      | yes e ↦
          subst (IsOpen directory_table)
            (sym (
              ap (λ i. entry (with_entry k hi (opened directory_table d)) i) (sym e)
              ∙ entry_there k hi _))
            (refl, refl)
      | no ne ↦ subst (IsOpen directory_table) (sym (same fd ne)) (h.opened_here fd l (omega arith))
    ];
    freed_there =
        λ fd l u o. same fd (omega (arith, o)) ∙ h.freed_there fd l u (inr (omega (arith, o)));
  }
    where
      same : (i : ℕ) → hi ≢ i → entry (with_entry k hi (opened directory_table d)) i ≡ entry k i
      same i ne = entry_elsewhere k hi i (opened directory_table d) ne

  close-closes_directory :
      (i : ℕ) (k : Kernel)
      → 2 ≤ i
      → i < 8
      → Stands fs i 8 k
      → ece391_close i k ≡ done 0 (with_entry k i freed)
  unfolding ece391_close close Filesystem.close_directory
  close-closes_directory i k lo below h =
      let guard : (lt_signed i 2 || not (lt_signed i 8)) ≡ false = ground arith in
      let taken : ((entry k i).flags == free) ≡ false = ground (arith, h.opened_here i) in
      let its : (entry k i).operations ≡ directory_table =
        (h.opened_here i (omega arith) below).1 in
      rw (guard, taken)
        (ap (λ (t : Operations). calling (finish_close k i (call_close t.close_op))) its)

  close-Stands :
      (i : ℕ) (k : Kernel)
      → 2 ≤ i
      → i < 8
      → Stands fs i 8 k
      → Stands fs (i + 1) 8 (with_entry k i freed)
  close-Stands i k lo below h = record {
    same_fs = h.same_fs;
    stdin_open = subst (IsOpen stdin_table) (sym (same 0 (omega arith))) h.stdin_open;
    stdout_open = subst (IsOpen stdout_table) (sym (same 1 (omega arith))) h.stdout_open;
    opened_here = λ fd l u.
        subst (IsOpen directory_table) (sym (same fd (omega arith)))
          (h.opened_here fd (omega arith) u);
    freed_there = λ fd l u o. elim (ℕ_discrete i fd) [
      | yes e ↦ ap (λ j. entry (with_entry k i freed) j) (sym e) ∙ entry_there k i freed
      | no ne ↦ same fd ne ∙ h.freed_there fd l u (inl (omega (arith, o)))
    ];
  }
    where
      same : (j : ℕ) → i ≢ j → entry (with_entry k i freed) j ≡ entry k j
      same j ne = entry_elsewhere k i j freed ne

  -- The six descriptors that are free are given out, and one call more fails.
  pub open_dots-Stands :
      (n hi cnt : ℕ)
      → 2 ≤ hi
      → hi + n ≡ 8
      → Ensures (Stands fs 2 hi) (open_dots (suc n) cnt) (λ v r. (v ≡ cnt + 1) × Stands fs 2 8 r)
  unfolding open_dots
  open_dots-Stands zero hi cnt lo full k h =
      let h' : Stands fs 2 8 k = subst (λ x. Stands fs 2 x k) (omega arith) h in
      (cnt + 1, k, rw (open_dot-refused k h') refl, (refl, h'))
  open_dots-Stands (suc n) hi cnt lo full k h =
      let below : hi < 8 = omega arith in
      let valid : (hi == minus_one) ≡ false = ground arith in
      let (v, r, e, q) =
        open_dots-Stands n (hi + 1) cnt (omega arith) (omega arith)
          (with_entry k hi (opened directory_table d)) (open_dot-Stands hi k lo below h) in
      (v, r, rw (open_dot-opens hi k lo below h, valid) e, q)

  pub close_dots-Stands :
      (n i : ℕ)
      → 2 ≤ i
      → i + n ≡ 8
      → Ensures (Stands fs i 8) (close_dots n i) (λ _ r. Stands fs 2 2 r)
  unfolding close_dots
  close_dots-Stands zero i lo full k h = (
    tt,
    k,
    refl,
    record {
      same_fs = h.same_fs;
      stdin_open = h.stdin_open;
      stdout_open = h.stdout_open;
      opened_here = λ fd l u. absurd (omega arith);
      freed_there = λ fd l u o. h.freed_there fd l u (inl (omega arith));
    },
  )
  close_dots-Stands (suc n) i lo full k h =
      let below : i < 8 = omega arith in
      let (v, r, e, q) =
        close_dots-Stands n (i + 1) (omega arith) (omega arith) (with_entry k i freed)
          (close-Stands i k lo below h) in
      (v, r, rw (close-closes_directory i k lo below h) e, q)
