-- ===== src/User/Syserr/Passes.antt =====
-- The kernel passes the acceptance tests of syscalls/ece391syserr.c.
use lime_os.Prelude.{
  ℕ, zero, suc, ◌+◌, ◌<◌, ◌≤◌, ◌≡◌, inl, inr, true, false, Bool-cases, ltb, refl, ap, ◌∙◌, List, [],
  some, none, ◌==◌, arith,
}
use lime_os.Filesystem.{Fs, Dentry, read_dentry_by_name}
use lime_os.Strings.{strncmp}
use lime_os.Process.{Kernel}
use lime_os.Syscall.{open_call, vidmap, stdin_name, stdout_name}
use lime_os.User.{
  World, User, ◌>>=◌, ece391_open, ece391_close, ece391_write, ece391_vidmap, sys_handler,
}
use lime_os.User.Logic.{Ensures, pure-Ensures, bind-Ensures}
use lime_os.User.Syserr.Texts
use lime_os.User.Syserr.Texts.{dot_name, helloo_name, shel_name}
use lime_os.User.Syserr.Fresh.{
  Stands, Refuses, fdputs-Stands, expect_failure-Refuses, verdict-Stands, read-out_of_range,
  write-out_of_range, close-out_of_range, read-not_open, write-not_open, close-not_open,
}
use lime_os.User.Syserr.Opens.{open_dots-Stands, close_dots-Stands}
use lime_os.User.Syserr.{
  expect_failure, read_value, err_neg_fd, err_big_fd, err_open_lots, err_open, for_descriptors,
  err_unopened, err_vidmap, err_stdin_out, err_syscall_num, all_tests, neg_fd, big_fd, call_sys,
}

module _ (w : World) (buf : List ℕ) (fs : Fs) where
  -- A process as execute starts it.
  abbrev pub Fresh : Kernel → Type 0
  Fresh = Stands fs 2 2

  -- A test that passes.
  abbrev pub Passes : User ℕ → Type 0
  Passes p = Ensures Fresh p (λ v r. (v ≡ 0) × Fresh r)

  -- A step of a test on a call that refuses, and the steps that follow.
  step :
      (call : User ℕ) (message : List ℕ) (fail : ℕ) {f : ℕ → User ℕ}
      → Refuses Fresh call
      → fail ≡ 0
      → ((v : ℕ) → v ≡ 0 → Passes (f v))
      → Passes (expect_failure call message fail >>= f)
  step call message fail refuses e next =
      bind-Ensures (expect_failure-Refuses fs 2 2 call message fail refuses)
        (λ v k h. next v (h.0 ∙ e) k h.1)

  -- A test that passes, and the tests that follow.
  then_next :
      {p : User ℕ} {f : ℕ → User ℕ} → Passes p → ((v : ℕ) → v ≡ 0 → Passes (f v)) → Passes (p >>= f)
  then_next first next = bind-Ensures first (λ v k h. next v h.0 k h.1)

  err_neg_fd-Passes : Passes (err_neg_fd w buf)
  unfolding err_neg_fd
  err_neg_fd-Passes =
      step _ Texts.read_fail 0 (read-out_of_range fs 2 2 w neg_fd 31 refl) refl λ a ea.
        step _ Texts.write_fail a (write-out_of_range fs 2 2 neg_fd 31 buf refl) ea λ b eb.
          step _ Texts.close_fail b (close-out_of_range fs 2 2 neg_fd refl) eb
            λ c ec. verdict-Stands fs 2 2 _ _ c ec

  err_big_fd-Passes : Passes (err_big_fd w buf)
  unfolding err_big_fd
  err_big_fd-Passes =
      step _ Texts.read_fail 0 (read-out_of_range fs 2 2 w big_fd 31 refl) refl λ a ea.
        step _ Texts.write_fail a (write-out_of_range fs 2 2 big_fd 31 buf refl) ea λ b eb.
          step _ Texts.close_fail b (close-out_of_range fs 2 2 big_fd refl) eb
            λ c ec. verdict-Stands fs 2 2 _ _ c ec

  err_vidmap-Passes : Passes (err_vidmap w buf)
  unfolding err_vidmap ece391_vidmap vidmap
  err_vidmap-Passes =
      step _ Texts.null_fail 0 (λ k h. refl) refl
        λ a ea. step _ Texts.kernel_fail a (λ k h. refl) ea λ b eb. verdict-Stands fs 2 2 _ _ b eb

  err_stdin_out-Passes : Passes (err_stdin_out w buf)
  unfolding err_stdin_out
  err_stdin_out-Passes =
      step _ Texts.stdin_fail 0 (write-out_of_range fs 2 2 0 31 buf refl) refl λ a ea.
        step _ Texts.stdout_fail a (read-out_of_range fs 2 2 w 1 31 refl) ea
          λ b eb. verdict-Stands fs 2 2 _ _ b eb

  err_syscall_num-Passes : Passes (err_syscall_num w buf)
  unfolding err_syscall_num call_sys sys_handler
  err_syscall_num-Passes =
      step _ Texts.syscall_zero 0 (λ k h. refl) refl
        λ a ea.
          step _ Texts.syscall_big a (λ k h. refl) ea
            λ b eb.
              step _ Texts.syscall_neg b (λ k h. refl) eb λ c ec. verdict-Stands fs 2 2 _ _ c ec

  for_descriptors-Passes :
      (n i : ℕ) (call : ℕ → User ℕ) (message : List ℕ) (fail : ℕ)
      → ((fd : ℕ) → i ≤ fd → fd < i + n → Refuses Fresh (call fd))
      → fail ≡ 0
      → Passes (for_descriptors n i call message fail)
  unfolding for_descriptors
  for_descriptors-Passes zero i call message fail refuses e = pure-Ensures fail (λ k h. (e, h))
  for_descriptors-Passes (suc n) i call message fail refuses e =
      step _ message fail (refuses i (omega arith) (omega arith)) e λ a ea.
        for_descriptors-Passes n (i + 1) call message a
          (λ fd lo hi. refuses fd (omega arith) (omega arith)) ea

  err_unopened-Passes : Passes (err_unopened w buf)
  unfolding err_unopened
  err_unopened-Passes =
      bind-Ensures
        (for_descriptors-Passes 8 0 ece391_close Texts.close_unopened 0 close_refuses refl)
        λ a k ha.
          bind-Ensures
            (for_descriptors-Passes 6 2 (λ i. read_value w i 31) Texts.read_unopened a
              (λ fd lo hi. read-not_open fs 2 2 fd lo (omega arith) (inr lo) w 31) ha.0)
            (λ b k hb.
              bind-Ensures
                (for_descriptors-Passes 6 2 (λ i. ece391_write i buf 31) Texts.write_unopened b
                  (λ fd lo hi. write-not_open fs 2 2 fd lo (omega arith) (inr lo) buf 31) hb.0)
                (λ c k hc. verdict-Stands fs 2 2 _ _ c hc.0 k hc.1) k hb.1)
            k ha.1
    where
      close_refuses : (fd : ℕ) → 0 ≤ fd → fd < 0 + 8 → Refuses Fresh (ece391_close fd)
      close_refuses fd lo hi = elim (Bool-cases (ltb fd 2)) [
        | inl std ↦ close-out_of_range fs 2 2 fd (ground arith)
        | inr file ↦ close-not_open fs 2 2 fd (ground arith) hi (inr (ground arith))
      ]

  open-missing :
      (name : List ℕ)
      → (strncmp name stdin_name 5 == 0) ≡ false
      → (strncmp name stdout_name 6 == 0) ≡ false
      → read_dentry_by_name fs name ≡ none
      → Refuses Fresh (ece391_open name)
  unfolding ece391_open open_call
  open-missing name h0 h1 missing k h =
      rw (h0, h1, ap (λ f. read_dentry_by_name f name) h.same_fs ∙ missing) refl

  module _ (d : Dentry) (found : read_dentry_by_name fs dot_name ≡ some d)
      (directory : d.file_type ≡ 1) (no_helloo : read_dentry_by_name fs helloo_name ≡ none)
      (no_shel : read_dentry_by_name fs shel_name ≡ none)
      (no_empty : read_dentry_by_name fs [] ≡ none) where
    err_open-Passes : Passes (err_open w buf)
    unfolding err_open strncmp
    err_open-Passes =
        step _ Texts.helloo_fail 0 (open-missing helloo_name refl refl no_helloo) refl λ a ea.
          step _ Texts.shel_fail a (open-missing shel_name refl refl no_shel) ea λ b eb.
            step _ Texts.empty_fail b (open-missing [] refl refl no_empty) eb
              λ c ec. verdict-Stands fs 2 2 _ _ c ec

    err_open_lots-Passes : Passes (err_open_lots w buf)
    unfolding err_open_lots
    err_open_lots-Passes =
        bind-Ensures (open_dots-Stands fs d found directory 6 2 0 (omega arith) (omega arith))
          λ cnt k h.
            bind-Ensures (close_dots-Stands fs d found directory 6 2 (omega arith) (omega arith))
              (λ _.
                let one : (cnt == 1) ≡ true = ground (arith, h.0) in
                rw one (
                  bind-Ensures (fdputs-Stands fs 2 2 Texts.open_lots_pass)
                    (λ _. pure-Ensures 0 (λ k h. (refl, h)))))
              k h.1

    pub all_tests-Passes : Passes (all_tests w buf)
    unfolding all_tests
    all_tests-Passes = then_next err_neg_fd-Passes λ a ea. then_next err_big_fd-Passes λ b eb.
        then_next err_open_lots-Passes λ c ec. then_next err_open-Passes λ d' ed.
          then_next err_unopened-Passes λ e ee. then_next err_vidmap-Passes λ f ef.
            then_next err_stdin_out-Passes λ g eg.
              then_next err_syscall_num-Passes
                λ h eh. verdict-Stands fs 2 2 _ _ (a + b + c + d' + e + f + g + h) (omega arith)
