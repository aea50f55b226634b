-- ===== src/User/Syserr.antt =====
-- The acceptance tests of the system calls, syscalls/ece391syserr.c. A test returns 0 when the kernel does what
-- it expects, and 2 else. `buf` is what a test's buffer holds.
pub mod Texts
pub mod Fresh
pub mod Opens
pub mod Passes
pub mod Run
mod Tests
use lime_os.Prelude.{
  ℕ, zero, suc, ◌+◌, ◌-◌, List, [], ◌∷◌, Option, none, some, get_or, u32, lt_signed, minus_one,
  ◌==◌, if◌then◌else◌,
}
use lime_os.User.{
  World, User, pure, ◌>>=◌, ◌>>◌, ece391_read, ece391_write, ece391_open, ece391_close,
  ece391_vidmap, sys_handler, ece391_fdputs,
}
use lime_os.User.Syserr.Texts

-- The bit patterns of NEG_FD and NEG_NUM, and BIG_FD and BIG_NUM.
abbrev pub neg_fd : ℕ
neg_fd = 3221225473

abbrev pub big_fd : ℕ
big_fd = 1073741823

-- `call_sys`.
unfoldable pub call_sys : World → ℕ → User ℕ
call_sys w num = sys_handler w num

-- `if (-1 != call) { fail = 2; ece391_fdputs(1, message); }`: the value of `fail` behind it.
unfoldable pub expect_failure : User ℕ → List ℕ → ℕ → User ℕ
expect_failure call message fail = do
  ret ← call
  if ret == minus_one then pure fail else ece391_fdputs 1 message >> pure 2

-- The end of a test: its verdict, and `return fail`.
unfoldable pub verdict : List ℕ → List ℕ → ℕ → User ℕ
verdict pass failed fail = do ece391_fdputs 1 (if fail == 0 then pass else failed); pure fail

-- The value of a read.
abbrev pub read_value : World → ℕ → ℕ → User ℕ
read_value w fd nbytes = ece391_read w fd nbytes >>= λ r. pure r.0

-- The first loop of err_open_lots, with `n` rounds left: the failures are counted.
unfoldable pub open_dots : ℕ → ℕ → User ℕ
open_dots zero cnt = pure cnt
open_dots (suc n) cnt = do
  fd ← ece391_open Texts.dot_name
  open_dots n (if fd == minus_one then cnt + 1 else cnt)

-- The second loop, at descriptor `i`.
unfoldable pub close_dots : ℕ → ℕ → User Unit
close_dots zero i = pure tt
close_dots (suc n) i = ece391_close i >> close_dots n (i + 1)

-- A loop of err_unopened, over `n` descriptors from `i` on.
unfoldable pub for_descriptors : ℕ → ℕ → (ℕ → User ℕ) → List ℕ → ℕ → User ℕ
for_descriptors zero i call message fail = pure fail
for_descriptors (suc n) i call message fail = do
  a ← expect_failure (call i) message fail
  for_descriptors n (i + 1) call message a

module _ (w : World) (buf : List ℕ) where
  unfoldable pub err_neg_fd : User ℕ
  err_neg_fd = do
    a ← expect_failure (read_value w neg_fd 31) Texts.read_fail 0
    b ← expect_failure (ece391_write neg_fd buf 31) Texts.write_fail a
    c ← expect_failure (ece391_close neg_fd) Texts.close_fail b
    verdict Texts.neg_fd_pass Texts.neg_fd_fail c

  unfoldable pub err_big_fd : User ℕ
  err_big_fd = do
    a ← expect_failure (read_value w big_fd 31) Texts.read_fail 0
    b ← expect_failure (ece391_write big_fd buf 31) Texts.write_fail a
    c ← expect_failure (ece391_close big_fd) Texts.close_fail b
    verdict Texts.big_fd_pass Texts.big_fd_fail c

  unfoldable pub err_open_lots : User ℕ
  err_open_lots = do
    cnt ← open_dots 7 0
    close_dots 6 2
    if cnt == 1
        then (ece391_fdputs 1 Texts.open_lots_pass >> pure 0)
        else (ece391_fdputs 1 Texts.open_lots_fail >> pure 2)

  unfoldable pub err_open : User ℕ
  err_open = do
    a ← expect_failure (ece391_open Texts.helloo_name) Texts.helloo_fail 0
    b ← expect_failure (ece391_open Texts.shel_name) Texts.shel_fail a
    c ← expect_failure (ece391_open []) Texts.empty_fail b
    verdict Texts.open_pass Texts.open_fail c

  unfoldable pub err_unopened : User ℕ
  err_unopened = do
    a ← for_descriptors 8 0 ece391_close Texts.close_unopened 0
    b ← for_descriptors 6 2 (λ i. read_value w i 31) Texts.read_unopened a
    c ← for_descriptors 6 2 (λ i. ece391_write i buf 31) Texts.write_unopened b
    verdict Texts.unopened_pass Texts.unopened_fail c

  unfoldable pub err_vidmap : User ℕ
  err_vidmap = do
    a ← expect_failure (ece391_vidmap 0) Texts.null_fail 0
    b ← expect_failure (ece391_vidmap 0x400000) Texts.kernel_fail a
    verdict Texts.vidmap_pass Texts.vidmap_fail b

  unfoldable pub err_stdin_out : User ℕ
  err_stdin_out = do
    a ← expect_failure (ece391_write 0 buf 31) Texts.stdin_fail 0
    b ← expect_failure (read_value w 1 31) Texts.stdout_fail a
    verdict Texts.stdin_out_pass Texts.stdin_out_fail b

  unfoldable pub err_syscall_num : User ℕ
  err_syscall_num = do
    a ← expect_failure (call_sys w big_fd) Texts.syscall_zero 0
    b ← expect_failure (call_sys w neg_fd) Texts.syscall_big a
    c ← expect_failure (call_sys w 0) Texts.syscall_neg b
    verdict Texts.syscall_num_pass Texts.syscall_num_fail c

  -- Case 0 of the `switch`.
  unfoldable pub all_tests : User ℕ
  all_tests = do
    a ← err_neg_fd
    b ← err_big_fd
    c ← err_open_lots
    d ← err_open
    e ← err_unopened
    f ← err_vidmap
    g ← err_stdin_out
    h ← err_syscall_num
    let fail = a + b + c + d + e + f + g + h
    verdict Texts.all_pass Texts.all_fail fail

  -- The other cases.
  unfoldable pub one_test : ℕ → User ℕ
  one_test select =
      if select == 1
      then err_neg_fd
      else if select == 2
      then err_big_fd
      else if select == 3
      then err_open_lots
      else if select == 4
      then err_open
      else if select == 5
      then err_unopened
      else if select == 6
      then err_vidmap
      else if select == 7
      then err_stdin_out
      else if select == 8
      then err_syscall_num
      else (ece391_fdputs 1 Texts.invalid_test >> pure 0)

  -- `select` is the pattern of `buf[0] - '0'`.
  unfoldable pub syserr_main : User ℕ
  syserr_main = do
    ece391_fdputs 1 Texts.choose_test
    line ← ece391_read w 0 127
    let select = u32 (get_or line.1 0 (get_or buf 0 0) + 4294967248)
    if line.0 == minus_one
        then (ece391_fdputs 1 Texts.no_test >> pure 2)
        else if select == 0
        then all_tests
        else one_test select
