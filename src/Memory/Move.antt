-- ===== src/Memory/Move.antt =====
-- memmove of student-distrib/lib.c against a copy of the bytes the source held before it.
use lime_os.Prelude.{
  ℕ, ◌+◌, ◌-◌, ◌≤◌, ◌<◌, ◌≡◌, ◌∙◌, fun_ext, leb, update, for_range_inv, choose, arith, tests,
}
use lime_os.Console.Memcpy.{copied}
use lime_os.Memory.{rep_movsb_up, rep_movsb_down, memmove}

module _ (m : ℕ → ℕ) (dest src n : ℕ) where
  -- The last `k` bytes of the region moved.
  moved_last : ℕ → ℕ → ℕ
  moved_last k = copied m (dest + (n - k)) (src + (n - k)) k

  up-step :
      (i : ℕ)
      → dest ≤ src
      → update (copied m dest src i) (dest + i) (copied m dest src i (src + i))
        ≡ copied m dest src (i + 1)
  unfolding copied
  up-step i below = fun_ext λ a. ground arith

  down-step :
      (i : ℕ)
      → src < dest
      → i < n
      → update (moved_last i) (dest + n - 1 - i) (moved_last i (src + n - 1 - i))
        ≡ moved_last (i + 1)
  unfolding copied moved_last
  down-step i below h = fun_ext λ a. ground arith

  rep_movsb_up-copied : dest ≤ src → rep_movsb_up n dest src m ≡ copied m dest src n
  unfolding rep_movsb_up
  rep_movsb_up-copied below =
      for_range_inv (λ k q. q ≡ copied m dest src k) (λ i q. update q (dest + i) (q (src + i))) 0 n
        (λ k q lo hi e. rw e (up-step k below)) n 0 m (omega arith) (omega arith)
        (fun_ext λ a. (unfold copied in ground arith))

  rep_movsb_down-copied :
      src < dest → rep_movsb_down n (dest + n - 1) (src + n - 1) m ≡ copied m dest src n
  unfolding rep_movsb_down
  rep_movsb_down-copied below =
      for_range_inv (λ k q. q ≡ moved_last k)
        (λ i q. update q (dest + n - 1 - i) (q (src + n - 1 - i))) 0 n
        (λ k q lo hi e. rw e (down-step k below hi)) n 0 m (omega arith) (omega arith)
        (fun_ext λ a. (unfold copied moved_last in ground arith))
      ∙ (fun_ext λ a. (unfold copied moved_last in ground arith))

  -- memmove leaves the destination holding the bytes that the source held before the call, and every
  -- other byte as it was, however the two regions overlap.
  pub memmove_lem : memmove m dest src n ≡ copied m dest src n
  unfolding memmove
  memmove_lem =
      choose (λ q. q ≡ copied m dest src n) (leb dest src) _ _
        (λ e. rep_movsb_up-copied (omega (tests, e))) λ e. rep_movsb_down-copied (ground arith)
