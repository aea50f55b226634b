-- ===== src/Console/Memcpy.antt =====
-- memcpy of student-distrib/lib.c against a copy byte by byte.
use lime_os.Prelude.{
  ℕ, ◌+◌, ◌-◌, ◌*◌, ◌/◌, ◌%◌, ◌<◌, ◌≤◌, ◌≡◌, ◌⊎◌, refl, ◌∙◌, ap, fun_ext, ◌&&◌, ltb, leb,
  if◌then◌else◌, update, for_range, for_range_inv, arith,
}
use lime_os.Console.{move_byte, move_dword, head_bytes, memcpy}

-- `n` bytes of `m` from `src` copied to `dest`.
unfoldable pub copied : (ℕ → ℕ) → ℕ → ℕ → ℕ → ℕ → ℕ
copied m dest src n a = if leb dest a && ltb a (dest + n) then m (src + (a - dest)) else m a

copied-step :
    (m : ℕ → ℕ) (dest src n i : ℕ)
    → (src + n ≤ dest) ⊎ (dest + n ≤ src)
    → i < n
    → update (copied m dest src i) (dest + i) (copied m dest src i (src + i))
      ≡ copied m dest src (i + 1)
unfolding copied
copied-step m dest src n i apart h = fun_ext λ a. ground arith

module _ (m : ℕ → ℕ) (dest src n : ℕ) (apart : (src + n ≤ dest) ⊎ (dest + n ≤ src)) where
  move_dword-copied :
      (i : ℕ) → i + 4 ≤ n → move_dword dest src i (copied m dest src i) ≡ copied m dest src (i + 4)
  move_dword-copied i h = fun_ext λ a. (unfold copied in ground arith)

  move_bytes-copied :
      (rounds i : ℕ) (r : ℕ → ℕ)
      → i + rounds ≤ n
      → r ≡ copied m dest src i
      → for_range rounds i (move_byte dest src) r ≡ copied m dest src (i + rounds)
  move_bytes-copied rounds i r h =
      for_range_inv (λ k q. q ≡ copied m dest src k) (move_byte dest src) i (i + rounds)
        (λ k q lo hi e. rw e (copied-step m dest src n k apart (omega arith))) rounds i r
        (omega arith) refl

  -- memcpy, with its bytes up to an aligned address, its words of four bytes and its last bytes, does to
  -- memory what a copy byte by byte does, wherever the two regions do not overlap.
  pub memcpy_lem : memcpy m dest src n ≡ copied m dest src n
  unfolding memcpy
  memcpy_lem =
      move_bytes-copied ((n - head) % 4) (head + words * 4) moved (omega arith) moved-copied
      ∙ ap (copied m dest src) total
    where
      head : ℕ
      head = head_bytes dest n

      words : ℕ
      words = (n - head) / 4

      aligned : ℕ → ℕ
      aligned = for_range head 0 (move_byte dest src) m

      moved : ℕ → ℕ
      moved = for_range words 0 (λ w. move_dword dest src (head + w * 4)) aligned

      total : head + words * 4 + (n - head) % 4 ≡ n
      total = omega arith

      start : m ≡ copied m dest src 0
      start = fun_ext λ a. (unfold copied in ground arith)

      aligned-copied : aligned ≡ copied m dest src (head + 0 * 4)
      aligned-copied =
          move_bytes-copied head 0 m (omega arith) start ∙ ap (copied m dest src) (omega arith)

      next : (w : ℕ) → head + w * 4 + 4 ≡ head + (w + 1) * 4
      next w = omega arith

      moved-copied : moved ≡ copied m dest src (head + words * 4)
      moved-copied =
          for_range_inv (λ w q. q ≡ copied m dest src (head + w * 4))
            (λ w. move_dword dest src (head + w * 4)) 0 words
            (λ w q lo hi e.
              ap (move_dword dest src (head + w * 4)) e
              ∙ move_dword-copied (head + w * 4) (omega arith)
              ∙ ap (copied m dest src) (next w))
            words 0 aligned (omega arith) (omega arith) aligned-copied
