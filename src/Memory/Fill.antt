-- ===== src/Memory/Fill.antt =====
-- memset, memset_word and memset_dword of student-distrib/lib.c against a fill byte by byte.
use lime_os.Prelude.{
  ℕ, zero, suc, ◌+◌, ◌-◌, ◌*◌, ◌/◌, ◌%◌, ◌≡◌, refl, sym, ◌∙◌, ap, fun_ext, ◌==◌, ltb, leb, ◌&&◌,
  if◌then◌else◌, update, for_range, for_range_inv, choose, arith,
}
use lime_os.Memory.{
  store_byte, store_word, store_dword, rep_stosw, rep_stosl, memset_aligned, memset_top, replicated,
  memset, memset_word, memset_dword,
}

-- `m` with the `n` bytes from `s` replaced by those of `pattern`.
unfoldable pub filled : (ℕ → ℕ) → ℕ → (ℕ → ℕ) → ℕ → ℕ → ℕ
filled m s pattern n a = if leb s a && ltb a (s + n) then pattern (a - s) else m a

-- The byte of `c` in the place that `i` has in a row of `bytes` bytes, the lowest first.
unfoldable pub byte_of_word : ℕ → ℕ → ℕ
byte_of_word c i = if i % 2 == 0 then c % 256 else c / 256 % 256

unfoldable pub byte_of_dword : ℕ → ℕ → ℕ
byte_of_dword c i =
    if i % 4 == 0
    then c % 256
    else if i % 4 == 1
    then c / 256 % 256
    else if i % 4 == 2
    then c / 65536 % 256
    else c / 16777216 % 256

module _ (m : ℕ → ℕ) (s : ℕ) (pattern : ℕ → ℕ) where
  filled_none : m ≡ filled m s pattern 0
  unfolding filled
  filled_none = fun_ext λ a. ground arith

  -- One more byte of the pattern behind those that are there.
  byte-filled :
      {q : ℕ → ℕ} {i j addr v : ℕ}
      → q ≡ filled m s pattern i
      → addr ≡ s + i
      → j ≡ i + 1
      → v ≡ pattern i
      → update q addr v ≡ filled m s pattern j
  unfolding filled
  byte-filled {i = i} {v = v} eq at next e = rw (eq, at, next, e) (fun_ext λ a. ground arith)

  word-filled :
      {q : ℕ → ℕ} (eax : ℕ) {edi i j : ℕ}
      → q ≡ filled m s pattern i
      → edi ≡ s + i
      → j ≡ i + 2
      → eax % 256 ≡ pattern i
      → eax / 256 % 256 ≡ pattern (i + 1)
      → store_word eax edi q ≡ filled m s pattern j
  word-filled eax eq at next e e' =
      byte-filled (byte-filled eq at refl e) (omega arith) (omega arith) e'

  dword-filled :
      {q : ℕ → ℕ} (eax : ℕ) {edi i j : ℕ}
      → q ≡ filled m s pattern i
      → edi ≡ s + i
      → j ≡ i + 4
      → eax % 256 ≡ pattern i
      → eax / 256 % 256 ≡ pattern (i + 1)
      → eax / 65536 % 256 ≡ pattern (i + 2)
      → eax / 16777216 % 256 ≡ pattern (i + 3)
      → store_dword eax edi q ≡ filled m s pattern j
  dword-filled eax eq at next b0 b1 b2 b3 =
      byte-filled
        (byte-filled {j = _ + 3} (word-filled eax eq at refl b0 b1) (omega arith) (omega arith) b2)
        (omega arith) (omega arith) b3

  bytes-filled :
      (eax edi i rounds : ℕ) (q : ℕ → ℕ)
      → q ≡ filled m s pattern i
      → edi ≡ s + i
      → ((k : ℕ) → eax % 256 ≡ pattern k)
      → for_range rounds 0 (λ k. store_byte eax (edi + k)) q ≡ filled m s pattern (i + rounds)
  bytes-filled eax edi i rounds q start at same =
      for_range_inv (λ k r. r ≡ filled m s pattern (i + k)) (λ k. store_byte eax (edi + k)) 0 rounds
        (λ k r lo hi e. byte-filled e (omega arith) (omega arith) (same (i + k))) rounds 0 q
        (omega arith) (omega arith) (start ∙ ap (filled m s pattern) (omega arith))

  dwords-filled :
      (eax edi i j words : ℕ) (q : ℕ → ℕ)
      → j ≡ i + words * 4
      → q ≡ filled m s pattern i
      → edi ≡ s + i
      → ((k : ℕ)
          → (eax % 256 ≡ pattern (i + k * 4))
            × (eax / 256 % 256 ≡ pattern (i + k * 4 + 1))
            × (eax / 65536 % 256 ≡ pattern (i + k * 4 + 2))
            × (eax / 16777216 % 256 ≡ pattern (i + k * 4 + 3)))
      → rep_stosl words eax edi q ≡ filled m s pattern j
  unfolding rep_stosl
  dwords-filled eax edi i j words q end start at bytes =
      for_range_inv (λ k r. r ≡ filled m s pattern (i + k * 4)) (λ k. store_dword eax (edi + k * 4))
        0 words
        (λ k r lo hi e.
          let b = bytes k in dword-filled eax e (omega arith) (omega arith) b.0 b.1 b.2 b.3)
        words 0 q (omega arith) (omega arith) (start ∙ ap (filled m s pattern) (omega arith))
      ∙ ap (filled m s pattern) (sym end)

-- memset with a value in eax whose four bytes are the same.
module _ (eax b : ℕ) (b0 : eax % 256 ≡ b) (b1 : eax / 256 % 256 ≡ b) (b2 : eax / 65536 % 256 ≡ b)
    (b3 : eax / 16777216 % 256 ≡ b) where
  memset_aligned-filled : (n s : ℕ) (m : ℕ → ℕ) → memset_aligned n eax s m ≡ filled m s (λ k. b) n
  unfolding memset_aligned
  memset_aligned-filled n s m =
      bytes-filled m s (λ k. b) eax (s + n / 4 * 4) (n / 4 * 4) (n % 4) _
        (dwords-filled m s (λ k. b) eax s 0 (n / 4 * 4) (n / 4) m (omega arith)
          (filled_none m s (λ k. b)) (omega arith) λ k. (b0, b1, b2, b3))
        refl (λ k. b0)
      ∙ ap (filled m s (λ k. b)) (omega arith)

  memset_top-filled : (n s : ℕ) (m : ℕ → ℕ) → memset_top n eax s m ≡ filled m s (λ k. b) n
  unfolding memset_top
  memset_top-filled zero s m = filled_none m s (λ k. b)
  memset_top-filled (suc n) s m =
      choose (λ q. q ≡ filled m s (λ k. b) (suc n)) (s % 4 == 0) _ _
        (λ e. memset_aligned-filled (suc n) s m)
        λ e.
          memset_top-filled n (s + 1) (store_byte eax s m)
          ∙ (fun_ext λ a. (unfold filled in ground (arith, b0)))

module _ (m : ℕ → ℕ) (s c n : ℕ) where
  -- memset, with its bytes up to an aligned address, its words of four bytes and its last bytes, sets
  -- exactly the n bytes from s to the low byte of c.
  pub memset_lem : memset m s c n ≡ filled m s (λ k. c % 256) n
  unfolding memset
  memset_lem =
      memset_top-filled (replicated c) (c % 256) (omega arith) (omega arith) (omega arith)
        (omega arith) n s m

  -- memset_word and memset_dword store n copies of the low two bytes of c, and of its four, the lowest
  -- first, in 2 * n and 4 * n bytes from s, and change nothing else.
  pub memset_word_dword_lem :
      (memset_word m s c n ≡ filled m s (byte_of_word c) (n * 2))
      × (memset_dword m s c n ≡ filled m s (byte_of_dword c) (n * 4))
  unfolding memset_word memset_dword rep_stosw
  memset_word_dword_lem = (
    for_range_inv (λ k r. r ≡ filled m s (byte_of_word c) (k * 2)) (λ k. store_word c (s + k * 2)) 0
        n
        (λ k r lo hi e.
          word-filled m s (byte_of_word c) c e refl (omega arith)
            (unfold byte_of_word in ground arith) (unfold byte_of_word in ground arith))
        n 0 m (omega arith) (omega arith) (filled_none m s (byte_of_word c)),
    dwords-filled m s (byte_of_dword c) c s 0 (n * 4) n m (omega arith)
        (filled_none m s (byte_of_dword c)) (omega arith)
        (λ k. (
          (unfold byte_of_dword in ground arith),
          (unfold byte_of_dword in ground arith),
          (unfold byte_of_dword in ground arith),
          (unfold byte_of_dword in ground arith),
        )),
  )
