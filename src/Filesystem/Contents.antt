-- ===== src/Filesystem/Contents.antt =====
-- What `read_data` and `read_file` deliver: slices of the bytes that a file's data blocks hold.
use lime_os.Prelude.{
  ℕ, zero, suc, ◌+◌, ◌-◌, ◌*◌, ◌/◌, ◌%◌, ◌<◌, ◌≡◌, refl, ap, ap₂, ◌∙◌, min, List, [], ◌∷◌, ◌++◌,
  length, u32, leb, ◌==◌, Bool-cases, inl, inr, arith,
}
use lime_os.Filesystem.{
  Fs, load_word, inode_length, data_block_address, seek_block, copy_data, read_data_bytes,
  read_data, read_file_at,
}

abbrev pub IsBytes : (ℕ → ℕ) → Type 0
IsBytes m = (a : ℕ) → m a < 256

-- The byte at a position of a file, by the inode's table of data blocks.
pub file_byte : Fs → ℕ → ℕ → ℕ
file_byte fs inode k = fs.mem (u32 (data_block_address fs inode (k / 4096) + k % 4096))

-- `n` bytes of a file from a position on.
abbrev pub slice : Fs → ℕ → ℕ → ℕ → List ℕ
slice fs inode k zero = []
slice fs inode k (suc n) = file_byte fs inode k ∷ slice fs inode (k + 1) n

pub length-slice : (fs : Fs) (inode k n : ℕ) → length (slice fs inode k n) ≡ n
length-slice fs inode k zero = refl
length-slice fs inode k (suc n) = ap suc (length-slice fs inode (k + 1) n)

pub slice-append :
    (fs : Fs) (inode k m n : ℕ)
    → slice fs inode k m ++ slice fs inode (k + m) n ≡ slice fs inode k (m + n)
slice-append fs inode k zero n =
    let a : k + 0 ≡ k = omega arith in let b : 0 + n ≡ n = omega arith in rw (a, b)
slice-append fs inode k (suc m) n =
    let a : k + suc m ≡ k + 1 + m = omega arith in
    let b : suc m + n ≡ suc (m + n) = omega arith in rw (a, b, slice-append fs inode (k + 1) m n)

load_word-lt : (m : ℕ → ℕ) → IsBytes m → (a : ℕ) → load_word m a < 4294967296
load_word-lt m h a = omega (arith, h (u32 a), h (u32 (a + 1)), h (u32 (a + 2)), h (u32 (a + 3)))

pub inode_length-lt : (fs : Fs) (inode : ℕ) → IsBytes fs.mem → inode_length fs inode < 4294967296
unfolding inode_length
inode_length-lt fs inode h = load_word-lt fs.mem h _

-- The first loop divides by the size of a block.
seek_block_lem : (f b i : ℕ) → b < f → seek_block f b i ≡ (b % 4096, i + b / 4096)
unfolding seek_block
seek_block_lem zero b i h = absurd (omega arith)
seek_block_lem (suc f) b i h = elim (Bool-cases (leb 4096 b)) [
  | inl more ↦ rw more (seek_block_lem f (b - 4096) (i + 1) (ground arith) ∙ ground arith)
  | inr done ↦ ground arith
]

module _ (fs : Fs) (inode : ℕ) (small : inode_length fs inode < 4294967296) where
  -- The copying loop, started in step with its block index, delivers a slice.
  copy_data-slice :
      (n m index byte offset : ℕ)
      → byte < 4096
      → offset ≡ index * 4096 + byte
      → offset < inode_length fs inode
      → m ≡ min n (inode_length fs inode - offset)
      → copy_data fs inode n index (data_block_address fs inode index) byte offset
        ≡ slice fs inode offset m
  unfolding copy_data file_byte
  copy_data-slice zero zero index byte offset hb ho hl hm = refl
  copy_data-slice zero (suc m) index byte offset hb ho hl hm = absurd (omega arith)
  copy_data-slice (suc n) zero index byte offset hb ho hl hm = absurd (omega arith)
  copy_data-slice (suc n) (suc m) index byte offset hb ho hl hm =
      let next : u32 (offset + 1) ≡ offset + 1 = omega arith in
      rw next (
        ap₂ ◌∷◌
          (ap₂ (λ i b. fs.mem (u32 (data_block_address fs inode i + b))) (omega arith)
            (omega arith))
          (elim (Bool-cases (offset + 1 == inode_length fs inode)) [
            | inl stop ↦
                rw stop (ap (slice fs inode (offset + 1)) (let e : 0 ≡ m = ground arith in e))
            | inr more ↦ rw more (elim (Bool-cases (leb 4096 (byte + 1))) [
              | inl turn ↦ rw turn (
                  copy_data-slice n m (index + 1) 0 (offset + 1) (omega arith) (ground arith)
                    (ground arith) (ground arith))
              | inr same ↦ rw same (
                  copy_data-slice n m index (byte + 1) (offset + 1) (ground arith) (omega arith)
                    (ground arith) (ground arith))
            ])
          ]))

  -- What one call writes to `buf`: nothing from the end of the file on, else a slice that stops at
  -- `length` bytes or at the end of the file.
  pub read_data_bytes-slice :
      (offset n : ℕ)
      → offset < 4294967296
      → read_data_bytes fs inode offset n
        ≡ slice fs inode offset (min n (inode_length fs inode - offset))
  unfolding read_data_bytes
  read_data_bytes-slice offset n ho =
      rw (seek_block_lem (offset + 1) offset 0 (omega arith))
        (elim (Bool-cases (leb (inode_length fs inode) offset)) [
          | inl past ↦ rw past (
              ap (slice fs inode offset)
                (let e : 0 ≡ min n (inode_length fs inode - offset) = ground arith in e))
          | inr inside ↦ rw inside (
              copy_data-slice n (min n (inode_length fs inode - offset)) (0 + offset / 4096)
                (offset % 4096) offset (omega arith) (omega arith) (ground arith) refl)
        ])

  -- `read_data` returns the number of bytes that it writes, which is `length` cut at the end of the
  -- file, and what it writes are the file's bytes from the offset on, where the offset and the file's
  -- length are below 2 ^ 32.
  pub read_data_lem :
      (offset n : ℕ)
      → offset < 4294967296
      → read_data fs inode offset n ≡ (
        min n (inode_length fs inode - offset),
        slice fs inode offset (min n (inode_length fs inode - offset)),
      )
  unfolding read_data
  read_data_lem offset n ho =
      rw (read_data_bytes-slice offset n ho)
        (rw (length-slice fs inode offset (min n (inode_length fs inode - offset))))

  -- Two calls of `read_file` in a row deliver what one call for both lengths does: the same bytes in
  -- the same order, the sum of the two results, and the same position afterwards, where the position
  -- and the file's length are below 2 ^ 32.
  pub read_file_at_twice :
      (position m n : ℕ)
      → position < 4294967296
      → let (r1, b1, p1) = read_file_at fs inode position m in
        let (r2, b2, p2) = read_file_at fs inode p1 n in
        (r1 + r2, b1 ++ b2, p2) ≡ read_file_at fs inode position (m + n)
  unfolding read_file_at
  read_file_at_twice position m n hp =
      let left = inode_length fs inode - position in
      let k : ℕ = min m left in
      let j : ℕ = min n (inode_length fs inode - (position + k)) in
      let fits : u32 (position + k) ≡ position + k = omega arith in
      let total : min (m + n) left ≡ k + j = omega arith in
      let regroup : position + (k + j) ≡ position + k + j = omega arith in
      rw (
        read_data_lem position m hp,
        fits,
        read_data_lem (position + k) n (omega arith),
        read_data_lem position (m + n) hp,
        total,
        slice-append fs inode position k j,
        regroup,
      )
