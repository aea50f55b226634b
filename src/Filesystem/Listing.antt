-- ===== src/Filesystem/Listing.antt =====
-- How repeated calls of `read_directory` walk through the entries.
use lime_os.Prelude.{ℕ, zero, suc, ◌+◌, ◌<◌, ◌≤◌, ◌≡◌, List, [], ◌∷◌, length, ◌==◌, choose, arith}
use lime_os.Filesystem.{
  Fs, dentry_at, dentry_count, read_dentry_by_index, copy_name, max_name_length, read_directory_at,
}

-- The name of an entry, up to its '\0'.
abbrev pub entry_name : Fs → ℕ → List ℕ
entry_name fs i = copy_name max_name_length (dentry_at fs i).file_name

copy_name-short : (n : ℕ) (name : List ℕ) → length (copy_name n name) ≤ n
unfolding copy_name
copy_name-short zero name = omega arith
copy_name-short (suc n) [] = omega arith
copy_name-short (suc n) (c ∷ name) =
    choose (λ (l : List ℕ). length l ≤ suc n) (c == 0) _ _ (λ _. omega arith)
      λ _. omega (arith, copy_name-short n name)

pub entry_name-short : (fs : Fs) (i : ℕ) → length (entry_name fs i) ≤ 32
entry_name-short fs i = copy_name-short max_name_length (dentry_at fs i).file_name

-- One call: before the end the name of the entry at the position, its length, and the next position;
-- from the end on 0 and nothing else.
pub read_directory_at-next :
    (fs : Fs) (p : ℕ)
    → dentry_count fs < 2147483648
    → p < dentry_count fs
    → read_directory_at fs p ≡ (length (entry_name fs p), entry_name fs p, p + 1)
unfolding read_directory_at read_dentry_by_index
read_directory_at-next fs p hc hp = ground arith

pub read_directory_at-end :
    (fs : Fs) (p : ℕ) → p < 2147483648 → dentry_count fs ≤ p → read_directory_at fs p ≡ (0, [], p)
unfolding read_directory_at
read_directory_at-end fs p hp hc = ground arith

-- `n` calls in a row: the names that they deliver, and the position after them.
pub read_directory_times : Fs → ℕ → ℕ → List (List ℕ) × ℕ
read_directory_times fs zero p = ([], p)
read_directory_times fs (suc n) p =
    let (ret, name, p') = read_directory_at fs p in
    let (names, q) = read_directory_times fs n p' in (name ∷ names, q)

abbrev pub names_from : Fs → ℕ → ℕ → List (List ℕ)
names_from fs zero p = []
names_from fs (suc n) p = entry_name fs p ∷ names_from fs n (p + 1)

read_directory_times-names :
    (fs : Fs)
    → dentry_count fs < 2147483648
    → (n p q : ℕ) → p + n ≡ q
    → q ≤ dentry_count fs
    → read_directory_times fs n p ≡ (names_from fs n p, q)
unfolding read_directory_times
read_directory_times-names fs hc zero p q e hq = let e' : p ≡ q = omega arith in rw e'
read_directory_times-names fs hc (suc n) p q e hq = rw (
  read_directory_at-next fs p hc (omega arith),
  read_directory_times-names fs hc n (p + 1) q (omega arith) hq,
)

-- Called once for each entry from the first on, `read_directory` delivers every name of the image in
-- order; each call after that returns 0, writes nothing and leaves the position.
pub read_directory_lists :
    (fs : Fs)
    → dentry_count fs < 2147483648
    → (read_directory_times fs (dentry_count fs) 0
        ≡ (names_from fs (dentry_count fs) 0, dentry_count fs))
      × (read_directory_at fs (dentry_count fs) ≡ (0, [], dentry_count fs))
read_directory_lists fs hc = (
  read_directory_times-names fs hc (dentry_count fs) 0 (dentry_count fs) (omega arith)
      (omega arith),
  read_directory_at-end fs (dentry_count fs) hc (omega arith),
)
