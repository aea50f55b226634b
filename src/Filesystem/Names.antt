-- ===== src/Filesystem/Names.antt =====
-- What `read_dentry_by_name` finds.
use lime_os.Prelude.{
  ℕ, zero, suc, ◌+◌, ◌<◌, ◌≤◌, ◌≡◌, refl, sym, ◌∙◌, subst, ◌↔◌, min, Bool, true, ◌&&◌, List, [],
  ◌∷◌, Option, none, some, length, get_or, take, ltb, ◌==◌, if◌then◌else◌, Bool-cases, inl, inr,
  arith,
}
use native.Mathlib.Decide.{ℕ_discrete}
use lime_os.Filesystem.{
  Fs, Dentry, dentry_at, same_char, compare_name, name_matches, name_length, find_dentry, rounds,
  dentry_count, read_dentry_by_name, copy_name, max_name_length,
}

-- A string of ASCII characters: no byte is '\0' or has the top bit set.
abbrev pub IsAscii : List ℕ → Type 0
IsAscii [] = Unit
IsAscii (c ∷ s) = (0 < c) × (c < 128) × IsAscii s

compare_name-cons :
    (n : ℕ) (c d : ℕ) (name fname : List ℕ) (j : ℕ)
    → compare_name n (c ∷ name) (d ∷ fname) (suc j)
      ≡ (suc (compare_name n name fname j).0, (compare_name n name fname j).1)
unfolding compare_name
compare_name-cons zero c d name fname j = refl
compare_name-cons (suc n) c d name fname j =
    let e : suc j + 1 ≡ suc (j + 1) = omega arith in
    rw (e, compare_name-cons n c d name fname (j + 1)) (ground arith)

-- The tests after the loop, for names of at most `m` bytes.
abbrev accepts : ℕ → List ℕ → ℕ × Bool → Bool
accepts m name r = if r.1 && ltb r.0 m then get_or name r.0 0 == 0 else r.1

accepts-suc :
    (m c : ℕ) (name : List ℕ) (r : ℕ × Bool)
    → accepts (suc m) (c ∷ name) (suc r.0, r.1) ≡ accepts m name r
accepts-suc m c name r = ground arith

accepts-copy_name :
    (m r : ℕ) (name fname : List ℕ)
    → length name ≡ m
    → r ≡ min m (length fname)
    → IsAscii fname
    → (accepts m name (compare_name r name fname 0) ≡ true) ↔ (copy_name m name ≡ take m fname)
unfolding compare_name copy_name
accepts-copy_name zero zero name fname hl hr ha = ((λ _. refl), (λ _. ground arith))
accepts-copy_name zero (suc r) name fname hl hr ha = absurd (omega arith)
accepts-copy_name (suc m) r [] fname hl hr ha = absurd (omega arith)
accepts-copy_name (suc m) zero (c ∷ name) [] hl hr ha = ground arith
accepts-copy_name (suc m) (suc r) (c ∷ name) [] hl hr ha = absurd (omega arith)
accepts-copy_name (suc m) zero (c ∷ name) (d ∷ fname) hl hr ha = absurd (omega arith)
accepts-copy_name (suc m) (suc r) (c ∷ name) (d ∷ fname) hl hr ha =
    let ih = accepts-copy_name m r name fname (omega arith) (omega arith) ha.2 in
    rw (compare_name-cons r c d name fname 0) (elim (Bool-cases (same_char c d)) [
      | inl same ↦ rw same (
        (λ h.
            let low = ih.0 (sym (accepts-suc m c name (compare_name r name fname 0)) ∙ h) in
            ground arith),
        (λ h. accepts-suc m c name (compare_name r name fname 0) ∙ ih.1 (ground arith)),
      )
      | inr differ ↦ rw differ ((λ h. absurd (ground arith)), (λ h. ground arith))
    ])

-- The entry's name field, read as a string of at most 32 bytes, is what the code compares with the
-- given name cut to 32 bytes.
abbrev pub IsNamed : List ℕ → Dentry → Type 0
IsNamed fname d = copy_name max_name_length d.file_name ≡ take max_name_length fname

length-file_name : (fs : Fs) (i : ℕ) → length (dentry_at fs i).file_name ≡ max_name_length
unfolding dentry_at
length-file_name fs i = refl

name_matches-IsNamed :
    (fs : Fs) (i : ℕ) (fname : List ℕ)
    → IsAscii fname
    → (name_matches (dentry_at fs i).file_name fname ≡ true) ↔ IsNamed fname (dentry_at fs i)
unfolding name_matches
name_matches-IsNamed fs i fname ha =
    accepts-copy_name max_name_length (name_length fname) (dentry_at fs i).file_name fname
      (length-file_name fs i) (ground arith) ha

-- What a search among the entries from `i` up to `j` may answer: the first entry of that name, or
-- nothing where no entry has it.
abbrev pub Finds : Fs → List ℕ → ℕ → ℕ → Option Dentry → Type 0
Finds fs fname i j none = (k : ℕ) → i ≤ k → k < j → ¬ IsNamed fname (dentry_at fs k)
Finds fs fname i j (some d) =
    (k : ℕ) × (i ≤ k)
    × (k < j)
    × (d ≡ dentry_at fs k)
    × IsNamed fname d
    × ((l : ℕ) → i ≤ l → l < k → ¬ IsNamed fname (dentry_at fs l))

Finds-skip :
    (fs : Fs) (fname : List ℕ) (i j : ℕ) (r : Option Dentry)
    → ¬ IsNamed fname (dentry_at fs i)
    → Finds fs fname (i + 1) j r
    → Finds fs fname i j r
Finds-skip fs fname i j none no_i h = λ k hi hj. elim (ℕ_discrete i k) [
  | yes e ↦ subst (λ x. ¬ IsNamed fname (dentry_at fs x)) e no_i
  | no ne ↦ h k (omega arith) hj
]
Finds-skip fs fname i j (some d) no_i (k, lo, hi, e, named, first) = (
  k,
  omega arith,
  hi,
  e,
  named,
  λ l hl hk. elim (ℕ_discrete i l) [
    | yes eq ↦ subst (λ x. ¬ IsNamed fname (dentry_at fs x)) eq no_i
    | no ne ↦ first l (omega arith) hk
  ],
)

find_dentry-Finds :
    (fs : Fs) (fname : List ℕ)
    → IsAscii fname
    → (n i j : ℕ) → i + n ≡ j
    → Finds fs fname i j (find_dentry fs fname n i)
unfolding find_dentry
find_dentry-Finds fs fname ha zero i j e = λ k lo hi. absurd (omega arith)
find_dentry-Finds fs fname ha (suc n) i j e =
    elim (Bool-cases (name_matches (dentry_at fs i).file_name fname)) [
      | inl found ↦ rw found (
        i,
        omega arith,
        omega arith,
        refl,
        (name_matches-IsNamed fs i fname ha).0 found,
        λ l hl hk. absurd (omega arith),
      )
      | inr other ↦ rw other (
          Finds-skip fs fname i j _
            (λ named. let t = (name_matches-IsNamed fs i fname ha).1 named in cc)
            (find_dentry-Finds fs fname ha n (i + 1) j (omega arith)))
    ]

-- For an ASCII name `read_dentry_by_name` copies the first of the image's entries whose name is the
-- given one cut to 32 bytes, and fails exactly where no entry has that name.
pub read_dentry_by_name-Finds :
    (fs : Fs) (fname : List ℕ)
    → IsAscii fname
    → Finds fs fname 0 (rounds (dentry_count fs)) (read_dentry_by_name fs fname)
unfolding read_dentry_by_name
read_dentry_by_name-Finds fs fname ha =
    find_dentry-Finds fs fname ha (rounds (dentry_count fs)) 0 _ (omega arith)
