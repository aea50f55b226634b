-- ===== src/Strings/Compare.antt =====
-- strncmp compares two strings as far as their first `n` bytes.
use lime_os.Prelude.{
  ℕ, zero, suc, ◌+◌, ◌<◌, ◌≡◌, refl, ◌↔◌, true, false, ◌||◌, not, List, [], ◌∷◌, take, ◌==◌, arith,
  Bool-cases, inl, inr,
}
use lime_os.Strings.{char_difference, compare_from, strncmp}

-- The bytes of a string: none of them is '\0'.
abbrev pub IsString : List ℕ → Type 0
IsString [] = Unit
IsString (c ∷ s) = (0 < c) × (c < 256) × IsString s

compare_from-cons :
    (n i a b : ℕ) (s1 s2 : List ℕ)
    → compare_from n (suc i) (a ∷ s1) (b ∷ s2) ≡ compare_from n i s1 s2
unfolding compare_from
compare_from-cons zero i a b s1 s2 = refl
compare_from-cons (suc n) i a b s1 s2 =
    let e : suc i + 1 ≡ suc (i + 1) = omega arith in rw (e, compare_from-cons n (i + 1) a b s1 s2)

char_difference-zero : (a b : ℕ) → a < 256 → b < 256 → char_difference a b ≡ 0 → a ≡ b
char_difference-zero a b ha hb h = ground arith

compare_from-take :
    (n : ℕ) (s1 s2 : List ℕ)
    → IsString s1
    → IsString s2
    → (compare_from n 0 s1 s2 ≡ 0) ↔ (take n s1 ≡ take n s2)
unfolding compare_from
compare_from-take zero s1 s2 h1 h2 = ((λ _. refl), (λ _. refl))
compare_from-take (suc n) [] [] h1 h2 = ((λ _. refl), (λ _. ground arith))
compare_from-take (suc n) [] (b ∷ s2) h1 h2 =
    ((λ h. absurd (ground (arith, char_difference-zero 0 b))), (λ h. cc))
compare_from-take (suc n) (a ∷ s1) [] h1 h2 =
    ((λ h. absurd (ground (arith, char_difference-zero a 0))), (λ h. cc))
compare_from-take (suc n) (a ∷ s1) (b ∷ s2) h1 h2 =
    let e : 0 + 1 ≡ suc 0 = omega arith in
    let ih = compare_from-take n s1 s2 h1.2 h2.2 in
    elim (Bool-cases (a == b)) [
      | inl same ↦
          let go : (not (a == b) || a == 0) ≡ false = ground arith in
          rw (go, compare_from-cons n 0 a b s1 s2)
            ((λ h. let r = ih.0 h in ground arith), (λ h. ih.1 (ground arith)))
      | inr differ ↦
          let stop : (not (a == b) || a == 0) ≡ true = ground arith in
          rw stop
            ((λ h. absurd (ground (arith, char_difference-zero a b))), (λ h. absurd (ground arith)))
    ]

-- strncmp returns 0 for exactly the pairs of strings whose first `n` bytes agree; a string that ends
-- before `n` counts as a whole.
pub strncmp-take :
    (s1 s2 : List ℕ) (n : ℕ)
    → IsString s1
    → IsString s2
    → (strncmp s1 s2 n ≡ 0) ↔ (take n s1 ≡ take n s2)
unfolding strncmp
strncmp-take s1 s2 n h1 h2 = compare_from-take n s1 s2 h1 h2
