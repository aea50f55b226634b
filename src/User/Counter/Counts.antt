-- ===== src/User/Counter/Counts.antt =====
-- What counter shows.
use lime_os.Prelude.{
  ℕ, zero, suc, ◌+◌, ◌/◌, ◌<◌, ◌≤◌, ◌≡◌, ◌⊎◌, refl, sym, ap, ◌∙◌, subst, false, true, Bool-cases,
  inl, inr, List, [], ◌∷◌, ◌++◌, reverse, reverse-append, append_assoc, append-nil, length,
  length-append, ◌==◌, if◌then◌else◌, arith,
}
use lime_os.Strings.{lookup_digit, digits_from, itoa}
use lime_os.Strings.Compare.{IsString}
use lime_os.Strings.Reverse.{strrev-reverse}
use lime_os.Process.{stdout_table, Kernel, in_use}
use lime_os.Syscall.{entry}
use lime_os.Syscall.Written.{written}
use lime_os.User.{World, done, ece391_read}
use lime_os.User.Support.{ece391_strlen}
use lime_os.User.Cat.Reads.{shown, shown-none, shown-text}
use lime_os.User.Puts.{fdputs-written, fdputs-appends}
use lime_os.User.Texts
use lime_os.User.Counter.{counter_max, counter_loop, counter_main, is_wrong}

digits_from-IsString : (f v : ℕ) → IsString (digits_from f 10 v)
unfolding digits_from lookup_digit
digits_from-IsString zero v = tt
digits_from-IsString (suc f) v = elim (Bool-cases (v == 0)) [
  | inl none ↦ rw none tt
  | inr more ↦ rw more (ground arith, ground arith, digits_from-IsString f (v / 10))
]

digits_from-length : (f v : ℕ) → length (digits_from f 10 v) ≤ f
unfolding digits_from
digits_from-length zero v = omega arith
digits_from-length (suc f) v = elim (Bool-cases (v == 0)) [
  | inl none ↦ rw none (omega arith)
  | inr more ↦ rw more (omega (arith, digits_from-length f (v / 10)))
]

digits_from-some : (f v : ℕ) → (v == 0) ≡ false → 0 < length (digits_from (suc f) 10 v)
unfolding digits_from
digits_from-some f v h = rw h (omega arith)

append-IsString : (s : List ℕ) (c : ℕ) → IsString s → 0 < c → c < 256 → IsString (s ++ c ∷ [])
append-IsString [] c h lo hi = (lo, hi, tt)
append-IsString (d ∷ s) c h lo hi = (h.0, h.1, append-IsString s c h.2 lo hi)

reverse-IsString : (s : List ℕ) → IsString s → IsString (reverse s)
reverse-IsString [] h = tt
reverse-IsString (c ∷ s) h =
    subst IsString (sym (reverse-append (c ∷ []) s))
      (append-IsString (reverse s) c (reverse-IsString s h.2) h.0 h.1)

length-reverse : (s : List ℕ) → length (reverse s) ≡ length s
length-reverse [] = refl
length-reverse (c ∷ s) =
    ap (λ (t : List ℕ). length t) (reverse-append (c ∷ []) s)
    ∙ length-append (reverse s) (c ∷ [])
    ∙ omega (arith, length-reverse s)

-- The decimal digits of a number that is not 0.
module _ (v : ℕ) (h : (v == 0) ≡ false) where
  itoa-reverse : itoa v 10 ≡ reverse (digits_from 33 10 v)
  unfolding itoa
  itoa-reverse = rw h (strrev-reverse (digits_from 33 10 v))

  itoa-IsString : IsString (itoa v 10)
  itoa-IsString = subst IsString (sym itoa-reverse) (reverse-IsString _ (digits_from-IsString 33 v))

  itoa-length : (0 < length (itoa v 10)) × (length (itoa v 10) ≤ 33)
  itoa-length =
      let size : length (itoa v 10) ≡ length (digits_from 33 10 v) =
        ap (λ (t : List ℕ). length t) itoa-reverse ∙ length-reverse (digits_from 33 10 v) in
      (omega (arith, size, digits_from-some 32 v h), omega (arith, size, digits_from-length 33 v))

-- `n` numbers behind `i` in decimal, each on a line of its own.
unfoldable pub numbers : ℕ → ℕ → List ℕ
numbers zero i = []
numbers (suc n) i = (itoa (i + 1) 10 ++ b'\n' ∷ []) ++ numbers n (i + 1)

module _ (k : Kernel) (used : (entry k 1).flags ≡ in_use)
    (ops : (entry k 1).operations ≡ stdout_table) where
  counter_loop-numbers :
      (n i : ℕ) (before : List ℕ)
      → counter_loop n i (shown k before) ≡ done tt (shown k (before ++ numbers n i))
  unfolding counter_loop numbers
  counter_loop-numbers zero i before = ap (λ t. done tt (shown k t)) (sym (append-nil before))
  counter_loop-numbers (suc n) i before =
      let more : (i + 1 == 0) ≡ false = ground arith in
      rw
        (
          fdputs-appends k before (itoa (i + 1) 10) used ops (itoa-IsString (i + 1) more)
              (itoa-length (i + 1) more).0 (omega (arith, itoa-length (i + 1) more)),
          fdputs-appends k (before ++ itoa (i + 1) 10) (b'\n' ∷ []) used ops
              (omega arith, omega arith, tt) (omega arith) (omega arith),
          counter_loop-numbers n (i + 1) ((before ++ itoa (i + 1) 10) ++ b'\n' ∷ []),
        )
        (ap (λ t. done tt (shown k t))
          (ap (λ t. t ++ numbers n (i + 1)) (append_assoc before (itoa (i + 1) 10) (b'\n' ∷ []))
            ∙ append_assoc before (itoa (i + 1) 10 ++ b'\n' ∷ []) (numbers n (i + 1))))

-- What the choice `c` brings to the screen.
unfoldable pub answer : ℕ → List ℕ
answer c =
    if c == b'0'
    then numbers 100 0
    else if c == b'1'
    then numbers 10000 0
    else if c == b'2'
    then numbers 100000 0
    else Texts.wrong_choice

strlen-texts :
    (ece391_strlen Texts.choose_test ≡ length Texts.choose_test)
    × (ece391_strlen Texts.wrong_choice ≡ length Texts.wrong_choice)
unfolding ece391_strlen
strlen-texts = (refl, refl)

-- A choice of one character is right or wrong.
choice :
    (c : ℕ)
    → 0 < c
    → ((is_wrong (c ∷ b'\n' ∷ []) ≡ false) × (numbers (counter_max c) 0 ≡ answer c))
      ⊎ ((is_wrong (c ∷ b'\n' ∷ []) ≡ true) × (Texts.wrong_choice ≡ answer c))
unfolding answer counter_max ece391_strlen
choice c some_choice =
    let letter : (c == 0) ≡ false = ground arith in
    rw letter (elim (Bool-cases (c == b'0')) [
      | inl zero_there ↦ rw zero_there (inl (ground arith, refl))
      | inr not_zero ↦ rw not_zero (elim (Bool-cases (c == b'1')) [
        | inl one_there ↦ rw one_there (inl (ground arith, refl))
        | inr not_one ↦ rw not_one (elim (Bool-cases (c == b'2')) [
          | inl two_there ↦ rw two_there (inl (ground arith, refl))
          | inr not_two ↦ rw not_two (inr (ground arith, refl))
        ])
      ])
    ])

-- When one character that is not '\0' and a newline are read at its question, counter writes the numbers from
-- 1 to 100, 10000 or 100000 on standard output, as the character is '0', '1' or '2', each in decimal on a
-- line of its own, in order, as one write of them all would, and else "Wrong Choice!", and returns 0.
-- Standard output is open before the question and after it.
pub counter_main-answers :
    (w : World) (k k0 : Kernel) (c : ℕ)
    → ((entry k 1).flags ≡ in_use) × ((entry k 1).operations ≡ stdout_table)
    → ((entry k0 1).flags ≡ in_use) × ((entry k0 1).operations ≡ stdout_table)
    → 0 < c
    → ece391_read w 0 1023 (written k Texts.choose_test) ≡ done (2, c ∷ b'\n' ∷ []) k0
    → counter_main w k ≡ done 0 (shown k0 (answer c))
unfolding counter_main
counter_main-answers w k k0 c out out0 some_choice typed =
    rw (fdputs-written k Texts.choose_test out.0 out.1 strlen-texts.0 (omega arith), typed)
      (elim (choice c some_choice) [
        | inl (right, e) ↦ rw (right, counting) (ap (λ t. done 0 (shown k0 t)) e)
        | inr (wrong, e) ↦
            rw
              (
                wrong,
                fdputs-written k0 Texts.wrong_choice out0.0 out0.1 strlen-texts.1 (omega arith),
              )
              (ap (done 0) (shown-text k0 Texts.wrong_choice (omega arith))
                ∙ ap (λ t. done 0 (shown k0 t)) e)
      ])
  where
    counting : counter_loop (counter_max c) 0 k0 ≡ done tt (shown k0 (numbers (counter_max c) 0))
    counting =
        ap (counter_loop (counter_max c) 0) (sym (shown-none k0))
        ∙ counter_loop-numbers k0 out0.0 out0.1 (counter_max c) 0 []
